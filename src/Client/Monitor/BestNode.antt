-- ===== src/Client/Monitor/BestNode.antt =====
-- client/src-tauri/src/smart_monitor.rs: `find_best_node`.
use plgames_booster_up.Base.{
  codes, Bool, ◌||◌, Option, none, some, List, [], ◌∷◌, if◌then◌else◌, is_empty, bytes_eq,
}
use plgames_booster_up.Base.Floats.{F64, ltb_f64}
use plgames_booster_up.Base.Results.{Result, ok, err}
use plgames_booster_up.Client.Api.Types.{NodeInfo, NodePingResponse}
use plgames_booster_up.Client.Api.Http.{ApiError, Server, Json, History}
use plgames_booster_up.Client.Api.Requests
use plgames_booster_up.Client.Api.Requests.{ApiClient, exchange}

-- The float 999.0.
abbrev pub no_ping : F64
no_ping = 0x408F380000000000

abbrev pub is_active : NodeInfo → Bool
is_active n = bytes_eq n.status (codes "active") || bytes_eq n.status (codes "online")

unfoldable pub active_nodes : List NodeInfo → List NodeInfo
active_nodes [] = []
active_nodes (n ∷ ns) = if is_active n then n ∷ active_nodes ns else active_nodes ns

abbrev pub first_node : List NodeInfo → Option (NodeInfo × F64)
first_node [] = none
first_node (n ∷ ns) = some (n, no_ping)

abbrev pub or_else : Option (NodeInfo × F64) → Option (NodeInfo × F64) → Option (NodeInfo × F64)
or_else none other = other
or_else (some best) other = some best

-- The better of the best so far and a node with its ping.
unfoldable pub better : Option (NodeInfo × F64) → NodeInfo → F64 → Option (NodeInfo × F64)
better none node ping = some (node, ping)
better (some (best, best_ping)) node ping =
    if ltb_f64 ping best_ping then some (node, ping) else some (best, best_ping)

-- One turn of the loop: a ping that fails or has no time changes nothing.
unfoldable pub consider :
    Option (NodeInfo × F64) → NodeInfo → Result ApiError NodePingResponse → Option (NodeInfo × F64)
unfolding better
consider best node (err e) = best
consider best node (ok resp) = elim resp.ping_ms [ none ↦ best | some ping ↦ better best node ping ]

module _ (server : Server) (json : Json) (api : ApiClient) where
  -- The pings of the nodes, in order.
  unfoldable pub ping_all :
      List NodeInfo → Option (NodeInfo × F64) → History → Option (NodeInfo × F64) × History
  unfolding exchange consider
  ping_all [] best sent = (best, sent)
  ping_all (node ∷ nodes) best sent =
      let (r, sent') = Requests.ping_node server json api node.id sent in
      ping_all nodes (consider best node r) sent'

  -- The first node stands in when no node is active or no ping has a time.
  unfoldable pub pick : List NodeInfo → History → Option (NodeInfo × F64) × History
  unfolding active_nodes ping_all
  pick nodes sent =
      if is_empty (active_nodes nodes)
      then (first_node nodes, sent)
      else (let (best, sent') = ping_all (active_nodes nodes) none sent in
          (or_else best (first_node nodes), sent'))

  unfoldable pub find_best_node : History → Option (NodeInfo × F64) × History
  unfolding exchange pick
  find_best_node sent =
      let (r, sent') = Requests.get_nodes server json api sent in
      elim r [ err e ↦ (none, sent') | ok nodes ↦ pick nodes sent' ]
