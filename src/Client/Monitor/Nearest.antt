-- ===== src/Client/Monitor/Nearest.antt =====
-- client/src-tauri/src/smart_monitor.rs: the node that `find_best_node` finds.
use plgames_booster_up.Base.{◌≡◌, false, Option, none, some, List, [], ◌∷◌, All}
use plgames_booster_up.Base.Floats.{F64, ltb_f64}
use plgames_booster_up.Base.Results.{Result, ok, err}
use plgames_booster_up.Client.Api.Types.{NodeInfo, NodePingResponse}
use plgames_booster_up.Client.Api.Http.{ApiError, Server, Json, History}
use plgames_booster_up.Client.Api.Requests
use plgames_booster_up.Client.Api.Requests.{ApiClient}
use plgames_booster_up.Client.Monitor.BestNode.{better}
use mathlib.Core.List.{Memᴰ}

-- A node, and what a ping of it came to, put in front of the answers when it has a time.
abbrev answer :
    NodeInfo → Result ApiError NodePingResponse → List (NodeInfo × F64) → List (NodeInfo × F64)
answer node (err e) rest = rest
answer node (ok resp) rest = elim resp.ping_ms [ none ↦ rest | some ping ↦ (node, ping) ∷ rest ]

module _ (server : Server) (json : Json) (api : ApiClient) where
  -- The nodes that answer with a time when they are pinged in turn.
  unfoldable pub answered : List NodeInfo → History → List (NodeInfo × F64)
  answered [] sent = []
  answered (node ∷ nodes) sent =
      let (r, sent') = Requests.ping_node server json api node.id sent in
      answer node r (answered nodes sent')

-- The best of a first node and the others.
choose : Option (NodeInfo × F64) → List (NodeInfo × F64) → Option (NodeInfo × F64)
unfolding better
choose best [] = best
choose best ((node, ping) ∷ rest) = choose (better best node ping) rest

-- A node and its ping are among the answers, and no answer has a lower ping.
pub record IsBest (best : NodeInfo × F64) (answers : List (NodeInfo × F64)) : Type 0 where
  pub found : Memᴰ best answers
  pub lowest : All (λ q. ltb_f64 q.1 best.1 ≡ false) answers
