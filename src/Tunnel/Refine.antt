-- ===== src/Tunnel/Refine.antt =====
-- client/src-tauri/src/udp_proxy.rs and relay/src/forwarder.rs together: the tunnel is two channels,
-- one for each direction, each of which loses, repeats and reorders payloads and makes none up.
use plgames_booster_up.Base.{
  ℕ, ◌≡◌, ◌≢◌, ◌<◌, ◌^◌, ◌++◌, ◌⊎◌, refl, sym, ap, subst, ◌∙◌, Bytes, Bool, true, false, Option,
  none, some, List, [], ◌∷◌, ◌==◌, if◌then◌else◌, arith, inl, inr, Option-cases, Bool-cases,
}
use plgames_booster_up.Net.{Ipv6Text, SocketAddr}
use plgames_booster_up.Relay.Protocol
use plgames_booster_up.Relay.Session.{SessionCache}
use plgames_booster_up.Relay.Forwarder.{ToGame, client_packet, reply_packet}
use plgames_booster_up.Relay.Forwarder.Client.{client_packet_forwards}
use plgames_booster_up.Client.Protocol.{PlgPacket}
use plgames_booster_up.Client.Proxy.{UdpProxy, from_relay, step, elem, relay_datagram, deliver}
use plgames_booster_up.Client.Proxy.Dedup.{relay_datagram-deliver, parse-reply}
use plgames_booster_up.Tunnel.{
  World, listed, handed, hands, Step, game_asks, timer_ticks, proxy_stops, client_heard,
  other_heard, server_answers, other_answers, relay_heard, relay_works, Reach, here, next,
}
use plgames_booster_up.Tunnel.Channel
use plgames_booster_up.Tunnel.Channel.{
  Channel, empty, Moves, Runs, stays, takes, brings, Runs-IsHonest,
}
use plgames_booster_up.Tunnel.Invariant.{IsSound, IsStart, start-IsSound, Step-IsSound}
use mathlib.Core.List.{Memᴰ}
use mathlib.Core.List.Memᴰ.{cast}

abbrev is_port : ℕ → Option ℕ → Bool
is_port port none = false
is_port port (some p) = p == port

-- The payloads among the datagrams to game servers that left on one port.
abbrev pub on_port : ℕ → List ToGame → List Bytes
on_port port [] = []
on_port port (d ∷ ds) =
    let rest = on_port port ds in if is_port port d.via.local_port then d.payload ∷ rest else rest

-- The two channels that a world stands for: from the game to its servers, and back.
abbrev pub up : ℕ → World → Channel
up port w = record { sent = w.asked; delivered = on_port port w.served }

abbrev pub down : World → Channel
down w = record { sent = w.answered; delivered = w.shown }

-- What leaves for a game server on the session's port is a payload of the game.
IsHonestSend : ℕ → List Bytes → Option ToGame → Type 0
IsHonestSend port asked out =
    (d : ToGame) → out ≡ some d → d.via.local_port ≡ some port → Memᴰ d.payload asked

is_port_sound : (port : ℕ) (o : Option ℕ) → is_port port o ≡ true → o ≡ some port
is_port_sound port none h = ground arith
is_port_sound port (some p) h = ground arith

up-Moves :
    (port : ℕ) (w : World) (c : SessionCache) (out : Option ToGame)
    → IsHonestSend port w.asked out
    → Moves (up port w) (up port (record w { cache = c; served = listed out ++ w.served }))
unfolding IsHonestSend
up-Moves port w c none h = stays
up-Moves port w c (some d) h = elim (Bool-cases (is_port port d.via.local_port)) [
  | inl ours ↦ rw ours (brings d.payload (h d refl (is_port_sound port d.via.local_port ours)))
  | inr other ↦ rw other stays
]

client_packet-IsHonestSend :
    (v6t : Ipv6Text) (token port : ℕ) (w : World) (now : ℕ) (from : SocketAddr) (bytes : Bytes)
    → IsSound token port w
    → Memᴰ bytes w.outward
    → IsHonestSend port w.asked (client_packet v6t w.cache now from bytes).1
unfolding IsHonestSend
client_packet-IsHonestSend v6t token port w now from bytes v m d sent via =
    let (packet, info, parsed, found, alive, control, target, socket, same) =
      client_packet_forwards v6t w.cache now from bytes d sent in
    let (read, read_parsed, _, carried) = v.ours bytes m in
    let one : packet ≡ read = ground arith in
    cast same (
      subst (λ p. Memᴰ (Protocol.PlgPacket.payload p) w.asked) (sym one)
        (carried (ground arith) (ground arith)))

other_packet-IsHonestSend :
    (v6t : Ipv6Text) (token port : ℕ) (w : World) (now : ℕ) (from : SocketAddr) (bytes : Bytes)
    → IsSound token port w
    → ((packet : Protocol.PlgPacket)
        → Protocol.parse bytes ≡ some packet
        → packet.session_id ≢ token)
    → IsHonestSend port w.asked (client_packet v6t w.cache now from bytes).1
unfolding IsHonestSend
other_packet-IsHonestSend v6t token port w now from bytes v other d sent via =
    let (packet, info, parsed, found, _, _, _, socket, _) =
      client_packet_forwards v6t w.cache now from bytes d sent in
    let (_, p, port_p, back) = v.consistent.keyed packet.session_id info found in
    let (_, q, port_q, own) = v.consistent.keyed token v.opened.info v.opened.found in
    let port_of = v.opened.port_of in
    let differs = other packet parsed in absurd (differs (ground arith))

-- What the proxy hands to the game comes from a packet that it has not seen, and is its payload.
handed-deliver :
    (p : UdpProxy) (packet : PlgPacket)
    → (handed (deliver p packet).1 ≡ []) ⊎ (handed (deliver p packet).1 ≡ packet.payload ∷ [])
unfolding deliver
handed-deliver p packet = elim (Bool-cases (elem packet.seq_number p.seen_seqs)) [
  | inl seen ↦ inl (rw (seen, deliver) refl)
  | inr new ↦ elim (Option-cases p.game_addr) [
    | inl nobody ↦ inl (rw (new, deliver) (rw nobody refl))
    | inr (addr, known) ↦ inr (rw (new, deliver) (rw known refl))
  ]
]

-- A reply of the relay, whose payload is known.
pub step-reply :
    (second now : ℕ) (p : UdpProxy) (token : ℕ) (payload : Bytes)
    → token < 2 ^ 32
    → let reply : PlgPacket = record {
      session_id = token;
      seq_number = 0;
      flags = 0;
      path_id = 0;
      payload = payload;
    } in
      let r = step second p (from_relay now (Protocol.serialize (reply_packet token payload))) in
      (r ≡ (p, [])) ⊎ (r ≡ deliver p reply)
unfolding step
step-reply second now p token payload fits = elim (Bool-cases p.running) [
  | inl on ↦ inr (round on ∙ relay_datagram-deliver p now _ _ (parse-reply token payload fits))
  | inr off ↦ inl (round off)
]
  where
    bytes : Bytes
    bytes = Protocol.serialize (reply_packet token payload)

    round :
        {b : Bool}
        → p.running ≡ b
        → step second p (from_relay now bytes) ≡ (if b then relay_datagram p now bytes else (p, []))
    round h = ap (λ (b : Bool). if b then relay_datagram p now bytes else (p, [])) h

-- At most the answer that a reply carries is handed to the game.
pub handed-reply :
    (second now : ℕ) (p : UdpProxy) (token : ℕ) (payload : Bytes)
    → token < 2 ^ 32
    → let r = step second p (from_relay now (Protocol.serialize (reply_packet token payload))) in
      (handed r.1 ≡ []) ⊎ (handed r.1 ≡ payload ∷ [])
handed-reply second now p token payload fits = elim (step-reply second now p token payload fits) [
  | inl off ↦ inl (rw off refl)
  | inr on ↦ rw on (
      handed-deliver p
        (record { session_id = token; seq_number = 0; flags = 0; path_id = 0; payload = payload }))
]

down-Moves :
    (w : World) (q : UdpProxy) (x : Bytes) (out : List Bytes)
    → Memᴰ x w.answered
    → (out ≡ []) ⊎ (out ≡ x ∷ [])
    → Moves (down w) (down (record w { proxy = q; shown = out ++ w.shown }))
down-Moves w q x out known (inl nothing) = rw nothing stays
down-Moves w q x out known (inr one) = rw one (brings x known)

hands-Moves :
    (second token port : ℕ) (w : World) (now : ℕ) (bytes : Bytes)
    → IsSound token port w
    → Memᴰ bytes w.homeward
    → Moves (down w) (down (hands second w now bytes))
hands-Moves second token port w now bytes v m =
    let (payload, known, same) = v.replied bytes m in
    down-Moves w (step second w.proxy (from_relay now bytes)).0 payload
      (handed (step second w.proxy (from_relay now bytes)).1) known
      (subst
        (λ b.
          let out = handed (step second w.proxy (from_relay now b)).1 in
          (out ≡ []) ⊎ (out ≡ payload ∷ []))
        (sym same) (handed-reply second now w.proxy token payload v.fits))

up-empty : (port : ℕ) (w : World) → w.asked ≡ [] → w.served ≡ [] → up port w ≡ empty
up-empty port w asked served = rw asked (rw served refl)

down-empty : (w : World) → w.answered ≡ [] → w.shown ≡ [] → down w ≡ empty
down-empty w answered shown = rw answered (rw shown refl)

module _ {v6t : Ipv6Text} {api_key : Bytes} {start_time second token port : ℕ} where
  -- Each step of the tunnel is at most one move of each channel.
  pub Step-Moves :
      {w u : World}
      → Step v6t api_key start_time second token port w u
      → IsSound token port w
      → Moves (up port w) (up port u) × Moves (down w) (down u)
  Step-Moves {w} (game_asks src payload) v = (takes payload, stays)
  Step-Moves {w} (timer_ticks now) v = (stays, stays)
  Step-Moves {w} proxy_stops v = (stays, stays)
  Step-Moves {w} (client_heard now from bytes m) v = (
    up-Moves port w (client_packet v6t w.cache now from bytes).0
        (client_packet v6t w.cache now from bytes).1
        (client_packet-IsHonestSend v6t token port w now from bytes v m),
    stays,
  )
  Step-Moves {w} (other_heard now from bytes other) v = (
    up-Moves port w (client_packet v6t w.cache now from bytes).0
        (client_packet v6t w.cache now from bytes).1
        (other_packet-IsHonestSend v6t token port w now from bytes v other),
    stays,
  )
  Step-Moves {w} (server_answers payload) v = (stays, takes payload)
  Step-Moves {w} (other_answers other payload ne) v = (stays, stays)
  Step-Moves {w} (relay_heard now bytes m) v =
      (stays, hands-Moves second token port w now bytes v m)
  Step-Moves {w} (relay_works d work opened) v = (stays, stays)

  pub Reach-IsSound :
      {w u : World}
      → IsSound token port w
      → Reach v6t api_key start_time second token port w u
      → IsSound token port u
  Reach-IsSound v here = v
  Reach-IsSound v (next r s) = Step-IsSound s (Reach-IsSound v r)

  Reach-Runs :
      {w u : World}
      → IsSound token port w
      → Reach v6t api_key start_time second token port w u
      → Runs (up port w) (up port u) × Runs (down w) (down u)
  Reach-Runs v here = (Channel.here, Channel.here)
  Reach-Runs v (next r s) =
      let (above, below) = Reach-Runs v r in
      let (on, back) = Step-Moves s (Reach-IsSound v r) in
      (Channel.next above on, Channel.next below back)

  pub tunnel_refines :
      (w u : World)
      → IsStart token port w
      → Reach v6t api_key start_time second token port w u
      → Runs empty (up port u) × Runs empty (down u)
  tunnel_refines w u s r =
      let (above, below) = Reach-Runs (start-IsSound token port w s) r in
      (
        subst (λ c. Runs c (up port u)) (up-empty port w s.asked s.served) above,
        subst (λ c. Runs c (down u)) (down-empty w s.answered s.shown) below,
      )

  -- In such a run, each payload that leaves the relay on the session's port was sent by the game, and
  -- each payload that the game is handed arrived at the relay on that port.
  pub tunnel_is_honest :
      (w u : World)
      → IsStart token port w
      → Reach v6t api_key start_time second token port w u
      → ((x : Bytes) → Memᴰ x (on_port port u.served) → Memᴰ x u.asked)
        × ((x : Bytes) → Memᴰ x u.shown → Memᴰ x u.answered)
  tunnel_is_honest w u s r =
      let (above, below) = tunnel_refines w u s r in
      (Runs-IsHonest above (λ x m. elim m [ ]), Runs-IsHonest below (λ x m. elim m [ ]))
