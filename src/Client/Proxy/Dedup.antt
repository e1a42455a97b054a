-- ===== src/Client/Proxy/Dedup.antt =====
-- client/src-tauri/src/udp_proxy.rs: what the set of seen sequence numbers does, alone and against
-- the sequence numbers that the relay writes.
use plgames_booster_up.Base.{
  ℕ, ◌≡◌, ◌≤◌, ◌<◌, ◌^◌, refl, inl, inr, Bool, true, false, Bytes, some, List, [], ◌∷◌, ◌++◌, ◌∙◌,
  subst, ap, ap₂, if◌then◌else◌, arith, length, Option-cases, Bool-cases,
}
use plgames_booster_up.Base.Maps.{get}
use plgames_booster_up.Net.{SocketAddr}
use plgames_booster_up.Relay.Protocol
use plgames_booster_up.Relay.Forwarder.{reply_packet}
use plgames_booster_up.Client.Protocol.{PlgPacket, parse, is_keepalive}
use plgames_booster_up.Client.Proxy.{
  UdpProxy, Sent, to_game, Input, from_game, from_relay, from_backup, tick, add_u64, elem, max_seen,
  deliver, relay_datagram, backup_datagram, keepalive_answer, step, run,
}

-- A datagram with a packet that is no keepalive, and what both receiving tasks do with it.
abbrev pub Carries : Bytes → PlgPacket → Type 0
Carries bytes packet = (parse bytes ≡ some packet) × (is_keepalive packet ≡ false)

pub relay_datagram-deliver :
    (p : UdpProxy) (now : ℕ) (bytes : Bytes) (packet : PlgPacket)
    → Carries bytes packet
    → relay_datagram p now bytes ≡ deliver p packet
unfolding relay_datagram
relay_datagram-deliver p now bytes packet h = rw (h.0, relay_datagram) (rw h.1)

backup_datagram-deliver :
    (p : UdpProxy) (bytes : Bytes) (packet : PlgPacket)
    → Carries bytes packet
    → backup_datagram p bytes ≡ deliver p packet
unfolding backup_datagram
backup_datagram-deliver p bytes packet h = rw (h.0, backup_datagram) (rw h.1)

deliver_seen :
    (p : UdpProxy) (packet : PlgPacket)
    → elem packet.seq_number p.seen_seqs ≡ true
    → deliver p packet ≡ (record p { duplicates_dropped = add_u64 p.duplicates_dropped 1 }, [])
unfolding deliver
deliver_seen p packet h = rw (h, deliver)

-- A packet that is delivered is remembered, unless the set was full.
deliver-elem :
    (p : UdpProxy) (packet : PlgPacket)
    → length p.seen_seqs < max_seen
    → elem packet.seq_number (deliver p packet).0.seen_seqs ≡ true
unfolding deliver
deliver-elem p packet h = ground arith

deliver_same :
    (p : UdpProxy) (x y : PlgPacket)
    → x.seq_number ≡ y.seq_number
    → elem x.seq_number p.seen_seqs ≡ true
    → deliver p y ≡ (record p { duplicates_dropped = add_u64 p.duplicates_dropped 1 }, [])
deliver_same p x y same h = deliver_seen p y (subst (λ s. elem s p.seen_seqs ≡ true) same h)

-- Of two packets with one sequence number that arrive one after the other, none of them a
-- keepalive, the second is dropped and counted, whichever of the two relays each comes from, if
-- fewer than 10000 numbers are remembered before the first.
pub duplicate_dropped :
    (p : UdpProxy) (now : ℕ) (a b : Bytes) (x y : PlgPacket)
    → Carries a x
    → Carries b y
    → x.seq_number ≡ y.seq_number
    → length p.seen_seqs < max_seen
    → let after_relay = (relay_datagram p now a).0 in
      let after_backup = (backup_datagram p a).0 in
      let dropped =
        λ (q : UdpProxy). record q { duplicates_dropped = add_u64 q.duplicates_dropped 1 } in
      (backup_datagram after_relay b ≡ (dropped after_relay, []))
      × (relay_datagram after_backup now b ≡ (dropped after_backup, []))
      × (relay_datagram after_relay now b ≡ (dropped after_relay, []))
      × (backup_datagram after_backup b ≡ (dropped after_backup, []))
duplicate_dropped p now a b x y ha hb same room =
    let again = deliver_same (deliver p x).0 x y same (deliver-elem p x room) in
    (
      rw (relay_datagram-deliver p now a x ha)
          (backup_datagram-deliver (deliver p x).0 b y hb ∙ again),
      rw (backup_datagram-deliver p a x ha)
          (relay_datagram-deliver (deliver p x).0 now b y hb ∙ again),
      rw (relay_datagram-deliver p now a x ha)
          (relay_datagram-deliver (deliver p x).0 now b y hb ∙ again),
      rw (backup_datagram-deliver p a x ha)
          (backup_datagram-deliver (deliver p x).0 b y hb ∙ again),
    )

-- The set never holds more than 10000 numbers.
abbrev IsLimited : UdpProxy → Type 0
IsLimited p = length p.seen_seqs ≤ max_seen

deliver-IsLimited :
    (p : UdpProxy) (packet : PlgPacket) → IsLimited p → IsLimited (deliver p packet).0
unfolding deliver
deliver-IsLimited p packet h = ground arith

relay_datagram-IsLimited :
    (p : UdpProxy) (now : ℕ) (bytes : Bytes)
    → IsLimited p
    → IsLimited (relay_datagram p now bytes).0
unfolding relay_datagram keepalive_answer
relay_datagram-IsLimited p now bytes h = elim (Option-cases (parse bytes)) [
  | inl e ↦ rw (e, relay_datagram) h
  | inr (packet, e) ↦ elim (Bool-cases (is_keepalive packet)) [
    | inl k ↦ elim (Option-cases (get packet.seq_number p.keepalive_sent)) [
      | inl g ↦ rw (e, relay_datagram) (rw k (rw (g, keepalive_answer) h))
      | inr (t, g) ↦ rw (e, relay_datagram) (rw k (rw (g, keepalive_answer) h))
    ]
    | inr k ↦ rw (relay_datagram-deliver p now bytes packet (e, k)) (deliver-IsLimited p packet h)
  ]
]

backup_datagram-IsLimited :
    (p : UdpProxy) (bytes : Bytes) → IsLimited p → IsLimited (backup_datagram p bytes).0
unfolding backup_datagram
backup_datagram-IsLimited p bytes h = elim (Option-cases (parse bytes)) [
  | inl e ↦ rw (e, backup_datagram) h
  | inr (packet, e) ↦ elim (Bool-cases (is_keepalive packet)) [
    | inl k ↦ rw (e, backup_datagram) (rw k h)
    | inr k ↦ rw (backup_datagram-deliver p bytes packet (e, k)) (deliver-IsLimited p packet h)
  ]
]

step-IsLimited :
    (second : ℕ) (p : UdpProxy) (i : Input) → IsLimited p → IsLimited (step second p i).0
unfolding step
step-IsLimited second p (from_game src payload) h = ground arith
step-IsLimited second p (from_relay now bytes) h =
    ground (arith, relay_datagram-IsLimited p now bytes h)
step-IsLimited second p (from_backup bytes) h = ground (arith, backup_datagram-IsLimited p bytes h)
step-IsLimited second p (tick now) h = ground arith

-- Through any sequence of datagrams and ticks the set of seen sequence numbers never holds more
-- than 10000 numbers, if it does not at the start.
pub run-IsLimited :
    (second : ℕ) (p : UdpProxy) (inputs : List Input)
    → IsLimited p
    → IsLimited (run second p inputs).0
unfolding run
run-IsLimited second p [] h = h
run-IsLimited second p (i ∷ is) h =
    run-IsLimited second (step second p i).0 is (step-IsLimited second p i h)

-- What the client makes of a reply that the relay has built.
pub parse-reply :
    (token : ℕ) (payload : Bytes)
    → token < 2 ^ 32
    → Carries
        (Protocol.serialize (reply_packet token payload))
        (record { session_id = token; seq_number = 0; flags = 0; path_id = 0; payload = payload })
unfolding parse is_keepalive Protocol.serialize reply_packet
parse-reply token payload h = (ground arith, refl)

-- The replies with some payloads as inputs of the client.
abbrev pub reply_input : ℕ → ℕ → Bytes → Input
reply_input now token payload = from_relay now (Protocol.serialize (reply_packet token payload))

abbrev pub reply_inputs : ℕ → ℕ → List Bytes → List Input
reply_inputs now token [] = []
reply_inputs now token (x ∷ xs) = reply_input now token x ∷ reply_inputs now token xs

step_reply :
    (second now : ℕ) (p : UdpProxy) (token : ℕ) (payload : Bytes)
    → token < 2 ^ 32
    → p.running ≡ true
    → step second p (reply_input now token payload)
      ≡ deliver p
          (record { session_id = token; seq_number = 0; flags = 0; path_id = 0; payload = payload })
unfolding step
step_reply second now p token payload ht hr =
    ap
      (λ (running : Bool).
        if running
        then relay_datagram p now (Protocol.serialize (reply_packet token payload))
        else (p, []))
      hr
    ∙ relay_datagram-deliver p now _ _ (parse-reply token payload ht)

-- Behind the first reply every further one is a duplicate.
run_dropped :
    (second now : ℕ) (p : UdpProxy) (token : ℕ) (payloads : List Bytes)
    → token < 2 ^ 32
    → p.running ≡ true
    → elem 0 p.seen_seqs ≡ true
    → (run second p (reply_inputs now token payloads)).1 ≡ []
unfolding run
run_dropped second now p token [] ht hr h = refl
run_dropped second now p token (x ∷ xs) ht hr h =
    rw (step_reply second now p token x ht hr ∙ deliver_seen p _ h) (
      run_dropped second now (record p { duplicates_dropped = add_u64 p.duplicates_dropped 1 })
        token xs ht hr h)

pub deliver_new :
    (p : UdpProxy) (packet : PlgPacket) (addr : SocketAddr)
    → elem packet.seq_number p.seen_seqs ≡ false
    → p.game_addr ≡ some addr
    → (deliver p packet).1 ≡ to_game addr packet.payload ∷ []
unfolding deliver
deliver_new p packet addr h hg = rw (h, deliver) (rw hg refl)

deliver-running : (p : UdpProxy) (packet : PlgPacket) → (deliver p packet).0.running ≡ p.running
unfolding deliver
deliver-running p packet = ground arith

-- Of any number of replies that the relay builds for a session, only the first reaches the game
-- through a running proxy that knows the game's address and has not yet seen a sequence number: the relay writes sequence number
-- 0 into each of them, so that the client takes the others for duplicates.
pub first_reply_only :
    (second now : ℕ) (p : UdpProxy) (addr : SocketAddr) (token : ℕ) (x : Bytes) (xs : List Bytes)
    → token < 2 ^ 32
    → p.running ≡ true
    → p.seen_seqs ≡ []
    → p.game_addr ≡ some addr
    → (run second p (reply_inputs now token (x ∷ xs))).1 ≡ to_game addr x ∷ []
unfolding run
first_reply_only second now p addr token x xs ht hr hs hg =
    let reply : PlgPacket = record {
      session_id = token;
      seq_number = 0;
      flags = 0;
      path_id = 0;
      payload = x;
    } in
    rw (step_reply second now p token x ht hr) (
      ap₂ (λ (a b : List Sent). a ++ b) (deliver_new p reply addr (rw hs refl) hg)
        (run_dropped second now (deliver p reply).0 token xs ht (deliver-running p reply ∙ hr)
          (deliver-elem p reply (rw hs (omega arith)))))
