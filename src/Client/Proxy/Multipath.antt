-- ===== src/Client/Proxy/Multipath.antt =====
-- client/src-tauri/src/udp_proxy.rs: what the proxy sends to the two relays, and how it counts the
-- packets.
use plgames_booster_up.Base.{
  ℕ, ◌+◌, ◌%◌, ◌^◌, ◌≡◌, ◌<◌, refl, ap, ap₂, ◌∙◌, true, Bytes, Option, some, List, [], ◌∷◌, arith,
  if◌then◌else◌, is_some,
}
use plgames_booster_up.Net.{SocketAddr}
use plgames_booster_up.Relay.Protocol
use plgames_booster_up.Client.Protocol.{PlgPacket, data_packet, with_multipath, encode}
use plgames_booster_up.Client.Protocol.Interop.{relay_parse-encode}
use plgames_booster_up.Client.Proxy.{
  UdpProxy, to_relay, to_backup, Input, from_game, from_relay, from_backup, tick, game_datagram,
  relay_datagram, backup_datagram, keepalive_tick, keepalive_answer, deliver, step, run,
}

-- The packet that the relay at the other end reads from a datagram of the game.
abbrev pub relay_packet : ℕ → ℕ → ℕ → ℕ → Bytes → Protocol.PlgPacket
relay_packet token seq flags path payload = record {
  session_id = token;
  seq_number = seq;
  flags = flags;
  path_id = path;
  payload = payload;
}

-- With a backup relay, a datagram of the game goes out twice: each relay parses its copy to a packet
-- with the session, the sequence number and the payload of the other one, and only the backup
-- relay's copy is marked as a duplicate, on path 1.
pub game_datagram_duplicated :
    (p : UdpProxy) (src backup : SocketAddr) (payload : Bytes)
    → p.session_token < 2 ^ 32
    → p.seq_counter < 2 ^ 32
    → p.backup ≡ some backup
    → (first second : Bytes) × ((game_datagram p src payload).1
        ≡ to_relay p.relay_addr first ∷ to_backup backup second ∷ [])
      × (Protocol.parse first ≡ some (relay_packet p.session_token p.seq_counter 0 0 payload))
      × (Protocol.parse second ≡ some (relay_packet p.session_token p.seq_counter 1 1 payload))
unfolding game_datagram data_packet with_multipath
game_datagram_duplicated p src backup payload ht hs hb =
    let packet = data_packet p.session_token p.seq_counter payload in
    (
      encode packet,
      encode (with_multipath packet 1),
      rw hb refl,
      relay_parse-encode packet ht hs,
      relay_parse-encode (with_multipath packet 1) ht hs,
    )

-- The numbers that one round takes from the counter.
abbrev pub used : UdpProxy → Input → ℕ
used p (from_game src payload) = 1
used p (from_relay now bytes) = 0
used p (from_backup bytes) = 0
used p (tick now) = if is_some p.backup then 2 else 1

abbrev pub used_all : UdpProxy → List Input → ℕ
used_all p [] = 0
used_all p (i ∷ is) = used p i + used_all p is

deliver-frame :
    (p : UdpProxy) (packet : PlgPacket)
    → ((deliver p packet).0.seq_counter ≡ p.seq_counter)
      × ((deliver p packet).0.backup ≡ p.backup)
      × ((deliver p packet).0.running ≡ p.running)
unfolding deliver
deliver-frame p packet = ground arith

-- What a step leaves alone.
abbrev Frame : UdpProxy → ℕ → UdpProxy → Type 0
Frame p n q =
    (q.seq_counter ≡ (p.seq_counter + n) % 2 ^ 32) × (q.backup ≡ p.backup) × (q.running ≡ p.running)

step-Frame :
    (second : ℕ) (p : UdpProxy) (i : Input)
    → p.running ≡ true
    → p.seq_counter < 2 ^ 32
    → Frame p (used p i) (step second p i).0
unfolding step game_datagram relay_datagram backup_datagram keepalive_tick keepalive_answer deliver
step-Frame second p (from_game src payload) hr h = ground arith
step-Frame second p (from_relay now bytes) hr h = ground arith
step-Frame second p (from_backup bytes) hr h = ground arith
step-Frame second p (tick now) hr h = ground arith

used_all-backup :
    (p q : UdpProxy) (inputs : List Input)
    → q.backup ≡ p.backup
    → used_all q inputs ≡ used_all p inputs
used_all-backup p q [] h = refl
used_all-backup p q (from_game src payload ∷ is) h = ap (λ n. 1 + n) (used_all-backup p q is h)
used_all-backup p q (from_relay now bytes ∷ is) h = ap (λ n. 0 + n) (used_all-backup p q is h)
used_all-backup p q (from_backup bytes ∷ is) h = ap (λ n. 0 + n) (used_all-backup p q is h)
used_all-backup p q (tick now ∷ is) h =
    ap₂ (λ (b : Option SocketAddr) n. (if is_some b then 2 else 1) + n) h (used_all-backup p q is h)

-- While the proxy runs, its counter counts: behind any sequence of datagrams and ticks it stands at
-- the start's number plus one for each datagram of the game and for each keepalive packet, modulo
-- 2^32. The backup relay's copy of a datagram takes no number of its own.
pub run-seq_counter :
    (second : ℕ) (p : UdpProxy) (inputs : List Input)
    → p.running ≡ true
    → p.seq_counter < 2 ^ 32
    → (run second p inputs).0.seq_counter ≡ (p.seq_counter + used_all p inputs) % 2 ^ 32
unfolding run
run-seq_counter second p [] hr h = omega arith
run-seq_counter second p (i ∷ is) hr h =
    let q = (step second p i).0 in
    let (counted, same_backup, same_running) = step-Frame second p i hr h in
    let rest = run-seq_counter second q is (same_running ∙ hr) (rw counted (omega arith)) in
    let total = used_all-backup p q is same_backup in omega arith
