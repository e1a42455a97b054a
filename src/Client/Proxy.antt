-- ===== src/Client/Proxy.antt =====
-- client/src-tauri/src/udp_proxy.rs: the local UDP proxy. Its tasks share the state; a step is what
-- one task does with one datagram or one tick. What is sent is part of a step's result, and a failed
-- send changes nothing but the log. Round-trip times are in the units of the clock.
pub mod Dedup
pub mod Multipath
pub mod Running
pub mod Types
pub mod Rounds
pub mod Typed
use plgames_booster_up.Base.{
  ℕ, ◌+◌, ◌-◌, ◌*◌, ◌%◌, ◌^◌, ◌++◌, Bytes, Bool, true, false, ◌&&◌, ◌||◌, Option, none, some, List,
  [], ◌∷◌, ltb, ◌==◌, if◌then◌else◌, length, is_some,
}
use plgames_booster_up.Base.Maps.{get, remove, insert}
use plgames_booster_up.Net.{SocketAddr}
use plgames_booster_up.Client.Protocol.{
  PlgPacket, data_packet, control, keepalive, with_multipath, encode, parse, is_keepalive,
}

abbrev pub add_u64 : ℕ → ℕ → ℕ
add_u64 a b = (a + b) % 2 ^ 64

pub record ProxyStats : Type 0 where
  pub packets_sent : ℕ
  pub packets_received : ℕ
  pub bytes_sent : ℕ
  pub bytes_received : ℕ
  pub last_rtt : Option ℕ
  pub multipath_enabled : Bool
  pub multipath_active : Bool
  pub duplicates_dropped : ℕ

-- The proxy with what its tasks share. `backup` is the backup relay when its socket is bound.
pub record UdpProxy : Type 0 where
  pub running : Bool
  pub seq_counter : ℕ
  pub stats : ProxyStats
  pub local_port : ℕ
  pub session_token : ℕ
  pub relay_addr : SocketAddr
  pub backup : Option SocketAddr
  pub game_addr : Option SocketAddr
  pub seen_seqs : List ℕ
  pub keepalive_sent : List (ℕ × ℕ)
  pub duplicates_dropped : ℕ

-- What a step sends: on the relay socket, on the backup socket, or from the local socket.
pub data Sent : Type 0 where
  to_relay : SocketAddr → Bytes → Sent
  to_backup : SocketAddr → Bytes → Sent
  to_game : SocketAddr → Bytes → Sent

pub data StartError : Type 0 where
  bind_local bind_relay bind_backup send_control : StartError

pub data Started : Type 0 where
  started : UdpProxy → List Sent → Started
  failed : StartError → Started

-- `fetch_add` on the counter: the old value, and the wrapped new one.
abbrev pub next_seq : UdpProxy → UdpProxy
next_seq p = record p { seq_counter = (p.seq_counter + 1) % 2 ^ 32 }

-- What the operating system answers while the proxy starts: the port of the local socket, if it is
-- bound, and whether the other two sockets are bound and the first control packet is sent.
pub record StartAnswers : Type 0 where
  pub local_bound : Option ℕ
  pub relay_bound : Bool
  pub backup_bound : Bool
  pub control_sent : Bool

abbrev fresh_stats : Bool → ProxyStats
fresh_stats multipath = record {
  packets_sent = 0;
  packets_received = 0;
  bytes_sent = 0;
  bytes_received = 0;
  last_rtt = none;
  multipath_enabled = multipath;
  multipath_active = multipath;
  duplicates_dropped = 0;
}

-- The control packets: the primary relay's must be sent, the backup relay's may fail.
send_controls : UdpProxy → Bytes → Bool → Started
send_controls p game_target false = failed send_control
send_controls p game_target true =
    let primary =
      to_relay p.relay_addr (encode (control p.session_token p.seq_counter game_target)) in
    let p1 = next_seq p in
    elim p.backup [
      | none ↦ started p1 (primary ∷ [])
      | some addr ↦ started (next_seq p1) (
          primary
          ∷ to_backup addr (encode (control p.session_token p1.seq_counter game_target))
          ∷ [])
    ]

unfoldable pub start : ℕ → SocketAddr → Option SocketAddr → Bytes → Bool → StartAnswers → Started
unfolding send_controls
start session_token relay_addr backup_relay_addr game_target multipath_enabled os =
    elim os.local_bound [
      | none ↦ failed bind_local
      | some port ↦
          if os.relay_bound
          then if multipath_enabled && is_some backup_relay_addr
            then if os.backup_bound
              then send_controls (proxy port backup_relay_addr) game_target os.control_sent
              else failed bind_backup
            else send_controls (proxy port none) game_target os.control_sent
          else failed bind_relay
    ]
  where
    proxy : ℕ → Option SocketAddr → UdpProxy
    proxy port backup = record {
      running = true;
      seq_counter = 0;
      stats = fresh_stats (is_some backup);
      local_port = port;
      session_token = session_token;
      relay_addr = relay_addr;
      backup = backup;
      game_addr = none;
      seen_seqs = [];
      keepalive_sent = [];
      duplicates_dropped = 0;
    }

abbrev pub count_sent : ℕ → UdpProxy → UdpProxy
count_sent len p = record p {
  stats = record (p.stats) {
    packets_sent = add_u64 p.stats.packets_sent 1;
    bytes_sent = add_u64 p.stats.bytes_sent len;
  };
}

-- Task 1: a datagram from the game goes to the relay, and its duplicate to the backup relay.
unfoldable pub game_datagram : UdpProxy → SocketAddr → Bytes → UdpProxy × List Sent
game_datagram p src payload =
    let packet = data_packet p.session_token p.seq_counter payload in
    let primary = to_relay p.relay_addr (encode packet) in
    let p' = count_sent (length payload) (next_seq (record p { game_addr = some src })) in
    elim p.backup [
      | none ↦ (p', primary ∷ [])
      | some addr ↦ (p', primary ∷ to_backup addr (encode (with_multipath packet 1)) ∷ [])
    ]

abbrev pub elem : ℕ → List ℕ → Bool
elem s [] = false
elem s (t ∷ ts) = (t == s) || elem s ts

abbrev pub max_seen : ℕ
max_seen = 10000

-- The set behind the insertion of a new number: it is cleared when it has grown too large.
unfoldable pub limited : List ℕ → List ℕ
limited seen = if ltb max_seen (length seen) then [] else seen

abbrev pub count_received : ℕ → UdpProxy → UdpProxy
count_received len p = record p {
  stats = record (p.stats) {
    packets_received = add_u64 p.stats.packets_received 1;
    bytes_received = add_u64 p.stats.bytes_received len;
    duplicates_dropped = p.duplicates_dropped;
  };
}

-- The common end of tasks 2 and 2b, for a packet that is no keepalive.
unfoldable pub deliver : UdpProxy → PlgPacket → UdpProxy × List Sent
unfolding limited
deliver p packet =
    if elem packet.seq_number p.seen_seqs
    then (record p { duplicates_dropped = add_u64 p.duplicates_dropped 1 }, [])
    else (let p' = record p { seen_seqs = limited (packet.seq_number ∷ p.seen_seqs) } in
        elim p.game_addr [
          | none ↦ (p', [])
          | some addr ↦
              (count_received (length packet.payload) p', to_game addr packet.payload ∷ [])
        ])

-- A keepalive answer: the round-trip time, if its number was sent and not yet answered.
unfoldable pub keepalive_answer : UdpProxy → ℕ → ℕ → UdpProxy
keepalive_answer p now seq = elim (get seq p.keepalive_sent) [
  | none ↦ p
  | some sent_time ↦ record p {
    keepalive_sent = remove seq p.keepalive_sent;
    stats = record (p.stats) { last_rtt = some (now - sent_time) };
  }
]

-- Task 2: a datagram from the primary relay.
unfoldable pub relay_datagram : UdpProxy → ℕ → Bytes → UdpProxy × List Sent
unfolding deliver keepalive_answer
relay_datagram p now bytes = elim (parse bytes) [
  | none ↦ (p, [])
  | some packet ↦
      if is_keepalive packet
      then (keepalive_answer p now packet.seq_number, [])
      else deliver p packet
]

-- Task 2b: a datagram from the backup relay.
unfoldable pub backup_datagram : UdpProxy → Bytes → UdpProxy × List Sent
unfolding deliver
backup_datagram p bytes = elim (parse bytes) [
  | none ↦ (p, [])
  | some packet ↦ if is_keepalive packet then (p, []) else deliver p packet
]

-- The entries that are younger than 60 seconds.
unfoldable pub retain_recent : ℕ → ℕ → List (ℕ × ℕ) → List (ℕ × ℕ)
retain_recent now minute [] = []
retain_recent now minute ((seq, sent_time) ∷ m) =
    let rest = retain_recent now minute m in
    if ltb (now - sent_time) minute then (seq, sent_time) ∷ rest else rest

-- Task 3: a tick of the keepalive timer. `second` is the length of a second on the clock.
unfoldable pub keepalive_tick : ℕ → UdpProxy → ℕ → UdpProxy × List Sent
unfolding retain_recent
keepalive_tick second p now =
    let primary = to_relay p.relay_addr (encode (keepalive p.session_token p.seq_counter)) in
    let p1 = next_seq (record p { keepalive_sent = insert p.seq_counter now p.keepalive_sent }) in
    let recent = retain_recent now (60 * second) p1.keepalive_sent in
    elim p.backup [
      | none ↦ (record p1 { keepalive_sent = recent }, primary ∷ [])
      | some addr ↦ (
        next_seq (record p1 { keepalive_sent = recent }),
        primary ∷ to_backup addr (encode (keepalive p.session_token p1.seq_counter)) ∷ [],
      )
    ]

unfoldable pub stop : UdpProxy → UdpProxy
stop p = record p { running = false }

pub data Input : Type 0 where
  from_game : SocketAddr → Bytes → Input
  from_relay : ℕ → Bytes → Input
  from_backup : Bytes → Input
  tick : ℕ → Input

-- One round of a task, from its test of `running` to the end of what it does with what it receives;
-- a stop in between is seen by the task's next round.
unfoldable pub step : ℕ → UdpProxy → Input → UdpProxy × List Sent
unfolding game_datagram relay_datagram backup_datagram keepalive_tick
step second p input = if p.running then round input else (p, [])
  where
    round : Input → UdpProxy × List Sent
    round (from_game src payload) = game_datagram p src payload
    round (from_relay now bytes) = relay_datagram p now bytes
    round (from_backup bytes) = elim p.backup [
      | none ↦ (p, [])
      | some addr ↦ backup_datagram p bytes
    ]
    round (tick now) = keepalive_tick second p now

unfoldable pub run : ℕ → UdpProxy → List Input → UdpProxy × List Sent
run second p [] = (p, [])
run second p (i ∷ is) =
    let (q, sent) = step second p i in let (r, more) = run second q is in (r, sent ++ more)
