-- ===== src/Client/WinDivert.antt =====
-- client/src-tauri/src/windivert.rs: the packet interceptor. Its threads share the state; each has
-- a set of seen sequence numbers of its own. What the sockets answer when they are bound is an
-- argument; a thread that cannot open its handle of the driver makes none of its rounds. A thread that waits for the statistics leaves them as they are:
-- `free` says that it does not have to. A hash map's first entry is given by `first_entry`.
pub mod Threads
use plgames_booster_up.Base.{
  ℕ, ◌+◌, ◌-◌, ◌*◌, ◌/◌, ◌%◌, ◌^◌, Bytes, Bool, true, false, not, ◌&&◌, Option, none, some, List,
  [], ◌∷◌, ◌++◌, ltb, ◌==◌, if◌then◌else◌, length, drop, get_or, is_some,
}
use plgames_booster_up.Base.Words.{from_be_u16}
use plgames_booster_up.Base.Decimal.{print_number}
use plgames_booster_up.Net.{Ipv4Addr, ipv4_eq, print_ipv4, SocketAddr}
use plgames_booster_up.Client.Protocol.{
  PlgPacket, data_packet, control, keepalive, with_multipath, encode, parse, is_keepalive,
}
use plgames_booster_up.Client.Proxy.{ProxyStats, add_u64, elem, limited}
use plgames_booster_up.Client.PacketBuilder.{build_udp_response}
use plgames_booster_up.Client.FilterBuilder.{FilterError, ok, error, build_windivert_filter}

pub record ConnectionKey : Type 0 where
  pub local_port : ℕ
  pub remote_ip : Ipv4Addr
  pub remote_port : ℕ

pub record ConnectionInfo : Type 0 where
  pub local_ip : Ipv4Addr
  pub last_seen : ℕ

pub record ReverseKey : Type 0 where
  pub remote_ip : Ipv4Addr
  pub remote_port : ℕ

-- The local end of a connection.
pub record LocalEnd : Type 0 where
  pub ip : Ipv4Addr
  pub port : ℕ

-- The proxy with what its threads share, and with the sets of the two receiving threads.
pub record WinDivertProxy : Type 0 where
  pub running : Bool
  pub filter : Bytes
  pub stats : ProxyStats
  pub seq_counter : ℕ
  pub duplicates_dropped : ℕ
  pub session_token : ℕ
  pub relay_addr : SocketAddr
  pub backup : Option SocketAddr
  pub connections : List (ConnectionKey × ConnectionInfo)
  pub reverse_map : List (ReverseKey × LocalEnd)
  pub control_sent : Bool
  pub seen_primary : List ℕ
  pub seen_backup : List ℕ

pub data Sent : Type 0 where
  to_relay : SocketAddr → Bytes → Sent
  to_backup : SocketAddr → Bytes → Sent
  inject : Bytes → Sent
  resend : Bytes → Sent

abbrev pub connection_key_eq : ConnectionKey → ConnectionKey → Bool
connection_key_eq a b =
    a.local_port == b.local_port
    && ipv4_eq a.remote_ip b.remote_ip
    && a.remote_port == b.remote_port

abbrev pub reverse_key_eq : ReverseKey → ReverseKey → Bool
reverse_key_eq a b = ipv4_eq a.remote_ip b.remote_ip && a.remote_port == b.remote_port

-- `HashMap::insert`.
unfoldable pub put : {K V : Type 0} → (K → K → Bool) → K → V → List (K × V) → List (K × V)
put eq k v [] = (k, v) ∷ []
put eq k v ((k', v') ∷ m) =
    let rest = put eq k v m in if eq k' k then (k, v) ∷ m else (k', v') ∷ rest

abbrev next_seq : WinDivertProxy → WinDivertProxy
next_seq p = record p { seq_counter = (p.seq_counter + 1) % 2 ^ 32 }

pub data Start : Type 0 where
  started : WinDivertProxy → Start
  bad_filter : FilterError → Start
  relay_bind_failed backup_bind_failed : Start

-- The sockets' answers are whether each is bound.
unfoldable pub start :
    ℕ → SocketAddr → Option SocketAddr → List Bytes → List Bytes → Bool → Bool → Bool → Start
start session_token relay_addr backup_addr ips ports multipath_enabled relay_bound backup_bound =
    elim (build_windivert_filter ips ports) [
      | error e ↦ bad_filter e
      | ok filter ↦
          if relay_bound
          then if multipath_enabled && is_some backup_addr
            then if backup_bound then started (proxy filter backup_addr) else backup_bind_failed
            else started (proxy filter none)
          else relay_bind_failed
    ]
  where
    proxy : Bytes → Option SocketAddr → WinDivertProxy
    proxy filter backup = record {
      running = true;
      filter = filter;
      stats = record {
        packets_sent = 0;
        packets_received = 0;
        bytes_sent = 0;
        bytes_received = 0;
        last_rtt = none;
        multipath_enabled = is_some backup;
        multipath_active = is_some backup;
        duplicates_dropped = 0;
      };
      seq_counter = 0;
      duplicates_dropped = 0;
      session_token = session_token;
      relay_addr = relay_addr;
      backup = backup;
      connections = [];
      reverse_map = [];
      control_sent = false;
      seen_primary = [];
      seen_backup = [];
    }

-- An intercepted packet that the thread takes.
pub record Captured : Type 0 where
  pub src_ip : Ipv4Addr
  pub dst_ip : Ipv4Addr
  pub src_port : ℕ
  pub dst_port : ℕ
  pub udp_payload : Bytes

pub data Parsed : Type 0 where
  skip : Parsed
  not_udp : Parsed
  udp : Captured → Parsed

-- The header fields of an intercepted packet.
unfoldable pub parse_captured : Bytes → Parsed
unfolding from_be_u16
parse_captured bytes =
    if ltb (length bytes) 28
    then skip
    else if ltb (length bytes) (ihl + 8)
    then skip
    else if byte 9 == 17
    then udp (record {
      src_ip = ip 12;
      dst_ip = ip 16;
      src_port = from_be_u16 (byte ihl) (byte (ihl + 1));
      dst_port = from_be_u16 (byte (ihl + 2)) (byte (ihl + 3));
      udp_payload = drop (ihl + 8) bytes;
    })
    else not_udp
  where
    byte : ℕ → ℕ
    byte i = get_or bytes i 0

    ihl : ℕ
    ihl = byte 0 % 16 * 4

    ip : ℕ → Ipv4Addr
    ip i = record { o0 = byte i; o1 = byte (i + 1); o2 = byte (i + 2); o3 = byte (i + 3) }

abbrev pub track : ℕ → Captured → WinDivertProxy → WinDivertProxy
track now c p = record p {
  connections =
      put connection_key_eq
        (record { local_port = c.src_port; remote_ip = c.dst_ip; remote_port = c.dst_port })
        (record { local_ip = c.src_ip; last_seen = now }) p.connections;
  reverse_map =
      put reverse_key_eq (record { remote_ip = c.dst_ip; remote_port = c.dst_port })
        (record { ip = c.src_ip; port = c.src_port }) p.reverse_map;
}

-- The control packets, when the first packet is intercepted.
unfoldable pub send_control : Captured → WinDivertProxy → WinDivertProxy × List Sent
send_control c p = if p.control_sent then (p, []) else elim p.backup [
  | none ↦ (p1, primary ∷ [])
  | some addr ↦ (
    next_seq p1,
    primary ∷ to_backup addr (encode (control p.session_token p1.seq_counter target)) ∷ [],
  )
]
  where
    target : Bytes
    target = print_ipv4 c.dst_ip ++ b':' ∷ print_number c.dst_port

    primary : Sent
    primary = to_relay p.relay_addr (encode (control p.session_token p.seq_counter target))

    p1 : WinDivertProxy
    p1 = next_seq (record p { control_sent = true })

unfoldable pub send_data : Bool → Bytes → WinDivertProxy → WinDivertProxy × List Sent
send_data free payload p =
    let packet = data_packet p.session_token p.seq_counter payload in
    let primary = to_relay p.relay_addr (encode packet) in
    let counted = record (p.stats) {
      packets_sent = add_u64 p.stats.packets_sent 1;
      bytes_sent = add_u64 p.stats.bytes_sent (length payload);
    } in
    let p' = next_seq (record p { stats = if free then counted else p.stats }) in
    elim p.backup [
      | none ↦ (p', primary ∷ [])
      | some addr ↦ (p', primary ∷ to_backup addr (encode (with_multipath packet 1)) ∷ [])
    ]

-- The capture thread with one packet.
unfoldable pub capture : Bool → ℕ → WinDivertProxy → Bytes → WinDivertProxy × List Sent
unfolding parse_captured put send_control send_data
capture free now p bytes = elim (parse_captured bytes) [
  | skip ↦ (p, [])
  | not_udp ↦ (p, resend bytes ∷ [])
  | udp c ↦
      let (p1, controls) = send_control c (track now c p) in
      let (p2, datagrams) = send_data free c.udp_payload p1 in (p2, controls ++ datagrams)
]

-- An entry of the reverse map as the hash map's iterator gives it first.
abbrev pub FirstEntry : Type 0
FirstEntry = List (ReverseKey × LocalEnd) → Option (ReverseKey × LocalEnd)

-- The end of both receiving threads: the reply is injected as a packet of the game server.
unfoldable pub inject_reply :
    FirstEntry → Bool → WinDivertProxy → PlgPacket → WinDivertProxy × List Sent
inject_reply first_entry free p packet = elim (first_entry p.reverse_map) [
  | none ↦ (p, [])
  | some (key, end) ↦
      let counted = record (p.stats) {
        packets_received = add_u64 p.stats.packets_received 1;
        bytes_received = add_u64 p.stats.bytes_received (length packet.payload);
        duplicates_dropped = p.duplicates_dropped;
      } in
      (
        record p { stats = if free then counted else p.stats },
        inject (build_udp_response key.remote_ip end.ip key.remote_port end.port packet.payload)
            ∷ [],
      )
]

abbrev count_duplicate : WinDivertProxy → WinDivertProxy
count_duplicate p = record p { duplicates_dropped = add_u64 p.duplicates_dropped 1 }

-- The relay receive thread with one datagram. Its map of sent keepalives is never written, so that
-- a keepalive is only passed over.
unfoldable pub receive_primary :
    FirstEntry → Bool → WinDivertProxy → Bytes → WinDivertProxy × List Sent
unfolding inject_reply
receive_primary first_entry free p bytes = elim (parse bytes) [
  | none ↦ (p, [])
  | some packet ↦
      if is_keepalive packet
      then (p, [])
      else if elem packet.seq_number p.seen_primary
      then (count_duplicate p, [])
      else inject_reply first_entry free
          (record p { seen_primary = limited (packet.seq_number ∷ p.seen_primary) }) packet
]

-- The backup relay's receive thread.
unfoldable pub receive_backup :
    FirstEntry → Bool → WinDivertProxy → Bytes → WinDivertProxy × List Sent
unfolding inject_reply
receive_backup first_entry free p bytes = elim (parse bytes) [
  | none ↦ (p, [])
  | some packet ↦
      if is_keepalive packet
      then (p, [])
      else if elem packet.seq_number p.seen_backup
      then (count_duplicate p, [])
      else inject_reply first_entry free
          (record p { seen_backup = limited (packet.seq_number ∷ p.seen_backup) }) packet
]

-- The keepalive task with one tick. Its own table of sending times is never read.
unfoldable pub keepalive_tick : WinDivertProxy → WinDivertProxy × List Sent
keepalive_tick p =
    let primary = to_relay p.relay_addr (encode (keepalive p.session_token p.seq_counter)) in
    let p1 = next_seq p in
    elim p.backup [
      | none ↦ (p1, primary ∷ [])
      | some addr ↦ (
        next_seq p1,
        primary ∷ to_backup addr (encode (keepalive p.session_token p1.seq_counter)) ∷ [],
      )
    ]

unfoldable pub stop : WinDivertProxy → WinDivertProxy
stop p = record p { running = false }
