-- ===== src/Client/Examples.antt =====
-- The theorems about client/src-tauri/src at concrete values.
use plgames_booster_up.Base.{
  ℕ, ◌/◌, ◌%◌, ◌^◌, ◌≡◌, ◌≤◌, ◌<◌, ◌↔◌, refl, arith, Bytes, true, false, none, some, List, [], ◌∷◌,
  ◌++◌, length, take, All, codes, ◌&&◌,
}
use plgames_booster_up.Base.Decimal.{print_number}
use plgames_booster_up.Net.{Ipv6Text, Ipv4Addr, IsIpv4, v4, SocketAddr, print_ipv4}
use plgames_booster_up.Relay.Protocol
use plgames_booster_up.Relay.Protocol.{has_flag}
use plgames_booster_up.Relay.Forwarder.{parse_control_payload}
use plgames_booster_up.Client.Protocol.{PlgPacket, IsPacket, control, encode, parse, is_keepalive}
use plgames_booster_up.Client.Protocol.Interop
use plgames_booster_up.Client.Protocol.Interop.{
  to_relay, kind, relay_reads_client, relay_classifies, control_reaches_relay,
}
use plgames_booster_up.Client.Proxy.{
  ProxyStats, UdpProxy, Input, from_game, from_relay, from_backup, tick, add_u64, relay_datagram,
  backup_datagram, run,
}
use plgames_booster_up.Client.Proxy.Dedup.{Carries, duplicate_dropped}
use plgames_booster_up.Client.PacketBuilder.{fold_carry, rounds, build_udp_response}
use plgames_booster_up.Client.PacketBuilder.Checksum.{
  fold_carry_lem, word_sum, Verifies, ip_header-Verifies,
}
use plgames_booster_up.Client.Proxy.Types.{IsProxy, IsSent}
use plgames_booster_up.Client.Proxy.Typed.{run-IsRound}
use plgames_booster_up.Client.FilterBuilder.{
  ok, u32_of, cidr_to_ip_range, parse_port_range, build_windivert_filter,
}
use plgames_booster_up.Client.FilterBuilder.Meaning.{
  Packet, Filter, print, matches, is_clear, in_ip_range, in_port_range, accepted, any_of,
}
use plgames_booster_up.Client.FilterBuilder.Built.{filter_means_profile}
use plgames_booster_up.Client.FilterBuilder.Ranges.{cidr_range_is_prefix}
use plgames_booster_up.Client.WinDivert.{
  WinDivertProxy, Captured, ReverseKey, LocalEnd, FirstEntry, inject, udp, parse_captured, capture,
  receive_primary, receive_backup,
}
use plgames_booster_up.Client.WinDivert.Threads.{reply_goes_back, reply_injected_twice}

abbrev server : Ipv4Addr
server = record { o0 = 10; o1 = 0; o2 = 0; o3 = 1 }

server-IsIpv4 : IsIpv4 server
server-IsIpv4 = record {
  byte0 = omega arith;
  byte1 = omega arith;
  byte2 = omega arith;
  byte3 = omega arith;
}

abbrev local : Ipv4Addr
local = record { o0 = 192; o1 = 168; o2 = 0; o3 = 2 }

local-IsIpv4 : IsIpv4 local
local-IsIpv4 = record {
  byte0 = omega arith;
  byte1 = omega arith;
  byte2 = omega arith;
  byte3 = omega arith;
}

abbrev relay : SocketAddr
relay = record { ip = v4 (record { o0 = 1; o1 = 2; o2 = 3; o3 = 4 }); port = 443 }

abbrev backup_relay : SocketAddr
backup_relay = record { ip = v4 (record { o0 = 5; o1 = 6; o2 = 7; o3 = 8 }); port = 443 }

abbrev game : SocketAddr
game = record { ip = v4 local; port = 5000 }

no_ipv6 : Ipv6Text
no_ipv6 = record { parse = λ s. none; print = λ a. a; parse_colon = λ s a e. cc }

abbrev packet : PlgPacket
packet = record { session_id = 7; seq_number = 1; flags = 0; path_id = 0; payload = 11 ∷ 22 ∷ [] }

packet-IsPacket : IsPacket packet
packet-IsPacket = record {
  id_fits = omega arith;
  seq_fits = omega arith;
  flags_fit = omega arith;
  path_fits = omega arith;
  payload_fits = ground arith;
}

relay_reads_client_example :
    (Protocol.parse (encode packet) ≡ some (Interop.to_relay packet))
    × (parse (Protocol.serialize (Interop.to_relay packet)) ≡ some packet)
relay_reads_client_example = relay_reads_client packet packet-IsPacket

control_reaches_relay_example :
    (packet : Protocol.PlgPacket) × (Protocol.parse
        (encode (control 7 1 (print_ipv4 server ++ b':' ∷ print_number 27015)))
      ≡ some packet)
    × (packet.session_id ≡ 7)
    × (has_flag packet.flags Protocol.flag_keepalive ≡ false)
    × (has_flag packet.flags Protocol.flag_control ≡ true)
    × (parse_control_payload no_ipv6 packet.payload
        ≡ some (record { ip = v4 server; port = 27015 }))
control_reaches_relay_example =
    control_reaches_relay no_ipv6 7 1 27015 server (omega arith) (omega arith) server-IsIpv4
      (omega arith)

abbrev stats : ProxyStats
stats = record {
  packets_sent = 0;
  packets_received = 0;
  bytes_sent = 0;
  bytes_received = 0;
  last_rtt = none;
  multipath_enabled = true;
  multipath_active = true;
  duplicates_dropped = 0;
}

abbrev proxy : UdpProxy
proxy = record {
  running = true;
  seq_counter = 1;
  stats = stats;
  local_port = 6000;
  session_token = 7;
  relay_addr = relay;
  backup = some backup_relay;
  game_addr = some game;
  seen_seqs = [];
  keepalive_sent = [];
  duplicates_dropped = 0;
}

abbrev datagram : Bytes
datagram = 0 ∷ 0 ∷ 0 ∷ 7 ∷ 0 ∷ 0 ∷ 0 ∷ 1 ∷ 0 ∷ 0 ∷ 11 ∷ 22 ∷ []

datagram-Carries : Carries datagram packet
unfolding parse is_keepalive
datagram-Carries = (refl, refl)

duplicate_dropped_example :
    let after_relay = (relay_datagram proxy 0 datagram).0 in
    let after_backup = (backup_datagram proxy datagram).0 in
    let dropped =
      λ (q : UdpProxy). record q { duplicates_dropped = add_u64 q.duplicates_dropped 1 } in
    (backup_datagram after_relay datagram ≡ (dropped after_relay, []))
    × (relay_datagram after_backup 0 datagram ≡ (dropped after_backup, []))
    × (relay_datagram after_relay 0 datagram ≡ (dropped after_relay, []))
    × (backup_datagram after_backup datagram ≡ (dropped after_backup, []))
duplicate_dropped_example =
    duplicate_dropped proxy 0 datagram datagram packet packet datagram-Carries datagram-Carries refl
      (omega arith)

abbrev inputs : List Input
inputs = from_game game (1 ∷ []) ∷ tick 30 ∷ from_relay 31 datagram ∷ from_backup datagram ∷ []

abbrev large_sum : ℕ
large_sum = 0x2FFFE

fold_carry_lem_example :
    (fold_carry rounds large_sum < 2 ^ 16)
    × (fold_carry rounds large_sum % 0xFFFF ≡ large_sum % 0xFFFF)
    × (fold_carry rounds large_sum ≡ 0 → large_sum ≡ 0)
fold_carry_lem_example = fold_carry_lem large_sum (omega arith)

ip_header-Verifies_example :
    Verifies (word_sum (take 20 (build_udp_response server local 27015 5000 (1 ∷ 2 ∷ 3 ∷ []))))
ip_header-Verifies_example =
    ip_header-Verifies server local 27015 5000 (1 ∷ 2 ∷ 3 ∷ []) server-IsIpv4 local-IsIpv4

cidr_range_is_prefix_example :
    (start end : Ipv4Addr) × (cidr_to_ip_range (print_ipv4 server ++ b'/' ∷ print_number 23)
      ≡ ok (start, end))
    × ((x : Ipv4Addr)
        → ((u32_of start ≤ u32_of x) × (u32_of x ≤ u32_of end))
          ↔ (u32_of x / 512 ≡ u32_of server / 512))
cidr_range_is_prefix_example = cidr_range_is_prefix server 23 server-IsIpv4 (omega arith)

-- The packet that the game sends from 192.168.0.2:5000 to 10.0.0.1:27015.
abbrev captured : Bytes
captured =
    0x45 ∷ 0 ∷ 0 ∷ 29 ∷ 0 ∷ 0 ∷ 0x40 ∷ 0 ∷ 64 ∷ 17 ∷ 0 ∷ 0 ∷ 192 ∷ 168 ∷ 0 ∷ 2 ∷ 10 ∷ 0 ∷ 0 ∷ 1 ∷ 19
    ∷ 136 ∷ 105 ∷ 135 ∷ 0 ∷ 9 ∷ 0 ∷ 0 ∷ 99 ∷ []

abbrev flow : Captured
flow = record {
  src_ip = local;
  dst_ip = server;
  src_port = 5000;
  dst_port = 27015;
  udp_payload = 99 ∷ [];
}

abbrev interceptor : List (ReverseKey × LocalEnd) → WinDivertProxy
interceptor reverse_map = record {
  running = true;
  filter = [];
  stats = stats;
  seq_counter = 0;
  duplicates_dropped = 0;
  session_token = 7;
  relay_addr = relay;
  backup = some backup_relay;
  connections = [];
  reverse_map = reverse_map;
  control_sent = false;
  seen_primary = [];
  seen_backup = [];
}

abbrev head : FirstEntry
head [] = none
head (entry ∷ m) = some entry

captured-parsed : parse_captured captured ≡ udp flow
unfolding parse_captured
captured-parsed = refl

reply_goes_back_example :
    (raw : Bytes) × ((receive_primary head true
        (capture true 0 (interceptor []) captured).0
        datagram).1
      ≡ inject raw ∷ [])
    × (parse_captured raw
        ≡ udp (record {
          src_ip = server;
          dst_ip = local;
          src_port = 27015;
          dst_port = 5000;
          udp_payload = 11 ∷ 22 ∷ [];
        }))
reply_goes_back_example =
    reply_goes_back head true 0 (interceptor []) flow captured datagram packet (λ e. refl)
      captured-parsed (omega arith) (omega arith) refl datagram-Carries.0 datagram-Carries.1 refl

abbrev entry : ReverseKey × LocalEnd
entry = (record { remote_ip = server; remote_port = 27015 }, record { ip = local; port = 5000 })

reply_injected_twice_example :
    let p = interceptor (entry ∷ []) in
    let q = (receive_primary head true p datagram).0 in
    let raw = build_udp_response server local 27015 5000 in
    ((receive_primary head true p datagram).1 ≡ inject (raw (11 ∷ 22 ∷ [])) ∷ [])
    × ((receive_backup head true q datagram).1 ≡ inject (raw (11 ∷ 22 ∷ [])) ∷ [])
reply_injected_twice_example =
    reply_injected_twice head true (interceptor (entry ∷ [])) datagram datagram packet packet
      entry.0 entry.1 datagram-Carries.0 datagram-Carries.0 datagram-Carries.1 datagram-Carries.1
      refl refl refl refl

proxy-IsProxy : IsProxy proxy
proxy-IsProxy = record {
  seq_counter = omega arith;
  session_token = omega arith;
  duplicates_dropped = omega arith;
  stats = record {
    packets_sent = omega arith;
    packets_received = omega arith;
    bytes_sent = omega arith;
    bytes_received = omega arith;
    duplicates_dropped = omega arith;
  };
  seen_seqs = tt;
  few = omega arith;
  keepalive_sent = tt;
}

run-IsRound_example : IsProxy (run 1 proxy inputs).0 × All IsSent (run 1 proxy inputs).1
run-IsRound_example = run-IsRound 1 proxy inputs proxy-IsProxy (omega arith)

abbrev filter_ips : List Bytes
filter_ips = codes "10.1.2.3/24" ∷ codes "1.2.3.4" ∷ []

abbrev filter_ports : List Bytes
filter_ports = codes "27015-27050" ∷ []

abbrev filter_text : Bytes
filter_text =
    codes
      "outbound and udp and ((ip.DstAddr >= 10.1.2.0 and ip.DstAddr <= 10.1.2.255) or ip.DstAddr == 1.2.3.4) and (udp.DstPort >= 27015 and udp.DstPort <= 27050)"

filter_built_text : build_windivert_filter filter_ips filter_ports ≡ ok filter_text
unfolding build_windivert_filter plgames_booster_up.Net.split_once plgames_booster_up.Net.parse_ipv4
    plgames_booster_up.Net.read_octet plgames_booster_up.Net.expect
    plgames_booster_up.Base.Decimal.parse_number plgames_booster_up.Net.ipv4_eq print_ipv4
    print_number
filter_built_text = refl

filter_means_profile_example :
    (filter : Filter) × (print filter ≡ filter_text)
    × (is_clear filter ≡ true)
    × ((p : Packet)
        → matches filter p ≡ (
            p.outbound
            && (p.udp
                && (any_of (in_ip_range p) (accepted cidr_to_ip_range filter_ips)
                    && any_of (in_port_range p) (accepted parse_port_range filter_ports)))))
filter_means_profile_example =
    filter_means_profile filter_ips filter_ports filter_text filter_built_text
