-- ===== src/Relay/Forwarder/Control.antt =====
-- relay/src/forwarder.rs, `parse_control_payload`: what it accepts.
use plgames_booster_up.Base.{
  ℕ, ◌≡◌, ◌≤◌, inl, inr, none, some, arith, Bytes, ◌∷◌, ◌++◌, Option-cases,
}
use plgames_booster_up.Base.Decimal.{print_number, parse-print_number}
use plgames_booster_up.Net.{
  Ipv6Text, IpAddr, Ipv4Addr, IsIpv4, v4, SocketAddr, print_ipv4, parse_ipv4, parse_ip, from_utf8,
  split_once, splitn_2,
}
use plgames_booster_up.Net.Laws.{
  parse-print_ipv4, from_utf8-ascii, splitn_2-print_ipv4, print_addr-All-ascii, split_once-before,
}
use plgames_booster_up.Relay.Forwarder.{parse_control_payload, address_of}

-- The text that a client writes for an IPv4 address and a port names that address and port.
pub parse-control_payload :
    (v6t : Ipv6Text) (a : Ipv4Addr) (port : ℕ)
    → IsIpv4 a
    → port ≤ 65535
    → parse_control_payload v6t (print_ipv4 a ++ b':' ∷ print_number port)
      ≡ some (record { ip = v4 a; port = port })
unfolding parse_control_payload parse_ip
parse-control_payload v6t a port ha hp = ground (
  arith,
  from_utf8-ascii (print_ipv4 a ++ b':' ∷ print_number port) (print_addr-All-ascii a port),
  splitn_2-print_ipv4 a (print_number port) ha,
  parse-print_ipv4 a ha,
  parse-print_number 65535 port hp,
)

parse_ip-v4 :
    (v6t : Ipv6Text) (s : Bytes) (ip : IpAddr)
    → split_once b':' s ≡ none
    → parse_ip v6t s ≡ some ip
    → (a : Ipv4Addr) × (ip ≡ v4 a)
unfolding parse_ip
parse_ip-v4 v6t s ip no_colon h = elim (Option-cases (parse_ipv4 s)) [
  | inr (a, e) ↦ (a, ground arith)
  | inl e ↦ elim (Option-cases (v6t.parse s)) [
    | inl no_v6 ↦ ground arith
    | inr (o, v6) ↦ absurd (v6t.parse_colon s o v6 no_colon)
  ]
]

address_of-v4 :
    (v6t : Ipv6Text) (s : Bytes) (target : SocketAddr)
    → address_of v6t (splitn_2 b':' s) ≡ some target
    → (a : Ipv4Addr) × (target.ip ≡ v4 a)
unfolding address_of splitn_2
address_of-v4 v6t s target h = elim (Option-cases (split_once b':' s)) [
  | inl e ↦ ground arith
  | inr ((host, port_text), e) ↦ elim (Option-cases (parse_ip v6t host)) [
    | inl no_ip ↦ ground arith
    | inr (ip, is_ip) ↦
        let (a, same) = parse_ip-v4 v6t host ip (split_once-before b':' s host port_text e) is_ip in
        (a, ground arith)
  ]
]

-- A control payload that is accepted names an IPv4 address, whatever the text form of IPv6 addresses:
-- the text is cut at its first colon.
pub control_payload-v4 :
    (v6t : Ipv6Text) (payload : Bytes) (target : SocketAddr)
    → parse_control_payload v6t payload ≡ some target
    → (a : Ipv4Addr) × (target.ip ≡ v4 a)
unfolding parse_control_payload
control_payload-v4 v6t payload target h = elim (Option-cases (from_utf8 payload)) [
  | inl bad ↦ ground arith
  | inr (s, e) ↦ address_of-v4 v6t s target (ground arith)
]
