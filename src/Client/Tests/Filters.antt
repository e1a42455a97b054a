-- ===== src/Client/Tests/Filters.antt =====
-- The unit tests of client/src-tauri/src/filter_builder.rs on the model.
use plgames_booster_up.Base.{
  ℕ, ◌≡◌, refl, ◌+◌, ◌-◌, ◌^◌, Bytes, codes, Bool, true, false, not, ◌&&◌, ◌||◌, Option, none, some,
  List, [], ◌∷◌, ◌==◌, length, bytes_eq, is_some, is_empty, zero, suc, get_or,
}
use plgames_booster_up.Net.{Ipv4Addr, ipv4_eq}
use plgames_booster_up.Client.FilterBuilder.{
  Checked, ok, error, cidr_to_ip_range, parse_port_range, build_windivert_filter,
}

abbrev ip : ℕ → ℕ → ℕ → ℕ → Ipv4Addr
ip a b c d = record { o0 = a; o1 = b; o2 = c; o3 = d }

abbrev is_err : {A : Type 0} → Checked A → Bool
is_err (ok a) = false
is_err (error e) = true

abbrev has_ends : Checked (Ipv4Addr × Ipv4Addr) → Ipv4Addr → Ipv4Addr → Bool
has_ends (ok (start, end)) a b = ipv4_eq start a && ipv4_eq end b
has_ends (error e) a b = false

abbrev test_cidr_to_ip_range_24 : Bool
test_cidr_to_ip_range_24 =
    has_ends (cidr_to_ip_range (codes "192.168.1.0/24")) (ip 192 168 1 0) (ip 192 168 1 255)

test_cidr_to_ip_range_24_holds : test_cidr_to_ip_range_24 ≡ true
unfolding cidr_to_ip_range plgames_booster_up.Net.split_once plgames_booster_up.Net.parse_ipv4
    plgames_booster_up.Net.read_octet plgames_booster_up.Net.expect
    plgames_booster_up.Base.Decimal.parse_number ipv4_eq
test_cidr_to_ip_range_24_holds = refl

abbrev test_cidr_to_ip_range_23 : Bool
test_cidr_to_ip_range_23 =
    has_ends (cidr_to_ip_range (codes "155.133.232.0/23")) (ip 155 133 232 0) (ip 155 133 233 255)

test_cidr_to_ip_range_23_holds : test_cidr_to_ip_range_23 ≡ true
unfolding cidr_to_ip_range plgames_booster_up.Net.split_once plgames_booster_up.Net.parse_ipv4
    plgames_booster_up.Net.read_octet plgames_booster_up.Net.expect
    plgames_booster_up.Base.Decimal.parse_number ipv4_eq
test_cidr_to_ip_range_23_holds = refl

abbrev test_cidr_to_ip_range_32 : Bool
test_cidr_to_ip_range_32 =
    has_ends (cidr_to_ip_range (codes "10.0.0.1/32")) (ip 10 0 0 1) (ip 10 0 0 1)

test_cidr_to_ip_range_32_holds : test_cidr_to_ip_range_32 ≡ true
unfolding cidr_to_ip_range plgames_booster_up.Net.split_once plgames_booster_up.Net.parse_ipv4
    plgames_booster_up.Net.read_octet plgames_booster_up.Net.expect
    plgames_booster_up.Base.Decimal.parse_number ipv4_eq
test_cidr_to_ip_range_32_holds = refl

abbrev test_cidr_plain_ip : Bool
test_cidr_plain_ip = has_ends (cidr_to_ip_range (codes "8.8.8.8")) (ip 8 8 8 8) (ip 8 8 8 8)

test_cidr_plain_ip_holds : test_cidr_plain_ip ≡ true
unfolding cidr_to_ip_range plgames_booster_up.Net.split_once plgames_booster_up.Net.parse_ipv4
    plgames_booster_up.Net.read_octet plgames_booster_up.Net.expect ipv4_eq
test_cidr_plain_ip_holds = refl

abbrev test_cidr_to_ip_range_0 : Bool
test_cidr_to_ip_range_0 =
    has_ends (cidr_to_ip_range (codes "0.0.0.0/0")) (ip 0 0 0 0) (ip 255 255 255 255)

test_cidr_to_ip_range_0_holds : test_cidr_to_ip_range_0 ≡ true
unfolding cidr_to_ip_range plgames_booster_up.Net.split_once plgames_booster_up.Net.parse_ipv4
    plgames_booster_up.Net.read_octet plgames_booster_up.Net.expect
    plgames_booster_up.Base.Decimal.parse_number ipv4_eq
test_cidr_to_ip_range_0_holds = refl

abbrev test_cidr_invalid_prefix : Bool
test_cidr_invalid_prefix = is_err (cidr_to_ip_range (codes "1.2.3.4/33"))

test_cidr_invalid_prefix_holds : test_cidr_invalid_prefix ≡ true
unfolding cidr_to_ip_range plgames_booster_up.Net.split_once plgames_booster_up.Net.parse_ipv4
    plgames_booster_up.Net.read_octet plgames_booster_up.Net.expect
    plgames_booster_up.Base.Decimal.parse_number
test_cidr_invalid_prefix_holds = refl

abbrev test_cidr_invalid_ip : Bool
test_cidr_invalid_ip = is_err (cidr_to_ip_range (codes "999.999.999.999/24"))

test_cidr_invalid_ip_holds : test_cidr_invalid_ip ≡ true
unfolding cidr_to_ip_range plgames_booster_up.Net.split_once plgames_booster_up.Net.parse_ipv4
    plgames_booster_up.Net.read_octet
test_cidr_invalid_ip_holds = refl

abbrev is_range : Checked (ℕ × ℕ) → ℕ → ℕ → Bool
is_range (ok (start, end)) a b = start == a && end == b
is_range (error e) a b = false

abbrev test_parse_port_single : Bool
test_parse_port_single = is_range (parse_port_range (codes "27015")) 27015 27015

test_parse_port_single_holds : test_parse_port_single ≡ true
unfolding parse_port_range plgames_booster_up.Net.split_once
    plgames_booster_up.Base.Decimal.parse_number
test_parse_port_single_holds = refl

abbrev test_parse_port_range : Bool
test_parse_port_range = is_range (parse_port_range (codes "27015-27050")) 27015 27050

test_parse_port_range_holds : test_parse_port_range ≡ true
unfolding parse_port_range plgames_booster_up.Net.split_once
    plgames_booster_up.Base.Decimal.parse_number
test_parse_port_range_holds = refl

abbrev test_parse_port_range_with_spaces : Bool
test_parse_port_range_with_spaces = is_range (parse_port_range (codes " 3478 - 3480 ")) 3478 3480

test_parse_port_range_with_spaces_holds : test_parse_port_range_with_spaces ≡ true
unfolding parse_port_range plgames_booster_up.Net.split_once
    plgames_booster_up.Base.Decimal.parse_number
test_parse_port_range_with_spaces_holds = refl

abbrev test_parse_port_invalid_range : Bool
test_parse_port_invalid_range = is_err (parse_port_range (codes "27050-27015"))

test_parse_port_invalid_range_holds : test_parse_port_invalid_range ≡ true
unfolding parse_port_range plgames_booster_up.Net.split_once
    plgames_booster_up.Base.Decimal.parse_number
test_parse_port_invalid_range_holds = refl

abbrev test_parse_port_invalid : Bool
test_parse_port_invalid = is_err (parse_port_range (codes "abc"))

test_parse_port_invalid_holds : test_parse_port_invalid ≡ true
unfolding parse_port_range plgames_booster_up.Net.split_once
    plgames_booster_up.Base.Decimal.parse_number
test_parse_port_invalid_holds = refl

abbrev is_text : Checked Bytes → Bytes → Bool
is_text (ok text) expected = bytes_eq text expected
is_text (error e) expected = false

abbrev test_build_filter_simple : Bool
test_build_filter_simple =
    is_text (build_windivert_filter (codes "155.133.232.0/23" ∷ []) (codes "27015-27050" ∷ [])) (
      codes
        "outbound and udp and (ip.DstAddr >= 155.133.232.0 and ip.DstAddr <= 155.133.233.255) and (udp.DstPort >= 27015 and udp.DstPort <= 27050)")

test_build_filter_simple_holds : test_build_filter_simple ≡ true
unfolding build_windivert_filter plgames_booster_up.Net.split_once plgames_booster_up.Net.parse_ipv4
    plgames_booster_up.Net.read_octet plgames_booster_up.Net.expect
    plgames_booster_up.Base.Decimal.parse_number ipv4_eq plgames_booster_up.Net.print_ipv4
    plgames_booster_up.Base.Decimal.print_number
test_build_filter_simple_holds = refl

abbrev test_build_filter_single_ip_single_port : Bool
test_build_filter_single_ip_single_port =
    is_text (build_windivert_filter (codes "1.2.3.4" ∷ []) (codes "443" ∷ []))
      (codes "outbound and udp and ip.DstAddr == 1.2.3.4 and udp.DstPort == 443")

test_build_filter_single_ip_single_port_holds : test_build_filter_single_ip_single_port ≡ true
unfolding build_windivert_filter plgames_booster_up.Net.split_once plgames_booster_up.Net.parse_ipv4
    plgames_booster_up.Net.read_octet plgames_booster_up.Net.expect
    plgames_booster_up.Base.Decimal.parse_number ipv4_eq plgames_booster_up.Net.print_ipv4
    plgames_booster_up.Base.Decimal.print_number
test_build_filter_single_ip_single_port_holds = refl

-- `starts_with` and `contains` on texts.
abbrev starts_with : Bytes → Bytes → Bool
starts_with s [] = true
starts_with [] (p ∷ ps) = false
starts_with (c ∷ cs) (p ∷ ps) = c == p && starts_with cs ps

abbrev has_text : Bytes → Bytes → Bool
has_text [] p = is_empty p
has_text (c ∷ cs) p = starts_with (c ∷ cs) p || has_text cs p

abbrev test_build_filter_multiple : Bool
test_build_filter_multiple =
    elim (build_windivert_filter (codes "155.133.232.0/23" ∷ codes "185.25.180.0/24" ∷ [])
      (codes "27015-27050" ∷ codes "3478" ∷ [])) [
        | error e ↦ false
        | ok filter ↦
            starts_with filter (codes "outbound and udp and ")
            && has_text filter
                (codes "ip.DstAddr >= 155.133.232.0 and ip.DstAddr <= 155.133.233.255")
            && has_text filter (codes "ip.DstAddr >= 185.25.180.0 and ip.DstAddr <= 185.25.180.255")
            && has_text filter (codes "udp.DstPort >= 27015 and udp.DstPort <= 27050")
            && has_text filter (codes "udp.DstPort == 3478")
            && has_text filter (codes " or ")
      ]

test_build_filter_multiple_holds : test_build_filter_multiple ≡ true
unfolding build_windivert_filter plgames_booster_up.Net.split_once plgames_booster_up.Net.parse_ipv4
    plgames_booster_up.Net.read_octet plgames_booster_up.Net.expect
    plgames_booster_up.Base.Decimal.parse_number ipv4_eq plgames_booster_up.Net.print_ipv4
    plgames_booster_up.Base.Decimal.print_number
test_build_filter_multiple_holds = refl

abbrev test_build_filter_no_ips : Bool
test_build_filter_no_ips = is_err (build_windivert_filter [] (codes "27015" ∷ []))

test_build_filter_no_ips_holds : test_build_filter_no_ips ≡ true
unfolding build_windivert_filter
test_build_filter_no_ips_holds = refl

abbrev test_build_filter_no_ports : Bool
test_build_filter_no_ports = is_err (build_windivert_filter (codes "1.2.3.4" ∷ []) [])

test_build_filter_no_ports_holds : test_build_filter_no_ports ≡ true
unfolding build_windivert_filter
test_build_filter_no_ports_holds = refl
