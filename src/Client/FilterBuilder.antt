-- ===== src/Client/FilterBuilder.antt =====
-- client/src-tauri/src/filter_builder.rs: address and port ranges of a game profile, and the filter
-- text of the packet interceptor. An error is a constructor, without its message.
pub mod Ranges
pub mod Ports
pub mod Meaning
pub mod Built
use plgames_booster_up.Base.{
  ℕ, ◌+◌, ◌-◌, ◌*◌, ◌/◌, ◌%◌, ◌^◌, Bytes, codes, Bool, ◌&&◌, ◌||◌, Option, none, some, List, [],
  ◌∷◌, ◌++◌, ltb, leb, ◌==◌, if◌then◌else◌, bit_and, bit_or,
}
use plgames_booster_up.Base.Decimal.{print_number, parse_number}
use plgames_booster_up.Net.{Ipv4Addr, ipv4_eq, parse_ipv4, print_ipv4, split_once}
use mathlib.Core.List.{reverse}

pub data FilterError : Type 0 where
  no_server_ips no_ports invalid_ip invalid_prefix invalid_prefix_length invalid_port empty_range :
      FilterError

pub data Checked (A : Type 0) : Type 0 where
  ok : A → Checked A
  error : FilterError → Checked A

-- `ok_or(e)`, then `?`.
abbrev pub or_error : {A B : Type 0} → Option A → FilterError → (A → Checked B) → Checked B
or_error none e k = error e
or_error (some x) e k = k x

abbrev pub u32_of : Ipv4Addr → ℕ
u32_of a = ((a.o0 * 256 + a.o1) * 256 + a.o2) * 256 + a.o3

abbrev pub ipv4_of : ℕ → Ipv4Addr
ipv4_of n = record {
  o0 = n / 2 ^ 24 % 256;
  o1 = n / 2 ^ 16 % 256;
  o2 = n / 2 ^ 8 % 256;
  o3 = n % 256;
}

-- `!0u32 << (32 - prefix)`, or 0.
unfoldable pub mask_of : ℕ → ℕ
mask_of prefix = if prefix == 0 then 0 else 0xFFFFFFFF * 2 ^ (32 - prefix) % 2 ^ 32

unfoldable pub range_of : Ipv4Addr → ℕ → Ipv4Addr × Ipv4Addr
unfolding mask_of
range_of ip prefix =
    let start = bit_and (u32_of ip) (mask_of prefix) in
    let end = bit_or start (0xFFFFFFFF - mask_of prefix) in (ipv4_of start, ipv4_of end)

unfoldable pub cidr_to_ip_range : Bytes → Checked (Ipv4Addr × Ipv4Addr)
unfolding range_of
cidr_to_ip_range cidr = elim (split_once b'/' cidr) [
  | none ↦ or_error (parse_ipv4 cidr) invalid_ip (λ ip. ok (ip, ip))
  | some (ip_str, prefix_str) ↦ or_error (parse_ipv4 ip_str) invalid_ip (λ ip.
      or_error (parse_number 0xFFFFFFFF prefix_str) invalid_prefix
        (λ prefix. if ltb 32 prefix then error invalid_prefix_length else ok (range_of ip prefix)))
]

-- White space of one, two and three bytes of UTF-8.
abbrev is_space_1 : ℕ → Bool
is_space_1 a = leb 9 a && leb a 13 || a == 32

abbrev is_space_2 : ℕ → ℕ → Bool
is_space_2 a b = a == 0xC2 && (b == 0x85 || b == 0xA0)

abbrev is_space_3 : ℕ → ℕ → ℕ → Bool
is_space_3 a b c =
    a == 0xE1 && b == 0x9A && c == 0x80
    || a == 0xE2 && b == 0x80 && (leb 0x80 c && leb c 0x8A || c == 0xA8 || c == 0xA9 || c == 0xAF)
    || a == 0xE2 && b == 0x81 && c == 0x9F
    || a == 0xE3 && b == 0x80 && c == 0x80

-- The text without the white space at its start, which the two tests recognise.
unfoldable pub strip : (ℕ → ℕ → Bool) → (ℕ → ℕ → ℕ → Bool) → Bytes → Bytes
strip two three [] = []
strip two three (a ∷ []) = if is_space_1 a then [] else a ∷ []
strip two three (a ∷ b ∷ []) =
    let rest = strip two three (b ∷ []) in
    if is_space_1 a then rest else if two a b then [] else a ∷ b ∷ []
strip two three (a ∷ b ∷ c ∷ cs) =
    let rest1 = strip two three (b ∷ c ∷ cs) in
    let rest2 = strip two three (c ∷ cs) in
    let rest3 = strip two three cs in
    if is_space_1 a
    then rest1
    else if two a b
    then rest2
    else if three a b c
    then rest3
    else a ∷ b ∷ c ∷ cs

-- `s.trim()`.
unfoldable pub trim : Bytes → Bytes
unfolding strip
trim s =
    let front = strip is_space_2 is_space_3 s in
    reverse (strip (λ a b. is_space_2 b a) (λ a b c. is_space_3 c b a) (reverse front))

abbrev pub parse_port : Bytes → Option ℕ
parse_port s = parse_number 65535 (trim s)

unfoldable pub parse_port_range : Bytes → Checked (ℕ × ℕ)
unfolding trim
parse_port_range port_str = elim (split_once b'-' port_str) [
  | none ↦ or_error (parse_port port_str) invalid_port (λ port. ok (port, port))
  | some (start_str, end_str) ↦ or_error (parse_port start_str) invalid_port (λ start.
      or_error (parse_port end_str) invalid_port
        (λ end. if ltb end start then error empty_range else ok (start, end)))
]

abbrev pub ip_clause : Ipv4Addr × Ipv4Addr → Bytes
ip_clause (start, end) =
    if ipv4_eq start end
    then codes "ip.DstAddr == " ++ print_ipv4 start
    else codes "(ip.DstAddr >= "
      ++ (print_ipv4 start ++ (codes " and ip.DstAddr <= " ++ (print_ipv4 end ++ codes ")")))

abbrev pub port_clause : ℕ × ℕ → Bytes
port_clause (start, end) =
    if start == end
    then codes "udp.DstPort == " ++ print_number start
    else codes "(udp.DstPort >= "
      ++ (print_number start ++ (codes " and udp.DstPort <= " ++ (print_number end ++ codes ")")))

-- The clauses of a list, up to the first entry that is refused.
unfoldable pub clauses :
    {A : Type 0} → (Bytes → Checked A) → (A → Bytes) → List Bytes → Checked (List Bytes)
clauses parse print [] = ok []
clauses parse print (x ∷ xs) =
    let rest = clauses parse print xs in
    elim (parse x) [
      | error e ↦ error e
      | ok a ↦ elim rest [ error e ↦ error e | ok cs ↦ ok (print a ∷ cs) ]
    ]

unfoldable pub join_or : List Bytes → Bytes
join_or [] = []
join_or (c ∷ []) = c
join_or (c ∷ d ∷ cs) = c ++ (codes " or " ++ join_or (d ∷ cs))

abbrev pub combined : List Bytes → Bytes
combined [] = codes "()"
combined (c ∷ []) = c
combined (c ∷ d ∷ cs) = codes "(" ++ (join_or (c ∷ d ∷ cs) ++ codes ")")

unfoldable pub build_windivert_filter : List Bytes → List Bytes → Checked Bytes
unfolding clauses join_or cidr_to_ip_range parse_port_range
build_windivert_filter [] ports = error no_server_ips
build_windivert_filter (ip ∷ ips) [] = error no_ports
build_windivert_filter (ip ∷ ips) (port ∷ ports) =
    elim (clauses cidr_to_ip_range ip_clause (ip ∷ ips)) [
      | error e ↦ error e
      | ok ip_clauses ↦ elim (clauses parse_port_range port_clause (port ∷ ports)) [
        | error e ↦ error e
        | ok port_clauses ↦ ok (
            codes "outbound and udp and "
            ++ (combined ip_clauses ++ (codes " and " ++ combined port_clauses)))
      ]
    ]
