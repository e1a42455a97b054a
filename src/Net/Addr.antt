-- ===== src/Net/Addr.antt =====
-- `std::net`: IPv4 and IP addresses, socket addresses, their text forms and their comparison.
use plgames_booster_up.Base.{
  ℕ, ◌+◌, ◌-◌, ◌*◌, ◌≡◌, ◌<◌, ◌≢◌, Bytes, Bool, false, ◌&&◌, Option, none, some, [], ◌∷◌, ◌++◌, ltb,
  leb, ◌==◌, if◌then◌else◌, ◌>>=◌, length, bytes_eq, get_or,
}
use plgames_booster_up.Base.Decimal.{is_digit, print_number}
use mathlib.Core.Option
use plgames_booster_up.Net.Text.{split_once}

-- The four octets.
pub record Ipv4Addr : Type 0 where
  pub o0 : ℕ
  pub o1 : ℕ
  pub o2 : ℕ
  pub o3 : ℕ

pub data IpAddr : Type 0 where
  v4 : Ipv4Addr → IpAddr
  v6 : Bytes → IpAddr

pub record SocketAddr : Type 0 where
  pub ip : IpAddr
  pub port : ℕ

-- Each octet is a byte.
pub record IsIpv4 (a : Ipv4Addr) : Type 0 where
  pub byte0 : a.o0 < 256
  pub byte1 : a.o1 < 256
  pub byte2 : a.o2 < 256
  pub byte3 : a.o3 < 256

unfoldable pub ipv4_eq : Ipv4Addr → Ipv4Addr → Bool
ipv4_eq a b = a.o0 == b.o0 && a.o1 == b.o1 && a.o2 == b.o2 && a.o3 == b.o3

unfoldable pub ip_eq : IpAddr → IpAddr → Bool
unfolding ipv4_eq
ip_eq (v4 a) (v4 b) = ipv4_eq a b
ip_eq (v4 a) (v6 t) = false
ip_eq (v6 s) (v4 b) = false
ip_eq (v6 s) (v6 t) = bytes_eq s t

unfoldable pub socket_addr_eq : SocketAddr → SocketAddr → Bool
unfolding ip_eq
socket_addr_eq a b = ip_eq a.ip b.ip && a.port == b.port

-- Up to three decimal digits: their value, their number and the rest of the text.
unfoldable pub read_digits : ℕ → ℕ → Bytes → Option (ℕ × ℕ × Bytes)
unfolding is_digit
read_digits acc count [] = some (acc, count, [])
read_digits acc count (c ∷ cs) =
    let rest = read_digits (acc * 10 + (c - b'0')) (count + 1) cs in
    if is_digit c then (if leb 3 count then none else rest) else some (acc, count, c ∷ cs)

-- One octet: no sign, no leading zero, at most 255.
unfoldable pub read_octet : Bytes → Option (ℕ × Bytes)
unfolding read_digits
read_octet s = read_digits 0 0 s >>= octet
  where
    octet : ℕ × ℕ × Bytes → Option (ℕ × Bytes)
    octet (value, count, rest) =
        if count == 0
        then none
        else if get_or s 0 0 == b'0' && ltb 1 count
        then none
        else if ltb value 256
        then some (value, rest)
        else none

unfoldable pub expect : ℕ → Bytes → Option Bytes
expect c [] = none
expect c (x ∷ xs) = if x == c then some xs else none

-- `s.parse::<Ipv4Addr>().ok()`.
unfoldable pub parse_ipv4 : Bytes → Option Ipv4Addr
parse_ipv4 s = if ltb 15 (length s) then none else do
  (a, s1) ← read_octet s
  t1 ← expect b'.' s1
  (b, s2) ← read_octet t1
  t2 ← expect b'.' s2
  (c, s3) ← read_octet t2
  t3 ← expect b'.' s3
  (d, s4) ← read_octet t3
  at_end (record { o0 = a; o1 = b; o2 = c; o3 = d }) s4
  where
    at_end : Ipv4Addr → Bytes → Option Ipv4Addr
    at_end a [] = some a
    at_end a (x ∷ xs) = none

unfoldable pub print_ipv4 : Ipv4Addr → Bytes
print_ipv4 a =
    print_number a.o0
    ++ b'.' ∷ (print_number a.o1 ++ b'.' ∷ (print_number a.o2 ++ b'.' ∷ print_number a.o3))

-- The text form of IPv6 addresses, which are lists of octets: what the standard library accepts and how
-- it prints an address. Every IPv6 text has a colon.
pub record Ipv6Text : Type 0 where
  pub parse : Bytes → Option Bytes
  pub print : Bytes → Bytes
  pub parse_colon : (s a : Bytes) → parse s ≡ some a → split_once b':' s ≢ none

module _ (t : Ipv6Text) where
  -- `s.parse::<IpAddr>().ok()`.
  unfoldable pub parse_ip : Bytes → Option IpAddr
  parse_ip s = elim (parse_ipv4 s) [ some a ↦ some (v4 a) | none ↦ Option.map v6 (t.parse s) ]

  unfoldable pub print_ip : IpAddr → Bytes
  print_ip (v4 a) = print_ipv4 a
  print_ip (v6 a) = t.print a
