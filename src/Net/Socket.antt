-- ===== src/Net/Socket.antt =====
-- `std::net`: `str::parse::<SocketAddr>()`, which the client applies to an address and a port.
use plgames_booster_up.Base.{
  ℕ, ◌≤◌, ◌≡◌, refl, Bytes, Option, none, some, [], ◌∷◌, ◌++◌, ◌==◌, if◌then◌else◌, ◌>>=◌, arith,
}
use mathlib.Core.List.{append_assoc}
use plgames_booster_up.Base.Decimal.{
  is_digit, print_number, digits_value, print_number-shape, digits_value-print_number,
}
use plgames_booster_up.Net.Addr.{Ipv4Addr, IsIpv4, read_octet, expect, print_ipv4, v4, SocketAddr}
use plgames_booster_up.Net.Laws.{read_octet-print_number}

-- An IPv4 address at the start of a text, and the rest.
unfoldable pub read_ipv4 : Bytes → Option (Ipv4Addr × Bytes)
read_ipv4 s = do
  (a, s1) ← read_octet s
  t1 ← expect b'.' s1
  (b, s2) ← read_octet t1
  t2 ← expect b'.' s2
  (c, s3) ← read_octet t2
  t3 ← expect b'.' s3
  (d, s4) ← read_octet t3
  some (record { o0 = a; o1 = b; o2 = c; o3 = d }, s4)

-- A `u16` in decimal digits, without a sign.
unfoldable pub read_port : Bytes → Option ℕ
read_port [] = none
read_port (c ∷ cs) = digits_value 65535 0 (c ∷ cs)

unfoldable pub parse_socket_addr_v4 : Bytes → Option SocketAddr
unfolding read_ipv4 read_port
parse_socket_addr_v4 s = do
  (a, rest) ← read_ipv4 s
  digits ← expect b':' rest
  port ← read_port digits
  some (record { ip = v4 a; port = port })

-- A text in brackets is one of an IPv6 address, for which the reader is a parameter.
unfoldable pub parse_socket_addr : (Bytes → Option SocketAddr) → Bytes → Option SocketAddr
unfolding parse_socket_addr_v4
parse_socket_addr parse_v6 [] = none
parse_socket_addr parse_v6 (c ∷ cs) =
    if c == b'[' then parse_v6 (c ∷ cs) else parse_socket_addr_v4 (c ∷ cs)

read_ipv4-print_ipv4 :
    (a : Ipv4Addr) (rest : Bytes)
    → IsIpv4 a
    → read_ipv4 (print_ipv4 a ++ b':' ∷ rest) ≡ some (a, b':' ∷ rest)
unfolding read_ipv4 print_ipv4 expect is_digit
read_ipv4-print_ipv4 a rest h = ground (
  arith,
  read_octet-print_number a.o0 (b'.' ∷ (tail1 ++ b':' ∷ rest)),
  read_octet-print_number a.o1 (b'.' ∷ (tail2 ++ b':' ∷ rest)),
  read_octet-print_number a.o2 (b'.' ∷ (print_number a.o3 ++ b':' ∷ rest)),
  append_assoc (print_number a.o0) (b'.' ∷ tail1) (b':' ∷ rest),
  append_assoc (print_number a.o1) (b'.' ∷ tail2) (b':' ∷ rest),
  append_assoc (print_number a.o2) (b'.' ∷ print_number a.o3) (b':' ∷ rest),
  read_octet-print_number a.o3 (b':' ∷ rest),
)
  where
    tail2 : Bytes
    tail2 = print_number a.o2 ++ b'.' ∷ print_number a.o3

    tail1 : Bytes
    tail1 = print_number a.o1 ++ b'.' ∷ tail2

read_port-print_number : (port : ℕ) → port ≤ 65535 → read_port (print_number port) ≡ some port
unfolding read_port
read_port-print_number port h =
    let (d, ds, e, g) = print_number-shape port in cc (e, digits_value-print_number 65535 port h)

parse_socket_addr_v4-print :
    (a : Ipv4Addr) (port : ℕ)
    → IsIpv4 a
    → port ≤ 65535
    → parse_socket_addr_v4 (print_ipv4 a ++ b':' ∷ print_number port)
      ≡ some (record { ip = v4 a; port = port })
unfolding parse_socket_addr_v4 expect
parse_socket_addr_v4-print a port h fits =
    rw (read_ipv4-print_ipv4 a (print_number port) h, read_port-print_number port fits) refl

-- The text of an IPv4 address and a port is read back.
pub parse_socket_addr-print :
    (parse_v6 : Bytes → Option SocketAddr) (a : Ipv4Addr) (port : ℕ)
    → IsIpv4 a
    → port ≤ 65535
    → parse_socket_addr parse_v6 (print_ipv4 a ++ b':' ∷ print_number port)
      ≡ some (record { ip = v4 a; port = port })
unfolding parse_socket_addr is_digit print_ipv4
parse_socket_addr-print parse_v6 a port h fits =
    let (d, ds, e, g) = print_number-shape a.o0 in
    ground (arith, parse_socket_addr_v4-print a port h fits, e)
