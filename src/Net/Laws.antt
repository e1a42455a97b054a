-- ===== src/Net/Laws.antt =====
-- `std::net` and `std::str`: an address is read back from its printed form.
use plgames_booster_up.Base.{
  ℕ, ◌≤◌, ◌<◌, ◌≡◌, refl, ap, inl, inr, Bytes, true, false, none, some, [], ◌∷◌, ◌++◌, ◌>>=◌,
  length, arith, ◌⊎◌, Option-cases, length-append, bytes_eq_sound, All, All-append,
}
use mathlib.Core.List.{append-nil, append_assoc}
use plgames_booster_up.Base.Decimal.{
  is_digit, print_number, print_number_below_1000, print_number-All-ascii,
}
use plgames_booster_up.Net.Text.{split_once, splitn_2, from_utf8, is_utf8_after}
use plgames_booster_up.Net.Addr.{
  Ipv4Addr, IsIpv4, read_octet, expect, parse_ipv4, print_ipv4, IpAddr, v4, v6, SocketAddr, ipv4_eq,
  ip_eq, socket_addr_eq,
}

-- What may stand behind an octet.
abbrev pub Stops : Bytes → Type 0
Stops [] = Unit {0}
Stops (c ∷ cs) = is_digit c ≡ false

pub read_octet-print_number :
    (n : ℕ) (rest : Bytes)
    → n < 256
    → Stops rest
    → read_octet (print_number n ++ rest) ≡ some (n, rest)
unfolding read_octet is_digit
read_octet-print_number n [] h s = rw (print_number_below_1000 n (omega arith)) (ground arith)
read_octet-print_number n (c ∷ cs) h s = rw (print_number_below_1000 n (omega arith)) (ground arith)

-- A printed octet has at most three characters.
length-print_number : (n : ℕ) → n < 256 → length (print_number n) ≤ 3
length-print_number n h = rw (print_number_below_1000 n (omega arith)) (ground arith)

length-print_ipv4 : (a : Ipv4Addr) → IsIpv4 a → length (print_ipv4 a) ≤ 15
unfolding print_ipv4
length-print_ipv4 a h = omega (
  arith,
  length-append (print_number a.o0)
      (b'.' ∷ (print_number a.o1 ++ b'.' ∷ (print_number a.o2 ++ b'.' ∷ print_number a.o3))),
  length-append (print_number a.o1) (b'.' ∷ (print_number a.o2 ++ b'.' ∷ print_number a.o3)),
  length-append (print_number a.o2) (b'.' ∷ print_number a.o3),
  length-print_number a.o0,
  length-print_number a.o1,
  length-print_number a.o2,
  length-print_number a.o3,
)

-- The standard library reads an IPv4 address back from its printed form.
pub parse-print_ipv4 : (a : Ipv4Addr) → IsIpv4 a → parse_ipv4 (print_ipv4 a) ≡ some a
unfolding parse_ipv4 print_ipv4 expect is_digit
parse-print_ipv4 a h = ground (
  arith,
  length-print_ipv4 a h,
  read_octet-print_number a.o0
      (b'.' ∷ (print_number a.o1 ++ b'.' ∷ (print_number a.o2 ++ b'.' ∷ print_number a.o3))),
  read_octet-print_number a.o1 (b'.' ∷ (print_number a.o2 ++ b'.' ∷ print_number a.o3)),
  read_octet-print_number a.o2 (b'.' ∷ print_number a.o3),
  append-nil (print_number a.o3),
  read_octet-print_number a.o3 [] h.byte3 tt,
)

-- No digit and no dot is a colon or a slash, so a printed address is split from what follows it
-- there.
split_once-print_number :
    (c n : ℕ) (rest : Bytes)
    → (c ≡ b'/') ⊎ (b'9' < c)
    → n < 256
    → split_once c (print_number n ++ rest)
      ≡ (split_once c rest >>= λ p. some (print_number n ++ p.0, p.1))
unfolding split_once
split_once-print_number c n rest hc h = rw (print_number_below_1000 n (omega arith)) (ground arith)

pub split_once-print_ipv4 :
    (c : ℕ) (a : Ipv4Addr) (rest : Bytes)
    → (c ≡ b'/') ⊎ (b'9' < c)
    → IsIpv4 a
    → split_once c (print_ipv4 a ++ c ∷ rest) ≡ some (print_ipv4 a, rest)
unfolding split_once print_ipv4
split_once-print_ipv4 c a rest hc h = ground (
  arith,
  split_once-print_number c a.o0 (b'.' ∷ (tail1 ++ c ∷ rest)),
  split_once-print_number c a.o1 (b'.' ∷ (tail2 ++ c ∷ rest)),
  split_once-print_number c a.o2 (b'.' ∷ (print_number a.o3 ++ c ∷ rest)),
  split_once-print_number c a.o3 (c ∷ rest),
  append_assoc (print_number a.o0) (b'.' ∷ tail1) (c ∷ rest),
  append_assoc (print_number a.o1) (b'.' ∷ tail2) (c ∷ rest),
  append_assoc (print_number a.o2) (b'.' ∷ print_number a.o3) (c ∷ rest),
  append-nil (print_number a.o3),
)
  where
    tail2 : Bytes
    tail2 = print_number a.o2 ++ b'.' ∷ print_number a.o3

    tail1 : Bytes
    tail1 = print_number a.o1 ++ b'.' ∷ tail2

pub ipv4_eq_sound : (a b : Ipv4Addr) → ipv4_eq a b ≡ true → a ≡ b
unfolding ipv4_eq
ipv4_eq_sound a b h = ground arith

ip_eq_sound : (a b : IpAddr) → ip_eq a b ≡ true → a ≡ b
unfolding ip_eq
ip_eq_sound (v4 a) (v4 b) h = ap v4 (ipv4_eq_sound a b h)
ip_eq_sound (v4 a) (v6 t) h = cc
ip_eq_sound (v6 s) (v4 b) h = cc
ip_eq_sound (v6 s) (v6 t) h = ap v6 (bytes_eq_sound s t h)

-- Socket addresses that compare equal are equal.
pub socket_addr_eq_sound : (a b : SocketAddr) → socket_addr_eq a b ≡ true → a ≡ b
unfolding socket_addr_eq
socket_addr_eq_sound a b h = ground (arith, ip_eq_sound a.ip b.ip)

print_ipv4-All-ascii : (a : Ipv4Addr) → All (λ c. c < 128) (print_ipv4 a)
unfolding print_ipv4
print_ipv4-All-ascii a = octet a.o0 _ (octet a.o1 _ (octet a.o2 _ (print_number-All-ascii a.o3)))
  where
    octet :
        (n : ℕ) (rest : Bytes)
        → All (λ c. c < 128) rest
        → All (λ c. c < 128) (print_number n ++ b'.' ∷ rest)
    octet n rest h =
        All-append (λ c. c < 128) (print_number n) (b'.' ∷ rest) (print_number-All-ascii n)
          (omega arith, h)

-- An ASCII text is valid UTF-8.
pub from_utf8-ascii : (s : Bytes) → All (λ c. c < 128) s → from_utf8 s ≡ some s
unfolding from_utf8
from_utf8-ascii s h = rw (valid s h)
  where
    valid : (t : Bytes) → All (λ c. c < 128) t → is_utf8_after [] t ≡ true
    valid [] a = refl
    valid (c ∷ cs) a = ground (arith, valid cs a.1)

-- The text of an address and a port, and how it is taken apart.
pub splitn_2-print_ipv4 :
    (a : Ipv4Addr) (rest : Bytes)
    → IsIpv4 a
    → splitn_2 b':' (print_ipv4 a ++ b':' ∷ rest) ≡ print_ipv4 a ∷ rest ∷ []
unfolding splitn_2
splitn_2-print_ipv4 a rest h =
    rw (split_once-print_ipv4 b':' a rest (inr (omega arith)) h, splitn_2)

pub print_addr-All-ascii :
    (a : Ipv4Addr) (port : ℕ) → All (λ c. c < 128) (print_ipv4 a ++ b':' ∷ print_number port)
print_addr-All-ascii a port =
    All-append (λ c. c < 128) (print_ipv4 a) (b':' ∷ print_number port) (print_ipv4-All-ascii a)
      (omega arith, print_number-All-ascii port)

-- What stands before the first separator has none.
pub split_once-before :
    (c : ℕ) (s before after : Bytes)
    → split_once c s ≡ some (before, after)
    → split_once c before ≡ none
unfolding split_once
split_once-before c [] before after h = ground arith
split_once-before c (x ∷ xs) before after h = elim (Option-cases (split_once c xs)) [
  | inl e ↦ ground arith
  | inr ((b, a), e) ↦ ground (arith, split_once-before c xs b a e)
]
