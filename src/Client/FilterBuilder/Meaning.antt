-- ===== src/Client/FilterBuilder/Meaning.antt =====
-- client/src-tauri/src/filter_builder.rs: what the filter text says. The expressions of the filter
-- language that the code uses, how they are written, and when a packet matches one.
use plgames_booster_up.Base.{
  ℕ, Bytes, codes, Bool, true, false, not, ◌&&◌, ◌||◌, List, [], ◌∷◌, ◌++◌, leb, ◌==◌,
}
use plgames_booster_up.Base.Decimal.{print_number}
use plgames_booster_up.Net.{Ipv4Addr, print_ipv4}
use plgames_booster_up.Client.FilterBuilder.{Checked, ok, error, u32_of}

-- What a filter looks at.
pub record Packet : Type 0 where
  pub outbound : Bool
  pub udp : Bool
  pub dst_addr : Ipv4Addr
  pub dst_port : ℕ

pub data Test : Type 0 where
  is_outbound is_udp : Test
  addr_is addr_from addr_to : Ipv4Addr → Test
  port_is port_from port_to : ℕ → Test

pub data Filter : Type 0 where
  test : Test → Filter
  both either : Filter → Filter → Filter
  -- In parentheses.
  group : Filter → Filter

abbrev pub print_test : Test → Bytes
print_test is_outbound = codes "outbound"
print_test is_udp = codes "udp"
print_test (addr_is a) = codes "ip.DstAddr == " ++ print_ipv4 a
print_test (addr_from a) = codes "ip.DstAddr >= " ++ print_ipv4 a
print_test (addr_to a) = codes "ip.DstAddr <= " ++ print_ipv4 a
print_test (port_is n) = codes "udp.DstPort == " ++ print_number n
print_test (port_from n) = codes "udp.DstPort >= " ++ print_number n
print_test (port_to n) = codes "udp.DstPort <= " ++ print_number n

unfoldable pub print : Filter → Bytes
print (test t) = print_test t
print (both f g) = print f ++ (codes " and " ++ print g)
print (either f g) = print f ++ (codes " or " ++ print g)
print (group f) = codes "(" ++ (print f ++ codes ")")

abbrev pub holds : Test → Packet → Bool
holds is_outbound p = p.outbound
holds is_udp p = p.udp
holds (addr_is a) p = u32_of p.dst_addr == u32_of a
holds (addr_from a) p = leb (u32_of a) (u32_of p.dst_addr)
holds (addr_to a) p = leb (u32_of p.dst_addr) (u32_of a)
holds (port_is n) p = p.dst_port == n
holds (port_from n) p = leb n p.dst_port
holds (port_to n) p = leb p.dst_port n

unfoldable pub matches : Filter → Packet → Bool
matches (test t) p = holds t p
matches (both f g) p = matches f p && matches g p
matches (either f g) p = matches f p || matches g p
matches (group f) p = matches f p

pub is_either : Filter → Bool
is_either (either f g) = true
is_either _ = false

pub is_both : Filter → Bool
is_both (both f g) = true
is_both _ = false

-- `and` and `or` are never mixed without parentheses, so that the text can be read in one way only,
-- whichever of the two binds tighter.
unfoldable pub is_clear : Filter → Bool
unfolding is_either is_both
is_clear (test t) = true
is_clear (both f g) = not (is_either f) && not (is_either g) && is_clear f && is_clear g
is_clear (either f g) = not (is_both f) && not (is_both g) && is_clear f && is_clear g
is_clear (group f) = is_clear f

abbrev pub in_ip_range : Packet → Ipv4Addr × Ipv4Addr → Bool
in_ip_range p (start, end) =
    leb (u32_of start) (u32_of p.dst_addr) && leb (u32_of p.dst_addr) (u32_of end)

abbrev pub in_port_range : Packet → ℕ × ℕ → Bool
in_port_range p (start, end) = leb start p.dst_port && leb p.dst_port end

-- The entries that are accepted, and whether a test holds for one of them.
abbrev pub accepted : {A : Type 0} → (Bytes → Checked A) → List Bytes → List A
accepted parse [] = []
accepted parse (x ∷ xs) =
    let rest = accepted parse xs in elim (parse x) [ error e ↦ rest | ok a ↦ a ∷ rest ]

abbrev pub any_of : {A : Type 0} → (A → Bool) → List A → Bool
any_of f [] = false
any_of f (x ∷ xs) = f x || any_of f xs
