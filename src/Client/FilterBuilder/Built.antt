-- ===== src/Client/FilterBuilder/Built.antt =====
-- client/src-tauri/src/filter_builder.rs: the text that is built says what the profile means.
use plgames_booster_up.Base.{
  ℕ, ◌≡◌, refl, ap, ap₂, sym, subst, ◌∙◌, Bytes, codes, Bool, true, false, ◌&&◌, ◌||◌, List, [],
  ◌∷◌, ◌++◌, ◌==◌, arith, inl, inr, Bool-cases, ◌⊎◌,
}
use plgames_booster_up.Net.{Ipv4Addr, ipv4_eq, print_ipv4}
use plgames_booster_up.Base.Decimal.{print_number}
use plgames_booster_up.Net.Laws.{ipv4_eq_sound}
use plgames_booster_up.Client.FilterBuilder.{
  FilterError, Checked, ok, error, cidr_to_ip_range, parse_port_range, ip_clause, port_clause,
  clauses, join_or, combined, build_windivert_filter,
}
use plgames_booster_up.Client.FilterBuilder.Meaning.{
  Packet, Filter, test, both, either, group, is_outbound, is_udp, addr_is, addr_from, addr_to,
  port_is, port_from, port_to, print, matches, is_clear, is_either, is_both, in_ip_range,
  in_port_range, accepted, any_of,
}
use mathlib.Core.List
use mathlib.Core.List.{append_assoc}

-- A filter that is written as one unit, with what it means and how it is written.
record Clause (text : Bytes) (meaning : Packet → Bool) : Type 0 where
  filter : Filter
  prints : print filter ≡ text
  means : (p : Packet) → matches filter p ≡ meaning p
  clear : is_clear filter ≡ true
  not_either : is_either filter ≡ false
  not_both : is_both filter ≡ false

ip_Clause : (r : Ipv4Addr × Ipv4Addr) → Clause (ip_clause r) (λ p. in_ip_range p r)
unfolding print matches is_clear
ip_Clause (start, end) = elim (Bool-cases (ipv4_eq start end)) [
  | inl same ↦ record {
    filter = test (addr_is start);
    prints = rw same refl;
    means = λ p. let one = ipv4_eq_sound start end same in ground arith;
    clear = refl;
    not_either = refl;
    not_both = refl;
  }
  | inr other ↦ record {
    filter = group (both (test (addr_from start)) (test (addr_to end)));
    prints =
        rw other (ap (λ t. codes "(ip.DstAddr >= " ++ t) (append_assoc (print_ipv4 start) _ _));
    means = λ p. refl;
    clear = refl;
    not_either = refl;
    not_both = refl;
  }
]

port_Clause : (r : ℕ × ℕ) → Clause (port_clause r) (λ p. in_port_range p r)
unfolding print matches is_clear
port_Clause (start, end) = elim (Bool-cases (start == end)) [
  | inl same ↦ record {
    filter = test (port_is start);
    prints = rw same refl;
    means = λ p. ground arith;
    clear = refl;
    not_either = refl;
    not_both = refl;
  }
  | inr other ↦ record {
    filter = group (both (test (port_from start)) (test (port_to end)));
    prints =
        rw other (ap (λ t. codes "(udp.DstPort >= " ++ t) (append_assoc (print_number start) _ _));
    means = λ p. refl;
    clear = refl;
    not_either = refl;
    not_both = refl;
  }
]

-- The clauses of a list of ranges, joined.
record Joined (text : Bytes) (meaning : Packet → Bool) : Type 0 where
  filter : Filter
  prints : print filter ≡ text
  means : (p : Packet) → matches filter p ≡ meaning p
  clear : is_clear filter ≡ true
  not_both : is_both filter ≡ false

module _ {A : Type 0} (text : A → Bytes) (within : Packet → A → Bool)
    (clause : (a : A) → Clause (text a) (λ p. within p a)) where
  joined :
      (a : A) (others : List A)
      → Joined (join_or (List.map text (a ∷ others))) (λ p. any_of (within p) (a ∷ others))
  unfolding print matches is_clear join_or
  joined a [] =
      let c = clause a in
      record {
        filter = c.filter;
        prints = c.prints;
        means = λ p. let one = c.means p in ground arith;
        clear = c.clear;
        not_both = c.not_both;
      }
  joined a (b ∷ bs) =
      let c = clause a in
      let rest = joined b bs in
      record {
        filter = either c.filter rest.filter;
        prints = ap₂ (λ s t. s ++ (codes " or " ++ t)) c.prints rest.prints;
        means = λ p. ap₂ (λ x y. x || y) (c.means p) (rest.means p);
        clear = rw c.not_both (rw rest.not_both (rw c.clear rest.clear));
        not_both = refl;
      }

  -- With parentheses where there are several.
  unit :
      (a : A) (others : List A)
      → Clause (combined (List.map text (a ∷ others))) (λ p. any_of (within p) (a ∷ others))
  unfolding print matches is_clear
  unit a [] =
      let c = clause a in
      record {
        filter = c.filter;
        prints = c.prints;
        means = λ p. let one = c.means p in ground arith;
        clear = c.clear;
        not_either = c.not_either;
        not_both = c.not_both;
      }
  unit a (b ∷ bs) =
      let all = joined a (b ∷ bs) in
      record {
        filter = group all.filter;
        prints = ap (λ t. codes "(" ++ (t ++ codes ")")) all.prints;
        means = all.means;
        clear = all.clear;
        not_either = refl;
        not_both = refl;
      }

Checked-cases :
    {A : Type 0} (r : Checked A) → ((a : A) × (r ≡ ok a)) ⊎ ((e : FilterError) × (r ≡ error e))
Checked-cases (ok a) = inl (a, refl)
Checked-cases (error e) = inr (e, refl)

-- The clauses of a list that is accepted are those of its ranges.
clauses-accepted :
    {A : Type 0} (text : A → Bytes) (parse : Bytes → Checked A) (xs cs : List Bytes)
    → clauses parse text xs ≡ ok cs
    → cs ≡ List.map text (accepted parse xs)
unfolding clauses
clauses-accepted text parse [] cs h = ground arith
clauses-accepted text parse (x ∷ xs) cs h = elim (Checked-cases (parse x)) [
  | inr (e, refused) ↦ ground arith
  | inl (a, read) ↦ elim (Checked-cases (clauses parse text xs)) [
    | inr (e, refused) ↦ ground arith
    | inl (ds, others) ↦ ground (arith, clauses-accepted text parse xs ds others)
  ]
]

-- The first entry of a list that is accepted gives its first range.
accepted-first :
    {A : Type 0} (text : A → Bytes) (parse : Bytes → Checked A) (x : Bytes) (xs cs : List Bytes)
    → clauses parse text (x ∷ xs) ≡ ok cs
    → (a : A) × (accepted parse (x ∷ xs) ≡ a ∷ accepted parse xs)
unfolding clauses
accepted-first text parse x xs cs h = elim (Checked-cases (parse x)) [
  | inr (e, refused) ↦ ground arith
  | inl (a, read) ↦ (a, rw (read, accepted) refl)
]

-- One half of the filter: the clauses of a list that is accepted.
half :
    {A : Type 0} (text : A → Bytes) (within : Packet → A → Bool)
    (clause : (a : A) → Clause (text a) (λ p. within p a)) (parse : Bytes → Checked A) (x : Bytes)
    (xs cs : List Bytes)
    → clauses parse text (x ∷ xs) ≡ ok cs
    → Clause (combined cs) (λ p. any_of (within p) (accepted parse (x ∷ xs)))
half text within clause parse x xs cs h =
    let (a, first) = accepted-first text parse x xs cs h in
    let all = clauses-accepted text parse (x ∷ xs) cs h in
    subst (λ t. Clause (combined t) (λ p. any_of (within p) (accepted parse (x ∷ xs)))) (sym all)
      (subst (λ l. Clause (combined (List.map text l)) (λ p. any_of (within p) l)) (sym first)
        (unit text within clause a (accepted parse xs)))

build_windivert_filter-text :
    (ip port : Bytes) (ips ports cs ds : List Bytes) (text : Bytes)
    → clauses cidr_to_ip_range ip_clause (ip ∷ ips) ≡ ok cs
    → clauses parse_port_range port_clause (port ∷ ports) ≡ ok ds
    → build_windivert_filter (ip ∷ ips) (port ∷ ports) ≡ ok text
    → codes "outbound and udp and " ++ (combined cs ++ (codes " and " ++ combined ds)) ≡ text
unfolding build_windivert_filter
build_windivert_filter-text ip port ips ports cs ds text read read_ports h = ground arith

-- The text that is built for a profile is the writing of a filter in which `and` and `or` are never
-- mixed without parentheses, and which matches a packet exactly when it is an outbound UDP packet
-- whose destination address is in the range of one of the profile's addresses and whose destination
-- port is in one of its port ranges.
pub filter_means_profile :
    (ips ports : List Bytes) (text : Bytes)
    → build_windivert_filter ips ports ≡ ok text
    → (filter : Filter) × (print filter ≡ text)
      × (is_clear filter ≡ true)
      × ((p : Packet)
          → matches filter p ≡ (
              p.outbound
              && (p.udp
                  && (any_of (in_ip_range p) (accepted cidr_to_ip_range ips)
                      && any_of (in_port_range p) (accepted parse_port_range ports)))))
unfolding build_windivert_filter print matches is_clear
filter_means_profile [] ports text h = ground arith
filter_means_profile (ip ∷ ips) [] text h = ground arith
filter_means_profile (ip ∷ ips) (port ∷ ports) text h =
    elim (Checked-cases (clauses cidr_to_ip_range ip_clause (ip ∷ ips))) [
      | inr (e, refused) ↦ ground arith
      | inl (cs, read) ↦
          elim (Checked-cases (clauses parse_port_range port_clause (port ∷ ports))) [
            | inr (e, refused) ↦ ground arith
            | inl (ds, read_ports) ↦
                let a = half ip_clause in_ip_range ip_Clause cidr_to_ip_range ip ips cs read in
                let b =
                  half port_clause in_port_range port_Clause parse_port_range port ports ds
                    read_ports in
                (
                  both (test is_outbound) (both (test is_udp) (both a.filter b.filter)),
                  ap₂ (λ s t. codes "outbound and udp and " ++ (s ++ (codes " and " ++ t))) a.prints
                        b.prints
                      ∙ build_windivert_filter-text ip port ips ports cs ds text read read_ports h,
                  rw a.clear (rw b.clear (rw a.not_either (rw b.not_either refl))),
                  λ p. ap₂ (λ x y. p.outbound && (p.udp && (x && y))) (a.means p) (b.means p),
                )
          ]
    ]
