-- ===== src/Client/FilterBuilder/Ports.antt =====
-- client/src-tauri/src/filter_builder.rs: a port range is read from its text.
use plgames_booster_up.Base.{
  ℕ, ◌≡◌, ◌≤◌, refl, ap, ◌∙◌, Bytes, [], ◌∷◌, ◌++◌, arith, ltb, some, All, if◌then◌else◌,
}
use plgames_booster_up.Base.Decimal.{
  IsDigit, print_number, parse_number, parse-print_number, print_number-All-IsDigit,
}
use plgames_booster_up.Net.{split_once}
use plgames_booster_up.Client.FilterBuilder.{
  ok, error, empty_range, is_space_2, is_space_3, strip, trim, parse_port, parse_port_range,
}
use mathlib.Core.List.{reverse, reverse_aux, reverse-reverse}

split_once-digits :
    (s rest : Bytes) → All IsDigit s → split_once b'-' (s ++ b'-' ∷ rest) ≡ some (s, rest)
unfolding split_once
split_once-digits [] rest h = refl
split_once-digits (c ∷ cs) rest h = ground (arith, split_once-digits cs rest h.1)

All-reverse_aux : (s t : Bytes) → All IsDigit s → All IsDigit t → All IsDigit (reverse_aux s t)
All-reverse_aux [] t hs ht = ht
All-reverse_aux (c ∷ cs) t hs ht = All-reverse_aux cs (c ∷ t) hs.1 (hs.0, ht)

-- A digit is no white space, and no byte of a longer white space either.
strip-digits : (s : Bytes) → All IsDigit s → strip is_space_2 is_space_3 s ≡ s
unfolding strip
strip-digits [] h = refl
strip-digits (a ∷ []) h = ground arith
strip-digits (a ∷ b ∷ []) h = ground arith
strip-digits (a ∷ b ∷ c ∷ cs) h = ground arith

strip-digits_back :
    (s : Bytes) → All IsDigit s → strip (λ a b. is_space_2 b a) (λ a b c. is_space_3 c b a) s ≡ s
unfolding strip
strip-digits_back [] h = refl
strip-digits_back (a ∷ []) h = ground arith
strip-digits_back (a ∷ b ∷ []) h = ground arith
strip-digits_back (a ∷ b ∷ c ∷ cs) h = ground arith

trim-digits : (s : Bytes) → All IsDigit s → trim s ≡ s
unfolding trim
trim-digits s h =
    rw (strip-digits s h)
      (rw (strip-digits_back (reverse s) (All-reverse_aux s [] h tt)) (reverse-reverse s))

parse_port-print_number : (n : ℕ) → n ≤ 65535 → parse_port (print_number n) ≡ some n
parse_port-print_number n h =
    ap (parse_number 65535) (trim-digits (print_number n) (print_number-All-IsDigit n))
    ∙ parse-print_number 65535 n h

-- The text of two 16-bit ports with a dash between them is read as that range, if the first is not
-- above the second, and refused otherwise.
pub parse_port_range-print :
    (start end : ℕ)
    → start ≤ 65535
    → end ≤ 65535
    → parse_port_range (print_number start ++ b'-' ∷ print_number end)
      ≡ (if ltb end start then error empty_range else ok (start, end))
unfolding parse_port_range
parse_port_range-print start end hs he =
    rw
      (
        split_once-digits (print_number start) (print_number end) (print_number-All-IsDigit start),
        parse_port_range,
      )
      (rw (parse_port-print_number start hs) (rw (parse_port-print_number end he) refl))
