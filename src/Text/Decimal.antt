-- ===== src/Text/Decimal.antt =====
-- Decimal print of `u64` and `i64` by `format!`, and `str::parse` of the integer types.
pub mod Injective
use arc_twitch_widget.Prelude.{
  ℕ, zero, suc, ◌+◌, ◌-◌, ◌*◌, ◌/◌, ◌%◌, ◌≤◌, ◌≡◌, [], ◌∷◌, Option, none, some, ◌>>=◌, Option-cases,
  inl, inr, arith, leb, ltb, ◌==◌, if◌then◌else◌, is_empty,
}
use arc_twitch_widget.Prelude.Int.{ℤ, pos, negsuc}
use arc_twitch_widget.Prelude.Word.{u64_max, i64_max}
use arc_twitch_widget.Text.{Text, within}

-- The digits of `n` in front of `acc`; `fuel` bounds their number.
unfoldable pub print_onto : ℕ → ℕ → Text → Text
print_onto zero n acc = acc
print_onto (suc fuel) n acc =
    let digit = b'0' + n % 10 in
    let rest = print_onto fuel (n / 10) (digit ∷ acc) in if ltb n 10 then digit ∷ acc else rest

-- `n + 1` rounds are more than there are digits.
unfoldable pub print_ℕ : ℕ → Text
unfolding print_onto
print_ℕ n = print_onto (suc n) n []

unfoldable pub print_ℤ : ℤ → Text
unfolding print_ℕ
print_ℤ (pos n) = print_ℕ n
print_ℤ (negsuc n) = b'-' ∷ print_ℕ (suc n)

-- The value of a digit in the radix, which is at most 16.
unfoldable pub digit_value : ℕ → ℕ → Option ℕ
digit_value radix c =
    let below = λ (d : ℕ). if ltb d radix then some d else none in
    if within b'0' b'9' c
    then below (c - b'0')
    else if within b'a' b'f' c
    then below (c - b'a' + 10)
    else if within b'A' b'F' c
    then below (c - b'A' + 10)
    else none

-- One more digit behind an accumulated value, with the overflow check.
unfoldable pub push_digit : ℕ → ℕ → ℕ → Option ℕ → Option ℕ
push_digit radix limit acc none = none
push_digit radix limit acc (some d) =
    if leb (acc * radix + d) limit then some (acc * radix + d) else none

-- `from_str_radix` behind the sign. An overflow is an error as soon as it happens.
unfoldable pub parse_digits : ℕ → ℕ → ℕ → Text → Option ℕ
parse_digits radix limit acc [] = some acc
parse_digits radix limit acc (c ∷ cs) = elim (push_digit radix limit acc (digit_value radix c)) [
  | none ↦ none
  | some next ↦ parse_digits radix limit next cs
]

-- `from_str_radix` for an unsigned type: a leading `+` is accepted, an empty text is an error.
unfoldable pub parse_unsigned : ℕ → ℕ → Text → Option ℕ
parse_unsigned radix limit [] = none
parse_unsigned radix limit (c ∷ cs) =
    if c == b'+'
    then (if is_empty cs then none else parse_digits radix limit 0 cs)
    else parse_digits radix limit 0 (c ∷ cs)

abbrev negated : ℕ → ℤ
negated zero = pos 0
negated (suc n) = negsuc n

-- `str::parse::<i64>`
unfoldable pub parse_i64 : Text → Option ℤ
parse_i64 [] = none
parse_i64 (c ∷ cs) =
    if c == b'-'
    then (if is_empty cs then none else do n ← parse_digits 10 (i64_max + 1) 0 cs; some (negated n))
    else do n ← parse_unsigned 10 i64_max (c ∷ cs); some (pos n)

abbrev pub parse_u64 : Text → Option ℕ
parse_u64 = parse_unsigned 10 u64_max

push_digit-le :
    (radix limit acc : ℕ) (d : Option ℕ) {n : ℕ} → push_digit radix limit acc d ≡ some n → n ≤ limit
unfolding push_digit
push_digit-le radix limit acc none e = cc
push_digit-le radix limit acc (some d) e = ground arith

parse_digits-le :
    (radix limit acc : ℕ) (s : Text) {n : ℕ}
    → acc ≤ limit
    → parse_digits radix limit acc s ≡ some n
    → n ≤ limit
parse_digits-le radix limit acc [] h e = unfold parse_digits in ground arith
parse_digits-le radix limit acc (c ∷ cs) {n} h e =
    elim (Option-cases (push_digit radix limit acc (digit_value radix c))) [
      | inl stop ↦ unfold parse_digits in absurd (cc)
      | inr (m, next) ↦
          parse_digits-le radix limit m cs
            (push_digit-le radix limit acc (digit_value radix c) next)
            (unfold parse_digits in rw (next, parse_digits) at e)
    ]

-- A parsed number fits its type.
pub parse_unsigned-le :
    (radix limit : ℕ) (s : Text) {n : ℕ} → parse_unsigned radix limit s ≡ some n → n ≤ limit
parse_unsigned-le radix limit [] e = unfold parse_unsigned in cc
parse_unsigned-le radix limit (c ∷ cs) {n} e =
    unfold parse_unsigned in
    ground (
      arith,
      parse_digits-le radix limit 0 cs {n = n},
      parse_digits-le radix limit 0 (c ∷ cs) {n = n},
    )
