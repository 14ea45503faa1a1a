-- ===== src/Text/Decimal/Injective.antt =====
-- Different integers are printed differently.
use arc_twitch_widget.Prelude.{
  ℕ, zero, suc, ◌+◌, ◌-◌, ◌*◌, ◌/◌, ◌%◌, ◌<◌, ◌≡◌, refl, sym, ap, ◌∙◌, Bool, true, [], ◌∷◌, arith,
  ltb, ◌==◌, all, ◌||◌, inl, inr, Bool-cases,
}
use arc_twitch_widget.Prelude.Int.{ℤ, pos, negsuc}
use arc_twitch_widget.Text.{Text, within}
use arc_twitch_widget.Text.Decimal.{print_onto, print_ℕ, print_ℤ}

-- The number that digits stand for, behind those already read.
abbrev read : ℕ → Text → ℕ
read n [] = n
read n (c ∷ cs) = read (n * 10 + (c - b'0')) cs

read-print_onto : (fuel n : ℕ) (acc : Text) → n < fuel → read 0 (print_onto fuel n acc) ≡ read n acc
unfolding print_onto
read-print_onto zero n acc h = absurd (omega arith)
read-print_onto (suc fuel) n acc h = elim (Bool-cases (ltb n 10)) [
  | inl small ↦ rw small (ap (λ m. read m acc) (ground arith))
  | inr large ↦ rw large (
      read-print_onto fuel (n / 10) ((b'0' + n % 10) ∷ acc) (ground arith)
      ∙ ap (λ m. read m acc) (omega arith))
]

read-print_ℕ : (n : ℕ) → read 0 (print_ℕ n) ≡ n
unfolding print_ℕ
read-print_ℕ n = read-print_onto (suc n) n [] (omega arith)

pub print_ℕ-injective : (m n : ℕ) → print_ℕ m ≡ print_ℕ n → m ≡ n
print_ℕ-injective m n h = sym (read-print_ℕ m) ∙ ap (read 0) h ∙ read-print_ℕ n

-- A digit, or the sign.
abbrev pub numeric : ℕ → Bool
numeric c = within b'0' b'9' c || c == b'-'

abbrev pub digit : ℕ → Bool
digit c = within b'0' b'9' c

print_onto-all :
    (fuel n : ℕ) (acc : Text) → all digit acc ≡ true → all digit (print_onto fuel n acc) ≡ true
unfolding print_onto
print_onto-all zero n acc h = h
print_onto-all (suc fuel) n acc h =
    let next : all digit ((b'0' + n % 10) ∷ acc) ≡ true = ground arith in
    ground (arith, print_onto-all fuel (n / 10) ((b'0' + n % 10) ∷ acc) next)

print_ℕ-all : (n : ℕ) → all digit (print_ℕ n) ≡ true
unfolding print_ℕ
print_ℕ-all n = print_onto-all (suc n) n [] refl

all-numeric_of_digit : (s : Text) → all digit s ≡ true → all numeric s ≡ true
all-numeric_of_digit [] h = refl
all-numeric_of_digit (c ∷ s) h = ground (arith, all-numeric_of_digit s)

pub print_ℤ-all : (z : ℤ) → all numeric (print_ℤ z) ≡ true
unfolding print_ℤ
print_ℤ-all (pos n) = all-numeric_of_digit (print_ℕ n) (print_ℕ-all n)
print_ℤ-all (negsuc n) = all-numeric_of_digit (print_ℕ (suc n)) (print_ℕ-all (suc n))

sign_ne : (s t : Text) → all digit s ≡ true → s ≡ b'-' ∷ t → ⊥
sign_ne [] t h e = cc
sign_ne (c ∷ s) t h e = ground arith

pub print_ℤ-injective : (y z : ℤ) → print_ℤ y ≡ print_ℤ z → y ≡ z
unfolding print_ℤ
print_ℤ-injective (pos m) (pos n) h = ap pos (print_ℕ-injective m n h)
print_ℤ-injective (pos m) (negsuc n) h =
    absurd (sign_ne (print_ℕ m) (print_ℕ (suc n)) (print_ℕ-all m) h)
print_ℤ-injective (negsuc m) (pos n) h =
    absurd (sign_ne (print_ℕ n) (print_ℕ (suc m)) (print_ℕ-all n) (sym h))
print_ℤ-injective (negsuc m) (negsuc n) h =
    let e : suc m ≡ suc n = print_ℕ-injective (suc m) (suc n) (cc h) in ap negsuc (omega arith)
