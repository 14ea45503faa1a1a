-- ===== src/Prelude/Run.antt =====
-- Code that may panic or loop: a run returns a value, panics at an index or a slice out of range,
-- or uses up the rounds that its model has.
use Prim.Native.Nat.{ℕ, zero, suc, ◌+◌, ◌-◌, ◌≤◌, ◌<◌}
use mathlib.Core.Path.{◌≡◌, refl, ap, ◌∙◌}
use mathlib.Core.Bool.{Bool, true, false, ◌&&◌}
use mathlib.Core.Option.{Option, none, some}
use mathlib.Core.List.{List, [], ◌∷◌, ◌++◌}
use native.Mathlib.Omega.{arith}
use arc_twitch_widget.Prelude.Tests.{leb, if◌then◌else◌}
use arc_twitch_widget.Prelude.Lists.{length, get_elem?, take, drop}

pub data Run {ℓ} (A : Type ℓ) : Type ℓ where
  ret : A → Run A
  panic : Run A
  out_of_fuel : Run A

infixl 5 ◌>>=◌
abbrev pub ◌>>=◌ {ℓ κ} : {A : Type ℓ} {B : Type κ} → Run A → (A → Run B) → Run B
ret a >>= f = f a
panic >>= f = panic
out_of_fuel >>= f = out_of_fuel

abbrev pub at_index {ℓ} : {A : Type ℓ} → Option A → Run A
at_index none = panic
at_index (some a) = ret a

module _ {ℓ} {A : Type ℓ} where
  -- `xs[i]`
  unfoldable pub index : List A → ℕ → Run A
  index xs i = at_index (get_elem? xs i)

  -- `xs[a..b]`
  unfoldable pub slice : List A → ℕ → ℕ → Run (List A)
  slice xs a b = if leb a b && leb b (length xs) then ret (take (b - a) (drop a xs)) else panic

  -- `xs[a..]`
  unfoldable pub slice_from : List A → ℕ → Run (List A)
  slice_from xs a = if leb a (length xs) then ret (drop a xs) else panic

  -- `xs.get(a..b)`
  unfoldable pub get_range : List A → ℕ → ℕ → Option (List A)
  get_range xs a b = if leb a b && leb b (length xs) then some (take (b - a) (drop a xs)) else none

-- The run returns, and its value satisfies `P`.
abbrev pub Returns {ℓ} : {A : Type ℓ} → (A → Type ℓ) → Run A → Type ℓ
Returns {A} P r = (a : A) × (r ≡ ret a) × P a

module _ {ℓ} {A : Type ℓ} {P : A → Type ℓ} where
  pub Returns-ret : (a : A) → P a → Returns P (ret a)
  Returns-ret a h = (a, refl, h)

  pub Returns-if :
      (b : Bool) (x y : Run A)
      → (b ≡ true → Returns P x)
      → (b ≡ false → Returns P y)
      → Returns P (if b then x else y)
  Returns-if true x y h k = h refl
  Returns-if false x y h k = k refl

  pub Returns-mono :
      {Q : A → Type ℓ} {r : Run A} → Returns P r → ((a : A) → P a → Q a) → Returns Q r
  Returns-mono (a, e, h) k = (a, e, k a h)

module _ {ℓ} {A : Type ℓ} where
  pub get_elem?-lt : (xs : List A) (i : ℕ) → i < length xs → (a : A) × (get_elem? xs i ≡ some a)
  get_elem?-lt [] i h = absurd (omega arith)
  get_elem?-lt (x ∷ xs) zero h = (x, refl)
  get_elem?-lt (x ∷ xs) (suc i) h = get_elem?-lt xs i (omega arith)

  pub get_elem?-append :
      (xs ys : List A) (i : ℕ) → get_elem? (xs ++ ys) (length xs + i) ≡ get_elem? ys i
  get_elem?-append [] ys i = let e : 0 + i ≡ i = omega arith in ap (get_elem? ys) e
  get_elem?-append (x ∷ xs) ys i =
      let e : suc (length xs) + i ≡ suc (length xs + i) = omega arith in
      ap (get_elem? (x ∷ (xs ++ ys))) e ∙ get_elem?-append xs ys i

module _ {ℓ} {A B : Type ℓ} {P : B → Type ℓ} where
  pub Returns-bind :
      (r : Run A) (f : A → Run B) → Returns (λ a. Returns P (f a)) r → Returns P (r >>= f)
  Returns-bind r f (a, e, h) = rw e h

  pub Returns-step :
      (r : Run A) (f : A → Run B) (a : A) → r ≡ ret a → Returns P (f a) → Returns P (r >>= f)
  Returns-step r f a e h = rw e h

  pub Returns-then :
      (r : Run A) (f : A → Run B)
      → Returns (λ a. Unit {ℓ}) r
      → ((a : A) → Returns P (f a))
      → Returns P (r >>= f)
  Returns-then r f (a, e, u) k = rw e (k a)

  pub Returns-index :
      (xs : List A) (i : ℕ) (f : A → Run B)
      → i < length xs
      → ((a : A) → Returns P (f a))
      → Returns P (index xs i >>= f)
  unfolding index
  Returns-index xs i f h k = let (a, e) = get_elem?-lt xs i h in rw e (k a)

  pub Returns-slice :
      (xs : List A) (a b : ℕ) (f : List A → Run B)
      → a ≤ b
      → b ≤ length xs
      → Returns P (f (take (b - a) (drop a xs)))
      → Returns P (slice xs a b >>= f)
  unfolding slice
  Returns-slice xs a b f h k r =
      let e : (leb a b && leb b (length xs)) ≡ true = ground arith in rw e r

  pub Returns-slice_from :
      (xs : List A) (a : ℕ) (f : List A → Run B)
      → a ≤ length xs
      → Returns P (f (drop a xs))
      → Returns P (slice_from xs a >>= f)
  unfolding slice_from
  Returns-slice_from xs a f h r = let e : leb a (length xs) ≡ true = ground arith in rw e r
