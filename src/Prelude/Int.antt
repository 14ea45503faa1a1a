-- ===== src/Prelude/Int.antt =====
-- Signed integers over the native numbers: `i64` values, and the `i128` sums that are clamped to
-- them.
use Prim.Native.Nat.{ℕ, suc, ◌+◌, ◌-◌, ◌≤◌, min}
use mathlib.Core.Path.{◌≡◌}
use native.Mathlib.Omega.{arith}
use arc_twitch_widget.Prelude.Tests.{leb, if◌then◌else◌}
use arc_twitch_widget.Prelude.Word.{i64_max}

-- `negsuc n` is -(n + 1).
pub data ℤ : Type 0 where
  pos : ℕ → ℤ
  negsuc : ℕ → ℤ

abbrev pub pos_part : ℤ → ℕ
pos_part (pos n) = n
pos_part (negsuc n) = 0

abbrev pub neg_part : ℤ → ℕ
neg_part (pos n) = 0
neg_part (negsuc n) = suc n

-- a - b, as an integer.
abbrev pub sub_ℕ : ℕ → ℕ → ℤ
sub_ℕ a b = if leb b a then pos (a - b) else negsuc (b - a - 1)

infixl 65 ◌+ℤ◌ ◌-ℤ◌
infix 50 ◌≤ℤ◌
unfoldable pub ◌+ℤ◌ : ℤ → ℤ → ℤ
a +ℤ b = sub_ℕ (pos_part a + pos_part b) (neg_part a + neg_part b)

unfoldable pub ◌-ℤ◌ : ℤ → ℤ → ℤ
a -ℤ b = sub_ℕ (pos_part a + neg_part b) (neg_part a + pos_part b)

abbrev pub ◌≤ℤ◌ : ℤ → ℤ → Type 0
a ≤ℤ b = pos_part a + neg_part b ≤ pos_part b + neg_part a

pub +ℤ_parts :
    (a b : ℤ)
    → pos_part (a +ℤ b) + neg_part a + neg_part b ≡ neg_part (a +ℤ b) + pos_part a + pos_part b
unfolding ◌+ℤ◌
+ℤ_parts a b = ground arith

pub -ℤ_parts :
    (a b : ℤ)
    → pos_part (a -ℤ b) + neg_part a + pos_part b ≡ neg_part (a -ℤ b) + pos_part a + neg_part b
unfolding ◌-ℤ◌
-ℤ_parts a b = ground arith

pub eq_of_parts : (a b : ℤ) → pos_part a + neg_part b ≡ pos_part b + neg_part a → a ≡ b
eq_of_parts a b h = ground arith

pub ruleset int_laws = (arith, +ℤ_parts, -ℤ_parts, eq_of_parts)

-- `i64::MIN`, `i64::MAX` as integers.
abbrev pub i64_min_ℤ : ℤ
i64_min_ℤ = negsuc i64_max

abbrev pub i64_max_ℤ : ℤ
i64_max_ℤ = pos i64_max

-- `(x: i128).clamp(i64::MIN as i128, i64::MAX as i128) as i64`
unfoldable pub clamp_i64 : ℤ → ℤ
clamp_i64 (pos n) = pos (min n i64_max)
clamp_i64 (negsuc n) = negsuc (min n i64_max)

pub clamp_i64_bounds : (a : ℤ) → (i64_min_ℤ ≤ℤ clamp_i64 a) × (clamp_i64 a ≤ℤ i64_max_ℤ)
unfolding clamp_i64
clamp_i64_bounds (pos n) = omega arith
clamp_i64_bounds (negsuc n) = omega arith

pub clamp_i64_id : (a : ℤ) → i64_min_ℤ ≤ℤ a → a ≤ℤ i64_max_ℤ → clamp_i64 a ≡ a
unfolding clamp_i64
clamp_i64_id (pos n) h k = ground arith
clamp_i64_id (negsuc n) h k = ground arith
