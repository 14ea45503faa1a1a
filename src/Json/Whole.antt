-- ===== src/Json/Whole.antt =====
-- An instance of what Json assumes of `f64`: floats that are whole numbers.
use arc_twitch_widget.Prelude.{ℕ, ◌≤◌, refl, Bool, true, false, min, arith}
use arc_twitch_widget.Prelude.Int.{ℤ, pos, negsuc}
use arc_twitch_widget.Prelude.Word.{u64_max}
use arc_twitch_widget.Text.Decimal.{parse_i64}
use arc_twitch_widget.Json.{Float}

abbrev pub whole_to_u64 : ℤ → ℕ
whole_to_u64 (pos n) = min n u64_max
whole_to_u64 (negsuc n) = 0

abbrev pub whole_nonneg : ℤ → Bool
whole_nonneg (pos n) = true
whole_nonneg (negsuc n) = false

pub whole_to_u64-le : (z : ℤ) → whole_to_u64 z ≤ u64_max
whole_to_u64-le (pos n) = omega arith
whole_to_u64-le (negsuc n) = omega arith

abbrev pub whole : Float
whole = record {
  F = ℤ;
  nonneg = whole_nonneg;
  to_u64 = whole_to_u64;
  of_u64 = pos;
  of_neg = negsuc;
  parse = parse_i64;
  of_neg_lem = λ n. refl;
  to_u64-le = whole_to_u64-le;
}
