-- ===== src/Json.antt =====
-- `serde_json::Value`: the data and the accessors that the program uses. The text format is read
-- and written by the `serde_json` crate and is no part of the model. The floating-point numbers of
-- a document are a parameter `F`.
pub mod Plain
pub mod Whole
use arc_twitch_widget.Prelude.{
  ℕ, ◌≤◌, ◌≡◌, Bool, false, List, [], ◌∷◌, Option, none, some, leb, if◌then◌else◌,
}
use arc_twitch_widget.Prelude.Int.{ℤ, pos, negsuc}
use arc_twitch_widget.Prelude.Word.{i64_max, u64_max}
use arc_twitch_widget.Text.{Text, eq_text}

-- A number of a document: an unsigned integer, a negative integer, or a float. `neg_int n` is
-- -(n + 1).
pub data Number (F : Type 0) : Type 0 where
  pos_int : ℕ → Number F
  neg_int : ℕ → Number F
  float : F → Number F

mutual
  pub data Value (F : Type 0) : Type 0 where
    null : Value F
    boolean : Bool → Value F
    number : Number F → Value F
    string : Text → Value F
    array : Values F → Value F
    object : Members F → Value F

  pub data Values (F : Type 0) : Type 0 where
    nil : Values F
    cons : Value F → Values F → Values F

  pub data Members (F : Type 0) : Type 0 where
    end : Members F
    member : Text → Value F → Members F → Members F

module _ {F : Type 0} where
  unfoldable pub to_list : Values F → List (Value F)
  to_list nil = []
  to_list (cons v vs) = v ∷ to_list vs

  unfoldable pub of_list : List (Value F) → Values F
  of_list [] = nil
  of_list (v ∷ vs) = cons v (of_list vs)

  unfoldable pub get_member : Members F → Text → Option (Value F)
  get_member end k = none
  get_member (member j v ms) k = if eq_text j k then some v else get_member ms k

  -- `value.get("key")`
  unfoldable pub get : Value F → Text → Option (Value F)
  unfolding get_member
  get (object ms) k = get_member ms k
  get _ k = none

  -- `Value::as_array`
  unfoldable pub as_array : Value F → Option (List (Value F))
  unfolding to_list
  as_array (array vs) = some (to_list vs)
  as_array _ = none

  unfoldable pub as_str : Value F → Option Text
  as_str (string s) = some s
  as_str _ = none

  unfoldable pub as_u64 : Value F → Option ℕ
  as_u64 (number (pos_int n)) = some n
  as_u64 _ = none

  unfoldable pub as_i64 : Value F → Option ℤ
  as_i64 (number (pos_int n)) = if leb n i64_max then some (pos n) else none
  as_i64 (number (neg_int n)) = some (negsuc n)
  as_i64 _ = none

-- What the program uses of `f64`: the test `>= 0.0`, the conversion `as u64`, the conversions of an
-- unsigned integer and of the negative integer -(n + 1), and `str::parse::<f64>`.
pub record Float : Type 1 where
  pub F : Type 0
  pub nonneg : F → Bool
  pub to_u64 : F → ℕ
  pub of_u64 : ℕ → F
  pub of_neg : ℕ → F
  pub parse : Text → Option F
  -- the conversion of a negative integer is not at least 0.0
  pub of_neg_lem : (n : ℕ) → nonneg (of_neg n) ≡ false
  -- `as u64` saturates
  pub to_u64-le : (x : F) → to_u64 x ≤ u64_max

module _ (fl : Float) where
  open fl use {F, of_u64, of_neg}

  -- `Value::as_f64`
  unfoldable pub as_f64 : Value F → Option F
  as_f64 (number (pos_int n)) = some (of_u64 n)
  as_f64 (number (neg_int n)) = some (of_neg n)
  as_f64 (number (float x)) = some x
  as_f64 _ = none
