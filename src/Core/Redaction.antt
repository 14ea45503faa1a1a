-- ===== src/Core/Redaction.antt =====
-- crates/core/src/redaction.rs: secrets taken out of a document, and the shape of a document. The
-- SHA-256 of the `sha2` crate, in hexadecimal, is a parameter.
pub mod Clean
use arc_twitch_widget.Prelude.{
  ℕ, zero, suc, ◌+◌, ◌-◌, Bool, true, false, not, ◌&&◌, ◌||◌, List, [], ◌∷◌, ◌++◌, Option, none,
  some, any, retain, take, if◌then◌else◌, leb, ltb, ◌==◌, length,
}
use arc_twitch_widget.Prelude.Int.{pos}
use arc_twitch_widget.Text.{Text, codes, to_ascii_lowercase, contains, split}
use arc_twitch_widget.Text.Decimal.{print_ℤ}
use arc_twitch_widget.Text.Utf8.{Bytes, encode, len}
use arc_twitch_widget.Json.{
  Value, Values, Members, null, boolean, number, string, array, object, nil, cons, end, member,
  pos_int, to_list,
}

abbrev pub sensitive_keys : List Text
sensitive_keys =
    codes "authorization"
    ∷ codes "access_token"
    ∷ codes "accesstoken"
    ∷ codes "refresh_token"
    ∷ codes "refreshtoken"
    ∷ codes "cookie"
    ∷ codes "set-cookie"
    ∷ codes "password"
    ∷ codes "secret"
    ∷ codes "session"
    ∷ []

-- `replace(['_', '-'], "")`
abbrev pub without_marks : Text → Text
without_marks s = retain (λ c. not (c == b'_' || c == b'-')) s

unfoldable pub is_sensitive_key : Text → Bool
is_sensitive_key key =
    let normalized = without_marks (to_ascii_lowercase key) in
    any (λ candidate. contains normalized (without_marks candidate)) sensitive_keys

-- Three segments of at least eight bytes each.
abbrev pub is_jwt : List Text → Bool
is_jwt (a ∷ b ∷ c ∷ []) = leb 8 (len a) && leb 8 (len b) && leb 8 (len c)
is_jwt _ = false

unfoldable pub looks_like_jwt : Text → Bool
looks_like_jwt value = is_jwt (split b'.' value)

module _ (sha256_hex : Bytes → Text) where
  -- `fingerprint`, with the first 16 of the hexadecimal digits.
  unfoldable pub fingerprint : Text → Text
  fingerprint value = take 16 (sha256_hex (encode (codes "arc-live-redaction-v1" ++ (0 ∷ value))))

  unfoldable pub sanitize_string : Text → Text
  sanitize_string value =
      if looks_like_jwt value
      then codes "[JWT:" ++ (fingerprint value ++ codes "]")
      else if ltb 4096 (len value)
      then codes "[LONG_STRING:" ++ (print_ℤ (pos (len value)) ++ codes " bytes]")
      else value

  module _ {F : Type 0} where
    unfoldable mutual
      -- `sanitize_with_key(None, value)`
      pub sanitize : Value F → Value F
      sanitize null = null
      sanitize (boolean b) = boolean b
      sanitize (number n) = number n
      sanitize (string s) = string (sanitize_string s)
      sanitize (array vs) = array (sanitize_values vs)
      sanitize (object ms) = object (sanitize_members ms)

      pub sanitize_values : Values F → Values F
      sanitize_values nil = nil
      sanitize_values (cons v vs) = cons (sanitize v) (sanitize_values vs)

      -- `sanitize_with_key(Some(key), value)` of each member
      pub sanitize_members : Members F → Members F
      sanitize_members end = end
      sanitize_members (member key v ms) =
          let clean = sanitize v in
          member key (if is_sensitive_key key then string (codes "[REDACTED]") else clean)
            (sanitize_members ms)

    -- `sanitize_json`
    unfoldable pub sanitize_json : Value F → Value F
    sanitize_json value = sanitize value

module _ {F : Type 0} where
  unfoldable mutual
    -- `json_shape`; `depth` levels are left of the six. The object of an array is in the order of
    -- its keys.
    pub shape_below : ℕ → Value F → Value F
    shape_below zero v = string (codes "depth_limit")
    shape_below (suc depth) (object ms) = object (shape_members depth 200 ms)
    shape_below (suc depth) (array vs) = object (
        member (codes "len") (number (pos_int (length (to_list vs)))) (
          member (codes "sample") (sample_shape depth vs)
            (member (codes "type") (string (codes "array")) end)))
    shape_below (suc depth) (string s) = string (codes "string")
    shape_below (suc depth) (number n) = string (codes "number")
    shape_below (suc depth) (boolean b) = string (codes "boolean")
    shape_below (suc depth) null = string (codes "null")

    -- `object.iter().take(200)`
    pub shape_members : ℕ → ℕ → Members F → Members F
    shape_members depth n end = end
    shape_members depth zero (member key v ms) = end
    shape_members depth (suc n) (member key v ms) =
        member key (shape_below depth v) (shape_members depth n ms)

    -- `values.first().map(…)`
    pub sample_shape : ℕ → Values F → Value F
    sample_shape depth nil = null
    sample_shape depth (cons v vs) = shape_below depth v

  -- `json_shape(value, depth)`
  unfoldable pub json_shape : Value F → ℕ → Value F
  json_shape value depth = shape_below (6 - depth) value
