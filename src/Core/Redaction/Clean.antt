-- ===== src/Core/Redaction/Clean.antt =====
-- What a cleaned document no longer holds.
use arc_twitch_widget.Prelude.{
  ℕ, ◌≡◌, refl, ap, ◌∙◌, Bool, true, false, not, ◌&&◌, ◌||◌, [], ◌∷◌, ◌++◌, all, take,
  if◌then◌else◌, ltb, ◌==◌, arith, Bool-cases, inl, inr, zero, suc, ◌⊎◌,
}
use arc_twitch_widget.Prelude.Int.{pos}
use arc_twitch_widget.Text.{Text, codes, split, split_by, is_ascii_alphanumeric, eq_text}
use arc_twitch_widget.Text.Laws.{all-append, eq_text_refl}
use arc_twitch_widget.Text.Decimal.{print_ℤ}
use arc_twitch_widget.Text.Decimal.Injective.{print_ℤ-all, numeric}
use arc_twitch_widget.Text.Utf8.{Bytes, encode, len}
use arc_twitch_widget.Json.{
  Value, Values, Members, null, boolean, number, string, array, object, nil, cons, end, member,
}
use arc_twitch_widget.Core.Redaction.{
  is_sensitive_key, looks_like_jwt, fingerprint, sanitize_string, sanitize, sanitize_values,
  sanitize_members, sanitize_json,
}

-- The value of a secret member.
abbrev pub is_redacted : {F : Type 0} → Value F → Bool
is_redacted (string s) = eq_text s (codes "[REDACTED]")
is_redacted _ = false

module _ {F : Type 0} where
  unfoldable mutual
    -- No string is a token, and the value of a secret key is gone.
    pub is_clean : Value F → Bool
    is_clean null = true
    is_clean (boolean b) = true
    is_clean (number n) = true
    is_clean (string s) = not (looks_like_jwt s)
    is_clean (array vs) = are_clean vs
    is_clean (object ms) = members_clean ms

    pub are_clean : Values F → Bool
    are_clean nil = true
    are_clean (cons v vs) = is_clean v && are_clean vs

    pub members_clean : Members F → Bool
    members_clean end = true
    members_clean (member key v ms) =
        is_clean v && (not (is_sensitive_key key) || is_redacted v) && members_clean ms

abbrev dotless : ℕ → Bool
dotless c = not (c == b'.')

split-dotless : (s : Text) → all dotless s ≡ true → split b'.' s ≡ s ∷ []
unfolding split_by
split-dotless [] h = refl
split-dotless (c ∷ s) h = let rest = split-dotless s in ground arith

dotless-not_jwt : (s : Text) → all dotless s ≡ true → looks_like_jwt s ≡ false
unfolding looks_like_jwt
dotless-not_jwt s h = rw (split-dotless s h) refl

all-take : (n : ℕ) (s : Text) → all is_ascii_alphanumeric s ≡ true → all dotless (take n s) ≡ true
unfolding is_ascii_alphanumeric
all-take zero s h = refl
all-take (suc n) [] h = refl
all-take (suc n) (c ∷ s) h = let rest = all-take n s in ground arith

dotless_of_numeric : (s : Text) → all numeric s ≡ true → all dotless s ≡ true
dotless_of_numeric [] h = refl
dotless_of_numeric (c ∷ s) h = let rest = dotless_of_numeric s in ground arith

module _ (sha256_hex : Bytes → Text)
    (hex : (b : Bytes) → all is_ascii_alphanumeric (sha256_hex b) ≡ true) where
  sanitize_string-not_jwt : (s : Text) → looks_like_jwt (sanitize_string sha256_hex s) ≡ false
  unfolding sanitize_string fingerprint
  sanitize_string-not_jwt s = of (Bool-cases (looks_like_jwt s)) (Bool-cases (ltb 4096 (len s)))
    where
      digest : Text
      digest = sha256_hex (encode (codes "arc-live-redaction-v1" ++ (0 ∷ s)))

      size : Text
      size = print_ℤ (pos (len s))

      token : all dotless (codes "[JWT:" ++ (take 16 digest ++ codes "]")) ≡ true
      token = all-append dotless (take 16 digest) (codes "]") ∙ rw (all-take 16 digest (hex _)) refl

      long : all dotless (codes "[LONG_STRING:" ++ (size ++ codes " bytes]")) ≡ true
      long =
          all-append dotless size (codes " bytes]")
          ∙ rw (dotless_of_numeric size (print_ℤ-all (pos (len s)))) refl

      of :
          ((looks_like_jwt s ≡ true) ⊎ (looks_like_jwt s ≡ false))
          → ((ltb 4096 (len s) ≡ true) ⊎ (ltb 4096 (len s) ≡ false))
          → looks_like_jwt (
              if looks_like_jwt s
              then codes "[JWT:" ++ (take 16 digest ++ codes "]")
              else if ltb 4096 (len s)
              then codes "[LONG_STRING:" ++ (size ++ codes " bytes]")
              else s)
            ≡ false
      of (inl jwt) d = rw jwt (dotless-not_jwt _ token)
      of (inr plain) (inl large) = rw (plain, large) (dotless-not_jwt _ long)
      of (inr plain) (inr small) = rw (plain, small) plain

  module _ {F : Type 0} where
    mutual
      unfolding sanitize is_clean

      is_clean-sanitize : (v : Value F) → is_clean (sanitize sha256_hex v) ≡ true
      is_clean-sanitize null = refl
      is_clean-sanitize (boolean b) = refl
      is_clean-sanitize (number n) = refl
      is_clean-sanitize (string s) = ap not (sanitize_string-not_jwt s)
      is_clean-sanitize (array vs) = are_clean-sanitize_values vs
      is_clean-sanitize (object ms) = members_clean-sanitize_members ms

      are_clean-sanitize_values : (vs : Values F) → are_clean (sanitize_values sha256_hex vs) ≡ true
      are_clean-sanitize_values nil = refl
      are_clean-sanitize_values (cons v vs) =
          let now = is_clean-sanitize v in
          let later = are_clean-sanitize_values vs in rw (now, later) refl

      members_clean-sanitize_members :
          (ms : Members F) → members_clean (sanitize_members sha256_hex ms) ≡ true
      members_clean-sanitize_members end = refl
      members_clean-sanitize_members (member key v ms) =
          let now = is_clean-sanitize v in
          let later = members_clean-sanitize_members ms in
          elim (Bool-cases (is_sensitive_key key)) [
            | inl secret ↦
                rw
                  (
                    secret,
                    later,
                    dotless-not_jwt (codes "[REDACTED]") refl,
                    eq_text_refl (codes "[REDACTED]"),
                  )
                  refl
            | inr free ↦ rw (free, now, later) refl
          ]

    -- Whatever the document holds, no string of a cleaned one has the form of a token, and every
    -- member with a secret key is redacted, at any depth; the digest of SHA-256 is taken to be
    -- written in letters and digits.
    pub is_clean-sanitize_json : (v : Value F) → is_clean (sanitize_json sha256_hex v) ≡ true
    unfolding sanitize_json
    is_clean-sanitize_json v = is_clean-sanitize v
