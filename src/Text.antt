-- ===== src/Text.antt =====
-- Rust's `str` and `String` as lists of Unicode scalar values, with the operations of the standard
-- library that the program uses.
pub mod Laws
pub mod Decimal
pub mod Utf8
use Prim.Native.Char.{code}
use arc_twitch_widget.Prelude.{
  ℕ, ◌+◌, ◌-◌, String, Bool, true, false, not, ◌&&◌, ◌||◌, List, [], ◌∷◌, ◌++◌, Option, none, some,
  map, leb, ltb, ◌==◌, if◌then◌else◌, is_empty, all, any, length,
}

abbrev pub Text : Type 0
Text = List ℕ

-- A literal.
abbrev pub codes : String → Text
codes String.[] = []
codes (String.◌∷◌ c s) = code c ∷ codes s

-- `a == b` on strings and on byte slices.
unfoldable pub eq_text : Text → Text → Bool
eq_text [] [] = true
eq_text (x ∷ xs) (y ∷ ys) = x == y && eq_text xs ys
eq_text _ _ = false

-- `list.contains(&text)`, `matches!(text, "a" | "b" | …)`
abbrev pub one_of : Text → List Text → Bool
one_of s = any (eq_text s)

abbrev pub within : ℕ → ℕ → ℕ → Bool
within lo hi c = leb lo c && leb c hi

unfoldable pub is_ascii_alphanumeric : ℕ → Bool
is_ascii_alphanumeric c = within b'0' b'9' c || within b'A' b'Z' c || within b'a' b'z' c

unfoldable pub ascii_lower : ℕ → ℕ
ascii_lower c = if within b'A' b'Z' c then c + 32 else c

abbrev pub to_ascii_lowercase : Text → Text
to_ascii_lowercase = map ascii_lower

-- `char::is_whitespace`: the Unicode property White_Space.
unfoldable pub is_whitespace : ℕ → Bool
is_whitespace c =
    within 9 13 c
    || c == 32
    || c == 0x85
    || c == 0xa0
    || c == 0x1680
    || within 0x2000 0x200a c
    || c == 0x2028
    || c == 0x2029
    || c == 0x202f
    || c == 0x205f
    || c == 0x3000

-- `trim_start_matches(p)`, `trim_end_matches(p)`
unfoldable pub trim_start_by : (ℕ → Bool) → Text → Text
trim_start_by p [] = []
trim_start_by p (c ∷ cs) = elim (p c) [ true ↦ trim_start_by p cs | false ↦ c ∷ cs ]

-- The last character is kept unless all from it on satisfy `p`.
unfoldable pub trim_end_by : (ℕ → Bool) → Text → Text
trim_end_by p [] = []
trim_end_by p (c ∷ cs) =
    let rest = trim_end_by p cs in if is_empty rest && p c then [] else c ∷ rest

unfoldable pub trim : Text → Text
unfolding trim_start_by trim_end_by is_whitespace
trim s = trim_end_by is_whitespace (trim_start_by is_whitespace s)

-- `s.trim().is_empty()`
abbrev pub blank : Text → Bool
blank s = is_empty (trim s)

-- Put a character in front of the first piece.
abbrev pub onto_first : ℕ → List Text → List Text
onto_first c [] = (c ∷ []) ∷ []
onto_first c (s ∷ ss) = (c ∷ s) ∷ ss

-- `split(p)`: always at least one piece.
unfoldable pub split_by : (ℕ → Bool) → Text → List Text
split_by p [] = [] ∷ []
split_by p (c ∷ cs) = let rest = split_by p cs in if p c then [] ∷ rest else onto_first c rest

abbrev pub split : ℕ → Text → List Text
split sep = split_by (λ c. c == sep)

-- `split(p).next()`, which `split` never leaves without a piece.
unfoldable pub before : (ℕ → Bool) → Text → Text
before p [] = []
before p (c ∷ cs) = let rest = before p cs in if p c then [] else c ∷ rest

-- `split_once(sep)`
unfoldable pub split_once : ℕ → Text → Option (Text × Text)
split_once sep [] = none
split_once sep (c ∷ cs) = elim (c == sep) [
  | true ↦ some ([], cs)
  | false ↦ elim (split_once sep cs) [ none ↦ none | some (a, b) ↦ some (c ∷ a, b) ]
]

-- `join(sep)`
unfoldable pub join : ℕ → List Text → Text
join sep [] = []
join sep (s ∷ []) = s
join sep (s ∷ t ∷ ts) = s ++ (sep ∷ join sep (t ∷ ts))

-- `starts_with`, of strings and of byte slices.
unfoldable pub starts_with : Text → Text → Bool
starts_with s [] = true
starts_with [] (x ∷ p) = false
starts_with (c ∷ s) (x ∷ p) = c == x && starts_with s p

unfoldable pub ends_with : Text → Text → Bool
unfolding eq_text
ends_with [] p = is_empty p
ends_with (c ∷ s) p = eq_text (c ∷ s) p || ends_with s p

-- `contains(needle)`
unfoldable pub contains : Text → Text → Bool
unfolding starts_with
contains [] p = is_empty p
contains (c ∷ s) p = starts_with (c ∷ s) p || contains s p

-- `split_whitespace()`: the non-empty pieces between white space.
unfoldable pub nonempty : List Text → List Text
nonempty [] = []
nonempty (s ∷ ss) = let rest = nonempty ss in if is_empty s then rest else s ∷ rest

unfoldable pub split_whitespace : Text → List Text
unfolding nonempty split_by is_whitespace
split_whitespace s = nonempty (split_by is_whitespace s)
