-- ===== src/Text/Utf8.antt =====
-- UTF-8: `str::from_utf8` on bytes, and the length in bytes of a text.
use arc_twitch_widget.Prelude.{
  ℕ, ◌+◌, ◌-◌, ◌*◌, ◌/◌, ◌%◌, ◌<◌, ◌≡◌, refl, Bool, not, ◌&&◌, List, [], ◌∷◌, ◌++◌, Option, none,
  some, arith, leb, ltb, if◌then◌else◌, length, All,
}
use arc_twitch_widget.Text.{Text, within}

abbrev pub Bytes : Type 0
Bytes = List ℕ

-- The bytes that encode a scalar value.
unfoldable pub encode_char : ℕ → Bytes
encode_char c =
    if ltb c 0x80
    then c ∷ []
    else if ltb c 0x800
    then (0xc0 + c / 64) ∷ (0x80 + c % 64) ∷ []
    else if ltb c 0x10000
    then (0xe0 + c / 4096) ∷ (0x80 + c / 64 % 64) ∷ (0x80 + c % 64) ∷ []
    else (0xf0 + c / 262144) ∷ (0x80 + c / 4096 % 64) ∷ (0x80 + c / 64 % 64) ∷ (0x80 + c % 64) ∷ []

-- `as_bytes()`
unfoldable pub encode : Text → Bytes
unfolding encode_char
encode [] = []
encode (c ∷ cs) = encode_char c ++ encode cs

-- `len()` of a `str`: its bytes.
abbrev pub len : Text → ℕ
len s = length (encode s)

abbrev continuation : ℕ → Bool
continuation b = within 0x80 0xbf b

-- The scalar value of a sequence of two, three or four bytes, if it is well formed: no overlong
-- form, no surrogate, nothing past 0x10ffff.
unfoldable pub char2 : ℕ → ℕ → Option ℕ
char2 a b =
    if within 0xc2 0xdf a && continuation b then some ((a - 0xc0) * 64 + (b - 0x80)) else none

unfoldable pub char3 : ℕ → ℕ → ℕ → Option ℕ
char3 a b c =
    let value = (a - 0xe0) * 4096 + (b - 0x80) * 64 + (c - 0x80) in
    if within 0xe0 0xef a
      && continuation b
      && continuation c
      && leb 0x800 value
      && not (within 0xd800 0xdfff value)
    then some value
    else none

unfoldable pub char4 : ℕ → ℕ → ℕ → ℕ → Option ℕ
char4 a b c d =
    let value = (a - 0xf0) * 262144 + (b - 0x80) * 4096 + (c - 0x80) * 64 + (d - 0x80) in
    if within 0xf0 0xf4 a
      && continuation b
      && continuation c
      && continuation d
      && within 0x10000 0x10ffff value
    then some value
    else none

-- Put a decoded character in front of the rest.
abbrev onto : Option ℕ → Option Text → Option Text
onto none rest = none
onto (some c) none = none
onto (some c) (some cs) = some (c ∷ cs)

-- `str::from_utf8`. The lead byte decides how many bytes the character takes; what is left is
-- decoded only where the character is well formed.
unfoldable pub from_utf8 : Bytes → Option Text
from_utf8 [] = some []
from_utf8 (a ∷ []) = if ltb a 0x80 then some (a ∷ []) else none
from_utf8 (a ∷ b ∷ []) =
    let one = from_utf8 (b ∷ []) in
    if ltb a 0x80 then onto (some a) one else onto (char2 a b) (some [])
from_utf8 (a ∷ b ∷ c ∷ []) =
    let one = from_utf8 (b ∷ c ∷ []) in
    let two = from_utf8 (c ∷ []) in
    if ltb a 0x80
    then onto (some a) one
    else if ltb a 0xe0
    then onto (char2 a b) two
    else onto (char3 a b c) (some [])
from_utf8 (a ∷ b ∷ c ∷ d ∷ s) =
    let one = from_utf8 (b ∷ c ∷ d ∷ s) in
    let two = from_utf8 (c ∷ d ∷ s) in
    let three = from_utf8 (d ∷ s) in
    let four = from_utf8 s in
    if ltb a 0x80
    then onto (some a) one
    else if ltb a 0xe0
    then onto (char2 a b) two
    else if ltb a 0xf0
    then onto (char3 a b c) three
    else onto (char4 a b c d) four

-- Bytes below 0x80 are text as they stand.
pub from_utf8_ascii : (s : Bytes) → All (λ b. b < 0x80) s → from_utf8 s ≡ some s
unfolding from_utf8
from_utf8_ascii [] h = refl
from_utf8_ascii (a ∷ []) h = ground arith
from_utf8_ascii (a ∷ b ∷ []) h = ground (arith, from_utf8_ascii (b ∷ []))
from_utf8_ascii (a ∷ b ∷ c ∷ []) h = ground (arith, from_utf8_ascii (b ∷ c ∷ []))
from_utf8_ascii (a ∷ b ∷ c ∷ d ∷ s) h = ground (arith, from_utf8_ascii (b ∷ c ∷ d ∷ s) h.1)

pub encode_ascii : (s : Text) → All (λ c. c < 0x80) s → encode s ≡ s
unfolding encode
encode_ascii [] h = refl
encode_ascii (c ∷ s) h = ground (arith, encode_ascii s)

from_utf8_runs :
    from_utf8 (0xd0 ∷ 0x96 ∷ 0x41 ∷ 0xe2 ∷ 0x82 ∷ 0xac ∷ []) ≡ some (0x416 ∷ 0x41 ∷ 0x20ac ∷ [])
unfolding from_utf8 char2 char3 char4
from_utf8_runs = refl

from_utf8_refuses : from_utf8 (0xc0 ∷ 0x80 ∷ []) ≡ none
unfolding from_utf8 char2
from_utf8_refuses = refl
