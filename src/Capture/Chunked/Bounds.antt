-- ===== src/Capture/Chunked/Bounds.antt =====
-- Decoding a chunked body stays inside the input and ends.
use arc_twitch_widget.Prelude.{
  ℕ, zero, suc, ◌+◌, ◌-◌, ◌≤◌, ◌<◌, ◌≡◌, true, false, ◌||◌, [], ◌∷◌, ◌++◌, Option, none, some, ltb,
  ◌==◌, length, length-append, length-take, length-drop, take, drop, arith, Bool-cases,
  Option-cases, inl, inr, ◌⊎◌,
}
use arc_twitch_widget.Prelude.Run.{
  Run, get_range, Returns, Returns-ret, Returns-if, Returns-bind, Returns-slice, Returns-slice_from,
  Returns-mono,
}
use arc_twitch_widget.Prelude.Word.{i64_max, saturating_add}
use arc_twitch_widget.Text.{starts_with}
use arc_twitch_widget.Text.Utf8.{Bytes}
use arc_twitch_widget.Capture.Chunked.{
  max_decoded_body, crlf, crlf_crlf, find, chunk_size, crlf_at, Round, done, again, last_chunk,
  chunk_data, sized_chunk, chunk_line, round, next_round, decode_from, decode_chunked,
}

starts_with-le : (s p : Bytes) → starts_with s p ≡ true → length p ≤ length s
unfolding starts_with
starts_with-le s [] h = omega arith
starts_with-le [] (x ∷ p) h = cc
starts_with-le (c ∷ s) (x ∷ p) h = ground (arith, starts_with-le s p)

-- What is found lies inside.
pub find-le :
    (haystack needle : Bytes) {i : ℕ}
    → find haystack needle ≡ some i
    → i + length needle ≤ length haystack
unfolding find
find-le [] needle h = absurd (cc h)
find-le (c ∷ s) needle {i} h =
    of (λ j found. find-le s needle found) (Bool-cases (starts_with (c ∷ s) needle))
      (Option-cases (find s needle))
  where
    of :
        ((j : ℕ) → find s needle ≡ some j → j + length needle ≤ length s)
        → ((starts_with (c ∷ s) needle ≡ true) ⊎ (starts_with (c ∷ s) needle ≡ false))
        → ((find s needle ≡ none) ⊎ ((j : ℕ) × (find s needle ≡ some j)))
        → i + length needle ≤ suc (length s)
    of rest (inl here) d = let e = starts_with-le (c ∷ s) needle here in ground arith
    of rest (inr later) (inl nowhere) = absurd (ground arith)
    of rest (inr later) (inr (j, found)) = let e = rest j found in ground arith

crlf_at-le : (input : Bytes) (cursor : ℕ) → crlf_at input cursor ≡ true → cursor + 2 ≤ length input
unfolding crlf_at get_range
crlf_at-le input cursor h = ground arith

-- The bounds of a result, and those between two rounds.
abbrev pub Decoded : Bytes → Option (Bytes × ℕ) → Type 0
Decoded input none = Unit
Decoded input (some (body, consumed)) =
    (consumed ≤ length input) × (length body ≤ max_decoded_body) × (length body ≤ consumed)

abbrev Moved : Bytes → ℕ → Round → Type 0
Moved input cursor (done result) = Decoded input result
Moved input cursor (again next body) =
    (cursor < next)
    × (next ≤ length input)
    × (length body ≤ max_decoded_body)
    × (length body ≤ next)

module _ (input : Bytes) (small : length input ≤ i64_max) where
  last_chunk-Returns :
      (cursor : ℕ) (output : Bytes)
      → cursor ≤ length input
      → length output ≤ max_decoded_body
      → length output ≤ cursor
      → (before : ℕ) → Returns (Moved input before) (last_chunk input cursor output)
  unfolding last_chunk
  last_chunk-Returns cursor output inside bound shorter before =
      Returns-if (crlf_at input cursor) _ _
        (λ end.
          let room = crlf_at-le input cursor end in
          Returns-ret (done (some (output, cursor + 2))) (room, bound, omega arith))
        λ trailers.
          Returns-slice_from input cursor _ inside
            (elim (Option-cases (find (drop cursor input) crlf_crlf)) [
              | inl nowhere ↦ rw nowhere (Returns-ret (done none) tt)
              | inr (at, found) ↦
                  let room = find-le (drop cursor input) crlf_crlf found in
                  let left = length-drop cursor input in
                  rw found (
                    Returns-ret (done (some (output, at + cursor + 4)))
                      (omega arith, bound, omega arith))
            ])

  chunk_data-Returns :
      (before cursor size : ℕ) (output : Bytes)
      → before < cursor
      → length output ≤ cursor
      → Returns (Moved input before) (chunk_data input cursor size output)
  unfolding chunk_data saturating_add
  chunk_data-Returns before cursor size output moved shorter =
      Returns-if
        (ltb max_decoded_body (saturating_add (length output) size)
          || ltb (length input) (saturating_add (saturating_add cursor size) 2))
        _ _ (λ big. Returns-ret (done none) tt)
        λ fits.
          let room : cursor + size + 2 ≤ length input = ground arith in
          let body : length output + size ≤ max_decoded_body = ground arith in
          let data_bytes = take (cursor + size - cursor) (drop cursor input) in
          let longer : length (output ++ data_bytes) ≡ length output + size = omega (
            arith,
            length-append output data_bytes,
            length-take (cursor + size - cursor) (drop cursor input),
            length-drop cursor input,
          ) in
          Returns-slice input cursor (cursor + size) _ (omega arith) (omega arith)
            (elim (Bool-cases (crlf_at input (cursor + size))) [
              | inl there ↦ rw there (
                  Returns-ret (again (cursor + size + 2) (output ++ data_bytes))
                    (omega arith, room, omega arith, omega arith))
              | inr missing ↦ rw missing (Returns-ret (done none) tt)
            ])

  sized_chunk-Returns :
      (before cursor : ℕ) (size : Option ℕ) (output : Bytes)
      → before < cursor
      → cursor ≤ length input
      → length output ≤ max_decoded_body
      → length output ≤ cursor
      → Returns (Moved input before) (sized_chunk input cursor size output)
  unfolding sized_chunk
  sized_chunk-Returns before cursor none output moved inside bound shorter =
      Returns-ret (done none) tt
  sized_chunk-Returns before cursor (some size) output moved inside bound shorter =
      Returns-if (size == 0) _ _
        (λ last. last_chunk-Returns cursor output inside bound shorter before)
        λ more. chunk_data-Returns before cursor size output moved shorter

  round-Returns :
      (cursor : ℕ) (output : Bytes)
      → cursor ≤ length input
      → length output ≤ max_decoded_body
      → length output ≤ cursor
      → Returns (Moved input cursor) (round input cursor output)
  unfolding round chunk_line
  round-Returns cursor output inside bound shorter =
      Returns-slice_from input cursor _ inside
        (elim (Option-cases (find (drop cursor input) crlf)) [
          | inl nowhere ↦ rw nowhere (Returns-ret (done none) tt)
          | inr (at, found) ↦
              let room = find-le (drop cursor input) crlf found in
              let left = length-drop cursor input in
              rw found (
                Returns-slice input cursor (at + cursor) _ (omega arith) (omega arith) (
                  sized_chunk-Returns cursor (at + cursor + 2) (chunk_size _) output (omega arith)
                    (omega arith) bound (omega arith)))
        ])

  next_round-Returns :
      (cursor : ℕ) (next : ℕ → Bytes → Run (Option (Bytes × ℕ))) (r : Round)
      → ((at : ℕ) (body : Bytes)
          → Moved input cursor (again at body)
          → Returns (Decoded input) (next at body))
      → Moved input cursor r
      → Returns (Decoded input) (next_round next r)
  next_round-Returns cursor next (done result) k h = Returns-ret result h
  next_round-Returns cursor next (again at body) k h = k at body h

  decode_from-Returns :
      (fuel cursor : ℕ) (output : Bytes)
      → length input < fuel + cursor
      → cursor ≤ length input
      → length output ≤ max_decoded_body
      → length output ≤ cursor
      → Returns (Decoded input) (decode_from fuel input cursor output)
  unfolding decode_from
  decode_from-Returns zero cursor output enough inside bound shorter = absurd (omega arith)
  decode_from-Returns (suc fuel) cursor output enough inside bound shorter =
      Returns-bind (round input cursor output) _ (
        Returns-mono (round-Returns cursor output inside bound shorter) λ r.
          next_round-Returns cursor (decode_from fuel input) r
            λ at body (moved, inside', bound', shorter').
              decode_from-Returns fuel at body (omega arith) inside' bound' shorter')

  -- A chunked body of any bytes that fit in memory is decoded without an index out of range, in
  -- no more rounds than there are bytes; a result consumes bytes of the input only, at least as
  -- many as the body has, and the body is within the bound.
  pub decode_chunked-Returns : Returns (Decoded input) (decode_chunked input)
  unfolding decode_chunked
  decode_chunked-Returns =
      decode_from-Returns (length input + 1) 0 [] (omega arith) (omega arith) (omega arith)
        (omega arith)
