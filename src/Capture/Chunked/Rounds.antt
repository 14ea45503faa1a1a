-- ===== src/Capture/Chunked/Rounds.antt =====
-- A round of the decoder at a chunk, as a sender writes it.
use arc_twitch_widget.Prelude.{
  ℕ, ◌+◌, ◌-◌, ◌≤◌, ◌≡◌, ◌∙◌, sym, refl, ap, true, false, not, ◌&&◌, ◌||◌, List, [], ◌∷◌, ◌++◌,
  append_assoc, some, leb, ltb, ◌==◌, length, all, length-append, take, drop, take-append,
  drop-append, arith,
}
use arc_twitch_widget.Prelude.Run.{ret, slice, slice_from, get_range}
use arc_twitch_widget.Prelude.Word.{i64_max, saturating_add}
use arc_twitch_widget.Text.{starts_with, eq_text}
use arc_twitch_widget.Text.Utf8.{Bytes}
use arc_twitch_widget.Capture.Chunked.{
  max_decoded_body, crlf, find, chunk_size, crlf_at, done, again, last_chunk, chunk_data,
  sized_chunk, chunk_line, round,
}

-- A chunk as a sender writes it: the line with its size, and the data.
pub record Chunk : Type 0 where
  pub line : Bytes
  pub content : Bytes

-- A line has no carriage return and states the size of the data, which is not empty.
pub record IsChunk (c : Chunk) : Type 0 where
  pub plain : all (λ b. not (b == 13)) c.line ≡ true
  pub size : chunk_size c.line ≡ some (length c.content)
  pub some_data : 1 ≤ length c.content

pub record IsLast (line : Bytes) : Type 0 where
  pub plain : all (λ b. not (b == 13)) line ≡ true
  pub size : chunk_size line ≡ some 0

-- The chunks and the line of the last one, on the wire.
abbrev pub chunked : List Chunk → Bytes → Bytes
chunked [] last = last ++ (crlf ++ crlf)
chunked (c ∷ cs) last = c.line ++ (crlf ++ (c.content ++ (crlf ++ chunked cs last)))

abbrev pub body_of : List Chunk → Bytes
body_of [] = []
body_of (c ∷ cs) = c.content ++ body_of cs

pub find-line :
    (line rest : Bytes)
    → all (λ b. not (b == 13)) line ≡ true
    → find (line ++ (crlf ++ rest)) crlf ≡ some (length line)
unfolding find starts_with
find-line [] rest h = refl
find-line (b ∷ line) rest h = let later = find-line line rest (ground arith) in ground arith

module _ (a b c : Bytes) where
  slice_from-append : slice_from (a ++ b) (length a) ≡ ret b
  unfolding slice_from
  slice_from-append =
      let e : leb (length a) (length (a ++ b)) ≡ true = ground (arith, length-append a b) in
      rw e (ap ret (drop-append a b))

  inner : take (length b + length a - length a) (drop (length a) (a ++ (b ++ c))) ≡ b
  inner =
      let e : length b + length a - length a ≡ length b = omega arith in
      rw (e, drop-append a (b ++ c)) (take-append b c)

  in_range :
      (leb (length a) (length b + length a) && leb (length b + length a) (length (a ++ (b ++ c))))
      ≡ true
  in_range = ground (arith, length-append a (b ++ c), length-append b c)

  slice-append : slice (a ++ (b ++ c)) (length a) (length b + length a) ≡ ret b
  unfolding slice
  slice-append = rw in_range (ap ret inner)

  get_range-append : get_range (a ++ (b ++ c)) (length a) (length b + length a) ≡ some b
  unfolding get_range
  get_range-append = rw in_range (ap some inner)

crlf_at-append : (a c : Bytes) (n : ℕ) → n ≡ length a → crlf_at (a ++ (crlf ++ c)) n ≡ true
unfolding crlf_at eq_text
crlf_at-append a c n h =
    let e : n + 2 ≡ 2 + length a = omega arith in
    let got : get_range (a ++ (crlf ++ c)) n (n + 2) ≡ some crlf =
      rw (e, h) (get_range-append a crlf c) in
    rw (got, crlf_at) refl

-- The data of a chunk behind its line.
chunk_data-append :
    (a content tail output : Bytes)
    → length output + length content ≤ max_decoded_body
    → length (a ++ (content ++ (crlf ++ tail))) ≤ i64_max
    → chunk_data (a ++ (content ++ (crlf ++ tail))) (length a) (length content) output
      ≡ ret (again (length a + length content + 2) (output ++ content))
unfolding chunk_data
chunk_data-append a content tail output bound small =
    let input = a ++ (content ++ (crlf ++ tail)) in
    let size = length-append a (content ++ (crlf ++ tail)) in
    let size' = length-append content (crlf ++ tail) in
    let fits : (ltb max_decoded_body (saturating_add (length output) (length content))
          || ltb (length input) (saturating_add (saturating_add (length a) (length content)) 2))
        ≡ false =
      unfold saturating_add in ground arith in
    let swap : length a + length content ≡ length content + length a = omega arith in
    let here : slice input (length a) (length a + length content) ≡ ret content =
      ap (slice input (length a)) swap ∙ slice-append a content (crlf ++ tail) in
    let there : crlf_at input (length a + length content) ≡ true =
      ap (λ x. crlf_at x (length a + length content)) (sym (append_assoc a content (crlf ++ tail)))
      ∙ crlf_at-append (a ++ content) tail (length a + length content)
          (sym (length-append a content)) in
    rw (fits, here, there) refl

-- A round at a chunk.
pub round-chunk :
    (a tail output : Bytes) (c : Chunk)
    → IsChunk c
    → length output + length c.content ≤ max_decoded_body
    → length (a ++ (c.line ++ (crlf ++ (c.content ++ (crlf ++ tail))))) ≤ i64_max
    → round (a ++ (c.line ++ (crlf ++ (c.content ++ (crlf ++ tail))))) (length a) output
      ≡ ret (again (length c.line + length a + 2 + length c.content + 2) (output ++ c.content))
unfolding round chunk_line sized_chunk
round-chunk a tail output c h bound small =
    let rest = c.content ++ (crlf ++ tail) in
    let input = a ++ (c.line ++ (crlf ++ rest)) in
    let behind = a ++ (c.line ++ crlf) in
    let same : behind ++ rest ≡ input =
      append_assoc a (c.line ++ crlf) rest ∙ ap (λ x. a ++ x) (append_assoc c.line crlf rest) in
    let at : length behind ≡ length c.line + length a + 2 =
      omega (arith, length-append a (c.line ++ crlf), length-append c.line crlf) in
    let more : (length c.content == 0) ≡ false = let p = h.some_data in ground arith in
    let inside = chunk_data-append behind c.content tail output bound (rw same small) in
    rw
      (
        slice_from-append a (c.line ++ (crlf ++ rest)),
        find-line c.line rest h.plain,
        slice-append a c.line (crlf ++ rest),
        h.size,
        more,
      )
      (cc (inside, same, at))

-- The round behind the chunks.
pub round-last :
    (a rest output line : Bytes)
    → IsLast line
    → round (a ++ (line ++ (crlf ++ (crlf ++ rest)))) (length a) output
      ≡ ret (done (some (output, length line + length a + 2 + 2)))
unfolding round chunk_line sized_chunk last_chunk
round-last a rest output line h =
    let input = a ++ (line ++ (crlf ++ (crlf ++ rest))) in
    let behind = a ++ (line ++ crlf) in
    let same : behind ++ (crlf ++ rest) ≡ input =
      append_assoc a (line ++ crlf) (crlf ++ rest)
      ∙ ap (λ x. a ++ x) (append_assoc line crlf (crlf ++ rest)) in
    let at : length line + length a + 2 ≡ length behind =
      omega (arith, length-append a (line ++ crlf), length-append line crlf) in
    let end : crlf_at input (length line + length a + 2) ≡ true =
      ap (λ x. crlf_at x (length line + length a + 2)) (sym same)
      ∙ crlf_at-append behind rest (length line + length a + 2) at in
    rw
      (
        slice_from-append a (line ++ (crlf ++ (crlf ++ rest))),
        find-line line (crlf ++ rest) h.plain,
        slice-append a line (crlf ++ (crlf ++ rest)),
        h.size,
        end,
      )
      refl
