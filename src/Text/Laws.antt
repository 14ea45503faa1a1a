-- ===== src/Text/Laws.antt =====
-- Laws of the text operations.
use arc_twitch_widget.Prelude.{
  append_assoc, ==_iff, ◌≢◌, ◌==◌, ◌∙◌, ap, ℕ, ◌≡◌, refl, ◌↔◌, inl, inr, Bool, true, false, not,
  ◌&&◌, List, [], ◌∷◌, ◌++◌, arith, all, Bool-cases, All,
}
use arc_twitch_widget.Text.{
  split, Text, eq_text, split_by, onto_first, before, starts_with, ascii_lower, to_ascii_lowercase,
  trim_end_by, join,
}

pub eq_text_iff : (s t : Text) → (eq_text s t ≡ true) ↔ (s ≡ t)
unfolding eq_text
eq_text_iff (x ∷ s) (y ∷ t) = ground (arith, eq_text_iff s t)
eq_text_iff _ _ = ground arith

pub eq_text_refl : (s : Text) → eq_text s s ≡ true
eq_text_refl s = (eq_text_iff s s).1 refl

pub ascii_lower_idem : (c : ℕ) → ascii_lower (ascii_lower c) ≡ ascii_lower c
unfolding ascii_lower
ascii_lower_idem c = ground arith

pub to_ascii_lowercase_idem :
    (s : Text) → to_ascii_lowercase (to_ascii_lowercase s) ≡ to_ascii_lowercase s
to_ascii_lowercase_idem [] = refl
to_ascii_lowercase_idem (c ∷ s) = cc (ascii_lower_idem c, to_ascii_lowercase_idem s)

module _ (p : ℕ → Bool) where
  pub all-append : (s t : Text) → all p (s ++ t) ≡ (all p s && all p t)
  all-append [] t = refl
  all-append (c ∷ s) t = ground (arith, all-append s t)

  onto_first-All :
      (c : ℕ) (ts : List Text)
      → p c ≡ false
      → All (λ t. all (λ d. not (p d)) t ≡ true) ts
      → All (λ t. all (λ d. not (p d)) t ≡ true) (onto_first c ts)
  onto_first-All c [] e h = (rw e, tt)
  onto_first-All c (t ∷ ts) e h = (rw (e, h.0), h.1)

  -- Splitting leaves none of the separators in a piece.
  pub split_by-All : (s : Text) → All (λ t. all (λ c. not (p c)) t ≡ true) (split_by p s)
  unfolding split_by
  split_by-All [] = (refl, tt)
  split_by-All (c ∷ s) = elim (Bool-cases (p c)) [
    | inl e ↦ rw e (refl, split_by-All s)
    | inr e ↦ rw e (onto_first-All c (split_by p s) e (split_by-All s))
  ]

  -- What stands before the first separator holds none.
  pub before-all : (s : Text) → all (λ c. not (p c)) (before p s) ≡ true
  unfolding before
  before-all [] = refl
  before-all (c ∷ s) = ground (arith, before-all s)

  pub before_id : (s : Text) → all (λ c. not (p c)) s ≡ true → before p s ≡ s
  unfolding before
  before_id [] h = refl
  before_id (c ∷ s) h = ground (arith, before_id s)

  pub trim_end_by_idem : (s : Text) → trim_end_by p (trim_end_by p s) ≡ trim_end_by p s
  unfolding trim_end_by
  trim_end_by_idem [] = refl
  trim_end_by_idem (c ∷ s) = ground (arith, trim_end_by_idem s)

pub starts_with-append : (s t : Text) → starts_with (s ++ t) s ≡ true
unfolding starts_with
starts_with-append [] t = refl
starts_with-append (c ∷ s) t = ground (arith, starts_with-append s t)

-- `starts_with` finds the rest.
pub starts_with-eq : (s p : Text) → starts_with s p ≡ true → (t : Text) × (s ≡ p ++ t)
unfolding starts_with
starts_with-eq s [] h = (s, refl)
starts_with-eq [] (x ∷ p) h = cc
starts_with-eq (c ∷ s) (x ∷ p) h =
    let (t, e) = starts_with-eq s p (ground arith) in (t, ground arith)

pub join-cons :
    (sep : ℕ) (s t : Text) (ts : List Text) → join sep (s ∷ t ∷ ts) ≡ s ++ (sep ∷ join sep (t ∷ ts))
unfolding join
join-cons sep s t ts = refl

-- Joining the pieces of a split by one separator gives the text back.
join-onto_first :
    (sep c : ℕ) (ts : List Text) → ts ≢ [] → join sep (onto_first c ts) ≡ c ∷ join sep ts
unfolding join
join-onto_first sep c [] h = absurd (h refl)
join-onto_first sep c (t ∷ []) h = refl
join-onto_first sep c (t ∷ u ∷ ts) h = refl

pub split_by-ne-nil : (p : ℕ → Bool) (s : Text) → split_by p s ≢ []
unfolding split_by
split_by-ne-nil p [] = λ e. cc e
split_by-ne-nil p (c ∷ s) = ground (arith)

join-nil : (sep : ℕ) (ts : List Text) → ts ≢ [] → join sep ([] ∷ ts) ≡ sep ∷ join sep ts
unfolding join
join-nil sep [] h = absurd (h refl)
join-nil sep (t ∷ ts) h = refl

pub join-split : (sep : ℕ) (s : Text) → join sep (split sep s) ≡ s
unfolding split_by
join-split sep [] = unfold join in refl
join-split sep (c ∷ s) =
    let ne = split_by-ne-nil (λ c. c == sep) s in
    elim (Bool-cases (c == sep)) [
      | inl e ↦ rw e (cc (join-nil sep (split sep s) ne, join-split sep s, (==_iff c sep).0 e))
      | inr e ↦ rw e (join-onto_first sep c (split sep s) ne ∙ ap (◌∷◌ c) (join-split sep s))
    ]

pub join-append :
    (sep : ℕ) (xs ys : List Text)
    → xs ≢ []
    → ys ≢ []
    → join sep (xs ++ ys) ≡ join sep xs ++ (sep ∷ join sep ys)
unfolding join
join-append sep [] ys h k = absurd (h refl)
join-append sep (x ∷ []) [] h k = absurd (k refl)
join-append sep (x ∷ []) (y ∷ ys) h k = refl
join-append sep (x ∷ z ∷ xs) ys h k = cc (
  join-append sep (z ∷ xs) ys (λ e. cc e) k,
  append_assoc x (sep ∷ join sep (z ∷ xs)) (sep ∷ join sep ys),
)

onto_first-append :
    (c : ℕ) (ss ts : List Text) → ss ≢ [] → onto_first c (ss ++ ts) ≡ onto_first c ss ++ ts
onto_first-append c [] ts h = absurd (h refl)
onto_first-append c (s ∷ ss) ts h = refl

pub split-append : (sep : ℕ) (s t : Text) → split sep (s ++ (sep ∷ t)) ≡ split sep s ++ split sep t
unfolding split_by
split-append sep [] t = let e : (sep == sep) ≡ true = ground arith in rw e refl
split-append sep (c ∷ s) t =
    let ne = split_by-ne-nil (λ c. c == sep) s in
    elim (Bool-cases (c == sep)) [
      | inl e ↦ rw e (ap (λ ts. [] ∷ ts) (split-append sep s t))
      | inr e ↦ rw e (
          ap (onto_first c) (split-append sep s t)
          ∙ onto_first-append c (split sep s) (split sep t) ne)
    ]
