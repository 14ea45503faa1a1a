-- ===== src/Capture/Discovery/Counts.antt =====
-- Sets of connections: what is in them after a sort, a cut and a filter, and how many.
use arc_twitch_widget.Prelude.{
  ℕ, zero, suc, ◌+◌, ◌≤◌, ◌≡◌, refl, ap, ◌∙◌, Bool, true, false, not, ◌||◌, List, [], ◌∷◌, ◌++◌,
  retain, take, ◌==◌, length, All, arith, Bool-cases, inl, inr,
}
use arc_twitch_widget.HashMap
use arc_twitch_widget.HashMap.{HashMap}
use arc_twitch_widget.Capture.Discovery.{contains_id, keys, insert_by_age, sort_by_age}

abbrev pub count {ℓ} : {A : Type ℓ} → (A → Bool) → List A → ℕ
count p xs = length (retain p xs)

pub count-not :
    {A : Type 0} (p : A → Bool) (xs : List A) → count (λ x. not (p x)) xs + count p xs ≡ length xs
count-not p [] = omega arith
count-not p (x ∷ xs) = let rest = count-not p xs in ground arith

pub count-retain : {A : Type 0} (p q : A → Bool) (xs : List A) → count q (retain p xs) ≤ count q xs
count-retain p q [] = omega arith
count-retain p q (x ∷ xs) = let rest = count-retain p q xs in ground arith

pub count-insert_by_age :
    (q : ℕ × ℕ → Bool) (e : ℕ × ℕ) (es : List (ℕ × ℕ))
    → count q (insert_by_age e es) ≡ count q (e ∷ es)
unfolding insert_by_age
count-insert_by_age q e [] = refl
count-insert_by_age q e (f ∷ es) = let rest = count-insert_by_age q e es in ground arith

pub count-sort_by_age :
    (q : ℕ × ℕ → Bool) (es : List (ℕ × ℕ)) → count q (sort_by_age es) ≡ count q es
unfolding sort_by_age
count-sort_by_age q [] = refl
count-sort_by_age q (e ∷ es) =
    let rest = count-sort_by_age q es in
    let here = count-insert_by_age q e (sort_by_age es) in ground arith

pub contains-insert_by_age :
    (i : ℕ) (e : ℕ × ℕ) (es : List (ℕ × ℕ))
    → contains_id (keys (insert_by_age e es)) i ≡ (e.0 == i || contains_id (keys es) i)
unfolding insert_by_age
contains-insert_by_age i e [] = refl
contains-insert_by_age i e (f ∷ es) = let rest = contains-insert_by_age i e es in ground arith

pub contains-sort_by_age :
    (i : ℕ) (es : List (ℕ × ℕ)) → contains_id (keys (sort_by_age es)) i ≡ contains_id (keys es) i
unfolding sort_by_age
contains-sort_by_age i [] = refl
contains-sort_by_age i (e ∷ es) =
    contains-insert_by_age i e (sort_by_age es) ∙ ap (◌||◌ (e.0 == i)) (contains-sort_by_age i es)

pub contains-take :
    (n : ℕ) (ids : List ℕ) (i : ℕ) → contains_id ids i ≡ false → contains_id (take n ids) i ≡ false
contains-take zero ids i h = refl
contains-take (suc n) [] i h = refl
contains-take (suc n) (j ∷ ids) i h = let rest = contains-take n ids i in ground arith

pub contains-append :
    (xs ys : List ℕ) (i : ℕ) → contains_id (xs ++ ys) i ≡ (contains_id xs i || contains_id ys i)
contains-append [] ys i = refl
contains-append (x ∷ xs) ys i = let rest = contains-append xs ys i in ground arith

-- Entries that fail the test are not among the kept ones.
pub contains-retain :
    (p : ℕ × ℕ → Bool) (es : List (ℕ × ℕ)) (i : ℕ)
    → ((e : ℕ × ℕ) → e.0 ≡ i → p e ≡ false)
    → contains_id (keys (retain p es)) i ≡ false
contains-retain p [] i h = refl
contains-retain p (e ∷ es) i h =
    let rest = contains-retain p es i h in let here = h e in ground arith

pub contains-cons :
    (i : ℕ) (ids js : List ℕ)
    → All (λ j. contains_id ids j ≡ true) js
    → All (λ j. contains_id (i ∷ ids) j ≡ true) js
contains-cons i ids [] h = tt
contains-cons i ids (j ∷ js) (h, hs) = (ground arith, contains-cons i ids js hs)

pub contains_self : (ids : List ℕ) → All (λ i. contains_id ids i ≡ true) ids
contains_self [] = tt
contains_self (i ∷ ids) = (ground arith, contains-cons i ids ids (contains_self ids))

pub keys-take : (n : ℕ) (es : List (ℕ × ℕ)) → take n (keys es) ≡ keys (take n es)
keys-take zero es = refl
keys-take (suc n) [] = refl
keys-take (suc n) (e ∷ es) = ap (◌∷◌ e.0) (keys-take n es)

pub length-insert_by_age :
    (e : ℕ × ℕ) (es : List (ℕ × ℕ)) → length (insert_by_age e es) ≡ length (e ∷ es)
unfolding insert_by_age
length-insert_by_age e [] = refl
length-insert_by_age e (f ∷ es) = let rest = length-insert_by_age e es in ground arith

pub length-sort_by_age : (es : List (ℕ × ℕ)) → length (sort_by_age es) ≡ length es
unfolding sort_by_age
length-sort_by_age [] = refl
length-sort_by_age (e ∷ es) =
    length-insert_by_age e (sort_by_age es) ∙ ap (λ n. suc n) (length-sort_by_age es)

-- The first entries are among those whose id is one of the first.
pub count-take :
    (ids : List ℕ) (n : ℕ) (es : List (ℕ × ℕ))
    → All (λ i. contains_id ids i ≡ true) (take n (keys es))
    → length (take n es) ≤ count (λ e. contains_id ids e.0) es
count-take ids zero es h = omega arith
count-take ids (suc n) [] h = omega arith
count-take ids (suc n) (e ∷ es) (h, hs) = let rest = count-take ids n es hs in ground arith

-- Entries with different keys are no more than the keys.
abbrev pub IsMap : {V : Type 0} → HashMap ℕ V → Type 0
IsMap [] = Unit
IsMap (e ∷ es) = (contains_id (keys es) e.0 ≡ false) × IsMap es

pub none_of :
    (i : ℕ) (es : List (ℕ × ℕ)) → contains_id (keys es) i ≡ false → count (λ e. i == e.0) es ≡ 0
none_of i [] h = refl
none_of i (e ∷ es) h = let rest = none_of i es in ground arith

pub count-one : (i : ℕ) (es : List (ℕ × ℕ)) → IsMap es → count (λ e. i == e.0) es ≤ 1
count-one i [] h = omega arith
count-one i (e ∷ es) (new, h) =
    let rest = count-one i es h in
    let here = none_of e.0 es new in
    elim (Bool-cases (i == e.0)) [
      | inl same ↦
          let at : i ≡ e.0 = ground arith in
          let gone : count (λ f. i == f.0) es ≡ 0 = rw at here in ground arith
      | inr other ↦ ground arith
    ]

pub count-or :
    (p q : ℕ × ℕ → Bool) (es : List (ℕ × ℕ)) → count (λ e. p e || q e) es ≤ count p es + count q es
count-or p q [] = omega arith
count-or p q (e ∷ es) = let rest = count-or p q es in ground arith

pub count-keys :
    (ids : List ℕ) (es : List (ℕ × ℕ)) → IsMap es → count (λ e. contains_id ids e.0) es ≤ length ids
count-keys [] [] h = omega arith
count-keys [] (e ∷ es) (new, h) = count-keys [] es h
count-keys (i ∷ ids) es h =
    let one = count-one i es h in
    let rest = count-keys ids es h in
    let both = count-or (λ e. i == e.0) (λ e. contains_id ids e.0) es in omega arith

pub contains-retain_new :
    {V : Type 0} (p : ℕ × V → Bool) (es : HashMap ℕ V) (i : ℕ)
    → contains_id (keys es) i ≡ false
    → contains_id (keys (retain p es)) i ≡ false
contains-retain_new p [] i h = refl
contains-retain_new p (e ∷ es) i h = let rest = contains-retain_new p es i in ground arith

pub contains-insert :
    {V : Type 0} (es : HashMap ℕ V) (i : ℕ) (n : V) (j : ℕ)
    → contains_id (keys es) j ≡ false
    → (j == i) ≡ false
    → contains_id (keys (HashMap.insert ◌==◌ es i n)) j ≡ false
unfolding HashMap.insert
contains-insert [] i n j h other = ground arith
contains-insert ((k, m) ∷ es) i n j h other = let rest = contains-insert es i n j in ground arith

pub IsMap-retain :
    {V : Type 0} (p : ℕ × V → Bool) (es : HashMap ℕ V) → IsMap es → IsMap (retain p es)
IsMap-retain p [] h = tt
IsMap-retain p (e ∷ es) (new, h) = elim (Bool-cases (p e)) [
  | inl kept ↦ rw (kept, IsMap) (contains-retain_new p es e.0 new, IsMap-retain p es h)
  | inr gone ↦ rw (gone, IsMap) (IsMap-retain p es h)
]

pub IsMap-insert :
    {V : Type 0} (es : HashMap ℕ V) (i : ℕ) (n : V) → IsMap es → IsMap (HashMap.insert ◌==◌ es i n)
unfolding HashMap.insert
IsMap-insert [] i n h = (refl, tt)
IsMap-insert ((j, m) ∷ es) i n (new, h) = elim (Bool-cases (j == i)) [
  | inl same ↦ rw (same, IsMap) (new, h)
  | inr other ↦ rw (other, IsMap) (contains-insert es i n j new other, IsMap-insert es i n h)
]
