-- ===== src/Storage/Newest.antt =====
-- The statements on the tables of crates/storage/src/lib.rs, where the numbers are those that SQLite
-- gives.
use arc_twitch_widget.Prelude.{
  ℕ, zero, suc, ◌<◌, ◌≤◌, ◌≡◌, refl, ap, ◌∙◌, Bool, true, false, List, [], ◌∷◌, take, retain, All,
  arith,
}
use arc_twitch_widget.Prelude.Word.{i64_max}
use arc_twitch_widget.Storage.Tables.{
  Table, insert_row, place, order_by_id_desc, limit_rows, has_id, keep_newest, IsDescending,
  IsNumbered,
}

module _ {ℓ} {A : Type ℓ} where
  retain_cong : (p q : A → Bool) (xs : List A) → All (λ x. p x ≡ q x) xs → retain p xs ≡ retain q xs
  retain_cong p q [] h = refl
  retain_cong p q (x ∷ xs) h = of (p x) (q x) h.0 (retain_cong p q xs h.1)
    where
      of :
          (b c : Bool)
          → b ≡ c
          → {ys zs : List A} → ys ≡ zs
          → (elim b [ true ↦ x ∷ ys | false ↦ ys ] ≡ elim c [ true ↦ x ∷ zs | false ↦ zs ])
      of true true _ e = ap (λ ys. x ∷ ys) e
      of false false _ e = e
      of true false h e = cc
      of false true h e = cc

  retain_yes :
      (p : A → Bool) (x : A) (xs : List A) → p x ≡ true → retain p (x ∷ xs) ≡ x ∷ retain p xs
  retain_yes p x xs h = rw (h, retain) refl

  retain_none : (xs : List A) → retain (λ x. false) xs ≡ []
  retain_none [] = refl
  retain_none (x ∷ xs) = retain_none xs

  All_map : {P Q : A → Type 0} (f : (x : A) → P x → Q x) (xs : List A) → All P xs → All Q xs
  All_map f [] h = tt
  All_map f (x ∷ xs) h = (f x h.0, All_map f xs h.1)

  All-take : (P : A → Type 0) (n : ℕ) (xs : List A) → All P xs → All P (take n xs)
  All-take P zero xs h = tt
  All-take P (suc n) [] h = tt
  All-take P (suc n) (x ∷ xs) h = (h.0, All-take P n xs h.1)

module _ {R : Type 0} where
  place_first : (x : ℕ × R) (xs : List (ℕ × R)) → All (λ y. y.0 < x.0) xs → place x xs ≡ x ∷ xs
  unfolding place
  place_first x [] h = refl
  place_first x (y ∷ ys) h = ground arith

  pub order_by_id_desc-IsDescending :
      (xs : List (ℕ × R)) → IsDescending xs → order_by_id_desc xs ≡ xs
  unfolding order_by_id_desc
  order_by_id_desc-IsDescending [] h = refl
  order_by_id_desc-IsDescending (x ∷ xs) h =
      rw (order_by_id_desc-IsDescending xs h.1) (place_first x xs h.0)

  retain-has_id :
      (n : ℕ) (xs : List (ℕ × R))
      → IsDescending xs
      → retain (λ r. has_id r.0 (take n xs)) xs ≡ take n xs
  retain-has_id zero xs h = retain_none xs
  retain-has_id (suc n) [] h = refl
  retain-has_id (suc n) (x ∷ xs) h =
      let rest = retain-has_id n xs h.1 in
      let same =
        retain_cong (λ r. has_id r.0 (x ∷ take n xs)) (λ r. has_id r.0 (take n xs)) xs
          (All_map (λ y lt. ground arith) xs h.0) in
      retain_yes (λ r. has_id r.0 (x ∷ take n xs)) x xs (ground arith)
      ∙ ap (λ ys. x ∷ ys) (same ∙ rest)

  pub limit_rows-take : (n : ℕ) (xs : List (ℕ × R)) → n ≤ i64_max → limit_rows n xs ≡ take n xs
  unfolding limit_rows
  limit_rows-take n xs h = ground arith

  IsDescending-take : (n : ℕ) (xs : List (ℕ × R)) → IsDescending xs → IsDescending (take n xs)
  IsDescending-take zero xs h = tt
  IsDescending-take (suc n) [] h = tt
  IsDescending-take (suc n) (x ∷ xs) h = (All-take _ n xs h.0, IsDescending-take n xs h.1)

  -- With rows in the order of their numbers, the deletion keeps the `n` rows that were inserted last.
  pub rows-keep_newest :
      (n : ℕ) (t : Table R) → n ≤ i64_max → IsNumbered t → (keep_newest n t).rows ≡ take n t.rows
  unfolding keep_newest
  rows-keep_newest n t l h =
      rw (order_by_id_desc-IsDescending t.rows h.descending, limit_rows-take n t.rows l)
        (retain-has_id n t.rows h.descending)

  pub keep_newest-IsNumbered :
      (n : ℕ) (t : Table R) → n ≤ i64_max → IsNumbered t → IsNumbered (keep_newest n t)
  keep_newest-IsNumbered n t l h = record {
    given = rw (rows-keep_newest n t l h) (unfold keep_newest in All-take _ n t.rows h.given);
    descending = rw (rows-keep_newest n t l h) (IsDescending-take n t.rows h.descending);
  }

  pub insert_row-IsNumbered : (r : R) (t : Table R) → IsNumbered t → IsNumbered (insert_row r t)
  unfolding insert_row
  insert_row-IsNumbered r t h = record {
    given = (omega arith, All_map (λ x l. omega (arith, l)) t.rows h.given);
    descending = (All_map (λ x l. omega (arith, l)) t.rows h.given, h.descending);
  }
