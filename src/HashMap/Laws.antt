-- ===== src/HashMap/Laws.antt =====
-- What a lookup finds after a change of a hash map.
use mathlib.Core.Path.{subst}
use arc_twitch_widget.Prelude.{
  All, ◌+◌, ◌≤◌, ◌≡◌, refl, Bool, true, [], ◌∷◌, some, retain, length, arith, Bool-cases, inl, inr,
}
use arc_twitch_widget.HashMap.{HashMap, get, insert}

module _ {ℓ κ} {K : Type ℓ} {V : Type κ} (same : K → K → Bool) where
  -- An entry that is kept is found as before.
  pub get-retain :
      (p : K → Bool) (m : HashMap K V) (k : K)
      → ((j : K) → same j k ≡ true → p j ≡ true)
      → get same (retain (λ e. p e.0) m) k ≡ get same m k
  unfolding get
  get-retain p [] k h = refl
  get-retain p ((j, v) ∷ m) k h = let rest = get-retain p m k h in let now = h j in ground arith

  pub length-insert : (m : HashMap K V) (k : K) (v : V) → length (insert same m k v) ≤ length m + 1
  unfolding insert
  length-insert [] k v = omega arith
  length-insert ((j, w) ∷ m) k v = let rest = length-insert m k v in ground arith

some-inj {ℓ} : {A : Type ℓ} {a b : A} → some a ≡ some b → a ≡ b
some-inj h = cc h

module _ {ℓ κ μ} {K : Type ℓ} {V : Type κ} (same : K → K → Bool) (P : V → Type μ) where
  pub All-insert :
      (m : HashMap K V) (k : K) (v : V)
      → All (λ e. P e.1) m
      → P v
      → All (λ e. P e.1) (insert same m k v)
  unfolding insert
  All-insert [] k v h p = (p, tt)
  All-insert ((j, w) ∷ m) k v (h, hs) p = elim (Bool-cases (same j k)) [
    | inl found ↦ rw found (p, hs)
    | inr other ↦ rw other (h, All-insert m k v hs p)
  ]

  pub All-get : (m : HashMap K V) (k : K) (v : V) → All (λ e. P e.1) m → get same m k ≡ some v → P v
  unfolding get
  All-get [] k v h e = cc
  All-get ((j, w) ∷ m) k v (h, hs) e = elim (Bool-cases (same j k)) [
    | inl found ↦ subst P (some-inj (rw found at e)) h
    | inr other ↦ All-get m k v hs (rw other at e)
  ]

  pub All-retain :
      (p : K × V → Bool) (m : HashMap K V) → All (λ e. P e.1) m → All (λ e. P e.1) (retain p m)
  All-retain p [] h = tt
  All-retain p (e ∷ m) (h, hs) = elim (Bool-cases (p e)) [
    | inl kept ↦ rw (kept, All) (h, All-retain p m hs)
    | inr gone ↦ rw (gone, All) (All-retain p m hs)
  ]
