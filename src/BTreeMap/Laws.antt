-- ===== src/BTreeMap/Laws.antt =====
-- Laws of the map: a lookup after an insertion, and the order of the keys.
use arc_twitch_widget.Prelude.{
  true, false, [], ◌∷◌, ◌≡◌, refl, sym, ap, inl, inr, Bool-cases, Option, none, some, arith,
  if◌then◌else◌,
}
use arc_twitch_widget.Text.{Text, eq_text}
use arc_twitch_widget.Text.Laws.{eq_text_iff}
use arc_twitch_widget.BTreeMap.{BTreeMap, lt_text, get, insert, map_values}

abbrev pub map_option {ℓ κ} : {A : Type ℓ} {B : Type κ} → (A → B) → Option A → Option B
map_option f none = none
map_option f (some a) = some (f a)

module _ {ℓ} {V : Type ℓ} where
  pub get-insert :
      (m : BTreeMap V) (k j : Text) (v : V)
      → get (insert m k v) j ≡ (if eq_text k j then some v else get m j)
  unfolding get insert
  get-insert [] k j v = refl
  get-insert ((i, w) ∷ m) k j v =
      ground (arith, eq_text_iff k j, eq_text_iff i k, eq_text_iff i j, get-insert m k j v)

  -- The keys grow from entry to entry.
  abbrev pub Above : Text → BTreeMap V → Type 0
  Above k [] = Unit
  Above k ((j, v) ∷ m) = lt_text k j ≡ true

  abbrev pub IsSorted : BTreeMap V → Type 0
  IsSorted [] = Unit
  IsSorted ((k, v) ∷ m) = Above k m × IsSorted m

pub lt_text_total : (s t : Text) → eq_text t s ≡ false → lt_text s t ≡ false → lt_text t s ≡ true
unfolding lt_text eq_text
lt_text_total [] [] e h = cc
lt_text_total [] (y ∷ t) e h = cc
lt_text_total (x ∷ s) [] e h = refl
lt_text_total (x ∷ s) (y ∷ t) e h = ground (arith, lt_text_total s t)

module _ {ℓ} {V : Type ℓ} where
  insert-Above :
      (j k : Text) (v : V) (m : BTreeMap V)
      → lt_text j k ≡ true
      → Above j m
      → Above j (insert m k v)
  unfolding insert
  insert-Above j k v [] h a = h
  insert-Above j k v ((i, w) ∷ m) h a = ground arith

  -- An insertion keeps the keys in order.
  pub insert-IsSorted : (m : BTreeMap V) (k : Text) (v : V) → IsSorted m → IsSorted (insert m k v)
  unfolding insert
  insert-IsSorted [] k v h = (tt, tt)
  insert-IsSorted ((j, w) ∷ m) k v h =
      let ih : IsSorted (insert m k v) = insert-IsSorted m k v h.1 in
      elim (Bool-cases (eq_text j k)) [
        | inl same ↦ rw same (rw (sym ((eq_text_iff j k).0 same)) h)
        | inr other ↦ elim (Bool-cases (lt_text k j)) [
          | inl before ↦ rw (other, before) (before, h)
          | inr after ↦
              rw (other, after) (insert-Above j k v m (lt_text_total k j other after) h.0, ih)
        ]
      ]

pub get-map_values {ℓ κ} :
    {V : Type ℓ} {W : Type κ} (f : Text → V → W) (m : BTreeMap V) (k : Text)
    → get (map_values f m) k ≡ map_option (f k) (get m k)
unfolding get map_values
get-map_values f [] k = refl
get-map_values f ((j, v) ∷ m) k = elim (Bool-cases (eq_text j k)) [
  | inl same ↦ rw same (ap (λ i. some (f i v)) ((eq_text_iff j k).0 same))
  | inr other ↦ rw other (get-map_values f m k)
]

map_values-Above {ℓ κ} :
    {V : Type ℓ} {W : Type κ} (f : Text → V → W) (j : Text) (m : BTreeMap V)
    → Above j m
    → Above j (map_values f m)
unfolding map_values
map_values-Above f j [] h = h
map_values-Above f j ((k, v) ∷ m) h = h

-- The keys of a mapped map are those of the map, in their order.
pub map_values-IsSorted {ℓ κ} :
    {V : Type ℓ} {W : Type κ} (f : Text → V → W) (m : BTreeMap V)
    → IsSorted m
    → IsSorted (map_values f m)
unfolding map_values
map_values-IsSorted f [] h = h
map_values-IsSorted f ((k, v) ∷ m) h = (map_values-Above f k m h.0, map_values-IsSorted f m h.1)
