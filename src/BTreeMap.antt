-- ===== src/BTreeMap.antt =====
-- `BTreeMap<String, V>`: the entries in the order of their keys, which is the order of iteration.
-- `serde_json::Map` is such a map too.
pub mod Laws
use arc_twitch_widget.Prelude.{
  ℕ, Bool, true, false, ◌||◌, ◌&&◌, List, [], ◌∷◌, Option, none, some, ltb, ◌==◌, if◌then◌else◌,
  is_some, map,
}
use arc_twitch_widget.Text.{Text, eq_text}

abbrev pub BTreeMap {ℓ} : Type ℓ → Type ℓ
BTreeMap V = List (Text × V)

-- The order of strings: by their scalar values, which is the order of their bytes.
unfoldable pub lt_text : Text → Text → Bool
lt_text s [] = false
lt_text [] (y ∷ t) = true
lt_text (x ∷ s) (y ∷ t) = ltb x y || (x == y && lt_text s t)

module _ {ℓ} {V : Type ℓ} where
  -- `get(k)`
  unfoldable pub get : BTreeMap V → Text → Option V
  get [] k = none
  get ((j, v) ∷ m) k = if eq_text j k then some v else get m k

  -- `insert(k, v)`
  unfoldable pub insert : BTreeMap V → Text → V → BTreeMap V
  insert [] k v = (k, v) ∷ []
  insert ((j, w) ∷ m) k v =
      if eq_text j k
      then (k, v) ∷ m
      else if lt_text k j
      then (k, v) ∷ (j, w) ∷ m
      else (j, w) ∷ insert m k v

-- `iter().map(|(k, v)| (k.clone(), f(k, v))).collect()`
unfoldable pub map_values {ℓ κ} :
    {V : Type ℓ} {W : Type κ} → (Text → V → W) → BTreeMap V → BTreeMap W
map_values f [] = []
map_values f ((k, v) ∷ m) = (k, f k v) ∷ map_values f m
