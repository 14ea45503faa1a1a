-- ===== src/HashMap.antt =====
-- A hash map of the standard library: the entries in the order in which the map is walked, with a
-- test for equal keys. A program may not rely on that order.
pub mod Laws
use arc_twitch_widget.Prelude.{
  Bool, true, false, not, List, [], ◌∷◌, Option, none, some, map, retain, if◌then◌else◌,
}

abbrev pub HashMap {ℓ κ} : Type ℓ → Type κ → Type (ℓ ⊔ κ)
HashMap K V = List (K × V)

module _ {ℓ κ} {K : Type ℓ} {V : Type κ} (same : K → K → Bool) where
  unfoldable pub get : HashMap K V → K → Option V
  get [] k = none
  get ((k', v) ∷ m) k = if same k' k then some v else get m k

  -- `insert`: a new entry, or a new value in the old one.
  unfoldable pub insert : HashMap K V → K → V → HashMap K V
  insert [] k v = (k, v) ∷ []
  insert ((k', v') ∷ m) k v = if same k' k then (k', v) ∷ m else (k', v') ∷ insert m k v

  unfoldable pub remove : HashMap K V → K → HashMap K V
  remove m k = retain (λ e. not (same e.0 k)) m
