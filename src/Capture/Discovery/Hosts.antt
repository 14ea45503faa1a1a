-- ===== src/Capture/Discovery/Hosts.antt =====
-- The loop that forgets hosts leaves room for one more.
use arc_twitch_widget.Prelude.{
  ℕ, zero, suc, ◌≤◌, ◌<◌, ◌≡◌, refl, true, false, not, List, [], ◌∷◌, none, some, retain, leb, ◌==◌,
  length, length-retain, All, arith, Bool-cases, Option-cases, inl, inr, ◌⊎◌,
}
use arc_twitch_widget.Text.{Text}
use arc_twitch_widget.HashMap
use arc_twitch_widget.HashMap.{HashMap}
use arc_twitch_widget.HashMap.Laws.{All-retain}
use arc_twitch_widget.Capture.Discovery.{contains_id, keys, max_tracked_api_connections}
use arc_twitch_widget.Capture.Discovery.Exchange.{stalest, make_room}
use arc_twitch_widget.Capture.Discovery.Counts.{IsMap, IsMap-retain}

-- The connection that is forgotten is one of the candidates.
stalest-contains :
    (seen : HashMap ℕ ℕ) (ids : List ℕ) {i : ℕ}
    → stalest seen ids ≡ some i
    → contains_id ids i ≡ true
unfolding stalest
stalest-contains seen [] h = cc
stalest-contains seen (id ∷ ids) {i} h =
    of (λ j found. stalest-contains seen ids found) (Option-cases (stalest seen ids))
  where
    of :
        ((j : ℕ) → stalest seen ids ≡ some j → contains_id ids j ≡ true)
        → ((stalest seen ids ≡ none) ⊎ ((j : ℕ) × (stalest seen ids ≡ some j)))
        → contains_id (id ∷ ids) i ≡ true
    of rest (inl alone) = ground arith
    of rest (inr (j, found)) = let there = rest j found in ground arith

contains-candidates :
    {V : Type 0} (m : HashMap ℕ V) (id i : ℕ)
    → contains_id (retain (λ j. not (j == id)) (keys m)) i ≡ true
    → contains_id (keys m) i ≡ true
contains-candidates [] id i h = cc
contains-candidates (e ∷ m) id i h = let rest = contains-candidates m id i in ground arith

length-remove :
    {V : Type 0} (m : HashMap ℕ V) (i : ℕ)
    → contains_id (keys m) i ≡ true
    → length (HashMap.remove ◌==◌ m i) < length m
unfolding HashMap.remove
length-remove [] i h = cc
length-remove (e ∷ m) i h =
    let rest = length-remove m i in
    let fewer = length-retain (λ (f : ℕ × _). not (f.0 == i)) m in ground arith

stalest-nil : (seen : HashMap ℕ ℕ) (ids : List ℕ) → stalest seen ids ≡ none → ids ≡ []
unfolding stalest
stalest-nil seen [] h = refl
stalest-nil seen (id ∷ ids) h = elim (Option-cases (stalest seen ids)) [
  | inl alone ↦ absurd (ground arith)
  | inr (j, found) ↦ absurd (ground arith)
]

-- Without another connection there is at most one.
length-alone :
    {V : Type 0} (m : HashMap ℕ V) (id : ℕ) (seen : HashMap ℕ ℕ)
    → IsMap m
    → stalest seen (retain (λ j. not (j == id)) (keys m)) ≡ none
    → length m ≤ 1
unfolding stalest
length-alone [] id seen h e = omega arith
length-alone (a ∷ []) id seen h e = omega arith
length-alone (a ∷ b ∷ m) id seen (new, h) e =
    let nobody = stalest-nil seen (retain (λ j. not (j == id)) (keys (a ∷ b ∷ m))) e in
    absurd (ground arith)

module _ (P : Text → Type 0) (seen : HashMap ℕ ℕ) (id : ℕ) where
  -- Once each, with the property, and with room for one more.
  abbrev pub Room : HashMap ℕ Text → Type 0
  Room m = IsMap m × All (λ e. P e.1) m × (length m ≤ 63)

  pub make_room-Room :
      (fuel : ℕ) (m : HashMap ℕ Text)
      → length m ≤ fuel
      → IsMap m
      → All (λ e. P e.1) m
      → Room (make_room fuel seen id m)
  unfolding make_room
  make_room-Room zero m enough once h = (once, h, omega arith)
  make_room-Room (suc fuel) m enough once h =
      of (λ i. make_room-Room fuel (HashMap.remove ◌==◌ m i))
        (Bool-cases (leb max_tracked_api_connections (length m)))
        (Option-cases (stalest seen (retain (λ j. not (j == id)) (keys m))))
    where
      of :
          ((i : ℕ)
            → length (HashMap.remove ◌==◌ m i) ≤ fuel
            → IsMap (HashMap.remove ◌==◌ m i)
            → All (λ e. P e.1) (HashMap.remove ◌==◌ m i)
            → Room (make_room fuel seen id (HashMap.remove ◌==◌ m i)))
          → ((leb max_tracked_api_connections (length m) ≡ true)
              ⊎ (leb max_tracked_api_connections (length m) ≡ false))
          → ((stalest seen (retain (λ j. not (j == id)) (keys m)) ≡ none)
              ⊎ ((i : ℕ) × (stalest seen (retain (λ j. not (j == id)) (keys m)) ≡ some i)))
          → Room (make_room (suc fuel) seen id m)
      of rest (inr few) d = rw (few, make_room) (once, h, ground arith)
      of rest (inl full) (inl nobody) =
          let few = length-alone m id seen once nobody in absurd (ground arith)
      of rest (inl full) (inr (i, found)) =
          let there =
            contains-candidates m id i
              (stalest-contains seen (retain (λ j. not (j == id)) (keys m)) found) in
          let fewer = length-remove m i there in
          rw (full, found, make_room)
            (rest i (omega arith) (unfold HashMap.remove in IsMap-retain _ m once)
              (unfold HashMap.remove in All-retain ◌==◌ P _ m h))
