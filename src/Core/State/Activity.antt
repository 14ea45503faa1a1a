-- ===== src/Core/State/Activity.antt =====
-- The activity list of the application state is bounded, newest first.
use arc_twitch_widget.Prelude.{ℕ, suc, ◌≡◌, refl, ap, zero, List, [], ◌∷◌, take}
use arc_twitch_widget.Text.{Text}
use arc_twitch_widget.Core.State.{ActivityItem, AppState, record_activity}

-- A message of `AppState::record`: its time, level and text.
abbrev pub Entry : Type 0
Entry = ℕ × Text × Text

abbrev pub item : Entry → ActivityItem
item (now, level, message) = record { at = now; level = level; message = message }

-- The state after a sequence of messages, the last of the list first.
abbrev pub record_all : AppState → List Entry → AppState
record_all s [] = s
record_all s ((now, level, message) ∷ es) = record_activity (record_all s es) now level message

abbrev items : List Entry → List ActivityItem
items [] = []
items (e ∷ es) = item e ∷ items es

take-take {ℓ} : {A : Type ℓ} (n : ℕ) (xs : List A) → take n (take (suc n) xs) ≡ take n xs
take-take zero xs = refl
take-take (suc n) [] = refl
take-take (suc n) (x ∷ xs) = rw (take-take n xs)

-- From a state with no activity, whatever is recorded, the list holds the last hundred messages,
-- newest first, each with its time, level and text.
pub activity-record_all :
    (s : AppState) (es : List Entry)
    → s.activity ≡ []
    → (record_all s es).activity ≡ take 100 (items es)
unfolding record_activity
activity-record_all s [] h = h
activity-record_all s ((now, level, message) ∷ es) h =
    rw (activity-record_all s es h)
      (ap (◌∷◌ (item (now, level, message))) (take-take 99 (items es)))
