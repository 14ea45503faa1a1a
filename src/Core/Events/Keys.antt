-- ===== src/Core/Events/Keys.antt =====
-- Different events, and different targets of one event, have different keys.
use arc_twitch_widget.Prelude.{◌≡◌, false, [], ◌∷◌, ◌++◌, Option, none, some}
use arc_twitch_widget.Prelude.Int.{ℤ}
use arc_twitch_widget.Text.{Text, codes}
use arc_twitch_widget.Text.Decimal.{print_ℤ}
use arc_twitch_widget.Text.Decimal.Injective.{numeric}

-- What follows a run of digits is found again: it begins with no digit.
abbrev Stops : Text → Type 0
Stops [] = Unit
Stops (c ∷ s) = numeric c ≡ false

-- What a key has behind the event id.
abbrev target_part : Option ℤ → Text
target_part none = []
target_part (some t) = codes ".target." ++ print_ℤ t
