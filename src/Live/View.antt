-- ===== src/Live/View.antt =====
-- crates/arc-live/src/view.rs: what is shown of a number and of a problem; the drawing is left out.
use arc_twitch_widget.Prelude.{
  ℕ, zero, suc, ◌%◌, Bool, ◌&&◌, ◌||◌, not, [], ◌∷◌, Option, none, some, length, if◌then◌else◌, ltb,
  ◌==◌,
}
use arc_twitch_widget.Prelude.Int.{ℤ, pos, negsuc}
use arc_twitch_widget.Text.{Text, codes}
use arc_twitch_widget.Text.Decimal.{print_ℤ}
use arc_twitch_widget.Core.State.{GameKeylogStatus, missing, different}

-- The thin space and the minus sign.
abbrev pub thin_space : ℕ
thin_space = 0x2009

abbrev pub minus_sign : ℕ
minus_sign = 0x2212

-- The loop of `grouped`, from `index` on: a space stands before a digit with a multiple of three to go.
unfoldable pub grouped_from : ℕ → Text → Text
grouped_from index [] = []
grouped_from index (c ∷ cs) =
    let rest = grouped_from (suc index) cs in
    if ltb 0 index && length (c ∷ cs) % 3 == 0 then thin_space ∷ c ∷ rest else c ∷ rest

unfoldable pub grouped : ℕ → Text
grouped value = grouped_from 0 (print_ℤ (pos value))

-- `grouped_signed`
unfoldable pub grouped_signed : ℤ → Text
grouped_signed (pos zero) = codes "0"
grouped_signed (pos (suc n)) = b'+' ∷ grouped (suc n)
grouped_signed (negsuc n) = minus_sign ∷ grouped (suc n)

-- `grouped_metric`
unfoldable pub grouped_metric : ℤ → Text
grouped_metric (pos n) = grouped n
grouped_metric (negsuc n) = grouped_signed (negsuc n)

pub record ConnectionView : Type 0 where
  pub game_running : Bool
  pub stats_ready : Bool
  pub launcher_prepared : Bool
  pub service_privileged : Bool

pub record CaptureView : Type 0 where
  pub handshakes : ℕ
  pub key_errors : ℕ
  pub decrypted : ℕ
  pub game_keylog : GameKeylogStatus

pub data CaptureProblem : Type 0 where
  game_without_keys game_keys_elsewhere keys_do_not_match : CaptureProblem

unfoldable pub problem_of : GameKeylogStatus → CaptureView → Option CaptureProblem
problem_of missing v = some game_without_keys
problem_of different v = some game_keys_elsewhere
problem_of _ v = if ltb 0 v.handshakes && ltb 0 v.key_errors then some keys_do_not_match else none

-- `capture_problem`
unfoldable pub capture_problem : ConnectionView → CaptureView → Option CaptureProblem
capture_problem c v =
    if not c.game_running || ltb 0 v.decrypted then none else problem_of v.game_keylog v
