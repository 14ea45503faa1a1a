-- ===== src/Core/Tests.antt =====
-- Runs of crates/core on small inputs, and instances of its theorems.
use arc_twitch_widget.Prelude.{ℕ, ◌≡◌, refl, List, [], ◌∷◌, Option, none, some, arith, ◌⊎◌}
use arc_twitch_widget.Prelude.Int.{ℤ}
use arc_twitch_widget.Prelude.Result.{Result, ok, err}
use arc_twitch_widget.Prelude.Word.{saturating_add}
use arc_twitch_widget.Text.{codes, eq_text, is_ascii_alphanumeric, ascii_lower}
use arc_twitch_widget.Text.Decimal.{
  print_ℤ, parse_i64, parse_unsigned, parse_digits, push_digit, digit_value,
}
use arc_twitch_widget.BTreeMap
use arc_twitch_widget.BTreeMap.{lt_text}
use arc_twitch_widget.Json
use arc_twitch_widget.Json.{
  Value, Values, Members, Number, Float, null, boolean, number, string, array, object, nil, cons,
  end, member, pos_int,
}
use arc_twitch_widget.Json.Whole.{whole}
use arc_twitch_widget.Core.Overlay.{OverlayStats, overlay_stats_default, apply_session_baseline}
use arc_twitch_widget.Core.Overlay.Baseline.{Adds, apply_session_baseline-Adds}
use arc_twitch_widget.Core.State.{app_state_new}
use arc_twitch_widget.Core.State.Activity.{record_all, item, activity-record_all}
use arc_twitch_widget.Core.Events.{
  raw_key, known_row, event_kind, is_target, count_event, add_raw_total, add_target_total,
  add_entry,
}
use arc_twitch_widget.Core.Stats.{
  normalize_player_stats, normalize_rows, normalize_from, normalize_row, integer, unsigned,
  with_today, is_today_scope, i64_of_u64, u64_of_i64, u64_of_f64, StatsError, no_scopes, no_rows,
}
use arc_twitch_widget.Core.Stats.Response.{
  scopes_of, account_rows, today_rows, Normalised, normalize_player_stats_lem,
}

abbrev num : ℕ → Value ℤ
num n = number (pos_int n)

abbrev row : Value ℤ → ℕ → Value ℤ → Value ℤ
row event target n = object (
    member (codes "eventId") event
      (member (codes "targetId") (num target) (member (codes "amount") n end)))

abbrev scope : Value ℤ → Values ℤ → Value ℤ
scope name rows =
    object (member (codes "scope") name (member (codes "playerStats") (array rows) end))

-- The response of a test in stats.rs, cut down.
abbrev response : Value ℤ
response = object (
    member (codes "scopedPlayerStats")
      (array (
        cons
          (scope (string (codes "all")) (
            cons (row (num 9800) 1 (num 7)) (
              cons (row (string (codes "9801")) 1 (string (codes "4")))
                (cons (row (num 200) 995408715 (num 11)) (cons (row (num 200) 42 (num 29)) nil)))))
          (cons
            (scope (object (member (codes "discriminant") (string (codes "Daily")) end))
              (cons (row (num 9801) 1 (num 2)) nil))
            nil)))
      end)

normalize_player_stats_example :
    ((scopes_of whole response ≡ none) × (normalize_player_stats whole response ≡ err no_scopes))
    ⊎ ((scopes : List (Value ℤ)) × (scopes_of whole response ≡ some scopes)
        × (account_rows whole scopes ≡ none)
        × (normalize_player_stats whole response ≡ err no_rows))
    ⊎ ((scopes : List (Value ℤ)) × (rows : List (Value ℤ)) × (s : OverlayStats) × (unknown : ℕ)
        × (scopes_of whole response ≡ some scopes)
        × (account_rows whole scopes ≡ some rows)
        × (normalize_player_stats whole response ≡ ok (s, unknown))
        × Normalised whole rows (today_rows whole scopes) s unknown)
normalize_player_stats_example = normalize_player_stats_lem whole response

-- The counters of a test in state.rs.
abbrev first_stats : OverlayStats
first_stats = record overlay_stats_default {
  downs = 10;
  extractions = 20;
  deaths = 30;
  loot_value = 40000;
  value_brought_in = 8000;
}

abbrev middle : OverlayStats
middle = record first_stats { downs = 13; loot_value = 45000; value_brought_in = 20000 }

abbrev last_stats : OverlayStats
last_stats = record middle { extractions = 22; deaths = 31; loot_value = 55000 }

apply_session_baseline-Adds_example :
    Adds
      (apply_session_baseline last_stats first_stats)
      (apply_session_baseline middle first_stats)
      (apply_session_baseline last_stats middle)
unfolding BTreeMap.get
apply_session_baseline-Adds_example =
    apply_session_baseline-Adds first_stats middle last_stats (omega arith) (omega arith)
      (omega arith) (λ k. omega arith) (λ k. omega arith)

activity-record_all_example :
    (record_all
      (app_state_new 0 (codes "1") (codes "k"))
      ((2, codes "warn", codes "b") ∷ (1, codes "info", codes "a") ∷ [])).activity
    ≡ item (2, codes "warn", codes "b") ∷ item (1, codes "info", codes "a") ∷ []
unfolding app_state_new
activity-record_all_example =
    activity-record_all (app_state_new 0 (codes "1") (codes "k"))
      ((2, codes "warn", codes "b") ∷ (1, codes "info", codes "a") ∷ []) refl

-- What the overlay shows for the response: raids, extractions, knocks, ARC kills, today's exits.
abbrev shown : OverlayStats → ℕ × ℕ × ℕ × ℕ × ℕ
shown s = (s.raids, s.extractions, s.eliminations, s.arc_eliminations, s.today_extractions)

abbrev shown_by : Result StatsError (OverlayStats × ℕ) → Option (ℕ × ℕ × ℕ × ℕ × ℕ)
shown_by (ok (s, u)) = some (shown s)
shown_by (err e) = none

normalize_response : shown_by (normalize_player_stats whole response) ≡ some (7, 4, 11, 29, 2)
unfolding normalize_player_stats normalize_rows normalize_from normalize_row known_row event_kind
    is_target count_event add_raw_total add_target_total add_entry raw_key integer unsigned
    with_today is_today_scope is_ascii_alphanumeric ascii_lower eq_text Json.get Json.as_array
    Json.as_str Json.as_i64 Json.as_u64 Json.as_f64 i64_of_u64 u64_of_i64 u64_of_f64 parse_i64
    parse_unsigned parse_digits push_digit digit_value print_ℤ BTreeMap.get BTreeMap.insert lt_text
    saturating_add
normalize_response = refl
