-- ===== src/Core/Stats/Today.antt =====
-- The rows of a scope never touch the fields of today, which only the day scope fills.
use arc_twitch_widget.Prelude.{
  ℕ, ◌≡◌, refl, ◌∙◌, Bool, false, List, [], ◌∷◌, Option, none, some, arith,
}
use arc_twitch_widget.Prelude.Int.{ℤ}
use arc_twitch_widget.BTreeMap.{BTreeMap}
use arc_twitch_widget.Json.{Value, Float}
use arc_twitch_widget.Core.Overlay.{OverlayStats, overlay_stats_default}
use arc_twitch_widget.Core.Events.{
  EventKind, damage_by_enemy, event_kind, count_event, add_raw_total, add_target_total, known_row,
}
use arc_twitch_widget.Core.Events.Counters.{Counter, value, raids}
use arc_twitch_widget.Core.Stats.{
  row_with, normalize_row, normalize_from, normalize_rows, with_today,
}

abbrev pub Today : Type 0
Today = Bool × ℕ × ℕ × BTreeMap ℕ

abbrev pub today_of : OverlayStats → Today
today_of s = (s.today_available, s.today_extractions, s.today_deaths, s.today_raw_totals)

today_of-count_event :
    (kind : EventKind) (t : Option ℤ) (n : ℕ) (s : OverlayStats)
    → today_of (count_event kind t n s) ≡ today_of s
unfolding count_event
today_of-count_event damage_by_enemy t n s = refl
today_of-count_event _ t n s = ground arith

today_of-known_row :
    (e : ℤ) (t : Option ℤ) (n : ℕ) (s : OverlayStats) (u : ℕ)
    → today_of (known_row e t n (s, u)).0 ≡ today_of s
unfolding known_row add_target_total add_raw_total
today_of-known_row e none n s u = today_of-count_event (event_kind e) none n _
today_of-known_row e (some t) n s u = today_of-count_event (event_kind e) (some t) n _

module _ (fl : Float) where
  open fl use {F}

  today_of-row_with :
      (e : Option ℤ) (row : Value F) (s : OverlayStats) (u : ℕ)
      → today_of (row_with fl e row (s, u)).0 ≡ today_of s
  unfolding row_with
  today_of-row_with none row s u = refl
  today_of-row_with (some e) row s u = today_of-known_row e _ _ s u

  today_of-normalize_from :
      (rows : List (Value F)) (acc : OverlayStats × ℕ)
      → today_of (normalize_from fl acc rows).0 ≡ today_of acc.0
  unfolding normalize_from normalize_row
  today_of-normalize_from [] acc = refl
  today_of-normalize_from (row ∷ rows) (s, u) =
      today_of-normalize_from rows (normalize_row fl (s, u) row) ∙ today_of-row_with _ row s u

  pub today_of-normalize_rows :
      (rows : List (Value F)) → today_of (normalize_rows fl rows).0 ≡ (false, 0, 0, [])
  unfolding normalize_rows
  today_of-normalize_rows rows = today_of-normalize_from rows (overlay_stats_default, 0)

  pub value-with_today :
      (c : Counter) (today : Option (List (Value F))) (s : OverlayStats)
      → value c (with_today fl today s) ≡ value c s
  unfolding with_today
  value-with_today c none s = refl
  value-with_today raids (some rows) s = refl
  value-with_today _ (some rows) s = refl
