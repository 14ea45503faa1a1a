-- ===== src/Storage/Samples.antt =====
-- An instance of what Storage takes as parameters, for runs on small inputs.
use native.Mathlib.Decide.{ℕ_discrete}
use arc_twitch_widget.Prelude.{ℕ, zero, suc, ◌≡◌, refl, [], ◌∷◌, Option, none, some}
use arc_twitch_widget.Text.{Text, codes}
use arc_twitch_widget.Json.{Value, null, boolean, number, string, array, object}
use arc_twitch_widget.Core.Overlay.{OverlayStats, overlay_stats_default}
use arc_twitch_widget.Storage.{Codec}
use arc_twitch_widget.Storage.Logged.{RoundTrips}

OverlayStats-discrete : Discrete OverlayStats
OverlayStats-discrete = hlevel (ℕ_discrete)

abbrev pub at_start : OverlayStats
at_start = record overlay_stats_default {
  mode = codes "live";
  downs = 4;
  raw_totals = (codes "event.204", 4) ∷ [];
}

abbrev pub at_end : OverlayStats
at_end = record overlay_stats_default {
  mode = codes "live";
  downs = 9;
  session_downs = 5;
  raw_totals = (codes "event.204", 9) ∷ [];
  session_raw_totals = (codes "event.204", 5) ∷ [];
}

-- A codec of strings and of two overlays, which writes nothing else.
abbrev pub write_value : Value ℕ → Option Text
write_value (string s) = some s
write_value _ = none

pub write_stats : OverlayStats → Option Text
write_stats o = elim (OverlayStats-discrete o at_start) [
  | yes _ ↦ some (0 ∷ [])
  | no _ ↦ elim (OverlayStats-discrete o at_end) [ yes _ ↦ some (1 ∷ []) | no _ ↦ none ]
]

abbrev pub read_stats : Text → Option OverlayStats
read_stats [] = none
read_stats (c ∷ s) = elim c [ zero ↦ some at_start | suc _ ↦ some at_end ]

abbrev pub read_time : Text → Option ℕ
read_time [] = none
read_time (c ∷ s) = some c

abbrev pub codec : Codec ℕ
codec = record {
  to_rfc3339 = λ t. t ∷ [];
  parse_from_rfc3339 = read_time;
  to_string = write_value;
  from_str = λ s. some (string s);
  stats_to_string = write_stats;
  stats_from_str = read_stats;
}

value_back : (v : Value ℕ) (s : Text) → write_value v ≡ some s → some (string s) ≡ some v
value_back (string t) s h = let same : t ≡ s = cc in rw same refl
value_back null s h = cc
value_back (boolean b) s h = cc
value_back (number n) s h = cc
value_back (array vs) s h = cc
value_back (object ms) s h = cc

stats_back : (o : OverlayStats) (s : Text) → write_stats o ≡ some s → read_stats s ≡ some o
unfolding write_stats
stats_back o s h = of (OverlayStats-discrete o at_start) (OverlayStats-discrete o at_end) h
  where
    of :
        (d : Dec (o ≡ at_start)) (e : Dec (o ≡ at_end))
        → (elim d [ yes _ ↦ some (0 ∷ []) | no _ ↦ elim e [ yes _ ↦ some (1 ∷ []) | no _ ↦ none ] ])
          ≡ some s
        → read_stats s ≡ some o
    of (yes p) e q = let same : 0 ∷ [] ≡ s = cc in rw (← same, p) refl
    of (no _) (yes p) q = let same : 1 ∷ [] ≡ s = cc in rw (← same, p) refl
    of (no _) (no _) q = cc

pub codec-RoundTrips : RoundTrips codec
codec-RoundTrips = record {
  times = λ t. refl;
  values = λ v s p. value_back v s;
  stats = stats_back;
}

pub at_start_written : write_stats at_start ≡ some (0 ∷ [])
unfolding write_stats OverlayStats-discrete ℕ_discrete
at_start_written = refl

pub at_end_written : write_stats at_end ≡ some (1 ∷ [])
unfolding write_stats OverlayStats-discrete ℕ_discrete
at_end_written = refl
