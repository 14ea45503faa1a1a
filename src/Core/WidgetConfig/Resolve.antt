-- ===== src/Core/WidgetConfig/Resolve.antt =====
-- The value of a cell: bounded, and blind to the layout.
use arc_twitch_widget.Prelude.{◌≡◌, refl, List, [], ◌∷◌}
use arc_twitch_widget.Prelude.Int.{◌+ℤ◌, ◌-ℤ◌, ◌≤ℤ◌, clamp_i64_bounds, i64_min_ℤ, i64_max_ℤ}
use arc_twitch_widget.Text.{Text}
use arc_twitch_widget.Core.Overlay.{OverlayStats, OverlayPreset}
use arc_twitch_widget.Core.WidgetPresets.{WidgetMetric}
use arc_twitch_widget.Core.WidgetConfig.{
  resolve_name, resolve_source, sum_sources, resolve, event_total, unsigned_value, account_value,
  session_value, today_value, outcome_value, no_session_outcome,
}

-- The overlay with another layout.
abbrev pub relaid : OverlayStats → Text → List OverlayPreset → OverlayStats
relaid s preset presets = record s { preset = preset; presets = presets }

resolve_source-relaid :
    (source : Text) (s : OverlayStats) (preset : Text) (presets : List OverlayPreset)
    → resolve_source source (relaid s preset presets) ≡ resolve_source source s
unfolding resolve_source resolve_name event_total unsigned_value account_value session_value
    today_value outcome_value no_session_outcome
resolve_source-relaid source s preset presets = refl

sum_sources-relaid :
    (sources : List Text) (s : OverlayStats) (preset : Text) (presets : List OverlayPreset)
    → sum_sources sources (relaid s preset presets) ≡ sum_sources sources s
unfolding sum_sources
sum_sources-relaid [] s preset presets = refl
sum_sources-relaid (x ∷ xs) s preset presets =
    cc (resolve_source-relaid x s preset presets, sum_sources-relaid xs s preset presets)

-- A value does not depend on which preset is active, nor on what was resolved before.
pub resolve-relaid :
    (m : WidgetMetric) (s : OverlayStats) (preset : Text) (presets : List OverlayPreset)
    → resolve m (relaid s preset presets) ≡ resolve m s
unfolding resolve
resolve-relaid m s preset presets = cc (
  resolve_source-relaid m.source s preset presets,
  sum_sources-relaid m.add s preset presets,
  sum_sources-relaid m.subtract s preset presets,
)

-- A value fits an `i64` whatever the totals are.
pub resolve_bounds :
    (m : WidgetMetric) (s : OverlayStats) → (i64_min_ℤ ≤ℤ resolve m s) × (resolve m s ≤ℤ i64_max_ℤ)
unfolding resolve
resolve_bounds m s =
    clamp_i64_bounds (resolve_source m.source s +ℤ sum_sources m.add s -ℤ sum_sources m.subtract s)
