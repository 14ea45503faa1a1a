-- ===== src/Live/App/Probe.antt =====
-- crates/arc-live/src/ui.rs: `apply_probe`, a response with the statistics of the player.
use arc_twitch_widget.Prelude.{
  ℕ, Bool, true, false, [], ◌++◌, Option, none, some, min, unwrap_or, if◌then◌else◌, ltb, ◌==◌,
}
use arc_twitch_widget.Prelude.Int.{pos}
use arc_twitch_widget.Prelude.Result.{Result, ok, err}
use arc_twitch_widget.Prelude.Word.{saturating_sub}
use arc_twitch_widget.Text.{Text, codes, eq_text}
use arc_twitch_widget.Text.Decimal.{print_ℤ}
use arc_twitch_widget.Core.Overlay.{OverlayStats, apply_session_baseline}
use arc_twitch_widget.Core.WidgetPresets.{WidgetConfig}
use arc_twitch_widget.Core.WidgetConfig.{apply}
use arc_twitch_widget.Core.WidgetFile
use arc_twitch_widget.Core.WidgetFile.{WidgetError, File}
use arc_twitch_widget.Storage.{Storage, StorageError, Observation}
use arc_twitch_widget.Storage.Access.{insert_observation}
use arc_twitch_widget.Collector.{ProbePayload}
use arc_twitch_widget.Live.View.{grouped}
use arc_twitch_widget.Live.App.{
  Host, Moment, App, record_in_state, edit_overlay, record_user_event, persist_stream_session,
}

-- The raids, extractions, deaths and value that a response adds to the one before.
pub record Change : Type 0 where
  pub raids : ℕ
  pub extractions : ℕ
  pub deaths : ℕ
  pub loot : ℕ

unfoldable pub change_since : Option OverlayStats → OverlayStats → Option Change
change_since none o = none
change_since (some previous) o = some (record {
  raids = saturating_sub o.raids previous.raids;
  extractions = saturating_sub o.extractions previous.extractions;
  deaths = saturating_sub o.deaths previous.deaths;
  loot = saturating_sub o.loot_value previous.loot_value;
})

abbrev part : ℕ → Text → Text → Text
part n before after = if ltb 0 n then codes ", " ++ before ++ after else []

unfoldable pub change_message : Option Change → Bool → Text
change_message (some c) first_response =
    if ltb 0 c.raids
    then codes "Статистика обновлена — +"
      ++ print_ℤ (pos c.raids)
      ++ codes " рейд"
      ++ part c.extractions (codes "вышел живым: +") (print_ℤ (pos c.extractions))
      ++ part c.deaths (codes "погиб: +") (print_ℤ (pos c.deaths))
      ++ part c.loot (codes "вынесено: ") (grouped c.loot)
    else codes
        "Игра прислала статистику без изменений — рейд ещё не посчитан на её стороне, придёт со следующим ответом"
change_message none true =
    codes
      "Статистика подключена. Точка отсчёта стрима взята сейчас — рейд, который уже закончился, в счётчики стрима не попадёт"
change_message none false = codes "Статистика обновлена после возвращения в Сперанцу"

unfoldable pub change_level : Option Change → Text
change_level (some c) = if c.raids == 0 then codes "info" else codes "success"
change_level none = codes "success"

-- What the widget keeps of its look when a response replaces the statistics.
unfoldable pub with_look_of : OverlayStats → OverlayStats → OverlayStats
with_look_of old o = record o {
  language = if eq_text old.language (codes "en") then codes "en" else codes "ru";
  opacity = min old.opacity 100;
  background_preset = old.background_preset;
  background_color = old.background_color;
  background_blur = min old.background_blur 20;
}

-- The overlay of a response: the counters of the stream from the baseline, in the layout.
unfoldable pub overlay_of_probe :
    WidgetConfig → OverlayStats → OverlayStats → OverlayStats → OverlayStats
overlay_of_probe widgets baseline old o =
    with_look_of old
      (apply widgets (record (apply_session_baseline o baseline) { preset = old.preset }))

module _ {F : Type 0} (host : Host F) where
  open host use {codec, sha256_hex, widget_serde, storage_error_text, widget_error_text}

  unfoldable pub observation_of_probe : ProbePayload F → Observation F
  observation_of_probe p = record {
    id = 0;
    observed_at = p.observed_at;
    direction = codes "game_stats_response";
    host = p.host;
    method = some (codes "POST");
    path = some (codes "/v1/pioneer/stats/player-v2");
    status = some p.status;
    content_type = p.content_type;
    shape = p.shape;
  }

  unfoldable pub sync_saved : Moment → Storage × Result StorageError ℕ → App → App
  sync_saved m (storage, ok _) s = record s { storage = storage }
  sync_saved m (storage, err x) s =
      record_in_state m (codes "error") (codes "Saving stats sync failed: " ++ storage_error_text x)
        (record s { storage = storage })

  -- The first response of a stream is its baseline.
  unfoldable pub with_baseline : Moment → OverlayStats → Option OverlayStats → App → App
  with_baseline m o none s = record s { session_baseline = some o; stream_started_at = some m.now }
  with_baseline m o (some baseline) s = s

  unfoldable pub widgets_loaded : Moment → Result WidgetError WidgetConfig × File → App → App
  widgets_loaded m (ok widgets, file) s = record s {
    widget_file = file;
    widget_config = widgets;
    widget_config_error = none;
  }
  widgets_loaded m (err e, file) s =
      record_in_state m (codes "error")
        (codes "Widget config reload failed: " ++ widget_error_text e)
        (record s { widget_file = file; widget_config_error = some (widget_error_text e) })

  unfoldable pub is_first : Option OverlayStats → Bool
  is_first none = true
  is_first (some o) = false

  -- The second half of `apply_probe`: the overlay is shown and kept.
  unfoldable pub show_probe : Moment → ProbePayload F → Option Change → Bool → App → App
  show_probe m p change first_response s =
      let overlay =
        overlay_of_probe s.widget_config (unwrap_or s.session_baseline p.overlay) s.state.overlay
          p.overlay in
      let shown =
        record_in_state m (codes "success")
          (codes "Game stats received on lobby return (HTTP "
            ++ print_ℤ (pos p.status)
            ++ codes ", "
            ++ print_ℤ (pos overlay.stats_rows)
            ++ codes " rows, "
            ++ print_ℤ (pos p.unknown_event_rows)
            ++ codes " currently unmapped)")
          (edit_overlay (λ o. overlay) s) in
      record (record_user_event host m (change_level change) (change_message change first_response)
        (persist_stream_session host m overlay shown)) { last_sync_succeeded = true }

  -- `apply_probe`
  unfoldable pub apply_probe : Moment → ProbePayload F → App → App
  apply_probe m p s =
      let saved =
        sync_saved m
          (insert_observation codec sha256_hex m.observations m.prunes (observation_of_probe p)
            s.storage)
          s in
      let started =
        with_baseline m p.overlay saved.session_baseline
          (record saved { last_totals = some p.overlay }) in
      show_probe m p (change_since s.last_totals p.overlay) (is_first s.session_baseline)
        (widgets_loaded m (WidgetFile.load_or_create widget_serde started.widget_file) started)
