-- ===== src/Core/Stats.antt =====
-- crates/core/src/stats.rs: the player statistics response is normalised to the overlay counters.
pub mod Rows
pub mod Response
pub mod Today
use arc_twitch_widget.Prelude.{
  ℕ, zero, suc, ◌+◌, Bool, true, false, not, ◌&&◌, ◌||◌, List, [], ◌∷◌, ◌++◌, Option, none, some,
  and_then, or_else, unwrap_or, if◌then◌else◌, map, length, first?, find, drop, ◌==◌, retain, leb,
}
use arc_twitch_widget.Prelude.Int.{ℤ, pos, negsuc}
use arc_twitch_widget.Prelude.Result.{Result, ok, err, context, ◌>>=◌}
use arc_twitch_widget.Prelude.Word.{i64_max, saturating_add}
use arc_twitch_widget.Text.{Text, codes, one_of, is_ascii_alphanumeric, to_ascii_lowercase}
use arc_twitch_widget.Text.Decimal.{print_ℤ, parse_i64}
use arc_twitch_widget.BTreeMap
use arc_twitch_widget.BTreeMap.{BTreeMap}
use arc_twitch_widget.Json
use arc_twitch_widget.Json.{Value, Float}
use arc_twitch_widget.Core.Overlay.{OverlayStats, overlay_stats_default}
use arc_twitch_widget.Core.Events.{known_row}

-- The two contexts of `normalize_player_stats`.
pub data StatsError : Type 0 where
  no_scopes no_rows : StatsError

-- `i64::try_from` of an unsigned number, `u64::try_from` of a signed one.
unfoldable pub i64_of_u64 : ℕ → Option ℤ
i64_of_u64 n = if leb n i64_max then some (pos n) else none

unfoldable pub u64_of_i64 : ℤ → Option ℕ
u64_of_i64 (pos n) = some n
u64_of_i64 (negsuc n) = none

module _ (fl : Float) where
  open fl use {F, nonneg, to_u64, parse}

  unfoldable pub integer_of : Value F → Option ℤ
  integer_of v =
      or_else (Json.as_i64 v)
        (or_else (and_then (Json.as_u64 v) i64_of_u64) (and_then (Json.as_str v) parse_i64))

  unfoldable pub integer : Option (Value F) → Option ℤ
  unfolding integer_of
  integer value = and_then value integer_of

  -- `.filter(|number| *number >= 0.0).map(|number| number as u64)`
  unfoldable pub u64_of_f64 : F → Option ℕ
  u64_of_f64 x = if nonneg x then some (to_u64 x) else none

  unfoldable pub unsigned_of : Value F → Option ℕ
  unsigned_of v = or_else (Json.as_u64 v) (
      or_else (and_then (Json.as_i64 v) u64_of_i64) (
        or_else (and_then (Json.as_f64 fl v) u64_of_f64)
          (and_then (Json.as_str v) λ s. and_then (parse s) u64_of_f64)))

  unfoldable pub unsigned : Option (Value F) → Option ℕ
  unfolding unsigned_of
  unsigned value = and_then value unsigned_of

  -- One round of the loop.
  unfoldable pub row_with : Option ℤ → Value F → OverlayStats × ℕ → OverlayStats × ℕ
  row_with none row (stats, unknown) = (stats, saturating_add unknown 1)
  row_with (some event_id) row acc =
      known_row event_id (integer (Json.get row (codes "targetId")))
        (unwrap_or (unsigned (Json.get row (codes "amount"))) 0) acc

  unfoldable pub normalize_row : OverlayStats × ℕ → Value F → OverlayStats × ℕ
  unfolding row_with
  normalize_row acc row = row_with (integer (Json.get row (codes "eventId"))) row acc

  unfoldable pub normalize_from : OverlayStats × ℕ → List (Value F) → OverlayStats × ℕ
  normalize_from acc [] = acc
  normalize_from acc (row ∷ rows) = normalize_from (normalize_row acc row) rows

  unfoldable pub normalize_rows : List (Value F) → OverlayStats × ℕ
  normalize_rows rows = normalize_from (overlay_stats_default, 0) rows

  unfoldable pub discriminant : Value F → Text
  discriminant scope =
      unwrap_or
        (and_then (Json.get scope (codes "scope")) λ value.
          or_else (Json.as_str value)
            (and_then (Json.get value (codes "discriminant")) Json.as_str))
        []

  unfoldable pub is_today_scope : Value F → Bool
  unfolding discriminant
  is_today_scope scope =
      one_of (to_ascii_lowercase (retain is_ascii_alphanumeric (discriminant scope))) (
        codes "day" ∷ codes "daily" ∷ codes "today" ∷ codes "currentday" ∷ codes "calendarday" ∷ [])

  -- The rows of a scope.
  abbrev pub player_stats : Value F → Option (List (Value F))
  player_stats scope = and_then (Json.get scope (codes "playerStats")) Json.as_array

  unfoldable pub with_today : Option (List (Value F)) → OverlayStats → OverlayStats
  with_today none stats = stats
  with_today (some rows) stats =
      let today = (normalize_rows rows).0 in
      record stats {
        today_extractions = today.extractions;
        today_deaths = today.deaths;
        today_raw_totals = today.raw_totals;
        today_available = true;
      }

  unfoldable pub normalize_player_stats : Value F → Result StatsError (OverlayStats × ℕ)
  normalize_player_stats value = do
    scopes ← context (and_then (Json.get value (codes "scopedPlayerStats")) Json.as_array) no_scopes
    rows ← context (and_then (first? scopes) player_stats) no_rows
    let (stats, unknown) = normalize_rows rows
    let live = record stats {
      mode = codes "live";
      preset = codes "account";
      stats_rows = length rows;
    }
    ok (with_today (and_then (find is_today_scope (drop 1 scopes)) player_stats) live, unknown)
