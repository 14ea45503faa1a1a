-- ===== src/Core/Stats/Response.antt =====
-- What `normalize_player_stats` returns: the account's rows in the counters, those of the first
-- later day scope in the fields of today.
use arc_twitch_widget.Prelude.{
  refl, ap, ◌∙◌, Option-cases, inl, inr, ◌⊎◌, ℕ, ◌≡◌, true, false, List, [], Option, none, some,
  and_then, first?, find, drop, length, min,
}
use arc_twitch_widget.Prelude.Result.{ok, err}
use arc_twitch_widget.Prelude.Word.{u64_max}
use arc_twitch_widget.Text.{Text, codes}
use arc_twitch_widget.Json
use arc_twitch_widget.Json.{Value, Float}
use arc_twitch_widget.Core.Overlay.{OverlayStats}
use arc_twitch_widget.Core.Overlay.Baseline.{total}
use arc_twitch_widget.Core.Events.Counters.{Counter, value, raids, extractions, deaths}
use arc_twitch_widget.Core.Stats.{
  player_stats, is_today_scope, with_today, normalize_rows, normalize_player_stats, no_scopes,
  no_rows,
}
use arc_twitch_widget.Core.Stats.Today.{Today, today_of, today_of-normalize_rows, value-with_today}
use arc_twitch_widget.Core.Stats.Rows.{
  tally, tally_key, tally_unknown, value-normalize_rows, total-normalize_rows,
  unknown-normalize_rows,
}

module _ (fl : Float) where
  open fl use {F}

  -- The scopes of a response, the rows of its first scope, and the rows of its day scope.
  abbrev pub scopes_of : Value F → Option (List (Value F))
  scopes_of v = and_then (Json.get v (codes "scopedPlayerStats")) Json.as_array

  abbrev pub account_rows : List (Value F) → Option (List (Value F))
  account_rows scopes = and_then (first? scopes) (player_stats fl)

  abbrev pub today_rows : List (Value F) → Option (List (Value F))
  today_rows scopes = and_then (find (is_today_scope fl) (drop 1 scopes)) (player_stats fl)

  -- The fields of today: those of the day's rows, or nothing at all.
  abbrev pub TodayIs : Option (List (Value F)) → OverlayStats → Type 0
  TodayIs none s =
      (s.today_available ≡ false)
      × (s.today_extractions ≡ 0)
      × (s.today_deaths ≡ 0)
      × (s.today_raw_totals ≡ [])
  TodayIs (some rows) s =
      (s.today_available ≡ true)
      × (s.today_extractions ≡ min (tally fl extractions rows) u64_max)
      × (s.today_deaths ≡ min (tally fl deaths rows) u64_max)
      × ((k : Text) → total s.today_raw_totals k ≡ min (tally_key fl k rows) u64_max)

  -- What the overlay says of the account's rows and of the day's.
  pub record Normalised (rows : List (Value F)) (today : Option (List (Value F))) (s : OverlayStats)
      (unknown : ℕ) : Type 0 where
    pub counters : (c : Counter) → value c s ≡ min (tally fl c rows) u64_max
    pub raw_totals : (k : Text) → total s.raw_totals k ≡ min (tally_key fl k rows) u64_max
    pub unread : unknown ≡ min (tally_unknown fl rows) u64_max
    pub stats_rows : s.stats_rows ≡ length rows
    pub mode : s.mode ≡ codes "live"
    pub preset : s.preset ≡ codes "account"
    pub today_is : TodayIs today s

  TodayIs-with_today :
      (today : Option (List (Value F))) (s : OverlayStats)
      → today_of s ≡ (false, 0, 0, [])
      → TodayIs today (with_today fl today s)
  unfolding with_today
  TodayIs-with_today none s h = (
    ap (λ (t : Today). t.0) h,
    ap (λ (t : Today). t.1) h,
    ap (λ (t : Today). t.2) h,
    ap (λ (t : Today). t.3) h,
  )
  TodayIs-with_today (some rows) s h = (
    refl,
    value-normalize_rows fl extractions rows,
    value-normalize_rows fl deaths rows,
    total-normalize_rows fl rows,
  )

  -- The account part of the overlay, and the whole of it.
  abbrev live : List (Value F) → OverlayStats
  live rows = record (normalize_rows fl rows).0 {
    mode = codes "live";
    preset = codes "account";
    stats_rows = length rows;
  }

  abbrev overlay : List (Value F) → Option (List (Value F)) → OverlayStats
  overlay rows today = with_today fl today (live rows)

  value-live :
      (c : Counter) (s : OverlayStats) (n : ℕ)
      → value c (record s { mode = codes "live"; preset = codes "account"; stats_rows = n })
        ≡ value c s
  value-live raids s n = refl
  value-live _ s n = refl

  value-overlay :
      (c : Counter) (rows : List (Value F)) (today : Option (List (Value F)))
      → value c (overlay rows today) ≡ min (tally fl c rows) u64_max
  value-overlay c rows today =
      value-with_today fl c today (live rows)
      ∙ value-live c (normalize_rows fl rows).0 (length rows)
      ∙ value-normalize_rows fl c rows

  overlay-Normalised :
      (rows : List (Value F)) (today : Option (List (Value F)))
      → Normalised rows today (overlay rows today) (normalize_rows fl rows).1
  unfolding with_today
  overlay-Normalised rows none = record {
    counters = λ c. value-overlay c rows none;
    raw_totals = total-normalize_rows fl rows;
    unread = unknown-normalize_rows fl rows;
    stats_rows = refl;
    mode = refl;
    preset = refl;
    today_is = TodayIs-with_today none (live rows) (today_of-normalize_rows fl rows);
  }
  overlay-Normalised rows (some today) = record {
    counters = λ c. value-overlay c rows (some today);
    raw_totals = total-normalize_rows fl rows;
    unread = unknown-normalize_rows fl rows;
    stats_rows = refl;
    mode = refl;
    preset = refl;
    today_is = TodayIs-with_today (some today) (live rows) (today_of-normalize_rows fl rows);
  }

  -- A response is refused exactly where it has no scopes, or where its first scope has no rows. Any
  -- other yields an overlay: each counter and each raw total is the saturated sum of the account
  -- rows that it counts, the unread rows are counted, and the fields of today are those of the
  -- first later day scope, or empty.
  pub normalize_player_stats_lem :
      (v : Value F)
      → ((scopes_of v ≡ none) × (normalize_player_stats fl v ≡ err no_scopes))
        ⊎ ((scopes : List (Value F)) × (scopes_of v ≡ some scopes)
            × (account_rows scopes ≡ none)
            × (normalize_player_stats fl v ≡ err no_rows))
        ⊎ ((scopes : List (Value F)) × (rows : List (Value F)) × (s : OverlayStats) × (unknown : ℕ)
            × (scopes_of v ≡ some scopes)
            × (account_rows scopes ≡ some rows)
            × (normalize_player_stats fl v ≡ ok (s, unknown))
            × Normalised rows (today_rows scopes) s unknown)
  unfolding normalize_player_stats
  normalize_player_stats_lem v = elim (Option-cases (scopes_of v)) [
    | inl e ↦ inl (e, rw e refl)
    | inr (scopes, e) ↦ elim (Option-cases (account_rows scopes)) [
      | inl f ↦ inr (inl (scopes, e, f, rw e (rw f refl)))
      | inr (rows, f) ↦ inr (
          inr (
            scopes,
            rows,
            overlay rows (today_rows scopes),
            (normalize_rows fl rows).1,
            e,
            f,
            rw e (rw f refl),
            overlay-Normalised rows (today_rows scopes),
          ))
    ]
  ]
