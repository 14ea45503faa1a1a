-- ===== src/Core/Config/Valid.antt =====
-- The check of crates/core/src/config.rs.
use arc_twitch_widget.Prelude.{
  ◌≤◌, ◌≡◌, ◌⊎◌, refl, Bool, true, false, not, ◌&&◌, ◌||◌, [], ◌∷◌, is_empty, if◌then◌else◌, inl,
  inr, ==_iff, and-eq-true, leb→le,
}
use arc_twitch_widget.Prelude.Result.{Result, ok, ensure, ◌>>◌}
use arc_twitch_widget.Text.{
  Text, codes, eq_text, blank, starts_with, trim, trim_start_by, trim_end_by, is_whitespace,
}
use arc_twitch_widget.Core.Config.{
  AppConfig, ConfigError, https, validate, migrate_stable, migrate_beta,
}

-- What a configuration in use satisfies.
pub record IsValid (c : AppConfig) : Type 0 where
  pub port : 1024 ≤ c.local_port
  pub width : 320 ≤ c.overlay_width
  pub height : 60 ≤ c.overlay_height
  pub preset : blank c.overlay_preset ≡ false
  pub language :
      (eq_text c.overlay_language (codes "ru") ≡ true)
      ⊎ (eq_text c.overlay_language (codes "en") ≡ true)
  pub opacity : c.overlay_opacity ≤ 100
  pub blur : c.overlay_blur ≤ 20
  pub channel :
      (eq_text c.update_channel (codes "stable") ≡ true)
      ⊎ (eq_text c.update_channel (codes "beta") ≡ true)
  pub feed : https c.update_feed_url ≡ true
  pub beta_feed : https c.beta_update_feed_url ≡ true
  pub process_names : is_empty c.game_process_names ≡ false

ensure-parts :
    (e : ConfigError) (b : Bool) (k : Result ConfigError (Unit {0}))
    → (ensure b e >> k) ≡ ok tt
    → (b ≡ true) × (k ≡ ok tt)
ensure-parts e true k h = (refl, h)
ensure-parts e false k h = cc

either : (a b : Bool) → (a || b) ≡ true → (a ≡ true) ⊎ (b ≡ true)
either true b h = inl refl
either false b h = inr h

not-eq-true : (b : Bool) → not b ≡ true → b ≡ false
not-eq-true false h = refl
not-eq-true true h = cc

last_ensure : (e : ConfigError) (b : Bool) → ensure b e ≡ ok tt → b ≡ true
last_ensure e true h = refl
last_ensure e false h = cc

pub validate-IsValid : (c : AppConfig) → validate c ≡ ok tt → IsValid c
unfolding validate
validate-IsValid c h =
    let (port, h1) = ensure-parts _ _ _ h in
    let (width, h2) = ensure-parts _ _ _ h1 in
    let (height, h3) = ensure-parts _ _ _ h2 in
    let (preset, h4) = ensure-parts _ _ _ h3 in
    let (language, h5) = ensure-parts _ _ _ h4 in
    let (opacity, h6) = ensure-parts _ _ _ h5 in
    let (blur, h7) = ensure-parts _ _ _ h6 in
    let (channel, h8) = ensure-parts _ _ _ h7 in
    let (feeds, h9) = ensure-parts _ _ _ h8 in
    let (feed, beta_feed) = and-eq-true _ _ feeds in
    record {
      port = leb→le 1024 c.local_port port;
      width = leb→le 320 c.overlay_width width;
      height = leb→le 60 c.overlay_height height;
      preset = not-eq-true _ preset;
      language = either _ _ language;
      opacity = leb→le c.overlay_opacity 100 opacity;
      blur = leb→le c.overlay_blur 20 blur;
      channel = either _ _ channel;
      feed = feed;
      beta_feed = beta_feed;
      process_names = not-eq-true _ (last_ensure _ _ h9);
    }

https-not_blank : (url : Text) → https url ≡ true → blank url ≡ false
unfolding starts_with trim trim_start_by trim_end_by is_whitespace
https-not_blank [] h = cc
https-not_blank (c ∷ cs) h =
    let (first, _) = and-eq-true _ _ h in
    let at : c ≡ b'h' = (==_iff c b'h').0 first in
    rw at (of (is_empty (trim_end_by is_whitespace cs)))
  where
    of :
        (b : Bool)
        → is_empty (if b && false then [] else b'h' ∷ trim_end_by is_whitespace cs) ≡ false
    of true = refl
    of false = refl

pub migrate_valid :
    (c : AppConfig) → validate c ≡ ok tt → migrate_beta (migrate_stable c) ≡ (c, false)
unfolding migrate_beta migrate_stable
migrate_valid c h =
    let v = validate-IsValid c h in
    rw
      (https-not_blank c.update_feed_url v.feed, https-not_blank c.beta_update_feed_url v.beta_feed)
      refl
