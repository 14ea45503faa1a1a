-- ===== src/Core/Config/Load.antt =====
-- What `AppConfig::load_or_create` of crates/core/src/config.rs guarantees.
use arc_twitch_widget.Prelude.{
  ◌≡◌, refl, sym, ◌∙◌, Bool, true, false, Option, none, some, if◌then◌else◌,
}
use arc_twitch_widget.Prelude.Result.{Result, ok, err}
use arc_twitch_widget.Text.Utf8.{Bytes}
use arc_twitch_widget.Core.WidgetFile.{File}
use arc_twitch_widget.Core.Config.{
  AppConfig, Build, Serde, ConfigError, app_config_default, validate, migrate_stable, migrate_beta,
  write, save_valid, save, returning, finish_load, load_parsed, load_from, load_or_create,
  cannot_create, cannot_save,
}
use arc_twitch_widget.Core.Config.Valid.{IsValid, validate-IsValid, migrate_valid}

-- What is written is read back.
pub record RoundTrips (s : Serde) : Type 0 where
  pub config : (c : AppConfig) (b : Bytes) → s.to_vec_pretty c ≡ some b → s.from_slice b ≡ some c

module _ (s : Serde) (build : Build) where
  -- A valid configuration is loaded from the file, which stays as it is.
  abbrev Reloads : AppConfig → File → Type 0
  Reloads c file = (validate c ≡ ok tt) × (load_or_create s build file ≡ (ok c, file))

  finish_load_valid :
      (c : AppConfig) (file : File)
      → validate c ≡ ok tt
      → finish_load s (c, false) file ≡ (ok c, file)
  unfolding finish_load
  finish_load_valid c file h = rw (h, finish_load) refl

  load_parsed_valid :
      (c : AppConfig) (file : File)
      → validate c ≡ ok tt
      → load_parsed s (some c) file ≡ (ok c, file)
  unfolding load_parsed
  load_parsed_valid c file h = rw (migrate_valid c h) (finish_load_valid c file h)

  reload :
      (c : AppConfig) (file : File) (b : Bytes)
      → file.readable ≡ true
      → file.content ≡ some b
      → s.from_slice b ≡ some c
      → validate c ≡ ok tt
      → Reloads c file
  unfolding load_or_create load_from
  reload c file b r e p h = (h, simp (e, r, p, load_parsed_valid c file h))

  -- A write that succeeds leaves what is read back.
  write-Reloads :
      (rt : RoundTrips s) (e : ConfigError) (c d : AppConfig) (file file' : File)
      → file.readable ≡ true
      → validate c ≡ ok tt
      → returning s c (write s e c file) ≡ (ok d, file')
      → Reloads d file'
  unfolding write
  write-Reloads rt e c d file file' r h q = of (s.to_vec_pretty c) refl file.writable q
    where
      of :
          (o : Option Bytes)
          → s.to_vec_pretty c ≡ o
          → (w : Bool)
          → returning s c (elim o [
            | none ↦ (err e, file)
            | some b ↦ if w then (ok tt, record file { content = some b }) else (err e, file)
          ])
            ≡ (ok d, file')
          → Reloads d file'
      of none p w q = cc
      of (some b) p false q = cc
      of (some b) p true q =
          let same : c ≡ d = cc in
          let now : record file { content = some b } ≡ file' = cc in
          rw (← same, ← now)
            (reload c (record file { content = some b }) b r refl (rt.config c b p) h)

  -- The save of a valid configuration is its write.
  save-valid :
      (c : AppConfig) (file : File)
      → validate c ≡ ok tt
      → save s c file ≡ write s cannot_save c file
  unfolding save save_valid
  save-valid c file h = rw h refl

  finish_load-Reloads :
      (rt : RoundTrips s) (found : AppConfig × Bool) (d : AppConfig) (file file' : File)
      → file.readable ≡ true
      → load_or_create s build file ≡ (ok d, file')
      → finish_load s found file ≡ (ok d, file')
      → Reloads d file'
  unfolding finish_load
  finish_load-Reloads rt (c, migrated) d file file' r whole q = of (validate c) refl migrated q
    where
      of :
          (v : Result ConfigError (Unit {0}))
          → validate c ≡ v
          → (m : Bool)
          → (elim v [
            | err e ↦ (err e, file)
            | ok _ ↦ if m then returning s c (save s c file) else (ok c, file)
          ])
            ≡ (ok d, file')
          → Reloads d file'
      of (err e) p m q = cc
      of (ok t) p true q =
          write-Reloads rt cannot_save c d file file' r p (rw (save-valid c file p) at q)
      of (ok t) p false q =
          let same : c ≡ d = cc in let now : file ≡ file' = cc in (rw (← same) p, cc)

  load_without :
      (file : File)
      → file.content ≡ none
      → load_or_create s build file
        ≡ returning s
            (app_config_default build)
            (write s cannot_create (app_config_default build) file)
  unfolding load_or_create load_from
  load_without file e = simp e

  load_with :
      (file : File) (b : Bytes)
      → file.readable ≡ true
      → file.content ≡ some b
      → load_or_create s build file ≡ load_parsed s (s.from_slice b) file
  unfolding load_or_create load_from
  load_with file b r e = simp (e, r)

  load_parsed-Reloads :
      (rt : RoundTrips s) (o : Option AppConfig) (d : AppConfig) (file file' : File)
      → file.readable ≡ true
      → load_or_create s build file ≡ (ok d, file')
      → load_parsed s o file ≡ (ok d, file')
      → Reloads d file'
  unfolding load_parsed
  load_parsed-Reloads rt none d file file' r whole q = cc
  load_parsed-Reloads rt (some found) d file file' r whole q =
      finish_load-Reloads rt (migrate_beta (migrate_stable found)) d file file' r whole q

  -- A start that loads a configuration from the file of an earlier one, by reading it or by filling in
  -- the feeds of an old one, loads a valid one, and the next start loads the same from the file as it
  -- was left, changing nothing, where the file can be read and serde reads back what it writes. What
  -- the file holds and which feeds the build has does not matter.
  pub load_or_create-IsValid :
      (rt : RoundTrips s) (file file' : File) (b : Bytes) (c : AppConfig)
      → file.readable ≡ true
      → file.content ≡ some b
      → load_or_create s build file ≡ (ok c, file')
      → IsValid c × (load_or_create s build file' ≡ (ok c, file'))
  load_or_create-IsValid rt file file' b c r e q =
      let (valid, again) =
        load_parsed-Reloads rt (s.from_slice b) c file file' r q (sym (load_with file b r e) ∙ q) in
      (validate-IsValid c valid, again)

  -- The first start writes what the build gives, which the next one loads where it is valid.
  load_or_create-first :
      (rt : RoundTrips s) (file file' : File) (c : AppConfig)
      → file.readable ≡ true
      → file.content ≡ none
      → validate (app_config_default build) ≡ ok tt
      → load_or_create s build file ≡ (ok c, file')
      → load_or_create s build file' ≡ (ok c, file')
  load_or_create-first rt file file' c r e h q =
      (write-Reloads rt cannot_create (app_config_default build) c file file' r h
        (sym (load_without file e) ∙ q)).1
