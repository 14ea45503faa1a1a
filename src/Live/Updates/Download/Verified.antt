-- ===== src/Live/Updates/Download/Verified.antt =====
-- A download that succeeds leaves, at the path that it returns, an installer within the bound and with
-- the digest of the manifest.
use mathlib.Core.Path.{subst₂}
use arc_twitch_widget.Prelude.{
  ◌+◌, ◌≤◌, ◌≡◌, refl, true, false, not, ◌&&◌, List, [], ◌∷◌, ◌++◌, Option, none, some, is_some,
  ltb, length, length-append, is_empty, arith, Bool-cases, inl, inr, ◌⊎◌, ap,
}
use arc_twitch_widget.Prelude.Result.{Result, ok, err}
use arc_twitch_widget.Text.{Text, eq_text, to_ascii_lowercase}
use arc_twitch_widget.Text.Laws.{eq_text_refl, eq_text_iff}
use arc_twitch_widget.Text.Utf8.{Bytes}
use arc_twitch_widget.HashMap
use arc_twitch_widget.Live.Updates.{UpdateManifest, UpdateError, max_installer_bytes}
use arc_twitch_widget.Live.Updates.Download.{
  Files, Disk, Response, final_path, temporary_path, Copied, finished, failed, open_response, copy,
  rename_into_place, install_copy, save_response, download_update,
}

get-insert_self :
    (files : Files) (path : Text) (bytes : Bytes)
    → HashMap.get eq_text (HashMap.insert eq_text files path bytes) path ≡ some bytes
unfolding HashMap.get HashMap.insert
get-insert_self [] path bytes = rw (eq_text_refl path) refl
get-insert_self ((other, b) ∷ files) path bytes = elim (Bool-cases (eq_text other path)) [
  | inl same ↦ rw (same, same) refl
  | inr different ↦ rw (different, different) (get-insert_self files path bytes)
]

finished-inj : {a b : Bytes} → finished a ≡ finished b → a ≡ b
finished-inj h = cc h

module _ (disk : Disk) (send : Text → Option Response) (sha256_hex : Bytes → Text) where
  copy-bound :
      (reads : List (Option Bytes)) (written content : Bytes)
      → length written ≤ max_installer_bytes
      → copy disk send sha256_hex reads written ≡ finished content
      → length content ≤ max_installer_bytes
  unfolding copy
  copy-bound [] written content small h = let e = ap length (finished-inj h) in omega arith
  copy-bound (none ∷ reads) written content small h = cc
  copy-bound (some bytes ∷ reads) written content small h =
      of (λ more. copy-bound reads (written ++ bytes) content more) (Bool-cases (is_empty bytes))
        (Bool-cases (ltb max_installer_bytes (length written + length bytes)))
        (Bool-cases disk.writes)
    where
      of :
          (length (written ++ bytes) ≤ max_installer_bytes
            → copy disk send sha256_hex reads (written ++ bytes) ≡ finished content
            → length content ≤ max_installer_bytes)
          → ((is_empty bytes ≡ true) ⊎ (is_empty bytes ≡ false))
          → ((ltb max_installer_bytes (length written + length bytes) ≡ true)
              ⊎ (ltb max_installer_bytes (length written + length bytes) ≡ false))
          → ((disk.writes ≡ true) ⊎ (disk.writes ≡ false))
          → length content ≤ max_installer_bytes
      of rest (inl end) d w = let e = ap length (finished-inj (rw (end, copy) at h)) in omega arith
      of rest (inr more) (inl large) w = absurd (cc (rw (more, large, copy) at h))
      of rest (inr more) (inr fits) (inr full) = absurd (cc (rw (more, fits, full, copy) at h))
      of rest (inr more) (inr fits) (inl room) =
          let size = length-append written bytes in
          rest (ground arith) (rw (more, fits, room, copy) at h)

  -- The installer at the path that the manifest's version gives: within the bound, and with the digest
  -- of the manifest.
  pub record IsInstaller (m : UpdateManifest) (path : Text) (files : Files) : Type 0 where
    pub named : path ≡ final_path m
    pub content : Bytes
    pub stored : HashMap.get eq_text files path ≡ some content
    pub bound : length content ≤ max_installer_bytes
    pub digest : to_ascii_lowercase (sha256_hex content) ≡ to_ascii_lowercase m.sha256

  placed :
      {path path' : Text} {files files' : Files}
      → ◌≡◌ {A = Result UpdateError Text × Files} (ok path, files) (ok path', files')
      → (path ≡ path') × (files ≡ files')
  placed h = (cc h, cc h)

  rename_into_place-IsInstaller :
      (m : UpdateManifest) (bytes : Bytes) (files files' : Files) (path : Text)
      → length bytes ≤ max_installer_bytes
      → to_ascii_lowercase (sha256_hex bytes) ≡ to_ascii_lowercase m.sha256
      → rename_into_place disk send sha256_hex m bytes files ≡ (ok path, files')
      → IsInstaller m path files'
  unfolding rename_into_place
  rename_into_place-IsInstaller m bytes files files' path small digest h =
      of (Bool-cases (is_some (HashMap.get eq_text written (final_path m)) && not disk.removes))
        (Bool-cases disk.renames)
    where
      written : Files
      written = HashMap.insert eq_text files (temporary_path m) bytes

      moved : Files
      moved =
          HashMap.remove eq_text (HashMap.remove eq_text written (final_path m)) (temporary_path m)

      of :
          ((is_some (HashMap.get eq_text written (final_path m)) && not disk.removes ≡ true)
            ⊎ (is_some (HashMap.get eq_text written (final_path m)) && not disk.removes ≡ false))
          → ((disk.renames ≡ true) ⊎ (disk.renames ≡ false))
          → IsInstaller m path files'
      of (inl kept) d = absurd (cc (rw (kept, rename_into_place) at h))
      of (inr free) (inr stuck) = absurd (cc (rw (free, stuck, rename_into_place) at h))
      of (inr free) (inl done) =
          let (at, now) = placed (rw (free, done, rename_into_place) at h) in
          subst₂ (IsInstaller m) at now (record {
            named = refl;
            content = bytes;
            stored = get-insert_self moved (final_path m) bytes;
            bound = small;
            digest = digest;
          })

  install_copy-IsInstaller :
      (m : UpdateManifest) (copied : Copied) (files files' : Files) (path : Text)
      → ((content : Bytes) → copied ≡ finished content → length content ≤ max_installer_bytes)
      → install_copy disk send sha256_hex m copied files ≡ (ok path, files')
      → IsInstaller m path files'
  unfolding install_copy rename_into_place
  install_copy-IsInstaller m (failed e left) files files' path small h = absurd (cc h)
  install_copy-IsInstaller m (finished content) files files' path small h =
      of (Bool-cases disk.syncs) (
        Bool-cases
          (eq_text (to_ascii_lowercase (sha256_hex content)) (to_ascii_lowercase m.sha256)))
    where
      of :
          ((disk.syncs ≡ true) ⊎ (disk.syncs ≡ false))
          → ((eq_text (to_ascii_lowercase (sha256_hex content)) (to_ascii_lowercase m.sha256)
                ≡ true)
              ⊎ (eq_text (to_ascii_lowercase (sha256_hex content)) (to_ascii_lowercase m.sha256)
                  ≡ false))
          → IsInstaller m path files'
      of (inr unsynced) d = absurd (cc (rw (unsynced, install_copy) at h))
      of (inl synced) (inr other) = absurd (cc (rw (synced, other, install_copy) at h))
      of (inl synced) (inl same) =
          rename_into_place-IsInstaller m content files files' path (small content refl)
            ((eq_text_iff (to_ascii_lowercase (sha256_hex content)) (to_ascii_lowercase m.sha256)).0
              same)
            (rw (synced, same, install_copy) at h)

  save_response-IsInstaller :
      (m : UpdateManifest) (r : Result UpdateError Response) (files files' : Files) (path : Text)
      → save_response disk send sha256_hex m r files ≡ (ok path, files')
      → IsInstaller m path files'
  unfolding save_response
  save_response-IsInstaller m (err e) files files' path h = absurd (cc h)
  save_response-IsInstaller m (ok response) files files' path h =
      install_copy-IsInstaller m (copy disk send sha256_hex response.reads []) files files' path
        (λ content e. copy-bound response.reads [] content (omega arith) e) h

  -- Whatever the server sends and whichever calls of the disk fail, a download that succeeds leaves
  -- at its path, which is that of the manifest's version, an installer that is at most 300 MiB and has
  -- the digest of the manifest.
  pub download_update-IsInstaller :
      (m : UpdateManifest) (files files' : Files) (path : Text)
      → download_update disk send sha256_hex m files ≡ (ok path, files')
      → IsInstaller m path files'
  unfolding download_update
  download_update-IsInstaller m files files' path h =
      save_response-IsInstaller m (open_response disk send sha256_hex m) files files' path h
