-- ===== src/Live/Updates/Download.antt =====
-- crates/arc-live/src/updates.rs: an installer is downloaded to a temporary file, checked, and
-- renamed. The disk is what it holds and which calls succeed.
pub mod Verified
use arc_twitch_widget.Prelude.{
  ℕ, ◌+◌, Bool, true, false, not, ◌&&◌, ◌||◌, List, [], ◌∷◌, ◌++◌, Option, none, some, is_some,
  if◌then◌else◌, leb, ltb, ◌==◌, length, is_empty,
}
use arc_twitch_widget.Prelude.Result.{Result, ok, err, ensure, context, ◌>>=◌, ◌>>◌}
use arc_twitch_widget.Text.{Text, codes, eq_text, to_ascii_lowercase}
use arc_twitch_widget.Text.Utf8.{Bytes}
use arc_twitch_widget.HashMap
use arc_twitch_widget.HashMap.{HashMap}
use arc_twitch_widget.Live.Updates.{
  UpdateManifest, UpdateError, no_response, installer_too_large, size_mismatch, hash_mismatch,
  cannot_write, max_installer_bytes,
}

-- The files of the updates directory.
abbrev pub Files : Type 0
Files = HashMap Text Bytes

-- Which calls of the file system succeed.
pub record Disk : Type 0 where
  pub creates_directory : Bool
  pub creates : Bool
  pub writes : Bool
  pub syncs : Bool
  pub removes : Bool
  pub renames : Bool

-- A response: the length it declares, and the reads; an error is `none`.
pub record Response : Type 0 where
  pub content_length : Option ℕ
  pub reads : List (Option Bytes)

abbrev pub final_path : UpdateManifest → Text
final_path m = codes "ARC-Live-Setup-" ++ (m.version ++ codes ".exe")

abbrev pub temporary_path : UpdateManifest → Text
temporary_path m = codes "ARC-Live-Setup-" ++ (m.version ++ codes ".exe.download")

-- The end of the copy: the whole of the body, or an error and what the temporary file holds.
pub data Copied : Type 0 where
  finished : Bytes → Copied
  failed : UpdateError → Option Bytes → Copied

abbrev pub check_length : UpdateManifest → Option ℕ → Result UpdateError (Unit {0})
check_length m none = ok tt
check_length m (some length) = do
  ensure (leb length max_installer_bytes) installer_too_large
  ensure (not (ltb 0 m.size) || length == m.size) size_mismatch

module _ (disk : Disk) (send : Text → Option Response) (sha256_hex : Bytes → Text) where
  -- From the checks of the manifest to the empty temporary file.
  unfoldable pub open_response : UpdateManifest → Result UpdateError Response
  open_response m = do
    ensure (leb m.size max_installer_bytes) installer_too_large
    ensure disk.creates_directory cannot_write
    response ← context (send m.installer_url) no_response
    check_length m response.content_length
    ensure disk.creates cannot_write
    ok response

  -- The loop over the reads, with what is written so far. An empty read is the end.
  unfoldable pub copy : List (Option Bytes) → Bytes → Copied
  copy [] written = finished written
  copy (none ∷ reads) written = failed no_response (some written)
  copy (some bytes ∷ reads) written =
      let rest = copy reads (written ++ bytes) in
      if is_empty bytes
      then finished written
      else if ltb max_installer_bytes (length written + length bytes)
      then failed installer_too_large (if disk.removes then none else some written)
      else if disk.writes
      then rest
      else failed cannot_write (some written)

  abbrev pub leave : UpdateManifest → Option Bytes → Files → Files
  leave m none files = HashMap.remove eq_text files (temporary_path m)
  leave m (some bytes) files = HashMap.insert eq_text files (temporary_path m) bytes

  -- The temporary file takes the place of the installer.
  unfoldable pub rename_into_place :
      UpdateManifest → Bytes → Files → Result UpdateError Text × Files
  rename_into_place m content files =
      let written = HashMap.insert eq_text files (temporary_path m) content in
      let cleared = HashMap.remove eq_text written (final_path m) in
      if is_some (HashMap.get eq_text written (final_path m)) && not disk.removes
      then (err cannot_write, written)
      else if disk.renames
      then (
        ok (final_path m),
        HashMap.insert eq_text (HashMap.remove eq_text cleared (temporary_path m)) (final_path m)
            content,
      )
      else (err cannot_write, cleared)

  unfoldable pub install_copy : UpdateManifest → Copied → Files → Result UpdateError Text × Files
  install_copy m (failed e left) files = (err e, leave m left files)
  install_copy m (finished content) files =
      if not disk.syncs
      then (err cannot_write, leave m (some content) files)
      else if eq_text (to_ascii_lowercase (sha256_hex content)) (to_ascii_lowercase m.sha256)
      then rename_into_place m content files
      else (err hash_mismatch, leave m (if disk.removes then none else some content) files)

  unfoldable pub save_response :
      UpdateManifest → Result UpdateError Response → Files → Result UpdateError Text × Files
  save_response m (err e) files = (err e, files)
  save_response m (ok response) files = install_copy m (copy response.reads []) files

  unfoldable pub download_update : UpdateManifest → Files → Result UpdateError Text × Files
  download_update m files = save_response m (open_response m) files
