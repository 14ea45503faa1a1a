-- ===== src/Live/Updates/Manager.antt =====
-- crates/arc-live/src/updates.rs: `UpdateManager`. A check and a download run in a thread of their
-- own and send one event.
pub mod Reachable
use arc_twitch_widget.Prelude.{
  ℕ, Bool, true, false, ◌||◌, List, [], ◌∷◌, Option, none, some, if◌then◌else◌, is_some,
}
use arc_twitch_widget.Prelude.Result.{Result, ok, err}
use arc_twitch_widget.Text.{Text, blank}
use arc_twitch_widget.Live.Updates.{UpdateManifest, UpdateError, not_downloaded, cannot_launch}

-- A path, and the text of an error by its kind.
pub data UpdateEvent : Type 0 where
  current_event : UpdateEvent
  available_event : UpdateManifest → UpdateEvent
  downloaded_event : Text → UpdateEvent
  error_event : UpdateError → UpdateEvent

pub record UpdateManager : Type 0 where
  pub checking : Bool
  pub downloading : Bool
  pub available : Option UpdateManifest
  pub downloaded : Option Text
  pub error : Option UpdateError

unfoldable pub manager_new : UpdateManager
manager_new = record {
  checking = false;
  downloading = false;
  available = none;
  downloaded = none;
  error = none;
}

-- `UpdateManager::check`: the new state, and whether a thread is started.
unfoldable pub check : Text → UpdateManager → UpdateManager × Bool
check feed_url s =
    if s.checking || blank feed_url
    then (s, false)
    else (record s { checking = true; error = none }, true)

unfoldable pub download_from :
    Option UpdateManifest → UpdateManager → UpdateManager × Option UpdateManifest
download_from none s = (s, none)
download_from (some m) s = (record s { downloading = true; error = none }, some m)

-- `UpdateManager::download`: the new state, and the manifest that a thread downloads.
unfoldable pub download : UpdateManager → UpdateManager × Option UpdateManifest
download s = if s.downloading then (s, none) else download_from s.available s

unfoldable pub launch_from : Bool → Option Text → Result UpdateError Text
launch_from spawns none = err not_downloaded
launch_from spawns (some path) = if spawns then ok path else err cannot_launch

-- `UpdateManager::launch_downloaded_after_exit`: the installer that is started once the program has
-- ended, where the process that waits for its end can be started.
unfoldable pub launch_downloaded_after_exit : Bool → UpdateManager → Result UpdateError Text
launch_downloaded_after_exit spawns s = launch_from spawns s.downloaded

-- What the thread of a check sends.
unfoldable pub event_of_check : Result UpdateError (Option UpdateManifest) → UpdateEvent
event_of_check (ok (some m)) = available_event m
event_of_check (ok none) = current_event
event_of_check (err e) = error_event e

-- What the thread of a download sends.
unfoldable pub event_of_download : Result UpdateError Text → UpdateEvent
event_of_download (ok path) = downloaded_event path
event_of_download (err e) = error_event e

-- `UpdateManager::drain`, for one event.
unfoldable pub receive : UpdateEvent → UpdateManager → UpdateManager
receive current_event s = record s {
  checking = false;
  available = none;
  downloaded = none;
  error = none;
}
receive (available_event m) s = record s { checking = false; available = some m; error = none }
receive (downloaded_event path) s = record s {
  checking = false;
  downloading = false;
  downloaded = some path;
  error = none;
}
receive (error_event e) s = record s { checking = false; downloading = false; error = some e }

unfoldable pub drain : List UpdateEvent → UpdateManager → UpdateManager
drain [] s = s
drain (e ∷ es) s = drain es (receive e s)
