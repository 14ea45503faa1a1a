-- ===== src/Live/Updates/Manager/Reachable.antt =====
-- The states that the manager reaches, and what it offers in them.
use mathlib.Core.List.{Mem, mem-cons_self, mem-cons_of_mem}
use arc_twitch_widget.Prelude.{
  ◌≡◌, refl, List, [], ◌∷◌, Bool, true, false, ◌||◌, Option, none, some, if◌then◌else◌,
}
use arc_twitch_widget.Prelude.Result.{Result, ok, err}
use arc_twitch_widget.Text.{Text, blank}
use arc_twitch_widget.Text.Utf8.{Bytes}
use arc_twitch_widget.Live.Updates.{UpdateManifest, UpdateError, Remote, check_update}
use arc_twitch_widget.Live.Updates.Offer.{IsOffer, check_update-IsOffer}
use arc_twitch_widget.Live.Updates.Download.{Files, Disk, Response, download_update}
use arc_twitch_widget.Live.Updates.Download.Verified.{IsInstaller, download_update-IsInstaller}
use arc_twitch_widget.Live.Updates.Manager.{
  UpdateManager, UpdateEvent, manager_new, check, download, download_from, event_of_check,
  event_of_download, receive,
}

module _ (r : Remote) (public_key current_version : Text) (send : Text → Option Response)
    (sha256_hex : Bytes → Text) where
  -- The threads of a check and of a download, with what they are given.
  pub data Thread : Type 0 where
    checks : Text → Text → Thread
    downloads : Disk → UpdateManifest → Files → Thread

  abbrev pub checked_update : Text → Text → Result UpdateError (Option UpdateManifest)
  checked_update feed_url channel = check_update r public_key feed_url channel current_version

  abbrev pub downloaded_update : Disk → UpdateManifest → Files → Result UpdateError Text × Files
  downloaded_update disk m files = download_update disk send sha256_hex m files

  abbrev pub event_of : Thread → UpdateEvent
  event_of (checks feed_url channel) = event_of_check (checked_update feed_url channel)
  event_of (downloads disk m files) = event_of_download (downloaded_update disk m files).0

  -- What a check among the threads has found, and it is an offer for the channel of that check.
  abbrev pub Found : List Thread → Option UpdateManifest → Type 0
  Found ts none = Unit
  Found ts (some m) =
      (feed_url : Text) × (channel : Text) × Mem (checks feed_url channel) ts
      × (checked_update feed_url channel ≡ ok (some m))
      × IsOffer r public_key channel current_version m

  -- What a download among the threads has returned, and its path holds the installer of the manifest
  -- that it was given.
  abbrev pub Fetched : List Thread → Option Text → Type 0
  Fetched ts none = Unit
  Fetched ts (some path) =
      (disk : Disk) × (m : UpdateManifest) × (files : Files) × (files' : Files) × Mem
        (downloads disk m files) ts
      × (downloaded_update disk m files ≡ (ok path, files'))
      × IsInstaller disk send sha256_hex m path files'

  pub record IsGenuine (ts : List Thread) (s : UpdateManager) : Type 0 where
    pub offer : Found ts s.available
    pub installer : Fetched ts s.downloaded

  Found-more :
      (t : Thread) (ts : List Thread) (o : Option UpdateManifest) → Found ts o → Found (t ∷ ts) o
  Found-more t ts none h = tt
  Found-more t ts (some m) (feed_url, channel, i, e, k) =
      (feed_url, channel, mem-cons_of_mem t i, e, k)

  Fetched-more :
      (t : Thread) (ts : List Thread) (o : Option Text) → Fetched ts o → Fetched (t ∷ ts) o
  Fetched-more t ts none h = tt
  Fetched-more t ts (some path) (disk, m, files, files', i, e, k) =
      (disk, m, files, files', mem-cons_of_mem t i, e, k)

  IsGenuine-more :
      (t : Thread) (ts : List Thread) (s : UpdateManager) → IsGenuine ts s → IsGenuine (t ∷ ts) s
  IsGenuine-more t ts s h = record {
    offer = Found-more t ts s.available h.offer;
    installer = Fetched-more t ts s.downloaded h.installer;
  }

  pub check-IsGenuine :
      (ts : List Thread) (feed_url : Text) (s : UpdateManager)
      → IsGenuine ts s
      → IsGenuine ts (check feed_url s).0
  unfolding check
  check-IsGenuine ts feed_url s h = of (s.checking || blank feed_url)
    where
      of :
          (b : Bool)
          → IsGenuine ts
              (if◌then◌else◌ {A = UpdateManager × Bool} b
                (s, false)
                (record s { checking = true; error = none }, true)).0
      of true = h
      of false = record { offer = h.offer; installer = h.installer }

  pub download-IsGenuine :
      (ts : List Thread) (s : UpdateManager) → IsGenuine ts s → IsGenuine ts (download s).0
  unfolding download
  download-IsGenuine ts s h = of s.available s.downloading
    where
      of :
          (o : Option UpdateManifest) (b : Bool)
          → IsGenuine ts (if b then (s, none) else download_from o s).0
      of o true = h
      of none false = unfold download_from in h
      of (some m) false =
          unfold download_from in record { offer = h.offer; installer = h.installer }

  found-IsGenuine :
      (ts : List Thread) (feed_url channel : Text) (c : Result UpdateError (Option UpdateManifest))
      (s : UpdateManager)
      → Mem (checks feed_url channel) ts
      → checked_update feed_url channel ≡ c
      → IsGenuine ts s
      → IsGenuine ts (receive (event_of_check c) s)
  unfolding event_of_check receive
  found-IsGenuine ts feed_url channel (ok (some m)) s i e h = record {
    offer = (
      feed_url,
      channel,
      i,
      e,
      check_update-IsOffer r public_key feed_url channel current_version m e,
    );
    installer = h.installer;
  }
  found-IsGenuine ts feed_url channel (ok none) s i e h = record { offer = tt; installer = tt }
  found-IsGenuine ts feed_url channel (err x) s i e h = record {
    offer = h.offer;
    installer = h.installer;
  }

  fetched-IsGenuine :
      (ts : List Thread) (disk : Disk) (m : UpdateManifest) (files files' : Files)
      (d : Result UpdateError Text) (s : UpdateManager)
      → Mem (downloads disk m files) ts
      → downloaded_update disk m files ≡ (d, files')
      → IsGenuine ts s
      → IsGenuine ts (receive (event_of_download d) s)
  unfolding event_of_download receive
  fetched-IsGenuine ts disk m files files' (ok path) s i e h = record {
    offer = h.offer;
    installer = (
      disk,
      m,
      files,
      files',
      i,
      e,
      download_update-IsInstaller disk send sha256_hex m files files' path e,
    );
  }
  fetched-IsGenuine ts disk m files files' (err x) s i e h = record {
    offer = h.offer;
    installer = h.installer;
  }

  pub receive-IsGenuine :
      (ts : List Thread) (t : Thread) (s : UpdateManager)
      → Mem t ts
      → IsGenuine ts s
      → IsGenuine ts (receive (event_of t) s)
  receive-IsGenuine ts (checks feed_url channel) s i h =
      found-IsGenuine ts feed_url channel (checked_update feed_url channel) s i refl h
  receive-IsGenuine ts (downloads disk m files) s i h =
      let result = downloaded_update disk m files in
      fetched-IsGenuine ts disk m files result.1 result.0 s i refl h

  -- The states that the program reaches by the calls of the window and the events of threads, the
  -- last thread first.
  pub data Reaches : List Thread → UpdateManager → Type 0 where
    started : Reaches [] manager_new
    checked :
        {ts : List Thread} {s : UpdateManager} (feed_url : Text)
        → Reaches ts s
        → Reaches ts (check feed_url s).0
    asked : {ts : List Thread} {s : UpdateManager} → Reaches ts s → Reaches ts (download s).0
    found :
        {ts : List Thread} {s : UpdateManager} (feed_url channel : Text)
        → Reaches ts s
        → Reaches (checks feed_url channel ∷ ts) (receive (event_of (checks feed_url channel)) s)
    fetched :
        {ts : List Thread} {s : UpdateManager} (disk : Disk) (m : UpdateManifest) (files : Files)
        → Reaches ts s
        → Reaches (downloads disk m files ∷ ts) (receive (event_of (downloads disk m files)) s)

  -- In every state that the manager reaches, an update that it offers is what one of the checks found,
  -- signed by the program's key and newer than the program; and the path that it would launch is what
  -- one of the downloads returned, where that download left an installer within the bound and with the
  -- digest of its manifest, under the name of the manifest's version.
  pub Reaches-IsGenuine : (ts : List Thread) (s : UpdateManager) → Reaches ts s → IsGenuine ts s
  unfolding manager_new
  Reaches-IsGenuine _ _ started = record { offer = tt; installer = tt }
  Reaches-IsGenuine _ _ (checked {ts} {s} feed_url h) =
      check-IsGenuine ts feed_url s (Reaches-IsGenuine ts s h)
  Reaches-IsGenuine _ _ (asked {ts} {s} h) = download-IsGenuine ts s (Reaches-IsGenuine ts s h)
  Reaches-IsGenuine _ _ (found {ts} {s} feed_url channel h) =
      let t : Thread = checks feed_url channel in
      receive-IsGenuine (t ∷ ts) t s mem-cons_self
        (IsGenuine-more t ts s (Reaches-IsGenuine ts s h))
  Reaches-IsGenuine _ _ (fetched {ts} {s} disk m files h) =
      let t : Thread = downloads disk m files in
      receive-IsGenuine (t ∷ ts) t s mem-cons_self
        (IsGenuine-more t ts s (Reaches-IsGenuine ts s h))
