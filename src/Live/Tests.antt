-- ===== src/Live/Tests.antt =====
-- Runs of the updates on small inputs, and instances of their theorems.
use arc_twitch_widget.Prelude.{◌↔◌, some, ◌≡◌, refl, true, false, [], ◌∷◌}
use arc_twitch_widget.Text.{codes, eq_text, starts_with, split_by, split_once, ascii_lower}
use arc_twitch_widget.Text.Decimal.{parse_unsigned, parse_digits, push_digit, digit_value}
use arc_twitch_widget.Text.Utf8.{encode}
use arc_twitch_widget.HashMap
use arc_twitch_widget.BTreeMap.{lt_text}
use arc_twitch_widget.Live.Updates.{
  check_update, parse_signed_manifest_with_key, verifying_key, is_newer, newer_parts, version_parts,
  core_before, newer_suffix,
}
use arc_twitch_widget.Live.Updates.Samples.{manifest, remote, disk, send, digest, installer}
use arc_twitch_widget.Live.Updates.Versions.{IsNewer, is_newer_strict}
use arc_twitch_widget.Live.Updates.Offer.{IsOffer, check_update-IsOffer}
use arc_twitch_widget.Live.Updates.Download.{
  download_update, save_response, open_response, copy, install_copy, rename_into_place,
}
use arc_twitch_widget.Live.Updates.Download.Verified.{IsInstaller, download_update-IsInstaller}
use arc_twitch_widget.Live.Updates.Manager.{
  UpdateManager, receive, event_of_check, event_of_download, manager_new,
}
use arc_twitch_widget.Live.Updates.Manager.Reachable.{
  Thread, checks, downloads, event_of, IsGenuine, Reaches-IsGenuine, started, found, fetched,
}

is_newer_strict_example :
    ((is_newer (codes "0.10.0") (codes "0.9.9") ≡ true)
      ↔ IsNewer (version_parts (codes "0.10.0")) (version_parts (codes "0.9.9")))
    × (is_newer (codes "0.9.9") (codes "0.9.9") ≡ false)
    × (is_newer (codes "0.10.0") (codes "0.9.9") ≡ true
        → is_newer (codes "0.9.9") (codes "0.9.9-beta.1") ≡ true
        → is_newer (codes "0.10.0") (codes "0.9.9-beta.1") ≡ true)
is_newer_strict_example = is_newer_strict (codes "0.10.0") (codes "0.9.9") (codes "0.9.9-beta.1")

-- The comparisons of a test in updates.rs.
compared :
    (is_newer (codes "0.10.0") (codes "0.9.9") ≡ true)
    × (is_newer (codes "0.9.9") (codes "0.10.0") ≡ false)
    × (is_newer (codes "1.0.0") (codes "1.0.0-beta.1") ≡ true)
    × (is_newer (codes "1.0.0-beta.1") (codes "1.0.0") ≡ false)
    × (is_newer (codes "1.0.0-beta.10") (codes "1.0.0-beta.9") ≡ false)
unfolding is_newer newer_parts version_parts core_before newer_suffix split_once split_by
    parse_unsigned parse_digits push_digit digit_value lt_text
compared = (refl, refl, refl, refl, refl)

check_update-IsOffer_example : IsOffer remote (codes "k") (codes "stable") (codes "1.2.2") manifest
unfolding check_update parse_signed_manifest_with_key verifying_key is_newer newer_parts
    version_parts core_before split_once split_by parse_unsigned parse_digits push_digit digit_value
    starts_with eq_text encode
check_update-IsOffer_example =
    check_update-IsOffer remote (codes "k") (codes "https://example.test/stable.json")
      (codes "stable") (codes "1.2.2") manifest refl

download_update-IsInstaller_example :
    IsInstaller disk send digest manifest installer ((installer, 77 ∷ 90 ∷ []) ∷ [])
unfolding download_update save_response open_response copy install_copy rename_into_place eq_text
    HashMap.get HashMap.insert HashMap.remove ascii_lower
download_update-IsInstaller_example =
    download_update-IsInstaller disk send digest manifest [] ((installer, 77 ∷ 90 ∷ []) ∷ [])
      installer refl

-- A check, and the download of what it found.
abbrev check_thread : Thread remote (codes "k") (codes "1.2.2") send digest
check_thread = checks (codes "https://example.test/stable.json") (codes "stable")

abbrev download_thread : Thread remote (codes "k") (codes "1.2.2") send digest
download_thread = downloads disk manifest []

abbrev reached : UpdateManager
reached =
    receive (event_of remote (codes "k") (codes "1.2.2") send digest download_thread)
      (receive (event_of remote (codes "k") (codes "1.2.2") send digest check_thread) manager_new)

Reaches-IsGenuine_example :
    IsGenuine remote
      (codes "k")
      (codes "1.2.2")
      send
      digest
      (download_thread ∷ check_thread ∷ [])
      reached
Reaches-IsGenuine_example =
    Reaches-IsGenuine remote (codes "k") (codes "1.2.2") send digest
      (download_thread ∷ check_thread ∷ []) reached
      (fetched disk manifest []
        (found (codes "https://example.test/stable.json") (codes "stable") started))

-- The installer of that download is what would be launched.
reached_installer : reached.downloaded ≡ some installer
unfolding receive event_of_download event_of_check download_update save_response open_response copy
    install_copy rename_into_place eq_text HashMap.get HashMap.insert HashMap.remove ascii_lower
    check_update parse_signed_manifest_with_key verifying_key is_newer newer_parts version_parts
    core_before split_once split_by parse_unsigned parse_digits push_digit digit_value starts_with
    encode
reached_installer = refl
