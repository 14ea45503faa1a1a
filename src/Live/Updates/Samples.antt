-- ===== src/Live/Updates/Samples.antt =====
-- A server, a disk and a manifest for runs of crates/arc-live/src/updates.rs.
use arc_twitch_widget.Prelude.{true, false, [], ◌∷◌, Option, some}
use arc_twitch_widget.Text.{Text, codes, eq_text}
use arc_twitch_widget.Text.Utf8.{Bytes}
use arc_twitch_widget.Live.Updates.{UpdateManifest, Remote}
use arc_twitch_widget.Live.Updates.Download.{Disk, Response}

abbrev pub manifest : UpdateManifest
manifest = record {
  schema_version = 1;
  channel = codes "stable";
  version = codes "1.2.3";
  installer_url = codes "https://example.test/ARC-Live-Setup.exe";
  sha256 = codes "aaaaaaaaaaaaaaaaaaaaaaaaaaaaaaaaaaaaaaaaaaaaaaaaaaaaaaaaaaaaaaaa";
  size = 2;
  silent_args = codes "/passive /norestart";
}

abbrev pub key_bytes : Bytes
key_bytes =
    1 ∷ 2 ∷ 3 ∷ 4 ∷ 5 ∷ 6 ∷ 7 ∷ 8 ∷ 1 ∷ 2 ∷ 3 ∷ 4 ∷ 5 ∷ 6 ∷ 7 ∷ 8 ∷ 1 ∷ 2 ∷ 3 ∷ 4 ∷ 5 ∷ 6 ∷ 7 ∷ 8
    ∷ 1 ∷ 2 ∷ 3 ∷ 4 ∷ 5 ∷ 6 ∷ 7 ∷ 8 ∷ []

-- A server with one manifest, signed by the key.
abbrev pub remote : Remote
remote = record {
  get = λ url. some (1 ∷ []);
  envelope_from = λ body. some (record {
    schema_version = 1;
    algorithm = codes "ed25519";
    payload = codes "p";
    signature = codes "s";
  });
  manifest_from = λ payload. some manifest;
  decode = λ text. some key_bytes;
  signature_from = λ bytes. some bytes;
  key_from = λ bytes. some bytes;
  verify_strict = λ key payload signature. eq_text key key_bytes;
  debug_assertions = false;
}

abbrev pub disk : Disk
disk = record {
  creates_directory = true;
  creates = true;
  writes = true;
  syncs = true;
  removes = true;
  renames = true;
}

abbrev pub send : Text → Option Response
send url = some (record { content_length = some 2; reads = some (77 ∷ 90 ∷ []) ∷ [] })

abbrev pub digest : Bytes → Text
digest bytes = codes "AAAAAAAAAAAAAAAAAAAAAAAAAAAAAAAAAAAAAAAAAAAAAAAAAAAAAAAAAAAAAAAA"

abbrev pub installer : Text
installer = codes "ARC-Live-Setup-1.2.3.exe"
