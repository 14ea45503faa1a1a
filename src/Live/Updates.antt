-- ===== src/Live/Updates.antt =====
-- crates/arc-live/src/updates.rs: the order of versions, and an update that is looked for. The
-- network, base64, ed25519 and `serde_json` are parameters.
pub mod Versions
pub mod Offer
pub mod Download
pub mod Manager
pub mod Samples
use arc_twitch_widget.Prelude.{
  ℕ, zero, suc, ◌*◌, Bool, true, false, not, ◌&&◌, ◌||◌, List, [], ◌∷◌, ◌++◌, Option, none, some,
  and_then, unwrap_or, first?, drop, if◌then◌else◌, leb, ltb, ◌==◌, length, is_empty,
}
use arc_twitch_widget.Prelude.Result.{Result, ok, err, ensure, context, ◌>>=◌, ◌>>◌}
use arc_twitch_widget.Text.{Text, codes, eq_text, split, split_once, starts_with, blank}
use arc_twitch_widget.Text.Decimal.{parse_u64}
use arc_twitch_widget.Text.Utf8.{Bytes, len}
use arc_twitch_widget.BTreeMap.{lt_text}

abbrev pub max_update_manifest_bytes : ℕ
max_update_manifest_bytes = 256 * 1024

abbrev pub max_installer_bytes : ℕ
max_installer_bytes = 300 * 1024 * 1024

pub record SignedUpdateEnvelope : Type 0 where
  pub schema_version : ℕ
  pub algorithm : Text
  pub payload : Text
  pub signature : Text

pub record UpdateManifest : Type 0 where
  pub schema_version : ℕ
  pub channel : Text
  pub version : Text
  pub installer_url : Text
  pub sha256 : Text
  pub size : ℕ
  pub silent_args : Text

-- The messages of `ensure!`, `bail!` and the contexts.
pub data UpdateError : Type 0 where
  not_https no_response manifest_too_large bad_envelope unsupported_envelope : UpdateError
  unsupported_signature bad_payload bad_signature bad_key invalid_signature bad_manifest :
      UpdateError
  unsupported_manifest channel_mismatch installer_not_https invalid_sha256 : UpdateError
  installer_too_large size_mismatch hash_mismatch cannot_write : UpdateError
  not_downloaded cannot_launch : UpdateError

-- The three numbers of a version, and what follows the first hyphen.
abbrev pub VersionCore : Type 0
VersionCore = ℕ × ℕ × ℕ

abbrev pub parse_part : Option Text → ℕ
parse_part none = 0
parse_part (some part) = unwrap_or (parse_u64 part) 0

abbrev pub core_parts : Text → VersionCore
core_parts core =
    let parts = split b'.' core in
    (
      parse_part (first? parts),
      parse_part (first? (drop 1 parts)),
      parse_part (first? (drop 2 parts)),
    )

unfoldable pub version_parts : Text → VersionCore × Text
version_parts version =
    let (core, suffix) = unwrap_or (split_once b'-' version) (version, []) in
    (core_parts core, suffix)

-- The order of the tuples.
unfoldable pub core_before : VersionCore → VersionCore → Bool
core_before (a, b, c) (x, y, z) = ltb a x || (a == x && (ltb b y || (b == y && ltb c z)))

abbrev pub same_core : VersionCore → VersionCore → Bool
same_core (a, b, c) (x, y, z) = a == x && b == y && c == z

-- Of two suffixes, the newer: none is newer than any.
unfoldable pub newer_suffix : Text → Text → Bool
newer_suffix [] [] = false
newer_suffix [] (c ∷ s) = true
newer_suffix (c ∷ s) [] = false
newer_suffix (c ∷ s) (d ∷ t) = lt_text (d ∷ t) (c ∷ s)

unfoldable pub newer_parts : VersionCore × Text → VersionCore × Text → Bool
newer_parts (core, suffix) (core', suffix') =
    if same_core core core' then newer_suffix suffix suffix' else core_before core' core

unfoldable pub is_newer : Text → Text → Bool
is_newer candidate current = newer_parts (version_parts candidate) (version_parts current)

-- The code that is not in the repository. A response is read up to one byte more than the bound.
pub record Remote : Type 0 where
  pub get : Text → Option Bytes
  pub envelope_from : Bytes → Option SignedUpdateEnvelope
  pub manifest_from : Bytes → Option UpdateManifest
  pub decode : Text → Option Bytes
  pub signature_from : Bytes → Option Bytes
  pub key_from : Bytes → Option Bytes
  pub verify_strict : (key payload signature : Bytes) → Bool
  pub debug_assertions : Bool

module _ (r : Remote) where
  -- A key of 32 bytes.
  unfoldable pub verifying_key : Text → Option Bytes
  verifying_key public_key =
      and_then (r.decode public_key) λ bytes. if length bytes == 32 then r.key_from bytes else none

  unfoldable pub parse_signed_manifest_with_key : Bytes → Text → Result UpdateError UpdateManifest
  parse_signed_manifest_with_key body public_key = do
    envelope ← context (r.envelope_from body) bad_envelope
    ensure (envelope.schema_version == 1) unsupported_envelope
    ensure (eq_text envelope.algorithm (codes "ed25519")) unsupported_signature
    payload ← context (r.decode envelope.payload) bad_payload
    signature_bytes ← context (r.decode envelope.signature) bad_signature
    signature ← context (r.signature_from signature_bytes) bad_signature
    key ← context (verifying_key public_key) bad_key
    ensure (r.verify_strict key payload signature) invalid_signature
    context (r.manifest_from payload) bad_manifest

  unfoldable pub check_update :
      (public_key feed_url channel current_version : Text)
      → Result UpdateError (Option UpdateManifest)
  check_update public_key feed_url channel current_version = do
    ensure (starts_with feed_url (codes "https://") || r.debug_assertions) not_https
    body ← context (r.get feed_url) no_response
    ensure (leb (length body) max_update_manifest_bytes) manifest_too_large
    manifest ← parse_signed_manifest_with_key body public_key
    ensure (manifest.schema_version == 1) unsupported_manifest
    ensure (eq_text manifest.channel channel) channel_mismatch
    ensure (starts_with manifest.installer_url (codes "https://")) installer_not_https
    ensure (len manifest.sha256 == 64) invalid_sha256
    ok (if is_newer manifest.version current_version then some manifest else none)
