-- ===== src/Live/Updates/Offer.antt =====
-- An update that is offered is signed, for the channel, and newer than what is installed.
use mathlib.Core.Path.{subst}
use arc_twitch_widget.Prelude.{
  ℕ, ◌≡◌, refl, Bool, true, false, Option, none, some, ◌==◌, leb, length, arith, ◌||◌,
  if◌then◌else◌,
}
use arc_twitch_widget.Prelude.Result.{Result, ok, ensure, context, bind-eq-ok}
use arc_twitch_widget.Text.{Text, codes, eq_text, starts_with}
use arc_twitch_widget.Text.Laws.{eq_text_iff}
use arc_twitch_widget.Text.Utf8.{Bytes, len}
use arc_twitch_widget.Live.Updates.{
  UpdateManifest, Remote, verifying_key, parse_signed_manifest_with_key, check_update, is_newer,
  max_update_manifest_bytes,
}

module _ (r : Remote) where
  -- The manifest was read from a payload that the key of the program signed.
  pub record IsSigned (public_key : Text) (m : UpdateManifest) : Type 0 where
    pub key : Bytes
    pub payload : Bytes
    pub signature : Bytes
    pub key_eq : verifying_key r public_key ≡ some key
    pub verified : r.verify_strict key payload signature ≡ true
    pub read : r.manifest_from payload ≡ some m

  context-ok : {E A : Type 0} (o : Option A) (e : E) {a : A} → context o e ≡ ok a → o ≡ some a
  context-ok none e h = cc
  context-ok (some a) e h = cc h

  ensure-ok : {E : Type 0} (b : Bool) (e : E) {u : Unit {0}} → ensure b e ≡ ok u → b ≡ true
  ensure-ok true e h = refl
  ensure-ok false e h = cc

  parse_signed_manifest_with_key-IsSigned :
      (body : Bytes) (public_key : Text) {m : UpdateManifest}
      → parse_signed_manifest_with_key r body public_key ≡ ok m
      → IsSigned public_key m
  unfolding parse_signed_manifest_with_key
  parse_signed_manifest_with_key-IsSigned body public_key h =
      let (envelope, e1, h1) = bind-eq-ok (context (r.envelope_from body) _) _ h in
      let (u2, e2, h2) = bind-eq-ok (ensure (envelope.schema_version == 1) _) _ h1 in
      let (u3, e3, h3) =
        bind-eq-ok (ensure (eq_text envelope.algorithm (codes "ed25519")) _) _ h2 in
      let (payload, e4, h4) = bind-eq-ok (context (r.decode envelope.payload) _) _ h3 in
      let (raw, e5, h5) = bind-eq-ok (context (r.decode envelope.signature) _) _ h4 in
      let (signature, e6, h6) = bind-eq-ok (context (r.signature_from raw) _) _ h5 in
      let (key, e7, h7) = bind-eq-ok (context (verifying_key r public_key) _) _ h6 in
      let (u8, e8, h8) = bind-eq-ok (ensure (r.verify_strict key payload signature) _) _ h7 in
      record {
        key = key;
        payload = payload;
        signature = signature;
        key_eq = context-ok (verifying_key r public_key) _ e7;
        verified = ensure-ok (r.verify_strict key payload signature) _ e8;
        read = context-ok (r.manifest_from payload) _ h8;
      }

  ==-eq : (a b : ℕ) → (a == b) ≡ true → a ≡ b
  ==-eq a b h = ground arith

  offered :
      {E A : Type 0} (b : Bool) (a : A) {c : A}
      → ◌≡◌ {A = Result E (Option A)} (ok (if b then some a else none)) (ok (some c))
      → (b ≡ true) × (a ≡ c)
  offered true a h = (refl, cc h)
  offered false a h = absurd (cc h)

  -- What may be offered as an update.
  pub record IsOffer (public_key channel current_version : Text) (m : UpdateManifest) : Type 0 where
    pub signed : IsSigned public_key m
    pub schema : m.schema_version ≡ 1
    pub same_channel : m.channel ≡ channel
    pub https : starts_with m.installer_url (codes "https://") ≡ true
    pub digest : len m.sha256 ≡ 64
    pub newer : is_newer m.version current_version ≡ true

  -- An update is offered only with a manifest that the program's key signed, for the channel that
  -- was asked for, with an installer behind HTTPS, and for a newer version.
  pub check_update-IsOffer :
      (public_key feed_url channel current_version : Text) (m : UpdateManifest)
      → check_update r public_key feed_url channel current_version ≡ ok (some m)
      → IsOffer public_key channel current_version m
  unfolding check_update
  check_update-IsOffer public_key feed_url channel current_version m h =
      let (u1, e1, h1) =
        bind-eq-ok (ensure (starts_with feed_url (codes "https://") || r.debug_assertions) _) _ h in
      let (body, e2, h2) = bind-eq-ok (context (r.get feed_url) _) _ h1 in
      let (u3, e3, h3) = bind-eq-ok (ensure (leb (length body) max_update_manifest_bytes) _) _ h2 in
      let (n, e4, h4) = bind-eq-ok (parse_signed_manifest_with_key r body public_key) _ h3 in
      let (u5, e5, h5) = bind-eq-ok (ensure (n.schema_version == 1) _) _ h4 in
      let (u6, e6, h6) = bind-eq-ok (ensure (eq_text n.channel channel) _) _ h5 in
      let (u7, e7, h7) =
        bind-eq-ok (ensure (starts_with n.installer_url (codes "https://")) _) _ h6 in
      let (u8, e8, h8) = bind-eq-ok (ensure (len n.sha256 == 64) _) _ h7 in
      let (newer, same) = offered (is_newer n.version current_version) n h8 in
      subst (IsOffer public_key channel current_version) same (record {
        signed = parse_signed_manifest_with_key-IsSigned body public_key e4;
        schema = ==-eq n.schema_version 1 (ensure-ok (n.schema_version == 1) _ e5);
        same_channel =
            (eq_text_iff n.channel channel).0 (ensure-ok (eq_text n.channel channel) _ e6);
        https = ensure-ok (starts_with n.installer_url (codes "https://")) _ e7;
        digest = ==-eq (len n.sha256) 64 (ensure-ok (len n.sha256 == 64) _ e8);
        newer = newer;
      })
