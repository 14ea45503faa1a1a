-- ===== src/Live/Updates/Versions.antt =====
-- The order of versions.
use arc_twitch_widget.Prelude.{◌<◌, ◌≡◌, refl, ◌⊎◌, ◌↔◌, true, false, [], ◌∷◌, arith}
use arc_twitch_widget.Text.{Text}
use arc_twitch_widget.BTreeMap.{lt_text}
use arc_twitch_widget.Live.Updates.{
  VersionCore, version_parts, core_before, newer_suffix, newer_parts, is_newer,
}

lt_text_irrefl : (s : Text) → lt_text s s ≡ false
unfolding lt_text
lt_text_irrefl [] = refl
lt_text_irrefl (c ∷ s) = let rest = lt_text_irrefl s in ground arith

lt_text_trans : (s t u : Text) → lt_text s t ≡ true → lt_text t u ≡ true → lt_text s u ≡ true
unfolding lt_text
lt_text_trans s t [] h k = cc
lt_text_trans s [] (z ∷ u) h k = cc
lt_text_trans [] (y ∷ t) (z ∷ u) h k = refl
lt_text_trans (x ∷ s) (y ∷ t) (z ∷ u) h k = let rest = lt_text_trans s t u in ground arith

newer_suffix_irrefl : (s : Text) → newer_suffix s s ≡ false
unfolding newer_suffix
newer_suffix_irrefl [] = refl
newer_suffix_irrefl (c ∷ s) = lt_text_irrefl (c ∷ s)

newer_suffix_trans :
    (s t u : Text) → newer_suffix s t ≡ true → newer_suffix t u ≡ true → newer_suffix s u ≡ true
unfolding newer_suffix
newer_suffix_trans [] [] [] h k = cc
newer_suffix_trans [] (y ∷ t) [] h k = cc
newer_suffix_trans [] t (z ∷ u) h k = refl
newer_suffix_trans (x ∷ s) [] u h k = cc
newer_suffix_trans (x ∷ s) (y ∷ t) [] h k = cc
newer_suffix_trans (x ∷ s) (y ∷ t) (z ∷ u) h k = lt_text_trans (z ∷ u) (y ∷ t) (x ∷ s) k h

newer_parts_irrefl : (p : VersionCore × Text) → newer_parts p p ≡ false
unfolding newer_parts core_before
newer_parts_irrefl ((a, b, c), s) = let e = newer_suffix_irrefl s in ground arith

newer_parts_trans :
    (p q r : VersionCore × Text)
    → newer_parts p q ≡ true
    → newer_parts q r ≡ true
    → newer_parts p r ≡ true
unfolding newer_parts core_before
newer_parts_trans ((a, b, c), s) ((a', b', c'), t) ((a'', b'', c''), u) h k =
    let e = newer_suffix_trans s t u in ground arith

-- Of three numbers, greater ones: the first that differs decides.
abbrev pub IsAfter : VersionCore → VersionCore → Type 0
IsAfter (a, b, c) (x, y, z) = (x < a) ⊎ ((a ≡ x) × ((y < b) ⊎ ((b ≡ y) × (z < c))))

-- A release comes after what has a suffix, and suffixes are in the order of texts.
abbrev pub IsAfterSuffix : Text → Text → Type 0
IsAfterSuffix s [] = ⊥
IsAfterSuffix [] (d ∷ t) = Unit
IsAfterSuffix (c ∷ s) (d ∷ t) = lt_text (d ∷ t) (c ∷ s) ≡ true

-- Greater numbers, or the same ones and a later suffix.
abbrev pub IsNewer : VersionCore × Text → VersionCore × Text → Type 0
IsNewer ((a, b, c), s) ((x, y, z), t) =
    IsAfter (a, b, c) (x, y, z) ⊎ (((a ≡ x) × (b ≡ y) × (c ≡ z)) × IsAfterSuffix s t)

newer_suffix_iff : (s t : Text) → (newer_suffix s t ≡ true) ↔ IsAfterSuffix s t
unfolding newer_suffix
newer_suffix_iff [] [] = ((λ h. absurd (cc h)), (λ h. absurd h))
newer_suffix_iff (c ∷ s) [] = ((λ h. absurd (cc h)), (λ h. absurd h))
newer_suffix_iff [] (d ∷ t) = ((λ h. tt), (λ h. refl))
newer_suffix_iff (c ∷ s) (d ∷ t) = ((λ h. h), (λ h. h))

newer_parts_iff : (p q : VersionCore × Text) → (newer_parts p q ≡ true) ↔ IsNewer p q
unfolding newer_parts core_before
newer_parts_iff ((a, b, c), s) ((x, y, z), t) =
    let (to, from) = newer_suffix_iff s t in ((λ h. ground arith), (λ h. ground arith))

-- A version is newer than another exactly when its numbers are greater, of which the first that
-- differs decides, or they are the same and it is a release and the other has a suffix, or its suffix
-- is the later text. This is a strict order: no version is newer than itself, and what is newer than a
-- newer one is newer.
pub is_newer_strict :
    (u v w : Text)
    → ((is_newer u v ≡ true) ↔ IsNewer (version_parts u) (version_parts v))
      × (is_newer v v ≡ false)
      × (is_newer u v ≡ true → is_newer v w ≡ true → is_newer u w ≡ true)
unfolding is_newer
is_newer_strict u v w = (
  newer_parts_iff (version_parts u) (version_parts v),
  newer_parts_irrefl (version_parts v),
  newer_parts_trans (version_parts u) (version_parts v) (version_parts w),
)
