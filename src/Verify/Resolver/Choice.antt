-- ===== src/Verify/Resolver/Choice.antt =====
-- Which record is chosen for a version.
use ans_sdk_go.Base.{
  ◌≡◌, ◌≢◌, ◌⊎◌, refl, sym, ap, ◌∙◌, true, false, Option, none, some, List, [], ◌∷◌, arith, inl,
  inr, Bool-cases, Option-cases, Bool,
}
use mathlib.Core.Path.{subst}
use ans_sdk_go.Models.Version.{Version, compare, compare_numbers, equal}
use ans_sdk_go.Verify.Config.{AnsBadgeRecord, RecordReply, lookup_error, lookup_record}
use ans_sdk_go.Verify.Errors.{record_not_found}
use ans_sdk_go.Verify.Resolver.{
  has_version, is_versionless, exact_match, versionless_match, choose_for_version,
}

-- A record of a list.
abbrev pub IsOneOf : AnsBadgeRecord → List AnsBadgeRecord → Type 0
IsOneOf r [] = ⊥
IsOneOf r (s ∷ rs) = (s ≡ r) ⊎ IsOneOf r rs

pub no_record : (r : AnsBadgeRecord) → lookup_error record_not_found ≢ lookup_record (some r)
no_record r h = cc

apart : (r : AnsBadgeRecord) → Option.some r ≢ none
apart r h = cc

bool_apart : Bool.true ≢ false
bool_apart h = cc

pub same_record : {r s : AnsBadgeRecord} → Option.some r ≡ some s → r ≡ s
same_record h = cc

abbrev pub record_of : RecordReply → Option AnsBadgeRecord
record_of (lookup_record r) = r
record_of (lookup_error e) = none

-- No record of a list has a version.
abbrev pub IsWithout : Version → List AnsBadgeRecord → Type 0
IsWithout v [] = Unit
IsWithout v (s ∷ rs) = (s.version ≢ some v) × IsWithout v rs

-- What a record says that is chosen for a version: it has the version, or it has none and no record
-- has the version.
abbrev pub Suits : Version → List AnsBadgeRecord → AnsBadgeRecord → Type 0
Suits v rs r = (r.version ≡ some v) ⊎ ((r.version ≡ none) × IsWithout v rs)

equal-same : (w v : Version) → equal w v ≡ true → w ≡ v
unfolding equal compare compare_numbers
equal-same w v h = ground arith

equal_self : (v : Version) → equal v v ≡ true
unfolding equal compare compare_numbers
equal_self v = ground arith

has_version-found : (v : Version) (o : Option Version) → has_version v o ≡ true → o ≡ some v
has_version-found v none h = cc
has_version-found v (some w) h = ap some (equal-same w v h)

has_version-missing : (v : Version) (o : Option Version) → has_version v o ≡ false → o ≢ some v
has_version-missing v o h e = bool_apart (sym (equal_self v) ∙ sym (ap (has_version v) e) ∙ h)

is_versionless-none : (o : Option Version) → is_versionless o ≡ true → o ≡ none
is_versionless-none none h = refl
is_versionless-none (some w) h = cc

exact_match-found :
    (v : Version) (rs : List AnsBadgeRecord) (r : AnsBadgeRecord)
    → exact_match v rs ≡ some r
    → IsOneOf r rs × (r.version ≡ some v)
unfolding exact_match
exact_match-found v [] r h = cc
exact_match-found v (x ∷ rs) r h = elim (Bool-cases (has_version v x.version)) [
  | inl k ↦
      let same = same_record (rw k at h) in
      (inl same, subst (λ s. s.version ≡ some v) same (has_version-found v x.version k))
  | inr k ↦ let ih = exact_match-found v rs r (rw k at h) in (inr ih.0, ih.1)
]

exact_match-none :
    (v : Version) (rs : List AnsBadgeRecord) → exact_match v rs ≡ none → IsWithout v rs
unfolding exact_match
exact_match-none v [] h = tt
exact_match-none v (x ∷ rs) h = elim (Bool-cases (has_version v x.version)) [
  | inl k ↦ absurd (apart x (rw k at h))
  | inr k ↦ (has_version-missing v x.version k, exact_match-none v rs (rw k at h))
]

versionless_match-found :
    (rs : List AnsBadgeRecord) (r : AnsBadgeRecord)
    → versionless_match rs ≡ some r
    → IsOneOf r rs × (r.version ≡ none)
unfolding versionless_match
versionless_match-found [] r h = cc
versionless_match-found (x ∷ rs) r h = elim (Bool-cases (is_versionless x.version)) [
  | inl k ↦
      let same = same_record (rw k at h) in
      (inl same, subst (λ s. s.version ≡ none) same (is_versionless-none x.version k))
  | inr k ↦ let ih = versionless_match-found rs r (rw k at h) in (inr ih.0, ih.1)
]

-- A record that is chosen for a version is one of the records, and it has that version, or it has
-- no version and none of the records has that version.
pub choose_for_version-Suits :
    (v : Version) (rs : List AnsBadgeRecord) (r : AnsBadgeRecord)
    → choose_for_version v rs ≡ lookup_record (some r)
    → IsOneOf r rs × Suits v rs r
unfolding choose_for_version
choose_for_version-Suits v rs r h = elim (Option-cases (exact_match v rs)) [
  | inr (s, k) ↦
      let same : s ≡ r = same_record (ap record_of (rw (k, choose_for_version) at h)) in
      let found = exact_match-found v rs s k in
      subst (λ x. IsOneOf x rs × Suits v rs x) same (found.0, inl found.1)
  | inl k ↦ elim (Option-cases (versionless_match rs)) [
    | inr (s, m) ↦
        let same : s ≡ r = same_record (ap record_of (rw m at (rw (k, choose_for_version) at h))) in
        let found = versionless_match-found rs s m in
        subst (λ x. IsOneOf x rs × Suits v rs x) same
          (found.0, inr (found.1, exact_match-none v rs k))
    | inl m ↦ absurd (no_record r (rw m at (rw (k, choose_for_version) at h)))
  ]
]
