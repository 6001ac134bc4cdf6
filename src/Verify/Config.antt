-- ===== src/Verify/Config.antt =====
-- verify/options.go and the helpers of verify/verify.go that both verifiers use. The resolvers,
-- the log client and the checks of package scitt are functions that the configuration holds: what
-- they answer during one call of a verifier.
use ans_sdk_go.Base.{ℕ, ◌*◌, bytes_eq, Option, none, some, List, ltb, if◌then◌else◌, Bytes}
use ans_sdk_go.Base.Int.{ℤ, pos, negsuc}
use ans_sdk_go.Models.Badge.{Badge}
use ans_sdk_go.Models.Fqdn.{Fqdn}
use ans_sdk_go.Models.Version.{Version}
use ans_sdk_go.Scitt.Types.{StatusTokenPayload, ScittError}
use ans_sdk_go.Verify.BadgeCache.{
  BadgeCache, CachedBadge, get_stale_by_fqdn, get_stale_by_fqdn_version,
}
use ans_sdk_go.Verify.Cert.{CertIdentity}
use ans_sdk_go.Verify.Dane.{
  TlsaReply, DaneOutcome, DaneOutcomeType, dane_verified, dane_verify, is_reject,
}
use ans_sdk_go.Verify.Errors.{VerifyError, url_refused}
use ans_sdk_go.Verify.Outcome.{
  VerificationOutcome, FailurePolicy, fail_closed, fail_open_with_cache, open_policy, outcome_of,
  fail_open, bad_url, failed_outcome, fail_open_outcome, dane_rejection_outcome,
}
use ans_sdk_go.Verify.UrlValidator.{UrlValidator, ParsedUrl, new_url_validator, validate}

pub data BadgeRecordSource : Type 0 where
  ans_badge ra_badge : BadgeRecordSource

pub record AnsBadgeRecord : Type 0 where
  pub format_version : Bytes
  pub version : Option Version
  pub url : Bytes
  pub source : BadgeRecordSource

-- A resolver's answer: an error, or a record that may be nil.
pub data RecordReply : Type 0 where
  lookup_error : VerifyError → RecordReply
  lookup_record : Option AnsBadgeRecord → RecordReply

pub data BadgeReply : Type 0 where
  badge_error : VerifyError → BadgeReply
  badge_found : Badge → BadgeReply

pub data TokenReply : Type 0 where
  token_error : ScittError → TokenReply
  token_ok : StatusTokenPayload → TokenReply

-- VerifyReceipt and VerifyStatusToken with the keys of a lookup.
pub record ScittCheck : Type 0 where
  pub verify_receipt : Bytes → Option ScittError
  pub verify_status_token : Bytes → ℕ → TokenReply

-- The cache is not a field: the verifiers thread its state, `none` for a nil pointer.
pub record VerifierConfig : Type 0 where
  pub find_preferred_badge : Fqdn → RecordReply
  pub find_badge_for_version : Fqdn → Version → RecordReply
  pub fetch_from_log : Bytes → BadgeReply
  pub failure_policy : FailurePolicy
  pub max_staleness : ℕ
  pub url_validator : Option UrlValidator
  pub lookup_tlsa : Option (Fqdn → ℕ → TlsaReply)
  pub scitt_key_lookup : Option ScittCheck
  pub clock_skew_tolerance : ℕ

abbrev pub max_skew : ℕ
max_skew = 600 * 1000000000

unfoldable pub with_clock_skew_tolerance : ℤ → VerifierConfig → VerifierConfig
with_clock_skew_tolerance (negsuc n) c = record c { clock_skew_tolerance = 0 }
with_clock_skew_tolerance (pos d) c = record c {
  clock_skew_tolerance = if ltb max_skew d then max_skew else d;
}

unfoldable pub with_failure_policy : FailurePolicy → VerifierConfig → VerifierConfig
with_failure_policy p c = record c { failure_policy = p }

unfoldable pub with_trusted_ra_domains : List Bytes → VerifierConfig → VerifierConfig
with_trusted_ra_domains domains c = record c { url_validator = some (new_url_validator domains) }

unfoldable pub without_url_validation : VerifierConfig → VerifierConfig
without_url_validation c = record c { url_validator = none }

abbrev pub stale_outcome : Option CachedBadge → VerificationOutcome → VerificationOutcome
stale_outcome none e = e
stale_outcome (some c) e = record (outcome_of fail_open) { badge = some c.badge }

unfoldable pub apply_fail_open_with_cache :
    (now max_staleness : ℕ)
    → Option BadgeCache
    → Fqdn
    → Option Version
    → VerificationOutcome
    → VerificationOutcome
apply_fail_open_with_cache now max_staleness none f v e = e
apply_fail_open_with_cache now max_staleness (some c) f (some v) e =
    stale_outcome (get_stale_by_fqdn_version now f v max_staleness c) e
apply_fail_open_with_cache now max_staleness (some c) f none e =
    stale_outcome (get_stale_by_fqdn now f max_staleness c) e

-- The switch on the policy.
unfoldable pub apply_policy :
    FailurePolicy
    → (now max_staleness : ℕ) → Option BadgeCache
    → Fqdn
    → Option Version
    → VerificationOutcome
    → VerificationOutcome
unfolding apply_fail_open_with_cache
apply_policy fail_closed now max_staleness cache f v e = e
apply_policy fail_open_with_cache now max_staleness cache f v e =
    apply_fail_open_with_cache now max_staleness cache f v e
apply_policy open_policy now max_staleness cache f v e = fail_open_outcome e.error

unfoldable pub apply_failure_policy :
    (now : ℕ)
    → VerifierConfig
    → Option BadgeCache
    → Fqdn
    → Option Version
    → VerificationOutcome
    → VerificationOutcome
unfolding apply_policy
apply_failure_policy now config cache f v e =
    apply_policy config.failure_policy now config.max_staleness cache f v e

-- `none` where the result is nil.
unfoldable pub validate_badge_url :
    (url_parse : Bytes → Option ParsedUrl) → VerifierConfig → Bytes → Option VerificationOutcome
validate_badge_url url_parse config url = elim config.url_validator [
  | none ↦ none
  | some v ↦ elim (validate url_parse v url) [
    | none ↦ none
    | some e ↦ some (failed_outcome bad_url (url_refused e))
  ]
]

abbrev pub default_dane_port : ℕ
default_dane_port = 443

abbrev pub note_dane : DaneOutcome → DaneOutcomeType → VerificationOutcome → VerificationOutcome
note_dane d dane_verified o = record o { dane_outcome = some d }
note_dane d t o = o

abbrev pub judge_dane : DaneOutcome → DaneOutcomeType → VerificationOutcome → VerificationOutcome
judge_dane d t o = if is_reject t then dane_rejection_outcome o.badge d else note_dane d t o

-- `verifyDANE` followed by its callers' return: the rejection, or the outcome with what DANE found.
unfoldable pub verify_dane :
    (sha256 sha512 : Bytes → Bytes)
    → VerifierConfig
    → Fqdn
    → CertIdentity
    → VerificationOutcome
    → VerificationOutcome
verify_dane sha256 sha512 config f cert o = elim config.lookup_tlsa [
  | none ↦ o
  | some lookup_tlsa ↦
      let d = dane_verify sha256 sha512 lookup_tlsa f default_dane_port (some cert) in
      judge_dane d d.dane_type o
]
