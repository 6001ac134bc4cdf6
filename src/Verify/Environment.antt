-- ===== src/Verify/Environment.antt =====
-- What one call of a verifier depends on besides its arguments, and the lookup steps that both
-- verifiers share.
pub mod Stopped
use ans_sdk_go.Base.{ℕ, if◌then◌else◌, Option, none, some, List, [], ◌∷◌, Bytes}
use ans_sdk_go.Models.Badge.{Badge}
use ans_sdk_go.Models.Fqdn.{Fqdn}
use ans_sdk_go.Models.Version.{Version}
use ans_sdk_go.Verify.BadgeCache.{BadgeCache}
use ans_sdk_go.Verify.Config.{
  VerifierConfig, AnsBadgeRecord, RecordReply, lookup_error, lookup_record, badge_error,
  badge_found, apply_failure_policy, validate_badge_url,
}
use ans_sdk_go.Verify.Errors.{VerifyError, is_record_not_found}
use ans_sdk_go.Verify.Outcome.{
  VerificationOutcome, dns_failed, tlog_failed, failed_outcome, not_ans_agent_outcome,
}
use ans_sdk_go.Verify.UrlValidator.{ParsedUrl}

-- The clock where the cache is first read, where a stale entry is looked for and where the badge is
-- inserted; the order of a range over a map; and library functions.
pub record Environment : Type 0 where
  pub at_start : ℕ
  pub at_failure : ℕ
  pub at_insert : ℕ
  pub pick : List Bytes → List Bytes
  pub url_parse : Bytes → Option ParsedUrl
  pub sha256 : Bytes → Bytes
  pub sha512 : Bytes → Bytes

-- `fetchBadge` returns a badge or an outcome.
pub data Fetched : Type 0 where
  fetched : Badge → Fetched
  stopped : VerificationOutcome → Fetched

-- What becomes of a cached badge that a read finds.
pub data CacheCheck : Type 0 where
  answered : VerificationOutcome → CacheCheck
  go_on : CacheCheck

module _ (env : Environment) (config : VerifierConfig) (cache : Option BadgeCache) (f : Fqdn)
    (v : Option Version) where
  unfoldable pub fetch_from_record : AnsBadgeRecord → Fetched
  fetch_from_record r = elim (validate_badge_url env.url_parse config r.url) [
    | some o ↦ stopped o
    | none ↦ elim (config.fetch_from_log r.url) [
      | badge_error e ↦
          stopped
            (apply_failure_policy env.at_failure config cache f v (failed_outcome tlog_failed e))
      | badge_found b ↦ fetched b
    ]
  ]

  -- The body of both `fetchBadge` methods after the DNS query.
  unfoldable pub fetch_after_lookup : RecordReply → Fetched
  unfolding fetch_from_record
  fetch_after_lookup (lookup_error e) =
      if is_record_not_found e
      then stopped (not_ans_agent_outcome f.value)
      else stopped
          (apply_failure_policy env.at_failure config cache f v (failed_outcome dns_failed e))
  fetch_after_lookup (lookup_record none) = stopped (not_ans_agent_outcome f.value)
  fetch_after_lookup (lookup_record (some r)) = fetch_from_record r
