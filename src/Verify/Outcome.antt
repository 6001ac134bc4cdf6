-- ===== src/Verify/Outcome.antt =====
-- verify/outcome.go and verify/policy.go.
use ans_sdk_go.Base.{
  ◌==◌, bytes_eq, Bool, true, false, Option, none, some, List, [], if◌then◌else◌, Bytes, codes,
}
use ans_sdk_go.Models.Badge.{Badge, BadgeStatus}
use ans_sdk_go.Verify.Cert.{CertFingerprint}
use ans_sdk_go.Verify.Dane.{DaneOutcome}
use ans_sdk_go.Verify.Errors.{
  VerifyError, dns_not_found, invalid_status, fingerprint_mismatch, hostname_mismatch,
  ans_name_mismatch,
}

pub data OutcomeType : Type 0 where
  verified not_ans_agent bad_status bad_fingerprint bad_hostname bad_ans_name dns_failed :
      OutcomeType
  tlog_failed cert_failed fail_open bad_url dane_rejected scitt_failed : OutcomeType

pub data VerificationTier : Type 0 where
  badge_only full_scitt : VerificationTier

pub record VerificationOutcome : Type 0 where
  pub outcome_type : OutcomeType
  pub tier : VerificationTier
  pub badge : Option Badge
  pub matched_fingerprint : Option CertFingerprint
  pub expected : Bytes
  pub actual : Bytes
  pub status : Option BadgeStatus
  pub host : Bytes
  pub error : Option VerifyError
  pub warnings : List Bytes
  pub dane_outcome : Option DaneOutcome

-- A literal with the type alone: every other field has its zero value.
unfoldable pub outcome_of : OutcomeType → VerificationOutcome
outcome_of t = record {
  outcome_type = t;
  tier = badge_only;
  badge = none;
  matched_fingerprint = none;
  expected = [];
  actual = [];
  status = none;
  host = [];
  error = none;
  warnings = [];
  dane_outcome = none;
}

unfoldable pub verified_outcome : Badge → CertFingerprint → VerificationOutcome
unfolding outcome_of
verified_outcome b f = record (outcome_of verified) { badge = some b; matched_fingerprint = some f }

unfoldable pub not_ans_agent_outcome : Bytes → VerificationOutcome
unfolding outcome_of
not_ans_agent_outcome host = record (outcome_of not_ans_agent) { host = host }

unfoldable pub invalid_status_outcome : Badge → BadgeStatus → VerificationOutcome
unfolding outcome_of
invalid_status_outcome b s = record (outcome_of bad_status) { badge = some b; status = some s }

-- The three outcomes of a comparison that fails.
unfoldable pub mismatch_outcome : OutcomeType → Badge → Bytes → Bytes → VerificationOutcome
unfolding outcome_of
mismatch_outcome t b expected actual = record (outcome_of t) {
  badge = some b;
  expected = expected;
  actual = actual;
}

-- The outcomes that hold an error alone.
unfoldable pub failed_outcome : OutcomeType → VerifyError → VerificationOutcome
unfolding outcome_of
failed_outcome t e = record (outcome_of t) { error = some e }

unfoldable pub fail_open_outcome : Option VerifyError → VerificationOutcome
unfolding outcome_of
fail_open_outcome e = record (outcome_of fail_open) { error = e }

unfoldable pub dane_rejection_outcome : Option Badge → DaneOutcome → VerificationOutcome
unfolding outcome_of
dane_rejection_outcome b d = record (outcome_of dane_rejected) {
  badge = b;
  error = d.error;
  dane_outcome = some d;
}

unfoldable pub is_success : OutcomeType → Bool
is_success verified = true
is_success fail_open = true
is_success t = false

unfoldable pub is_fail_open : OutcomeType → Bool
is_fail_open fail_open = true
is_fail_open t = false

unfoldable pub is_not_ans_agent : OutcomeType → Bool
is_not_ans_agent not_ans_agent = true
is_not_ans_agent t = false

-- The text of a status, which is the string itself.
abbrev pub status_text : Option BadgeStatus → Bytes
status_text none = []
status_text (some BadgeStatus.active) = codes "ACTIVE"
status_text (some BadgeStatus.warning) = codes "WARNING"
status_text (some BadgeStatus.deprecated) = codes "DEPRECATED"
status_text (some BadgeStatus.expired) = codes "EXPIRED"
status_text (some BadgeStatus.revoked) = codes "REVOKED"
status_text (some (BadgeStatus.unknown s)) = s

abbrev pub missing_agent_error : Option VerifyError → Bytes → Option VerifyError
missing_agent_error (some e) host = some e
missing_agent_error none host = some (dns_not_found (if host == [] then codes "unknown" else host))

abbrev pub error_of_type : OutcomeType → VerificationOutcome → Option VerifyError
error_of_type verified o = none
error_of_type fail_open o = none
error_of_type not_ans_agent o = missing_agent_error o.error o.host
error_of_type bad_status o = some (invalid_status (status_text o.status))
error_of_type bad_fingerprint o = some (fingerprint_mismatch o.expected o.actual)
error_of_type bad_hostname o = some (hostname_mismatch o.expected o.actual)
error_of_type bad_ans_name o = some (ans_name_mismatch o.expected o.actual)
error_of_type t o = o.error

unfoldable pub to_error : VerificationOutcome → Option VerifyError
to_error o = error_of_type o.outcome_type o

pub data FailurePolicy : Type 0 where
  fail_closed fail_open_with_cache open_policy : FailurePolicy
