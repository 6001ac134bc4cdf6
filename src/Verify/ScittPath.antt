-- ===== src/Verify/ScittPath.antt =====
-- verifyWithHeaders of verify/verify.go.
pub mod Binding
pub mod Attested
use ans_sdk_go.Base.{
  ℕ, ◌==◌, bytes_eq, Bool, true, false, Option, none, some, List, [], ◌∷◌, not, if◌then◌else◌,
  Bytes, codes,
}
use ans_sdk_go.Base.Text.{equal_fold}
use ans_sdk_go.Models.Fqdn.{Fqdn}
use ans_sdk_go.Scitt.Types.{
  AgentStatus, StatusTokenPayload, ScittError, transport, rejected, Headers,
  should_fallback_to_badge, allows_connection, matches_server_cert, matches_identity_cert,
  deprecated,
}
use ans_sdk_go.Verify.BadgeCache.{BadgeCache}
use ans_sdk_go.Verify.Cert.{CertIdentity, AnsName, named, not_named, parse_ans_name}
use ans_sdk_go.Verify.Config.{
  VerifierConfig, ScittCheck, TokenReply, token_error, token_ok, verify_dane,
}
use ans_sdk_go.Verify.Errors.{
  VerifyError, scitt_error, no_key_lookup, status_not_allowed, fingerprint_not_listed,
  token_name_invalid, token_host_mismatch,
}
use ans_sdk_go.Verify.Outcome.{
  VerificationOutcome, outcome_of, verified, full_scitt, scitt_failed, failed_outcome,
}

pub data CertRole : Type 0 where
  role_server role_identity : CertRole

-- What a verifier returns, with the state it leaves the cache in.
abbrev pub Result : Type 0
Result = VerificationOutcome × Option BadgeCache

abbrev pub scitt_outcome : VerifyError → VerificationOutcome
scitt_outcome e = failed_outcome scitt_failed e

unfoldable pub matches_role : CertRole → StatusTokenPayload → Bytes → Bool
matches_role role_server payload f = matches_server_cert payload f
matches_role role_identity payload f = matches_identity_cert payload f

abbrev pub deprecation_warning : AgentStatus → List Bytes
deprecation_warning deprecated = codes "agent status is DEPRECATED" ∷ []
deprecation_warning s = []

abbrev pub full_scitt_outcome : CertIdentity → AgentStatus → VerificationOutcome
full_scitt_outcome cert s = record (outcome_of verified) {
  tier = full_scitt;
  matched_fingerprint = some cert.fingerprint;
  warnings = deprecation_warning s;
}

-- An error of the receipt or the token: the badge path for some transport errors, else final.
unfoldable pub failed_check : ScittError → Option BadgeCache → (badge_fallback : Result) → Result
failed_check (transport t) cache badge_fallback =
    if should_fallback_to_badge t
    then badge_fallback
    else (scitt_outcome (scitt_error (transport t)), cache)
failed_check (rejected s) cache badge_fallback = (scitt_outcome (scitt_error (rejected s)), cache)

module _ (sha256 sha512 : Bytes → Bytes) (config : VerifierConfig) (f : Fqdn)
    (cert : CertIdentity) where
  -- The end of the function, with the parsed name of the token.
  unfoldable pub bind_host : StatusTokenPayload → AnsName → VerificationOutcome
  bind_host payload name =
      if not (equal_fold name.host f.value)
      then scitt_outcome (token_host_mismatch name.host f.value)
      else verify_dane sha256 sha512 config f cert (full_scitt_outcome cert payload.status)

  -- What follows the checks of the receipt and the token.
  unfoldable pub check_payload : CertRole → StatusTokenPayload → VerificationOutcome
  unfolding bind_host
  check_payload role payload =
      if not (allows_connection payload.status)
      then scitt_outcome (status_not_allowed payload.status)
      else if not (matches_role role payload cert.fingerprint.bytes)
      then scitt_outcome fingerprint_not_listed
      else elim (parse_ans_name payload.ans_name) [
        | not_named e ↦ scitt_outcome (token_name_invalid e)
        | named name ↦ bind_host payload name
      ]

  unfoldable pub check_artifacts :
      ScittCheck → Headers → CertRole → Option BadgeCache → (badge_fallback : Result) → Result
  unfolding failed_check check_payload
  check_artifacts keys headers role cache badge_fallback =
      elim (keys.verify_receipt headers.receipt) [
        | some e ↦ failed_check e cache badge_fallback
        | none ↦ elim (keys.verify_status_token headers.status_token config.clock_skew_tolerance) [
          | token_error e ↦ failed_check e cache badge_fallback
          | token_ok payload ↦ (check_payload role payload, cache)
        ]
      ]

  unfoldable pub verify_with_headers :
      Headers → CertRole → Option BadgeCache → (badge_fallback : Result) → Result
  unfolding check_artifacts
  verify_with_headers headers role cache badge_fallback = elim config.scitt_key_lookup [
    | none ↦ (scitt_outcome no_key_lookup, cache)
    | some keys ↦ check_artifacts keys headers role cache badge_fallback
  ]
