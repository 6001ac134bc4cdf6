-- ===== src/Verify/Client.antt =====
-- ClientVerifier of verify/verify.go.
pub mod Safety
use ans_sdk_go.Base.{
  ℕ, ◌==◌, bytes_eq, Bool, true, false, Option, none, some, List, [], ◌∷◌, not, ◌&&◌, if◌then◌else◌,
  Bytes,
}
use ans_sdk_go.Base.Text.{equal_fold}
use ans_sdk_go.Models.Badge.{
  Badge, is_valid_for_connection, identity_cert_fingerprint, agent_host, agent_name,
}
use ans_sdk_go.Models.Fqdn.{Fqdn, ok, err, new_fqdn}
use ans_sdk_go.Models.Version.{Version}
use ans_sdk_go.Scitt.Types.{Headers, is_empty, has_both}
use ans_sdk_go.Verify.BadgeCache.{BadgeCache, CachedBadge, get_by_fqdn_version, insert_for_version}
use ans_sdk_go.Verify.Cert.{
  CertIdentity, AnsName, matches, cert_fqdn, cert_ans_name, fingerprint_string,
}
use ans_sdk_go.Verify.Config.{VerifierConfig, verify_dane}
use ans_sdk_go.Verify.Environment.{Environment, Fetched, fetched, stopped, fetch_after_lookup}
use ans_sdk_go.Verify.Errors.{bad_fqdn, no_cn, no_uri_san, headers_missing}
use ans_sdk_go.Verify.Outcome.{
  VerificationOutcome, bad_fingerprint, bad_hostname, bad_ans_name, cert_failed, failed_outcome,
  invalid_status_outcome, mismatch_outcome, is_success,
}
use ans_sdk_go.Verify.ScittPath.{Result, role_identity, scitt_outcome, verify_with_headers}
use ans_sdk_go.Verify.Server.{accept}

unfoldable pub verify_with_badge : Badge → CertIdentity → Fqdn → AnsName → VerificationOutcome
verify_with_badge b cert f name =
    if not (is_valid_for_connection b.status)
    then invalid_status_outcome b b.status
    else if not (matches cert.fingerprint (identity_cert_fingerprint b))
    then mismatch_outcome bad_fingerprint b (identity_cert_fingerprint b)
        (fingerprint_string cert.fingerprint)
    else if not (equal_fold (agent_host b) f.value)
    then mismatch_outcome bad_hostname b f.value (agent_host b)
    else if not (equal_fold (agent_name b) name.raw)
    then mismatch_outcome bad_ans_name b (agent_name b) name.raw
    else accept b cert

module _ (env : Environment) (config : VerifierConfig) where
  unfoldable pub fetch_badge : Option BadgeCache → Fqdn → Version → Fetched
  unfolding fetch_after_lookup
  fetch_badge cache f v =
      fetch_after_lookup env config cache f (some v) (config.find_badge_for_version f v)

  unfoldable pub cached_badge : Option BadgeCache → Fqdn → Version → Option CachedBadge
  cached_badge none f v = none
  cached_badge (some c) f v = get_by_fqdn_version env.at_start f v c

  abbrev pub store : Option BadgeCache → Fqdn → Version → Badge → Option BadgeCache
  store none f v b = none
  store (some c) f v b = some (insert_for_version env.pick env.at_insert f v b c)

  unfoldable pub verify_fresh : Option BadgeCache → Fqdn → CertIdentity → AnsName → Badge → Result
  verify_fresh cache f cert name b =
      let o = verify_with_badge b cert f name in
      (
        (if not (is_success o.outcome_type)
            then o
            else verify_dane env.sha256 env.sha512 config f cert o),
        store cache f name.version b,
      )

  -- From step 4 of `Verify` on.
  unfoldable pub verify_named : Option BadgeCache → Fqdn → CertIdentity → AnsName → Result
  unfolding cached_badge fetch_badge verify_fresh
  verify_named cache f cert name = elim (cached_badge cache f name.version) [
    | some hit ↦ (verify_with_badge hit.badge cert f name, cache)
    | none ↦ elim (fetch_badge cache f name.version) [
      | stopped o ↦ (o, cache)
      | fetched b ↦ verify_fresh cache f cert name b
    ]
  ]

  unfoldable pub verify : Option BadgeCache → CertIdentity → Result
  unfolding verify_named
  verify cache cert = elim (cert_fqdn cert) [
    | none ↦ (failed_outcome cert_failed no_cn, cache)
    | some s ↦ elim (new_fqdn s) [
      | err e ↦ (failed_outcome cert_failed (bad_fqdn e), cache)
      | ok f ↦ elim (cert_ans_name cert) [
        | none ↦ (failed_outcome cert_failed no_uri_san, cache)
        | some name ↦ verify_named cache f cert name
      ]
    ]
  ]

  -- `VerifyWithScitt` with both headers.
  unfoldable pub verify_both : Option BadgeCache → CertIdentity → Headers → Result
  unfolding verify
  verify_both cache cert headers = elim (cert_fqdn cert) [
    | none ↦ (failed_outcome cert_failed no_cn, cache)
    | some s ↦ elim (new_fqdn s) [
      | err e ↦ (failed_outcome cert_failed (bad_fqdn e), cache)
      | ok f ↦ elim (cert_ans_name cert) [
        | none ↦ (failed_outcome cert_failed no_uri_san, cache)
        | some name ↦
            verify_with_headers env.sha256 env.sha512 config f cert headers role_identity cache
              (verify cache cert)
      ]
    ]
  ]

  unfoldable pub verify_with_scitt : Option BadgeCache → CertIdentity → Option Headers → Result
  unfolding verify_both
  verify_with_scitt cache cert none = verify cache cert
  verify_with_scitt cache cert (some headers) =
      if is_empty headers
      then verify cache cert
      else if not (has_both headers)
      then (scitt_outcome headers_missing, cache)
      else verify_both cache cert headers
