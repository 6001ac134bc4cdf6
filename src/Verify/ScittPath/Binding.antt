-- ===== src/Verify/ScittPath/Binding.antt =====
-- What the SCITT path has checked when it verifies a certificate.
use ans_sdk_go.Base.{
  ◌≡◌, ◌≢◌, ◌⊎◌, refl, ◌∙◌, true, Option, none, some, arith, Bytes, Bool-cases, Option-cases, inl,
  inr,
}
use ans_sdk_go.Base.Text.{equal_fold}
use ans_sdk_go.Models.Fqdn.{Fqdn}
use ans_sdk_go.Scitt.Types.{
  StatusTokenPayload, ScittError, Headers, allows_connection, should_fallback_to_badge,
}
use ans_sdk_go.Scitt.Types.Listed.{
  IsEntryOf, IsConnecting, allows_connection-IsConnecting, matches_server_cert-IsEntryOf,
  matches_identity_cert-IsEntryOf,
}
use ans_sdk_go.Verify.BadgeCache.{BadgeCache}
use ans_sdk_go.Verify.Cert.{CertIdentity, AnsName, AnsNameResult, named, not_named, parse_ans_name}
use ans_sdk_go.Verify.Config.{
  VerifierConfig, ScittCheck, TokenReply, token_error, token_ok, verify_dane,
}
use ans_sdk_go.Verify.Environment.Stopped.{DanePasses, verify_dane-verified}
use ans_sdk_go.Verify.Outcome.{OutcomeType, verified, failed_outcome, outcome_of}
use ans_sdk_go.Verify.ScittPath.{
  CertRole, role_server, role_identity, Result, matches_role, failed_check, bind_host,
  check_payload, check_artifacts, verify_with_headers, full_scitt_outcome,
}

apart : OutcomeType.scitt_failed ≢ OutcomeType.verified
apart h = cc

-- The token's list for a role, of servers or of clients, has the fingerprint.
abbrev pub IsListed : CertRole → StatusTokenPayload → Bytes → Type 0
IsListed role_server payload f = IsEntryOf f payload.valid_server_certs
IsListed role_identity payload f = IsEntryOf f payload.valid_identity_certs

matches_role-IsListed :
    (role : CertRole) (payload : StatusTokenPayload) (f : Bytes)
    → matches_role role payload f ≡ true
    → IsListed role payload f
unfolding matches_role
matches_role-IsListed role_server payload f h = matches_server_cert-IsEntryOf payload f h
matches_role-IsListed role_identity payload f h = matches_identity_cert-IsEntryOf payload f h

module _ (sha256 sha512 : Bytes → Bytes) (config : VerifierConfig) (f : Fqdn)
    (cert : CertIdentity) where
  -- The token's status connects, it has the certificate in the list of the role, and the host that is asked for.
  pub record IsBound (role : CertRole) (payload : StatusTokenPayload) : Type 0 where
    pub connects : IsConnecting payload.status
    pub listed : IsListed role payload cert.fingerprint.bytes
    pub names_host :
        (name : AnsName) × (parse_ans_name payload.ans_name ≡ named name)
        × (equal_fold name.host f.value ≡ true)
    pub dane : DanePasses sha256 sha512 config f cert

  bind_host-verified :
      (payload : StatusTokenPayload) (name : AnsName)
      → (bind_host sha256 sha512 config f cert payload name).outcome_type ≡ verified
      → (equal_fold name.host f.value ≡ true) × DanePasses sha256 sha512 config f cert
  unfolding bind_host failed_outcome outcome_of
  bind_host-verified payload name h = elim (Bool-cases (equal_fold name.host f.value)) [
    | inl same ↦
        let d =
          verify_dane-verified sha256 sha512 config f cert (full_scitt_outcome cert payload.status)
            (rw same at h) in
        (same, d.2)
    | inr other ↦ absurd (apart (rw other at h))
  ]

  parsed_name :
      (role : CertRole) (payload : StatusTokenPayload)
      → allows_connection payload.status ≡ true
      → matches_role role payload cert.fingerprint.bytes ≡ true
      → (r : AnsNameResult) → parse_ans_name payload.ans_name ≡ r
      → (check_payload sha256 sha512 config f cert role payload).outcome_type ≡ verified
      → IsBound role payload
  unfolding check_payload failed_outcome outcome_of
  parsed_name role payload c m (not_named e) k h = absurd (apart (rw k at (rw (c, m) at h)))
  parsed_name role payload c m (named name) k h =
      let b = bind_host-verified payload name (rw k at (rw (c, m) at h)) in
      record {
        connects = allows_connection-IsConnecting payload.status c;
        listed = matches_role-IsListed role payload cert.fingerprint.bytes m;
        names_host = (name, k, b.0);
        dane = b.1;
      }

  check_payload-verified :
      (role : CertRole) (payload : StatusTokenPayload)
      → (check_payload sha256 sha512 config f cert role payload).outcome_type ≡ verified
      → IsBound role payload
  unfolding check_payload failed_outcome outcome_of
  check_payload-verified role payload h =
      let c : allows_connection payload.status ≡ true = ground arith in
      let m : matches_role role payload cert.fingerprint.bytes ≡ true = ground arith in
      parsed_name role payload c m (parse_ans_name payload.ans_name) refl h

  -- The checks of both artifacts, with keys, and what the token that they accept says.
  abbrev pub IsAttested : Headers → CertRole → Type 0
  IsAttested headers role =
      (keys : ScittCheck) × (payload : StatusTokenPayload) × (config.scitt_key_lookup ≡ some keys)
      × (keys.verify_receipt headers.receipt ≡ none)
      × (keys.verify_status_token headers.status_token config.clock_skew_tolerance
          ≡ token_ok payload)
      × IsBound role payload

  failed_check-verified :
      (e : ScittError) (cache : Option BadgeCache) (fallback : Result)
      → (failed_check e cache fallback).0.outcome_type ≡ verified
      → failed_check e cache fallback ≡ fallback
  unfolding failed_check failed_outcome outcome_of should_fallback_to_badge
  failed_check-verified e cache fallback h = ground arith

  token-IsAttested :
      (keys : ScittCheck) (headers : Headers) (role : CertRole) (cache : Option BadgeCache)
      (fallback : Result)
      → config.scitt_key_lookup ≡ some keys
      → keys.verify_receipt headers.receipt ≡ none
      → (t : TokenReply)
      → keys.verify_status_token headers.status_token config.clock_skew_tolerance ≡ t
      → (check_artifacts sha256 sha512 config f cert keys headers role cache
          fallback).0.outcome_type
        ≡ verified
      → (check_artifacts sha256 sha512 config f cert keys headers role cache fallback ≡ fallback)
        ⊎ IsAttested headers role
  unfolding check_artifacts
  token-IsAttested keys headers role cache fallback e r (token_error x) k h = inl (
      rw (r, check_artifacts)
        (rw k (failed_check-verified x cache fallback (rw k at (rw (r, check_artifacts) at h)))))
  token-IsAttested keys headers role cache fallback e r (token_ok payload) k h = inr (
    keys,
    payload,
    e,
    r,
    k,
    check_payload-verified role payload (rw k at (rw (r, check_artifacts) at h)),
  )

  artifacts-IsAttested :
      (keys : ScittCheck) (headers : Headers) (role : CertRole) (cache : Option BadgeCache)
      (fallback : Result)
      → config.scitt_key_lookup ≡ some keys
      → (check_artifacts sha256 sha512 config f cert keys headers role cache
          fallback).0.outcome_type
        ≡ verified
      → (check_artifacts sha256 sha512 config f cert keys headers role cache fallback ≡ fallback)
        ⊎ IsAttested headers role
  unfolding check_artifacts
  artifacts-IsAttested keys headers role cache fallback e h =
      elim (Option-cases (keys.verify_receipt headers.receipt)) [
        | inl fine ↦ token-IsAttested keys headers role cache fallback e fine _ refl h
        | inr (x, bad) ↦ inl (
            rw (bad, check_artifacts)
              (failed_check-verified x cache fallback (rw (bad, check_artifacts) at h)))
      ]

  -- The SCITT path verifies a certificate only with the result of the badge path, which it falls
  -- back to, or if the receipt and the token were accepted with the configured keys, the token's
  -- status allows connections, the token lists the certificate's fingerprint for the role, and the
  -- host of the token's name is the name asked for; and then DANE, where configured, did not reject.
  pub verify_with_headers-verified :
      (headers : Headers) (role : CertRole) (cache : Option BadgeCache) (fallback : Result)
      → (verify_with_headers sha256 sha512 config f cert headers role cache fallback).0.outcome_type
        ≡ verified
      → (verify_with_headers sha256 sha512 config f cert headers role cache fallback ≡ fallback)
        ⊎ IsAttested headers role
  unfolding verify_with_headers failed_outcome outcome_of verify_dane
  verify_with_headers-verified headers role cache fallback h =
      elim (Option-cases config.scitt_key_lookup) [
        | inl missing ↦ absurd (apart (rw (missing, verify_with_headers) at h))
        | inr (keys, e) ↦
            let same : verify_with_headers sha256 sha512 config f cert headers role cache fallback
                ≡ check_artifacts sha256 sha512 config f cert keys headers role cache fallback =
              rw (e, verify_with_headers) refl in
            elim (artifacts-IsAttested keys headers role cache fallback e
              (rw (e, verify_with_headers) at h)) [ inl p ↦ inl (same ∙ p) | inr q ↦ inr q ]
      ]
