-- ===== src/Verify/Server.antt =====
-- ServerVerifier of verify/verify.go.
pub mod Accepted
pub mod Safety
pub mod FailClosed
use ans_sdk_go.Base.{
  ℕ, ◌==◌, bytes_eq, Bool, true, false, Option, none, some, List, [], ◌∷◌, not, ◌&&◌, if◌then◌else◌,
  Bytes, codes,
}
use ans_sdk_go.Base.Text.{equal_fold}
use ans_sdk_go.Models.Badge.{
  Badge, BadgeStatus, deprecated, is_valid_for_connection, server_cert_fingerprint, agent_host,
}
use ans_sdk_go.Models.Fqdn.{Fqdn}
use ans_sdk_go.Scitt.Types.{Headers, is_empty, has_both}
use ans_sdk_go.Verify.BadgeCache.{BadgeCache, CachedBadge, get_by_fqdn, insert_badge}
use ans_sdk_go.Verify.Cert.{CertIdentity, matches, cert_fqdn, fingerprint_string}
use ans_sdk_go.Verify.Config.{VerifierConfig, verify_dane}
use ans_sdk_go.Verify.Environment.{
  Environment, Fetched, fetched, stopped, CacheCheck, answered, go_on, fetch_after_lookup,
}
use ans_sdk_go.Verify.Errors.{VerifyError, headers_missing}
use ans_sdk_go.Verify.Outcome.{
  VerificationOutcome, OutcomeType, bad_fingerprint, bad_hostname, verified_outcome,
  invalid_status_outcome, mismatch_outcome, is_success, to_error,
}
use ans_sdk_go.Verify.ScittPath.{Result, role_server, scitt_outcome, verify_with_headers}

abbrev pub deprecation : BadgeStatus → List Bytes
deprecation deprecated = codes "badge status is DEPRECATED" ∷ []
deprecation s = []

-- The result where every comparison passes.
unfoldable pub accept : Badge → CertIdentity → VerificationOutcome
accept b cert = record (verified_outcome b cert.fingerprint) { warnings = deprecation b.status }

-- Whether the certificate has a name and it is not the badge's host, with that name.
unfoldable pub check_cert_host : Badge → CertIdentity → VerificationOutcome
unfolding accept
check_cert_host b cert = elim (cert_fqdn cert) [
  | none ↦ accept b cert
  | some name ↦
      if not (equal_fold name (agent_host b))
      then mismatch_outcome bad_hostname b (agent_host b) name
      else accept b cert
]

unfoldable pub verify_with_badge : Badge → CertIdentity → Fqdn → VerificationOutcome
unfolding check_cert_host
verify_with_badge b cert f =
    if not (is_valid_for_connection b.status)
    then invalid_status_outcome b b.status
    else if not (matches cert.fingerprint (server_cert_fingerprint b))
    then mismatch_outcome bad_fingerprint b (server_cert_fingerprint b)
        (fingerprint_string cert.fingerprint)
    else if not (equal_fold (agent_host b) f.value)
    then mismatch_outcome bad_hostname b f.value (agent_host b)
    else check_cert_host b cert

unfoldable pub is_fingerprint_mismatch : OutcomeType → Bool
is_fingerprint_mismatch bad_fingerprint = true
is_fingerprint_mismatch t = false

abbrev pub unless_fingerprint : OutcomeType → VerificationOutcome → CacheCheck
unless_fingerprint t o = if is_fingerprint_mismatch t then go_on else answered o

module _ (env : Environment) (config : VerifierConfig) where
  unfoldable pub fetch_badge : Option BadgeCache → Fqdn → Fetched
  unfolding fetch_after_lookup
  fetch_badge cache f = fetch_after_lookup env config cache f none (config.find_preferred_badge f)

  unfoldable pub cached_badge : Option BadgeCache → Fqdn → Option CachedBadge
  cached_badge none f = none
  cached_badge (some c) f = get_by_fqdn env.at_start f c

  -- The read of the cache: a fingerprint mismatch does not end the verification.
  unfoldable pub check_cache : Option BadgeCache → Fqdn → CertIdentity → CacheCheck
  unfolding cached_badge
  check_cache cache f cert = elim (cached_badge cache f) [
    | none ↦ go_on
    | some hit ↦ let o = verify_with_badge hit.badge cert f in unless_fingerprint o.outcome_type o
  ]

  abbrev pub store : Option BadgeCache → Fqdn → Badge → Option BadgeCache
  store none f b = none
  store (some c) f b = some (insert_badge env.pick env.at_insert f b c)

  unfoldable pub verify_fresh : Option BadgeCache → Fqdn → CertIdentity → Badge → Result
  verify_fresh cache f cert b =
      let o = verify_with_badge b cert f in
      (
        (if not (is_success o.outcome_type)
            then o
            else verify_dane env.sha256 env.sha512 config f cert o),
        store cache f b,
      )

  unfoldable pub verify : Option BadgeCache → Fqdn → CertIdentity → Result
  unfolding check_cache fetch_badge verify_fresh
  verify cache f cert = elim (check_cache cache f cert) [
    | answered o ↦ (o, cache)
    | go_on ↦ elim (fetch_badge cache f) [
      | stopped o ↦ (o, cache)
      | fetched b ↦ verify_fresh cache f cert b
    ]
  ]

  -- The badge, which is nil after an outcome, the error, and the cache.
  unfoldable pub prefetch :
      Option BadgeCache → Fqdn → (Option Badge × Option VerifyError) × Option BadgeCache
  unfolding cached_badge fetch_badge
  prefetch cache f = elim (cached_badge cache f) [
    | some hit ↦ ((some hit.badge, none), cache)
    | none ↦ elim (fetch_badge cache f) [
      | stopped o ↦ ((none, to_error o), cache)
      | fetched b ↦ ((some b, none), store cache f b)
    ]
  ]

  unfoldable pub verify_with_scitt :
      Option BadgeCache → Fqdn → CertIdentity → Option Headers → Result
  unfolding verify
  verify_with_scitt cache f cert none = verify cache f cert
  verify_with_scitt cache f cert (some headers) =
      let fallback = verify cache f cert in
      if is_empty headers
      then fallback
      else if not (has_both headers)
      then (scitt_outcome headers_missing, cache)
      else verify_with_headers env.sha256 env.sha512 config f cert headers role_server cache
          fallback
