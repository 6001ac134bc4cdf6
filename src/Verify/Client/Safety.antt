-- ===== src/Verify/Client/Safety.antt =====
-- What a verified client has shown.
use ans_sdk_go.Base.{
  ◌≡◌, ◌≢◌, ◌↔◌, ◌⊎◌, refl, sym, ap, ◌∙◌, true, false, Option, none, some, arith, Bool-cases,
  Option-cases, inl, inr, Bytes,
}
use ans_sdk_go.Base.Text.{equal_fold}
use ans_sdk_go.Models.Badge.{Badge, identity_cert_fingerprint, agent_host, agent_name}
use ans_sdk_go.Models.Badge.Connecting.{IsConnecting, is_valid_for_connection_iff}
use ans_sdk_go.Models.Fqdn.{Fqdn, Parsed, ok, err, new_fqdn}
use ans_sdk_go.Verify.BadgeCache.{BadgeCache, CachedBadge}
use ans_sdk_go.Verify.Cert.{CertIdentity, AnsName, matches, cert_fqdn, cert_ans_name}
use ans_sdk_go.Verify.Config.{VerifierConfig}
use ans_sdk_go.Verify.Environment.{Environment, Fetched, fetched, stopped}
use ans_sdk_go.Verify.Environment.Stopped.{
  IsRefusal, IsSound, DanePasses, fetch_after_lookup-IsSound, verify_dane-verified,
}
use ans_sdk_go.Verify.Outcome.{
  VerificationOutcome, OutcomeType, verified, cert_failed, is_success, outcome_of, verified_outcome,
  invalid_status_outcome, mismatch_outcome, failed_outcome,
}
use ans_sdk_go.Verify.Client.{
  verify_with_badge, fetch_badge, cached_badge, verify_fresh, verify_named, verify,
}
use ans_sdk_go.Verify.ScittPath.{Result}
use ans_sdk_go.Verify.Server.{accept}

-- What the badge has to say of a client certificate, its host and its ANS name.
pub record IsAccepted (b : Badge) (cert : CertIdentity) (f : Fqdn) (name : AnsName) : Type 0 where
  pub connects : IsConnecting b.status
  pub fingerprint : matches cert.fingerprint (identity_cert_fingerprint b) ≡ true
  pub host : equal_fold (agent_host b) f.value ≡ true
  pub ans_name : equal_fold (agent_name b) name.raw ≡ true

verify_with_badge_iff :
    (b : Badge) (cert : CertIdentity) (f : Fqdn) (name : AnsName)
    → ((verify_with_badge b cert f name).outcome_type ≡ verified) ↔ IsAccepted b cert f name
unfolding verify_with_badge accept verified_outcome invalid_status_outcome mismatch_outcome
    outcome_of
verify_with_badge_iff b cert f name = (
  (λ h. record {
    connects = (is_valid_for_connection_iff b.status).0 (ground arith);
    fingerprint = ground arith;
    host = ground arith;
    ans_name = ground arith;
  }),
  (λ a.
      rw ((is_valid_for_connection_iff b.status).1 a.connects, a.fingerprint, a.host, a.ans_name)
        refl),
)

verify_with_badge-holds :
    (b : Badge) (cert : CertIdentity) (f : Fqdn) (name : AnsName)
    → (verify_with_badge b cert f name).badge ≡ some b
unfolding verify_with_badge accept verified_outcome invalid_status_outcome mismatch_outcome
    outcome_of
verify_with_badge-holds b cert f name = ground arith

no_success : (t : OutcomeType) → is_success t ≡ false → t ≢ verified
unfolding is_success
no_success t bad h = ground arith

apart : cert_failed ≢ verified
apart h = cc

abbrev type_of : Result → OutcomeType
type_of r = r.0.outcome_type

abbrev badge_of : Result → Option Badge
badge_of r = r.0.badge

module _ (env : Environment) (config : VerifierConfig) (cache : Option BadgeCache)
    (cert : CertIdentity) where
  -- Where a badge comes from: the cache entry of the name and the version, or the log.
  abbrev pub IsSource : Fqdn → AnsName → Badge → Type 0
  IsSource f name b =
      ((hit : CachedBadge) × (cached_badge env config cache f name.version ≡ some hit)
        × (hit.badge ≡ b))
      ⊎ (IsSound env config cache f (some name.version)
            (config.find_badge_for_version f name.version) (fetched b)
          × DanePasses env.sha256 env.sha512 config f cert)

  abbrev pub IsNamed : Fqdn → AnsName → VerificationOutcome → Type 0
  IsNamed f name o = (b : Badge) × (o.badge ≡ some b) × IsAccepted b cert f name × IsSource f name b

  -- The certificate has a valid name and an ANS name, and a badge accepts both.
  abbrev pub IsShown : VerificationOutcome → Type 0
  IsShown o =
      (s : Bytes) × (f : Fqdn) × (name : AnsName) × (cert_fqdn cert ≡ some s)
      × (new_fqdn s ≡ ok f)
      × (cert_ans_name cert ≡ some name)
      × IsNamed f name o

  module _ (f : Fqdn) (name : AnsName) where
    fetched-IsSound :
        (b : Badge)
        → fetch_badge env config cache f name.version ≡ fetched b
        → IsSound env config cache f
            (some name.version)
            (config.find_badge_for_version f name.version)
            (fetched b)
    unfolding fetch_badge
    fetched-IsSound b k = rw k at (
        fetch_after_lookup-IsSound env config cache f (some name.version)
          (config.find_badge_for_version f name.version))

    from_fresh :
        (b : Badge)
        → fetch_badge env config cache f name.version ≡ fetched b
        → (verify_fresh env config cache f cert name b).0.outcome_type ≡ verified
        → IsNamed f name (verify_fresh env config cache f cert name b).0
    unfolding verify_fresh
    from_fresh b k h =
        elim (Bool-cases (is_success (verify_with_badge b cert f name).outcome_type)) [
          | inl good ↦
              let o = verify_with_badge b cert f name in
              let d = verify_dane-verified env.sha256 env.sha512 config f cert o (rw good at h) in
              rw good (
                b,
                d.1 ∙ verify_with_badge-holds b cert f name,
                (verify_with_badge_iff b cert f name).0 d.0,
                inr (fetched-IsSound b k, d.2),
              )
          | inr bad ↦
              absurd (no_success (verify_with_badge b cert f name).outcome_type bad (rw bad at h))
        ]

    IsNamed-fetch :
        (r : Fetched)
        → fetch_badge env config cache f name.version ≡ r
        → cached_badge env config cache f name.version ≡ none
        → (verify_named env config cache f cert name).0.outcome_type ≡ verified
        → IsNamed f name (verify_named env config cache f cert name).0
    unfolding verify_named fetch_badge
    IsNamed-fetch (fetched b) k miss h =
        let same : verify_named env config cache f cert name
            ≡ verify_fresh env config cache f cert name b =
          rw (miss, verify_named) (rw k refl) in
        let shown = from_fresh b k (ap type_of (sym same) ∙ h) in
        (shown.0, ap badge_of same ∙ shown.1, shown.2, shown.3)
    IsNamed-fetch (stopped o) k miss h =
        let refusal : IsRefusal config.failure_policy o = rw k at (
          fetch_after_lookup-IsSound env config cache f (some name.version)
            (config.find_badge_for_version f name.version)) in
        absurd (refusal.0 (rw k at (rw (miss, verify_named) at h)))

    IsNamed-verified :
        (verify_named env config cache f cert name).0.outcome_type ≡ verified
        → IsNamed f name (verify_named env config cache f cert name).0
    unfolding verify_named
    IsNamed-verified h = elim (Option-cases (cached_badge env config cache f name.version)) [
      | inl miss ↦ IsNamed-fetch (fetch_badge env config cache f name.version) refl miss h
      | inr (hit, e) ↦
          let same : verify_named env config cache f cert name
              ≡ (verify_with_badge hit.badge cert f name, cache) =
            rw (e, verify_named) refl in
          (
            hit.badge,
            ap badge_of same ∙ verify_with_badge-holds hit.badge cert f name,
            (verify_with_badge_iff hit.badge cert f name).0 (ap type_of (sym same) ∙ h),
            inl (hit, e, refl),
          )
    ]

  with_ans_name :
      (s : Bytes) (f : Fqdn)
      → cert_fqdn cert ≡ some s
      → new_fqdn s ≡ ok f
      → (n : Option AnsName) → cert_ans_name cert ≡ n
      → (verify env config cache cert).0.outcome_type ≡ verified
      → IsShown (verify env config cache cert).0
  unfolding verify failed_outcome outcome_of
  with_ans_name s f e k none m h = absurd (apart (rw m at (rw k at (rw (e, verify) at h))))
  with_ans_name s f e k (some name) m h =
      let same : verify env config cache cert ≡ verify_named env config cache f cert name =
        rw (e, verify) (rw k (rw m refl)) in
      let shown = IsNamed-verified f name (ap type_of (sym same) ∙ h) in
      (s, f, name, e, k, m, (shown.0, ap badge_of same ∙ shown.1, shown.2, shown.3))

  with_fqdn :
      (s : Bytes)
      → cert_fqdn cert ≡ some s
      → (r : Parsed) → new_fqdn s ≡ r
      → (verify env config cache cert).0.outcome_type ≡ verified
      → IsShown (verify env config cache cert).0
  unfolding verify failed_outcome outcome_of
  with_fqdn s e (err x) k h = absurd (apart (rw k at (rw (e, verify) at h)))
  with_fqdn s e (ok f) k h = with_ans_name s f e k (cert_ans_name cert) refl h

  -- A client is reported as verified only if its certificate has a valid host name and an ANS name,
  -- and a badge, which the outcome holds, accepts the certificate with both; that badge is the
  -- unexpired cache entry of the name and version, or what the log answers for the URL in the DNS
  -- record, and then DANE, where it is configured, did not reject the certificate.
  pub verify-IsShown :
      (verify env config cache cert).0.outcome_type ≡ verified
      → IsShown (verify env config cache cert).0
  unfolding verify failed_outcome outcome_of
  verify-IsShown h = elim (Option-cases (cert_fqdn cert)) [
    | inl e ↦ absurd (apart (rw (e, verify) at h))
    | inr (s, e) ↦ with_fqdn s e (new_fqdn s) refl h
  ]
