-- ===== src/Verify/Server/Safety.antt =====
-- What a verified server has shown.
use ans_sdk_go.Base.{
  ◌≡◌, ◌≢◌, ◌⊎◌, refl, sym, ap, ◌∙◌, false, Option, none, some, arith, Bool-cases, Option-cases,
  inl, inr,
}
use ans_sdk_go.Models.Badge.{Badge}
use ans_sdk_go.Models.Fqdn.{Fqdn}
use ans_sdk_go.Verify.BadgeCache.{BadgeCache, CachedBadge}
use ans_sdk_go.Verify.Cert.{CertIdentity, cert_fqdn}
use ans_sdk_go.Verify.Config.{VerifierConfig}
use ans_sdk_go.Verify.Environment.{
  Environment, Fetched, fetched, stopped, CacheCheck, answered, go_on,
}
use ans_sdk_go.Verify.Environment.Stopped.{
  IsRefusal, IsSound, DanePasses, fetch_after_lookup-IsSound, verify_dane-verified,
}
use ans_sdk_go.Verify.Outcome.{
  VerificationOutcome, OutcomeType, verified, is_success, outcome_of, verified_outcome,
  invalid_status_outcome, mismatch_outcome,
}
use ans_sdk_go.Verify.Server.{
  accept, check_cert_host, verify_with_badge, fetch_badge, check_cache, cached_badge,
  unless_fingerprint, is_fingerprint_mismatch, verify_fresh, verify,
}
use ans_sdk_go.Verify.Server.Accepted.{IsAccepted, verify_with_badge_lem}

check_cert_host-badge : (b : Badge) (cert : CertIdentity) → (check_cert_host b cert).badge ≡ some b
unfolding check_cert_host accept verified_outcome mismatch_outcome outcome_of
check_cert_host-badge b cert = elim (Option-cases (cert_fqdn cert)) [
  | inl e ↦ rw (e, check_cert_host) refl
  | inr (name, e) ↦ rw (e, check_cert_host) (ground arith)
]

verify_with_badge-badge :
    (b : Badge) (cert : CertIdentity) (f : Fqdn) → (verify_with_badge b cert f).badge ≡ some b
unfolding verify_with_badge invalid_status_outcome mismatch_outcome outcome_of
verify_with_badge-badge b cert f = ground (arith, check_cert_host-badge b cert)

abbrev pub type_of : VerificationOutcome → OutcomeType
type_of o = o.outcome_type

abbrev badge_of : VerificationOutcome → Option Badge
badge_of o = o.badge

unsuccessful : (t : OutcomeType) → is_success t ≡ false → t ≢ verified
unfolding is_success
unsuccessful t bad h = ground arith

module _ (env : Environment) (config : VerifierConfig) (cache : Option BadgeCache) (f : Fqdn)
    (cert : CertIdentity) where
  -- Where a badge comes from: the cache, or the log at the URL of the DNS record.
  abbrev pub IsSource : Badge → Type 0
  IsSource b =
      ((hit : CachedBadge) × (cached_badge env config cache f ≡ some hit) × (hit.badge ≡ b))
      ⊎ (IsSound env config cache f none (config.find_preferred_badge f) (fetched b)
          × DanePasses env.sha256 env.sha512 config f cert)

  abbrev pub IsShown : VerificationOutcome → Type 0
  IsShown o = (b : Badge) × (o.badge ≡ some b) × IsAccepted b cert f × IsSource b

  abbrev pub HitSound : CacheCheck → Type 0
  HitSound go_on = Unit
  HitSound (answered o) =
      (hit : CachedBadge) × (cached_badge env config cache f ≡ some hit)
      × (o ≡ verify_with_badge hit.badge cert f)

  kept :
      (hit : CachedBadge)
      → cached_badge env config cache f ≡ some hit
      → (t : OutcomeType) → HitSound (unless_fingerprint t (verify_with_badge hit.badge cert f))
  kept hit e t = elim (Bool-cases (is_fingerprint_mismatch t)) [
    | inl mismatch ↦ rw mismatch tt
    | inr other ↦ rw other (hit, e, refl)
  ]

  pub check_cache-HitSound : HitSound (check_cache env config cache f cert)
  unfolding check_cache cached_badge
  check_cache-HitSound = elim (Option-cases (cached_badge env config cache f)) [
    | inl e ↦ rw (e, check_cache) tt
    | inr (hit, e) ↦
        let o = verify_with_badge hit.badge cert f in
        rw (e, check_cache) (kept hit e o.outcome_type)
  ]

  fetched-IsSound :
      (b : Badge)
      → fetch_badge env config cache f ≡ fetched b
      → IsSound env config cache f none (config.find_preferred_badge f) (fetched b)
  unfolding fetch_badge
  fetched-IsSound b k =
      rw k at (fetch_after_lookup-IsSound env config cache f none (config.find_preferred_badge f))

  from_fresh :
      (b : Badge)
      → fetch_badge env config cache f ≡ fetched b
      → (verify_fresh env config cache f cert b).0.outcome_type ≡ verified
      → IsShown (verify_fresh env config cache f cert b).0
  unfolding verify_fresh
  from_fresh b k h = elim (Bool-cases (is_success (verify_with_badge b cert f).outcome_type)) [
    | inl good ↦
        let o = verify_with_badge b cert f in
        let d = verify_dane-verified env.sha256 env.sha512 config f cert o (rw good at h) in
        rw good (
          b,
          d.1 ∙ verify_with_badge-badge b cert f,
          (verify_with_badge_lem b cert f).0 d.0,
          inr (fetched-IsSound b k, d.2),
        )
    | inr bad ↦ absurd (unsuccessful (verify_with_badge b cert f).outcome_type bad (rw bad at h))
  ]

  after_fetch :
      (r : Fetched)
      → fetch_badge env config cache f ≡ r
      → check_cache env config cache f cert ≡ go_on
      → (verify env config cache f cert).0.outcome_type ≡ verified
      → IsShown (verify env config cache f cert).0
  unfolding verify fetch_badge
  after_fetch (fetched b) k miss h =
      rw (miss, verify) (rw k (from_fresh b k (rw k at (rw (miss, verify) at h))))
  after_fetch (stopped o) k miss h =
      let refusal : IsRefusal config.failure_policy o =
        rw k at
          (fetch_after_lookup-IsSound env config cache f none (config.find_preferred_badge f)) in
      absurd (refusal.0 (rw k at (rw (miss, verify) at h)))

  after_cache :
      (k : CacheCheck)
      → check_cache env config cache f cert ≡ k
      → HitSound k
      → (verify env config cache f cert).0.outcome_type ≡ verified
      → IsShown (verify env config cache f cert).0
  unfolding verify
  after_cache go_on e s h = after_fetch (fetch_badge env config cache f) refl e h
  after_cache (answered o) e (hit, found, same) h =
      let shown =
        (verify_with_badge_lem hit.badge cert f).0
          (ap type_of (sym same) ∙ (rw (e, verify) at h)) in
      rw (e, verify)
        (
          hit.badge,
          ap badge_of same ∙ verify_with_badge-badge hit.badge cert f,
          shown,
          inl (hit, found, refl),
        )

  -- A server is reported as verified only with a badge that the outcome holds and that accepts the
  -- certificate for the name; that badge is the unexpired cache entry of the name, or what the log
  -- answers for the URL in the DNS record, a URL that passed the validator, and then DANE, where it
  -- is configured, did not reject the certificate.
  pub verify-verified :
      (verify env config cache f cert).0.outcome_type ≡ verified
      → IsShown (verify env config cache f cert).0
  verify-verified h = after_cache (check_cache env config cache f cert) refl check_cache-HitSound h
