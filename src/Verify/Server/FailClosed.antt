-- ===== src/Verify/Server/FailClosed.antt =====
-- The policy that fails closed.
use ans_sdk_go.Base.{
  ◌≡◌, ◌≢◌, refl, ap, sym, ◌∙◌, true, Option, none, arith, Option-cases, Bool-cases, inl, inr,
}
use ans_sdk_go.Models.Badge.{Badge}
use ans_sdk_go.Models.Fqdn.{Fqdn}
use ans_sdk_go.Verify.BadgeCache.{BadgeCache}
use ans_sdk_go.Verify.Cert.{CertIdentity, cert_fqdn}
use ans_sdk_go.Verify.Config.{VerifierConfig}
use ans_sdk_go.Verify.Environment.{
  Environment, Fetched, fetched, stopped, CacheCheck, answered, go_on,
}
use ans_sdk_go.Verify.Environment.Stopped.{
  IsRefusal, fetch_after_lookup-IsSound, verify_dane-fail_open,
}
use ans_sdk_go.Verify.Outcome.{
  OutcomeType, verified, fail_open, fail_closed, is_success, outcome_of, verified_outcome,
  invalid_status_outcome, mismatch_outcome,
}
use ans_sdk_go.Verify.Server.{
  accept, check_cert_host, verify_with_badge, fetch_badge, check_cache, verify_fresh, verify,
}
use ans_sdk_go.Verify.Server.Safety.{
  IsShown, HitSound, check_cache-HitSound, verify-verified, type_of,
}

check_cert_host-closed :
    (b : Badge) (cert : CertIdentity) → (check_cert_host b cert).outcome_type ≢ fail_open
unfolding check_cert_host accept verified_outcome mismatch_outcome outcome_of
check_cert_host-closed b cert h = elim (Option-cases (cert_fqdn cert)) [
  | inl e ↦ absurd (ground (arith, (rw (e, check_cert_host) at h)))
  | inr (name, e) ↦ absurd (ground (arith, (rw (e, check_cert_host) at h)))
]

verify_with_badge-closed :
    (b : Badge) (cert : CertIdentity) (f : Fqdn)
    → (verify_with_badge b cert f).outcome_type ≢ fail_open
unfolding verify_with_badge invalid_status_outcome mismatch_outcome outcome_of
verify_with_badge-closed b cert f h = ground (arith, check_cert_host-closed b cert)

module _ (env : Environment) (config : VerifierConfig) (cache : Option BadgeCache) (f : Fqdn)
    (cert : CertIdentity) (closed : config.failure_policy ≡ fail_closed) where
  fresh-closed : (b : Badge) → (verify_fresh env config cache f cert b).0.outcome_type ≢ fail_open
  unfolding verify_fresh
  fresh-closed b h = elim (Bool-cases (is_success (verify_with_badge b cert f).outcome_type)) [
    | inl good ↦
        let o = verify_with_badge b cert f in
        verify_with_badge-closed b cert f
          (verify_dane-fail_open env.sha256 env.sha512 config f cert o (rw good at h))
    | inr bad ↦ verify_with_badge-closed b cert f (rw bad at h)
  ]

  after_fetch-closed :
      (r : Fetched)
      → fetch_badge env config cache f ≡ r
      → check_cache env config cache f cert ≡ go_on
      → (verify env config cache f cert).0.outcome_type ≢ fail_open
  unfolding verify fetch_badge
  after_fetch-closed (fetched b) k miss h = fresh-closed b (rw k at (rw (miss, verify) at h))
  after_fetch-closed (stopped o) k miss h =
      let refusal : IsRefusal config.failure_policy o =
        rw k at
          (fetch_after_lookup-IsSound env config cache f none (config.find_preferred_badge f)) in
      refusal.1 closed (rw k at (rw (miss, verify) at h))

  after_cache-closed :
      (k : CacheCheck)
      → check_cache env config cache f cert ≡ k
      → HitSound env config cache f cert k
      → (verify env config cache f cert).0.outcome_type ≢ fail_open
  unfolding verify
  after_cache-closed go_on e s h = after_fetch-closed (fetch_badge env config cache f) refl e h
  after_cache-closed (answered o) e (hit, found, same) h =
      verify_with_badge-closed hit.badge cert f (ap type_of (sym same) ∙ (rw (e, verify) at h))

  verify-closed : (verify env config cache f cert).0.outcome_type ≢ fail_open
  verify-closed h =
      after_cache-closed (check_cache env config cache f cert) refl
        (check_cache-HitSound env config cache f cert) h

successful : (t : OutcomeType) → is_success t ≡ true → t ≢ fail_open → t ≡ verified
unfolding is_success
successful t h k = ground arith

-- With the policy that fails closed, an outcome that counts as a success is a verified one: it holds
-- a badge that accepts the certificate for the name and comes from the cache or the log.
pub verify-success :
    (env : Environment) (config : VerifierConfig) (cache : Option BadgeCache) (f : Fqdn)
    (cert : CertIdentity)
    → config.failure_policy ≡ fail_closed
    → is_success (verify env config cache f cert).0.outcome_type ≡ true
    → IsShown env config cache f cert (verify env config cache f cert).0
verify-success env config cache f cert closed h =
    let t = (verify env config cache f cert).0.outcome_type in
    verify-verified env config cache f cert
      (successful t h (verify-closed env config cache f cert closed))
