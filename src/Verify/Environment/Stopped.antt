-- ===== src/Verify/Environment/Stopped.antt =====
-- Outcomes that end a verification before a badge is compared, and what DANE adds to one.
use ans_sdk_go.Base.{
  ℕ, ◌≡◌, ◌≢◌, refl, false, Option, none, some, arith, Bytes, Bool-cases, Option-cases, inl, inr,
  sym, ◌∙◌,
}
use ans_sdk_go.Models.Fqdn.{Fqdn}
use ans_sdk_go.Models.Version.{Version}
use ans_sdk_go.Verify.BadgeCache.{
  BadgeCache, CachedBadge, get_stale_by_fqdn, get_stale_by_fqdn_version,
}
use ans_sdk_go.Verify.Cert.{CertIdentity}
use ans_sdk_go.Verify.Config.{
  VerifierConfig, AnsBadgeRecord, RecordReply, lookup_error, lookup_record, BadgeReply, badge_error,
  badge_found, apply_failure_policy, apply_policy, apply_fail_open_with_cache, stale_outcome,
  validate_badge_url, default_dane_port, verify_dane, judge_dane,
}
use ans_sdk_go.Verify.Dane.{TlsaReply, DaneOutcome, DaneOutcomeType, dane_verify, is_reject}
use ans_sdk_go.Verify.Environment.{
  Environment, Fetched, fetched, stopped, fetch_from_record, fetch_after_lookup,
}
use ans_sdk_go.Verify.Errors.{VerifyError, is_record_not_found}
use ans_sdk_go.Verify.Outcome.{
  VerificationOutcome, OutcomeType, verified, fail_open, dns_failed, tlog_failed, FailurePolicy,
  fail_closed, fail_open_with_cache, open_policy, outcome_of, failed_outcome, fail_open_outcome,
  not_ans_agent_outcome, dane_rejection_outcome,
}
use ans_sdk_go.Verify.UrlValidator.{validate}

none-some {ℓ} : {A : Type ℓ} {a : A} → Option.none ≢ Option.some a
none-some h = cc

some-some {ℓ} : {A : Type ℓ} {a b : A} → Option.some a ≡ Option.some b → a ≡ b
some-some h = cc

-- Neither verified nor, with the policy that fails closed, let through.
abbrev pub IsRefusal : FailurePolicy → VerificationOutcome → Type 0
IsRefusal p o = (o.outcome_type ≢ verified) × ((p ≡ fail_closed) → o.outcome_type ≢ fail_open)

stale_outcome-unverified :
    (c : Option CachedBadge) (e : VerificationOutcome)
    → e.outcome_type ≢ verified
    → (stale_outcome c e).outcome_type ≢ verified
unfolding outcome_of
stale_outcome-unverified none e h = h
stale_outcome-unverified (some c) e h = λ same. cc

apply_fail_open_with_cache-unverified :
    (now max_staleness : ℕ) (cache : Option BadgeCache) (f : Fqdn) (v : Option Version)
    (e : VerificationOutcome)
    → e.outcome_type ≢ verified
    → (apply_fail_open_with_cache now max_staleness cache f v e).outcome_type ≢ verified
unfolding apply_fail_open_with_cache
apply_fail_open_with_cache-unverified now m none f v e h = h
apply_fail_open_with_cache-unverified now m (some c) f none e h =
    stale_outcome-unverified (get_stale_by_fqdn now f m c) e h
apply_fail_open_with_cache-unverified now m (some c) f (some v) e h =
    stale_outcome-unverified (get_stale_by_fqdn_version now f v m c) e h

apply_policy-IsRefusal :
    (p : FailurePolicy) (now max_staleness : ℕ) (cache : Option BadgeCache) (f : Fqdn)
    (v : Option Version) (e : VerificationOutcome)
    → e.outcome_type ≢ verified
    → e.outcome_type ≢ fail_open
    → IsRefusal p (apply_policy p now max_staleness cache f v e)
unfolding apply_policy fail_open_outcome outcome_of
apply_policy-IsRefusal fail_closed now m cache f v e h k = (h, (λ p. k))
apply_policy-IsRefusal fail_open_with_cache now m cache f v e h k =
    (apply_fail_open_with_cache-unverified now m cache f v e h, (λ p. cc))
apply_policy-IsRefusal open_policy now m cache f v e h k = ((λ same. cc), (λ p. cc))

module _ (env : Environment) (config : VerifierConfig) (cache : Option BadgeCache) (f : Fqdn)
    (v : Option Version) where
  failure-IsRefusal :
      (t : OutcomeType) (e : VerifyError)
      → t ≢ verified
      → t ≢ fail_open
      → IsRefusal config.failure_policy
          (apply_failure_policy env.at_failure config cache f v (failed_outcome t e))
  unfolding apply_failure_policy failed_outcome outcome_of
  failure-IsRefusal t e h k =
      apply_policy-IsRefusal config.failure_policy env.at_failure config.max_staleness cache f v
        (failed_outcome t e) h k

  url-IsRefusal :
      (url : Bytes) (o : VerificationOutcome)
      → validate_badge_url env.url_parse config url ≡ some o
      → IsRefusal config.failure_policy o
  unfolding validate_badge_url failed_outcome outcome_of
  url-IsRefusal url o h = elim (Option-cases config.url_validator) [
    | inl e ↦ absurd (none-some (rw (e, validate_badge_url) at h))
    | inr (v, e) ↦ elim (Option-cases (validate env.url_parse v url)) [
      | inl fine ↦ absurd (none-some (rw (e, validate_badge_url, fine) at h))
      | inr (bad, k) ↦
          rw (some-some (sym (rw (e, validate_badge_url, k) at h))) ((λ s. cc), (λ p s. cc))
    ]
  ]

  -- What a result of `fetchBadge` says: an outcome is a refusal, and a badge is the log's answer for
  -- the URL of the record that DNS gave.
  abbrev pub IsSound : RecordReply → Fetched → Type 0
  IsSound reply (stopped o) = IsRefusal config.failure_policy o
  IsSound reply (fetched b) =
      (r : AnsBadgeRecord) × (reply ≡ lookup_record (some r))
      × (validate_badge_url env.url_parse config r.url ≡ none)
      × (config.fetch_from_log r.url ≡ badge_found b)

  from_log :
      (r : AnsBadgeRecord) (reply : BadgeReply)
      → config.fetch_from_log r.url ≡ reply
      → validate_badge_url env.url_parse config r.url ≡ none
      → IsSound (lookup_record (some r)) (fetch_from_record env config cache f v r)
  unfolding fetch_from_record
  from_log r (badge_error e) k fine =
      rw (fine, fetch_from_record) (rw k (failure-IsRefusal tlog_failed e (λ s. cc) (λ s. cc)))
  from_log r (badge_found b) k fine = rw (fine, fetch_from_record) (rw k (r, refl, fine, k))

  fetch_from_record-IsSound :
      (r : AnsBadgeRecord)
      → IsSound (lookup_record (some r)) (fetch_from_record env config cache f v r)
  unfolding fetch_from_record
  fetch_from_record-IsSound r =
      elim (Option-cases (validate_badge_url env.url_parse config r.url)) [
        | inl fine ↦ from_log r (config.fetch_from_log r.url) refl fine
        | inr (o, bad) ↦ rw (bad, fetch_from_record) (url-IsRefusal r.url o bad)
      ]

  -- An outcome that `fetchBadge` returns is never a verified one, and it lets the connection through
  -- only if the policy is not the one that fails closed; a badge that it returns is what the log
  -- answers for the URL in the DNS record, a URL that passed the validator.
  pub fetch_after_lookup-IsSound :
      (reply : RecordReply) → IsSound reply (fetch_after_lookup env config cache f v reply)
  unfolding fetch_after_lookup not_ans_agent_outcome outcome_of
  fetch_after_lookup-IsSound (lookup_error e) = elim (Bool-cases (is_record_not_found e)) [
    | inl absent ↦ rw absent ((λ s. cc), (λ p s. cc))
    | inr other ↦ rw other (failure-IsRefusal dns_failed e (λ s. cc) (λ s. cc))
  ]
  fetch_after_lookup-IsSound (lookup_record none) = ((λ s. cc), (λ p s. cc))
  fetch_after_lookup-IsSound (lookup_record (some r)) = fetch_from_record-IsSound r

-- What DANE may say of an outcome that stays verified.
abbrev pub DanePasses :
    (sha256 sha512 : Bytes → Bytes) → VerifierConfig → Fqdn → CertIdentity → Type 0
DanePasses sha256 sha512 config f cert =
    (lookup_tlsa : Fqdn → ℕ → TlsaReply)
    → config.lookup_tlsa ≡ some lookup_tlsa
    → is_reject (dane_verify sha256 sha512 lookup_tlsa f default_dane_port (some cert)).dane_type
      ≡ false

judge_dane-verified :
    (d : DaneOutcome) (t : DaneOutcomeType) (o : VerificationOutcome)
    → (judge_dane d t o).outcome_type ≡ verified
    → (o.outcome_type ≡ verified) × ((judge_dane d t o).badge ≡ o.badge) × (is_reject t ≡ false)
unfolding dane_rejection_outcome outcome_of is_reject
judge_dane-verified d t o h = ground arith

pub verify_dane-verified :
    (sha256 sha512 : Bytes → Bytes) (config : VerifierConfig) (f : Fqdn) (cert : CertIdentity)
    (o : VerificationOutcome)
    → (verify_dane sha256 sha512 config f cert o).outcome_type ≡ verified
    → (o.outcome_type ≡ verified)
      × ((verify_dane sha256 sha512 config f cert o).badge ≡ o.badge)
      × DanePasses sha256 sha512 config f cert
unfolding verify_dane
verify_dane-verified sha256 sha512 config f cert o h = elim (Option-cases config.lookup_tlsa) [
  | inl e ↦ (
    rw (e, verify_dane) at h,
    rw (e, verify_dane) refl,
    λ lookup_tlsa k. absurd (none-some (sym e ∙ k)),
  )
  | inr (lookup_tlsa, e) ↦
      let d = dane_verify sha256 sha512 lookup_tlsa f default_dane_port (some cert) in
      let j = judge_dane-verified d d.dane_type o (rw (e, verify_dane) at h) in
      (j.0, rw (e, verify_dane) j.1, λ other k. rw (← some-some (sym e ∙ k)) j.2)
]

judge_dane-fail_open :
    (d : DaneOutcome) (t : DaneOutcomeType) (o : VerificationOutcome)
    → (judge_dane d t o).outcome_type ≡ fail_open
    → o.outcome_type ≡ fail_open
unfolding dane_rejection_outcome outcome_of is_reject
judge_dane-fail_open d t o h = ground arith

pub verify_dane-fail_open :
    (sha256 sha512 : Bytes → Bytes) (config : VerifierConfig) (f : Fqdn) (cert : CertIdentity)
    (o : VerificationOutcome)
    → (verify_dane sha256 sha512 config f cert o).outcome_type ≡ fail_open
    → o.outcome_type ≡ fail_open
unfolding verify_dane
verify_dane-fail_open sha256 sha512 config f cert o h = elim (Option-cases config.lookup_tlsa) [
  | inl e ↦ rw (e, verify_dane) at h
  | inr (lookup_tlsa, e) ↦
      let d = dane_verify sha256 sha512 lookup_tlsa f default_dane_port (some cert) in
      judge_dane-fail_open d d.dane_type o (rw (e, verify_dane) at h)
]
