-- ===== src/Pop/Caller/Authentic.antt =====
-- VerifyCaller of pop/caller.go with its replay cache.
use ans_sdk_go.Base.{
  ℕ, ◌+◌, ◌<◌, ◌/◌, ◌==◌, bytes_eq, ◌≡◌, ◌≢◌, ◌⊎◌, inl, inr, refl, sym, ap, ◌∙◌, ◌&&◌, Option, List,
  [], Bytes,
}
use mathlib.Core.Path.{subst}
use ans_sdk_go.Base.Int.{pos}
use ans_sdk_go.Scitt.RootKeys.{Crypto}
use ans_sdk_go.Scitt.Cose.{Cbor}
use ans_sdk_go.Scitt.Types.{Headers}
use ans_sdk_go.Scitt.Receipt.{KeyLookup}
use ans_sdk_go.Scitt.StatusToken.{verify_status_token_at}
use ans_sdk_go.Scitt.StatusToken.Accepted.{verify_status_token_at-IsSigned}
use ans_sdk_go.Pop.Errors.{
  passed, ProofError, Step-cases, refused≢passed, passed_injective, >>=-passed, refuse_if-passed,
  or_refuse-passed,
}
use ans_sdk_go.Pop.Replay.{MemoryReplayCache, Check, recorded, seen, cache_full, check_and_store}
use ans_sdk_go.Pop.Replay.NoReplay.{Event, run, AllBefore}
use ans_sdk_go.Pop.Proof.{ProofLibrary}
use ans_sdk_go.Pop.Verify.{
  Request, ProofResult, second, replay_grace, verify_proof_unrecorded, check_content, commit_replay,
  replay_key, effective_skew, judge_check, conclude,
}
use ans_sdk_go.Pop.Verify.Proven.{verify_proof_unrecorded-IsProof}
use ans_sdk_go.Pop.Verify.SingleUse.{replay_key-recorded_once}
use ans_sdk_go.Pop.Caller.{
  CallerIdentity, CallerConfig, LeafEvent, of_checked, verify_binding, read_receipt, skewed,
  check_caller, identified, verify_caller,
}
use ans_sdk_go.Pop.Caller.Vouched.{
  IsVouched, of_checked-passed, verify_binding-IsBoundTo, read_receipt-IsAnchored,
}

module _ (decode_leaf : Bytes → Option LeafEvent) (lib : ProofLibrary) (cbor : Cbor)
    (crypto : Crypto) where
  -- A vouched request with the result of its proof.
  abbrev pub IsChecked :
      CallerConfig
      → Request
      → Option Headers
      → Option KeyLookup
      → CallerIdentity × ProofResult
      → Type 0
  IsChecked cfg q h lookup r =
      (verify_proof_unrecorded lib (skewed decode_leaf lib cbor crypto cfg q) ≡ passed r.1)
      × IsVouched decode_leaf lib cbor crypto cfg q h lookup r.0 r.1

  check_caller-IsChecked :
      (cfg : CallerConfig) (q : Request) (h : Option Headers) (lookup : Option KeyLookup)
      (r : CallerIdentity × ProofResult)
      → check_caller decode_leaf lib cbor crypto cfg q h lookup ≡ passed r
      → IsChecked cfg q h lookup r
  unfolding check_caller
  check_caller-IsChecked cfg q h lookup r k =
      let own = skewed decode_leaf lib cbor crypto cfg q in
      let (_, k1) = refuse_if-passed q.ctx_done _ _ k in
      let (keys, has_keys, k2) = or_refuse-passed lookup _ _ k1 in
      let (_, k3) = refuse_if-passed cfg.pin_error _ _ k2 in
      let (_, k4) = refuse_if-passed (q.proof_jws == []) _ _ k3 in
      let (headers, has_headers, k5) = or_refuse-passed h _ _ k4 in
      let (_, k6) = refuse_if-passed (headers.status_token == []) _ _ k5 in
      let (_, k7) = refuse_if-passed (cfg.require_receipt && headers.receipt == []) _ _ k6 in
      let (proof, proven, k8) = >>=-passed (verify_proof_unrecorded lib own) _ k7 in
      let token =
        verify_status_token_at cbor crypto headers.status_token keys cfg.status_skew
          (pos (q.now / second)) in
      let (t, accepted, k9) = >>=-passed (of_checked token ProofError.status_invalid) _ k8 in
      let (rcpt, found, k10) =
        >>=-passed
          (read_receipt decode_leaf lib cbor crypto cfg.require_receipt headers.receipt keys) _
          k9 in
      let (id, binding, k11) =
        >>=-passed (verify_binding decode_leaf proof t.payload rcpt cfg) _ k10 in
      let (_, content, k12) = >>=-passed (check_content lib proof q.content) _ k11 in
      let (signed, current) =
        verify_status_token_at-IsSigned cbor crypto headers.status_token keys cfg.status_skew
          (pos (q.now / second)) t (of_checked-passed token _ accepted) in
      let (st_ans, bound, agent) =
        verify_binding-IsBoundTo decode_leaf proof t.payload rcpt cfg id binding in
      subst (IsChecked cfg q h lookup) (passed_injective _ r k12) (
        proven,
        (
          keys,
          headers,
          t,
          st_ans,
          has_keys,
          has_headers,
          verify_proof_unrecorded-IsProof lib own proof proven,
          signed,
          current,
          bound,
          read_receipt-IsAnchored decode_leaf lib cbor crypto cfg.require_receipt headers.receipt
              keys rcpt t.payload st_ans found agent,
          content,
        ),
      )

  -- The key of a proof is stored in a cache, which a call leaves behind.
  abbrev pub IsRecorded :
      ℕ
      → CallerConfig
      → Request
      → Option Headers
      → Option KeyLookup
      → MemoryReplayCache
      → ProofResult
      → Type 0
  IsRecorded clock cfg q h lookup c proof =
      ((check_and_store clock (replay_key lib proof.jti) proof.replay_exp c).1 ≡ recorded)
      × ((verify_caller decode_leaf lib cbor crypto clock cfg q h lookup c).1
          ≡ (check_and_store clock (replay_key lib proof.jti) proof.replay_exp c).0)

  identified-recorded :
      (k : Check) (id id' : CallerIdentity) (proof : ProofResult)
      → identified decode_leaf lib cbor crypto id (conclude lib proof (judge_check lib k))
        ≡ passed id'
      → (k ≡ recorded) × (id ≡ id')
  identified-recorded recorded id id' proof h = (refl, passed_injective id id' h)
  identified-recorded seen id id' proof h = absurd (refused≢passed _ id' h)
  identified-recorded cache_full id id' proof h = absurd (refused≢passed _ id' h)

  accepted :
      (clock : ℕ) (cfg : CallerConfig) (q : Request) (h : Option Headers)
      (lookup : Option KeyLookup) (c : MemoryReplayCache) (id : CallerIdentity)
      → (verify_caller decode_leaf lib cbor crypto clock cfg q h lookup c).0 ≡ passed id
      → (proof : ProofResult) × IsChecked cfg q h lookup (id, proof)
        × IsRecorded clock cfg q h lookup c proof
  unfolding verify_caller commit_replay
  accepted clock cfg q h lookup c id k =
      elim (Step-cases (check_caller decode_leaf lib cbor crypto cfg q h lookup)) [
        | inr (e, bad) ↦ absurd (refused≢passed e id (rw (bad, verify_caller) at k))
        | inl (r, fine) ↦
            let stored = check_and_store clock (replay_key lib r.1.jti) r.1.replay_exp c in
            let (is_new, same) =
              identified-recorded stored.1 r.0 id r.1 (rw (fine, verify_caller) at k) in
            let left : (verify_caller decode_leaf lib cbor crypto clock cfg q h lookup c).1
                ≡ stored.0 =
              rw (fine, verify_caller) refl in
            (
              r.1,
              subst (λ id. IsChecked cfg q h lookup (id, r.1)) same
                  (check_caller-IsChecked cfg q h lookup r fine),
              (is_new, left),
            )
      ]

  -- An authenticated caller has a proof of possession for this request whose certificate is among
  -- the identity certificates of a status token that a trusted key signed and that is current; the
  -- first ANS name of the certificate is, as a version and a host, the name in the token and one that
  -- the configuration allows; where a receipt is required, one that a trusted key signed is there
  -- whose event names the agent and the name of the token; the content is what the proof was made
  -- over, and the jti of the proof was not in the replay cache and is stored there. The identity is
  -- the name and the agent of the token with the fingerprint and thumbprint of the proof.
  pub verify_caller-IsVouched :
      (clock : ℕ) (cfg : CallerConfig) (q : Request) (h : Option Headers)
      (lookup : Option KeyLookup) (c : MemoryReplayCache) (id : CallerIdentity)
      → (verify_caller decode_leaf lib cbor crypto clock cfg q h lookup c).0 ≡ passed id
      → (proof : ProofResult) × IsVouched decode_leaf lib cbor crypto cfg q h lookup id proof
        × IsRecorded clock cfg q h lookup c proof
  verify_caller-IsVouched clock cfg q h lookup c id k =
      let a = accepted clock cfg q h lookup c id k in (a.0, a.1.1, a.2)

  -- The replay cache is touched only for a request that is vouched for: a call leaves the cache as
  -- it is, or the request has a proof, a token and, where required, a receipt of one agent that
  -- trusted keys signed.
  pub verify_caller-touches :
      (clock : ℕ) (cfg : CallerConfig) (q : Request) (h : Option Headers)
      (lookup : Option KeyLookup) (c : MemoryReplayCache)
      → ((verify_caller decode_leaf lib cbor crypto clock cfg q h lookup c).1 ≡ c)
        ⊎ ((id : CallerIdentity) × (proof : ProofResult) × IsVouched decode_leaf lib cbor crypto cfg
              q h lookup id proof)
  unfolding verify_caller
  verify_caller-touches clock cfg q h lookup c =
      elim (Step-cases (check_caller decode_leaf lib cbor crypto cfg q h lookup)) [
        | inr (e, bad) ↦ inl (rw (bad, verify_caller) refl)
        | inl (r, fine) ↦ inr (r.0, r.1, (check_caller-IsChecked cfg q h lookup r fine).1)
      ]

  -- A proof authenticates a caller once: after it does, no call with the same proof and the same skew
  -- authenticates, whatever the rest of the request, the headers and the configuration; not after
  -- other uses of the cache and sweeps before its entry ends, as long as the clock of the cache is
  -- less than the grace of five seconds ahead of the instant that the proof is checked at.
  pub verify_caller-single_use :
      (clock : ℕ) (cfg : CallerConfig) (q : Request) (h : Option Headers)
      (lookup : Option KeyLookup) (c : MemoryReplayCache) (id : CallerIdentity) (r : ProofResult)
      (es : List Event) (clock' : ℕ) (cfg' : CallerConfig) (q' : Request) (h' : Option Headers)
      (lookup' : Option KeyLookup) (id' : CallerIdentity)
      → (verify_caller decode_leaf lib cbor crypto clock cfg q h lookup c).0 ≡ passed id
      → verify_proof_unrecorded lib (skewed decode_leaf lib cbor crypto cfg q) ≡ passed r
      → AllBefore r.replay_exp es
      → q'.proof_jws ≡ q.proof_jws
      → cfg'.pop_skew ≡ cfg.pop_skew
      → clock' < q'.now + replay_grace
      → (verify_caller decode_leaf lib cbor crypto clock' cfg' q' h' lookup'
          (run es (verify_caller decode_leaf lib cbor crypto clock cfg q h lookup c).1)).0
        ≢ passed id'
  verify_caller-single_use clock cfg q h lookup c id r es clock' cfg' q' h' lookup' id' k read
        before same_proof same_skew close again =
      let (proof, checked, (stored, left)) = accepted clock cfg q h lookup c id k in
      let (proof', checked', (stored', _)) = accepted clock' cfg' q' h' lookup' _ id' again in
      let same = passed_injective proof r (sym checked.0 ∙ read) in
      replay_key-recorded_once lib clock (skewed decode_leaf lib cbor crypto cfg q) c proof es
        clock' (skewed decode_leaf lib cbor crypto cfg' q') proof' checked.0 stored (rw same before)
        same_proof (ap effective_skew same_skew) close checked'.0
        (subst
          (λ c.
            (check_and_store clock' (replay_key lib proof'.jti) proof'.replay_exp (run es c)).1
            ≡ recorded)
          left stored')
