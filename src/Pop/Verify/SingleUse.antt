-- ===== src/Pop/Verify/SingleUse.antt =====
-- A proof is accepted once.
use ans_sdk_go.Base.{
  ℕ, ◌+◌, ◌*◌, ◌<◌, ◌≤◌, ◌≡◌, ◌≢◌, refl, sym, ap, ◌∙◌, List, arith, nat_eq, bytes_eq, Bytes, inl,
  inr,
}
use mathlib.Core.Path.{subst}
use ans_sdk_go.Pop.Replay.{MemoryReplayCache, Check, seen, recorded, cache_full, check_and_store}
use ans_sdk_go.Pop.Replay.NoReplay.{Event, run, AllBefore, check_and_store-no_replay}
use ans_sdk_go.Pop.Errors.{Step, refused, passed, Step-cases, refused≢passed, passed_injective}
use ans_sdk_go.Pop.Jws.{split_compact_jws}
use ans_sdk_go.Pop.Proof.{ProofPayload, ProofLibrary, decode_proof_payload}
use ans_sdk_go.Pop.Verify.{
  Request, ProofResult, second, replay_grace, effective_skew, verify_proof_unrecorded,
  check_content, commit_replay, conclude, judge_check, replay_key, record_proof, verify_proof,
}
use ans_sdk_go.Pop.Verify.Proven.{IsProof, verify_proof_unrecorded-IsProof}

unseen : seen ≢ recorded
unseen h = cc

module _ (lib : ProofLibrary) where
  -- The payload that the proof of a request has, and the result as one of it.
  abbrev IsRead : Request → ProofResult → ProofPayload → Type 0
  IsRead q r p =
      (r.jti ≡ p.jti)
      × (r.replay_exp ≡ p.iat * second + (effective_skew q.skew + replay_grace))
      × (q.now ≤ p.iat * second + effective_skew q.skew)

  abbrev HasPayload : Bytes → ProofPayload → Type 0
  HasPayload proof_jws p =
      (parts : Bytes × Bytes × Bytes) × (split_compact_jws proof_jws ≡ passed parts)
      × (decode_proof_payload lib parts.1 ≡ passed p)

  -- A token has one payload.
  HasPayload-unique :
      (a b : Bytes) (p p' : ProofPayload) → HasPayload a p → HasPayload b p' → b ≡ a → p' ≡ p
  HasPayload-unique a b p p' (parts, whole, payload) (parts', whole', payload') same =
      let equal : parts' ≡ parts =
        passed_injective parts' parts (sym whole' ∙ (ap split_compact_jws same ∙ whole)) in
      passed_injective p' p
        (sym payload' ∙ (ap (λ parts. decode_proof_payload lib parts.1) equal ∙ payload))

  proof_payload :
      (q : Request) (r : ProofResult)
      → IsProof lib q r
      → (p : ProofPayload) × HasPayload q.proof_jws p × IsRead q r p
  proof_payload q r (cert, key, payload_b64, signed, own, bound) = (
    bound.0,
    ((signed.0, payload_b64, signed.1), signed.5, bound.1),
    (bound.11, bound.12, bound.8.0),
  )

  conclude-passed :
      (k : Check) (s r : ProofResult)
      → conclude lib s (judge_check lib k) ≡ passed r
      → (k ≡ recorded) × (s ≡ r)
  conclude-passed recorded s r h = (refl, passed_injective s r h)
  conclude-passed seen s r h = absurd (refused≢passed _ r h)
  conclude-passed cache_full s r h = absurd (refused≢passed _ r h)

  -- What the commit of a result stores, and the cache it leaves.
  abbrev pub Recorded : ℕ → Request → MemoryReplayCache → ProofResult → Type 0
  Recorded clock q c r =
      (verify_proof_unrecorded lib q ≡ passed r)
      × ((check_and_store clock (replay_key lib r.jti) r.replay_exp c).1 ≡ recorded)
      × ((verify_proof lib clock q c).1
          ≡ (check_and_store clock (replay_key lib r.jti) r.replay_exp c).0)

  after_content :
      (clock : ℕ) (q : Request) (c : MemoryReplayCache) (s r : ProofResult)
      → verify_proof_unrecorded lib q ≡ passed s
      → (o : Step (Unit {0})) → check_content lib s q.content ≡ o
      → (verify_proof lib clock q c).0 ≡ passed r
      → Recorded clock q c r
  unfolding verify_proof record_proof commit_replay
  after_content clock q c s r k (refused e) m h =
      absurd (refused≢passed e r (rw (m, record_proof) at (rw (k, verify_proof) at h)))
  after_content clock q c s r k (passed u) m h =
      let stored = check_and_store clock (replay_key lib s.jti) s.replay_exp c in
      let d = conclude-passed stored.1 s r (rw (m, record_proof) at (rw (k, verify_proof) at h)) in
      let left : (verify_proof lib clock q c).1 ≡ stored.0 =
        rw (k, verify_proof) (rw (m, record_proof) refl) in
      subst (λ x. Recorded clock q c x) d.1 (k, d.0, left)

  -- An accepted proof was recorded.
  accepted :
      (clock : ℕ) (q : Request) (c : MemoryReplayCache) (r : ProofResult)
      → (verify_proof lib clock q c).0 ≡ passed r
      → Recorded clock q c r
  unfolding verify_proof
  accepted clock q c r h = elim (Step-cases (verify_proof_unrecorded lib q)) [
    | inr (e, k) ↦ absurd (refused≢passed e r (rw (k, verify_proof) at h))
    | inl (s, k) ↦ after_content clock q c s r k (check_content lib s q.content) refl h
  ]

  recorded_again :
      (clock exp : ℕ) (es : List Event) (c c' : MemoryReplayCache) (jti jti' : Bytes)
      → jti' ≡ jti
      → c' ≡ c
      → (check_and_store clock (replay_key lib jti') exp (run es c')).1 ≡ recorded
      → (check_and_store clock (replay_key lib jti) exp (run es c)).1 ≡ recorded
  recorded_again clock exp es c c' jti jti' same_jti same_cache h = rw (← same_jti, ← same_cache) h

  -- A jti that was recorded for a proof is not recorded for the same proof again.
  pub replay_key-recorded_once :
      (clock : ℕ) (q : Request) (c : MemoryReplayCache) (r : ProofResult) (es : List Event)
      (clock' : ℕ) (q' : Request) (r' : ProofResult)
      → verify_proof_unrecorded lib q ≡ passed r
      → (check_and_store clock (replay_key lib r.jti) r.replay_exp c).1 ≡ recorded
      → AllBefore r.replay_exp es
      → q'.proof_jws ≡ q.proof_jws
      → effective_skew q'.skew ≡ effective_skew q.skew
      → clock' < q'.now + replay_grace
      → verify_proof_unrecorded lib q' ≡ passed r'
      → (check_and_store clock'
          (replay_key lib r'.jti)
          r'.replay_exp
          (run es (check_and_store clock (replay_key lib r.jti) r.replay_exp c).0)).1
        ≢ recorded
  replay_key-recorded_once clock q c r es clock' q' r' verified_once stored before same_proof
        same_skew close verified_again again =
      let (p, has, read) =
        proof_payload q r (verify_proof_unrecorded-IsProof lib q r verified_once) in
      let (p', has', read') =
        proof_payload q' r' (verify_proof_unrecorded-IsProof lib q' r' verified_again) in
      let same = HasPayload-unique q.proof_jws q'.proof_jws p p' has has' same_proof in
      let same_iat : p'.iat ≡ p.iat = ap (λ x. x.iat) same in
      let same_jti : r'.jti ≡ r.jti = read'.0 ∙ (ap (λ x. x.jti) same ∙ sym read.0) in
      let late = read'.2 in
      let live : clock' < r.replay_exp = omega (arith, read.1, late, same_iat, same_skew, close) in
      let stale =
        check_and_store-no_replay clock (replay_key lib r.jti) r.replay_exp c es clock'
          r'.replay_exp stored before live in
      unseen
        (sym stale ∙ recorded_again clock' r'.replay_exp es _ _ r.jti r'.jti same_jti refl again)

  -- After a proof is accepted, the same proof is never accepted again, whatever the rest of the
  -- request: not at once, nor after other uses of the cache and sweeps before the entry ends, as
  -- long as the skew is the same and the clock of the cache is less than the grace of five seconds
  -- ahead of the instant that the proof is checked at.
  pub verify_proof-single_use :
      (clock : ℕ) (q : Request) (c : MemoryReplayCache) (r : ProofResult) (es : List Event)
      (clock' : ℕ) (q' : Request) (r' : ProofResult)
      → (verify_proof lib clock q c).0 ≡ passed r
      → AllBefore r.replay_exp es
      → q'.proof_jws ≡ q.proof_jws
      → effective_skew q'.skew ≡ effective_skew q.skew
      → clock' < q'.now + replay_grace
      → (verify_proof lib clock' q' (run es (verify_proof lib clock q c).1)).0 ≢ passed r'
  verify_proof-single_use clock q c r es clock' q' r' h before same_proof same_skew close again =
      let (verified, stored, left) = accepted clock q c r h in
      let two = accepted clock' q' _ r' again in
      replay_key-recorded_once clock q c r es clock' q' r' verified stored before same_proof
        same_skew close two.0
        (recorded_again clock' r'.replay_exp es _ _ r'.jti r'.jti refl left two.1)
