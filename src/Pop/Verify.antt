-- ===== src/Pop/Verify.antt =====
-- pop/verify.go over the replay cache of pop/replay.go. Instants are nanoseconds; a proof's `iat` is
-- in seconds, from 1970 on.
pub mod SingleUse
pub mod Proven
use ans_sdk_go.Base.{
  ℕ, zero, suc, ◌+◌, ◌-◌, ◌*◌, ◌==◌, nat_eq, bytes_eq, Bool, true, false, Option, none, some, List,
  [], ◌∷◌, not, ◌||◌, ltb, if◌then◌else◌, length, Bytes,
}
use ans_sdk_go.Base.Int.{ℤ, pos, negsuc}
use ans_sdk_go.Base.Text.Base64.{encode_base64url}
use ans_sdk_go.Pop.Errors.{
  Step, passed, refused, ProofError, client_gone, malformed_proof, cert_invalid,
  http_binding_mismatch, token_binding_mismatch, proof_stale, content_unreadable,
  content_binding_mismatch, replay, replay_cache_full, ◌>>=◌, ◌>>◌, refuse_if, or_refuse,
}
use ans_sdk_go.Pop.Jws.{EcKey, split_compact_jws, jws_signing_input, verify_es256}
use ans_sdk_go.Pop.Proof.{
  ProofLibrary, ProofPayload, Certificate, decode_proof_header, accept_es256_dpop, leaf_cert,
  match_jwk_to_cert, decode_proof_payload, check_profile, decode_content_digest, normalize_htu,
  access_token_hash, jwk_thumbprint,
}
use ans_sdk_go.Pop.Replay.{MemoryReplayCache, Check, seen, recorded, cache_full, check_and_store}

-- The arguments and options of one call; `content` is the reader's answer, `some none` an error.
pub record Request : Type 0 where
  pub ctx_done : Bool
  pub proof_jws : Bytes
  pub method : Bytes
  pub raw_url : Bytes
  pub now : ℕ
  pub skew : ℤ
  pub access_token : Option Bytes
  pub content : Option (Option Bytes)

pub record ProofResult : Type 0 where
  pub cert : Certificate
  pub key : EcKey
  pub fingerprint : Bytes
  pub jkt : Bytes
  pub content_digest : Bytes
  pub jti : Bytes
  pub htu : Bytes
  pub issued_at : ℕ
  pub replay_exp : ℕ

abbrev pub second : ℕ
second = 1000000000

abbrev pub max_proof_size : ℕ
max_proof_size = 8192

abbrev pub max_jti_size : ℕ
max_jti_size = 128

abbrev pub default_pop_skew : ℕ
default_pop_skew = 120 * second

abbrev pub replay_grace : ℕ
replay_grace = 5 * second

-- The skew where it is not positive is the default.
unfoldable pub effective_skew : ℤ → ℕ
effective_skew (pos zero) = default_pop_skew
effective_skew (pos (suc n)) = suc n
effective_skew (negsuc n) = default_pop_skew

unfoldable pub check_token_binding :
    (access_token_hash : Bytes → Bytes) → Bytes → Option Bytes → Step (Unit {0})
check_token_binding access_token_hash ath none = refuse_if (not (ath == [])) token_binding_mismatch
check_token_binding access_token_hash ath (some token) = do
  refuse_if (ath == []) token_binding_mismatch
  refuse_if (not (ath == access_token_hash token)) token_binding_mismatch

-- The instant of a proof that is fresh.
unfoldable pub check_freshness : (iat now skew : ℕ) → Step ℕ
check_freshness iat now skew =
    if iat == 0
    then refused malformed_proof
    else if ltb (iat * second + skew) now
    then refused proof_stale
    else if ltb (now + skew) (iat * second)
    then refused proof_stale
    else passed (iat * second)

module _ (lib : ProofLibrary) where
  abbrev pub result_at :
      Certificate → EcKey → ProofPayload → (digest : Bytes) → (iat skew : ℕ) → ProofResult
  result_at cert key p digest iat skew = record {
    cert = cert;
    key = key;
    fingerprint = lib.sha256 cert.raw;
    jkt = jwk_thumbprint lib key;
    content_digest = digest;
    jti = p.jti;
    htu = p.htu;
    issued_at = iat;
    replay_exp = iat + (skew + replay_grace);
  }

  unfoldable pub check_http_binding : ProofPayload → (method raw_url : Bytes) → Step (Unit {0})
  check_http_binding p method raw_url = do
    refuse_if (not (p.htm == method)) http_binding_mismatch
    want_htu ← normalize_htu lib raw_url
    refuse_if (not (p.htu == want_htu)) http_binding_mismatch

  -- verifyProofUnrecorded from the parts of the proof to its signature.
  unfoldable pub read_signed : (proof_jws : Bytes) (now : ℕ) → Step (Certificate × EcKey × Bytes)
  read_signed proof_jws now = do
    parts ← split_compact_jws proof_jws
    hdr ← decode_proof_header lib parts.0
    keys ← accept_es256_dpop hdr
    leaf ← leaf_cert lib keys.1
    refuse_if (ltb now leaf.0.not_before) cert_invalid
    refuse_if (ltb leaf.0.not_after now) cert_invalid
    match_jwk_to_cert keys.0 leaf.1
    verify_es256 lib.sha256 lib.ecdsa_verify leaf.1 (jws_signing_input parts.0 parts.1) parts.2
    passed (leaf.0, leaf.1, parts.1)

  -- Its end: the claims.
  unfoldable pub check_claims :
      Certificate → EcKey → (payload_b64 : Bytes) → Request → Step ProofResult
  check_claims cert key payload_b64 q = do
    pl ← decode_proof_payload lib payload_b64
    check_profile pl.profile
    digest ← decode_content_digest pl.content_digest
    check_http_binding pl q.method q.raw_url
    check_token_binding (access_token_hash lib) pl.ath q.access_token
    iat ← check_freshness pl.iat q.now (effective_skew q.skew)
    refuse_if (pl.jti == []) malformed_proof
    refuse_if (ltb max_jti_size (length pl.jti)) malformed_proof
    passed (result_at cert key pl digest iat (effective_skew q.skew))

  unfoldable pub verify_proof_unrecorded : Request → Step ProofResult
  verify_proof_unrecorded q = do
    refuse_if q.ctx_done client_gone
    refuse_if (ltb max_proof_size (length q.proof_jws)) malformed_proof
    signed ← read_signed q.proof_jws q.now
    check_claims signed.0 signed.1 signed.2 q

  unfoldable pub check_content : ProofResult → Option (Option Bytes) → Step (Unit {0})
  check_content r (some none) = refused content_unreadable
  check_content r none =
      refuse_if (not (lib.sha256 [] == r.content_digest)) content_binding_mismatch
  check_content r (some (some content)) =
      refuse_if (not (lib.sha256 content == r.content_digest)) content_binding_mismatch

  abbrev pub replay_key : Bytes → Bytes
  replay_key jti = encode_base64url (lib.sha256 jti)

  abbrev pub judge_check : Check → Option ProofError
  judge_check recorded = none
  judge_check seen = some replay
  judge_check cache_full = some replay_cache_full

  -- The commit, at the instant `clock` that the cache reads.
  unfoldable pub commit_replay :
      ℕ → ProofResult → MemoryReplayCache → Option ProofError × MemoryReplayCache
  commit_replay clock r c =
      let stored = check_and_store clock (replay_key r.jti) r.replay_exp c in
      (judge_check stored.1, stored.0)

  abbrev pub conclude : ProofResult → Option ProofError → Step ProofResult
  conclude r none = passed r
  conclude r (some e) = refused e

  unfoldable pub record_proof :
      ℕ → ProofResult → Request → MemoryReplayCache → Step ProofResult × MemoryReplayCache
  unfolding check_content commit_replay
  record_proof clock r q c = elim (check_content r q.content) [
    | refused e ↦ (refused e, c)
    | passed u ↦ let done = commit_replay clock r c in (conclude r done.0, done.1)
  ]

  -- VerifyProof with a replay cache that is not nil.
  unfoldable pub verify_proof :
      ℕ → Request → MemoryReplayCache → Step ProofResult × MemoryReplayCache
  unfolding verify_proof_unrecorded record_proof
  verify_proof clock q c = elim (verify_proof_unrecorded q) [
    | refused e ↦ (refused e, c)
    | passed r ↦ record_proof clock r q c
  ]
