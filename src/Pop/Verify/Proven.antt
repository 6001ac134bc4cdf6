-- ===== src/Pop/Verify/Proven.antt =====
-- What a verified proof shows.
use ans_sdk_go.Base.{
  ℕ, ◌+◌, ◌*◌, ◌≤◌, ◌==◌, bytes_eq, nat_eq, ◌≡◌, ◌≢◌, refl, sym, ap, false, not, Option, none, some,
  [], ◌∷◌, ◌++◌, length, ltb, arith, Bytes, passed_equal, passed_unequal,
}
use mathlib.Core.Path.{subst}
use ans_sdk_go.Base.Text.Base64.{decode_base64url}
use ans_sdk_go.Pop.Errors.{passed, passed_injective, >>=-passed, refuse_if-passed, refuse_if_last}
use ans_sdk_go.Pop.Jws.{EcKey, split_compact_jws, jws_signing_input, verify_es256}
use ans_sdk_go.Pop.Proof.{
  ProofJwk, ProofHeader, ProofPayload, Certificate, ProofLibrary, decode_proof_header,
  accept_es256_dpop, leaf_cert, match_jwk_to_cert, decode_proof_payload, check_profile,
  decode_content_digest, normalize_htu, access_token_hash, jwk_thumbprint,
}
use ans_sdk_go.Pop.Proof.Accepted.{
  HasProfile, accept_es256_dpop-HasProfile, HasKey, match_jwk_to_cert-HasKey, IsLeaf,
  leaf_cert-IsLeaf, Signs, verify_es256-Signs, split_compact_jws-joins,
  decode_content_digest-length,
}
use ans_sdk_go.Pop.Verify.{
  Request, ProofResult, second, replay_grace, max_proof_size, max_jti_size, effective_skew,
  check_freshness, check_token_binding, check_http_binding, read_signed, check_claims,
  verify_proof_unrecorded,
}

-- An instant is at most the skew away from the time a proof was issued at.
abbrev pub IsFresh : (iat now skew : ℕ) → Type 0
IsFresh iat now skew = (now ≤ iat * second + skew) × (iat * second ≤ now + skew)

check_freshness-IsFresh :
    (iat now skew t : ℕ)
    → check_freshness iat now skew ≡ passed t
    → (t ≡ iat * second) × IsFresh iat now skew
unfolding check_freshness
check_freshness-IsFresh iat now skew t h = ground arith

at_most : (a b : ℕ) → ltb a b ≡ false → b ≤ a
at_most a b h = ground arith

-- A proof names the hash of the access token that comes with it, and none if none comes.
abbrev pub IsTokenBound : (access_token_hash : Bytes → Bytes) → Bytes → Option Bytes → Type 0
IsTokenBound access_token_hash ath none = ath ≡ []
IsTokenBound access_token_hash ath (some token) = ath ≡ access_token_hash token

check_token_binding-IsTokenBound :
    (access_token_hash : Bytes → Bytes) (ath : Bytes) (token : Option Bytes) {u : Unit {0}}
    → check_token_binding access_token_hash ath token ≡ passed u
    → IsTokenBound access_token_hash ath token
unfolding check_token_binding
check_token_binding-IsTokenBound access_token_hash ath none h =
    passed_equal ath [] (refuse_if_last _ _ h)
check_token_binding-IsTokenBound access_token_hash ath (some token) h =
    let present = refuse_if-passed (ath == []) _ _ h in
    passed_equal ath (access_token_hash token) (refuse_if_last _ _ present.1)

module _ (lib : ProofLibrary) where
  -- A token as a proof whose payload segment is signed with the key of a certificate.
  abbrev pub IsSigned : (proof_jws : Bytes) (now : ℕ) → Certificate → EcKey → Bytes → Type 0
  IsSigned proof_jws now cert key payload_b64 =
      (header_b64 : Bytes) × (sig_b64 : Bytes) × (h : ProofHeader) × (jwk : ProofJwk)
      × (x5c : Bytes) × (split_compact_jws proof_jws ≡ passed (header_b64, payload_b64, sig_b64))
      × (proof_jws ≡ header_b64 ++ (b'.' ∷ payload_b64 ++ (b'.' ∷ sig_b64)))
      × (decode_proof_header lib header_b64 ≡ passed h)
      × HasProfile h jwk x5c
      × IsLeaf lib x5c cert key
      × (cert.not_before ≤ now)
      × (now ≤ cert.not_after)
      × HasKey jwk key
      × Signs lib key (jws_signing_input header_b64 payload_b64) sig_b64

  read_signed-IsSigned :
      (proof_jws : Bytes) (now : ℕ) (s : Certificate × EcKey × Bytes)
      → read_signed lib proof_jws now ≡ passed s
      → IsSigned proof_jws now s.0 s.1 s.2
  unfolding read_signed
  read_signed-IsSigned proof_jws now s k =
      let (parts, whole, k1) = >>=-passed (split_compact_jws proof_jws) _ k in
      let (h, header, k2) = >>=-passed (decode_proof_header lib parts.0) _ k1 in
      let (keys, profile, k3) = >>=-passed (accept_es256_dpop h) _ k2 in
      let (leaf, is_leaf, k4) = >>=-passed (leaf_cert lib keys.1) _ k3 in
      let (started, k5) = refuse_if-passed (ltb now leaf.0.not_before) _ _ k4 in
      let (lasting, k6) = refuse_if-passed (ltb leaf.0.not_after now) _ _ k5 in
      let (_, same, k7) = >>=-passed (match_jwk_to_cert keys.0 leaf.1) _ k6 in
      let signed =
        >>=-passed
          (verify_es256 lib.sha256 lib.ecdsa_verify leaf.1 (jws_signing_input parts.0 parts.1)
            parts.2)
          _ k7 in
      subst (λ s. IsSigned proof_jws now s.0 s.1 s.2) (passed_injective _ s signed.2)
        (
          parts.0,
          parts.2,
          h,
          keys.0,
          keys.1,
          whole,
          split_compact_jws-joins proof_jws parts whole,
          header,
          accept_es256_dpop-HasProfile h keys profile,
          leaf_cert-IsLeaf lib keys.1 leaf is_leaf,
          at_most now leaf.0.not_before started,
          at_most leaf.0.not_after now lasting,
          match_jwk_to_cert-HasKey keys.0 leaf.1 same,
          verify_es256-Signs lib leaf.1 (jws_signing_input parts.0 parts.1) parts.2 signed.1,
        )

  -- The claims of a payload segment fit a request, and a result has them.
  abbrev pub IsBound : (payload_b64 : Bytes) → Request → ProofResult → Type 0
  IsBound payload_b64 q r =
      (p : ProofPayload) × (decode_proof_payload lib payload_b64 ≡ passed p)
      × (check_profile p.profile ≡ passed tt)
      × (decode_base64url p.content_digest ≡ some r.content_digest)
      × (length r.content_digest ≡ 32)
      × (p.htm ≡ q.method)
      × (normalize_htu lib q.raw_url ≡ passed p.htu)
      × IsTokenBound (access_token_hash lib) p.ath q.access_token
      × IsFresh p.iat q.now (effective_skew q.skew)
      × (p.jti ≢ [])
      × (length p.jti ≤ max_jti_size)
      × (r.jti ≡ p.jti)
      × (r.replay_exp ≡ p.iat * second + (effective_skew q.skew + replay_grace))

  check_http_binding-equal :
      (p : ProofPayload) (method raw_url : Bytes) {u : Unit {0}}
      → check_http_binding lib p method raw_url ≡ passed u
      → (p.htm ≡ method) × (normalize_htu lib raw_url ≡ passed p.htu)
  unfolding check_http_binding
  check_http_binding-equal p method raw_url h =
      let (same, k) = refuse_if-passed (not (p.htm == method)) _ _ h in
      let (want, normal, k1) = >>=-passed (normalize_htu lib raw_url) _ k in
      let htu = passed_equal p.htu want (refuse_if_last _ _ k1) in
      (
        passed_equal p.htm method same,
        subst (λ w. normalize_htu lib raw_url ≡ passed w) (sym htu) normal,
      )

  -- The identity in a result: the hashes are those of its certificate and its key.
  abbrev pub IsOf : Certificate → EcKey → ProofResult → Type 0
  IsOf cert key r =
      (r.cert ≡ cert)
      × (r.key ≡ key)
      × (r.fingerprint ≡ lib.sha256 cert.raw)
      × (r.jkt ≡ jwk_thumbprint lib key)

  check_claims-IsBound :
      (cert : Certificate) (key : EcKey) (payload_b64 : Bytes) (q : Request) (r : ProofResult)
      → check_claims lib cert key payload_b64 q ≡ passed r
      → IsOf cert key r × IsBound payload_b64 q r
  unfolding check_claims
  check_claims-IsBound cert key payload_b64 q r h =
      let (p, payload, k) = >>=-passed (decode_proof_payload lib payload_b64) _ h in
      let (_, profile, k1) = >>=-passed (check_profile p.profile) _ k in
      let (digest, digested, k2) = >>=-passed (decode_content_digest p.content_digest) _ k1 in
      let (_, http, k3) = >>=-passed (check_http_binding lib p q.method q.raw_url) _ k2 in
      let (_, token, k4) =
        >>=-passed (check_token_binding (access_token_hash lib) p.ath q.access_token) _ k3 in
      let (iat, fresh, k5) =
        >>=-passed (check_freshness p.iat q.now (effective_skew q.skew)) _ k4 in
      let (present, k6) = refuse_if-passed (p.jti == []) _ _ k5 in
      let (short, k7) = refuse_if-passed (ltb max_jti_size (length p.jti)) _ _ k6 in
      let bounds = check_freshness-IsFresh p.iat q.now (effective_skew q.skew) iat fresh in
      let wide = decode_content_digest-length p.content_digest digest digested in
      let htm = check_http_binding-equal p q.method q.raw_url http in
      subst (λ r. IsOf cert key r × IsBound payload_b64 q r) (passed_injective _ r k7)
        (
          (refl, refl, refl, refl),
          (
            p,
            payload,
            profile,
            wide.0,
            wide.1,
            htm.0,
            htm.1,
            check_token_binding-IsTokenBound (access_token_hash lib) p.ath q.access_token token,
            bounds.1,
            passed_unequal present,
            at_most max_jti_size (length p.jti) short,
            refl,
            ap (λ t. t + (effective_skew q.skew + replay_grace)) bounds.0,
          ),
        )

  -- A proof of a request, the result of which is another.
  abbrev pub IsProof : Request → ProofResult → Type 0
  IsProof q r =
      (cert : Certificate) × (key : EcKey) × (payload_b64 : Bytes) × IsSigned q.proof_jws q.now cert
        key payload_b64
      × IsOf cert key r
      × IsBound payload_b64 q r

  -- A proof that is verified consists of three segments joined by dots. Its header is of the type
  -- dpop+jwt and the algorithm ES256 and has one certificate, whose dates include the instant, and
  -- whose key, on P-256, is the key that the header has too; the signature is one of this key over
  -- the header and the payload as they stand in the token. The claims are those of the method and the
  -- normalized URL of the request, of the access token it presents, or of none, and of a time within
  -- the skew; the digest is of 32 bytes and the jti is not empty and of at most 128. The result has
  -- that certificate and key, their SHA-256 fingerprint and thumbprint, the digest and the jti.
  pub verify_proof_unrecorded-IsProof :
      (q : Request) (r : ProofResult) → verify_proof_unrecorded lib q ≡ passed r → IsProof q r
  unfolding verify_proof_unrecorded
  verify_proof_unrecorded-IsProof q r h =
      let (_, k) = refuse_if-passed q.ctx_done _ _ h in
      let (_, k1) = refuse_if-passed (ltb max_proof_size (length q.proof_jws)) _ _ k in
      let (s, signed, k2) = >>=-passed (read_signed lib q.proof_jws q.now) _ k1 in
      let claims = check_claims-IsBound s.0 s.1 s.2 q r k2 in
      (s.0, s.1, s.2, read_signed-IsSigned q.proof_jws q.now s signed, claims.0, claims.1)
