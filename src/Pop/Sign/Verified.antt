-- ===== src/Pop/Sign/Verified.antt =====
-- A proof that a signer mints is verified.
use ans_sdk_go.Base.{
  ℕ, Bool, ◌*◌, ◌/◌, ◌<◌, ◌≤◌, ◌≡◌, ◌≢◌, refl, sym, ap, ◌∙◌, true, false, nat_eq, bytes_eq, Option,
  some, [], length, arith, Bytes,
}
use mathlib.Core.Path.{subst}
use ans_sdk_go.Base.Text.Hex.{are_bytes, encode_hex}
use ans_sdk_go.Pop.Errors.{ProofError, refuse_if, passed, >>=-on, refuse_if-on}
use ans_sdk_go.Pop.Jws.{EcKey}
use ans_sdk_go.Pop.Jws.RoundTrip.{unequal}
use ans_sdk_go.Pop.Proof.{
  ProofLibrary, ProofPayload, Certificate, normalize_htu, access_token_hash, match_jwk_to_cert,
  decode_proof_payload,
}
use ans_sdk_go.Pop.Verify.{
  Request, ProofResult, second, max_proof_size, max_jti_size, effective_skew, result_at,
  check_http_binding, read_signed, check_claims, verify_proof_unrecorded,
}
use ans_sdk_go.Pop.Verify.Proven.{IsFresh, IsTokenBound}
use ans_sdk_go.Pop.Sign.{
  PrivateKey, SignerLibrary, Signer, ProofOptions, header_of, payload_of, new_signer, sign,
}
use ans_sdk_go.Pop.Sign.Parts.{
  text_some, some_bytes, same_text, match_jwk_to_cert-public_jwk,
  decode_content_digest-encode_base64url, SignsTruly,
}
use ans_sdk_go.Pop.Sign.Made.{
  length-encode_hex, check_profile-revision, check_freshness-fresh, at_least,
  check_token_binding-bound, IsMade, new_signer-IsMade, accept_es256_dpop-header_of,
  leaf_cert-encode_base64,
}
use ans_sdk_go.Pop.Sign.Token.{HeaderReadsBack, PayloadReadsBack, IsToken, sign-IsToken}

module _ (lib : ProofLibrary) (signing : SignerLibrary) where
  same_certificate : (a b : Certificate) → Option.some a ≡ some b → a ≡ b
  same_certificate a b h = cc

  read_signed-IsToken :
      (s : Signer) (cert : Certificate) (p : ProofPayload) (jws : Bytes) (now : ℕ)
      → IsMade lib s cert
      → are_bytes s.cert_der ≡ true
      → cert.not_before ≤ now
      → now ≤ cert.not_after
      → IsToken lib signing s p jws
      → (payload_b64 : Bytes) × (read_signed lib jws now
          ≡ passed (cert, s.key.public_key, payload_b64))
        × (decode_proof_payload lib payload_b64 ≡ passed p)
  unfolding read_signed
  read_signed-IsToken s cert p jws now made bytes started lasting token =
      let (parts, whole, header, payload, verifies) = token in
      let matches =
        subst (λ jwk. match_jwk_to_cert jwk s.key.public_key ≡ passed tt) (sym made.2)
          (match_jwk_to_cert-public_jwk s.key.public_key) in
      (
        parts.1,
        >>=-on _ whole (
            >>=-on _ header (
              >>=-on _ (accept_es256_dpop-header_of lib s) (
                >>=-on _ (leaf_cert-encode_base64 lib s cert bytes made) (
                  refuse_if-on _ (at_least now cert.not_before started) (
                    refuse_if-on _ (at_least cert.not_after now lasting)
                      (>>=-on _ matches (>>=-on _ verifies refl))))))),
        payload,
      )

  -- Claims that fit a request pass, and the result has them.
  check_claims-fits :
      (cert : Certificate) (key : EcKey) (payload_b64 : Bytes) (q : Request) (htu : Bytes) (now : ℕ)
      (random : Bytes) (o : ProofOptions)
      → ((text : Bytes) → (length (lib.sha256 text) ≡ 32) × (are_bytes (lib.sha256 text) ≡ true))
      → length random ≡ 16
      → length o.content_digest ≡ 32
      → are_bytes o.content_digest ≡ true
      → normalize_htu lib q.raw_url ≡ passed htu
      → IsTokenBound (access_token_hash lib) o.ath q.access_token
      → 0 < now / second
      → IsFresh (now / second) q.now (effective_skew q.skew)
      → decode_proof_payload lib payload_b64
        ≡ passed (payload_of lib q.method htu now (encode_hex random) o)
      → check_claims lib cert key payload_b64 q
        ≡ passed (
            result_at lib cert key
              (payload_of lib q.method htu now (encode_hex random) o)
              o.content_digest
              (now / second * second)
              (effective_skew q.skew))
  unfolding check_claims check_http_binding access_token_hash
  check_claims-fits cert key payload_b64 q htu now random o wide sixteen digest_wide digest_bytes
        normal token positive fresh payload =
      let hex : length (encode_hex random) ≡ 32 =
        omega (arith, length-encode_hex random, sixteen) in
      let http : check_http_binding lib (payload_of lib q.method htu now (encode_hex random) o)
            q.method q.raw_url
          ≡ passed tt =
        refuse_if-on _ (same_text q.method) (
          >>=-on _ normal
            (ap (λ c. refuse_if c ProofError.http_binding_mismatch) (same_text htu))) in
      let hashes : (t : Bytes) → access_token_hash lib t ≢ [] =
        λ t. text_some (lib.sha256 t) (some_bytes 31 (lib.sha256 t) (wide t).0) in
      >>=-on _ payload (
        >>=-on _ check_profile-revision (
          >>=-on _
            (decode_content_digest-encode_base64url o.content_digest digest_wide digest_bytes)
            (>>=-on _ http (
              >>=-on _
                (check_token_binding-bound (access_token_hash lib) o.ath q.access_token hashes
                  token)
                (>>=-on _
                  (check_freshness-fresh (now / second) q.now (effective_skew q.skew) positive
                    fresh)
                  (refuse_if-on _
                    (unequal (encode_hex random) [] (some_bytes 31 (encode_hex random) hex))
                    (refuse_if-on _
                      (at_least max_jti_size (length (encode_hex random)) (omega (arith, hex)))
                      refl)))))))

  -- A proof that a signer mints is verified, with the key of the signer, its certificate and the
  -- digest it was minted over, when: the request has the same method, a URL with the same normalized
  -- form, and the access token that the proof was minted for, or none; the certificate is valid at
  -- the instant of the verification, which is within the skew of the second the proof was minted in;
  -- the token is within the size limit; 16 random bytes were there, and the digest is of 32. Of the libraries it is assumed that the header and the
  -- payload of this proof are decoded to what was encoded, to texts of bytes; that SHA-256 is 32
  -- bytes long; and that a signature which the key makes verifies, with numbers below 256^32.
  pub sign-verify_proof_unrecorded :
      (k : Option PrivateKey) (cert_der : Bytes) (s : Signer) (cert : Certificate) (ctx_done : Bool)
      (method raw_url : Bytes) (now : ℕ) (random : Bytes) (o : ProofOptions) (jws : Bytes)
      (q : Request)
      → new_signer lib k cert_der ≡ passed s
      → lib.parse_certificate s.cert_der ≡ some cert
      → sign lib signing s ctx_done method raw_url now (some random) o ≡ passed jws
      → HeaderReadsBack lib signing (header_of lib s)
      → ((htu : Bytes)
          → normalize_htu lib raw_url ≡ passed htu
          → PayloadReadsBack lib signing (payload_of lib method htu now (encode_hex random) o))
      → SignsTruly lib signing s.key
      → ((text : Bytes) → (length (lib.sha256 text) ≡ 32) × (are_bytes (lib.sha256 text) ≡ true))
      → are_bytes s.cert_der ≡ true
      → length random ≡ 16
      → length o.content_digest ≡ 32
      → are_bytes o.content_digest ≡ true
      → q.ctx_done ≡ false
      → q.proof_jws ≡ jws
      → length jws ≤ max_proof_size
      → cert.not_before ≤ q.now
      → q.now ≤ cert.not_after
      → q.method ≡ method
      → normalize_htu lib q.raw_url ≡ normalize_htu lib raw_url
      → IsTokenBound (access_token_hash lib) o.ath q.access_token
      → 0 < now / second
      → IsFresh (now / second) q.now (effective_skew q.skew)
      → (r : ProofResult) × (verify_proof_unrecorded lib q ≡ passed r)
        × (r.key ≡ s.key.public_key)
        × (r.cert ≡ cert)
        × (r.content_digest ≡ o.content_digest)
        × (r.jti ≡ encode_hex random)
  unfolding verify_proof_unrecorded
  sign-verify_proof_unrecorded k cert_der s cert ctx_done method raw_url now random o jws q made
        parsed minted header payload truly wide der_bytes sixteen digest_wide digest_bytes here
        same_jws short started lasting same_method same_url token positive fresh =
      let (cert', made') = new_signer-IsMade lib k cert_der s made in
      let own : IsMade lib s cert =
        subst (IsMade lib s) (same_certificate cert' cert (sym made'.0 ∙ parsed)) made' in
      let (htu, normal, is_token) =
        sign-IsToken lib signing s ctx_done method raw_url now random o jws header payload truly
          minted in
      let (payload_b64, signed, claims) =
        read_signed-IsToken s cert (payload_of lib method htu now (encode_hex random) o) jws q.now
          own der_bytes started lasting is_token in
      let claims' =
        subst
          (λ m.
            decode_proof_payload lib payload_b64
            ≡ passed (payload_of lib m htu now (encode_hex random) o))
          (sym same_method) claims in
      let fits =
        check_claims-fits cert s.key.public_key payload_b64 q htu now random o wide sixteen
          digest_wide digest_bytes (same_url ∙ normal) token positive fresh claims' in
      let reads : read_signed lib q.proof_jws q.now ≡ passed (cert, s.key.public_key, payload_b64) =
        rw same_jws signed in
      (
        _,
        refuse_if-on _ here (
            refuse_if-on _ (at_least max_proof_size (length q.proof_jws) (rw same_jws short))
              (>>=-on _ reads fits)),
        refl,
        refl,
        refl,
        refl,
      )
