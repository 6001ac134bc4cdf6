-- ===== src/Pop/Sign.antt =====
-- pop/sign.go, with signES256 of pop/jws.go and encodeProofParts of pop/proof.go. The functions of
-- encoding/json and crypto/ecdsa that a signer uses are the record SignerLibrary; a random number is
-- an argument.
pub mod Parts
pub mod Made
pub mod Token
pub mod Verified
use ans_sdk_go.Base.{
  ℕ, ◌/◌, ◌==◌, nat_eq, Bool, not, ◌||◌, Option, none, some, [], ◌∷◌, ◌++◌, Bytes,
}
use ans_sdk_go.Base.Text.Hex.{encode_hex}
use ans_sdk_go.Base.Text.Base64.{encode_base64, encode_base64url}
use ans_sdk_go.Pop.Errors.{
  Step, passed, refused, cert_invalid, client_gone, malformed_proof, signature_invalid, ◌>>=◌, ◌>>◌,
  refuse_if, or_refuse,
}
use ans_sdk_go.Pop.Jws.{EcKey, coord_len, fill_bytes, jws_signing_input}
use ans_sdk_go.Pop.Proof.{
  ProofLibrary, ProofHeader, ProofPayload, ProofJwk, dpop_typ, dpop_alg, profile_revision,
  public_jwk, ecdsa_key, access_token_hash, normalize_htu,
}
use ans_sdk_go.Pop.Verify.{second}

-- An ecdsa.PrivateKey: whether its curve is P-256, and its point.
pub record PrivateKey : Type 0 where
  pub is_p256 : Bool
  pub public_key : EcKey
  pub secret : Bytes

pub record SignerLibrary : Type 0 where
  pub encode_header : ProofHeader → Option Bytes
  pub encode_payload : ProofPayload → Option Bytes
  pub ecdsa_sign : PrivateKey → (digest : Bytes) → Option (ℕ × ℕ)

pub record Signer : Type 0 where
  pub key : PrivateKey
  pub cert_der : Bytes
  pub jwk : ProofJwk

-- The options of a call of Sign: WithAccessToken, and WithContent or WithContentDigest.
pub record ProofOptions : Type 0 where
  pub ath : Bytes
  pub content_digest : Bytes

module _ (lib : ProofLibrary) where
  unfoldable pub new_signer : Option PrivateKey → (cert_der : Bytes) → Step Signer
  new_signer k cert_der = do
    key ← or_refuse k cert_invalid
    refuse_if (not key.is_p256) cert_invalid
    cert ← or_refuse (lib.parse_certificate cert_der) cert_invalid
    point ← or_refuse (ecdsa_key cert.public_key) cert_invalid
    refuse_if (not (point.x == key.public_key.x) || not (point.y == key.public_key.y)) cert_invalid
    passed (record { key = key; cert_der = cert_der; jwk = public_jwk key.public_key })

  abbrev pub default_proof_options : ProofOptions
  default_proof_options = record { ath = []; content_digest = lib.sha256 [] }

  unfoldable pub with_access_token : Bytes → ProofOptions → ProofOptions
  with_access_token token o = record o { ath = access_token_hash lib token }

  unfoldable pub with_content : Bytes → ProofOptions → ProofOptions
  with_content content o = record o { content_digest = lib.sha256 content }

  abbrev pub header_of : Signer → ProofHeader
  header_of s = record {
    typ = dpop_typ;
    alg = dpop_alg;
    jwk = some s.jwk;
    x5c = encode_base64 s.cert_der ∷ [];
  }

  abbrev pub payload_of : (method htu : Bytes) (now : ℕ) (jti : Bytes) → ProofOptions → ProofPayload
  payload_of method htu now jti o = record {
    htm = method;
    htu = htu;
    iat = now / second;
    jti = jti;
    ath = o.ath;
    profile = profile_revision;
    content_digest = encode_base64url o.content_digest;
  }

  module _ (signing : SignerLibrary) where
    unfoldable pub encode_proof_parts : ProofHeader → ProofPayload → Step (Bytes × Bytes)
    encode_proof_parts h p = do
      hb ← or_refuse (signing.encode_header h) malformed_proof
      pb ← or_refuse (signing.encode_payload p) malformed_proof
      passed (encode_base64url hb, encode_base64url pb)

    unfoldable pub sign_es256 : PrivateKey → (signing_input : Bytes) → Step Bytes
    sign_es256 key signing_input = do
      rs ← or_refuse (signing.ecdsa_sign key (lib.sha256 signing_input)) signature_invalid
      passed (encode_base64url (fill_bytes coord_len rs.0 ++ fill_bytes coord_len rs.1))

    -- newJTI, of 16 random bytes where there are any.
    unfoldable pub new_jti : Option Bytes → Step Bytes
    new_jti random = do b ← or_refuse random malformed_proof; passed (encode_hex b)

    -- Sign at an instant; where it returns the error of the context, that is its category here.
    unfoldable pub sign :
        Signer
        → (ctx_done : Bool) (method raw_url : Bytes) (now : ℕ) (random : Option Bytes)
        → ProofOptions
        → Step Bytes
    sign s ctx_done method raw_url now random o = do
      refuse_if ctx_done client_gone
      htu ← normalize_htu lib raw_url
      jti ← new_jti random
      parts ← encode_proof_parts (header_of s) (payload_of method htu now jti o)
      sig_b64 ← sign_es256 s.key (jws_signing_input parts.0 parts.1)
      passed (parts.0 ++ (b'.' ∷ parts.1 ++ (b'.' ∷ sig_b64)))
