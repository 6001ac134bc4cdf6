-- ===== src/Pop/Proof.antt =====
-- pop/proof.go: the header and the claims of a proof. The functions of encoding/json, crypto/x509,
-- crypto/sha256, crypto/ecdsa and net/url are the record ProofLibrary.
pub mod Accepted
use ans_sdk_go.Base.{
  ℕ, ◌-◌, ◌==◌, nat_eq, bytes_eq, Bool, true, false, not, ◌&&◌, ◌||◌, Option, none, some, List, [],
  ◌∷◌, ◌++◌, length, leb, if◌then◌else◌, all, codes, Bytes,
}
use ans_sdk_go.Base.Text.{to_lower, is_digit}
use ans_sdk_go.Base.Text.Base64.{decode_base64, decode_base64url, encode_base64url}
use ans_sdk_go.Pop.Errors.{
  Step, passed, refused, malformed_proof, unsupported_alg, unsupported_profile, cert_invalid,
  key_mismatch, ◌>>=◌, ◌>>◌, refuse_if, or_refuse,
}
use ans_sdk_go.Pop.Jws.{EcKey, coord_len, fill_bytes}

pub record ProofJwk : Type 0 where
  pub kty : Bytes
  pub crv : Bytes
  pub x : Bytes
  pub y : Bytes

pub record ProofHeader : Type 0 where
  pub typ : Bytes
  pub alg : Bytes
  pub jwk : Option ProofJwk
  pub x5c : List Bytes

-- `profile` is the text of the JSON value, empty if the claim is absent.
pub record ProofPayload : Type 0 where
  pub htm : Bytes
  pub htu : Bytes
  pub iat : ℕ
  pub jti : Bytes
  pub ath : Bytes
  pub profile : Bytes
  pub content_digest : Bytes

-- The public key of an x509.Certificate.
pub data CertKey : Type 0 where
  ecdsa_p256 : EcKey → CertKey
  ecdsa_other not_ecdsa : CertKey

pub record Certificate : Type 0 where
  pub raw : Bytes
  pub not_before : ℕ
  pub not_after : ℕ
  pub public_key : CertKey
  pub uri_sans : List Bytes

-- What net/url parses of a URL.
pub record ParsedUrl : Type 0 where
  pub scheme : Bytes
  pub hostname : Bytes
  pub port : Bytes
  pub escaped_path : Bytes

pub record ProofLibrary : Type 0 where
  pub decode_header : Bytes → Option ProofHeader
  pub decode_payload : Bytes → Option ProofPayload
  pub parse_certificate : Bytes → Option Certificate
  pub parse_url : Bytes → Option ParsedUrl
  pub sha256 : Bytes → Bytes
  pub ecdsa_verify : EcKey → Bytes → ℕ → ℕ → Bool

abbrev pub dpop_typ : Bytes
dpop_typ = codes "dpop+jwt"

abbrev pub dpop_alg : Bytes
dpop_alg = codes "ES256"

abbrev pub jwk_kty : Bytes
jwk_kty = codes "EC"

abbrev pub jwk_crv : Bytes
jwk_crv = codes "P-256"

abbrev pub profile_revision : Bytes
profile_revision = codes "1"

unfoldable pub decode_content_digest : Bytes → Step Bytes
decode_content_digest claim = do
  refuse_if (claim == []) malformed_proof
  raw ← or_refuse (decode_base64url claim) malformed_proof
  refuse_if (not (length raw == 32)) malformed_proof
  passed raw

unfoldable pub is_positive_json_integer : Bytes → Bool
is_positive_json_integer [] = false
is_positive_json_integer (c ∷ cs) = leb b'1' c && leb c b'9' && all is_digit cs

unfoldable pub check_profile : Bytes → Step (Unit {0})
check_profile [] = passed tt
check_profile (c ∷ cs) = do
  refuse_if (not (is_positive_json_integer (c ∷ cs))) malformed_proof
  refuse_if (not ((c ∷ cs) == profile_revision)) unsupported_profile

abbrev pub only_entry : List Bytes → Step Bytes
only_entry (x5c ∷ []) = passed x5c
only_entry entries = refused cert_invalid

-- The key and the one certificate of a header that is accepted.
unfoldable pub accept_es256_dpop : ProofHeader → Step (ProofJwk × Bytes)
accept_es256_dpop h = do
  refuse_if (not (h.typ == dpop_typ)) unsupported_alg
  refuse_if (not (h.alg == dpop_alg)) unsupported_alg
  jwk ← or_refuse h.jwk malformed_proof
  x5c ← only_entry h.x5c
  passed (jwk, x5c)

unfoldable pub public_jwk : EcKey → ProofJwk
public_jwk key = record {
  kty = jwk_kty;
  crv = jwk_crv;
  x = encode_base64url (fill_bytes coord_len key.x);
  y = encode_base64url (fill_bytes coord_len key.y);
}

unfoldable pub jwk_coords : ProofJwk → Step (Bytes × Bytes)
jwk_coords j = do
  refuse_if (not (j.kty == jwk_kty) || not (j.crv == jwk_crv)) unsupported_alg
  x ← or_refuse (decode_base64url j.x) malformed_proof
  y ← or_refuse (decode_base64url j.y) malformed_proof
  refuse_if (not (length x == coord_len) || not (length y == coord_len)) malformed_proof
  passed (x, y)

unfoldable pub match_jwk_to_cert : ProofJwk → EcKey → Step (Unit {0})
match_jwk_to_cert j key = do
  xy ← jwk_coords j
  refuse_if (not (xy.0 == fill_bytes coord_len key.x) || not (xy.1 == fill_bytes coord_len key.y))
      key_mismatch

-- The key of a certificate that is ECDSA on P-256.
abbrev pub ecdsa_key : CertKey → Option EcKey
ecdsa_key (ecdsa_p256 key) = some key
ecdsa_key ecdsa_other = none
ecdsa_key not_ecdsa = none

module _ (lib : ProofLibrary) where
  unfoldable pub access_token_hash : Bytes → Bytes
  access_token_hash token = encode_base64url (lib.sha256 token)

  unfoldable pub jwk_thumbprint : EcKey → Bytes
  unfolding public_jwk
  jwk_thumbprint key =
      let j = public_jwk key in
      encode_base64url (
        lib.sha256 (
          codes "{\"crv\":\""
          ++ j.crv
          ++ codes "\",\"kty\":\""
          ++ j.kty
          ++ codes "\",\"x\":\""
          ++ j.x
          ++ codes "\",\"y\":\""
          ++ j.y
          ++ codes "\"}"))

  unfoldable pub leaf_cert : Bytes → Step (Certificate × EcKey)
  leaf_cert x5c = do
    der ← or_refuse (decode_base64 x5c) cert_invalid
    cert ← or_refuse (lib.parse_certificate der) cert_invalid
    key ← or_refuse (ecdsa_key cert.public_key) cert_invalid
    passed (cert, key)

  abbrev pub is_default_port : (scheme port : Bytes) → Bool
  is_default_port scheme port =
      (scheme == codes "https" && port == codes "443")
      || (scheme == codes "http" && port == codes "80")

  -- The URL of a scheme, a host, a port that may be empty, and a path.
  abbrev pub join_htu : (scheme host port path : Bytes) → Bytes
  join_htu scheme host port path =
      scheme
      ++ codes "://"
      ++ (if port == [] then host else host ++ (b':' ∷ port))
      ++ (if path == [] then b'/' ∷ [] else path)

  unfoldable pub normalize_htu : Bytes → Step Bytes
  normalize_htu raw_url = do
    u ← or_refuse (lib.parse_url raw_url) malformed_proof
    refuse_if (to_lower u.scheme == [] || to_lower u.hostname == []) malformed_proof
    passed (
        join_htu (to_lower u.scheme) (to_lower u.hostname)
          (if is_default_port (to_lower u.scheme) u.port then [] else u.port) u.escaped_path)

  unfoldable pub decode_proof_header : Bytes → Step ProofHeader
  decode_proof_header header_b64 = do
    raw ← or_refuse (decode_base64url header_b64) malformed_proof
    or_refuse (lib.decode_header raw) malformed_proof

  unfoldable pub decode_proof_payload : Bytes → Step ProofPayload
  decode_proof_payload payload_b64 = do
    raw ← or_refuse (decode_base64url payload_b64) malformed_proof
    or_refuse (lib.decode_payload raw) malformed_proof
