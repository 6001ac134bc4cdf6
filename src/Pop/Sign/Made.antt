-- ===== src/Pop/Sign/Made.antt =====
-- What the checks of the verifier make of the certificate of a signer and of fresh claims.
use ans_sdk_go.Base.{
  ℕ, neither, ◌*◌, ◌<◌, ◌≤◌, ◌≡◌, ◌≢◌, refl, sym, ap, ◌∙◌, true, false, not, ◌||◌, ◌==◌, nat_eq,
  bytes_eq, bytes_beq, Option, none, some, [], ◌∷◌, length, ltb, arith, Bytes, passed_number,
}
use mathlib.Core.Path.{subst}
use ans_sdk_go.Base.Text.Hex.{are_bytes, encode_hex}
use ans_sdk_go.Base.Text.Base64.{encode_base64}
use ans_sdk_go.Base.Text.Base64.RoundTrip.{decode_base64-encode_base64}
use ans_sdk_go.Pop.Errors.{
  ProofError, refuse_if, passed, passed_injective, refuse_if-passed, or_refuse-passed, refuse_if-on,
  or_refuse-on,
}
use ans_sdk_go.Pop.Jws.{EcKey}
use ans_sdk_go.Pop.Jws.RoundTrip.{unequal}
use ans_sdk_go.Pop.Proof.{
  ProofLibrary, Certificate, profile_revision, ecdsa_key, public_jwk, access_token_hash,
  accept_es256_dpop, leaf_cert, check_profile, is_positive_json_integer,
}
use ans_sdk_go.Pop.Verify.{second, check_freshness, check_token_binding}
use ans_sdk_go.Pop.Verify.Proven.{IsFresh, IsTokenBound}
use ans_sdk_go.Pop.Sign.{PrivateKey, Signer, header_of, new_signer}
use ans_sdk_go.Pop.Sign.Parts.{same_text}

EcKey-equal : (a b : EcKey) → a.x ≡ b.x → a.y ≡ b.y → a ≡ b
EcKey-equal a b h k = cc

pub length-encode_hex : (bs : Bytes) → length (encode_hex bs) ≡ length bs * 2
unfolding encode_hex
length-encode_hex [] = refl
length-encode_hex (b ∷ bs) = omega (arith, length-encode_hex bs)

pub check_profile-revision : check_profile profile_revision ≡ passed tt
unfolding check_profile is_positive_json_integer bytes_beq
check_profile-revision = refl

pub check_freshness-fresh :
    (iat now skew : ℕ)
    → 0 < iat
    → IsFresh iat now skew
    → check_freshness iat now skew ≡ passed (iat * second)
unfolding check_freshness
check_freshness-fresh iat now skew h fresh = ground (arith, fresh.0, fresh.1)

pub at_least : (a b : ℕ) → b ≤ a → ltb a b ≡ false
at_least a b h = ground arith

pub check_token_binding-bound :
    (access_token_hash : Bytes → Bytes) (ath : Bytes) (token : Option Bytes)
    → ((token : Bytes) → access_token_hash token ≢ [])
    → IsTokenBound access_token_hash ath token
    → check_token_binding access_token_hash ath token ≡ passed tt
unfolding check_token_binding
check_token_binding-bound access_token_hash ath none h bound =
    subst (λ ath. refuse_if (not (ath == [])) ProofError.token_binding_mismatch ≡ passed tt)
      (sym bound) (ap (λ c. refuse_if c ProofError.token_binding_mismatch) (same_text []))
check_token_binding-bound access_token_hash ath (some token) h bound =
    subst (λ ath. check_token_binding access_token_hash ath (some token) ≡ passed tt) (sym bound)
      (refuse_if-on _ (unequal (access_token_hash token) [] (h token)) (
        ap (λ c. refuse_if c ProofError.token_binding_mismatch)
          (same_text (access_token_hash token))))

module _ (lib : ProofLibrary) where
  -- What a signer is made of: a certificate with the point of its key.
  abbrev pub IsMade : Signer → Certificate → Type 0
  IsMade s cert =
      (lib.parse_certificate s.cert_der ≡ some cert)
      × (ecdsa_key cert.public_key ≡ some s.key.public_key)
      × (s.jwk ≡ public_jwk s.key.public_key)

  pub new_signer-IsMade :
      (k : Option PrivateKey) (cert_der : Bytes) (s : Signer)
      → new_signer lib k cert_der ≡ passed s
      → (cert : Certificate) × IsMade s cert
  unfolding new_signer
  new_signer-IsMade k cert_der s h =
      let (key, _, h1) = or_refuse-passed k _ _ h in
      let (_, h2) = refuse_if-passed (not key.is_p256) _ _ h1 in
      let (cert, parsed, h3) = or_refuse-passed (lib.parse_certificate cert_der) _ _ h2 in
      let (point, is_point, h4) = or_refuse-passed (ecdsa_key cert.public_key) _ _ h3 in
      let (equal, h5) =
        refuse_if-passed (not (point.x == key.public_key.x) || not (point.y == key.public_key.y)) _
          _ h4 in
      let both =
        neither (not (point.x == key.public_key.x)) (not (point.y == key.public_key.y)) equal in
      let same =
        EcKey-equal point key.public_key (passed_number point.x key.public_key.x both.0)
          (passed_number point.y key.public_key.y both.1) in
      (
        cert,
        subst (λ s. IsMade s cert) (passed_injective _ s h5)
            (parsed, is_point ∙ ap some same, refl),
      )

  pub accept_es256_dpop-header_of :
      (s : Signer) → accept_es256_dpop (header_of lib s) ≡ passed (s.jwk, encode_base64 s.cert_der)
  unfolding accept_es256_dpop bytes_beq
  accept_es256_dpop-header_of s = refl

  pub leaf_cert-encode_base64 :
      (s : Signer) (cert : Certificate)
      → are_bytes s.cert_der ≡ true
      → IsMade s cert
      → leaf_cert lib (encode_base64 s.cert_der) ≡ passed (cert, s.key.public_key)
  unfolding leaf_cert
  leaf_cert-encode_base64 s cert bytes made =
      or_refuse-on _ _ (decode_base64-encode_base64 s.cert_der bytes)
        (or_refuse-on _ _ made.0 (or_refuse-on _ _ made.1 refl))
