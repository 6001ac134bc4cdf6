-- ===== src/Pop/Sign/Parts.antt =====
-- The parts of a proof that a signer mints, one by one, as the verifier reads them.
use ans_sdk_go.Base.{
  ℕ, suc, bytes_beq, take, drop, length-append, ◌<◌, ◌≡◌, ◌≢◌, refl, ap, Bool, true, false, not,
  ◌||◌, ◌==◌, nat_eq, bytes_eq, some, [], ◌∷◌, ◌++◌, length, ltb, arith, Bytes, bytes_beq_iff,
}
use mathlib.Core.Path.{subst}
use ans_sdk_go.Base.Text.Hex.{are_bytes}
use ans_sdk_go.Base.Text.Split.{lacks}
use ans_sdk_go.Base.Text.Base64.{encode_base64url}
use ans_sdk_go.Base.Text.Base64.UrlRoundTrip.{
  decode_base64url-encode_base64url, encode_base64url-no_dot, encode_base64url-some,
}
use ans_sdk_go.Pop.Errors.{
  ProofError, refuse_if, passed, passed_injective, or_refuse-passed, >>=-on, refuse_if-on,
  or_refuse-on,
}
use ans_sdk_go.Pop.Jws.{EcKey, coord_len, p256_sig_len, fill_bytes, set_bytes, verify_es256}
use ans_sdk_go.Pop.Jws.RoundTrip.{
  capacity, set_bytes-fill_bytes, length-fill_bytes, are_bytes-fill_bytes, take-append, drop-append,
  all-append, unequal,
}
use ans_sdk_go.Pop.Proof.{
  ProofLibrary, public_jwk, jwk_coords, match_jwk_to_cert, decode_content_digest,
}
use ans_sdk_go.Pop.Sign.{PrivateKey, SignerLibrary, sign_es256}

pub text_some : (bs : Bytes) → bs ≢ [] → encode_base64url bs ≢ []
text_some [] h = absurd (h refl)
text_some (b ∷ bs) h = encode_base64url-some b bs

pub some_bytes : (n : ℕ) (bs : Bytes) → length bs ≡ suc n → bs ≢ []
some_bytes n [] h = absurd (omega (arith, h))
some_bytes n (b ∷ bs) h = λ k. cc

same_number : (a b : ℕ) → a ≡ b → not (a == b) ≡ false
same_number a b h = ground arith

pub same_text : (a : Bytes) → not (a == a) ≡ false
same_text a = ground (arith, bytes_beq_iff a a)

neither_holds : {x y : Bool} → x ≡ false → y ≡ false → x || y ≡ false
neither_holds h k = rw (h, k) refl

-- The coordinates of the JWK of a point are those of the point.
jwk_coords-public_jwk :
    (key : EcKey)
    → jwk_coords (public_jwk key) ≡ passed (fill_bytes coord_len key.x, fill_bytes coord_len key.y)
unfolding jwk_coords public_jwk bytes_beq
jwk_coords-public_jwk key =
    or_refuse-on _ _
      (decode_base64url-encode_base64url (fill_bytes coord_len key.x)
        (are_bytes-fill_bytes coord_len key.x))
      (or_refuse-on _ _
        (decode_base64url-encode_base64url (fill_bytes coord_len key.y)
          (are_bytes-fill_bytes coord_len key.y))
        (refuse_if-on _
          (neither_holds (same_number _ coord_len (length-fill_bytes coord_len key.x))
            (same_number _ coord_len (length-fill_bytes coord_len key.y)))
          refl))

pub match_jwk_to_cert-public_jwk :
    (key : EcKey) → match_jwk_to_cert (public_jwk key) key ≡ passed tt
unfolding match_jwk_to_cert
match_jwk_to_cert-public_jwk key = >>=-on _ (jwk_coords-public_jwk key) (
    ap (λ c. refuse_if c ProofError.key_mismatch)
      (neither_holds (same_text (fill_bytes coord_len key.x))
        (same_text (fill_bytes coord_len key.y))))

pub decode_content_digest-encode_base64url :
    (digest : Bytes)
    → length digest ≡ 32
    → are_bytes digest ≡ true
    → decode_content_digest (encode_base64url digest) ≡ passed digest
unfolding decode_content_digest
decode_content_digest-encode_base64url digest wide bytes =
    refuse_if-on _
      (unequal (encode_base64url digest) [] (text_some digest (some_bytes 31 digest wide)))
      (or_refuse-on _ _ (decode_base64url-encode_base64url digest bytes)
        (refuse_if-on _ (same_number _ 32 wide) refl))

module _ (lib : ProofLibrary) (signing : SignerLibrary) where
  -- A signature that a key makes verifies with the key, and its numbers are of 32 bytes.
  abbrev pub SignsTruly : PrivateKey → Type 0
  SignsTruly key =
      (digest : Bytes) (rs : ℕ × ℕ)
      → signing.ecdsa_sign key digest ≡ some rs
      → (rs.0 < capacity coord_len)
        × (rs.1 < capacity coord_len)
        × (lib.ecdsa_verify key.public_key digest rs.0 rs.1 ≡ true)

  -- The halves of a signature that holds.
  halves_hold :
      (key : EcKey) (digest : Bytes) (r s : ℕ)
      → r < capacity coord_len
      → s < capacity coord_len
      → lib.ecdsa_verify key digest r s ≡ true
      → lib.ecdsa_verify key digest
          (set_bytes (take coord_len (fill_bytes coord_len r ++ fill_bytes coord_len s)))
          (set_bytes (drop coord_len (fill_bytes coord_len r ++ fill_bytes coord_len s)))
        ≡ true
  halves_hold key digest r s small_r small_s h =
      rw
        (
          take-append coord_len (fill_bytes coord_len r) (fill_bytes coord_len s)
              (length-fill_bytes coord_len r),
          drop-append coord_len (fill_bytes coord_len r) (fill_bytes coord_len s)
              (length-fill_bytes coord_len r),
          set_bytes-fill_bytes coord_len r small_r,
          set_bytes-fill_bytes coord_len s small_s,
        )
        h

  -- A text is one that the signature check takes, and that can stand in a token.
  abbrev pub IsSignature : EcKey → (signing_input sig_b64 : Bytes) → Type 0
  IsSignature key signing_input sig_b64 =
      (verify_es256 lib.sha256 lib.ecdsa_verify key signing_input sig_b64 ≡ passed tt)
      × (lacks b'.' sig_b64 ≡ true)
      × (sig_b64 ≢ [])

  pub sign_es256-IsSignature :
      (key : PrivateKey) (signing_input sig_b64 : Bytes)
      → SignsTruly key
      → sign_es256 lib signing key signing_input ≡ passed sig_b64
      → IsSignature key.public_key signing_input sig_b64
  unfolding sign_es256 verify_es256
  sign_es256-IsSignature key signing_input sig_b64 truly h =
      let (rs, signed, k) =
        or_refuse-passed (signing.ecdsa_sign key (lib.sha256 signing_input)) _ _ h in
      let (small_r, small_s, holds) = truly (lib.sha256 signing_input) rs signed in
      let r = fill_bytes coord_len rs.0 in
      let s = fill_bytes coord_len rs.1 in
      let bytes : are_bytes (r ++ s) ≡ true =
        all-append (λ b. ltb b 256) r s (are_bytes-fill_bytes coord_len rs.0)
          (are_bytes-fill_bytes coord_len rs.1) in
      let wide : length (r ++ s) ≡ p256_sig_len =
        rw (length-append r s, length-fill_bytes coord_len rs.0, length-fill_bytes coord_len rs.1)
          refl in
      subst (IsSignature key.public_key signing_input) (passed_injective _ sig_b64 k) (
        or_refuse-on _ _ (decode_base64url-encode_base64url (r ++ s) bytes) (
            refuse_if-on _ (same_number _ p256_sig_len wide) (
              ap (λ b. refuse_if (not b) ProofError.signature_invalid)
                (halves_hold key.public_key (lib.sha256 signing_input) rs.0 rs.1 small_r small_s
                  holds))),
        encode_base64url-no_dot (r ++ s) bytes,
        text_some (r ++ s) (some_bytes 63 (r ++ s) wide),
      )
