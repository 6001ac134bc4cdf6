-- ===== src/Pop/Sign/Token.antt =====
-- The token that a signer returns.
use ans_sdk_go.Base.{ℕ, Bool, ◌≡◌, ◌≢◌, ap, true, nat_eq, bytes_eq, some, [], Bytes}
use mathlib.Core.Path.{subst}
use ans_sdk_go.Base.Text.Hex.{are_bytes, encode_hex}
use ans_sdk_go.Base.Text.Split.{lacks}
use ans_sdk_go.Base.Text.Base64.UrlRoundTrip.{
  decode_base64url-encode_base64url, encode_base64url-no_dot,
}
use ans_sdk_go.Pop.Errors.{
  ProofError, passed, passed_injective, >>=-passed, refuse_if-passed, or_refuse, or_refuse-passed,
  or_refuse-on,
}
use ans_sdk_go.Pop.Jws.{jws_signing_input, split_compact_jws, verify_es256}
use ans_sdk_go.Pop.Jws.RoundTrip.{split_compact_jws-joined}
use ans_sdk_go.Pop.Proof.{
  ProofLibrary, ProofHeader, ProofPayload, normalize_htu, decode_proof_header, decode_proof_payload,
}
use ans_sdk_go.Pop.Sign.{
  SignerLibrary, Signer, ProofOptions, header_of, payload_of, sign_es256, encode_proof_parts,
  new_jti, sign,
}
use ans_sdk_go.Pop.Sign.Parts.{text_some, SignsTruly, sign_es256-IsSignature}

module _ (lib : ProofLibrary) (signing : SignerLibrary) where
  -- What is encoded of a header is decoded to it, and is a text of bytes that is not empty.
  abbrev pub HeaderReadsBack : ProofHeader → Type 0
  HeaderReadsBack h =
      (text : Bytes)
      → signing.encode_header h ≡ some text
      → (lib.decode_header text ≡ some h) × (are_bytes text ≡ true) × (text ≢ [])

  abbrev pub PayloadReadsBack : ProofPayload → Type 0
  PayloadReadsBack p =
      (text : Bytes)
      → signing.encode_payload p ≡ some text
      → (lib.decode_payload text ≡ some p) × (are_bytes text ≡ true) × (text ≢ [])

  -- A text that can be a segment of a token.
  abbrev IsSegment : Bytes → Type 0
  IsSegment b64 = (lacks b'.' b64 ≡ true) × (b64 ≢ [])

  abbrev AreParts : ProofHeader → ProofPayload → Bytes × Bytes → Type 0
  AreParts h p parts =
      (decode_proof_header lib parts.0 ≡ passed h)
      × IsSegment parts.0
      × (decode_proof_payload lib parts.1 ≡ passed p)
      × IsSegment parts.1

  encode_proof_parts-AreParts :
      (h : ProofHeader) (p : ProofPayload) (parts : Bytes × Bytes)
      → HeaderReadsBack h
      → PayloadReadsBack p
      → encode_proof_parts lib signing h p ≡ passed parts
      → AreParts h p parts
  unfolding encode_proof_parts decode_proof_header decode_proof_payload
  encode_proof_parts-AreParts h p parts header payload k =
      let (hb, encoded, k1) = or_refuse-passed (signing.encode_header h) _ _ k in
      let (pb, encoded', k2) = or_refuse-passed (signing.encode_payload p) _ _ k1 in
      let (reads, bytes, some_text) = header hb encoded in
      let (reads', bytes', some_text') = payload pb encoded' in
      subst (AreParts h p) (passed_injective _ parts k2) (
        or_refuse-on _ _ (decode_base64url-encode_base64url hb bytes)
            (ap (λ o. or_refuse o ProofError.malformed_proof) reads),
        (encode_base64url-no_dot hb bytes, text_some hb some_text),
        or_refuse-on _ _ (decode_base64url-encode_base64url pb bytes')
            (ap (λ o. or_refuse o ProofError.malformed_proof) reads'),
        (encode_base64url-no_dot pb bytes', text_some pb some_text'),
      )

  -- A token of a signer with a payload.
  abbrev pub IsToken : Signer → ProofPayload → Bytes → Type 0
  IsToken s p jws =
      (parts : Bytes × Bytes × Bytes) × (split_compact_jws jws ≡ passed parts)
      × (decode_proof_header lib parts.0 ≡ passed (header_of lib s))
      × (decode_proof_payload lib parts.1 ≡ passed p)
      × (verify_es256 lib.sha256 lib.ecdsa_verify s.key.public_key
            (jws_signing_input parts.0 parts.1) parts.2
          ≡ passed tt)

  pub sign-IsToken :
      (s : Signer) (ctx_done : Bool) (method raw_url : Bytes) (now : ℕ) (random : Bytes)
      (o : ProofOptions) (jws : Bytes)
      → HeaderReadsBack (header_of lib s)
      → ((htu : Bytes)
          → normalize_htu lib raw_url ≡ passed htu
          → PayloadReadsBack (payload_of lib method htu now (encode_hex random) o))
      → SignsTruly lib signing s.key
      → sign lib signing s ctx_done method raw_url now (some random) o ≡ passed jws
      → (htu : Bytes) × (normalize_htu lib raw_url ≡ passed htu)
        × IsToken s (payload_of lib method htu now (encode_hex random) o) jws
  unfolding sign new_jti
  sign-IsToken s ctx_done method raw_url now random o jws header payload truly h =
      let (_, h1) = refuse_if-passed ctx_done _ _ h in
      let (htu, normal, h2) = >>=-passed (normalize_htu lib raw_url) _ h1 in
      let p = payload_of lib method htu now (encode_hex random) o in
      let (parts, encoded, h3) =
        >>=-passed (encode_proof_parts lib signing (header_of lib s) p) _ h2 in
      let (sig_b64, signed, h4) =
        >>=-passed (sign_es256 lib signing s.key (jws_signing_input parts.0 parts.1)) _ h3 in
      let (reads, segment, reads', segment') =
        encode_proof_parts-AreParts (header_of lib s) p parts header (payload htu normal) encoded in
      let (verifies, no_dot, some_sig) =
        sign_es256-IsSignature lib signing s.key (jws_signing_input parts.0 parts.1) sig_b64 truly
          signed in
      (
        htu,
        normal,
        subst (IsToken s p) (passed_injective _ jws h4) (
          (parts.0, parts.1, sig_b64),
          split_compact_jws-joined parts.0 parts.1 sig_b64 segment.0 segment'.0 no_dot segment.1
              segment'.1 some_sig,
          reads,
          reads',
          verifies,
        ),
      )
