-- ===== src/Scitt/Cose.antt =====
-- verify/scitt/cose.go and verifyECDSA of verify/scitt/status_token.go. The CBOR library is the
-- record Cbor: each field decodes into one Go type, `none` for an error. The options of newDecMode
-- are constants that the library accepts, so its error is left out.
use ans_sdk_go.Base.{
  ℕ, ◌≡◌, ◌↔◌, arith, Comparable, bytes_eq, ◌*◌, Bool, true, false, not, ◌==◌, nat_eq, Option, none,
  some, List, [], ◌∷◌, length, take, drop, ltb, if◌then◌else◌, Bytes, codes,
}
use ans_sdk_go.Base.Int.{ℤ, pos, negsuc, int_eq}
use ans_sdk_go.Base.Table.{lookup}
use ans_sdk_go.Scitt.Errors.{
  Checked, good, cose, sig, oversized_cose, cbor_decode, not_a_cose_sign1, invalid_array_length,
  invalid_signature_length, invalid_protected_header, unsupported_algorithm, missing_kid,
  signature_invalid, ◌>>=◌, ◌>>◌, fail_if, or_fail,
}
use ans_sdk_go.Scitt.RootKeys.{Crypto}

-- An element of the structure that is signed.
pub data SigItem : Type 0 where
  text_item : Bytes → SigItem
  bytes_item : Bytes → SigItem

abbrev pub IntMap : Type 0
IntMap = List (ℤ × Bytes)

-- A key of a map with keys of any type: an unsigned or signed integer, or a text.
pub data AnyKey : Type 0 where
  uint_key : ℕ → AnyKey
  int_key : ℤ → AnyKey
  text_key : Bytes → AnyKey

abbrev pub any_key_beq : AnyKey → AnyKey → Bool
any_key_beq (uint_key m) (uint_key n) = m == n
any_key_beq (int_key i) (int_key j) = i == j
any_key_beq (text_key s) (text_key t) = s == t
any_key_beq j k = false

pub any_key_beq_iff : (j k : AnyKey) → (any_key_beq j k ≡ true) ↔ (j ≡ k)
any_key_beq_iff (uint_key m) (uint_key n) = ground (arith, nat_eq.equal_iff m n)
any_key_beq_iff (int_key i) (int_key j) = ground (arith, int_eq.equal_iff i j)
any_key_beq_iff (text_key s) (text_key t) = ground (arith, bytes_eq.equal_iff s t)
any_key_beq_iff (uint_key m) (int_key j) = ground arith
any_key_beq_iff (uint_key m) (text_key t) = ground arith
any_key_beq_iff (int_key i) (uint_key n) = ground arith
any_key_beq_iff (int_key i) (text_key t) = ground arith
any_key_beq_iff (text_key s) (uint_key n) = ground arith
any_key_beq_iff (text_key s) (int_key j) = ground arith

instance abbrev pub any_key_eq : Comparable AnyKey
any_key_eq = record { equal = any_key_beq; equal_iff = any_key_beq_iff }

pub record Cbor : Type 0 where
  -- Unmarshal into a RawMessage
  pub raw_message : Bytes → Option Bytes
  -- UnmarshalCBOR of a RawTag: its number and content
  pub raw_tag : Bytes → Option (ℕ × Bytes)
  pub array : Bytes → Option (List Bytes)
  pub byte_string : Bytes → Option Bytes
  pub text : Bytes → Option Bytes
  pub int64 : Bytes → Option ℤ
  pub uint64 : Bytes → Option ℕ
  pub int_map : Bytes → Option IntMap
  pub any_map : Bytes → Option (List (AnyKey × Bytes))
  pub text_map : Bytes → Option (List (Bytes × Bytes))
  -- Marshal of the array of the items
  pub marshal : List SigItem → Option Bytes

abbrev pub max_cose_input_size : ℕ
max_cose_input_size = 1024 * 1024

-- -7
abbrev pub cose_alg_es256 : ℤ
cose_alg_es256 = negsuc 6

abbrev pub p1363_signature_len : ℕ
p1363_signature_len = 64

abbrev pub hash_len : ℕ
hash_len = 32

pub record ProtectedHeader : Type 0 where
  pub alg : ℤ
  pub kid : Bytes
  pub vds : Option ℤ
  pub content_type : Option Bytes
  pub cwt_iss : Option Bytes
  pub cwt_iat : Option ℤ

pub record ParsedCoseSign1 : Type 0 where
  pub protected_bytes : Bytes
  pub protected : ProtectedHeader
  pub unprotected : Bytes
  pub payload : Bytes
  pub signature : Bytes

abbrev pub four_elements : List Bytes → Option (Bytes × Bytes × Bytes × Bytes)
four_elements (a ∷ b ∷ c ∷ d ∷ []) = some (a, b, c, d)
four_elements l = none

-- A field that is left out when it is absent or of another type.
abbrev pub optional {ℓ} : {A : Type ℓ} → Option Bytes → (Bytes → Option A) → Option A
optional none decode = none
optional (some raw) decode = decode raw

module _ (cbor : Cbor) where
  unfoldable pub unwrap_tag18 : Bytes → Bytes
  unwrap_tag18 raw = elim (cbor.raw_tag raw) [
    | none ↦ raw
    | some tag ↦ if tag.0 == 18 then tag.1 else raw
  ]

  unfoldable pub parse_cwt_claims : Bytes → Option Bytes × Option ℤ
  parse_cwt_claims cwt_raw = elim (cbor.int_map cwt_raw) [
    | none ↦ (none, none)
    | some claims ↦
        (optional (lookup (pos 1) claims) cbor.text, optional (lookup (pos 6) claims) cbor.int64)
  ]

  abbrev pub cwt_of : Option Bytes → Option Bytes × Option ℤ
  cwt_of none = (none, none)
  cwt_of (some raw) = parse_cwt_claims raw

  unfoldable pub parse_protected_header : Bytes → Checked ProtectedHeader
  parse_protected_header protected_bytes = do
    header_map ← or_fail (cbor.int_map protected_bytes) (cose invalid_protected_header)
    alg_raw ← or_fail (lookup (pos 1) header_map) (cose unsupported_algorithm)
    alg ← or_fail (cbor.int64 alg_raw) (cose unsupported_algorithm)
    fail_if (not (alg == cose_alg_es256)) (cose unsupported_algorithm)
    kid_raw ← or_fail (lookup (pos 4) header_map) (cose missing_kid)
    kid ← or_fail (cbor.byte_string kid_raw) (cose missing_kid)
    fail_if (not (length kid == 4)) (cose missing_kid)
    let claims = cwt_of (lookup (pos 15) header_map)
    good (record {
      alg = alg;
      kid = kid;
      vds = optional (lookup (pos 395) header_map) cbor.int64;
      content_type = optional (lookup (pos 3) header_map) cbor.text;
      cwt_iss = claims.0;
      cwt_iat = claims.1;
    })

  unfoldable pub parse_cose_sign1 : Bytes → Checked ParsedCoseSign1
  parse_cose_sign1 data' = do
    fail_if (ltb max_cose_input_size (length data')) (cose oversized_cose)
    raw_outer ← or_fail (cbor.raw_message data') (cose cbor_decode)
    elements ← or_fail (cbor.array (unwrap_tag18 raw_outer)) (cose not_a_cose_sign1)
    (first, second, third, fourth) ← or_fail (four_elements elements) (cose invalid_array_length)
    protected_bytes ← or_fail (cbor.byte_string first) (cose invalid_protected_header)
    header ← parse_protected_header protected_bytes
    payload ← or_fail (cbor.byte_string third) (cose not_a_cose_sign1)
    fail_if (length payload == 0) (cose not_a_cose_sign1)
    signature ← or_fail (cbor.byte_string fourth) (cose invalid_signature_length)
    fail_if (not (length signature == p1363_signature_len)) (cose invalid_signature_length)
    good (record {
      protected_bytes = protected_bytes;
      protected = header;
      unprotected = second;
      payload = payload;
      signature = signature;
    })

  unfoldable pub build_sig_structure : (protected_bytes payload : Bytes) → Option Bytes
  build_sig_structure protected_bytes payload = cbor.marshal (
      text_item (codes "Signature1")
      ∷ bytes_item protected_bytes
      ∷ bytes_item []
      ∷ bytes_item payload
      ∷ [])

  module _ (crypto : Crypto) where
    unfoldable pub compute_sig_structure_digest : (protected_bytes payload : Bytes) → Option Bytes
    compute_sig_structure_digest protected_bytes payload =
        elim (build_sig_structure protected_bytes payload) [
          | none ↦ none
          | some sig_bytes ↦ some (crypto.sha256 sig_bytes)
        ]

    -- The pair of halves is turned into ASN.1 and verified: `verify_pair` stands for both.
    unfoldable pub verify_ecdsa :
        (key protected_bytes payload signature kid : Bytes) → Checked (Unit {0})
    verify_ecdsa key protected_bytes payload signature kid = do
      digest ←
          or_fail (compute_sig_structure_digest protected_bytes payload) (sig signature_invalid kid)
      let r = take hash_len signature
      let s = take hash_len (drop hash_len signature)
      fail_if (not (crypto.verify_pair key digest r s)) (sig signature_invalid kid)
