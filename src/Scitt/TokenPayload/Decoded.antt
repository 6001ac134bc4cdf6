-- ===== src/Scitt/TokenPayload/Decoded.antt =====
-- What a payload that decodes has.
use ans_sdk_go.Base.{
  passed_unequal, ℕ, ◌≤◌, ◌≡◌, ◌≢◌, refl, ap, sym, ◌∙◌, true, false, ◌==◌, nat_eq, bytes_eq, Option,
  none, some, List, [], ◌∷◌, length, suc, Bytes, ltb, ltb_false→le, arith, Option-cases, inl, inr,
  if-cases, if◌then◌else◌, drop, codes,
}
use mathlib.Core.Path.{subst}
use ans_sdk_go.Base.Int.{ℤ, pos, int_eq}
use ans_sdk_go.Base.Text.{has_prefix, to_lower}
use ans_sdk_go.Base.Text.Hex.{decode_hex}
use ans_sdk_go.Scitt.Types.{AgentStatus, unknown, CertEntry, StatusTokenPayload}
use ans_sdk_go.Scitt.Errors.{good, good_injective, >>=-good, fail_if-good, or_fail-good}
use ans_sdk_go.Scitt.Cose.{Cbor}
use ans_sdk_go.Scitt.TokenPayload.{
  max_cert_array_len, keep_entry, zero_fingerprint, AnyMap, if_length_32, or_zero,
  parse_hex_fingerprint, fingerprint_of_text, decode_fingerprint_field, fingerprint_field, entry_of,
  keep_entries, decode_cert_array, certs_field, decode_payload_fields, decode_status_payload,
  get_field, is_no_status,
}

-- Fingerprints of 32 bytes that are not all zero.
abbrev pub HasFingerprints : List CertEntry → Type 0
HasFingerprints [] = Unit
HasFingerprints (cert ∷ certs) =
    (length cert.fingerprint ≡ 32) × (cert.fingerprint ≢ zero_fingerprint) × HasFingerprints certs

abbrev pub IsCertList : List CertEntry → Type 0
IsCertList certs = (length certs ≤ max_cert_array_len) × HasFingerprints certs

not_zero : {a : ℤ} → (a == pos 0) ≡ false → a ≢ pos 0
not_zero {a} h = ground (arith, int_eq.equal_iff a (pos 0))

true≢false : true ≢ false
true≢false h = cc

some_status : (s : AgentStatus) → is_no_status s ≡ false → s ≢ unknown []
some_status s h e = true≢false (sym (ap is_no_status e) ∙ h)

if_length_32-length : (o : Option Bytes) (b : Bytes) → if_length_32 o ≡ some b → length b ≡ 32
if_length_32-length none b h = cc
if_length_32-length (some a) b h = ground arith

or_zero-length :
    (o : Option Bytes)
    → ((b : Bytes) → o ≡ some b → length b ≡ 32)
    → length (or_zero zero_fingerprint o) ≡ 32
or_zero-length none h = refl
or_zero-length (some b) h = h b refl

parse_hex_fingerprint-length : (s b : Bytes) → parse_hex_fingerprint s ≡ some b → length b ≡ 32
unfolding parse_hex_fingerprint
parse_hex_fingerprint-length s b h =
    if_length_32-length
      (decode_hex (if has_prefix (to_lower s) (codes "sha256:") then drop 7 s else s)) b h

within : {a b c : ℕ} → a ≤ b → b ≤ c → a ≤ c
within h k = omega arith

module _ (cbor : Cbor) where
  fingerprint_of_text-length : (o : Option Bytes) → length (fingerprint_of_text cbor o) ≡ 32
  fingerprint_of_text-length none = refl
  fingerprint_of_text-length (some s) =
      or_zero-length (parse_hex_fingerprint s) (parse_hex_fingerprint-length s)

  decode_fingerprint_field-length : (raw : Bytes) → length (decode_fingerprint_field cbor raw) ≡ 32
  unfolding decode_fingerprint_field
  decode_fingerprint_field-length raw = elim (Option-cases (if_length_32 (cbor.byte_string raw))) [
    | inl e ↦ rw (e, decode_fingerprint_field) (fingerprint_of_text-length (cbor.text raw))
    | inr (fp, e) ↦
        rw (e, decode_fingerprint_field) (if_length_32-length (cbor.byte_string raw) fp e)
  ]

  fingerprint_field-length : (o : Option Bytes) → length (fingerprint_field cbor o) ≡ 32
  fingerprint_field-length none = refl
  fingerprint_field-length (some raw) = decode_fingerprint_field-length raw

  -- The entries are kept ones, no more than a number of them.
  abbrev IsKept : ℕ → List CertEntry → Type 0
  IsKept n certs = HasFingerprints certs × (length certs ≤ n)

  keep_entry-IsKept :
      (n : ℕ) (m : Option AnyMap) (rest : List CertEntry)
      → IsKept n rest
      → IsKept (suc n) (keep_entry cbor m rest)
  keep_entry-IsKept n none rest (kept, short) = (kept, omega arith)
  keep_entry-IsKept n (some m) rest (kept, short) =
      if-cases (IsKept (suc n)) ((entry_of cbor m).fingerprint == zero_fingerprint)
        (λ e. (kept, omega arith))
        (λ e. (
          (fingerprint_field-length (get_field m 1 (codes "fingerprint")), passed_unequal e, kept),
          omega arith,
        ))

  keep_entries-IsKept : (items : List Bytes) → IsKept (length items) (keep_entries cbor items)
  unfolding keep_entries
  keep_entries-IsKept [] = (tt, omega arith)
  keep_entries-IsKept (item ∷ items) =
      keep_entry-IsKept (length items) (cbor.any_map item) (keep_entries cbor items)
        (keep_entries-IsKept items)

  certs_field-IsCertList :
      (raw : Option Bytes) (certs : List CertEntry)
      → certs_field cbor raw ≡ good certs
      → IsCertList certs
  unfolding decode_cert_array
  certs_field-IsCertList none certs h =
      subst IsCertList (good_injective [] certs h) (omega arith, tt)
  certs_field-IsCertList (some raw) certs h =
      let arr = or_fail-good (cbor.array raw) _ _ h in
      let short = fail_if-good (ltb max_cert_array_len (length arr.0)) _ _ arr.2 in
      let (kept, few) = keep_entries-IsKept arr.0 in
      subst IsCertList (good_injective (keep_entries cbor arr.0) certs short.1)
        (within few (ltb_false→le max_cert_array_len (length arr.0) short.0), kept)

  abbrev pub HasCertLists : StatusTokenPayload → Type 0
  HasCertLists p = IsCertList p.valid_identity_certs × IsCertList p.valid_server_certs

  decode_payload_fields-HasCertLists :
      (m : AnyMap) (p : StatusTokenPayload) → decode_payload_fields cbor m ≡ good p → HasCertLists p
  unfolding decode_payload_fields
  decode_payload_fields-HasCertLists m p h =
      let identity =
        >>=-good (certs_field cbor (get_field m 6 (codes "valid_identity_certs"))) _ h in
      let server =
        >>=-good (certs_field cbor (get_field m 7 (codes "valid_server_certs"))) _ identity.2 in
      subst HasCertLists (good_injective _ p server.2) (
        certs_field-IsCertList (get_field m 6 (codes "valid_identity_certs")) identity.0 identity.1,
        certs_field-IsCertList (get_field m 7 (codes "valid_server_certs")) server.0 server.1,
      )

  abbrev pub HasFields : StatusTokenPayload → Type 0
  HasFields p = (p.agent_id ≢ []) × (p.status ≢ unknown []) × (p.exp ≢ pos 0) × (p.ans_name ≢ [])

  -- A payload that decodes names an agent, a status, an expiry and an ANS name, and each of its lists
  -- of certificates has at most 128 entries, whose fingerprints are of 32 bytes that are not all zero.
  pub decode_status_payload-HasFields :
      (data' : Bytes) (p : StatusTokenPayload)
      → decode_status_payload cbor data' ≡ good p
      → HasFields p × HasCertLists p
  unfolding decode_status_payload
  decode_status_payload-HasFields data' p h =
      let full = fail_if-good (length data' == 0) _ _ h in
      let m = or_fail-good (cbor.any_map data') _ _ full.1 in
      let q = >>=-good (decode_payload_fields cbor m.0) _ m.2 in
      let agent = fail_if-good (q.0.agent_id == []) _ _ q.2 in
      let status = fail_if-good (is_no_status q.0.status) _ _ agent.1 in
      let exp = fail_if-good (q.0.exp == pos 0) _ _ status.1 in
      let name = fail_if-good (q.0.ans_name == []) _ _ exp.1 in
      subst (λ p. HasFields p × HasCertLists p) (good_injective q.0 p name.1)
        (
          (
            passed_unequal agent.0,
            some_status q.0.status status.0,
            not_zero exp.0,
            passed_unequal name.0,
          ),
          decode_payload_fields-HasCertLists m.0 q.0 q.1,
        )
