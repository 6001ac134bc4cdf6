-- ===== src/Scitt/TokenPayload.antt =====
-- The decoder of a token's payload in verify/scitt/status_token.go. An empty [32]byte is the zero
-- fingerprint; a field that is absent or of another type keeps Go's zero value.
pub mod Decoded
use ans_sdk_go.Base.{
  ℕ, zero, suc, Bool, true, false, not, ◌&&◌, ◌==◌, nat_eq, bytes_eq, bytes_beq, Option, none, some,
  List, [], ◌∷◌, length, drop, ltb, if◌then◌else◌, Bytes, codes,
}
use ans_sdk_go.Base.Int.{ℤ, pos, int_eq}
use ans_sdk_go.Base.Table.{lookup}
use ans_sdk_go.Base.Text.{has_prefix, to_lower}
use ans_sdk_go.Base.Text.Hex.{decode_hex}
use ans_sdk_go.Scitt.Types.{
  AgentStatus, active, warning, deprecated, expired, revoked, unknown, CertType, x509_dv_server,
  x509_ov_client, other_type, CertEntry, StatusTokenPayload,
}
use ans_sdk_go.Scitt.Errors.{
  Checked, good, bad, token, foreign, missing_field, payload_invalid, payload_empty, ◌>>=◌, ◌>>◌,
  fail_if, or_fail,
}
use ans_sdk_go.Scitt.Cose.{Cbor, AnyKey, uint_key, int_key, text_key, any_key_eq, optional}

abbrev pub max_cert_array_len : ℕ
max_cert_array_len = 128

abbrev pub zeros : ℕ → Bytes
zeros zero = []
zeros (suc n) = 0 ∷ zeros n

abbrev pub zero_fingerprint : Bytes
zero_fingerprint = zeros 32

abbrev pub AnyMap : Type 0
AnyMap = List (AnyKey × Bytes)

abbrev pub or_else {ℓ} : {A : Type ℓ} → Option A → Option A → Option A
or_else (some a) b = some a
or_else none b = b

-- The function that newPayloadFieldGetter returns.
unfoldable pub get_field : AnyMap → ℕ → Bytes → Option Bytes
get_field raw_map int_key' str_key =
    or_else (lookup (uint_key int_key') raw_map)
      (or_else (lookup (int_key (pos int_key')) raw_map) (lookup (text_key str_key) raw_map))

abbrev pub or_zero {ℓ} : {A : Type ℓ} → A → Option A → A
or_zero z none = z
or_zero z (some a) = a

-- AgentStatus(s) and CertType(s)
abbrev pub status_of : Bytes → AgentStatus
status_of s =
    if s == codes "ACTIVE"
    then active
    else if s == codes "WARNING"
    then warning
    else if s == codes "DEPRECATED"
    then deprecated
    else if s == codes "EXPIRED"
    then expired
    else if s == codes "REVOKED"
    then revoked
    else unknown s

abbrev pub cert_type_of : Bytes → CertType
cert_type_of s =
    if s == codes "x509-dv-server"
    then x509_dv_server
    else if s == codes "x509-ov-client"
    then x509_ov_client
    else other_type s

-- payload.Status == ""
abbrev pub is_no_status : AgentStatus → Bool
is_no_status (unknown []) = true
is_no_status s = false

abbrev pub if_length_32 : Option Bytes → Option Bytes
if_length_32 none = none
if_length_32 (some b) = if length b == 32 then some b else none

unfoldable pub parse_hex_fingerprint : Bytes → Option Bytes
parse_hex_fingerprint s =
    let hex_str = if has_prefix (to_lower s) (codes "sha256:") then drop 7 s else s in
    if_length_32 (decode_hex hex_str)

module _ (cbor : Cbor) where
  unfoldable pub decode_string_field : Option Bytes → Bytes
  decode_string_field raw = or_zero [] (optional raw cbor.text)

  unfoldable pub decode_int64_field : Option Bytes → ℤ
  decode_int64_field raw = or_zero (pos 0) (optional raw cbor.int64)

  -- The text form, where the bytes do not decode to a fingerprint.
  abbrev pub fingerprint_of_text : Option Bytes → Bytes
  fingerprint_of_text none = zero_fingerprint
  fingerprint_of_text (some s) = or_zero zero_fingerprint (parse_hex_fingerprint s)

  unfoldable pub decode_fingerprint_field : Bytes → Bytes
  decode_fingerprint_field raw = elim (if_length_32 (cbor.byte_string raw)) [
    | some fp ↦ fp
    | none ↦ fingerprint_of_text (cbor.text raw)
  ]

  abbrev pub fingerprint_field : Option Bytes → Bytes
  fingerprint_field none = zero_fingerprint
  fingerprint_field (some raw) = decode_fingerprint_field raw

  abbrev pub entry_of : AnyMap → CertEntry
  entry_of cert_map = record {
    fingerprint = fingerprint_field (get_field cert_map 1 (codes "fingerprint"));
    cert_type = cert_type_of (decode_string_field (get_field cert_map 2 (codes "cert_type")));
  }

  -- An item that is no map or has no fingerprint is left out.
  abbrev pub keep_entry : Option AnyMap → List CertEntry → List CertEntry
  keep_entry none rest = rest
  keep_entry (some cert_map) rest =
      if (entry_of cert_map).fingerprint == zero_fingerprint then rest else entry_of cert_map ∷ rest

  -- The loop over the items.
  unfoldable pub keep_entries : List Bytes → List CertEntry
  keep_entries [] = []
  keep_entries (item ∷ items) = keep_entry (cbor.any_map item) (keep_entries items)

  unfoldable pub decode_cert_array : Bytes → Checked (List CertEntry)
  decode_cert_array raw = do
    arr ← or_fail (cbor.array raw) (foreign (codes "failed to decode cert array"))
    fail_if (ltb max_cert_array_len (length arr)) (token payload_invalid)
    good (keep_entries arr)

  abbrev pub certs_field : Option Bytes → Checked (List CertEntry)
  certs_field none = good []
  certs_field (some raw) = decode_cert_array raw

  unfoldable pub decode_payload_fields : AnyMap → Checked StatusTokenPayload
  decode_payload_fields raw_map = do
    identity_certs ← certs_field (get_field raw_map 6 (codes "valid_identity_certs"))
    server_certs ← certs_field (get_field raw_map 7 (codes "valid_server_certs"))
    good (record {
      agent_id = decode_string_field (get_field raw_map 1 (codes "agent_id"));
      ans_name = decode_string_field (get_field raw_map 5 (codes "ans_name"));
      status = status_of (decode_string_field (get_field raw_map 2 (codes "status")));
      iat = decode_int64_field (get_field raw_map 3 (codes "iat"));
      exp = decode_int64_field (get_field raw_map 4 (codes "exp"));
      valid_identity_certs = identity_certs;
      valid_server_certs = server_certs;
      metadata_hashes =
          or_zero [] (optional (get_field raw_map 8 (codes "metadata_hashes")) cbor.text_map);
    })

  unfoldable pub decode_status_payload : Bytes → Checked StatusTokenPayload
  decode_status_payload data' = do
    fail_if (length data' == 0) (token payload_empty)
    raw_map ← or_fail (cbor.any_map data') (token payload_empty)
    payload ← decode_payload_fields raw_map
    fail_if (payload.agent_id == []) (token missing_field)
    fail_if (is_no_status payload.status) (token missing_field)
    fail_if (payload.exp == pos 0) (token missing_field)
    fail_if (payload.ans_name == []) (token missing_field)
    good payload
