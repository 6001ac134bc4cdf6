-- ===== src/Scitt/HttpHeaders.antt =====
-- verify/scitt/outgoing.go and the reading of headers in verify/scitt/headers.go. An http.Header is
-- a table from names to values; Get of a name that is not there is the empty string.
pub mod RoundTrip
use ans_sdk_go.Base.{
  ℕ, ◌+◌, ◌*◌, ◌/◌, Bool, true, false, not, ◌&&◌, ◌==◌, nat_eq, bytes_eq, Option, none, some, List,
  [], ◌∷◌, length, ltb, if◌then◌else◌, Bytes, codes,
}
use ans_sdk_go.Base.Table.{lookup, insert}
use ans_sdk_go.Base.Text.Base64.{encode_base64, decode_base64}
use ans_sdk_go.Scitt.Errors.{Checked, good, bad, transport, ◌>>=◌, ◌>>◌, fail_if, or_fail}
use ans_sdk_go.Scitt.Types.{Headers, TransportErrorType, base64_decode}
use ans_sdk_go.Scitt.Cose.{max_cose_input_size}

abbrev pub header_receipt : Bytes
header_receipt = codes "X-SCITT-Receipt"

abbrev pub header_status_token : Bytes
header_status_token = codes "X-ANS-Status-Token"

abbrev pub max_base64_header_size : ℕ
max_base64_header_size = (max_cose_input_size + 2) / 3 * 4

abbrev pub HttpHeader : Type 0
HttpHeader = List (Bytes × Bytes)

unfoldable pub get_header : Bytes → HttpHeader → Bytes
get_header name h = elim (lookup name h) [ none ↦ [] | some value ↦ value ]

abbrev pub set_if_non_empty : Bytes → Bytes → HttpHeader → HttpHeader
set_if_non_empty name [] h = h
set_if_non_empty name (b ∷ bs) h = insert name (encode_base64 (b ∷ bs)) h

unfoldable pub generate_headers : (receipt status_token : Bytes) → HttpHeader
generate_headers receipt status_token =
    set_if_non_empty header_status_token status_token (set_if_non_empty header_receipt receipt [])

unfoldable pub decode_header_value : Bytes → Checked Bytes
decode_header_value encoded = do
  fail_if (ltb max_base64_header_size (length encoded)) (transport base64_decode)
  or_fail (decode_base64 encoded) (transport base64_decode)

-- A header that is absent is empty.
abbrev pub decode_if_present : Bytes → Checked Bytes
decode_if_present [] = good []
decode_if_present (c ∷ s) = decode_header_value (c ∷ s)

-- ExtractHeaders with the values of the two headers.
unfoldable pub extract_values : (raw_receipt raw_status_token : Bytes) → Checked Headers
extract_values raw_receipt raw_status_token =
    if raw_receipt == [] && raw_status_token == []
    then good (record { receipt = []; status_token = [] })
    else do
      receipt ← decode_if_present raw_receipt
      status_token ← decode_if_present raw_status_token
      good (record { receipt = receipt; status_token = status_token })

unfoldable pub extract_headers : HttpHeader → Checked Headers
extract_headers h = extract_values (get_header header_receipt h) (get_header header_status_token h)
