-- ===== src/Scitt/HttpHeaders/RoundTrip.antt =====
-- Reading the headers that are written.
use ans_sdk_go.Base.{
  ℕ, ◌+◌, ◌*◌, ◌/◌, ◌≤◌, ◌<◌, ◌≡◌, refl, ◌∙◌, true, false, ◌==◌, bytes_eq, bytes_beq, [], ◌∷◌,
  length, Bytes, arith, le→ltb_false,
}
use ans_sdk_go.Base.Table.{lookup, insert}
use ans_sdk_go.Base.Text.Hex.{are_bytes}
use ans_sdk_go.Base.Text.Base64.{encode_base64}
use ans_sdk_go.Base.Text.Base64.RoundTrip.{decode_base64-encode_base64}
use ans_sdk_go.Scitt.Errors.{good}
use ans_sdk_go.Scitt.Cose.{max_cose_input_size}
use ans_sdk_go.Scitt.HttpHeaders.{
  max_base64_header_size, get_header, generate_headers, decode_header_value, decode_if_present,
  extract_values, extract_headers, header_receipt, header_status_token,
}

length-encode_base64 : (bs : Bytes) → length (encode_base64 bs) ≡ (length bs + 2) / 3 * 4
unfolding encode_base64
length-encode_base64 [] = omega arith
length-encode_base64 (a ∷ []) = omega arith
length-encode_base64 (a ∷ b ∷ []) = omega arith
length-encode_base64 (a ∷ b ∷ c ∷ rest) = omega (arith, length-encode_base64 rest)

-- What is written for a value, and what is read of it.
abbrev written : Bytes → Bytes
written [] = []
written (b ∷ bs) = encode_base64 (b ∷ bs)

decode_if_present_long : (s : Bytes) → 0 < length s → decode_if_present s ≡ decode_header_value s
decode_if_present_long [] h = absurd (omega arith)
decode_if_present_long (c ∷ s) h = refl

not_empty : (s : Bytes) → 0 < length s → (s == []) ≡ false
unfolding bytes_beq
not_empty [] h = absurd (omega arith)
not_empty (c ∷ s) h = refl

encode_base64-positive : (b : ℕ) (bs : Bytes) → 0 < length (encode_base64 (b ∷ bs))
encode_base64-positive b bs = omega (arith, length-encode_base64 (b ∷ bs))

decode_header_value-encode_base64 :
    (bs : Bytes)
    → are_bytes bs ≡ true
    → length bs ≤ max_cose_input_size
    → decode_header_value (encode_base64 bs) ≡ good bs
unfolding decode_header_value
decode_header_value-encode_base64 bs a h =
    rw
      (le→ltb_false max_base64_header_size (length (encode_base64 bs))
        (omega (arith, length-encode_base64 bs)))
      (rw (decode_base64-encode_base64 bs a))

decode-written :
    (bs : Bytes)
    → are_bytes bs ≡ true
    → length bs ≤ max_cose_input_size
    → decode_if_present (written bs) ≡ good bs
decode-written [] a h = refl
decode-written (b ∷ bs) a h =
    decode_if_present_long (encode_base64 (b ∷ bs)) (encode_base64-positive b bs)
    ∙ decode_header_value-encode_base64 (b ∷ bs) a h

get_receipt-generate_headers :
    (receipt status_token : Bytes)
    → get_header header_receipt (generate_headers receipt status_token) ≡ written receipt
unfolding get_header generate_headers lookup insert bytes_beq
get_receipt-generate_headers [] [] = refl
get_receipt-generate_headers [] (t ∷ ts) = refl
get_receipt-generate_headers (r ∷ rs) [] = refl
get_receipt-generate_headers (r ∷ rs) (t ∷ ts) = refl

get_token-generate_headers :
    (receipt status_token : Bytes)
    → get_header header_status_token (generate_headers receipt status_token) ≡ written status_token
unfolding get_header generate_headers lookup insert bytes_beq encode_base64
get_token-generate_headers [] [] = refl
get_token-generate_headers [] (t ∷ ts) = refl
get_token-generate_headers (r ∷ rs) [] = refl
get_token-generate_headers (r ∷ rs) (t ∷ ts) = refl

extract_values-written :
    (receipt status_token : Bytes)
    → decode_if_present (written receipt) ≡ good receipt
    → decode_if_present (written status_token) ≡ good status_token
    → extract_values (written receipt) (written status_token)
      ≡ good (record { receipt = receipt; status_token = status_token })
unfolding extract_values bytes_beq
extract_values-written [] [] a b = refl
extract_values-written [] (c ∷ ts) a b =
    rw (not_empty (encode_base64 (c ∷ ts)) (encode_base64-positive c ts)) (rw b)
extract_values-written (c ∷ rs) token a b =
    rw (not_empty (encode_base64 (c ∷ rs)) (encode_base64-positive c rs)) (rw (a, b))

-- A receipt and a token of bytes, each within the size limit, are read back from the headers that are
-- written for them; one that is empty is read as empty.
pub extract_headers-generate_headers :
    (receipt status_token : Bytes)
    → are_bytes receipt ≡ true
    → are_bytes status_token ≡ true
    → length receipt ≤ max_cose_input_size
    → length status_token ≤ max_cose_input_size
    → extract_headers (generate_headers receipt status_token)
      ≡ good (record { receipt = receipt; status_token = status_token })
unfolding extract_headers
extract_headers-generate_headers receipt status_token a b c d =
    rw
      (
        get_receipt-generate_headers receipt status_token,
        get_token-generate_headers receipt status_token,
      )
      (extract_values-written receipt status_token (decode-written receipt a c)
        (decode-written status_token b d))
