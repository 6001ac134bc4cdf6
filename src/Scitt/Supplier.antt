-- ===== src/Scitt/Supplier.antt =====
-- verify/scitt/supplier.go. A nil slice is empty. What the client replies, the key lookup of the key
-- store, and the readings of the clock, are arguments of an operation; the locked regions of one
-- call follow each other.
pub mod Backed
pub mod Fresh
use ans_sdk_go.Base.{
  ℕ, ◌+◌, ◌*◌, ◌/◌, Bool, true, false, not, ◌&&◌, ◌==◌, bytes_eq, Option, none, some, [], ◌∷◌, ltb,
  if◌then◌else◌, Bytes,
}
use ans_sdk_go.Base.Int.{ℤ, pos, negsuc, ltz}
use ans_sdk_go.Base.Text.Base64.{encode_base64, decode_base64}
use ans_sdk_go.Scitt.Errors.{Checked, good, bad, Failure, transport, ◌>>=◌, ◌>>◌, or_fail}
use ans_sdk_go.Scitt.Types.{base64_decode}
use ans_sdk_go.Scitt.RootKeys.{Crypto}
use ans_sdk_go.Scitt.Cose.{Cbor}
use ans_sdk_go.Scitt.Receipt.{KeyLookup, verify_receipt}
use ans_sdk_go.Scitt.StatusToken.{max_clock_skew, verify_status_token_at}
use ans_sdk_go.Scitt.HttpHeaders.{HttpHeader, generate_headers}

pub record OutgoingHeaders : Type 0 where
  pub receipt_base64 : Bytes
  pub status_token_base64 : Bytes

unfoldable pub is_empty : OutgoingHeaders → Bool
is_empty h = h.receipt_base64 == [] && h.status_token_base64 == []

abbrev pub decode_or_nil : Bytes → Checked Bytes
decode_or_nil [] = good []
decode_or_nil (c ∷ s) = or_fail (decode_base64 (c ∷ s)) (transport base64_decode)

unfoldable pub to_http_headers : OutgoingHeaders → Checked HttpHeader
to_http_headers h = do
  receipt ← decode_or_nil h.receipt_base64
  token ← decode_or_nil h.status_token_base64
  good (generate_headers receipt token)

pub record HeaderSupplier : Type 0 where
  pub clock_skew : ℤ
  pub receipt : Bytes
  pub status_token : Bytes
  pub token_exp : Option ℤ
  pub initialized : Bool
  pub last_error : Option Failure

-- Thirty seconds in nanoseconds.
abbrev pub default_supplier_clock_skew : ℕ
default_supplier_clock_skew = 30 * 1000000000

abbrev pub min_auto_refresh_interval : ℕ
min_auto_refresh_interval = 10 * 1000000000

unfoldable pub new_header_supplier : HeaderSupplier
new_header_supplier = record {
  clock_skew = pos default_supplier_clock_skew;
  receipt = [];
  status_token = [];
  token_exp = none;
  initialized = false;
  last_error = none;
}

unfoldable pub with_supplier_clock_skew : ℤ → HeaderSupplier → HeaderSupplier
with_supplier_clock_skew (negsuc n) s = record s { clock_skew = pos 0 }
with_supplier_clock_skew (pos d) s = record s {
  clock_skew = pos (if ltb max_clock_skew d then max_clock_skew else d);
}

unfoldable pub healthy : HeaderSupplier → Bool
healthy s = elim s.last_error [ none ↦ s.initialized | some e ↦ false ]

unfoldable pub encode_if_non_empty : Bytes → Bytes
encode_if_non_empty [] = []
encode_if_non_empty (b ∷ bs) = encode_base64 (b ∷ bs)

-- What one fetch meets: the client's replies, the keys and the second of the check.
pub record Fetch : Type 0 where
  pub receipt_reply : Checked Bytes
  pub token_reply : Checked Bytes
  pub keys : KeyLookup
  pub now : ℤ

-- The receipt, the token and its expiry.
pub record Artifacts : Type 0 where
  pub receipt : Bytes
  pub token : Bytes
  pub exp : ℤ

unfoldable pub record_error : Failure → HeaderSupplier → Checked (Unit {0}) × HeaderSupplier
record_error e s = (bad e, record s { last_error = some e })

module _ (cbor : Cbor) (crypto : Crypto) where
  -- What fetchAndVerify does before it writes.
  unfoldable pub fetch_artifacts : (clock_skew : ℤ) → Fetch → Checked Artifacts
  fetch_artifacts clock_skew f = do
    receipt_bytes ← f.receipt_reply
    token_bytes ← f.token_reply
    _ ← verify_receipt cbor crypto receipt_bytes f.keys
    verified ← verify_status_token_at cbor crypto token_bytes f.keys clock_skew f.now
    good (record { receipt = receipt_bytes; token = token_bytes; exp = verified.payload.exp })

  abbrev pub store_artifacts : Artifacts → HeaderSupplier → HeaderSupplier
  store_artifacts a s = record s {
    receipt = a.receipt;
    status_token = a.token;
    token_exp = some a.exp;
    last_error = none;
  }

  unfoldable pub fetch_and_verify : HeaderSupplier → Fetch → Checked (Unit {0}) × HeaderSupplier
  fetch_and_verify s f = elim (fetch_artifacts s.clock_skew f) [
    | bad e ↦ record_error e s
    | good a ↦ (good tt, store_artifacts a s)
  ]

  unfoldable pub refresh_now : HeaderSupplier → Fetch → Checked (Unit {0}) × HeaderSupplier
  refresh_now s f = fetch_and_verify s f

  abbrev pub after_init : Checked (Unit {0}) × HeaderSupplier → HeaderSupplier
  after_init (bad e, s) = record s { last_error = some e }
  after_init (good u, s) = record s { initialized = true; last_error = none }

  unfoldable pub init_once : HeaderSupplier → Fetch → HeaderSupplier
  init_once s f = if s.initialized then s else after_init (fetch_and_verify s f)

  -- A round of autoRefreshLoop after its wait.
  abbrev pub after_refresh : Checked (Unit {0}) × HeaderSupplier → HeaderSupplier
  after_refresh (bad e, s) = s
  after_refresh (good u, s) = record s { initialized = true }

  unfoldable pub auto_refresh : HeaderSupplier → Fetch → HeaderSupplier
  auto_refresh s f = after_refresh (fetch_and_verify s f)

  abbrev pub has_expired : Option ℤ → (clock : ℤ) → Bool
  has_expired none clock = false
  has_expired (some exp) clock = not (ltz clock exp)

  -- The headers of a supplier at a second.
  unfoldable pub headers_at : HeaderSupplier → (clock : ℤ) → OutgoingHeaders
  headers_at s clock = record {
    receipt_base64 = encode_if_non_empty s.receipt;
    status_token_base64 =
        encode_if_non_empty (if has_expired s.token_exp clock then [] else s.status_token);
  }

  unfoldable pub current_headers :
      HeaderSupplier → Fetch → (clock : ℤ) → OutgoingHeaders × HeaderSupplier
  current_headers s f clock = let s' = init_once s f in (headers_at s' clock, s')

-- The wait of autoRefreshLoop: `jittered` is half of what is left of the token, with the jitter, as
-- the source computes it in floating point.
unfoldable pub compute_refresh_interval : Option ℤ → (jittered : ℤ) → ℤ
compute_refresh_interval none jittered = pos min_auto_refresh_interval
compute_refresh_interval (some exp) jittered =
    if ltz jittered (pos min_auto_refresh_interval) then pos min_auto_refresh_interval else jittered
