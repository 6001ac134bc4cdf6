-- ===== src/Scitt/StatusToken.antt =====
-- VerifyStatusTokenAt of verify/scitt/status_token.go. A time is a 64-bit number of seconds, and a
-- sum of two wraps around.
pub mod Accepted
use ans_sdk_go.Base.{
  ℕ, ◌+◌, ◌-◌, ◌*◌, ◌/◌, ◌==◌, bytes_eq, Bool, true, false, Option, none, some, not, leb, ltb,
  if◌then◌else◌, Bytes,
}
use ans_sdk_go.Base.Int.{ℤ, pos, negsuc, ◌+ℤ◌, ltz}
use ans_sdk_go.Scitt.Errors.{
  Checked, good, token, sig, token_expired, terminal_status, issuer_mismatch, ◌>>=◌, ◌>>◌, fail_if,
}
use ans_sdk_go.Scitt.Types.{StatusTokenPayload, is_terminal}
use ans_sdk_go.Scitt.RootKeys.{Crypto}
use ans_sdk_go.Scitt.Cose.{Cbor, parse_cose_sign1, verify_ecdsa}
use ans_sdk_go.Scitt.Receipt.{KeyLookup}
use ans_sdk_go.Scitt.TokenPayload.{decode_status_payload}

pub record VerifiedStatusToken : Type 0 where
  pub payload : StatusTokenPayload
  pub key_id : Bytes

abbrev pub max_clock_skew : ℕ
max_clock_skew = 600 * 1000000000

-- The tolerance in whole seconds, between zero and the maximum.
unfoldable pub skew_seconds : ℤ → ℕ
skew_seconds (negsuc n) = 0
skew_seconds (pos d) = (if ltb max_clock_skew d then max_clock_skew else d) / 1000000000

abbrev pub max_int64 : ℕ
max_int64 = 9223372036854775807

-- The sum of an int64 and a number of seconds, as int64 has it.
unfoldable pub add_seconds : ℤ → ℕ → ℤ
add_seconds (negsuc n) k = negsuc n +ℤ pos k
add_seconds (pos n) k =
    if leb (n + k) max_int64 then pos (n + k) else negsuc (18446744073709551616 - (n + k) - 1)

unfoldable pub issuer_differs : Option Bytes → Bytes → Bool
issuer_differs none name = false
issuer_differs (some iss) name = not (iss == name)

-- Steps 6 and 7.
unfoldable pub check_status : StatusTokenPayload → (clock_skew now : ℤ) → Checked (Unit {0})
unfolding add_seconds skew_seconds
check_status p clock_skew now = do
  fail_if (ltz (add_seconds p.exp (skew_seconds clock_skew)) now) (token token_expired)
  fail_if (is_terminal p.status) (token terminal_status)

module _ (cbor : Cbor) (crypto : Crypto) where
  unfoldable pub verify_status_token_at :
      Bytes → KeyLookup → (clock_skew now : ℤ) → Checked VerifiedStatusToken
  verify_status_token_at token_bytes keys clock_skew now = do
    cose ← parse_cose_sign1 cbor token_bytes
    trusted_key ← keys cose.protected.kid
    verify_ecdsa cbor crypto trusted_key.key cose.protected_bytes cose.payload cose.signature
        cose.protected.kid
    fail_if (issuer_differs cose.protected.cwt_iss trusted_key.name)
        (sig issuer_mismatch cose.protected.kid)
    payload ← decode_status_payload cbor cose.payload
    check_status payload clock_skew now
    good (record { payload = payload; key_id = cose.protected.kid })
