-- ===== src/Verify/ScittKeys.antt =====
-- The checks that verifyWithHeaders of verify/verify.go calls, VerifyReceipt and VerifyStatusToken of
-- verify/scitt, with the keys of a lookup and one reading of the clock.
use ans_sdk_go.Base.{Option, none, some, []}
use ans_sdk_go.Base.Int.{ℤ, pos}
use ans_sdk_go.Scitt.Errors.{Checked, good, bad, Failure}
use ans_sdk_go.Scitt.Types.{ScittError}
use ans_sdk_go.Scitt.RootKeys.{Crypto}
use ans_sdk_go.Scitt.Cose.{Cbor}
use ans_sdk_go.Scitt.Receipt.{KeyLookup, VerifiedReceipt, verify_receipt}
use ans_sdk_go.Scitt.StatusToken.{VerifiedStatusToken, verify_status_token_at}
use ans_sdk_go.Verify.Config.{ScittCheck, TokenReply, token_error, token_ok}

-- errors.As(err, &transportErr)
abbrev pub as_scitt_error : Failure → ScittError
as_scitt_error (Failure.transport t) = ScittError.transport t
as_scitt_error e = ScittError.rejected []

abbrev pub receipt_error : Checked VerifiedReceipt → Option ScittError
receipt_error (good r) = none
receipt_error (bad e) = some (as_scitt_error e)

abbrev pub token_reply : Checked VerifiedStatusToken → TokenReply
token_reply (good t) = token_ok t.payload
token_reply (bad e) = token_error (as_scitt_error e)

-- VerifyStatusToken is the check at the current second.
unfoldable pub scitt_check : Cbor → Crypto → KeyLookup → (now : ℤ) → ScittCheck
scitt_check cbor crypto keys now = record {
  verify_receipt = λ bytes. receipt_error (verify_receipt cbor crypto bytes keys);
  verify_status_token = λ bytes clock_skew.
      token_reply (verify_status_token_at cbor crypto bytes keys (pos clock_skew) now);
}
