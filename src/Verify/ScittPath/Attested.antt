-- ===== src/Verify/ScittPath/Attested.antt =====
-- verifyWithHeaders with the real checks of receipts and tokens.
use ans_sdk_go.Base.{◌≡◌, ◌⊎◌, inl, inr, refl, sym, ◌∙◌, ap, none, some, Option, Bytes}
use mathlib.Core.Path.{subst}
use ans_sdk_go.Base.Int.{ℤ, pos}
use ans_sdk_go.Models.Fqdn.{Fqdn}
use ans_sdk_go.Scitt.Errors.{Checked, good, bad}
use ans_sdk_go.Scitt.Types.{Headers, StatusTokenPayload}
use ans_sdk_go.Scitt.RootKeys.{Crypto}
use ans_sdk_go.Scitt.Cose.{Cbor}
use ans_sdk_go.Scitt.Receipt.{KeyLookup, VerifiedReceipt, verify_receipt}
use ans_sdk_go.Scitt.Receipt.Accepted.{IsReceipt, verify_receipt-IsReceipt}
use ans_sdk_go.Scitt.StatusToken.{VerifiedStatusToken, verify_status_token_at}
use ans_sdk_go.Scitt.StatusToken.Accepted.{IsSigned, IsCurrent, verify_status_token_at-IsSigned}
use ans_sdk_go.Verify.BadgeCache.{BadgeCache}
use ans_sdk_go.Verify.Cert.{CertIdentity}
use ans_sdk_go.Verify.Config.{VerifierConfig, ScittCheck, token_ok}
use ans_sdk_go.Verify.Outcome.{verified}
use ans_sdk_go.Verify.ScittKeys.{scitt_check, receipt_error, token_reply}
use ans_sdk_go.Verify.ScittPath.{CertRole, Result, verify_with_headers}
use ans_sdk_go.Verify.ScittPath.Binding.{IsBound, verify_with_headers-verified}

receipt_error-none :
    (c : Checked VerifiedReceipt) → receipt_error c ≡ none → (r : VerifiedReceipt) × (c ≡ good r)
receipt_error-none (good r) h = (r, refl)
receipt_error-none (bad e) h = cc

token_reply-ok :
    (c : Checked VerifiedStatusToken) (p : StatusTokenPayload)
    → token_reply c ≡ token_ok p
    → (t : VerifiedStatusToken) × (c ≡ good t) × (t.payload ≡ p)
token_reply-ok (good t) p h = (t, refl, cc)
token_reply-ok (bad e) p h = cc

some_check : (a b : ScittCheck) → Option.some a ≡ some b → a ≡ b
some_check a b h = cc

module _ (sha256 sha512 : Bytes → Bytes) (cbor : Cbor) (crypto : Crypto) (keys : KeyLookup)
    (now : ℤ) (config : VerifierConfig) (f : Fqdn) (cert : CertIdentity) where
  -- An accepted receipt, and an accepted and current token that is bound to the certificate.
  abbrev pub IsEvidenced : Headers → CertRole → Type 0
  IsEvidenced headers role =
      (r : VerifiedReceipt) × (t : VerifiedStatusToken) × IsReceipt cbor crypto headers.receipt keys
        r
      × IsSigned cbor crypto headers.status_token keys t
      × IsCurrent t.payload (pos config.clock_skew_tolerance) now
      × IsBound sha256 sha512 config f cert role t.payload

  evidence :
      (headers : Headers) (role : CertRole) (check : ScittCheck) (payload : StatusTokenPayload)
      → check ≡ scitt_check cbor crypto keys now
      → check.verify_receipt headers.receipt ≡ none
      → check.verify_status_token headers.status_token config.clock_skew_tolerance
        ≡ token_ok payload
      → IsBound sha256 sha512 config f cert role payload
      → IsEvidenced headers role
  unfolding scitt_check
  evidence headers role check payload e receipt_ok token_fine bound =
      let (r, accepted) =
        receipt_error-none (verify_receipt cbor crypto headers.receipt keys)
          (sym (ap (λ c. c.verify_receipt headers.receipt) e) ∙ receipt_ok) in
      let (t, current, own) =
        token_reply-ok
          (verify_status_token_at cbor crypto headers.status_token keys
            (pos config.clock_skew_tolerance) now)
          payload
          (sym (ap (λ c. c.verify_status_token headers.status_token config.clock_skew_tolerance) e)
            ∙ token_fine) in
      let (signed, fresh) =
        verify_status_token_at-IsSigned cbor crypto headers.status_token keys
          (pos config.clock_skew_tolerance) now t current in
      (
        r,
        t,
        verify_receipt-IsReceipt cbor crypto headers.receipt keys r accepted,
        signed,
        fresh,
        subst (IsBound sha256 sha512 config f cert role) (sym own) bound,
      )

  -- With the key lookup of the configuration, the SCITT path verifies a certificate only with the
  -- result of the badge path, or on a receipt and a token that trusted keys signed, the token current
  -- at the instant and of a status that allows connections, with the certificate's fingerprint in its
  -- list for the role and the requested name as the host of its ANS name; and then DANE, where
  -- configured, did not reject.
  pub verify_with_headers-IsEvidenced :
      (headers : Headers) (role : CertRole) (cache : Option BadgeCache) (fallback : Result)
      → config.scitt_key_lookup ≡ some (scitt_check cbor crypto keys now)
      → (verify_with_headers sha256 sha512 config f cert headers role cache fallback).0.outcome_type
        ≡ verified
      → (verify_with_headers sha256 sha512 config f cert headers role cache fallback ≡ fallback)
        ⊎ IsEvidenced headers role
  verify_with_headers-IsEvidenced headers role cache fallback lookup h =
      elim (verify_with_headers-verified sha256 sha512 config f cert headers role cache fallback
        h) [
          | inl same ↦ inl same
          | inr (check, payload, e, receipt_ok, token_ok', bound) ↦ inr (
              evidence headers role check payload
                (some_check check (scitt_check cbor crypto keys now) (sym e ∙ lookup)) receipt_ok
                token_ok' bound)
        ]
