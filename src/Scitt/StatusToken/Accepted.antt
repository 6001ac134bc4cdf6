-- ===== src/Scitt/StatusToken/Accepted.antt =====
-- What an accepted status token says.
use ans_sdk_go.Base.{
  ℕ, ◌+◌, ◌≤◌, ◌≡◌, refl, ap, false, Option, none, some, arith, Bytes, inl, inr, bytes_eq,
  passed_equal,
}
use mathlib.Core.Path.{subst}
use ans_sdk_go.Base.Int.{ℤ, pos, ltz}
use ans_sdk_go.Scitt.Types.{StatusTokenPayload, is_terminal}
use ans_sdk_go.Scitt.Errors.{good, good_injective, >>=-good, fail_if-good, fail_if_last}
use ans_sdk_go.Scitt.RootKeys.{Crypto, TrustedKey}
use ans_sdk_go.Scitt.Cose.{Cbor, ParsedCoseSign1, parse_cose_sign1, verify_ecdsa}
use ans_sdk_go.Scitt.Receipt.{KeyLookup}
use ans_sdk_go.Scitt.Receipt.Accepted.{IsVerified, IsIssuer, verify_ecdsa-IsVerified}
use ans_sdk_go.Scitt.TokenPayload.{decode_status_payload}
use ans_sdk_go.Scitt.StatusToken.{
  VerifiedStatusToken, skew_seconds, add_seconds, issuer_differs, check_status,
  verify_status_token_at,
}

-- A payload is current at an instant: of a status that is not terminal, and not expired.
abbrev pub IsCurrent : StatusTokenPayload → (clock_skew now : ℤ) → Type 0
IsCurrent p clock_skew now =
    (is_terminal p.status ≡ false)
    × ((exp t : ℕ) → p.exp ≡ pos exp → now ≡ pos t → t ≤ exp + skew_seconds clock_skew)

not_expired : (exp t k : ℕ) → ltz (add_seconds (pos exp) k) (pos t) ≡ false → t ≤ exp + k
unfolding ltz add_seconds
not_expired exp t k h = ground arith

check_status-IsCurrent :
    (p : StatusTokenPayload) (clock_skew now : ℤ) {u : Unit {0}}
    → check_status p clock_skew now ≡ good u
    → IsCurrent p clock_skew now
unfolding check_status
check_status-IsCurrent p clock_skew now h =
    let timely = fail_if-good (ltz (add_seconds p.exp (skew_seconds clock_skew)) now) _ _ h in
    (
      fail_if_last (is_terminal p.status) _ timely.1,
      λ exp t e k. not_expired exp t (skew_seconds clock_skew) (rw (e, k) at timely.0),
    )

module _ (cbor : Cbor) (crypto : Crypto) where
  issuer_differs-IsIssuer :
      (iss : Option Bytes) (key : TrustedKey)
      → issuer_differs iss key.name ≡ false
      → IsIssuer cbor crypto iss key
  unfolding issuer_differs
  issuer_differs-IsIssuer none key h = inl refl
  issuer_differs-IsIssuer (some iss) key h = inr (ap some (passed_equal iss key.name h))

  -- The token parses, its key is trusted, the signature verifies with that key, the issuer is the
  -- key's, and the payload is what is decoded of it.
  abbrev pub IsSigned : Bytes → KeyLookup → VerifiedStatusToken → Type 0
  IsSigned token_bytes keys t =
      (cose : ParsedCoseSign1) × (key : TrustedKey) × (parse_cose_sign1 cbor token_bytes
        ≡ good cose)
      × (keys t.key_id ≡ good key)
      × IsVerified cbor crypto cose key
      × IsIssuer cbor crypto cose.protected.cwt_iss key
      × (decode_status_payload cbor cose.payload ≡ good t.payload)

  -- An accepted status token parses, is signed with the trusted key that its key ID names, whose name
  -- is its issuer, where it names one; its payload is what is decoded from what is signed, and is of
  -- a status that is not terminal; and if its expiry and the instant are not negative, the instant is
  -- at most the expiry and the tolerance.
  pub verify_status_token_at-IsSigned :
      (token_bytes : Bytes) (keys : KeyLookup) (clock_skew now : ℤ) (t : VerifiedStatusToken)
      → verify_status_token_at cbor crypto token_bytes keys clock_skew now ≡ good t
      → IsSigned token_bytes keys t × IsCurrent t.payload clock_skew now
  unfolding verify_status_token_at
  verify_status_token_at-IsSigned token_bytes keys clock_skew now t h =
      let cose = >>=-good (parse_cose_sign1 cbor token_bytes) _ h in
      let c = cose.0 in
      let key = >>=-good (keys c.protected.kid) _ cose.2 in
      let signed =
        >>=-good
          (verify_ecdsa cbor crypto key.0.key c.protected_bytes c.payload c.signature
            c.protected.kid)
          _ key.2 in
      let own = fail_if-good (issuer_differs c.protected.cwt_iss key.0.name) _ _ signed.2 in
      let payload = >>=-good (decode_status_payload cbor c.payload) _ own.1 in
      let current = >>=-good (check_status payload.0 clock_skew now) _ payload.2 in
      subst (λ t. IsSigned token_bytes keys t × IsCurrent t.payload clock_skew now)
        (good_injective _ t current.2)
        (
          (
            c,
            key.0,
            cose.1,
            key.1,
            verify_ecdsa-IsVerified cbor crypto c key.0 c.protected.kid signed.1,
            issuer_differs-IsIssuer c.protected.cwt_iss key.0 own.0,
            payload.1,
          ),
          check_status-IsCurrent payload.0 clock_skew now current.1,
        )
