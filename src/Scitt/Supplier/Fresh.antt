-- ===== src/Scitt/Supplier/Fresh.antt =====
-- What a supplier sends.
use ans_sdk_go.Base.{
  ◌≡◌, ◌≢◌, refl, sym, ap, ◌∙◌, true, false, List, [], ◌∷◌, Bytes, inl, inr, Bool-cases, not, arith,
}
use ans_sdk_go.Base.Int.{ℤ, pos, negsuc, ltz}
use ans_sdk_go.Scitt.RootKeys.{Crypto}
use ans_sdk_go.Scitt.Cose.{Cbor}
use ans_sdk_go.Scitt.Receipt.{VerifiedReceipt}
use ans_sdk_go.Scitt.StatusToken.{VerifiedStatusToken}
use ans_sdk_go.Scitt.Supplier.{
  HeaderSupplier, Fetch, OutgoingHeaders, with_supplier_clock_skew, headers_at, current_headers,
  init_once, encode_if_non_empty, has_expired, new_header_supplier,
}
use ans_sdk_go.Scitt.Supplier.Backed.{
  IsAmong, Reach, IsAccepting, IsBacked, Reach-IsBacked, init_once-IsBacked,
}

nothing : encode_if_non_empty [] ≡ []
unfolding encode_if_non_empty
nothing = refl

not_expired : (clock exp : ℤ) → not (ltz clock exp) ≡ false → ltz clock exp ≡ true
not_expired clock exp h = ground arith

-- A new supplier with a tolerance.
abbrev pub started : (tolerance : ℤ) → HeaderSupplier
started tolerance = with_supplier_clock_skew tolerance new_header_supplier

started_empty :
    (tolerance : ℤ) → ((started tolerance).receipt ≡ []) × ((started tolerance).status_token ≡ [])
unfolding with_supplier_clock_skew new_header_supplier
started_empty (negsuc n) = (refl, refl)
started_empty (pos n) = (refl, refl)

module _ (cbor : Cbor) (crypto : Crypto) where
  -- The headers hold both replies of one of the fetches, which accepted them with its keys and at its
  -- second, and the token expires after the second at which they are sent.
  abbrev pub IsSent : List Fetch → (clock_skew : ℤ) → OutgoingHeaders → (clock : ℤ) → Type 0
  IsSent fs clock_skew h clock =
      (f : Fetch) × (receipt token : Bytes) × (r : VerifiedReceipt) × (t : VerifiedStatusToken)
      × IsAmong f fs
      × IsAccepting cbor crypto clock_skew f receipt token r t
      × (h.receipt_base64 ≡ encode_if_non_empty receipt)
      × (h.status_token_base64 ≡ encode_if_non_empty token)
      × (ltz clock t.payload.exp ≡ true)

  headers_at-IsSent :
      (fs : List Fetch) (skew : ℤ) (s : HeaderSupplier) (clock : ℤ)
      → IsBacked cbor crypto fs skew s
      → (headers_at cbor crypto s clock).status_token_base64 ≢ []
      → IsSent fs skew (headers_at cbor crypto s clock) clock
  unfolding headers_at
  headers_at-IsSent fs skew s clock b h =
      elim (Bool-cases (has_expired cbor crypto s.token_exp clock)) [
        | inl over ↦ absurd (h (rw over nothing))
        | inr fresh ↦ elim b.1 [
          | inl (_, empty) ↦ absurd (h (rw fresh (rw empty nothing)))
          | inr (f, r, t, among, accepting, e) ↦ (
            f,
            s.receipt,
            s.status_token,
            r,
            t,
            among,
            accepting,
            refl,
            rw fresh,
            not_expired clock t.payload.exp
                (sym (ap (λ x. has_expired cbor crypto x clock) e) ∙ fresh),
          )
        ]
      ]

  -- In every run from a new supplier, with any tolerance set, if CurrentHeaders sends a status token
  -- then its two headers are the replies to one fetch, of the run or its own, for which both were
  -- accepted with the keys and at the second of that fetch and with the supplier's tolerance, and
  -- the token expires after the second at which it is sent.
  pub current_headers-IsSent :
      (tolerance : ℤ) (fs : List Fetch) (s : HeaderSupplier) (f : Fetch) (clock : ℤ)
      → Reach cbor crypto (started tolerance) fs s
      → (current_headers cbor crypto s f clock).0.status_token_base64 ≢ []
      → IsSent
          (f ∷ fs)
          (started tolerance).clock_skew
          (current_headers cbor crypto s f clock).0
          clock
  unfolding current_headers
  current_headers-IsSent tolerance fs s f clock run h =
      let skew = (started tolerance).clock_skew in
      headers_at-IsSent (f ∷ fs) skew (init_once cbor crypto s f) clock
        (init_once-IsBacked cbor crypto fs skew s f
          (Reach-IsBacked cbor crypto (started tolerance) (started_empty tolerance) run))
        h
