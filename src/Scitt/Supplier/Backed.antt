-- ===== src/Scitt/Supplier/Backed.antt =====
-- What a supplier holds was verified by one of its fetches.
use ans_sdk_go.Base.{◌≡◌, refl, sym, some, List, [], ◌∷◌, Bytes, ◌⊎◌, inl, inr, if-cases}
use mathlib.Core.Path.{subst}
use ans_sdk_go.Base.Int.{ℤ}
use ans_sdk_go.Scitt.Errors.{Checked, good, bad, Checked-cases, good_injective, >>=-good}
use ans_sdk_go.Scitt.RootKeys.{Crypto}
use ans_sdk_go.Scitt.Cose.{Cbor}
use ans_sdk_go.Scitt.Receipt.{VerifiedReceipt, verify_receipt}
use ans_sdk_go.Scitt.StatusToken.{VerifiedStatusToken, verify_status_token_at}
use ans_sdk_go.Scitt.Supplier.{
  HeaderSupplier, Fetch, Artifacts, fetch_artifacts, store_artifacts, fetch_and_verify, refresh_now,
  after_init, init_once, after_refresh, auto_refresh, record_error,
}

-- A fetch of a list.
abbrev pub IsAmong : Fetch → List Fetch → Type 0
IsAmong f [] = ⊥
IsAmong f (g ∷ fs) = (g ≡ f) ⊎ IsAmong f fs

module _ (cbor : Cbor) (crypto : Crypto) where
  -- The operations that change a supplier, with the fetch that each makes.
  pub data Step (f : Fetch) (s : HeaderSupplier) (t : HeaderSupplier) : Type 0 where
    refreshes : t ≡ (refresh_now cbor crypto s f).1 → Step f s t
    initializes : t ≡ init_once cbor crypto s f → Step f s t
    reloads : t ≡ auto_refresh cbor crypto s f → Step f s t

  -- A run, with its fetches, the last one first.
  pub data Reach (s : HeaderSupplier) : List Fetch → HeaderSupplier → Type 0 where
    here : Reach s [] s
    next :
        {fs : List Fetch} {t u : HeaderSupplier} {f : Fetch}
        → Reach s fs t
        → Step f t u
        → Reach s (f ∷ fs) u

  -- Both replies of a fetch were accepted, with the keys and at the second of that fetch.
  abbrev pub IsAccepting :
      (clock_skew : ℤ)
      → Fetch
      → (receipt token : Bytes) → VerifiedReceipt
      → VerifiedStatusToken
      → Type 0
  IsAccepting clock_skew f receipt token r t =
      (f.receipt_reply ≡ good receipt)
      × (f.token_reply ≡ good token)
      × (verify_receipt cbor crypto receipt f.keys ≡ good r)
      × (verify_status_token_at cbor crypto token f.keys clock_skew f.now ≡ good t)

  -- The receipt and the token are the replies of one of the fetches, which accepted both, and the
  -- expiry is the token's.
  abbrev pub IsAccepted : List Fetch → (clock_skew : ℤ) → HeaderSupplier → Type 0
  IsAccepted fs clock_skew s =
      (f : Fetch) × (r : VerifiedReceipt) × (t : VerifiedStatusToken) × IsAmong f fs
      × IsAccepting clock_skew f s.receipt s.status_token r t
      × (s.token_exp ≡ some t.payload.exp)

  abbrev pub IsBacked : List Fetch → (clock_skew : ℤ) → HeaderSupplier → Type 0
  IsBacked fs clock_skew s =
      (s.clock_skew ≡ clock_skew)
      × (((s.receipt ≡ []) × (s.status_token ≡ [])) ⊎ IsAccepted fs clock_skew s)

  IsBacked-later :
      (fs : List Fetch) (skew : ℤ) (s : HeaderSupplier) (f : Fetch)
      → IsBacked fs skew s
      → IsBacked (f ∷ fs) skew s
  IsBacked-later fs skew s f (k, inl empty) = (k, inl empty)
  IsBacked-later fs skew s f (k, inr (g, r, t, among, accepting, e)) =
      (k, inr (g, r, t, inr among, accepting, e))

  fetch_artifacts-IsAccepted :
      (fs : List Fetch) (s : HeaderSupplier) (f : Fetch) (a : Artifacts)
      → fetch_artifacts cbor crypto s.clock_skew f ≡ good a
      → IsAccepted (f ∷ fs) s.clock_skew (store_artifacts cbor crypto a s)
  unfolding fetch_artifacts
  fetch_artifacts-IsAccepted fs s f a h =
      let receipt = >>=-good f.receipt_reply _ h in
      let token = >>=-good f.token_reply _ receipt.2 in
      let r = >>=-good (verify_receipt cbor crypto receipt.0 f.keys) _ token.2 in
      let t =
        >>=-good (verify_status_token_at cbor crypto token.0 f.keys s.clock_skew f.now) _ r.2 in
      subst (λ a. IsAccepted (f ∷ fs) s.clock_skew (store_artifacts cbor crypto a s))
        (good_injective _ a t.2) (f, r.0, t.0, inl refl, (receipt.1, token.1, r.1, t.1), refl)

  fetch_and_verify-IsBacked :
      (fs : List Fetch) (skew : ℤ) (s : HeaderSupplier) (f : Fetch)
      → IsBacked fs skew s
      → IsBacked (f ∷ fs) skew (fetch_and_verify cbor crypto s f).1
  unfolding fetch_and_verify record_error
  fetch_and_verify-IsBacked fs skew s f b =
      elim (Checked-cases (fetch_artifacts cbor crypto s.clock_skew f)) [
        | inr (e, k) ↦ rw (k, fetch_and_verify) (IsBacked-later fs skew s f b)
        | inl (a, k) ↦
            rw (k, fetch_and_verify)
              (
                b.0,
                inr (
                    subst (λ c. IsAccepted (f ∷ fs) c (store_artifacts cbor crypto a s)) b.0
                      (fetch_artifacts-IsAccepted fs s f a k)),
              )
      ]

  after_init-IsBacked :
      (fs : List Fetch) (skew : ℤ) (o : Checked (Unit {0}) × HeaderSupplier)
      → IsBacked fs skew o.1
      → IsBacked fs skew (after_init cbor crypto o)
  after_init-IsBacked fs skew (bad e, s) b = b
  after_init-IsBacked fs skew (good u, s) b = b

  after_refresh-IsBacked :
      (fs : List Fetch) (skew : ℤ) (o : Checked (Unit {0}) × HeaderSupplier)
      → IsBacked fs skew o.1
      → IsBacked fs skew (after_refresh cbor crypto o)
  after_refresh-IsBacked fs skew (bad e, s) b = b
  after_refresh-IsBacked fs skew (good u, s) b = b

  pub init_once-IsBacked :
      (fs : List Fetch) (skew : ℤ) (s : HeaderSupplier) (f : Fetch)
      → IsBacked fs skew s
      → IsBacked (f ∷ fs) skew (init_once cbor crypto s f)
  unfolding init_once
  init_once-IsBacked fs skew s f b =
      if-cases (IsBacked (f ∷ fs) skew) s.initialized (λ e. IsBacked-later fs skew s f b)
        (λ e.
          after_init-IsBacked (f ∷ fs) skew (fetch_and_verify cbor crypto s f)
            (fetch_and_verify-IsBacked fs skew s f b))

  Step-IsBacked :
      (fs : List Fetch) (skew : ℤ) {f : Fetch} {s t : HeaderSupplier}
      → Step f s t
      → IsBacked fs skew s
      → IsBacked (f ∷ fs) skew t
  unfolding refresh_now auto_refresh
  Step-IsBacked fs skew {f} {s} (refreshes e) b =
      subst (IsBacked (f ∷ fs) skew) (sym e) (fetch_and_verify-IsBacked fs skew s f b)
  Step-IsBacked fs skew {f} {s} (initializes e) b =
      subst (IsBacked (f ∷ fs) skew) (sym e) (init_once-IsBacked fs skew s f b)
  Step-IsBacked fs skew {f} {s} (reloads e) b = subst (IsBacked (f ∷ fs) skew) (sym e) (
      after_refresh-IsBacked (f ∷ fs) skew (fetch_and_verify cbor crypto s f)
        (fetch_and_verify-IsBacked fs skew s f b))

  -- In every run from a supplier that holds nothing, whatever the log replies and however fetches
  -- fail, the supplier holds nothing, or both replies of one of the run's fetches, which accepted
  -- them with the tolerance of the start, and the token's expiry.
  pub Reach-IsBacked :
      (start : HeaderSupplier) {fs : List Fetch} {s : HeaderSupplier}
      → (start.receipt ≡ []) × (start.status_token ≡ [])
      → Reach start fs s
      → IsBacked fs start.clock_skew s
  Reach-IsBacked start empty here = (refl, inl empty)
  Reach-IsBacked start empty (next {fs} run step) =
      Step-IsBacked fs start.clock_skew step (Reach-IsBacked start empty run)
