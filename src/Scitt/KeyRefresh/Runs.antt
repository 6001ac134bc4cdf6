-- ===== src/Scitt/KeyRefresh/Runs.antt =====
-- Runs of a refreshable key store: sequences of the writes of any goroutines.
use ans_sdk_go.Base.{
  ℕ, ◌≡◌, refl, sym, ap, ◌∙◌, Option-cases, if-cases, if_false, true, false, not, some, List, ◌∷◌,
  ◌++◌, Bytes, bytes_eq, inl, inr,
}
use mathlib.Core.Path.{subst}
use ans_sdk_go.Base.Table.{lookup}
use ans_sdk_go.Scitt.Errors.{Checked, good, bad, sig, unknown_key_id, not_bad, good_injective}
use ans_sdk_go.Scitt.RootKeys
use ans_sdk_go.Scitt.RootKeys.{Crypto, TrustedKey, KeyStore, parse_c2sp_key, merge_from}
use ans_sdk_go.Scitt.RootKeys.Merge.{merge_from-keeps, merge_from-learns}
use ans_sdk_go.Scitt.RootKeys.Authentic.{IsAuthentic, merge_from-IsAuthentic}
use ans_sdk_go.Scitt.KeyRefresh.{
  RefreshableKeyStore, get, within_cooldown, publish, do_refresh, refreshed, refresh_gated,
  refresh_if_cooldown_elapsed,
}

module _ (crypto : Crypto) where
  pub data Reach (r : RefreshableKeyStore) : RefreshableKeyStore → Type 0 where
    here : Reach r r
    next :
        {s t : RefreshableKeyStore} (keys : List Bytes) (now : ℕ)
        → Reach r s
        → t ≡ publish crypto s keys now
        → Reach r t

  found :
      (s : KeyStore) (kid : Bytes) (tk : TrustedKey)
      → RootKeys.get s kid ≡ good tk
      → lookup kid s.keys ≡ some tk
  unfolding RootKeys.get
  found s kid tk h = elim (Option-cases (lookup kid s.keys)) [
    | inr (held, m) ↦ m ∙ ap some (good_injective held tk (rw m at h))
    | inl m ↦ absurd (not_bad (sig unknown_key_id kid) tk (rw m at h))
  ]

  publish-keeps :
      (r : RefreshableKeyStore) (keys : List Bytes) (now : ℕ) (kid : Bytes) (tk : TrustedKey)
      → get r kid ≡ good tk
      → get (publish crypto r keys now) kid ≡ good tk
  unfolding get publish RootKeys.get
  publish-keeps r keys now kid tk h =
      rw (merge_from-keeps crypto r.snapshot keys kid tk (found r.snapshot kid tk h))

  publish-IsAuthentic :
      (r : RefreshableKeyStore) (keys : List Bytes) (now : ℕ)
      → IsAuthentic crypto r.snapshot.keys
      → IsAuthentic crypto (publish crypto r keys now).snapshot.keys
  unfolding publish
  publish-IsAuthentic r keys now a = merge_from-IsAuthentic crypto r.snapshot keys a

  -- What an operation returns is the end of a run.
  abbrev Lands : RefreshableKeyStore → {A : Type 0} → Checked A × RefreshableKeyStore → Type 0
  Lands r o = Reach r o.1

  do_refresh-Reach :
      (r : RefreshableKeyStore) (reply : Checked (List Bytes)) (now : ℕ)
      → Reach r (do_refresh crypto r reply now).1
  unfolding do_refresh
  do_refresh-Reach r (bad e) now = if-cases (Lands r) (not r.has_client) (λ k. here) (λ k. here)
  do_refresh-Reach r (good keys) now =
      if-cases (Lands r) (not r.has_client) (λ k. here) (λ k. next keys now here refl)

  refreshed-Reach :
      (r : RefreshableKeyStore) (o : Checked (Unit {0}) × RefreshableKeyStore)
      → Reach r o.1
      → Reach r (refreshed crypto o).1
  refreshed-Reach r (good u, s) h = h
  refreshed-Reach r (bad e, s) h = h

  refresh_gated-Reach :
      (r : RefreshableKeyStore) (reply : Checked (List Bytes)) (checked now : ℕ)
      → Reach r (refresh_gated crypto r reply checked now).1
  unfolding refresh_gated
  refresh_gated-Reach r reply checked now =
      if-cases (Lands r) (within_cooldown r checked) (λ k. here)
        (λ k. refreshed-Reach r (do_refresh crypto r reply now) (do_refresh-Reach r reply now))

  -- A call of RefreshIfCooldownElapsed, whatever the client replies, is a run.
  pub refresh_if_cooldown_elapsed-Reach :
      (r : RefreshableKeyStore) (reply : Checked (List Bytes)) (start checked now : ℕ)
      → Reach r (refresh_if_cooldown_elapsed crypto r reply start checked now).1
  unfolding refresh_if_cooldown_elapsed
  refresh_if_cooldown_elapsed-Reach r reply start checked now =
      if-cases (Lands r) (not r.has_client) (λ k. here)
        (λ k.
          if-cases (Lands r) (within_cooldown r start) (λ m. here)
            (λ m. refresh_gated-Reach r reply checked now))

  -- In a run of any refreshes, a key that is found stays the key found under its key ID.
  pub Reach-keeps :
      {r s : RefreshableKeyStore} (kid : Bytes) (tk : TrustedKey)
      → get r kid ≡ good tk
      → Reach r s
      → get s kid ≡ good tk
  Reach-keeps kid tk h here = h
  Reach-keeps {r} kid tk h (next {s} keys now run e) =
      subst (λ t. get t kid ≡ good tk) (sym e)
        (publish-keeps s keys now kid tk (Reach-keeps kid tk h run))

  -- In a run from a store of genuine keys, the keys are genuine.
  pub Reach-IsAuthentic :
      {r s : RefreshableKeyStore}
      → IsAuthentic crypto r.snapshot.keys
      → Reach r s
      → IsAuthentic crypto s.snapshot.keys
  Reach-IsAuthentic a here = a
  Reach-IsAuthentic a (next {s} keys now run e) =
      subst (λ t. IsAuthentic crypto t.snapshot.keys) (sym e)
        (publish-IsAuthentic s keys now (Reach-IsAuthentic a run))

  publish-learns :
      (r : RefreshableKeyStore) (earlier later : List Bytes) (ks : Bytes) (tk : TrustedKey)
      (now : ℕ)
      → parse_c2sp_key crypto ks ≡ good tk
      → (held : TrustedKey) × (get (publish crypto r (earlier ++ ks ∷ later) now) tk.kid
          ≡ good held)
  unfolding get publish RootKeys.get
  publish-learns r earlier later ks tk now k =
      let (held, m) = merge_from-learns crypto r.snapshot earlier later ks tk k in (held, rw m)

  refresh_if_cooldown_elapsed-publishes :
      (r : RefreshableKeyStore) (keys : List Bytes) (start checked now : ℕ)
      → r.has_client ≡ true
      → within_cooldown r start ≡ false
      → within_cooldown r checked ≡ false
      → refresh_if_cooldown_elapsed crypto r (good keys) start checked now
        ≡ (good true, publish crypto r keys now)
  unfolding refresh_if_cooldown_elapsed refresh_gated do_refresh
  refresh_if_cooldown_elapsed-publishes r keys start checked now client a b =
      if_false (not r.has_client) _ _ (ap not client)
      ∙ if_false (within_cooldown r start) _ _ a
      ∙ if_false (within_cooldown r checked) _ _ b
      ∙ ap (refreshed crypto) (if_false (not r.has_client) _ _ (ap not client))

  -- Once the cooldown has gone by, a call whose client replies with a list of keys refreshes, and the
  -- key ID of each key of the list that parses is known from then on, in every further run.
  pub refresh_if_cooldown_elapsed-learns :
      (r t : RefreshableKeyStore) (earlier later : List Bytes) (ks : Bytes) (tk : TrustedKey)
      (start checked now : ℕ)
      → r.has_client ≡ true
      → within_cooldown r start ≡ false
      → within_cooldown r checked ≡ false
      → parse_c2sp_key crypto ks ≡ good tk
      → Reach
          (refresh_if_cooldown_elapsed crypto r (good (earlier ++ ks ∷ later)) start checked now).1
          t
      → ((refresh_if_cooldown_elapsed crypto r (good (earlier ++ ks ∷ later)) start checked now).0
          ≡ good true)
        × ((held : TrustedKey) × (get t tk.kid ≡ good held))
  refresh_if_cooldown_elapsed-learns r t earlier later ks tk start checked now client a b k run =
      let e =
        refresh_if_cooldown_elapsed-publishes r (earlier ++ ks ∷ later) start checked now client a
          b in
      let (held, m) = publish-learns r earlier later ks tk now k in
      (ap (λ o. o.0) e, (held, Reach-keeps tk.kid held m (subst (λ o. Reach o.1 t) e run)))
