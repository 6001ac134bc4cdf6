-- ===== src/Scitt/KeyRefresh/Cooldown.antt =====
-- On-demand refreshes within the cooldown.
use ans_sdk_go.Base.{
  ℕ, ◌+◌, ◌<◌, ◌≡◌, ◌≢◌, refl, Bool, false, true, if-cases, some, List, [], ◌∷◌, Bytes, arith, not,
}
use ans_sdk_go.Base.Int.{pos, ltz}
use ans_sdk_go.Scitt.Errors.{Checked}
use ans_sdk_go.Scitt.RootKeys.{Crypto}
use ans_sdk_go.Scitt.KeyRefresh.{RefreshableKeyStore, within_cooldown, refresh_if_cooldown_elapsed}

-- A call of RefreshIfCooldownElapsed: the client's reply and three readings of the clock.
pub record Call : Type 0 where
  pub reply : Checked (List Bytes)
  pub start : ℕ
  pub checked : ℕ
  pub now : ℕ

module _ (crypto : Crypto) where
  unfoldable pub request : RefreshableKeyStore → Call → RefreshableKeyStore
  request r c = (refresh_if_cooldown_elapsed crypto r c.reply c.start c.checked c.now).1

  unfoldable pub requests : RefreshableKeyStore → List Call → RefreshableKeyStore
  requests r [] = r
  requests r (c ∷ calls) = requests (request r c) calls

  abbrev pub AllBefore : ℕ → List Call → Type 0
  AllBefore t [] = Unit
  AllBefore t (c ∷ calls) = (c.start < t) × AllBefore t calls

  clash : {b : Bool} → b ≡ true → b ≢ false
  clash h k = cc

  within :
      (r : RefreshableKeyStore) (at_time d now : ℕ)
      → r.last_refreshed ≡ some at_time
      → r.cooldown ≡ pos d
      → now < at_time + d
      → within_cooldown r now ≡ true
  unfolding within_cooldown ltz
  within r at_time d now l c h = ground arith

  -- An operation returns the store it was given.
  abbrev Stays : RefreshableKeyStore → Checked Bool × RefreshableKeyStore → Type 0
  Stays r o = o.1 ≡ r

  request-stays :
      (r : RefreshableKeyStore) (c : Call) → within_cooldown r c.start ≡ true → request r c ≡ r
  unfolding request refresh_if_cooldown_elapsed
  request-stays r c h =
      if-cases (Stays r) (not r.has_client) (λ k. refl)
        (λ k. if-cases (Stays r) (within_cooldown r c.start) (λ m. refl) (λ m. absurd (clash h m)))

  -- After a refresh, no number of on-demand calls that begin before the cooldown has gone by changes
  -- the store.
  pub requests-within_cooldown :
      (r : RefreshableKeyStore) (at_time d : ℕ) (calls : List Call)
      → r.last_refreshed ≡ some at_time
      → r.cooldown ≡ pos d
      → AllBefore (at_time + d) calls
      → requests r calls ≡ r
  unfolding requests
  requests-within_cooldown r at_time d [] l c h = refl
  requests-within_cooldown r at_time d (call ∷ calls) l c h =
      rw (request-stays r call (within r at_time d call.start l c h.0))
        (requests-within_cooldown r at_time d calls l c h.1)
