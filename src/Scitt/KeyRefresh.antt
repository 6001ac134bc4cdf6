-- ===== src/Scitt/KeyRefresh.antt =====
-- verify/scitt/refreshable_key_store.go. An operation takes the readings of the clock and the
-- client's reply as arguments; a nil client is `has_client = false`. The snapshot is written in one
-- place, the locked region of DoRefresh, which is `publish`.
pub mod Runs
pub mod Cooldown
use ans_sdk_go.Base.{ℕ, ◌*◌, Bool, true, false, not, Option, none, some, List, if◌then◌else◌, Bytes}
use ans_sdk_go.Base.Int.{ℤ, pos, difference, ltz}
use ans_sdk_go.Scitt.Errors.{Checked, good, bad}
use ans_sdk_go.Scitt.RootKeys
use ans_sdk_go.Scitt.RootKeys.{Crypto, TrustedKey, KeyStore, merge_from}

pub record RefreshableKeyStore : Type 0 where
  pub has_client : Bool
  pub cooldown : ℤ
  pub snapshot : KeyStore
  pub last_refreshed : Option ℕ

-- Five minutes in nanoseconds.
abbrev pub default_on_demand_cooldown : ℕ
default_on_demand_cooldown = 300 * 1000000000

unfoldable pub new_refreshable_key_store : KeyStore → Bool → RefreshableKeyStore
new_refreshable_key_store initial has_client = record {
  has_client = has_client;
  cooldown = pos default_on_demand_cooldown;
  snapshot = initial;
  last_refreshed = none;
}

unfoldable pub with_cooldown : ℤ → RefreshableKeyStore → RefreshableKeyStore
with_cooldown d r = record r { cooldown = d }

unfoldable pub get : RefreshableKeyStore → Bytes → Checked TrustedKey
get r kid = RootKeys.get r.snapshot kid

unfoldable pub len : RefreshableKeyStore → ℕ
len r = RootKeys.len r.snapshot

unfoldable pub is_empty : RefreshableKeyStore → Bool
is_empty r = RootKeys.is_empty r.snapshot

-- Less than the cooldown has gone by since the last refresh.
unfoldable pub within_cooldown : RefreshableKeyStore → ℕ → Bool
within_cooldown r now = elim r.last_refreshed [
  | none ↦ false
  | some lr ↦ ltz (difference now lr) r.cooldown
]

module _ (crypto : Crypto) where
  -- The locked region of DoRefresh.
  unfoldable pub publish : RefreshableKeyStore → List Bytes → ℕ → RefreshableKeyStore
  publish r keys now = record r {
    snapshot = (merge_from crypto r.snapshot keys).0;
    last_refreshed = some now;
  }

  unfoldable pub do_refresh :
      RefreshableKeyStore
      → (reply : Checked (List Bytes)) (now : ℕ) → Checked (Unit {0}) × RefreshableKeyStore
  do_refresh r reply now =
      if not r.has_client
      then (good tt, r)
      else elim reply [ bad e ↦ (bad e, r) | good keys ↦ (good tt, publish r keys now) ]

  -- The end of RefreshIfCooldownElapsed: whether it refreshed, and its error.
  abbrev pub refreshed :
      Checked (Unit {0}) × RefreshableKeyStore → Checked Bool × RefreshableKeyStore
  refreshed (good u, r) = (good true, r)
  refreshed (bad e, r) = (bad e, r)

  -- RefreshIfCooldownElapsed from where it holds the refresh gate.
  unfoldable pub refresh_gated :
      RefreshableKeyStore
      → (reply : Checked (List Bytes)) (checked now : ℕ) → Checked Bool × RefreshableKeyStore
  refresh_gated r reply checked now =
      if within_cooldown r checked then (good false, r) else refreshed (do_refresh r reply now)

  -- A call that no other goroutine's write interrupts.
  unfoldable pub refresh_if_cooldown_elapsed :
      RefreshableKeyStore
      → (reply : Checked (List Bytes)) (start checked now : ℕ) → Checked Bool × RefreshableKeyStore
  refresh_if_cooldown_elapsed r reply start checked now =
      if not r.has_client
      then (good false, r)
      else if within_cooldown r start
      then (good false, r)
      else refresh_gated r reply checked now
