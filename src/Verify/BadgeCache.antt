-- ===== src/Verify/BadgeCache.antt =====
-- verify/cache.go, less the goroutine of the background refresh. Instants are nanoseconds, each
-- operation reads the clock once. `pick` is the order in which Go ranges over a map's keys.
pub mod Freshness
pub mod Bound
use ans_sdk_go.Base.{
  ℕ, ◌+◌, ◌-◌, ◌*◌, ◌++◌, Bool, true, false, Option, none, some, List, [], ◌∷◌, map, ltb, leb,
  if◌then◌else◌, length, Bytes, ◌==◌, bytes_eq,
}
use ans_sdk_go.Base.Table.{lookup, insert, remove}
use ans_sdk_go.Models.Badge.{Badge}
use ans_sdk_go.Models.Fqdn.{Fqdn, Parsed, ok, err, new_fqdn}
use ans_sdk_go.Models.Version.{Version, version_string}
use ans_sdk_go.Verify.Errors.{VerifyError}

-- Negative sizes and durations, which the types of the source have, are not modelled.
pub record CacheConfig : Type 0 where
  pub max_entries : ℕ
  pub default_ttl : ℕ
  pub refresh_threshold : ℕ
  pub stale_retention : ℕ

abbrev pub minute : ℕ
minute = 60 * 1000000000

abbrev pub default_max_staleness : ℕ
default_max_staleness = 10 * minute

abbrev pub default_cache_config : CacheConfig
default_cache_config = record {
  max_entries = 1000;
  default_ttl = 5 * minute;
  refresh_threshold = 1 * minute;
  stale_retention = default_max_staleness;
}

pub record CachedBadge : Type 0 where
  pub badge : Badge
  pub fetched_at : ℕ
  pub expires_at : ℕ

pub record CacheEntry : Type 0 where
  pub cached : CachedBadge
  pub expires_at : ℕ

pub record BadgeCache : Type 0 where
  pub config : CacheConfig
  pub by_fqdn : List (Bytes × CacheEntry)
  pub by_fqdn_ver : List (Bytes × CacheEntry)

abbrev pub is_expired : ℕ → CachedBadge → Bool
is_expired now c = ltb c.expires_at now

abbrev pub should_refresh : ℕ → ℕ → CachedBadge → Bool
should_refresh now threshold c = ltb c.expires_at (now + threshold)

unfoldable pub new_badge_cache : CacheConfig → BadgeCache
new_badge_cache config = record { config = config; by_fqdn = []; by_fqdn_ver = [] }

abbrev pub fqdn_key : Fqdn → Bytes
fqdn_key f = f.value

unfoldable pub fqdn_version_key : Fqdn → Version → Bytes
fqdn_version_key f v = f.value ++ b':' ∷ version_string v

-- A read of one of the maps: an entry that is at most `grace` past its expiry.
unfoldable pub get_entry : ℕ → ℕ → Bytes → List (Bytes × CacheEntry) → Option CachedBadge
get_entry now grace key table = elim (lookup key table) [
  | none ↦ none
  | some entry ↦ if ltb (entry.expires_at + grace) now then none else some entry.cached
]

unfoldable pub get_by_fqdn : ℕ → Fqdn → BadgeCache → Option CachedBadge
unfolding get_entry
get_by_fqdn now f c = get_entry now 0 (fqdn_key f) c.by_fqdn

unfoldable pub get_by_fqdn_version : ℕ → Fqdn → Version → BadgeCache → Option CachedBadge
unfolding get_entry
get_by_fqdn_version now f v c = get_entry now 0 (fqdn_version_key f v) c.by_fqdn_ver

unfoldable pub get_stale_by_fqdn : ℕ → Fqdn → ℕ → BadgeCache → Option CachedBadge
unfolding get_entry
get_stale_by_fqdn now f max_staleness c = get_entry now max_staleness (fqdn_key f) c.by_fqdn

unfoldable pub get_stale_by_fqdn_version : ℕ → Fqdn → Version → ℕ → BadgeCache → Option CachedBadge
unfolding get_entry
get_stale_by_fqdn_version now f v max_staleness c =
    get_entry now max_staleness (fqdn_version_key f v) c.by_fqdn_ver

-- The loop that deletes what has expired longer ago than the retention.
unfoldable pub drop_stale : ℕ → ℕ → List (Bytes × CacheEntry) → List (Bytes × CacheEntry)
drop_stale now retention [] = []
drop_stale now retention ((key, entry) ∷ table) =
    let rest = drop_stale now retention table in
    if ltb (entry.expires_at + retention) now then rest else (key, entry) ∷ rest

-- The first two loops of `cleanupLocked`.
unfoldable pub sweep : ℕ → BadgeCache → BadgeCache
unfolding drop_stale
sweep now c =
    let retention = c.config.stale_retention in
    record c {
      by_fqdn = drop_stale now retention c.by_fqdn;
      by_fqdn_ver = drop_stale now retention c.by_fqdn_ver;
    }

abbrev pub keys : List (Bytes × CacheEntry) → List Bytes
keys = map (λ p. p.0)

-- The loop that deletes the entries over the limit, with the count of the removed ones.
unfoldable pub drop_some :
    (to_remove removed : ℕ) → List Bytes → List (Bytes × CacheEntry) → ℕ × List (Bytes × CacheEntry)
drop_some to_remove removed [] table = (removed, table)
drop_some to_remove removed (key ∷ order) table = elim (leb to_remove removed) [
  | true ↦ (removed, table)
  | false ↦ drop_some to_remove (removed + 1) order (remove key table)
]

unfoldable pub new_entry : ℕ → Badge → BadgeCache → CacheEntry
new_entry now b c =
    let expires = now + c.config.default_ttl in
    record {
      cached = record { badge = b; fetched_at = now; expires_at = expires };
      expires_at = expires;
    }

unfoldable pub clear : BadgeCache → BadgeCache
clear c = record c { by_fqdn = []; by_fqdn_ver = [] }

module _ (pick : List Bytes → List Bytes) where
  unfoldable pub trim : BadgeCache → BadgeCache
  unfolding drop_some
  trim c =
      let total = length c.by_fqdn + length c.by_fqdn_ver in
      let to_remove = total - c.config.max_entries in
      let first = drop_some to_remove 0 (pick (keys c.by_fqdn)) c.by_fqdn in
      let second = drop_some to_remove first.0 (pick (keys c.by_fqdn_ver)) c.by_fqdn_ver in
      if ltb c.config.max_entries total
      then record c { by_fqdn = first.1; by_fqdn_ver = second.1 }
      else c

  unfoldable pub cleanup_locked : ℕ → BadgeCache → BadgeCache
  unfolding sweep trim
  cleanup_locked now c = trim (sweep now c)

  unfoldable pub insert_badge : ℕ → Fqdn → Badge → BadgeCache → BadgeCache
  unfolding cleanup_locked new_entry
  insert_badge now f b c =
      cleanup_locked now (record c { by_fqdn = insert (fqdn_key f) (new_entry now b c) c.by_fqdn })

  unfoldable pub insert_for_version : ℕ → Fqdn → Version → Badge → BadgeCache → BadgeCache
  unfolding cleanup_locked new_entry
  insert_for_version now f v b c =
      cleanup_locked now
        (record c { by_fqdn_ver = insert (fqdn_version_key f v) (new_entry now b c) c.by_fqdn_ver })

  -- The keys to refresh, in the order of the range.
  unfoldable pub keys_to_refresh : ℕ → BadgeCache → List Bytes → List Bytes
  keys_to_refresh now c [] = []
  keys_to_refresh now c (key ∷ order) =
      let rest = keys_to_refresh now c order in
      elim (lookup key c.by_fqdn) [
        | none ↦ rest
        | some entry ↦
            if should_refresh now c.config.refresh_threshold entry.cached then key ∷ rest else rest
      ]

  -- The loop that refreshes; `refresh_fn` answers `none` for an error.
  unfoldable pub refresh_keys :
      (refresh_fn : Bytes → Option Badge) → ℕ → List Bytes → BadgeCache → BadgeCache
  unfolding insert_badge
  refresh_keys refresh_fn now [] c = c
  refresh_keys refresh_fn now (key ∷ order) c = elim (refresh_fn key) [
    | none ↦ refresh_keys refresh_fn now order c
    | some b ↦ elim (new_fqdn key) [
      | err e ↦ refresh_keys refresh_fn now order c
      | ok f ↦ refresh_keys refresh_fn now order (insert_badge now f b c)
    ]
  ]

  unfoldable pub refresh_expiring :
      (refresh_fn : Bytes → Option Badge) → ℕ → BadgeCache → BadgeCache
  unfolding keys_to_refresh refresh_keys
  refresh_expiring refresh_fn now c =
      refresh_keys refresh_fn now (keys_to_refresh now c (pick (keys c.by_fqdn))) c
