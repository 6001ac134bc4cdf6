-- ===== src/Verify/BadgeCache/Freshness.antt =====
-- What a read finds after an insertion.
use ans_sdk_go.Base.{
  ℕ, suc, ◌+◌, ◌≡◌, ◌≤◌, ◌<◌, refl, none, some, List, [], ◌∷◌, arith, ltb, if◌then◌else◌, length,
  Bytes, bytes_eq, Option-cases, inl, inr, le→ltb_false, bytes_beq_iff,
}
use ans_sdk_go.Base.Table.{lookup, insert, lookup-insert, length-insert_new, length-insert_old}
use ans_sdk_go.Models.Badge.{Badge}
use ans_sdk_go.Models.Fqdn.{Fqdn}
use ans_sdk_go.Verify.BadgeCache.{
  BadgeCache, CacheEntry, new_entry, fqdn_key, get_entry, get_by_fqdn, get_stale_by_fqdn,
  drop_stale, sweep, trim, cleanup_locked, insert_badge,
}

pub lookup-drop_stale :
    (now retention : ℕ) (key : Bytes) (entry : CacheEntry) (table : List (Bytes × CacheEntry))
    → lookup key table ≡ some entry
    → now ≤ entry.expires_at + retention
    → lookup key (drop_stale now retention table) ≡ some entry
unfolding lookup drop_stale
lookup-drop_stale now retention key entry [] h k = cc
lookup-drop_stale now retention key entry ((i, e) ∷ table) h k =
    ground (arith, lookup-drop_stale now retention key entry table)

pub length-drop_stale-le :
    (now retention : ℕ) (table : List (Bytes × CacheEntry))
    → length (drop_stale now retention table) ≤ length table
unfolding drop_stale
length-drop_stale-le now retention [] = omega arith
length-drop_stale-le now retention ((i, e) ∷ table) =
    ground (arith, length-drop_stale-le now retention table)

length-insert-le :
    (key : Bytes) (e : CacheEntry) (table : List (Bytes × CacheEntry))
    → length (insert key e table) ≤ suc (length table)
length-insert-le key e table = elim (Option-cases (lookup key table)) [
  | inl absent ↦ omega (arith, length-insert_new key e table absent)
  | inr (old, present) ↦ omega (arith, length-insert_old key e old table present)
]

trim_under :
    (pick : List Bytes → List Bytes) (c : BadgeCache)
    → length c.by_fqdn + length c.by_fqdn_ver ≤ c.config.max_entries
    → trim pick c ≡ c
unfolding trim
trim_under pick c h =
    rw (le→ltb_false c.config.max_entries (length c.by_fqdn + length c.by_fqdn_ver) h) refl

lookup-inserted :
    (key : Bytes) (e : CacheEntry) (table : List (Bytes × CacheEntry))
    → lookup key (insert key e table) ≡ some e
lookup-inserted key e table = rw lookup-insert (rw ((bytes_beq_iff key key).1 refl) refl)

-- The cache with the entry of a name, before the cleanup.
abbrev with_entry : ℕ → Fqdn → Badge → BadgeCache → BadgeCache
with_entry now f b c = record c { by_fqdn = insert (fqdn_key f) (new_entry now b c) c.by_fqdn }

sweep-room :
    (now : ℕ) (f : Fqdn) (b : Badge) (c : BadgeCache)
    → length c.by_fqdn + length c.by_fqdn_ver < c.config.max_entries
    → length (sweep now (with_entry now f b c)).by_fqdn
        + length (sweep now (with_entry now f b c)).by_fqdn_ver
      ≤ c.config.max_entries
unfolding sweep
sweep-room now f b c room = omega (
  arith,
  length-drop_stale-le now c.config.stale_retention (with_entry now f b c).by_fqdn,
  length-drop_stale-le now c.config.stale_retention c.by_fqdn_ver,
  length-insert-le (fqdn_key f) (new_entry now b c) c.by_fqdn,
)

sweep-lookup :
    (now : ℕ) (f : Fqdn) (b : Badge) (c : BadgeCache)
    → lookup (fqdn_key f) (sweep now (with_entry now f b c)).by_fqdn ≡ some (new_entry now b c)
unfolding sweep new_entry
sweep-lookup now f b c =
    lookup-drop_stale now c.config.stale_retention (fqdn_key f) (new_entry now b c)
      (with_entry now f b c).by_fqdn (lookup-inserted (fqdn_key f) (new_entry now b c) c.by_fqdn)
      (omega arith)

insert_badge-entry :
    (pick : List Bytes → List Bytes) (now : ℕ) (f : Fqdn) (b : Badge) (c : BadgeCache)
    → length c.by_fqdn + length c.by_fqdn_ver < c.config.max_entries
    → lookup (fqdn_key f) (insert_badge pick now f b c).by_fqdn ≡ some (new_entry now b c)
unfolding insert_badge cleanup_locked
insert_badge-entry pick now f b c room =
    rw (trim_under pick (sweep now (with_entry now f b c)) (sweep-room now f b c room))
      (sweep-lookup now f b c)

-- With room in the cache, a badge that is inserted for a name is what a read of the name gives until
-- the time to live is over, and what a stale read gives until its grace is over too.
pub insert_badge-get_by_fqdn :
    (pick : List Bytes → List Bytes) (now later max_staleness : ℕ) (f : Fqdn) (b : Badge)
    (c : BadgeCache)
    → length c.by_fqdn + length c.by_fqdn_ver < c.config.max_entries
    → (get_by_fqdn later f (insert_badge pick now f b c) ≡ (
        if ltb (now + c.config.default_ttl) later then none else some (new_entry now b c).cached))
      × (get_stale_by_fqdn later f max_staleness (insert_badge pick now f b c) ≡ (
          if ltb (now + c.config.default_ttl + max_staleness) later
          then none
          else some (new_entry now b c).cached))
unfolding get_by_fqdn get_stale_by_fqdn get_entry new_entry
insert_badge-get_by_fqdn pick now later m f b c room =
    let e = insert_badge-entry pick now f b c room in
    (rw (e, get_entry) (ground arith), rw (e, get_entry) refl)
