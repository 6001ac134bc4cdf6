-- ===== src/Verify/BadgeCache/Bound.antt =====
-- The limit on the entries.
use ans_sdk_go.Base.{
  ℕ, suc, ◌+◌, ◌-◌, ◌≡◌, ◌≤◌, ◌⊎◌, refl, ap, false, none, some, List, [], ◌∷◌, arith, leb, ltb,
  length, Bytes, bytes_eq, bytes_beq_iff, Bool-cases, inl, inr, ltb→lt, ltb_false→le,
}
use ans_sdk_go.Base.Members.{contains, IsNodup}
use ans_sdk_go.Base.Table.{
  lookup, insert, remove, IsDistinct, lookup-remove, length-remove, IsDistinct-remove,
  IsDistinct-insert,
}
use ans_sdk_go.Models.Badge.{Badge}
use ans_sdk_go.Models.Fqdn.{Fqdn}
use ans_sdk_go.Verify.BadgeCache.{
  BadgeCache, CacheEntry, keys, drop_stale, sweep, drop_some, trim, cleanup_locked, insert_badge,
  new_entry, fqdn_key,
}

-- Every key of the list is one of the table.
abbrev pub AreKeys : List Bytes → List (Bytes × CacheEntry) → Type 0
AreKeys [] table = Unit
AreKeys (k ∷ ks) table = ((e : CacheEntry) × (lookup k table ≡ some e)) × AreKeys ks table

AreKeys-remove :
    (k : Bytes) (ks : List Bytes) (table : List (Bytes × CacheEntry))
    → contains k ks ≡ false
    → AreKeys ks table
    → AreKeys ks (remove k table)
unfolding contains
AreKeys-remove k [] table h a = tt
AreKeys-remove k (j ∷ ks) table h a = (
  (a.0.0, ground (arith, lookup-remove k j table, a.0.1, bytes_beq_iff j k, bytes_beq_iff k j)),
  AreKeys-remove k ks table (ground arith) a.1,
)

pub drop_some-count :
    (to_remove removed : ℕ) (order : List Bytes) (table : List (Bytes × CacheEntry))
    → IsDistinct table
    → IsNodup order
    → AreKeys order table
    → (length (drop_some to_remove removed order table).1
          + (drop_some to_remove removed order table).0
        ≡ length table + removed)
      × ((to_remove ≤ (drop_some to_remove removed order table).0)
          ⊎ ((drop_some to_remove removed order table).0 ≡ removed + length order))
unfolding drop_some
drop_some-count t r [] table d n a = (refl, inr (omega arith))
drop_some-count t r (k ∷ order) table d n a = elim (Bool-cases (leb t r)) [
  | inl enough ↦ rw (enough, drop_some) (refl, inl (ground arith))
  | inr more ↦
      let ih =
        drop_some-count t (r + 1) order (remove k table) (IsDistinct-remove k table d) n.1
          (AreKeys-remove k order table n.0 a.1) in
      rw (more, drop_some) (omega (arith, ih, length-remove k a.0.0 table a.0.1 d))
]

-- An order in which a range visits the keys of a table: each of them once.
abbrev pub Visits : (List Bytes → List Bytes) → List (Bytes × CacheEntry) → Type 0
Visits pick table =
    IsNodup (pick (keys table))
    × AreKeys (pick (keys table)) table
    × (length (pick (keys table)) ≡ length table)

pub trim-bound :
    (pick : List Bytes → List Bytes) (c : BadgeCache)
    → IsDistinct c.by_fqdn
    → IsDistinct c.by_fqdn_ver
    → Visits pick c.by_fqdn
    → Visits pick c.by_fqdn_ver
    → length (trim pick c).by_fqdn + length (trim pick c).by_fqdn_ver ≤ c.config.max_entries
unfolding trim
trim-bound pick c d e v w =
    elim (Bool-cases (ltb c.config.max_entries (length c.by_fqdn + length c.by_fqdn_ver))) [
      | inl over ↦
          let t = length c.by_fqdn + length c.by_fqdn_ver - c.config.max_entries in
          let one = drop_some-count t 0 (pick (keys c.by_fqdn)) c.by_fqdn d v.0 v.1 in
          let two =
            drop_some-count t (drop_some t 0 (pick (keys c.by_fqdn)) c.by_fqdn).0
              (pick (keys c.by_fqdn_ver)) c.by_fqdn_ver e w.0 w.1 in
          rw over (omega (arith, one, two, v.2, w.2, ltb→lt _ _ over))
      | inr under ↦ rw under (omega (arith, ltb_false→le _ _ under))
    ]

drop_stale_absent :
    (now retention : ℕ) (key : Bytes) (table : List (Bytes × CacheEntry))
    → lookup key table ≡ none
    → lookup key (drop_stale now retention table) ≡ none
unfolding lookup drop_stale
drop_stale_absent now retention key [] h = refl
drop_stale_absent now retention key ((k, e) ∷ table) h =
    ground (arith, drop_stale_absent now retention key table)

IsDistinct-drop_stale :
    (now retention : ℕ) (table : List (Bytes × CacheEntry))
    → IsDistinct table
    → IsDistinct (drop_stale now retention table)
unfolding drop_stale
IsDistinct-drop_stale now retention [] d = tt
IsDistinct-drop_stale now retention ((k, e) ∷ table) d =
    elim (Bool-cases (ltb (e.expires_at + retention) now)) [
      | inl old ↦ rw old (IsDistinct-drop_stale now retention table d.1)
      | inr kept ↦ rw kept (
        drop_stale_absent now retention k table d.0,
        IsDistinct-drop_stale now retention table d.1,
      )
    ]

-- After an insertion the two maps together have at most the configured number of entries, whatever
-- the order of the ranges, as long as each range visits every key of its map once.
pub insert_badge-bound :
    (pick : List Bytes → List Bytes) (now : ℕ) (f : Fqdn) (b : Badge) (c : BadgeCache)
    → IsDistinct c.by_fqdn
    → IsDistinct c.by_fqdn_ver
    → ((table : List (Bytes × CacheEntry)) → IsDistinct table → Visits pick table)
    → length (insert_badge pick now f b c).by_fqdn
        + length (insert_badge pick now f b c).by_fqdn_ver
      ≤ c.config.max_entries
unfolding insert_badge cleanup_locked sweep
insert_badge-bound pick now f b c d e visits =
    let s = sweep now (record c { by_fqdn = insert (fqdn_key f) (new_entry now b c) c.by_fqdn }) in
    let d1 : IsDistinct s.by_fqdn =
      IsDistinct-drop_stale now c.config.stale_retention _
        (IsDistinct-insert (fqdn_key f) (new_entry now b c) c.by_fqdn d) in
    let e1 : IsDistinct s.by_fqdn_ver =
      IsDistinct-drop_stale now c.config.stale_retention c.by_fqdn_ver e in
    trim-bound pick s d1 e1 (visits s.by_fqdn d1) (visits s.by_fqdn_ver e1)

keys_absent :
    (key : Bytes) (table : List (Bytes × CacheEntry))
    → lookup key table ≡ none
    → contains key (keys table) ≡ false
unfolding lookup contains
keys_absent key [] h = refl
keys_absent key ((k, e) ∷ table) h = ground (arith, keys_absent key table)

AreKeys-cons :
    (k : Bytes) (e : CacheEntry) (ks : List Bytes) (table : List (Bytes × CacheEntry))
    → contains k ks ≡ false
    → AreKeys ks table
    → AreKeys ks ((k, e) ∷ table)
unfolding lookup contains
AreKeys-cons k e [] table h a = tt
AreKeys-cons k e (j ∷ ks) table h a = (
  (a.0.0, ground (arith, a.0.1, bytes_beq_iff k j, bytes_beq_iff j k)),
  AreKeys-cons k e ks table (ground arith) a.1,
)

-- The order in which a table is stored is one that a range may take.
pub Visits-stored : (table : List (Bytes × CacheEntry)) → IsDistinct table → Visits (λ ks. ks) table
unfolding lookup
Visits-stored [] d = (tt, tt, refl)
Visits-stored ((k, e) ∷ table) d =
    let rest = Visits-stored table d.1 in
    let new = keys_absent k table d.0 in
    (
      (new, rest.0),
      ((e, rw ((bytes_beq_iff k k).1 refl) refl), AreKeys-cons k e (keys table) table new rest.1),
      ap suc rest.2,
    )
