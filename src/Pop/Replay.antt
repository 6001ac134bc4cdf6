-- ===== src/Pop/Replay.antt =====
-- pop/replay.go, `MemoryReplayCache`. An instant is its number of nanoseconds since 1970, for
-- instants from 1970 on whose generation ends below 2^63, where `int64` does not wrap. A set of
-- keys is a list. The mutex makes each method one step, so a method is a function on the cache.
pub mod Evict
pub mod NoReplay
pub mod Consistent
pub mod Invariant
use ans_sdk_go.Base.{
  ℕ, ◌+◌, ◌*◌, ◌/◌, Bool, true, false, Option, none, some, List, [], ◌∷◌, leb, ltb, if◌then◌else◌,
  length, Bytes, ◌==◌, nat_eq, bytes_eq,
}
use ans_sdk_go.Base.Table.{lookup, insert, remove}
use ans_sdk_go.Base.Members.{contains, erase}

abbrev pub bucket_width : ℕ
bucket_width = 5000000000

abbrev pub default_replay_max_entries : ℕ
default_replay_max_entries = 100000

pub record MemoryReplayCache : Type 0 where
  pub index : List (Bytes × ℕ)
  pub buckets : List (ℕ × List Bytes)
  pub max_entries : ℕ

-- The results of `CheckAndStore`: `(true, nil)`, `(false, nil)`, and `(false, err)` with the error
-- `ErrReplayCacheFull`.
pub data Check : Type 0 where
  seen recorded cache_full : Check

-- A bound of 0 stands for every `maxEntries ≤ 0`.
unfoldable pub new_memory_replay_cache : ℕ → MemoryReplayCache
new_memory_replay_cache max_entries = record {
  index = [];
  buckets = [];
  max_entries = if max_entries == 0 then default_replay_max_entries else max_entries;
}

abbrev pub len : MemoryReplayCache → ℕ
len c = length c.index

abbrev pub bucket_of : ℕ → ℕ
bucket_of t = t / bucket_width

-- `b[key] = struct{}{}`
unfoldable pub add_key : Bytes → List Bytes → List Bytes
add_key key b = if contains key b then b else key ∷ b

abbrev pub keys_or_empty : Option (List Bytes) → List Bytes
keys_or_empty none = []
keys_or_empty (some b) = b

unfoldable pub add_locked : Bytes → ℕ → MemoryReplayCache → MemoryReplayCache
unfolding add_key
add_locked key exp c =
    let id = bucket_of exp in
    record c {
      index = insert key exp c.index;
      buckets = insert id (add_key key (keys_or_empty (lookup id c.buckets))) c.buckets;
    }

-- The bucket without the key, and no bucket at all where that leaves it empty.
abbrev pub shrink : ℕ → List Bytes → List (ℕ × List Bytes) → List (ℕ × List Bytes)
shrink id [] buckets = remove id buckets
shrink id (k ∷ b) buckets = insert id (k ∷ b) buckets

unfoldable pub remove_locked : Bytes → ℕ → MemoryReplayCache → MemoryReplayCache
remove_locked key exp c =
    let id = bucket_of exp in
    record c {
      index = remove key c.index;
      buckets = elim (lookup id c.buckets) [
        | none ↦ c.buckets
        | some b ↦ shrink id (erase key b) c.buckets
      ];
    }

-- The inner loop of `evictLocked`: an index entry goes if this generation still owns it.
unfoldable pub drop_key : ℕ → Bytes → List (Bytes × ℕ) → List (Bytes × ℕ)
drop_key id key index = elim (lookup key index) [
  | none ↦ index
  | some exp ↦ if bucket_of exp == id then remove key index else index
]

unfoldable pub drop_keys : ℕ → List Bytes → List (Bytes × ℕ) → List (Bytes × ℕ)
unfolding drop_key
drop_keys id [] index = index
drop_keys id (key ∷ keys) index = drop_keys id keys (drop_key id key index)

-- The outer loop, over the generations: the buckets that stay, and the index.
unfoldable pub evict_loop :
    ℕ → List (ℕ × List Bytes) → List (Bytes × ℕ) → List (ℕ × List Bytes) × List (Bytes × ℕ)
unfolding drop_keys
evict_loop now [] index = ([], index)
evict_loop now ((id, keys) ∷ buckets) index = elim (ltb now ((id + 1) * bucket_width)) [
  | true ↦ let (kept, index') = evict_loop now buckets index in ((id, keys) ∷ kept, index')
  | false ↦ evict_loop now buckets (drop_keys id keys index)
]

unfoldable pub evict_locked : ℕ → MemoryReplayCache → MemoryReplayCache
unfolding evict_loop
evict_locked now c =
    let (buckets, index) = evict_loop now c.buckets c.index in
    record c { buckets = buckets; index = index }

-- The end of `CheckAndStore`, where the key is not live.
unfoldable pub store_new : Bytes → ℕ → MemoryReplayCache → MemoryReplayCache × Check
unfolding add_locked
store_new key exp c =
    if leb c.max_entries (length c.index) then (c, cache_full) else (add_locked key exp c, recorded)

unfoldable pub check_evicted :
    ℕ → Bytes → ℕ → Option ℕ → MemoryReplayCache → MemoryReplayCache × Check
unfolding store_new remove_locked
check_evicted now key exp none c = store_new key exp c
check_evicted now key exp (some existing) c =
    if ltb now existing then (c, seen) else store_new key exp (remove_locked key existing c)

unfoldable pub check_and_store : ℕ → Bytes → ℕ → MemoryReplayCache → MemoryReplayCache × Check
unfolding check_evicted evict_locked
check_and_store now key exp c =
    let c' = evict_locked now c in check_evicted now key exp (lookup key c'.index) c'
