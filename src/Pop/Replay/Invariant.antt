-- ===== src/Pop/Replay/Invariant.antt =====
-- Every method keeps the two structures in agreement and the entries within the bound.
use ans_sdk_go.Base.{
  ℕ, ◌<◌, ◌≡◌, ◌≢◌, ◌↔◌, refl, Option, none, some, List, [], ◌∷◌, ltb, leb, if◌then◌else◌, length,
  Bytes, ◌==◌, nat_eq, bytes_eq, bytes_beq_iff, arith, Bool-cases, Option-cases, inl, inr, ltb→lt,
  leb_false→lt, nat_beq_iff,
}
use ans_sdk_go.Base.Table.{
  lookup, remove, IsDistinct, IsDistinct-remove, lookup-remove, length-remove-le,
}
use ans_sdk_go.Base.Members.{contains, erase, contains-erase, IsNodup-erase}
use ans_sdk_go.Pop.Replay.{
  MemoryReplayCache, seen, bucket_of, evict_locked, remove_locked, store_new, check_evicted,
  check_and_store, new_memory_replay_cache,
}
use ans_sdk_go.Pop.Replay.Evict.{evict_loop-old}
use ans_sdk_go.Pop.Replay.NoReplay.{Event, check, sweep, run, check_and_store_live}
use ans_sdk_go.Pop.Replay.Consistent.{
  IsConsistent, bucket, bucket-shrink, IsDistinct-shrink, pick-IsNodup, evict_locked-IsConsistent,
  add_locked-IsConsistent,
}

-- The bucket of `exp` in the cache that `remove_locked` leaves.
removed_bucket :
    (key : Bytes) (exp id : ℕ) (c : MemoryReplayCache)
    → bucket id (remove_locked key exp c)
      ≡ (if bucket_of exp == id then erase key (bucket (bucket_of exp) c) else bucket id c)
unfolding remove_locked erase
removed_bucket key exp id c = elim (Option-cases (lookup (bucket_of exp) c.buckets)) [
  | inl missing ↦ rw (missing, remove_locked) (ground (arith, nat_beq_iff (bucket_of exp) id))
  | inr (b, found) ↦
      rw (found, remove_locked) (bucket-shrink (bucket_of exp) id (erase key b) c.buckets)
]

removed_generations :
    (exp : ℕ) (key : Bytes) (c : MemoryReplayCache)
    → IsConsistent c
    → IsDistinct (remove_locked key exp c).buckets
unfolding remove_locked
removed_generations exp key c v = elim (Option-cases (lookup (bucket_of exp) c.buckets)) [
  | inl missing ↦ rw (missing, remove_locked) v.generations
  | inr (b, found) ↦
      rw (found, remove_locked)
        (IsDistinct-shrink (bucket_of exp) (erase key b) c.buckets v.generations)
]

removed_index :
    (key : Bytes) (exp : ℕ) (c : MemoryReplayCache)
    → (remove_locked key exp c).index ≡ remove key c.index
unfolding remove_locked
removed_index key exp c = refl

removed_max :
    (key : Bytes) (exp : ℕ) (c : MemoryReplayCache)
    → (remove_locked key exp c).max_entries ≡ c.max_entries
unfolding remove_locked
removed_max key exp c = refl

remove_locked-IsConsistent :
    (key : Bytes) (exp : ℕ) (c : MemoryReplayCache)
    → IsConsistent c
    → lookup key c.index ≡ some exp
    → IsConsistent (remove_locked key exp c)
remove_locked-IsConsistent key exp c v there = record {
  distinct = rw removed_index (IsDistinct-remove key c.index v.distinct);
  generations = removed_generations exp key c v;
  bounded =
      rw (removed_index, removed_max) (omega (arith, length-remove-le key c.index, v.bounded));
  nodup = λ id.
      rw removed_bucket
        (pick-IsNodup _ _ _ (IsNodup-erase key _ (v.nodup (bucket_of exp))) (v.nodup id));
  same_keys = λ id k.
      rw (removed_bucket, removed_index)
        (ground (
          arith,
          contains-erase key k (bucket (bucket_of exp) c) (v.nodup (bucket_of exp)),
          v.same_keys id k,
          v.same_keys (bucket_of exp) k,
          lookup-remove key k c.index,
          bytes_beq_iff key k,
        ));
}

store_new-IsConsistent :
    (key : Bytes) (exp : ℕ) (c : MemoryReplayCache)
    → IsConsistent c
    → lookup key c.index ≡ none
    → IsConsistent (store_new key exp c).0
unfolding store_new
store_new-IsConsistent key exp c v new = elim (Bool-cases (leb c.max_entries (length c.index))) [
  | inl full ↦ rw full v
  | inr room ↦ rw room (add_locked-IsConsistent key exp c v new (leb_false→lt _ _ room))
]

check_evicted-IsConsistent :
    (now : ℕ) (key : Bytes) (exp : ℕ) (o : Option ℕ) (c : MemoryReplayCache)
    → IsConsistent c
    → lookup key c.index ≡ o
    → IsConsistent (check_evicted now key exp o c).0
unfolding check_evicted
check_evicted-IsConsistent now key exp none c v e = store_new-IsConsistent key exp c v e
check_evicted-IsConsistent now key exp (some existing) c v e =
    elim (Bool-cases (ltb now existing)) [
      | inl live ↦ rw live v
      | inr over ↦ rw over (
          store_new-IsConsistent key exp (remove_locked key existing c)
            (remove_locked-IsConsistent key existing c v e)
            (rw removed_index
              (ground (arith, lookup-remove key key c.index, bytes_beq_iff key key))))
    ]

check_and_store-IsConsistent :
    (now : ℕ) (key : Bytes) (exp : ℕ) (c : MemoryReplayCache)
    → IsConsistent c
    → IsConsistent (check_and_store now key exp c).0
unfolding check_and_store
check_and_store-IsConsistent now key exp c v =
    check_evicted-IsConsistent now key exp _ (evict_locked now c)
      (evict_locked-IsConsistent now c v) refl

-- Whatever calls and sweeps happen, at whatever instants, the index and the buckets stay in
-- agreement, no key is held twice, and there are at most `max_entries` entries.
pub run-IsConsistent :
    (es : List Event) (c : MemoryReplayCache) → IsConsistent c → IsConsistent (run es c)
unfolding run
run-IsConsistent [] c v = v
run-IsConsistent (check now key exp ∷ es) c v =
    run-IsConsistent es (check_and_store now key exp c).0
      (check_and_store-IsConsistent now key exp c v)
run-IsConsistent (sweep now ∷ es) c v =
    run-IsConsistent es (evict_locked now c) (evict_locked-IsConsistent now c v)

pub new_memory_replay_cache-IsConsistent :
    (max_entries : ℕ) → IsConsistent (new_memory_replay_cache max_entries)
unfolding new_memory_replay_cache lookup contains
new_memory_replay_cache-IsConsistent max_entries = record {
  distinct = tt;
  generations = tt;
  bounded = omega arith;
  nodup = λ id. tt;
  same_keys = λ id key. refl;
}

store_new_unseen : (key : Bytes) (exp : ℕ) (c : MemoryReplayCache) → (store_new key exp c).1 ≢ seen
unfolding store_new
store_new_unseen key exp c = ground arith

seen_evicted :
    (now : ℕ) (key : Bytes) (exp : ℕ) (o : Option ℕ) (c : MemoryReplayCache)
    → (check_evicted now key exp o c).1 ≡ seen
    → (e : ℕ) × (o ≡ some e) × (now < e)
unfolding check_evicted
seen_evicted now key exp none c h = absurd (store_new_unseen key exp c h)
seen_evicted now key exp (some e) c h = elim (Bool-cases (ltb now e)) [
  | inl live ↦ (e, refl, ltb→lt now e live)
  | inr over ↦ absurd (store_new_unseen key exp (remove_locked key e c) (rw over at h))
]

seen_live :
    (now : ℕ) (key : Bytes) (exp : ℕ) (c : MemoryReplayCache)
    → (check_and_store now key exp c).1 ≡ seen
    → (e : ℕ) × (lookup key c.index ≡ some e) × (now < e)
unfolding check_and_store evict_locked
seen_live now key exp c h =
    let (e, found, live) = seen_evicted now key exp _ (evict_locked now c) h in
    (e, evict_loop-old now c.buckets c.index key e found, live)

-- A key is reported as seen exactly if the cache holds it with an expiry after `now`.
pub check_and_store-seen_iff :
    (now : ℕ) (key : Bytes) (exp : ℕ) (c : MemoryReplayCache)
    → ((check_and_store now key exp c).1 ≡ seen)
      ↔ ((e : ℕ) × (lookup key c.index ≡ some e) × (now < e))
check_and_store-seen_iff now key exp c =
    (seen_live now key exp c, λ t. check_and_store_live now key exp t.0 c t.1 t.2)
