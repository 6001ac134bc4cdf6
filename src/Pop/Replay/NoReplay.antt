-- ===== src/Pop/Replay/NoReplay.antt =====
-- Single use: what the cache has recorded stays recorded until it expires.
use ans_sdk_go.Base.{
  ℕ, ◌<◌, ◌≡◌, ◌≢◌, refl, false, Option, none, some, List, [], ◌∷◌, ltb, Bytes, nat_eq, bytes_eq,
  bytes_beq_iff, arith, Bool-cases, inl, inr, ltb_false→le, lt→ltb,
}
use ans_sdk_go.Base.Members.{equal_self}
use ans_sdk_go.Base.Table.{lookup, lookup-insert, lookup-remove}
use ans_sdk_go.Pop.Replay.{
  MemoryReplayCache, seen, recorded, evict_locked, remove_locked, add_locked, store_new,
  check_evicted, check_and_store,
}
use ans_sdk_go.Pop.Replay.Evict.{evict_loop-keeps}

-- What reaches a cache: a call of `CheckAndStore` or a tick of the janitor, each at an instant.
pub data Event : Type 0 where
  check : ℕ → Bytes → ℕ → Event
  sweep : ℕ → Event

abbrev pub at_instant : Event → ℕ
at_instant (check now key exp) = now
at_instant (sweep now) = now

unfoldable pub step : Event → MemoryReplayCache → MemoryReplayCache
step (check now key exp) c = (check_and_store now key exp c).0
step (sweep now) c = evict_locked now c

unfoldable pub run : List Event → MemoryReplayCache → MemoryReplayCache
unfolding step
run [] c = c
run (e ∷ es) c = run es (step e c)

-- Every event happens before an instant.
abbrev pub AllBefore : ℕ → List Event → Type 0
AllBefore t [] = Unit
AllBefore t (e ∷ es) = (at_instant e < t) × AllBefore t es

evict_locked-keeps :
    (now : ℕ) (c : MemoryReplayCache) (j : Bytes) (exp : ℕ)
    → lookup j c.index ≡ some exp
    → now < exp
    → lookup j (evict_locked now c).index ≡ some exp
unfolding evict_locked
evict_locked-keeps now c j exp h live = evict_loop-keeps now c.buckets c.index j exp h (omega arith)

store_new-keeps :
    (key : Bytes) (exp : ℕ) (c : MemoryReplayCache) (j : Bytes) (e : ℕ)
    → key ≢ j
    → lookup j c.index ≡ some e
    → lookup j (store_new key exp c).0.index ≡ some e
unfolding store_new add_locked
store_new-keeps key exp c j e other h =
    ground (arith, lookup-insert key j exp c.index, bytes_beq_iff key j)

check_evicted-keeps :
    (now : ℕ) (key : Bytes) (exp : ℕ) (c : MemoryReplayCache) (j : Bytes) (e : ℕ) (o : Option ℕ)
    → lookup key c.index ≡ o
    → lookup j c.index ≡ some e
    → now < e
    → lookup j (check_evicted now key exp o c).0.index ≡ some e
unfolding check_evicted
check_evicted-keeps now key exp c j e none absent h live =
    store_new-keeps key exp c j e (λ same. cc) h
check_evicted-keeps now key exp c j e (some existing) present h live =
    elim (Bool-cases (ltb now existing)) [
      | inl still ↦ rw still h
      | inr over ↦ rw over (
          store_new-keeps key exp (remove_locked key existing c) j e (other over)
            (removed (other over)))
    ]
  where
    other : ltb now existing ≡ false → key ≢ j
    other over same =
        let equal : existing ≡ e = cc in
        absurd (omega (arith, ltb_false→le now existing over, equal))

    removed : key ≢ j → lookup j (remove_locked key existing c).index ≡ some e
    removed n =
        unfold remove_locked in ground (arith, lookup-remove key j c.index, bytes_beq_iff key j)

check_and_store-keeps :
    (now : ℕ) (key : Bytes) (exp : ℕ) (c : MemoryReplayCache) (j : Bytes) (e : ℕ)
    → lookup j c.index ≡ some e
    → now < e
    → lookup j (check_and_store now key exp c).0.index ≡ some e
unfolding check_and_store
check_and_store-keeps now key exp c j e h live =
    check_evicted-keeps now key exp (evict_locked now c) j e _ refl
      (evict_locked-keeps now c j e h live) live

run-keeps :
    (es : List Event) (c : MemoryReplayCache) (j : Bytes) (exp : ℕ)
    → lookup j c.index ≡ some exp
    → AllBefore exp es
    → lookup j (run es c).index ≡ some exp
unfolding run
run-keeps [] c j exp h b = h
run-keeps (check now key x ∷ es) c j exp h b =
    run-keeps es _ j exp (check_and_store-keeps now key x c j exp h b.0) b.1
run-keeps (sweep now ∷ es) c j exp h b =
    run-keeps es _ j exp (evict_locked-keeps now c j exp h b.0) b.1

store_new-recorded :
    (key : Bytes) (exp : ℕ) (c : MemoryReplayCache)
    → (store_new key exp c).1 ≡ recorded
    → lookup key (store_new key exp c).0.index ≡ some exp
unfolding store_new add_locked
store_new-recorded key exp c h = ground (arith, lookup-insert key key exp c.index, equal_self key)

check_evicted-recorded :
    (now : ℕ) (key : Bytes) (exp : ℕ) (o : Option ℕ) (c : MemoryReplayCache)
    → (check_evicted now key exp o c).1 ≡ recorded
    → lookup key (check_evicted now key exp o c).0.index ≡ some exp
unfolding check_evicted
check_evicted-recorded now key exp none c h = store_new-recorded key exp c h
check_evicted-recorded now key exp (some existing) c h = elim (Bool-cases (ltb now existing)) [
  | inl still ↦ absurd (cc (rw still at h))
  | inr over ↦ rw over (store_new-recorded key exp _ (rw over at h))
]

check_and_store-recorded :
    (now : ℕ) (key : Bytes) (exp : ℕ) (c : MemoryReplayCache)
    → (check_and_store now key exp c).1 ≡ recorded
    → lookup key (check_and_store now key exp c).0.index ≡ some exp
unfolding check_and_store
check_and_store-recorded now key exp c h =
    check_evicted-recorded now key exp (lookup key (evict_locked now c).index) (evict_locked now c)
      h

pub check_and_store_live :
    (now : ℕ) (key : Bytes) (exp e : ℕ) (c : MemoryReplayCache)
    → lookup key c.index ≡ some e
    → now < e
    → (check_and_store now key exp c).1 ≡ seen
unfolding check_and_store check_evicted
check_and_store_live now key exp e c h live =
    rw (evict_locked-keeps now c key e h live) (rw (lt→ltb now e live))

-- Once `CheckAndStore` has recorded a key until `exp`, then after any calls and sweeps at instants
-- before `exp`, in any order and whatever else they record, the key is reported as seen at every
-- instant before `exp`.
pub check_and_store-no_replay :
    (now : ℕ) (key : Bytes) (exp : ℕ) (c : MemoryReplayCache) (es : List Event) (now' exp' : ℕ)
    → (check_and_store now key exp c).1 ≡ recorded
    → AllBefore exp es
    → now' < exp
    → (check_and_store now' key exp' (run es (check_and_store now key exp c).0)).1 ≡ seen
check_and_store-no_replay now key exp c es now' exp' h before live =
    check_and_store_live now' key exp' exp _
      (run-keeps es _ key exp (check_and_store-recorded now key exp c h) before) live
