-- ===== src/Tests/Replay.antt =====
-- pop/replay.go at concrete instants.
use ans_sdk_go.Base.{ℕ, ◌<◌, ◌≡◌, ◌↔◌, refl, some, List, [], ◌∷◌, arith, bytes_eq, bytes_beq}
use ans_sdk_go.Base.Table.{lookup, insert, remove}
use ans_sdk_go.Base.Members.{contains, erase}
use ans_sdk_go.Pop.Replay.{
  MemoryReplayCache, seen, recorded, cache_full, new_memory_replay_cache, check_and_store,
}
use ans_sdk_go.Pop.Replay.NoReplay.{Event, check, sweep, run, check_and_store-no_replay}
use ans_sdk_go.Pop.Replay.Consistent.{IsConsistent}
use ans_sdk_go.Pop.Replay.Invariant.{
  run-IsConsistent, new_memory_replay_cache-IsConsistent, check_and_store-seen_iff,
}

abbrev empty : MemoryReplayCache
empty = new_memory_replay_cache 2

abbrev traffic : List Event
traffic =
    check 1000 (9 ∷ []) 7000000000 ∷ sweep 5900000000 ∷ check 5950000000 (8 ∷ []) 12000000000 ∷ []

program : Unit {0}
unfolding check_and_store new_memory_replay_cache run lookup insert remove contains erase bytes_beq
program = tt

records : (check_and_store 100 (7 ∷ []) 6000000000 empty).1 ≡ recorded
unfolding program
records = refl

check_and_store-no_replay_example :
    (check_and_store 5990000000
      (7 ∷ [])
      13000000000
      (run traffic (check_and_store 100 (7 ∷ []) 6000000000 empty).0)).1
    ≡ seen
check_and_store-no_replay_example =
    check_and_store-no_replay 100 (7 ∷ []) 6000000000 empty traffic 5990000000 13000000000 records
      (omega arith) (omega arith)

-- The third key does not fit, and is refused.
fills :
    (check_and_store 5960000000
      (6 ∷ [])
      12000000000
      (run traffic (check_and_store 100 (7 ∷ []) 6000000000 empty).0)).1
    ≡ cache_full
unfolding program
fills = refl

run-IsConsistent_example : IsConsistent (run traffic empty)
run-IsConsistent_example = run-IsConsistent traffic empty (new_memory_replay_cache-IsConsistent 2)

check_and_store-seen_iff_example :
    ((check_and_store 100 (7 ∷ []) 6000000000 empty).1 ≡ seen)
    ↔ ((e : ℕ) × (lookup (7 ∷ []) empty.index ≡ some e) × (100 < e))
check_and_store-seen_iff_example = check_and_store-seen_iff 100 (7 ∷ []) 6000000000 empty
