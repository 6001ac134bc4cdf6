-- ===== src/Pop/Replay/Consistent.antt =====
-- The two structures agree: a key is in exactly the bucket of its indexed expiry.
use ans_sdk_go.Base.{
  ℕ, ◌+◌, ◌*◌, ◌≤◌, ◌<◌, ◌≡◌, ◌⊎◌, Bool, true, false, Option, none, some, List, [], ◌∷◌, ltb,
  if◌then◌else◌, length, Bytes, ◌==◌, nat_eq, bytes_eq, bytes_beq_iff, arith, ◌||◌, Bool-cases,
  Option-cases, inl, inr, ltb→lt, beq_true→eq,
}
use ans_sdk_go.Base.Table.{
  lookup, insert, IsDistinct, lookup-insert, lookup-remove, IsDistinct-insert, IsDistinct-remove,
  length-insert_new,
}
use ans_sdk_go.Base.Members.{contains, IsNodup}
use ans_sdk_go.Pop.Replay.{
  MemoryReplayCache, bucket_width, bucket_of, keys_or_empty, drop_keys, evict_loop, evict_locked,
  add_key, shrink, add_locked,
}
use ans_sdk_go.Pop.Replay.Evict.{
  unless_owned, lookup-drop_keys, evict_loop-keeps, evict_loop-old, evict_loop-IsDistinct,
}

abbrev pub bucket : ℕ → MemoryReplayCache → List Bytes
bucket id c = keys_or_empty (lookup id c.buckets)

-- Whether an indexed expiry belongs to a generation.
abbrev pub owns : ℕ → Option ℕ → Bool
owns id none = false
owns id (some exp) = bucket_of exp == id

pub record IsConsistent (c : MemoryReplayCache) : Type 0 where
  pub distinct : IsDistinct c.index
  pub generations : IsDistinct c.buckets
  pub bounded : length c.index ≤ c.max_entries
  pub nodup : (id : ℕ) → IsNodup (bucket id c)
  pub same_keys : (id : ℕ) (key : Bytes) → contains key (bucket id c) ≡ owns id (lookup key c.index)

-- The latest expiry of a generation has not passed.
abbrev pub ahead : ℕ → ℕ → Bool
ahead now id = ltb now ((id + 1) * bucket_width)

abbrev pub alive : ℕ → Option ℕ → Option ℕ
alive now none = none
alive now (some exp) = if ahead now (bucket_of exp) then some exp else none

evict_loop-buckets :
    (now : ℕ) (buckets : List (ℕ × List Bytes)) (index : List (Bytes × ℕ)) (id : ℕ)
    → lookup id (evict_loop now buckets index).0
      ≡ (if ahead now id then lookup id buckets else none)
unfolding evict_loop lookup
evict_loop-buckets now [] index id = ground arith
evict_loop-buckets now ((i, keys) ∷ buckets) index id =
    elim (Bool-cases (ltb now ((i + 1) * bucket_width))) [
      | inl ahd ↦ rw (ahd, evict_loop) (ground (arith, evict_loop-buckets now buckets index id))
      | inr over ↦
          rw (over, evict_loop)
            (ground (arith, evict_loop-buckets now buckets (drop_keys i keys index) id))
    ]

evict_loop-generations :
    (now : ℕ) (buckets : List (ℕ × List Bytes)) (index : List (Bytes × ℕ))
    → IsDistinct buckets
    → IsDistinct (evict_loop now buckets index).0
unfolding evict_loop
evict_loop-generations now [] index d = tt
evict_loop-generations now ((i, keys) ∷ buckets) index d =
    elim (Bool-cases (ltb now ((i + 1) * bucket_width))) [
      | inl ahd ↦
          rw (ahd, evict_loop)
            (
              (rw (evict_loop-buckets now buckets index i, ahd) d.0),
              evict_loop-generations now buckets index d.1,
            )
      | inr over ↦ rw (over, evict_loop) (evict_loop-generations now buckets _ d.1)
    ]

not_owned :
    (i exp : ℕ) (b : Bool) (o : Option ℕ)
    → (i == bucket_of exp) ≡ true
    → b ≡ true
    → (if b then unless_owned i o else o) ≡ some exp
    → ⊥
unfolding unless_owned
not_owned i exp b none s h r = ground arith
not_owned i exp b (some x) s h r = ground arith

-- An entry that is in its bucket does not outlive its generation.
evict_loop-drains :
    (now : ℕ) (buckets : List (ℕ × List Bytes)) (index : List (Bytes × ℕ)) (key : Bytes) (exp : ℕ)
    → (contains key (keys_or_empty (lookup (bucket_of exp) buckets)) ≡ true)
      ⊎ (ahead now (bucket_of exp) ≡ true)
    → lookup key (evict_loop now buckets index).1 ≡ some exp
    → ahead now (bucket_of exp) ≡ true
unfolding evict_loop contains lookup
evict_loop-drains now [] index key exp (inl h) r = cc
evict_loop-drains now buckets index key exp (inr h) r = h
evict_loop-drains now ((i, keys) ∷ buckets) index key exp (inl h) r =
    elim (Bool-cases (i == bucket_of exp)) [
      | inl same ↦ elim (Bool-cases (ltb now ((i + 1) * bucket_width))) [
        | inl ahd ↦ rw (beq_true→eq i (bucket_of exp) same) at ahd
        | inr over ↦ absurd (
            not_owned i exp (contains key keys) (lookup key index) same (rw (same, lookup) at h) (
              rw lookup-drop_keys at (
                evict_loop-old now buckets (drop_keys i keys index) key exp
                  (rw (over, evict_loop) at r))))
      ]
      | inr other ↦ elim (Bool-cases (ltb now ((i + 1) * bucket_width))) [
        | inl ahd ↦
            evict_loop-drains now buckets index key exp (inl (rw (other, lookup) at h))
              (rw (ahd, evict_loop) at r)
        | inr over ↦
            evict_loop-drains now buckets (drop_keys i keys index) key exp
              (inl (rw (other, lookup) at h)) (rw (over, evict_loop) at r)
      ]
    ]

-- In a consistent cache an eviction keeps exactly the entries of the generations that are not over.
pub evict_locked-lookup :
    (now : ℕ) (c : MemoryReplayCache) (key : Bytes)
    → IsConsistent c
    → lookup key (evict_locked now c).index ≡ alive now (lookup key c.index)
unfolding evict_locked
evict_locked-lookup now c key v =
    elim (Option-cases (lookup key (evict_loop now c.buckets c.index).1)) [
      | inl gone ↦ elim (Option-cases (lookup key c.index)) [
        | inl none_there ↦ rw (gone, none_there)
        | inr (exp, there) ↦ elim (Bool-cases (ahead now (bucket_of exp))) [
          | inl ahd ↦
              absurd
                (cc (gone, evict_loop-keeps now c.buckets c.index key exp there (ltb→lt _ _ ahd)))
          | inr over ↦ rw (gone, there) (rw over)
        ]
      ]
      | inr (exp, stays) ↦
          let there : lookup key c.index ≡ some exp =
            evict_loop-old now c.buckets c.index key exp stays in
          let ahd : ahead now (bucket_of exp) ≡ true =
            evict_loop-drains now c.buckets c.index key exp (inl (in_bucket exp there)) stays in
          rw (stays, there) (rw ahd)
    ]
  where
    in_bucket :
        (exp : ℕ)
        → lookup key c.index ≡ some exp
        → contains key (keys_or_empty (lookup (bucket_of exp) c.buckets)) ≡ true
    in_bucket exp there = ground (arith, v.same_keys (bucket_of exp) key)

IsNodup-if :
    (b : Bool) (o : Option (List Bytes))
    → IsNodup (keys_or_empty o)
    → IsNodup (keys_or_empty (if b then o else none))
IsNodup-if true o h = h
IsNodup-if false o h = tt

filtered :
    (now id : ℕ) (key : Bytes) (generation : Option (List Bytes)) (o : Option ℕ)
    → contains key (keys_or_empty generation) ≡ owns id o
    → contains key (keys_or_empty (if ahead now id then generation else none))
      ≡ owns id (alive now o)
unfolding contains
filtered now id key generation none h = ground arith
filtered now id key generation (some exp) h = ground arith

pub evict_locked-IsConsistent :
    (now : ℕ) (c : MemoryReplayCache) → IsConsistent c → IsConsistent (evict_locked now c)
unfolding evict_locked
evict_locked-IsConsistent now c v =
    let (distinct, shorter) = evict_loop-IsDistinct now c.buckets c.index v.distinct in
    record {
      distinct = distinct;
      generations = evict_loop-generations now c.buckets c.index v.generations;
      bounded = omega (arith, v.bounded);
      nodup = λ id.
          rw (evict_loop-buckets now c.buckets c.index id)
            (IsNodup-if (ahead now id) (lookup id c.buckets) (v.nodup id));
      same_keys = λ id key.
          rw (evict_loop-buckets now c.buckets c.index id, evict_locked-lookup now c key v)
            (filtered now id key (lookup id c.buckets) (lookup key c.index) (v.same_keys id key));
    }

add_key-contains :
    (key k : Bytes) (b : List Bytes) → contains k (add_key key b) ≡ (key == k || contains k b)
unfolding add_key contains
add_key-contains key k b = ground (arith, bytes_beq_iff key k)

add_key-IsNodup : (key : Bytes) (b : List Bytes) → IsNodup b → IsNodup (add_key key b)
unfolding add_key
add_key-IsNodup key b d = elim (Bool-cases (contains key b)) [
  | inl there ↦ rw (there, add_key) d
  | inr absent ↦ rw (absent, add_key) (absent, d)
]

bucket-insert :
    (id i : ℕ) (b : List Bytes) (buckets : List (ℕ × List Bytes))
    → keys_or_empty (lookup i (insert id b buckets))
      ≡ (if id == i then b else keys_or_empty (lookup i buckets))
bucket-insert id i b buckets = ground (arith, lookup-insert id i b buckets)

pub bucket-shrink :
    (id i : ℕ) (b : List Bytes) (buckets : List (ℕ × List Bytes))
    → keys_or_empty (lookup i (shrink id b buckets))
      ≡ (if id == i then b else keys_or_empty (lookup i buckets))
bucket-shrink id i [] buckets = ground (arith, lookup-remove id i buckets)
bucket-shrink id i (k ∷ b) buckets = bucket-insert id i (k ∷ b) buckets

pub IsDistinct-shrink :
    (id : ℕ) (b : List Bytes) (buckets : List (ℕ × List Bytes))
    → IsDistinct buckets
    → IsDistinct (shrink id b buckets)
IsDistinct-shrink id [] buckets d = IsDistinct-remove id buckets d
IsDistinct-shrink id (k ∷ b) buckets d = IsDistinct-insert id (k ∷ b) buckets d

pub pick-IsNodup :
    (b : Bool) (xs ys : List Bytes) → IsNodup xs → IsNodup ys → IsNodup (if b then xs else ys)
pick-IsNodup true xs ys h k = h
pick-IsNodup false xs ys h k = k

pub add_locked-IsConsistent :
    (key : Bytes) (exp : ℕ) (c : MemoryReplayCache)
    → IsConsistent c
    → lookup key c.index ≡ none
    → length c.index < c.max_entries
    → IsConsistent (add_locked key exp c)
unfolding add_locked
add_locked-IsConsistent key exp c v new room = record {
  distinct = IsDistinct-insert key exp c.index v.distinct;
  generations = IsDistinct-insert _ _ c.buckets v.generations;
  bounded = omega (arith, length-insert_new key exp c.index new);
  nodup = λ id.
      rw bucket-insert
        (pick-IsNodup _ _ _ (add_key-IsNodup key _ (v.nodup (bucket_of exp))) (v.nodup id));
  same_keys = λ id k. rw bucket-insert (
      ground (
        arith,
        add_key-contains key k (bucket (bucket_of exp) c),
        v.same_keys id k,
        lookup-insert key k exp c.index,
        v.same_keys (bucket_of exp) k,
        bytes_beq_iff key k,
      ));
}
