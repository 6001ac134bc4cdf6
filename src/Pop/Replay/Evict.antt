-- ===== src/Pop/Replay/Evict.antt =====
-- What an eviction does to the index: a key goes only if every expiry of its generation has passed.
use ans_sdk_go.Base.{
  ℕ, ◌+◌, ◌*◌, ◌≤◌, ◌<◌, ◌≡◌, refl, Bool, false, Option, none, some, List, [], ◌∷◌, ltb,
  if◌then◌else◌, length, Bytes, ◌==◌, nat_eq, bytes_eq, bytes_beq_iff, arith, Bool-cases,
  Option-cases, inl, inr, ltb_false→le, ne→beq_false,
}
use ans_sdk_go.Base.Table.{lookup, IsDistinct, lookup-remove, IsDistinct-remove, length-remove-le}
use ans_sdk_go.Base.Members.{contains}
use ans_sdk_go.Pop.Replay.{bucket_width, bucket_of, drop_key, drop_keys, evict_loop}

-- The entry that a generation leaves.
unfoldable pub unless_owned : ℕ → Option ℕ → Option ℕ
unless_owned id none = none
unless_owned id (some exp) = if bucket_of exp == id then none else some exp

lookup-drop_key :
    (id : ℕ) (key j : Bytes) (index : List (Bytes × ℕ))
    → lookup j (drop_key id key index)
      ≡ (if key == j then unless_owned id (lookup j index) else lookup j index)
unfolding drop_key unless_owned
lookup-drop_key id key j index = ground (arith, lookup-remove key j index, bytes_beq_iff key j)

unless_owned_idem :
    (id : ℕ) (o : Option ℕ) → unless_owned id (unless_owned id o) ≡ unless_owned id o
unfolding unless_owned
unless_owned_idem id none = refl
unless_owned_idem id (some exp) = ground arith

pub lookup-drop_keys :
    (id : ℕ) (keys : List Bytes) (j : Bytes) (index : List (Bytes × ℕ))
    → lookup j (drop_keys id keys index)
      ≡ (if contains j keys then unless_owned id (lookup j index) else lookup j index)
unfolding drop_keys contains
lookup-drop_keys id [] j index = refl
lookup-drop_keys id (key ∷ keys) j index = ground (
  arith,
  lookup-drop_keys id keys j (drop_key id key index),
  lookup-drop_key id key j index,
  unless_owned_idem id (lookup j index),
)

kept :
    (id : ℕ) (b : Bool) (exp : ℕ) (o : Option ℕ)
    → o ≡ some exp
    → (bucket_of exp == id) ≡ false
    → (if b then unless_owned id o else o) ≡ some exp
unfolding unless_owned
kept id b exp none h other = cc
kept id b exp (some x) h other = ground arith

pub dropped_old :
    (id : ℕ) (b : Bool) (exp : ℕ) (o : Option ℕ)
    → (if b then unless_owned id o else o) ≡ some exp
    → o ≡ some exp
unfolding unless_owned
dropped_old id b exp none h = ground arith
dropped_old id b exp (some x) h = ground arith

drop_key-IsDistinct :
    (id : ℕ) (key : Bytes) (index : List (Bytes × ℕ))
    → IsDistinct index
    → IsDistinct (drop_key id key index) × (length (drop_key id key index) ≤ length index)
unfolding drop_key
drop_key-IsDistinct id key index d = elim (Option-cases (lookup key index)) [
  | inl missing ↦ rw (missing, drop_key) (d, omega arith)
  | inr (exp, found) ↦ elim (Bool-cases (bucket_of exp == id)) [
    | inl owned ↦
        rw (found, drop_key) (rw owned (IsDistinct-remove key index d, length-remove-le key index))
    | inr foreign ↦ rw (found, drop_key) (rw foreign (d, omega arith))
  ]
]

-- An eviction at `now` keeps each entry whose generation is not over.
pub evict_loop-keeps :
    (now : ℕ) (buckets : List (ℕ × List Bytes)) (index : List (Bytes × ℕ)) (j : Bytes) (exp : ℕ)
    → lookup j index ≡ some exp
    → now < (bucket_of exp + 1) * bucket_width
    → lookup j (evict_loop now buckets index).1 ≡ some exp
unfolding evict_loop
evict_loop-keeps now [] index j exp h live = h
evict_loop-keeps now ((id, keys) ∷ buckets) index j exp h live =
    elim (Bool-cases (ltb now ((id + 1) * bucket_width))) [
      | inl ahead ↦ rw (ahead, evict_loop) (evict_loop-keeps now buckets index j exp h live)
      | inr over ↦
          let other : (bucket_of exp == id) ≡ false =
            ne→beq_false (bucket_of exp) id (omega (arith, ltb_false→le _ _ over)) in
          rw (over, evict_loop)
            (evict_loop-keeps now buckets (drop_keys id keys index) j exp
              (rw lookup-drop_keys (kept id (contains j keys) exp (lookup j index) h other)) live)
    ]

-- An eviction writes no entry.
pub evict_loop-old :
    (now : ℕ) (buckets : List (ℕ × List Bytes)) (index : List (Bytes × ℕ)) (j : Bytes) (exp : ℕ)
    → lookup j (evict_loop now buckets index).1 ≡ some exp
    → lookup j index ≡ some exp
unfolding evict_loop
evict_loop-old now [] index j exp h = h
evict_loop-old now ((id, keys) ∷ buckets) index j exp h =
    elim (Bool-cases (ltb now ((id + 1) * bucket_width))) [
      | inl ahead ↦ evict_loop-old now buckets index j exp (rw (ahead, evict_loop) at h)
      | inr over ↦ dropped_old id (contains j keys) exp (lookup j index) (
          rw lookup-drop_keys at (
            evict_loop-old now buckets (drop_keys id keys index) j exp
              (rw (over, evict_loop) at h)))
    ]

drop_keys-IsDistinct :
    (id : ℕ) (keys : List Bytes) (index : List (Bytes × ℕ))
    → IsDistinct index
    → IsDistinct (drop_keys id keys index) × (length (drop_keys id keys index) ≤ length index)
unfolding drop_keys
drop_keys-IsDistinct id [] index d = (d, omega arith)
drop_keys-IsDistinct id (key ∷ keys) index d =
    let (first, shorter) = drop_key-IsDistinct id key index d in
    let (rest, shorter') = drop_keys-IsDistinct id keys (drop_key id key index) first in
    (rest, omega arith)

pub evict_loop-IsDistinct :
    (now : ℕ) (buckets : List (ℕ × List Bytes)) (index : List (Bytes × ℕ))
    → IsDistinct index
    → IsDistinct (evict_loop now buckets index).1
      × (length (evict_loop now buckets index).1 ≤ length index)
unfolding evict_loop
evict_loop-IsDistinct now [] index d = (d, omega arith)
evict_loop-IsDistinct now ((id, keys) ∷ buckets) index d =
    elim (Bool-cases (ltb now ((id + 1) * bucket_width))) [
      | inl ahead ↦ rw (ahead, evict_loop) (evict_loop-IsDistinct now buckets index d)
      | inr over ↦
          let (first, shorter) = drop_keys-IsDistinct id keys index d in
          let (rest, shorter') =
            evict_loop-IsDistinct now buckets (drop_keys id keys index) first in
          rw (over, evict_loop) (rest, omega arith)
    ]
