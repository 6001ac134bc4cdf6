-- ===== src/Scitt/Merkle/Sound.antt =====
-- Soundness: what `VerifyMerkleInclusion` accepts against the root of a tree is in the tree.
use ans_sdk_go.Base.{
  ℕ, zero, suc, ◌+◌, ◌-◌, ◌/◌, ◌%◌, ◌<◌, ◌≤◌, ◌≡◌, ◌≢◌, ◌⊎◌, inl, inr, List, [], ◌∷◌, arith, length,
  Bytes, ◌==◌, nat_eq, bytes_eq, bytes_beq_iff, Bool-cases, map, get_elem?, some, ◌^◌,
  get_elem?-defined, length-map, beq_false→ne,
}
use ans_sdk_go.Scitt.Merkle.{
  Result, ok, err, walk, walk_inclusion_path, verify_merkle_inclusion, compare_root,
  compute_leaf_hash, compute_node_hash,
}
use ans_sdk_go.Scitt.Merkle.Reference.{
  at, pair_up, root, inclusion_path, with_sibling, length-pair_up, inclusion_path-unfold,
  inclusion_path_single,
}
use ans_sdk_go.Scitt.Merkle.Complete.{walk_inclusion_path_complete}
use ans_sdk_go.Scitt.Merkle.Binding.{Collision, AllHashes, walk-injective, same_preimage}

at-AllHashes : (hs : List Bytes) (i : ℕ) → AllHashes hs → i < length hs → length (at hs i) ≡ 32
at-AllHashes [] i a h = elim h [ ]
at-AllHashes (x ∷ hs) zero a h = a.0
at-AllHashes (x ∷ hs) (suc i) a h = at-AllHashes hs i a.1 (omega arith)

with_sibling-AllHashes :
    (i : ℕ) (hs above : List Bytes)
    → i < length hs
    → AllHashes hs
    → AllHashes above
    → AllHashes (with_sibling i hs above)
unfolding with_sibling
with_sibling-AllHashes i hs above h a b = elim (Bool-cases (i % 2 == 1)) [
  | inl odd ↦ rw odd (at-AllHashes hs (i - 1) a (omega arith), b)
  | inr even ↦ rw even (elim (Bool-cases (i + 1 == length hs)) [
    | inl last ↦ rw last b
    | inr inner ↦
        let inside : i + 1 ≢ length hs = beq_false→ne (i + 1) (length hs) inner in
        rw inner (at-AllHashes hs (i + 1) a (omega arith), b)
  ])
]

compare_root-ok :
    (expected : Bytes) (r : Result Bytes) → compare_root expected r ≡ ok tt → r ≡ ok expected
unfolding compare_root
compare_root-ok expected (err e) h = cc
compare_root-ok expected (ok computed) h = ground (arith, bytes_beq_iff computed expected)

module _ (sha256 : Bytes → Bytes) (width : (x : Bytes) → length (sha256 x) ≡ 32) where
  pair_up-AllHashes : (hs : List Bytes) → AllHashes hs → AllHashes (pair_up sha256 hs)
  unfolding compute_node_hash
  pair_up-AllHashes [] a = tt
  pair_up-AllHashes (x ∷ []) a = a
  pair_up-AllHashes (x ∷ y ∷ r) a = (width _, pair_up-AllHashes r a.1.1)

  leaves-AllHashes : (events : List Bytes) → AllHashes (map (compute_leaf_hash sha256) events)
  unfolding compute_leaf_hash
  leaves-AllHashes [] = tt
  leaves-AllHashes (e ∷ events) = (width _, leaves-AllHashes events)

  inclusion_path-AllHashes :
      (n i : ℕ) (hs : List Bytes)
      → length hs ≤ n + 1
      → i < length hs
      → AllHashes hs
      → AllHashes (inclusion_path sha256 i hs)
  inclusion_path-AllHashes n i [] b h a = elim h [ ]
  inclusion_path-AllHashes n zero (x ∷ []) b h a = rw inclusion_path_single tt
  inclusion_path-AllHashes n (suc i) (x ∷ []) b h a = absurd (omega arith)
  inclusion_path-AllHashes zero i (x ∷ y ∷ r) b h a = absurd (omega arith)
  inclusion_path-AllHashes (suc n) i (x ∷ y ∷ r) b h a =
      rw (inclusion_path-unfold sha256 i (x ∷ y ∷ r) h) (
        with_sibling-AllHashes i (x ∷ y ∷ r) _ h a (
          inclusion_path-AllHashes n (i / 2) (pair_up sha256 (x ∷ y ∷ r))
            (omega (arith, length-pair_up sha256 r)) (omega (arith, length-pair_up sha256 r))
            (pair_up-AllHashes (x ∷ y ∷ r) a)))

  -- Equal leaf hashes come from one event, or collide.
  same_leaf :
      {p q : List Bytes} (e e' : Bytes)
      → ((compute_leaf_hash sha256 e ≡ compute_leaf_hash sha256 e') × (p ≡ q)) ⊎ Collision sha256
      → ((e ≡ e') × (p ≡ q)) ⊎ Collision sha256
  unfolding compute_leaf_hash
  same_leaf e e' (inr c) = inr c
  same_leaf e e' (inl (h, t)) = elim (same_preimage sha256 _ _ h) [
    | inl same ↦ inl (cc, t)
    | inr c ↦ inr c
  ]

  -- What a walk that returns has passed.
  walked :
      (event : Bytes) (i n : ℕ) (path : List Bytes) (r : Bytes)
      → walk_inclusion_path sha256 event i n path ≡ ok r
      → (i < n)
        × (length path ≤ 63)
        × (walk sha256 i (n - 1) (compute_leaf_hash sha256 event) path ≡ ok r)
  unfolding walk_inclusion_path
  walked event i n path r h = (ground arith, ground arith, ground arith)

  -- Let SHA-256 yield 32 bytes. If a proof with 32-byte path elements is accepted for an event, an
  -- index and the number of events of a tree of at most 2^63 events, against the root of that tree,
  -- then the index lies in the tree, and the event is the one there with the path that RFC 9162
  -- assigns to it, or the proof exhibits a collision of SHA-256.
  pub verify_merkle_inclusion_sound :
      (events : List Bytes) (event : Bytes) (i : ℕ) (path : List Bytes)
      → length events ≤ 2 ^ 63
      → AllHashes path
      → verify_merkle_inclusion sha256 event i
          (length events)
          path
          (root sha256 (map (compute_leaf_hash sha256) events))
        ≡ ok tt
      → (there : Bytes) × (get_elem? events i ≡ some there)
        × (((event ≡ there)
              × (path ≡ inclusion_path sha256 i (map (compute_leaf_hash sha256) events)))
            ⊎ Collision sha256)
  unfolding verify_merkle_inclusion
  verify_merkle_inclusion_sound events event i path bound hashes h =
      let leaves : List Bytes = map (compute_leaf_hash sha256) events in
      let (inside, _, ran) =
        walked event i (length events) path (root sha256 leaves) (compare_root-ok _ _ h) in
      let (there, found) = get_elem?-defined events i inside in
      let size : length leaves ≡ length events = length-map (compute_leaf_hash sha256) events in
      (
        there,
        found,
        same_leaf event there (
            walk-injective sha256 width i (length events - 1) (compute_leaf_hash sha256 event)
              (compute_leaf_hash sha256 there) (root sha256 leaves) path
              (inclusion_path sha256 i leaves) (leaf32 event) (leaf32 there) hashes
              (inclusion_path-AllHashes (length leaves) i leaves (omega arith) (omega arith)
                (leaves-AllHashes events))
              ran
              (walked there i (length events) (inclusion_path sha256 i leaves) (root sha256 leaves)
                (walk_inclusion_path_complete sha256 events i there found bound)).2),
      )
    where
      leaf32 : (e : Bytes) → length (compute_leaf_hash sha256 e) ≡ 32
      leaf32 e = unfold compute_leaf_hash in width _
