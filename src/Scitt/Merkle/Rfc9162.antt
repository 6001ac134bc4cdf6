-- ===== src/Scitt/Merkle/Rfc9162.antt =====
-- Section 2.1 of RFC 9162 as it is written there, for lists of events, beside the verification of
-- verify/scitt/merkle.go.
use ans_sdk_go.Base.{
  ℕ, ◌+◌, ◌^◌, ◌<◌, ◌≤◌, ◌≡◌, ◌↔◌, refl, ◌∙◌, ap, List, [], ◌∷◌, ◌++◌, arith, length, length-append,
  length-map, map, get_elem?, some, Bytes, bytes_beq_iff,
}
use ans_sdk_go.Scitt.Merkle.{
  ok, compute_leaf_hash, compute_node_hash, compare_root, walk_inclusion_path,
  verify_merkle_inclusion,
}
use ans_sdk_go.Scitt.Merkle.Reference.{root, root_single, inclusion_path, inclusion_path_single}
use ans_sdk_go.Scitt.Merkle.Split.{root-split, inclusion_path-left, inclusion_path-right}
use ans_sdk_go.Scitt.Merkle.Complete.{walk_inclusion_path_complete}

module _ (sha256 : Bytes → Bytes) where
  -- The Merkle tree hash MTH of a list: a leaf hashes 0 and the event, and a node hashes 1 and the
  -- hashes of the two parts, the left one of a power of two and not smaller than the right one.
  pub data IsTreeHash : List Bytes → Bytes → Type 0 where
    leaf : (d : Bytes) → IsTreeHash (d ∷ []) (sha256 (0 ∷ d))
    node :
        {xs ys : List Bytes} {a b : Bytes} (j : ℕ)
        → length xs ≡ 2 ^ j
        → 0 < length ys
        → length ys ≤ 2 ^ j
        → IsTreeHash xs a
        → IsTreeHash ys b
        → IsTreeHash (xs ++ ys) (sha256 (1 ∷ (a ++ b)))

  -- The inclusion path PATH of an index: the path in the part of the index, and the hash of the other
  -- part behind it.
  pub data IsPath : ℕ → List Bytes → List Bytes → Type 0 where
    end : (d : Bytes) → IsPath 0 (d ∷ []) []
    left :
        {i : ℕ} {xs ys p : List Bytes} {b : Bytes} (j : ℕ)
        → length xs ≡ 2 ^ j
        → 0 < length ys
        → length ys ≤ 2 ^ j
        → IsPath i xs p
        → IsTreeHash ys b
        → IsPath i (xs ++ ys) (p ++ b ∷ [])
    right :
        {i : ℕ} {xs ys p : List Bytes} {a : Bytes} (j : ℕ)
        → length xs ≡ 2 ^ j
        → length ys ≤ 2 ^ j
        → IsPath i ys p
        → IsTreeHash xs a
        → IsPath (length xs + i) (xs ++ ys) (p ++ a ∷ [])

  abbrev leaves : List Bytes → List Bytes
  leaves ds = map (compute_leaf_hash sha256) ds

  leaves-append : (xs ys : List Bytes) → leaves (xs ++ ys) ≡ leaves xs ++ leaves ys
  leaves-append [] ys = refl
  leaves-append (x ∷ xs) ys = ap (◌∷◌ (compute_leaf_hash sha256 x)) (leaves-append xs ys)

  length-leaves : (ds : List Bytes) → length (leaves ds) ≡ length ds
  length-leaves ds = length-map (compute_leaf_hash sha256) ds

  IsTreeHash-root : {ds : List Bytes} {r : Bytes} → IsTreeHash ds r → root sha256 (leaves ds) ≡ r
  unfolding compute_leaf_hash compute_node_hash
  IsTreeHash-root (leaf d) = rw root_single refl
  IsTreeHash-root (node {xs} {ys} {a} {b} j e p l ha hb) = rw (leaves-append xs ys) (
      root-split sha256 j (leaves xs) (leaves ys) (length-leaves xs ∙ e)
        (omega (arith, length-leaves ys)) (omega (arith, length-leaves ys))
      ∙ rw (IsTreeHash-root ha, IsTreeHash-root hb) refl)

  IsPath-inside : {i : ℕ} {ds p : List Bytes} → IsPath i ds p → i < length ds
  IsPath-inside (end d) = omega arith
  IsPath-inside (left {i} {xs} {ys} j e p l h t) =
      omega (arith, length-append xs ys, IsPath-inside h)
  IsPath-inside (right {i} {xs} {ys} j e l h t) =
      omega (arith, length-append xs ys, IsPath-inside h)

  IsPath-inclusion_path :
      {i : ℕ} {ds p : List Bytes} → IsPath i ds p → inclusion_path sha256 i (leaves ds) ≡ p
  IsPath-inclusion_path (end d) = rw inclusion_path_single refl
  IsPath-inclusion_path (left {i} {xs} {ys} j e p l h t) = rw (leaves-append xs ys) (
      inclusion_path-left sha256 j i (leaves xs) (leaves ys) (length-leaves xs ∙ e)
        (omega (arith, length-leaves ys)) (omega (arith, length-leaves ys))
        (omega (arith, length-leaves xs, IsPath-inside h))
      ∙ rw (IsPath-inclusion_path h, IsTreeHash-root t) refl)
  IsPath-inclusion_path (right {i} {xs} {ys} j e l h t) = rw (leaves-append xs ys) (
      inclusion_path-right sha256 j i (length xs + i) (leaves xs) (leaves ys) (length-leaves xs ∙ e)
        (omega (arith, length-leaves ys)) (omega (arith, length-leaves ys, IsPath-inside h))
        (omega (arith, length-leaves xs))
      ∙ rw (IsPath-inclusion_path h, IsTreeHash-root t) refl)

  compare_root_iff : (expected r : Bytes) → (compare_root expected (ok r) ≡ ok tt) ↔ (expected ≡ r)
  unfolding compare_root
  compare_root_iff expected r = ground (arith, bytes_beq_iff r expected)

  -- With the path that RFC 9162 defines for an event of at most 2^63 events, the verification
  -- accepts exactly the Merkle tree hash that RFC 9162 defines for the list.
  pub verify_merkle_inclusion-Rfc9162 :
      (ds : List Bytes) (i : ℕ) (d : Bytes) (path : List Bytes) (tree_hash expected : Bytes)
      → get_elem? ds i ≡ some d
      → length ds ≤ 2 ^ 63
      → IsTreeHash ds tree_hash
      → IsPath i ds path
      → (verify_merkle_inclusion sha256 d i (length ds) path expected ≡ ok tt)
        ↔ (expected ≡ tree_hash)
  unfolding verify_merkle_inclusion
  verify_merkle_inclusion-Rfc9162 ds i d path tree_hash expected e b t p =
      let walked : walk_inclusion_path sha256 d i (length ds) path ≡ ok tree_hash =
        rw (← IsPath-inclusion_path p, ← IsTreeHash-root t)
          (walk_inclusion_path_complete sha256 ds i d e b) in
      rw walked (compare_root_iff expected tree_hash)
