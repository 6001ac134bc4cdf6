-- ===== src/Scitt/Merkle.antt =====
-- verify/scitt/merkle.go: RFC 9162 inclusion proofs. SHA-256 is a parameter; a `[32]byte` is a
-- list of bytes, of length 32 where that matters.
pub mod Reference
pub mod Split
pub mod Complete
pub mod Rfc9162
pub mod Binding
pub mod Sound
use ans_sdk_go.Base.{
  ℕ, zero, suc, ◌+◌, ◌-◌, ◌/◌, ◌%◌, Bool, true, false, not, ◌&&◌, ◌||◌, List, [], ◌∷◌, ◌++◌, ltb,
  leb, if◌then◌else◌, length, Bytes, ◌==◌, bytes_eq, nat_eq,
}

-- A `MerkleError`: `invalid_proof` has a constructor for each message.
pub data MerkleError : Type 0 where
  zero_tree_size : MerkleError
  leaf_index_out_of_range : ℕ → ℕ → MerkleError
  path_too_long : ℕ → MerkleError
  excess_path_elements : MerkleError
  insufficient_path_elements : MerkleError
  root_mismatch : MerkleError

pub data Result {ℓ} (A : Type ℓ) : Type ℓ where
  ok : A → Result A
  err : MerkleError → Result A

abbrev pub max_hash_path_len : ℕ
max_hash_path_len = 63

-- The inner loop `for fn&1 == 0 && fn != 0`. Each round halves `fn`, so `fn` rounds are enough.
unfoldable pub strip : ℕ → ℕ → ℕ → ℕ × ℕ
strip zero fn sn = (fn, sn)
strip (suc fuel) fn sn = elim (fn % 2 == 0 && not (fn == 0)) [
  | true ↦ strip fuel (fn / 2) (sn / 2)
  | false ↦ (fn, sn)
]

unfoldable pub compare_root : Bytes → Result Bytes → Result (Unit {0})
compare_root expected (err e) = err e
compare_root expected (ok computed) = if computed == expected then ok tt else err root_mismatch

module _ (sha256 : Bytes → Bytes) where
  unfoldable pub compute_leaf_hash : Bytes → Bytes
  compute_leaf_hash data' = sha256 (0 ∷ data')

  unfoldable pub compute_node_hash : Bytes → Bytes → Bytes
  compute_node_hash left right = sha256 (1 ∷ (left ++ right))

  -- The loop of `WalkInclusionPath`, over the elements of the path that are left.
  unfoldable pub walk : ℕ → ℕ → Bytes → List Bytes → Result Bytes
  walk fn sn r [] = if sn == 0 then ok r else err insufficient_path_elements
  walk fn sn r (p ∷ path) = elim (sn == 0) [
    | true ↦ err excess_path_elements
    | false ↦ elim (fn % 2 == 1 || fn == sn) [
      | true ↦
          let (fn', sn') = strip fn fn sn in walk (fn' / 2) (sn' / 2) (compute_node_hash p r) path
      | false ↦ walk (fn / 2) (sn / 2) (compute_node_hash r p) path
    ]
  ]

  unfoldable pub walk_inclusion_path : Bytes → ℕ → ℕ → List Bytes → Result Bytes
  walk_inclusion_path event_bytes leaf_index tree_size hash_path =
      if tree_size == 0
      then err zero_tree_size
      else if leb tree_size leaf_index
      then err (leaf_index_out_of_range leaf_index tree_size)
      else if ltb max_hash_path_len (length hash_path)
      then err (path_too_long (length hash_path))
      else walk leaf_index (tree_size - 1) (compute_leaf_hash event_bytes) hash_path

  unfoldable pub verify_merkle_inclusion : Bytes → ℕ → ℕ → List Bytes → Bytes → Result (Unit {0})
  unfolding compare_root
  verify_merkle_inclusion event_bytes leaf_index tree_size hash_path expected_root =
      compare_root expected_root (walk_inclusion_path event_bytes leaf_index tree_size hash_path)
