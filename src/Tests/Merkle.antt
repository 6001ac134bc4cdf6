-- ===== src/Tests/Merkle.antt =====
-- verify/scitt/merkle.go at a tree of three events, with a checksum of 32 bytes for the hash.
use ans_sdk_go.Base.{
  ℕ, zero, suc, ◌+◌, ◌*◌, ◌%◌, ◌≡◌, ◌⊎◌, ◌↔◌, refl, some, List, [], ◌∷◌, ◌++◌, arith, length,
  get_elem?, map, Bytes, bytes_beq,
}
use ans_sdk_go.Scitt.Merkle.{
  ok, err, strip, walk, walk_inclusion_path, verify_merkle_inclusion, compute_leaf_hash,
  compute_node_hash, root_mismatch,
}
use ans_sdk_go.Scitt.Merkle.Reference.{root, inclusion_path, with_sibling}
use ans_sdk_go.Scitt.Merkle.Rfc9162.{
  IsTreeHash, leaf, node, IsPath, end, left, right, verify_merkle_inclusion-Rfc9162,
}
use ans_sdk_go.Scitt.Merkle.Complete.{walk_inclusion_path_complete}
use ans_sdk_go.Scitt.Merkle.Binding.{Collision}
use ans_sdk_go.Scitt.Merkle.Sound.{verify_merkle_inclusion_sound}

abbrev checksum : ℕ → Bytes → ℕ
checksum acc [] = acc
checksum acc (b ∷ bs) = checksum ((acc * 31 + b + 7) % 65521) bs

abbrev zeros : ℕ → Bytes
zeros zero = []
zeros (suc n) = 0 ∷ zeros n

abbrev digest : Bytes → Bytes
digest bs = checksum 1 bs ∷ zeros 31

digest-width : (bs : Bytes) → length (digest bs) ≡ 32
digest-width bs = refl

abbrev events : List Bytes
events = (10 ∷ []) ∷ (20 ∷ 21 ∷ []) ∷ (30 ∷ []) ∷ []

abbrev leaves : List Bytes
leaves = map (compute_leaf_hash digest) events

program : Unit {0}
unfolding strip walk walk_inclusion_path verify_merkle_inclusion compute_leaf_hash compute_node_hash
    root inclusion_path bytes_beq with_sibling
program = tt

walk_inclusion_path_complete_example :
    walk_inclusion_path digest (20 ∷ 21 ∷ []) 1 3 (inclusion_path digest 1 leaves)
    ≡ ok (root digest leaves)
walk_inclusion_path_complete_example =
    walk_inclusion_path_complete digest events 1 (20 ∷ 21 ∷ []) refl (omega arith)

accepts :
    verify_merkle_inclusion digest
      (30 ∷ [])
      2
      3
      (inclusion_path digest 2 leaves)
      (root digest leaves)
    ≡ ok tt
unfolding program
accepts = refl

rejects :
    verify_merkle_inclusion digest
      (31 ∷ [])
      2
      3
      (inclusion_path digest 2 leaves)
      (root digest leaves)
    ≡ err root_mismatch
unfolding program
rejects = refl

verify_merkle_inclusion_sound_example :
    (there : Bytes) × (get_elem? events 2 ≡ some there)
    × ((((30 ∷ []) ≡ there) × (inclusion_path digest 2 leaves ≡ inclusion_path digest 2 leaves))
        ⊎ Collision digest)
unfolding program
verify_merkle_inclusion_sound_example =
    verify_merkle_inclusion_sound digest digest-width events (30 ∷ []) 2
      (inclusion_path digest 2 leaves) (omega arith) (refl, tt) accepts

two_events :
    IsTreeHash digest
      ((10 ∷ []) ∷ (20 ∷ 21 ∷ []) ∷ [])
      (digest (1 ∷ (digest (0 ∷ 10 ∷ []) ++ digest (0 ∷ 20 ∷ 21 ∷ []))))
two_events = node 0 refl (omega arith) (omega arith) (leaf (10 ∷ [])) (leaf (20 ∷ 21 ∷ []))

abbrev tree_hash : Bytes
tree_hash =
    digest (
      1
      ∷ (digest (1 ∷ (digest (0 ∷ 10 ∷ []) ++ digest (0 ∷ 20 ∷ 21 ∷ []))) ++ digest (0 ∷ 30 ∷ [])))

abbrev path_1 : List Bytes
path_1 = digest (0 ∷ 10 ∷ []) ∷ digest (0 ∷ 30 ∷ []) ∷ []

three_events : IsTreeHash digest events tree_hash
three_events = node 1 refl (omega arith) (omega arith) two_events (leaf (30 ∷ []))

way_of_second : IsPath digest 1 events path_1
way_of_second =
    left 1 refl (omega arith) (omega arith)
      (right 0 refl (omega arith) (end (20 ∷ 21 ∷ [])) (leaf (10 ∷ []))) (leaf (30 ∷ []))

verify_merkle_inclusion-Rfc9162_example :
    (verify_merkle_inclusion digest (20 ∷ 21 ∷ []) 1 3 path_1 tree_hash ≡ ok tt)
    ↔ (tree_hash ≡ tree_hash)
verify_merkle_inclusion-Rfc9162_example =
    verify_merkle_inclusion-Rfc9162 digest events 1 (20 ∷ 21 ∷ []) path_1 tree_hash tree_hash refl
      (omega arith) three_events way_of_second
