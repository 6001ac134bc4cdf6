-- ===== src/Scitt/Checkpoint/Covered.antt =====
-- A receipt together with a checkpoint that covers it.
use ans_sdk_go.Base.{
  passed_number, ℕ, ◌^◌, ◌≤◌, ◌≡◌, ◌∙◌, not, ◌==◌, ◌⊎◌, inl, inr, some, List, map, length,
  get_elem?, Bytes, nat_eq, bytes_eq, passed_equal, arith, bytes_beq_iff,
}
use mathlib.Core.Path.{subst}
use ans_sdk_go.Scitt.Errors.{good, fail_if-good, fail_if_last}
use ans_sdk_go.Scitt.Merkle.{
  walk_inclusion_path, verify_merkle_inclusion, compare_root, ok, compute_leaf_hash,
}
use ans_sdk_go.Scitt.Merkle.Reference.{root}
use ans_sdk_go.Scitt.Merkle.Binding.{Collision}
use ans_sdk_go.Scitt.Merkle.Sound.{verify_merkle_inclusion_sound}
use ans_sdk_go.Scitt.RootKeys.{Crypto}
use ans_sdk_go.Scitt.Cose.{Cbor}
use ans_sdk_go.Scitt.Receipt.{KeyLookup, VerifiedReceipt, verify_receipt}
use ans_sdk_go.Scitt.Receipt.Accepted.{verify_receipt-IsReceipt}
use ans_sdk_go.Scitt.Checkpoint.{Checkpoint, covers}

compare_root-same : (r : Bytes) → compare_root r (ok r) ≡ ok tt
unfolding compare_root
compare_root-same r = ground (arith, bytes_beq_iff r r)

covers-same :
    (cp : Checkpoint) (r : VerifiedReceipt)
    → covers cp r ≡ good tt
    → (r.tree_size ≡ cp.size) × (r.root_hash ≡ cp.root_hash)
unfolding covers
covers-same cp r h =
    let size = fail_if-good (not (r.tree_size == cp.size)) _ _ h in
    (
      passed_number r.tree_size cp.size size.0,
      passed_equal r.root_hash cp.root_hash
          (fail_if_last (not (r.root_hash == cp.root_hash)) _ size.1),
    )

module _ (cbor : Cbor) (crypto : Crypto) (width : (x : Bytes) → length (crypto.sha256 x) ≡ 32) where
  proved :
      (event : Bytes) (index size : ℕ) (path : List Bytes) (r : Bytes)
      → walk_inclusion_path crypto.sha256 event index size path ≡ ok r
      → verify_merkle_inclusion crypto.sha256 event index size path r ≡ ok tt
  unfolding verify_merkle_inclusion
  proved event index size path r h = rw h (compare_root-same r)

  -- Let SHA-256 yield 32 bytes. If a receipt is accepted and a checkpoint covers it, and the
  -- checkpoint's size and root are those of the tree of a list of at most 2^63 events, then the
  -- list has an event at the leaf index of the receipt, and it is the event of the receipt, or there
  -- is a collision of SHA-256.
  pub covers-verify_receipt :
      (receipt_bytes : Bytes) (keys : KeyLookup) (r : VerifiedReceipt) (cp : Checkpoint)
      (events : List Bytes)
      → verify_receipt cbor crypto receipt_bytes keys ≡ good r
      → covers cp r ≡ good tt
      → length events ≤ 2 ^ 63
      → cp.size ≡ length events
      → cp.root_hash ≡ root crypto.sha256 (map (compute_leaf_hash crypto.sha256) events)
      → (there : Bytes) × (get_elem? events r.leaf_index ≡ some there)
        × ((r.event_bytes ≡ there) ⊎ Collision crypto.sha256)
  covers-verify_receipt receipt_bytes keys r cp events accepted covered bound size top =
      let (_, _, path, _, _, _, _, _, _, _, wide, walk) =
        verify_receipt-IsReceipt cbor crypto receipt_bytes keys r accepted in
      let (same_size, same_root) = covers-same cp r covered in
      let checks = verify_merkle_inclusion crypto.sha256 r.event_bytes r.leaf_index in
      let included =
        subst
          (λ n.
            checks n path (root crypto.sha256 (map (compute_leaf_hash crypto.sha256) events))
            ≡ ok tt)
          (same_size ∙ size)
          (subst (λ x. checks r.tree_size path x ≡ ok tt) (same_root ∙ top)
            (proved r.event_bytes r.leaf_index r.tree_size path r.root_hash walk)) in
      let (there, found, same) =
        verify_merkle_inclusion_sound crypto.sha256 width events r.event_bytes r.leaf_index path
          bound wide included in
      (there, found, elim same [ inl here' ↦ inl here'.0 | inr collision ↦ inr collision ])
