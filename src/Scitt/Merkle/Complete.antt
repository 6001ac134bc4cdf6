-- ===== src/Scitt/Merkle/Complete.antt =====
-- Completeness: the walk accepts the inclusion path of every leaf.
use ans_sdk_go.Base.{
  ℕ, zero, suc, ◌+◌, ◌-◌, ◌*◌, ◌/◌, ◌%◌, ◌^◌, ◌<◌, ◌≤◌, ◌≡◌, refl, ◌∙◌, List, [], ◌∷◌, arith,
  length, Bytes, ◌==◌, nat_eq, Bool-cases, inl, inr, ne→beq_false, beq_false→ne, beq_true→eq, ◌≢◌,
  map, length-map, get_elem?, some, lt→leb_false, le→ltb_false,
}
use ans_sdk_go.Scitt.Merkle.{
  Result, ok, strip, walk, walk_inclusion_path, compute_leaf_hash, compute_node_hash,
  max_hash_path_len,
}
use ans_sdk_go.Scitt.Merkle.Split.{two_pow_suc}
use ans_sdk_go.Scitt.Merkle.Reference.{
  at, pair_up, root, inclusion_path, with_sibling, length-pair_up, root-pair_up, root_single,
  inclusion_path-unfold, inclusion_path_single,
}

strip_odd : (fuel fn sn : ℕ) → fn % 2 ≡ 1 → strip fuel fn sn ≡ (fn, sn)
unfolding strip
strip_odd zero fn sn h = refl
strip_odd (suc fuel) fn sn h = ground arith

-- The rounds of the inner loop are at most `fn`.
strip_enough : (f g fn sn : ℕ) → fn ≤ f → fn ≤ g → strip f fn sn ≡ strip g fn sn
unfolding strip
strip_enough zero zero fn sn p q = refl
strip_enough zero (suc g) fn sn p q = ground arith
strip_enough (suc f) zero fn sn p q = ground arith
strip_enough (suc f) (suc g) fn sn p q = ground (arith, strip_enough f g (fn / 2) (sn / 2))

-- The inner loop ends by its test: `fn` is odd, or 0.
pub strip-stops :
    (fuel fn sn : ℕ) → fn ≤ fuel → (strip fuel fn sn).0 % 2 ≡ 0 → (strip fuel fn sn).0 ≡ 0
unfolding strip
strip-stops zero fn sn h e = omega arith
strip-stops (suc fuel) fn sn h e = ground (arith, strip-stops fuel (fn / 2) (sn / 2))

length-with_sibling :
    (i : ℕ) (hs above : List Bytes) → length (with_sibling i hs above) ≤ length above + 1
unfolding with_sibling
length-with_sibling i hs above = ground arith

get_elem?-inside : (xs : List Bytes) (i : ℕ) (x : Bytes) → get_elem? xs i ≡ some x → i < length xs
get_elem?-inside [] i x h = cc
get_elem?-inside (y ∷ xs) zero x h = omega arith
get_elem?-inside (y ∷ xs) (suc i) x h = omega (arith, get_elem?-inside xs i x h)

module _ (sha256 : Bytes → Bytes) where
  at-leaves :
      (events : List Bytes) (i : ℕ) (event : Bytes)
      → get_elem? events i ≡ some event
      → at (map (compute_leaf_hash sha256) events) i ≡ compute_leaf_hash sha256 event
  at-leaves [] i event h = cc
  at-leaves (x ∷ events) zero event h = cc
  at-leaves (x ∷ events) (suc i) event h = at-leaves events i event h

  at-pair_up_pair :
      (k i j : ℕ) (hs : List Bytes)
      → i ≡ 2 * k
      → j ≡ suc i
      → j < length hs
      → at (pair_up sha256 hs) k ≡ compute_node_hash sha256 (at hs i) (at hs j)
  at-pair_up_pair k i j [] e f h = elim h [ ]
  at-pair_up_pair k i j (x ∷ []) e f h = absurd (omega arith)
  at-pair_up_pair zero zero zero (x ∷ y ∷ r) e f h = absurd (omega arith)
  at-pair_up_pair zero zero (suc zero) (x ∷ y ∷ r) e f h = refl
  at-pair_up_pair zero zero (suc (suc j)) (x ∷ y ∷ r) e f h = absurd (omega arith)
  at-pair_up_pair zero (suc i) j (x ∷ y ∷ r) e f h = absurd (omega arith)
  at-pair_up_pair (suc k) zero j (x ∷ y ∷ r) e f h = absurd (omega arith)
  at-pair_up_pair (suc k) (suc zero) j (x ∷ y ∷ r) e f h = absurd (omega arith)
  at-pair_up_pair (suc k) (suc (suc i)) zero (x ∷ y ∷ r) e f h = absurd (omega arith)
  at-pair_up_pair (suc k) (suc (suc i)) (suc zero) (x ∷ y ∷ r) e f h = absurd (omega arith)
  at-pair_up_pair (suc k) (suc (suc i)) (suc (suc j)) (x ∷ y ∷ r) e f h =
      at-pair_up_pair k i j r (omega arith) (omega arith) (omega arith)

  at-pair_up_last :
      (k i : ℕ) (hs : List Bytes)
      → i ≡ 2 * k
      → i + 1 ≡ length hs
      → at (pair_up sha256 hs) k ≡ at hs i
  at-pair_up_last k i [] e h = absurd (omega arith)
  at-pair_up_last zero zero (x ∷ []) e h = refl
  at-pair_up_last zero (suc i) (x ∷ []) e h = absurd (omega arith)
  at-pair_up_last (suc k) i (x ∷ []) e h = absurd (omega arith)
  at-pair_up_last zero i (x ∷ y ∷ r) e h = absurd (omega arith)
  at-pair_up_last (suc k) zero (x ∷ y ∷ r) e h = absurd (omega arith)
  at-pair_up_last (suc k) (suc zero) (x ∷ y ∷ r) e h = absurd (omega arith)
  at-pair_up_last (suc k) (suc (suc i)) (x ∷ y ∷ r) e h =
      at-pair_up_last k i r (omega arith) (omega arith)

  -- An unpaired last node goes up a level with no element of the path.
  walk_skip :
      (k i : ℕ) (r : Bytes) (path : List Bytes)
      → i ≡ 2 * k
      → 0 < i
      → walk sha256 i i r path ≡ walk sha256 k k r path
  unfolding walk strip
  walk_skip k zero r path e h = elim h [ ]
  walk_skip k (suc i) r [] e h = ground arith
  walk_skip k (suc i) r (p ∷ path) e h = ground (arith, strip_enough i k k k)

  -- One round of the walk, on each of the two sides.
  walk_left :
      (i sn : ℕ) (r p : Bytes) (path : List Bytes)
      → 0 < sn
      → i % 2 ≡ 1
      → walk sha256 i sn r (p ∷ path)
        ≡ walk sha256 (i / 2) (sn / 2) (compute_node_hash sha256 p r) path
  unfolding walk
  walk_left i sn r p path h e = ground (arith, strip_odd i i sn e)

  walk_right :
      (i sn : ℕ) (r p : Bytes) (path : List Bytes)
      → i < sn
      → i % 2 ≢ 1
      → walk sha256 i sn r (p ∷ path)
        ≡ walk sha256 (i / 2) (sn / 2) (compute_node_hash sha256 r p) path
  unfolding walk
  walk_right i sn r p path h e = ground arith

  -- One level: what the walk does from the level above, it does from this one.
  walk-level :
      (i : ℕ) (hs above : List Bytes) (result : Result Bytes)
      → 2 ≤ length hs
      → i < length hs
      → walk sha256 (i / 2) (length (pair_up sha256 hs) - 1) (at (pair_up sha256 hs) (i / 2)) above
        ≡ result
      → walk sha256 i (length hs - 1) (at hs i) (with_sibling i hs above) ≡ result
  unfolding with_sibling
  walk-level i hs above result two h ih = elim (Bool-cases (i % 2 == 1)) [
    | inl odd ↦
        let parity : i % 2 ≡ 1 = beq_true→eq (i % 2) 1 odd in
        rw odd (
          walk_left i (length hs - 1) (at hs i) (at hs (i - 1)) above (omega arith) parity
          ∙ rw (← at-pair_up_pair (i / 2) (i - 1) i hs (omega arith) (omega arith) h, height) ih)
    | inr even ↦
        let parity : i % 2 ≢ 1 = beq_false→ne (i % 2) 1 even in
        rw even (elim (Bool-cases (i + 1 == length hs)) [
          | inl last ↦
              let end : i + 1 ≡ length hs = beq_true→eq (i + 1) (length hs) last in
              rw (last, last_index end)
                (walk_skip (i / 2) i (at hs i) above (omega arith) (omega arith)
                  ∙ rw (← at-pair_up_last (i / 2) i hs (omega arith) end)
                      (rw (above_index end) at ih))
          | inr inner ↦
              let inside : i + 1 ≢ length hs = beq_false→ne (i + 1) (length hs) inner in
              rw inner (
                walk_right i (length hs - 1) (at hs i) (at hs (i + 1)) above (omega arith) parity
                ∙ rw
                    (
                      ← at-pair_up_pair (i / 2) i (i + 1) hs (omega arith) (omega arith)
                          (omega arith),
                      height,
                    )
                    ih)
        ])
  ]
    where
      height : (length hs - 1) / 2 ≡ length (pair_up sha256 hs) - 1
      height = omega (arith, length-pair_up sha256 hs)

      last_index : i + 1 ≡ length hs → length hs - 1 ≡ i
      last_index e = omega arith

      above_index : i + 1 ≡ length hs → length (pair_up sha256 hs) - 1 ≡ i / 2
      above_index e = omega (arith, length-pair_up sha256 hs)

  -- From node `i` of a level, the walk along its path ends at the root.
  walk-root :
      (n i : ℕ) (hs : List Bytes)
      → length hs ≤ n + 1
      → i < length hs
      → walk sha256 i (length hs - 1) (at hs i) (inclusion_path sha256 i hs) ≡ ok (root sha256 hs)
  walk-root n i [] b h = elim h [ ]
  walk-root n zero (x ∷ []) b h = rw inclusion_path_single (unfold walk in rw root_single)
  walk-root n (suc i) (x ∷ []) b h = absurd (omega arith)
  walk-root zero i (x ∷ y ∷ r) b h = absurd (omega arith)
  walk-root (suc n) i (x ∷ y ∷ r) b h = rw (inclusion_path-unfold sha256 i (x ∷ y ∷ r) h) (
      walk-level i (x ∷ y ∷ r) _ _ (omega arith) h (
        walk-root n (i / 2) (pair_up sha256 (x ∷ y ∷ r)) (omega (arith, length-pair_up sha256 r))
          (omega (arith, length-pair_up sha256 r))
        ∙ rw root-pair_up))

  pub length-inclusion_path :
      (j i : ℕ) (hs : List Bytes)
      → length hs ≤ 2 ^ j
      → i < length hs
      → length (inclusion_path sha256 i hs) ≤ j
  length-inclusion_path j i [] b h = elim h [ ]
  length-inclusion_path zero zero (x ∷ []) b h = rw inclusion_path_single (omega arith)
  length-inclusion_path (suc j) zero (x ∷ []) b h = rw inclusion_path_single (omega arith)
  length-inclusion_path j (suc i) (x ∷ []) b h = absurd (omega arith)
  length-inclusion_path zero i (x ∷ y ∷ r) b h = absurd (omega arith)
  length-inclusion_path (suc j) i (x ∷ y ∷ r) b h =
      let higher : length (pair_up sha256 (x ∷ y ∷ r)) ≤ 2 ^ j =
        omega (arith, length-pair_up sha256 r, two_pow_suc j) in
      let inside : i / 2 < length (pair_up sha256 (x ∷ y ∷ r)) =
        omega (arith, length-pair_up sha256 r) in
      rw (inclusion_path-unfold sha256 i (x ∷ y ∷ r) h) (
        omega (
          arith,
          length-with_sibling i (x ∷ y ∷ r) _,
          length-inclusion_path j (i / 2) (pair_up sha256 (x ∷ y ∷ r)) higher inside,
        ))

  -- For every list of at most 2^63 events, the RFC 9162 inclusion path of the event at any index
  -- is accepted, and the walk computes the root of the tree.
  pub walk_inclusion_path_complete :
      (events : List Bytes) (i : ℕ) (event : Bytes)
      → get_elem? events i ≡ some event
      → length events ≤ 2 ^ 63
      → walk_inclusion_path sha256 event i
          (length events)
          (inclusion_path sha256 i (map (compute_leaf_hash sha256) events))
        ≡ ok (root sha256 (map (compute_leaf_hash sha256) events))
  unfolding walk_inclusion_path
  walk_inclusion_path_complete events i event e b =
      let leaves : List Bytes = map (compute_leaf_hash sha256) events in
      let size : length leaves ≡ length events = length-map (compute_leaf_hash sha256) events in
      let inside : i < length leaves = omega (arith, get_elem?-inside events i event e) in
      rw
        (
          ne→beq_false (length events) 0 (omega arith),
          lt→leb_false (length events) i (omega arith),
          le→ltb_false max_hash_path_len (length (inclusion_path sha256 i leaves))
              (length-inclusion_path 63 i leaves (omega arith) inside),
        )
        (rw (← at-leaves events i event e, ← size)
          (walk-root (length leaves) i leaves (omega arith) inside))
