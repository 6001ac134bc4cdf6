-- ===== src/Scitt/Merkle/Reference.antt =====
-- A reference for RFC 9162 section 2.1, independent of the walk: the tree of a list of leaf
-- hashes built level by level, and the inclusion path of a leaf read off the levels.
use ans_sdk_go.Base.{
  ℕ, zero, suc, ◌+◌, ◌-◌, ◌/◌, ◌%◌, ◌<◌, ◌≤◌, ◌≡◌, refl, sym, ◌∙◌, false, List, [], ◌∷◌, arith,
  if◌then◌else◌, length, Bytes, ◌==◌, nat_eq,
}
use ans_sdk_go.Scitt.Merkle.{compute_node_hash}

-- The element at an index, and the empty hash outside.
abbrev pub at : List Bytes → ℕ → Bytes
at [] i = []
at (x ∷ xs) zero = x
at (x ∷ xs) (suc i) = at xs i

-- The sibling of node `i`, if it has one, in front of the path from the level above.
unfoldable pub with_sibling : ℕ → List Bytes → List Bytes → List Bytes
with_sibling i hs above =
    if i % 2 == 1
    then at hs (i - 1) ∷ above
    else if i + 1 == length hs
    then above
    else at hs (i + 1) ∷ above

module _ (sha256 : Bytes → Bytes) where
  -- One level up: neighbours are joined, and a last node without a partner is kept.
  abbrev pub pair_up : List Bytes → List Bytes
  pair_up [] = []
  pair_up (x ∷ []) = x ∷ []
  pair_up (x ∷ y ∷ r) = compute_node_hash sha256 x y ∷ pair_up r

  unfoldable pub root_in : ℕ → List Bytes → Bytes
  root_in zero hs = at hs 0
  root_in (suc rounds) hs = root_in rounds (pair_up hs)

  -- A level of n nodes is one node after n rounds.
  unfoldable pub root : List Bytes → Bytes
  unfolding root_in
  root hs = root_in (length hs) hs

  -- The path of node `i` of the level: its sibling, unless it is the unpaired last node.
  unfoldable pub path_in : ℕ → ℕ → List Bytes → List Bytes
  path_in zero i hs = []
  path_in (suc rounds) i hs =
      if length hs == 1 then [] else with_sibling i hs (path_in rounds (i / 2) (pair_up hs))

  unfoldable pub inclusion_path : ℕ → List Bytes → List Bytes
  unfolding path_in
  inclusion_path i hs = path_in (length hs) i hs

  pub length-pair_up : (hs : List Bytes) → length (pair_up hs) ≡ (length hs + 1) / 2
  length-pair_up [] = omega arith
  length-pair_up (x ∷ []) = omega arith
  length-pair_up (x ∷ y ∷ r) = omega (arith, length-pair_up r)

  -- Rounds beyond the height of the tree change nothing.
  root_in_one : (n : ℕ) (hs : List Bytes) → length hs ≤ 1 → root_in n hs ≡ at hs 0
  unfolding root_in
  root_in_one zero hs h = refl
  root_in_one (suc n) [] h = root_in_one n [] h
  root_in_one (suc n) (x ∷ []) h = root_in_one n (x ∷ []) h
  root_in_one (suc n) (x ∷ y ∷ r) h = absurd (omega arith)

  pub root_in_enough :
      (n m : ℕ) (hs : List Bytes)
      → length hs ≤ n + 1
      → length hs ≤ m + 1
      → root_in n hs ≡ root_in m hs
  unfolding root_in
  root_in_enough n m [] h k = root_in_one n [] h0 ∙ sym (root_in_one m [] h0)
    where
      h0 : 0 ≤ 1
      h0 = omega arith
  root_in_enough n m (x ∷ []) h k = root_in_one n (x ∷ []) h1 ∙ sym (root_in_one m (x ∷ []) h1)
    where
      h1 : 1 ≤ 1
      h1 = omega arith
  root_in_enough zero m (x ∷ y ∷ r) h k = absurd (omega arith)
  root_in_enough (suc n) zero (x ∷ y ∷ r) h k = absurd (omega arith)
  root_in_enough (suc n) (suc m) (x ∷ y ∷ r) h k =
      root_in_enough n m (pair_up (x ∷ y ∷ r)) (omega (arith, length-pair_up r))
        (omega (arith, length-pair_up r))

  pub root-pair_up : (hs : List Bytes) → root (pair_up hs) ≡ root hs
  unfolding root
  root-pair_up [] = refl
  root-pair_up (x ∷ []) = refl
  root-pair_up (x ∷ y ∷ r) =
      root_in_enough (length (pair_up (x ∷ y ∷ r))) (suc (length r)) (pair_up (x ∷ y ∷ r))
        (omega arith) (omega (arith, length-pair_up r))

  pub root_single : (x : Bytes) → root (x ∷ []) ≡ x
  unfolding root
  root_single x = refl

  path_in_one : (n i : ℕ) (hs : List Bytes) → length hs ≤ 1 → i < length hs → path_in n i hs ≡ []
  unfolding path_in
  path_in_one zero i hs h k = refl
  path_in_one (suc n) i [] h k = absurd (omega arith)
  path_in_one (suc n) i (x ∷ []) h k = refl
  path_in_one (suc n) i (x ∷ y ∷ r) h k = absurd (omega arith)

  pub path_in_enough :
      (n m i : ℕ) (hs : List Bytes)
      → length hs ≤ n + 1
      → length hs ≤ m + 1
      → i < length hs
      → path_in n i hs ≡ path_in m i hs
  unfolding path_in
  path_in_enough n m i [] h k l = absurd (omega arith)
  path_in_enough n m i (x ∷ []) h k l =
      path_in_one n i (x ∷ []) (omega arith) l ∙ sym (path_in_one m i (x ∷ []) (omega arith) l)
  path_in_enough zero m i (x ∷ y ∷ r) h k l = absurd (omega arith)
  path_in_enough (suc n) zero i (x ∷ y ∷ r) h k l = absurd (omega arith)
  path_in_enough (suc n) (suc m) i (x ∷ y ∷ r) h k l = rw (
      path_in_enough n m (i / 2) (pair_up (x ∷ y ∷ r)) (omega (arith, length-pair_up r))
        (omega (arith, length-pair_up r)) (omega (arith, length-pair_up r)))

  -- One step of the path.
  pub inclusion_path_step :
      (i : ℕ) (x y : Bytes) (r : List Bytes)
      → i < length (x ∷ y ∷ r)
      → inclusion_path i (x ∷ y ∷ r)
        ≡ with_sibling i (x ∷ y ∷ r) (inclusion_path (i / 2) (pair_up (x ∷ y ∷ r)))
  unfolding inclusion_path
  inclusion_path_step i x y r l = rw two_not_one (
      rw (
        path_in_enough (suc (length r)) (length (pair_up (x ∷ y ∷ r))) (i / 2) (pair_up (x ∷ y ∷ r))
          (omega (arith, length-pair_up r)) (omega arith) (omega (arith, length-pair_up r))))
    where
      two_not_one : (suc (suc (length r)) == 1) ≡ false
      two_not_one = ground arith

  pub inclusion_path_single : (x : Bytes) → inclusion_path 0 (x ∷ []) ≡ []
  unfolding inclusion_path
  inclusion_path_single x = refl

  -- The step holds of every nonempty level.
  pub inclusion_path-unfold :
      (i : ℕ) (hs : List Bytes)
      → i < length hs
      → inclusion_path i hs ≡ with_sibling i hs (inclusion_path (i / 2) (pair_up hs))
  unfolding with_sibling
  inclusion_path-unfold i [] l = elim l [ ]
  inclusion_path-unfold zero (x ∷ []) l = refl
  inclusion_path-unfold (suc i) (x ∷ []) l = absurd (omega arith)
  inclusion_path-unfold i (x ∷ y ∷ r) l = inclusion_path_step i x y r l
