-- ===== src/Scitt/Merkle/Split.antt =====
-- The tree built level by level is the tree of RFC 9162, which splits n leaves at the largest
-- power of two below n; and so are the inclusion paths.
use native.Mathlib.Nat.{pow-suc}
use ans_sdk_go.Base.{
  ℕ, zero, suc, ◌+◌, ◌-◌, ◌*◌, ◌/◌, ◌%◌, ◌^◌, ◌<◌, ◌≤◌, ◌≡◌, refl, sym, ap, ◌∙◌, List, [], ◌∷◌,
  ◌++◌, arith, length, length-append, Bytes, ◌==◌, nat_eq, Bool-cases, inl, inr, ne→beq_false,
  beq_false→ne, beq_true→eq, eq→beq_true, ◌≢◌,
}
use ans_sdk_go.Scitt.Merkle.{compute_node_hash}
use ans_sdk_go.Scitt.Merkle.Reference.{
  at, pair_up, root, inclusion_path, with_sibling, length-pair_up, root-pair_up, root_single,
  inclusion_path-unfold, inclusion_path_single,
}

pub two_pow_suc : (j : ℕ) → 2 ^ suc j ≡ 2 * 2 ^ j
two_pow_suc j = rw pow-suc (omega arith)

at-append_left : (xs ys : List Bytes) (i : ℕ) → i < length xs → at (xs ++ ys) i ≡ at xs i
at-append_left [] ys i h = elim h [ ]
at-append_left (x ∷ xs) ys zero h = refl
at-append_left (x ∷ xs) ys (suc i) h = at-append_left xs ys i (omega arith)

at-append_right : (xs ys : List Bytes) (i j : ℕ) → j ≡ length xs + i → at (xs ++ ys) j ≡ at ys i
at-append_right [] ys i j e = ap (at ys) (omega arith)
at-append_right (x ∷ xs) ys i zero e = absurd (omega arith)
at-append_right (x ∷ xs) ys i (suc j) e = at-append_right xs ys i j (omega arith)

-- In a tree whose left part has an even number of nodes, each part keeps its siblings.
with_sibling-append_left :
    (k i : ℕ) (xs ys p q : List Bytes)
    → length xs ≡ 2 * k
    → i < length xs
    → 0 < length ys
    → with_sibling i (xs ++ ys) (p ++ q) ≡ with_sibling i xs p ++ q
unfolding with_sibling
with_sibling-append_left k i xs ys p q e l h = elim (Bool-cases (i % 2 == 1)) [
  | inl odd ↦ rw (odd, at-append_left xs ys (i - 1) (omega arith))
  | inr even ↦
      let parity : i % 2 ≢ 1 = beq_false→ne (i % 2) 1 even in
      let inside : i + 1 < length xs = omega arith in
      rw (even, ne→beq_false (i + 1) (length xs) (omega arith), at-append_left xs ys (i + 1) inside)
        (rw (ne→beq_false (i + 1) (length (xs ++ ys)) (omega (arith, length-append xs ys))))
]

with_sibling_append :
    (i : ℕ) (hs p q : List Bytes) → with_sibling i hs p ++ q ≡ with_sibling i hs (p ++ q)
unfolding with_sibling
with_sibling_append i hs p q = ground arith

same_end : (a b m n k : ℕ) → b ≡ k + a → n ≡ k + m → (b == n) ≡ (a == m)
same_end a b m n k p q = ground arith

with_sibling-append_right :
    (k i j : ℕ) (xs ys p : List Bytes)
    → length xs ≡ 2 * k
    → j ≡ length xs + i
    → i < length ys
    → with_sibling j (xs ++ ys) p ≡ with_sibling i ys p
unfolding with_sibling
with_sibling-append_right k i j xs ys p e f l = elim (Bool-cases (i % 2 == 1)) [
  | inl odd ↦
      let parity : i % 2 ≡ 1 = beq_true→eq (i % 2) 1 odd in
      rw (
        odd,
        eq→beq_true (j % 2) 1 (omega arith),
        at-append_right xs ys (i - 1) (j - 1) (omega arith),
      )
  | inr even ↦
      let parity : i % 2 ≢ 1 = beq_false→ne (i % 2) 1 even in
      rw
        (
          even,
          ne→beq_false (j % 2) 1 (omega arith),
          at-append_right xs ys (i + 1) (j + 1) (omega arith),
        )
        (rw (
          same_end (i + 1) (j + 1) (length ys) (length (xs ++ ys)) (length xs) (omega arith)
            (length-append xs ys)))
]

module _ (sha256 : Bytes → Bytes) where
  pair_up-append :
      (k : ℕ) (xs ys : List Bytes)
      → length xs ≡ 2 * k
      → pair_up sha256 (xs ++ ys) ≡ pair_up sha256 xs ++ pair_up sha256 ys
  pair_up-append k [] ys e = refl
  pair_up-append k (x ∷ []) ys e = absurd (omega arith)
  pair_up-append zero (x ∷ y ∷ r) ys e = absurd (omega arith)
  pair_up-append (suc k) (x ∷ y ∷ r) ys e =
      ap (◌∷◌ (compute_node_hash sha256 x y)) (pair_up-append k r ys (omega arith))

  -- The root built level by level satisfies the equation of RFC 9162: where 2^j leaves stand left of
  -- at least one and at most 2^j others, it is the node hash of the two parts' roots.
  pub root-split :
      (j : ℕ) (xs ys : List Bytes)
      → length xs ≡ 2 ^ j
      → 0 < length ys
      → length ys ≤ 2 ^ j
      → root sha256 (xs ++ ys) ≡ compute_node_hash sha256 (root sha256 xs) (root sha256 ys)
  root-split zero [] ys e p l = absurd (omega arith)
  root-split zero (x ∷ []) [] e p l = absurd (omega arith)
  root-split zero (x ∷ []) (y ∷ []) e p l =
      sym (root-pair_up sha256 (x ∷ y ∷ [])) ∙ simp (root_single)
  root-split zero (x ∷ []) (y ∷ z ∷ ys) e p l = absurd (omega arith)
  root-split zero (x ∷ y ∷ r) ys e p l = absurd (omega arith)
  root-split (suc j) xs ys e p l =
      sym (root-pair_up sha256 (xs ++ ys))
      ∙ (rw (pair_up-append (2 ^ j) xs ys (omega (arith, two_pow_suc j))) (
          root-split j (pair_up sha256 xs) (pair_up sha256 ys)
            (omega (arith, two_pow_suc j, length-pair_up sha256 xs))
            (omega (arith, length-pair_up sha256 ys))
            (omega (arith, two_pow_suc j, length-pair_up sha256 ys))
          ∙ simp root-pair_up))

  pub inclusion_path-left :
      (j i : ℕ) (xs ys : List Bytes)
      → length xs ≡ 2 ^ j
      → 0 < length ys
      → length ys ≤ 2 ^ j
      → i < length xs
      → inclusion_path sha256 i (xs ++ ys) ≡ inclusion_path sha256 i xs ++ root sha256 ys ∷ []
  inclusion_path-left zero i [] ys e p l h = elim h [ ]
  inclusion_path-left zero i (x ∷ []) [] e p l h = absurd (omega arith)
  inclusion_path-left zero zero (x ∷ []) (y ∷ []) e p l h =
      rw (inclusion_path-unfold sha256 0 (x ∷ y ∷ []) (omega arith))
        (unfold with_sibling in rw (inclusion_path_single, root_single, inclusion_path_single))
  inclusion_path-left zero (suc i) (x ∷ []) (y ∷ []) e p l h = absurd (omega arith)
  inclusion_path-left zero i (x ∷ []) (y ∷ z ∷ ys) e p l h = absurd (omega arith)
  inclusion_path-left zero i (x ∷ y ∷ r) ys e p l h = absurd (omega arith)
  inclusion_path-left (suc j) i xs ys e p l h =
      rw (inclusion_path-unfold sha256 i (xs ++ ys) (omega (arith, length-append xs ys))) (
        rw (inclusion_path-unfold sha256 i xs h) (
          rw (pair_up-append (2 ^ j) xs ys (omega (arith, two_pow_suc j))) (
            rw
              (inclusion_path-left j (i / 2) (pair_up sha256 xs) (pair_up sha256 ys)
                (omega (arith, two_pow_suc j, length-pair_up sha256 xs))
                (omega (arith, length-pair_up sha256 ys))
                (omega (arith, two_pow_suc j, length-pair_up sha256 ys))
                (omega (arith, two_pow_suc j, length-pair_up sha256 xs)))
              (rw root-pair_up (
                with_sibling-append_left (2 ^ j) i xs ys _ _ (omega (arith, two_pow_suc j)) h p)))))

  pub inclusion_path-right :
      (j i m : ℕ) (xs ys : List Bytes)
      → length xs ≡ 2 ^ j
      → length ys ≤ 2 ^ j
      → i < length ys
      → m ≡ length xs + i
      → inclusion_path sha256 m (xs ++ ys) ≡ inclusion_path sha256 i ys ++ root sha256 xs ∷ []
  inclusion_path-right zero i m [] ys e l h k = absurd (omega arith)
  inclusion_path-right zero i m (x ∷ []) [] e l h k = elim h [ ]
  inclusion_path-right zero zero zero (x ∷ []) (y ∷ []) e l h k = absurd (omega arith)
  inclusion_path-right zero zero (suc zero) (x ∷ []) (y ∷ []) e l h k =
      rw (inclusion_path-unfold sha256 1 (x ∷ y ∷ []) (omega arith))
        (unfold with_sibling in rw (inclusion_path_single, root_single, inclusion_path_single))
  inclusion_path-right zero zero (suc (suc m)) (x ∷ []) (y ∷ []) e l h k = absurd (omega arith)
  inclusion_path-right zero (suc i) m (x ∷ []) (y ∷ []) e l h k = absurd (omega arith)
  inclusion_path-right zero i m (x ∷ []) (y ∷ z ∷ ys) e l h k = absurd (omega arith)
  inclusion_path-right zero i m (x ∷ y ∷ r) ys e l h k = absurd (omega arith)
  inclusion_path-right (suc j) i m xs ys e l h k =
      rw (inclusion_path-unfold sha256 m (xs ++ ys) (omega (arith, length-append xs ys))) (
        rw (inclusion_path-unfold sha256 i ys h) (
          rw (pair_up-append (2 ^ j) xs ys (omega (arith, two_pow_suc j))) (
            rw
              (inclusion_path-right j (i / 2) (m / 2) (pair_up sha256 xs) (pair_up sha256 ys)
                (omega (arith, two_pow_suc j, length-pair_up sha256 xs))
                (omega (arith, two_pow_suc j, length-pair_up sha256 ys))
                (omega (arith, length-pair_up sha256 ys))
                (omega (arith, two_pow_suc j, length-pair_up sha256 xs)))
              (rw root-pair_up (
                with_sibling-append_right (2 ^ j) i m xs ys _ (omega (arith, two_pow_suc j)) k h
                ∙ sym (with_sibling_append i ys _ _))))))
