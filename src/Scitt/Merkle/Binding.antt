-- ===== src/Scitt/Merkle/Binding.antt =====
-- Binding: two proofs that the walk accepts for one index, one tree size and one root are the same
-- proof of the same event, or they exhibit a collision of the hash.
use ans_sdk_go.Base.{
  ℕ, ◌/◌, ◌%◌, ◌≡◌, ◌≢◌, ◌⊎◌, inl, inr, refl, sym, ◌∙◌, List, [], ◌∷◌, ◌++◌, arith, length, Bytes,
  ◌==◌, nat_eq, bytes_eq, bytes_beq, bytes_beq_iff, Bool-cases, ◌||◌, true, false,
}
use ans_sdk_go.Scitt.Merkle.{ok, err, strip, walk, compute_node_hash, excess_path_elements}

pub record Collision (sha256 : Bytes → Bytes) : Type 0 where
  pub first : Bytes
  pub second : Bytes
  pub differ : first ≢ second
  pub same_hash : sha256 first ≡ sha256 second

-- A list of 32-byte hashes.
abbrev pub AllHashes : List Bytes → Type 0
AllHashes [] = Unit
AllHashes (h ∷ hs) = (length h ≡ 32) × AllHashes hs

append-injective :
    (xs ys zs ws : Bytes) → length xs ≡ length ys → xs ++ zs ≡ ys ++ ws → (xs ≡ ys) × (zs ≡ ws)
append-injective [] [] zs ws e h = (refl, h)
append-injective [] (y ∷ ys) zs ws e h = absurd (omega arith)
append-injective (x ∷ xs) [] zs ws e h = absurd (omega arith)
append-injective (x ∷ xs) (y ∷ ys) zs ws e h =
    let rest : (xs ≡ ys) × (zs ≡ ws) = append-injective xs ys zs ws (omega arith) (cc) in
    (cc (rest.0), rest.1)

module _ (sha256 : Bytes → Bytes) where
  pub same_preimage : (x y : Bytes) → sha256 x ≡ sha256 y → (x ≡ y) ⊎ Collision sha256
  same_preimage x y h = elim (Bool-cases (bytes_beq x y)) [
    | inl e ↦ inl ((bytes_beq_iff x y).0 e)
    | inr n ↦ inr (record {
      first = x;
      second = y;
      differ = λ e. cc (n, (bytes_beq_iff x y).1 e);
      same_hash = h;
    })
  ]

  same_children :
      (x y x' y' : Bytes)
      → length x ≡ length x'
      → compute_node_hash sha256 x y ≡ compute_node_hash sha256 x' y'
      → ((x ≡ x') × (y ≡ y')) ⊎ Collision sha256
  unfolding compute_node_hash
  same_children x y x' y' e h = elim (same_preimage _ _ h) [
    | inl p ↦ inl (append-injective x x' y y' e (cc p))
    | inr c ↦ inr c
  ]

  walk_at_end :
      (fn sn : ℕ) (r p : Bytes) (path : List Bytes)
      → (sn == 0) ≡ true
      → walk sha256 fn sn r (p ∷ path) ≡ err excess_path_elements
  unfolding walk
  walk_at_end fn sn r p path e = ground arith

  walk_join_left :
      (fn sn : ℕ) (r p : Bytes) (path : List Bytes)
      → (sn == 0) ≡ false
      → (fn % 2 == 1 || fn == sn) ≡ true
      → walk sha256 fn sn r (p ∷ path)
        ≡ walk sha256
            ((strip fn fn sn).0 / 2)
            ((strip fn fn sn).1 / 2)
            (compute_node_hash sha256 p r)
            path
  unfolding walk
  walk_join_left fn sn r p path e f = ground arith

  walk_join_right :
      (fn sn : ℕ) (r p : Bytes) (path : List Bytes)
      → (sn == 0) ≡ false
      → (fn % 2 == 1 || fn == sn) ≡ false
      → walk sha256 fn sn r (p ∷ path)
        ≡ walk sha256 (fn / 2) (sn / 2) (compute_node_hash sha256 r p) path
  unfolding walk
  walk_join_right fn sn r p path e f = ground arith

  walk_end_ok :
      (fn sn : ℕ) (r h : Bytes) → walk sha256 fn sn r [] ≡ ok h → (r ≡ h) × ((sn == 0) ≡ true)
  unfolding walk
  walk_end_ok fn sn r h e = ground arith

  -- From equal positions, equal results come from equal nodes and equal paths.
  pub walk-injective :
      ((x : Bytes) → length (sha256 x) ≡ 32)
      → (fn sn : ℕ) (r r' h : Bytes) (p p' : List Bytes) → length r ≡ 32
      → length r' ≡ 32
      → AllHashes p
      → AllHashes p'
      → walk sha256 fn sn r p ≡ ok h
      → walk sha256 fn sn r' p' ≡ ok h
      → ((r ≡ r') × (p ≡ p')) ⊎ Collision sha256
  walk-injective w fn sn r r' h [] [] l l' a a' e e' =
      inl ((walk_end_ok fn sn r h e).0 ∙ sym (walk_end_ok fn sn r' h e').0, refl)
  walk-injective w fn sn r r' h [] (q ∷ qs) l l' a a' e e' =
      absurd (cc (e', walk_at_end fn sn r' q qs (walk_end_ok fn sn r h e).1))
  walk-injective w fn sn r r' h (q ∷ qs) [] l l' a a' e e' =
      absurd (cc (e, walk_at_end fn sn r q qs (walk_end_ok fn sn r' h e').1))
  walk-injective w fn sn r r' h (q ∷ qs) (q' ∷ qs') l l' a a' e e' = elim (Bool-cases (sn == 0)) [
    | inl z ↦ absurd (cc (e, walk_at_end fn sn r q qs z))
    | inr nz ↦ elim (Bool-cases (fn % 2 == 1 || fn == sn)) [
      | inl left ↦
          elim (walk-injective w ((strip fn fn sn).0 / 2) ((strip fn fn sn).1 / 2)
            (compute_node_hash sha256 q r) (compute_node_hash sha256 q' r') h qs qs' (hash32 q r)
            (hash32 q' r') a.1 a'.1 (sym (walk_join_left fn sn r q qs nz left) ∙ e)
            (sym (walk_join_left fn sn r' q' qs' nz left) ∙ e')) [
              | inl (n, t) ↦ elim (same_children q r q' r' (omega arith) n) [
                | inl (i, j) ↦ inl (j, cc (i, t))
                | inr c ↦ inr c
              ]
              | inr c ↦ inr c
            ]
      | inr right ↦
          elim (walk-injective w (fn / 2) (sn / 2) (compute_node_hash sha256 r q)
            (compute_node_hash sha256 r' q') h qs qs' (hash32 r q) (hash32 r' q') a.1 a'.1
            (sym (walk_join_right fn sn r q qs nz right) ∙ e)
            (sym (walk_join_right fn sn r' q' qs' nz right) ∙ e')) [
              | inl (n, t) ↦ elim (same_children r q r' q' (omega arith) n) [
                | inl (i, j) ↦ inl (i, cc (j, t))
                | inr c ↦ inr c
              ]
              | inr c ↦ inr c
            ]
    ]
  ]
    where
      hash32 : (x y : Bytes) → length (compute_node_hash sha256 x y) ≡ 32
      hash32 x y = unfold compute_node_hash in w _
