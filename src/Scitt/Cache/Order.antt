-- ===== src/Scitt/Cache/Order.antt =====
-- What an insertion keeps: the entry just written, and all others but the oldest.
use ans_sdk_go.Base.{
  suc, ◌-◌, ◌≤◌, ◌<◌, ◌≡◌, ◌≢◌, refl, true, none, some, List, [], ◌∷◌, ◌++◌, if◌then◌else◌, length,
  Comparable, ◌==◌, arith, Option-cases, inl, inr, Bool-cases, le→leb, lt→leb_false, beq_true→eq,
  beq_false→ne, eq→beq_true, nat_eq, ap,
}
use ans_sdk_go.Base.Table.{
  lookup, insert, remove, lookup-insert, lookup-remove, length-insert_new, length-insert_old,
}
use ans_sdk_go.Base.Members.{equal_self, contains}
use ans_sdk_go.Scitt.Cache.{Store, evict_oldest, evict_locked, enqueue, insert_entry}
use ans_sdk_go.Scitt.Cache.Valid.{IsValid}

abbrev take_head {ℓ} : {A : Type ℓ} → List A → List A
take_head [] = []
take_head (x ∷ xs) = x ∷ []

module _ {ℓ κ} {K : Type ℓ} {E : Type κ} ⦃e : Comparable K⦄ (k : K) (entry : E)
    (c : Store K E) where
  -- With room left, or over a key that is there, nothing is evicted.
  pub insert_entry_fits :
      (length (insert k entry c.entries) ≤ c.max_entries)
      → insert_entry k entry c
        ≡ record c { entries = insert k entry c.entries; insert_order = enqueue k c }
  unfolding insert_entry evict_locked
  insert_entry_fits h = rw (le→leb _ _ h)

  -- In a full store a new key takes the place of the oldest.
  pub insert_entry_full :
      (oldest : K) (order : List K)
      → lookup k c.entries ≡ none
      → length c.entries ≡ c.max_entries
      → c.insert_order ≡ oldest ∷ order
      → insert_entry k entry c ≡ record c {
        entries = remove oldest (insert k entry c.entries);
        insert_order = order ++ k ∷ [];
      }
  unfolding insert_entry evict_locked enqueue evict_oldest
  insert_entry_full oldest order new full queue = rw (
    lt→leb_false (length (insert k entry c.entries)) c.max_entries (omega (arith, size)),
    extended,
    one,
  )
    where
      size : length (insert k entry c.entries) ≡ suc (length c.entries)
      size = length-insert_new k entry c.entries new

      extended : enqueue k c ≡ oldest ∷ (order ++ k ∷ [])
      extended = rw (new, enqueue) (rw queue)

      one : length (insert k entry c.entries) - c.max_entries ≡ 1
      one = omega (arith, size)

-- The key that an insertion of `k` evicts from a store within its bound: the oldest, if `k` is
-- new and the store is full.
pub victim {ℓ κ} : {K : Type ℓ} {E : Type κ} ⦃e : Comparable K⦄ → K → Store K E → List K
victim k c = elim (lookup k c.entries) [
  | none ↦ if length c.entries == c.max_entries then take_head c.insert_order else []
  | some _ ↦ []
]

module _ {ℓ κ} {K : Type ℓ} {E : Type κ} ⦃e : Comparable K⦄ (k : K) (entry : E)
    (c : Store K E) where
  -- Let a store with a positive bound be valid and within it. After an insertion the key has the new entry; the
  -- oldest key is gone if the key was new and the store full; every other key has what it had.
  pub insert_entry-lookup :
      IsValid c
      → length c.entries ≤ c.max_entries
      → 0 < c.max_entries
      → (j : K)
      → lookup j (insert_entry k entry c).entries ≡ (
          if k == j
          then some entry
          else if contains j (victim k c)
          then none
          else lookup j c.entries)
  unfolding victim contains
  insert_entry-lookup v bound room j = elim (Option-cases (lookup k c.entries)) [
    | inl new ↦ elim (Bool-cases (length c.entries == c.max_entries)) [
      | inl full ↦ from_full new (beq_true→eq _ _ full) c.insert_order refl
      | inr free ↦
          let size : length (insert k entry c.entries) ≡ suc (length c.entries) =
            length-insert_new k entry c.entries new in
          let apart : length c.entries ≢ c.max_entries = beq_false→ne _ _ free in
          rw (insert_entry_fits k entry c (omega arith), new, victim)
            (rw free (lookup-insert k j entry c.entries))
    ]
    | inr (old, found) ↦
        rw
          (
            insert_entry_fits k entry c
                (omega (arith, length-insert_old k entry old c.entries found)),
            found,
            victim,
          )
          (lookup-insert k j entry c.entries)
  ]
    where
      from_full :
          lookup k c.entries ≡ none
          → length c.entries ≡ c.max_entries
          → (order : List K) → c.insert_order ≡ order
          → lookup j (insert_entry k entry c).entries ≡ (
              if k == j
              then some entry
              else if contains j (victim k c)
              then none
              else lookup j c.entries)
      from_full new full [] empty = absurd (omega (arith, v.sizes, ap length empty))
      from_full new full (oldest ∷ order) queue =
          rw (insert_entry_full k entry c oldest order new full queue, victim_full)
            (ground (
              arith,
              lookup-remove oldest j (insert k entry c.entries),
              lookup-insert k j entry c.entries,
              e.equal_iff oldest j,
              e.equal_iff k j,
              v.same_keys oldest,
              equal_self oldest,
              contains_head,
            ))
        where
          victim_full : victim k c ≡ oldest ∷ []
          victim_full = rw (new, victim) (rw (eq→beq_true _ _ full, queue))

          contains_head : contains oldest c.insert_order ≡ true
          contains_head = rw queue (rw equal_self)
