-- ===== src/Scitt/Cache/Valid.antt =====
-- The invariant of the store, and the eviction order.
use ans_sdk_go.Base.{
  ℕ, zero, suc, ◌-◌, ◌≤◌, ◌≡◌, refl, Bool, true, false, Option, none, some, List, [], ◌∷◌, leb,
  if◌then◌else◌, length, Comparable, ◌==◌, arith, length-append, Option-cases, inl, inr, Bool-cases,
  leb→le, tests,
}
use ans_sdk_go.Base.Table.{
  lookup, insert, remove, IsDistinct, lookup-insert, lookup-remove, IsDistinct-insert,
  IsDistinct-remove, length-insert_new, length-insert_old, length-remove,
}
use ans_sdk_go.Base.Members.{
  contains, IsNodup, contains-append, IsNodup-append, contains-erase, IsNodup-erase, length-erase,
  equal_self,
}
use ans_sdk_go.Scitt.Cache.{
  Store, new_store, evict_oldest, evict_locked, enqueue, insert_entry, invalidate,
}

abbrev is_some {ℓ} : {A : Type ℓ} → Option A → Bool
is_some none = false
is_some (some _) = true

-- The queue holds each key of the map once, and no other.
pub record IsValid {ℓ κ} {K : Type ℓ} {E : Type κ} ⦃e : Comparable K⦄ (c : Store K E)
    : Type (ℓ ⊔ κ) where
  pub distinct : IsDistinct c.entries
  pub nodup : IsNodup c.insert_order
  pub sizes : length c.insert_order ≡ length c.entries
  pub same_keys : (k : K) → contains k c.insert_order ≡ is_some (lookup k c.entries)

pub new_store-IsValid {ℓ κ} :
    {K : Type ℓ} {E : Type κ} ⦃e : Comparable K⦄ (max : ℕ) → IsValid (new_store {K = K} {E = E} max)
unfolding new_store contains lookup
new_store-IsValid max = record { distinct = tt; nodup = tt; sizes = refl; same_keys = λ k. refl }

module _ {ℓ κ} {K : Type ℓ} {E : Type κ} ⦃e : Comparable K⦄ where
  -- Without its oldest key a valid store is valid.
  drop_oldest-IsValid :
      (oldest : K) (order : List K) (c : Store K E)
      → IsValid (record c { insert_order = oldest ∷ order })
      → IsValid (record c { entries = remove oldest c.entries; insert_order = order })
  unfolding contains
  drop_oldest-IsValid oldest order c v = elim (Option-cases (lookup oldest c.entries)) [
    | inl missing ↦ absurd (cc (present, missing))
    | inr (w, found) ↦ record {
      distinct = IsDistinct-remove oldest c.entries v.distinct;
      nodup = v.nodup.1;
      sizes = omega (arith, v.sizes, length-remove oldest w c.entries found v.distinct);
      same_keys = λ k.
          ground (
            arith,
            v.same_keys k,
            lookup-remove oldest k c.entries,
            e.equal_iff oldest k,
            v.nodup.0,
          );
    }
  ]
    where
      present : true ≡ is_some (lookup oldest c.entries)
      present = ground (arith, v.same_keys oldest, equal_self oldest)

  -- Each round takes the oldest key with its entry.
  evict_oldest-IsValid :
      (n : ℕ) (order : List K) (c : Store K E)
      → IsValid (record c { insert_order = order })
      → IsValid (evict_oldest n order c)
        × (length (evict_oldest n order c).entries ≡ length c.entries - n)
        × ((evict_oldest n order c).max_entries ≡ c.max_entries)
  unfolding evict_oldest
  evict_oldest-IsValid zero order c v = (v, omega arith, refl)
  evict_oldest-IsValid (suc n) [] c v = (v, omega (arith, v.sizes), refl)
  evict_oldest-IsValid (suc n) (oldest ∷ order) c v =
      let smaller : Store K E = record c { entries = remove oldest c.entries } in
      let dropped : IsValid (record smaller { insert_order = order }) =
        drop_oldest-IsValid oldest order c v in
      let (valid, size, max) = evict_oldest-IsValid n order smaller dropped in
      (valid, omega (arith, size, v.sizes, dropped.sizes), max)

  evict_locked-IsValid :
      (c : Store K E)
      → IsValid c
      → IsValid (evict_locked c)
        × (length (evict_locked c).entries ≤ c.max_entries)
        × ((evict_locked c).max_entries ≡ c.max_entries)
  unfolding evict_locked
  evict_locked-IsValid c v = elim (Bool-cases (leb (length c.entries) c.max_entries)) [
    | inl fits ↦ rw fits (v, leb→le _ _ fits, refl)
    | inr over ↦
        let (valid, size, max) =
          evict_oldest-IsValid (length c.entries - c.max_entries) c.insert_order c v in
        rw over (valid, omega (tests, size, over), max)
  ]

  enqueue-IsValid :
      (k : K) (entry : E) (c : Store K E)
      → IsValid c
      → IsValid (record c { entries = insert k entry c.entries; insert_order = enqueue k c })
  unfolding enqueue contains
  enqueue-IsValid k entry c v = elim (Option-cases (lookup k c.entries)) [
    | inl missing ↦
        rw (missing, enqueue)
          (record {
            distinct = IsDistinct-insert k entry c.entries v.distinct;
            nodup = IsNodup-append k c.insert_order (ground (arith, v.same_keys k)) v.nodup;
            sizes = omega (
              arith,
              v.sizes,
              length-append c.insert_order (k ∷ []),
              length-insert_new k entry c.entries missing,
            );
            same_keys = λ j. ground (
              arith,
              v.same_keys j,
              contains-append j c.insert_order (k ∷ []),
              lookup-insert k j entry c.entries,
            );
          })
    | inr (old, found) ↦
        rw (found, enqueue)
          (record {
            distinct = IsDistinct-insert k entry c.entries v.distinct;
            nodup = v.nodup;
            sizes = omega (arith, v.sizes, length-insert_old k entry old c.entries found);
            same_keys = λ j.
                ground (arith, v.same_keys j, e.equal_iff k j, lookup-insert k j entry c.entries);
          })
  ]

  -- After an insertion into a valid store the queue and the map agree, and there are at most
  -- `max_entries` entries, whether or not the store was within that bound before.
  pub insert_entry-IsValid :
      (k : K) (entry : E) (c : Store K E)
      → IsValid c
      → IsValid (insert_entry k entry c)
        × (length (insert_entry k entry c).entries ≤ c.max_entries)
        × ((insert_entry k entry c).max_entries ≡ c.max_entries)
  unfolding insert_entry
  insert_entry-IsValid k entry c v = evict_locked-IsValid _ (enqueue-IsValid k entry c v)

  -- From a valid store an invalidation leaves a valid store that is no longer, in which the key is
  -- gone and every other key has what it had.
  pub invalidate-IsValid :
      (k : K) (c : Store K E)
      → IsValid c
      → IsValid (invalidate k c)
        × (length (invalidate k c).entries ≤ length c.entries)
        × ((j : K)
            → lookup j (invalidate k c).entries ≡ (if k == j then none else lookup j c.entries))
  unfolding invalidate
  invalidate-IsValid k c v = elim (Option-cases (lookup k c.entries)) [
    | inl missing ↦ rw (missing, invalidate) (v, omega arith, λ j. ground (arith, e.equal_iff k j))
    | inr (old, found) ↦
        rw (found, invalidate)
          (
            record {
              distinct = IsDistinct-remove k c.entries v.distinct;
              nodup = IsNodup-erase k c.insert_order v.nodup;
              sizes = omega (
                arith,
                v.sizes,
                length-remove k old c.entries found v.distinct,
                length-erase k c.insert_order (ground (arith, v.same_keys k)),
              );
              same_keys = λ j. ground (
                arith,
                v.same_keys j,
                contains-erase k j c.insert_order v.nodup,
                lookup-remove k j c.entries,
              );
            },
            omega (arith, length-remove k old c.entries found v.distinct),
            λ j. lookup-remove k j c.entries,
          )
  ]
