-- ===== src/Scitt/Cache.antt =====
-- verify/scitt/cache.go. `ReceiptCache` and `StatusTokenCache` share their store: a map of entries
-- bounded by `maxEntries`, with a queue of the keys in the order of insertion. The store is
-- defined once, over the keys and the entries; the two caches differ in how an entry expires.
pub mod Valid
pub mod Order
use ans_sdk_go.Base.{
  ℕ, zero, suc, ◌-◌, Option, none, some, List, [], ◌∷◌, ◌++◌, leb, if◌then◌else◌, length,
  Comparable,
}
use ans_sdk_go.Base.Table.{lookup, insert, remove}
use ans_sdk_go.Base.Members.{erase}

pub record Store {ℓ κ} (K : Type ℓ) (E : Type κ) : Type (ℓ ⊔ κ) where
  pub entries : List (K × E)
  pub insert_order : List K
  pub max_entries : ℕ

unfoldable pub new_store {ℓ κ} : {K : Type ℓ} {E : Type κ} → ℕ → Store K E
new_store max_entries = record { entries = []; insert_order = []; max_entries = max_entries }

module _ {ℓ κ} {K : Type ℓ} {E : Type κ} ⦃e : Comparable K⦄ where
  -- The loop of `evictLocked`, over the keys left to remove.
  unfoldable pub evict_oldest : ℕ → List K → Store K E → Store K E
  evict_oldest zero order c = record c { insert_order = order }
  evict_oldest (suc n) [] c = record c { insert_order = [] }
  evict_oldest (suc n) (oldest ∷ order) c =
      evict_oldest n order (record c { entries = remove oldest c.entries })

  unfoldable pub evict_locked : Store K E → Store K E
  unfolding evict_oldest
  evict_locked c =
      if leb (length c.entries) c.max_entries
      then c
      else evict_oldest (length c.entries - c.max_entries) c.insert_order c

  -- A key that is new goes to the end of the queue.
  unfoldable pub enqueue : K → Store K E → List K
  enqueue k c = elim (lookup k c.entries) [
    | none ↦ c.insert_order ++ k ∷ []
    | some _ ↦ c.insert_order
  ]

  unfoldable pub insert_entry : K → E → Store K E → Store K E
  unfolding enqueue evict_locked
  insert_entry k entry c =
      evict_locked (record c { entries = insert k entry c.entries; insert_order = enqueue k c })

  unfoldable pub invalidate : K → Store K E → Store K E
  invalidate k c = elim (lookup k c.entries) [
    | none ↦ c
    | some _ ↦ record c { entries = remove k c.entries; insert_order = erase k c.insert_order }
  ]
