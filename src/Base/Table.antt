-- ===== src/Base/Table.antt =====
-- A Go map: an association list over comparable keys. Go fixes no order of iteration; where the
-- program ranges over a map, the model says which order it takes.
use mathlib.Core.List.{List, [], ◌∷◌}
use mathlib.Core.Logic.{inl, inr}
use mathlib.Core.Option.{Option, none, some}
use mathlib.Core.Path.{◌≡◌, refl}
use Prim.Native.Nat.{suc, ◌≤◌}
use native.Mathlib.Omega.{arith}
use ans_sdk_go.Base.Tests.{if◌then◌else◌, Bool-cases}
use ans_sdk_go.Base.Lists.{length}
use ans_sdk_go.Base.Equality.{Comparable, ◌==◌}

module _ {ℓ κ} {K : Type ℓ} {V : Type κ} ⦃e : Comparable K⦄ where
  -- `m[key]`
  unfoldable pub lookup : (key : K) (table : List (K × V)) → Option V
  lookup key [] = none
  lookup key ((k, v) ∷ rest) = if k == key then some v else lookup key rest

  -- `m[key] = value`
  unfoldable pub insert : (key : K) (value : V) (table : List (K × V)) → List (K × V)
  insert key value [] = (key, value) ∷ []
  insert key value ((k, v) ∷ rest) =
      if k == key then (key, value) ∷ rest else (k, v) ∷ insert key value rest

  -- `delete(m, k)`
  unfoldable pub remove : K → List (K × V) → List (K × V)
  remove k [] = []
  remove k ((j, w) ∷ m) = let rest = remove k m in if j == k then rest else (j, w) ∷ rest

  -- No key twice.
  abbrev pub IsDistinct : List (K × V) → Type κ
  IsDistinct [] = Unit
  IsDistinct ((k, _) ∷ m) = (lookup k m ≡ none) × IsDistinct m

  pub lookup-insert :
      (key other : K) (value : V) (table : List (K × V))
      → lookup other (insert key value table)
        ≡ (if key == other then some value else lookup other table)
  unfolding lookup insert
  lookup-insert key other value [] = refl
  lookup-insert key other value ((k, v) ∷ rest) = ground (
    arith,
    lookup-insert key other value rest,
    e.equal_iff key other,
    e.equal_iff k other,
    e.equal_iff k key,
  )

  pub lookup-remove :
      (k j : K) (m : List (K × V)) → lookup j (remove k m) ≡ (if k == j then none else lookup j m)
  unfolding lookup remove
  lookup-remove k j [] = ground arith
  lookup-remove k j ((i, w) ∷ m) =
      ground (arith, e.equal_iff k j, e.equal_iff i k, e.equal_iff i j, lookup-remove k j m)

  pub remove_absent : (k : K) (m : List (K × V)) → lookup k m ≡ none → remove k m ≡ m
  unfolding lookup remove
  remove_absent k [] h = refl
  remove_absent k ((j, w) ∷ m) h = ground (arith, remove_absent k m)

  pub IsDistinct-insert :
      (k : K) (v : V) (m : List (K × V)) → IsDistinct m → IsDistinct (insert k v m)
  unfolding insert lookup
  IsDistinct-insert k v [] d = (refl, tt)
  IsDistinct-insert k v ((j, w) ∷ m) d = elim (Bool-cases (j == k)) [
    | inl same ↦ rw same ((ground (arith, e.equal_iff j k)), d.1)
    | inr other ↦ rw other (
      (ground (arith, e.equal_iff j k, e.equal_iff k j, lookup-insert k j v m)),
      IsDistinct-insert k v m d.1,
    )
  ]

  pub IsDistinct-remove : (k : K) (m : List (K × V)) → IsDistinct m → IsDistinct (remove k m)
  unfolding remove lookup
  IsDistinct-remove k [] d = tt
  IsDistinct-remove k ((j, w) ∷ m) d = elim (Bool-cases (j == k)) [
    | inl same ↦ rw same (IsDistinct-remove k m d.1)
    | inr other ↦ rw other ((ground (arith, lookup-remove k j m)), IsDistinct-remove k m d.1)
  ]

  pub length-insert_new :
      (k : K) (v : V) (m : List (K × V))
      → lookup k m ≡ none
      → length (insert k v m) ≡ suc (length m)
  unfolding insert lookup
  length-insert_new k v [] h = refl
  length-insert_new k v ((j, w) ∷ m) h = ground (arith, length-insert_new k v m)

  pub length-insert_old :
      (k : K) (v w : V) (m : List (K × V)) → lookup k m ≡ some w → length (insert k v m) ≡ length m
  unfolding insert lookup
  length-insert_old k v u [] h = cc
  length-insert_old k v u ((j, w) ∷ m) h = ground (arith, length-insert_old k v u m)

  pub length-remove :
      (k : K) (w : V) (m : List (K × V))
      → lookup k m ≡ some w
      → IsDistinct m
      → suc (length (remove k m)) ≡ length m
  unfolding remove lookup
  length-remove k u [] h d = cc
  length-remove k u ((j, w) ∷ m) h d =
      ground (arith, e.equal_iff j k, remove_absent k m, length-remove k u m)

  pub length-remove-le : (k : K) (m : List (K × V)) → length (remove k m) ≤ length m
  unfolding remove
  length-remove-le k [] = omega arith
  length-remove-le k ((j, w) ∷ m) = ground (arith, length-remove-le k m)
