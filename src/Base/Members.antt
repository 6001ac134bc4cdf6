-- ===== src/Base/Members.antt =====
-- Membership in a list of comparable values, as the program tests it.
use mathlib.Core.Bool.{Bool, true, false, ◌||◌}
use mathlib.Core.List.{List, [], ◌∷◌, ◌++◌}
use mathlib.Core.Path.{◌≡◌, refl}
use Prim.Native.Nat.{suc}
use native.Mathlib.Omega.{arith}
use ans_sdk_go.Base.Tests.{if◌then◌else◌}
use ans_sdk_go.Base.Lists.{length}
use ans_sdk_go.Base.Equality.{Comparable, ◌==◌}

module _ {ℓ} {A : Type ℓ} ⦃e : Comparable A⦄ where
  unfoldable pub contains : A → List A → Bool
  contains a [] = false
  contains a (x ∷ xs) = x == a || contains a xs

  -- No value twice.
  abbrev pub IsNodup : List A → Type 0
  IsNodup [] = Unit
  IsNodup (x ∷ xs) = (contains x xs ≡ false) × IsNodup xs

  -- The list without the first occurrence of a value.
  unfoldable pub erase : A → List A → List A
  erase a [] = []
  erase a (x ∷ xs) = if x == a then xs else x ∷ erase a xs

  pub equal_self : (a : A) → (a == a) ≡ true
  equal_self a = (e.equal_iff a a).1 refl

  pub contains-append :
      (a : A) (xs ys : List A) → contains a (xs ++ ys) ≡ (contains a xs || contains a ys)
  unfolding contains
  contains-append a [] ys = refl
  contains-append a (x ∷ xs) ys = ground (arith, contains-append a xs ys)

  pub IsNodup-append :
      (a : A) (xs : List A) → contains a xs ≡ false → IsNodup xs → IsNodup (xs ++ a ∷ [])
  unfolding contains
  IsNodup-append a [] h d = (refl, tt)
  IsNodup-append a (x ∷ xs) h d = (
    (ground (arith, contains-append x xs (a ∷ []), e.equal_iff a x, e.equal_iff x a)),
    IsNodup-append a xs (ground arith) d.1,
  )

  pub contains-erase :
      (a b : A) (xs : List A)
      → IsNodup xs
      → contains b (erase a xs) ≡ (if a == b then false else contains b xs)
  unfolding contains erase
  contains-erase a b [] d = ground arith
  contains-erase a b (x ∷ xs) d =
      ground (arith, contains-erase a b xs, e.equal_iff x a, e.equal_iff a b, e.equal_iff x b)

  pub IsNodup-erase : (a : A) (xs : List A) → IsNodup xs → IsNodup (erase a xs)
  unfolding contains erase
  IsNodup-erase a [] d = tt
  IsNodup-erase a (x ∷ xs) d = ground (arith, IsNodup-erase a xs, contains-erase a x xs)

  pub length-erase :
      (a : A) (xs : List A) → contains a xs ≡ true → suc (length (erase a xs)) ≡ length xs
  unfolding contains erase
  length-erase a [] h = cc
  length-erase a (x ∷ xs) h = ground (arith, length-erase a xs)
