-- ===== src/Verify/Resolver/Preferred.antt =====
-- Which record is preferred.
use ans_sdk_go.Base.{
  ◌≡◌, refl, sym, ap, ◌∙◌, true, false, Option, none, some, List, [], ◌∷◌, arith, if◌then◌else◌,
  inl, inr, Bool-cases,
}
use mathlib.Core.Path.{subst}
use ans_sdk_go.Models.Version.{Version, compare, compare_numbers}
use ans_sdk_go.Models.Version.Order.{IsLower}
use ans_sdk_go.Verify.Config.{AnsBadgeRecord, lookup_record}
use ans_sdk_go.Verify.Resolver.{comes_first, put, sort_records, first_record, choose_preferred}
use ans_sdk_go.Verify.Resolver.Choice.{IsOneOf, no_record, same_record, record_of}

-- A version is not below another, by the numeric order of the components, and none is below any.
abbrev pub IsAtLeast : Option Version → Option Version → Type 0
IsAtLeast v none = Unit
IsAtLeast none (some w) = ⊥
IsAtLeast (some v) (some w) = ¬ IsLower v w

-- No record of a list has a newer version.
abbrev pub IsNewest : AnsBadgeRecord → List AnsBadgeRecord → Type 0
IsNewest r [] = Unit
IsNewest r (s ∷ rs) = IsAtLeast r.version s.version × IsNewest r rs

comes_first-IsAtLeast : (v w : Option Version) → comes_first w v ≡ false → IsAtLeast v w
unfolding comes_first compare compare_numbers
comes_first-IsAtLeast v none h = tt
comes_first-IsAtLeast none (some w) h = cc
comes_first-IsAtLeast (some v) (some w) h = λ l. ground arith

-- None of a list comes before a record in the sort.
abbrev IsFirst : AnsBadgeRecord → List AnsBadgeRecord → Type 0
IsFirst r [] = Unit
IsFirst r (s ∷ rs) = (comes_first s.version r.version ≡ false) × IsFirst r rs

IsFirst-IsNewest : (r : AnsBadgeRecord) (rs : List AnsBadgeRecord) → IsFirst r rs → IsNewest r rs
IsFirst-IsNewest r [] h = tt
IsFirst-IsNewest r (s ∷ rs) h =
    (comes_first-IsAtLeast r.version s.version h.0, IsFirst-IsNewest r rs h.1)

comes_first_trans :
    (u v w : Option Version)
    → comes_first u v ≡ true
    → comes_first w v ≡ false
    → comes_first w u ≡ false
unfolding comes_first compare compare_numbers
comes_first_trans u v w h k = ground arith

comes_first_self : (v : Option Version) → comes_first v v ≡ false
unfolding comes_first compare compare_numbers
comes_first_self v = ground arith

-- One of two records that the sort keeps in front.
abbrev winner : AnsBadgeRecord → AnsBadgeRecord → AnsBadgeRecord
winner x b = if comes_first x.version b.version then x else b

abbrev best : AnsBadgeRecord → List AnsBadgeRecord → AnsBadgeRecord
best b [] = b
best b (x ∷ xs) = best (winner x b) xs

put-winner :
    (x b : AnsBadgeRecord) (sorted : List AnsBadgeRecord)
    → (rest : List AnsBadgeRecord) × (put x (b ∷ sorted) ≡ winner x b ∷ rest)
unfolding put
put-winner x b sorted = elim (Bool-cases (comes_first x.version b.version)) [
  | inl h ↦ (b ∷ sorted, rw h refl)
  | inr h ↦ (put x sorted, rw h refl)
]

sort_records-best :
    (b : AnsBadgeRecord) (sorted rs : List AnsBadgeRecord)
    → (rest : List AnsBadgeRecord) × (sort_records (b ∷ sorted) rs ≡ best b rs ∷ rest)
unfolding sort_records
sort_records-best b sorted [] = (sorted, refl)
sort_records-best b sorted (x ∷ rs) =
    let p = put-winner x b sorted in
    let ih = sort_records-best (winner x b) p.0 rs in (ih.0, ap (λ l. sort_records l rs) p.1 ∙ ih.1)

-- What does not come before a record does not come before the winner either.
winner_stays :
    (z x b : AnsBadgeRecord)
    → comes_first z.version b.version ≡ false
    → comes_first z.version (winner x b).version ≡ false
winner_stays z x b h = elim (Bool-cases (comes_first x.version b.version)) [
  | inl k ↦ rw k (comes_first_trans x.version b.version z.version k h)
  | inr k ↦ rw k h
]

best_stays :
    (z b : AnsBadgeRecord) (rs : List AnsBadgeRecord)
    → comes_first z.version b.version ≡ false
    → comes_first z.version (best b rs).version ≡ false
best_stays z b [] h = h
best_stays z b (x ∷ rs) h = best_stays z (winner x b) rs (winner_stays z x b h)

loser : (x b : AnsBadgeRecord) → comes_first x.version (winner x b).version ≡ false
loser x b = elim (Bool-cases (comes_first x.version b.version)) [
  | inl k ↦ rw k (comes_first_self x.version)
  | inr k ↦ rw k k
]

best-IsFirst : (b : AnsBadgeRecord) (rs : List AnsBadgeRecord) → IsFirst (best b rs) rs
best-IsFirst b [] = tt
best-IsFirst b (x ∷ rs) = (best_stays x (winner x b) rs (loser x b), best-IsFirst (winner x b) rs)

skip_second :
    (r b x : AnsBadgeRecord) (rs : List AnsBadgeRecord)
    → IsOneOf r (b ∷ rs)
    → IsOneOf r (b ∷ x ∷ rs)
skip_second r b x rs (inl here) = inl here
skip_second r b x rs (inr later) = inr (inr later)

best-IsOneOf : (b : AnsBadgeRecord) (rs : List AnsBadgeRecord) → IsOneOf (best b rs) (b ∷ rs)
best-IsOneOf b [] = inl refl
best-IsOneOf b (x ∷ rs) = elim (Bool-cases (comes_first x.version b.version)) [
  | inl k ↦
      let wins : winner x b ≡ x = rw k refl in
      subst (λ w. IsOneOf (best w rs) (b ∷ x ∷ rs)) (sym wins) (inr (best-IsOneOf x rs))
  | inr k ↦
      let stays : winner x b ≡ b = rw k refl in
      subst (λ w. IsOneOf (best w rs) (b ∷ x ∷ rs)) (sym stays)
        (skip_second (best b rs) b x rs (best-IsOneOf b rs))
]

-- The preferred record is one of the records, and none of them has a newer version by the numeric
-- order of major, minor and patch; if it has no version, then none of them has one.
pub choose_preferred-IsNewest :
    (rs : List AnsBadgeRecord) (r : AnsBadgeRecord)
    → choose_preferred rs ≡ lookup_record (some r)
    → IsOneOf r rs × IsNewest r rs
unfolding choose_preferred sort_records put
choose_preferred-IsNewest [] r h = absurd (no_record r h)
choose_preferred-IsNewest (x ∷ rs) r h =
    let s = sort_records-best x [] rs in
    let same : best x rs ≡ r = same_record (ap record_of (sym (ap first_record s.1) ∙ h)) in
    let first : IsFirst (best x rs) (x ∷ rs) =
      (best_stays x x rs (comes_first_self x.version), best-IsFirst x rs) in
    subst (λ s. IsOneOf s (x ∷ rs) × IsNewest s (x ∷ rs)) same
      (best-IsOneOf x rs, IsFirst-IsNewest (best x rs) (x ∷ rs) first)
