-- ===== src/Tests/Cache.antt =====
-- verify/scitt/cache.go at a store of two entries.
use ans_sdk_go.Base.{
  ℕ, ◌≡◌, ◌≤◌, refl, none, some, [], ◌∷◌, arith, length, if◌then◌else◌, nat_eq, ◌==◌,
}
use ans_sdk_go.Base.Table.{lookup, insert, remove}
use ans_sdk_go.Base.Members.{contains}
use ans_sdk_go.Scitt.Cache.{Store, insert_entry, invalidate}
use ans_sdk_go.Scitt.Cache.Valid.{IsValid, insert_entry-IsValid, invalidate-IsValid}
use ans_sdk_go.Scitt.Cache.Order.{insert_entry-lookup, victim}

abbrev two : Store ℕ ℕ
two = record { entries = (1, 10) ∷ (2, 20) ∷ []; insert_order = 1 ∷ 2 ∷ []; max_entries = 2 }

two-IsValid : IsValid two
unfolding lookup contains
two-IsValid = record {
  distinct = (refl, (refl, tt));
  nodup = (refl, (refl, tt));
  sizes = refl;
  same_keys = λ k. ground arith;
}

insert_entry-IsValid_example :
    IsValid (insert_entry 3 30 two)
    × (length (insert_entry 3 30 two).entries ≤ 2)
    × ((insert_entry 3 30 two).max_entries ≡ 2)
insert_entry-IsValid_example = insert_entry-IsValid 3 30 two two-IsValid

invalidate-IsValid_example :
    IsValid (invalidate 1 two)
    × (length (invalidate 1 two).entries ≤ 2)
    × ((j : ℕ)
        → lookup j (invalidate 1 two).entries ≡ (if 1 == j then none else lookup j two.entries))
invalidate-IsValid_example = invalidate-IsValid 1 two two-IsValid

insert_entry-lookup_example : lookup 1 (insert_entry 3 30 two).entries ≡ (
    if ◌==◌ {A = ℕ} 3 1
    then some 30
    else if contains 1 (victim 3 two)
    then none
    else lookup 1 two.entries)
insert_entry-lookup_example = insert_entry-lookup 3 30 two two-IsValid (omega arith) (omega arith) 1

oldest_evicted : lookup 1 (insert_entry 3 30 two).entries ≡ none
unfolding insert_entry lookup insert remove
oldest_evicted = refl
