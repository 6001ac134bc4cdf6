-- ===== src/Base/Text/Split.antt =====
-- Splitting a text at a byte.
use ans_sdk_go.Base.{
  ℕ, ◌≡◌, refl, List, Bool, true, not, [], ◌∷◌, ◌++◌, arith, Bool-cases, inl, inr, all, Bytes, ◌==◌,
  nat_eq,
}
use ans_sdk_go.Base.Text.{split, onto}

-- No byte of a text is the separator.
abbrev pub lacks : ℕ → Bytes → Bool
lacks sep = all (λ c. not (c == sep))

pub split-lacks : (sep : ℕ) (s : Bytes) → lacks sep s ≡ true → split sep s ≡ s ∷ []
unfolding split
split-lacks sep [] h = refl
split-lacks sep (c ∷ s) h = elim (Bool-cases (c == sep)) [
  | inl e ↦ absurd (ground arith)
  | inr n ↦ rw (n, split-lacks sep s (ground arith))
]

pub split-append :
    (sep : ℕ) (s t : Bytes) → lacks sep s ≡ true → split sep (s ++ sep ∷ t) ≡ s ∷ split sep t
unfolding split
split-append sep [] t h = ground arith
split-append sep (c ∷ s) t h = elim (Bool-cases (c == sep)) [
  | inl e ↦ absurd (ground arith)
  | inr n ↦ rw (n, split-append sep s t (ground arith))
]

-- The parts of a text, put together again.
abbrev pub join : ℕ → List Bytes → Bytes
join sep [] = []
join sep (part ∷ []) = part
join sep (part ∷ next ∷ parts) = part ++ (sep ∷ join sep (next ∷ parts))

join-onto : (sep c : ℕ) (parts : List Bytes) → join sep (onto c parts) ≡ c ∷ join sep parts
join-onto sep c [] = refl
join-onto sep c (part ∷ []) = refl
join-onto sep c (part ∷ next ∷ parts) = refl

onto-some :
    (c : ℕ) (parts : List Bytes)
    → (part : Bytes) × (rest : List Bytes) × (onto c parts ≡ part ∷ rest)
onto-some c [] = (_, _, refl)
onto-some c (part ∷ parts) = (_, _, refl)

split-some :
    (sep : ℕ) (s : Bytes) → (part : Bytes) × (rest : List Bytes) × (split sep s ≡ part ∷ rest)
unfolding split
split-some sep [] = ([], [], refl)
split-some sep (c ∷ s) = elim (Bool-cases (c == sep)) [
  | inl e ↦ ([], split sep s, rw e)
  | inr n ↦ let o = onto-some c (split sep s) in (o.0, o.1, rw n o.2)
]

join_empty :
    (sep : ℕ) (parts : List Bytes) {part : Bytes} {rest : List Bytes}
    → parts ≡ part ∷ rest
    → join sep ([] ∷ parts) ≡ sep ∷ join sep parts
join_empty sep [] h = cc
join_empty sep (part ∷ parts) h = refl

pub join-split : (sep : ℕ) (s : Bytes) → join sep (split sep s) ≡ s
unfolding split
join-split sep [] = refl
join-split sep (c ∷ s) = elim (Bool-cases (c == sep)) [
  | inl e ↦
      let same : c ≡ sep = ground arith in
      rw (e, join_empty sep (split sep s) (split-some sep s).2, join-split sep s) (rw same refl)
  | inr n ↦ rw (n, join-onto sep c (split sep s), join-split sep s)
]
