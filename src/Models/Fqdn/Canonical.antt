-- ===== src/Models/Fqdn/Canonical.antt =====
-- A validated name is in canonical form.
use ans_sdk_go.Base.{
  ℕ, suc, ◌≤◌, ◌<◌, ◌≡◌, ◌≢◌, ◌⊎◌, refl, ap, ◌∙◌, true, false, none, List, [], ◌∷◌, map, sym, arith,
  length, all, length-map, Bytes, ◌==◌, nat_eq, bytes_eq, bytes_beq, Bool-cases, Option-cases, inl,
  inr, le→ltb_false,
}
use ans_sdk_go.Base.Text.{has_prefix, ends_with, trim_last, lower, to_lower, split, onto}
use ans_sdk_go.Models.Fqdn.{
  Fqdn, Parsed, ok, err, is_valid_label_char, check_label, check_labels, new_fqdn,
}

lower_idem : (c : ℕ) → lower (lower c) ≡ lower c
lower_idem c = ground arith

pub to_lower_idem : (s : Bytes) → to_lower (to_lower s) ≡ to_lower s
to_lower_idem [] = refl
to_lower_idem (c ∷ s) = cc (lower_idem c, to_lower_idem s)

lower_test : (c b : ℕ) → b < 65 → (lower c == b) ≡ (c == b)
lower_test c b h = ground arith

valid_lower :
    (s : Bytes) → all is_valid_label_char s ≡ true → all is_valid_label_char (to_lower s) ≡ true
valid_lower [] h = refl
valid_lower (c ∷ s) h = ground (arith, valid_lower s)

ends_lower : (b : ℕ) (s : Bytes) → b < 65 → ends_with b (to_lower s) ≡ ends_with b s
unfolding ends_with
ends_lower b [] h = refl
ends_lower b (c ∷ []) h = lower_test c b h
ends_lower b (c ∷ d ∷ s) h = ends_lower b (d ∷ s) h

starts_lower :
    (b : ℕ) (s : Bytes) → b < 65 → has_prefix (to_lower s) (b ∷ []) ≡ has_prefix s (b ∷ [])
unfolding has_prefix
starts_lower b [] h = refl
starts_lower b (c ∷ s) h = ground (arith, lower_test c b h)

onto-lower :
    (c : ℕ) (parts : List Bytes) → onto (lower c) (map to_lower parts) ≡ map to_lower (onto c parts)
onto-lower c [] = refl
onto-lower c (p ∷ parts) = refl

split_lower : (b : ℕ) (s : Bytes) → b < 65 → split b (to_lower s) ≡ map to_lower (split b s)
unfolding split
split_lower b [] h = refl
split_lower b (c ∷ s) h = elim (Bool-cases (c == b)) [
  | inl e ↦ rw (lower_test c b h, e, split_lower b s h)
  | inr n ↦ rw (lower_test c b h, n, split_lower b s h) (onto-lower c (split b s))
]

-- What a label that passes has.
pub record IsLabel (label : Bytes) : Type 0 where
  pub nonempty : label ≢ []
  pub short : length label ≤ 63
  pub valid : all is_valid_label_char label ≡ true
  pub no_hyphen_start : has_prefix label (b'-' ∷ []) ≡ false
  pub no_hyphen_end : ends_with b'-' label ≡ false

IsLabel-passes : (label : Bytes) → check_label label ≡ none → IsLabel label
unfolding check_label bytes_beq
IsLabel-passes [] h = cc
IsLabel-passes (c ∷ s) h = record {
  nonempty = λ e. cc;
  short = ground arith;
  valid = ground arith;
  no_hyphen_start = ground arith;
  no_hyphen_end = ground arith;
}

passes_label : (label : Bytes) → IsLabel label → check_label label ≡ none
unfolding check_label bytes_beq
passes_label [] v = absurd (v.nonempty refl)
passes_label (c ∷ s) v =
    rw (le→ltb_false 63 (suc (length s)) v.short)
      (rw (v.valid) (rw (v.no_hyphen_start) (rw v.no_hyphen_end)))

IsLabel-lower : (label : Bytes) → IsLabel label → IsLabel (to_lower label)
IsLabel-lower [] v = absurd (v.nonempty refl)
IsLabel-lower (c ∷ s) v = record {
  nonempty = λ e. cc;
  short = omega (arith, length-map lower (c ∷ s), v.short);
  valid = valid_lower (c ∷ s) v.valid;
  no_hyphen_start = rw (starts_lower b'-' (c ∷ s) (omega arith)) v.no_hyphen_start;
  no_hyphen_end = rw (ends_lower b'-' (c ∷ s) (omega arith)) v.no_hyphen_end;
}

abbrev pub AllLabels : List Bytes → Type 0
AllLabels [] = Unit
AllLabels (label ∷ labels) = IsLabel label × AllLabels labels

labels_pass : (labels : List Bytes) → check_labels labels ≡ none → AllLabels labels
unfolding check_labels
labels_pass [] h = tt
labels_pass (l ∷ ls) h = elim (Option-cases (check_label l)) [
  | inl fine ↦ (IsLabel-passes l fine, labels_pass ls (rw (fine, check_labels) at h))
  | inr (e, bad) ↦ absurd (cc (rw (bad, check_labels) at h))
]

pass_labels : (labels : List Bytes) → AllLabels labels → check_labels labels ≡ none
unfolding check_labels
pass_labels [] v = refl
pass_labels (l ∷ ls) v = rw (passes_label l v.0, check_labels) (pass_labels ls v.1)

AllLabels-lower : (labels : List Bytes) → AllLabels labels → AllLabels (map to_lower labels)
AllLabels-lower [] v = tt
AllLabels-lower (l ∷ ls) v = (IsLabel-lower l v.0, AllLabels-lower ls v.1)

-- The last part of a text that ends with the separator is empty.
last_part : List Bytes → Bytes
last_part [] = []
last_part (p ∷ []) = p
last_part (p ∷ q ∷ ps) = last_part (q ∷ ps)

onto_some : (c : ℕ) (parts : List Bytes) → onto c parts ≢ []
onto_some c [] = cc
onto_some c (p ∷ ps) = cc

split_some : (b : ℕ) (s : Bytes) → split b s ≢ []
unfolding split
split_some b [] e = cc
split_some b (c ∷ s) e = elim (Bool-cases (c == b)) [
  | inl h ↦ cc (rw h at e)
  | inr h ↦ onto_some c (split b s) (rw h at e)
]

onto_not_empty : (c : ℕ) (parts : List Bytes) → onto c parts ≢ [] ∷ []
onto_not_empty c [] = cc
onto_not_empty c (p ∷ ps) = cc

-- A text of one byte or more is not one empty part.
split_not_empty : (b c : ℕ) (s : Bytes) → split b (c ∷ s) ≢ [] ∷ []
unfolding split
split_not_empty b c s e = elim (Bool-cases (c == b)) [
  | inl h ↦ split_some b s (cc (rw h at e))
  | inr h ↦ onto_not_empty c (split b s) (rw h at e)
]

last_after : (parts : List Bytes) → parts ≢ [] → last_part parts ≡ [] → last_part ([] ∷ parts) ≡ []
unfolding last_part
last_after [] some_part h = refl
last_after (p ∷ ps) some_part h = h

last_onto :
    (c : ℕ) (parts : List Bytes)
    → parts ≢ []
    → parts ≢ [] ∷ []
    → last_part parts ≡ []
    → last_part (onto c parts) ≡ []
unfolding last_part
last_onto c [] some_part more h = absurd (some_part refl)
last_onto c (p ∷ []) some_part more h = absurd (more (rw h refl))
last_onto c (p ∷ q ∷ ps) some_part more h = h

trimmed_or_empty : (b : ℕ) (s : Bytes) → (trim_last b s ≡ s) ⊎ (last_part (split b s) ≡ [])
unfolding trim_last split last_part
trimmed_or_empty b [] = inl refl
trimmed_or_empty b (c ∷ []) = ground arith
trimmed_or_empty b (c ∷ d ∷ s) = elim (trimmed_or_empty b (d ∷ s)) [
  | inl e ↦ inl (ap (◌∷◌ c) e)
  | inr e ↦ inr (elim (Bool-cases (c == b)) [
    | inl h ↦ rw h (last_after (split b (d ∷ s)) (split_some b (d ∷ s)) e)
    | inr h ↦ rw h (last_onto c (split b (d ∷ s)) (split_some b (d ∷ s)) (split_not_empty b d s) e)
  ])
]

AllLabels-last : (p : Bytes) (ps : List Bytes) → AllLabels (p ∷ ps) → last_part (p ∷ ps) ≢ []
unfolding last_part
AllLabels-last p [] v = v.0.nonempty
AllLabels-last p (q ∷ ps) v = AllLabels-last q ps v.1

all_passes : (parts : List Bytes) → parts ≢ [] → AllLabels parts → last_part parts ≢ []
all_passes [] some_part v = absurd (some_part refl)
all_passes (p ∷ ps) some_part v = AllLabels-last p ps v

value_of : Parsed → Bytes
value_of (ok g) = g.value
value_of (err e) = []

empty_refused : (f : Fqdn) → new_fqdn [] ≢ ok f
unfolding new_fqdn bytes_beq
empty_refused f h = cc

-- What a successful call found.
passed :
    (domain : Bytes) (f : Fqdn)
    → new_fqdn domain ≡ ok f
    → (check_labels (split b'.' (trim_last b'.' domain)) ≡ none)
      × (f.value ≡ to_lower (trim_last b'.' domain))
unfolding new_fqdn value_of bytes_beq trim_last
passed [] f h = absurd (empty_refused f h)
passed (c ∷ s) f h = elim (Option-cases (check_labels (split b'.' (trim_last b'.' (c ∷ s))))) [
  | inl fine ↦ (fine, ap value_of (sym (rw fine at h)))
  | inr (e, bad) ↦ absurd (cc (rw bad at h))
]

trimmed : (v : Bytes) → AllLabels (split b'.' v) → trim_last b'.' v ≡ v
trimmed v labels = elim (trimmed_or_empty b'.' v) [
  | inl same ↦ same
  | inr last ↦ absurd (all_passes (split b'.' v) (split_some b'.' v) labels last)
]

result :
    (c : ℕ) (s : Bytes)
    → check_labels (split b'.' (trim_last b'.' (c ∷ s))) ≡ none
    → new_fqdn (c ∷ s) ≡ ok (record { value = to_lower (trim_last b'.' (c ∷ s)) })
unfolding new_fqdn bytes_beq
result c s h = rw h refl

-- A name in canonical form is accepted as it is.
accepted :
    (v : Bytes) → AllLabels (split b'.' v) → to_lower v ≡ v → new_fqdn v ≡ ok (record { value = v })
unfolding split
accepted [] labels low = absurd (labels.0.nonempty refl)
accepted (c ∷ s) labels low =
    let v = c ∷ s in
    let same = trimmed v labels in
    let none_bad : check_labels (split b'.' (trim_last b'.' v)) ≡ none =
      rw same (pass_labels (split b'.' v) labels) in
    let canonical : to_lower (trim_last b'.' v) ≡ v = ap to_lower same ∙ low in
    result c s none_bad ∙ ap (λ t. ok (record { value = t })) canonical

-- A name that `new_fqdn` returns is in lower case, each of its labels is one that a name may have
-- (not empty, at most 63 bytes, of letters, digits and hyphens, with no hyphen at either end), and
-- validating the name again returns the same name.
pub new_fqdn-canonical :
    (domain : Bytes) (f : Fqdn)
    → new_fqdn domain ≡ ok f
    → AllLabels (split b'.' f.value) × (to_lower f.value ≡ f.value) × (new_fqdn f.value ≡ ok f)
new_fqdn-canonical domain f h =
    let t = trim_last b'.' domain in
    let found = passed domain f h in
    let low : to_lower f.value ≡ f.value = rw found.1 (to_lower_idem t) in
    let labels : AllLabels (split b'.' f.value) =
      rw (found.1, split_lower b'.' t (omega arith))
        (AllLabels-lower (split b'.' t) (labels_pass (split b'.' t) found.0)) in
    (labels, low, accepted f.value labels low)
