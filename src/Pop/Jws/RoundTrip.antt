-- ===== src/Pop/Jws/RoundTrip.antt =====
-- Numbers in bytes of a width, and a token put together from its segments.
use ans_sdk_go.Base.{
  ℕ, zero, suc, ◌+◌, ◌*◌, ◌/◌, ◌%◌, ◌<◌, ◌≡◌, ◌≢◌, refl, ap, Bool, true, false, ◌||◌, ◌==◌,
  bytes_eq, List, [], ◌∷◌, ◌++◌, length, take, drop, all, ltb, arith, Bytes, bytes_beq_iff,
  length-append,
}
use ans_sdk_go.Base.Text.Hex.{are_bytes}
use ans_sdk_go.Base.Text.Split.{lacks, split-lacks, split-append}
use ans_sdk_go.Pop.Errors.{passed, refuse_if-on}
use ans_sdk_go.Pop.Jws.{set_bytes_after, set_bytes, fill_bytes, split_compact_jws}

-- How many numbers fit in a width.
abbrev pub capacity : ℕ → ℕ
capacity zero = 1
capacity (suc width) = capacity width * 256

set_bytes_after-append :
    (n : ℕ) (a b : Bytes) → set_bytes_after n (a ++ b) ≡ set_bytes_after (set_bytes_after n a) b
set_bytes_after-append n [] b = refl
set_bytes_after-append n (x ∷ a) b = set_bytes_after-append (n * 256 + x) a b

pub set_bytes-fill_bytes : (width n : ℕ) → n < capacity width → set_bytes (fill_bytes width n) ≡ n
unfolding fill_bytes
set_bytes-fill_bytes zero n h = omega arith
set_bytes-fill_bytes (suc width) n h =
    rw
      (
        set_bytes_after-append 0 (fill_bytes width (n / 256)) (n % 256 ∷ []),
        set_bytes-fill_bytes width (n / 256) (omega arith),
      )
      (omega arith)

pub length-fill_bytes : (width n : ℕ) → length (fill_bytes width n) ≡ width
unfolding fill_bytes
length-fill_bytes zero n = refl
length-fill_bytes (suc width) n =
    rw
      (length-append (fill_bytes width (n / 256)) (n % 256 ∷ []), length-fill_bytes width (n / 256))
      (omega arith)

pub all-append {ℓ} :
    {A : Type ℓ} (p : A → Bool) (xs ys : List A)
    → all p xs ≡ true
    → all p ys ≡ true
    → all p (xs ++ ys) ≡ true
all-append p [] ys h k = k
all-append p (x ∷ xs) ys h k = ground (arith, all-append p xs ys)

pub are_bytes-fill_bytes : (width n : ℕ) → are_bytes (fill_bytes width n) ≡ true
unfolding fill_bytes
are_bytes-fill_bytes zero n = refl
are_bytes-fill_bytes (suc width) n =
    all-append (λ b. ltb b 256) (fill_bytes width (n / 256)) (n % 256 ∷ [])
      (are_bytes-fill_bytes width (n / 256)) (ground arith)

pub take-append {ℓ} : {A : Type ℓ} (n : ℕ) (xs ys : List A) → length xs ≡ n → take n (xs ++ ys) ≡ xs
take-append zero [] ys h = refl
take-append (suc n) [] ys h = absurd (omega (arith, h))
take-append zero (x ∷ xs) ys h = absurd (omega (arith, h))
take-append (suc n) (x ∷ xs) ys h = ap (λ zs. x ∷ zs) (take-append n xs ys (omega (arith, h)))

pub drop-append {ℓ} : {A : Type ℓ} (n : ℕ) (xs ys : List A) → length xs ≡ n → drop n (xs ++ ys) ≡ ys
drop-append zero [] ys h = refl
drop-append (suc n) [] ys h = absurd (omega (arith, h))
drop-append zero (x ∷ xs) ys h = absurd (omega (arith, h))
drop-append (suc n) (x ∷ xs) ys h = drop-append n xs ys (omega (arith, h))

pub unequal : (a b : Bytes) → a ≢ b → (a == b) ≡ false
unequal a b h = ground (arith, bytes_beq_iff a b)

none_empty : (a b c : Bytes) → a ≢ [] → b ≢ [] → c ≢ [] → (a == [] || (b == [] || c == [])) ≡ false
none_empty a b c h k m = rw (unequal a [] h, unequal b [] k, unequal c [] m) refl

-- A token of three segments that are not empty and have no dot is split into them.
pub split_compact_jws-joined :
    (header payload signature : Bytes)
    → lacks b'.' header ≡ true
    → lacks b'.' payload ≡ true
    → lacks b'.' signature ≡ true
    → header ≢ []
    → payload ≢ []
    → signature ≢ []
    → split_compact_jws (header ++ (b'.' ∷ payload ++ (b'.' ∷ signature)))
      ≡ passed (header, payload, signature)
unfolding split_compact_jws
split_compact_jws-joined header payload signature h k m some_header some_payload some_signature =
    rw
      (
        split-append b'.' header (payload ++ (b'.' ∷ signature)) h,
        split-append b'.' payload signature k,
        split-lacks b'.' signature m,
      )
      (refuse_if-on _ (none_empty header payload signature some_header some_payload some_signature)
        refl)
