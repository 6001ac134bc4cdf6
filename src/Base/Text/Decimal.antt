-- ===== src/Base/Text/Decimal.antt =====
-- Printing and reading decimal numbers.
use ans_sdk_go.Base.{
  ℕ, zero, suc, ◌+◌, ◌-◌, ◌*◌, ◌/◌, ◌%◌, ◌≤◌, ◌<◌, ◌≡◌, ◌≢◌, refl, Bool, true, ◌&&◌, some, [], ◌∷◌,
  ◌++◌, arith, ltb, lt→ltb, Bool-cases, inl, inr, all, Bytes, ltb_false→le,
}
use ans_sdk_go.Base.Text.{is_digit, decimal, parse_uint32, digits_in, print_decimal}

decimal-append :
    (acc c : ℕ) (s : Bytes) → decimal acc (s ++ c ∷ []) ≡ decimal acc s * 10 + (c - b'0')
unfolding decimal
decimal-append acc c [] = refl
decimal-append acc c (d ∷ s) = decimal-append (acc * 10 + (d - b'0')) c s

pub all-append : (p : ℕ → Bool) (xs ys : Bytes) → all p (xs ++ ys) ≡ (all p xs && all p ys)
all-append p [] ys = refl
all-append p (x ∷ xs) ys = ground (arith, all-append p xs ys)

-- A number is below 10 to the power of the rounds left, or the last round prints a digit only.
digits_in-value : (rounds n : ℕ) → n ≤ rounds → decimal 0 (digits_in rounds n) ≡ n
unfolding digits_in
digits_in-value zero n h = unfold decimal in omega arith
digits_in-value (suc rounds) n h = elim (Bool-cases (ltb n 10)) [
  | inl small ↦ rw (small, digits_in) (unfold decimal in omega arith)
  | inr large ↦
      rw (large, digits_in)
        (rw decimal-append (
          rw (digits_in-value rounds (n / 10) (omega (arith, ltb_false→le n 10 large)))
            (omega arith)))
]

digits_in-digits : (rounds n : ℕ) → n ≤ rounds → all is_digit (digits_in rounds n) ≡ true
unfolding digits_in
digits_in-digits zero n h = ground arith
digits_in-digits (suc rounds) n h = elim (Bool-cases (ltb n 10)) [
  | inl small ↦ rw (small, digits_in) (ground arith)
  | inr large ↦
      rw (large, digits_in)
        (ground (
          arith,
          all-append is_digit (digits_in rounds (n / 10)) ((n % 10 + b'0') ∷ []),
          digits_in-digits rounds (n / 10) (omega (arith, ltb_false→le n 10 large)),
        ))
]

append-nonempty : (s : Bytes) (c : ℕ) → s ++ c ∷ [] ≢ []
append-nonempty [] c h = cc
append-nonempty (d ∷ s) c h = cc

digits_in-nonempty : (rounds n : ℕ) → digits_in rounds n ≢ []
unfolding digits_in
digits_in-nonempty zero n h = cc
digits_in-nonempty (suc rounds) n h = elim (Bool-cases (ltb n 10)) [
  | inl small ↦ absurd (cc (rw (small, digits_in) at h))
  | inr large ↦ absurd (append-nonempty (digits_in rounds (n / 10)) _ (rw (large, digits_in) at h))
]

pub all-print_decimal : (n : ℕ) → all is_digit (print_decimal n) ≡ true
unfolding print_decimal
all-print_decimal n = digits_in-digits n n (omega arith)

read_digits :
    (s : Bytes)
    → s ≢ []
    → all is_digit s ≡ true
    → decimal 0 s < 4294967296
    → parse_uint32 s ≡ some (decimal 0 s)
unfolding parse_uint32
read_digits [] h d b = absurd (h refl)
read_digits (c ∷ s) h d b = rw (d, lt→ltb _ _ b)

-- Reading what was printed gives the number.
pub parse_uint32-print_decimal : (n : ℕ) → n < 4294967296 → parse_uint32 (print_decimal n) ≡ some n
unfolding print_decimal
parse_uint32-print_decimal n h =
    let value : decimal 0 (digits_in n n) ≡ n = digits_in-value n n (omega arith) in
    rw (
      read_digits (digits_in n n) (digits_in-nonempty n n) (digits_in-digits n n (omega arith))
          (omega (arith, value)),
      value,
    )
