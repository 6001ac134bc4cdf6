-- ===== src/Scitt/Errors.antt =====
-- The error values of verify/scitt/errors.go, and the results of the functions that return them.
-- An error carries its type and its key ID; messages and causes are texts for a reader.
use ans_sdk_go.Base.{◌≡◌, ◌≢◌, refl, Bool, true, false, Option, none, some, Bytes, ◌⊎◌, inl, inr}
use ans_sdk_go.Scitt.Merkle.{MerkleError}
use ans_sdk_go.Scitt.Merkle
use ans_sdk_go.Scitt.Types.{TransportErrorType}

pub data CoseErrorType : Type 0 where
  oversized_cose not_a_cose_sign1 cbor_decode invalid_array_length : CoseErrorType
  invalid_signature_length invalid_protected_header invalid_unprotected_header : CoseErrorType
  unsupported_algorithm missing_kid : CoseErrorType

pub data SignatureErrorType : Type 0 where
  signature_invalid unknown_key_id issuer_mismatch invalid_key_format : SignatureErrorType
  key_hash_mismatch invalid_public_key untrusted_key_domain : SignatureErrorType

pub data TokenErrorType : Type 0 where
  token_expired missing_field payload_invalid terminal_status payload_empty : TokenErrorType

pub data CheckpointErrorType : Type 0 where
  oversized_note malformed invalid_size invalid_root_hash : CheckpointErrorType
  size_mismatch checkpoint_root_mismatch : CheckpointErrorType

pub data Failure : Type 0 where
  cose : CoseErrorType → Failure
  -- with the Kid field, which is zero where the source sets none
  sig : SignatureErrorType → Bytes → Failure
  merkle : MerkleError → Failure
  checkpoint : CheckpointErrorType → Failure
  token : TokenErrorType → Failure
  transport : TransportErrorType → Failure
  -- an error of a client or of another package
  foreign : Bytes → Failure

pub data Checked {ℓ} (A : Type ℓ) : Type ℓ where
  good : A → Checked A
  bad : Failure → Checked A

infixl 5 ◌>>=◌ ◌>>◌
abbrev pub ◌>>=◌ {ℓ κ} : {A : Type ℓ} {B : Type κ} → Checked A → (A → Checked B) → Checked B
good a >>= f = f a
bad e >>= f = bad e

abbrev pub ◌>>◌ {ℓ} : {B : Type ℓ} → Checked (Unit {0}) → Checked B → Checked B
m >> k = m >>= λ _. k

-- `if c { return e }`
abbrev pub fail_if : Bool → Failure → Checked (Unit {0})
fail_if true e = bad e
fail_if false e = good tt

abbrev pub or_fail {ℓ} : {A : Type ℓ} → Option A → Failure → Checked A
or_fail none e = bad e
or_fail (some a) e = good a

-- A result of the Merkle functions.
abbrev pub of_merkle {ℓ} : {A : Type ℓ} → Merkle.Result A → Checked A
of_merkle (Merkle.ok a) = good a
of_merkle (Merkle.err e) = bad (merkle e)

-- What a chain that ends well went through.
pub >>=-good {ℓ κ} :
    {A : Type ℓ} {B : Type κ} (m : Checked A) (f : A → Checked B) {b : B}
    → (m >>= f) ≡ good b
    → (a : A) × (m ≡ good a) × (f a ≡ good b)
>>=-good (good a) f h = (a, refl, h)
>>=-good (bad e) f h = cc

pub fail_if-good {ℓ} :
    (c : Bool) (e : Failure) {B : Type ℓ} (k : Checked B) {b : B}
    → (fail_if c e >> k) ≡ good b
    → (c ≡ false) × (k ≡ good b)
fail_if-good true e k h = cc
fail_if-good false e k h = (refl, h)

pub or_fail-good {ℓ κ} :
    {A : Type ℓ} {B : Type κ} (o : Option A) (e : Failure) (f : A → Checked B) {b : B}
    → (or_fail o e >>= f) ≡ good b
    → (a : A) × (o ≡ some a) × (f a ≡ good b)
or_fail-good none e f h = cc
or_fail-good (some a) e f h = (a, refl, h)

pub of_merkle-good {ℓ κ} :
    {A : Type ℓ} {B : Type κ} (m : Merkle.Result A) (f : A → Checked B) {b : B}
    → (of_merkle m >>= f) ≡ good b
    → (a : A) × (m ≡ Merkle.ok a) × (f a ≡ good b)
of_merkle-good (Merkle.ok a) f h = (a, refl, h)
of_merkle-good (Merkle.err e) f h = cc

pub Checked-cases {ℓ} :
    {A : Type ℓ} (m : Checked A) → ((a : A) × (m ≡ good a)) ⊎ ((e : Failure) × (m ≡ bad e))
Checked-cases (good a) = inl (a, refl)
Checked-cases (bad e) = inr (e, refl)

pub good_injective {ℓ} : {A : Type ℓ} (a b : A) → Checked.good a ≡ good b → a ≡ b
good_injective a b h = cc

pub not_bad {ℓ} : {A : Type ℓ} (e : Failure) (a : A) → Checked.bad e ≢ good a
not_bad e a h = cc

pub fail_if_last : (c : Bool) (e : Failure) {u : Unit {0}} → fail_if c e ≡ good u → c ≡ false
fail_if_last true e h = cc
fail_if_last false e h = refl
