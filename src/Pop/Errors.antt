-- ===== src/Pop/Errors.antt =====
-- pop/errors.go: the types of the errors, and the results of the functions that return them.
use ans_sdk_go.Base.{◌≡◌, ◌≢◌, ◌⊎◌, refl, inl, inr, Bool, true, false, Option, none, some}

pub data ProofError : Type 0 where
  malformed_proof unsupported_alg unsupported_profile http_binding_mismatch proof_stale : ProofError
  replay replay_cache_full signature_invalid cert_invalid key_mismatch : ProofError
  token_binding_mismatch content_binding_mismatch content_unreadable binding_failed : ProofError
  status_invalid receipt_invalid missing_headers scitt_header_invalid misconfigured : ProofError
  client_gone expected_peer_mismatch : ProofError

pub data Step {ℓ} (A : Type ℓ) : Type ℓ where
  passed : A → Step A
  refused : ProofError → Step A

infixl 5 ◌>>=◌ ◌>>◌
abbrev pub ◌>>=◌ {ℓ κ} : {A : Type ℓ} {B : Type κ} → Step A → (A → Step B) → Step B
passed a >>= f = f a
refused e >>= f = refused e

abbrev pub ◌>>◌ {ℓ} : {B : Type ℓ} → Step (Unit {0}) → Step B → Step B
m >> k = m >>= λ _. k

abbrev pub refuse_if : Bool → ProofError → Step (Unit {0})
refuse_if true e = refused e
refuse_if false e = passed tt

abbrev pub or_refuse {ℓ} : {A : Type ℓ} → Option A → ProofError → Step A
or_refuse none e = refused e
or_refuse (some a) e = passed a

pub Step-cases {ℓ} :
    {A : Type ℓ} (s : Step A) → ((a : A) × (s ≡ passed a)) ⊎ ((e : ProofError) × (s ≡ refused e))
Step-cases (passed a) = inl (a, refl)
Step-cases (refused e) = inr (e, refl)

pub refused≢passed {ℓ} : {A : Type ℓ} (e : ProofError) (a : A) → refused e ≢ passed a
refused≢passed e a h = cc

pub passed_injective {ℓ} : {A : Type ℓ} (a b : A) → Step.passed a ≡ passed b → a ≡ b
passed_injective a b h = cc

-- What a chain that passes went through.
pub >>=-passed {ℓ κ} :
    {A : Type ℓ} {B : Type κ} (m : Step A) (f : A → Step B) {b : B}
    → (m >>= f) ≡ passed b
    → (a : A) × (m ≡ passed a) × (f a ≡ passed b)
>>=-passed (passed a) f h = (a, refl, h)
>>=-passed (refused e) f h = cc

pub refuse_if-passed {ℓ} :
    (c : Bool) (e : ProofError) {B : Type ℓ} (k : Step B) {b : B}
    → (refuse_if c e >> k) ≡ passed b
    → (c ≡ false) × (k ≡ passed b)
refuse_if-passed true e k h = cc
refuse_if-passed false e k h = (refl, h)

pub refuse_if_last :
    (c : Bool) (e : ProofError) {u : Unit {0}} → refuse_if c e ≡ passed u → c ≡ false
refuse_if_last true e h = cc
refuse_if_last false e h = refl

pub or_refuse-passed {ℓ κ} :
    {A : Type ℓ} {B : Type κ} (o : Option A) (e : ProofError) (f : A → Step B) {b : B}
    → (or_refuse o e >>= f) ≡ passed b
    → (a : A) × (o ≡ some a) × (f a ≡ passed b)
or_refuse-passed none e f h = cc
or_refuse-passed (some a) e f h = (a, refl, h)

-- A chain goes on with what a step passes.
pub >>=-on {ℓ κ} :
    {A : Type ℓ} {B : Type κ} {m : Step A} (f : A → Step B) {a : A} {b : Step B}
    → m ≡ passed a
    → f a ≡ b
    → (m >>= f) ≡ b
>>=-on f h k = rw h k

pub refuse_if-on {ℓ} :
    {c : Bool} (e : ProofError) {B : Type ℓ} {k b : Step B}
    → c ≡ false
    → k ≡ b
    → (refuse_if c e >> k) ≡ b
refuse_if-on e h k = rw h k

pub or_refuse-on {ℓ κ} :
    {A : Type ℓ} {B : Type κ} {o : Option A} (e : ProofError) (f : A → Step B) {a : A} {b : Step B}
    → o ≡ some a
    → f a ≡ b
    → (or_refuse o e >>= f) ≡ b
or_refuse-on e f h k = rw h k
