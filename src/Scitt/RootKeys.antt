-- ===== src/Scitt/RootKeys.antt =====
-- verify/scitt/root_keys.go. A Go map is an association list, a `[4]byte` a list of four bytes. The
-- functions of Go's crypto packages are the record Crypto.
pub mod Merge
pub mod Authentic
use ans_sdk_go.Base.{
  ℕ, ◌+◌, Bool, true, false, not, ◌==◌, nat_eq, bytes_eq, Option, none, some, List, [], ◌∷◌, ◌++◌,
  length, take, if◌then◌else◌, Bytes,
}
use ans_sdk_go.Base.Table.{lookup, insert}
use ans_sdk_go.Base.Text.{split_n}
use ans_sdk_go.Base.Text.Hex.{decode_hex, encode_hex}
use ans_sdk_go.Base.Text.Base64.{decode_base64}
use ans_sdk_go.Scitt.Errors.{
  Checked, good, bad, Failure, sig, invalid_key_format, invalid_public_key, key_hash_mismatch,
  unknown_key_id, ◌>>=◌, ◌>>◌, fail_if, or_fail,
}

-- What x509.ParsePKIXPublicKey returns: the key is kept as its bytes.
pub data PublicKey : Type 0 where
  p256 : Bytes → PublicKey
  other_curve other_algorithm : PublicKey

-- crypto/sha256, crypto/x509 and crypto/ecdsa. The two forms of a signature are ASN.1 and the pair
-- of its halves.
pub record Crypto : Type 0 where
  pub sha256 : Bytes → Bytes
  pub parse_pkix_public_key : Bytes → Option PublicKey
  pub verify_asn1 : (key digest signature : Bytes) → Bool
  pub verify_pair : (key digest r s : Bytes) → Bool

pub record TrustedKey : Type 0 where
  pub name : Bytes
  pub kid : Bytes
  pub key : Bytes

abbrev pub c2sp_key_parts : ℕ
c2sp_key_parts = 3

abbrev pub c2sp_kid_len : ℕ
c2sp_kid_len = 4

-- The Kid field of an error that sets none.
abbrev pub no_kid : Bytes
no_kid = 0 ∷ 0 ∷ 0 ∷ 0 ∷ []

abbrev pub three_parts : List Bytes → Option (Bytes × Bytes × Bytes)
three_parts (a ∷ b ∷ c ∷ []) = some (a, b, c)
three_parts parts = none

abbrev pub strip_type_byte : Bytes → Bytes
strip_type_byte [] = []
strip_type_byte (b ∷ bs) = if b == 2 then bs else b ∷ bs

abbrev pub p256_key : PublicKey → Option Bytes
p256_key (p256 key) = some key
p256_key k = none

abbrev pub KeyTable : Type 0
KeyTable = List (Bytes × TrustedKey)

pub record KeyStore : Type 0 where
  pub keys : KeyTable

unfoldable pub get : KeyStore → Bytes → Checked TrustedKey
get s kid = or_fail (lookup kid s.keys) (sig unknown_key_id kid)

unfoldable pub len : KeyStore → ℕ
len s = length s.keys

unfoldable pub is_empty : KeyStore → Bool
is_empty s = len s == 0

pub record MergeResult : Type 0 where
  pub added : ℕ
  pub skipped : ℕ
  pub skipped_unparseable : ℕ
  pub skipped_duplicate : ℕ
  pub collisions : List Bytes

abbrev pub no_result : MergeResult
no_result = record {
  added = 0;
  skipped = 0;
  skipped_unparseable = 0;
  skipped_duplicate = 0;
  collisions = [];
}

abbrev pub is_some {ℓ} : {A : Type ℓ} → Option A → Bool
is_some none = false
is_some (some a) = true

module _ (crypto : Crypto) where
  -- The checks of the parts of a key.
  unfoldable pub key_of_parts : (name kid_hex spki_text : Bytes) → Checked TrustedKey
  key_of_parts name kid_hex spki_text = do
    fail_if (name == []) (sig invalid_key_format no_kid)
    kid ← or_fail (decode_hex kid_hex) (sig invalid_key_format no_kid)
    fail_if (not (length kid == c2sp_kid_len)) (sig invalid_key_format no_kid)
    spki_raw ← or_fail (decode_base64 spki_text) (sig invalid_key_format no_kid)
    let spki_der = strip_type_byte spki_raw
    parsed ← or_fail (crypto.parse_pkix_public_key spki_der) (sig invalid_public_key no_kid)
    ec_key ← or_fail (p256_key parsed) (sig invalid_public_key no_kid)
    fail_if (not (take c2sp_kid_len (crypto.sha256 spki_der) == kid)) (sig key_hash_mismatch kid)
    good (record { name = name; kid = kid; key = ec_key })

  unfoldable pub parse_c2sp_key : Bytes → Checked TrustedKey
  parse_c2sp_key s = do
    (name, kid_hex, spki_text) ←
        or_fail (three_parts (split_n b'+' c2sp_key_parts s)) (sig invalid_key_format no_kid)
    key_of_parts name kid_hex spki_text

  -- The loop of NewKeyStore.
  unfoldable pub add_all : KeyTable → List Bytes → Checked KeyStore
  add_all table [] = good (record { keys = table })
  add_all table (s ∷ strings) = do
    tk ← parse_c2sp_key s
    fail_if (is_some (lookup tk.kid table)) (sig invalid_key_format tk.kid)
    add_all (insert tk.kid tk table) strings

  unfoldable pub new_key_store : List Bytes → Checked KeyStore
  new_key_store key_strings = add_all [] key_strings

  abbrev pub count_unparseable : MergeResult → MergeResult
  count_unparseable r = record r {
    skipped_unparseable = r.skipped_unparseable + 1;
    skipped = r.skipped + 1;
  }

  abbrev pub count_duplicate : TrustedKey → TrustedKey → MergeResult → MergeResult
  count_duplicate existing tk r = record r {
    collisions =
        if existing.name == tk.name then r.collisions else r.collisions ++ encode_hex tk.kid ∷ [];
    skipped_duplicate = r.skipped_duplicate + 1;
    skipped = r.skipped + 1;
  }

  abbrev pub count_added : MergeResult → MergeResult
  count_added r = record r { added = r.added + 1 }

  -- A round of the loop of MergeFrom.
  unfoldable pub merge_key : KeyTable × MergeResult → Bytes → KeyTable × MergeResult
  merge_key (merged, r) ks = elim (parse_c2sp_key ks) [
    | bad e ↦ (merged, count_unparseable r)
    | good tk ↦ elim (lookup tk.kid merged) [
      | some existing ↦ (merged, count_duplicate existing tk r)
      | none ↦ (insert tk.kid tk merged, count_added r)
    ]
  ]

  unfoldable pub merge_keys : KeyTable × MergeResult → List Bytes → KeyTable × MergeResult
  merge_keys state [] = state
  merge_keys state (ks ∷ strings) = merge_keys (merge_key state ks) strings

  unfoldable pub merge_from : KeyStore → List Bytes → KeyStore × MergeResult
  merge_from s key_strings =
      let (merged, r) = merge_keys (s.keys, no_result) key_strings in (record { keys = merged }, r)
