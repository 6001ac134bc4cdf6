-- ===== src/Scitt/RootKeys/Authentic.antt =====
-- Every key that a store holds was checked against its key ID.
use ans_sdk_go.Base.{
  passed_unequal, passed_equal, ◌≡◌, ◌≢◌, refl, sym, ◌∙◌, Option, beq_true→eq, some, not, List, [],
  ◌∷◌, length, take, Bytes, bytes_eq, nat_eq, ◌==◌, Option-cases, Bool-cases, inl, inr, arith, ap,
}
use mathlib.Core.Path.{subst}
use ans_sdk_go.Base.Table.{lookup, insert, lookup-insert}
use ans_sdk_go.Base.Text.{split_n}
use ans_sdk_go.Base.Text.Hex.{decode_hex}
use ans_sdk_go.Base.Text.Base64.{decode_base64}
use ans_sdk_go.Scitt.Errors.{
  good, good_injective, Checked-cases, >>=-good, fail_if-good, or_fail-good,
}
use ans_sdk_go.Scitt.RootKeys.{
  Crypto, PublicKey, p256, p256_key, three_parts, is_some, strip_type_byte, TrustedKey, KeyTable,
  KeyStore, MergeResult, no_result, key_of_parts, parse_c2sp_key, merge_key, merge_keys, merge_from,
  add_all, new_key_store,
}

p256_key-some : (k : PublicKey) (key : Bytes) → p256_key k ≡ some key → k ≡ p256 key
p256_key-some (p256 x) key h = cc
p256_key-some PublicKey.other_curve key h = cc
p256_key-some PublicKey.other_algorithm key h = cc

some_injective : {A : Type 0} (a b : A) → Option.some a ≡ some b → a ≡ b
some_injective a b h = cc

none_not_some : {A : Type 0} (a : A) → Option.none ≢ some a
none_not_some a h = cc

module _ (crypto : Crypto) where
  -- A named P-256 key, whose key ID is the start of the hash of its encoding.
  abbrev pub IsGenuine : Bytes → TrustedKey → Type 0
  IsGenuine kid tk =
      (der : Bytes) × (crypto.parse_pkix_public_key der ≡ some (p256 tk.key))
      × (take 4 (crypto.sha256 der) ≡ kid)
      × (tk.kid ≡ kid)
      × (length kid ≡ 4)
      × (tk.name ≢ [])

  pub parse_c2sp_key-IsGenuine :
      (s : Bytes) (tk : TrustedKey) → parse_c2sp_key crypto s ≡ good tk → IsGenuine tk.kid tk
  unfolding parse_c2sp_key key_of_parts
  parse_c2sp_key-IsGenuine s tk h =
      let a = or_fail-good (three_parts (split_n b'+' 3 s)) _ _ h in
      let (name, hex, text) = a.0 in
      let named = fail_if-good (name == []) _ _ a.2 in
      let kid = or_fail-good (decode_hex hex) _ _ named.1 in
      let short = fail_if-good (not (length kid.0 == 4)) _ _ kid.2 in
      let spki = or_fail-good (decode_base64 text) _ _ short.1 in
      let parsed =
        or_fail-good (crypto.parse_pkix_public_key (strip_type_byte spki.0)) _ _ spki.2 in
      let ec = or_fail-good (p256_key parsed.0) _ _ parsed.2 in
      let hashed =
        fail_if-good (not (take 4 (crypto.sha256 (strip_type_byte spki.0)) == kid.0)) _ _ ec.2 in
      subst (λ k. IsGenuine k.kid k) (good_injective _ tk hashed.1)
        (
          strip_type_byte spki.0,
          parsed.1 ∙ ap some (p256_key-some parsed.0 ec.0 ec.1),
          passed_equal (take 4 (crypto.sha256 (strip_type_byte spki.0))) kid.0 hashed.0,
          refl,
          beq_true→eq (length kid.0) 4 (ground arith),
          passed_unequal named.0,
        )

  -- Each key of a table is genuine under its index.
  abbrev pub IsAuthentic : KeyTable → Type 0
  IsAuthentic table =
      (kid : Bytes) (tk : TrustedKey) → lookup kid table ≡ some tk → IsGenuine kid tk

  IsAuthentic-insert :
      (table : KeyTable) (new : TrustedKey)
      → IsAuthentic table
      → IsGenuine new.kid new
      → IsAuthentic (insert new.kid new table)
  IsAuthentic-insert table new a g kid tk h = elim (Bool-cases (new.kid == kid)) [
    | inl e ↦
        subst (λ k. IsGenuine k tk) ((bytes_eq.equal_iff new.kid kid).0 e)
          (subst (IsGenuine new.kid)
            (some_injective new tk (sym (lookup-insert new.kid kid new table ∙ rw e) ∙ h)) g)
    | inr n ↦ a kid tk (sym (lookup-insert new.kid kid new table ∙ rw n) ∙ h)
  ]

  add_all-IsAuthentic :
      (table : KeyTable) (strings : List Bytes) (s : KeyStore)
      → IsAuthentic table
      → add_all crypto table strings ≡ good s
      → IsAuthentic s.keys
  unfolding add_all
  add_all-IsAuthentic table [] s a h = subst (λ x. IsAuthentic x.keys) (good_injective _ s h) a
  add_all-IsAuthentic table (text ∷ strings) s a h =
      let parsed = >>=-good (parse_c2sp_key crypto text) _ h in
      let new = fail_if-good (is_some (lookup parsed.0.kid table)) _ _ parsed.2 in
      add_all-IsAuthentic (insert parsed.0.kid parsed.0 table) strings s
        (IsAuthentic-insert table parsed.0 a (parse_c2sp_key-IsGenuine text parsed.0 parsed.1))
        new.1

  -- Every key of a store that NewKeyStore makes is a named P-256 key under a key ID of four bytes,
  -- which begin the hash of the encoding that the key was parsed from.
  pub new_key_store-IsAuthentic :
      (strings : List Bytes) (s : KeyStore)
      → new_key_store crypto strings ≡ good s
      → IsAuthentic s.keys
  unfolding new_key_store lookup
  new_key_store-IsAuthentic strings s h =
      add_all-IsAuthentic [] strings s (λ kid tk e. absurd (none_not_some tk e)) h

  merge_key-IsAuthentic :
      (state : KeyTable × MergeResult) (ks : Bytes)
      → IsAuthentic state.0
      → IsAuthentic (merge_key crypto state ks).0
  unfolding merge_key
  merge_key-IsAuthentic (merged, r) ks a = elim (Checked-cases (parse_c2sp_key crypto ks)) [
    | inr (e, k) ↦ rw (k, merge_key) a
    | inl (new, k) ↦ elim (Option-cases (lookup new.kid merged)) [
      | inr (old, m) ↦ rw (k, merge_key) (rw m a)
      | inl m ↦
          rw (k, merge_key)
            (rw m (IsAuthentic-insert merged new a (parse_c2sp_key-IsGenuine ks new k)))
    ]
  ]

  merge_keys-IsAuthentic :
      (state : KeyTable × MergeResult) (strings : List Bytes)
      → IsAuthentic state.0
      → IsAuthentic (merge_keys crypto state strings).0
  unfolding merge_keys
  merge_keys-IsAuthentic state [] a = a
  merge_keys-IsAuthentic state (ks ∷ strings) a =
      merge_keys-IsAuthentic (merge_key crypto state ks) strings (merge_key-IsAuthentic state ks a)

  pub merge_from-IsAuthentic :
      (s : KeyStore) (strings : List Bytes)
      → IsAuthentic s.keys
      → IsAuthentic (merge_from crypto s strings).0.keys
  unfolding merge_from
  merge_from-IsAuthentic s strings a = merge_keys-IsAuthentic (s.keys, no_result) strings a
