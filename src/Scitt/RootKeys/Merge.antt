-- ===== src/Scitt/RootKeys/Merge.antt =====
-- What merging keys into a store keeps, and what it counts.
use ans_sdk_go.Base.{
  ℕ, ◌+◌, ◌≤◌, ◌≡◌, refl, sym, ap, arith, Option, none, false, some, List, [], ◌∷◌, ◌++◌, length,
  length-append, Bytes, bytes_eq, Option-cases, inl, inr,
}
use mathlib.Core.Path.{subst}
use ans_sdk_go.Base.Table.{lookup, insert, lookup-insert, length-insert_new}
use ans_sdk_go.Base.Text.Hex.{encode_hex}
use ans_sdk_go.Scitt.Errors.{good, good_injective, Checked-cases, >>=-good, fail_if-good}
use ans_sdk_go.Scitt.RootKeys.{
  Crypto, TrustedKey, KeyTable, KeyStore, MergeResult, no_result, len, parse_c2sp_key, merge_key,
  merge_keys, merge_from, add_all, new_key_store, is_some, count_added,
}

absent : {A : Type 0} (o : Option A) → is_some o ≡ false → o ≡ none
absent none h = refl
absent (some a) h = cc

module _ (crypto : Crypto) where
  merge_key-keeps :
      (state : KeyTable × MergeResult) (ks kid : Bytes) (tk : TrustedKey)
      → lookup kid state.0 ≡ some tk
      → lookup kid (merge_key crypto state ks).0 ≡ some tk
  unfolding merge_key
  merge_key-keeps (merged, r) ks kid tk h = elim (Checked-cases (parse_c2sp_key crypto ks)) [
    | inr (e, k) ↦ rw (k, merge_key) h
    | inl (new, k) ↦ elim (Option-cases (lookup new.kid merged)) [
      | inr (old, m) ↦ rw (k, merge_key) (rw m h)
      | inl m ↦
          rw (k, merge_key)
            (rw m (
              ground (arith, lookup-insert new.kid kid new merged, bytes_eq.equal_iff new.kid kid)))
    ]
  ]

  merge_keys-keeps :
      (state : KeyTable × MergeResult) (strings : List Bytes) (kid : Bytes) (tk : TrustedKey)
      → lookup kid state.0 ≡ some tk
      → lookup kid (merge_keys crypto state strings).0 ≡ some tk
  unfolding merge_keys
  merge_keys-keeps state [] kid tk h = h
  merge_keys-keeps state (ks ∷ strings) kid tk h =
      merge_keys-keeps (merge_key crypto state ks) strings kid tk
        (merge_key-keeps state ks kid tk h)

  -- A key that a store has is what the merged store has under its key ID, whatever is merged in.
  pub merge_from-keeps :
      (s : KeyStore) (key_strings : List Bytes) (kid : Bytes) (tk : TrustedKey)
      → lookup kid s.keys ≡ some tk
      → lookup kid (merge_from crypto s key_strings).0.keys ≡ some tk
  unfolding merge_from
  merge_from-keeps s key_strings kid tk h =
      merge_keys-keeps (s.keys, no_result) key_strings kid tk h

  -- The counters of a merge, against the length of the table it began with.
  abbrev Counts : ℕ → ℕ → KeyTable × MergeResult → Type 0
  Counts start rounds (merged, r) =
      (length merged ≡ start + r.added)
      × (r.added + r.skipped ≡ rounds)
      × (r.skipped ≡ r.skipped_unparseable + r.skipped_duplicate)
      × (length r.collisions ≤ r.skipped_duplicate)

  merge_key-Counts :
      (start rounds : ℕ) (state : KeyTable × MergeResult) (ks : Bytes)
      → Counts start rounds state
      → Counts start (rounds + 1) (merge_key crypto state ks)
  unfolding merge_key
  merge_key-Counts start rounds (merged, r) ks h = elim (Checked-cases (parse_c2sp_key crypto ks)) [
    | inr (e, k) ↦ rw (k, merge_key) (ground arith)
    | inl (new, k) ↦ elim (Option-cases (lookup new.kid merged)) [
      | inr (old, m) ↦
          rw (k, merge_key)
            (rw m (ground (arith, length-append r.collisions (encode_hex new.kid ∷ []))))
      | inl m ↦ rw (k, merge_key) (rw m (ground (arith, length-insert_new new.kid new merged m)))
    ]
  ]

  merge_keys-Counts :
      (start rounds : ℕ) (state : KeyTable × MergeResult) (strings : List Bytes)
      → Counts start rounds state
      → Counts start (rounds + length strings) (merge_keys crypto state strings)
  unfolding merge_keys
  merge_keys-Counts start rounds state [] h = ground arith
  merge_keys-Counts start rounds state (ks ∷ strings) h =
      subst (λ n. Counts start n (merge_keys crypto (merge_key crypto state ks) strings))
        (omega arith)
        (merge_keys-Counts start (rounds + 1) (merge_key crypto state ks) strings
          (merge_key-Counts start rounds state ks h))

  -- Merging adds as many keys as it reports, each string is added or skipped once, each skipped one
  -- for one of the two reasons, and collisions are among the duplicates.
  pub merge_from-counts :
      (s : KeyStore) (key_strings : List Bytes)
      → let (merged, r) = merge_from crypto s key_strings in
        (len merged ≡ len s + r.added)
        × (r.added + r.skipped ≡ length key_strings)
        × (r.skipped ≡ r.skipped_unparseable + r.skipped_duplicate)
        × (length r.collisions ≤ r.skipped_duplicate)
  unfolding merge_from len
  merge_from-counts s key_strings =
      subst (λ n. Counts (len s) n (merge_keys crypto (s.keys, no_result) key_strings))
        (omega arith) (merge_keys-Counts (len s) 0 (s.keys, no_result) key_strings (ground arith))

  merge_key-learns :
      (state : KeyTable × MergeResult) (ks : Bytes) (tk : TrustedKey)
      → parse_c2sp_key crypto ks ≡ good tk
      → (held : TrustedKey) × (lookup tk.kid (merge_key crypto state ks).0 ≡ some held)
  unfolding merge_key
  merge_key-learns (merged, r) ks tk k = elim (Option-cases (lookup tk.kid merged)) [
    | inr (old, m) ↦ (old, rw (k, merge_key) (rw m m))
    | inl m ↦ (
      tk,
      rw (k, merge_key)
          (rw m (
            ground
              (arith, lookup-insert tk.kid tk.kid tk merged, bytes_eq.equal_iff tk.kid tk.kid))),
    )
  ]

  merge_keys-learns :
      (state : KeyTable × MergeResult) (earlier later : List Bytes) (ks : Bytes) (tk : TrustedKey)
      → parse_c2sp_key crypto ks ≡ good tk
      → (held : TrustedKey) × (lookup tk.kid (merge_keys crypto state (earlier ++ ks ∷ later)).0
          ≡ some held)
  unfolding merge_keys
  merge_keys-learns state [] later ks tk k =
      let (held, m) = merge_key-learns state ks tk k in
      (held, merge_keys-keeps (merge_key crypto state ks) later tk.kid held m)
  merge_keys-learns state (first ∷ earlier) later ks tk k =
      merge_keys-learns (merge_key crypto state first) earlier later ks tk k

  pub merge_from-learns :
      (s : KeyStore) (earlier later : List Bytes) (ks : Bytes) (tk : TrustedKey)
      → parse_c2sp_key crypto ks ≡ good tk
      → (held : TrustedKey) × (lookup tk.kid (merge_from crypto s (earlier ++ ks ∷ later)).0.keys
          ≡ some held)
  unfolding merge_from
  merge_from-learns s earlier later ks tk k =
      merge_keys-learns (s.keys, no_result) earlier later ks tk k

  merge_key-new :
      (merged : KeyTable) (r : MergeResult) (ks : Bytes) (tk : TrustedKey)
      → parse_c2sp_key crypto ks ≡ good tk
      → lookup tk.kid merged ≡ none
      → merge_key crypto (merged, r) ks ≡ (insert tk.kid tk merged, count_added crypto r)
  unfolding merge_key
  merge_key-new merged r ks tk k m = rw (k, merge_key) (rw m)

  -- Merging the strings into the state gives the keys of a store, and skips no string.
  abbrev TakesAll : List Bytes → KeyStore → ℕ → KeyTable × MergeResult → Type 0
  TakesAll strings s skipped state =
      ((merge_keys crypto state strings).0 ≡ s.keys)
      × ((merge_keys crypto state strings).1.skipped ≡ skipped)

  -- The keys that NewKeyStore takes in are those that a merge into their table takes in.
  add_all-merge_keys :
      (table : KeyTable) (r : MergeResult) (strings : List Bytes) (s : KeyStore)
      → add_all crypto table strings ≡ good s
      → TakesAll strings s r.skipped (table, r)
  unfolding add_all merge_keys
  add_all-merge_keys table r [] s h = (ap (λ x. x.keys) (good_injective _ s h), refl)
  add_all-merge_keys table r (ks ∷ strings) s h =
      let parsed = >>=-good (parse_c2sp_key crypto ks) _ h in
      let new = fail_if-good (is_some (lookup parsed.0.kid table)) _ _ parsed.2 in
      subst (TakesAll strings s r.skipped)
        (sym
          (merge_key-new table r ks parsed.0 parsed.1 (absent (lookup parsed.0.kid table) new.0)))
        (add_all-merge_keys (insert parsed.0.kid parsed.0 table) (count_added crypto r) strings s
          new.1)

  -- A store that NewKeyStore makes of some strings is the one that merging them into an empty store
  -- makes, with no string skipped.
  pub new_key_store-merge_from :
      (strings : List Bytes) (s : KeyStore)
      → new_key_store crypto strings ≡ good s
      → ((merge_from crypto (record { keys = [] }) strings).0 ≡ s)
        × ((merge_from crypto (record { keys = [] }) strings).1.skipped ≡ 0)
  unfolding new_key_store merge_from
  new_key_store-merge_from strings s h =
      let (same, none_skipped) = add_all-merge_keys [] no_result strings s h in
      (ap (λ t. record { keys = t }) same, none_skipped)
