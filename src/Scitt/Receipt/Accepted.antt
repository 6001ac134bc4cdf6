-- ===== src/Scitt/Receipt/Accepted.antt =====
-- What an accepted receipt says.
use ans_sdk_go.Base.{
  passed_number, ◌≡◌, refl, ap, not, ◌==◌, inl, inr, ◌⊎◌, Option, none, some, List, [], ◌∷◌, length,
  ℕ, Bytes, take, drop, nat_eq, bytes_eq, passed_equal, Bool, true, false, arith,
}
use mathlib.Core.Path.{subst}
use ans_sdk_go.Base.Int.{ℤ, pos, negsuc, int_eq}
use ans_sdk_go.Base.Table.{lookup}
use ans_sdk_go.Scitt.Errors.{
  good, good_injective, >>=-good, fail_if-good, fail_if_last, or_fail-good, of_merkle-good,
}
use ans_sdk_go.Scitt.Merkle.{walk_inclusion_path, ok}
use ans_sdk_go.Scitt.Merkle.Binding.{AllHashes}
use ans_sdk_go.Scitt.RootKeys.{Crypto, TrustedKey}
use ans_sdk_go.Scitt.Cose.{
  Cbor, ParsedCoseSign1, parse_cose_sign1, verify_ecdsa, compute_sig_structure_digest, hash_len,
}
use ans_sdk_go.Scitt.Receipt.{
  KeyLookup, VerifiedReceipt, validate_vds, verify_issuer_binding, read_hashes, read_path,
  extract_vdp, verify_inclusion_proof, verify_receipt,
}

is_true : {b : Bool} → not b ≡ false → b ≡ true
is_true {b} h = ground arith

passed_int : (a b : ℤ) → not (a == b) ≡ false → a ≡ b
passed_int a b h = ground (arith, int_eq.equal_iff a b)

module _ (cbor : Cbor) where
  read_hashes-AllHashes :
      (raws hashes : List Bytes) → read_hashes cbor raws ≡ good hashes → AllHashes hashes
  unfolding read_hashes
  read_hashes-AllHashes [] hashes h = subst AllHashes (good_injective [] hashes h) tt
  read_hashes-AllHashes (raw ∷ raws) hashes h =
      let hash = or_fail-good (cbor.byte_string raw) _ _ h in
      let wide = fail_if-good (not (length hash.0 == hash_len)) _ _ hash.2 in
      let rest = >>=-good (read_hashes cbor raws) _ wide.1 in
      subst AllHashes (good_injective (hash.0 ∷ rest.0) hashes rest.2)
        (passed_number (length hash.0) hash_len wide.0, read_hashes-AllHashes raws rest.0 rest.1)

  read_path-AllHashes :
      (raw : Option Bytes) (hashes : List Bytes)
      → read_path cbor raw ≡ good hashes
      → AllHashes hashes
  unfolding read_path
  read_path-AllHashes none hashes h = subst AllHashes (good_injective [] hashes h) tt
  read_path-AllHashes (some raw) hashes h =
      let raws = or_fail-good (cbor.array raw) _ _ h in read_hashes-AllHashes raws.0 hashes raws.2

  -- Every element of the path that is read has the length of a hash.
  pub extract_vdp-AllHashes :
      (unprotected : Bytes) (size index : ℕ) (path : List Bytes)
      → extract_vdp cbor unprotected ≡ good (size, index, path)
      → AllHashes path
  unfolding extract_vdp
  extract_vdp-AllHashes unprotected size index path h =
      let map' = or_fail-good (cbor.int_map unprotected) _ _ h in
      let vdp_raw = or_fail-good (lookup (pos 396) map'.0) _ _ map'.2 in
      let vdp = or_fail-good (cbor.int_map vdp_raw.0) _ _ vdp_raw.2 in
      let size_raw = or_fail-good (lookup (negsuc 0) vdp.0) _ _ vdp.2 in
      let size' = or_fail-good (cbor.uint64 size_raw.0) _ _ size_raw.2 in
      let index_raw = or_fail-good (lookup (negsuc 1) vdp.0) _ _ size'.2 in
      let index' = or_fail-good (cbor.uint64 index_raw.0) _ _ index_raw.2 in
      let path' = >>=-good (read_path cbor (lookup (negsuc 2) vdp.0)) _ index'.2 in
      subst AllHashes (ap (λ x. x.2) (good_injective _ (size, index, path) path'.2))
        (read_path-AllHashes (lookup (negsuc 2) vdp.0) path'.0 path'.1)

  module _ (crypto : Crypto) where
    -- The signature verifies under the key, over the protected header and the payload.
    abbrev pub IsVerified : ParsedCoseSign1 → TrustedKey → Type 0
    IsVerified parsed key =
        (digest : Bytes) × (compute_sig_structure_digest cbor crypto parsed.protected_bytes
            parsed.payload
          ≡ some digest)
        × (crypto.verify_pair key.key digest (take hash_len parsed.signature)
              (take hash_len (drop hash_len parsed.signature))
            ≡ true)

    abbrev pub IsIssuer : Option Bytes → TrustedKey → Type 0
    IsIssuer iss key = (iss ≡ none) ⊎ (iss ≡ some key.name)

    pub verify_ecdsa-IsVerified :
        (parsed : ParsedCoseSign1) (key : TrustedKey) (kid : Bytes) {u : Unit {0}}
        → verify_ecdsa cbor crypto key.key parsed.protected_bytes parsed.payload parsed.signature
            kid
          ≡ good u
        → IsVerified parsed key
    unfolding verify_ecdsa
    verify_ecdsa-IsVerified parsed key kid h =
        let digest =
          or_fail-good
            (compute_sig_structure_digest cbor crypto parsed.protected_bytes parsed.payload) _ _
            h in
        (
          digest.0,
          digest.1,
          is_true (
              fail_if_last
                (not (
                  crypto.verify_pair key.key digest.0 (take hash_len parsed.signature)
                    (take hash_len (drop hash_len parsed.signature))))
                _ digest.2),
        )

    verify_issuer_binding-IsIssuer :
        (iss : Option Bytes) (key : TrustedKey) {u : Unit {0}}
        → verify_issuer_binding iss key ≡ good u
        → IsIssuer iss key
    unfolding verify_issuer_binding
    verify_issuer_binding-IsIssuer none key h = inl refl
    verify_issuer_binding-IsIssuer (some iss) key h =
        inr (ap some (passed_equal iss key.name (fail_if_last (not (iss == key.name)) _ h)))

    validate_vds-one :
        (vds : Option ℤ) {u : Unit {0}} → validate_vds vds ≡ good u → vds ≡ some (pos 1)
    unfolding validate_vds
    validate_vds-one none h = cc
    validate_vds-one (some vds) h =
        ap some (passed_int vds (pos 1) (fail_if_last (not (vds == pos 1)) _ h))

    -- The receipt is signed by a trusted key, its issuer, if it names one, is the name of that key,
    -- and its root is where the inclusion proof leads from the event that is signed.
    abbrev pub IsReceipt : Bytes → KeyLookup → VerifiedReceipt → Type 0
    IsReceipt receipt_bytes keys r =
        (parsed : ParsedCoseSign1) × (key : TrustedKey) × (path : List Bytes) × (parse_cose_sign1
            cbor receipt_bytes
          ≡ good parsed)
        × (parsed.protected.vds ≡ some (pos 1))
        × (keys r.key_id ≡ good key)
        × IsVerified parsed key
        × IsIssuer r.iss key
        × (parsed.payload ≡ r.event_bytes)
        × (parsed.protected.kid ≡ r.key_id)
        × AllHashes path
        × (walk_inclusion_path crypto.sha256 r.event_bytes r.leaf_index r.tree_size path
            ≡ ok r.root_hash)

    verify_inclusion_proof-walk :
        (parsed : ParsedCoseSign1) (o : ℕ × ℕ × Bytes)
        → verify_inclusion_proof cbor crypto parsed ≡ good o
        → (path : List Bytes) × AllHashes path
          × (walk_inclusion_path crypto.sha256 parsed.payload o.1 o.0 path ≡ ok o.2)
    unfolding verify_inclusion_proof
    verify_inclusion_proof-walk parsed o h =
        let vdp = >>=-good (extract_vdp cbor parsed.unprotected) _ h in
        let (size, index, path) = vdp.0 in
        let root =
          of_merkle-good (walk_inclusion_path crypto.sha256 parsed.payload index size path) _
            vdp.2 in
        subst
          (λ o.
            (path : List Bytes) × AllHashes path
            × (walk_inclusion_path crypto.sha256 parsed.payload o.1 o.0 path ≡ ok o.2))
          (good_injective (size, index, root.0) o root.2)
          (path, extract_vdp-AllHashes parsed.unprotected size index path vdp.1, root.1)

    -- An accepted receipt has the structure of RFC 9162 receipts and was signed, over its protected
    -- header and its event, by the trusted key that its key ID names; its issuer, if it names one, is
    -- the name of that key; and its root is the one that a path of 32-byte hashes leads to from the
    -- event, at its leaf index and tree size.
    pub verify_receipt-IsReceipt :
        (receipt_bytes : Bytes) (keys : KeyLookup) (r : VerifiedReceipt)
        → verify_receipt cbor crypto receipt_bytes keys ≡ good r
        → IsReceipt receipt_bytes keys r
    unfolding verify_receipt
    verify_receipt-IsReceipt receipt_bytes keys r h =
        let parsed = >>=-good (parse_cose_sign1 cbor receipt_bytes) _ h in
        let p = parsed.0 in
        let tree = >>=-good (validate_vds p.protected.vds) _ parsed.2 in
        let key = >>=-good (keys p.protected.kid) _ tree.2 in
        let signed =
          >>=-good
            (verify_ecdsa cbor crypto key.0.key p.protected_bytes p.payload p.signature
              p.protected.kid)
            _ key.2 in
        let own = >>=-good (verify_issuer_binding p.protected.cwt_iss key.0) _ signed.2 in
        let proof = >>=-good (verify_inclusion_proof cbor crypto p) _ own.2 in
        let (path, wide, walk) = verify_inclusion_proof-walk p proof.0 proof.1 in
        subst (IsReceipt receipt_bytes keys) (good_injective _ r proof.2) (
          p,
          key.0,
          path,
          parsed.1,
          validate_vds-one p.protected.vds tree.1,
          key.1,
          verify_ecdsa-IsVerified p key.0 p.protected.kid signed.1,
          verify_issuer_binding-IsIssuer p.protected.cwt_iss key.0 own.1,
          refl,
          refl,
          wide,
          walk,
        )
