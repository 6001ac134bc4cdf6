-- ===== src/Scitt/Receipt.antt =====
-- verify/scitt/receipt.go, over the CBOR library and Go's crypto packages. Key lookup is a function:
-- KeyStore and RefreshableKeyStore both give one.
pub mod Accepted
use ans_sdk_go.Base.{
  ℕ, Bool, true, false, not, ◌==◌, nat_eq, bytes_eq, Option, none, some, List, [], ◌∷◌, length,
  if◌then◌else◌, Bytes,
}
use ans_sdk_go.Base.Int.{ℤ, pos, negsuc, int_eq}
use ans_sdk_go.Base.Table.{lookup}
use ans_sdk_go.Scitt.Errors.{
  Checked, good, bad, cose, sig, invalid_protected_header, invalid_unprotected_header,
  issuer_mismatch, ◌>>=◌, ◌>>◌, fail_if, or_fail, of_merkle,
}
use ans_sdk_go.Scitt.Merkle.{walk_inclusion_path}
use ans_sdk_go.Scitt.RootKeys.{Crypto, TrustedKey}
use ans_sdk_go.Scitt.Cose.{
  Cbor, ParsedCoseSign1, ProtectedHeader, parse_cose_sign1, verify_ecdsa, hash_len,
}

abbrev pub KeyLookup : Type 0
KeyLookup = Bytes → Checked TrustedKey

pub record VerifiedReceipt : Type 0 where
  pub tree_size : ℕ
  pub leaf_index : ℕ
  pub root_hash : Bytes
  pub event_bytes : Bytes
  pub key_id : Bytes
  pub iss : Option Bytes
  pub iat : Option ℤ

abbrev pub vds_rfc9162 : ℤ
vds_rfc9162 = pos 1

unfoldable pub validate_vds : Option ℤ → Checked (Unit {0})
validate_vds none = bad (cose invalid_protected_header)
validate_vds (some vds) = fail_if (not (vds == vds_rfc9162)) (cose invalid_protected_header)

unfoldable pub verify_issuer_binding : Option Bytes → TrustedKey → Checked (Unit {0})
verify_issuer_binding none key = good tt
verify_issuer_binding (some iss) key = fail_if (not (iss == key.name)) (sig issuer_mismatch key.kid)

module _ (cbor : Cbor) where
  -- The loop over the elements of the inclusion path.
  unfoldable pub read_hashes : List Bytes → Checked (List Bytes)
  read_hashes [] = good []
  read_hashes (raw ∷ raws) = do
    hash ← or_fail (cbor.byte_string raw) (cose invalid_unprotected_header)
    fail_if (not (length hash == hash_len)) (cose invalid_unprotected_header)
    hashes ← read_hashes raws
    good (hash ∷ hashes)

  unfoldable pub read_path : Option Bytes → Checked (List Bytes)
  read_path none = good []
  read_path (some path_raw) = do
    raw_hashes ← or_fail (cbor.array path_raw) (cose invalid_unprotected_header)
    read_hashes raw_hashes

  -- The tree size, the leaf index and the path.
  unfoldable pub extract_vdp : Bytes → Checked (ℕ × ℕ × List Bytes)
  extract_vdp unprotected = do
    unprotected_map ← or_fail (cbor.int_map unprotected) (cose invalid_unprotected_header)
    vdp_raw ← or_fail (lookup (pos 396) unprotected_map) (cose invalid_unprotected_header)
    vdp_map ← or_fail (cbor.int_map vdp_raw) (cose invalid_unprotected_header)
    size_raw ← or_fail (lookup (negsuc 0) vdp_map) (cose invalid_unprotected_header)
    tree_size ← or_fail (cbor.uint64 size_raw) (cose invalid_unprotected_header)
    index_raw ← or_fail (lookup (negsuc 1) vdp_map) (cose invalid_unprotected_header)
    leaf_index ← or_fail (cbor.uint64 index_raw) (cose invalid_unprotected_header)
    hash_path ← read_path (lookup (negsuc 2) vdp_map)
    good (tree_size, leaf_index, hash_path)

  module _ (crypto : Crypto) where
    unfoldable pub verify_inclusion_proof : ParsedCoseSign1 → Checked (ℕ × ℕ × Bytes)
    verify_inclusion_proof parsed = do
      (tree_size, leaf_index, hash_path) ← extract_vdp parsed.unprotected
      root_hash ←
          of_merkle
            (walk_inclusion_path crypto.sha256 parsed.payload leaf_index tree_size hash_path)
      good (tree_size, leaf_index, root_hash)

    unfoldable pub verify_receipt : Bytes → KeyLookup → Checked VerifiedReceipt
    verify_receipt receipt_bytes keys = do
      parsed ← parse_cose_sign1 cbor receipt_bytes
      validate_vds parsed.protected.vds
      trusted_key ← keys parsed.protected.kid
      verify_ecdsa cbor crypto trusted_key.key parsed.protected_bytes parsed.payload
          parsed.signature parsed.protected.kid
      verify_issuer_binding parsed.protected.cwt_iss trusted_key
      (tree_size, leaf_index, root_hash) ← verify_inclusion_proof parsed
      good (record {
        tree_size = tree_size;
        leaf_index = leaf_index;
        root_hash = root_hash;
        event_bytes = parsed.payload;
        key_id = parsed.protected.kid;
        iss = parsed.protected.cwt_iss;
        iat = parsed.protected.cwt_iat;
      })
