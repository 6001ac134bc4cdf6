-- ===== src/Scitt/Checkpoint.antt =====
-- verify/scitt/checkpoint.go. The note is a list of bytes, and the lines of its signature block are
-- checked in their order.
pub mod Signatures
pub mod Verified
pub mod Covered
use ans_sdk_go.Base.{
  ℕ, zero, suc, ◌*◌, ◌-◌, Bool, true, false, not, ◌&&◌, ◌||◌, ◌==◌, nat_eq, bytes_eq, Option, none,
  some, List, [], ◌∷◌, length, take, drop, ltb, leb, if◌then◌else◌, Bytes, codes,
}
use mathlib.Core.Option
use ans_sdk_go.Base.Text.{cut, cut_prefix, has_prefix, ends_with, trim_last, split, parse_uint64}
use ans_sdk_go.Base.Text.Base64.{decode_base64}
use ans_sdk_go.Base.Text.Utf8.{rune_width}
use ans_sdk_go.Scitt.Errors.{
  Checked, good, bad, sig, checkpoint, oversized_note, malformed, invalid_size, invalid_root_hash,
  size_mismatch, checkpoint_root_mismatch, issuer_mismatch, signature_invalid, unknown_key_id,
  ◌>>=◌, ◌>>◌, fail_if, or_fail,
}
use ans_sdk_go.Scitt.RootKeys.{Crypto, TrustedKey, c2sp_kid_len, no_kid}
use ans_sdk_go.Scitt.Cose.{hash_len, p1363_signature_len}
use ans_sdk_go.Scitt.Receipt.{KeyLookup, VerifiedReceipt}

abbrev pub max_checkpoint_note_size : ℕ
max_checkpoint_note_size = 64 * 1024

-- U+2014 and a space.
abbrev pub signature_prefix : Bytes
signature_prefix = 226 ∷ 128 ∷ 148 ∷ 32 ∷ []

abbrev pub jws_header_marker : Bytes
jws_header_marker = codes "eyJhbGciOi"

pub record Checkpoint : Type 0 where
  pub origin : Bytes
  pub size : ℕ
  pub root_hash : Bytes
  pub key_id : Bytes

unfoldable pub covers : Checkpoint → VerifiedReceipt → Checked (Unit {0})
covers c r = do
  fail_if (not (r.tree_size == c.size)) (checkpoint size_mismatch)
  fail_if (not (r.root_hash == c.root_hash)) (checkpoint checkpoint_root_mismatch)

pub record CheckpointSignature : Type 0 where
  pub name : Bytes
  pub kid : Bytes
  pub signature : Bytes

-- The loop of validateNoteText: the first number is the rest of the rune that was read last.
unfoldable pub is_note_text : ℕ → Bytes → Bool
is_note_text left [] = true
is_note_text (suc left) (c ∷ s) = is_note_text left s
is_note_text zero (c ∷ s) =
    let width = rune_width (c ∷ s) in
    elim (ltb c 32 && not (c == 10) || width == 0) [
      | true ↦ false
      | false ↦ is_note_text (width - 1) s
    ]

unfoldable pub validate_note_text : Bytes → Checked (Unit {0})
validate_note_text note = fail_if (not (is_note_text 0 note)) (checkpoint malformed)

-- The note at its first blank line: the body with its newline, and the block after it.
unfoldable pub cut_blank_line : Bytes → Option (Bytes × Bytes)
cut_blank_line [] = none
cut_blank_line (c ∷ []) = none
cut_blank_line (c ∷ d ∷ s) = elim (c == 10 && d == 10) [
  | true ↦ some (c ∷ [], s)
  | false ↦ Option.map (λ halves. (c ∷ halves.0, halves.1)) (cut_blank_line (d ∷ s))
]

unfoldable pub parse_signature_line : Bytes → Checked CheckpointSignature
parse_signature_line line = do
  rest ← or_fail (cut_prefix line signature_prefix) (checkpoint malformed)
  (name, b64) ← or_fail (cut 32 rest) (checkpoint malformed)
  fail_if (name == []) (checkpoint malformed)
  blob ← or_fail (decode_base64 b64) (checkpoint malformed)
  fail_if (leb (length blob) c2sp_kid_len) (checkpoint malformed)
  good (record { name = name; kid = take c2sp_kid_len blob; signature = drop c2sp_kid_len blob })

unfoldable pub parse_signature_lines : List Bytes → Checked (List CheckpointSignature)
parse_signature_lines [] = good []
parse_signature_lines (line ∷ lines) = do
  s ← parse_signature_line line
  sigs ← parse_signature_lines lines
  good (s ∷ sigs)

unfoldable pub split_checkpoint_note : Bytes → Checked (Bytes × List CheckpointSignature)
split_checkpoint_note note = do
  (body, block) ← or_fail (cut_blank_line note) (checkpoint malformed)
  fail_if (block == [] || not (ends_with 10 block)) (checkpoint malformed)
  sigs ← parse_signature_lines (split 10 (trim_last 10 block))
  good (body, sigs)

abbrev pub three_lines : List Bytes → Option (Bytes × Bytes × Bytes)
three_lines (a ∷ b ∷ c ∷ rest) = some (a, b, c)
three_lines lines = none

unfoldable pub parse_checkpoint_body : Bytes → Checked Checkpoint
parse_checkpoint_body body = do
  (origin, size_line, root_line) ←
      or_fail (three_lines (split 10 (trim_last 10 body))) (checkpoint malformed)
  fail_if (origin == []) (checkpoint malformed)
  size ← or_fail (parse_uint64 size_line) (checkpoint invalid_size)
  root ← or_fail (decode_base64 root_line) (checkpoint invalid_root_hash)
  fail_if (not (length root == hash_len)) (checkpoint invalid_root_hash)
  good (record { origin = origin; size = size; root_hash = root; key_id = no_kid })

unfoldable pub bind_checkpoint_signer : (origin signer : Bytes) → TrustedKey → Checked (Unit {0})
bind_checkpoint_signer origin signer key = do
  fail_if (not (signer == key.name)) (sig issuer_mismatch key.kid)
  fail_if (not (origin == key.name)) (sig issuer_mismatch key.kid)

-- The variables of the loop over the lines: the first key that verified, the first key ID that is
-- not known, and the first that has only an envelope.
pub record Seen : Type 0 where
  pub verified : Option Bytes
  pub unknown_kid : Option Bytes
  pub envelope_only : Option Bytes

abbrev pub first_seen : Option Bytes → Bytes → Option Bytes
first_seen (some kid) candidate = some kid
first_seen none candidate = some candidate

-- After the loop: the key ID of the checkpoint. With no line at all the source returns no error.
unfoldable pub conclude_lines : Option Bytes → Option Bytes → Option Bytes → Checked Bytes
conclude_lines (some kid) unknown_kid envelope_only = good kid
conclude_lines none (some kid) envelope_only = bad (sig unknown_key_id kid)
conclude_lines none none (some kid) = bad (sig signature_invalid kid)
conclude_lines none none none = good no_kid

module _ (crypto : Crypto) where
  unfoldable pub verify_checkpoint_signature : (key body signature : Bytes) → Bool
  verify_checkpoint_signature key body signature =
      crypto.verify_asn1 key (crypto.sha256 body) signature
      || length signature == p1363_signature_len
        && crypto.verify_pair key (crypto.sha256 body) (take hash_len signature)
            (drop hash_len signature)

  module _ (keys : KeyLookup) (origin body : Bytes) where
    -- A line under a known key.
    unfoldable pub examine_known : Seen → CheckpointSignature → TrustedKey → Checked Seen
    examine_known seen s key =
        if not (verify_checkpoint_signature key.key body s.signature)
        then if not (has_prefix s.signature jws_header_marker)
          then bad (sig signature_invalid s.kid)
          else good (record seen { envelope_only = first_seen seen.envelope_only s.kid })
        else do
          bind_checkpoint_signer origin s.name key
          good (record seen { verified = first_seen seen.verified key.kid })

    unfoldable pub examine_line : Seen → CheckpointSignature → Checked Seen
    examine_line seen s = elim (keys s.kid) [
      | bad e ↦ good (record seen { unknown_kid = first_seen seen.unknown_kid s.kid })
      | good key ↦ examine_known seen s key
    ]

    unfoldable pub examine_lines : Seen → List CheckpointSignature → Checked Seen
    examine_lines seen [] = good seen
    examine_lines seen (s ∷ sigs) = do seen' ← examine_line seen s; examine_lines seen' sigs

    unfoldable pub verify_checkpoint_signatures : List CheckpointSignature → Checked Bytes
    verify_checkpoint_signatures sigs = do
      seen ←
          examine_lines (record { verified = none; unknown_kid = none; envelope_only = none }) sigs
      conclude_lines seen.verified seen.unknown_kid seen.envelope_only

  unfoldable pub verify_checkpoint : Bytes → KeyLookup → Checked Checkpoint
  verify_checkpoint note keys = do
    fail_if (ltb max_checkpoint_note_size (length note)) (checkpoint oversized_note)
    validate_note_text note
    (body, sigs) ← split_checkpoint_note note
    cp ← parse_checkpoint_body body
    kid ← verify_checkpoint_signatures keys cp.origin body sigs
    good (record cp { key_id = kid })
