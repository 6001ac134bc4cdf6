-- ===== src/Scitt/Checkpoint/Verified.antt =====
-- What an accepted checkpoint says.
use ans_sdk_go.Base.{
  passed_equal, ℕ, suc, ◌≡◌, ◌≢◌, refl, sym, ◌∙◌, ap, Bool, true, not, ◌||◌, ◌==◌, bytes_eq, Option,
  none, some, List, [], ◌∷◌, get_elem?, Bool-cases, inl, inr, ◌⊎◌, arith, Bytes, ltb, length,
  ltb_false→le, ◌≤◌, nat_eq,
}
use mathlib.Core.Path.{subst}
use ans_sdk_go.Base.Text.{onto, has_prefix, ends_with, split, trim_last}
use ans_sdk_go.Scitt.Errors.{
  good, not_bad, good_injective, Checked-cases, >>=-good, fail_if-good, or_fail-good, fail_if_last,
  sig, signature_invalid,
}
use ans_sdk_go.Scitt.RootKeys.{Crypto, TrustedKey, is_some}
use ans_sdk_go.Scitt.Receipt.{KeyLookup}
use ans_sdk_go.Scitt.Checkpoint.Signatures.{is_some-first_seen}
use ans_sdk_go.Scitt.Checkpoint.{
  CheckpointSignature, Checkpoint, Seen, verify_checkpoint_signature, jws_header_marker,
  examine_known, examine_line, examine_lines, verify_checkpoint_signatures, conclude_lines,
  bind_checkpoint_signer, first_seen, verify_checkpoint, split_checkpoint_note,
  parse_checkpoint_body, parse_signature_line, parse_signature_lines, max_checkpoint_note_size,
  validate_note_text, cut_blank_line,
}

cons_not_nil : {A : Type 0} (x : A) (xs : List A) → x ∷ xs ≢ []
cons_not_nil x xs h = cc

settle :
    (v u e : Option Bytes) (kid : Bytes)
    → (is_some v || is_some u || is_some e) ≡ true
    → conclude_lines v u e ≡ good kid
    → v ≡ some kid
unfolding conclude_lines
settle (some k) u e kid t h = ap some (good_injective k kid h)
settle none (some k) e kid t h = cc
settle none none (some k) kid t h = cc
settle none none none kid t h = cc

module _ (crypto : Crypto) (keys : KeyLookup) (origin body : Bytes) where
  -- The signature verifies under a trusted key, whose name is the signer's and the origin.
  abbrev pub IsSignedBy : CheckpointSignature → TrustedKey → Type 0
  IsSignedBy s key =
      (keys s.kid ≡ good key)
      × (verify_checkpoint_signature crypto key.key body s.signature ≡ true)
      × (s.name ≡ key.name)
      × (origin ≡ key.name)

  -- What a line that is not refused does to the variables of the loop.
  data LineCase (seen : Seen) (s : CheckpointSignature) (after : Seen) : Type 0 where
    skips :
        after ≡ record seen { unknown_kid = first_seen seen.unknown_kid s.kid }
        → LineCase seen s after
    tolerates :
        after ≡ record seen { envelope_only = first_seen seen.envelope_only s.kid }
        → LineCase seen s after
    verifies :
        (key : TrustedKey)
        → IsSignedBy s key
        → after ≡ record seen { verified = first_seen seen.verified key.kid }
        → LineCase seen s after

  examine_known-case :
      (seen after : Seen) (s : CheckpointSignature) (key : TrustedKey)
      → keys s.kid ≡ good key
      → examine_known crypto keys origin body seen s key ≡ good after
      → LineCase seen s after
  unfolding examine_known bind_checkpoint_signer
  examine_known-case seen after s key k h =
      elim (Bool-cases (verify_checkpoint_signature crypto key.key body s.signature)) [
        | inr n ↦ elim (Bool-cases (has_prefix s.signature jws_header_marker)) [
          | inl p ↦ tolerates (sym (good_injective _ after (rw p at (rw (n, examine_known) at h))))
          | inr p ↦
              absurd
                (not_bad (sig signature_invalid s.kid) after (rw p at (rw (n, examine_known) at h)))
        ]
        | inl v ↦
            let bound =
              >>=-good (bind_checkpoint_signer origin s.name key) _ (rw (v, examine_known) at h) in
            let named = fail_if-good (not (s.name == key.name)) _ _ bound.1 in
            let own = fail_if_last (not (origin == key.name)) _ named.1 in
            verifies key
              (k, v, passed_equal s.name key.name named.0, passed_equal origin key.name own)
              (sym (good_injective _ after bound.2))
      ]

  examine_line-case :
      (seen after : Seen) (s : CheckpointSignature)
      → examine_line crypto keys origin body seen s ≡ good after
      → LineCase seen s after
  unfolding examine_line
  examine_line-case seen after s h = elim (Checked-cases (keys s.kid)) [
    | inl (key, k) ↦ examine_known-case seen after s key k (rw (k, examine_line) at h)
    | inr (e, k) ↦ skips (sym (good_injective _ after (rw (k, examine_line) at h)))
  ]

  -- Some line before or at an index is signed by a key with this key ID.
  abbrev pub HasSigner : List CheckpointSignature → Bytes → Type 0
  HasSigner sigs kid =
      (i : ℕ) × (s : CheckpointSignature) × (key : TrustedKey) × (get_elem? sigs i ≡ some s)
      × IsSignedBy s key
      × (key.kid ≡ kid)

  later :
      (s : CheckpointSignature) (sigs : List CheckpointSignature) (kid : Bytes)
      → HasSigner sigs kid
      → HasSigner (s ∷ sigs) kid
  later s sigs kid (i, t, key, h, signed, e) = (suc i, t, key, h, signed, e)

  first_seen-cases :
      (o : Option Bytes) (candidate kid : Bytes)
      → first_seen o candidate ≡ some kid
      → (o ≡ some kid) ⊎ (candidate ≡ kid)
  first_seen-cases none candidate kid h = inr cc
  first_seen-cases (some k) candidate kid h = inl h

  -- The key ID that a line leaves was there before, or is the line's.
  examine_line-signer :
      (seen after : Seen) (s : CheckpointSignature) (sigs : List CheckpointSignature) (kid : Bytes)
      → LineCase seen s after
      → after.verified ≡ some kid
      → (seen.verified ≡ some kid) ⊎ HasSigner (s ∷ sigs) kid
  examine_line-signer seen after s sigs kid (skips e) v = inl (sym (ap (λ x. x.verified) e) ∙ v)
  examine_line-signer seen after s sigs kid (tolerates e) v = inl (sym (ap (λ x. x.verified) e) ∙ v)
  examine_line-signer seen after s sigs kid (verifies key signed e) v =
      elim (first_seen-cases seen.verified key.kid kid (sym (ap (λ x. x.verified) e) ∙ v)) [
        | inl old ↦ inl old
        | inr new ↦ inr (0, s, key, refl, signed, new)
      ]

  examine_lines-signer :
      (seen after : Seen) (sigs : List CheckpointSignature) (kid : Bytes)
      → examine_lines crypto keys origin body seen sigs ≡ good after
      → after.verified ≡ some kid
      → (seen.verified ≡ some kid) ⊎ HasSigner sigs kid
  unfolding examine_lines
  examine_lines-signer seen after [] kid h v =
      inl (ap (λ x. x.verified) (good_injective seen after h) ∙ v)
  examine_lines-signer seen after (s ∷ sigs) kid h v =
      let first = >>=-good (examine_line crypto keys origin body seen s) _ h in
      elim (examine_lines-signer first.0 after sigs kid first.2 v) [
        | inr there ↦ inr (later s sigs kid there)
        | inl here' ↦
            examine_line-signer seen first.0 s sigs kid (examine_line-case seen first.0 s first.1)
              here'
      ]

  -- Some line was counted.
  abbrev touched : Seen → Bool
  touched seen = is_some seen.verified || is_some seen.unknown_kid || is_some seen.envelope_only

  LineCase-touched :
      (seen after : Seen) (s : CheckpointSignature) → LineCase seen s after → touched after ≡ true
  LineCase-touched seen after s (skips e) =
      rw e (ground (arith, is_some-first_seen seen.unknown_kid s.kid))
  LineCase-touched seen after s (tolerates e) =
      rw e (ground (arith, is_some-first_seen seen.envelope_only s.kid))
  LineCase-touched seen after s (verifies key signed e) =
      rw e (ground (arith, is_some-first_seen seen.verified key.kid))

  examine_lines-touched :
      (seen after : Seen) (s : CheckpointSignature) (sigs : List CheckpointSignature)
      → examine_lines crypto keys origin body seen (s ∷ sigs) ≡ good after
      → touched after ≡ true
  unfolding examine_lines
  examine_lines-touched seen after s [] h =
      let first = >>=-good (examine_line crypto keys origin body seen s) _ h in
      subst (λ x. touched x ≡ true) (good_injective first.0 after first.2)
        (LineCase-touched seen first.0 s (examine_line-case seen first.0 s first.1))
  examine_lines-touched seen after s (t ∷ sigs) h =
      let first = >>=-good (examine_line crypto keys origin body seen s) _ h in
      examine_lines-touched first.0 after t sigs first.2

  conclude_lines-verified :
      (seen : Seen) (kid : Bytes)
      → touched seen ≡ true
      → conclude_lines seen.verified seen.unknown_kid seen.envelope_only ≡ good kid
      → seen.verified ≡ some kid
  conclude_lines-verified seen kid t h =
      settle seen.verified seen.unknown_kid seen.envelope_only kid t h

  pub verify_checkpoint_signatures-HasSigner :
      (s : CheckpointSignature) (sigs : List CheckpointSignature) (kid : Bytes)
      → verify_checkpoint_signatures crypto keys origin body (s ∷ sigs) ≡ good kid
      → HasSigner (s ∷ sigs) kid
  unfolding verify_checkpoint_signatures
  verify_checkpoint_signatures-HasSigner s sigs kid h =
      let start : Seen = record { verified = none; unknown_kid = none; envelope_only = none } in
      let run = >>=-good (examine_lines crypto keys origin body start (s ∷ sigs)) _ h in
      elim (examine_lines-signer start run.0 (s ∷ sigs) kid run.1 (
        conclude_lines-verified run.0 kid (examine_lines-touched start run.0 s sigs run.1) run.2)) [
          | inl never ↦ cc
          | inr found ↦ found
        ]

onto_nonempty : (c : ℕ) (parts : List Bytes) → onto c parts ≢ []
onto_nonempty c [] h = cc
onto_nonempty c (part ∷ parts) h = cc

split_nonempty : (sep : ℕ) (s : Bytes) → split sep s ≢ []
unfolding split
split_nonempty sep [] h = cc
split_nonempty sep (c ∷ s) h = elim (Bool-cases (c == sep)) [
  | inl e ↦ cons_not_nil [] (split sep s) (rw e at h)
  | inr n ↦ onto_nonempty c (split sep s) (rw n at h)
]

parse_signature_lines-nonempty :
    (lines : List Bytes) → lines ≢ [] → parse_signature_lines lines ≢ good []
unfolding parse_signature_lines
parse_signature_lines-nonempty [] n h = n refl
parse_signature_lines-nonempty (line ∷ lines) n h =
    let first = >>=-good (parse_signature_line line) _ h in
    let rest = >>=-good (parse_signature_lines lines) _ first.2 in
    cons_not_nil first.0 rest.0 (good_injective (first.0 ∷ rest.0) [] rest.2)

split_checkpoint_note-nonempty : (note body : Bytes) → split_checkpoint_note note ≢ good (body, [])
unfolding split_checkpoint_note
split_checkpoint_note-nonempty note body h =
    let halves = or_fail-good (cut_blank_line note) _ _ h in
    let (_, block) = halves.0 in
    let closed = fail_if-good (block == [] || not (ends_with 10 block)) _ _ halves.2 in
    let lines = split 10 (trim_last 10 block) in
    let sigs = >>=-good (parse_signature_lines lines) _ closed.1 in
    parse_signature_lines-nonempty lines (split_nonempty 10 (trim_last 10 block))
      (sigs.1 ∙ ap good (ap (λ x. x.1) (good_injective _ (body, []) sigs.2)))

module _ (crypto : Crypto) where
  verify_checkpoint_signatures-found :
      (keys : KeyLookup) (origin note body : Bytes) (sigs : List CheckpointSignature) (kid : Bytes)
      → split_checkpoint_note note ≡ good (body, sigs)
      → verify_checkpoint_signatures crypto keys origin body sigs ≡ good kid
      → HasSigner crypto keys origin body sigs kid
  verify_checkpoint_signatures-found keys origin note body [] kid n h =
      absurd (split_checkpoint_note-nonempty note body n)
  verify_checkpoint_signatures-found keys origin note body (s ∷ sigs) kid n h =
      verify_checkpoint_signatures-HasSigner crypto keys origin body s sigs kid h

  abbrev pub IsSigned : Bytes → KeyLookup → Checkpoint → Type 0
  IsSigned note keys cp =
      (body : Bytes) × (sigs : List CheckpointSignature) × (said : Checkpoint) × (length note
        ≤ max_checkpoint_note_size)
      × (split_checkpoint_note note ≡ good (body, sigs))
      × (parse_checkpoint_body body ≡ good said)
      × (cp ≡ record said { key_id = cp.key_id })
      × HasSigner crypto keys cp.origin body sigs cp.key_id

  -- An accepted checkpoint is what the body of its note says, the note is within the size limit, and
  -- one of the lines below the body is a signature of the body by a trusted key whose name is the
  -- name on the line and the origin, and whose key ID is the checkpoint's.
  pub verify_checkpoint-IsSigned :
      (note : Bytes) (keys : KeyLookup) (cp : Checkpoint)
      → verify_checkpoint crypto note keys ≡ good cp
      → IsSigned note keys cp
  unfolding verify_checkpoint
  verify_checkpoint-IsSigned note keys cp h =
      let small = fail_if-good (ltb max_checkpoint_note_size (length note)) _ _ h in
      let clean = >>=-good (validate_note_text note) _ small.1 in
      let parts = >>=-good (split_checkpoint_note note) _ clean.2 in
      let (body, sigs) = parts.0 in
      let said = >>=-good (parse_checkpoint_body body) _ parts.2 in
      let signed =
        >>=-good (verify_checkpoint_signatures crypto keys said.0.origin body sigs) _ said.2 in
      subst (IsSigned note keys) (good_injective _ cp signed.2) (
        body,
        sigs,
        said.0,
        ltb_false→le max_checkpoint_note_size (length note) small.0,
        parts.1,
        said.1,
        refl,
        verify_checkpoint_signatures-found keys said.0.origin note body sigs signed.0 parts.1
            signed.1,
      )
