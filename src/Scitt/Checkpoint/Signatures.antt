-- ===== src/Scitt/Checkpoint/Signatures.antt =====
-- The signature lines of a checkpoint, judged without their order.
use mathlib.Core.List.{Perm, Permᴰ}
use mathlib.Core.Logic.{∥∥₁_elim}
use ans_sdk_go.Base.{
  ◌≡◌, ◌≢◌, ◌∙◌, sym, refl, Bool, true, false, not, ◌&&◌, ◌||◌, ◌==◌, bytes_eq, Option, none, some,
  List, [], ◌∷◌, any, all, Bool-cases, inl, inr, arith, Bytes, if◌then◌else◌,
}
use ans_sdk_go.Base.Text.{has_prefix}
use ans_sdk_go.Scitt.Errors.{Checked, good, bad, Checked-cases, ◌>>=◌}
use ans_sdk_go.Scitt.RootKeys.{Crypto, TrustedKey, is_some}
use ans_sdk_go.Scitt.Receipt.{KeyLookup}
use ans_sdk_go.Scitt.Checkpoint.{
  CheckpointSignature, Seen, verify_checkpoint_signature, jws_header_marker, examine_known,
  examine_line, examine_lines, verify_checkpoint_signatures, conclude_lines, bind_checkpoint_signer,
  first_seen,
}

abbrev pub accepts {ℓ} : {A : Type ℓ} → Checked A → Bool
accepts (good a) = true
accepts (bad e) = false

abbrev is_bound : (origin : Bytes) → CheckpointSignature → TrustedKey → Bool
is_bound origin s key = s.name == key.name && origin == key.name

-- The lines before left a note of a key that is not known or of an envelope.
abbrev noted : Seen → Bool
noted seen = is_some seen.unknown_kid || is_some seen.envelope_only

abbrev is_nil {ℓ} : {A : Type ℓ} → List A → Bool
is_nil [] = true
is_nil (x ∷ xs) = false

pub is_some-first_seen : (o : Option Bytes) (k : Bytes) → is_some (first_seen o k) ≡ true
is_some-first_seen none k = refl
is_some-first_seen (some a) k = refl

conclude_lines-accepts :
    (v u e : Option Bytes)
    → accepts (conclude_lines v u e) ≡ (is_some v || not (is_some u || is_some e))
unfolding conclude_lines
conclude_lines-accepts (some k) u e = refl
conclude_lines-accepts none (some k) e = refl
conclude_lines-accepts none none (some k) = refl
conclude_lines-accepts none none none = refl

module _ {ℓ} {A : Type ℓ} (p : A → Bool) where
  all-Permᴰ : {xs ys : List A} → Permᴰ xs ys → all p xs ≡ all p ys
  all-Permᴰ Permᴰ.nil = refl
  all-Permᴰ (Permᴰ.cons e d) = rw (e, all-Permᴰ d)
  all-Permᴰ (Permᴰ.swap {a} {b} {a'} {b'} e f) = rw (e, f) (ground arith)
  all-Permᴰ (Permᴰ.trans d e) = all-Permᴰ d ∙ all-Permᴰ e

  any-Permᴰ : {xs ys : List A} → Permᴰ xs ys → any p xs ≡ any p ys
  any-Permᴰ Permᴰ.nil = refl
  any-Permᴰ (Permᴰ.cons e d) = rw (e, any-Permᴰ d)
  any-Permᴰ (Permᴰ.swap {a} {b} {a'} {b'} e f) = rw (e, f) (ground arith)
  any-Permᴰ (Permᴰ.trans d e) = any-Permᴰ d ∙ any-Permᴰ e

true≢false : true ≢ false
true≢false h = cc

module _ (crypto : Crypto) (keys : KeyLookup) (origin body : Bytes) where
  abbrev holds_under : CheckpointSignature → TrustedKey → Bool
  holds_under s key =
      if verify_checkpoint_signature crypto key.key body s.signature
      then is_bound origin s key
      else has_prefix s.signature jws_header_marker

  -- A line that does not speak against the checkpoint: its key is not known, or its signature
  -- verifies and names the key and the origin, or it holds a JWS envelope.
  abbrev pub line_holds : CheckpointSignature → Bool
  line_holds s = elim (keys s.kid) [ bad e ↦ true | good key ↦ holds_under s key ]

  -- A line whose signature verifies under a known key.
  abbrev pub line_signs : CheckpointSignature → Bool
  line_signs s = elim (keys s.kid) [
    | bad e ↦ false
    | good key ↦ verify_checkpoint_signature crypto key.key body s.signature
  ]

  conclusion : Seen → Checked Bytes
  conclusion seen = conclude_lines seen.verified seen.unknown_kid seen.envelope_only

  abbrev verdict : Seen → List CheckpointSignature → Bool
  verdict seen sigs =
      all line_holds sigs
      && (is_some seen.verified || any line_signs sigs || is_nil sigs && not (noted seen))

  examine_lines-accepts :
      (seen : Seen) (sigs : List CheckpointSignature)
      → accepts (examine_lines crypto keys origin body seen sigs >>= conclusion) ≡ verdict seen sigs
  unfolding examine_lines examine_line examine_known conclusion bind_checkpoint_signer
  examine_lines-accepts seen [] =
      ground (arith, conclude_lines-accepts seen.verified seen.unknown_kid seen.envelope_only)
  examine_lines-accepts seen (s ∷ sigs) = elim (Checked-cases (keys s.kid)) [
    | inr (e, k) ↦
        rw (k, examine_line)
          (examine_lines-accepts (record seen { unknown_kid = first_seen seen.unknown_kid s.kid })
              sigs
            ∙ rw (is_some-first_seen seen.unknown_kid s.kid) (ground arith))
    | inl (key, k) ↦
        elim (Bool-cases (verify_checkpoint_signature crypto key.key body s.signature)) [
          | inl yes' ↦
              rw (k, examine_line)
                (rw (yes', examine_known)
                  (elim (Bool-cases (s.name == key.name)) [
                    | inr n ↦ rw n (ground arith)
                    | inl n ↦ rw n (elim (Bool-cases (origin == key.name)) [
                      | inr o ↦ rw o (ground arith)
                      | inl o ↦ rw o (
                          examine_lines-accepts
                            (record seen { verified = first_seen seen.verified key.kid }) sigs
                          ∙ rw (is_some-first_seen seen.verified key.kid) (ground arith))
                    ])
                  ]))
          | inr no' ↦
              rw (k, examine_line)
                (rw (no', examine_known)
                  (elim (Bool-cases (has_prefix s.signature jws_header_marker)) [
                    | inr n ↦ rw n (ground arith)
                    | inl n ↦ rw n (
                        examine_lines-accepts
                          (record seen { envelope_only = first_seen seen.envelope_only s.kid }) sigs
                        ∙ rw (is_some-first_seen seen.envelope_only s.kid) (ground arith))
                  ]))
        ]
  ]

  -- With at least one line, the lines are accepted if and only if none speaks against the checkpoint
  -- and one verifies under a known key, wherever it stands.
  pub verify_checkpoint_signatures-accepts :
      (s : CheckpointSignature) (sigs : List CheckpointSignature)
      → accepts (verify_checkpoint_signatures crypto keys origin body (s ∷ sigs))
        ≡ (all line_holds (s ∷ sigs) && any line_signs (s ∷ sigs))
  unfolding verify_checkpoint_signatures conclusion
  verify_checkpoint_signatures-accepts s sigs =
      examine_lines-accepts (record { verified = none; unknown_kid = none; envelope_only = none })
        (s ∷ sigs)
      ∙ ground arith

  reordered :
      (sigs others : List CheckpointSignature)
      → Permᴰ sigs others
      → accepts (verify_checkpoint_signatures crypto keys origin body sigs)
        ≡ accepts (verify_checkpoint_signatures crypto keys origin body others)
  reordered [] [] d = refl
  reordered [] (t ∷ ts) d = absurd (true≢false (all-Permᴰ (λ x. false) d))
  reordered (s ∷ ss) [] d = absurd (true≢false (sym (all-Permᴰ (λ x. false) d)))
  reordered (s ∷ ss) (t ∷ ts) d =
      verify_checkpoint_signatures-accepts s ss
      ∙ rw (all-Permᴰ line_holds d, any-Permᴰ line_signs d)
          (sym (verify_checkpoint_signatures-accepts t ts))

  -- Whether the lines are accepted does not depend on their order.
  pub verify_checkpoint_signatures-Perm :
      (sigs others : List CheckpointSignature)
      → Perm sigs others
      → accepts (verify_checkpoint_signatures crypto keys origin body sigs)
        ≡ accepts (verify_checkpoint_signatures crypto keys origin body others)
  verify_checkpoint_signatures-Perm sigs others h = ∥∥₁_elim h (hlevel) (reordered sigs others)
