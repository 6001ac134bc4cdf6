-- ===== src/Tests/Caller.antt =====
-- pop/caller.go with one proof, one receipt and one token.
use ans_sdk_go.Base.{◌≡◌, ◌≢◌, ◌⊎◌, refl, Option, some, [], ◌∷◌, arith, codes, Bytes, bytes_eq}
use ans_sdk_go.Base.Int.{ltz, ◌+ℤ◌}
use ans_sdk_go.Base.Members.{contains}
use ans_sdk_go.Base.Table.{lookup}
use ans_sdk_go.Base.Text.{parse_uint32, trim_prefix, print_decimal, digits_in}
use ans_sdk_go.Models.Version.{parse_version, version_string}
use ans_sdk_go.Verify.Cert.{parse_ans_name, parse_name_parts, first_ans_name}
use ans_sdk_go.Scitt.Cose.{Cbor, uint_key}
use ans_sdk_go.Scitt.Types.{Headers, is_terminal, matches_identity_cert, lists_fingerprint}
use ans_sdk_go.Scitt.StatusToken.{
  skew_seconds, add_seconds, issuer_differs, check_status, verify_status_token_at,
}
use ans_sdk_go.Pop.Errors.{passed}
use ans_sdk_go.Pop.Replay.NoReplay.{sweep, run}
use ans_sdk_go.Pop.Caller.{
  CallerIdentity, CallerConfig, LeafEvent, default_caller_config, canonical_ans_name, add_allowed,
  with_allowed_ans_names, leaf_agent_id, receipt_names_agent, verify_binding, skewed, check_caller,
  verify_caller,
}
use ans_sdk_go.Pop.Caller.Vouched.{IsVouched}
use ans_sdk_go.Pop.Caller.Authentic.{
  IsRecorded, verify_caller-IsVouched, verify_caller-touches, verify_caller-single_use,
}
use ans_sdk_go.Pop.Verify.{ProofResult, verify_proof_unrecorded}
use ans_sdk_go.Tests.Fixtures.{digest}
use ans_sdk_go.Tests.ScittFixtures.{crypto, cbor, keys, item}
use ans_sdk_go.Tests.Scitt
use ans_sdk_go.Tests.Pop.{library, request, later, empty, result, reads}
use ans_sdk_go.Tests.Pop

-- The token with an identity certificate.
abbrev pub caller_cbor : Cbor
caller_cbor = record cbor {
  any_map = λ s. lookup s (
      (
        item 6,
        (uint_key 1, item 40)
            ∷ (uint_key 2, item 41)
            ∷ (uint_key 4, item 42)
            ∷ (uint_key 5, item 43)
            ∷ (uint_key 6, item 44)
            ∷ [],
      )
      ∷ (item 45, (uint_key 1, item 46) ∷ (uint_key 2, item 47) ∷ [])
      ∷ []);
}

abbrev name : Bytes
name = codes "ans://v1.2.3.a.example"

abbrev leaf : LeafEvent
leaf = record { ans_id = codes "x"; agent_id = []; ans_name = codes "ans://v1.2.3.A.example" }

abbrev pub decode_leaf : Bytes → Option LeafEvent
decode_leaf event = some leaf

abbrev pub config : CallerConfig
config = with_allowed_ans_names (name ∷ []) default_caller_config

abbrev headers : Headers
headers = record { receipt = item 1; status_token = item 2 }

abbrev pub identity : CallerIdentity
identity = record { ans_name = name; agent_id = codes "x"; fingerprint = digest; jkt = result.jkt }

unfoldable pub program : Unit {0}
unfolding Scitt.program Pop.program verify_status_token_at check_status issuer_differs add_seconds
    skew_seconds trim_prefix is_terminal ◌+ℤ◌ ltz parse_uint32 print_decimal digits_in parse_version
    version_string parse_ans_name parse_name_parts first_ans_name matches_identity_cert
    lists_fingerprint contains canonical_ans_name add_allowed with_allowed_ans_names leaf_agent_id
    receipt_names_agent verify_binding check_caller verify_caller
program = tt

authenticates :
    (verify_caller decode_leaf library caller_cbor crypto 110000000500 config request
      (some headers)
      (some keys)
      empty).0
    ≡ passed identity
unfolding program
authenticates = refl

-- The request with the skew of the configuration, which is the default.
reads_skewed :
    verify_proof_unrecorded library (skewed decode_leaf library caller_cbor crypto config request)
    ≡ passed result
unfolding program
reads_skewed = refl

verify_caller-IsVouched_example :
    (proof : ProofResult) × IsVouched decode_leaf library caller_cbor crypto config request
      (some headers)
      (some keys)
      identity
      proof
    × IsRecorded decode_leaf library caller_cbor crypto 110000000500 config request
        (some headers)
        (some keys)
        empty
        proof
verify_caller-IsVouched_example =
    verify_caller-IsVouched decode_leaf library caller_cbor crypto 110000000500 config request
      (some headers) (some keys) empty identity authenticates

verify_caller-touches_example :
    ((verify_caller decode_leaf library caller_cbor crypto 110000000500 config request
        (some headers)
        (some keys)
        empty).1
      ≡ empty)
    ⊎ ((id : CallerIdentity) × (proof : ProofResult) × IsVouched decode_leaf library caller_cbor
          crypto config request
          (some headers)
          (some keys)
          id
          proof)
verify_caller-touches_example =
    verify_caller-touches decode_leaf library caller_cbor crypto 110000000500 config request
      (some headers) (some keys) empty

verify_caller-single_use_example :
    (verify_caller decode_leaf library caller_cbor crypto 111000000500 config later
      (some headers)
      (some keys)
      (run
        (sweep 110500000000 ∷ [])
        (verify_caller decode_leaf library caller_cbor crypto 110000000500 config request
          (some headers)
          (some keys)
          empty).1)).0
    ≢ passed identity
verify_caller-single_use_example =
    verify_caller-single_use decode_leaf library caller_cbor crypto 110000000500 config request
      (some headers) (some keys) empty identity result (sweep 110500000000 ∷ []) 111000000500 config
      later (some headers) (some keys) identity authenticates reads_skewed ((omega arith), tt) refl
      refl (omega arith)
