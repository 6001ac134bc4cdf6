-- ===== src/Pop/Caller.antt =====
-- pop/caller.go: VerifyCaller over the checks of pop/verify.go and verify/scitt. The functions of
-- the libraries are arguments, and `decode_leaf` is encoding/json on the event of a receipt.
pub mod Vouched
pub mod Authentic
use ans_sdk_go.Base.{
  ℕ, ◌/◌, ◌==◌, bytes_eq, Bool, true, false, not, ◌&&◌, ◌||◌, Option, none, some, List, [], ◌∷◌,
  ◌++◌, codes, length, ltb, if◌then◌else◌, Bytes,
}
use ans_sdk_go.Base.Int.{ℤ, pos, negsuc, ltz}
use ans_sdk_go.Base.Members.{contains}
use ans_sdk_go.Models.Version.{version_string}
use ans_sdk_go.Verify.Cert.{
  AnsName, AnsNameResult, named, not_named, parse_ans_name, first_ans_name,
}
use ans_sdk_go.Scitt.Errors.{Checked, good, bad}
use ans_sdk_go.Scitt.RootKeys.{Crypto}
use ans_sdk_go.Scitt.Cose.{Cbor}
use ans_sdk_go.Scitt.Types.{Headers, StatusTokenPayload, matches_identity_cert}
use ans_sdk_go.Scitt.Receipt.{KeyLookup, VerifiedReceipt, verify_receipt}
use ans_sdk_go.Scitt.StatusToken.{verify_status_token_at, max_clock_skew}
use ans_sdk_go.Pop.Errors.{
  Step, passed, refused, ProofError, binding_failed, expected_peer_mismatch, receipt_invalid,
  status_invalid, misconfigured, missing_headers, client_gone, ◌>>=◌, ◌>>◌, refuse_if, or_refuse,
}
use ans_sdk_go.Pop.Replay.{MemoryReplayCache}
use ans_sdk_go.Pop.Proof.{ProofLibrary}
use ans_sdk_go.Pop.Verify.{
  Request, ProofResult, second, default_pop_skew, verify_proof_unrecorded, check_content,
  commit_replay, conclude,
}

pub record CallerIdentity : Type 0 where
  pub ans_name : Bytes
  pub agent_id : Bytes
  pub fingerprint : Bytes
  pub jkt : Bytes

-- `allowed` is the set of canonical names, and `pin_error` says whether pinErr is set. The options
-- that verifyOpts passes on are not here: what they set is in the `Request`.
pub record CallerConfig : Type 0 where
  pub require_receipt : Bool
  pub allowed : List Bytes
  pub pin_error : Bool
  pub pop_skew : ℤ
  pub status_skew : ℤ

abbrev pub default_caller_config : CallerConfig
default_caller_config = record {
  require_receipt = true;
  allowed = [];
  pin_error = false;
  pop_skew = pos default_pop_skew;
  status_skew = pos max_clock_skew;
}

unfoldable pub canonical_ans_name : AnsName → Bytes
canonical_ans_name name = codes "ans://" ++ version_string name.version ++ (b'.' ∷ name.host)

abbrev pub name_of : AnsNameResult → Option AnsName
name_of (named name) = some name
name_of (not_named e) = none

unfoldable pub add_allowed : CallerConfig → Bytes → CallerConfig
add_allowed c ans_name = elim (name_of (parse_ans_name ans_name)) [
  | none ↦ record c { pin_error = true }
  | some name ↦ record c { allowed = canonical_ans_name name ∷ c.allowed }
]

abbrev pub add_all_allowed : CallerConfig → List Bytes → CallerConfig
add_all_allowed c [] = c
add_all_allowed c (name ∷ names) = add_all_allowed (add_allowed c name) names

unfoldable pub with_allowed_ans_names : List Bytes → CallerConfig → CallerConfig
with_allowed_ans_names [] c = record c { pin_error = true }
with_allowed_ans_names (name ∷ names) c = add_all_allowed c (name ∷ names)

unfoldable pub with_require_receipt : Bool → CallerConfig → CallerConfig
with_require_receipt required c = record c { require_receipt = required }

unfoldable pub with_pop_skew : ℤ → CallerConfig → CallerConfig
with_pop_skew d c = if ltz (pos 0) d then record c { pop_skew = d } else c

pub record LeafEvent : Type 0 where
  pub ans_id : Bytes
  pub agent_id : Bytes
  pub ans_name : Bytes

unfoldable pub leaf_agent_id : LeafEvent → Bytes
leaf_agent_id e = if not (e.ans_id == []) then e.ans_id else e.agent_id

-- An error of package scitt, wrapped in one of this package.
abbrev pub of_checked {ℓ} : {A : Type ℓ} → Checked A → ProofError → Step A
of_checked (good a) e = passed a
of_checked (bad f) e = refused e

module _ (decode_leaf : Bytes → Option LeafEvent) where
  unfoldable pub receipt_names_agent :
      VerifiedReceipt → StatusTokenPayload → AnsName → Step (Unit {0})
  receipt_names_agent rcpt st st_ans = do
    ev ← or_refuse (decode_leaf rcpt.event_bytes) receipt_invalid
    refuse_if (leaf_agent_id ev == [] || ev.ans_name == []) receipt_invalid
    refuse_if (not (ev.ans_id == []) && not (ev.agent_id == []) && not (ev.ans_id == ev.agent_id))
        receipt_invalid
    leaf_ans ← or_refuse (name_of (parse_ans_name ev.ans_name)) receipt_invalid
    refuse_if (not (leaf_agent_id ev == st.agent_id)) binding_failed
    refuse_if (not (canonical_ans_name leaf_ans == canonical_ans_name st_ans)) binding_failed

  -- The receipt of a request, where there is one.
  abbrev pub names_agent : Option VerifiedReceipt → StatusTokenPayload → AnsName → Step (Unit {0})
  names_agent none st st_ans = passed tt
  names_agent (some rcpt) st st_ans = receipt_names_agent rcpt st st_ans

  unfoldable pub verify_binding :
      ProofResult → StatusTokenPayload → Option VerifiedReceipt → CallerConfig → Step CallerIdentity
  verify_binding proof st rcpt cfg = do
    refuse_if (not (matches_identity_cert st proof.fingerprint)) binding_failed
    cert_ans ← or_refuse (first_ans_name proof.cert.uri_sans) binding_failed
    st_ans ← or_refuse (name_of (parse_ans_name st.ans_name)) binding_failed
    refuse_if (not (canonical_ans_name cert_ans == canonical_ans_name st_ans)) binding_failed
    names_agent rcpt st st_ans
    refuse_if (ltb 0 (length cfg.allowed) && not (contains (canonical_ans_name st_ans) cfg.allowed))
        expected_peer_mismatch
    passed (record {
      ans_name = st.ans_name;
      agent_id = st.agent_id;
      fingerprint = proof.fingerprint;
      jkt = proof.jkt;
    })

  module _ (lib : ProofLibrary) (cbor : Cbor) (crypto : Crypto) where
    abbrev pub read_receipt : Bool → Bytes → KeyLookup → Step (Option VerifiedReceipt)
    read_receipt false receipt_bytes keys = passed none
    read_receipt true receipt_bytes keys = do
      rcpt ← of_checked (verify_receipt cbor crypto receipt_bytes keys) receipt_invalid
      passed (some rcpt)

    -- A request with the skew of the configuration.
    abbrev pub skewed : CallerConfig → Request → Request
    skewed cfg q = record q { skew = cfg.pop_skew }

    -- verifyCaller up to the use of the replay cache.
    unfoldable pub check_caller :
        CallerConfig
        → Request
        → Option Headers
        → Option KeyLookup
        → Step (CallerIdentity × ProofResult)
    check_caller cfg q h lookup = do
      refuse_if q.ctx_done client_gone
      keys ← or_refuse lookup misconfigured
      refuse_if cfg.pin_error misconfigured
      refuse_if (q.proof_jws == []) missing_headers
      headers ← or_refuse h missing_headers
      refuse_if (headers.status_token == []) missing_headers
      refuse_if (cfg.require_receipt && headers.receipt == []) missing_headers
      proof ← verify_proof_unrecorded lib (skewed cfg q)
      st ←
          of_checked
            (verify_status_token_at cbor crypto headers.status_token keys cfg.status_skew
              (pos (q.now / second)))
            status_invalid
      rcpt ← read_receipt cfg.require_receipt headers.receipt keys
      id ← verify_binding proof st.payload rcpt cfg
      check_content lib proof q.content
      passed (id, proof)

    abbrev pub identified : CallerIdentity → Step ProofResult → Step CallerIdentity
    identified id (passed r) = passed id
    identified id (refused e) = refused e

    -- verifyCaller with a replay cache that is not nil, and the instant `clock` that it reads.
    unfoldable pub verify_caller :
        ℕ
        → CallerConfig
        → Request
        → Option Headers
        → Option KeyLookup
        → MemoryReplayCache
        → Step CallerIdentity × MemoryReplayCache
    verify_caller clock cfg q h lookup c = elim (check_caller cfg q h lookup) [
      | refused e ↦ (refused e, c)
      | passed checked ↦
          let done = commit_replay lib clock checked.1 c in
          (identified checked.0 (conclude lib checked.1 done.0), done.1)
    ]
