-- ===== src/Pop/Caller/Vouched.antt =====
-- What the authentication of a caller shows.
use ans_sdk_go.Base.{
  not_refuted, ◌/◌, ◌==◌, bytes_eq, ◌≡◌, ◌⊎◌, inl, inr, refl, Bool, true, false, not, ◌&&◌, ◌||◌,
  Option, some, [], length, ltb, Bytes, passed_equal,
}
use mathlib.Core.Path.{subst}
use ans_sdk_go.Base.Int.{pos}
use ans_sdk_go.Base.Members.{contains}
use ans_sdk_go.Verify.Cert.{
  AnsName, AnsNameResult, named, not_named, parse_ans_name, first_ans_name,
}
use ans_sdk_go.Scitt.Errors.{Checked, good, bad}
use ans_sdk_go.Scitt.RootKeys.{Crypto}
use ans_sdk_go.Scitt.Cose.{Cbor}
use ans_sdk_go.Scitt.Types.{Headers, StatusTokenPayload, matches_identity_cert}
use ans_sdk_go.Scitt.Types.Listed.{IsEntryOf, matches_identity_cert-IsEntryOf}
use ans_sdk_go.Scitt.Receipt.{KeyLookup, VerifiedReceipt, verify_receipt}
use ans_sdk_go.Scitt.Receipt.Accepted.{IsReceipt, verify_receipt-IsReceipt}
use ans_sdk_go.Scitt.StatusToken.{VerifiedStatusToken}
use ans_sdk_go.Scitt.StatusToken.Accepted.{IsSigned, IsCurrent}
use ans_sdk_go.Pop.Errors.{
  passed, ProofError, passed_injective, >>=-passed, refuse_if-passed, refuse_if_last,
  or_refuse-passed,
}
use ans_sdk_go.Pop.Proof.{ProofLibrary}
use ans_sdk_go.Pop.Verify.{Request, ProofResult, second, check_content}
use ans_sdk_go.Pop.Verify.Proven.{IsProof}
use ans_sdk_go.Pop.Caller.{
  CallerIdentity, CallerConfig, LeafEvent, canonical_ans_name, name_of, leaf_agent_id, of_checked,
  receipt_names_agent, names_agent, verify_binding, read_receipt, skewed,
}

name_of-named : (r : AnsNameResult) {name : AnsName} → name_of r ≡ some name → r ≡ named name
name_of-named (named name) h = cc
name_of-named (not_named e) h = cc

pub of_checked-passed {ℓ} :
    {A : Type ℓ} (m : Checked A) (e : ProofError) {a : A} → of_checked m e ≡ passed a → m ≡ good a
of_checked-passed (good a) e h = cc
of_checked-passed (bad f) e h = cc

pinned :
    (some_allowed allows : Bool)
    → some_allowed && not allows ≡ false
    → (some_allowed ≡ false) ⊎ (allows ≡ true)
pinned true true h = inr refl
pinned true false h = cc
pinned false allows h = inl refl

module _ (decode_leaf : Bytes → Option LeafEvent) where
  -- The event of a receipt names the agent of a token, by its ID and its canonical name.
  abbrev pub NamesAgent : VerifiedReceipt → StatusTokenPayload → AnsName → Type 0
  NamesAgent rcpt st st_ans =
      (ev : LeafEvent) × (leaf_ans : AnsName) × (decode_leaf rcpt.event_bytes ≡ some ev)
      × (leaf_agent_id ev ≡ st.agent_id)
      × (parse_ans_name ev.ans_name ≡ named leaf_ans)
      × (canonical_ans_name leaf_ans ≡ canonical_ans_name st_ans)

  receipt_names_agent-NamesAgent :
      (rcpt : VerifiedReceipt) (st : StatusTokenPayload) (st_ans : AnsName) {u : Unit {0}}
      → receipt_names_agent decode_leaf rcpt st st_ans ≡ passed u
      → NamesAgent rcpt st st_ans
  unfolding receipt_names_agent
  receipt_names_agent-NamesAgent rcpt st st_ans h =
      let (ev, event, k) = or_refuse-passed (decode_leaf rcpt.event_bytes) _ _ h in
      let (_, k1) = refuse_if-passed (leaf_agent_id ev == [] || ev.ans_name == []) _ _ k in
      let (_, k2) =
        refuse_if-passed
          (not (ev.ans_id == []) && not (ev.agent_id == []) && not (ev.ans_id == ev.agent_id)) _ _
          k1 in
      let (leaf_ans, name, k3) = or_refuse-passed (name_of (parse_ans_name ev.ans_name)) _ _ k2 in
      let (agent, k4) = refuse_if-passed (not (leaf_agent_id ev == st.agent_id)) _ _ k3 in
      (
        ev,
        leaf_ans,
        event,
        passed_equal (leaf_agent_id ev) st.agent_id agent,
        name_of-named (parse_ans_name ev.ans_name) name,
        passed_equal (canonical_ans_name leaf_ans) (canonical_ans_name st_ans)
            (refuse_if_last _ _ k4),
      )

  -- The certificate of a proof is one of the identity certificates of a token, and the first ANS name
  -- of its URIs is the name of the token, which is allowed; an identity has both.
  abbrev pub IsBoundTo :
      ProofResult → StatusTokenPayload → CallerConfig → CallerIdentity → AnsName → Type 0
  IsBoundTo proof st cfg id st_ans =
      (cert_ans : AnsName) × IsEntryOf proof.fingerprint st.valid_identity_certs
      × (first_ans_name proof.cert.uri_sans ≡ some cert_ans)
      × (parse_ans_name st.ans_name ≡ named st_ans)
      × (canonical_ans_name cert_ans ≡ canonical_ans_name st_ans)
      × ((ltb 0 (length cfg.allowed) ≡ false)
          ⊎ (contains (canonical_ans_name st_ans) cfg.allowed ≡ true))
      × (id.ans_name ≡ st.ans_name)
      × (id.agent_id ≡ st.agent_id)
      × (id.fingerprint ≡ proof.fingerprint)
      × (id.jkt ≡ proof.jkt)

  pub verify_binding-IsBoundTo :
      (proof : ProofResult) (st : StatusTokenPayload) (rcpt : Option VerifiedReceipt)
      (cfg : CallerConfig) (id : CallerIdentity)
      → verify_binding decode_leaf proof st rcpt cfg ≡ passed id
      → (st_ans : AnsName) × IsBoundTo proof st cfg id st_ans
        × (names_agent decode_leaf rcpt st st_ans ≡ passed tt)
  unfolding verify_binding
  verify_binding-IsBoundTo proof st rcpt cfg id h =
      let (listed, k) = refuse_if-passed (not (matches_identity_cert st proof.fingerprint)) _ _ h in
      let (cert_ans, shown, k1) = or_refuse-passed (first_ans_name proof.cert.uri_sans) _ _ k in
      let (st_ans, name, k2) = or_refuse-passed (name_of (parse_ans_name st.ans_name)) _ _ k1 in
      let (same, k3) =
        refuse_if-passed (not (canonical_ans_name cert_ans == canonical_ans_name st_ans)) _ _ k2 in
      let (_, agent, k4) = >>=-passed (names_agent decode_leaf rcpt st st_ans) _ k3 in
      let (allowed, k5) =
        refuse_if-passed
          (ltb 0 (length cfg.allowed) && not (contains (canonical_ans_name st_ans) cfg.allowed)) _ _
          k4 in
      let bound : IsBoundTo proof st cfg id st_ans =
        subst (λ id. IsBoundTo proof st cfg id st_ans) (passed_injective _ id k5)
          (
            cert_ans,
            matches_identity_cert-IsEntryOf st proof.fingerprint
                (not_refuted (matches_identity_cert st proof.fingerprint) listed),
            shown,
            name_of-named (parse_ans_name st.ans_name) name,
            passed_equal (canonical_ans_name cert_ans) (canonical_ans_name st_ans) same,
            pinned (ltb 0 (length cfg.allowed)) (contains (canonical_ans_name st_ans) cfg.allowed)
                allowed,
            refl,
            refl,
            refl,
            refl,
          ) in
      (st_ans, bound, agent)

  module _ (lib : ProofLibrary) (cbor : Cbor) (crypto : Crypto) where
    -- A receipt that names the agent of a token is there, where one is required.
    abbrev pub IsAnchored :
        Bool → (receipt_bytes : Bytes) → KeyLookup → StatusTokenPayload → AnsName → Type 0
    IsAnchored false receipt_bytes keys st st_ans = Unit
    IsAnchored true receipt_bytes keys st st_ans =
        (rcpt : VerifiedReceipt) × IsReceipt cbor crypto receipt_bytes keys rcpt
        × NamesAgent rcpt st st_ans

    pub read_receipt-IsAnchored :
        (required : Bool) (receipt_bytes : Bytes) (keys : KeyLookup) (rcpt : Option VerifiedReceipt)
        (st : StatusTokenPayload) (st_ans : AnsName)
        → read_receipt decode_leaf lib cbor crypto required receipt_bytes keys ≡ passed rcpt
        → names_agent decode_leaf rcpt st st_ans ≡ passed tt
        → IsAnchored required receipt_bytes keys st st_ans
    read_receipt-IsAnchored false receipt_bytes keys rcpt st st_ans h agrees = tt
    read_receipt-IsAnchored true receipt_bytes keys rcpt st st_ans h agrees =
        let (r, found, k) =
          >>=-passed
            (of_checked (verify_receipt cbor crypto receipt_bytes keys) ProofError.receipt_invalid)
            _ h in
        let same = passed_injective _ rcpt k in
        (
          r,
          verify_receipt-IsReceipt cbor crypto receipt_bytes keys r
              (of_checked-passed (verify_receipt cbor crypto receipt_bytes keys) _ found),
          receipt_names_agent-NamesAgent r st st_ans (rw (← same) at agrees),
        )

    -- A request comes from an agent: its proof, its token and its receipt are verified, name the same
    -- certificate and agent, and the proof is over the content.
    abbrev pub IsVouched :
        CallerConfig
        → Request
        → Option Headers
        → Option KeyLookup
        → CallerIdentity
        → ProofResult
        → Type 0
    IsVouched cfg q h lookup id proof =
        (keys : KeyLookup) × (headers : Headers) × (t : VerifiedStatusToken) × (st_ans : AnsName)
        × (lookup ≡ some keys)
        × (h ≡ some headers)
        × IsProof lib (skewed decode_leaf lib cbor crypto cfg q) proof
        × IsSigned cbor crypto headers.status_token keys t
        × IsCurrent t.payload cfg.status_skew (pos (q.now / second))
        × IsBoundTo proof t.payload cfg id st_ans
        × IsAnchored cfg.require_receipt headers.receipt keys t.payload st_ans
        × (check_content lib proof q.content ≡ passed tt)
