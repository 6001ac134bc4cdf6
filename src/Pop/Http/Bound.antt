-- ===== src/Pop/Http/Bound.antt =====
-- What the middleware hands on.
use ans_sdk_go.Base.{
  ℕ, Bool-cases, ◌≤◌, ◌==◌, nat_eq, bytes_eq, ◌≡◌, ◌≢◌, ltb_false→le, ◌⊎◌, inl, inr, refl, ap, true,
  false, Option, none, some, length, ltb, arith, codes, Bytes, passed_equal, not_refuted,
}
use mathlib.Core.Path.{subst}
use ans_sdk_go.Base.Members.{contains}
use ans_sdk_go.Scitt.RootKeys.{Crypto}
use ans_sdk_go.Scitt.Cose.{Cbor}
use ans_sdk_go.Scitt.Types.{Headers}
use ans_sdk_go.Scitt.Receipt.{KeyLookup}
use ans_sdk_go.Scitt.HttpHeaders.{header_receipt, header_status_token, extract_values}
use ans_sdk_go.Pop.Errors.{
  Step, passed, refused, ProofError, Step-cases, refused≢passed, passed_injective, >>=-passed,
  refuse_if-passed, refuse_if_last,
}
use ans_sdk_go.Pop.Replay.{MemoryReplayCache}
use ans_sdk_go.Pop.Proof.{ProofLibrary}
use ans_sdk_go.Pop.Verify.{ProofResult, check_content}
use ans_sdk_go.Pop.Caller.{CallerIdentity, LeafEvent, of_checked, verify_caller}
use ans_sdk_go.Pop.Caller.Vouched.{IsVouched}
use ans_sdk_go.Pop.Caller.Authentic.{verify_caller-IsVouched}
use ans_sdk_go.Pop.Http.{
  Inbound, MiddlewareConfig, dpop_header, first_or_empty, values, trusted_key, is_duplicate,
  read_content, body_or_empty, authority_of, check_trusted, check_authority, preflight,
  caller_request, before_caller, with_body, authenticate,
}

at_most_one :
    (name : Bytes) (r : Inbound) → is_duplicate name r ≡ false → length (values name r) ≤ 1
unfolding is_duplicate
at_most_one name r h = ground arith

no_body : (content : Bytes) → Option.none ≢ some content
no_body content h = cc

same_body : (a b : Bytes) → Option.some a ≡ some b → a ≡ b
same_body a b h = cc

-- A body that was read is the body, within the limit.
read_content-body :
    (max_bytes : ℕ) (body : Option Bytes) (content : Bytes)
    → read_content max_bytes body ≡ some content
    → (body ≡ some content) × (length content ≤ max_bytes)
unfolding read_content
read_content-body max_bytes none content h = cc
read_content-body max_bytes (some b) content h = elim (Bool-cases (ltb max_bytes (length b))) [
  | inl long ↦ absurd (no_body content (rw long at h))
  | inr short ↦
      let same = rw short at h in
      (
        same,
        subst (λ c. length c ≤ max_bytes) (same_body b content same)
            (ltb_false→le max_bytes (length b) short),
      )
]

module _ (parse_authority : Bytes → Option (Bytes × Bytes)) where
  -- The authority of a request is one of the trusted hosts, where there are any.
  abbrev pub IsTrusted : MiddlewareConfig → Inbound → Type 0
  IsTrusted c r =
      ((length c.trusted_hosts == 0) ≡ true)
      ⊎ ((authority : Bytes × Bytes) × (authority_of parse_authority c.external_url r
            ≡ passed authority)
          × (contains (trusted_key authority.0 authority.1) c.trusted_hosts ≡ true))

  check_trusted-IsTrusted :
      (c : MiddlewareConfig) (r : Inbound) {u : Unit {0}}
      → check_trusted parse_authority c r ≡ passed u
      → IsTrusted c r
  check_trusted-IsTrusted c r h =
      let (authority, known, k) = >>=-passed (authority_of parse_authority c.external_url r) _ h in
      inr (
        authority,
        known,
        not_refuted (contains (trusted_key authority.0 authority.1) c.trusted_hosts)
            (refuse_if_last _ _ k),
      )

  check_authority-IsTrusted :
      (c : MiddlewareConfig) (r : Inbound) {u : Unit {0}}
      → check_authority parse_authority c r ≡ passed u
      → IsTrusted c r
  unfolding check_authority
  check_authority-IsTrusted c r h = elim (Bool-cases (length c.trusted_hosts == 0)) [
    | inl empty ↦ inl empty
    | inr some_trusted ↦ check_trusted-IsTrusted c r (rw some_trusted at h)
  ]

  -- No header that decides is there twice.
  abbrev pub IsSingle : Inbound → Type 0
  IsSingle r =
      (length (values dpop_header r) ≤ 1)
      × (length (values (codes "Authorization") r) ≤ 1)
      × (length (values header_receipt r) ≤ 1)
      × (length (values header_status_token r) ≤ 1)

  before_caller-IsSingle :
      (c : MiddlewareConfig) (r : Inbound) (hdrs : Headers)
      → before_caller parse_authority c r ≡ passed hdrs
      → IsSingle r × IsTrusted c r
  unfolding before_caller preflight
  before_caller-IsSingle c r hdrs h =
      let (_, _, k) =
        >>=-passed
          (of_checked
            (extract_values (first_or_empty (values header_receipt r))
              (first_or_empty (values header_status_token r)))
            ProofError.scitt_header_invalid)
          _ h in
      let (_, checked, _) = >>=-passed (preflight parse_authority c r) _ k in
      let (dpop, k1) = refuse_if-passed (is_duplicate dpop_header r) _ _ checked in
      let (token, k2) = refuse_if-passed (is_duplicate (codes "Authorization") r) _ _ k1 in
      let (receipt, k3) = refuse_if-passed (is_duplicate header_receipt r) _ _ k2 in
      let (status, k4) = refuse_if-passed (is_duplicate header_status_token r) _ _ k3 in
      (
        (
          at_most_one dpop_header r dpop,
          at_most_one (codes "Authorization") r token,
          at_most_one header_receipt r receipt,
          at_most_one header_status_token r status,
        ),
        check_authority-IsTrusted c r k4,
      )

  module _ (decode_leaf : Bytes → Option LeafEvent) (lib : ProofLibrary) (cbor : Cbor)
      (crypto : Crypto) where
    -- The content of a request, as a proof is over it.
    content-IsSigned :
        (proof : ProofResult) (max_bytes : ℕ) (body : Option Bytes) {u : Unit {0}}
        → check_content lib proof (some (read_content max_bytes body)) ≡ passed u
        → (read : Option Bytes) → read_content max_bytes body ≡ read
        → (body ≡ some (body_or_empty read))
          × (length (body_or_empty read) ≤ max_bytes)
          × (lib.sha256 (body_or_empty read) ≡ proof.content_digest)
    unfolding check_content
    content-IsSigned proof max_bytes body h none e = absurd (refused≢passed _ _ (rw e at h))
    content-IsSigned proof max_bytes body h (some content) e =
        let read = read_content-body max_bytes body content e in
        (
          read.0,
          read.1,
          passed_equal (lib.sha256 content) proof.content_digest (refuse_if_last _ _ (rw e at h)),
        )

    with_body-passed :
        (content : Bytes) (m : Step CallerIdentity) (r : CallerIdentity × Bytes)
        → with_body parse_authority decode_leaf lib cbor crypto content m ≡ passed r
        → (m ≡ passed r.0) × (content ≡ r.1)
    with_body-passed content (passed a) r h =
        let same = passed_injective (a, content) r h in
        (ap (λ r. passed r.0) same, ap (λ r. r.1) same)
    with_body-passed content (refused e) r h = absurd (refused≢passed e r h)

    abbrev pub IsHandedOn : MiddlewareConfig → Inbound → ProofResult → Bytes → Type 0
    IsHandedOn c r proof content =
        (r.body ≡ some content)
        × (length content ≤ c.max_content_bytes)
        × (lib.sha256 content ≡ proof.content_digest)

    -- A request that the middleware lets through has at most one of each header that decides, and
    -- an authority among the trusted hosts, where there are any. Its caller is vouched for by a proof
    -- for the method and the URL of the request, and for the access token in its Authorization header,
    -- if there is one. The content that is handed on is the body, within the limit, and its SHA-256
    -- is the digest in the proof.
    pub authenticate-IsHandedOn :
        (clock : ℕ) (c : MiddlewareConfig) (r : Inbound) (keys : KeyLookup)
        (replay : MemoryReplayCache) (out : CallerIdentity × Bytes)
        → (authenticate parse_authority decode_leaf lib cbor crypto clock c r keys replay).0
          ≡ passed out
        → IsSingle r
          × IsTrusted c r
          × ((hdrs : Headers) × (proof : ProofResult) × IsVouched decode_leaf lib cbor crypto
                c.caller
                (caller_request parse_authority c r)
                (some hdrs)
                (some keys)
                out.0
                proof
              × IsHandedOn c r proof out.1)
    unfolding authenticate
    authenticate-IsHandedOn clock c r keys replay out k =
        elim (Step-cases (before_caller parse_authority c r)) [
          | inr (e, bad) ↦ absurd (refused≢passed e out (rw (bad, authenticate) at k))
          | inl (hdrs, fine) ↦
              let (single, trusted) = before_caller-IsSingle c r hdrs fine in
              let content = body_or_empty (read_content c.max_content_bytes r.body) in
              let (authentic, same) =
                with_body-passed content
                  (verify_caller decode_leaf lib cbor crypto clock c.caller
                    (caller_request parse_authority c r) (some hdrs) (some keys) replay).0
                  out (rw (fine, authenticate) at k) in
              let vouched =
                verify_caller-IsVouched decode_leaf lib cbor crypto clock c.caller
                  (caller_request parse_authority c r) (some hdrs) (some keys) replay out.0
                  authentic in
              let proof = vouched.0 in
              (
                single,
                trusted,
                (
                  hdrs,
                  proof,
                  vouched.1,
                  subst (IsHandedOn c r proof) same (
                      content-IsSigned proof c.max_content_bytes r.body vouched.1.11
                        (read_content c.max_content_bytes r.body) refl),
                ),
              )
        ]
