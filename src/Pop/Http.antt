-- ===== src/Pop/Http.antt =====
-- pop/http.go: the middleware. The header of a request is a table from names to their values, and
-- its body is what io.ReadAll returns of it, if anything.
pub mod Bound
use ans_sdk_go.Base.{
  ℕ, ◌-◌, ◌==◌, nat_eq, bytes_eq, Bool, true, false, not, ◌&&◌, ◌||◌, Option, none, some, List, [],
  ◌∷◌, ◌++◌, length, take, drop, ltb, leb, codes, if◌then◌else◌, Bytes,
}
use ans_sdk_go.Base.Members.{contains}
use ans_sdk_go.Base.Table.{lookup}
use ans_sdk_go.Base.Text.{equal_fold, to_lower, trim_space}
use ans_sdk_go.Scitt.RootKeys.{Crypto}
use ans_sdk_go.Scitt.Cose.{Cbor}
use ans_sdk_go.Scitt.Types.{Headers}
use ans_sdk_go.Scitt.Receipt.{KeyLookup}
use ans_sdk_go.Scitt.HttpHeaders.{header_receipt, header_status_token, extract_values}
use ans_sdk_go.Pop.Errors.{
  Step, passed, refused, malformed_proof, http_binding_mismatch, scitt_header_invalid, ◌>>=◌, ◌>>◌,
  refuse_if, or_refuse,
}
use ans_sdk_go.Pop.Replay.{MemoryReplayCache}
use ans_sdk_go.Pop.Proof.{ProofLibrary}
use ans_sdk_go.Pop.Verify.{Request}
use ans_sdk_go.Pop.Caller.{CallerIdentity, CallerConfig, LeafEvent, of_checked, verify_caller}

abbrev pub dpop_header : Bytes
dpop_header = codes "DPoP"

abbrev pub default_max_content_bytes : ℕ
default_max_content_bytes = 1048576

abbrev pub is_blank : ℕ → Bool
is_blank c = c == 32 || c == 9

-- strings.Trim with blanks
abbrev pub trim_blank_front : Bytes → Bytes
trim_blank_front [] = []
trim_blank_front (c ∷ s) = if is_blank c then trim_blank_front s else c ∷ s

abbrev pub unless_blank : ℕ → Bytes → Bytes
unless_blank c [] = if is_blank c then [] else c ∷ []
unless_blank c (d ∷ s) = c ∷ d ∷ s

abbrev pub trim_blank_back : Bytes → Bytes
trim_blank_back [] = []
trim_blank_back (c ∷ s) = unless_blank c (trim_blank_back s)

-- The token after the scheme, where a blank comes first.
abbrev pub token_after : Bytes → Option Bytes
token_after [] = none
token_after (c ∷ s) =
    let tok = trim_blank_back (trim_blank_front (c ∷ s)) in
    if not (is_blank c) then none else if tok == [] then none else some tok

unfoldable pub access_token_from_authorization : Bytes → Option Bytes
access_token_from_authorization v =
    if leb (length v) 4 || not (equal_fold (take 4 v) (codes "DPoP"))
    then none
    else token_after (drop 4 v)

-- strings.TrimSuffix
abbrev pub trim_suffix : Bytes → Bytes → Bytes
trim_suffix s suffix =
    let n = length s - length suffix in
    if leb (length suffix) (length s) && drop n s == suffix then take n s else s

unfoldable pub trusted_key : (scheme authority : Bytes) → Bytes
trusted_key scheme authority =
    let name = to_lower (trim_space authority) in
    scheme
    ++ codes "://"
    ++ (if scheme == codes "https"
        then trim_suffix name (codes ":443")
        else if scheme == codes "http"
        then trim_suffix name (codes ":80")
        else name)

pub record Inbound : Type 0 where
  pub ctx_done : Bool
  pub header : List (Bytes × List Bytes)
  pub method : Bytes
  pub is_tls : Bool
  pub host : Bytes
  pub request_uri : Bytes
  pub body : Option Bytes
  -- the clock of the caller's configuration
  pub now : ℕ

-- `external_url` is there if externalSet is true.
pub record MiddlewareConfig : Type 0 where
  pub external_url : Option (Inbound → Bytes)
  pub trusted_hosts : List Bytes
  pub caller : CallerConfig
  pub max_content_bytes : ℕ

-- Header.Values and Header.Get
unfoldable pub values : Bytes → Inbound → List Bytes
values name r = elim (lookup name r.header) [ none ↦ [] | some vs ↦ vs ]

abbrev pub first_or_empty : List Bytes → Bytes
first_or_empty [] = []
first_or_empty (v ∷ vs) = v

unfoldable pub request_scheme : Inbound → Bytes
request_scheme r = if r.is_tls then codes "https" else codes "http"

unfoldable pub default_request_url : Inbound → Bytes
unfolding request_scheme
default_request_url r = request_scheme r ++ codes "://" ++ r.host ++ r.request_uri

abbrev pub add_trusted : MiddlewareConfig → List Bytes → MiddlewareConfig
add_trusted c [] = c
add_trusted c (h ∷ hosts) =
    add_trusted
      (if trim_space h == [] then c else record c {
        trusted_hosts =
            trusted_key (codes "http") h ∷ trusted_key (codes "https") h ∷ c.trusted_hosts;
      })
      hosts

-- WithTrustedHosts, `none` where it panics.
unfoldable pub with_trusted_hosts : List Bytes → MiddlewareConfig → Option MiddlewareConfig
with_trusted_hosts hosts c =
    let trusting = add_trusted c hosts in
    if ltb 0 (length hosts) && length trusting.trusted_hosts == 0 then none else some trusting

unfoldable pub with_max_content_bytes : ℕ → MiddlewareConfig → MiddlewareConfig
with_max_content_bytes n c = if ltb 0 n then record c { max_content_bytes = n } else c

-- A header that decides a verification, but more than once.
unfoldable pub is_duplicate : Bytes → Inbound → Bool
is_duplicate name r = ltb 1 (length (values name r))

-- The body that http.MaxBytesReader and io.ReadAll make of it.
unfoldable pub read_content : (max_bytes : ℕ) → Option Bytes → Option Bytes
read_content max_bytes none = none
read_content max_bytes (some body) = if ltb max_bytes (length body) then none else some body

abbrev pub body_or_empty : Option Bytes → Bytes
body_or_empty none = []
body_or_empty (some body) = body

-- `parse_authority` is url.Parse: the scheme and the host with its port.
module _ (parse_authority : Bytes → Option (Bytes × Bytes)) where
  abbrev pub authority_of : Option (Inbound → Bytes) → Inbound → Step (Bytes × Bytes)
  authority_of none r = passed (request_scheme r, r.host)
  authority_of (some external_url) r = do
    u ← or_refuse (parse_authority (external_url r)) http_binding_mismatch
    passed (to_lower u.0, u.1)

  -- checkAuthority, where there is a trusted host.
  abbrev pub check_trusted : MiddlewareConfig → Inbound → Step (Unit {0})
  check_trusted c r = do
    authority ← authority_of c.external_url r
    refuse_if (not (contains (trusted_key authority.0 authority.1) c.trusted_hosts))
        http_binding_mismatch

  unfoldable pub check_authority : MiddlewareConfig → Inbound → Step (Unit {0})
  check_authority c r = if length c.trusted_hosts == 0 then passed tt else check_trusted c r

  unfoldable pub preflight : MiddlewareConfig → Inbound → Step (Unit {0})
  preflight c r = do
    refuse_if (is_duplicate dpop_header r) malformed_proof
    refuse_if (is_duplicate (codes "Authorization") r) malformed_proof
    refuse_if (is_duplicate header_receipt r) malformed_proof
    refuse_if (is_duplicate header_status_token r) malformed_proof
    check_authority c r

  abbrev pub target_url : Option (Inbound → Bytes) → Inbound → Bytes
  target_url none r = default_request_url r
  target_url (some external_url) r = external_url r

  -- The request that VerifyCaller is called with.
  abbrev pub caller_request : MiddlewareConfig → Inbound → Request
  caller_request c r = record {
    ctx_done = r.ctx_done;
    proof_jws = first_or_empty (values dpop_header r);
    method = r.method;
    raw_url = target_url c.external_url r;
    now = r.now;
    skew = c.caller.pop_skew;
    access_token =
        access_token_from_authorization (first_or_empty (values (codes "Authorization") r));
    content = some (read_content c.max_content_bytes r.body);
  }

  -- What comes before VerifyCaller.
  unfoldable pub before_caller : MiddlewareConfig → Inbound → Step Headers
  before_caller c r = do
    hdrs ←
        of_checked
          (extract_values (first_or_empty (values header_receipt r))
            (first_or_empty (values header_status_token r)))
          scitt_header_invalid
    preflight c r
    passed hdrs

  module _ (decode_leaf : Bytes → Option LeafEvent) (lib : ProofLibrary) (cbor : Cbor)
      (crypto : Crypto) where
    abbrev pub with_body : Bytes → Step CallerIdentity → Step (CallerIdentity × Bytes)
    with_body content (passed id) = passed (id, content)
    with_body content (refused e) = refused e

    -- authenticate; on success with the content that it read.
    unfoldable pub authenticate :
        ℕ
        → MiddlewareConfig
        → Inbound
        → KeyLookup
        → MemoryReplayCache
        → Step (CallerIdentity × Bytes) × MemoryReplayCache
    authenticate clock c r keys replay = elim (before_caller c r) [
      | refused e ↦ (refused e, replay)
      | passed hdrs ↦
          let done =
            verify_caller decode_leaf lib cbor crypto clock c.caller (caller_request c r)
              (some hdrs) (some keys) replay in
          (with_body (body_or_empty (read_content c.max_content_bytes r.body)) done.0, done.1)
    ]
