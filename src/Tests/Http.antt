-- ===== src/Tests/Http.antt =====
-- pop/http.go with one request.
use ans_sdk_go.Base.{◌≡◌, refl, true, false, Option, some, none, [], ◌∷◌, codes, Bytes}
use ans_sdk_go.Base.Table.{lookup}
use ans_sdk_go.Base.Text.{equal_fold, trim_space}
use ans_sdk_go.Base.Text.Base64.{encode_base64}
use ans_sdk_go.Scitt.Types.{Headers}
use ans_sdk_go.Scitt.HttpHeaders.{
  header_receipt, header_status_token, extract_values, decode_header_value,
}
use ans_sdk_go.Pop.Errors.{passed}
use ans_sdk_go.Pop.Verify.{ProofResult}
use ans_sdk_go.Pop.Caller.Vouched.{IsVouched}
use ans_sdk_go.Pop.Http.{
  Inbound, MiddlewareConfig, dpop_header, default_max_content_bytes, trusted_key, values,
  access_token_from_authorization, request_scheme, default_request_url, is_duplicate, read_content,
  check_authority, preflight, caller_request, before_caller, authenticate, with_trusted_hosts,
}
use ans_sdk_go.Pop.Http.Bound.{IsSingle, IsTrusted, IsHandedOn, authenticate-IsHandedOn}
use ans_sdk_go.Tests.ScittFixtures.{crypto, keys, item}
use ans_sdk_go.Tests.Pop.{library, request, empty}
use ans_sdk_go.Tests.Caller.{caller_cbor, decode_leaf, config, identity}
use ans_sdk_go.Tests.Caller

abbrev middleware : MiddlewareConfig
middleware = record {
  external_url = none;
  trusted_hosts = codes "https://a" ∷ [];
  caller = config;
  max_content_bytes = default_max_content_bytes;
}

abbrev parse_authority : Bytes → Option (Bytes × Bytes)
parse_authority u = none

abbrev inbound : Inbound
inbound = record {
  ctx_done = false;
  header =
      (dpop_header, request.proof_jws ∷ [])
      ∷ (header_receipt, encode_base64 (item 1) ∷ [])
      ∷ (header_status_token, encode_base64 (item 2) ∷ [])
      ∷ (codes "Authorization", codes "Bearer x" ∷ [])
      ∷ [];
  method = codes "GET";
  is_tls = true;
  host = codes "A:443";
  request_uri = codes "/x";
  body = some (1 ∷ []);
  now = 110000000000;
}

program : Unit {0}
unfolding Caller.program lookup equal_fold trim_space encode_base64 extract_values
    decode_header_value trusted_key values access_token_from_authorization request_scheme
    default_request_url is_duplicate read_content check_authority preflight before_caller
    authenticate with_trusted_hosts
program = tt

-- The scheme is compared without case, and a token of another scheme is none.
tokens :
    (access_token_from_authorization (codes "dpop  t ") ≡ some (codes "t"))
    × (access_token_from_authorization (codes "Bearer t") ≡ none)
unfolding program
tokens = (refl, refl)

lets_through :
    (authenticate parse_authority decode_leaf library caller_cbor crypto 110000000500 middleware
      inbound keys empty).0
    ≡ passed (identity, 1 ∷ [])
unfolding program
lets_through = refl

authenticate-IsHandedOn_example :
    IsSingle parse_authority inbound
    × IsTrusted parse_authority middleware inbound
    × ((hdrs : Headers) × (proof : ProofResult) × IsVouched decode_leaf library caller_cbor crypto
          config
          (caller_request parse_authority middleware inbound)
          (some hdrs)
          (some keys)
          identity
          proof
        × IsHandedOn parse_authority decode_leaf library caller_cbor crypto middleware inbound proof
            (1 ∷ []))
authenticate-IsHandedOn_example =
    authenticate-IsHandedOn parse_authority decode_leaf library caller_cbor crypto 110000000500
      middleware inbound keys empty (identity, 1 ∷ []) lets_through
