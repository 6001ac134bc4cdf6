-- ===== src/Tests/StatusToken.antt =====
-- verify/scitt/status_token.go, verify/scitt/supplier.go and the SCITT path with one token.
use ans_sdk_go.Base.{
  ◌≡◌, ◌≢◌, ◌⊎◌, ◌∙◌, refl, sym, true, false, none, some, [], ◌∷◌, codes, bytes_beq, bytes_eq,
  nat_eq,
}
use ans_sdk_go.Base.Int.{pos, ◌+ℤ◌, ltz}
use ans_sdk_go.Base.Text.{equal_fold, trim_prefix, parse_uint32}
use ans_sdk_go.Base.Text.Base64.{encode_base64, base64_digit}
use ans_sdk_go.Models.Version.{parse_version}
use ans_sdk_go.Scitt.Errors.{good}
use ans_sdk_go.Scitt.Types.{
  Headers, is_terminal, allows_connection, matches_server_cert, lists_fingerprint,
}
use ans_sdk_go.Scitt.StatusToken.{
  VerifiedStatusToken, skew_seconds, add_seconds, issuer_differs, check_status,
  verify_status_token_at,
}
use ans_sdk_go.Scitt.StatusToken.Accepted.{IsSigned, IsCurrent, verify_status_token_at-IsSigned}
use ans_sdk_go.Scitt.Supplier.{
  HeaderSupplier, Fetch, new_header_supplier, with_supplier_clock_skew, fetch_artifacts,
  fetch_and_verify, init_once, headers_at, current_headers, encode_if_non_empty, healthy,
  refresh_now,
}
use ans_sdk_go.Scitt.Supplier.Backed.{Step, Reach}
use ans_sdk_go.Scitt.Supplier.Fresh.{IsSent, started, current_headers-IsSent}
use ans_sdk_go.Verify.Cert.{parse_ans_name}
use ans_sdk_go.Verify.Config.{VerifierConfig, verify_dane}
use ans_sdk_go.Verify.Outcome.{OutcomeType, verified, outcome_of}
use ans_sdk_go.Verify.ScittKeys.{scitt_check}
use ans_sdk_go.Verify.ScittPath.{
  Result, role_server, verify_with_headers, check_artifacts, check_payload, bind_host, matches_role,
}
use ans_sdk_go.Verify.ScittPath.Attested.{IsEvidenced, verify_with_headers-IsEvidenced}
use ans_sdk_go.Tests.Fixtures.{host, cert, config, env}
use ans_sdk_go.Tests.ScittFixtures.{payload, crypto, cbor, keys, item}
use ans_sdk_go.Tests.Scitt

program : Unit {0}
unfolding Scitt.program verify_status_token_at check_status issuer_differs add_seconds skew_seconds
    is_terminal ◌+ℤ◌ ltz bytes_beq
program = tt

abbrev token : VerifiedStatusToken
token = record { payload = payload; key_id = 1 ∷ 0 ∷ 0 ∷ 0 ∷ [] }

accepts :
    verify_status_token_at cbor crypto (item 2) keys (pos 120000000000) (pos 1120) ≡ good token
unfolding program
accepts = refl

-- An expiry at the end of the range is one that the sum with the tolerance turns negative.
wraps : ltz (add_seconds (pos 9223372036854775807) 1) (pos 0) ≡ true
unfolding program
wraps = refl

verify_status_token_at-IsSigned_example :
    IsSigned cbor crypto (item 2) keys token × IsCurrent payload (pos 120000000000) (pos 1120)
verify_status_token_at-IsSigned_example =
    verify_status_token_at-IsSigned cbor crypto (item 2) keys (pos 120000000000) (pos 1120) token
      accepts

abbrev fetch : Fetch
fetch = record {
  receipt_reply = good (item 1);
  token_reply = good (item 2);
  keys = keys;
  now = pos 900;
}

supplying : Unit {0}
unfolding program current_headers headers_at init_once fetch_and_verify fetch_artifacts
    encode_if_non_empty encode_base64 base64_digit new_header_supplier healthy refresh_now
    with_supplier_clock_skew
supplying = tt

-- A supplier after a refresh.
abbrev refreshed : HeaderSupplier
refreshed = (refresh_now cbor crypto (started (pos 30000000000)) fetch).1

sends : (current_headers cbor crypto refreshed fetch (pos 999)).0.status_token_base64 ≡ codes "Ag=="
unfolding supplying
sends = refl

present : codes "Ag==" ≢ []
present h = cc

current_headers-IsSent_example :
    IsSent cbor crypto
      (fetch ∷ fetch ∷ [])
      (started (pos 30000000000)).clock_skew
      (current_headers cbor crypto refreshed fetch (pos 999)).0
      (pos 999)
current_headers-IsSent_example =
    current_headers-IsSent cbor crypto (pos 30000000000) (fetch ∷ []) refreshed fetch (pos 999)
      (Reach.next Reach.here (Step.refreshes refl)) (λ h. present (sym sends ∙ h))

-- A refresh that succeeds does not make a supplier that is not initialized healthy.
refreshed_unhealthy : healthy (refresh_now cbor crypto new_header_supplier fetch).1 ≡ false
unfolding supplying
refreshed_unhealthy = refl

abbrev keyed_config : VerifierConfig
keyed_config = record config { scitt_key_lookup = some (scitt_check cbor crypto keys (pos 900)) }

abbrev headers : Headers
headers = record { receipt = item 1; status_token = item 2 }

abbrev fallback : Result
fallback = (outcome_of OutcomeType.dns_failed, none)

scitt : Unit {0}
unfolding program trim_prefix scitt_check verify_with_headers check_artifacts check_payload
    bind_host matches_role matches_server_cert lists_fingerprint allows_connection verify_dane
    outcome_of parse_ans_name parse_version parse_uint32 equal_fold
scitt = tt

scitt_verified :
    (verify_with_headers env.sha256 env.sha512 keyed_config host cert headers role_server none
      fallback).0.outcome_type
    ≡ verified
unfolding scitt
scitt_verified = refl

verify_with_headers-IsEvidenced_example :
    (verify_with_headers env.sha256 env.sha512 keyed_config host cert headers role_server none
        fallback
      ≡ fallback)
    ⊎ IsEvidenced env.sha256 env.sha512 cbor crypto keys
        (pos 900)
        keyed_config
        host
        cert
        headers
        role_server
verify_with_headers-IsEvidenced_example =
    verify_with_headers-IsEvidenced env.sha256 env.sha512 cbor crypto keys (pos 900) keyed_config
      host cert headers role_server none fallback refl scitt_verified
