-- ===== src/Tests/Verify.antt =====
-- verify/verify.go, verify/dane.go, verify/cache.go and verify/url_validator.go on concrete inputs.
use ans_sdk_go.Base.{
  ◌+◌, ◌≡◌, ◌↔◌, ◌≤◌, refl, true, none, some, [], ◌∷◌, arith, codes, bytes_beq, bytes_eq, nat_eq,
  ltb, if◌then◌else◌, length,
}
use ans_sdk_go.Base.Members.{contains}
use ans_sdk_go.Base.Text.{
  has_prefix, cut_prefix, trim_prefix, trim_last, ends_with, equal_fold, split, split_n, decimal,
  parse_uint32,
}
use ans_sdk_go.Base.Text.Hex.{hex_digit, encode_hex, hex_value, decode_hex}
use ans_sdk_go.Models.Badge.{
  is_valid_for_connection, server_cert_fingerprint, identity_cert_fingerprint,
}
use ans_sdk_go.Models.Fqdn.{check_label, check_labels, new_fqdn}
use ans_sdk_go.Models.Version.{parse_version, parse_split, parse_parts}
use ans_sdk_go.Scitt.Types.{
  StatusTokenPayload, AgentStatus, CertType, Headers, allows_connection, lists_fingerprint,
  matches_server_cert,
}
use ans_sdk_go.Base.Int.{pos}
use ans_sdk_go.Verify.BadgeCache.{
  BadgeCache, default_cache_config, new_entry, get_by_fqdn, get_stale_by_fqdn, insert_badge,
}
use ans_sdk_go.Verify.BadgeCache.Bound.{Visits-stored, insert_badge-bound}
use ans_sdk_go.Verify.BadgeCache.Freshness.{insert_badge-get_by_fqdn}
use ans_sdk_go.Verify.Cert.{
  parse_cert_fingerprint, parse_hex_part, matches, parse_ans_name, parse_name_parts, cert_fqdn,
  cert_ans_name, first_ans_name,
}
use ans_sdk_go.Verify.Client
use ans_sdk_go.Verify.Client.{
  verify_with_badge, fetch_badge, cached_badge, verify_fresh, verify_named, verify,
}
use ans_sdk_go.Verify.Client.Safety.{verify-IsShown}
use ans_sdk_go.Verify.Config.{VerifierConfig, ScittCheck, token_ok, validate_badge_url, verify_dane}
use ans_sdk_go.Verify.Dane.{TlsaRecord, TlsaReply, tlsa_result, dane_verify, is_reject}
use ans_sdk_go.Verify.Dane.Reject.{Rejects, dane_verify-Rejects_iff}
use ans_sdk_go.Verify.Environment.{fetch_after_lookup, fetch_from_record}
use ans_sdk_go.Verify.Environment.Stopped.{IsSound, fetch_after_lookup-IsSound}
use ans_sdk_go.Verify.Outcome.{OutcomeType, outcome_of, verified, verified_outcome, is_success}
use ans_sdk_go.Verify.ScittPath.{
  Result, role_server, matches_role, bind_host, check_payload, check_artifacts, verify_with_headers,
}
use ans_sdk_go.Verify.Server
use ans_sdk_go.Verify.Server.{accept, check_cert_host, check_cache}
use ans_sdk_go.Verify.Server.FailClosed.{verify-success}
use ans_sdk_go.Verify.Server.Safety.{verify-verified}
use ans_sdk_go.Verify.UrlValidator.{validate, validate_parsed, is_domain_trusted, has_dots}
use ans_sdk_go.Tests.Fixtures.{digest, host, badge, cert, config, env}

texts : Unit {0}
unfolding has_prefix cut_prefix trim_prefix trim_last ends_with equal_fold split split_n decimal
    parse_uint32 hex_digit encode_hex hex_value decode_hex bytes_beq contains
texts = tt

comparisons : Unit {0}
unfolding texts is_valid_for_connection server_cert_fingerprint identity_cert_fingerprint matches
    parse_cert_fingerprint parse_hex_part cert_fqdn cert_ans_name first_ans_name parse_ans_name
    parse_name_parts parse_version parse_split parse_parts new_fqdn check_labels check_label
comparisons = tt

server : Unit {0}
unfolding comparisons Server.verify Server.verify_with_badge check_cert_host accept outcome_of
    verified_outcome check_cache Server.cached_badge Server.fetch_badge fetch_after_lookup
    fetch_from_record validate_badge_url validate validate_parsed is_domain_trusted has_dots
    Server.verify_fresh is_success verify_dane
server = tt

is_verified : (Server.verify env config none host cert).0.outcome_type ≡ verified
unfolding server
is_verified = refl

verify-verified_example :
    Server.Safety.IsShown env config none host cert (Server.verify env config none host cert).0
verify-verified_example = verify-verified env config none host cert is_verified

succeeds : is_success (Server.verify env config none host cert).0.outcome_type ≡ true
unfolding server
succeeds = refl

verify-success_example :
    Server.Safety.IsShown env config none host cert (Server.verify env config none host cert).0
verify-success_example = verify-success env config none host cert refl succeeds

fetch_after_lookup-IsSound_example :
    IsSound env config none host none
      (config.find_preferred_badge host)
      (fetch_after_lookup env config none host none (config.find_preferred_badge host))
fetch_after_lookup-IsSound_example =
    fetch_after_lookup-IsSound env config none host none (config.find_preferred_badge host)

client : Unit {0}
unfolding comparisons verify verify_named verify_with_badge accept outcome_of verified_outcome
    cached_badge fetch_badge fetch_after_lookup fetch_from_record validate_badge_url validate
    validate_parsed is_domain_trusted has_dots verify_fresh is_success verify_dane
client = tt

client_verified : (verify env config none cert).0.outcome_type ≡ verified
unfolding client
client_verified = refl

verify-IsShown_example : Client.Safety.IsShown env config none cert (verify env config none cert).0
verify-IsShown_example = verify-IsShown env config none cert client_verified

abbrev payload : StatusTokenPayload
payload = record {
  agent_id = codes "x";
  ans_name = codes "ans://v1.2.3.A.example";
  status = AgentStatus.active;
  iat = pos 1;
  exp = pos 9;
  valid_identity_certs = [];
  valid_server_certs = record { fingerprint = digest; cert_type = CertType.x509_dv_server } ∷ [];
  metadata_hashes = [];
}

abbrev keys : ScittCheck
keys = record { verify_receipt = λ r. none; verify_status_token = λ t skew. token_ok payload }

abbrev scitt_config : VerifierConfig
scitt_config = record config { scitt_key_lookup = some keys }

abbrev headers : Headers
headers = record { receipt = 1 ∷ []; status_token = 2 ∷ [] }

abbrev fallback : Result
fallback = (outcome_of OutcomeType.dns_failed, none)

scitt : Unit {0}
unfolding comparisons verify_with_headers check_artifacts check_payload bind_host matches_role
    matches_server_cert lists_fingerprint allows_connection verify_dane outcome_of
scitt = tt

scitt_verified :
    (verify_with_headers env.sha256 env.sha512 scitt_config host cert headers role_server none
      fallback).0.outcome_type
    ≡ verified
unfolding scitt
scitt_verified = refl

abbrev tlsa : TlsaRecord
tlsa = record { usage = 3; selector = 0; matching_type = 1; cert_hash = [] }

abbrev answer : TlsaReply
answer = tlsa_result (record { found = true; records = tlsa ∷ []; dnssec_valid = true })

dane_verify-Rejects_iff_example :
    (is_reject (dane_verify env.sha256 env.sha512 (λ f port. answer) host 443 (some cert)).dane_type
      ≡ true)
    ↔ Rejects env.sha256 env.sha512 cert answer
dane_verify-Rejects_iff_example =
    dane_verify-Rejects_iff env.sha256 env.sha512 (λ f port. answer) host 443 cert

abbrev cache : BadgeCache
cache = record { config = default_cache_config; by_fqdn = []; by_fqdn_ver = [] }

insert_badge-get_by_fqdn_example :
    (get_by_fqdn 60 host (insert_badge (λ ks. ks) 50 host badge cache)
      ≡ (if ltb (50 + 300000000000) 60 then none else some (new_entry 50 badge cache).cached))
    × (get_stale_by_fqdn 60 host 5 (insert_badge (λ ks. ks) 50 host badge cache)
        ≡ (if ltb (50 + 300000000000 + 5) 60 then none else some (new_entry 50 badge cache).cached))
insert_badge-get_by_fqdn_example =
    insert_badge-get_by_fqdn (λ ks. ks) 50 60 5 host badge cache (omega arith)

insert_badge-bound_example :
    length (insert_badge (λ ks. ks) 50 host badge cache).by_fqdn
      + length (insert_badge (λ ks. ks) 50 host badge cache).by_fqdn_ver
    ≤ 1000
insert_badge-bound_example = insert_badge-bound (λ ks. ks) 50 host badge cache tt tt Visits-stored
