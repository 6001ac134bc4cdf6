-- ===== src/Verify/Errors.antt =====
-- verify/errors.go: what the verifiers tell apart of an error value.
use ans_sdk_go.Base.{Bool, true, false, Bytes}
use ans_sdk_go.Models.Fqdn.{FqdnError}
use ans_sdk_go.Scitt.Types.{AgentStatus, ScittError}
use ans_sdk_go.Verify.Cert.{AnsNameError}
use ans_sdk_go.Verify.UrlValidator.{UrlError}

pub data VerifyError : Type 0 where
  -- an error that wraps `ErrRecordNotFound`
  record_not_found : VerifyError
  -- a DNSError of type `DNSErrorNotFound`, with its name
  dns_not_found : Bytes → VerifyError
  -- DNSErrors of the other types, with the name and the reason
  dns_timeout : Bytes → VerifyError
  dns_lookup_failed : Bytes → Bytes → VerifyError
  -- a DANEError of type `DANEErrorDNSSECFailed`
  dnssec_failed : VerifyError
  -- a `VerificationError`, with its texts Expected and Actual
  invalid_status : Bytes → VerifyError
  fingerprint_mismatch hostname_mismatch ans_name_mismatch : Bytes → Bytes → VerifyError
  no_cn no_uri_san : VerifyError
  -- what `NewFqdn` returns
  bad_fqdn : FqdnError → VerifyError
  url_refused : UrlError → VerifyError
  -- what the receipt and token checks return
  scitt_error : ScittError → VerifyError
  -- the errors that `VerifyWithScitt` makes itself
  headers_missing no_key_lookup fingerprint_not_listed : VerifyError
  status_not_allowed : AgentStatus → VerifyError
  token_name_invalid : AnsNameError → VerifyError
  token_host_mismatch : Bytes → Bytes → VerifyError
  -- any other error, with its text
  other_error : Bytes → VerifyError

-- errors.Is(err, ErrRecordNotFound)
unfoldable pub is_record_not_found : VerifyError → Bool
is_record_not_found record_not_found = true
is_record_not_found e = false

-- errors.As to a DANEError, with the type `DANEErrorDNSSECFailed`
unfoldable pub is_dnssec_failure : VerifyError → Bool
is_dnssec_failure dnssec_failed = true
is_dnssec_failure e = false

-- isNotFoundError: errors.As to a DNSError, with the type `DNSErrorNotFound`
unfoldable pub is_dns_not_found : VerifyError → Bool
is_dns_not_found (dns_not_found name) = true
is_dns_not_found e = false
