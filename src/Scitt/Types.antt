-- ===== src/Scitt/Types.antt =====
-- verify/scitt/types.go, the header pair of headers.go, the fallback rule of errors.go and the
-- fingerprint tests of status_token.go.
pub mod Listed
use ans_sdk_go.Base.{
  ◌==◌, nat_eq, bytes_eq, Bool, true, false, List, [], ◌∷◌, ltb, ◌&&◌, if◌then◌else◌, length, Bytes,
}
use ans_sdk_go.Base.Int.{ℤ}

-- A status is a string; `unknown` is one that has no constant.
pub data AgentStatus : Type 0 where
  active warning deprecated expired revoked : AgentStatus
  unknown : Bytes → AgentStatus

unfoldable pub allows_connection : AgentStatus → Bool
allows_connection active = true
allows_connection warning = true
allows_connection deprecated = true
allows_connection s = false

unfoldable pub is_terminal : AgentStatus → Bool
is_terminal expired = true
is_terminal revoked = true
is_terminal s = false

pub data CertType : Type 0 where
  x509_dv_server x509_ov_client : CertType
  other_type : Bytes → CertType

pub record CertEntry : Type 0 where
  pub fingerprint : Bytes
  pub cert_type : CertType

pub record StatusTokenPayload : Type 0 where
  pub agent_id : Bytes
  pub ans_name : Bytes
  pub status : AgentStatus
  pub iat : ℤ
  pub exp : ℤ
  pub valid_identity_certs : List CertEntry
  pub valid_server_certs : List CertEntry
  pub metadata_hashes : List (Bytes × Bytes)

-- The loop of both fingerprint tests. The constant-time comparison is equality.
unfoldable pub lists_fingerprint : Bytes → List CertEntry → Bool
lists_fingerprint f [] = false
lists_fingerprint f (cert ∷ certs) =
    let rest = lists_fingerprint f certs in if cert.fingerprint == f then true else rest

unfoldable pub matches_server_cert : StatusTokenPayload → Bytes → Bool
unfolding lists_fingerprint
matches_server_cert payload f = lists_fingerprint f payload.valid_server_certs

unfoldable pub matches_identity_cert : StatusTokenPayload → Bytes → Bool
unfolding lists_fingerprint
matches_identity_cert payload f = lists_fingerprint f payload.valid_identity_certs

pub record Headers : Type 0 where
  pub receipt : Bytes
  pub status_token : Bytes

unfoldable pub is_empty : Headers → Bool
is_empty h = length h.receipt == 0 && length h.status_token == 0

unfoldable pub has_both : Headers → Bool
has_both h = ltb 0 (length h.receipt) && ltb 0 (length h.status_token)

pub data TransportErrorType : Type 0 where
  not_found agent_terminal not_supported http_error base64_decode : TransportErrorType

unfoldable pub should_fallback_to_badge : TransportErrorType → Bool
should_fallback_to_badge not_found = true
should_fallback_to_badge not_supported = true
should_fallback_to_badge http_error = true
should_fallback_to_badge t = false

-- An error of the receipt and token checks: one that wraps a TransportError, or any other.
pub data ScittError : Type 0 where
  transport : TransportErrorType → ScittError
  rejected : Bytes → ScittError
