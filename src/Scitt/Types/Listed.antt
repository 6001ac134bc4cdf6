-- ===== src/Scitt/Types/Listed.antt =====
-- What a status token has to say of a certificate, apart from the tests of the code.
use ans_sdk_go.Base.{◌≡◌, ◌⊎◌, inl, inr, refl, true, List, [], ◌∷◌, Bytes, bytes_beq_iff, arith}
use ans_sdk_go.Scitt.Types.{
  AgentStatus, active, warning, deprecated, expired, revoked, unknown, CertEntry,
  StatusTokenPayload, allows_connection, lists_fingerprint, matches_server_cert,
  matches_identity_cert,
}

-- A fingerprint is that of an entry of a list.
abbrev pub IsEntryOf : Bytes → List CertEntry → Type 0
IsEntryOf f [] = ⊥
IsEntryOf f (cert ∷ certs) = (cert.fingerprint ≡ f) ⊎ IsEntryOf f certs

pub lists_fingerprint-IsEntryOf :
    (f : Bytes) (certs : List CertEntry) → lists_fingerprint f certs ≡ true → IsEntryOf f certs
unfolding lists_fingerprint
lists_fingerprint-IsEntryOf f [] h = cc
lists_fingerprint-IsEntryOf f (cert ∷ certs) h =
    ground (arith, bytes_beq_iff cert.fingerprint f, lists_fingerprint-IsEntryOf f certs)

-- The statuses with which a connection is made.
abbrev pub IsConnecting : AgentStatus → Type 0
IsConnecting s = (s ≡ active) ⊎ ((s ≡ warning) ⊎ (s ≡ deprecated))

pub allows_connection-IsConnecting : (s : AgentStatus) → allows_connection s ≡ true → IsConnecting s
unfolding allows_connection
allows_connection-IsConnecting active h = inl refl
allows_connection-IsConnecting warning h = inr (inl refl)
allows_connection-IsConnecting deprecated h = inr (inr refl)
allows_connection-IsConnecting expired h = cc
allows_connection-IsConnecting revoked h = cc
allows_connection-IsConnecting (unknown s) h = cc

pub matches_identity_cert-IsEntryOf :
    (payload : StatusTokenPayload) (f : Bytes)
    → matches_identity_cert payload f ≡ true
    → IsEntryOf f payload.valid_identity_certs
unfolding matches_identity_cert
matches_identity_cert-IsEntryOf payload f h =
    lists_fingerprint-IsEntryOf f payload.valid_identity_certs h

pub matches_server_cert-IsEntryOf :
    (payload : StatusTokenPayload) (f : Bytes)
    → matches_server_cert payload f ≡ true
    → IsEntryOf f payload.valid_server_certs
unfolding matches_server_cert
matches_server_cert-IsEntryOf payload f h =
    lists_fingerprint-IsEntryOf f payload.valid_server_certs h
