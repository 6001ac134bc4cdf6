-- ===== src/Models/Badge.antt =====
-- models/badge.go. Times are nanoseconds since the epoch.
pub mod Connecting
use ans_sdk_go.Base.{ℕ, bytes_eq, Bool, true, false, Option, none, some, List, [], Bytes}

-- A status is a string; the constants have names, `unknown` is any other string.
pub data BadgeStatus : Type 0 where
  active warning deprecated expired revoked : BadgeStatus
  unknown : Bytes → BadgeStatus

unfoldable pub is_valid_for_connection : BadgeStatus → Bool
is_valid_for_connection active = true
is_valid_for_connection warning = true
is_valid_for_connection deprecated = true
is_valid_for_connection expired = false
is_valid_for_connection revoked = false
is_valid_for_connection (unknown s) = false

unfoldable pub is_active : BadgeStatus → Bool
is_active active = true
is_active warning = true
is_active deprecated = false
is_active expired = false
is_active revoked = false
is_active (unknown s) = false

unfoldable pub should_reject : BadgeStatus → Bool
should_reject expired = true
should_reject revoked = true
should_reject active = false
should_reject warning = false
should_reject deprecated = false
should_reject (unknown s) = false

pub record CertAttestation : Type 0 where
  pub fingerprint : Bytes
  pub cert_type : Bytes

pub record Attestations : Type 0 where
  pub domain_validation : Bytes
  pub identity_cert : Option CertAttestation
  pub server_cert : Option CertAttestation

pub record AgentInfo : Type 0 where
  pub host : Bytes
  pub name : Bytes
  pub version : Bytes

pub data EventType : Type 0 where
  agent_registered agent_renewed agent_deprecated agent_revoked : EventType
  other_event : Bytes → EventType

pub record AgentEvent : Type 0 where
  pub ans_id : Bytes
  pub ans_name : Bytes
  pub event_type : EventType
  pub agent : AgentInfo
  pub attestations : Attestations
  pub expires_at : Option ℕ
  pub issued_at : ℕ
  pub ra_id : Bytes
  pub timestamp : ℕ

pub record Producer : Type 0 where
  pub event : AgentEvent
  pub key_id : Bytes
  pub signature : Bytes

pub record BadgePayload : Type 0 where
  pub log_id : Bytes
  pub producer : Producer

-- An int64 is its 64-bit pattern: no function here computes with one.
pub record MerkleProof : Type 0 where
  pub leaf_hash : Bytes
  pub root_hash : Bytes
  pub root_signature : Bytes
  pub tree_size : ℕ
  pub tree_version : ℕ
  pub leaf_index : Option ℕ
  pub path : List Bytes

pub record Badge : Type 0 where
  pub status : BadgeStatus
  pub payload : BadgePayload
  pub schema_version : Bytes
  pub badge_signature : Option Bytes
  pub merkle_proof : Option MerkleProof

abbrev pub event_of : Badge → AgentEvent
event_of b = b.payload.producer.event

abbrev pub agent_name : Badge → Bytes
agent_name b = (event_of b).ans_name

abbrev pub agent_host : Badge → Bytes
agent_host b = (event_of b).agent.host

abbrev pub agent_version : Badge → Bytes
agent_version b = (event_of b).agent.version

abbrev pub fingerprint_or_empty : Option CertAttestation → Bytes
fingerprint_or_empty none = []
fingerprint_or_empty (some cert) = cert.fingerprint

unfoldable pub server_cert_fingerprint : Badge → Bytes
server_cert_fingerprint b = fingerprint_or_empty (event_of b).attestations.server_cert

unfoldable pub identity_cert_fingerprint : Badge → Bytes
identity_cert_fingerprint b = fingerprint_or_empty (event_of b).attestations.identity_cert

abbrev pub agent_id : Badge → Bytes
agent_id b = (event_of b).ans_id

abbrev pub is_valid : Badge → Bool
is_valid b = is_valid_for_connection b.status
