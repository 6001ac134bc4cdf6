-- ===== src/Verify/Server/Accepted.antt =====
-- Which badges a server certificate is verified against.
use ans_sdk_go.Base.{◌≡◌, ◌↔◌, refl, true, Option, none, some, arith, Bytes, Option-cases, inl, inr}
use ans_sdk_go.Base.Text.{equal_fold}
use ans_sdk_go.Models.Badge.{Badge, is_valid_for_connection, server_cert_fingerprint, agent_host}
use ans_sdk_go.Models.Badge.Connecting.{IsConnecting, is_valid_for_connection_iff}
use ans_sdk_go.Models.Fqdn.{Fqdn}
use ans_sdk_go.Verify.Cert.{CertIdentity, matches, cert_fqdn}
use ans_sdk_go.Verify.Outcome.{
  verified, outcome_of, verified_outcome, invalid_status_outcome, mismatch_outcome,
}
use ans_sdk_go.Verify.Server.{accept, check_cert_host, verify_with_badge}

-- The name of a certificate, if it has one, is a host up to case.
abbrev pub NamesHost : Option Bytes → Bytes → Type 0
NamesHost none host = Unit
NamesHost (some name) host = equal_fold name host ≡ true

-- What the badge has to say of the certificate and the name that is asked for.
pub record IsAccepted (b : Badge) (cert : CertIdentity) (f : Fqdn) : Type 0 where
  pub connects : IsConnecting b.status
  pub fingerprint : matches cert.fingerprint (server_cert_fingerprint b) ≡ true
  pub host : equal_fold (agent_host b) f.value ≡ true
  pub cert_host : NamesHost (cert_fqdn cert) (agent_host b)

check_cert_host_lem :
    (b : Badge) (cert : CertIdentity)
    → ((check_cert_host b cert).outcome_type ≡ verified) ↔ NamesHost (cert_fqdn cert) (agent_host b)
unfolding check_cert_host accept verified_outcome mismatch_outcome outcome_of
check_cert_host_lem b cert = elim (Option-cases (cert_fqdn cert)) [
  | inl e ↦ rw (e, check_cert_host) ((λ h. tt), (λ h. refl))
  | inr (name, e) ↦ rw (e, check_cert_host) (ground arith)
]

-- Verification against a badge succeeds exactly if the badge's status allows connections, its
-- server fingerprint is the certificate's, and its host is the name asked for and the name in the
-- certificate, where there is one.
pub verify_with_badge_lem :
    (b : Badge) (cert : CertIdentity) (f : Fqdn)
    → ((verify_with_badge b cert f).outcome_type ≡ verified) ↔ IsAccepted b cert f
unfolding verify_with_badge invalid_status_outcome mismatch_outcome outcome_of
verify_with_badge_lem b cert f = (
  (λ h.
      let c : is_valid_for_connection b.status ≡ true = ground arith in
      let m : matches cert.fingerprint (server_cert_fingerprint b) ≡ true = ground arith in
      let e : equal_fold (agent_host b) f.value ≡ true = ground arith in
      record {
        connects = (is_valid_for_connection_iff b.status).0 c;
        fingerprint = m;
        host = e;
        cert_host = (check_cert_host_lem b cert).0 (rw (c, m, e) at h);
      }),
  (λ a.
      rw ((is_valid_for_connection_iff b.status).1 a.connects, a.fingerprint, a.host)
        ((check_cert_host_lem b cert).1 a.cert_host)),
)
