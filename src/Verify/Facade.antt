-- ===== src/Verify/Facade.antt =====
-- AnsVerifier of verify/verify.go: both verifiers over one configuration and one cache.
use ans_sdk_go.Base.{Option, none, some, Bytes}
use ans_sdk_go.Models.Badge.{Badge}
use ans_sdk_go.Models.Fqdn.{ok, err, new_fqdn}
use ans_sdk_go.Scitt.Types.{Headers}
use ans_sdk_go.Verify.BadgeCache.{BadgeCache}
use ans_sdk_go.Verify.Cert.{CertIdentity}
use ans_sdk_go.Verify.Config.{VerifierConfig}
use ans_sdk_go.Verify.Environment.{Environment}
use ans_sdk_go.Verify.Errors.{VerifyError, bad_fqdn}
use ans_sdk_go.Verify.Outcome.{cert_failed, failed_outcome}
use ans_sdk_go.Verify.ScittPath.{Result}
use ans_sdk_go.Verify.Server
use ans_sdk_go.Verify.Client

module _ (env : Environment) (config : VerifierConfig) where
  unfoldable pub verify_server : Option BadgeCache → Bytes → CertIdentity → Result
  verify_server cache s cert = elim (new_fqdn s) [
    | err e ↦ (failed_outcome cert_failed (bad_fqdn e), cache)
    | ok f ↦ Server.verify env config cache f cert
  ]

  unfoldable pub verify_client : Option BadgeCache → CertIdentity → Result
  verify_client cache cert = Client.verify env config cache cert

  unfoldable pub verify_server_with_scitt :
      Option BadgeCache → Bytes → CertIdentity → Option Headers → Result
  verify_server_with_scitt cache s cert headers = elim (new_fqdn s) [
    | err e ↦ (failed_outcome cert_failed (bad_fqdn e), cache)
    | ok f ↦ Server.verify_with_scitt env config cache f cert headers
  ]

  unfoldable pub verify_client_with_scitt :
      Option BadgeCache → CertIdentity → Option Headers → Result
  verify_client_with_scitt cache cert headers =
      Client.verify_with_scitt env config cache cert headers

  unfoldable pub prefetch_badge :
      Option BadgeCache → Bytes → (Option Badge × Option VerifyError) × Option BadgeCache
  prefetch_badge cache s = elim (new_fqdn s) [
    | err e ↦ ((none, some (bad_fqdn e)), cache)
    | ok f ↦ Server.prefetch env config cache f
  ]
