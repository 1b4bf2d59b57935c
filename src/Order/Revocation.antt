-- ===== src/Order/Revocation.antt =====
-- src/order/revocation.rs: revoking a certificate.
use acmex.Base.{ℕ, String, ◌<>◌, not, Option, none, some, List}
use acmex.Error.{AcmeError}
use acmex.Act.{pure, refuse_if, ◌>>=◌, ◌>>◌}
use acmex.Net.{Io, is_success, text_or_unknown}
use acmex.Net.Value.{Json, Fields, num, str, obj, end, field}
use acmex.Types.{RevocationReason, as_u8}
use acmex.Platform.{Platform}
use acmex.Protocol.Directory
use acmex.Protocol.Request.{Manager, by_kid, signed_post}

pub record CertificateRevocation : Type 0 where
  pub account_id : String
  pub certificate_der : List ℕ
  pub reason : Option RevocationReason

unfoldable pub with_reason : CertificateRevocation → RevocationReason → CertificateRevocation
with_reason r reason = record r { reason = some reason }

abbrev reason_field : Option RevocationReason → Fields
reason_field none = end
reason_field (some reason) = field "reason" (num (as_u8 reason)) end

module _ {Key : Type 0} (p : Platform Key) (m : Manager Key) where
  abbrev pub revocation_payload : CertificateRevocation → Json
  revocation_payload r =
      obj (field "certificate" (str (p.base64url r.certificate_der)) (reason_field r.reason))

  unfoldable pub revoke : CertificateRevocation → Io (Unit {0})
  revoke r = do
    directory ← Directory.get p (Manager.directory_url m)
    response ←
        signed_post p m (by_kid r.account_id) directory.revoke_cert (revocation_payload r)
          "Failed to revoke certificate"
    refuse_if (not (is_success response.status)) (
        AcmeError.order ("Failed to revoke certificate: HTTP " <> p.status_text response.status)
          (text_or_unknown response.body))
    pure tt
