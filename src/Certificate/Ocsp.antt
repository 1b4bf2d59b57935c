-- ===== src/Certificate/Ocsp.antt =====
-- src/certificate/ocsp.rs: the revocation status of a certificate, as far as it is asked for.
use acmex.Base.{String, ◌<>◌, ◌==◌, ℕ, List, [], ◌∷◌, Option, none, some, if◌then◌else◌}
use acmex.Error.{AcmeError}
use acmex.Act.{Outcome, Answer, ok, err, and_then, outcome_of}
use acmex.Certificate.X509.{X509, Parsers, GeneralName, uri, Extension, authority_info_access}
use text.Mathlib.Text.{starts_with}

pub data OcspStatus : Type 0 where
  good revoked unknown : OcspStatus

-- the URI of one description, where its method is `id-ad-ocsp`
abbrev pub ocsp_uri : String → GeneralName → Option String
ocsp_uri method (uri u) = if method == "1.3.6.1.5.5.7.48.1" then some u else none
ocsp_uri method _ = none

abbrev or_else : Option String → Option String → Option String
or_else none rest = rest
or_else (some u) rest = some u

abbrev pub uri_in : List (String × GeneralName) → Option String
uri_in [] = none
uri_in ((method, location) ∷ rest) = or_else (ocsp_uri method location) (uri_in rest)

-- the first that is found, over the extensions in turn
unfoldable pub first_uri : List Extension → Option String
first_uri [] = none
first_uri (authority_info_access descriptions ∷ rest) =
    or_else (uri_in descriptions) (first_uri rest)
first_uri (_ ∷ rest) = first_uri rest

abbrev found : Option String → Outcome String
found none = err (AcmeError.certificate "No OCSP responder URL found in certificate extensions")
found (some u) = ok u

unfoldable pub find_ocsp_url : X509 → Outcome String
unfolding first_uri
find_ocsp_url cert = found (first_uri cert.extensions)

-- No request is sent. Whether an HTTP client can be built is the `reqwest` crate's.
module _ (p : Parsers) (client : Answer (Unit {0})) where
  unfoldable pub verify_status : List ℕ → Outcome OcspStatus
  unfolding find_ocsp_url
  verify_status der =
      and_then
        (outcome_of (p.from_der der) (λ e. AcmeError.certificate ("Parse cert failed: " <> e)))
        (λ cert. and_then (find_ocsp_url cert) (λ url.
          and_then
            (outcome_of client (λ e. AcmeError.transport ("Failed to build HTTP client: " <> e)))
            (λ _. ok (if starts_with url "http" then good else unknown))))
