-- ===== src/Config/Ca.antt =====
-- src/ca.rs: certificate authorities and their directories.
use acmex.Base.{String, ◌<>◌, Option, none, some}
use acmex.Act.{Answer, done, fault}

-- `google` and `zero_ssl` are there in a build with their feature.
pub data CertificateAuthority : Type 0 where
  lets_encrypt google zero_ssl custom : CertificateAuthority

pub data Environment : Type 0 where
  production staging : Environment

unfoldable pub display : CertificateAuthority → String
display lets_encrypt = "Let's Encrypt"
display google = "Google Trust Services"
display zero_ssl = "ZeroSSL"
display custom = "Custom CA"

abbrev pub debug : Environment → String
debug production = "Production"
debug staging = "Staging"

pub record CaConfig : Type 0 where
  pub ca : CertificateAuthority
  pub environment : Environment
  pub custom_url : Option String
  pub contact_email : Option String

unfoldable pub new : CertificateAuthority → Environment → CaConfig
new ca environment = record {
  ca = ca;
  environment = environment;
  custom_url = none;
  contact_email = none;
}

unfoldable pub with_custom_url : CaConfig → String → CaConfig
with_custom_url config url = record config { custom_url = some url }

unfoldable pub with_contact_email : CaConfig → String → CaConfig
with_contact_email config email = record config { contact_email = some email }

abbrev pub no_url : String
no_url = "Custom CA requires custom_url to be set"

abbrev pub lets_encrypt_url : Environment → String
lets_encrypt_url production = "https://acme-v02.api.letsencrypt.org/directory"
lets_encrypt_url staging = "https://acme-staging-v02.api.letsencrypt.org/directory"

abbrev pub required : Option String → Answer String
required none = fault no_url
required (some url) = done url

abbrev pub url_of : CertificateAuthority → Environment → Option String → Answer String
url_of lets_encrypt environment url = done (lets_encrypt_url environment)
url_of google environment url = done "https://dv.google.com/acme/directory"
url_of zero_ssl environment url = done "https://acme.zerossl.com/v2/DV90"
url_of custom environment url = required url

unfoldable pub directory_url : CaConfig → Answer String
directory_url config = url_of config.ca config.environment config.custom_url

abbrev pub checked : CertificateAuthority → Option String → Answer (Unit {0})
checked custom none = fault no_url
checked _ _ = done tt

unfoldable pub validate : CaConfig → Answer (Unit {0})
validate config = checked config.ca config.custom_url

unfoldable pub display_config : CaConfig → String
unfolding display
display_config config = display config.ca <> " (" <> debug config.environment <> ")"
