-- ===== src/Dns/Google.antt =====
-- src/dns/providers/google.rs.
use acmex.Base.{
  String, ◌<>◌, Bool, true, false, not, ◌||◌, Option, some, none, unwrap_or, if◌then◌else◌,
}
use acmex.Error.{AcmeError}
use acmex.Act.{Act, Answer, done, fault, pure, fail, ok_or, or_raise, refuse_if, catch, ◌>>=◌, ◌>>◌}
use acmex.Net.{Response, is_success, json_body}
use acmex.Net.Value.{Json, Items, str, num, arr, obj, nil, cons, end, field}
use acmex.Dns.Zones.{get_domain_name}
use acmex.Dns.Rest.{Api, get, post, call, call_or, text_of, at, is_text, as_str, has_text, or_null}

pub record GoogleCloudDnsProvider : Type 0 where
  pub project_id : String
  pub service_account_json : Option String
  pub use_default_credentials : Bool

unfoldable pub new : String → GoogleCloudDnsProvider
new project_id = record {
  project_id = project_id;
  service_account_json = none;
  use_default_credentials = true;
}

unfoldable pub with_service_account : GoogleCloudDnsProvider → String → GoogleCloudDnsProvider
with_service_account p json_path = record p {
  service_account_json = some json_path;
  use_default_credentials = false;
}

unfoldable pub with_default_credentials : GoogleCloudDnsProvider → GoogleCloudDnsProvider
with_default_credentials p = record p { use_default_credentials = true }

-- the name of the first zone that has the DNS name
abbrev pub zone_in : String → Items → Option String
zone_in dns_name nil = none
zone_in dns_name (cons zone rest) =
    let later = zone_in dns_name rest in
    if is_text dns_name (at zone "dnsName")
    then some (unwrap_or (as_str (at zone "name")) "")
    else later

abbrev pub zone_of : String → Json → Option String
zone_of dns_name (arr zones) = zone_in dns_name zones
zone_of dns_name _ = none

abbrev pub has_data : String → Json → Bool
has_data value (arr rrdatas) = has_text value rrdatas
has_data value _ = false

abbrev pub any_rrset : String → Items → Bool
any_rrset value nil = false
any_rrset value (cons rrset rest) =
    let others = any_rrset value rest in has_data value (at rrset "rrdatas") || others

abbrev pub in_rrsets : String → Json → Bool
in_rrsets value (arr rrsets) = any_rrset value rrsets
in_rrsets value _ = false

abbrev pub as_array : Json → Option Items
as_array (arr items) = some items
as_array _ = none

abbrev pub quoted : String → String
quoted value = "\"" <> value <> "\""

abbrev no_credentials : AcmeError
no_credentials =
    AcmeError.configuration
      "Google Cloud credentials not found. Please set GOOGLE_OAUTH_ACCESS_TOKEN or run on GCP."

-- The environment may hold a token. The parser of JSON is third-party code.
module _ (env_token : Option String) (parse : String → Answer Json)
    (p : GoogleCloudDnsProvider) where
  abbrev pub metadata_token : Answer Response → Act Api String
  metadata_token (fault e) = fail no_credentials
  metadata_token (done r) =
      if is_success r.status
      then (or_raise (json_body parse r.body)
            (λ e. AcmeError.protocol ("Failed to parse metadata token: " <> e))
          >>= λ body.
              ok_or (as_str (at body "access_token"))
                (AcmeError.protocol "access_token not found in metadata response"))
      else fail no_credentials

  abbrev pub token_from : Option String → Act Api String
  token_from (some token) = pure token
  token_from none =
      call (record {
        method = get;
        url =
            "http://metadata.google.internal/computeMetadata/v1/instance/service-accounts/default/token";
        authorization = "Metadata-Flavor: Google";
        body = none;
      })
      >>= metadata_token

  unfoldable pub get_access_token : Act Api String
  unfolding call
  get_access_token = token_from env_token

  unfoldable pub get_managed_zone : String → Act Api String
  unfolding get_access_token get_domain_name
  get_managed_zone domain = do
    token ← get_access_token
    r ←
        call_or
          (record {
            method = get;
            url = "https://dns.googleapis.com/dns/v1/projects/" <> p.project_id <> "/managedZones";
            authorization = "Bearer " <> token;
            body = none;
          })
          "Google API list zones failed: "
    body ←
        or_raise (json_body parse r.body)
          (λ e. AcmeError.protocol ("Failed to parse zones response: " <> e))
    ok_or (zone_of (get_domain_name domain <> ".") (at body "managedZones"))
        (AcmeError.protocol ("Managed zone not found for domain: " <> domain))

  abbrev pub changes_url : String → String
  changes_url zone_name =
      "https://dns.googleapis.com/dns/v1/projects/" <> p.project_id <> "/managedZones/" <> zone_name
      <> "/changes"

  abbrev pub rrsets_url : String → String → String
  rrsets_url zone_name domain =
      "https://dns.googleapis.com/dns/v1/projects/" <> p.project_id <> "/managedZones/" <> zone_name
      <> "/rrsets?name=" <> domain <> ".&type=TXT"

  unfoldable pub create_txt_record : String → String → Act Api String
  unfolding get_managed_zone get_access_token
  create_txt_record domain value = do
    zone_name ← get_managed_zone domain
    token ← get_access_token
    r ←
        call_or
          (record {
            method = post;
            url = changes_url zone_name;
            authorization = "Bearer " <> token;
            body = some (
                obj (
                  field "additions"
                    (arr (
                      cons
                        (obj (
                          field "name" (str (domain <> ".")) (
                            field "type" (str "TXT") (
                              field "ttl" (num 300)
                                (field "rrdatas" (arr (cons (str (quoted value)) nil)) end)))))
                        nil))
                    end));
          })
          "Google API create record failed: "
    refuse_if (not (is_success r.status)) (AcmeError.protocol ("GCP DNS error: " <> text_of r))
    pure zone_name

  -- the id is the zone's name
  unfoldable pub delete_txt_record : String → String → Act Api (Unit {0})
  unfolding get_access_token
  delete_txt_record domain record_id = do
    token ← get_access_token
    l ←
        call_or
          (record {
            method = get;
            url = rrsets_url record_id domain;
            authorization = "Bearer " <> token;
            body = none;
          })
          "GCP list rrsets failed: "
    rrsets ←
        ok_or (as_array (at (or_null (json_body parse l.body)) "rrsets"))
          (AcmeError.protocol "No rrsets found for deletion")
    r ←
        call_or
          (record {
            method = post;
            url = changes_url record_id;
            authorization = "Bearer " <> token;
            body = some (obj (field "deletions" (arr rrsets) end));
          })
          "Google API delete record failed: "
    refuse_if (not (is_success r.status)) (AcmeError.protocol "GCP DNS delete failed")

  abbrev pub verify_in : String → String → String → Act Api Bool
  verify_in domain value zone_name = do
    token ← get_access_token
    r ←
        call_or
          (record {
            method = get;
            url = rrsets_url zone_name domain;
            authorization = "Bearer " <> token;
            body = none;
          })
          "GCP verify failed: "
    pure (in_rrsets (quoted value) (at (or_null (json_body parse r.body)) "rrsets"))

  -- without a managed zone, no record is there
  unfoldable pub verify_record : String → String → Act Api Bool
  unfolding get_managed_zone get_access_token
  verify_record domain value =
      catch (get_managed_zone domain) (verify_in domain value) (λ _. pure false)
