-- ===== src/Dns/Azure.antt =====
-- src/dns/providers/azure.rs.
use acmex.Base.{ℕ, String, ◌<>◌, ◌==◌, Bool, false, not, ◌||◌, some, none, unwrap_or, if◌then◌else◌}
use acmex.Error.{AcmeError}
use acmex.Act.{Act, Answer, pure, ok_or, or_raise, refuse_if, ◌>>=◌, ◌>>◌}
use acmex.Net.{Response, is_success, json_body}
use acmex.Net.Value.{Json, Items, str, num, arr, obj, nil, cons, end, field}
use acmex.Dns.Zones.{strip_suffix, get_domain_name}
use acmex.Dns.Rest.{Api, get, post, put, delete, call_or, at, as_str, has_text, or_null}

pub record AzureDnsProvider : Type 0 where
  pub subscription_id : String
  pub resource_group : String
  pub client_id : String
  pub client_secret : String
  pub tenant_id : String

abbrev pub has_value : String → Json → Bool
has_value value (arr values) = has_text value values
has_value value _ = false

-- a TXT record has the text among its values
abbrev pub any_record : String → Items → Bool
any_record value nil = false
any_record value (cons r rest) =
    let others = any_record value rest in has_value value (at r "value") || others

abbrev pub among : String → Json → Bool
among value (arr records) = any_record value records
among value _ = false

-- the two labels that godaddy.rs takes too
abbrev pub parse_zone_name : String → String
parse_zone_name domain = get_domain_name domain

unfoldable pub get_record_name : String → String → String
unfolding strip_suffix
get_record_name domain zone_name =
    if domain == zone_name then "@" else unwrap_or (strip_suffix domain ("." <> zone_name)) domain

-- The display of a status and the parser of JSON are third-party code. The body of a form is its
-- fields.
module _ (status_text : ℕ → String) (parse : String → Answer Json) (p : AzureDnsProvider) where
  unfoldable pub record_url : String → String → String
  record_url zone_name record_name =
      "https://management.azure.com/subscriptions/" <> p.subscription_id <> "/resourceGroups/"
      <> p.resource_group <> "/providers/Microsoft.Network/dnsZones/" <> zone_name <> "/TXT/"
      <> record_name <> "?api-version=2018-05-01"

  abbrev pub auth_error : Json → AcmeError
  auth_error body = AcmeError.protocol (
      "Azure auth error: "
      <> unwrap_or (as_str (at body "error")) "Unknown"
      <> " - "
      <> unwrap_or (as_str (at body "error_description")) "")

  unfoldable pub get_access_token : Act Api String
  get_access_token = do
    r ←
        call_or
          (record {
            method = post;
            url = "https://login.microsoftonline.com/" <> p.tenant_id <> "/oauth2/v2.0/token";
            authorization = "";
            body = some (
                obj (
                  field "grant_type" (str "client_credentials") (
                    field "client_id" (str p.client_id) (
                      field "client_secret" (str p.client_secret)
                        (field "scope" (str "https://management.azure.com/.default") end)))));
          })
          "Azure token request failed: "
    body ←
        or_raise (json_body parse r.body)
          (λ e. AcmeError.protocol ("Failed to parse Azure token response: " <> e))
    refuse_if (not (is_success r.status)) (auth_error body)
    ok_or (as_str (at body "access_token"))
        (AcmeError.protocol "access_token not found in response")

  abbrev pub message_of : Response → String
  message_of r =
      unwrap_or (as_str (at (at (or_null (json_body parse r.body)) "error") "message"))
        "Unknown error"

  unfoldable pub create_txt_record : String → String → Act Api String
  unfolding get_access_token record_url get_record_name
  create_txt_record domain value = do
    token ← get_access_token
    r ←
        call_or
          (record {
            method = put;
            url =
                record_url (parse_zone_name domain)
                  (get_record_name domain (parse_zone_name domain));
            authorization = "Bearer " <> token;
            body = some (
                obj (
                  field "properties"
                    (obj (
                      field "TTL" (num 300) (
                        field "TXTRecords"
                          (arr (cons (obj (field "value" (arr (cons (str value) nil)) end)) nil))
                          end)))
                    end));
          })
          "Azure API failed: "
    refuse_if (not (is_success r.status))
        (AcmeError.protocol ("Azure DNS create error: " <> message_of r))
    pure (get_record_name domain (parse_zone_name domain))

  unfoldable pub delete_txt_record : String → String → Act Api (Unit {0})
  unfolding get_access_token record_url
  delete_txt_record domain record_id = do
    token ← get_access_token
    r ←
        call_or
          (record {
            method = delete;
            url = record_url (parse_zone_name domain) record_id;
            authorization = "Bearer " <> token;
            body = none;
          })
          "Azure API delete failed: "
    refuse_if (not (is_success r.status))
        (AcmeError.protocol ("Azure DNS delete failed with status: " <> status_text r.status))

  abbrev pub verified : String → Response → Act Api Bool
  verified value r =
      if is_success r.status
      then (or_raise (json_body parse r.body) (λ _. AcmeError.protocol "Failed to parse response")
          >>= λ body. pure (among value (at (at body "properties") "TXTRecords")))
      else pure false

  unfoldable pub verify_record : String → String → Act Api Bool
  unfolding get_access_token record_url get_record_name
  verify_record domain value = do
    token ← get_access_token
    r ←
        call_or
          (record {
            method = get;
            url =
                record_url (parse_zone_name domain)
                  (get_record_name domain (parse_zone_name domain));
            authorization = "Bearer " <> token;
            body = none;
          })
          "Azure API verify failed: "
    verified value r
