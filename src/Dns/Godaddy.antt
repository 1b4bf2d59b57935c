-- ===== src/Dns/Godaddy.antt =====
-- src/dns/providers/godaddy.rs.
use acmex.Base.{ℕ, String, ◌<>◌, Bool, true, false, not, ◌&&◌, eqb, some, none, if◌then◌else◌}
use acmex.Error.{AcmeError}
use acmex.Act.{Act, Answer, done, fault, pure, refuse_if, ◌>>=◌, ◌>>◌}
use acmex.Net.{Response, is_success, json_body}
use acmex.Net.Value.{Json, str, num, arr, obj, nil, cons, end, field}
use acmex.Dns.Zones.{get_domain_name, get_record_name}
use acmex.Dns.Rest.{Api, get, put, delete, call, call_or, any_text}

pub record GodaddyDnsProvider : Type 0 where
  pub api_key : String
  pub api_secret : String
  pub is_production : Bool

unfoldable pub new : String → String → GodaddyDnsProvider
new api_key api_secret = record {
  api_key = api_key;
  api_secret = api_secret;
  is_production = false;
}

unfoldable pub production : GodaddyDnsProvider → GodaddyDnsProvider
production p = record p { is_production = true }

unfoldable pub test : GodaddyDnsProvider → GodaddyDnsProvider
test p = record p { is_production = false }

unfoldable pub api_base_url : GodaddyDnsProvider → String
api_base_url p =
    if p.is_production then "https://api.godaddy.com" else "https://api.ote.godaddy.com"

unfoldable pub auth_header : GodaddyDnsProvider → String
auth_header p = "sso-key " <> p.api_key <> ":" <> p.api_secret

unfoldable pub record_url : GodaddyDnsProvider → String → String → String
unfolding api_base_url
record_url p domain_name record_name =
    api_base_url p <> "/v1/domains/" <> domain_name <> "/records/TXT/" <> record_name

-- The display of a status and the parser of JSON are third-party code.
module _ (status_text : ℕ → String) (parse : String → Answer Json) (p : GodaddyDnsProvider) where
  unfoldable pub create_txt_record : String → String → Act Api String
  unfolding auth_header record_url
  create_txt_record domain value = do
    r ←
        call_or
          (record {
            method = put;
            url = record_url p (get_domain_name domain) (get_record_name domain);
            authorization = auth_header p;
            body =
                some (arr (cons (obj (field "data" (str value) (field "ttl" (num 300) end))) nil));
          })
          ""
    refuse_if (not (is_success r.status))
        (AcmeError.protocol ("Failed to create GoDaddy DNS record: " <> status_text r.status))
    pure (get_record_name domain)

  unfoldable pub delete_txt_record : String → String → Act Api (Unit {0})
  unfolding auth_header record_url
  delete_txt_record domain record_id = do
    r ←
        call_or
          (record {
            method = delete;
            url = record_url p (get_domain_name domain) record_id;
            authorization = auth_header p;
            body = none;
          })
          ""
    refuse_if (not (is_success r.status) && not (eqb r.status 404))
        (AcmeError.protocol ("Failed to delete GoDaddy DNS record: " <> status_text r.status))

  -- whatever goes wrong, the record is not there
  abbrev pub found : String → Answer Json → Bool
  found value (done body) = any_text "data" value body
  found value (fault e) = false

  abbrev pub listed : String → Answer Response → Bool
  listed value (done r) =
      if is_success r.status then found value (json_body parse r.body) else false
  listed value (fault e) = false

  unfoldable pub verify_record : String → String → Act Api Bool
  unfolding auth_header record_url
  verify_record domain value = do
    a ← call (record {
      method = get;
      url = record_url p (get_domain_name domain) (get_record_name domain);
      authorization = auth_header p;
      body = none;
    })
    pure (listed value a)
