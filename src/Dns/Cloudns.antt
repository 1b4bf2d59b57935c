-- ===== src/Dns/Cloudns.antt =====
-- src/dns/providers/cloudns.rs.
use acmex.Base.{
  ℕ, String, ◌<>◌, ◌==◌, Bool, false, not, ◌||◌, Option, some, unwrap_or, length, ltb,
  if◌then◌else◌,
}
use acmex.Base.Split.{split_dot}
use acmex.Error.{AcmeError}
use acmex.Act.{Act, Answer, pure, fail, ok_or, or_raise, refuse_if, ◌>>=◌, ◌>>◌}
use acmex.Net.{Response, json_body}
use acmex.Net.Value.{Json, Fields, str, num, obj, end, field}
use acmex.Dns.Zones.{strip_suffix, join_dot, last_two}
use acmex.Dns.Rest.{Api, get, call_or, at, is_text, or_null}

pub record ClouDnsProvider : Type 0 where
  pub auth_id : String
  pub auth_password : String

pub record ClouDnsResponse : Type 0 where
  pub status : String
  pub status_description : Option String
  pub record_id : Option Json

unfoldable pub get_domain_and_host : String → String × String
unfolding split_dot join_dot last_two strip_suffix
get_domain_and_host domain =
    let parts = split_dot domain in
    let domain_name = join_dot (last_two parts) in
    if ltb 2 (length parts)
    then (domain_name, unwrap_or (strip_suffix domain ("." <> domain_name)) "")
    else (domain, "")

-- a record of the object has the text
abbrev pub any_field : String → Fields → Bool
any_field value end = false
any_field value (field k r rest) =
    let others = any_field value rest in is_text value (at r "record") || others

abbrev pub recorded : String → Json → Bool
recorded value (obj records) = any_field value records
recorded value _ = false

-- The display of a number, the decoder of a response and the parser of JSON are third-party code.
-- The body of a request stands for the parameters of its query.
module _ (show_number : ℕ → String) (decode : String → Answer ClouDnsResponse)
    (parse : String → Answer Json) (p : ClouDnsProvider) where
  abbrev pub asked : String → Fields → Act Api Response
  asked what params =
      call_or
        (record {
          method = get;
          url = "https://api.cloudns.net/index.php";
          authorization = "";
          body = some (obj params);
        })
        what

  -- the response, where its status is a success
  abbrev pub accepted : String → Response → Act Api ClouDnsResponse
  accepted what r = do
    body ←
        or_raise (json_body decode r.body)
          (λ e. AcmeError.protocol ("Failed to parse ClouDNS response: " <> e))
    refuse_if (not (body.status == "Success"))
        (AcmeError.protocol (what <> unwrap_or body.status_description "Unknown error"))
    pure body

  abbrev pub id_text : Json → Act Api String
  id_text (str s) = pure s
  id_text (num n) = pure (show_number n)
  id_text _ = fail (AcmeError.protocol "Invalid recordID format")

  unfoldable pub create_txt_record : String → String → Act Api String
  unfolding get_domain_and_host
  create_txt_record domain value = do
    let (domain_name, host) = get_domain_and_host domain
    r ← asked "ClouDNS API failed: " (
        field "Action" (str "addRecord") (
          field "auth-id" (str p.auth_id) (
            field "auth-password" (str p.auth_password) (
              field "domain-name" (str domain_name) (
                field "record-type" (str "TXT") (
                  field "host" (str host)
                    (field "record" (str value) (field "ttl" (str "60") end))))))))
    body ← accepted "ClouDNS error: " r
    id ← ok_or body.record_id (AcmeError.protocol "No recordID in ClouDNS response")
    id_text id

  unfoldable pub delete_txt_record : String → String → Act Api (Unit {0})
  unfolding get_domain_and_host
  delete_txt_record domain record_id = do
    let (domain_name, host) = get_domain_and_host domain
    r ← asked "ClouDNS API delete failed: " (
        field "Action" (str "deleteRecord") (
          field "auth-id" (str p.auth_id) (
            field "auth-password" (str p.auth_password)
              (field "domain-name" (str domain_name) (field "record-id" (str record_id) end)))))
    accepted "ClouDNS delete error: " r >>= λ _. pure tt

  unfoldable pub verify_record : String → String → Act Api Bool
  unfolding get_domain_and_host
  verify_record domain value = do
    let (domain_name, host) = get_domain_and_host domain
    r ← asked "ClouDNS API list failed: " (
        field "Action" (str "getRecords") (
          field "auth-id" (str p.auth_id) (
            field "auth-password" (str p.auth_password) (
              field "domain-name" (str domain_name)
                (field "host" (str host) (field "type" (str "TXT") end))))))
    pure (recorded value (or_null (json_body parse r.body)))
