-- ===== src/Dns/Huawei.antt =====
-- src/dns/providers/huawei.rs.
use acmex.Base.{
  ℕ, String, ◌<>◌, Bool, false, not, ◌||◌, Option, some, none, unwrap_or, List, [], ◌∷◌, length,
  if◌then◌else◌,
}
use acmex.Base.Split.{split_at}
use acmex.Error.{AcmeError}
use acmex.Act.{Act, Answer, pure, fail, gets, ok_or, or_raise, refuse_if, catch, ◌>>=◌, ◌>>◌}
use acmex.Net.{is_success, json_body}
use acmex.Net.Value.{Json, Items, str, num, arr, obj, nil, cons, end, field}
use acmex.Dns.Zones.{get_domain_name}
use acmex.Dns.Rest.{
  Api, get, post, delete, call_or, text_of, at, is_text, as_str, has_text, or_null,
}

pub record HuaweiCloudDnsProvider : Type 0 where
  pub access_key : String
  pub secret_key : String
  pub project_id : String
  pub region : String

unfoldable pub new : String → String → String → String → HuaweiCloudDnsProvider
new access_key secret_key project_id region = record {
  access_key = access_key;
  secret_key = secret_key;
  project_id = project_id;
  region = region;
}

-- the id of the first zone that has the name
abbrev pub zone_in : String → Items → Option String
zone_in zone_name nil = none
zone_in zone_name (cons zone rest) =
    let later = zone_in zone_name rest in
    if is_text zone_name (at zone "name")
    then some (unwrap_or (as_str (at zone "id")) "")
    else later

abbrev pub zone_of : String → Json → Option String
zone_of zone_name (arr zones) = zone_in zone_name zones
zone_of zone_name _ = none

abbrev pub has_record : String → Json → Bool
has_record value (arr records) = has_text value records
has_record value _ = false

abbrev pub any_set : String → Items → Bool
any_set value nil = false
any_set value (cons rs rest) =
    let others = any_set value rest in has_record value (at rs "records") || others

abbrev pub in_recordsets : String → Json → Bool
in_recordsets value (arr recordsets) = any_set value recordsets
in_recordsets value _ = false

-- The hash and the keyed hash in hexadecimal, the printer and the parser of JSON, and the time
-- before each request, as the service wants it written.
module _ (sha256 : String → String) (hmac_sha256 : String → String → String)
    (json_text : Json → String) (parse : String → Answer Json) (clock : ℕ → String)
    (p : HuaweiCloudDnsProvider) where
  unfoldable pub sign_request : String → String → String → String → String × String
  sign_request timestamp method url payload =
      let canonical_request =
        method
        <> "\n"
        <> url
        <> "\n\nhost:dns."
        <> p.region
        <> ".myhuaweicloud.com\nx-sdk-date:"
        <> timestamp
        <> "\n\nhost;x-sdk-date\n"
        <> sha256 payload in
      let string_to_sign = "SDK-HMAC-SHA256\n" <> timestamp <> "\n" <> sha256 canonical_request in
      (timestamp, hmac_sha256 p.secret_key string_to_sign)

  abbrev pub endpoint : String → String
  endpoint url = "https://dns." <> p.region <> ".myhuaweicloud.com" <> url

  -- what authorizes a request is the values of two headers, `X-Sdk-Date` in front
  abbrev pub authorization : String × String → String
  authorization (timestamp, signature) =
      timestamp <> "\nSDK-HMAC-SHA256 Access=" <> p.access_key
      <> ", SignedHeaders=host;x-sdk-date, Signature=" <> signature

  abbrev pub now : Act Api String
  now = gets (λ a. clock (length a.requests))

  unfoldable pub find_zone_id : String → Act Api String
  unfolding sign_request get_domain_name
  find_zone_id domain = do
    timestamp ← now
    r ←
        call_or
          (record {
            method = get;
            url = endpoint "/v2/zones";
            authorization = authorization (sign_request timestamp "GET" "/v2/zones" "");
            body = none;
          })
          "Huawei API list zones failed: "
    body ←
        or_raise (json_body parse r.body)
          (λ e. AcmeError.protocol ("Failed to parse Huawei zones response: " <> e))
    ok_or (zone_of (get_domain_name domain <> ".") (at body "zones"))
        (AcmeError.protocol ("Zone not found for domain: " <> domain))

  abbrev pub recordset : String → String → Json
  recordset domain value = obj (
      field "name" (str (domain <> ".")) (
        field "type" (str "TXT") (
          field "records" (arr (cons (str ("\"" <> value <> "\"")) nil))
            (field "ttl" (num 300) end))))

  unfoldable pub create_txt_record : String → String → Act Api String
  unfolding find_zone_id sign_request
  create_txt_record domain value = do
    zone_id ← find_zone_id domain
    let url = "/v2/zones/" <> zone_id <> "/recordsets"
    let payload = recordset domain value
    timestamp ← now
    r ←
        call_or
          (record {
            method = post;
            url = endpoint url;
            authorization = authorization (sign_request timestamp "POST" url (json_text payload));
            body = some payload;
          })
          "Huawei API create failed: "
    refuse_if (not (is_success r.status)) (AcmeError.protocol ("Huawei error: " <> text_of r))
    body ←
        or_raise (json_body parse r.body)
          (λ e. AcmeError.protocol ("Failed to parse Huawei response: " <> e))
    record_id ←
        ok_or (as_str (at body "id")) (AcmeError.protocol "Huawei response missing record ID")
    pure (zone_id <> ":" <> record_id)

  abbrev pub delete_in : String → String → Act Api (Unit {0})
  delete_in zone_id real_record_id = do
    let url = "/v2/zones/" <> zone_id <> "/recordsets/" <> real_record_id
    timestamp ← now
    r ←
        call_or
          (record {
            method = delete;
            url = endpoint url;
            authorization = authorization (sign_request timestamp "DELETE" url "");
            body = none;
          })
          "Huawei API delete failed: "
    refuse_if (not (is_success r.status))
        (AcmeError.protocol ("Huawei delete error: " <> text_of r))

  -- an id has two parts
  abbrev pub delete_parts : List String → Act Api (Unit {0})
  delete_parts (zone_id ∷ (real_record_id ∷ [])) = delete_in zone_id real_record_id
  delete_parts _ = fail (AcmeError.invalid_input "Invalid Huawei record ID format")

  unfoldable pub delete_txt_record : String → String → Act Api (Unit {0})
  unfolding sign_request split_at
  delete_txt_record domain record_id = delete_parts (split_at 58 record_id)

  abbrev pub verify_in : String → String → String → Act Api Bool
  verify_in domain value zone_id = do
    let url = "/v2/zones/" <> zone_id <> "/recordsets?name=" <> domain <> "&type=TXT"
    timestamp ← now
    r ←
        call_or
          (record {
            method = get;
            url = endpoint url;
            authorization = authorization (sign_request timestamp "GET" url "");
            body = none;
          })
          "Huawei API verify failed: "
    pure
        (in_recordsets ("\"" <> value <> "\"") (at (or_null (json_body parse r.body)) "recordsets"))

  -- without a zone, no record is there
  unfoldable pub verify_record : String → String → Act Api Bool
  unfolding find_zone_id sign_request
  verify_record domain value =
      catch (find_zone_id domain) (verify_in domain value) (λ _. pure false)
