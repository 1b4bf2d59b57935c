-- ===== src/Dns/Digitalocean.antt =====
-- src/dns/providers/digitalocean.rs.
use acmex.Base.{
  ℕ, String, ◌<>◌, ◌==◌, Bool, false, not, ◌||◌, ◌&&◌, some, none, unwrap_or, List, [], ◌∷◌,
  if◌then◌else◌,
}
use acmex.Error.{AcmeError}
use acmex.Act.{Act, Answer, pure, or_raise, refuse_if, ◌>>=◌, ◌>>◌}
use acmex.Net.{Response, is_success, json_body}
use acmex.Net.Value.{str, num, obj, end, field}
use acmex.Dns.Zones.{strip_suffix}
use acmex.Dns.Rest.{Api, get, post, delete, call_or, text_of}

pub record DigitalOceanConfig : Type 0 where
  pub api_token : String
  pub domain : String

pub record DigitalOceanRecord : Type 0 where
  pub id : ℕ
  pub data_ : String
  pub name : String

unfoldable pub has_record : List DigitalOceanRecord → String → String → Bool
has_record [] name value = false
has_record (r ∷ rs) name value =
    let rest = has_record rs name value in (r.name == name && r.data_ == value) || rest

-- The display of a number; and the decoders of the responses: the record that was made, and the
-- records that are listed.
module _ (show_number : ℕ → String) (created : String → Answer DigitalOceanRecord)
    (records : String → Answer (List DigitalOceanRecord)) (c : DigitalOceanConfig) where
  unfoldable pub records_url : String
  records_url = "https://api.digitalocean.com/v2/domains/" <> c.domain <> "/records"

  -- relative to the configured domain
  unfoldable pub record_name : String → String
  unfolding strip_suffix
  record_name domain =
      if domain == c.domain then "@" else unwrap_or (strip_suffix domain ("." <> c.domain)) domain

  unfoldable pub create_txt_record : String → String → Act Api String
  unfolding records_url record_name
  create_txt_record domain value = do
    r ←
        call_or
          (record {
            method = post;
            url = records_url;
            authorization = "Bearer " <> c.api_token;
            body = some (
                obj (
                  field "type" (str "TXT") (
                    field "name" (str (record_name domain))
                      (field "data" (str value) (field "ttl" (num 60) end)))));
          })
          "DigitalOcean API failed: "
    refuse_if (not (is_success r.status)) (AcmeError.protocol ("DigitalOcean error: " <> text_of r))
    made ←
        or_raise (json_body created r.body)
          (λ e. AcmeError.protocol ("Failed to parse DigitalOcean response: " <> e))
    pure (show_number made.id)

  unfoldable pub delete_txt_record : String → String → Act Api (Unit {0})
  unfolding records_url
  delete_txt_record domain record_id = do
    r ←
        call_or
          (record {
            method = delete;
            url = records_url <> "/" <> record_id;
            authorization = "Bearer " <> c.api_token;
            body = none;
          })
          "DigitalOcean API delete failed: "
    refuse_if (not (is_success r.status))
        (AcmeError.protocol ("DigitalOcean delete error: " <> text_of r))

  abbrev pub verified : String → String → Response → Act Api Bool
  verified domain value r =
      if is_success r.status
      then (or_raise (json_body records r.body)
            (λ _. AcmeError.protocol "Failed to parse DigitalOcean list response")
          >>= λ found. pure (has_record found (record_name domain) value))
      else pure false

  unfoldable pub verify_record : String → String → Act Api Bool
  unfolding records_url record_name has_record
  verify_record domain value = do
    r ←
        call_or
          (record {
            method = get;
            url = records_url <> "?type=TXT";
            authorization = "Bearer " <> c.api_token;
            body = none;
          })
          "DigitalOcean API verify failed: "
    verified domain value r
