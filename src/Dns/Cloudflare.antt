-- ===== src/Dns/Cloudflare.antt =====
-- src/dns/providers/cloudflare.rs.
use acmex.Base.{String, ◌<>◌, Bool, false, not, some, none, if◌then◌else◌}
use acmex.Error.{AcmeError}
use acmex.Act.{Act, Answer, pure, or_raise, refuse_if, ◌>>=◌, ◌>>◌}
use acmex.Net.{is_success, json_body}
use acmex.Net.Value.{str, num, obj, end, field}
use acmex.Dns.Rest.{Api, get, post, delete, call_or, text_of}

pub record CloudFlareConfig : Type 0 where
  pub api_token : String
  pub zone_id : String

unfoldable pub records_url : CloudFlareConfig → String
records_url c = "https://api.cloudflare.com/client/v4/zones/" <> c.zone_id <> "/dns_records"

-- The decoder of the response to a creation gives its `result.id`; `contains` is the standard
-- library's.
module _ (created_id : String → Answer String) (contains : String → String → Bool)
    (c : CloudFlareConfig) where
  unfoldable pub create_txt_record : String → String → Act Api String
  unfolding records_url
  create_txt_record domain value = do
    r ←
        call_or
          (record {
            method = post;
            url = records_url c;
            authorization = "Bearer " <> c.api_token;
            body = some (
                obj (
                  field "type" (str "TXT") (
                    field "name" (str domain)
                      (field "content" (str value) (field "ttl" (num 60) end)))));
          })
          "CloudFlare create record failed: "
    refuse_if (not (is_success r.status))
        (AcmeError.storage ("CloudFlare create record failed: " <> text_of r))
    or_raise (json_body created_id r.body)
        (λ e. AcmeError.storage ("CloudFlare parse response failed: " <> e))

  unfoldable pub delete_txt_record : String → String → Act Api (Unit {0})
  unfolding records_url
  delete_txt_record domain record_id = do
    r ←
        call_or
          (record {
            method = delete;
            url = records_url c <> "/" <> record_id;
            authorization = "Bearer " <> c.api_token;
            body = none;
          })
          "CloudFlare delete record failed: "
    refuse_if (not (is_success r.status))
        (AcmeError.storage ("CloudFlare delete record failed: " <> text_of r))

  unfoldable pub verify_record : String → String → Act Api Bool
  unfolding records_url
  verify_record domain value = do
    r ←
        call_or
          (record {
            method = get;
            url = records_url c <> "?type=TXT&name=" <> domain;
            authorization = "Bearer " <> c.api_token;
            body = none;
          })
          "CloudFlare verify record failed: "
    pure (if is_success r.status then contains (text_of r) value else false)
