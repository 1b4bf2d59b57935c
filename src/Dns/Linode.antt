-- ===== src/Dns/Linode.antt =====
-- src/dns/providers/linode.rs.
use acmex.Base.{
  ℕ, String, ◌<>◌, ◌==◌, Bool, false, not, ◌||◌, some, none, List, [], ◌∷◌, if◌then◌else◌,
}
use acmex.Error.{AcmeError}
use acmex.Act.{Act, Answer, pure, or_raise, refuse_if, ◌>>=◌, ◌>>◌}
use acmex.Net.{Response, is_success, json_body}
use acmex.Net.Value.{str, num, obj, end, field}
use acmex.Dns.Rest.{Api, get, post, delete, call_or, text_of}

pub record LinodeConfig : Type 0 where
  pub api_token : String
  pub domain_id : ℕ

-- a record has the target
unfoldable pub has_target : List String → String → Bool
has_target [] value = false
has_target (target ∷ targets) value = let rest = has_target targets value in target == value || rest

-- The display of a number; and the decoders of the responses: the id that was made, and the targets
-- of the records that are listed.
module _ (show_number : ℕ → String) (created_id : String → Answer ℕ)
    (targets : String → Answer (List String)) (c : LinodeConfig) where
  unfoldable pub records_url : String
  records_url = "https://api.linode.com/v4/domains/" <> show_number c.domain_id <> "/records"

  unfoldable pub create_txt_record : String → String → Act Api String
  unfolding records_url
  create_txt_record domain value = do
    r ←
        call_or
          (record {
            method = post;
            url = records_url;
            authorization = "Bearer " <> c.api_token;
            body = some (
                obj (
                  field "type" (str "TXT") (
                    field "name" (str domain)
                      (field "target" (str value) (field "ttl_sec" (num 300) end)))));
          })
          "Linode API failed: "
    refuse_if (not (is_success r.status)) (AcmeError.protocol ("Linode error: " <> text_of r))
    id ←
        or_raise (json_body created_id r.body)
          (λ e. AcmeError.protocol ("Failed to parse Linode response: " <> e))
    pure (show_number id)

  unfoldable pub delete_txt_record : String → String → Act Api (Unit {0})
  unfolding records_url
  delete_txt_record domain record_id = do
    r ←
        call_or
          (record {
            method = delete;
            url = records_url <> "/" <> record_id;
            authorization = "Bearer " <> c.api_token;
            body = none;
          })
          "Linode API delete failed: "
    refuse_if (not (is_success r.status))
        (AcmeError.protocol ("Linode delete error: " <> text_of r))

  abbrev pub verified : String → Response → Act Api Bool
  verified value r =
      if is_success r.status
      then (or_raise (json_body targets r.body)
            (λ _. AcmeError.protocol "Failed to parse Linode list response")
          >>= λ found. pure (has_target found value))
      else pure false

  unfoldable pub verify_record : String → String → Act Api Bool
  unfolding records_url has_target
  verify_record domain value = do
    r ←
        call_or
          (record {
            method = get;
            url = records_url;
            authorization = "Bearer " <> c.api_token;
            body = none;
          })
          "Linode API verify failed: "
    verified value r
