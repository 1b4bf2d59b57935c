-- ===== src/Dns/Tencent.antt =====
-- src/dns/providers/tencent.rs.
use acmex.Base.{
  ℕ, suc, ◌*◌, ◌^◌, String, ◌<>◌, ◌==◌, Bool, not, ◌&&◌, Option, some, none, unwrap_or, List,
  length, ltb, if◌then◌else◌,
}
use acmex.Error.{AcmeError}
use acmex.Act.{Act, Answer, pure, fail, gets, ok_or, or_raise, refuse_if, ◌>>=◌, ◌>>◌}
use acmex.Net.{Response, is_success, json_body}
use acmex.Net.Value.{Json, str, num, obj, end, field}
use acmex.Dns.Zones.{get_domain_name, strip_suffix, trim_dots}
use acmex.Dns.Rest.{Api, post, call_or, at, as_str, any_text}

pub record TencentCloudDnsProvider : Type 0 where
  pub secret_id : String
  pub secret_key : String
  pub region : String

-- the two labels that godaddy.rs takes too
abbrev pub get_domain : String → String
get_domain full_domain = get_domain_name full_domain

unfoldable pub get_record_name : String → String
unfolding strip_suffix get_domain_name trim_dots
get_record_name full_domain =
    let domain = get_domain full_domain in
    let name = unwrap_or (strip_suffix full_domain ("." <> domain)) "" in
    if name == "" && not (full_domain == domain)
    then trim_dots (unwrap_or (strip_suffix full_domain domain) "")
    else name

-- `body["Response"]["Error"]` as an object
abbrev pub refuse_error : Json → Act Api (Unit {0})
refuse_error (obj fields) = fail (
    AcmeError.protocol (
      "Tencent DNS error: "
      <> unwrap_or (as_str (at (obj fields) "Code")) "Unknown"
      <> " - "
      <> unwrap_or (as_str (at (obj fields) "Message")) ""))
refuse_error _ = pure tt

-- The hashes on bytes, the bytes of a text, hexadecimal, the printer and the parser of JSON and of
-- numbers. The clock is read when a request is signed and again for its header: the reading is
-- numbered, and has a time in seconds and a date.
module _ (sha256 : List ℕ → List ℕ) (hmac_sha256 : List ℕ → List ℕ → List ℕ)
    (bytes : String → List ℕ) (hex : List ℕ → String) (json_text : Json → String)
    (parse : String → Answer Json) (show_number : ℕ → String) (parse_u64 : String → Option ℕ)
    (as_second date : ℕ → String) (p : TencentCloudDnsProvider) where
  -- the reading of the clock, a method, a service and a payload
  unfoldable pub sign_request : ℕ → String → String → String → String × String
  sign_request reading method service payload =
      let canonical_request =
        method
        <> "\n/\n\ncontent-type:application/json\nhost:dnspod.tencentcloudapi.com\n\n"
        <> "content-type;host\n"
        <> hex (sha256 (bytes payload)) in
      let credential_scope = date reading <> "/" <> service <> "/tc3_request" in
      let string_to_sign =
        "TC3-HMAC-SHA256\n"
        <> as_second reading
        <> "\n"
        <> credential_scope
        <> "\n"
        <> hex (sha256 (bytes canonical_request)) in
      let secret_date = hmac_sha256 (bytes ("TC3" <> p.secret_key)) (bytes (date reading)) in
      let secret_service = hmac_sha256 secret_date (bytes service) in
      let secret_signing = hmac_sha256 secret_service (bytes "tc3_request") in
      (as_second reading, hex (hmac_sha256 secret_signing (bytes string_to_sign)))

  -- the values of the headers `Authorization`, `X-TC-Action` and `X-TC-Timestamp`
  abbrev pub headers : ℕ → String → String × String → String
  headers reading action (timestamp, signature) =
      "TC3-HMAC-SHA256 Credential="
      <> p.secret_id
      <> "/"
      <> date reading
      <> "/dnspod/tc3_request, "
      <> "SignedHeaders=content-type;host, Signature="
      <> signature
      <> "\n"
      <> action
      <> "\n"
      <> timestamp

  -- the readings before the request that is sent next
  abbrev pub readings : Act Api ℕ
  readings = gets (λ a. 2 * length a.requests)

  abbrev pub post_action : String → Json → String → Act Api Response
  post_action action payload what = do
    reading ← readings
    call_or
        (record {
          method = post;
          url = "https://dnspod.tencentcloudapi.com/";
          authorization =
              headers (suc reading) action
                (sign_request reading "POST" "dnspod" (json_text payload));
          body = some payload;
        })
        what

  -- a number of 64 bits, or a text
  abbrev pub id_text : Json → Option String
  id_text (num n) = if ltb n (2 ^ 64) then some (show_number n) else none
  id_text (str s) = some s
  id_text _ = none

  unfoldable pub create_txt_record : String → String → Act Api String
  unfolding sign_request get_domain_name get_record_name
  create_txt_record domain value = do
    r ←
        post_action "CreateRecord"
          (obj (
            field "Domain" (str (get_domain domain)) (
              field "SubDomain" (str (get_record_name domain)) (
                field "RecordType" (str "TXT") (
                  field "RecordLine" (str "默认")
                    (field "Value" (str value) (field "TTL" (num 600) end)))))))
          "Tencent API failed: "
    body ←
        or_raise (json_body parse r.body)
          (λ e. AcmeError.protocol ("Failed to parse Tencent response: " <> e))
    refuse_error (at (at body "Response") "Error")
    ok_or (id_text (at (at body "Response") "RecordId"))
        (AcmeError.protocol "RecordId not found in response")

  unfoldable pub delete_txt_record : String → String → Act Api (Unit {0})
  unfolding sign_request get_domain_name
  delete_txt_record domain record_id = do
    id ← ok_or (parse_u64 record_id) (AcmeError.invalid_input "Invalid record ID")
    r ←
        post_action "DeleteRecord"
          (obj (field "Domain" (str (get_domain domain)) (field "RecordId" (num id) end)))
          "Tencent API delete failed: "
    refuse_if (not (is_success r.status)) (AcmeError.protocol "Tencent DNS delete request failed")

  unfoldable pub verify_record : String → String → Act Api Bool
  unfolding sign_request get_domain_name get_record_name
  verify_record domain value = do
    r ←
        post_action "DescribeRecordList"
          (obj (
            field "Domain" (str (get_domain domain)) (
              field "Subdomain" (str (get_record_name domain))
                (field "RecordType" (str "TXT") end))))
          "Tencent API verify failed: "
    body ←
        or_raise (json_body parse r.body)
          (λ e. AcmeError.protocol ("Failed to parse Tencent response: " <> e))
    pure (any_text "Value" value (at (at body "Response") "RecordList"))
