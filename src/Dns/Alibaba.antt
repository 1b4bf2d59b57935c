-- ===== src/Dns/Alibaba.antt =====
-- src/dns/providers/alibaba.rs.
use acmex.Base.{
  ℕ, String, ◌<>◌, ◌==◌, Bool, not, ◌&&◌, none, unwrap_or, List, [], ◌∷◌, length, if◌then◌else◌,
}
use text.Mathlib.Text.{is_le}
use Prim.Native.String.{compare}
use acmex.Error.{AcmeError}
use acmex.Act.{Act, Answer, pure, gets, ok_or, or_raise, refuse_if, ◌>>=◌, ◌>>◌}
use acmex.Net.{is_success, json_body}
use acmex.Net.Value.{Json}
use acmex.Dns.Zones
use acmex.Dns.Zones.{strip_suffix, trim_dots}
use acmex.Dns.Rest.{Api, get, call_or, at, as_str, any_text}

pub record AlibabaCloudDnsProvider : Type 0 where
  pub access_key_id : String
  pub access_key_secret : String
  pub region : String

-- the two labels that godaddy.rs takes too
abbrev pub get_domain_name : String → String
get_domain_name domain = Zones.get_domain_name domain

unfoldable pub get_record_name : String → String
unfolding strip_suffix Zones.get_domain_name trim_dots
get_record_name domain =
    let domain_name = get_domain_name domain in
    let name = unwrap_or (strip_suffix domain ("." <> domain_name)) "" in
    if name == "" && not (domain == domain_name)
    then trim_dots (unwrap_or (strip_suffix domain domain_name) "")
    else name

abbrev pub Params : Type 0
Params = List (String × String)

-- The URL encoding and `str::replace`; the keyed hash of a text with a key in
-- base64; the parser of JSON; and the nonce and the time of each request.
module _ (url_encode : String → String) (replace : String → String → String → String)
    (hmac_sha1 : String → String → String) (parse : String → Answer Json)
    (nonce timestamp : ℕ → String) (p : AlibabaCloudDnsProvider) where
  -- `BTreeMap::insert`: the keys stay in order
  abbrev pub insert : String → String → Params → Params
  insert k v [] = (k, v) ∷ []
  insert k v ((j, u) ∷ rest) =
      let later = insert k v rest in
      if k == j
      then (k, v) ∷ rest
      else (if is_le (compare k j) then (k, v) ∷ ((j, u) ∷ rest) else (j, u) ∷ later)

  abbrev pub percent_encode : String → String
  percent_encode s = replace "%7E" "~" (replace "*" "%2A" (replace "+" "%20" (url_encode s)))

  -- `{}={}` of each pair, joined with `&`
  abbrev pub joined : Params → String
  joined [] = ""
  joined ((k, v) ∷ []) = percent_encode k <> "=" <> percent_encode v
  joined ((k, v) ∷ (q ∷ rest)) =
      percent_encode k <> "=" <> percent_encode v <> "&" <> joined (q ∷ rest)

  -- the method is in capitals
  unfoldable pub sign_request : String → Params → String
  sign_request method params =
      hmac_sha1 (p.access_key_secret <> "&") (method <> "&%2F&" <> percent_encode (joined params))

  abbrev pub completed : ℕ → Params → Params
  completed n params = insert "Timestamp" (timestamp n) (
      insert "SignatureNonce" (nonce n) (
        insert "SignatureVersion" "1.0" (
          insert "SignatureMethod" "HMAC-SHA1" (
            insert "AccessKeyId" p.access_key_id
              (insert "Version" "2015-01-09" (insert "Format" "JSON" params))))))

  unfoldable pub do_request : Params → Act Api Json
  unfolding sign_request
  do_request params = do
    n ← gets (λ a. length a.requests)
    let all = completed n params
    r ←
        call_or
          (record {
            method = get;
            url =
                "https://alidns.aliyuncs.com/?"
                <> joined (insert "Signature" (sign_request "GET" all) all);
            authorization = "";
            body = none;
          })
          "Alibaba API failed: "
    body ←
        or_raise (json_body parse r.body)
          (λ e. AcmeError.protocol ("Failed to parse Alibaba response: " <> e))
    refuse_if (not (is_success r.status)) (
        AcmeError.protocol (
          "Alibaba DNS error: "
          <> unwrap_or (as_str (at body "Code")) "Unknown"
          <> " - "
          <> unwrap_or (as_str (at body "Message")) ""))
    pure body

  unfoldable pub create_txt_record : String → String → Act Api String
  unfolding do_request get_record_name Zones.get_domain_name
  create_txt_record domain value = do
    body ← do_request (
        insert "TTL" "600" (
          insert "Value" value (
            insert "Type" "TXT" (
              insert "RR" (get_record_name domain) (
                insert "DomainName" (get_domain_name domain)
                  (insert "Action" "AddDomainRecord" []))))))
    ok_or (as_str (at body "RecordId")) (AcmeError.protocol "RecordId not found in response")

  unfoldable pub delete_txt_record : String → String → Act Api (Unit {0})
  unfolding do_request
  delete_txt_record domain record_id =
      do_request (insert "RecordId" record_id (insert "Action" "DeleteDomainRecord" [])) >>= λ _.
      pure tt

  unfoldable pub verify_record : String → String → Act Api Bool
  unfolding do_request get_record_name Zones.get_domain_name
  verify_record domain value = do
    body ← do_request (
        insert "TypeKeyWord" "TXT" (
          insert "RRKeyWord" (get_record_name domain) (
            insert "DomainName" (get_domain_name domain)
              (insert "Action" "DescribeDomainRecords" []))))
    pure (any_text "Value" value (at (at body "DomainRecords") "Record"))
