-- ===== src/Tests/Dns.antt =====
-- A domain of three labels, and a record that is created and deleted.
use acmex.Base.{ℕ, ◌<◌, ◌≡◌, refl, String, ◌<>◌, length, [], ◌∷◌, arith}
use acmex.Base.Split.{split_dot}
use acmex.Act.{Answer, done, fault, ok, ◌>>=◌}
use acmex.Net.{response}
use acmex.Net.Value.{Json}
use acmex.Dns.Zones
use acmex.Dns.Zones.{get_domain_name, get_record_name, get_record_name-get_domain_name}
use acmex.Dns.Rest
use acmex.Dns.Rest.{Api}
use acmex.Dns.Godaddy
use acmex.Dns.Godaddy.{GodaddyDnsProvider, new, create_txt_record, delete_txt_record}
use acmex.Dns.Requests.{last_url, delete-create}

three_parts : 2 < length (split_dot "_acme-challenge.a.org")
unfolding split_dot
three_parts = omega arith

get_record_name-get_domain_name_example :
    get_record_name "_acme-challenge.a.org" <> ("." <> get_domain_name "_acme-challenge.a.org")
    ≡ "_acme-challenge.a.org"
get_record_name-get_domain_name_example =
    get_record_name-get_domain_name "_acme-challenge.a.org" three_parts

abbrev shown : ℕ → String
shown n = "status"

abbrev parse : String → Answer Json
parse text = fault "no JSON"

abbrev service : Api
service = record {
  replies = response (record { status = 200; headers = []; body = done "" }) ∷ [];
  requests = [];
}

abbrev created : Api
created = (create_txt_record shown parse (new "key" "secret") "_acme-challenge.a.org" "v" service).1

creates :
    create_txt_record shown parse (new "key" "secret") "_acme-challenge.a.org" "v" service
    ≡ (ok "_acme-challenge", created)
unfolding create_txt_record Rest.call_or Rest.call Rest.reply_to Godaddy.auth_header
    Godaddy.record_url Zones.get_record_name Zones.get_domain_name Zones.strip_suffix Zones.join_dot
    Zones.last_two split_dot ◌>>=◌
creates = refl

delete-create_example :
    last_url (
      Api.requests
        (delete_txt_record shown parse
          (new "key" "secret")
          "_acme-challenge.a.org"
          "_acme-challenge"
          service).1)
    ≡ last_url (Api.requests created)
delete-create_example =
    delete-create shown parse (new "key" "secret") "_acme-challenge.a.org" "v" "_acme-challenge"
      service created service creates
