-- ===== src/Dns/Requests.antt =====
-- Which requests the DNS providers send: what was created is what is deleted.
use acmex.Base.{ℕ, String, ◌<>◌, ◌≡◌, refl, sym, ap, ◌∙◌, Option, none, some, List, [], ◌∷◌}
use acmex.Error.{AcmeError}
use acmex.Act.{Act, Answer, Outcome, ok, err, panic, or_raise, ◌>>=◌}
use acmex.Act.Triple.{
  Triple, After, After-same, Anything, bind_rule, refuse_rule, Keeps-refuse_if, returned,
}
use acmex.Net.{Reply, response, failure}
use acmex.Net.Value.{Json}
use acmex.Dns.Zones.{get_domain_name, get_record_name}
use acmex.Dns.Rest.{Api, Request, reply_to, call, call_or}
use acmex.Dns.Godaddy.{GodaddyDnsProvider, record_url, create_txt_record, delete_txt_record}

-- the URL of the last request
abbrev pub last_url : List Request → Option String
last_url [] = none
last_url (q ∷ rest) = some q.url

record Asked (url : String) (a : Api) : Type 0 where
  last : last_url a.requests ≡ some url

module _ (q : Request) (what : String) where
  asked :
      (replies : List Reply) (a : Api)
      → let (r, a') = reply_to replies q a in
        let out = or_raise {S = Api} r (λ e. AcmeError.transport (what <> e)) a' in
        After (λ _. Asked q.url) (Asked q.url) out.0 out.1
  unfolding reply_to
  asked [] a = record { last = refl }
  asked (failure m ∷ rest) a = record { last = refl }
  asked (response r ∷ rest) a = record { last = refl }

  call_or-Asked : Triple Anything (call_or q what) (λ _. Asked q.url) (Asked q.url)
  unfolding call_or call ◌>>=◌
  call_or-Asked = record { run = λ a h. asked a.replies a }

forgotten :
    {A : Type 0} (Q : A → Api → Type 0) (E : Api → Type 0) (r : Outcome A) (a : Api)
    → After Q E r a
    → After Q Anything r a
forgotten Q E (ok x) a h = h
forgotten Q E (err e) a h = tt
forgotten Q E (panic m) a h = tt

-- Nothing is told of a failure.
any_error :
    {A : Type 0} {m : Act Api A} {P E : Api → Type 0} {Q : A → Api → Type 0}
    → Triple P m Q E
    → Triple P m Q Anything
any_error {m} t = record { run = λ a h. forgotten _ _ (m a).0 (m a).1 (t.run a h) }

module _ (status_text : ℕ → String) (parse : String → Answer Json) (p : GodaddyDnsProvider) where
  -- The id is the record's name, and the last request was for its URL.
  record Created (domain id : String) (a : Api) : Type 0 where
    named : id ≡ get_record_name domain
    url :
        last_url a.requests ≡ some (record_url p (get_domain_name domain) (get_record_name domain))

  create-Created :
      (domain value : String)
      → Triple Anything
          (create_txt_record status_text parse p domain value)
          (Created domain)
          Anything
  unfolding create_txt_record
  create-Created domain value =
      bind_rule {Q = λ _. Asked (record_url p (get_domain_name domain) (get_record_name domain))}
        (any_error (call_or-Asked _ _))
        (λ r.
          bind_rule (refuse_rule (λ s h. tt) _ _)
            (λ _. record { run = λ s h. record { named = refl; url = h.last } }))

  delete-Asked :
      (domain record_id : String)
      → Triple Anything
          (delete_txt_record status_text parse p domain record_id)
          (λ _. Asked (record_url p (get_domain_name domain) record_id))
          (Asked (record_url p (get_domain_name domain) record_id))
  unfolding delete_txt_record
  delete-Asked domain record_id = bind_rule (call_or-Asked _ _) (λ r. Keeps-refuse_if _ _)

  -- Where a record was created, a deletion with the id that it was given sends, whatever the service
  -- answers, its last request for the URL that the record was put under.
  pub delete-create :
      (domain value id : String) (a a' b : Api)
      → create_txt_record status_text parse p domain value a ≡ (ok id, a')
      → last_url (delete_txt_record status_text parse p domain id b).1.requests
        ≡ last_url a'.requests
  delete-create domain value id a a' b e =
      let created = returned (create-Created domain value) a tt id a' e in
      (After-same (Asked (record_url p (get_domain_name domain) id)) _ _
        ((delete-Asked domain id).run b tt)).last
      ∙ ap (λ n. some (record_url p (get_domain_name domain) n)) created.named
      ∙ sym created.url
