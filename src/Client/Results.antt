-- ===== src/Client/Results.antt =====
-- What a bundle that the client returns has come from.
use acmex.Base.{ℕ, String, ◌≡◌, refl, ◌==◌, not, some, List, eq_iff}
use acmex.Act.{ok, done, refuse_if, ok_or}
use acmex.Error.{AcmeError}
use acmex.Act.Triple.{
  Triple, returned, Anything, bind_rule, any_rule, weaken_rule, refused_rule, raised_rule,
  ok_or_rule,
}
use acmex.Net.{World, Event, json_body}
use acmex.Net.Value.{str, obj, field, end}
use acmex.Platform.{Platform}
use acmex.Protocol.Request.{Manager, by_kid}
use acmex.Protocol.Once.{Once, Earlier, Once-now, also_rule, keep_rule, fact_rule}
use acmex.Order.Objects.{Order, new_order_request}
use acmex.Order.Manager
use acmex.Order.Once.{poll_order-Once, finalize_order-Once, download_certificate-Once}
use acmex.Order.Results.{
  Fetched, Polled, Created, create_order-Created, poll_order-Polled, finalize_order-Fetched,
  download_certificate-Fetched, not-eq-false,
}
use acmex.Client.Config.{Client, managers}
use acmex.Client.Once.{authorize_all-Once, generate-Once}
use acmex.Client.Issue.{CertificateBundle, generate, complete, issue_certificate}

module _ {Key : Type 0} (p : Platform Key) (m : Manager Key) (id : String) where
  -- The steps of an issue, each of which has all of the former in its past: the order was created for
  -- the domains at a URL,
  abbrev pub Ordered : List String → String × Order → List Event → Type 0
  Ordered domains created log = Created p m.key id (new_order_request domains) created log

  -- the order at that URL was ready,
  abbrev pub Readied : List String → String × Order → Order → List Event → Type 0
  Readied domains created ready log =
      (ready.status ≡ "ready")
      × Fetched p m.key (by_kid id) created.0 (obj end) (json_body p.order_of) ready log
      × Earlier (Ordered domains created) log

  -- it was finalized with a signing request for the domains,
  abbrev pub Finalized : List String → String × Order → String → List Event → Type 0
  Finalized domains created key_pem log =
      (ready finalizing : Order) × (n : ℕ) × (csr_der : List ℕ) × (p.csr n domains
        ≡ done (csr_der, key_pem))
      × Fetched p m.key (by_kid id) ready.finalize
          (obj (field "csr" (str (p.base64url csr_der)) end)) (json_body p.order_of) finalizing log
      × Earlier (Readied domains created ready) log

  -- it was valid and named the certificate,
  abbrev pub Validated : List String → String × Order → String → String → List Event → Type 0
  Validated domains created key_pem url log =
      (valid : Order) × (valid.status ≡ "valid")
      × (valid.certificate ≡ some url)
      × Fetched p m.key (by_kid id) created.0 (obj end) (json_body p.order_of) valid log
      × Earlier (Finalized domains created key_pem) log

  -- and the certificate was downloaded last.
  abbrev pub Issued : List String → CertificateBundle → List Event → Type 0
  Issued domains b log =
      (b.domains ≡ domains)
      × ((created : String × Order) × (url : String) × Fetched p m.key (by_kid id) url (obj end)
            (λ body. body) b.certificate_pem log
          × Earlier (Validated domains created b.private_key_pem url) log)

  module _ (domains : List String) (created : String × Order) where
    ready_rule :
        (ready : Order) (e : AcmeError)
        → Triple
            (λ w. Polled p m.key id created.0 ready w.log × Once (Ordered domains created) w)
            (refuse_if (not (ready.status == "ready")) e)
            (λ _. Once (Readied domains created ready))
            Anything
    ready_rule ready e =
        refused_rule (λ s h. tt) _ _ e
          (λ test w h. Once-now ((eq_iff _ _).0 (not-eq-false _ test), h.0.1, h.1.earlier))

    -- The key pair and the request that the client generates are for the domains.
    generate-Csr :
        Triple Anything
          (generate p domains)
          (λ made w. (n : ℕ) × (p.csr n domains ≡ done (made.0, made.1)))
          Anything
    unfolding generate
    generate-Csr =
        bind_rule (any_rule _)
          (λ n. bind_rule (any_rule _) (λ _. raised_rule (λ s h. tt) _ _ _ (λ made e w h. (n, e))))

    finalize_rule :
        (ready : Order) (made : List ℕ × String)
        → Triple
            (λ w.
              ((n : ℕ) × (p.csr n domains ≡ done (made.0, made.1)))
              × Once (Readied domains created ready) w)
            (Manager.finalize_order p m id ready.finalize made.0)
            (λ _. Once (Finalized domains created made.1))
            Anything
    finalize_rule ready made = fact_rule (λ drawn.
        weaken_rule (λ o w h. Once-now (ready, o, drawn.0, made.0, drawn.1, h.0, h.1.earlier))
          (also_rule (finalize_order-Once _ p m id _ _) (finalize_order-Fetched p m id _ _)))

    valid_rule :
        (valid : Order) (key_pem : String) (e : AcmeError)
        → Triple
            (λ w.
              Polled p m.key id created.0 valid w.log × Once (Finalized domains created key_pem) w)
            (refuse_if (not (valid.status == "valid")) e)
            (λ _ w.
              (valid.status ≡ "valid")
              × Polled p m.key id created.0 valid w.log
              × Once (Finalized domains created key_pem) w)
            Anything
    valid_rule valid key_pem e =
        refused_rule (λ s h. tt) _ _ e
          (λ test w h. ((eq_iff _ _).0 (not-eq-false _ test), h.0, h.1))

    named_rule :
        (valid : Order) (key_pem : String) (e : AcmeError)
        → Triple
            (λ w.
              (valid.status ≡ "valid")
              × Polled p m.key id created.0 valid w.log
              × Once (Finalized domains created key_pem) w)
            (ok_or valid.certificate e)
            (λ url. Once (Validated domains created key_pem url))
            Anything
    named_rule valid key_pem e =
        ok_or_rule (λ s h. tt) _ _ e
          (λ url named w h. Once-now (valid, h.0, named, h.1.1, h.2.earlier))

    complete-Issued :
        Triple
          (Once (Ordered domains created))
          (complete p m id domains created.0 created.1)
          (λ b w. Issued domains b w.log)
          Anything
    unfolding complete
    complete-Issued = bind_rule (keep_rule (authorize_all-Once _ p m id _)) (λ _.
        bind_rule (also_rule (poll_order-Once _ p m id _ _ _) (poll_order-Polled p m id _ _ _))
          (λ ready. bind_rule (ready_rule ready _) (λ _.
            bind_rule (also_rule (generate-Once _ p domains) generate-Csr) (λ made.
              bind_rule (finalize_rule ready made) (λ _.
                bind_rule
                  (also_rule (poll_order-Once _ p m id _ _ _) (poll_order-Polled p m id _ _ _))
                  (λ valid. bind_rule (valid_rule valid made.1 _) (λ _.
                    bind_rule (named_rule valid made.1 _) (λ url.
                      bind_rule
                        (also_rule (download_certificate-Once _ p m id url)
                          (download_certificate-Fetched p m id url))
                        (λ pem. record {
                          run = λ w h. (refl, (created, url, h.0, h.1.earlier));
                        })))))))))

module _ {Key : Type 0} (p : Platform Key) (c : Client Key) where
  -- the managers of a call sign with the client's key
  managers-key : Triple Anything (managers p c) (λ m _. m.key ≡ c.key_pair) Anything
  unfolding managers
  managers-key =
      bind_rule (any_rule _) (λ _. bind_rule (any_rule _) (λ d. record { run = λ w h. refl }))

  -- A bundle that was issued for some account, with requests that the client's key signed.
  abbrev pub IsIssued : List String → CertificateBundle → List Event → Type 0
  IsIssued domains b log =
      (m : Manager Key) × (id : String) × (m.key ≡ c.key_pair) × Issued p m id domains b log

  issue_certificate-After :
      (domains : List String)
      → Triple Anything (issue_certificate p c domains) (λ b w. IsIssued domains b w.log) Anything
  unfolding issue_certificate
  issue_certificate-After domains = bind_rule (any_rule _) (λ id. bind_rule managers-key (λ m.
      record {
        run = λ w key.
            (bind_rule (weaken_rule (λ created w h. Once-now h) (create_order-Created p m id _))
                (λ created.
                  weaken_rule (λ b w h. (m, id, key, h))
                    (complete-Issued p m id domains created))).run
              w tt;
      }))

  -- Where issuing returns a bundle, the log ends with the download of its certificate, in a response
  -- of success, from the URL that an earlier response named when the order was valid; before that
  -- the order was finalized at its own URL with the signing request for exactly the given domains
  -- that came with the bundle's private key; before that a response said that the order was ready;
  -- and before that the order was created for those domains. All are signed by the client's key for one
  -- account.
  pub issue_certificate-Issued :
      (domains : List String) (w w' : World) (b : CertificateBundle)
      → issue_certificate p c domains w ≡ (ok b, w')
      → IsIssued domains b w'.log
  issue_certificate-Issued domains w w' b e = returned (issue_certificate-After domains) w tt b w' e
