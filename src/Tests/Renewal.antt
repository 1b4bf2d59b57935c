-- ===== src/Tests/Renewal.antt =====
-- A round whose renewal fails for want of a network, and a renewal that succeeds.
use acmex.Base.{ℕ, ◌≡◌, refl, true, some, List, [], ◌∷◌}
use acmex.Base.Dict
use acmex.Base.Dict.{Dict, get}
use acmex.Act.{done, fault, ok, catch, ◌>>=◌}
use acmex.Net
use acmex.Net.{World}
use acmex.Types
use acmex.Platform.{Platform}
use acmex.Protocol.Jwk
use acmex.Protocol.Jws
use acmex.Protocol.Nonce
use acmex.Protocol.Directory
use acmex.Protocol.Request
use acmex.Challenge.Solvers
use acmex.Challenge.Steps
use acmex.Account.Manager as AccountManager
use acmex.Order.Manager as OrderManager
use acmex.Order.Objects
use acmex.Order.Objects.{Authorization, Challenge}
use acmex.Client.Config
use acmex.Client.Issue
use acmex.Client.Issue.{CertificateBundle, issue_certificate}
use acmex.Certificate.X509.{Parsers}
use acmex.Storage.Memory.{memory_storage, memory_storage-IsMap}
use acmex.Storage.Certificates
use acmex.Storage.Certificates.{key_for_domains}
use acmex.Renewal.Window
use acmex.Renewal.Scheduler
use acmex.Renewal.Scheduler.{Renewals, Settings, HookCall, renew, round}
use acmex.Renewal.Results.{Paired, nothing, round-Paired, renew-load}
use acmex.Storage.Backend.{Backend}
use acmex.Tests.Storage
use acmex.Tests.Storage.{codec, read_back, no_bundle}
use acmex.Tests.Toy.{toy, toy_client, world, reply, toy_authorization, dns_challenge}

abbrev no_parsers : Parsers
no_parsers = record { parse_many = λ text. fault "no PEM"; from_der = λ der. fault "no DER" }

abbrev settings : Settings
settings = record { has_hook = true; renew_before = 2592000; clock = λ domains. done 0 }

abbrev offline : Renewals (Dict (List ℕ))
offline = record { world = world []; store = []; calls = [] }

runs :
    round toy no_parsers codec memory_storage toy_client settings (("a.org" ∷ []) ∷ []) offline ≡ (
      ok tt,
      (round toy no_parsers codec memory_storage toy_client settings
          (("a.org" ∷ []) ∷ [])
          offline).1,
    )
unfolding round Scheduler.visit Scheduler.renew_due renew Window.needs_renewal Certificates.load
    Certificates.decoded Certificates.key_for_domains memory_storage Dict.get catch ◌>>=◌
    issue_certificate Config.ensure_account Config.ensured Config.register_account Config.managers
    Directory.get Directory.cached_or_fetch Directory.fetch Net.send Net.exchange
    Solvers.new_server_solver Solvers.register
runs = refl

round-Paired_example : Paired (
    Renewals.calls
      (round toy no_parsers codec memory_storage toy_client settings
        (("a.org" ∷ []) ∷ [])
        offline).1)
round-Paired_example =
    round-Paired toy no_parsers codec memory_storage toy_client settings (("a.org" ∷ []) ∷ [])
      offline
      (round toy no_parsers codec memory_storage toy_client settings (("a.org" ∷ []) ∷ [])
        offline).1
      nothing runs

-- The server offers an HTTP-01 challenge and issues an empty certificate.
abbrev server : Platform ℕ
server = record toy {
  csr = λ n domains. done (n ∷ [], "");
  authorization_of = λ body. done (record toy_authorization {
    challenges = record dns_challenge { challenge_type = "http-01" } ∷ [];
  });
}

abbrev online : Renewals (Dict (List ℕ))
online = record {
  world = world (
      reply 200 "n0" ""
      ∷ reply 204 "n1" ""
      ∷ reply 201 "n2" ""
      ∷ reply 200 "n3" ""
      ∷ reply 204 "n4" ""
      ∷ reply 201 "n5" "pending"
      ∷ reply 200 "n6" ""
      ∷ reply 200 "n7" ""
      ∷ reply 200 "n8" "pending"
      ∷ reply 200 "n9" "ready"
      ∷ reply 200 "n10" "processing"
      ∷ reply 200 "n11" "valid"
      ∷ reply 200 "n12" ""
      ∷ []);
  store = [];
  calls = [];
}

abbrev after : Renewals (Dict (List ℕ))
after = (renew server no_parsers codec memory_storage toy_client settings ("a.org" ∷ []) online).1

renewed :
    renew server no_parsers codec memory_storage toy_client settings ("a.org" ∷ []) online
    ≡ (ok no_bundle, after)
unfolding renew issue_certificate ◌>>=◌ Config.ensure_account Config.ensured Config.register_account
    Config.managers Directory.get Directory.cached_or_fetch Directory.fetch Net.send Net.exchange
    Net.effect Net.header AccountManager.register AccountManager.compute_key_authorization
    AccountManager.jwk Request.signed_post Request.post_with Nonce.get_nonce Nonce.pop_or_fetch
    Nonce.fetch_nonce Nonce.cache_from Nonce.cache_if_some Nonce.cache_nonce Jws.sign
    Jws.header_json OrderManager.create_order OrderManager.download_certificate
    OrderManager.finalize_order OrderManager.get_authorization OrderManager.get_order
    OrderManager.judge OrderManager.poll_from OrderManager.poll_order
    OrderManager.respond_to_challenge Objects.new_order_request Objects.request_json Issue.complete
    Issue.authorize Issue.authorize_all Issue.generate Dict.get Dict.insert Dict.remove
    Solvers.challenge_type Solvers.get Solvers.put Solvers.register Solvers.new_server_solver
    Steps.prepare Steps.present Jwk.compute_thumbprint Jwk.new_ed_25519 Jwk.thumbprint_sha_256
    Jwk.to_value Types.challenge_type_from_str Types.dns Types.to_uri Certificates.save
    Storage.to_vec_fields Certificates.key_for_domains memory_storage
renewed = refl

loads :
    Backend.load memory_storage (key_for_domains ("a.org" ∷ [])) (Renewals.store after)
    ≡ (ok (get (Renewals.store after) (key_for_domains ("a.org" ∷ []))), Renewals.store after)
unfolding memory_storage
loads = refl

renew-load_example :
    Certificates.load codec memory_storage ("a.org" ∷ []) (Renewals.store after)
    ≡ (ok (some no_bundle), Renewals.store after)
renew-load_example =
    renew-load server no_parsers codec memory_storage toy_client settings read_back get
      memory_storage-IsMap ("a.org" ∷ []) online after no_bundle
      (get (Renewals.store after) (key_for_domains ("a.org" ∷ []))) (Renewals.store after) renewed
      loads
