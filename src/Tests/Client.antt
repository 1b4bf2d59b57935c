-- ===== src/Tests/Client.antt =====
-- A whole issue of a certificate, evaluated.
use acmex.Base.{◌≡◌, refl, ap, ◌≤◌, [], ◌∷◌, count, count-nil, arith}
use acmex.Base.Dict
use acmex.Act.{ok, ◌>>=◌}
use acmex.Net
use acmex.Types
use acmex.Protocol.Jwk
use acmex.Protocol.Jws
use acmex.Protocol.Nonce
use acmex.Protocol.Directory
use acmex.Protocol.Request
use acmex.Protocol.Fresh.{IsFresh, spent, issued}
use acmex.Challenge.Solvers
use acmex.Challenge.Steps
use acmex.Account.Manager as AccountManager
use acmex.Order.Manager as OrderManager
use acmex.Order.Objects
use acmex.Client.Config
use acmex.Client.Issue
use acmex.Client.Issue.{CertificateBundle, issue_certificate}
use acmex.Client.Fresh.{issue_certificate-replays_none}
use acmex.Client.Results.{IsIssued, issue_certificate-Issued}
use acmex.Tests.Toy.{toy, toy_client, issuing}

-- The answers of a server that grants everything lead to the bundle.
abbrev bundle : CertificateBundle
bundle = record { certificate_pem = "CERT"; private_key_pem = "key"; domains = "a.org" ∷ [] }

issuing_ok : (issue_certificate toy toy_client ("a.org" ∷ []) issuing).0 ≡ ok bundle
unfolding issue_certificate ◌>>=◌ Config.ensure_account Config.ensured Config.register_account
    Config.managers Directory.get Directory.cached_or_fetch Directory.fetch Net.send Net.exchange
    Net.effect Net.header AccountManager.register AccountManager.compute_key_authorization
    AccountManager.jwk Request.signed_post Request.post_with Nonce.get_nonce Nonce.pop_or_fetch
    Nonce.fetch_nonce Nonce.cache_from Nonce.cache_if_some Nonce.cache_nonce Jws.sign
    Jws.header_json OrderManager.create_order OrderManager.download_certificate
    OrderManager.finalize_order OrderManager.get_authorization OrderManager.get_order
    OrderManager.judge OrderManager.poll_from OrderManager.poll_order
    OrderManager.respond_to_challenge Objects.new_order_request Objects.request_json Issue.complete
    Issue.authorize Issue.authorize_all Issue.generate Dict.get Dict.insert Dict.remove
    Solvers.challenge_type Solvers.get Solvers.put Steps.prepare Steps.present
    Jwk.compute_thumbprint Jwk.new_ed_25519 Jwk.thumbprint_sha_256 Jwk.to_value
    Types.challenge_type_from_str Types.dns Types.to_uri
issuing_ok = refl

issuing-IsFresh : IsFresh issuing
issuing-IsFresh = record { paid = λ n. omega (arith, count-nil n) }

issue_certificate-replays_none_example :
    let log = (issue_certificate toy toy_client ("a.org" ∷ []) issuing).1.log in
    count "n3" (spent log) ≤ count "n3" (issued log)
issue_certificate-replays_none_example =
    issue_certificate-replays_none toy toy_client ("a.org" ∷ []) issuing "n3" issuing-IsFresh

issue_certificate-Issued_example :
    IsIssued toy toy_client
      ("a.org" ∷ [])
      bundle
      (issue_certificate toy toy_client ("a.org" ∷ []) issuing).1.log
issue_certificate-Issued_example =
    issue_certificate-Issued toy toy_client ("a.org" ∷ []) issuing
      (issue_certificate toy toy_client ("a.org" ∷ []) issuing).1 bundle
      (ap (λ r. (r, (issue_certificate toy toy_client ("a.org" ∷ []) issuing).1)) issuing_ok)
