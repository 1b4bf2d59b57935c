-- ===== src/Client/Issue.antt =====
-- `create_order` and `issue_certificate` of src/client.rs, and the signing request of
-- src/order/csr.rs that the latter makes.
use acmex.Base.{
  ℕ, suc, String, ◌==◌, Bool, false, not, Option, none, some, List, [], ◌∷◌, find, is_some,
}
use acmex.Error.{AcmeError}
use acmex.Act.{pure, lift, gets, modify, ok_or, or_raise, refuse_if, ◌>>=◌, ◌>>◌}
use acmex.Net.{Io}
use acmex.Types.{ChallengeType, challenge_type_from_str}
use acmex.Challenge.Solvers
use acmex.Challenge.Solvers.{Registry}
use acmex.Challenge.Steps.{prepare, present}
use acmex.Platform.{Platform}
use acmex.Protocol.Request.{Manager}
use acmex.Account.Manager.{compute_key_authorization}
use acmex.Order.Objects.{Challenge, Order, new_order_request}
use acmex.Order.Manager
use acmex.Client.Config.{Client, managers, ensure_account}

pub record CertificateBundle : Type 0 where
  pub certificate_pem : String
  pub private_key_pem : String
  pub domains : List String

abbrev solvable_by : Registry → Option ChallengeType → Bool
solvable_by r none = false
solvable_by r (some t) = is_some (Solvers.get r t)

abbrev solvable : Registry → Challenge → Bool
solvable r c = solvable_by r (challenge_type_from_str c.challenge_type)

-- One more key has been generated.
abbrev pub count_draw : Io (Unit {0})
count_draw = modify (λ w. record w { draws = suc w.draws })

module _ {Key : Type 0} (p : Platform Key) where
  -- `CsrGenerator::new(domains).generate()`, with a key of its own
  unfoldable pub generate : List String → Io (List ℕ × String)
  generate domains = do
    n ← gets (λ w. w.draws)
    count_draw
    or_raise (p.csr n domains) AcmeError.crypto

  module _ (m : Manager Key) (account_id : String) where
    -- The first challenge that a registered solver handles is prepared, presented and answered.
    unfoldable pub authorize : String → Io (Unit {0})
    authorize auth_url = do
      auth ← Manager.get_authorization p m account_id auth_url
      solvers ← gets (λ w. w.solvers)
      challenge ←
          ok_or (find (solvable solvers) auth.challenges)
            (AcmeError.challenge "unknown" "No suitable challenge solver found")
      kind ←
          ok_or (challenge_type_from_str challenge.challenge_type)
            (AcmeError.challenge challenge.challenge_type "Unsupported challenge type")
      solver ←
          ok_or (Solvers.get solvers kind)
            (AcmeError.challenge challenge.challenge_type "Solver not found")
      key_auth ← lift (compute_key_authorization p m challenge.token)
      prepare p solver auth.identifier key_auth
      present solver
      _ ← Manager.respond_to_challenge p m account_id challenge.url
      pure tt

    -- `for auth_url in &order.authorizations`
    unfoldable pub authorize_all : List String → Io (Unit {0})
    authorize_all [] = pure tt
    authorize_all (auth_url ∷ rest) = authorize auth_url >> authorize_all rest

    -- From the created order to the bundle; the polls are 30 attempts, two seconds apart.
    unfoldable pub complete : List String → String → Order → Io CertificateBundle
    complete domains order_url created = do
      authorize_all created.authorizations
      order ← Manager.poll_order p m account_id order_url 30 2
      refuse_if (not (order.status == "ready"))
          (AcmeError.order "Order not ready after authorization" order.status)
      (csr_der, private_key_pem) ← generate domains
      _ ← Manager.finalize_order p m account_id order.finalize csr_der
      order' ← Manager.poll_order p m account_id order_url 30 2
      refuse_if (not (order'.status == "valid"))
          (AcmeError.order "Order not valid after finalization" order'.status)
      certificate_url ←
          ok_or order'.certificate (AcmeError.certificate "No certificate URL in order")
      cert_pem ← Manager.download_certificate p m account_id certificate_url
      pure (record {
        certificate_pem = cert_pem;
        private_key_pem = private_key_pem;
        domains = domains;
      })

  module _ (c : Client Key) where
    unfoldable pub create_order : List String → Io Order
    create_order domains = do
      account_id ← ensure_account p c
      m ← managers p c
      (url, order) ← Manager.create_order p m account_id (new_order_request domains)
      pure order

    unfoldable pub issue_certificate : List String → Io CertificateBundle
    issue_certificate domains = do
      account_id ← ensure_account p c
      m ← managers p c
      (order_url, order) ← Manager.create_order p m account_id (new_order_request domains)
      complete m account_id domains order_url order
