-- ===== src/Tests/Orchestrator.antt =====
-- A workflow whose server never answers.
use acmex.Base.{◌≡◌, ◌≤◌, refl, true, false, none, [], ◌∷◌, count, count-nil, arith}
use acmex.Error.{AcmeError}
use acmex.Act.{done, err, ◌>>=◌}
use acmex.Net
use acmex.Protocol.Directory
use acmex.Protocol.Fresh.{IsFresh, spent, issued}
use acmex.Client.Config as ClientConfig
use acmex.Orchestrator.Provisioner
use acmex.Orchestrator.Provisioner.{Config, execute, AllFail, execute-AllFail}
use acmex.Orchestrator.Fresh.{execute-replays_none}
use acmex.Tests.Toy.{toy, world, reply}

abbrev pub config : Config
config = record {
  directory = "/dir";
  tos_agreed = true;
  contact = [];
  challenge_type = "http-01";
  http_01_listen_addr = none;
  has_dns_01 = false;
}

pub unreachable : execute toy done config ("a.org" ∷ []) (world []) ≡ (
  err (AcmeError.transport "Failed to fetch directory: connection closed"),
  (execute toy done config ("a.org" ∷ []) (world [])).1,
)
unfolding execute Provisioner.retry Provisioner.provision Provisioner.pause Provisioner.acme_config
    Provisioner.with_contacts Provisioner.new_client ClientConfig.register_account
    ClientConfig.managers ClientConfig.new ClientConfig.with_tos_agreed ClientConfig.with_contact
    Directory.get Directory.cached_or_fetch Directory.fetch Net.send Net.exchange ◌>>=◌
unreachable = refl

execute-AllFail_example :
    AllFail toy done config
      ("a.org" ∷ [])
      4
      0
      (world [])
      (AcmeError.transport "Failed to fetch directory: connection closed")
      (execute toy done config ("a.org" ∷ []) (world [])).1
execute-AllFail_example =
    execute-AllFail toy done config ("a.org" ∷ []) (world [])
      (execute toy done config ("a.org" ∷ []) (world [])).1
      (AcmeError.transport "Failed to fetch directory: connection closed") unreachable

world-IsFresh : IsFresh (world (reply 200 "n0" "" ∷ reply 204 "n1" "" ∷ []))
world-IsFresh = record { paid = λ n. omega (arith, count-nil n) }

execute-replays_none_example :
    let log =
      (execute toy done config
        ("a.org" ∷ [])
        (world (reply 200 "n0" "" ∷ reply 204 "n1" "" ∷ []))).1.log in
    count "n1" (spent log) ≤ count "n1" (issued log)
execute-replays_none_example =
    execute-replays_none toy done config ("a.org" ∷ [])
      (world (reply 200 "n0" "" ∷ reply 204 "n1" "" ∷ [])) "n1" world-IsFresh
