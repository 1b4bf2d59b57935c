-- ===== src/Cli/Credentials.antt =====
-- src/account/credentials.rs: the account's key, and its file.
use acmex.Base.{String, ◌<>◌}
use acmex.Error.{AcmeError}
use acmex.Act.{Act, Outcome, gets, or_raise, outcome_of, lift, ◌>>=◌, ◌>>◌}
use acmex.Client.Issue.{count_draw}
use acmex.Net.{Io}
use acmex.Platform.{Platform}
use acmex.Cli.Machine.{Machine, read, write}
use acmex.Cli.Pem.{Tools}

module _ {Key : Type 0} (p : Platform Key) (t : Tools Key) where
  unfoldable pub generate : Io Key
  generate = do
    n ← gets (λ w. w.draws)
    count_draw
    or_raise (p.generate n) (λ e. AcmeError.crypto ("Failed to generate key pair: " <> e))

  unfoldable pub from_pem : String → Outcome Key
  from_pem pem_str =
      outcome_of (t.key_from_pem pem_str) (λ e. AcmeError.pem ("Failed to parse PEM: " <> e))

  unfoldable pub save_to_file : Key → String → Act Machine (Unit {0})
  unfolding write
  save_to_file key path = write path (p.utf_8 (t.serialize_pem key))

  -- `fs::read_to_string`
  unfoldable pub read_to_string : String → Act Machine String
  unfolding read
  read_to_string path = read path >>= λ bytes. or_raise (t.read_utf_8 bytes) AcmeError.io

  unfoldable pub load_from_file : String → Act Machine Key
  unfolding read_to_string from_pem
  load_from_file path = read_to_string path >>= λ content. lift (from_pem content)
