-- ===== src/Tests/Cli.antt =====
-- Commands on a machine with a certificate, a key and a directory in the files.
use acmex.Base.{ℕ, String, ◌==◌, ◌≡◌, refl, true, false, none, some, List, [], ◌∷◌, All, length}
use acmex.Base.Dict
use acmex.Base.Dict.{get, insert}
use acmex.Error.{AcmeError}
use acmex.Act.{done, ok, err, catch, ◌>>=◌}
use acmex.Config.Load
use acmex.Config.Load.{Surroundings}
use acmex.Config.Ca
use acmex.Cli.Machine
use acmex.Cli.Machine.{Machine, Notice}
use acmex.Cli.Pem.{Tools, pos, as_u64, parse_not_after}
use acmex.Cli.Daemon.{
  Wake, stopped, slept, sigterm, serve, check, check_and_renew_certificates, check_from,
  check_certificate_expiry, within,
}
use acmex.Cli.Notices.{Announced, serve-Announced}
use acmex.Cli.Renew.{handle_renew, backup_path}
use acmex.Cli.Untouched.{handle_renew-untouched}
use acmex.Cli.Obtain.{handle_obtain, obtain_config, resolved_url}
use acmex.Cli.Placeholder.{handle_obtain-offline}
use acmex.Cli.Credentials.{generate, save_to_file, load_from_file, read_to_string, from_pem}
use acmex.Cli.KeyFiles.{load_from_file-save_to_file}
use acmex.Tests.Config.{surroundings}
use acmex.Tests.Toy.{toy, world, reply}
use acmex.Tests.Account.{no_dot}
use acmex.Cli.Account.{handle_rotate_key, acme_url, manager_for}
use acmex.Cli.Rotated.{Rotated, handle_rotate_key-Rotated}
use acmex.Client.Config as Client
use acmex.Net
use acmex.Protocol.Jwk
use acmex.Protocol.Jws
use acmex.Protocol.Nonce
use acmex.Protocol.Directory
use acmex.Protocol.Request
use acmex.Account.Manager as AccountManager
use acmex.Account.KeyRollover
use acmex.Account.KeyRollover.{execute}
use acmex.Base.Split.{split_dot}

-- A certificate that ends at the thousandth second.
abbrev tools : Tools ℕ
tools = record {
  parse_x509_pem = done;
  parse_x509_certificate = λ der. done (pos 1000);
  from_millisecond = done;
  pem_contents = done;
  read_utf_8 = λ bytes. done "key";
  key_from_pem = λ pem. done 7;
  serialize_pem = λ key. "key";
  date = λ time. "today";
  to_lowercase = λ s. s;
}

abbrev home : Machine
home = record {
  files = ("./certificate.pem", 1 ∷ []) ∷ [];
  faults = [];
  clock = 900 ∷ 2000 ∷ [];
  notices = [];
  world = world [];
}

abbrev domains : List String
domains = "a.org" ∷ []

abbrev wakes : List Wake
wakes = slept ∷ slept ∷ sigterm ∷ slept ∷ []

serve-Announced_example :
    let out = serve tools domains "." 200 (some "me") wakes home in
    (out.0 ≡ ok stopped)
    × (out ≡ serve tools domains "." 200 (some "me") (slept ∷ slept ∷ sigterm ∷ []) home)
    × All (Announced (some "me") (length domains)) out.1.notices
serve-Announced_example = serve-Announced tools domains "." 200 (some "me") wakes home refl

-- the certificate is counted while it lasts, and not once it has expired
told_once :
    (serve tools domains "." 200 (some "me") wakes home).1.notices ≡ Notice.renewal "me" 1 ∷ []
unfolding serve check check_and_renew_certificates check_from check_certificate_expiry within
    parse_not_after as_u64 Machine.exists Machine.read Machine.fs_call Machine.now Machine.join_path
    get catch ◌>>=◌
told_once = refl

backups_apart :
    (time : ℕ)
    → ((backup_path toy tools "." "certificate" time == "./certificate.pem") ≡ false)
      × ((backup_path toy tools "." "private_key" time == "./certificate.pem") ≡ false)
unfolding Machine.join_path
backups_apart time = (refl, refl)

handle_renew-untouched_example :
    get (handle_renew toy tools domains true "." home).1.files "./certificate.pem"
    ≡ get (Machine.files home) "./certificate.pem"
handle_renew-untouched_example =
    handle_renew-untouched toy tools "." "./certificate.pem" backups_apart domains true home

abbrev obtained : Machine
obtained = record home { files = ("k.pem", 0 ∷ []) ∷ ("c.pem", 0 ∷ []) ∷ Machine.files home }

obtains :
    handle_obtain surroundings
      (λ text. 0 ∷ [])
      domains
      "me"
      "http-01"
      "c.pem"
      "k.pem"
      true
      none
      home
    ≡ (ok tt, obtained)
unfolding handle_obtain obtain_config resolved_url Machine.create_parent Machine.write
    Machine.fs_call Machine.has_parent Machine.split_slash Load.to_ca_config Load.ca_type
    Load.environment Ca.new Ca.with_custom_url Ca.with_contact_email Ca.directory_url Dict.insert
    Dict.remove ◌>>=◌
obtains = refl

handle_obtain-offline_example :
    (Machine.files obtained
      ≡ insert (insert (Machine.files home) "c.pem" (0 ∷ [])) "k.pem" (0 ∷ []))
    × (Machine.world obtained ≡ Machine.world home)
handle_obtain-offline_example =
    handle_obtain-offline surroundings (λ text. 0 ∷ []) domains "me" "http-01" "c.pem" "k.pem" true
      none home obtained obtains

abbrev keyed : Machine
keyed = record home { files = ("k.pem", []) ∷ Machine.files home }

saves : save_to_file toy tools 7 "k.pem" home ≡ (ok tt, keyed)
unfolding save_to_file Machine.write Machine.fs_call Dict.insert Dict.remove ◌>>=◌
saves = refl

loads : load_from_file toy tools "k.pem" keyed ≡ (ok 7, keyed)
unfolding load_from_file read_to_string from_pem Machine.read Machine.fs_call get ◌>>=◌
loads = refl

abbrev key : ℕ
key = 7

load_from_file-save_to_file_example : key ≡ key
load_from_file-save_to_file_example =
    load_from_file-save_to_file toy tools "k.pem" key refl refl home keyed keyed key saves loads

abbrev turning : Machine
turning = record keyed {
  world =
      world (reply 200 "n0" "" ∷ reply 204 "n1" "" ∷ reply 201 "n2" "" ∷ reply 200 "n3" "" ∷ []);
}

turned :
    handle_rotate_key toy tools "k.pem" "n.pem" false turning
    ≡ (ok tt, (handle_rotate_key toy tools "k.pem" "n.pem" false turning).1)
unfolding handle_rotate_key acme_url manager_for generate execute load_from_file read_to_string
    from_pem save_to_file Machine.read Machine.write Machine.fs_call Client.new Client.managers
    AccountManager.register KeyRollover.inner_object KeyRollover.new_jwk split_dot
    AccountManager.jwk Directory.get Directory.cached_or_fetch Directory.fetch Net.send Net.exchange
    Net.header Request.signed_post Request.post_with Nonce.get_nonce Nonce.pop_or_fetch
    Nonce.fetch_nonce Nonce.cache_from Nonce.cache_if_some Nonce.cache_nonce Jws.sign
    Jws.header_json Jwk.new_ed_25519 Jwk.to_value Dict.get Dict.insert Dict.remove ◌>>=◌
turned = refl

handle_rotate_key-Rotated_example :
    Rotated toy tools no_dot "k.pem" "n.pem" turning
      (handle_rotate_key toy tools "k.pem" "n.pem" false turning).1
handle_rotate_key-Rotated_example =
    handle_rotate_key-Rotated toy tools no_dot "k.pem" "n.pem" false turning
      (handle_rotate_key toy tools "k.pem" "n.pem" false turning).1 turned

-- The key on the server is changed before the new one is saved: where that fails, the key is lost.
abbrev full_disk : Machine
full_disk = record turning { faults = none ∷ some "disk full" ∷ [] }

lost :
    (handle_rotate_key toy tools "k.pem" "n.pem" false full_disk).0 ≡ err (AcmeError.io "disk full")
unfolding handle_rotate_key acme_url manager_for generate execute load_from_file read_to_string
    from_pem save_to_file Machine.read Machine.write Machine.fs_call Client.new Client.managers
    AccountManager.register KeyRollover.inner_object KeyRollover.new_jwk split_dot
    AccountManager.jwk Directory.get Directory.cached_or_fetch Directory.fetch Net.send Net.exchange
    Net.header Request.signed_post Request.post_with Nonce.get_nonce Nonce.pop_or_fetch
    Nonce.fetch_nonce Nonce.cache_from Nonce.cache_if_some Nonce.cache_nonce Jws.sign
    Jws.header_json Jwk.new_ed_25519 Jwk.to_value Dict.get Dict.insert Dict.remove ◌>>=◌
lost = refl
