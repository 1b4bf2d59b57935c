-- ===== src/Config/Load.antt =====
-- src/config.rs: resolving the directory, loading, overriding from the environment and validating.
use acmex.Base.{
  ℕ, String, ◌<>◌, ◌==◌, Bool, Option, none, some, first, if◌then◌else◌, ◌||◌, unwrap_or, ◌&&◌,
  false,
}
use acmex.Error.{AcmeError}
use acmex.Act.{
  Act, Answer, Outcome, and_then, outcome_of, ok, err, gets, modify, lift, or_raise, ◌>>=◌, ◌>>◌,
}
use acmex.Config.Ca.{
  CertificateAuthority, Environment, CaConfig, lets_encrypt, google, zero_ssl, custom, production,
  staging, new, with_custom_url, with_contact_email, directory_url,
}
use acmex.Config.Settings.{
  Config, AcmeSettings, StorageSettings, ChallengeSettings, RenewalSettings, FileStorageConfig,
  RedisStorageConfig,
}

-- The standard library's `to_lowercase` and numbers, the process's environment, the features of the
-- build, and the `toml` crate.
pub record Surroundings : Type 0 where
  pub to_lowercase : String → String
  pub parse_number : ℕ → String → Option ℕ
  pub env_var : String → Option String
  pub google_ca : Bool
  pub zerossl_ca : Bool
  pub toml : String → Answer Config
  pub read_file : String → Answer String
  -- `Regex::replace_all` with `\$\{([^}]+)}`: the replacement of each captured name
  pub replace_names : (String → String) → String → String

-- `if let Ok(v) = env::var(k) { self.. = v }`
abbrev pub override : {A : Type 0} → Option String → A → (String → A) → A
override none old new_value = old
override (some v) old new_value = new_value v

abbrev pub redis_url : Option RedisStorageConfig → String → Option RedisStorageConfig
redis_url none url = some (record { url = url; connection_pool_size = 10; db = 0 })
redis_url (some r) url = some (record r { url = url })

module _ (s : Surroundings) where
  unfoldable pub ca_type : String → Outcome CertificateAuthority
  ca_type ca =
      let lower = s.to_lowercase ca in
      if lower == "letsencrypt"
      then ok lets_encrypt
      else if lower == "google"
      then (if s.google_ca
          then ok google
          else err (AcmeError.configuration "Feature 'google-ca' is not enabled"))
      else if lower == "zerossl"
      then (if s.zerossl_ca
          then ok zero_ssl
          else err (AcmeError.configuration "Feature 'zerossl-ca' is not enabled"))
      else if lower == "custom"
      then ok custom
      else err (AcmeError.configuration ("Unsupported CA type: " <> ca))

  unfoldable pub environment : String → Outcome Environment
  environment ca_environment =
      let lower = s.to_lowercase ca_environment in
      if (lower == "production") || (lower == "prod")
      then ok production
      else if (lower == "staging") || (lower == "test") || (lower == "dev")
      then ok staging
      else err (AcmeError.configuration ("Invalid environment: " <> ca_environment))

  abbrev pub with_url : Option String → CaConfig → CaConfig
  with_url none config = config
  with_url (some url) config = with_custom_url config url

  abbrev pub with_email : Option String → CaConfig → CaConfig
  with_email none config = config
  with_email (some contact) config = with_contact_email config contact

  unfoldable pub to_ca_config : AcmeSettings → Outcome CaConfig
  unfolding ca_type environment new with_custom_url with_contact_email
  to_ca_config acme = and_then (ca_type acme.ca) (λ ca.
      and_then (environment acme.ca_environment)
        (λ env. ok (with_email (first acme.contact) (with_url acme.ca_custom_url (new ca env)))))

  -- the directory of parsed settings, resolved
  unfoldable pub resolve : Config → Outcome Config
  unfolding to_ca_config
  resolve config = and_then (to_ca_config config.acme) (λ ca_config.
      and_then (outcome_of (directory_url ca_config) AcmeError.configuration)
        (λ url. ok (record config { acme = record config.acme { directory = url } })))

  unfoldable pub from_str : String → Outcome Config
  unfolding resolve
  from_str text =
      and_then
        (outcome_of (s.toml text) (λ e. AcmeError.configuration ("Failed to parse TOML: " <> e)))
        resolve

  unfoldable pub from_file : String → Outcome Config
  unfolding from_str
  from_file path =
      and_then
        (outcome_of (s.read_file path)
          (λ e. AcmeError.configuration ("Failed to read config file: " <> e)))
        from_str

  -- `&& let Ok(n) = v.parse()`, for a type of so many bits
  abbrev pub override_number : ℕ → Option String → ℕ → ℕ
  override_number bits o old = override o old (λ v. unwrap_or (s.parse_number bits v) old)

  abbrev acme_overrides : AcmeSettings → AcmeSettings
  acme_overrides acme = record acme {
    ca = override (s.env_var "ACMEX_ACME_CA") acme.ca (λ v. v);
    ca_environment = override (s.env_var "ACMEX_ACME_ENV") acme.ca_environment (λ v. v);
    ca_custom_url = override (s.env_var "ACMEX_ACME_CUSTOM_URL") acme.ca_custom_url some;
  }

  abbrev storage_overrides : StorageSettings → StorageSettings
  storage_overrides storage = record storage {
    backend = override (s.env_var "ACMEX_STORAGE_BACKEND") storage.backend (λ v. v);
    redis = override (s.env_var "ACMEX_STORAGE_REDIS_URL") storage.redis (redis_url storage.redis);
  }

  abbrev challenge_overrides : ChallengeSettings → ChallengeSettings
  challenge_overrides challenge = record challenge {
    challenge_type = override (s.env_var "ACMEX_CHALLENGE_TYPE") challenge.challenge_type (λ v. v);
  }

  abbrev renewal_overrides : RenewalSettings → RenewalSettings
  renewal_overrides renewal = record renewal {
    check_interval =
        override_number 64 (s.env_var "ACMEX_RENEWAL_CHECK_INTERVAL") renewal.check_interval;
    renew_before_days =
        override_number 32 (s.env_var "ACMEX_RENEWAL_BEFORE_DAYS") renewal.renew_before_days;
  }

  -- The assignments are of different fields.
  unfoldable pub overrides : Config → Config
  overrides config = record config {
    acme = acme_overrides config.acme;
    storage = storage_overrides config.storage;
    challenge = challenge_overrides config.challenge;
    renewal = renewal_overrides config.renewal;
  }

  -- On an error the settings stay overridden.
  unfoldable pub apply_env_overrides : Act Config (Unit {0})
  unfolding overrides to_ca_config
  apply_env_overrides = do
    modify overrides
    acme ← gets (λ c. c.acme)
    ca_config ← lift (to_ca_config acme)
    url ←
        or_raise (directory_url ca_config)
          (λ e. AcmeError.configuration ("Failed to re-resolve directory after overrides: " <> e))
    modify (λ c. record c { acme = record c.acme { directory = url } })

  unfoldable pub expand_env_var : String → String
  expand_env_var value =
      s.replace_names (λ name. unwrap_or (s.env_var name) ("${" <> name <> "}")) value

abbrev path_empty : Option FileStorageConfig → Bool
path_empty none = false
path_empty (some f) = f.path == ""

abbrev url_empty : Option RedisStorageConfig → Bool
url_empty none = false
url_empty (some r) = r.url == ""

unfoldable pub validate : Config → Outcome (Unit {0})
validate config =
    if config.acme.directory == ""
    then err (AcmeError.configuration "ACME directory URL could not be resolved")
    else if (config.storage.backend == "file") && path_empty config.storage.file
    then err (AcmeError.configuration "File storage path cannot be empty")
    else if (config.storage.backend == "redis") && url_empty config.storage.redis
    then err (AcmeError.configuration "Redis URL cannot be empty")
    else ok tt
