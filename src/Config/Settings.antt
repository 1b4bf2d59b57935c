-- ===== src/Config/Settings.antt =====
-- src/config.rs: the settings and their defaults. An optional section is left out of a file freely.
use acmex.Base.{ℕ, String, Bool, true, false, Option, none, some, List, []}
use acmex.Base.Dict.{Dict}

pub record ExternalAccountBinding : Type 0 where
  pub key_id : String
  pub hmac_key : String

-- `directory` is not read from a file: it is resolved from the others.
pub record AcmeSettings : Type 0 where
  pub ca : String
  pub ca_environment : String
  pub ca_custom_url : Option String
  pub contact : List String
  pub tos_agreed : Bool
  pub external_account_binding : Option ExternalAccountBinding
  pub directory : String

pub record FileStorageConfig : Type 0 where
  pub path : String

pub record RedisStorageConfig : Type 0 where
  pub url : String
  pub connection_pool_size : ℕ
  pub db : ℕ

pub record EncryptedStorageConfig : Type 0 where
  pub inner_backend : String
  pub encryption_key : String
  pub key_format : String

pub record StorageSettings : Type 0 where
  pub backend : String
  pub file : Option FileStorageConfig
  pub redis : Option RedisStorageConfig
  pub encrypted : Option EncryptedStorageConfig

pub record Http01Config : Type 0 where
  pub listen_addr : String
  pub domain : Option String
  pub challenge_path : String

pub record DnsProviderConfig : Type 0 where
  pub name : String
  pub api_token : Option String
  pub zone_id : Option String
  pub extra : Dict String

pub record Dns01Config : Type 0 where
  pub provider : Option String
  pub api_token : Option String
  pub zone_id : Option String
  pub providers : List DnsProviderConfig
  pub propagation_timeout_secs : ℕ

pub record TlsAlpnConfig : Type 0 where
  pub listen_addr : String
  pub cert_path : Option String
  pub key_path : Option String

pub record ChallengeSettings : Type 0 where
  pub challenge_type : String
  pub http_01 : Option Http01Config
  pub dns_01 : Option Dns01Config
  pub tls_alpn : Option TlsAlpnConfig

pub record RenewalHooks : Type 0 where
  pub before : Option String
  pub after : Option String
  pub on_error : Option String

pub record RenewalSettings : Type 0 where
  pub check_interval : ℕ
  pub renew_before_days : ℕ
  pub max_retries : ℕ
  pub retry_delay_secs : ℕ
  pub concurrency : ℕ
  pub hooks : Option RenewalHooks

pub record MetricsSettings : Type 0 where
  pub enabled : Bool
  pub listen_addr : String
  pub prefix : String

pub record WebhookConfig : Type 0 where
  pub name : Option String
  pub url : String
  pub events : List String
  pub format : String
  pub auth_token : Option String
  pub timeout_secs : ℕ

pub record EmailConfig : Type 0 where
  pub smtp_host : String
  pub smtp_port : ℕ
  pub from : String
  pub to : List String
  pub events : List String
  pub username : Option String
  pub password : Option String

pub record NotificationSettings : Type 0 where
  pub webhooks : List WebhookConfig
  pub email : List EmailConfig

pub record CliSettings : Type 0 where
  pub output_format : String
  pub colors : Bool
  pub log_level : String
  pub log_file : Option String
  pub log_max_size : ℕ
  pub log_backup_count : ℕ

pub record ServerSettings : Type 0 where
  pub listen_addr : String
  pub enable_api : Bool
  pub enable_webhook : Bool

pub record Config : Type 0 where
  pub acme : AcmeSettings
  pub storage : StorageSettings
  pub challenge : ChallengeSettings
  pub renewal : RenewalSettings
  pub metrics : Option MetricsSettings
  pub notifications : Option NotificationSettings
  pub cli : Option CliSettings
  pub server : Option ServerSettings

abbrev pub default_acme : AcmeSettings
default_acme = record {
  ca = "letsencrypt";
  ca_environment = "production";
  ca_custom_url = none;
  contact = [];
  tos_agreed = true;
  external_account_binding = none;
  directory = "";
}

abbrev pub default_storage : StorageSettings
default_storage = record {
  backend = "file";
  file = some (record { path = ".acmex/certs" });
  redis = none;
  encrypted = none;
}

abbrev pub default_challenge : ChallengeSettings
default_challenge = record {
  challenge_type = "dns-01";
  http_01 = none;
  dns_01 = none;
  tls_alpn = none;
}

abbrev pub default_renewal : RenewalSettings
default_renewal = record {
  check_interval = 3600;
  renew_before_days = 30;
  max_retries = 3;
  retry_delay_secs = 300;
  concurrency = 5;
  hooks = none;
}

abbrev pub default_metrics : MetricsSettings
default_metrics = record { enabled = false; listen_addr = "127.0.0.1:9090"; prefix = "acmex" }

abbrev pub default_cli : CliSettings
default_cli = record {
  output_format = "text";
  colors = true;
  log_level = "info";
  log_file = none;
  log_max_size = 100;
  log_backup_count = 10;
}

abbrev pub default_server : ServerSettings
default_server = record { listen_addr = "127.0.0.1:8080"; enable_api = true; enable_webhook = true }

-- `Config::new`, the derived default
abbrev pub default_config : Config
default_config = record {
  acme = default_acme;
  storage = default_storage;
  challenge = default_challenge;
  renewal = default_renewal;
  metrics = none;
  notifications = none;
  cli = none;
  server = none;
}
