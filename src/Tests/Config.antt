-- ===== src/Tests/Config.antt =====
-- Settings loaded and overridden in surroundings with one variable set.
use acmex.Base.{String, ◌==◌, ◌≡◌, refl, false, none, some, if◌then◌else◌}
use acmex.Act.{◌>>=◌, ok, done, fault}
use acmex.Config.Ca.{custom, production, directory_url}
use acmex.Config.Settings.{Config, default_config, default_acme}
use acmex.Config.Load.{Surroundings, from_str, apply_env_overrides, to_ca_config}
use acmex.Config.Overrides.{apply_env_overrides_twice}
use acmex.Config.Results.{Resolved, apply_env_overrides-Resolved}

abbrev pub surroundings : Surroundings
surroundings = record {
  to_lowercase = λ t. t;
  parse_number = λ bits t. none;
  env_var = λ name. if name == "ACMEX_ACME_ENV" then some "staging" else none;
  google_ca = false;
  zerossl_ca = false;
  toml = λ t. done default_config;
  read_file = λ path. fault "no such file";
  replace_names = λ f t. t;
}

abbrev at : Config → String → Config
at c url = record c { acme = record c.acme { directory = url } }

abbrev production_url : String
production_url = "https://acme-v02.api.letsencrypt.org/directory"

abbrev staging_url : String
staging_url = "https://acme-staging-v02.api.letsencrypt.org/directory"

loads : from_str surroundings "" ≡ ok (at default_config production_url)
unfolding from_str to_ca_config directory_url
loads = refl

abbrev staged : Config
staged = record default_config {
  acme = record default_acme { ca_environment = "staging"; directory = staging_url };
}

changes : apply_env_overrides surroundings default_config ≡ (ok tt, staged)
unfolding apply_env_overrides to_ca_config directory_url ◌>>=◌
changes = refl

apply_env_overrides-Resolved_example : Resolved surroundings staged
apply_env_overrides-Resolved_example =
    apply_env_overrides-Resolved surroundings default_config staged changes

apply_env_overrides_twice_example :
    let (r, c) = apply_env_overrides surroundings default_config in
    apply_env_overrides surroundings c ≡ (r, c)
apply_env_overrides_twice_example = apply_env_overrides_twice surroundings default_config

-- a custom authority whose URL is empty
abbrev nowhere : Config
nowhere = record default_config {
  acme = record default_acme { ca = "custom"; ca_custom_url = some "" };
}

nowhere-Resolved : Resolved surroundings nowhere
unfolding to_ca_config directory_url
nowhere-Resolved = record {
  ca_config = record {
    ca = custom;
    environment = production;
    custom_url = some "";
    contact_email = none;
  };
  chosen = refl;
  resolved = refl;
}
