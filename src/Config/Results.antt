-- ===== src/Config/Results.antt =====
-- What holds of settings that src/config.rs has loaded or overridden.
use acmex.Base.{String, ◌≡◌, refl, ap, ◌∙◌, subst, Option, none, some, first, eq_iff, arith}
use acmex.Error.{AcmeError}
use acmex.Act.{Answer, Outcome, and_then, outcome_of, ok, err, panic, done, fault, ◌>>=◌}
use acmex.Config.Ca.{
  CertificateAuthority, Environment, lets_encrypt, google, zero_ssl, production, staging, CaConfig,
  custom, new, with_custom_url, with_contact_email, directory_url, url_of,
}
use acmex.Config.Settings.{Config, AcmeSettings}
use acmex.Config.Load.{
  Surroundings, ca_type, environment, with_url, with_email, to_ca_config, resolve, from_str,
  overrides, apply_env_overrides,
}
use acmex.Config.Overrides.{located, finished, with_directory}

-- The stored directory is the one of the authority that the settings choose.
pub record Resolved (s : Surroundings) (c : Config) : Type 0 where
  pub ca_config : CaConfig
  pub chosen : to_ca_config s c.acme ≡ ok ca_config
  pub resolved : directory_url ca_config ≡ done c.acme.directory

-- `Q` of a result that is there.
abbrev Post : {A : Type 0} → (A → Type 0) → Outcome A → Type 0
Post Q (ok a) = Q a
Post Q _ = Unit

posted : {A : Type 0} (Q : A → Type 0) (r : Outcome A) (a : A) → Post Q r → r ≡ ok a → Q a
posted Q r a h e = subst (Post Q) e h

module _ (s : Surroundings) where
  placed-Post :
      (ca_config : CaConfig) (c : Config) (a : Answer String)
      → to_ca_config s c.acme ≡ ok ca_config
      → directory_url ca_config ≡ a
      → Post
          (Resolved s)
          (and_then (outcome_of a AcmeError.configuration) (λ url. ok (with_directory c url)))
  unfolding to_ca_config
  placed-Post ca_config c (done url) h e = record {
    ca_config = ca_config;
    chosen = h;
    resolved = e;
  }
  placed-Post ca_config c (fault m) h e = tt

  chosen-Post :
      (c : Config) (o : Outcome CaConfig)
      → to_ca_config s c.acme ≡ o
      → Post (Resolved s) (
          and_then o (λ ca_config.
            and_then
              (outcome_of (directory_url ca_config) AcmeError.configuration)
              (λ url. ok (with_directory c url))))
  chosen-Post c (ok ca_config) h = placed-Post ca_config c (directory_url ca_config) h refl
  chosen-Post c (err e) h = tt
  chosen-Post c (panic m) h = tt

  parsed-Post : (r : Outcome Config) → Post (Resolved s) (and_then r (resolve s))
  unfolding resolve
  parsed-Post (ok c) = chosen-Post c (to_ca_config s c.acme) refl
  parsed-Post (err e) = tt
  parsed-Post (panic m) = tt

  -- Settings that are loaded from a text have their directory resolved.
  from_str-Resolved : (text : String) (c : Config) → from_str s text ≡ ok c → Resolved s c
  unfolding from_str
  from_str-Resolved text c h = posted (Resolved s) _ c (parsed-Post _) h

  located-Resolved :
      (ca_config : CaConfig) (c c' : Config) (a : Answer String)
      → to_ca_config s c.acme ≡ ok ca_config
      → directory_url ca_config ≡ a
      → located a c ≡ (ok tt, c')
      → Resolved s c'
  unfolding to_ca_config ◌>>=◌
  located-Resolved ca_config c c' (done url) h e l =
      subst (Resolved s) (ap (λ x. x.1) l)
        (record { ca_config = ca_config; chosen = h; resolved = e })
  located-Resolved ca_config c c' (fault m) h e l = cc

  finished-Resolved :
      (c c' : Config) (o : Outcome CaConfig)
      → to_ca_config s c.acme ≡ o
      → finished o c ≡ (ok tt, c')
      → Resolved s c'
  unfolding ◌>>=◌
  finished-Resolved c c' (ok ca_config) h l =
      located-Resolved ca_config c c' (directory_url ca_config) h refl l
  finished-Resolved c c' (err e) h l = cc
  finished-Resolved c c' (panic m) h l = cc

  -- Settings that are overridden without an error have their directory resolved, whatever it was
  -- before.
  pub apply_env_overrides-Resolved :
      (c c' : Config) → apply_env_overrides s c ≡ (ok tt, c') → Resolved s c'
  unfolding apply_env_overrides to_ca_config directory_url ◌>>=◌
  apply_env_overrides-Resolved c c' h =
      finished-Resolved (overrides s c) c' (to_ca_config s (overrides s c).acme) refl h

  url_of-empty :
      (ca : CertificateAuthority) (env : Environment) (url : Option String)
      → url_of ca env url ≡ done ""
      → (ca ≡ custom) × (url ≡ some "")
  url_of-empty lets_encrypt production url h = cc
  url_of-empty lets_encrypt staging url h = cc
  url_of-empty google env url h = cc
  url_of-empty zero_ssl env url h = cc
  url_of-empty custom env none h = cc
  url_of-empty custom env (some u) h = (refl, cc)

  ca_type-custom : (ca : String) → ca_type s ca ≡ ok custom → s.to_lowercase ca ≡ "custom"
  unfolding ca_type
  ca_type-custom ca h = ground (arith, eq_iff (s.to_lowercase ca) "custom")

  made :
      (rca : Outcome CertificateAuthority) (renv : Outcome Environment)
      (contact url : Option String) (ca_config : CaConfig)
      → and_then rca
          (λ ca. and_then renv (λ env. ok (with_email s contact (with_url s url (new ca env)))))
        ≡ ok ca_config
      → (rca ≡ ok ca_config.ca) × (url ≡ ca_config.custom_url)
  unfolding new with_custom_url with_contact_email
  made (ok ca) (ok env) none none ca_config h = (cc, cc)
  made (ok ca) (ok env) none (some u) ca_config h = (cc, cc)
  made (ok ca) (ok env) (some e) none ca_config h = (cc, cc)
  made (ok ca) (ok env) (some e) (some u) ca_config h = (cc, cc)
  made (ok ca) (err e) contact url ca_config h = cc
  made (ok ca) (panic m) contact url ca_config h = cc
  made (err e) renv contact url ca_config h = cc
  made (panic m) renv contact url ca_config h = cc

  chosen_parts :
      (acme : AcmeSettings) (ca_config : CaConfig)
      → to_ca_config s acme ≡ ok ca_config
      → (ca_type s acme.ca ≡ ok ca_config.ca) × (acme.ca_custom_url ≡ ca_config.custom_url)
  unfolding to_ca_config
  chosen_parts acme ca_config h =
      made (ca_type s acme.ca) (environment s acme.ca_environment) (first acme.contact)
        acme.ca_custom_url ca_config h

  -- Where the directory of resolved settings is empty, the authority is a custom one whose URL is
  -- empty.
  Resolved-empty :
      (c : Config)
      → Resolved s c
      → c.acme.directory ≡ ""
      → (s.to_lowercase c.acme.ca ≡ "custom") × (c.acme.ca_custom_url ≡ some "")
  unfolding directory_url to_ca_config
  Resolved-empty c r h =
      let (typed, given) = chosen_parts c.acme r.ca_config r.chosen in
      let (is_custom, empty) =
        url_of-empty r.ca_config.ca r.ca_config.environment r.ca_config.custom_url
          (r.resolved ∙ ap done h) in
      (ca_type-custom c.acme.ca (typed ∙ ap ok is_custom), given ∙ empty)
