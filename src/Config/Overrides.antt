-- ===== src/Config/Overrides.antt =====
-- Overriding the settings of src/config.rs from the environment twice.
use acmex.Base.{ℕ, String, ◌<>◌, ◌≡◌, refl, sym, ap, ◌∙◌, Option, none, some, unwrap_or}
use acmex.Error.{AcmeError}
use acmex.Act.{Answer, Outcome, ok, err, panic, done, fault, ◌>>=◌, lift, modify, or_raise}
use acmex.Config.Ca.{CaConfig, directory_url}
use acmex.Config.Settings.{Config, RedisStorageConfig}
use acmex.Config.Load.{
  Surroundings, to_ca_config, overrides, apply_env_overrides, override, override_number, redis_url,
}

override_twice :
    {A : Type 0} (o : Option String) (old : A) (f : String → A)
    → override o (override o old f) f ≡ override o old f
override_twice none old f = refl
override_twice (some v) old f = refl

redis_twice :
    (o : Option String) (r : Option RedisStorageConfig)
    → let r' = override o r (redis_url r) in override o r' (redis_url r') ≡ r'
redis_twice none r = refl
redis_twice (some v) none = refl
redis_twice (some v) (some r) = refl

unwrap_twice : {A : Type 0} (o : Option A) (a : A) → unwrap_or o (unwrap_or o a) ≡ unwrap_or o a
unwrap_twice none a = refl
unwrap_twice (some b) a = refl

-- what is left to do when the overrides are made, on what the settings choose
abbrev pub located : Answer String → Config → Outcome (Unit {0}) × Config
located a =
    or_raise a
      (λ e. AcmeError.configuration ("Failed to re-resolve directory after overrides: " <> e))
    >>= λ url. modify (λ c. record c { acme = record c.acme { directory = url } })

abbrev pub finished : Outcome CaConfig → Config → Outcome (Unit {0}) × Config
finished o = lift o >>= λ ca. located (directory_url ca)

abbrev pub with_directory : Config → String → Config
with_directory c u = record c { acme = record c.acme { directory = u } }

located_twice : (a : Answer String) (c : Config) → located a (located a c).1 ≡ located a c
unfolding ◌>>=◌
located_twice (done url) c = refl
located_twice (fault m) c = refl

finished_twice : (o : Outcome CaConfig) (c : Config) → finished o (finished o c).1 ≡ finished o c
unfolding ◌>>=◌
finished_twice (ok ca) c = located_twice (directory_url ca) c
finished_twice (err e) c = refl
finished_twice (panic m) c = refl

located_state :
    (a : Answer String) (c : Config) → (u : String) × ((located a c).1 ≡ with_directory c u)
unfolding ◌>>=◌
located_state (done url) c = (url, refl)
located_state (fault m) c = (c.acme.directory, refl)

-- Nothing but the directory is changed then.
finished_state :
    (o : Outcome CaConfig) (c : Config) → (u : String) × ((finished o c).1 ≡ with_directory c u)
unfolding ◌>>=◌
finished_state (ok ca) c = located_state (directory_url ca) c
finished_state (err e) c = (c.acme.directory, refl)
finished_state (panic m) c = (c.acme.directory, refl)

module _ (s : Surroundings) where
  number_twice :
      (bits : ℕ) (o : Option String) (n : ℕ)
      → override_number s bits o (override_number s bits o n) ≡ override_number s bits o n
  number_twice bits none n = refl
  number_twice bits (some v) n = unwrap_twice (s.parse_number bits v) n

  overrides_twice : (c : Config) → overrides s (overrides s c) ≡ overrides s c
  unfolding overrides
  overrides_twice c = simp (override_twice, redis_twice, number_twice)

  same_overrides :
      (c : Config) (u : String) (x : Config)
      → x ≡ with_directory (overrides s c) u
      → overrides s x ≡ x
  unfolding overrides
  same_overrides c u x e =
      ap (overrides s) e ∙ ap (λ y. with_directory y u) (overrides_twice c) ∙ sym e

  -- Overriding settings a second time, in the same environment, changes nothing more and has the same
  -- result.
  pub apply_env_overrides_twice :
      (c : Config) → let (r, c') = apply_env_overrides s c in apply_env_overrides s c' ≡ (r, c')
  unfolding apply_env_overrides to_ca_config directory_url ◌>>=◌
  apply_env_overrides_twice c =
      let (u, e) = finished_state (to_ca_config s (overrides s c).acme) (overrides s c) in
      ap (λ x. finished (to_ca_config s x.acme) x) (same_overrides c u _ e)
      ∙ ap (λ r. finished r (finished (to_ca_config s (overrides s c).acme) (overrides s c)).1)
          (ap (λ x. to_ca_config s x.acme) e)
      ∙ finished_twice (to_ca_config s (overrides s c).acme) (overrides s c)
