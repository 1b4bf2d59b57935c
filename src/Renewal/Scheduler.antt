-- ===== src/Renewal/Scheduler.antt =====
-- src/renewal/mod.rs: a round of `SimpleRenewalScheduler` over its sets of domains, with the hooks
-- that it calls. The loop around it sleeps and makes another round.
use acmex.Base.{ℕ, String, Bool, List, [], ◌∷◌, if◌then◌else◌}
use acmex.Error.{AcmeError}
use acmex.Act.{Act, Answer, pure, modify, catch, ◌>>=◌, ◌>>◌}
use acmex.Net.{World, Io}
use acmex.Platform.{Platform}
use acmex.Challenge.Solvers.{empty_registry, new_server_solver, http, register}
use acmex.Client.Config.{Client}
use acmex.Client.Issue.{CertificateBundle, issue_certificate}
use acmex.Certificate.X509.{Parsers}
use acmex.Storage.Backend.{Backend}
use acmex.Storage.Certificates.{Codec, save}
use acmex.Renewal.Window.{needs_renewal}

-- the methods of `RenewalHook`, as they are called
pub data HookCall : Type 0 where
  before_renewal : List String → HookCall
  after_renewal : List String → CertificateBundle → HookCall
  on_error : List String → AcmeError → HookCall

-- What the client and the store work on, and the calls of the hook, the last first.
pub record Renewals (S : Type 0) : Type 0 where
  pub world : World
  pub store : S
  pub calls : List HookCall

-- The scheduler's fields; the clock is read for each set of domains.
pub record Settings : Type 0 where
  pub has_hook : Bool
  pub renew_before : ℕ
  pub clock : List String → Answer ℕ

module _ {S : Type 0} where
  abbrev pub on_world : {A : Type 0} → Io A → Act (Renewals S) A
  on_world m s = let (r, w) = m s.world in (r, record s { world = w })

  abbrev pub on_store : {A : Type 0} → Act S A → Act (Renewals S) A
  on_store m s = let (r, t) = m s.store in (r, record s { store = t })

  -- `if let Some(hook) = &self.hook { .. }`
  abbrev pub call : Bool → HookCall → Act (Renewals S) (Unit {0})
  call has_hook c = if has_hook then modify (λ s. record s { calls = c ∷ s.calls }) else pure tt

module _ {Key S : Type 0} (p : Platform Key) (parsers : Parsers) (codec : Codec)
    (backend : Backend S) (client : Client Key) (settings : Settings) where
  unfoldable pub renew : List String → Act (Renewals S) CertificateBundle
  renew domains = do
    on_world (
        modify (λ w. record w {
          solvers = register empty_registry (http (new_server_solver "127.0.0.1:80"));
        }))
    bundle ← on_world (issue_certificate p client domains)
    on_store (save codec backend bundle)
    pure bundle

  -- one set of domains that is due
  unfoldable pub renew_due : List String → Act (Renewals S) (Unit {0})
  unfolding renew
  renew_due domains = do
    call settings.has_hook (before_renewal domains)
    catch (renew domains) (λ bundle. call settings.has_hook (after_renewal domains bundle))
        (λ e. call settings.has_hook (on_error domains e))

  unfoldable pub visit : List String → Act (Renewals S) (Unit {0})
  unfolding renew_due needs_renewal
  visit domains =
      catch
        (on_store (
          needs_renewal parsers codec backend (settings.clock domains) settings.renew_before
            domains))
        (λ due. if due then renew_due domains else pure tt) (λ e. pure tt)

  unfoldable pub round : List (List String) → Act (Renewals S) (Unit {0})
  unfolding visit
  round [] = pure tt
  round (domains ∷ rest) = visit domains >> round rest
