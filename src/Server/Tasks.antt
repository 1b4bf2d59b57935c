-- ===== src/Server/Tasks.antt =====
-- The background tasks of src/server/order.rs and src/server/certificate.rs: what the requests and the
-- tasks do to the shared map, in any order.
use acmex.Base.{String, ◌≡◌, Option, none, some, List, [], ◌∷◌, ◌++◌, count}
use acmex.Base.Dict.{Dict, get, insert}
use acmex.Error.{AcmeError}
use acmex.Act.{Answer, Outcome, ok, err, panic}
use acmex.Net.{World}
use acmex.Platform.{Platform}
use acmex.Orchestrator.Provisioner.{execute}
use acmex.Server.State.{
  AppState, TaskInfo, Job, OrchestrationStatus, completed, failed, provisions, renews, finishes,
  runs_scheduler,
}
use acmex.Server.Order.{create_order, trigger_full_renewal}
use acmex.Server.Certificate.{renew_certificate, renewal_started}

-- the ids of the tasks that jobs are for
abbrev pub ids : List Job → List String
ids [] = []
ids (provisions id domains ∷ jobs) = id ∷ ids jobs
ids (renews id cert_id ∷ jobs) = id ∷ ids jobs
ids (finishes id ∷ jobs) = id ∷ ids jobs
ids (runs_scheduler ∷ jobs) = ids jobs

abbrev pub updated : Option TaskInfo → String → OrchestrationStatus → Dict TaskInfo → Dict TaskInfo
updated none id status tasks = tasks
updated (some info) id status tasks = insert tasks id (record info { status = status })

-- `if let Some(task) = tasks.get_mut(&id) { task.status = status }`
unfoldable pub set_status : String → OrchestrationStatus → Dict TaskInfo → Dict TaskInfo
set_status id status tasks = updated (get tasks id) id status tasks

-- What the background task of an order does with the outcome; a panic ends the task alone.
unfoldable pub settle :
    (AcmeError → String) → String → Outcome (Unit {0}) → Dict TaskInfo → Dict TaskInfo
unfolding set_status
settle display id (ok a) tasks = set_status id completed tasks
settle display id (err e) tasks = set_status id (failed (display e)) tasks
settle display id (panic m) tasks = tasks

-- A new id: no task has it, and no job will make one.
pub record IsNew (id : String) (s : AppState) : Type 0 where
  pub no_task : get s.tasks id ≡ none
  pub no_job : count id (ids s.background) ≡ 0

-- Each order's client is its own, so that it meets the network in some world of its own. Ids are 16
-- characters that are drawn at random; they are taken to be new.
module _ {Key : Type 0} (p : Platform Key) (parse : String → Answer String)
    (display : AcmeError → String) where
  pub data Step (s : AppState) : AppState → Type 0 where
    orders :
        (id : String) (domains : List String) → IsNew id s → Step s (create_order id domains s).1
    asks_renewal : (id cert_id : String) → IsNew id s → Step s (renew_certificate id cert_id s).1
    triggers : Step s (trigger_full_renewal s).1
    -- a provisioning has run to its end
    provisioned :
        (before after : List Job) (id : String) (domains : List String) (w w' : World)
        (r : Outcome (Unit {0}))
        → s.background ≡ before ++ provisions id domains ∷ after
        → execute p parse s.config domains w ≡ (r, w')
        → Step s (record s { background = before ++ after; tasks = settle display id r s.tasks })
    -- a renewal writes its first status, and sleeps
    renewal_begins :
        (before after : List Job) (id cert_id : String)
        → s.background ≡ before ++ renews id cert_id ∷ after
        → Step s (record s {
          background = before ++ finishes id ∷ after;
          tasks = insert s.tasks id (renewal_started cert_id);
        })
    renewal_ends :
        (before after : List Job) (id : String)
        → s.background ≡ before ++ finishes id ∷ after
        → Step s
            (record s { background = before ++ after; tasks = set_status id completed s.tasks })
    -- the scheduler's run does not touch the map
    scheduler_ran :
        (before after : List Job)
        → s.background ≡ before ++ runs_scheduler ∷ after
        → Step s (record s { background = before ++ after })

  pub data Reaches (s : AppState) : AppState → Type 0 where
    here : Reaches s s
    then_step : {t u : AppState} → Reaches s t → Step t u → Reaches s u
