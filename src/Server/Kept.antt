-- ===== src/Server/Kept.antt =====
-- What becomes of a task of src/server/ in the rest of a run: it is never lost, and a status that says
-- how it ended stays.
use acmex.Base.{
  String, ◌≡◌, refl, sym, ap, subst, ◌∙◌, ◌⊎◌, inl, inr, ◌==◌, eq_iff, Bool, true, false, not, ◌||◌,
  Bool-cases, none, some, List, if◌then◌else◌, ℕ,
}
use acmex.Base.Dict.{Dict, get}
use acmex.Error.{AcmeError}
use acmex.Act.{Answer, Outcome, ok, err, panic}
use acmex.Platform.{Platform}
use acmex.Orchestrator.Provisioner.{Config}
use acmex.Server.State.{
  AppState, ApiResponse, TaskInfo, OrchestrationStatus, in_progress, completed, failed, provisions,
  renews, finishes, started,
}
use acmex.Server.Order.{create_order, trigger_full_renewal, starting, get_order, found}
use acmex.Server.Certificate.{renew_certificate, renewal_started}
use acmex.Server.Tasks.{
  set_status, settle, Step, Reaches, here, then_step, orders, asks_renewal, triggers, provisioned,
  renewal_begins, renewal_ends, scheduler_ran,
}
use acmex.Server.Jobs.{Changes, insert-Changes, set_status-Changes}
use acmex.Server.Sound.{IsSound, parts, Step-IsSound, Reaches-IsSound}
use mathlib.Core.Option.{some-injective}

-- The task has not come to its end.
abbrev pub InProgress : TaskInfo → Type 0
InProgress info = (tenths : ℕ) × (message : String) × (info.status ≡ in_progress tenths message)

-- What the map holds later for a task: one with its domains, and the same where it had ended.
abbrev pub Later : Dict TaskInfo → String → TaskInfo → Type 0
Later tasks id info =
    (info' : TaskInfo) × (get tasks id ≡ some info')
    × (info'.domains ≡ info.domains)
    × ((info' ≡ info) ⊎ InProgress info)

abbrev Keeps : Dict TaskInfo → Dict TaskInfo → Type 0
Keeps tasks tasks' =
    (id : String) (info : TaskInfo) → get tasks id ≡ some info → Later tasks' id info

same_map : (tasks : Dict TaskInfo) → Keeps tasks tasks
same_map tasks id info e = (info, e, refl, inl refl)

was_so :
    (i' i info : TaskInfo)
    → (i ≡ info) ⊎ InProgress info
    → (i' ≡ i) ⊎ InProgress i
    → (i' ≡ info) ⊎ InProgress info
was_so i' i info (inr open_) k = inr open_
was_so i' i info (inl a) (inl b) = inl (b ∙ a)
was_so i' i info (inl a) (inr open_) = inr (subst InProgress a open_)

further :
    (tasks tasks' : Dict TaskInfo) (id : String) (info : TaskInfo)
    → Later tasks id info
    → Keeps tasks tasks'
    → Later tasks' id info
further tasks tasks' id info (i, e, ds, was) keeps =
    let (i', e', ds', was') = keeps id i e in (i', e', ds' ∙ ds, was_so i' i info was was')

-- A task that was not there, or one that had not ended.
abbrev IsOpen : Dict TaskInfo → String → List String → Type 0
IsOpen tasks id domains =
    (get tasks id ≡ none)
    ⊎ ((old : TaskInfo) × (get tasks id ≡ some old) × (domains ≡ old.domains) × InProgress old)

opened :
    (id : String) (new info : TaskInfo) (tasks tasks' : Dict TaskInfo)
    → get tasks' id ≡ some new
    → IsOpen tasks id new.domains
    → get tasks id ≡ some info
    → Later tasks' id info
opened id new info tasks tasks' c (inl missing) e = let clash = sym missing ∙ e in cc
opened id new info tasks tasks' c (inr (old, there, ds, open_)) e =
    let same = some-injective old info (sym there ∙ e) in
    (new, c, ds ∙ ap TaskInfo.domains same, inr (subst InProgress same open_))

change-Keeps :
    (id : String) (new : TaskInfo) (tasks tasks' : Dict TaskInfo)
    → Changes id new tasks tasks'
    → IsOpen tasks id new.domains
    → Keeps tasks tasks'
change-Keeps id new tasks tasks' c before j info e = elim (Bool-cases (id == j)) [
  | inl same ↦
      subst (λ k. get tasks k ≡ some info → Later tasks' k info) ((eq_iff id j).0 same)
        (opened id new info tasks tasks' (c id ∙ rw ((eq_iff id id).1 refl) refl) before) e
  | inr other ↦ (info, c j ∙ rw other e, refl, inl refl)
]

-- A status that is set on a task that has not ended.
set_status-Keeps :
    (id : String) (status : OrchestrationStatus) (old : TaskInfo) (tasks : Dict TaskInfo)
    → get tasks id ≡ some old
    → InProgress old
    → Keeps tasks (set_status id status tasks)
set_status-Keeps id status old tasks e open_ =
    change-Keeps id _ tasks _ (set_status-Changes id status old tasks e) (inr (old, e, refl, open_))

module _ {Key : Type 0} (p : Platform Key) (parse : String → Answer String)
    (display : AcmeError → String) where
  settle-Keeps :
      (id : String) (domains : List String) (r : Outcome (Unit {0})) (tasks : Dict TaskInfo)
      → get tasks id ≡ some (starting domains)
      → Keeps tasks (settle display id r tasks)
  unfolding settle
  settle-Keeps id domains (ok tt) tasks e =
      set_status-Keeps id completed (starting domains) tasks e (_, _, refl)
  settle-Keeps id domains (err m) tasks e =
      set_status-Keeps id (failed (display m)) (starting domains) tasks e (_, _, refl)
  settle-Keeps id domains (panic m) tasks e = same_map tasks

  both_branches :
      (tasks : Dict TaskInfo) (b : Bool) (x y : ApiResponse × AppState)
      → Keeps tasks x.1.tasks
      → Keeps tasks y.1.tasks
      → Keeps tasks (if b then x else y).1.tasks
  both_branches tasks true x y hx hy = hx
  both_branches tasks false x y hx hy = hy

  Step-Keeps :
      {s t : AppState}
      → IsSound p parse display s
      → Step p parse display s t
      → Keeps s.tasks t.tasks
  unfolding create_order renew_certificate trigger_full_renewal
  Step-Keeps {s} h (orders id domains new) =
      change-Keeps id (starting domains) s.tasks _ (insert-Changes id (starting domains) s.tasks)
        (inl new.no_task)
  Step-Keeps {s} h (asks_renewal id cert_id new) =
      both_branches s.tasks (not s.has_client || not s.has_storage) _ _ (same_map s.tasks)
        (same_map s.tasks)
  Step-Keeps {s} h triggers =
      both_branches s.tasks s.has_scheduler _ _ (same_map s.tasks) (same_map s.tasks)
  Step-Keeps {s} h (provisioned before after id domains w w' r e run) =
      settle-Keeps id domains r s.tasks
        (parts p parse display s h before after (provisions id domains) e).0
  Step-Keeps {s} h (renewal_begins before after id cert_id e) =
      change-Keeps id (renewal_started cert_id) s.tasks _
        (insert-Changes id (renewal_started cert_id) s.tasks)
        (inl (parts p parse display s h before after (renews id cert_id) e).0)
  Step-Keeps {s} h (renewal_ends before after id e) =
      let (cert_id, there) = (parts p parse display s h before after (finishes id) e).0 in
      set_status-Keeps id completed (renewal_started cert_id) s.tasks there (_, _, refl)
  Step-Keeps {s} h (scheduler_ran before after e) = same_map s.tasks

  Reaches-Sound :
      {s t : AppState}
      → IsSound p parse display s
      → Reaches p parse display s t
      → IsSound p parse display t
  Reaches-Sound h here = h
  Reaches-Sound h (then_step r step) = Step-IsSound p parse display (Reaches-Sound h r) step

  Reaches-Keeps :
      {s t : AppState}
      → IsSound p parse display s
      → Reaches p parse display s t
      → Keeps s.tasks t.tasks
  Reaches-Keeps {s} h here id info e = same_map s.tasks id info e
  Reaches-Keeps {s} h (then_step {t} {u} r step) id info e =
      further t.tasks u.tasks id info (Reaches-Keeps h r id info e)
        (Step-Keeps (Reaches-Sound h r) step)

  -- Once a started server has a task, get_order finds it in every state that it comes to afterwards,
  -- with the same domains; and where it had ended, with the same status.
  pub get_order-Reaches :
      (debug : OrchestrationStatus → String) (config : Config) (client storage scheduler : Bool)
      (api_keys : List String) (s t : AppState) (id : String) (info : TaskInfo)
      → Reaches p parse display (started config client storage scheduler api_keys) s
      → Reaches p parse display s t
      → get s.tasks id ≡ some info
      → (info' : TaskInfo) × (get_order debug id t ≡ (found debug id (some info'), t))
        × (info'.domains ≡ info.domains)
        × ((info' ≡ info) ⊎ InProgress info)
  unfolding get_order
  get_order-Reaches debug config client storage scheduler api_keys s t id info before after e =
      let sound = Reaches-IsSound p parse display config client storage scheduler api_keys before in
      let (info', there, ds, was) = Reaches-Keeps sound after id info e in
      (info', ap (λ o. (found debug id o, t)) there, ds, was)
