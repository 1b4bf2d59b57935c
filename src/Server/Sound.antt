-- ===== src/Server/Sound.antt =====
-- What holds of the tasks of src/server/ in every run: what their statuses were earned by.
use acmex.Base.{
  ◌+◌, ◌≤◌, String, ◌≡◌, refl, sym, ap, subst, ◌∙◌, ◌⊎◌, inl, inr, ◌==◌, eq_iff, Bool, true, false,
  not, ◌||◌, Bool-cases, some, List, [], ◌∷◌, ◌++◌, All, count, if◌then◌else◌, arith,
}
use acmex.Base.Dict.{Dict, get, insert}
use acmex.Error.{AcmeError}
use acmex.Act.{Answer, Outcome, ok, err, panic}
use acmex.Net.{World}
use acmex.Platform.{Platform}
use acmex.Orchestrator.Provisioner.{Config, execute, AllFail, execute-AllFail}
use acmex.Server.State.{
  AppState, ApiResponse, TaskInfo, Job, OrchestrationStatus, pending, in_progress, completed,
  failed, provisions, renews, finishes, runs_scheduler, started,
}
use acmex.Server.Order.{create_order, trigger_full_renewal, starting}
use acmex.Server.Certificate.{renew_certificate, renewal_started}
use acmex.Server.Tasks.{
  ids, settle, Step, Reaches, here, then_step, orders, asks_renewal, triggers, provisioned,
  renewal_begins, renewal_ends, scheduler_ran,
}
use acmex.Server.Jobs.{
  Open, Changes, ids-middle, count_self, insert-Changes, set_status-Changes, others-Open,
  All-middle, All-into, count_new,
}
use mathlib.Core.Option.{some-injective}

module _ {Key : Type 0} (p : Platform Key) (parse : String → Answer String)
    (display : AcmeError → String) where
  -- A task of an order is completed only after its provisioning has succeeded, and failed only after
  -- four attempts, with the last one's error; a task without domains may be a renewal's.
  abbrev pub Earned : Config → OrchestrationStatus → List String → Type 0
  Earned config pending domains = ⊥
  Earned config (in_progress tenths message) domains = Unit
  Earned config completed domains =
      (domains ≡ [])
      ⊎ ((w : World) × (w' : World) × (execute p parse config domains w ≡ (ok tt, w')))
  Earned config (failed message) domains =
      (e : AcmeError) × (w : World) × (w' : World) × (AllFail p parse config domains 4 0 w e w')
      × (message ≡ display e)

  abbrev EarnedTask : Config → TaskInfo → Type 0
  EarnedTask config info = Earned config (TaskInfo.status info) (TaskInfo.domains info)

  pub record IsSound (s : AppState) : Type 0 where
    pub apart : (i : String) → count i (ids s.background) ≤ 1
    pub to_come : All (Open s.tasks) s.background
    pub earned :
        (id : String) (info : TaskInfo) → get s.tasks id ≡ some info → EarnedTask s.config info

  still_earned :
      (config : Config) (id : String) (info : TaskInfo) (tasks tasks' : Dict TaskInfo)
      → Changes id info tasks tasks'
      → EarnedTask config info
      → ((j : String) (i : TaskInfo) → get tasks j ≡ some i → EarnedTask config i)
      → (j : String) (i : TaskInfo) → get tasks' j ≡ some i
      → EarnedTask config i
  still_earned config id info tasks tasks' c new old j i e = elim (Bool-cases (id == j)) [
    | inl same ↦
        subst (EarnedTask config) (some-injective info i (sym (c j ∙ rw same refl) ∙ e)) new
    | inr other ↦ old j i (sym (c j ∙ rw other refl) ∙ e)
  ]

  -- One job ends, with a change of its task.
  module _ (s : AppState) (h : IsSound s) (before after : List Job) (job : Job)
      (e : s.background ≡ before ++ job ∷ after) where
    counts : (i : String) → count i (ids (job ∷ [])) + count i (ids (before ++ after)) ≤ 1
    counts i = omega (arith, h.apart i, ap (λ b. count i (ids b)) e, ids-middle i before after job)

    pub parts : Open s.tasks job × All (Open s.tasks) (before ++ after)
    parts = All-middle (Open s.tasks) before after job (subst (All (Open s.tasks)) e h.to_come)

    ended :
        (id : String) (info : TaskInfo) (tasks' : Dict TaskInfo)
        → ids (job ∷ []) ≡ id ∷ []
        → Changes id info s.tasks tasks'
        → EarnedTask s.config info
        → IsSound (record s { background = before ++ after; tasks = tasks' })
    ended id info tasks' one c new = record {
      apart = λ i. omega (arith, counts i);
      to_come =
          others-Open id info s.tasks tasks' c (before ++ after)
            (omega (arith, counts id, ap (count id) one, count_self id)) parts.1;
      earned = still_earned s.config id info s.tasks tasks' c new h.earned;
    }

    dropped : IsSound (record s { background = before ++ after })
    dropped = record { apart = λ i. omega (arith, counts i); to_come = parts.1; earned = h.earned }

  settled-IsSound :
      (s : AppState) (before after : List Job) (id : String) (domains : List String) (w w' : World)
      (r : Outcome (Unit {0}))
      → IsSound s
      → s.background ≡ before ++ provisions id domains ∷ after
      → execute p parse s.config domains w ≡ (r, w')
      → IsSound (record s { background = before ++ after; tasks = settle display id r s.tasks })
  unfolding settle
  settled-IsSound s before after id domains w w' (ok tt) h e run =
      let (open_, rest) = parts s h before after (provisions id domains) e in
      ended s h before after (provisions id domains) e id _ _ refl
        (set_status-Changes id completed (starting domains) s.tasks open_) (inr (w, w', run))
  settled-IsSound s before after id domains w w' (err m) h e run =
      let (open_, rest) = parts s h before after (provisions id domains) e in
      ended s h before after (provisions id domains) e id _ _ refl
        (set_status-Changes id (failed (display m)) (starting domains) s.tasks open_)
        (m, w, w', execute-AllFail p parse s.config domains w w' m run, refl)
  settled-IsSound s before after id domains w w' (panic m) h e run =
      dropped s h before after (provisions id domains) e

  either_state :
      (b : Bool) (x y : ApiResponse × AppState)
      → IsSound x.1
      → IsSound y.1
      → IsSound (if b then x else y).1
  either_state true x y hx hy = hx
  either_state false x y hx hy = hy

  -- A renewal begins in the place of its job.
  begun :
      (s : AppState) (before after : List Job) (id cert_id : String)
      → IsSound s
      → s.background ≡ before ++ renews id cert_id ∷ after
      → IsSound (record s {
        background = before ++ finishes id ∷ after;
        tasks = insert s.tasks id (renewal_started cert_id);
      })
  begun s before after id cert_id h e =
      let job = renews id cert_id in
      let c = insert-Changes id (renewal_started cert_id) s.tasks in
      let alone : count id (ids (before ++ after)) ≡ 0 =
        omega (arith, counts s h before after job e id, count_self id) in
      record {
        apart = λ i.
            omega (arith, counts s h before after job e i, ids-middle i before after (finishes id));
        to_come =
            All-into (Open (insert s.tasks id (renewal_started cert_id))) before after (finishes id)
              (cert_id, c id ∙ rw ((eq_iff id id).1 refl) refl)
              (others-Open id (renewal_started cert_id) s.tasks _ c (before ++ after) alone
                (parts s h before after job e).1);
        earned = still_earned s.config id (renewal_started cert_id) s.tasks _ c tt h.earned;
      }

  pub Step-IsSound : {s t : AppState} → IsSound s → Step p parse display s t → IsSound t
  unfolding create_order renew_certificate trigger_full_renewal
  Step-IsSound {s} h (orders id domains new) = record {
    apart = count_new id (ids s.background) new.no_job h.apart;
    to_come = (
      insert-Changes id (starting domains) s.tasks id ∙ rw ((eq_iff id id).1 refl) refl,
      others-Open id (starting domains) s.tasks _ (insert-Changes id (starting domains) s.tasks)
          s.background new.no_job h.to_come,
    );
    earned =
        still_earned s.config id (starting domains) s.tasks _
          (insert-Changes id (starting domains) s.tasks) tt h.earned;
  }
  Step-IsSound {s} h (asks_renewal id cert_id new) =
      either_state (not s.has_client || not s.has_storage) _ _ h (record {
        apart = count_new id (ids s.background) new.no_job h.apart;
        to_come = (new.no_task, h.to_come);
        earned = h.earned;
      })
  Step-IsSound {s} h triggers =
      either_state s.has_scheduler _ _
        (record { apart = h.apart; to_come = (tt, h.to_come); earned = h.earned }) h
  Step-IsSound {s} h (provisioned before after id domains w w' r e run) =
      settled-IsSound s before after id domains w w' r h e run
  Step-IsSound {s} h (renewal_begins before after id cert_id e) =
      begun s before after id cert_id h e
  Step-IsSound {s} h (renewal_ends before after id e) =
      let ((cert_id, open_), rest) = parts s h before after (finishes id) e in
      ended s h before after (finishes id) e id _ _ refl
        (set_status-Changes id completed (renewal_started cert_id) s.tasks open_) (inl refl)
  Step-IsSound {s} h (scheduler_ran before after e) = dropped s h before after runs_scheduler e

  pub Reaches-IsSound :
      (config : Config) (client storage scheduler : Bool) (api_keys : List String) {s : AppState}
      → Reaches p parse display (started config client storage scheduler api_keys) s
      → IsSound s
  unfolding started count get
  Reaches-IsSound config client storage scheduler api_keys here = record {
    apart = λ i. omega arith;
    to_come = tt;
    earned = λ id info e. cc;
  }
  Reaches-IsSound config client storage scheduler api_keys (then_step r step) =
      Step-IsSound (Reaches-IsSound config client storage scheduler api_keys r) step

  -- In every state of a started server, a task with domains has the status completed only if
  -- provisioning them has succeeded, and failed only if four attempts at provisioning them have failed,
  -- with the text of the last error; no task is pending.
  pub Reaches-Earned :
      (config : Config) (client storage scheduler : Bool) (api_keys : List String) (s : AppState)
      (id : String) (info : TaskInfo)
      → Reaches p parse display (started config client storage scheduler api_keys) s
      → get s.tasks id ≡ some info
      → Earned s.config info.status info.domains
  Reaches-Earned config client storage scheduler api_keys s id info r e =
      (Reaches-IsSound config client storage scheduler api_keys r).earned id info e
