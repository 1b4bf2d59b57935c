-- ===== src/Server/Jobs.antt =====
-- The jobs in the background of src/server/, by the ids of their tasks, and what one change of the map
-- of tasks leaves alone.
use acmex.Base.{
  ◌+◌, ◌≤◌, String, ◌≡◌, refl, sym, ap, ◌∙◌, inl, inr, ◌==◌, eq_iff, false, Bool-cases, none, some,
  List, [], ◌∷◌, ◌++◌, All, count, if◌then◌else◌, arith,
}
use acmex.Base.Dict.{Dict, get, insert, get-insert}
use acmex.Server.State.{
  TaskInfo, Job, OrchestrationStatus, provisions, renews, finishes, runs_scheduler,
}
use acmex.Server.Order.{starting}
use acmex.Server.Certificate.{renewal_started}
use acmex.Server.Tasks.{ids, set_status}

module _ (i : String) where
  ids-append : (xs ys : List Job) → count i (ids (xs ++ ys)) ≡ count i (ids xs) + count i (ids ys)
  unfolding count
  ids-append [] ys = omega arith
  ids-append (provisions id domains ∷ xs) ys = ground (arith, ids-append xs ys)
  ids-append (renews id cert_id ∷ xs) ys = ground (arith, ids-append xs ys)
  ids-append (finishes id ∷ xs) ys = ground (arith, ids-append xs ys)
  ids-append (runs_scheduler ∷ xs) ys = ids-append xs ys

  ids-cons :
      (job : Job) (ys : List Job)
      → count i (ids (job ∷ ys)) ≡ count i (ids (job ∷ [])) + count i (ids ys)
  unfolding count
  ids-cons (provisions id domains) ys = ground arith
  ids-cons (renews id cert_id) ys = ground arith
  ids-cons (finishes id) ys = ground arith
  ids-cons runs_scheduler ys = omega arith

  pub ids-middle :
      (before after : List Job) (job : Job)
      → count i (ids (before ++ job ∷ after))
        ≡ count i (ids (job ∷ [])) + count i (ids (before ++ after))
  ids-middle before after job =
      omega (arith, ids-append before (job ∷ after), ids-append before after, ids-cons job after)

pub count_self : (i : String) → count i (i ∷ []) ≡ 1
unfolding count
count_self i = rw ((eq_iff i i).1 refl) refl

-- One entry of the map is changed.
abbrev pub Changes : String → TaskInfo → Dict TaskInfo → Dict TaskInfo → Type 0
Changes id info tasks tasks' =
    (j : String) → get tasks' j ≡ (if id == j then some info else get tasks j)

pub insert-Changes :
    (id : String) (info : TaskInfo) (tasks : Dict TaskInfo)
    → Changes id info tasks (insert tasks id info)
insert-Changes id info tasks j = get-insert tasks id j info

pub set_status-Changes :
    (id : String) (status : OrchestrationStatus) (info : TaskInfo) (tasks : Dict TaskInfo)
    → get tasks id ≡ some info
    → Changes id (record info { status = status }) tasks (set_status id status tasks)
unfolding set_status
set_status-Changes id status info tasks e j =
    rw e (get-insert tasks id j (record info { status = status }))

elsewhere :
    (id j : String) (info : TaskInfo) (tasks tasks' : Dict TaskInfo)
    → Changes id info tasks tasks'
    → (j == id) ≡ false
    → get tasks' j ≡ get tasks j
elsewhere id j info tasks tasks' c other = elim (Bool-cases (id == j)) [
  | inl same ↦ let e = (eq_iff j id).1 (sym ((eq_iff id j).0 same)) in cc
  | inr differ ↦ c j ∙ rw differ refl
]

-- What the map holds for a job that is still to come to its end.
abbrev pub Open : Dict TaskInfo → Job → Type 0
Open tasks (provisions id domains) = get tasks id ≡ some (starting domains)
Open tasks (renews id cert_id) = get tasks id ≡ none
Open tasks (finishes id) = (cert_id : String) × (get tasks id ≡ some (renewal_started cert_id))
Open tasks runs_scheduler = Unit

not_first :
    (id j : String) (js : List String)
    → count id (j ∷ js) ≡ 0
    → ((j == id) ≡ false) × (count id js ≡ 0)
unfolding count
not_first id j js h = elim (Bool-cases (j == id)) [
  | inl same ↦ absurd (ground (arith, same, h))
  | inr differ ↦ (differ, ground (arith, differ, h))
]

-- The other jobs are as they were.
pub others-Open :
    (id : String) (info : TaskInfo) (tasks tasks' : Dict TaskInfo)
    → Changes id info tasks tasks'
    → (jobs : List Job) → count id (ids jobs) ≡ 0
    → All (Open tasks) jobs
    → All (Open tasks') jobs
others-Open id info tasks tasks' c [] h a = tt
others-Open id info tasks tasks' c (provisions j domains ∷ jobs) h a =
    let (differ, rest) = not_first id j (ids jobs) h in
    (
      elsewhere id j info tasks tasks' c differ ∙ a.0,
      others-Open id info tasks tasks' c jobs rest a.1,
    )
others-Open id info tasks tasks' c (renews j cert_id ∷ jobs) h a =
    let (differ, rest) = not_first id j (ids jobs) h in
    (
      elsewhere id j info tasks tasks' c differ ∙ a.0,
      others-Open id info tasks tasks' c jobs rest a.1,
    )
others-Open id info tasks tasks' c (finishes j ∷ jobs) h a =
    let (differ, rest) = not_first id j (ids jobs) h in
    (
      (a.0.0, elsewhere id j info tasks tasks' c differ ∙ a.0.1),
      others-Open id info tasks tasks' c jobs rest a.1,
    )
others-Open id info tasks tasks' c (runs_scheduler ∷ jobs) h a =
    (tt, others-Open id info tasks tasks' c jobs h a.1)

pub All-middle :
    (P : Job → Type 0) (before after : List Job) (job : Job)
    → All P (before ++ job ∷ after)
    → P job × All P (before ++ after)
All-middle P [] after job a = a
All-middle P (x ∷ before) after job a =
    let (here, rest) = All-middle P before after job a.1 in (here, (a.0, rest))

pub All-into :
    (P : Job → Type 0) (before after : List Job) (job : Job)
    → P job
    → All P (before ++ after)
    → All P (before ++ job ∷ after)
All-into P [] after job here rest = (here, rest)
All-into P (x ∷ before) after job here rest = (rest.0, All-into P before after job here rest.1)

-- One more id that none of the others is.
pub count_new :
    (id : String) (js : List String)
    → count id js ≡ 0
    → ((i : String) → count i js ≤ 1)
    → (i : String) → count i (id ∷ js) ≤ 1
unfolding count
count_new id js new old i = elim (Bool-cases (id == i)) [
  | inl same ↦
      let none_yet = ap (λ j. count j js) (sym ((eq_iff id i).0 same)) ∙ new in
      ground (arith, same, none_yet)
  | inr differ ↦ ground (arith, differ, old i)
]
