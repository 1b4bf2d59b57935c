-- ===== src/Tests/Server.antt =====
-- A server with one order, whose provisioning fails.
use acmex.Base.{String, ◌≡◌, ◌⊎◌, ◌↔◌, refl, true, false, some, [], ◌∷◌, count}
use acmex.Base.Dict
use acmex.Base.Dict.{get}
use acmex.Base.Unique.{IsUnique}
use acmex.Error.{AcmeError}
use acmex.Act.{done}
use acmex.Server.State.{
  AppState, ApiResponse, TaskInfo, OrchestrationStatus, failed, started, provisions,
}
use acmex.Server.Health.{Components, degraded, unhealthy, health_handler, health_handler_iff}
use acmex.Server.Order.{create_order, get_order, found, starting}
use acmex.Server.Tasks
use acmex.Server.Tasks.{Step, Reaches, here, then_step, orders, provisioned, settle}
use acmex.Server.Sound.{Earned, Reaches-Earned}
use acmex.Server.Kept.{InProgress, get_order-Reaches}
use acmex.Tests.Toy.{toy, world}
use acmex.Tests.Orchestrator.{config, unreachable}

abbrev display : AcmeError → String
display e = "no directory"

abbrev begin : AppState
begin = record {
  config = config;
  has_client = true;
  has_storage = true;
  has_scheduler = false;
  api_keys = "key" ∷ [];
  tasks = [];
  background = [];
}

abbrev asked : AppState
asked = record begin {
  tasks = ("t1", starting ("a.org" ∷ [])) ∷ [];
  background = provisions "t1" ("a.org" ∷ []) ∷ [];
}

abbrev no_order : TaskInfo
no_order = record { status = failed "no directory"; domains = "a.org" ∷ [] }

abbrev answered : AppState
answered = record begin { tasks = ("t1", no_order) ∷ [] }

asked-Reaches : Reaches toy done display (started config true true false ("key" ∷ [])) asked
unfolding started create_order Dict.insert Dict.remove Dict.get count
asked-Reaches =
    then_step here (orders "t1" ("a.org" ∷ []) (record { no_task = refl; no_job = refl }))

answers : Step toy done display asked answered
unfolding settle Tasks.set_status Dict.insert Dict.remove Dict.get
answers = provisioned [] [] "t1" ("a.org" ∷ []) (world []) _ _ refl unreachable

has_failed : get (AppState.tasks answered) "t1" ≡ some no_order
unfolding get
has_failed = refl

Reaches-Earned_example : Earned toy done display config (failed "no directory") ("a.org" ∷ [])
Reaches-Earned_example =
    Reaches-Earned toy done display config true true false ("key" ∷ []) answered "t1" no_order
      (then_step asked-Reaches answers) has_failed

abbrev shown : OrchestrationStatus → String
shown status = "status"

is_there : get (AppState.tasks asked) "t1" ≡ some (starting ("a.org" ∷ []))
unfolding get
is_there = refl

get_order-Reaches_example :
    (info : TaskInfo) × (get_order shown "t1" answered ≡ (found shown "t1" (some info), answered))
    × (TaskInfo.domains info ≡ "a.org" ∷ [])
    × ((info ≡ starting ("a.org" ∷ [])) ⊎ InProgress (starting ("a.org" ∷ [])))
get_order-Reaches_example =
    get_order-Reaches toy done display shown config true true false ("key" ∷ []) asked answered "t1"
      (starting ("a.org" ∷ [])) asked-Reaches (then_step here answers) is_there

abbrev asks : AppState → ApiResponse × AppState
asks s = create_order "t1" ("a.org" ∷ []) s

abbrev parts : Components
parts = ("storage", degraded) ∷ ("acme", unhealthy) ∷ []

parts-IsUnique : IsUnique parts
unfolding get
parts-IsUnique = (refl, (refl, tt))

health_handler_iff_example :
    ((ApiResponse.status (health_handler "0.7.0" 5 parts) ≡ 503)
      ↔ ((name : String) × (get parts name ≡ some unhealthy)))
    × ((ApiResponse.status (health_handler "0.7.0" 5 parts) ≡ 503)
        ⊎ (ApiResponse.status (health_handler "0.7.0" 5 parts) ≡ 200))
health_handler_iff_example = health_handler_iff "0.7.0" 5 parts parts-IsUnique
