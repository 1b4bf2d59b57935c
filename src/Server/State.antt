-- ===== src/Server/State.antt =====
-- `AppState` of src/server/api.rs, and the task status of src/orchestrator/mod.rs.
use acmex.Base.{ℕ, String, Bool, List, []}
use acmex.Base.Dict.{Dict}
use acmex.Net.Value.{Json}
use acmex.Orchestrator.Provisioner.{Config}

-- Progress is counted in tenths.
pub data OrchestrationStatus : Type 0 where
  pending : OrchestrationStatus
  in_progress : ℕ → String → OrchestrationStatus
  completed : OrchestrationStatus
  failed : String → OrchestrationStatus

pub record TaskInfo : Type 0 where
  pub status : OrchestrationStatus
  pub domains : List String

-- What a handler has left to the background: a provisioning of a task's domains, a renewal that has
-- not begun, for a certificate, and one that has begun.
pub data Job : Type 0 where
  provisions : String → List String → Job
  renews : String → String → Job
  finishes : String → Job
  runs_scheduler : Job

-- The state that handlers share. Of the client, the backend and the scheduler it matters here whether
-- they are there.
pub record AppState : Type 0 where
  pub config : Config
  pub has_client : Bool
  pub has_storage : Bool
  pub has_scheduler : Bool
  pub api_keys : List String
  pub tasks : Dict TaskInfo
  pub background : List Job

pub record ApiResponse : Type 0 where
  pub status : ℕ
  pub body : Json

-- the state with which `start_server` begins
unfoldable pub started : Config → Bool → Bool → Bool → List String → AppState
started config has_client has_storage has_scheduler api_keys = record {
  config = config;
  has_client = has_client;
  has_storage = has_storage;
  has_scheduler = has_scheduler;
  api_keys = api_keys;
  tasks = [];
  background = [];
}
