-- ===== src/Server/Order.antt =====
-- src/server/order.rs.
use acmex.Base.{String, ◌<>◌, Option, none, some, List, [], ◌∷◌, if◌then◌else◌}
use acmex.Base.Dict.{Dict, get, insert}
use acmex.Net.Value.{Json, Items, str, num, arr, obj, nil, cons, end, field, strs, optional}
use acmex.Error.{ProblemDetails}
use acmex.Server.State.{
  AppState, ApiResponse, TaskInfo, OrchestrationStatus, in_progress, provisions, runs_scheduler,
}

abbrev pub order_response : String → String → List String → Json
order_response id status domains =
    obj
      (field "id" (str id) (field "status" (str status) (field "domains" (arr (strs domains)) end)))

abbrev pub starting : List String → TaskInfo
starting domains = record { status = in_progress 0 "Starting order process"; domains = domains }

-- The id is drawn by `rand`.
unfoldable pub create_order : String → List String → AppState → ApiResponse × AppState
create_order task_id domains s = (
  record { status = 202; body = order_response task_id "accepted" domains },
  record s {
    tasks = insert s.tasks task_id (starting domains);
    background = provisions task_id domains ∷ s.background;
  },
)

unfoldable pub trigger_full_renewal : AppState → ApiResponse × AppState
trigger_full_renewal s =
    if s.has_scheduler
    then (
      record {
        status = 202;
        body = obj (
            field "status" (str "triggered")
              (field "message" (str "Full renewal process started in background") end));
      },
      record s { background = runs_scheduler ∷ s.background },
    )
    else (
      record {
        status = 501;
        body = obj (field "error" (str "Renewal scheduler not initialized") end);
      },
      s,
    )

-- `json` of `ProblemDetails`
abbrev pub problem_json : ProblemDetails → Json
problem_json p = obj (
    field "type" (str p.problem_type) (
      field "title" (str p.title) (
        field "status" (num p.status)
          (field "detail" (str p.detail) (optional "instance" p.instance_ref end)))))

-- The derived `Debug` of a status is the compiler's.
module _ (debug : OrchestrationStatus → String) where
  abbrev pub shown : String → TaskInfo → Json
  shown id info = order_response id (debug info.status) info.domains

  abbrev pub all_shown : Dict TaskInfo → Items
  all_shown [] = nil
  all_shown ((id, info) ∷ tasks) = cons (shown id info) (all_shown tasks)

  unfoldable pub list_orders : AppState → ApiResponse × AppState
  list_orders s = (record { status = 200; body = arr (all_shown s.tasks) }, s)

  abbrev pub found : String → Option TaskInfo → ApiResponse
  found id (some info) = record { status = 200; body = shown id info }
  found id none = record {
    status = 404;
    body = problem_json (record {
      problem_type = "https://acmex.sh/errors/not-found";
      title = "Task Not Found";
      status = 404;
      detail = "No task found with ID: " <> id;
      instance_ref = none;
    });
  }

  unfoldable pub get_order : String → AppState → ApiResponse × AppState
  get_order id s = (found id (get s.tasks id), s)
