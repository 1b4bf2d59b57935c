-- ===== src/Tests/Scheduler.antt =====
-- A certificate whose renewal fails once.
use acmex.Base.{◌*◌, ◌≤◌, ◌≡◌, false, true, ◌+◌, ◌⊎◌, refl, [], ◌∷◌, length, arith}
use acmex.Scheduler.Draining.{
  Runs, none_yet, one_more, work, IsSettled, CanGo, HasMissed, onward, runs-end,
}
use acmex.Scheduler.Renewal.{
  Scheduler, normal, new, task_for, resend, Reaches, here, then_step, sends, enqueues, notifies,
  finds_none, awaits, finds, spawns, fails, woken, looking, waiting, spawned-bounded,
}

abbrev once_failed : Scheduler
once_failed = record {
  concurrency = 2;
  channel = record { domains = "a.org" ∷ []; priority = normal; retry_count = 1 } ∷ [];
  queue = [];
  running = [];
  loop = looking;
  to_notify = false;
  spawned = 1;
  sent = 1;
}

once_failed-Reaches : Reaches (new 2) once_failed
unfolding new task_for resend woken
once_failed-Reaches =
    let sent = then_step here (sends (task_for ("a.org" ∷ [])) (omega arith)) in
    let told =
      then_step (then_step sent (enqueues (task_for ("a.org" ∷ [])) [] refl refl))
        (notifies refl) in
    let taken =
      then_step (then_step told (finds (task_for ("a.org" ∷ [])) [] refl refl))
        (spawns [] [] (task_for ("a.org" ∷ [])) refl (omega arith) refl tt) in
    then_step taken (fails [] [] (task_for ("a.org" ∷ [])) refl (omega arith))

spawned-bounded_example :
    (Scheduler.spawned once_failed ≤ 4 * Scheduler.sent once_failed)
    × (length (Scheduler.running once_failed) ≤ Scheduler.concurrency once_failed)
spawned-bounded_example = spawned-bounded 2 once_failed once_failed-Reaches

abbrev queued : Scheduler
queued = record {
  concurrency = 2;
  channel = [];
  queue = record { domains = "a.org" ∷ []; priority = normal; retry_count = 1 } ∷ [];
  running = [];
  loop = looking;
  to_notify = true;
  spawned = 1;
  sent = 1;
}

queues : Runs once_failed 1 queued
queues = one_more none_yet (enqueues _ [] refl refl) refl

runs-end_example :
    (1 + work queued ≤ work once_failed)
    × (CanGo queued
        ⊎ (IsSettled queued
            × ((Scheduler.queue queued ≡ []) ⊎ HasMissed (onward once_failed-Reaches queues))))
runs-end_example = runs-end 2 once_failed queued 1 (omega arith) once_failed-Reaches queues

-- The notification comes before the loop waits for it, and the task stays in the heap.
abbrev unnoticed : Scheduler
unnoticed = record (new 2) { queue = task_for ("a.org" ∷ []) ∷ []; loop = waiting; sent = 1 }

unnoticed-Reaches : Reaches (new 2) unnoticed
unfolding new task_for woken
unnoticed-Reaches =
    let left = then_step here (finds_none refl refl) in
    let sent = then_step left (sends (task_for ("a.org" ∷ [])) (omega arith)) in
    let told =
      then_step (then_step sent (enqueues (task_for ("a.org" ∷ [])) [] refl refl))
        (notifies refl) in
    then_step told (awaits refl)

unnoticed-IsSettled : IsSettled unnoticed
unfolding new
unnoticed-IsSettled = record { channel = refl; running = refl; loop = refl; told = refl }
