-- ===== src/Scheduler/Renewal.antt =====
-- `AdvancedRenewalScheduler` of src/scheduler/renewal_scheduler.rs: the tasks in the channel, in the
-- priority queue and in the spawned renewals, as steps that may come in any order.
use acmex.Base.{
  ℕ, suc, ◌+◌, ◌-◌, ◌*◌, ◌≤◌, ◌<◌, ◌≡◌, ap, String, ltb, List, [], ◌∷◌, ◌++◌, All, length,
  length-append, Bool, true, false, if◌then◌else◌, arith,
}

pub data Priority : Type 0 where
  low normal high urgent : Priority

-- the discriminants, by which the derived order compares
unfoldable pub rank : Priority → ℕ
rank low = 0
rank normal = 1
rank high = 2
rank urgent = 3

pub record RenewalTask : Type 0 where
  pub domains : List String
  pub priority : Priority
  pub retry_count : ℕ

-- Where the loop of `run` stands: before its look at the heap; behind a look that found it empty, but not
-- yet waiting for the notifier; waiting for it; and behind a look that found a task, on its way to a
-- permit.
pub data Loop : Type 0 where
  looking leaving waiting acquiring : Loop

-- `notify_waiters`, which only wakes who waits already
unfoldable pub woken : Loop → Loop
woken waiting = looking
woken looking = looking
woken leaving = leaving
woken acquiring = acquiring

-- The tasks that wait in the channel and in the heap, those whose renewal was spawned, where the loop
-- stands, whether the worker that pushes on the heap has still to notify it, and how many renewals were
-- spawned and how many tasks were sent from outside. The heap holds its tasks in some order.
pub record Scheduler : Type 0 where
  pub concurrency : ℕ
  pub channel : List RenewalTask
  pub queue : List RenewalTask
  pub running : List RenewalTask
  pub loop : Loop
  pub to_notify : Bool
  pub spawned : ℕ
  pub sent : ℕ

unfoldable pub new : ℕ → Scheduler
new concurrency = record {
  concurrency = concurrency;
  channel = [];
  queue = [];
  running = [];
  loop = looking;
  to_notify = false;
  spawned = 0;
  sent = 0;
}

-- `run_once_internal` sends this for each stored certificate.
unfoldable pub task_for : List String → RenewalTask
task_for domains = record { domains = domains; priority = normal; retry_count = 0 }

-- What a renewal that has failed sends: the task with one more retry, up to three.
unfoldable pub resend : RenewalTask → List RenewalTask
resend task =
    if ltb task.retry_count 3 then record task { retry_count = suc task.retry_count } ∷ [] else []

-- A task is of no higher priority than the top one.
abbrev pub IsAtMost : RenewalTask → RenewalTask → Type 0
IsAtMost top task = rank (RenewalTask.priority task) ≤ rank (RenewalTask.priority top)

pub data Step (s : Scheduler) : Scheduler → Type 0 where
  -- a task is sent from outside, while the channel has room
  sends :
      (task : RenewalTask)
      → length s.channel < 100
      → Step s (record s { channel = s.channel ++ task ∷ []; sent = suc s.sent })
  -- the background worker pushes the oldest task of the channel
  enqueues :
      (task : RenewalTask) (rest : List RenewalTask)
      → s.to_notify ≡ false
      → s.channel ≡ task ∷ rest
      → Step s (record s { channel = rest; queue = task ∷ s.queue; to_notify = true })
  -- and then notifies the loop
  notifies : s.to_notify ≡ true → Step s (record s { loop = woken s.loop; to_notify = false })
  -- the loop finds the heap empty and gives up its lock
  finds_none : s.loop ≡ looking → s.queue ≡ [] → Step s (record s { loop = leaving })
  -- and then waits for the notifier
  awaits : s.loop ≡ leaving → Step s (record s { loop = waiting })
  -- the loop finds a task
  finds :
      (task : RenewalTask) (rest : List RenewalTask)
      → s.loop ≡ looking
      → s.queue ≡ task ∷ rest
      → Step s (record s { loop = acquiring })
  -- with a permit, a task of the highest priority is popped and its renewal spawned
  spawns :
      (before after : List RenewalTask) (task : RenewalTask)
      → s.loop ≡ acquiring
      → length s.running < s.concurrency
      → s.queue ≡ before ++ task ∷ after
      → All (IsAtMost task) (before ++ after)
      → Step s (record s {
        queue = before ++ after;
        running = task ∷ s.running;
        loop = looking;
        spawned = suc s.spawned;
      })
  -- a renewal succeeds
  renews :
      (before after : List RenewalTask) (task : RenewalTask)
      → s.running ≡ before ++ task ∷ after
      → Step s (record s { running = before ++ after })
  -- a renewal fails, and is sent again while its retries last, once the channel has room
  fails :
      (before after : List RenewalTask) (task : RenewalTask)
      → s.running ≡ before ++ task ∷ after
      → length (s.channel ++ resend task) ≤ 100
      → Step s (record s { running = before ++ after; channel = s.channel ++ resend task })

pub data Reaches (s : Scheduler) : Scheduler → Type 0 where
  here : Reaches s s
  then_step : {t u : Scheduler} → Reaches s t → Step t u → Reaches s u

-- The renewals that a waiting task can still lead to, and a running one.
abbrev left_waiting : List RenewalTask → ℕ
left_waiting [] = 0
left_waiting (t ∷ ts) = suc (3 - t.retry_count) + left_waiting ts

abbrev left_running : List RenewalTask → ℕ
left_running [] = 0
left_running (t ∷ ts) = (3 - t.retry_count) + left_running ts

left_waiting-append :
    (xs ys : List RenewalTask) → left_waiting (xs ++ ys) ≡ left_waiting xs + left_waiting ys
left_waiting-append [] ys = omega arith
left_waiting-append (x ∷ xs) ys = omega (arith, left_waiting-append xs ys)

left_running-append :
    (xs ys : List RenewalTask) → left_running (xs ++ ys) ≡ left_running xs + left_running ys
left_running-append [] ys = omega arith
left_running-append (x ∷ xs) ys = omega (arith, left_running-append xs ys)

left_waiting-resend : (t : RenewalTask) → left_waiting (resend t) ≤ 3 - t.retry_count
unfolding resend
left_waiting-resend t = ground arith

-- Four renewals at most for each task that was sent, and no more at once than permits.
record IsBounded (s : Scheduler) : Type 0 where
  budget :
      s.spawned + left_waiting s.channel + left_waiting s.queue + left_running s.running
      ≤ 4 * s.sent
  permits : length s.running ≤ s.concurrency

Step-IsBounded : {s t : Scheduler} → IsBounded s → Step s t → IsBounded t
Step-IsBounded {s} h (sends task room) = record {
  budget = omega (arith, h.budget, left_waiting-append s.channel (task ∷ []));
  permits = h.permits;
}
Step-IsBounded {s} h (enqueues task rest idle e) = record {
  budget = omega (arith, h.budget, ap left_waiting e);
  permits = h.permits;
}
Step-IsBounded {s} h (notifies e) = record { budget = h.budget; permits = h.permits }
Step-IsBounded {s} h (finds_none at e) = record { budget = h.budget; permits = h.permits }
Step-IsBounded {s} h (awaits at) = record { budget = h.budget; permits = h.permits }
Step-IsBounded {s} h (finds task rest at e) = record { budget = h.budget; permits = h.permits }
Step-IsBounded {s} h (spawns before after task at permit e top) = record {
  budget = omega (
    arith,
    h.budget,
    ap left_waiting e,
    left_waiting-append before (task ∷ after),
    left_waiting-append before after,
  );
  permits = omega (arith, permit);
}
Step-IsBounded {s} h (renews before after task e) = record {
  budget = omega (
    arith,
    h.budget,
    ap left_running e,
    left_running-append before (task ∷ after),
    left_running-append before after,
  );
  permits = omega (
    arith,
    h.permits,
    ap length e,
    length-append before (task ∷ after),
    length-append before after,
  );
}
Step-IsBounded {s} h (fails before after task e room) = record {
  budget = omega (
    arith,
    h.budget,
    ap left_running e,
    left_running-append before (task ∷ after),
    left_running-append before after,
    left_waiting-append s.channel (resend task),
    left_waiting-resend task,
  );
  permits = omega (
    arith,
    h.permits,
    ap length e,
    length-append before (task ∷ after),
    length-append before after,
  );
}

Reaches-IsBounded : (n : ℕ) {s : Scheduler} → Reaches (new n) s → IsBounded s
unfolding new
Reaches-IsBounded n here = record { budget = omega arith; permits = omega arith }
Reaches-IsBounded n (then_step r step) = Step-IsBounded (Reaches-IsBounded n r) step

-- In every run of a new scheduler, however its renewals end, at most four were spawned for each task
-- that was sent from outside, and no more are running than the concurrency.
pub spawned-bounded :
    (concurrency : ℕ) (s : Scheduler)
    → Reaches (new concurrency) s
    → (s.spawned ≤ 4 * s.sent) × (length s.running ≤ s.concurrency)
spawned-bounded concurrency s r =
    let h = Reaches-IsBounded concurrency r in (omega (arith, h.budget), h.permits)
