-- ===== src/Scheduler/Draining.antt =====
-- The end of the work of the scheduler in src/scheduler/renewal_scheduler.rs: what its retries can
-- still lead to, and which task it takes next.
use acmex.Base.{
  ℕ, suc, ◌+◌, ◌-◌, ◌*◌, ◌≤◌, ◌<◌, ◌≡◌, ◌⊎◌, inl, inr, refl, ap, sym, subst, ◌∙◌, List, [], ◌∷◌,
  ◌++◌, All, length, arith, Bool, true, false,
}
use acmex.Scheduler.Renewal.{
  RenewalTask, Scheduler, Loop, looking, leaving, waiting, acquiring, woken, rank, resend, IsAtMost,
  Step, new, Reaches, here, then_step, sends, enqueues, notifies, finds_none, awaits, finds, spawns,
  renews, fails,
}

-- A run of so many steps in which nothing is sent from outside.
pub data Runs (s : Scheduler) : ℕ → Scheduler → Type 0 where
  none_yet : Runs s 0 s
  one_more : {n : ℕ} {t u : Scheduler} → Runs s n t → Step t u → u.sent ≡ t.sent → Runs s (suc n) u

-- The steps that the tasks of a list can still take, with an offset for where they stand.
abbrev steps_left : ℕ → List RenewalTask → ℕ
steps_left offset [] = 0
steps_left offset (t ∷ ts) = 7 * (3 - t.retry_count) + offset + steps_left offset ts

steps_left-append :
    (k : ℕ) (xs ys : List RenewalTask) → steps_left k (xs ++ ys) ≡ steps_left k xs + steps_left k ys
steps_left-append k [] ys = omega arith
steps_left-append k (x ∷ xs) ys = omega (arith, steps_left-append k xs ys)

-- What the loop can still do by itself, and after a notification.
abbrev turns_left : Loop → ℕ
turns_left waiting = 0
turns_left leaving = 1
turns_left acquiring = 1
turns_left looking = 2

abbrev notice_left : Bool → ℕ
notice_left true = 3
notice_left false = 0

abbrev pub work : Scheduler → ℕ
work s =
    steps_left 7 s.channel
    + steps_left 3 s.queue
    + steps_left 1 s.running
    + turns_left s.loop
    + notice_left s.to_notify

steps_left-resend : (t : RenewalTask) → steps_left 7 (resend t) ≤ 7 * (3 - t.retry_count)
unfolding resend
steps_left-resend t = ground arith

turns_left-woken : (l : Loop) → turns_left (woken l) ≤ turns_left l + 2
unfolding woken
turns_left-woken waiting = omega arith
turns_left-woken leaving = omega arith
turns_left-woken acquiring = omega arith
turns_left-woken looking = omega arith

step-work : {s t : Scheduler} → Step s t → t.sent ≡ s.sent → work t < work s
step-work (sends task room) e = omega (arith, e)
step-work {s} (enqueues task rest idle e) _ =
    omega (arith, ap (steps_left 7) e, ap notice_left idle)
step-work {s} (notifies e) _ = omega (arith, ap notice_left e, turns_left-woken s.loop)
step-work {s} (finds_none at e) _ = omega (arith, ap turns_left at)
step-work {s} (awaits at) _ = omega (arith, ap turns_left at)
step-work {s} (finds task rest at e) _ = omega (arith, ap turns_left at)
step-work {s} (spawns before after task at permit e top) _ = omega (
  arith,
  ap turns_left at,
  ap (steps_left 3) e,
  steps_left-append 3 before (task ∷ after),
  steps_left-append 3 before after,
)
step-work {s} (renews before after task e) _ = omega (
  arith,
  ap (steps_left 1) e,
  steps_left-append 1 before (task ∷ after),
  steps_left-append 1 before after,
)
step-work {s} (fails before after task e room) _ = omega (
  arith,
  ap (steps_left 1) e,
  steps_left-append 1 before (task ∷ after),
  steps_left-append 1 before after,
  steps_left-append 7 s.channel (resend task),
  steps_left-resend task,
)

step-concurrency : {s t : Scheduler} → Step s t → t.concurrency ≡ s.concurrency
step-concurrency (sends task room) = refl
step-concurrency (enqueues task rest idle e) = refl
step-concurrency (notifies e) = refl
step-concurrency (finds_none at e) = refl
step-concurrency (awaits at) = refl
step-concurrency (finds task rest at e) = refl
step-concurrency (spawns before after task at permit e top) = refl
step-concurrency (renews before after task e) = refl
step-concurrency (fails before after task e room) = refl

runs-work : {s t : Scheduler} {n : ℕ} → Runs s n t → n + work t ≤ work s
runs-work none_yet = omega arith
runs-work (one_more r step e) = omega (arith, runs-work r, step-work step e)

-- The heap has a task wherever the loop is on its way to take one, so that its `pop` does not panic.
abbrev IsReady : Scheduler → Type 0
IsReady s = s.loop ≡ acquiring → 0 < length s.queue

-- The loop has yet to look at the heap, or to be notified, or there is nothing in the heap.
abbrev IsNoticed : Scheduler → Type 0
IsNoticed s = (s.loop ≡ looking) ⊎ (s.loop ≡ acquiring) ⊎ (s.to_notify ≡ true) ⊎ (s.queue ≡ [])

-- A notification that comes while the loop has found the heap empty and does not wait yet.
abbrev IsMissed : {s t : Scheduler} → Step s t → Type 0
IsMissed {s} (notifies e) = s.loop ≡ leaving
IsMissed _ = ⊥

-- A run in which some notification was missed.
abbrev pub HasMissed : {s t : Scheduler} → Reaches s t → Type 0
HasMissed here = ⊥
HasMissed (then_step r step) = HasMissed r ⊎ IsMissed step

woken-acquiring : (l : Loop) → woken l ≡ acquiring → l ≡ acquiring
unfolding woken
woken-acquiring looking e = cc
woken-acquiring leaving e = cc
woken-acquiring waiting e = cc
woken-acquiring acquiring e = refl

step-IsReady : {s t : Scheduler} → IsReady s → Step s t → IsReady t
step-IsReady h (sends task room) = h
step-IsReady h (enqueues task rest idle e) = λ at. omega arith
step-IsReady {s} h (notifies e) = λ at. h (woken-acquiring s.loop at)
step-IsReady h (finds_none at e) = λ now. cc
step-IsReady h (awaits at) = λ now. cc
step-IsReady h (finds task rest at e) = λ now. omega (arith, ap length e)
step-IsReady h (spawns before after task at permit e top) = λ now. cc
step-IsReady h (renews before after task e) = h
step-IsReady h (fails before after task e room) = h

woken_or_missed : (l : Loop) → ((woken l ≡ looking) ⊎ (woken l ≡ acquiring)) ⊎ (l ≡ leaving)
unfolding woken
woken_or_missed looking = inl (inl refl)
woken_or_missed waiting = inl (inl refl)
woken_or_missed acquiring = inl (inr refl)
woken_or_missed leaving = inr refl

step-IsNoticed : {s t : Scheduler} (step : Step s t) → IsNoticed s → IsNoticed t ⊎ IsMissed step
step-IsNoticed (sends task room) h = inl h
step-IsNoticed (enqueues task rest idle e) h = inl (inr (inr (inl refl)))
step-IsNoticed {s} (notifies e) h = elim (woken_or_missed s.loop) [
  | inl (inl looks) ↦ inl (inl looks)
  | inl (inr takes) ↦ inl (inr (inl takes))
  | inr missed ↦ inr missed
]
step-IsNoticed (finds_none at e) h = inl (inr (inr (inr e)))
step-IsNoticed (awaits at) (inl looks) = cc
step-IsNoticed (awaits at) (inr (inl takes)) = cc
step-IsNoticed (awaits at) (inr (inr rest)) = inl (inr (inr rest))
step-IsNoticed (finds task rest at e) h = inl (inr (inl refl))
step-IsNoticed (spawns before after task at permit e top) h = inl (inl refl)
step-IsNoticed (renews before after task e) h = inl h
step-IsNoticed (fails before after task e room) h = inl h

Reaches-IsReady : (n : ℕ) {s : Scheduler} → Reaches (new n) s → IsReady s
unfolding new
Reaches-IsReady n here = λ at. cc
Reaches-IsReady n (then_step r step) = step-IsReady (Reaches-IsReady n r) step

Reaches-IsNoticed : (n : ℕ) {s : Scheduler} (r : Reaches (new n) s) → IsNoticed s ⊎ HasMissed r
unfolding new
Reaches-IsNoticed n here = inl (inl refl)
Reaches-IsNoticed n (then_step r step) = elim (Reaches-IsNoticed n r) [
  | inl h ↦ elim (step-IsNoticed step h) [ inl k ↦ inl k | inr missed ↦ inr (inr missed) ]
  | inr missed ↦ inr (inl missed)
]

Reaches-concurrency : (n : ℕ) {s : Scheduler} → Reaches (new n) s → s.concurrency ≡ n
unfolding new
Reaches-concurrency n here = refl
Reaches-concurrency n (then_step r step) = step-concurrency step ∙ Reaches-concurrency n r

-- a run, and what it goes on to
abbrev pub onward : {r s t : Scheduler} {n : ℕ} → Reaches r s → Runs s n t → Reaches r t
onward start none_yet = start
onward start (one_more run step e) = then_step (onward start run) step

-- The channel is empty, no renewal runs, and the loop waits for a notification that is not to come.
pub record IsSettled (s : Scheduler) : Type 0 where
  pub channel : s.channel ≡ []
  pub running : s.running ≡ []
  pub loop : s.loop ≡ waiting
  pub told : s.to_notify ≡ false

settled-queue : (s : Scheduler) → IsSettled s → IsNoticed s → s.queue ≡ []
settled-queue s h (inl looks) = let at = h.loop in cc
settled-queue s h (inr (inl takes)) = let at = h.loop in cc
settled-queue s h (inr (inr (inl told))) = let none_to_come = h.told in cc
settled-queue s h (inr (inr (inr e))) = e

lower :
    (top q : RenewalTask) (xs : List RenewalTask)
    → rank top.priority ≤ rank q.priority
    → All (IsAtMost top) xs
    → All (IsAtMost q) xs
lower top q [] h a = tt
lower top q (x ∷ xs) h a = (omega (arith, h, a.0), lower top q xs h a.1)

with_middle :
    (q task : RenewalTask) (before after : List RenewalTask)
    → IsAtMost q task
    → All (IsAtMost q) (before ++ after)
    → All (IsAtMost q) (before ++ task ∷ after)
with_middle q task [] after h a = (h, a)
with_middle q task (x ∷ before) after h a = (a.0, with_middle q task before after h a.1)

-- A place in a queue where no other task is of a higher priority.
record Top (queue : List RenewalTask) : Type 0 where
  before : List RenewalTask
  after : List RenewalTask
  task : RenewalTask
  parts : queue ≡ before ++ task ∷ after
  top : All (IsAtMost task) (before ++ after)

higher :
    (q r : RenewalTask) (rs : List RenewalTask) (t : Top (r ∷ rs))
    → (rank q.priority ≤ rank t.task.priority) ⊎ (rank t.task.priority ≤ rank q.priority)
    → Top (q ∷ r ∷ rs)
higher q r rs t (inl low) = record {
  before = q ∷ t.before;
  after = t.after;
  task = t.task;
  parts = ap (λ l. q ∷ l) t.parts;
  top = (low, t.top);
}
higher q r rs t (inr high) = record {
  before = [];
  after = r ∷ rs;
  task = q;
  parts = refl;
  top = subst (All (IsAtMost q)) (sym t.parts) (
      with_middle q t.task t.before t.after high (lower t.task q (t.before ++ t.after) high t.top));
}

either_way : (a b : ℕ) → (a ≤ b) ⊎ (b ≤ a)
either_way a b = ground arith

topmost : (q : RenewalTask) (qs : List RenewalTask) → Top (q ∷ qs)
topmost q [] = record { before = []; after = []; task = q; parts = refl; top = tt }
topmost q (r ∷ rs) =
    let t = topmost r rs in higher q r rs t (either_way (rank q.priority) (rank t.task.priority))

-- A step that sends nothing.
pub record CanGo (s : Scheduler) : Type 0 where
  pub next : Scheduler
  pub step : Step s next
  pub quiet : next.sent ≡ s.sent

loop_goes :
    (s : Scheduler) (loop : Loop) (queue : List RenewalTask)
    → 0 < s.concurrency
    → IsReady s
    → s.running ≡ []
    → s.loop ≡ loop
    → s.queue ≡ queue
    → (s.loop ≡ waiting) ⊎ CanGo s
loop_goes s waiting queue h ready r l q = inl l
loop_goes s leaving queue h ready r l q = inr (record { next = _; step = awaits l; quiet = refl })
loop_goes s looking [] h ready r l q =
    inr (record { next = _; step = finds_none l q; quiet = refl })
loop_goes s looking (task ∷ queue) h ready r l q =
    inr (record { next = _; step = finds task queue l q; quiet = refl })
loop_goes s acquiring [] h ready r l q = absurd (omega (arith, ready l, ap length q))
loop_goes s acquiring (task ∷ queue) h ready r l q =
    let t = topmost task queue in
    inr (record {
      next = _;
      step = spawns t.before t.after t.task l (omega (arith, h, ap length r)) (q ∙ t.parts) t.top;
      quiet = refl;
    })

goes :
    (s : Scheduler) (channel running : List RenewalTask) (to_notify : Bool)
    → 0 < s.concurrency
    → IsReady s
    → s.channel ≡ channel
    → s.running ≡ running
    → s.to_notify ≡ to_notify
    → IsSettled s ⊎ CanGo s
goes s channel (task ∷ running) b h ready c r n =
    inr (record { next = _; step = renews [] running task r; quiet = refl })
goes s channel [] true h ready c r n = inr (record { next = _; step = notifies n; quiet = refl })
goes s (task ∷ channel) [] false h ready c r n =
    inr (record { next = _; step = enqueues task channel n c; quiet = refl })
goes s [] [] false h ready c r n = elim (loop_goes s s.loop s.queue h ready r refl refl) [
  | inl l ↦ inl (record { channel = c; running = r; loop = l; told = n })
  | inr go ↦ inr go
]

-- From any state that a new scheduler with a permit reaches, a run in which nothing more is sent has at
-- most so many steps as the retries of its tasks allow. Where it stands still, the channel is empty, no
-- renewal runs and the loop waits; and then the heap is empty too, unless a notification came while the
-- loop had found the heap empty and did not wait yet.
pub runs-end :
    (concurrency : ℕ) (s t : Scheduler) (n : ℕ)
    → 0 < concurrency
    → (start : Reaches (new concurrency) s) → (run : Runs s n t)
    → (n + work t ≤ work s)
      × (CanGo t ⊎ (IsSettled t × ((t.queue ≡ []) ⊎ HasMissed (onward start run))))
runs-end concurrency s t n h start run = (runs-work run, stands)
  where
    all : Reaches (new concurrency) t
    all = onward start run

    left : IsSettled t → (t.queue ≡ []) ⊎ HasMissed all
    left settled = elim (Reaches-IsNoticed concurrency all) [
      | inl noticed ↦ inl (settled-queue t settled noticed)
      | inr missed ↦ inr missed
    ]

    stands : CanGo t ⊎ (IsSettled t × ((t.queue ≡ []) ⊎ HasMissed all))
    stands =
        elim (goes t t.channel t.running t.to_notify
          (omega (arith, h, Reaches-concurrency concurrency all)) (Reaches-IsReady concurrency all)
          refl refl refl) [ inl settled ↦ inr (settled, left settled) | inr go ↦ inl go ]
