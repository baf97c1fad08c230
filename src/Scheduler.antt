-- ===== src/Scheduler.antt =====
-- src/service/manager-refresh-scheduler.ts: one loop of `startLoop`. The timers are those that
-- setTimeout has set and that have neither fired nor been cleared; `timer` is the variable that holds
-- the last one. A started task ends once, well or not.
pub mod Loops
use rw_manager_backend.Base.{
  ℕ, Bool, true, false, not, List, [], ◌∷◌, Option, none, some, ◌+◌, ◌≡◌, nat_eq, filter,
  if◌then◌else◌,
}

pub record Loop : Type 0 where
  pub stopped : Bool
  pub running : Bool
  pub timer : Option ℕ
  pub timers : List ℕ
  -- The handle that the next setTimeout returns, and how often the task was started.
  pub next : ℕ
  pub started : ℕ

abbrev pub without : ℕ → List ℕ → List ℕ
without id ids = filter (λ i. not (nat_eq i id)) ids

unfoldable pub schedule : Loop → Loop
schedule l =
    if l.stopped
    then l
    else record l { timer = some l.next; timers = l.next ∷ l.timers; next = l.next + 1 }

unfoldable pub run_task : Loop → Loop
unfolding schedule
run_task l =
    if l.stopped
    then l
    else if l.running
    then schedule l
    else record l { running = true; started = l.started + 1 }

-- The task has ended: `finally`.
unfoldable pub finish_task : Loop → Loop
unfolding schedule
finish_task l = schedule (record l { running = false })

abbrev cleared : Option ℕ → List ℕ → List ℕ
cleared none ids = ids
cleared (some id) ids = without id ids

unfoldable pub stop_loop : Loop → Loop
stop_loop l = record l { stopped = true; timers = cleared l.timer l.timers }

unfoldable pub start_loop : Loop
unfolding run_task
start_loop =
    run_task (record {
      stopped = false;
      running = false;
      timer = none;
      timers = [];
      next = 0;
      started = 0;
    })

abbrev pub is_set : ℕ → List ℕ → Bool
is_set id [] = false
is_set id (i ∷ ids) = if nat_eq i id then true else is_set id ids

-- What may happen to a loop: a timer fires, the running task ends, or it is stopped.
pub data Step (l : Loop) : Loop → Type 0 where
  fires :
      (id : ℕ)
      → is_set id l.timers ≡ true
      → Step l (run_task (record l { timers = without id l.timers }))
  finishes : l.running ≡ true → Step l (finish_task l)
  stops : Step l (stop_loop l)

pub data Steps (l : Loop) : Loop → Type 0 where
  here : Steps l l
  later : {k n : Loop} → Steps l k → Step k n → Steps l n
