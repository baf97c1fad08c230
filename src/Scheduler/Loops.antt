-- ===== src/Scheduler/Loops.antt =====
-- The loop of a refresh never runs twice at once, is never lost, and stays stopped.
use rw_manager_backend.Base.{
  ℕ, Bool, true, false, List, [], ◌∷◌, Option, none, some, filter, arith, ◌≡◌, refl, sym, ◌+◌,
}
use mathlib.Core.Path.{subst}
use rw_manager_backend.Scheduler.{
  Loop, schedule, run_task, finish_task, stop_loop, start_loop, Step, fires, finishes, stops, Steps,
  here, later, is_set, without,
}

abbrev loop : (stopped running : Bool) → Option ℕ → List ℕ → (next started : ℕ) → Loop
loop stopped running timer timers next started = record {
  stopped = stopped;
  running = running;
  timer = timer;
  timers = timers;
  next = next;
  started = started;
}

-- A loop works and has no timer, waits for its one timer, or is stopped and has none.
pub data Phase : Loop → Type 0 where
  working : (timer : Option ℕ) (next started : ℕ) → Phase (loop false true timer [] next started)
  waiting : (id next started : ℕ) → Phase (loop false false (some id) (id ∷ []) next started)
  halted :
      (running : Bool) (timer : Option ℕ) (next started : ℕ)
      → Phase (loop true running timer [] next started)

impossible : {A : Type 0} → false ≡ true → A
impossible {A} h = absurd (cc h)

without_only : (id : ℕ) → without id (id ∷ []) ≡ []
unfolding filter
without_only id = ground arith

fired_only : (id i : ℕ) → is_set id (i ∷ []) ≡ true → without id (i ∷ []) ≡ []
unfolding filter
fired_only id i h = ground (arith, h)

Step-Phase : {l k : Loop} → Phase l → Step l k → Phase k
unfolding run_task finish_task stop_loop schedule filter
Step-Phase (working timer n c) (fires id set) = impossible set
Step-Phase (working timer n c) (finishes runs) = waiting n (n + 1) c
Step-Phase (working none n c) stops = halted true none n c
Step-Phase (working (some t) n c) stops = halted true (some t) n c
Step-Phase (waiting id n c) (fires i set) =
    subst (λ ts. Phase (loop false true (some id) ts n (c + 1))) (sym (fired_only i id set))
      (working (some id) n (c + 1))
Step-Phase (waiting id n c) (finishes runs) = impossible runs
Step-Phase (waiting id n c) stops =
    subst (λ ts. Phase (loop true false (some id) ts n c)) (sym (without_only id))
      (halted false (some id) n c)
Step-Phase (halted r t n c) (fires id set) = impossible set
Step-Phase (halted r t n c) (finishes runs) = halted false t n c
Step-Phase (halted r none n c) stops = halted r none n c
Step-Phase (halted r (some t) n c) stops = halted r (some t) n c

start-Phase : Phase start_loop
unfolding start_loop run_task
start-Phase = working none 0 1

-- Whatever happens to a loop that was started, it works and has no timer, waits for exactly one
-- timer, or is stopped and has none: while it is not stopped, a next run is always ahead, and never
-- two.
pub Steps-Phase : {l : Loop} → Steps start_loop l → Phase l
Steps-Phase here = start-Phase
Steps-Phase (later before step) = Step-Phase (Steps-Phase before) step

-- The loop is stopped and has started its task this often.
abbrev IsHaltedAt : ℕ → Loop → Type 0
IsHaltedAt c l = (l.stopped ≡ true) × (l.timers ≡ []) × (l.started ≡ c)

stop-IsHaltedAt : {l : Loop} → Phase l → IsHaltedAt l.started (stop_loop l)
unfolding stop_loop filter
stop-IsHaltedAt (working none n c) = (refl, refl, refl)
stop-IsHaltedAt (working (some t) n c) = (refl, refl, refl)
stop-IsHaltedAt (waiting id n c) = (refl, without_only id, refl)
stop-IsHaltedAt (halted r none n c) = (refl, refl, refl)
stop-IsHaltedAt (halted r (some t) n c) = (refl, refl, refl)

halted-Step : {l k : Loop} {c : ℕ} → Phase l → IsHaltedAt c l → Step l k → IsHaltedAt c k
unfolding run_task finish_task stop_loop schedule filter
halted-Step (working timer n d) (s, t, e) step = impossible s
halted-Step (waiting id n d) (s, t, e) step = impossible s
halted-Step (halted r t n d) (s, ts, e) (fires id set) = impossible set
halted-Step (halted r t n d) (s, ts, e) (finishes runs) = (refl, refl, e)
halted-Step (halted r none n d) (s, ts, e) stops = (refl, refl, e)
halted-Step (halted r (some t) n d) (s, ts, e) stops = (refl, refl, e)

-- Once a started loop is stopped, its task is never started again, whatever happens then: timers
-- that were set, a task that still runs and ends, and further stops.
pub stopped_for_good :
    {l k : Loop} → Steps start_loop l → Steps (stop_loop l) k → k.started ≡ l.started
stopped_for_good {l} {k} before after = (go after).1.2
  where
    go : {k : Loop} → Steps (stop_loop l) k → Phase k × IsHaltedAt l.started k
    go here = (Step-Phase (Steps-Phase before) stops, stop-IsHaltedAt (Steps-Phase before))
    go (later earlier step) =
        let (phase, halt) = go earlier in (Step-Phase phase step, halted-Step phase halt step)
