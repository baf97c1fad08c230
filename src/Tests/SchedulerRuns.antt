-- ===== src/Tests/SchedulerRuns.antt =====
-- The theorems of the scheduler at a loop that ran once and waits.
use rw_manager_backend.Base.{◌≡◌, refl}
use rw_manager_backend.Scheduler.{
  Steps, here, later, finishes, stops, finish_task, stop_loop, start_loop, run_task,
}
use rw_manager_backend.Scheduler.Loops.{Phase, Steps-Phase, stopped_for_good}

ran_once : Steps start_loop (finish_task start_loop)
unfolding start_loop run_task
ran_once = later here (finishes refl)

Steps-Phase_example : Phase (finish_task start_loop)
Steps-Phase_example = Steps-Phase ran_once

stopped_twice :
    Steps (stop_loop (finish_task start_loop)) (stop_loop (stop_loop (finish_task start_loop)))
stopped_twice = later here stops

stopped_for_good_example :
    (stop_loop (stop_loop (finish_task start_loop))).started ≡ (finish_task start_loop).started
stopped_for_good_example = stopped_for_good ran_once stopped_twice
