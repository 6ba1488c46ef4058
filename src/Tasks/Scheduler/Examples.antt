-- ===== src/Tasks/Scheduler/Examples.antt =====
-- A run of the scheduler, and its theorems at it.
use tib.Common.{◌≤◌, ◌≡◌, refl, [], ◌∷◌, All, arith}
use tib.Tasks.Scheduler.{running, is_terminated, SchedulerTask, add_event, stop_event, on_timeout}
use tib.Tasks.Scheduler.Threads.{
  awake, waiting_until, World, here, Top, adds, waits_until, times_out, Run, done, more, started,
}
use tib.Tasks.Scheduler.Early.{handed-in_time}
use tib.Tasks.Scheduler.Numbers.{runs}
use tib.Tasks.Scheduler.Once.{runs-once, stop_event-runs}

-- Two events, due at 1100 and at 1050.
abbrev late : SchedulerTask
late = record { event_id = 0; expiration = 1100; func = 7 }

abbrev soon : SchedulerTask
soon = record { event_id = 0; expiration = 1050; func = 8 }

abbrev two : World
two = record {
  scheduler = record {
    thread_state = running;
    last_event_id = 2;
    event_list = record soon { event_id = 2 } ∷ record late { event_id = 1 } ∷ [];
    event_ids = 2 ∷ 1 ∷ [];
  };
  phase = awake;
  handed = [];
  added = 2;
}

two-Run : Run started two
unfolding add_event
two-Run = more (more done (adds late refl)) (adds soon refl)

abbrev sleeping : World
sleeping = record two { phase = waiting_until 1050 }

abbrev after : World
after = record {
  scheduler = record {
    thread_state = running;
    last_event_id = 2;
    event_list = record late { event_id = 1 } ∷ [];
    event_ids = 1 ∷ [];
  };
  phase = awake;
  handed = record { at = 1060; due = 1050; id = 2 } ∷ [];
  added = 2;
}

soon-Top :
    Top (record soon { event_id = 2 }) two.scheduler.event_list (record late { event_id = 1 } ∷ [])
soon-Top = record { pops = here; least = (omega arith, (omega arith, tt)) }

after-Run : Run started after
unfolding is_terminated on_timeout
after-Run =
    more
      (more two-Run (
        waits_until (record soon { event_id = 2 }) (record late { event_id = 1 } ∷ []) refl refl
          soon-Top))
      (times_out 1050 1060 (record soon { event_id = 2 }) (record late { event_id = 1 } ∷ []) refl
        (omega arith) soon-Top)

handed-in_time_example : All (λ h. h.due ≤ h.at) after.handed
handed-in_time_example = handed-in_time after after-Run

runs-once_example : runs 2 after.handed ≤ 1
runs-once_example = runs-once after 2 after-Run (omega arith)

-- The other event is stopped, and a third one added.
abbrev third : World
third = record after {
  scheduler = record {
    thread_state = running;
    last_event_id = 3;
    event_list = record late { event_id = 3 } ∷ record late { event_id = 1 } ∷ [];
    event_ids = 3 ∷ [];
  };
  added = 3;
}

third-Run : Run (record after { scheduler = (stop_event after.scheduler 1).1 }) third
unfolding stop_event add_event
third-Run = more done (adds late refl)

stop_event-runs_example : runs 1 third.handed ≡ 0
unfolding stop_event
stop_event-runs_example = stop_event-runs after third 1 after-Run refl third-Run (omega arith)
