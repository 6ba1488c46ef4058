-- ===== src/Tasks/Scheduler/Threads.antt =====
-- `Scheduler::threadMain` (src/scheduler.cpp) among the calls of other threads. The mutex lets one
-- stretch of code run at a time, so a run is a sequence of them: a call, or what the thread does from
-- one wait to the next. A wait may end without a signal, so signals need no place in the state.
use tib.Common.{ℕ, suc, ◌≤◌, ◌≡◌, Bool, true, false, List, [], ◌∷◌, Option, none, some, All}
use tib.Tasks.Scheduler.{
  running, is_terminated, SchedulerTask, Scheduler, add_event, stop_event, stop, shutdown,
  on_timeout,
}

-- Between two waits, in `wait`, or in `wait_until` a time. In `broken` the thread has called `top` and
-- `pop` on an empty heap, which has no meaning, and it takes no further step.
pub data Phase : Type 0 where
  awake : Phase
  waiting : Phase
  waiting_until : ℕ → Phase
  broken : Phase

unfoldable pub is_broken : Phase → Bool
is_broken awake = false
is_broken waiting = false
is_broken (waiting_until time) = false
is_broken broken = true

-- What went to the dispatcher, with the time at which it went and the time at which it was due.
pub record Handed : Type 0 where
  pub at : ℕ
  pub due : ℕ
  pub id : ℕ

-- `added` counts the calls of `addEvent`.
pub record World : Type 0 where
  pub scheduler : Scheduler
  pub phase : Phase
  pub handed : List Handed
  pub added : ℕ

-- A list is a task and the rest, the task taken from anywhere in it.
pub data Pops (task : SchedulerTask) : List SchedulerTask → List SchedulerTask → Type 0 where
  here : {rest : List SchedulerTask} → Pops task (task ∷ rest) rest
  there :
      {other : SchedulerTask} {list rest : List SchedulerTask}
      → Pops task list rest
      → Pops task (other ∷ list) (other ∷ rest)

-- `top` and `pop`: no task is due before it.
pub record Top (task : SchedulerTask) (list rest : List SchedulerTask) : Type 0 where
  pub pops : Pops task list rest
  pub least : All (λ other. task.expiration ≤ other.expiration) list

abbrev pub hand : ℕ → SchedulerTask → Option SchedulerTask → List Handed → List Handed
hand now task none handed = handed
hand now task (some sent) handed =
    record { at = now; due = task.expiration; id = sent.event_id } ∷ handed

abbrev pub after_timeout : World → ℕ → SchedulerTask → Option SchedulerTask × Scheduler → World
after_timeout w now task (sent, s) = record w {
  scheduler = s;
  phase = awake;
  handed = hand now task sent w.handed;
}

pub data Step (w : World) : World → Type 0 where
  adds :
      (task : SchedulerTask)
      → task.event_id ≡ 0
      → Step w (record w { scheduler = (add_event w.scheduler task).1; added = suc w.added })
  stops : (id : ℕ) → Step w (record w { scheduler = (stop_event w.scheduler id).1 })
  closes : Step w (record w { scheduler = stop w.scheduler })
  shuts : Step w (record w { scheduler = shutdown w.scheduler })
  waits :
      w.phase ≡ awake
      → is_terminated w.scheduler.thread_state ≡ false
      → w.scheduler.event_list ≡ []
      → Step w (record w { phase = waiting })
  waits_until :
      (task : SchedulerTask) (rest : List SchedulerTask)
      → w.phase ≡ awake
      → is_terminated w.scheduler.thread_state ≡ false
      → Top task w.scheduler.event_list rest
      → Step w (record w { phase = waiting_until task.expiration })
  wakes : is_broken w.phase ≡ false → Step w (record w { phase = awake })
  times_out :
      (time now : ℕ) (task : SchedulerTask) (rest : List SchedulerTask)
      → w.phase ≡ waiting_until time
      → time ≤ now
      → Top task w.scheduler.event_list rest
      → Step w (after_timeout w now task (on_timeout w.scheduler task rest))
  pops_nothing :
      (time now : ℕ)
      → w.phase ≡ waiting_until time
      → time ≤ now
      → w.scheduler.event_list ≡ []
      → Step w (record w { phase = broken })

pub data Run (w : World) : World → Type 0 where
  done : Run w w
  more : {v u : World} → Run w v → Step v u → Run w u

-- The scheduler when its thread starts.
abbrev pub started : World
started = record {
  scheduler = record { thread_state = running; last_event_id = 0; event_list = []; event_ids = [] };
  phase = awake;
  handed = [];
  added = 0;
}
