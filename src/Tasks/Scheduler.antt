-- ===== src/Tasks/Scheduler.antt =====
-- src/scheduler.cpp and src/scheduler.h: events that are due at a time. A task's function is named by
-- a number, and a time is a number of milliseconds. `eventList` is a heap: here the list of its tasks
-- in no order, from which a least one is popped, whichever it is. `eventIds` is a set: a list of
-- which each number is taken out whole.
pub mod Threads
pub mod Early
pub mod Numbers
pub mod Once
mod Examples
use tib.Common.{
  ℕ, ◌+◌, Bool, true, false, List, [], ◌∷◌, Option, none, some, contains, ◌==◌, if◌then◌else◌,
}
use tib.Common.Word.{add_u32}

pub data ThreadState : Type 0 where
  running closing terminated : ThreadState

unfoldable pub is_running : ThreadState → Bool
is_running running = true
is_running closing = false
is_running terminated = false

unfoldable pub is_terminated : ThreadState → Bool
is_terminated running = false
is_terminated closing = false
is_terminated terminated = true

pub record SchedulerTask : Type 0 where
  pub event_id : ℕ
  pub expiration : ℕ
  pub func : ℕ

pub record Scheduler : Type 0 where
  pub thread_state : ThreadState
  pub last_event_id : ℕ
  pub event_list : List SchedulerTask
  pub event_ids : List ℕ

-- `createSchedulerTask` at time `now`: the delay is at least SCHEDULER_MINTICKS where it is made.
pub scheduler_task : ℕ → ℕ → ℕ → SchedulerTask
scheduler_task now delay func = record { event_id = 0; expiration = now + delay; func = func }

pub next_event_id : ℕ → ℕ
next_event_id last = let id = add_u32 last 1 in if id == 0 then 1 else id

pub insert_id : ℕ → List ℕ → List ℕ
insert_id id ids = if contains id ids then ids else id ∷ ids

pub erase_id : ℕ → List ℕ → List ℕ
erase_id id [] = []
erase_id id (i ∷ ids) = let rest = erase_id id ids in if i == id then rest else i ∷ rest

-- The task with a valid number, and the last number given.
pub with_id : SchedulerTask → ℕ → SchedulerTask × ℕ
unfolding next_event_id
with_id task last =
    let id = next_event_id last in
    if task.event_id == 0 then (record task { event_id = id }, id) else (task, last)

enqueue : Scheduler → SchedulerTask × ℕ → ℕ × Scheduler
unfolding insert_id
enqueue s (task, last) = (
  task.event_id,
  record s {
    last_event_id = last;
    event_ids = insert_id task.event_id s.event_ids;
    event_list = task ∷ s.event_list;
  },
)

-- The number that the caller gets, and the scheduler.
pub add_event : Scheduler → SchedulerTask → ℕ × Scheduler
unfolding is_running with_id enqueue
add_event s task =
    if is_running s.thread_state then enqueue s (with_id task s.last_event_id) else (0, s)

pub stop_event : Scheduler → ℕ → Bool × Scheduler
unfolding erase_id
stop_event s id =
    if id == 0
    then (false, s)
    else if contains id s.event_ids
    then (true, record s { event_ids = erase_id id s.event_ids })
    else (false, s)

pub stop : Scheduler → Scheduler
stop s = record s { thread_state = closing }

pub shutdown : Scheduler → Scheduler
shutdown s = record s { thread_state = terminated; event_list = []; event_ids = [] }

set_dont_expire : SchedulerTask → SchedulerTask
set_dont_expire task = record task { expiration = 0 }

-- After a timeout: a popped task goes to the dispatcher, unless its event was stopped.
pub on_timeout : Scheduler → SchedulerTask → List SchedulerTask → Option SchedulerTask × Scheduler
unfolding erase_id set_dont_expire
on_timeout s task rest =
    if contains task.event_id s.event_ids
    then (
      some (set_dont_expire task),
      record s { event_list = rest; event_ids = erase_id task.event_id s.event_ids },
    )
    else (none, record s { event_list = rest })
