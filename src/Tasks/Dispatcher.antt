-- ===== src/Tasks/Dispatcher.antt =====
-- src/tasks.cpp and src/tasks.h: the thread that runs the tasks one after the other. A time is a
-- number of milliseconds, 0 is SYSTEM_TIME_ZERO. A task's function is named by a number, save for the
-- one that `shutdown` makes. What a task does to the queue are calls that come after it in a run.
pub mod Order
pub mod Ending
mod Examples
use tib.Common.{ℕ, suc, ◌+◌, Bool, true, false, List, [], ◌∷◌, ◌++◌, ltb, ◌==◌, if◌then◌else◌}
use tib.Common.Word.{add_u64}
use tib.Tasks.Scheduler.{ThreadState, running, closing, terminated, is_running, is_terminated}

pub data Func : Type 0 where
  work : ℕ → Func
  terminate : Func

pub record Task : Type 0 where
  pub expiration : ℕ
  pub func : Func

-- `createTask` without and with an expiration, the latter at time `now`.
pub create_task : Func → Task
create_task func = record { expiration = 0; func = func }

pub create_expiring : ℕ → ℕ → Func → Task
create_expiring now ms func = record { expiration = now + ms; func = func }

pub has_expired : Task → ℕ → Bool
has_expired task now = if task.expiration == 0 then false else ltb task.expiration now

pub record Dispatcher : Type 0 where
  pub thread_state : ThreadState
  pub task_list : List Task
  pub dispatcher_cycle : ℕ

push : Bool → Task → List Task → List Task
push true task list = task ∷ list
push false task list = list ++ task ∷ []

pub add_task : Dispatcher → Task → Bool → Dispatcher
unfolding is_running push
add_task d task push_front =
    if is_running d.thread_state
    then record d { task_list = push push_front task d.task_list }
    else d

pub stop : Dispatcher → Dispatcher
stop d = record d { thread_state = closing }

pub shutdown : Dispatcher → Dispatcher
unfolding create_task
shutdown d = record d { task_list = d.task_list ++ create_task terminate ∷ [] }

state_after : Func → ThreadState → ThreadState
state_after (work func) state = state
state_after terminate state = terminated

-- The call of a task that was taken.
pub execute : Dispatcher → Task → ℕ → Dispatcher
unfolding has_expired state_after
execute d task now = if has_expired task now then d else record d {
  dispatcher_cycle = add_u64 d.dispatcher_cycle 1;
  thread_state = state_after task.func d.thread_state;
}

-- The dispatcher, and the tasks that were taken so far.
pub record Server : Type 0 where
  pub dispatcher : Dispatcher
  pub taken : List Task

pub take_first : Server → List Task → ℕ → Server
unfolding execute
take_first s [] now = s
take_first s (task ∷ list) now = record {
  dispatcher = execute (record s.dispatcher { task_list = list }) task now;
  taken = s.taken ++ task ∷ [];
}

-- One round of `threadMain`.
pub turn : Server → ℕ → Server
unfolding take_first is_terminated
turn s now =
    if is_terminated s.dispatcher.thread_state then s else take_first s s.dispatcher.task_list now

-- The server stops the dispatcher in one of its own tasks (src/game.cpp), so never after its end.
stop_alive : Dispatcher → Dispatcher
unfolding stop is_terminated
stop_alive d = if is_terminated d.thread_state then d else stop d

pub data Event : Type 0 where
  adds : Task → Bool → Event
  stops : Event
  shuts : Event
  turns : ℕ → Event

happen : Server → Event → Server
unfolding add_task stop_alive shutdown turn
happen s (adds task push_front) = record s { dispatcher = add_task s.dispatcher task push_front }
happen s stops = record s { dispatcher = stop_alive s.dispatcher }
happen s shuts = record s { dispatcher = shutdown s.dispatcher }
happen s (turns now) = turn s now

-- Calls and rounds in the order in which the mutex lets them through.
pub play : Server → List Event → Server
unfolding happen
play s [] = s
play s (e ∷ es) = play (happen s e) es
