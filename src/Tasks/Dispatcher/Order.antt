-- ===== src/Tasks/Dispatcher/Order.antt =====
-- Tasks run in the order in which they came, each once, and the one of `shutdown` ends the thread.
use tib.Common.{
  ℕ, ◌≡◌, refl, sym, ap, ◌∙◌, Bool, true, false, List, [], ◌∷◌, ◌++◌, All, Bool-cases, inl, inr,
}
use mathlib.Core.List.{append_assoc, append-nil}
use tib.Tasks.Scheduler.{ThreadState, running, is_running, is_terminated}
use tib.Tasks.Dispatcher.{
  Func, work, terminate, Task, has_expired, Dispatcher, push, add_task, state_after, execute,
  Server, take_first, turn, Event, adds, stops, shuts, turns, happen, play,
}

abbrev pub is_work : Func → Bool
is_work (work f) = true
is_work terminate = false

abbrev pub IsWork : Task → Type 0
IsWork task = is_work task.func ≡ true

-- A round, or a call that puts a task at the end.
abbrev pub IsQueueing : Event → Type 0
IsQueueing (adds task true) = ⊥
IsQueueing (adds task false) = IsWork task
IsQueueing stops = ⊥
IsQueueing shuts = ⊥
IsQueueing (turns now) = Unit

abbrev pub queued : List Event → List Task
queued [] = []
queued (adds task push_front ∷ es) = task ∷ queued es
queued (stops ∷ es) = queued es
queued (shuts ∷ es) = queued es
queued (turns now ∷ es) = queued es

-- A thread that runs, with tasks that do not end it.
pub record IsBusy (s : Server) : Type 0 where
  pub state : s.dispatcher.thread_state ≡ running
  pub all_work : All IsWork s.dispatcher.task_list

state_after-work :
    (func : Func) (state : ThreadState) → is_work func ≡ true → state_after func state ≡ state
unfolding state_after
state_after-work (work f) state h = refl
state_after-work terminate state h = cc

execute-work :
    (d : Dispatcher) (task : Task) (now : ℕ)
    → IsWork task
    → ((execute d task now).thread_state ≡ d.thread_state)
      × ((execute d task now).task_list ≡ d.task_list)
unfolding execute
execute-work d task now h = elim (Bool-cases (has_expired task now)) [
  | inl late ↦ rw late (refl, refl)
  | inr alive ↦ rw alive (state_after-work task.func d.thread_state h, refl)
]

-- What a round does with a list that is not empty.
pub take_first-work :
    (s : Server) (task : Task) (list : List Task) (now : ℕ)
    → IsWork task
    → let v = take_first s (task ∷ list) now in
      (v.dispatcher.thread_state ≡ s.dispatcher.thread_state)
      × (v.dispatcher.task_list ≡ list)
      × (v.taken ≡ s.taken ++ task ∷ [])
unfolding take_first
take_first-work s task list now h =
    let done = execute-work (record s.dispatcher { task_list = list }) task now h in
    (done.0, done.1, refl)

turn-running :
    (s : Server) (now : ℕ)
    → s.dispatcher.thread_state ≡ running
    → turn s now ≡ take_first s s.dispatcher.task_list now
unfolding turn is_terminated
turn-running s now h = rw h refl

-- A server after a step: still busy, and the tasks taken and waiting are those before and the new ones.
record IsKept (s v : Server) (new : List Task) : Type 0 where
  busy : IsBusy v
  kept : v.taken ++ v.dispatcher.task_list ≡ (s.taken ++ s.dispatcher.task_list) ++ new

take_first-IsKept :
    (s : Server) (list : List Task) (now : ℕ)
    → s.dispatcher.task_list ≡ list
    → IsBusy s
    → IsKept s (take_first s list now) []
take_first-IsKept s [] now e b =
    unfold take_first in
    record { busy = b; kept = sym (append-nil (s.taken ++ s.dispatcher.task_list)) }
take_first-IsKept s (task ∷ list) now e b =
    let all_work : All IsWork (task ∷ list) = rw e at b.all_work in
    let done = take_first-work s task list now all_work.0 in
    record {
      busy = record { state = done.0 ∙ b.state; all_work = rw done.1 all_work.1 };
      kept =
          rw (done.1, done.2, e)
            (append_assoc s.taken (task ∷ []) list ∙ sym (append-nil (s.taken ++ task ∷ list)));
    }

All-append :
    (xs : List Task) (task : Task) → All IsWork xs → IsWork task → All IsWork (xs ++ task ∷ [])
All-append [] task h k = (k, tt)
All-append (x ∷ xs) task h k = (h.0, All-append xs task h.1 k)

add_task-running :
    (d : Dispatcher) (task : Task)
    → d.thread_state ≡ running
    → add_task d task false ≡ record d { task_list = d.task_list ++ task ∷ [] }
unfolding add_task is_running push
add_task-running d task h = rw h refl

happen-IsKept :
    (s : Server) (e : Event) → IsQueueing e → IsBusy s → IsKept s (happen s e) (queued (e ∷ []))
unfolding happen
happen-IsKept s (adds task true) h b = absurd h
happen-IsKept s (adds task false) h b = rw (add_task-running s.dispatcher task b.state) (record {
  busy = record { state = b.state; all_work = All-append s.dispatcher.task_list task b.all_work h };
  kept = sym (append_assoc s.taken s.dispatcher.task_list (task ∷ []));
})
happen-IsKept s stops h b = absurd h
happen-IsKept s shuts h b = absurd h
happen-IsKept s (turns now) h b =
    rw (turn-running s now b.state) (take_first-IsKept s s.dispatcher.task_list now refl b)

queued-cons : (e : Event) (es : List Event) → queued (e ∷ []) ++ queued es ≡ queued (e ∷ es)
queued-cons (adds task push_front) es = refl
queued-cons stops es = refl
queued-cons shuts es = refl
queued-cons (turns now) es = refl

-- While tasks are put at the end and the thread runs, and none of the tasks is the one of `shutdown`, no task is lost and none is taken twice: those taken and those that wait are, in this order, the ones from before and the ones put there since.
pub play-queued :
    (s : Server) (es : List Event)
    → IsBusy s
    → All IsQueueing es
    → (play s es).taken ++ (play s es).dispatcher.task_list
      ≡ (s.taken ++ s.dispatcher.task_list) ++ queued es
unfolding play
play-queued s [] b h = sym (append-nil (s.taken ++ s.dispatcher.task_list))
play-queued s (e ∷ es) b h =
    let step = happen-IsKept s e h.0 b in
    play-queued (happen s e) es step.busy h.1
    ∙ ap (λ tasks. tasks ++ queued es) step.kept
    ∙ append_assoc (s.taken ++ s.dispatcher.task_list) (queued (e ∷ [])) (queued es)
    ∙ ap (λ tasks. (s.taken ++ s.dispatcher.task_list) ++ tasks) (queued-cons e es)
