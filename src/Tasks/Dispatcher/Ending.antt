-- ===== src/Tasks/Dispatcher/Ending.antt =====
-- The task of `shutdown` ends the thread, after the tasks in front of it.
use tib.Common.{
  ℕ, suc, ◌≤◌, ◌≡◌, refl, sym, ap, ◌∙◌, Bool, true, false, List, [], ◌∷◌, ◌++◌, length, All, arith,
  if◌then◌else◌, Bool-cases, inl, inr,
}
use mathlib.Core.List.{append_assoc, append-nil}
use tib.Tasks.Scheduler.{ThreadState, terminated, is_running, is_terminated}
use tib.Tasks.Dispatcher.{
  terminate, Task, create_task, has_expired, Dispatcher, push, add_task, stop, stop_alive, shutdown,
  state_after, execute, Server, take_first, turn, Event, adds, stops, shuts, turns, happen, play,
}
use tib.Tasks.Dispatcher.Order.{IsWork, take_first-work}

abbrev pub rounds : List Event → ℕ
rounds [] = 0
rounds (adds task push_front ∷ es) = rounds es
rounds (stops ∷ es) = rounds es
rounds (shuts ∷ es) = rounds es
rounds (turns now ∷ es) = suc (rounds es)

-- Anything but a task that goes to the front of the queue of a thread that runs.
abbrev pub IsLate : Bool → Event → Type 0
IsLate runs (adds task true) = runs ≡ false
IsLate runs (adds task false) = Unit
IsLate runs stops = Unit
IsLate runs shuts = Unit
IsLate runs (turns now) = Unit

-- The thread has ended. It took `xs` and the task of `shutdown`, and what waited behind that task is
-- still there, before anything that came later.
pub record IsEnded (v : Server) (xs ys before : List Task) : Type 0 where
  pub state : v.dispatcher.thread_state ≡ terminated
  pub taken : v.taken ≡ before ++ (xs ++ create_task terminate ∷ [])
  pub behind : List Task
  pub rest : v.dispatcher.task_list ≡ ys ++ behind

add_task-closed :
    (d : Dispatcher) (task : Task) (push_front : Bool)
    → is_running d.thread_state ≡ false
    → add_task d task push_front ≡ d
unfolding add_task
add_task-closed d task push_front h = rw h refl

add_task-open :
    (d : Dispatcher) (task : Task)
    → is_running d.thread_state ≡ true
    → add_task d task false ≡ record d { task_list = d.task_list ++ task ∷ [] }
unfolding add_task push
add_task-open d task h = rw h refl

is_running-terminated : (state : ThreadState) → state ≡ terminated → is_running state ≡ false
unfolding is_running
is_running-terminated state h = rw h refl

is_terminated-terminated : (state : ThreadState) → state ≡ terminated → is_terminated state ≡ true
unfolding is_terminated
is_terminated-terminated state h = rw h refl

stop_alive-if :
    (d : Dispatcher) → stop_alive d ≡ (if is_terminated d.thread_state then d else stop d)
unfolding stop_alive
stop_alive-if d = refl

turn-if :
    (s : Server) (now : ℕ)
    → turn s now ≡ (
        if is_terminated s.dispatcher.thread_state
        then s
        else take_first s s.dispatcher.task_list now)
unfolding turn
turn-if s now = refl

-- What has ended stays so.
happen-IsEnded :
    (s : Server) (e : Event) (xs ys before : List Task)
    → IsEnded s xs ys before
    → IsEnded (happen s e) xs ys before
unfolding happen shutdown
happen-IsEnded s (adds task push_front) xs ys before ended =
    rw (add_task-closed s.dispatcher task push_front (is_running-terminated _ ended.state)) ended
happen-IsEnded s stops xs ys before ended =
    rw (stop_alive-if s.dispatcher, is_terminated-terminated _ ended.state) ended
happen-IsEnded s shuts xs ys before ended = record {
  state = ended.state;
  taken = ended.taken;
  behind = ended.behind ++ create_task terminate ∷ [];
  rest =
      ap (λ list. list ++ create_task terminate ∷ []) ended.rest
      ∙ append_assoc ys ended.behind (create_task terminate ∷ []);
}
happen-IsEnded s (turns now) xs ys before ended =
    rw (turn-if s now, is_terminated-terminated _ ended.state) ended

play-IsEnded :
    (s : Server) (es : List Event) (xs ys before : List Task)
    → IsEnded s xs ys before
    → IsEnded (play s es) xs ys before
unfolding play
play-IsEnded s [] xs ys before ended = ended
play-IsEnded s (e ∷ es) xs ys before ended =
    play-IsEnded (happen s e) es xs ys before (happen-IsEnded s e xs ys before ended)

turn-alive :
    (s : Server) (now : ℕ) (list : List Task)
    → is_terminated s.dispatcher.thread_state ≡ false
    → s.dispatcher.task_list ≡ list
    → turn s now ≡ take_first s list now
turn-alive s now list h e =
    turn-if s now
    ∙ ap (λ b. if b then s else take_first s s.dispatcher.task_list now) h
    ∙ ap (λ tasks. take_first s tasks now) e

-- The round that takes the task of `shutdown`.
take_first-IsEnded :
    (s : Server) (ys : List Task) (now : ℕ)
    → IsEnded (take_first s (create_task terminate ∷ ys) now) [] ys s.taken
unfolding take_first execute create_task has_expired state_after
take_first-IsEnded s ys now = record {
  state = refl;
  taken = refl;
  behind = [];
  rest = sym (append-nil ys);
}

-- A task that came behind.
IsEnded-longer :
    (v : Server) (task : Task) (xs ys before : List Task)
    → IsEnded v xs (ys ++ task ∷ []) before
    → IsEnded v xs ys before
IsEnded-longer v task xs ys before ended = record {
  state = ended.state;
  taken = ended.taken;
  behind = task ∷ ended.behind;
  rest = ended.rest ∙ append_assoc ys (task ∷ []) ended.behind;
}

-- A task that was taken before.
IsEnded-taken :
    (v : Server) (task : Task) (xs ys before taken : List Task)
    → taken ≡ before ++ task ∷ []
    → IsEnded v xs ys taken
    → IsEnded v (task ∷ xs) ys before
IsEnded-taken v task xs ys before taken e ended = record {
  state = ended.state;
  taken =
      ended.taken
      ∙ ap (λ list. list ++ (xs ++ create_task terminate ∷ [])) e
      ∙ append_assoc before (task ∷ []) (xs ++ create_task terminate ∷ []);
  behind = ended.behind;
  rest = ended.rest;
}

-- The list grows at its end.
grown :
    (xs ys list : List Task) (task : Task)
    → list ≡ xs ++ create_task terminate ∷ ys
    → list ++ task ∷ [] ≡ xs ++ create_task terminate ∷ (ys ++ task ∷ [])
grown xs ys list task e =
    ap (λ tasks. tasks ++ task ∷ []) e ∙ append_assoc xs (create_task terminate ∷ ys) (task ∷ [])

-- `runs` tells whether the thread was running at the start: once it is not, it never is again.
play-IsEnded_from :
    (runs : Bool) (xs ys : List Task) (s : Server) (es : List Event)
    → (runs ≡ false → is_running s.dispatcher.thread_state ≡ false)
    → is_terminated s.dispatcher.thread_state ≡ false
    → s.dispatcher.task_list ≡ xs ++ create_task terminate ∷ ys
    → All IsWork xs
    → All (IsLate runs) es
    → suc (length xs) ≤ rounds es
    → IsEnded (play s es) xs ys s.taken
unfolding play happen shutdown
play-IsEnded_from runs xs ys s [] r h e w late le = absurd (omega (arith, le))
play-IsEnded_from runs xs ys s (adds task true ∷ es) r h e w late le =
    rw (play, happen, add_task-closed s.dispatcher task true (r late.0))
      (play-IsEnded_from runs xs ys s es r h e w late.1 le)
play-IsEnded_from runs xs ys s (adds task false ∷ es) r h e w late le =
    elim (Bool-cases (is_running s.dispatcher.thread_state)) [
      | inl on ↦
          rw (play, happen, add_task-open s.dispatcher task on)
            (IsEnded-longer _ task xs ys s.taken (
              play-IsEnded_from runs xs (ys ++ task ∷ []) _ es r h (grown xs ys _ task e) w late.1
                le))
      | inr off ↦
          rw (play, happen, add_task-closed s.dispatcher task false off)
            (play-IsEnded_from runs xs ys s es r h e w late.1 le)
    ]
play-IsEnded_from runs xs ys s (stops ∷ es) r h e w late le =
    rw (play, happen, stop_alive-if s.dispatcher, h)
      (unfold stop is_running is_terminated in
        play-IsEnded_from runs xs ys _ es (λ off. refl) refl e w late.1 le)
play-IsEnded_from runs xs ys s (shuts ∷ es) r h e w late le =
    IsEnded-longer _ (create_task terminate) xs ys s.taken (
      play-IsEnded_from runs xs (ys ++ create_task terminate ∷ []) _ es r h (grown xs ys _ _ e) w
        late.1 le)
play-IsEnded_from runs [] ys s (turns now ∷ es) r h e w late le =
    rw (play, happen, turn-alive s now (create_task terminate ∷ ys) h e)
      (play-IsEnded _ es [] ys s.taken (take_first-IsEnded s ys now))
play-IsEnded_from runs (x ∷ xs) ys s (turns now ∷ es) r h e w late le =
    let list = xs ++ create_task terminate ∷ ys in
    let done = take_first-work s x list now w.0 in
    rw (play, happen, turn-alive s now (x ∷ list) h e)
      (IsEnded-taken _ x xs ys s.taken _ done.2 (
        play-IsEnded_from runs xs ys (take_first s (x ∷ list) now) es
          (λ off. ap is_running done.0 ∙ r off) (ap is_terminated done.0 ∙ h) done.1 w.1 late.1
          (omega (arith, le))))

-- From a list with the task of `shutdown` in it, and a thread that has not ended, whether it was stopped or not, the thread takes all tasks in front of that one, none of which ends it, then that one, and ends. It is there after as many rounds as it takes tasks, whatever else happens in between, before and after, save that a task put to the front while it is not yet stopped would come first: tasks put at the end or dropped, stops and further shutdowns. The tasks behind that one are never taken.
pub play-shutdown :
    (xs ys : List Task) (s : Server) (es : List Event)
    → is_terminated s.dispatcher.thread_state ≡ false
    → s.dispatcher.task_list ≡ xs ++ create_task terminate ∷ ys
    → All IsWork xs
    → All (IsLate (is_running s.dispatcher.thread_state)) es
    → suc (length xs) ≤ rounds es
    → IsEnded (play s es) xs ys s.taken
play-shutdown xs ys s es h e w late le =
    play-IsEnded_from (is_running s.dispatcher.thread_state) xs ys s es (λ off. off) h e w late le
