-- ===== src/Tasks/Scheduler/Early.antt =====
-- No event runs before its time.
use tib.Common.{
  ℕ, ◌≤◌, ◌≡◌, refl, Bool, true, false, not, ◌&&◌, ◌||◌, List, [], ◌∷◌, All, arith, leb, contains,
  Bool-cases, inl, inr,
}
use tib.Tasks.Scheduler.{
  is_running, SchedulerTask, Scheduler, with_id, enqueue, add_event, stop_event, stop, shutdown,
  on_timeout,
}
use tib.Tasks.Scheduler.Threads.{
  Phase, awake, waiting, waiting_until, broken, World, Pops, here, there, Top, after_timeout, Step,
  adds, stops, closes, shuts, waits, waits_until, wakes, times_out, pops_nothing, Run, done, more,
  started,
}

abbrev any_due : ℕ → List SchedulerTask → Bool
any_due time [] = false
any_due time (task ∷ list) = leb task.expiration time || any_due time list

abbrev is_nil : List SchedulerTask → Bool
is_nil [] = true
is_nil (task ∷ list) = false

-- While the thread waits until a time, some task is due by then, or all were deleted.
abbrev IsAwaited : Phase → Scheduler → Type 0
IsAwaited awake s = Unit
IsAwaited waiting s = Unit
IsAwaited broken s = Unit
IsAwaited (waiting_until time) s =
    any_due time s.event_list || not (is_running s.thread_state) && is_nil s.event_list ≡ true

abbrev IsPunctual : World → Type 0
IsPunctual w = All (λ h. h.due ≤ h.at) w.handed × IsAwaited w.phase w.scheduler

-- A popped task is due when some task is.
any_due-popped :
    (time : ℕ) (task : SchedulerTask) (list : List SchedulerTask)
    → All (λ other. task.expiration ≤ other.expiration) list
    → any_due time list ≡ true
    → task.expiration ≤ time
any_due-popped time task [] least due = cc
any_due-popped time task (other ∷ list) least due = elim (Bool-cases (leb other.expiration time)) [
  | inl soon ↦ ground (arith, soon, least.0)
  | inr late ↦ any_due-popped time task list least.1 (rw late at due)
]

any_due-here :
    (task : SchedulerTask) (list rest : List SchedulerTask)
    → Pops task list rest
    → any_due task.expiration list ≡ true
any_due-here task [] rest p = elim p [ ]
any_due-here task (_ ∷ _) rest here = ground arith
any_due-here task (other ∷ list) (_ ∷ rest) (there p) =
    ground (arith, any_due-here task list rest p)

Pops-is_nil :
    (task : SchedulerTask) (list rest : List SchedulerTask)
    → Pops task list rest
    → is_nil list ≡ false
Pops-is_nil task [] rest p = elim p [ ]
Pops-is_nil task (_ ∷ _) rest here = refl
Pops-is_nil task (_ ∷ _) (_ ∷ _) (there p) = refl

add_event-IsAwaited :
    (phase : Phase) (s : Scheduler) (task : SchedulerTask)
    → IsAwaited phase s
    → IsAwaited phase (add_event s task).1
unfolding add_event with_id enqueue is_running
add_event-IsAwaited awake s task h = tt
add_event-IsAwaited waiting s task h = tt
add_event-IsAwaited broken s task h = tt
add_event-IsAwaited (waiting_until time) s task h = ground (arith, h)

stop_event-IsAwaited :
    (phase : Phase) (s : Scheduler) (id : ℕ)
    → IsAwaited phase s
    → IsAwaited phase (stop_event s id).1
unfolding stop_event
stop_event-IsAwaited awake s id h = tt
stop_event-IsAwaited waiting s id h = tt
stop_event-IsAwaited broken s id h = tt
stop_event-IsAwaited (waiting_until time) s id h = ground (arith, h)

stop-IsAwaited : (phase : Phase) (s : Scheduler) → IsAwaited phase s → IsAwaited phase (stop s)
unfolding stop is_running
stop-IsAwaited awake s h = tt
stop-IsAwaited waiting s h = tt
stop-IsAwaited broken s h = tt
stop-IsAwaited (waiting_until time) s h = ground (arith, h)

shutdown-IsAwaited : (phase : Phase) (s : Scheduler) → IsAwaited phase (shutdown s)
unfolding shutdown is_running
shutdown-IsAwaited awake s = tt
shutdown-IsAwaited waiting s = tt
shutdown-IsAwaited broken s = tt
shutdown-IsAwaited (waiting_until time) s = refl

on_timeout-IsPunctual :
    (time now : ℕ) (w : World) (task : SchedulerTask) (rest : List SchedulerTask)
    → IsPunctual w
    → w.phase ≡ waiting_until time
    → time ≤ now
    → Top task w.scheduler.event_list rest
    → IsPunctual (after_timeout w now task (on_timeout w.scheduler task rest))
unfolding on_timeout
on_timeout-IsPunctual time now w task rest h e le top =
    let awaited = rw e at h.1 in
    let some_due : any_due time w.scheduler.event_list ≡ true =
      ground (arith, awaited, Pops-is_nil task w.scheduler.event_list rest top.pops) in
    let due = any_due-popped time task w.scheduler.event_list top.least some_due in
    elim (Bool-cases (contains task.event_id w.scheduler.event_ids)) [
      | inl active ↦ rw active ((omega (arith, due, le), h.0), tt)
      | inr stopped ↦ rw stopped (h.0, tt)
    ]

Step-IsPunctual : (w v : World) → Step w v → IsPunctual w → IsPunctual v
Step-IsPunctual w v (adds task new) h = (h.0, add_event-IsAwaited w.phase w.scheduler task h.1)
Step-IsPunctual w v (stops id) h = (h.0, stop_event-IsAwaited w.phase w.scheduler id h.1)
Step-IsPunctual w v closes h = (h.0, stop-IsAwaited w.phase w.scheduler h.1)
Step-IsPunctual w v shuts h = (h.0, shutdown-IsAwaited w.phase w.scheduler)
Step-IsPunctual w v (waits e alive empty) h = (h.0, tt)
Step-IsPunctual w v (waits_until task rest e alive top) h =
    (h.0, ground (arith, any_due-here task w.scheduler.event_list rest top.pops))
Step-IsPunctual w v (wakes sound) h = (h.0, tt)
Step-IsPunctual w v (times_out time now task rest e le top) h =
    on_timeout-IsPunctual time now w task rest h e le top
Step-IsPunctual w v (pops_nothing time now e le empty) h = (h.0, tt)

Run-IsPunctual : (w v : World) → Run w v → IsPunctual w → IsPunctual v
Run-IsPunctual w v done h = h
Run-IsPunctual w v (more {v = m} run step) h = Step-IsPunctual m v step (Run-IsPunctual w m run h)

-- However calls of other threads fall between the steps of the thread, no event goes to the
-- dispatcher before the time at which it is due.
pub handed-in_time : (w : World) → Run started w → All (λ h. h.due ≤ h.at) w.handed
handed-in_time w run = (Run-IsPunctual started w run (tt, tt)).0
