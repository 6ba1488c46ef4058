-- ===== src/Tasks/Scheduler/Numbers.antt =====
-- What each operation does to the numbers of events: which are given, active, and run.
use tib.Common.{
  ℕ, suc, ◌≤◌, ◌<◌, ◌≡◌, ◌⊎◌, true, false, not, ◌&&◌, List, [], ◌∷◌, arith, ◌==◌, if◌then◌else◌,
  contains, Bool-cases, inl, inr,
}
use tib.Common.Word.{u32_mod}
use tib.Tasks.Scheduler.{
  SchedulerTask, Scheduler, next_event_id, insert_id, erase_id, with_id, enqueue, add_event,
  stop_event, shutdown, on_timeout, set_dont_expire,
}
use tib.Tasks.Scheduler.Threads.{Handed, World, after_timeout}

-- How often the event with a number went to the dispatcher.
abbrev pub runs : ℕ → List Handed → ℕ
runs id [] = 0
runs id (h ∷ handed) = if h.id == id then suc (runs id handed) else runs id handed

contains-insert_id :
    (id new : ℕ) (ids : List ℕ)
    → contains id (insert_id new ids) ≡ true
    → (new ≡ id) ⊎ (contains id ids ≡ true)
unfolding insert_id
contains-insert_id id new ids h = ground arith

pub contains-erase_id :
    (id gone : ℕ) (ids : List ℕ)
    → contains id (erase_id gone ids) ≡ not (gone == id) && contains id ids
unfolding erase_id
contains-erase_id id gone [] = ground arith
contains-erase_id id gone (i ∷ ids) = ground (arith, contains-erase_id id gone ids)

-- The numbers are given in order and none is given twice: of a number, that it is at most the last
-- one if it is active or has run, and that it has not run while it is active, and ran once at most.
pub record IsFresh (s : Scheduler) (handed : List Handed) (id : ℕ) : Type 0 where
  pub given : contains id s.event_ids ≡ true → id ≤ s.last_event_id
  pub later : s.last_event_id < id → runs id handed ≡ 0
  pub active : contains id s.event_ids ≡ true → runs id handed ≡ 0
  pub once : runs id handed ≤ 1

-- A stopped event has a number that was given and that is not active.
pub record IsStopped (s : Scheduler) (handed : List Handed) (id : ℕ) : Type 0 where
  pub past : id ≤ s.last_event_id
  pub inactive : contains id s.event_ids ≡ false
  pub never : runs id handed ≡ 0

pub last-add_event :
    (s : Scheduler) (task : SchedulerTask)
    → task.event_id ≡ 0
    → suc s.last_event_id < u32_mod
    → s.last_event_id ≤ (add_event s task).1.last_event_id
      × (add_event s task).1.last_event_id ≤ suc s.last_event_id
unfolding add_event with_id enqueue next_event_id
last-add_event s task new h = ground (arith, new)

pub add_event-IsFresh :
    (s : Scheduler) (handed : List Handed) (task : SchedulerTask) (id : ℕ)
    → task.event_id ≡ 0
    → suc s.last_event_id < u32_mod
    → IsFresh s handed id
    → IsFresh (add_event s task).1 handed id
unfolding add_event with_id enqueue next_event_id insert_id
add_event-IsFresh s handed task id new h f = record {
  given = λ e. ground (arith, f.given);
  later = λ e. ground (arith, f.later);
  active = λ e. ground (arith, f.active, f.later);
  once = f.once;
}

pub add_event-IsStopped :
    (s : Scheduler) (handed : List Handed) (task : SchedulerTask) (id : ℕ)
    → task.event_id ≡ 0
    → suc s.last_event_id < u32_mod
    → IsStopped s handed id
    → IsStopped (add_event s task).1 handed id
unfolding add_event with_id enqueue next_event_id insert_id
add_event-IsStopped s handed task id new h f = record {
  past = ground (arith, f.past);
  inactive = ground (arith, f.inactive, f.past);
  never = f.never;
}

pub stop_event-IsFresh :
    (s : Scheduler) (handed : List Handed) (stopped id : ℕ)
    → IsFresh s handed id
    → IsFresh (stop_event s stopped).1 handed id
unfolding stop_event
stop_event-IsFresh s handed stopped id f = record {
  given = λ e. ground (arith, f.given, contains-erase_id id stopped s.event_ids);
  later = λ e. ground (arith, f.later);
  active = λ e. ground (arith, f.active, contains-erase_id id stopped s.event_ids);
  once = f.once;
}

pub stop_event-IsStopped :
    (s : Scheduler) (handed : List Handed) (stopped id : ℕ)
    → IsStopped s handed id
    → IsStopped (stop_event s stopped).1 handed id
unfolding stop_event
stop_event-IsStopped s handed stopped id f = record {
  past = ground (arith, f.past);
  inactive = ground (arith, f.inactive, contains-erase_id id stopped s.event_ids);
  never = f.never;
}

pub shutdown-IsFresh :
    (s : Scheduler) (handed : List Handed) (id : ℕ)
    → IsFresh s handed id
    → IsFresh (shutdown s) handed id
unfolding shutdown
shutdown-IsFresh s handed id f = record {
  given = λ e. cc;
  later = f.later;
  active = λ e. cc;
  once = f.once;
}

pub on_timeout-IsFresh :
    (w : World) (now id : ℕ) (task : SchedulerTask) (rest : List SchedulerTask)
    → IsFresh w.scheduler w.handed id
    → let v = after_timeout w now task (on_timeout w.scheduler task rest) in
      IsFresh v.scheduler v.handed id
unfolding on_timeout set_dont_expire
on_timeout-IsFresh w now id task rest f =
    elim (Bool-cases (contains task.event_id w.scheduler.event_ids)) [
      | inl active ↦ rw active (record {
        given =
            λ e. ground (arith, f.given, contains-erase_id id task.event_id w.scheduler.event_ids);
        later = λ e. ground (arith, f.later, f.given, active);
        active =
            λ e. ground (arith, f.active, contains-erase_id id task.event_id w.scheduler.event_ids);
        once = ground (arith, f.once, f.active, active);
      })
      | inr stopped ↦
          rw stopped (record { given = f.given; later = f.later; active = f.active; once = f.once })
    ]

pub on_timeout-IsStopped :
    (w : World) (now id : ℕ) (task : SchedulerTask) (rest : List SchedulerTask)
    → IsStopped w.scheduler w.handed id
    → let v = after_timeout w now task (on_timeout w.scheduler task rest) in
      IsStopped v.scheduler v.handed id
unfolding on_timeout set_dont_expire
on_timeout-IsStopped w now id task rest f =
    elim (Bool-cases (contains task.event_id w.scheduler.event_ids)) [
      | inl active ↦ rw active (record {
        past = f.past;
        inactive =
            ground (arith, f.inactive, contains-erase_id id task.event_id w.scheduler.event_ids);
        never = ground (arith, f.never, f.inactive, active);
      })
      | inr stopped ↦ rw stopped (record { past = f.past; inactive = f.inactive; never = f.never })
    ]
