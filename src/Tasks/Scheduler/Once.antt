-- ===== src/Tasks/Scheduler/Once.antt =====
-- An event runs once at most, and not after it was stopped.
use tib.Common.{ℕ, suc, ◌≤◌, ◌<◌, ◌≡◌, refl, true, List, arith, contains, ==_refl}
use tib.Common.Word.{u32_mod}
use tib.Tasks.Scheduler.{SchedulerTask, Scheduler, stop_event, stop, shutdown, on_timeout}
use tib.Tasks.Scheduler.Threads.{
  World, Step, adds, stops, closes, shuts, waits, waits_until, wakes, times_out, pops_nothing, Run,
  done, more, started,
}
use tib.Tasks.Scheduler.Numbers.{
  runs, IsFresh, IsStopped, contains-erase_id, last-add_event, add_event-IsFresh,
  add_event-IsStopped, stop_event-IsFresh, stop_event-IsStopped, shutdown-IsFresh,
  on_timeout-IsFresh, on_timeout-IsStopped,
}

-- No number has wrapped around: no more were given than events were added.
record IsInOrder (w : World) : Type 0 where
  few : w.scheduler.last_event_id ≤ w.added
  fresh : (id : ℕ) → IsFresh w.scheduler w.handed id

added-Step : (w v : World) → Step w v → w.added ≤ v.added
added-Step w v (adds task new) = omega arith
added-Step w v (stops id) = omega arith
added-Step w v closes = omega arith
added-Step w v shuts = omega arith
added-Step w v (waits e alive empty) = omega arith
added-Step w v (waits_until task rest e alive top) = omega arith
added-Step w v (wakes sound) = omega arith
added-Step w v (times_out time now task rest e le top) = omega arith
added-Step w v (pops_nothing time now e le empty) = omega arith

on_timeout-last :
    (s : Scheduler) (task : SchedulerTask) (rest : List SchedulerTask)
    → (on_timeout s task rest).1.last_event_id ≡ s.last_event_id
unfolding on_timeout
on_timeout-last s task rest = ground arith

stop_event-last : (s : Scheduler) (id : ℕ) → (stop_event s id).1.last_event_id ≡ s.last_event_id
unfolding stop_event
stop_event-last s id = ground arith

Step-IsInOrder : (w v : World) → Step w v → v.added < u32_mod → IsInOrder w → IsInOrder v
unfolding stop shutdown
Step-IsInOrder w v (adds task new) h o =
    let room : suc w.scheduler.last_event_id < u32_mod = omega (arith, h, o.few) in
    record {
      few = omega (arith, o.few, (last-add_event w.scheduler task new room).1);
      fresh = λ id. add_event-IsFresh w.scheduler w.handed task id new room (o.fresh id);
    }
Step-IsInOrder w v (stops id) h o = record {
  few = omega (arith, o.few, stop_event-last w.scheduler id);
  fresh = λ other. stop_event-IsFresh w.scheduler w.handed id other (o.fresh other);
}
Step-IsInOrder w v closes h o = record {
  few = o.few;
  fresh = λ id.
      let f = o.fresh id in
      record { given = f.given; later = f.later; active = f.active; once = f.once };
}
Step-IsInOrder w v shuts h o = record {
  few = o.few;
  fresh = λ id. shutdown-IsFresh w.scheduler w.handed id (o.fresh id);
}
Step-IsInOrder w v (waits e alive empty) h o = record { few = o.few; fresh = o.fresh }
Step-IsInOrder w v (waits_until task rest e alive top) h o = record { few = o.few; fresh = o.fresh }
Step-IsInOrder w v (wakes sound) h o = record { few = o.few; fresh = o.fresh }
Step-IsInOrder w v (times_out time now task rest e le top) h o = record {
  few = omega (arith, o.few, on_timeout-last w.scheduler task rest);
  fresh = λ id. on_timeout-IsFresh w now id task rest (o.fresh id);
}
Step-IsInOrder w v (pops_nothing time now e le empty) h o = record { few = o.few; fresh = o.fresh }

Run-IsInOrder : (w v : World) → Run w v → v.added < u32_mod → IsInOrder w → IsInOrder v
Run-IsInOrder w v done h o = o
Run-IsInOrder w v (more {v = m} run step) h o =
    let before : m.added < u32_mod = omega (arith, h, added-Step m v step) in
    Step-IsInOrder m v step h (Run-IsInOrder w m run before o)

started-IsInOrder : IsInOrder started
started-IsInOrder = record {
  few = omega arith;
  fresh = λ id. record { given = λ e. cc; later = λ e. refl; active = λ e. cc; once = omega arith };
}

-- As long as fewer than 2 ^ 32 events were added, every event went to the dispatcher at most once, however the calls of other threads fall.
pub runs-once : (w : World) (id : ℕ) → Run started w → w.added < u32_mod → runs id w.handed ≤ 1
runs-once w id run h = ((Run-IsInOrder started w run h started-IsInOrder).fresh id).once

Step-IsStopped :
    (w v : World) (id : ℕ)
    → Step w v
    → v.added < u32_mod
    → w.scheduler.last_event_id ≤ w.added
    → IsStopped w.scheduler w.handed id
    → IsStopped v.scheduler v.handed id
unfolding stop shutdown
Step-IsStopped w v id (adds task new) h few f =
    let room : suc w.scheduler.last_event_id < u32_mod = omega (arith, h, few) in
    add_event-IsStopped w.scheduler w.handed task id new room f
Step-IsStopped w v id (stops other) h few f = stop_event-IsStopped w.scheduler w.handed other id f
Step-IsStopped w v id closes h few f = record {
  past = f.past;
  inactive = f.inactive;
  never = f.never;
}
Step-IsStopped w v id shuts h few f = record { past = f.past; inactive = refl; never = f.never }
Step-IsStopped w v id (waits e alive empty) h few f = f
Step-IsStopped w v id (waits_until task rest e alive top) h few f = f
Step-IsStopped w v id (wakes sound) h few f = f
Step-IsStopped w v id (times_out time now task rest e le top) h few f =
    on_timeout-IsStopped w now id task rest f
Step-IsStopped w v id (pops_nothing time now e le empty) h few f = f

Run-IsStopped :
    (w v : World) (id : ℕ)
    → Run w v
    → v.added < u32_mod
    → IsInOrder w
    → IsStopped w.scheduler w.handed id
    → IsStopped v.scheduler v.handed id
Run-IsStopped w v id done h o f = f
Run-IsStopped w v id (more {v = m} run step) h o f =
    let before : m.added < u32_mod = omega (arith, h, added-Step m v step) in
    Step-IsStopped m v id step h (Run-IsInOrder w m run before o).few
      (Run-IsStopped w m id run before o f)

-- What it takes for `stopEvent` to answer true: the event is active, and then it is not.
stop_event-success :
    (w : World) (id : ℕ)
    → IsInOrder w
    → (stop_event w.scheduler id).0 ≡ true
    → IsStopped (stop_event w.scheduler id).1 w.handed id
unfolding stop_event
stop_event-success w id o e =
    let f = o.fresh id in
    let active : contains id w.scheduler.event_ids ≡ true = ground (arith, e) in
    record {
      past = ground (arith, f.given active);
      inactive = ground (arith, e, contains-erase_id id id w.scheduler.event_ids, ==_refl id);
      never = f.active active;
    }

added-Run : (w v : World) → Run w v → w.added ≤ v.added
added-Run w v done = omega arith
added-Run w v (more {v = m} run step) = omega (arith, added-Run w m run, added-Step m v step)

-- An event for which `stopEvent` answered true never goes to the dispatcher, before the call or after it, however the calls of other threads fall, as long as fewer than 2 ^ 32 events were added.
pub stop_event-runs :
    (w v : World) (id : ℕ)
    → Run started w
    → (stop_event w.scheduler id).0 ≡ true
    → Run (record w { scheduler = (stop_event w.scheduler id).1 }) v
    → v.added < u32_mod
    → runs id v.handed ≡ 0
stop_event-runs w v id run e later h =
    let stopped : World = record w { scheduler = (stop_event w.scheduler id).1 } in
    let before : w.added < u32_mod = omega (arith, h, added-Run stopped v later) in
    let o = Run-IsInOrder started w run before started-IsInOrder in
    let o' = Step-IsInOrder w stopped (stops id) before o in
    (Run-IsStopped stopped v id later h o' (stop_event-success w id o e)).never
