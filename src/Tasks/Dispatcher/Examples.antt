-- ===== src/Tasks/Dispatcher/Examples.antt =====
-- Runs of the dispatcher, and its theorems at concrete inputs.
use tib.Common.{ℕ, ◌≡◌, refl, true, false, List, [], ◌∷◌, ◌++◌, arith}
use tib.Tasks.Scheduler.{running}
use tib.Tasks.Dispatcher.{
  work, terminate, Task, create_task, Server, stop_alive, Event, adds, stops, shuts, turns, play,
}
use tib.Tasks.Dispatcher.Order.{play-queued}
use tib.Tasks.Dispatcher.Ending.{IsEnded, play-shutdown}

abbrev task : ℕ → Task
task n = record { expiration = 0; func = work n }

abbrev end_task : Task
end_task = record { expiration = 0; func = terminate }

abbrev server : List Task → Server
server list = record {
  dispatcher = record { thread_state = running; task_list = list; dispatcher_cycle = 0 };
  taken = [];
}

-- The task that goes to the front is taken first.
front_run : (play (server (task 1 ∷ [])) (adds (task 2) true ∷ turns 5 ∷ [])).taken ≡ task 2 ∷ []
unfolding play
front_run = refl

-- A task that expired at 4 is taken at 5 without being called.
expired_run :
    play (server (record { expiration = 4; func = work 1 } ∷ [])) (turns 5 ∷ []) ≡ record {
      dispatcher = record { thread_state = running; task_list = []; dispatcher_cycle = 0 };
      taken = record { expiration = 4; func = work 1 } ∷ [];
    }
unfolding play
expired_run = refl

abbrev some_events : List Event
some_events = adds (task 2) false ∷ turns 5 ∷ adds (task 3) false ∷ []

play-queued_example :
    (play (server (task 1 ∷ [])) some_events).taken
      ++ (play (server (task 1 ∷ [])) some_events).dispatcher.task_list
    ≡ task 1 ∷ task 2 ∷ task 3 ∷ []
play-queued_example =
    play-queued (server (task 1 ∷ [])) some_events (record { state = refl; all_work = (refl, tt) })
      (refl, (tt, (refl, tt)))

-- The server stops the dispatcher and then shuts it down while two tasks wait: a task that comes after
-- the stop is dropped.
abbrev stopped : Server
stopped = play (server (task 1 ∷ task 2 ∷ [])) (stops ∷ adds (task 3) true ∷ shuts ∷ [])

abbrev last_events : List Event
last_events = turns 5 ∷ adds (task 4) true ∷ turns 6 ∷ turns 7 ∷ adds (task 5) false ∷ turns 8 ∷ []

play-shutdown_example : IsEnded (play stopped last_events) (task 1 ∷ task 2 ∷ []) [] []
unfolding play create_task stop_alive
play-shutdown_example =
    play-shutdown (task 1 ∷ task 2 ∷ []) [] stopped last_events refl refl (refl, (refl, tt))
      (tt, (refl, (tt, (tt, (tt, (tt, tt)))))) (omega arith)
