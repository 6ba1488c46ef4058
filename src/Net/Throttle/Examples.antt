-- ===== src/Net/Throttle/Examples.antt =====
-- Runs of the throttle, and its theorems at concrete inputs.
use tib.Common.{ℕ, ◌≡◌, refl, true, false, List, [], ◌∷◌, some, arith}
use tib.Common.Assoc.{lookup, insert}
use tib.Net.Throttle.{ConnectBlock, accept_connection, accept_all}
use tib.Net.Throttle.Flood.{quota, all_pass, patient_block, accept_all-flood, accept_all-patient}
use tib.Net.Throttle.Entries.{IsCounted, accept_connection-IsCounted}

abbrev tries : List ℕ
tries = 1100 ∷ 1200 ∷ 1300 ∷ 1400 ∷ 1500 ∷ 1600 ∷ 1850 ∷ []

abbrev seen : ConnectBlock
seen = record { last_attempt = 1000; block_time = 0; count = 4 }

flood_run :
    (accept_all [] 7 (1000 ∷ tries)).1
    ≡ true ∷ true ∷ true ∷ true ∷ true ∷ false ∷ false ∷ false ∷ []
unfolding accept_all accept_connection lookup insert
flood_run = refl

accept_all-flood_example : (accept_all [] 7 (1000 ∷ tries)).1 ≡ quota 5 (1000 ∷ tries)
unfolding lookup
accept_all-flood_example = accept_all-flood [] 7 1000 tries refl (omega arith) (omega arith)

-- Its block ran out at 9000, after its last try.
abbrev blocked : ConnectBlock
blocked = record { last_attempt = 1000; block_time = 9000; count = 4 }

accept_all-patient_example :
    ((accept_all ((7, blocked) ∷ []) 7 (9000 ∷ 15000 ∷ [])).1 ≡ all_pass (9000 ∷ 15000 ∷ []))
    × (lookup 7 (accept_all ((7, blocked) ∷ []) 7 (9000 ∷ 15000 ∷ [])).0
        ≡ some (patient_block 9000 9000 (15000 ∷ [])))
unfolding lookup
accept_all-patient_example =
    accept_all-patient ((7, blocked) ∷ []) 7 9000 (15000 ∷ []) blocked refl (omega arith)
      (omega arith) (omega arith) (omega arith)

seen-IsCounted : IsCounted ((7, seen) ∷ [])
unfolding lookup
seen-IsCounted ip b e = ground arith

accept_connection-IsCounted_example : IsCounted (accept_connection ((7, seen) ∷ []) 7 1100).0
accept_connection-IsCounted_example =
    accept_connection-IsCounted ((7, seen) ∷ []) 7 1100 seen-IsCounted
