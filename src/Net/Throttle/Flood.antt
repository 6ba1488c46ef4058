-- ===== src/Net/Throttle/Flood.antt =====
-- What the throttle does to a sequence of attempts: floods, patient clients, and other addresses.
use tib.Common.{
  ℕ, zero, suc, ◌+◌, ◌*◌, ◌^◌, ◌≤◌, ◌<◌, ◌≡◌, ◌∙◌, refl, ap, Bool, true, false, List, [], ◌∷◌,
  Option, none, some, arith, length,
}
use tib.Common.Assoc.{lookup, insert, lookup-insert_self}
use tib.Common.Word.{u64_mod}
use tib.Net.Throttle.{
  ConnectBlock, IpConnectMap, count_attempt, attempt, attempt_found, fresh_block, accept_connection,
  accept_all,
}

-- Each time is at most `gap` after the one before it.
abbrev pub Close : ℕ → ℕ → List ℕ → Type 0
Close gap prev [] = Unit {0}
Close gap prev (t ∷ ts) = (prev ≤ t) × (t ≤ prev + gap) × Close gap t ts

-- Each time is more than `gap` after the one before it.
abbrev pub Apart : ℕ → ℕ → List ℕ → Type 0
Apart gap prev [] = Unit {0}
Apart gap prev (t ∷ ts) = (prev + gap < t) × Apart gap t ts

-- Every time, and the pushes of a block that runs beside it, stay far below the top of the clock.
abbrev pub Early : List ℕ → Type 0
Early [] = Unit {0}
Early (t ∷ ts) = (t + 250 * length ts + 4000 < 2 ^ 63) × Early ts

-- The first `n` attempts pass, and no later one.
abbrev pub quota : ℕ → List ℕ → List Bool
quota n [] = []
quota zero (t ∷ ts) = false ∷ quota zero ts
quota (suc n) (t ∷ ts) = true ∷ quota n ts

abbrev pub all_pass : List ℕ → List Bool
all_pass [] = []
all_pass (t ∷ ts) = true ∷ all_pass ts

accept_found :
    (m : IpConnectMap) (ip now : ℕ) (b : ConnectBlock)
    → lookup ip m ≡ some b
    → accept_connection m ip now ≡ (insert ip (attempt b now).0 m, (attempt b now).1)
unfolding accept_connection attempt_found
accept_found m ip now b e = rw (e, attempt_found)

-- One answer of `accept_all`, where the address has an entry.
accept_all-cons :
    (m : IpConnectMap) (ip now : ℕ) (ts : List ℕ) (b : ConnectBlock) (rest : List Bool)
    → lookup ip m ≡ some b
    → (accept_all (insert ip (attempt b now).0 m) ip ts).1 ≡ rest
    → (accept_all m ip (now ∷ ts)).1 ≡ (attempt b now).1 ∷ rest
unfolding accept_all
accept_all-cons m ip now ts b rest e h = rw (accept_found m ip now b e, h)

attempt_blocked :
    (b : ConnectBlock) (now : ℕ)
    → now < b.block_time
    → b.block_time + 250 < u64_mod
    → ((attempt b now).1 ≡ false) × ((attempt b now).0.block_time ≡ b.block_time + 250)
unfolding attempt
attempt_blocked b now h k = ground arith

blocked_quota :
    (m : IpConnectMap) (ip prev : ℕ) (ts : List ℕ) (b : ConnectBlock)
    → lookup ip m ≡ some b
    → prev + 250 < b.block_time
    → b.block_time + 250 * length ts < u64_mod
    → Close 250 prev ts
    → (accept_all m ip ts).1 ≡ quota zero ts
unfolding accept_all
blocked_quota m ip prev [] b e h top c = refl
blocked_quota m ip prev (t ∷ ts) b e h top c =
    let (refused, pushed) = attempt_blocked b t (omega arith) (omega arith) in
    accept_all-cons m ip t ts b (quota zero ts) e (
      blocked_quota (insert ip (attempt b t).0 m) ip t ts (attempt b t).0
        (lookup-insert_self ip _ m) (omega arith) (omega arith) c.2)
    ∙ ap (λ a. a ∷ quota zero ts) refused

-- A close attempt before the sixth passes and is counted.
attempt_counted :
    (b : ConnectBlock) (now : ℕ)
    → b.block_time ≤ now
    → b.last_attempt ≤ now
    → now ≤ b.last_attempt + 250
    → now < 2 ^ 63
    → b.count < 5
    → attempt b now
      ≡ (record { last_attempt = now; block_time = b.block_time; count = b.count + 1 }, true)
unfolding attempt count_attempt
attempt_counted b now h k l top c = ground arith

attempt_sixth :
    (b : ConnectBlock) (now : ℕ)
    → b.block_time ≤ now
    → b.last_attempt ≤ now
    → now ≤ b.last_attempt + 250
    → now + 3000 < 2 ^ 63
    → b.count ≡ 5
    → attempt b now ≡ (record { last_attempt = now; block_time = now + 3000; count = 0 }, false)
unfolding attempt count_attempt
attempt_sixth b now h k l top c = ground arith

counted_quota :
    (left : ℕ) (m : IpConnectMap) (ip : ℕ) (ts : List ℕ) (b : ConnectBlock)
    → lookup ip m ≡ some b
    → b.block_time ≡ 0
    → b.count + left ≡ 5
    → Early ts
    → Close 250 b.last_attempt ts
    → (accept_all m ip ts).1 ≡ quota left ts
unfolding accept_all
counted_quota left m ip [] b e z c early close = refl
counted_quota zero m ip (t ∷ ts) b e z c early close =
    let hit = attempt_sixth b t (omega arith) close.0 close.1 (omega arith) (omega arith) in
    accept_all-cons m ip t ts b (quota zero ts) e (
      blocked_quota (insert ip (attempt b t).0 m) ip t ts (attempt b t).0
        (lookup-insert_self ip _ m) (rw hit (omega arith)) (rw hit (omega arith)) close.2)
    ∙ ap (λ (r : ConnectBlock × Bool). r.1 ∷ quota zero ts) hit
counted_quota (suc left) m ip (t ∷ ts) b e z c early close =
    let pass = attempt_counted b t (omega arith) close.0 close.1 (omega arith) (omega arith) in
    accept_all-cons m ip t ts b (quota left ts) e (
      counted_quota left (insert ip (attempt b t).0 m) ip ts (attempt b t).0
        (lookup-insert_self ip _ m) (rw pass z) (rw pass (omega arith)) early.1 (rw pass close.2))
    ∙ ap (λ (r : ConnectBlock × Bool). r.1 ∷ quota left ts) pass

-- An address with no entry that tries again and again, each time at most 250 ms after the last
-- try, is let in five times and never again, as long as the clock is far from its top.
pub accept_all-flood :
    (m : IpConnectMap) (ip first : ℕ) (ts : List ℕ)
    → lookup ip m ≡ none
    → Early ts
    → Close 250 first ts
    → (accept_all m ip (first ∷ ts)).1 ≡ quota 5 (first ∷ ts)
unfolding accept_all accept_connection attempt_found
accept_all-flood m ip first ts e early close =
    rw (e, attempt_found)
      (ap (λ r. true ∷ r)
        (counted_quota 4 _ ip ts (fresh_block first) (lookup-insert_self ip _ m) refl refl early
          close))

-- After a longer break an attempt passes, and the count starts anew.
attempt_patient :
    (b : ConnectBlock) (now : ℕ)
    → b.block_time ≤ now
    → b.last_attempt + 5000 < now
    → now < 2 ^ 63
    → attempt b now ≡ (record { last_attempt = now; block_time = b.block_time; count = 1 }, true)
unfolding attempt
attempt_patient b now h l top = ground arith

-- The entry of an address in the table after a run.
accept_all-last :
    (m : IpConnectMap) (ip now : ℕ) (ts : List ℕ) (b : ConnectBlock) (o : Option ConnectBlock)
    → lookup ip m ≡ some b
    → lookup ip (accept_all (insert ip (attempt b now).0 m) ip ts).0 ≡ o
    → lookup ip (accept_all m ip (now ∷ ts)).0 ≡ o
unfolding accept_all
accept_all-last m ip now ts b o e h = rw (accept_found m ip now b e) h

-- What the table holds of an address whose tries were each counted anew.
abbrev pub patient_block : ℕ → ℕ → List ℕ → ConnectBlock
patient_block block now [] = record { last_attempt = now; block_time = block; count = 1 }
patient_block block now (t ∷ ts) = patient_block block t ts

-- An address with an entry, whose block, if it had one, is over at the first of its tries, and that
-- leaves more than five seconds before each of them, is let in at every try, and after the last one
-- its entry counts one try, whatever it counted before, as long as the clock is far from its top.
pub accept_all-patient :
    (m : IpConnectMap) (ip first : ℕ) (ts : List ℕ) (b : ConnectBlock)
    → lookup ip m ≡ some b
    → b.block_time ≤ first
    → b.last_attempt + 5000 < first
    → Early (first ∷ ts)
    → Apart 5000 first ts
    → ((accept_all m ip (first ∷ ts)).1 ≡ all_pass (first ∷ ts))
      × (lookup ip (accept_all m ip (first ∷ ts)).0 ≡ some (patient_block b.block_time first ts))
unfolding accept_all
accept_all-patient m ip first [] b e over gap early apart =
    let pass = attempt_patient b first over gap (omega arith) in
    let next = insert ip (attempt b first).0 m in
    (
      accept_all-cons m ip first [] b [] e refl ∙ ap (λ (r : ConnectBlock × Bool). r.1 ∷ []) pass,
      accept_all-last m ip first [] b _ e
          (lookup-insert_self ip _ m ∙ ap (λ (r : ConnectBlock × Bool). some r.0) pass),
    )
accept_all-patient m ip first (t ∷ ts) b e over gap early apart =
    let pass = attempt_patient b first over gap (omega arith) in
    let (answers, last) =
      accept_all-patient (insert ip (attempt b first).0 m) ip t ts (attempt b first).0
        (lookup-insert_self ip _ m) (rw pass (omega arith)) (rw pass apart.0) early.1 apart.1 in
    (
      accept_all-cons m ip first (t ∷ ts) b (all_pass (t ∷ ts)) e answers
          ∙ ap (λ (r : ConnectBlock × Bool). r.1 ∷ all_pass (t ∷ ts)) pass,
      accept_all-last m ip first (t ∷ ts) b _ e last
          ∙ ap (λ (r : ConnectBlock × Bool). some (patient_block r.0.block_time t ts)) pass,
    )
