-- ===== src/Net/Throttle.antt =====
-- src/ban.h and src/ban.cpp: `Ban::acceptConnection`, the throttle on connection attempts of one
-- address. `OTSYS_TIME()` is an argument; times are `uint64_t` in milliseconds.
pub mod Flood
pub mod Entries
mod Examples
use tib.Common.{
  ℕ, ◌+◌, Bool, true, false, List, [], ◌∷◌, Option, none, some, ltb, leb, if◌then◌else◌,
}
use tib.Common.Assoc.{lookup, insert}
use tib.Common.Word.{u32_mod, add_u32, add_u64, sub_u64, le_i64}

pub record ConnectBlock : Type 0 where
  pub last_attempt : ℕ
  pub block_time : ℕ
  pub count : ℕ

abbrev pub IpConnectMap : Type 0
IpConnectMap = List (ℕ × ConnectBlock)

-- The count of an attempt within five seconds of the last one.
pub count_attempt : ConnectBlock → ℕ → ℕ → ConnectBlock × Bool
count_attempt b now diff =
    let count = add_u32 b.count 1 in
    if ltb 5 count
    then (if le_i64 diff 500
        then (record { last_attempt = now; block_time = add_u64 now 3000; count = 0 }, false)
        else (record { last_attempt = now; block_time = b.block_time; count = 0 }, true))
    else (record { last_attempt = now; block_time = b.block_time; count = count }, true)

-- An attempt of an address that has an entry.
pub attempt : ConnectBlock → ℕ → ConnectBlock × Bool
unfolding count_attempt
attempt b now =
    let diff = sub_u64 now b.last_attempt in
    if ltb now b.block_time
    then (record b { block_time = add_u64 b.block_time 250 }, false)
    else if le_i64 diff 5000
    then count_attempt b now diff
    else (record { last_attempt = now; block_time = b.block_time; count = 1 }, true)

abbrev fresh_block : ℕ → ConnectBlock
fresh_block now = record { last_attempt = now; block_time = 0; count = 1 }

attempt_found : IpConnectMap → ℕ → ℕ → Option ConnectBlock → IpConnectMap × Bool
unfolding attempt
attempt_found m ip now none = (insert ip (fresh_block now) m, true)
attempt_found m ip now (some b) = let (b', answer) = attempt b now in (insert ip b' m, answer)

pub accept_connection : IpConnectMap → ℕ → ℕ → IpConnectMap × Bool
unfolding attempt_found
accept_connection m ip now = attempt_found m ip now (lookup ip m)

-- The answers to a sequence of attempts of one address.
pub accept_all : IpConnectMap → ℕ → List ℕ → IpConnectMap × List Bool
accept_all m ip [] = (m, [])
accept_all m ip (now ∷ later) =
    let (m', answer) = accept_connection m ip now in
    let (m'', answers) = accept_all m' ip later in (m'', answer ∷ answers)
