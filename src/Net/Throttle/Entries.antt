-- ===== src/Net/Throttle/Entries.antt =====
-- What one attempt does to the table of entries.
use tib.Common.{ℕ, ◌≤◌, ◌≡◌, ◌≢◌, inl, inr, some, arith, Option-cases}
use tib.Common.Assoc.{lookup, insert, lookup-insert, lookup-insert_ne}
use tib.Net.Throttle.{
  ConnectBlock, IpConnectMap, count_attempt, attempt, attempt_found, accept_connection,
}

-- No address is counted past five.
abbrev pub IsCounted : IpConnectMap → Type 0
IsCounted m = (ip : ℕ) (b : ConnectBlock) → lookup ip m ≡ some b → b.count ≤ 5

attempt_count : (b : ConnectBlock) (now : ℕ) → b.count ≤ 5 → (attempt b now).0.count ≤ 5
unfolding attempt count_attempt
attempt_count b now h = ground arith

insert-IsCounted :
    (m : IpConnectMap) (ip : ℕ) (b : ConnectBlock)
    → IsCounted m
    → b.count ≤ 5
    → IsCounted (insert ip b m)
insert-IsCounted m ip b inv h j c e = ground (arith, lookup-insert ip j b m, inv j c)

-- After any attempt every address is still counted to five at most.
pub accept_connection-IsCounted :
    (m : IpConnectMap) (ip now : ℕ) → IsCounted m → IsCounted (accept_connection m ip now).0
unfolding accept_connection attempt_found
accept_connection-IsCounted m ip now inv = elim (Option-cases (lookup ip m)) [
  | inl e ↦ rw (e, attempt_found) (insert-IsCounted m ip _ inv (omega arith))
  | inr (b, e) ↦
      rw (e, attempt_found) (insert-IsCounted m ip _ inv (attempt_count b now (inv ip b e)))
]

-- An attempt of one address leaves the entry of every other address as it is.
pub accept_connection-other :
    (m : IpConnectMap) (ip other now : ℕ)
    → ip ≢ other
    → lookup other (accept_connection m ip now).0 ≡ lookup other m
unfolding accept_connection attempt_found
accept_connection-other m ip other now h = elim (Option-cases (lookup ip m)) [
  | inl e ↦ rw (e, attempt_found) (lookup-insert_ne ip other _ m h)
  | inr (b, e) ↦ rw (e, attempt_found) (lookup-insert_ne ip other _ m h)
]
