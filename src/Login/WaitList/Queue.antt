-- ===== src/Login/WaitList/Queue.antt =====
-- Who waits, before and after a login: no player twice, and nobody is turned away without a slot.
use tib.Common.{
  ℕ, ◌+◌, ◌*◌, ◌≤◌, ◌≡◌, ◌∙◌, refl, sym, ap, inl, inr, Bool, true, false, List, [], ◌∷◌, ◌++◌,
  arith, leb, ◌==◌, if◌then◌else◌, Bool-cases,
}
use tib.Common.Word.{add_u64}
use tib.Login.WaitList.{
  Wait, WaitListInfo, Player, Found, in_priority, in_wait, at_end, cleanup_list, cleanup, find_wait,
  find_priority, find_client, erase_client, delay_client, get_timeout, Login, admitted, refused,
  undefined, login_found, login_new, has_right, has_room, client_login,
}
use tib.Login.WaitList.Slots.{guids, queue}

-- How often a player stands in a list.
abbrev pub count : ℕ → List ℕ → ℕ
count guid [] = 0
count guid (x ∷ xs) = (if x == guid then 1 else 0) + count guid xs

count-append : (guid : ℕ) (xs ys : List ℕ) → count guid (xs ++ ys) ≡ count guid xs + count guid ys
count-append guid [] ys = omega arith
count-append guid (x ∷ xs) ys = omega (arith, count-append guid xs ys)

guids-append : (ps ws : List Wait) → guids (ps ++ ws) ≡ guids ps ++ guids ws
guids-append [] ws = refl
guids-append (p ∷ ps) ws = ap (λ xs. p.player_guid ∷ xs) (guids-append ps ws)

cleanup_list-count :
    (guid time : ℕ) (ws : List Wait)
    → count guid (guids (cleanup_list time ws)) ≤ count guid (guids ws)
unfolding cleanup_list
cleanup_list-count guid time [] = omega arith
cleanup_list-count guid time (w ∷ ws) = ground (arith, cleanup_list-count guid time ws)

erase_client-count :
    (guid other : ℕ) (ws : List Wait)
    → count guid (guids (erase_client other ws)) ≤ count guid (guids ws)
unfolding erase_client
erase_client-count guid other [] = omega arith
erase_client-count guid other (w ∷ ws) = ground (arith, erase_client-count guid other ws)

pub delay_client-guids :
    (guid timeout : ℕ) (ws : List Wait) → guids (delay_client guid timeout ws) ≡ guids ws
unfolding delay_client
delay_client-guids guid timeout [] = refl
delay_client-guids guid timeout (w ∷ ws) = ground (arith, delay_client-guids guid timeout ws)

find_wait-count :
    (ws : List Wait) (guid slot end : ℕ)
    → find_wait ws guid slot ≡ at_end end
    → count guid (guids ws) ≡ 0
unfolding find_wait
find_wait-count [] guid slot end h = refl
find_wait-count (w ∷ ws) guid slot end h = ground (arith, find_wait-count ws guid (slot + 1) end)

pub find_priority-count :
    (ps ws : List Wait) (guid slot end : ℕ)
    → find_priority ps ws guid slot ≡ at_end end
    → count guid (guids ps) + count guid (guids ws) ≡ 0
unfolding find_priority
find_priority-count [] ws guid slot end h = omega (arith, find_wait-count ws guid slot end h)
find_priority-count (p ∷ ps) ws guid slot end h =
    ground (arith, find_priority-count ps ws guid (slot + 1) end)

-- No player waits twice.
abbrev pub IsDistinct : WaitListInfo → Type 0
IsDistinct info = (guid : ℕ) → count guid (queue info) ≤ 1

-- The state of the queue after a login that has a meaning.
abbrev pub After : (WaitListInfo → Type 0) → Login → Type 0
After P (admitted info) = P info
After P (refused info) = P info
After P undefined = Unit {0}

pub After-if :
    (P : WaitListInfo → Type 0) (b : Bool) (x y : Login)
    → After P x
    → After P y
    → After P (if b then x else y)
After-if P true x y h k = h
After-if P false x y h k = k

pub total-count :
    (guid : ℕ) (info : WaitListInfo)
    → count guid (queue info)
      ≡ count guid (guids info.priority_wait_list) + count guid (guids info.wait_list)
total-count guid info = count-append guid (guids info.priority_wait_list) (guids info.wait_list)

cleanup-IsDistinct :
    (info : WaitListInfo) (t1 t2 : ℕ) → IsDistinct info → IsDistinct (cleanup info t1 t2)
unfolding cleanup
cleanup-IsDistinct info t1 t2 d guid = omega (
  arith,
  d guid,
  total-count guid info,
  total-count guid (cleanup info t1 t2),
  cleanup_list-count guid t1 info.priority_wait_list,
  cleanup_list-count guid t2 info.wait_list,
)

delayed-IsDistinct :
    (info other : WaitListInfo)
    → guids other.priority_wait_list ≡ guids info.priority_wait_list
    → guids other.wait_list ≡ guids info.wait_list
    → IsDistinct info
    → IsDistinct other
delayed-IsDistinct info other e f d guid =
    rw (total-count guid other, e, f, sym (total-count guid info)) (d guid)

login_found-IsDistinct :
    (info : WaitListInfo) (guid : ℕ) (found : Found) (max_players online now : ℕ) (new : Login)
    → IsDistinct info
    → ((end : ℕ) → found ≡ at_end end → After IsDistinct new)
    → After IsDistinct (login_found info guid found max_players online now new)
unfolding login_found
login_found-IsDistinct info guid (in_priority slot) max_players online now new d n =
    elim (Bool-cases (leb (online + slot) max_players)) [
      | inl fits ↦ rw fits tt
      | inr full ↦ rw full (
          delayed-IsDistinct info _
            (delay_client-guids guid (add_u64 now (get_timeout slot * 1000))
              info.priority_wait_list)
            refl d)
    ]
login_found-IsDistinct info guid (in_wait slot) max_players online now new d n =
    elim (Bool-cases (leb (online + slot) max_players)) [
      | inl fits ↦ rw fits (λ other. omega (
        arith,
        d other,
        total-count other info,
        total-count other (record info { wait_list = erase_client guid info.wait_list }),
        erase_client-count other guid info.wait_list,
      ))
      | inr full ↦ rw full (
          delayed-IsDistinct info _ refl
            (delay_client-guids guid (add_u64 now (get_timeout slot * 1000)) info.wait_list) d)
    ]
login_found-IsDistinct info guid (at_end slot) max_players online now new d n = n slot refl

-- A new entry of a player that does not wait yet.
pushed-count :
    (guid other : ℕ) (ws : List Wait) (w : Wait)
    → w.player_guid ≡ guid
    → count other (guids (ws ++ w ∷ [])) ≡ count other (guids ws) + (if guid == other then 1 else 0)
pushed-count guid other ws w e =
    ap (count other) (guids-append ws (w ∷ []))
    ∙ count-append other (guids ws) (guids (w ∷ []))
    ∙ rw e (omega arith)

joined-IsDistinct :
    (info other : WaitListInfo) (guid : ℕ)
    → ((g : ℕ) → count g (queue other) ≡ count g (queue info) + (if guid == g then 1 else 0))
    → count guid (queue info) ≡ 0
    → IsDistinct info
    → IsDistinct other
joined-IsDistinct info other guid more absent d g = elim (Bool-cases (guid == g)) [
  | inl same ↦
      let e : guid ≡ g = ground arith in
      let none_yet : count g (queue info) ≡ 0 = rw (← e) absent in rw (more g, same) (omega arith)
  | inr apart ↦ rw (more g, apart) (omega (arith, d g))
]

pub pushed-queue :
    (info : WaitListInfo) (w : Wait) (g : ℕ)
    → (count g (queue (record info { priority_wait_list = info.priority_wait_list ++ w ∷ [] }))
        ≡ count g (queue info) + (if w.player_guid == g then 1 else 0))
      × (count g (queue (record info { wait_list = info.wait_list ++ w ∷ [] }))
          ≡ count g (queue info) + (if w.player_guid == g then 1 else 0))
pushed-queue info w g = (
  omega (
    arith,
    total-count g info,
    total-count g (record info { priority_wait_list = info.priority_wait_list ++ w ∷ [] }),
    pushed-count w.player_guid g info.priority_wait_list w refl,
  ),
  omega (
    arith,
    total-count g info,
    total-count g (record info { wait_list = info.wait_list ++ w ∷ [] }),
    pushed-count w.player_guid g info.wait_list w refl,
  ),
)

login_new-IsDistinct :
    (info : WaitListInfo) (player : Player) (now : ℕ)
    → IsDistinct info
    → count player.guid (queue info) ≡ 0
    → After IsDistinct (login_new info player now)
unfolding login_new
login_new-IsDistinct info player now d absent = elim (Bool-cases player.is_premium) [
  | inl e ↦ rw e (joined-IsDistinct info _ player.guid (λ g. (pushed-queue info _ g).0) absent d)
  | inr e ↦ rw e (joined-IsDistinct info _ player.guid (λ g. (pushed-queue info _ g).1) absent d)
]

-- No login puts a player into the queue twice, wherever it ends with a meaning.
pub client_login-IsDistinct :
    (info : WaitListInfo) (player : Player) (max_players online t1 t2 t3 : ℕ)
    → IsDistinct info
    → After IsDistinct (client_login info player max_players online t1 t2 t3)
unfolding client_login find_client
client_login-IsDistinct info player max_players online t1 t2 t3 d =
    let clean = cleanup info t1 t2 in
    let tidy = cleanup-IsDistinct info t1 t2 d in
    let search =
      login_found-IsDistinct clean player.guid (find_client clean player.guid) max_players online t3
        (login_new clean player t3) tidy
        (λ end e. login_new-IsDistinct clean player t3 tidy (
          total-count player.guid clean
          ∙ find_priority-count clean.priority_wait_list clean.wait_list player.guid 1 end e)) in
    After-if IsDistinct (has_right player) (admitted info) _ d
      (After-if IsDistinct (has_room info max_players online) (admitted info) _ d search)
