-- ===== src/Net/Server/Listening.antt =====
-- A port listens, or is about to be opened again.
use tib.Common.{
  ℕ, ◌+◌, ◌-◌, ◌<◌, ◌≡◌, ◌∙◌, refl, sym, ap, Bool, true, false, not, List, [], ◌∷◌, ◌++◌, arith,
  Bool-cases, inl, inr,
}
use tib.Net.Server.{
  Service, ServicePort, new_port, accept_next, close_port, schedule_open, Opening, no_acceptor,
  no_option, whole, open_with, open_port, open_acceptor, connected, operation_aborted, failed,
  on_connected, on_accept, any_single, add_service,
}

-- The library ends an accept that waits with a connection or an error, and one that was aborted as
-- aborted; the scheduler runs an opening that is scheduled.
pub data Step (p : ServicePort) : ServicePort → Type 0 where
  connects : p.accepts ≡ true → Step p (on_accept connected p)
  fails : p.accepts ≡ true → Step p (on_accept failed p)
  aborts : 0 < p.aborted → Step p (on_accept operation_aborted p)
  reopens : (opening : Opening) → 0 < p.reopenings → Step p (open_acceptor opening p)
  adds : (s : Service) → Step p (add_service s p).1

-- From a port that was opened and got its service before the library runs.
pub data Run (port : ℕ) (s : Service) : ServicePort → Type 0 where
  opened : (opening : Opening) → Run port s (add_service s (open_port opening port new_port)).1
  more : {p q : ServicePort} → Run port s p → Step p q → Run port s q

abbrev pub has_service : List Service → Bool
has_service [] = false
has_service (s ∷ ss) = true

abbrev pub count_of : Bool → ℕ
count_of true = 1
count_of false = 0

pub record IsListening (p : ServicePort) : Type 0 where
  pub served : has_service p.services ≡ true
  pub either : p.accepts ≡ not p.pending_start
  pub on_open : p.accepts ≡ true → p.is_open ≡ true
  pub once : p.reopenings ≡ count_of p.pending_start

has_service-append : (ss : List Service) (s : Service) → has_service (ss ++ s ∷ []) ≡ true
has_service-append [] s = refl
has_service-append (t ∷ ss) s = refl

not_open : (a o : Bool) → (a ≡ true → o ≡ true) → o ≡ false → a ≡ false
not_open true o h e = sym (h refl) ∙ e
not_open false o h e = refl

open_port-IsListening :
    (opening : Opening) (port : ℕ) (p : ServicePort)
    → has_service p.services ≡ true
    → (p.accepts ≡ true → p.is_open ≡ true)
    → p.reopenings ≡ 0
    → IsListening (open_port opening port p)
unfolding open_port open_with close_port accept_next schedule_open
open_port-IsListening opening port p served same idle = elim (Bool-cases p.is_open) [
  | inl listens ↦ closed opening (rw listens refl) (rw listens refl) (rw listens refl)
  | inr shut ↦
      closed opening (rw shut (not_open p.accepts p.is_open same shut)) (rw shut refl)
        (rw shut refl)
]
  where
    closed :
        (opening : Opening)
        → (close_port p).accepts ≡ false
        → (close_port p).services ≡ p.services
        → (close_port p).reopenings ≡ p.reopenings
        → IsListening (open_port opening port p)
    closed whole no_accept same_services same_count = record {
      served = ap has_service same_services ∙ served;
      either = refl;
      on_open = λ e. refl;
      once = same_count ∙ idle;
    }
    closed no_option no_accept same_services same_count = record {
      served = ap has_service same_services ∙ served;
      either = no_accept;
      on_open = λ e. refl;
      once = ap (λ n. n + 1) (same_count ∙ idle);
    }
    closed no_acceptor no_accept same_services same_count = record {
      served = ap has_service same_services ∙ served;
      either = no_accept;
      on_open = λ e. absurd (never (sym no_accept ∙ e));
      once = ap (λ n. n + 1) (same_count ∙ idle);
    }
      where
        never : false ≡ true → ⊥
        never d = cc

Step-IsListening : (p q : ServicePort) → Step p q → IsListening p → IsListening q
unfolding on_accept close_port schedule_open open_acceptor add_service accept_next
Step-IsListening p q (connects waits) h = served_on p.services refl
  where
    served_on :
        (ss : List Service)
        → p.services ≡ ss
        → IsListening (on_connected ss (record p { accepts = false }))
    served_on [] e = absurd (none_served (sym (ap has_service e) ∙ h.served))
      where
        none_served : false ≡ true → ⊥
        none_served d = cc
    served_on (s ∷ ss) e = record {
      served = h.served;
      either = sym waits ∙ h.either;
      on_open = λ e. h.on_open waits;
      once = h.once;
    }
Step-IsListening p q (fails waits) h =
    let settled : p.pending_start ≡ false = ground (arith, h.either, waits) in
    let listens : p.is_open ≡ true = h.on_open waits in
    rw (settled, listens)
      (record {
        served = h.served;
        either = refl;
        on_open = λ e. cc;
        once = ground (arith, h.once, settled);
      })
Step-IsListening p q (aborts some_aborted) h = record {
  served = h.served;
  either = h.either;
  on_open = h.on_open;
  once = h.once;
}
Step-IsListening p q (reopens opening scheduled) h =
    open_port-IsListening opening p.server_port (record p { reopenings = p.reopenings - 1 })
      h.served h.on_open (one_less p.pending_start h.once)
  where
    one_less : (b : Bool) → p.reopenings ≡ count_of b → p.reopenings - 1 ≡ 0
    one_less true e = ground (arith, e)
    one_less false e = ground (arith, e)
Step-IsListening p q (adds s) h = elim (Bool-cases (any_single p.services)) [
  | inl single ↦ rw single h
  | inr free ↦ rw free (record {
    served = has_service-append p.services s;
    either = h.either;
    on_open = h.on_open;
    once = h.once;
  })
]

opened-IsListening :
    (opening : Opening) (port : ℕ) (s : Service)
    → IsListening (add_service s (open_port opening port new_port)).1
unfolding open_port open_with close_port schedule_open add_service accept_next any_single
opened-IsListening whole port s = record {
  served = refl;
  either = refl;
  on_open = λ e. refl;
  once = refl;
}
opened-IsListening no_option port s = record {
  served = refl;
  either = refl;
  on_open = λ e. refl;
  once = refl;
}
opened-IsListening no_acceptor port s = record {
  served = refl;
  either = refl;
  on_open = λ e. cc;
  once = refl;
}

-- However often accepts end with connections and errors, and openings fail: a port with a service is
-- never deaf. Either an accept waits on its open acceptor and no opening is scheduled, or none waits
-- and exactly one opening is scheduled, so a failing port is not opened twice.
pub Run-IsListening : (port : ℕ) (s : Service) (p : ServicePort) → Run port s p → IsListening p
Run-IsListening port s p (opened opening) = opened-IsListening opening port s
Run-IsListening port s p (more {p = before} run step) =
    Step-IsListening before p step (Run-IsListening port s before run)
