-- ===== src/Tests/Accept.antt =====
-- Examples for accept_controller.c.
use lamseryn.Prelude.{true, false, none, some, List, [], ◌∷◌, ◌≡◌, refl, codes, arith}
use lamseryn.Accept.{Ring, RingEvent, Listener}
use lamseryn.Accept.Handlers.{
  Elsewhere, Cqe, refused, emfile, accept_handle_cqe, accept_handle_backoff, accept_enter_drain,
}
use lamseryn.Accept.Listeners.{Vhost, ListenOptions, accept_arm_startup, accept_setup_listeners}
use lamseryn.Accept.Moves.{System, Steps, completed, timer_fired, drain_begun, here, next, started}
use lamseryn.Accept.Resume.{Resumes, pressure-Resumes}
use lamseryn.Accept.Drain.{Silent, draining-Silent}
use lamseryn.Accept.Opening.{IsTidy, accept_setup_listeners-IsTidy}

abbrev granting : List RingEvent → Ring
granting out = record {
  need_submit = false;
  sqes_pending = 0;
  grants = true ∷ true ∷ true ∷ true ∷ [];
  spaces = [];
  out = out;
}

abbrev one_listener : List Listener
one_listener = record { fd = 3; op = none } ∷ []

abbrev no_files : Cqe
no_files = record { res = refused emfile; more = false }

abbrev no_other : Elsewhere
no_other = record { backoff = none; served = λ cfd r. r }

-- A worker that ran out of descriptors.
abbrev paused_system : System
paused_system = record {
  worker = accept_handle_cqe no_other (started one_listener (granting [])).worker 3 no_files;
  fired = 0;
}

pausing : Steps (started one_listener (granting [])) paused_system
pausing = next here (completed no_other 3 no_files (λ cfd r. (refl, refl)) refl)

pressure-Resumes_example : Resumes paused_system (granting [])
unfolding accept_handle_cqe accept_arm_startup
pressure-Resumes_example =
    pressure-Resumes one_listener (granting []) paused_system (granting []) pausing refl refl
      (true ∷ true ∷ true ∷ [], refl, tt)

-- It drains while its timer is outstanding, which then completes.
abbrev drained_system : System
drained_system = record { worker = accept_enter_drain paused_system.worker; fired = 0 }

abbrev drained_later : System
drained_later = record { worker = accept_handle_backoff drained_system.worker; fired = 1 }

draining : Steps (started one_listener (granting [])) drained_system
draining = next pausing (drain_begun refl)

late_timer : Steps drained_system drained_later
unfolding accept_handle_cqe accept_arm_startup accept_enter_drain
late_timer = next here (timer_fired (omega arith) refl)

draining-Silent_example : Silent drained_system.worker drained_later.worker
unfolding accept_enter_drain accept_handle_cqe accept_arm_startup
draining-Silent_example =
    draining-Silent one_listener (granting []) drained_system drained_later draining refl late_timer

abbrev two_hosts : List Vhost
two_hosts = record { bind = []; port = 80 } ∷ record { bind = codes "::1"; port = 81 } ∷ []

abbrev no_options : ListenOptions
no_options = record { tcp_defer_accept_sec = none; listen_backlog = none }

accept_setup_listeners-IsTidy_example :
    IsTidy no_options two_hosts
      (some 3 ∷ none ∷ [])
      (accept_setup_listeners no_options two_hosts (some 3 ∷ none ∷ []))
accept_setup_listeners-IsTidy_example =
    accept_setup_listeners-IsTidy no_options two_hosts (some 3 ∷ none ∷ [])

-- The second socket cannot be opened, so the first is closed.
closes_first : (accept_setup_listeners no_options two_hosts (some 3 ∷ none ∷ [])).closed ≡ 3 ∷ []
unfolding accept_setup_listeners
closes_first = refl
