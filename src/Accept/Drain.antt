-- ===== src/Accept/Drain.antt =====
-- Draining is final for the accept controller.
use lamseryn.Prelude.{
  true, false, ◌&&◌, not, List, ◌≡◌, refl, sym, ap, subst, ◌∙◌, inl, inr, if_both,
}
use lamseryn.Accept.{Ring, Listener, Worker, accept_can_rearm}
use lamseryn.Accept.Handlers.{accept_handle_cqe, accept_handle_backoff, accept_enter_drain}
use lamseryn.Accept.Staging.{accepts}
use lamseryn.Accept.Pauses.{
  Settled, Canceled, accept_maybe_stage_cancel_all-Canceled, accept_handle_cqe-Settled, true-false,
}
use lamseryn.Accept.Moves.{
  System, Step, Steps, completed, timer_fired, drain_begun, elsewhere, here, next, started,
  started-IsSound, Steps-IsSound,
}

-- `v` drains, takes no connections, and has staged the same accepts as `w`.
pub record Silent (w v : Worker) : Type 0 where
  pub down : v.is_draining ≡ true
  pub paused : v.accept_paused ≡ true
  pub quiet : accepts v.ring.out ≡ accepts w.ring.out

cannot_rearm : (w : Worker) → w.accept_paused ≡ true → accept_can_rearm w ≡ false
cannot_rearm w h = ap (λ p. not p && not w.accept_cancel_inflight) h

Settled-Silent : (w u v : Worker) → Silent w u → Settled u v → Silent w v
Settled-Silent w u v q (inl k) = record {
  down = k.draining ∙ q.down;
  paused = k.paused ∙ q.paused;
  quiet = k.quiet (cannot_rearm u q.paused) ∙ q.quiet;
}
Settled-Silent w u v q (inr b) = record {
  down = b.draining ∙ q.down;
  paused = b.paused;
  quiet = b.quiet ∙ q.quiet;
}

accept_handle_backoff-Silent : (w u : Worker) → Silent w u → Silent w (accept_handle_backoff u)
unfolding accept_handle_backoff
accept_handle_backoff-Silent w u q =
    if_both (Silent w) u.is_draining
      (λ d. record { down = q.down; paused = q.paused; quiet = q.quiet })
      (λ d. absurd (true-false (sym q.down ∙ d)))

Canceled-Silent :
    (w u v : Worker)
    → Silent w u
    → Canceled
        (record u { is_draining = true; accept_paused = true; accept_backoff_armed = false })
        v
    → Silent w v
Canceled-Silent w u v q (r, c, same, now) = record {
  down = ap (λ x. x.is_draining) now;
  paused = ap (λ x. x.accept_paused) now;
  quiet = ap (λ x. accepts x.ring.out) now ∙ same.0 ∙ q.quiet;
}

Step-Silent : (w : Worker) {s t : System} → Step s t → Silent w s.worker → Silent w t.worker
unfolding accept_enter_drain
Step-Silent w {s} {t} (completed other fd cqe silent e) q =
    subst (λ (x : System). Silent w x.worker) (sym e)
      (Settled-Silent w s.worker (accept_handle_cqe other s.worker fd cqe) q
        (accept_handle_cqe-Settled other s.worker fd cqe silent))
Step-Silent w {s} {t} (timer_fired due e) q =
    subst (λ (x : System). Silent w x.worker) (sym e) (accept_handle_backoff-Silent w s.worker q)
Step-Silent w {s} {t} (drain_begun e) q =
    subst (λ (x : System). Silent w x.worker) (sym e)
      (Canceled-Silent w s.worker (accept_enter_drain s.worker) q (
        accept_maybe_stage_cancel_all-Canceled (record (s.worker) {
          is_draining = true;
          accept_paused = true;
          accept_backoff_armed = false;
        })))
Step-Silent w {s} {t} (elsewhere r same e) q =
    subst (λ (x : System). Silent w x.worker) (sym e)
      (record { down = q.down; paused = q.paused; quiet = same.0 ∙ q.quiet })

Steps-Silent : (w : Worker) {s t : System} → Silent w s.worker → Steps s t → Silent w t.worker
Steps-Silent w q here = q
Steps-Silent w q (next path st) = Step-Silent w st (Steps-Silent w q path)

-- Once a worker that was started drains, no completion, timer or other work makes it stage another
-- accept: it stays paused and draining.
pub draining-Silent :
    (ls : List Listener) (r : Ring) (s t : System)
    → Steps (started ls r) s
    → s.worker.is_draining ≡ true
    → Steps s t
    → Silent s.worker t.worker
draining-Silent ls r s t path down later =
    let i = Steps-IsSound (started-IsSound ls r) path in
    Steps-Silent s.worker (record { down = down; paused = i.drained down; quiet = refl }) later
