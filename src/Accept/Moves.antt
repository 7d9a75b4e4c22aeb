-- ===== src/Accept/Moves.antt =====
-- The accept controller as a state machine, whose steps are completions, the start of draining, and
-- the work of the rest of the worker; with its invariant.
use lamseryn.Prelude.{
  ℕ, suc, ◌+◌, ◌<◌, Bool, true, false, ◌&&◌, not, List, [], ◌∷◌, ◌≡◌, refl, sym, ap, ap₂, subst,
  ◌∙◌, inl, inr, arith, Bool-cases, if_both, if◌then◌else◌,
}
use lamseryn.Accept.{
  Ring, Listener, Worker, accept_can_rearm, accept_post_one, accept_resume_from_backoff, static_op,
  get_sqe_batching, post, accept_sqe,
}
use lamseryn.Accept.Handlers.{
  Elsewhere, Cqe, accept_handle_cqe, accept_handle_backoff, accept_enter_drain, rearm_all,
}
use lamseryn.Accept.Listeners.{accept_arm_startup, arm_listeners, init_op}
use lamseryn.Accept.Staging.{timeouts, Same, get_sqe_batching-Same}
use lamseryn.Accept.Pauses.{
  Kept, Begun, Settled, Canceled, IsQuiet, Kept-trans, Same-Kept, flush-Kept, accept_post_one-Kept,
  accept_maybe_stage_cancel_all-Canceled, accept_handle_cqe-Settled, true-false,
}

-- The worker, and how many of its timeouts have completed.
pub record System : Type 0 where
  pub worker : Worker
  pub fired : ℕ

abbrev pub armed_timeouts : System → ℕ
armed_timeouts s = timeouts s.worker.ring.out

pub data Step (s t : System) : Type 0 where
  completed :
      (other : Elsewhere) (fd : ℕ) (cqe : Cqe)
      → IsQuiet other
      → t ≡ record s { worker = accept_handle_cqe other s.worker fd cqe }
      → Step s t
  timer_fired :
      s.fired < armed_timeouts s
      → t ≡ record { worker = accept_handle_backoff s.worker; fired = suc s.fired }
      → Step s t
  drain_begun : t ≡ record s { worker = accept_enter_drain s.worker } → Step s t
  -- The ring after other work, and with other answers to come; no accept is staged elsewhere.
  elsewhere :
      (r : Ring)
      → Same s.worker.ring r
      → t ≡ record s { worker = record (s.worker) { ring = r } }
      → Step s t

pub data Steps (s : System) : System → Type 0 where
  here : Steps s s
  next : {t u : System} → Steps s t → Step t u → Steps s u

-- A worker whose listeners are open, before the first accept.
abbrev pub fresh : List Listener → Ring → Worker
fresh ls r = record {
  ring = r;
  listeners = ls;
  is_draining = false;
  accept_paused = false;
  accept_backoff_armed = false;
  accept_multishot = false;
  accept_cancel_inflight = false;
}

-- After the start; `r` is the ring at that time, whose timeouts are not this controller's.
abbrev pub started : List Listener → Ring → System
started ls r = record { worker = (accept_arm_startup (fresh ls r)).1; fired = timeouts r.out }

pub record IsSound (s : System) : Type 0 where
  pub drained : s.worker.is_draining ≡ true → s.worker.accept_paused ≡ true
  pub stopped : s.worker.accept_cancel_inflight ≡ true → s.worker.accept_paused ≡ true
  pub waits :
      s.worker.is_draining ≡ false
      → s.worker.accept_paused ≡ true
      → s.worker.accept_backoff_armed ≡ true
  pub one_timer :
      s.worker.is_draining ≡ false
      → armed_timeouts s ≡ s.fired + (if s.worker.accept_backoff_armed then 1 else 0)

can-Kept : {w v : Worker} → Kept w v → accept_can_rearm w ≡ true → accept_can_rearm v ≡ true
can-Kept k can = ap₂ (λ p c. not p && not c) k.paused k.canceled ∙ can

rearm_all-Kept :
    (ls : List Listener) (w : Worker) → accept_can_rearm w ≡ true → Kept w (rearm_all ls w)
unfolding rearm_all
rearm_all-Kept [] w can = Same-Kept w w.ring w.accept_multishot (refl, refl)
rearm_all-Kept (l ∷ ls) w can =
    let (posted, v) = accept_post_one w l.fd (static_op l.op) in
    let one = accept_post_one-Kept w l.fd (static_op l.op) can in
    if_both (Kept w) posted (λ p. Kept-trans one (rearm_all-Kept ls v (can-Kept one can)))
      (λ p. one)

-- A timer that completes ends the pause, unless the worker drains.
pub accept_handle_backoff-Kept :
    (w : Worker)
    → w.is_draining ≡ false
    → Kept (accept_resume_from_backoff w) (accept_handle_backoff w)
unfolding accept_handle_backoff
accept_handle_backoff-Kept w up =
    let resumed = accept_resume_from_backoff w in
    let all = rearm_all-Kept w.listeners resumed refl in
    if_both (Kept resumed) w.is_draining (λ d. absurd (true-false (sym d ∙ up)))
      (λ d. Kept-trans all (flush-Kept true (rearm_all w.listeners resumed)))

arm_listeners-timeouts :
    (ls : List Listener) (r : Ring) → timeouts (arm_listeners ls r).2.out ≡ timeouts r.out
unfolding arm_listeners
arm_listeners-timeouts [] r = refl
arm_listeners-timeouts (l ∷ ls) r =
    let (got, s) = get_sqe_batching r in
    let armed = post (accept_sqe true l.fd (static_op (init_op l).op)) s in
    let same = get_sqe_batching-Same r in
    arm_listeners-timeouts ls (if got then armed else s)
    ∙ if_both (λ (x : Ring). timeouts x.out ≡ timeouts r.out) got (λ e. same.1) (λ e. same.1)

pub started-IsSound : (ls : List Listener) (r : Ring) → IsSound (started ls r)
unfolding accept_arm_startup
started-IsSound ls r = record {
  drained = λ h. absurd (true-false (sym h));
  stopped = λ h. absurd (true-false (sym h));
  waits = λ d h. absurd (true-false (sym h));
  one_timer = λ d. omega (arith, arm_listeners-timeouts ls r);
}

-- Flags as they were, and no timeout staged.
Kept-IsSound :
    (s : System) (v : Worker) → Kept s.worker v → IsSound s → IsSound (record s { worker = v })
Kept-IsSound s v k i = record {
  drained = λ d. k.paused ∙ i.drained (sym k.draining ∙ d);
  stopped = λ c. k.paused ∙ i.stopped (sym k.canceled ∙ c);
  waits = λ d p. k.armed ∙ i.waits (sym k.draining ∙ d) (sym k.paused ∙ p);
  one_timer = λ d.
      k.timers
      ∙ i.one_timer (sym k.draining ∙ d)
      ∙ ap (λ a. s.fired + (if a then 1 else 0)) (sym k.armed);
}

one_more :
    (a b : Bool) {n m : ℕ} (fired : ℕ)
    → a ≡ false
    → b ≡ true
    → n ≡ fired + (if a then 1 else 0)
    → m ≡ n + 1
    → m ≡ fired + (if b then 1 else 0)
one_more a b fired idle busy h k = ground arith

one_less :
    (a b : Bool) {n m : ℕ} (fired : ℕ)
    → b ≡ false
    → fired < n
    → n ≡ fired + (if a then 1 else 0)
    → m ≡ n
    → m ≡ suc fired + (if b then 1 else 0)
one_less a b fired idle due h k = ground arith

Begun-IsSound :
    (s : System) (v : Worker) → Begun s.worker v → IsSound s → IsSound (record s { worker = v })
Begun-IsSound s v b i = record {
  drained = λ d. b.paused;
  stopped = λ c. b.paused;
  waits = λ d p. b.armed;
  one_timer = λ d.
      one_more s.worker.accept_backoff_armed v.accept_backoff_armed s.fired b.was_unarmed b.armed
        (i.one_timer (sym b.draining ∙ d)) b.timers;
}

Settled-IsSound :
    (s : System) (v : Worker) → Settled s.worker v → IsSound s → IsSound (record s { worker = v })
Settled-IsSound s v (inl k) i = Kept-IsSound s v k i
Settled-IsSound s v (inr b) i = Begun-IsSound s v b i

-- A completed timeout, while the worker does not drain.
resumed-IsSound :
    (s : System)
    → s.worker.is_draining ≡ false
    → s.fired < armed_timeouts s
    → IsSound s
    → IsSound (record { worker = accept_handle_backoff s.worker; fired = suc s.fired })
resumed-IsSound s up due i =
    let k = accept_handle_backoff-Kept s.worker up in
    let count = i.one_timer up in
    record {
      drained = λ d. absurd (true-false (sym d ∙ k.draining ∙ up));
      stopped = λ c. absurd (true-false (sym c ∙ k.canceled));
      waits = λ d p. absurd (true-false (sym p ∙ k.paused));
      one_timer = λ d.
          one_less s.worker.accept_backoff_armed
            (accept_handle_backoff s.worker).accept_backoff_armed s.fired k.armed due count
            k.timers;
    }

drained_timer-IsSound :
    (s : System)
    → s.worker.is_draining ≡ true
    → IsSound s
    → IsSound (record { worker = accept_handle_backoff s.worker; fired = suc s.fired })
unfolding accept_handle_backoff
drained_timer-IsSound s down i =
    let sound : Worker → Type 0 = λ v. IsSound (record { worker = v; fired = suc s.fired }) in
    if_both sound s.worker.is_draining
      (λ d. record {
        drained = i.drained;
        stopped = i.stopped;
        waits = λ up. absurd (true-false (sym down ∙ up));
        one_timer = λ up. absurd (true-false (sym down ∙ up));
      })
      (λ up. absurd (true-false (sym down ∙ up)))

Canceled-IsSound :
    (s : System) (v : Worker)
    → Canceled
        (record (s.worker) {
          is_draining = true;
          accept_paused = true;
          accept_backoff_armed = false;
        })
        v
    → IsSound (record s { worker = v })
Canceled-IsSound s v (r, c, same, now) = record {
  drained = λ d. ap (λ x. x.accept_paused) now;
  stopped = λ c. ap (λ x. x.accept_paused) now;
  waits = λ d. absurd (true-false (sym (ap (λ x. x.is_draining) now) ∙ d));
  one_timer = λ d. absurd (true-false (sym (ap (λ x. x.is_draining) now) ∙ d));
}

pub Step-IsSound : {s t : System} → Step s t → IsSound s → IsSound t
unfolding accept_enter_drain
Step-IsSound {s} {t} (completed other fd cqe silent e) i = subst IsSound (sym e) (
    Settled-IsSound s (accept_handle_cqe other s.worker fd cqe)
      (accept_handle_cqe-Settled other s.worker fd cqe silent) i)
Step-IsSound {s} {t} (timer_fired due e) i =
    subst IsSound (sym e) (elim (Bool-cases s.worker.is_draining) [
      | inl down ↦ drained_timer-IsSound s down i
      | inr up ↦ resumed-IsSound s up due i
    ])
Step-IsSound {s} {t} (drain_begun e) i = subst IsSound (sym e) (
    Canceled-IsSound s (accept_enter_drain s.worker) (
      accept_maybe_stage_cancel_all-Canceled (record (s.worker) {
        is_draining = true;
        accept_paused = true;
        accept_backoff_armed = false;
      })))
Step-IsSound {s} {t} (elsewhere r same e) i = subst IsSound (sym e) (
    Kept-IsSound s (record (s.worker) { ring = r })
      (Same-Kept s.worker r s.worker.accept_multishot same) i)

pub Steps-IsSound : {s t : System} → IsSound s → Steps s t → IsSound t
Steps-IsSound i here = i
Steps-IsSound i (next r st) = Step-IsSound st (Steps-IsSound i r)
