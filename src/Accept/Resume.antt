-- ===== src/Accept/Resume.antt =====
-- A pause of accepting ends.
use lamseryn.Prelude.{
  ℕ, zero, suc, ◌+◌, ◌<◌, Bool, true, false, ◌||◌, List, [], ◌∷◌, ◌≡◌, refl, sym, ap, ap₂, ◌∙◌, inl,
  inr, arith, Bool-cases, if_both, if◌then◌else◌, length,
}
use lamseryn.Accept.{
  Ring, Listener, Worker, Op, accept_sqe, accept_post_one, post, accept_resume_from_backoff,
  static_op, get_sqe_batching, take_grant,
}
use lamseryn.Accept.Handlers.{accept_handle_backoff, rearm_all, accept_is_fd_pressure}
use lamseryn.Accept.Listeners.{fds}
use lamseryn.Accept.Staging.{accepts, maybe_flush-Same}
use lamseryn.Accept.Pauses.{true-false}
use lamseryn.Accept.Moves.{
  System, Steps, IsSound, armed_timeouts, started, started-IsSound, Steps-IsSound,
  accept_handle_backoff-Kept,
}

-- The next `n` requests for a queue entry are granted at once.
abbrev pub Granted : ℕ → List Bool → Type 0
Granted zero gs = Unit
Granted (suc n) gs = (rest : List Bool) × (gs ≡ true ∷ rest) × Granted n rest

-- `xs` taken from the front and put before `ys`, one by one.
abbrev pub rev_onto : List ℕ → List ℕ → List ℕ
rev_onto [] ys = ys
rev_onto (x ∷ xs) ys = rev_onto xs (x ∷ ys)

get_granted :
    (r : Ring) (gs : List Bool)
    → r.grants ≡ true ∷ gs
    → get_sqe_batching r ≡ (true, record r { grants = gs })
unfolding get_sqe_batching take_grant
get_granted r gs e = rw e refl

abbrev rearmed : Worker → List Bool → ℕ → Op → Worker
rearmed w gs fd op = record w {
  ring = post (accept_sqe w.accept_multishot fd op) (record (w.ring) { grants = gs });
}

post_granted :
    (w : Worker) (gs : List Bool) (fd : ℕ) (op : Op)
    → w.ring.grants ≡ true ∷ gs
    → accept_post_one w fd op ≡ (true, rearmed w gs fd op)
unfolding accept_post_one
post_granted w gs fd op e = rw (get_granted w.ring gs e) refl

rearm_all-accepts :
    (ls : List Listener) (w : Worker)
    → Granted (length ls) w.ring.grants
    → accepts (rearm_all ls w).ring.out ≡ rev_onto (fds ls) (accepts w.ring.out)
unfolding rearm_all
rearm_all-accepts [] w g = refl
rearm_all-accepts (l ∷ ls) w (gs, e, g) =
    rw (post_granted w gs l.fd (static_op l.op) e)
      (rearm_all-accepts ls (rearmed w gs l.fd (static_op l.op)) g)

backoff-accepts :
    (w : Worker)
    → w.is_draining ≡ false
    → Granted (length w.listeners) w.ring.grants
    → accepts (accept_handle_backoff w).ring.out ≡ rev_onto (fds w.listeners) (accepts w.ring.out)
unfolding accept_handle_backoff
backoff-accepts w up g =
    let resumed = accept_resume_from_backoff w in
    let all = rearm_all w.listeners resumed in
    let goal : Worker → Type 0 =
      λ v. accepts v.ring.out ≡ rev_onto (fds w.listeners) (accepts w.ring.out) in
    if_both goal w.is_draining (λ d. absurd (true-false (sym d ∙ up)))
      (λ d. (maybe_flush-Same true all.ring).0 ∙ rearm_all-accepts w.listeners resumed g)

-- A timer is armed, and its completion, on this ring, ends the descriptor pressure and posts an
-- accept for each listener.
abbrev pub Resumes : System → Ring → Type 0
Resumes s r =
    let v = accept_handle_backoff (record (s.worker) { ring = r }) in
    (s.fired < armed_timeouts s)
    × (accept_is_fd_pressure v ≡ false)
    × (accepts v.ring.out ≡ rev_onto (fds s.worker.listeners) (accepts r.out))

pressure-paused :
    (s : System) → IsSound s → accept_is_fd_pressure s.worker ≡ true → s.worker.accept_paused ≡ true
pressure-paused s i h = elim (Bool-cases s.worker.accept_paused) [
  | inl p ↦ p
  | inr p ↦ i.stopped (sym (ap (λ b. b || s.worker.accept_cancel_inflight) p) ∙ h)
]

paused_timer :
    (a : Bool) {n : ℕ} (fired : ℕ) → a ≡ true → n ≡ fired + (if a then 1 else 0) → fired < n
paused_timer a fired h k = ground arith

-- Whenever a worker that was started is under descriptor pressure, with accepting paused or its
-- accepts being cancelled, and does not drain, a backoff timer is outstanding. When it completes and
-- the ring grants an entry at once for each listener, both flags of the pressure are cleared and an
-- accept is posted for every listener.
pub pressure-Resumes :
    (ls : List Listener) (r : Ring) (s : System) (r' : Ring)
    → Steps (started ls r) s
    → s.worker.is_draining ≡ false
    → accept_is_fd_pressure s.worker ≡ true
    → Granted (length s.worker.listeners) r'.grants
    → Resumes s r'
pressure-Resumes ls r s r' path up stop g =
    let i = Steps-IsSound (started-IsSound ls r) path in
    let w = record (s.worker) { ring = r' } in
    let k = accept_handle_backoff-Kept w up in
    let armed = i.waits up (pressure-paused s i stop) in
    (
      paused_timer s.worker.accept_backoff_armed s.fired armed (i.one_timer up),
      ap₂ (λ p c. p || c) k.paused k.canceled,
      backoff-accepts w up g,
    )
