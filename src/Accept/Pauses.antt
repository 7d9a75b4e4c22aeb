-- ===== src/Accept/Pauses.antt =====
-- What each handler does to the flags, and to the accepts and timeouts that were staged.
use lamseryn.Prelude.{
  ℕ, ◌+◌, Bool, true, false, ◌&&◌, not, Option, ◌≡◌, refl, sym, ap, ap₂, ◌∙◌, ◌⊎◌, inl, inr, arith,
  Bool-cases, if_both,
}
use lamseryn.Accept.{
  Op, op_accept, accept_sqe, Ring, timeout, backoff_ms, post, maybe_flush, get_sqe_batching, Worker,
  accept_can_rearm, accept_mark_paused, accept_arm_backoff_timer, accept_maybe_stage_cancel_all,
  accept_post_one, stage_cancels,
}
use lamseryn.Accept.Handlers.{
  Elsewhere, Cqe, AcceptErrno, AcceptRes, handle_res, accepted, refused, after_accept, on_pressure,
  on_refusal, accept_handle_cqe, wants_rearm, no_descriptors, is_canceled, downgrade, flush,
}
use lamseryn.Accept.Staging.{
  accepts, timeouts, Same, Same-trans, get_sqe_batching-Same, maybe_flush-Same, stage_cancels-Same,
}

pub true-false : ¬ (true ≡ false)
true-false e = ground (arith, e)

-- The pause is as it was; an accept was staged only if accepts could be posted again.
pub record Kept (w v : Worker) : Type 0 where
  pub listeners : v.listeners ≡ w.listeners
  pub draining : v.is_draining ≡ w.is_draining
  pub paused : v.accept_paused ≡ w.accept_paused
  pub armed : v.accept_backoff_armed ≡ w.accept_backoff_armed
  pub canceled : v.accept_cancel_inflight ≡ w.accept_cancel_inflight
  pub timers : timeouts v.ring.out ≡ timeouts w.ring.out
  pub quiet : accept_can_rearm w ≡ false → accepts v.ring.out ≡ accepts w.ring.out

-- The pause has begun, with one timer that ends it.
pub record Begun (w v : Worker) : Type 0 where
  pub listeners : v.listeners ≡ w.listeners
  pub draining : v.is_draining ≡ w.is_draining
  pub paused : v.accept_paused ≡ true
  pub was_unarmed : w.accept_backoff_armed ≡ false
  pub armed : v.accept_backoff_armed ≡ true
  pub timers : timeouts v.ring.out ≡ timeouts w.ring.out + 1
  pub quiet : accepts v.ring.out ≡ accepts w.ring.out

abbrev pub Settled : Worker → Worker → Type 0
Settled w v = Kept w v ⊎ Begun w v

-- Only the ring and `accept_multishot` change, and nothing that counts is staged.
pub Same-Kept :
    (w : Worker) (r : Ring) (m : Bool)
    → Same w.ring r
    → Kept w (record w { ring = r; accept_multishot = m })
Same-Kept w r m s = record {
  listeners = refl;
  draining = refl;
  paused = refl;
  armed = refl;
  canceled = refl;
  timers = s.1;
  quiet = λ h. s.0;
}

-- Only the ring changes, and only an accept is staged, when that is allowed.
rearm-Kept :
    (w : Worker) (r : Ring)
    → accept_can_rearm w ≡ true
    → timeouts r.out ≡ timeouts w.ring.out
    → Kept w (record w { ring = r })
rearm-Kept w r can t = record {
  listeners = refl;
  draining = refl;
  paused = refl;
  armed = refl;
  canceled = refl;
  timers = t;
  quiet = λ h. ground (arith, can, h);
}

pub Kept-trans : {u v w : Worker} → Kept u v → Kept v w → Kept u w
Kept-trans {u} {v} {w} a b = record {
  listeners = b.listeners ∙ a.listeners;
  draining = b.draining ∙ a.draining;
  paused = b.paused ∙ a.paused;
  armed = b.armed ∙ a.armed;
  canceled = b.canceled ∙ a.canceled;
  timers = b.timers ∙ a.timers;
  quiet = λ h. b.quiet (ap₂ (λ p c. not p && not c) a.paused a.canceled ∙ h) ∙ a.quiet h;
}

pub flush-Kept : (urgent : Bool) (w : Worker) → Kept w (flush urgent w)
flush-Kept urgent w =
    Same-Kept w (maybe_flush urgent w.ring) w.accept_multishot (maybe_flush-Same urgent w.ring)

pub accept_post_one-Kept :
    (w : Worker) (fd : ℕ) (op : Op) → accept_can_rearm w ≡ true → Kept w (accept_post_one w fd op).1
unfolding accept_post_one
accept_post_one-Kept w fd op can =
    let (got, r) = get_sqe_batching w.ring in
    let same = get_sqe_batching-Same w.ring in
    elim (Bool-cases got) [
      | inl e ↦ rw e (rearm-Kept w (post (accept_sqe w.accept_multishot fd op) r) can same.1)
      | inr e ↦ rw e (rearm-Kept w r can same.1)
    ]

wants_rearm-can : (w : Worker) (more : Bool) → wants_rearm w more ≡ true → accept_can_rearm w ≡ true
wants_rearm-can w more h = ground arith

module _ (w : Worker) (fd : ℕ) (op : Op) (more : Bool) where
  after_accept-Kept : Kept w (after_accept w fd op more)
  unfolding after_accept
  after_accept-Kept =
      let v = (accept_post_one w fd op).1 in
      elim (Bool-cases (wants_rearm w more)) [
        | inr e ↦ rw e (Same-Kept w w.ring w.accept_multishot (refl, refl))
        | inl e ↦
            let one = accept_post_one-Kept w fd op (wants_rearm-can w more e) in
            elim (Bool-cases (not v.accept_multishot)) [
              | inr m ↦ rw (e, m) one
              | inl m ↦ rw (e, m) (Kept-trans one (flush-Kept true v))
            ]
      ]

  on_refusal-Kept : (e : AcceptErrno) → Kept w (on_refusal w e fd op more)
  unfolding on_refusal
  on_refusal-Kept err =
      let v = (accept_post_one w fd op).1 in
      let as_was = Same-Kept w w.ring w.accept_multishot (refl, refl) in
      elim (Bool-cases (is_canceled err && w.accept_paused)) [
        | inl p ↦ rw p as_was
        | inr p ↦ elim (Bool-cases (wants_rearm w more)) [
          | inr e ↦ rw (p, e) as_was
          | inl e ↦
              let one = accept_post_one-Kept w fd op (wants_rearm-can w more e) in
              rw (p, e) (Kept-trans one (flush-Kept true v))
        ]
      ]

-- A timer that was not armed leaves the ring alone but for the attempt; one that is armed counts.
abbrev Tried : Worker → Bool × Worker → Type 0
Tried w (armed, v) =
    ((armed ≡ false) × Kept w v)
    ⊎ ((armed ≡ true)
        × ((r : Ring) × (w.accept_backoff_armed ≡ false)
            × (v ≡ record w { accept_backoff_armed = true; ring = r })
            × (accepts r.out ≡ accepts w.ring.out)
            × (timeouts r.out ≡ timeouts w.ring.out + 1)))

accept_arm_backoff_timer-Tried :
    (cfg : Option ℕ) (w : Worker) → Tried w (accept_arm_backoff_timer cfg w)
unfolding accept_arm_backoff_timer
accept_arm_backoff_timer-Tried cfg w =
    let (got, r) = get_sqe_batching w.ring in
    let same = get_sqe_batching-Same w.ring in
    let staged_ring = post (timeout (backoff_ms cfg)) r in
    let flushed = maybe_flush-Same true staged_ring in
    let counted = flushed.1 ∙ ap (λ n. n + 1) same.1 in
    if_both (Tried w) w.accept_backoff_armed
      (λ a. inl (refl, Same-Kept w w.ring w.accept_multishot (refl, refl)))
      (λ a.
        if_both (Tried w) (not got) (λ g. inl (refl, Same-Kept w r w.accept_multishot same))
          (λ g. inr (refl, (maybe_flush true staged_ring, a, refl, flushed.0 ∙ same.0, counted))))

-- Cancelling changes the ring and one flag, and stages no accept and no timeout.
abbrev pub Canceled : Worker → Worker → Type 0
Canceled w v =
    (r : Ring) × (c : Bool) × Same w.ring r
    × (v ≡ record w { ring = r; accept_cancel_inflight = c })

pub accept_maybe_stage_cancel_all-Canceled :
    (w : Worker) → Canceled w (accept_maybe_stage_cancel_all w)
unfolding accept_maybe_stage_cancel_all
accept_maybe_stage_cancel_all-Canceled w =
    let (all, r) = stage_cancels w.listeners w.ring in
    let same =
      Same-trans w.ring r (maybe_flush true r) (stage_cancels-Same w.listeners w.ring)
        (maybe_flush-Same true r) in
    if_both (Canceled w) w.accept_cancel_inflight
      (λ c. (w.ring, w.accept_cancel_inflight, (refl, refl), refl))
      (λ c. (maybe_flush true r, all, same, refl))

Canceled-Begun :
    (w t : Worker) (r : Ring)
    → w.accept_backoff_armed ≡ false
    → t ≡ record w { accept_backoff_armed = true; ring = r }
    → accepts r.out ≡ accepts w.ring.out
    → timeouts r.out ≡ timeouts w.ring.out + 1
    → {v : Worker} → Canceled (accept_mark_paused t) v
    → Begun w v
Canceled-Begun w t r was shape quiet timers (s, c, same, now) = record {
  listeners = ap (λ x. x.listeners) now ∙ ap (λ x. x.listeners) shape;
  draining = ap (λ x. x.is_draining) now ∙ ap (λ x. x.is_draining) shape;
  paused = ap (λ x. x.accept_paused) now;
  was_unarmed = was;
  armed = ap (λ x. x.accept_backoff_armed) now ∙ ap (λ x. x.accept_backoff_armed) shape;
  timers =
      ap (λ x. timeouts x.ring.out) now ∙ same.1 ∙ ap (λ x. timeouts x.ring.out) shape ∙ timers;
  quiet = ap (λ x. accepts x.ring.out) now ∙ same.0 ∙ ap (λ x. accepts x.ring.out) shape ∙ quiet;
}

on_pressure-Settled :
    (cfg : Option ℕ) (w : Worker) (fd : ℕ) (op : Op) (more : Bool)
    → Settled w (on_pressure cfg w fd op more)
unfolding on_pressure
on_pressure-Settled cfg w fd op more =
    let (armed, t) = accept_arm_backoff_timer cfg w in
    let (posted, v) = accept_post_one t fd op in
    let paused = accept_mark_paused t in
    elim (accept_arm_backoff_timer-Tried cfg w) [
      | inl (un, kept) ↦
          if_both (Settled w) armed (λ e. absurd (true-false (sym e ∙ un)))
            (λ e.
              if_both (Settled w) (wants_rearm t more)
                (λ e.
                  let one = accept_post_one-Kept t fd op (wants_rearm-can t more e) in
                  let all = Kept-trans kept one in
                  if_both (Settled w) posted (λ p. inl (Kept-trans all (flush-Kept false v)))
                    (λ p. inl all))
                (λ e. inl kept))
      | inr (set, (r, was, shape, quiet, timers)) ↦
          if_both (Settled w) armed
            (λ e. inr (
              Canceled-Begun w t r was shape quiet timers
                (accept_maybe_stage_cancel_all-Canceled paused)))
            (λ e. absurd (true-false (sym set ∙ e)))
    ]

-- `accept_multishot` does not matter.
downgrade-Settled :
    (w v : Worker) (m : Bool) → Settled (record w { accept_multishot = m }) v → Settled w v
downgrade-Settled w v m (inl k) = inl (Kept-trans (Same-Kept w w.ring m (refl, refl)) k)
downgrade-Settled w v m (inr b) = inr (record {
  listeners = b.listeners;
  draining = b.draining;
  paused = b.paused;
  was_unarmed = b.was_unarmed;
  armed = b.armed;
  timers = b.timers;
  quiet = b.quiet;
})

-- Setting a connection up stages no accept and no backoff timer.
abbrev pub IsQuiet : Elsewhere → Type 0
IsQuiet other = (cfd : ℕ) (r : Ring) → Same r (other.served cfd r)

handle_res-Settled :
    (other : Elsewhere) (w : Worker) (fd : ℕ) (res : AcceptRes) (more : Bool)
    → IsQuiet other
    → Settled w (handle_res other w fd res more)
unfolding handle_res
handle_res-Settled other w fd (accepted cfd) more q =
    let r = other.served cfd w.ring in
    inl (
      Kept-trans (Same-Kept w r w.accept_multishot (q cfd w.ring))
        (after_accept-Kept (record w { ring = r }) fd (op_accept fd) more))
handle_res-Settled other w fd (refused e) more q =
    let v = downgrade w e in
    let cfg = other.backoff in
    if_both (Settled w) (no_descriptors e)
      (λ p.
        downgrade-Settled w (on_pressure cfg v fd (op_accept fd) more) v.accept_multishot
          (on_pressure-Settled cfg v fd (op_accept fd) more))
      (λ p.
        downgrade-Settled w (on_refusal v e fd (op_accept fd) more) v.accept_multishot
          (inl (on_refusal-Kept v fd (op_accept fd) more e)))

pub accept_handle_cqe-Settled :
    (other : Elsewhere) (w : Worker) (fd : ℕ) (cqe : Cqe)
    → IsQuiet other
    → Settled w (accept_handle_cqe other w fd cqe)
unfolding accept_handle_cqe
accept_handle_cqe-Settled other w fd cqe q = handle_res-Settled other w fd cqe.res cqe.more q
