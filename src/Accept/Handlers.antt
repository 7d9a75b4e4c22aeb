-- ===== src/Accept/Handlers.antt =====
-- accept_controller.c: the handlers of completions, and the start of draining.
use lamseryn.Prelude.{ℕ, Bool, true, false, ◌&&◌, ◌||◌, not, Option, List, [], ◌∷◌, if◌then◌else◌}
use lamseryn.Accept.{
  Op, op_accept, op_accept_backoff, op_other, static_op, maybe_flush, Ring, Listener, Worker,
  accept_can_rearm, accept_mark_paused, accept_arm_backoff_timer, accept_maybe_stage_cancel_all,
  accept_resume_from_backoff, accept_post_one,
}

-- The errors that `accept_handle_cqe` tells apart.
pub data AcceptErrno : Type 0 where
  eagain emfile enfile einval eopnotsupp ecanceled other_errno : AcceptErrno

-- The result of an accept: a descriptor, or a negated errno.
pub data AcceptRes : Type 0 where
  accepted : ℕ → AcceptRes
  refused : AcceptErrno → AcceptRes

-- `struct io_uring_cqe`: `more` is IORING_CQE_F_MORE.
pub record Cqe : Type 0 where
  pub res : AcceptRes
  pub more : Bool

-- What a handler takes from elsewhere: `accept_backoff_ms` when it is configured, and what
-- `worker_accept_success` does to the ring, given the new descriptor.
pub record Elsewhere : Type 0 where
  pub backoff : Option ℕ
  pub served : ℕ → Ring → Ring

abbrev pub flush : Bool → Worker → Worker
flush urgent w = record w { ring = maybe_flush urgent w.ring }

-- The test before each accept that is posted again.
abbrev pub wants_rearm : Worker → Bool → Bool
wants_rearm w more = accept_can_rearm w && (not w.accept_multishot || not more)

-- After a connection, and `worker_accept_success`.
unfoldable pub after_accept : Worker → ℕ → Op → Bool → Worker
unfolding accept_post_one maybe_flush
after_accept w fd op more =
    let (posted, v) = accept_post_one w fd op in
    if not (wants_rearm w more) then w else if not v.accept_multishot then flush true v else v

abbrev pub no_multishot : AcceptErrno → Bool
no_multishot einval = true
no_multishot eopnotsupp = true
no_multishot _ = false

abbrev pub no_descriptors : AcceptErrno → Bool
no_descriptors emfile = true
no_descriptors enfile = true
no_descriptors _ = false

abbrev pub is_canceled : AcceptErrno → Bool
is_canceled ecanceled = true
is_canceled _ = false

abbrev pub downgrade : Worker → AcceptErrno → Worker
downgrade w e = record w { accept_multishot = w.accept_multishot && not (no_multishot e) }

-- EMFILE and ENFILE: pause, but only with a timer that ends the pause.
unfoldable pub on_pressure : Option ℕ → Worker → ℕ → Op → Bool → Worker
unfolding accept_arm_backoff_timer accept_maybe_stage_cancel_all accept_post_one maybe_flush
on_pressure cfg w fd op more =
    let (armed, t) = accept_arm_backoff_timer cfg w in
    let (posted, v) = accept_post_one t fd op in
    if armed
    then accept_maybe_stage_cancel_all (accept_mark_paused t)
    else if wants_rearm t more
    then if posted then flush false v else v
    else t

-- The other errors.
unfoldable pub on_refusal : Worker → AcceptErrno → ℕ → Op → Bool → Worker
unfolding accept_post_one maybe_flush
on_refusal w e fd op more =
    let (posted, v) = accept_post_one w fd op in
    if is_canceled e && w.accept_paused then w else if wants_rearm w more then flush true v else w

-- By the result of the accept; `fd` is the descriptor of its op.
unfoldable pub handle_res : Elsewhere → Worker → ℕ → AcceptRes → Bool → Worker
unfolding after_accept on_pressure on_refusal
handle_res other w fd (accepted cfd) more =
    after_accept (record w { ring = other.served cfd w.ring }) fd (op_accept fd) more
handle_res other w fd (refused e) more =
    if no_descriptors e
    then on_pressure other.backoff (downgrade w e) fd (op_accept fd) more
    else on_refusal (downgrade w e) e fd (op_accept fd) more

unfoldable pub accept_handle_cqe : Elsewhere → Worker → ℕ → Cqe → Worker
unfolding handle_res
accept_handle_cqe other w fd cqe = handle_res other w fd cqe.res cqe.more

-- The loop of `accept_handle_backoff`.
unfoldable pub rearm_all : List Listener → Worker → Worker
unfolding accept_post_one
rearm_all [] w = w
rearm_all (l ∷ ls) w =
    let (posted, v) = accept_post_one w l.fd (static_op l.op) in
    let rest = rearm_all ls v in if posted then rest else v

unfoldable pub accept_handle_backoff : Worker → Worker
unfolding rearm_all maybe_flush
accept_handle_backoff w =
    if w.is_draining
    then record w { accept_backoff_armed = false }
    else flush true (rearm_all w.listeners (accept_resume_from_backoff w))

unfoldable pub accept_enter_drain : Worker → Worker
unfolding accept_maybe_stage_cancel_all
accept_enter_drain w =
    accept_maybe_stage_cancel_all
      (record w { is_draining = true; accept_paused = true; accept_backoff_armed = false })

-- The Boolean tells whether the completion was one of these.
unfoldable pub accept_try_handle_cqe : Elsewhere → Worker → Op → Cqe → Bool × Worker
unfolding accept_handle_cqe accept_handle_backoff
accept_try_handle_cqe other w (op_accept fd) cqe = (true, accept_handle_cqe other w fd cqe)
accept_try_handle_cqe other w op_accept_backoff cqe = (true, accept_handle_backoff w)
accept_try_handle_cqe other w op_other cqe = (false, w)

abbrev pub accept_is_fd_pressure : Worker → Bool
accept_is_fd_pressure w = w.accept_paused || w.accept_cancel_inflight
