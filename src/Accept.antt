-- ===== src/Accept.antt =====
-- accept_controller.c: when a worker accepts connections, pauses, backs off and drains; with the
-- staging of kernel requests in ring_ops.h, and the part of worker_ctx.h that both use. It is the
-- build with multishot accepts (the default). Descriptors are numbers, flags are Booleans. What the
-- kernel and liburing answer is in the state: the coming results of io_uring_get_sqe and of
-- io_uring_sq_space_left, in order; a list that is used up answers NULL, or no space.
pub mod Listeners
pub mod Staging
pub mod Pauses
pub mod Moves
pub mod Resume
pub mod Drain
pub mod Opening
pub mod Handlers
use lamseryn.Prelude.{
  ℕ, ◌+◌, Bool, true, false, ◌&&◌, ◌||◌, not, Option, none, some, List, [], ◌∷◌, ltb, leb, ◌==◌,
  if◌then◌else◌,
}

-- `struct op_ctx`: its type, and the descriptor of an accept.
pub data Op : Type 0 where
  op_accept : ℕ → Op
  op_accept_backoff op_other : Op

-- The requests that this code stages, with the op that comes back on completion.
pub data Sqe : Type 0 where
  accept_sqe : Bool → ℕ → Op → Sqe
  cancel_fd : ℕ → Sqe
  timeout : ℕ → Sqe

-- What is done to the ring.
pub data RingEvent : Type 0 where
  staged : Sqe → RingEvent
  submitted : RingEvent

-- The latest event comes first in `out`.
pub record Ring : Type 0 where
  pub need_submit : Bool
  pub sqes_pending : ℕ
  pub grants : List Bool
  pub spaces : List ℕ
  pub out : List RingEvent

abbrev pub submit_batch_sz : ℕ
submit_batch_sz = 64

abbrev pub submit_low_space : ℕ
submit_low_space = 16

-- `io_uring_submit`, with the reset of the counts that follows it everywhere.
abbrev pub submit : Ring → Ring
submit r = record r { need_submit = false; sqes_pending = 0; out = submitted ∷ r.out }

unfoldable pub take_grant : Ring → Bool × Ring
take_grant r = elim r.grants [ [] ↦ (false, r) | g ∷ gs ↦ (g, record r { grants = gs }) ]

unfoldable pub get_sqe_batching : Ring → Bool × Ring
unfolding take_grant
get_sqe_batching r = let (got, s) = take_grant r in if got then (true, s) else take_grant (submit s)

-- `mark_post`, with the request that was prepared before.
abbrev pub post : Sqe → Ring → Ring
post q r = record r {
  need_submit = true;
  sqes_pending = r.sqes_pending + 1;
  out = staged q ∷ r.out;
}

unfoldable pub maybe_flush : Bool → Ring → Ring
maybe_flush urgent r =
    if not r.need_submit
    then r
    else if urgent || leb submit_batch_sz r.sqes_pending
    then submit r
    else elim r.spaces [
      | [] ↦ submit r
      | n ∷ ns ↦ let s = record r { spaces = ns } in if ltb n submit_low_space then submit s else s
    ]

-- A used entry of `listen_fds`, and its `accept_static`, `none` before `accept_inited`.
pub record Listener : Type 0 where
  pub fd : ℕ
  pub op : Option Op

-- The part of `struct worker_ctx` that the accept controller uses.
pub record Worker : Type 0 where
  pub ring : Ring
  pub listeners : List Listener
  pub is_draining : Bool
  pub accept_paused : Bool
  pub accept_backoff_armed : Bool
  pub accept_multishot : Bool
  pub accept_cancel_inflight : Bool

abbrev pub accept_can_rearm : Worker → Bool
accept_can_rearm w = not w.accept_paused && not w.accept_cancel_inflight

abbrev pub accept_mark_paused : Worker → Worker
accept_mark_paused w = record w { accept_paused = true }

abbrev pub default_accept_backoff_ms : ℕ
default_accept_backoff_ms = 5

-- `accept_backoff_ms` of the configuration, when it is present.
abbrev pub backoff_ms : Option ℕ → ℕ
backoff_ms none = default_accept_backoff_ms
backoff_ms (some ms) = ms

unfoldable pub accept_arm_backoff_timer : Option ℕ → Worker → Bool × Worker
unfolding get_sqe_batching maybe_flush
accept_arm_backoff_timer cfg w =
    let (got, r) = get_sqe_batching w.ring in
    if w.accept_backoff_armed
    then (false, w)
    else if not got
    then (false, record w { ring = r })
    else (
      true,
      record w {
        accept_backoff_armed = true;
        ring = maybe_flush true (post (timeout (backoff_ms cfg)) r);
      },
    )

-- The loop of `accept_maybe_stage_cancel_all`; the Boolean is false after a break.
unfoldable pub stage_cancels : List Listener → Ring → Bool × Ring
unfolding get_sqe_batching
stage_cancels [] r = (true, r)
stage_cancels (l ∷ ls) r =
    let (got, s) = get_sqe_batching r in
    let rest = stage_cancels ls (post (cancel_fd l.fd) s) in if got then rest else (false, s)

unfoldable pub accept_maybe_stage_cancel_all : Worker → Worker
unfolding stage_cancels maybe_flush
accept_maybe_stage_cancel_all w =
    let (all, r) = stage_cancels w.listeners w.ring in
    if w.accept_cancel_inflight
    then w
    else record w { ring = maybe_flush true r; accept_cancel_inflight = all }

abbrev pub accept_resume_from_backoff : Worker → Worker
accept_resume_from_backoff w = record w {
  accept_backoff_armed = false;
  accept_paused = false;
  accept_cancel_inflight = false;
}

unfoldable pub accept_post_one : Worker → ℕ → Op → Bool × Worker
unfolding get_sqe_batching
accept_post_one w fd op =
    let (got, r) = get_sqe_batching w.ring in
    if got
    then (true, record w { ring = post (accept_sqe w.accept_multishot fd op) r })
    else (false, record w { ring = r })

-- A zeroed op is not recognised when it completes.
abbrev pub static_op : Option Op → Op
static_op none = op_other
static_op (some op) = op
