-- ===== src/Wheel.antt =====
-- The timing wheel of a worker (timing_wheel.c): buckets of connections, linked in both directions
-- through the connections, and the operations of conn_deadline.c that move one. A connection is a
-- number, and its state is in a table. The number of slots is a power of two, so a mask is a
-- remainder.
pub mod Apart
pub mod Chain
pub mod Linked
pub mod Insertion
pub mod Removal
pub mod Relink
pub mod Unlink
use lamseryn.Prelude.{
  ℕ, ◌+◌, ◌-◌, ◌/◌, ◌%◌, ◌^◌, Bool, true, false, ◌||◌, not, Option, none, some, ltb, ◌==◌,
  if◌then◌else◌,
}
use lamseryn.Store.{update}
use lamseryn.Deadline.{
  TimedConn, Timeouts, dk_none, tw_compute_conn_deadline, conn_mark_closing, conn_start_draining,
}

-- A connection with its `struct worker_link`.
pub record Node : Type 0 where
  pub conn : TimedConn
  pub tw_prev : Option ℕ
  pub tw_next : Option ℕ
  pub tw_slot : ℕ

-- The part of `struct worker_ctx` that is the wheel, with the connections.
pub record Wheel : Type 0 where
  pub tw_slots : ℕ
  pub tw_tick_ms : ℕ
  pub tw_now_tick : ℕ
  pub next_tick_deadline_ms : ℕ
  pub tw_buckets : ℕ → Option ℕ
  pub nodes : ℕ → Node

abbrev pub set_node : Wheel → ℕ → Node → Wheel
set_node w x n = record w { nodes = update w.nodes x n }

abbrev pub set_bucket : Wheel → ℕ → Option ℕ → Wheel
set_bucket w s h = record w { tw_buckets = update w.tw_buckets s h }

unfoldable pub tw_init : Wheel → ℕ → ℕ → ℕ → Wheel
tw_init w slots tick_ms now_ms = record w {
  tw_slots = slots;
  tw_tick_ms = tick_ms;
  tw_now_tick = 0;
  tw_buckets = λ s. if ltb s slots then none else w.tw_buckets s;
  next_tick_deadline_ms = (now_ms + tick_ms) % 2 ^ 64;
}

unfoldable pub tw_slot_for : Wheel → ℕ → ℕ → ℕ
tw_slot_for w now_ms deadline_ms =
    let dt = if ltb now_ms deadline_ms then deadline_ms - now_ms else 0 in
    let ticks_ahead = if w.tw_tick_ms == 0 then 0 else dt / w.tw_tick_ms in
    (w.tw_now_tick + ticks_ahead) % 2 ^ 64 % w.tw_slots

abbrev pub is_active : Node → Bool
is_active n = n.conn.dl.deadline_active

abbrev pub activate : Bool → Node → Node
activate b n = record n {
  conn = record (n.conn) { dl = record (n.conn.dl) { deadline_active = b } };
}

-- What points to the connection from before it is made to point behind it.
unfoldable pub unlink_prev : Wheel → Option ℕ → ℕ → Option ℕ → Wheel
unlink_prev w none slot next = set_bucket w slot next
unlink_prev w (some p) slot next = set_node w p (record (w.nodes p) { tw_next = next })

unfoldable pub unlink_next : Wheel → Option ℕ → Option ℕ → Wheel
unlink_next w none prev = w
unlink_next w (some q) prev = set_node w q (record (w.nodes q) { tw_prev = prev })

unfoldable pub tw_remove_internal : Wheel → ℕ → Wheel
unfolding unlink_prev unlink_next
tw_remove_internal w x =
    let n = w.nodes x in
    let w1 = unlink_prev w n.tw_prev n.tw_slot n.tw_next in
    let w2 = unlink_next w1 (w1.nodes x).tw_next (w1.nodes x).tw_prev in
    if not (is_active n)
    then w
    else set_node w2 x (activate false (record (w2.nodes x) { tw_prev = none; tw_next = none }))

-- The new node at the head of its bucket.
abbrev pub head_node : Node → ℕ → ℕ → Option ℕ → Node
head_node n deadline_ms slot head = record n {
  tw_slot = slot;
  tw_next = head;
  tw_prev = none;
  conn = record (n.conn) { dl = record (n.conn.dl) { deadline_ms = deadline_ms } };
}

unfoldable pub tw_insert_internal : Wheel → ℕ → ℕ → ℕ → Wheel
unfolding tw_slot_for unlink_next
tw_insert_internal w x now_ms deadline_ms =
    let slot = tw_slot_for w now_ms deadline_ms in
    let head = w.tw_buckets slot in
    let w1 = set_node w x (head_node (w.nodes x) deadline_ms slot head) in
    let w2 = unlink_next w1 head (some x) in
    let w3 = set_bucket w2 slot (some x) in
    if not (w.nodes x).conn.is_open then w else set_node w3 x (activate true (w3.nodes x))

-- `tw_reschedule`. The deadline 0 is none.
unfoldable pub tw_reschedule : Timeouts → Wheel → ℕ → ℕ → Wheel
unfolding tw_remove_internal tw_insert_internal
tw_reschedule g w x now_ms =
    let (deadline, c) = tw_compute_conn_deadline g (w.nodes x).conn in
    let w1 = set_node w x (record (w.nodes x) { conn = c }) in
    let w2 = if is_active (w1.nodes x) then tw_remove_internal w1 x else w1 in
    if deadline == 0 then w2 else tw_insert_internal w2 x now_ms deadline

abbrev pub no_deadline : TimedConn → TimedConn
no_deadline c = record c { dl = record (c.dl) { deadline_kind = dk_none; deadline_ms = 0 } }

unfoldable pub tw_cancel : Wheel → ℕ → Wheel
unfolding tw_remove_internal
tw_cancel w x =
    let w1 = if is_active (w.nodes x) then tw_remove_internal w x else w in
    set_node w1 x (record (w1.nodes x) { conn = no_deadline (w1.nodes x).conn })

abbrev pub change : (TimedConn → TimedConn) → Wheel → ℕ → Wheel
change f w x = set_node w x (record (w.nodes x) { conn = f (w.nodes x).conn })

abbrev pub with_write_start : ℕ → TimedConn → TimedConn
with_write_start t c = record c { dl = record (c.dl) { write_start_ms = t } }

-- conn_deadline.c. `now` is `now_cached_ms`, or the clock when that is 0.
unfoldable pub conn_prepare_close_after_send : Wheel → ℕ → Wheel
unfolding tw_cancel conn_mark_closing
conn_prepare_close_after_send w x = tw_cancel (change conn_mark_closing w x) x

unfoldable pub conn_arm_write_timeout : Timeouts → Wheel → ℕ → ℕ → Wheel
unfolding tw_reschedule
conn_arm_write_timeout g w x now = tw_reschedule g (change (with_write_start now) w x) x now

unfoldable pub conn_clear_write_timeout : Timeouts → Wheel → ℕ → ℕ → Wheel
unfolding tw_reschedule
conn_clear_write_timeout g w x now =
    if (w.nodes x).conn.dl.write_start_ms == 0
    then w
    else tw_reschedule g (change (with_write_start 0) w x) x now

unfoldable pub conn_prepare_431_draining : Timeouts → Wheel → ℕ → ℕ → ℕ → Wheel
unfolding tw_reschedule conn_start_draining
conn_prepare_431_draining g w x start_ms resched_ms =
    tw_reschedule g (change (λ c. conn_start_draining g c start_ms) w x) x resched_ms
