-- ===== src/Deadline/Choice.antt =====
-- Which activity can move which deadline.
use lamseryn.Prelude.{ℕ, ◌+◌, List, [], ◌∷◌, ◌≡◌, refl, ap, ◌∙◌, ◌⊎◌, inl, inr, arith}
use mathlib.Core.List.{foldl}
use lamseryn.Deadline.{
  TimedConn, Timeouts, TwConnState, tw_header_in_progress, tw_draining, tw_conn_get_state,
  tw_compute_conn_deadline, deadline_of, conn_mark_activity, tw_conn_is_write_in_progress,
}

-- What a client can do while the server waits for it: be active, and send bytes to the parser.
pub data Activity : Type 0 where
  active : ℕ → Activity
  received : ℕ → Activity

unfoldable pub act : TimedConn → Activity → TimedConn
unfolding conn_mark_activity
act c (active now) = conn_mark_activity c now
act c (received n) = record c { parser_bytes = c.parser_bytes + n }

-- The states whose deadline does not count from the last activity.
abbrev pub Fixed : TwConnState → Type 0
Fixed s = (s ≡ tw_header_in_progress) ⊎ (s ≡ tw_draining)

record Kept (c d : TimedConn) : Type 0 where
  state : tw_conn_get_state d ≡ tw_conn_get_state c
  header_start : d.dl.header_start_ms ≡ c.dl.header_start_ms
  drain_deadline : d.dl.drain_deadline_ms ≡ c.dl.drain_deadline_ms

act-state :
    (c : TimedConn) (a : Activity)
    → Fixed (tw_conn_get_state c)
    → tw_conn_get_state (act c a) ≡ tw_conn_get_state c
unfolding tw_conn_get_state act tw_conn_is_write_in_progress
act-state c (active now) (inl h) = ground (arith, h)
act-state c (active now) (inr h) = ground (arith, h)
act-state c (received n) (inl h) = ground (arith, h)
act-state c (received n) (inr h) = ground (arith, h)

act-Kept : (c : TimedConn) (a : Activity) → Fixed (tw_conn_get_state c) → Kept c (act c a)
unfolding act
act-Kept c (active now) h = record {
  state = act-state c (active now) h;
  header_start = refl;
  drain_deadline = refl;
}
act-Kept c (received n) h = record {
  state = act-state c (received n) h;
  header_start = refl;
  drain_deadline = refl;
}

run-Kept :
    (evs : List Activity) (c : TimedConn) → Fixed (tw_conn_get_state c) → Kept c (foldl act c evs)
run-Kept [] c h = record { state = refl; header_start = refl; drain_deadline = refl }
run-Kept (a ∷ evs) c h =
    let one = act-Kept c a h in
    let still : Fixed (tw_conn_get_state (act c a)) = elim h [
      | inl e ↦ inl (one.state ∙ e)
      | inr e ↦ inr (one.state ∙ e)
    ] in
    let rest = run-Kept evs (act c a) still in
    record {
      state = rest.state ∙ one.state;
      header_start = rest.header_start ∙ one.header_start;
      drain_deadline = rest.drain_deadline ∙ one.drain_deadline;
    }

deadline_of-Fixed :
    (g : Timeouts) (c d : TimedConn) (s : TwConnState)
    → Fixed s
    → Kept c d
    → (deadline_of g d.dl s) ≡ (deadline_of g c.dl s)
unfolding deadline_of
deadline_of-Fixed g c d s (inl e) k = rw (e, k.header_start) refl
deadline_of-Fixed g c d s (inr e) k = rw (e, k.drain_deadline) refl

-- While a client sends its headers, and while a connection drains, no activity of the client, and
-- no bytes it sends, move the deadline or change its kind.
pub activity-deadline :
    (g : Timeouts) (evs : List Activity) (c : TimedConn)
    → Fixed (tw_conn_get_state c)
    → ((tw_compute_conn_deadline g (foldl act c evs)).0 ≡ (tw_compute_conn_deadline g c).0)
      × ((tw_compute_conn_deadline g (foldl act c evs)).1.dl.deadline_kind
          ≡ (tw_compute_conn_deadline g c).1.dl.deadline_kind)
unfolding tw_compute_conn_deadline
activity-deadline g evs c h =
    let k = run-Kept evs c h in
    let d = foldl act c evs in
    let same : deadline_of g d.dl (tw_conn_get_state d) ≡ deadline_of g c.dl (tw_conn_get_state c) =
      ap (deadline_of g d.dl) k.state ∙ deadline_of-Fixed g c d (tw_conn_get_state c) h k in
    (ap (λ p. p.1) same, ap (λ p. p.0) same)
