-- ===== src/Tests/Deadline.antt =====
-- Examples for the timeouts of connections.
use lamseryn.Prelude.{true, false, none, List, [], ◌∷◌, ◌≡◌, refl, inl}
use mathlib.Core.List.{foldl}
use lamseryn.Tx.{tx_init}
use lamseryn.Deadline.{
  TimedConn, Timeouts, dk_none, tw_compute_conn_deadline, tw_conn_get_state, conn_start_draining,
}
use lamseryn.Deadline.Choice.{Activity, active, received, act, activity-deadline}

abbrev pub defaults : Timeouts
defaults = record {
  keepalive_idle_close_ms = none;
  initial_idle_timeout_ms = none;
  header_timeout_ms = none;
  body_timeout_ms = none;
  write_timeout_ms = none;
  drain_timeout_ms = none;
}

-- A connection on which half a header block has arrived since time 1000.
abbrev pub slow : TimedConn
slow = record {
  dl = record {
    last_active_ms = 1000;
    header_start_ms = 1000;
    header_start_us = 1000000;
    write_start_ms = 0;
    ka_idle = false;
    closing = false;
    draining = false;
    abortive_close = false;
    drain_deadline_ms = 0;
    deadline_kind = dk_none;
    deadline_ms = 0;
    deadline_active = false;
  };
  is_open = true;
  headers_done = false;
  message_done = false;
  parser_bytes = 20;
  tls_enabled = false;
  tls_handshake_done = false;
  tx = tx_init;
}

abbrev drips : List Activity
drips = active 5000 ∷ received 1 ∷ active 9000 ∷ received 1 ∷ []

activity-deadline_example :
    ((tw_compute_conn_deadline defaults (foldl act slow drips)).0
      ≡ (tw_compute_conn_deadline defaults slow).0)
    × ((tw_compute_conn_deadline defaults (foldl act slow drips)).1.dl.deadline_kind
        ≡ (tw_compute_conn_deadline defaults slow).1.dl.deadline_kind)
unfolding tw_conn_get_state
activity-deadline_example = activity-deadline defaults drips slow (inl refl)

header_deadline : (tw_compute_conn_deadline defaults slow).0 ≡ 31000
unfolding tw_compute_conn_deadline
header_deadline = refl

-- A connection that drains has the deadline of the drain, whatever it was doing.
drain_deadline :
    (tw_compute_conn_deadline defaults (conn_start_draining defaults slow 2000)).0 ≡ 4000
unfolding tw_compute_conn_deadline conn_start_draining
drain_deadline = refl
