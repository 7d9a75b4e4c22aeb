-- ===== src/Tests/Wheel.antt =====
-- Examples for the timing wheel.
use lamseryn.Prelude.{ℕ, List, none, some, ◌≡◌, ◌∷◌, [], refl}
use lamseryn.Wheel.{
  Node, Wheel, tw_slot_for, tw_insert_internal, tw_remove_internal, tw_reschedule, tw_cancel,
}
use lamseryn.Wheel.Linked.{IsLinked}
use lamseryn.Wheel.Removal.{tw_remove_internal-IsLinked}
use lamseryn.Wheel.Insertion.{tw_insert_internal-IsLinked}
use lamseryn.Store.{update}
use lamseryn.Deadline.{tw_compute_conn_deadline}
use lamseryn.Tests.Deadline.{defaults, slow}

abbrev idle_node : Node
idle_node = record { conn = slow; tw_prev = none; tw_next = none; tw_slot = 0 }

abbrev pub wheel : Wheel
wheel = record {
  tw_slots = 8;
  tw_tick_ms = 1000;
  tw_now_tick = 0;
  next_tick_deadline_ms = 2000;
  tw_buckets = λ s. none;
  nodes = λ x. idle_node;
}

-- Three connections with the same deadline, the middle one removed.
abbrev three : Wheel
three =
    tw_insert_internal (tw_insert_internal (tw_insert_internal wheel 1 0 3000) 2 0 3000) 3 0 3000

removes_middle :
    ((tw_remove_internal three 2).tw_buckets 3
      ∷ ((tw_remove_internal three 2).nodes 3).tw_next
      ∷ ((tw_remove_internal three 2).nodes 1).tw_prev
      ∷ [])
    ≡ (some 3 ∷ some 1 ∷ some 3 ∷ [])
unfolding tw_insert_internal tw_remove_internal
removes_middle = refl

-- A deadline of 31 seconds, on a wheel of 8 slots.
reschedules : (tw_reschedule defaults wheel 1 1000).tw_buckets 6 ≡ some 1
unfolding tw_reschedule tw_compute_conn_deadline
reschedules = refl

cancels : (tw_cancel (tw_reschedule defaults wheel 1 1000) 1).tw_buckets 6 ≡ none
unfolding tw_reschedule tw_cancel tw_compute_conn_deadline
cancels = refl

abbrev no_conns_in : ℕ → List ℕ
no_conns_in s = []

wheel-IsLinked : IsLinked wheel no_conns_in
unfolding IsLinked
wheel-IsLinked s = (refl, tt)

abbrev one_in : ℕ → List ℕ
one_in = update no_conns_in 3 (1 ∷ [])

tw_insert_internal-IsLinked_example : IsLinked (tw_insert_internal wheel 1 0 3000) one_in
unfolding tw_slot_for
tw_insert_internal-IsLinked_example =
    tw_insert_internal-IsLinked wheel no_conns_in 1 0 3000 wheel-IsLinked refl refl

two-IsLinked :
    IsLinked
      (tw_insert_internal (tw_insert_internal wheel 1 0 3000) 2 0 3000)
      (update one_in 3 (2 ∷ 1 ∷ []))
unfolding tw_slot_for tw_insert_internal
two-IsLinked =
    tw_insert_internal-IsLinked (tw_insert_internal wheel 1 0 3000) one_in 2 0 3000
      tw_insert_internal-IsLinked_example refl refl

-- The one behind the head is taken out.
tw_remove_internal-IsLinked_example :
    IsLinked
      (tw_remove_internal (tw_insert_internal (tw_insert_internal wheel 1 0 3000) 2 0 3000) 1)
      (update (update one_in 3 (2 ∷ 1 ∷ [])) 3 (2 ∷ []))
tw_remove_internal-IsLinked_example =
    tw_remove_internal-IsLinked (tw_insert_internal (tw_insert_internal wheel 1 0 3000) 2 0 3000)
      (update one_in 3 (2 ∷ 1 ∷ [])) 3 1 (2 ∷ []) [] two-IsLinked refl
