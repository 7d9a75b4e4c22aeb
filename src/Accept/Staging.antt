-- ===== src/Accept/Staging.antt =====
-- What the staging of requests does to the accepts and timeouts that were staged.
use lamseryn.Prelude.{ℕ, ◌+◌, Bool, List, [], ◌∷◌, ◌≡◌, refl, ap, ◌∙◌, arith, Bool-cases, inl, inr}
use lamseryn.Accept.{
  accept_sqe, cancel_fd, timeout, RingEvent, staged, submitted, Ring, submit, take_grant,
  get_sqe_batching, post, maybe_flush, Listener, stage_cancels,
}

-- The descriptors of the staged accepts, the latest first.
abbrev pub accepts : List RingEvent → List ℕ
accepts [] = []
accepts (staged (accept_sqe multi fd op) ∷ es) = fd ∷ accepts es
accepts (staged (cancel_fd fd) ∷ es) = accepts es
accepts (staged (timeout ms) ∷ es) = accepts es
accepts (submitted ∷ es) = accepts es

abbrev pub timeouts : List RingEvent → ℕ
timeouts [] = 0
timeouts (staged (timeout ms) ∷ es) = timeouts es + 1
timeouts (staged (cancel_fd fd) ∷ es) = timeouts es
timeouts (staged (accept_sqe multi fd op) ∷ es) = timeouts es
timeouts (submitted ∷ es) = timeouts es

-- No accept and no timeout was staged in between.
abbrev pub Same : Ring → Ring → Type 0
Same r s = (accepts s.out ≡ accepts r.out) × (timeouts s.out ≡ timeouts r.out)

pub Same-trans : (r s t : Ring) → Same r s → Same s t → Same r t
Same-trans r s t a b = (b.0 ∙ a.0, b.1 ∙ a.1)

take_grant-out : (r : Ring) → (take_grant r).1.out ≡ r.out
unfolding take_grant
take_grant-out r = ground arith

pub get_sqe_batching-Same : (r : Ring) → Same r (get_sqe_batching r).1
unfolding get_sqe_batching
get_sqe_batching-Same r =
    let first = take_grant-out r in
    let again = take_grant-out (submit (take_grant r).1) in
    elim (Bool-cases (take_grant r).0) [
      | inl e ↦ rw e (ap accepts first, ap timeouts first)
      | inr e ↦ rw e (ap accepts again ∙ ap accepts first, ap timeouts again ∙ ap timeouts first)
    ]

pub maybe_flush-Same : (urgent : Bool) (r : Ring) → Same r (maybe_flush urgent r)
unfolding maybe_flush
maybe_flush-Same urgent r = ground arith

pub stage_cancels-Same : (ls : List Listener) (r : Ring) → Same r (stage_cancels ls r).1
unfolding stage_cancels
stage_cancels-Same [] r = (refl, refl)
stage_cancels-Same (l ∷ ls) r =
    let (got, s) = get_sqe_batching r in
    let first = get_sqe_batching-Same r in
    let rest = stage_cancels-Same ls (post (cancel_fd l.fd) s) in
    elim (Bool-cases got) [
      | inl e ↦ rw e (Same-trans r s (stage_cancels ls (post (cancel_fd l.fd) s)).1 first rest)
      | inr e ↦ rw e first
    ]
