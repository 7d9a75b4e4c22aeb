-- ===== src/Wheel/Linked.antt =====
-- The buckets of the timing wheel as lists.
use lamseryn.Prelude.{ℕ, true, Option, none, some, List, ◌≡◌, refl, ◌==◌, arith}
use lamseryn.Wheel.{Wheel, unlink_prev, unlink_next}
use lamseryn.Wheel.Chain.{Chain, Distinct}
use lamseryn.Wheel.Unlink.{to_next, to_prev}

-- Every bucket is a list of different connections that are active, have the slot of the bucket, and are linked in both directions.
unfoldable pub IsLinked : Wheel → (ℕ → List ℕ) → Type 0
IsLinked w ls = (s : ℕ) → Chain w.nodes s none (w.tw_buckets s) (ls s) × Distinct (ls s)

pub unlink_prev-nodes :
    (w : Wheel) (o : Option ℕ) (s : ℕ) (n : Option ℕ)
    → (unlink_prev w o s n).nodes ≡ to_next w.nodes o n
unfolding unlink_prev
unlink_prev-nodes w none s n = refl
unlink_prev-nodes w (some p) s n = refl

pub unlink_next-nodes :
    (w : Wheel) (o p : Option ℕ) → (unlink_next w o p).nodes ≡ to_prev w.nodes o p
unfolding unlink_next
unlink_next-nodes w none p = refl
unlink_next-nodes w (some q) p = refl

pub unlink_next-buckets :
    (w : Wheel) (o p : Option ℕ) → (unlink_next w o p).tw_buckets ≡ w.tw_buckets
unfolding unlink_next
unlink_next-buckets w none p = refl
unlink_next-buckets w (some q) p = refl

pub ==_eq : (t s : ℕ) → (t == s) ≡ true → t ≡ s
==_eq t s e = ground (arith, e)
