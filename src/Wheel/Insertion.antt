-- ===== src/Wheel/Insertion.antt =====
-- `tw_insert_internal` on the buckets as lists.
use lamseryn.Prelude.{
  ℕ, true, false, not, Option, none, some, List, [], ◌∷◌, ◌≡◌, refl, sym, ap, subst, ◌∙◌, ◌==◌,
  arith, if_both,
}
use lamseryn.Store.{update}
use lamseryn.Wheel.{
  Wheel, Node, is_active, activate, set_node, set_bucket, unlink_next, tw_insert_internal,
  tw_slot_for, head_node,
}
use lamseryn.Wheel.Chain.{
  Chain, Misses, Distinct, AgreesOn, Chain-frame, update_here, other_node, update-AgreesOn,
}
use lamseryn.Wheel.Relink.{HeadTo, Chain-cons}
use lamseryn.Wheel.Apart.{
  ==_sym, bucket-InSlot, Chain-first, NotIn, first, Chain-idle, InSlot, InSlot-NotIn,
}
use lamseryn.Wheel.Unlink.{
  AgreesOn-trans, AgreesOn-HeadTo, HeadTo-AgreesOn, to_prev, to_prev-AgreesOn, to_prev-HeadTo,
}
use lamseryn.Wheel.Linked.{IsLinked, unlink_next-nodes, unlink_next-buckets, ==_eq}

first-other : (x : ℕ) (xs : List ℕ) → Misses x xs → NotIn (first xs) (x ∷ [])
first-other x [] m = tt
first-other x (y ∷ ys) (m, ms) = (==_sym y x m, tt)

to_prev-other : (f : ℕ → Node) (o p : Option ℕ) (x : ℕ) → NotIn o (x ∷ []) → to_prev f o p x ≡ f x
to_prev-other f none p x m = refl
to_prev-other f (some l) p x m = other_node f l (record (f l) { tw_prev = p }) x m.0

-- What the insertion does to the nodes.
abbrev pub inserted : (ℕ → Node) → ℕ → Node → Option ℕ → ℕ → Node
inserted f x n head =
    let g = to_prev (update f x n) head (some x) in update g x (activate true (g x))

-- The insertion into a bucket.
pub placed : Wheel → ℕ → ℕ → ℕ → Wheel
placed w x deadline slot =
    let head = w.tw_buckets slot in
    let w1 = set_node w x (head_node (w.nodes x) deadline slot head) in
    let w2 = unlink_next w1 head (some x) in
    let w3 = set_bucket w2 slot (some x) in set_node w3 x (activate true (w3.nodes x))

tw_insert_internal-placed :
    (w : Wheel) (x now deadline : ℕ)
    → (w.nodes x).conn.is_open ≡ true
    → tw_insert_internal w x now deadline ≡ placed w x deadline (tw_slot_for w now deadline)
unfolding tw_insert_internal placed
tw_insert_internal-placed w x now deadline is_open_ =
    if_both (λ (v : Wheel). v ≡ placed w x deadline (tw_slot_for w now deadline))
      (not (w.nodes x).conn.is_open) (λ e. absurd (ground (arith, e, is_open_))) (λ e. refl)

placed-nodes :
    (w : Wheel) (x deadline s : ℕ)
    → (placed w x deadline s).nodes
      ≡ inserted w.nodes x (head_node (w.nodes x) deadline s (w.tw_buckets s)) (w.tw_buckets s)
unfolding placed
placed-nodes w x deadline s =
    let n = head_node (w.nodes x) deadline s (w.tw_buckets s) in
    ap (λ (g : ℕ → Node). update g x (activate true (g x)))
      (unlink_next-nodes (set_node w x n) (w.tw_buckets s) (some x))

placed-buckets :
    (w : Wheel) (x deadline s : ℕ)
    → (placed w x deadline s).tw_buckets ≡ update w.tw_buckets s (some x)
unfolding placed
placed-buckets w x deadline s =
    let n = head_node (w.nodes x) deadline s (w.tw_buckets s) in
    ap (λ (b : ℕ → Option ℕ). update b s (some x))
      (unlink_next-buckets (set_node w x n) (w.tw_buckets s) (some x))

inserted-AgreesOn :
    (f : ℕ → Node) (x : ℕ) (n : Node) (head : Option ℕ) (zs : List ℕ)
    → Misses x zs
    → NotIn head zs
    → AgreesOn f (inserted f x n head) zs
inserted-AgreesOn f x n head zs m k =
    let f1 = update f x n in
    let f2 = to_prev f1 head (some x) in
    AgreesOn-trans f f1 (inserted f x n head) zs (update-AgreesOn f x n zs m) (
      AgreesOn-trans f1 f2 (inserted f x n head) zs (to_prev-AgreesOn f1 head (some x) zs k)
        (update-AgreesOn f2 x (activate true (f2 x)) zs m))

inserted-HeadTo :
    (f : ℕ → Node) (s x : ℕ) (n : Node) (zs : List ℕ)
    → Misses x zs
    → Distinct zs
    → HeadTo f (inserted f x n (first zs)) s x (some x) zs
inserted-HeadTo f s x n zs m d =
    let f1 = update f x n in
    let f2 = to_prev f1 (first zs) (some x) in
    HeadTo-AgreesOn f f2 (inserted f x n (first zs)) s x (some x) zs
      (AgreesOn-HeadTo f f1 f2 s x (some x) zs (update-AgreesOn f x n zs m)
        (to_prev-HeadTo f1 s x (some x) zs d))
      (update-AgreesOn f2 x (activate true (f2 x)) zs m)

inserted-here :
    (f : ℕ → Node) (x : ℕ) (n : Node) (head : Option ℕ)
    → NotIn head (x ∷ [])
    → inserted f x n head x ≡ activate true n
inserted-here f x n head k =
    let f1 = update f x n in
    let f2 = to_prev f1 head (some x) in
    update_here f2 x (activate true (f2 x))
    ∙ ap (activate true) (to_prev-other f1 head (some x) x k ∙ update_here f x n)

inserted-Chain :
    (f : ℕ → Node) (s x deadline : ℕ) (h : Option ℕ) (zs : List ℕ)
    → Chain f s none h zs
    → Misses x zs
    → Distinct zs
    → Chain (inserted f x (head_node (f x) deadline s h) h) s none (some x) (x ∷ zs)
inserted-Chain f s x deadline h zs c m d =
    let n = head_node (f x) deadline s h in
    let head = Chain-first f s none h zs c in
    let g = inserted f x n h in
    let here : g x ≡ activate true n =
      inserted-here f x n h (subst (λ o. NotIn o (x ∷ [])) (sym head) (first-other x zs m)) in
    Chain-cons f g s x h zs (ap (λ (k : Node). k.tw_prev) here) (ap (λ (k : Node). k.tw_next) here)
      (ap (λ (k : Node). k.tw_slot) here) (ap (λ (k : Node). is_active k) here)
      (subst (λ o. HeadTo f (inserted f x n o) s x (some x) zs) (sym head)
        (inserted-HeadTo f s x n zs m d))
      c

Bucket : Wheel → ℕ → List ℕ → Type 0
Bucket w s l = Chain w.nodes s none (w.tw_buckets s) l × Distinct l

module _ (w : Wheel) (ls : ℕ → List ℕ) (x deadline s : ℕ) (linked : IsLinked w ls)
    (idle : is_active (w.nodes x) ≡ false) where
  misses : (t : ℕ) → Misses x (ls t)
  unfolding IsLinked
  misses t = Chain-idle w.nodes t none (w.tw_buckets t) (ls t) x (linked t).0 idle

  placed_here : Bucket (placed w x deadline s) s (x ∷ ls s)
  unfolding IsLinked Bucket
  placed_here = (
    subst (λ b. Chain (placed w x deadline s).nodes s none b (x ∷ ls s))
        (sym (
          ap (λ (b : ℕ → Option ℕ). b s) (placed-buckets w x deadline s)
          ∙ update_here w.tw_buckets s (some x)))
        (subst (λ g. Chain g s none (some x) (x ∷ ls s)) (sym (placed-nodes w x deadline s))
          (inserted-Chain w.nodes s x deadline (w.tw_buckets s) (ls s) (linked s).0 (misses s)
            (linked s).1)),
    (misses s, (linked s).1),
  )

  placed_other : (t : ℕ) → (t == s) ≡ false → Bucket (placed w x deadline s) t (ls t)
  unfolding IsLinked Bucket
  placed_other t e =
      let f = w.nodes in
      let h = w.tw_buckets s in
      let head = Chain-first f s none h (ls s) (linked s).0 in
      let out : NotIn h (ls t) =
        InSlot-NotIn f s t h none (w.tw_buckets t) (ls t)
          (subst (InSlot f s) (sym head) (bucket-InSlot f s none h (ls s) (linked s).0))
          (==_sym t s e) (linked t).0 in
      let agrees : AgreesOn f (placed w x deadline s).nodes (ls t) =
        subst (λ g. AgreesOn f g (ls t)) (sym (placed-nodes w x deadline s))
          (inserted-AgreesOn f x (head_node (f x) deadline s h) h (ls t) (misses t) out) in
      (
        subst (λ b. Chain (placed w x deadline s).nodes t none b (ls t))
            (sym (
              ap (λ (b : ℕ → Option ℕ). b t) (placed-buckets w x deadline s)
              ∙ other_node w.tw_buckets s (some x) t e))
            (Chain-frame f (placed w x deadline s).nodes t none (w.tw_buckets t) (ls t) agrees
              (linked t).0),
        (linked t).1,
      )

  placed-IsLinked : IsLinked (placed w x deadline s) (update ls s (x ∷ ls s))
  unfolding IsLinked Bucket
  placed-IsLinked t =
      if_both (Bucket (placed w x deadline s) t) (t == s)
        (λ e.
          subst (λ k. Bucket (placed w x deadline s) k (x ∷ ls s)) (sym (==_eq t s e)) placed_here)
        (λ e. placed_other t e)

-- An open connection that is not active is put at the head of the bucket of its deadline, and all the others stay where they are.
pub tw_insert_internal-IsLinked :
    (w : Wheel) (ls : ℕ → List ℕ) (x now deadline : ℕ)
    → IsLinked w ls
    → (w.nodes x).conn.is_open ≡ true
    → is_active (w.nodes x) ≡ false
    → IsLinked
        (tw_insert_internal w x now deadline)
        (update ls (tw_slot_for w now deadline) (x ∷ ls (tw_slot_for w now deadline)))
tw_insert_internal-IsLinked w ls x now deadline linked is_open_ idle =
    let s = tw_slot_for w now deadline in
    subst (λ (v : Wheel). IsLinked v (update ls s (x ∷ ls s)))
      (sym (tw_insert_internal-placed w x now deadline is_open_))
      (placed-IsLinked w ls x deadline s linked idle)
