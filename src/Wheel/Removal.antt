-- ===== src/Wheel/Removal.antt =====
-- `tw_remove_internal` on the buckets as lists.
use lamseryn.Prelude.{
  ℕ, true, false, not, Option, none, some, List, [], ◌∷◌, ◌++◌, ◌≡◌, refl, sym, ap, subst, ◌∙◌,
  ◌==◌, arith, if_both,
}
use lamseryn.Store.{update}
use lamseryn.Wheel.{
  Wheel, Node, is_active, activate, set_node, unlink_prev, unlink_next, tw_remove_internal,
}
use lamseryn.Wheel.Chain.{
  Chain, Misses, Distinct, AgreesOn, Chain-frame, update_here, other_node, update-AgreesOn,
}
use lamseryn.Wheel.Relink.{HeadTo, LastTo, Chain-remove, head_without}
use lamseryn.Wheel.Apart.{
  ==_sym, NotIn, last_or, first, Distinct-left, Distinct-right, Distinct-without, Distinct-prefix,
  Distinct-suffix, Chain-prev, Chain-next, Chain-here, last_or-NotIn, first-NotIn, Chain-Misses,
  InSlot, last_or-InSlot, first-InSlot, InSlot-NotIn,
}
use lamseryn.Wheel.Unlink.{
  AgreesOn-trans, AgreesOn-HeadTo, HeadTo-AgreesOn, LastTo-AgreesOn, to_next, to_prev,
  to_next-AgreesOn, to_prev-AgreesOn, to_prev-HeadTo, to_next-LastTo,
}
use lamseryn.Wheel.Linked.{
  IsLinked, unlink_prev-nodes, unlink_next-nodes, unlink_next-buckets, ==_eq,
}

-- The connection without its links.
abbrev pub loose : Node → Node
loose n = activate false (record n { tw_prev = none; tw_next = none })

-- What the removal does to the nodes.
abbrev pub removed : (ℕ → Node) → ℕ → Option ℕ → Option ℕ → ℕ → Node
removed f x p n = let g = to_prev (to_next f p n) n p in update g x (loose (g x))

abbrev pub buckets_without : Option ℕ → (ℕ → Option ℕ) → ℕ → Option ℕ → ℕ → Option ℕ
buckets_without none b s n = update b s n
buckets_without (some p) b s n = b

unlink_prev-buckets :
    (w : Wheel) (o : Option ℕ) (s : ℕ) (n : Option ℕ)
    → (unlink_prev w o s n).tw_buckets ≡ buckets_without o w.tw_buckets s n
unfolding unlink_prev
unlink_prev-buckets w none s n = refl
unlink_prev-buckets w (some p) s n = refl

NotIn-tail : (o : Option ℕ) (x : ℕ) (ys : List ℕ) → NotIn o (x ∷ ys) → NotIn o ys
NotIn-tail none x ys n = tt
NotIn-tail (some y) x ys n = n.1

removed-AgreesOn :
    (f : ℕ → Node) (x : ℕ) (p n : Option ℕ) (zs : List ℕ)
    → NotIn p zs
    → NotIn n zs
    → Misses x zs
    → AgreesOn f (removed f x p n) zs
removed-AgreesOn f x p n zs mp mn mx =
    let f1 = to_next f p n in
    let f2 = to_prev f1 n p in
    AgreesOn-trans f f1 (removed f x p n) zs (to_next-AgreesOn f p n zs mp) (
      AgreesOn-trans f1 f2 (removed f x p n) zs (to_prev-AgreesOn f1 n p zs mn)
        (update-AgreesOn f2 x (loose (f2 x)) zs mx))

-- The nodes of the bucket of `x` after the removal: its two neighbours are relinked.
removed-Chain :
    (f g : ℕ → Node) (s x : ℕ) (h : Option ℕ) (xs ys : List ℕ)
    → g ≡ removed f x (f x).tw_prev (f x).tw_next
    → Chain f s none h (xs ++ x ∷ ys)
    → Distinct (xs ++ x ∷ ys)
    → Chain g s none (head_without f g s x h xs) (xs ++ ys)
removed-Chain f g s x h xs ys e c d =
    let p = (f x).tw_prev in
    let n = (f x).tw_next in
    let cp : p ≡ last_or none xs = Chain-prev f s none h xs x ys c in
    let cn : n ≡ first ys = Chain-next f s none h xs x ys c in
    let f1 = to_next f p n in
    let f2 = to_prev f1 n p in
    let f3 = removed f x p n in
    let l1 : LastTo f f1 s x xs =
      subst (λ q. LastTo f (to_next f q n) s x xs) (sym cp)
        (to_next-LastTo f s x none xs (Distinct-prefix xs (x ∷ ys) d)) in
    let a2 : AgreesOn f1 f2 xs =
      to_prev-AgreesOn f1 n p xs (subst (λ q. NotIn q xs) (sym cn) (first-NotIn xs x ys d)) in
    let a3 : AgreesOn f2 f3 xs = update-AgreesOn f2 x (loose (f2 x)) xs (Distinct-left xs x ys d) in
    let b1 : AgreesOn f f1 ys = to_next-AgreesOn f p n ys (
      subst (λ q. NotIn q ys) (sym cp)
        (NotIn-tail (last_or none xs) x ys (last_or-NotIn none xs x ys d tt))) in
    let b2 : HeadTo f1 f2 s x p ys =
      subst (λ q. HeadTo f1 (to_prev f1 q p) s x p ys) (sym cn)
        (to_prev-HeadTo f1 s x p ys (Distinct-suffix xs x ys d)) in
    let b3 : AgreesOn f2 f3 ys =
      update-AgreesOn f2 x (loose (f2 x)) ys (Distinct-right xs x ys d) in
    let last : LastTo f f3 s x xs =
      LastTo-AgreesOn f f2 f3 s x xs (LastTo-AgreesOn f f1 f2 s x xs l1 a2) a3 in
    let head : HeadTo f f3 s x p ys =
      HeadTo-AgreesOn f f2 f3 s x p ys (AgreesOn-HeadTo f f1 f2 s x p ys b1 b2) b3 in
    subst (λ k. Chain k s none (head_without f k s x h xs) (xs ++ ys)) (sym e)
      (Chain-remove f f3 s x none h xs ys last head c)

last_or-some : (a : ℕ) (xs : List ℕ) → (l : ℕ) × (last_or (some a) xs ≡ some l)
last_or-some a [] = (a, refl)
last_or-some a (b ∷ xs) = last_or-some b xs

-- The head of the bucket after the removal.
buckets-here :
    (f g : ℕ → Node) (b : ℕ → Option ℕ) (s x : ℕ) (xs : List ℕ) (p : Option ℕ)
    → p ≡ last_or none xs
    → buckets_without p b s (f x).tw_next s ≡ head_without f g s x (b s) xs
buckets-here f g b s x [] p e =
    subst (λ q. buckets_without q b s (f x).tw_next s ≡ (f x).tw_next) (sym e)
      (update_here b s (f x).tw_next)
buckets-here f g b s x (a ∷ xs) p e =
    let (l, k) = last_or-some a xs in
    subst (λ q. buckets_without q b s (f x).tw_next s ≡ b s) (sym (e ∙ k)) refl

buckets-other :
    (b : ℕ → Option ℕ) (s t : ℕ) (p n : Option ℕ)
    → (t == s) ≡ false
    → buckets_without p b s n t ≡ b t
buckets-other b s t none n e = other_node b s n t e
buckets-other b s t (some l) n e = refl

to_next-other :
    (f : ℕ → Node) (o n : Option ℕ) (x : ℕ) (ys : List ℕ) → NotIn o (x ∷ ys) → to_next f o n x ≡ f x
to_next-other f none n x ys m = refl
to_next-other f (some l) n x ys m = other_node f l (record (f l) { tw_next = n }) x m.0

abbrev loosened : (ℕ → Node) → ℕ → ℕ → Node
loosened g x = update g x (loose (g x))

-- What the rest of the removal does, after the write through the backward link.
rest_removed : Wheel → ℕ → Wheel
rest_removed w1 x =
    let w2 = unlink_next w1 (w1.nodes x).tw_next (w1.nodes x).tw_prev in
    set_node w2 x (activate false (record (w2.nodes x) { tw_prev = none; tw_next = none }))

rest_removed-nodes :
    (w1 : Wheel) (x : ℕ) (m : Node)
    → w1.nodes x ≡ m
    → (rest_removed w1 x).nodes ≡ loosened (to_prev w1.nodes m.tw_next m.tw_prev) x
unfolding rest_removed
rest_removed-nodes w1 x m e =
    ap (λ g. loosened g x)
      (unlink_next-nodes w1 (w1.nodes x).tw_next (w1.nodes x).tw_prev
        ∙ ap (λ (k : Node). to_prev w1.nodes k.tw_next k.tw_prev) e)

rest_removed-buckets : (w1 : Wheel) (x : ℕ) → (rest_removed w1 x).tw_buckets ≡ w1.tw_buckets
unfolding rest_removed
rest_removed-buckets w1 x = unlink_next-buckets w1 (w1.nodes x).tw_next (w1.nodes x).tw_prev

tw_remove_internal-rest :
    (w : Wheel) (x : ℕ)
    → is_active (w.nodes x) ≡ true
    → tw_remove_internal w x
      ≡ rest_removed (unlink_prev w (w.nodes x).tw_prev (w.nodes x).tw_slot (w.nodes x).tw_next) x
unfolding tw_remove_internal rest_removed
tw_remove_internal-rest w x active =
    if_both
      (λ (v : Wheel).
        v
        ≡ rest_removed (unlink_prev w (w.nodes x).tw_prev (w.nodes x).tw_slot (w.nodes x).tw_next)
            x)
      (not (is_active (w.nodes x))) (λ e. absurd (ground (arith, e, active))) (λ e. refl)

tw_remove_internal-nodes :
    (w : Wheel) (x : ℕ) (ys : List ℕ)
    → is_active (w.nodes x) ≡ true
    → NotIn (w.nodes x).tw_prev (x ∷ ys)
    → (tw_remove_internal w x).nodes ≡ removed w.nodes x (w.nodes x).tw_prev (w.nodes x).tw_next
tw_remove_internal-nodes w x ys active m =
    let n = w.nodes x in
    let w1 = unlink_prev w n.tw_prev n.tw_slot n.tw_next in
    let g = unlink_prev-nodes w n.tw_prev n.tw_slot n.tw_next in
    let here : w1.nodes x ≡ n =
      ap (λ (f : ℕ → Node). f x) g ∙ to_next-other w.nodes n.tw_prev n.tw_next x ys m in
    ap (λ (v : Wheel). v.nodes) (tw_remove_internal-rest w x active)
    ∙ rest_removed-nodes w1 x n here
    ∙ ap (λ (f : ℕ → Node). loosened (to_prev f n.tw_next n.tw_prev) x) g

tw_remove_internal-buckets :
    (w : Wheel) (x : ℕ)
    → is_active (w.nodes x) ≡ true
    → (tw_remove_internal w x).tw_buckets
      ≡ buckets_without (w.nodes x).tw_prev w.tw_buckets (w.nodes x).tw_slot (w.nodes x).tw_next
tw_remove_internal-buckets w x active =
    let n = w.nodes x in
    let w1 = unlink_prev w n.tw_prev n.tw_slot n.tw_next in
    ap (λ (v : Wheel). v.tw_buckets) (tw_remove_internal-rest w x active)
    ∙ rest_removed-buckets w1 x
    ∙ unlink_prev-buckets w n.tw_prev n.tw_slot n.tw_next

module _ (w : Wheel) (ls : ℕ → List ℕ) (s x : ℕ) (xs ys : List ℕ) (linked : IsLinked w ls)
    (place : ls s ≡ xs ++ x ∷ ys) where
  here_Chain : Chain w.nodes s none (w.tw_buckets s) (xs ++ x ∷ ys)
  unfolding IsLinked
  here_Chain = subst (Chain w.nodes s none (w.tw_buckets s)) place (linked s).0

  here_Distinct : Distinct (xs ++ x ∷ ys)
  unfolding IsLinked
  here_Distinct = subst Distinct place (linked s).1

  nodes_after :
      (tw_remove_internal w x).nodes ≡ removed w.nodes x (w.nodes x).tw_prev (w.nodes x).tw_next
  nodes_after =
      let (slot, active) = Chain-here w.nodes s none (w.tw_buckets s) xs x ys here_Chain in
      let cp = Chain-prev w.nodes s none (w.tw_buckets s) xs x ys here_Chain in
      tw_remove_internal-nodes w x ys active
        (subst (λ o. NotIn o (x ∷ ys)) (sym cp) (last_or-NotIn none xs x ys here_Distinct tt))

  after_here :
      Chain (tw_remove_internal w x).nodes s none ((tw_remove_internal w x).tw_buckets s) (xs ++ ys)
      × Distinct (xs ++ ys)
  after_here =
      let f = w.nodes in
      let c = here_Chain in
      let d = here_Distinct in
      let g = (tw_remove_internal w x).nodes in
      let (slot, active) = Chain-here f s none (w.tw_buckets s) xs x ys c in
      let cp = Chain-prev f s none (w.tw_buckets s) xs x ys c in
      let bucket : (tw_remove_internal w x).tw_buckets s
          ≡ head_without f g s x (w.tw_buckets s) xs =
        ap (λ (b : ℕ → Option ℕ). b s) (tw_remove_internal-buckets w x active)
        ∙ ap (λ k. buckets_without (f x).tw_prev w.tw_buckets k (f x).tw_next s) slot
        ∙ buckets-here f g w.tw_buckets s x xs (f x).tw_prev cp in
      (
        subst (λ k. Chain g s none k (xs ++ ys)) (sym bucket)
            (removed-Chain f g s x (w.tw_buckets s) xs ys nodes_after c d),
        Distinct-without xs x ys d,
      )

  after_other :
      (t : ℕ)
      → (t == s) ≡ false
      → Chain (tw_remove_internal w x).nodes t none ((tw_remove_internal w x).tw_buckets t) (ls t)
        × Distinct (ls t)
  unfolding IsLinked
  after_other t e =
      let f = w.nodes in
      let c = here_Chain in
      let (slot, active) = Chain-here f s none (w.tw_buckets s) xs x ys c in
      let apart = ==_sym t s e in
      let kept = (linked t).0 in
      let prev_out : NotIn (f x).tw_prev (ls t) =
        InSlot-NotIn f s t (f x).tw_prev none (w.tw_buckets t) (ls t)
          (subst (InSlot f s) (sym (Chain-prev f s none (w.tw_buckets s) xs x ys c))
            (last_or-InSlot f s none (w.tw_buckets s) xs (x ∷ ys) c tt))
          apart kept in
      let next_out : NotIn (f x).tw_next (ls t) =
        InSlot-NotIn f s t (f x).tw_next none (w.tw_buckets t) (ls t)
          (subst (InSlot f s) (sym (Chain-next f s none (w.tw_buckets s) xs x ys c))
            (first-InSlot f s none (w.tw_buckets s) xs x ys c))
          apart kept in
      let out : Misses x (ls t) =
        Chain-Misses f t none (w.tw_buckets t) (ls t) x kept
          (subst (λ k. (k == t) ≡ false) (sym slot) apart) in
      let bucket : (tw_remove_internal w x).tw_buckets t ≡ w.tw_buckets t =
        ap (λ (b : ℕ → Option ℕ). b t) (tw_remove_internal-buckets w x active)
        ∙ ap (λ k. buckets_without (f x).tw_prev w.tw_buckets k (f x).tw_next t) slot
        ∙ buckets-other w.tw_buckets s t (f x).tw_prev (f x).tw_next e in
      let agrees : AgreesOn f (tw_remove_internal w x).nodes (ls t) =
        subst (λ k. AgreesOn f k (ls t)) (sym nodes_after)
          (removed-AgreesOn f x (f x).tw_prev (f x).tw_next (ls t) prev_out next_out out) in
      (
        subst (λ k. Chain (tw_remove_internal w x).nodes t none k (ls t)) (sym bucket)
            (Chain-frame f (tw_remove_internal w x).nodes t none (w.tw_buckets t) (ls t) agrees
              kept),
        (linked t).1,
      )

  -- A connection is taken out of its bucket, and all the others stay where they are.
  pub tw_remove_internal-IsLinked : IsLinked (tw_remove_internal w x) (update ls s (xs ++ ys))
  unfolding IsLinked
  tw_remove_internal-IsLinked t =
      if_both
        (λ (l : List ℕ).
          Chain (tw_remove_internal w x).nodes t none ((tw_remove_internal w x).tw_buckets t) l
          × Distinct l)
        (t == s)
        (λ e.
          subst
            (λ k.
              Chain (tw_remove_internal w x).nodes k none ((tw_remove_internal w x).tw_buckets k)
                (xs ++ ys)
              × Distinct (xs ++ ys))
            (sym (==_eq t s e)) after_here)
        (λ e. after_other t e)
