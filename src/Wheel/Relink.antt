-- ===== src/Wheel/Relink.antt =====
-- Putting a connection at the head of a chain, and taking one out of it.
use lamseryn.Prelude.{ℕ, true, Option, none, some, List, [], ◌∷◌, ◌++◌, ◌≡◌, refl, sym, subst, ◌∙◌}
use lamseryn.Wheel.{Node, is_active}
use lamseryn.Wheel.Chain.{Chain, Agrees, AgreesOn, Chain-frame}

-- A node whose backward link is now `p`.
abbrev pub Reprev : Node → Node → Option ℕ → Type 0
Reprev n m p =
    (m.tw_prev ≡ p)
    × (m.tw_next ≡ n.tw_next)
    × (m.tw_slot ≡ n.tw_slot)
    × (is_active m ≡ is_active n)

-- A node whose forward link is now `h`.
abbrev pub Renext : Node → Node → Option ℕ → Type 0
Renext n m h =
    (m.tw_prev ≡ n.tw_prev)
    × (m.tw_next ≡ h)
    × (m.tw_slot ≡ n.tw_slot)
    × (is_active m ≡ is_active n)

module _ (f g : ℕ → Node) (s x : ℕ) where
  -- The head of the chain points back to `p` now, and the rest is as it was.
  abbrev pub HeadTo : Option ℕ → List ℕ → Type 0
  HeadTo p [] = Unit
  HeadTo p (y ∷ ys) = Reprev (f y) (g y) p × AgreesOn f g ys

  -- The last node before `x` points to what follows `x`, and the others are as they were.
  abbrev pub LastTo : List ℕ → Type 0
  LastTo [] = Unit
  LastTo (a ∷ []) = Renext (f a) (g a) (f x).tw_next
  LastTo (a ∷ b ∷ xs) = Agrees (f a) (g a) × LastTo (b ∷ xs)

  pub Chain-head :
      (p p' h : Option ℕ) (ys : List ℕ) → HeadTo p' ys → Chain f s p h ys → Chain g s p' h ys
  Chain-head p p' h [] t c = c
  Chain-head p p' h (y ∷ ys) ((tp, tn, ts, ta), a) (ch, cp, cs, ca, c) = (
    ch,
    tp,
    ts ∙ cs,
    ta ∙ ca,
    subst (λ n. Chain g s (some y) n ys) (sym tn) (Chain-frame f g s (some y) (f y).tw_next ys a c),
  )

  -- A new head.
  pub Chain-cons :
      (h : Option ℕ) (xs : List ℕ)
      → (g x).tw_prev ≡ none
      → (g x).tw_next ≡ h
      → (g x).tw_slot ≡ s
      → is_active (g x) ≡ true
      → HeadTo (some x) xs
      → Chain f s none h xs
      → Chain g s none (some x) (x ∷ xs)
  Chain-cons h xs np nn ns na t c = (
    refl,
    np,
    ns,
    na,
    subst (λ n. Chain g s (some x) n xs) (sym nn) (Chain-head none (some x) h xs t c),
  )

  -- The head of the chain after `x` is taken out, and what stands before the nodes behind it.
  abbrev pub head_without : Option ℕ → List ℕ → Option ℕ
  head_without h [] = (f x).tw_next
  head_without h (a ∷ xs) = h

  pub Chain-remove :
      (p h : Option ℕ) (xs ys : List ℕ)
      → LastTo xs
      → HeadTo (f x).tw_prev ys
      → Chain f s p h (xs ++ x ∷ ys)
      → Chain g s p (head_without h xs) (xs ++ ys)
  Chain-remove p h [] ys l t (ch, cp, cs, ca, c) =
      subst (λ q. Chain g s q (f x).tw_next ys) cp
        (Chain-head (some x) (f x).tw_prev (f x).tw_next ys t c)
  Chain-remove p h (a ∷ []) ys (lp, ln, ls, la) t (ch, cp, cs, ca, c) = (
    ch,
    lp ∙ cp,
    ls ∙ cs,
    la ∙ ca,
    subst (λ n. Chain g s (some a) n ys) (sym ln)
        (Chain-remove (some a) (f a).tw_next [] ys tt t c),
  )
  Chain-remove p h (a ∷ b ∷ xs) ys ((lp, ln, ls, la), l) t (ch, cp, cs, ca, c) = (
    ch,
    lp ∙ cp,
    ls ∙ cs,
    la ∙ ca,
    subst (λ n. Chain g s (some a) n (b ∷ xs ++ ys)) (sym ln)
        (Chain-remove (some a) (f a).tw_next (b ∷ xs) ys l t c),
  )
