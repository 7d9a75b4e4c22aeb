-- ===== src/Wheel/Chain.antt =====
-- A bucket as a list of connections.
use lamseryn.Prelude.{
  ℕ, true, false, Option, none, some, List, [], ◌∷◌, ◌≡◌, refl, sym, subst, ◌∙◌, arith, ◌==◌,
  if_both,
}
use lamseryn.Store.{update}
use lamseryn.Wheel.{Node, is_active}

true-false : ¬ (true ≡ false)
true-false e = ground (arith, e)

-- The connections from `h` on, in order; `p` is what comes before them.
abbrev pub Chain : (ℕ → Node) → ℕ → Option ℕ → Option ℕ → List ℕ → Type 0
Chain f s p h [] = h ≡ none
Chain f s p h (x ∷ xs) =
    (h ≡ some x)
    × ((f x).tw_prev ≡ p)
    × ((f x).tw_slot ≡ s)
    × (is_active (f x) ≡ true)
    × Chain f s (some x) (f x).tw_next xs

abbrev pub Misses : ℕ → List ℕ → Type 0
Misses x [] = Unit
Misses x (y ∷ ys) = ((y == x) ≡ false) × Misses x ys

abbrev pub Distinct : List ℕ → Type 0
Distinct [] = Unit
Distinct (x ∷ xs) = Misses x xs × Distinct xs

-- The link fields of two nodes are the same.
abbrev pub Agrees : Node → Node → Type 0
Agrees n m =
    (m.tw_prev ≡ n.tw_prev)
    × (m.tw_next ≡ n.tw_next)
    × (m.tw_slot ≡ n.tw_slot)
    × (is_active m ≡ is_active n)

abbrev pub AgreesOn : (ℕ → Node) → (ℕ → Node) → List ℕ → Type 0
AgreesOn f g [] = Unit
AgreesOn f g (x ∷ xs) = Agrees (f x) (g x) × AgreesOn f g xs

pub Chain-frame :
    (f g : ℕ → Node) (s : ℕ) (p h : Option ℕ) (xs : List ℕ)
    → AgreesOn f g xs
    → Chain f s p h xs
    → Chain g s p h xs
Chain-frame f g s p h [] a c = c
Chain-frame f g s p h (x ∷ xs) ((ap_, an, as_, aa), a) (ch, cp, cs, ca, c) = (
  ch,
  ap_ ∙ cp,
  as_ ∙ cs,
  aa ∙ ca,
  subst (λ n. Chain g s (some x) n xs) (sym an) (Chain-frame f g s (some x) (f x).tw_next xs a c),
)

pub update_here {ℓ} : {A : Type ℓ} (f : ℕ → A) (x : ℕ) (n : A) → update f x n x ≡ n
update_here f x n = if_both (λ m. m ≡ n) (x == x) (λ h. refl) (λ h. absurd (ground (arith, h)))

pub other_node {ℓ} :
    {A : Type ℓ} (f : ℕ → A) (x : ℕ) (n : A) (y : ℕ) → (y == x) ≡ false → update f x n y ≡ f y
other_node f x n y h =
    if_both (λ m. m ≡ f y) (y == x) (λ e. absurd (true-false (sym e ∙ h))) (λ e. refl)

-- A change of a node that is not in the chain.
pub update-AgreesOn :
    (f : ℕ → Node) (x : ℕ) (n : Node) (xs : List ℕ) → Misses x xs → AgreesOn f (update f x n) xs
update-AgreesOn f x n [] m = tt
update-AgreesOn f x n (y ∷ ys) (m, ms) = (
  subst (Agrees (f y)) (sym (other_node f x n y m)) (refl, refl, refl, refl),
  update-AgreesOn f x n ys ms,
)
