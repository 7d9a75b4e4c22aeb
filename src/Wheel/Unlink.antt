-- ===== src/Wheel/Unlink.antt =====
-- The writes by which a connection is taken out of its bucket.
use lamseryn.Prelude.{ℕ, false, Option, none, some, List, [], ◌∷◌, ◌≡◌, refl, sym, subst, ◌∙◌, ◌==◌}
use lamseryn.Store.{update}
use lamseryn.Wheel.{Node}
use lamseryn.Wheel.Chain.{Misses, Distinct, AgreesOn, update_here, update-AgreesOn}
use lamseryn.Wheel.Relink.{Reprev, Renext, HeadTo, LastTo}
use lamseryn.Wheel.Apart.{==_sym, NotIn, last_or, first}

pub AgreesOn-trans :
    (f g k : ℕ → Node) (xs : List ℕ) → AgreesOn f g xs → AgreesOn g k xs → AgreesOn f k xs
AgreesOn-trans f g k [] a b = tt
AgreesOn-trans f g k (x ∷ xs) ((a1, a2, a3, a4), a) ((b1, b2, b3, b4), b) =
    ((b1 ∙ a1, b2 ∙ a2, b3 ∙ a3, b4 ∙ a4), AgreesOn-trans f g k xs a b)

pub AgreesOn-HeadTo :
    (f g k : ℕ → Node) (s x : ℕ) (p : Option ℕ) (ys : List ℕ)
    → AgreesOn f g ys
    → HeadTo g k s x p ys
    → HeadTo f k s x p ys
AgreesOn-HeadTo f g k s x p [] a t = tt
AgreesOn-HeadTo f g k s x p (y ∷ ys) ((a1, a2, a3, a4), a) ((tp, tn, ts, ta), t) =
    ((tp, tn ∙ a2, ts ∙ a3, ta ∙ a4), AgreesOn-trans f g k ys a t)

pub HeadTo-AgreesOn :
    (f g k : ℕ → Node) (s x : ℕ) (p : Option ℕ) (ys : List ℕ)
    → HeadTo f g s x p ys
    → AgreesOn g k ys
    → HeadTo f k s x p ys
HeadTo-AgreesOn f g k s x p [] t a = tt
HeadTo-AgreesOn f g k s x p (y ∷ ys) ((tp, tn, ts, ta), t) ((a1, a2, a3, a4), a) =
    ((a1 ∙ tp, a2 ∙ tn, a3 ∙ ts, a4 ∙ ta), AgreesOn-trans f g k ys t a)

pub LastTo-AgreesOn :
    (f g k : ℕ → Node) (s x : ℕ) (xs : List ℕ)
    → LastTo f g s x xs
    → AgreesOn g k xs
    → LastTo f k s x xs
LastTo-AgreesOn f g k s x [] t a = tt
LastTo-AgreesOn f g k s x (y ∷ []) (tp, tn, ts, ta) ((a1, a2, a3, a4), a) =
    (a1 ∙ tp, a2 ∙ tn, a3 ∙ ts, a4 ∙ ta)
LastTo-AgreesOn f g k s x (y ∷ z ∷ xs) ((tp, tn, ts, ta), t) ((a1, a2, a3, a4), a) =
    ((a1 ∙ tp, a2 ∙ tn, a3 ∙ ts, a4 ∙ ta), LastTo-AgreesOn f g k s x (z ∷ xs) t a)

-- The writes through the backward link and through the forward link.
abbrev pub to_next : (ℕ → Node) → Option ℕ → Option ℕ → ℕ → Node
to_next f none n = f
to_next f (some l) n = update f l (record (f l) { tw_next = n })

abbrev pub to_prev : (ℕ → Node) → Option ℕ → Option ℕ → ℕ → Node
to_prev f none p = f
to_prev f (some q) p = update f q (record (f q) { tw_prev = p })

Agrees-refl : (f : ℕ → Node) (xs : List ℕ) → AgreesOn f f xs
Agrees-refl f [] = tt
Agrees-refl f (x ∷ xs) = ((refl, refl, refl, refl), Agrees-refl f xs)

pub to_next-AgreesOn :
    (f : ℕ → Node) (o n : Option ℕ) (zs : List ℕ) → NotIn o zs → AgreesOn f (to_next f o n) zs
to_next-AgreesOn f none n zs m = Agrees-refl f zs
to_next-AgreesOn f (some l) n zs m = update-AgreesOn f l (record (f l) { tw_next = n }) zs m

pub to_prev-AgreesOn :
    (f : ℕ → Node) (o p : Option ℕ) (zs : List ℕ) → NotIn o zs → AgreesOn f (to_prev f o p) zs
to_prev-AgreesOn f none p zs m = Agrees-refl f zs
to_prev-AgreesOn f (some l) p zs m = update-AgreesOn f l (record (f l) { tw_prev = p }) zs m

pub to_prev-HeadTo :
    (f : ℕ → Node) (s x : ℕ) (p : Option ℕ) (ys : List ℕ)
    → Distinct ys
    → HeadTo f (to_prev f (first ys) p) s x p ys
to_prev-HeadTo f s x p [] d = tt
to_prev-HeadTo f s x p (y ∷ ys) (m, d) = (
  subst (λ n. Reprev (f y) n p) (sym (update_here f y (record (f y) { tw_prev = p })))
      (refl, refl, refl, refl),
  update-AgreesOn f y (record (f y) { tw_prev = p }) ys m,
)

last_differs :
    (z a : ℕ) (xs : List ℕ) → (a == z) ≡ false → Misses z xs → NotIn (last_or (some a) xs) (z ∷ [])
last_differs z a [] e m = (==_sym a z e, tt)
last_differs z a (b ∷ xs) e m = last_differs z b xs m.0 m.1

pub to_next-LastTo :
    (f : ℕ → Node) (s x : ℕ) (p : Option ℕ) (xs : List ℕ)
    → Distinct xs
    → LastTo f (to_next f (last_or p xs) (f x).tw_next) s x xs
to_next-LastTo f s x p [] d = tt
to_next-LastTo f s x p (a ∷ []) d =
    let n : Node = record (f a) { tw_next = (f x).tw_next } in
    subst (λ m. Renext (f a) m (f x).tw_next) (sym (update_here f a n)) (refl, refl, refl, refl)
to_next-LastTo f s x p (a ∷ b ∷ xs) (m, d) = (
  (to_next-AgreesOn f (last_or (some b) xs) (f x).tw_next (a ∷ []) (last_differs a b xs m.0 m.1)).0,
  to_next-LastTo f s x (some a) (b ∷ xs) d,
)
