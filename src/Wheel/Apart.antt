-- ===== src/Wheel/Apart.antt =====
-- Which connections a bucket does not hold, and the links at the two sides of one that it does.
use lamseryn.Prelude.{
  ℕ, true, false, Option, none, some, List, [], ◌∷◌, ◌++◌, ◌≡◌, sym, subst, arith, ◌==◌, inl, inr,
  Bool-cases,
}
use lamseryn.Wheel.{Node, is_active}
use lamseryn.Wheel.Chain.{Chain, Misses, Distinct}

pub ==_sym : (a b : ℕ) → (a == b) ≡ false → (b == a) ≡ false
==_sym a b h = ground (arith, h)

Misses-append : (z : ℕ) (xs ys : List ℕ) → Misses z (xs ++ ys) → Misses z xs × Misses z ys
Misses-append z [] ys m = (tt, m)
Misses-append z (x ∷ xs) ys (m, ms) = let (a, b) = Misses-append z xs ys ms in ((m, a), b)

Misses-without :
    (z : ℕ) (xs : List ℕ) (x : ℕ) (ys : List ℕ) → Misses z (xs ++ x ∷ ys) → Misses z (xs ++ ys)
Misses-without z [] x ys m = m.1
Misses-without z (a ∷ xs) x ys (m, ms) = (m, Misses-without z xs x ys ms)

pub Distinct-without :
    (xs : List ℕ) (x : ℕ) (ys : List ℕ) → Distinct (xs ++ x ∷ ys) → Distinct (xs ++ ys)
Distinct-without [] x ys d = d.1
Distinct-without (a ∷ xs) x ys (m, d) = (Misses-without a xs x ys m, Distinct-without xs x ys d)

-- What stands at an end of the list is not in another list.
abbrev pub NotIn : Option ℕ → List ℕ → Type 0
NotIn none zs = Unit
NotIn (some y) zs = Misses y zs

pub Distinct-left : (xs : List ℕ) (x : ℕ) (ys : List ℕ) → Distinct (xs ++ x ∷ ys) → Misses x xs
Distinct-left [] x ys d = tt
Distinct-left (a ∷ xs) x ys (m, d) =
    (==_sym x a (Misses-append a xs (x ∷ ys) m).1.0, Distinct-left xs x ys d)

pub Distinct-right : (xs : List ℕ) (x : ℕ) (ys : List ℕ) → Distinct (xs ++ x ∷ ys) → Misses x ys
Distinct-right [] x ys d = d.0
Distinct-right (a ∷ xs) x ys (m, d) = Distinct-right xs x ys d

pub Distinct-prefix : (xs ys : List ℕ) → Distinct (xs ++ ys) → Distinct xs
Distinct-prefix [] ys d = tt
Distinct-prefix (a ∷ xs) ys (m, d) = ((Misses-append a xs ys m).0, Distinct-prefix xs ys d)

-- The last connection, or what is before the list.
abbrev pub last_or : Option ℕ → List ℕ → Option ℕ
last_or p [] = p
last_or p (a ∷ xs) = last_or (some a) xs

abbrev pub first : List ℕ → Option ℕ
first [] = none
first (a ∷ xs) = some a

pub Chain-prev :
    (f : ℕ → Node) (s : ℕ) (p h : Option ℕ) (xs : List ℕ) (x : ℕ) (ys : List ℕ)
    → Chain f s p h (xs ++ x ∷ ys)
    → (f x).tw_prev ≡ last_or p xs
Chain-prev f s p h [] x ys (ch, cp, cs, ca, c) = cp
Chain-prev f s p h (a ∷ xs) x ys (ch, cp, cs, ca, c) =
    Chain-prev f s (some a) (f a).tw_next xs x ys c

pub Chain-first :
    (f : ℕ → Node) (s : ℕ) (p h : Option ℕ) (ys : List ℕ) → Chain f s p h ys → h ≡ first ys
Chain-first f s p h [] c = c
Chain-first f s p h (y ∷ ys) c = c.0

pub Chain-next :
    (f : ℕ → Node) (s : ℕ) (p h : Option ℕ) (xs : List ℕ) (x : ℕ) (ys : List ℕ)
    → Chain f s p h (xs ++ x ∷ ys)
    → (f x).tw_next ≡ first ys
Chain-next f s p h [] x ys (ch, cp, cs, ca, c) = Chain-first f s (some x) (f x).tw_next ys c
Chain-next f s p h (a ∷ xs) x ys (ch, cp, cs, ca, c) =
    Chain-next f s (some a) (f a).tw_next xs x ys c

pub Chain-here :
    (f : ℕ → Node) (s : ℕ) (p h : Option ℕ) (xs : List ℕ) (x : ℕ) (ys : List ℕ)
    → Chain f s p h (xs ++ x ∷ ys)
    → ((f x).tw_slot ≡ s) × (is_active (f x) ≡ true)
Chain-here f s p h [] x ys (ch, cp, cs, ca, c) = (cs, ca)
Chain-here f s p h (a ∷ xs) x ys (ch, cp, cs, ca, c) =
    Chain-here f s (some a) (f a).tw_next xs x ys c

pub last_or-NotIn :
    (p : Option ℕ) (xs : List ℕ) (x : ℕ) (ys : List ℕ)
    → Distinct (xs ++ x ∷ ys)
    → NotIn p (x ∷ ys)
    → NotIn (last_or p xs) (x ∷ ys)
last_or-NotIn p [] x ys d n = n
last_or-NotIn p (a ∷ xs) x ys (m, d) n =
    last_or-NotIn (some a) xs x ys d (Misses-append a xs (x ∷ ys) m).1

pub first-NotIn :
    (xs : List ℕ) (x : ℕ) (ys : List ℕ) → Distinct (xs ++ x ∷ ys) → NotIn (first ys) xs
first-NotIn xs x [] d = tt
first-NotIn [] x (y ∷ ys) d = tt
first-NotIn (a ∷ xs) x (y ∷ ys) (m, d) =
    (==_sym y a (Misses-append a xs (x ∷ y ∷ ys) m).1.1.0, first-NotIn xs x (y ∷ ys) d)

pub Distinct-suffix : (xs : List ℕ) (x : ℕ) (ys : List ℕ) → Distinct (xs ++ x ∷ ys) → Distinct ys
Distinct-suffix [] x ys d = d.1
Distinct-suffix (a ∷ xs) x ys d = Distinct-suffix xs x ys d.1

differs : (P : ℕ → Type 0) (y x : ℕ) → P y → ¬ P x → (y == x) ≡ false
differs P y x h k = elim (Bool-cases (y == x)) [
  | inl same ↦ absurd (k (subst P (ground (arith, same)) h))
  | inr other ↦ other
]

-- A connection of another slot is not in this bucket.
pub Chain-Misses :
    (f : ℕ → Node) (s : ℕ) (p h : Option ℕ) (xs : List ℕ) (x : ℕ)
    → Chain f s p h xs
    → ((f x).tw_slot == s) ≡ false
    → Misses x xs
Chain-Misses f s p h [] x c e = tt
Chain-Misses f s p h (y ∷ ys) x (ch, cp, cs, ca, c) e = (
  differs (λ z. (f z).tw_slot ≡ s) y x cs (λ k. ground (arith, e, k)),
  Chain-Misses f s (some y) (f y).tw_next ys x c e,
)

-- One that is not active is in no bucket.
pub Chain-idle :
    (f : ℕ → Node) (s : ℕ) (p h : Option ℕ) (xs : List ℕ) (x : ℕ)
    → Chain f s p h xs
    → is_active (f x) ≡ false
    → Misses x xs
Chain-idle f s p h [] x c e = tt
Chain-idle f s p h (y ∷ ys) x (ch, cp, cs, ca, c) e = (
  differs (λ z. is_active (f z) ≡ true) y x ca (λ k. ground (arith, e, k)),
  Chain-idle f s (some y) (f y).tw_next ys x c e,
)

-- The slot of what stands at an end.
abbrev pub InSlot : (ℕ → Node) → ℕ → Option ℕ → Type 0
InSlot f s none = Unit
InSlot f s (some y) = (f y).tw_slot ≡ s

pub last_or-InSlot :
    (f : ℕ → Node) (s : ℕ) (p h : Option ℕ) (xs ys : List ℕ)
    → Chain f s p h (xs ++ ys)
    → InSlot f s p
    → InSlot f s (last_or p xs)
last_or-InSlot f s p h [] ys c k = k
last_or-InSlot f s p h (a ∷ xs) ys (ch, cp, cs, ca, c) k =
    last_or-InSlot f s (some a) (f a).tw_next xs ys c cs

pub first-InSlot :
    (f : ℕ → Node) (s : ℕ) (p h : Option ℕ) (xs : List ℕ) (x : ℕ) (ys : List ℕ)
    → Chain f s p h (xs ++ x ∷ ys)
    → InSlot f s (first ys)
first-InSlot f s p h [] x [] c = tt
first-InSlot f s p h [] x (y ∷ ys) (ch, cp, cs, ca, (dh, dp, ds, da, d)) = ds
first-InSlot f s p h (a ∷ xs) x ys (ch, cp, cs, ca, c) =
    first-InSlot f s (some a) (f a).tw_next xs x ys c

pub bucket-InSlot :
    (f : ℕ → Node) (s : ℕ) (p h : Option ℕ) (ys : List ℕ) → Chain f s p h ys → InSlot f s (first ys)
bucket-InSlot f s p h [] c = tt
bucket-InSlot f s p h (y ∷ ys) (ch, cp, cs, ca, c) = cs

pub InSlot-NotIn :
    (f : ℕ → Node) (s t : ℕ) (o p h : Option ℕ) (zs : List ℕ)
    → InSlot f s o
    → (s == t) ≡ false
    → Chain f t p h zs
    → NotIn o zs
InSlot-NotIn f s t none p h zs k e c = tt
InSlot-NotIn f s t (some y) p h zs k e c =
    Chain-Misses f t p h zs y c (subst (λ n. (n == t) ≡ false) (sym k) e)
