-- ===== src/Http/Urls.antt =====
-- The target over the pieces in which it arrives (http_parser.c).
use lamseryn.Prelude.{
  ℕ, ◌+◌, ◌≤◌, Bool, true, false, ◌||◌, List, [], ◌∷◌, ◌++◌, ◌≡◌, ◌⊎◌, refl, sym, ap, ◌∙◌, arith,
  Bytes, ltb, ◌==◌, if◌then◌else◌, length, append-nil, Bool-cases, inl, inr, length-append,
  append_assoc,
}
use mathlib.Core.List.{foldl, flatten}
use lamseryn.Http.{Http1, is_none}
use lamseryn.Http.Collect.{
  on_url, new_capacity, grow, req_target_max, at_least, stored, put_target, too_long, no_memory,
}

abbrev pub IsGood : Http1 → Type 0
IsGood c = (c.target_too_long ≡ false) × (c.internal_error ≡ false)

-- The target fits its buffer and the limit.
abbrev pub HasRoom : Http1 → Type 0
HasRoom c = (length (stored c.target) ≤ c.target_cap) × (length (stored c.target) ≤ req_target_max)

at_least-le : (capped need : ℕ) → need ≤ at_least capped need
at_least-le capped need = ground arith

capacity_suffices : (target_cap need : ℕ) → need ≤ new_capacity target_cap need
unfolding new_capacity
capacity_suffices target_cap need =
    let grown = grow 64 (if target_cap == 0 then 64 else target_cap) need in
    at_least-le (if ltb req_target_max grown then req_target_max else grown) need

url_sticks : (alloc : Bool) (c : Http1) (piece : Bytes) → IsGood (on_url alloc c piece) → IsGood c
unfolding on_url
url_sticks alloc c piece good = ground arith

put_room :
    (c : Http1) (piece : Bytes) (size : ℕ)
    → length (stored c.target) + length piece ≤ size
    → length (stored c.target) + length piece ≤ req_target_max
    → HasRoom (put_target c piece size)
put_room c piece size fits short = (
  omega (arith, length-append (stored c.target) piece),
  omega (arith, length-append (stored c.target) piece),
)

both_false : (x y : Bool) → (x || y) ≡ true → x ≡ false → y ≡ false → ⊥
both_false x y e f g = ground arith

true-false : true ≡ false → ⊥
true-false e = ground arith

no_growth : (x : Bool) (n need : ℕ) → (x || ltb n need) ≡ false → need ≤ n
no_growth x n need g = ground arith

-- What a piece leads to: nothing, a refusal, a larger buffer, or a copy.
url_cases :
    (alloc : Bool) (c : Http1) (b : ℕ) (piece : Bytes)
    → IsGood (on_url alloc c (b ∷ piece))
    → let need = length (stored c.target) + length (b ∷ piece) in
      (need ≤ req_target_max)
      × ((on_url alloc c (b ∷ piece) ≡ put_target c (b ∷ piece) (new_capacity c.target_cap need))
          ⊎ (on_url alloc c (b ∷ piece) ≡ put_target c (b ∷ piece) c.target_cap)
            × (need ≤ c.target_cap))
unfolding on_url
url_cases alloc c b piece (long, failed) =
    let need = length (stored c.target) + length (b ∷ piece) in
    let some_bytes : (length (b ∷ piece) == 0) ≡ false = ground arith in
    elim (Bool-cases (c.target_too_long || c.internal_error)) [
      | inl e ↦
          let same : on_url alloc c (b ∷ piece) ≡ c = rw (some_bytes, e) refl in
          absurd (
            both_false c.target_too_long c.internal_error e
              (sym (ap (λ d. d.target_too_long) same) ∙ long)
              (sym (ap (λ d. d.internal_error) same) ∙ failed))
      | inr e ↦ elim (Bool-cases (ltb req_target_max need)) [
        | inl f ↦
            let same : on_url alloc c (b ∷ piece) ≡ too_long c = rw (some_bytes, e, f) refl in
            absurd (true-false (sym (ap (λ d. d.target_too_long) same) ∙ long))
        | inr f ↦ (
          ground (arith, f),
          elim (Bool-cases (is_none c.target || ltb c.target_cap need)) [
            | inl g ↦ elim (Bool-cases alloc) [
              | inl a ↦ inl (rw (some_bytes, e, f, g, a) refl)
              | inr a ↦
                  let same : on_url alloc c (b ∷ piece) ≡ no_memory c =
                    rw (some_bytes, e, f, g, a) refl in
                  absurd (true-false (sym (ap (λ d. d.internal_error) same) ∙ failed))
            ]
            | inr g ↦
                inr
                  (rw (some_bytes, e, f, g) refl, no_growth (is_none c.target) c.target_cap need g)
          ],
        )
      ]
    ]

url_step :
    (alloc : Bool) (c : Http1) (piece : Bytes)
    → IsGood (on_url alloc c piece)
    → HasRoom c
    → (stored (on_url alloc c piece).target ≡ stored c.target ++ piece)
      × HasRoom (on_url alloc c piece)
url_step alloc c [] good room = unfold on_url in (sym (append-nil (stored c.target)), room)
url_step alloc c (b ∷ piece) good room =
    let need = length (stored c.target) + length (b ∷ piece) in
    let (short, which) = url_cases alloc c b piece good in
    elim which [
      | inl e ↦ rw e (refl, put_room c (b ∷ piece) _ (capacity_suffices c.target_cap need) short)
      | inr (e, fits) ↦ rw e (refl, put_room c (b ∷ piece) c.target_cap fits short)
    ]

url_pieces_sticks :
    (alloc : Bool) (pieces : List Bytes) (c : Http1)
    → IsGood (foldl (on_url alloc) c pieces)
    → IsGood c
url_pieces_sticks alloc [] c good = good
url_pieces_sticks alloc (p ∷ pieces) c good =
    url_sticks alloc c p (url_pieces_sticks alloc pieces (on_url alloc c p) good)

-- If, after the pieces of a target, the target is not too long and no allocation failed, then the
-- target is what was there followed by the pieces, in order, and it fits its buffer and the limit,
-- provided that it did so before.
pub on_url_pieces :
    (alloc : Bool) (pieces : List Bytes) (c : Http1)
    → IsGood (foldl (on_url alloc) c pieces)
    → HasRoom c
    → (stored (foldl (on_url alloc) c pieces).target ≡ stored c.target ++ flatten pieces)
      × HasRoom (foldl (on_url alloc) c pieces)
unfolding flatten
on_url_pieces alloc [] c good room = (sym (append-nil (stored c.target)), room)
on_url_pieces alloc (p ∷ pieces) c good room =
    let (same, room') =
      url_step alloc c p (url_pieces_sticks alloc pieces (on_url alloc c p) good) room in
    let (all, room'') = on_url_pieces alloc pieces (on_url alloc c p) good room' in
    (
      all ∙ ap (λ t. t ++ flatten pieces) same ∙ append_assoc (stored c.target) p (flatten pieces),
      room'',
    )
