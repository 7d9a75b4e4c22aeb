-- ===== src/Url/Steps.antt =====
-- One segment put on the output refines one segment entered on the stack.
use lamseryn.Prelude.{
  ℕ, suc, ◌+◌, ◌-◌, ◌≤◌, ◌<◌, true, false, List, [], ◌∷◌, ◌++◌, ◌≡◌, ◌≢◌, refl, sym, ap, ◌∙◌, arith,
  Bytes, ltb, if◌then◌else◌, length, All, append_assoc, length-append, take-append,
  get_or-append_at, Bool-cases, inl, inr,
}
use lamseryn.Url.{ok, overflow}
use lamseryn.Url.Normalize.{
  Output, ◌>>=◌, is_dot, is_dot_dot, pop_segment, add_separator, store_segment, push_segment,
  put_segment,
}
use lamseryn.Url.Segments.{enter, rest_of, joined, render, IsName, IsSegment}

abbrev pub starts : List Bytes → List ℕ
starts [] = []
starts (seg ∷ st) = (length (joined st) + 1) ∷ starts st

-- The output that holds a stack of segments.
abbrev pub repr : List Bytes → Output
repr st = record { out = render st; seg_starts = starts st }

length-starts : (st : List Bytes) → length (starts st) ≡ length st
length-starts [] = refl
length-starts (seg ∷ st) = ap suc (length-starts st)

pub length-ne-nil : (seg : Bytes) → seg ≢ [] → 0 < length seg
length-ne-nil [] h = absurd (h refl)
length-ne-nil (c ∷ seg) h = omega arith

pub length-joined :
    (seg : Bytes) (st : List Bytes)
    → length (joined (seg ∷ st)) ≡ length (joined st) + 1 + length seg
length-joined seg st = omega (arith, length-append (joined st) (b'/' ∷ seg))

pop_segment-repr : (st : List Bytes) → pop_segment (render st) (starts st) ≡ repr (rest_of st)
unfolding pop_segment
pop_segment-repr [] = refl
pop_segment-repr (seg ∷ []) = ground arith
pop_segment-repr (seg ∷ s ∷ st) =
    let base = joined (s ∷ st) in
    let back : length base + 1 - 1 ≡ length base = omega arith in
    ground (
      arith,
      back,
      length-joined s st,
      get_or-append_at (length base + 1 - 1) base seg b'/' 0 back,
      take-append (length base + 1 - 1) base (b'/' ∷ seg) back,
    )

add_separator-render :
    (out_cap : ℕ) (seg : Bytes) (st : List Bytes)
    → seg ≢ []
    → add_separator out_cap (render (seg ∷ st)) ≡ (
        if ltb out_cap (length (joined (seg ∷ st)) + 1)
        then overflow
        else ok (joined (seg ∷ st) ++ b'/' ∷ []))
unfolding add_separator
add_separator-render out_cap seg st h = ground (arith, length-joined seg st, length-ne-nil seg h)

-- A push succeeds exactly when the stack is below its limit and the longer text fits.
abbrev pub HasRoom : ℕ → Bytes → List Bytes → Type 0
HasRoom out_cap seg st = (length st < 256) × (length (joined (seg ∷ st)) ≤ out_cap)

store_segment-fits :
    (out_cap : ℕ) (seg out : Bytes) (starts : List ℕ)
    → length starts < 256
    → length out + length seg ≤ out_cap
    → store_segment out_cap seg out starts
      ≡ ok (record { out = out ++ seg; seg_starts = length out ∷ starts })
unfolding store_segment
store_segment-fits out_cap seg out starts h k = ground arith

store_segment-ok :
    (out_cap : ℕ) (seg out : Bytes) (starts : List ℕ) (r : Output)
    → store_segment out_cap seg out starts ≡ ok r
    → (r ≡ record { out = out ++ seg; seg_starts = length out ∷ starts })
      × (length out + length seg ≤ out_cap)
unfolding store_segment
store_segment-ok out_cap seg out starts r h = ground arith

push_segment-bind :
    (out_cap : ℕ) (seg : Bytes) (st : Output)
    → push_segment out_cap seg st
      ≡ (add_separator out_cap st.out >>= λ out. store_segment out_cap seg out st.seg_starts)
unfolding push_segment
push_segment-bind out_cap seg st = refl

push_segment-root :
    (out_cap : ℕ) (seg : Bytes)
    → push_segment out_cap seg (repr []) ≡ store_segment out_cap seg (b'/' ∷ []) []
unfolding push_segment
push_segment-root out_cap seg = refl

pushed :
    (seg t : Bytes) (st : List Bytes)
    → ◌≡◌ {A = Output}
        (record {
          out = (joined (t ∷ st) ++ b'/' ∷ []) ++ seg;
          seg_starts = length (joined (t ∷ st) ++ b'/' ∷ []) ∷ starts (t ∷ st);
        })
        (repr (seg ∷ t ∷ st))
pushed seg t st = λ i. record {
  out = append_assoc (joined (t ∷ st)) (b'/' ∷ []) seg i;
  seg_starts = length-append (joined (t ∷ st)) (b'/' ∷ []) i ∷ starts (t ∷ st);
}

push_segment-eq :
    (out_cap : ℕ) (seg t : Bytes) (st : List Bytes)
    → t ≢ []
    → push_segment out_cap seg (repr (t ∷ st)) ≡ (
        if ltb out_cap (length (joined (t ∷ st)) + 1)
        then overflow
        else store_segment out_cap seg (joined (t ∷ st) ++ b'/' ∷ []) (starts (t ∷ st)))
push_segment-eq out_cap seg t st h =
    elim (Bool-cases (ltb out_cap (length (joined (t ∷ st)) + 1))) [
      | inl full ↦
          rw (
            push_segment-bind out_cap seg (repr (t ∷ st)),
            add_separator-render out_cap t st h,
            full,
          )
      | inr room ↦
          rw (
            push_segment-bind out_cap seg (repr (t ∷ st)),
            add_separator-render out_cap t st h,
            room,
          )
    ]

push_segment-fits :
    (out_cap : ℕ) (seg : Bytes) (st : List Bytes)
    → All IsName st
    → HasRoom out_cap seg st
    → push_segment out_cap seg (repr st) ≡ ok (repr (seg ∷ st))
push_segment-fits out_cap seg [] names h =
    push_segment-root out_cap seg
    ∙ store_segment-fits out_cap seg (b'/' ∷ []) [] (omega arith) (omega arith)
push_segment-fits out_cap seg (t ∷ st) names h =
    let low = length-joined seg (t ∷ st) in
    let room : ltb out_cap (length (joined (t ∷ st)) + 1) ≡ false = ground (arith, low) in
    push_segment-eq out_cap seg t st names.0.not_empty
    ∙ rw room (
        store_segment-fits out_cap seg (joined (t ∷ st) ++ b'/' ∷ []) (starts (t ∷ st))
          (omega (arith, length-starts (t ∷ st)))
          (omega (arith, low, length-append (joined (t ∷ st)) (b'/' ∷ [])))
        ∙ ap ok (pushed seg t st))

push_segment-ok :
    (out_cap : ℕ) (seg : Bytes) (st : List Bytes) (r : Output)
    → All IsName st
    → push_segment out_cap seg (repr st) ≡ ok r
    → (r ≡ repr (seg ∷ st)) × (length (joined (seg ∷ st)) ≤ out_cap)
push_segment-ok out_cap seg [] r names h =
    let (e, room) =
      store_segment-ok out_cap seg (b'/' ∷ []) [] r (sym (push_segment-root out_cap seg) ∙ h) in
    (e, omega arith)
push_segment-ok out_cap seg (t ∷ st) r names h =
    let eq = sym (push_segment-eq out_cap seg t st names.0.not_empty) ∙ h in
    elim (Bool-cases (ltb out_cap (length (joined (t ∷ st)) + 1))) [
      | inl full ↦ ground (arith, eq, full)
      | inr room ↦
          let (e, fit) =
            store_segment-ok out_cap seg (joined (t ∷ st) ++ b'/' ∷ []) (starts (t ∷ st)) r
              (rw room at eq) in
          (
            e ∙ pushed seg t st,
            omega (
              arith,
              fit,
              length-joined seg (t ∷ st),
              length-append (joined (t ∷ st)) (b'/' ∷ []),
            ),
          )
    ]

pub render-rest : (st : List Bytes) → length (render (rest_of st)) ≤ length (render st)
render-rest [] = omega arith
render-rest (seg ∷ []) = omega arith
render-rest (seg ∷ t ∷ st) = omega (arith, length-joined seg (t ∷ st))

rest_of-names : (st : List Bytes) → All IsName st → All IsName (rest_of st)
rest_of-names [] h = tt
rest_of-names (seg ∷ st) h = h.1

-- What one segment does to a stack, where it is put on the output that holds it.
pub record Entered (out_cap : ℕ) (seg : Bytes) (st : List Bytes) (r : Output) : Type 0 where
  pub holds : r ≡ repr (enter seg st)
  pub within : length (render (enter seg st)) ≤ out_cap

put_segment-dot :
    (out_cap : ℕ) (seg : Bytes) (st : Output)
    → is_dot seg ≡ true
    → put_segment out_cap seg st ≡ ok st
unfolding put_segment
put_segment-dot out_cap seg st h = rw h

put_segment-dot_dot :
    (out_cap : ℕ) (seg : Bytes) (st : Output)
    → is_dot seg ≡ false
    → is_dot_dot seg ≡ true
    → put_segment out_cap seg st ≡ ok (pop_segment st.out st.seg_starts)
unfolding put_segment
put_segment-dot_dot out_cap seg st h k = rw (h, k)

put_segment-name :
    (out_cap : ℕ) (seg : Bytes) (st : Output)
    → is_dot seg ≡ false
    → is_dot_dot seg ≡ false
    → put_segment out_cap seg st ≡ push_segment out_cap seg st
unfolding put_segment
put_segment-name out_cap seg st h k = rw (h, k)

pub enter-names :
    (seg : Bytes) (st : List Bytes) → IsSegment seg → All IsName st → All IsName (enter seg st)
enter-names seg st g names = elim (Bool-cases (is_dot seg)) [
  | inl dot ↦ rw dot names
  | inr no_dot ↦ elim (Bool-cases (is_dot_dot seg)) [
    | inl up ↦ rw (no_dot, up) (rest_of-names st names)
    | inr no_up ↦
        rw (no_dot, no_up)
          (record { not_empty = g.0; no_slash = g.1; not_dot = no_dot; not_dot_dot = no_up }, names)
  ]
]

pub put_segment-ok :
    (out_cap : ℕ) (seg : Bytes) (st : List Bytes) (r : Output)
    → All IsName st
    → length (render st) ≤ out_cap
    → put_segment out_cap seg (repr st) ≡ ok r
    → Entered out_cap seg st r
put_segment-ok out_cap seg st r names room h = elim (Bool-cases (is_dot seg)) [
  | inl dot ↦
      let same = sym (put_segment-dot out_cap seg (repr st) dot) ∙ h in
      record { holds = rw dot (ground arith); within = rw dot room }
  | inr no_dot ↦ elim (Bool-cases (is_dot_dot seg)) [
    | inl up ↦
        let popped = sym (put_segment-dot_dot out_cap seg (repr st) no_dot up) ∙ h in
        record {
          holds = rw (no_dot, up) (ground (arith, popped, pop_segment-repr st));
          within = rw (no_dot, up) (omega (arith, render-rest st));
        }
    | inr no_up ↦
        let (same, fit) =
          push_segment-ok out_cap seg st r names
            (sym (put_segment-name out_cap seg (repr st) no_dot no_up) ∙ h) in
        record { holds = rw (no_dot, no_up) same; within = rw (no_dot, no_up) fit }
  ]
]

pub put_segment-fits :
    (out_cap : ℕ) (seg : Bytes) (st : List Bytes)
    → All IsName st
    → HasRoom out_cap seg st
    → put_segment out_cap seg (repr st) ≡ ok (repr (enter seg st))
put_segment-fits out_cap seg st names h = elim (Bool-cases (is_dot seg)) [
  | inl dot ↦ rw dot (put_segment-dot out_cap seg (repr st) dot)
  | inr no_dot ↦ elim (Bool-cases (is_dot_dot seg)) [
    | inl up ↦
        rw (no_dot, up)
          (put_segment-dot_dot out_cap seg (repr st) no_dot up ∙ ap ok (pop_segment-repr st))
    | inr no_up ↦
        rw (no_dot, no_up)
          (put_segment-name out_cap seg (repr st) no_dot no_up
            ∙ push_segment-fits out_cap seg st names h)
  ]
]
