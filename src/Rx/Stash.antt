-- ===== src/Rx/Stash.antt =====
-- The stash of src/rx_stash.c: received bytes that wait for the next request. A stash that is not
-- allocated is `none`; the length field is the length of the bytes.
use lamseryn.Prelude.{
  ℕ, ◌+◌, ◌≤◌, Bool, true, false, ◌||◌, Option, none, some, List, [], ◌∷◌, ◌++◌, ◌≡◌, refl, sym, ap,
  ◌∙◌, arith, Bytes, ltb, leb, ◌==◌, if◌then◌else◌, length, take, drop, take-append-drop,
  length-drop, length-append, append-nil, append_assoc, Bool-cases, leb→le, inl, inr,
}

abbrev pub contents : Option Bytes → Bytes
contents none = []
contents (some s) = s

-- `conn_rx_stash_consume`; a stash whose bytes are all consumed is freed.
unfoldable pub stash_consume : Option Bytes → ℕ → Option Bytes
stash_consume none n = none
stash_consume (some s) n =
    if n == 0 || length s == 0 then some s else if leb (length s) n then none else some (drop n s)

-- `conn_rx_stash_append`: whether the bytes are taken, and the stash. `alloc` tells whether a block
-- can be allocated.
unfoldable pub stash_append : ℕ → Bool → Option Bytes → Bytes → Bool × Option Bytes
stash_append rbuf_sz alloc stash bytes =
    if length bytes == 0
    then (true, stash)
    else if ltb rbuf_sz (length (contents stash) + length bytes)
    then (false, stash)
    else elim stash [
      | none ↦ if alloc then (true, some bytes) else (false, none)
      | some s ↦ (true, some (s ++ bytes))
    ]

-- What a worker does with the stash.
pub data StashOp : Type 0 where
  append : Bool → Bytes → StashOp
  consume : ℕ → StashOp

-- The stash after an operation, the bytes that it took and the bytes that left.
unfoldable pub do_op : ℕ → Option Bytes → StashOp → Option Bytes × Bytes × Bytes
do_op rbuf_sz stash (append alloc bytes) =
    let (ok, stash') = stash_append rbuf_sz alloc stash bytes in
    (stash', if ok then bytes else [], [])
do_op rbuf_sz stash (consume n) =
    let stash' = stash_consume stash n in (stash', [], take n (contents stash))

unfoldable pub do_ops : ℕ → Option Bytes → List StashOp → Option Bytes × Bytes × Bytes
unfolding do_op
do_ops rbuf_sz stash [] = (stash, [], [])
do_ops rbuf_sz stash (op ∷ ops) =
    let (s, taken, left) = do_op rbuf_sz stash op in
    let (s', taken', left') = do_ops rbuf_sz s ops in (s', taken ++ taken', left ++ left')

drop-past : (n : ℕ) (s : Bytes) → length s ≤ n → drop n s ≡ []
drop-past ℕ.zero [] h = refl
drop-past ℕ.zero (x ∷ s) h = absurd (omega arith)
drop-past (ℕ.suc n) [] h = refl
drop-past (ℕ.suc n) (x ∷ s) h = drop-past n s (omega arith)

drop-nil : (n : ℕ) → drop {A = ℕ} n [] ≡ []
drop-nil ℕ.zero = refl
drop-nil (ℕ.suc n) = refl

length-nil : (s : Bytes) → length s ≡ 0 → s ≡ []
length-nil [] h = refl
length-nil (x ∷ s) h = absurd (omega arith)

consume-contents :
    (stash : Option Bytes) (n : ℕ) → contents (stash_consume stash n) ≡ drop n (contents stash)
unfolding stash_consume
consume-contents none n = sym (drop-nil n)
consume-contents (some s) ℕ.zero = refl
consume-contents (some []) (ℕ.suc n) = ground arith
consume-contents (some (x ∷ s)) (ℕ.suc n) = elim (Bool-cases (leb (length (x ∷ s)) (ℕ.suc n))) [
  | inl all ↦
      ground (arith, all, drop-past n s (omega (arith, leb→le (length (x ∷ s)) (ℕ.suc n) all)))
  | inr part ↦ ground (arith, part)
]

op_fifo :
    (rbuf_sz : ℕ) (stash : Option Bytes) (op : StashOp)
    → let (stash', taken, left) = do_op rbuf_sz stash op in
      contents stash ++ taken ≡ left ++ contents stash'
unfolding do_op stash_append
op_fifo rbuf_sz stash (consume n) =
    append-nil (contents stash)
    ∙ sym (take-append-drop n (contents stash))
    ∙ ap (λ s. take n (contents stash) ++ s) (sym (consume-contents stash n))
op_fifo rbuf_sz stash (append alloc []) = append-nil (contents stash)
op_fifo rbuf_sz none (append alloc (b ∷ bytes)) = elim (Bool-cases alloc) [
  | inl a ↦ ground (arith, a, append-nil (b ∷ bytes))
  | inr a ↦ ground (arith, a)
]
op_fifo rbuf_sz (some s) (append alloc (b ∷ bytes)) =
    elim (Bool-cases (ltb rbuf_sz (length s + length (b ∷ bytes)))) [
      | inl full ↦ ground (arith, full, append-nil s)
      | inr room ↦ ground (arith, room)
    ]

-- The stash is a queue of bytes: over any appends and consumptions, what was in it and what it took
-- are, in their order, what left it and what is still in it.
pub stash_fifo :
    (rbuf_sz : ℕ) (ops : List StashOp) (stash : Option Bytes)
    → let (stash', taken, left) = do_ops rbuf_sz stash ops in
      contents stash ++ taken ≡ left ++ contents stash'
unfolding do_ops
stash_fifo rbuf_sz [] stash = append-nil (contents stash)
stash_fifo rbuf_sz (op ∷ ops) stash =
    let (s, taken, left) = do_op rbuf_sz stash op in
    let (s', taken', left') = do_ops rbuf_sz s ops in
    sym (append_assoc (contents stash) taken taken')
    ∙ ap (λ q. q ++ taken') (op_fifo rbuf_sz stash op)
    ∙ append_assoc left (contents s) taken'
    ∙ ap (λ q. left ++ q) (stash_fifo rbuf_sz ops s)
    ∙ sym (append_assoc left left' (contents s'))

op_bound :
    (rbuf_sz : ℕ) (stash : Option Bytes) (op : StashOp)
    → length (contents stash) ≤ rbuf_sz
    → length (contents (do_op rbuf_sz stash op).0) ≤ rbuf_sz
unfolding do_op stash_append
op_bound rbuf_sz stash (consume n) h =
    omega (arith, ap length (consume-contents stash n), length-drop n (contents stash))
op_bound rbuf_sz none (append alloc bytes) h = ground arith
op_bound rbuf_sz (some s) (append alloc bytes) h = ground (arith, length-append s bytes)

-- If the stash fits its block, then it fits after any appends and consumptions.
pub stash_bound :
    (rbuf_sz : ℕ) (ops : List StashOp) (stash : Option Bytes)
    → length (contents stash) ≤ rbuf_sz
    → length (contents (do_ops rbuf_sz stash ops).0) ≤ rbuf_sz
unfolding do_ops
stash_bound rbuf_sz [] stash h = h
stash_bound rbuf_sz (op ∷ ops) stash h =
    stash_bound rbuf_sz ops (do_op rbuf_sz stash op).0 (op_bound rbuf_sz stash op h)
