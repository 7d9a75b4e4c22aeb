-- ===== src/Rx/Pool.antt =====
-- The pool of stash blocks of src/rx_stash.c: a free list and two counters, per thread. A block is
-- its address; the counters count blocks in memory, so they do not reach 2^64.
use lamseryn.Prelude.{
  ℕ, zero, suc, ◌+◌, ◌-◌, ◌≡◌, refl, Option, none, some, List, [], ◌∷◌, arith, ltb, if◌then◌else◌,
  length, inl, inr, ◌⊎◌, ◌∙◌, ap,
}

pub record Pool : Type 0 where
  pub free_list : List ℕ
  pub total : ℕ
  pub inuse : ℕ

abbrev pub alloc_from : List ℕ → Option ℕ → Pool → Option ℕ × Pool
alloc_from (b ∷ rest) fresh p =
    (some b, record { free_list = rest; total = p.total; inuse = p.inuse + 1 })
alloc_from [] none p = (none, p)
alloc_from [] (some b) p =
    (some b, record { free_list = []; total = p.total + 1; inuse = p.inuse + 1 })

-- `rx_stash_alloc`: the block, if there is one, and the pool; `fresh` is what malloc would return.
unfoldable pub stash_alloc : Option ℕ → Pool → Option ℕ × Pool
stash_alloc fresh p = alloc_from p.free_list fresh p

-- `rx_stash_free` of a block.
unfoldable pub stash_free : ℕ → Pool → Pool
stash_free b p = record {
  free_list = b ∷ p.free_list;
  total = p.total;
  inuse = if ltb 0 p.inuse then p.inuse - 1 else p.inuse;
}

-- `rx_stash_pool_init`, from the results of its calls of malloc, up to the first failure.
unfoldable pub pool_init : List (Option ℕ) → Pool → Pool
pool_init [] p = p
pool_init (none ∷ rs) p = p
pool_init (some b ∷ rs) p =
    pool_init rs (record { free_list = b ∷ p.free_list; total = p.total + 1; inuse = p.inuse })

-- `rx_stash_pool_destroy`: the blocks that it frees, and the pool.
unfoldable pub pool_destroy : Pool → List ℕ × Pool
pool_destroy p = (p.free_list, record { free_list = []; total = 0; inuse = 0 })

-- What the connections of a thread do with the pool.
pub data PoolOp : Type 0 where
  acquire : Option ℕ → PoolOp
  release : ℕ → PoolOp

-- How many blocks are held after an operation; `none` when more are released than were held.
abbrev pub held_after : Option ℕ → ℕ → ℕ
held_after none held = held
held_after (some b) held = held + 1

unfoldable pub do_pool : List PoolOp → Pool → ℕ → Option (Pool × ℕ)
unfolding stash_alloc stash_free
do_pool [] p held = some (p, held)
do_pool (acquire fresh ∷ ops) p held =
    let (b, p') = stash_alloc fresh p in do_pool ops p' (held_after b held)
do_pool (release b ∷ ops) p zero = none
do_pool (release b ∷ ops) p (suc held) = do_pool ops (stash_free b p) held

-- The counters tell the truth: every block is either free or held.
abbrev pub IsCounted : Pool → ℕ → Type 0
IsCounted p held = (p.inuse ≡ held) × (p.total ≡ length p.free_list + held)

from_IsCounted :
    (frees : List ℕ) (fresh : Option ℕ) (p : Pool) (held : ℕ)
    → (p.inuse ≡ held) × (p.total ≡ length frees + held)
    → IsCounted (alloc_from frees fresh p).1 (held_after (alloc_from frees fresh p).0 held)
      ⊎ ((frees ≡ []) × (fresh ≡ none))
from_IsCounted [] none p held h = inr (refl, refl)
from_IsCounted [] (some b) p held h = inl (omega arith, omega arith)
from_IsCounted (b ∷ rest) fresh p held h = inl (omega arith, omega arith)

acquire-IsCounted :
    (fresh : Option ℕ) (p : Pool) (held : ℕ)
    → IsCounted p held
    → IsCounted (stash_alloc fresh p).1 (held_after (stash_alloc fresh p).0 held)
unfolding stash_alloc
acquire-IsCounted fresh p held h = elim (from_IsCounted p.free_list fresh p held h) [
  | inl c ↦ c
  | inr (e, f) ↦ rw (e, f) (h.0, h.1 ∙ ap (λ l. length l + held) e)
]

release-IsCounted :
    (b : ℕ) (p : Pool) (held : ℕ) → IsCounted p (suc held) → IsCounted (stash_free b p) held
unfolding stash_free
release-IsCounted b p held h = ground arith

-- If the counters are right and no block is released that is not held, then the counters are right
-- after any allocations and releases.
pub pool_counts :
    (ops : List PoolOp) (p q : Pool) (held left : ℕ)
    → IsCounted p held
    → do_pool ops p held ≡ some (q, left)
    → IsCounted q left
unfolding do_pool
pool_counts [] p q held left h e = ground (arith, e)
pool_counts (acquire fresh ∷ ops) p q held left h e =
    pool_counts ops (stash_alloc fresh p).1 q (held_after (stash_alloc fresh p).0 held) left
      (acquire-IsCounted fresh p held h) e
pool_counts (release b ∷ ops) p q zero left h e = absurd (ground (arith, e))
pool_counts (release b ∷ ops) p q (suc held) left h e =
    pool_counts ops (stash_free b p) q held left (release-IsCounted b p held h) e

pool_init-IsCounted :
    (rs : List (Option ℕ)) (p : Pool) (held : ℕ)
    → IsCounted p held
    → IsCounted (pool_init rs p) held
unfolding pool_init
pool_init-IsCounted [] p held h = h
pool_init-IsCounted (none ∷ rs) p held h = h
pool_init-IsCounted (some b ∷ rs) p held h =
    pool_init-IsCounted rs
      (record { free_list = b ∷ p.free_list; total = p.total + 1; inuse = p.inuse }) held
      (omega arith, omega arith)
