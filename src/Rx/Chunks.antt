-- ===== src/Rx/Chunks.antt =====
-- Scanning chunk by chunk, with three remembered bytes, is scanning the whole stream.
use lamseryn.Prelude.{
  ℕ, zero, suc, ◌+◌, ◌-◌, ◌≤◌, ◌<◌, false, Option, none, some, List, [], ◌∷◌, ◌++◌, ◌≡◌, refl, sym,
  ap, ◌∙◌, arith, Bytes, ltb, if◌then◌else◌, length, get_or, drop, inl, inr, Bool-cases, append-nil,
  tests, length-append, append_assoc,
}
use mathlib.Core.Option
use mathlib.Core.List.{foldl, flatten}
use native.Mathlib.Numerals.{add-one}
use lamseryn.Rx.Boundary.{find_header_terminator_end}
use lamseryn.Rx.Terminator.{starts, first_end, find-first_end}
use lamseryn.Rx.Tail.{copy_tail, tail_update_after_feed}

-- The last three bytes of a stream, or all of it.
abbrev pub last_three : Bytes → Bytes
last_three s = drop (length s - 3) s

drop-get_or : (s : Bytes) (i : ℕ) → i < length s → drop i s ≡ get_or s i 0 ∷ drop (suc i) s
drop-get_or [] i h = elim h [ ]
drop-get_or (x ∷ s) zero h = refl
drop-get_or (x ∷ s) (suc i) h = drop-get_or s i (omega arith)

drop_all : (s : Bytes) (i : ℕ) → length s ≤ i → drop i s ≡ []
drop_all [] zero h = refl
drop_all [] (suc i) h = refl
drop_all (x ∷ s) zero h = absurd (omega arith)
drop_all (x ∷ s) (suc i) h = drop_all s i (omega arith)

get_or-append :
    (p q : Bytes) (i : ℕ)
    → get_or (p ++ q) i 0 ≡ (if ltb i (length p) then get_or p i 0 else get_or q (i - length p) 0)
get_or-append [] q i = ground arith
get_or-append (x ∷ p) q zero = ground arith
get_or-append (x ∷ p) q (suc i) = ground (arith, get_or-append p q i)

copy_tail-drop :
    (p q : Bytes) (i k : ℕ) → i + k ≡ length p + length q → copy_tail p q i k ≡ drop i (p ++ q)
unfolding copy_tail
copy_tail-drop p q i zero h = sym (drop_all (p ++ q) i (omega (arith, length-append p q)))
copy_tail-drop p q i (suc k) h =
    rw (drop-get_or (p ++ q) i (omega (arith, length-append p q)), get_or-append p q i)
      (ap (◌∷◌ (if ltb i (length p) then get_or p i 0 else get_or q (i - length p) 0))
        (copy_tail-drop p q (i + 1) k (omega arith) ∙ ap (λ j. drop j (p ++ q)) (add-one i)))

tail_update-drop : (p q : Bytes) → tail_update_after_feed p q ≡ last_three (p ++ q)
unfolding tail_update_after_feed
tail_update-drop p q = elim (Bool-cases (ltb (length p + length q) 3)) [
  | inl small ↦ rw small (
      copy_tail-drop p q (length p + length q - (length p + length q)) (length p + length q)
        (omega arith)
      ∙ ap (λ j. drop j (p ++ q)) (omega (tests, small, length-append p q)))
  | inr big ↦ rw big (
      copy_tail-drop p q (length p + length q - 3) 3 (ground arith)
      ∙ ap (λ j. drop j (p ++ q)) (omega (arith, length-append p q)))
]

last_three_short : (s : Bytes) → length s ≤ 3 → last_three s ≡ s
last_three_short s h = let e : length s - 3 ≡ 0 = omega arith in rw e

last_three_long : (x : ℕ) (s : Bytes) → 3 ≤ length s → last_three (x ∷ s) ≡ last_three s
last_three_long x s h = let e : suc (length s) - 3 ≡ suc (length s - 3) = omega arith in rw e

last_three-append : (s q : Bytes) → last_three (last_three s ++ q) ≡ last_three (s ++ q)
last_three-append [] q = refl
last_three-append (x ∷ s) q = elim (Bool-cases (ltb (length s) 3)) [
  | inl short ↦ ap (λ t. last_three (t ++ q)) (last_three_short (x ∷ s) (omega (tests, short)))
  | inr long ↦
      let big : 3 ≤ length s = ground arith in
      ap (λ t. last_three (t ++ q)) (last_three_long x s big)
      ∙ last_three-append s q
      ∙ sym (last_three_long x (s ++ q) (omega (arith, length-append s q)))
]

-- The tail kept after a chunk is the last three bytes of the stream with the chunk.
pub tail_update-last_three :
    (s q : Bytes) → tail_update_after_feed (last_three s) q ≡ last_three (s ++ q)
tail_update-last_three s q = tail_update-drop (last_three s) q ∙ last_three-append s q

-- Where four bytes are at hand, the test for the terminator does not read further.
starts-append : (x : ℕ) (s q : Bytes) → 3 ≤ length s → starts (x ∷ s ++ q) ≡ starts (x ∷ s)
unfolding starts
starts-append x (a ∷ b ∷ c ∷ s) q h = refl
starts-append x (a ∷ b ∷ []) q h = absurd (omega arith)
starts-append x (a ∷ []) q h = absurd (omega arith)
starts-append x [] q h = absurd (omega arith)

first_end-cons-none :
    (x : ℕ) (s : Bytes) → first_end (x ∷ s) ≡ none → (starts (x ∷ s) ≡ false) × (first_end s ≡ none)
unfolding first_end
first_end-cons-none x s h = elim (Bool-cases (starts (x ∷ s))) [
  | inl now ↦ ground arith
  | inr later ↦ (later, ground arith)
]

first_end-cons :
    (x : ℕ) (s : Bytes) → starts (x ∷ s) ≡ false → first_end (x ∷ s) ≡ Option.map suc (first_end s)
unfolding first_end
first_end-cons x s h = rw h

shift_end :
    (n : ℕ) (o : Option ℕ)
    → 3 ≤ n
    → Option.map suc (Option.map (λ e. e + (n - 3)) o) ≡ Option.map (λ e. e + (suc n - 3)) o
shift_end n none h = refl
shift_end n (some e) h = ap some (omega arith)

map-add_zero : (o : Option ℕ) (n : ℕ) → n ≡ 0 → o ≡ Option.map (λ e. e + n) o
map-add_zero none n h = refl
map-add_zero (some e) n h = ap some (omega arith)

-- Bytes that hold no terminator matter only by their last three.
pub first_end-last_three :
    (s q : Bytes)
    → first_end s ≡ none
    → first_end (s ++ q) ≡ Option.map (λ e. e + (length s - 3)) (first_end (last_three s ++ q))
first_end-last_three [] q h = map-add_zero (first_end q) 0 refl
first_end-last_three (x ∷ s) q h = elim (Bool-cases (ltb (length s) 3)) [
  | inl short ↦
      rw (last_three_short (x ∷ s) (omega (tests, short)))
        (map-add_zero (first_end (x ∷ s ++ q)) _ (omega (tests, short)))
  | inr long ↦
      let big : 3 ≤ length s = ground arith in
      let (later, clean) = first_end-cons-none x s h in
      rw (last_three_long x s big) (
        first_end-cons x (s ++ q) (starts-append x s q big ∙ later)
        ∙ ap (Option.map suc) (first_end-last_three s q clean)
        ∙ shift_end (length s) (first_end (last_three s ++ q)) big)
]

-- After any chunks, the first of them received on a fresh connection, the tail is the last three
-- bytes of the stream that they make up.
tail_after_chunks :
    (chunks : List Bytes) (s : Bytes)
    → foldl tail_update_after_feed (last_three s) chunks ≡ last_three (s ++ flatten chunks)
unfolding flatten
tail_after_chunks [] s = ap last_three (sym (append-nil s))
tail_after_chunks (q ∷ chunks) s =
    rw (tail_update-last_three s q, tail_after_chunks chunks (s ++ q), append_assoc)

-- The tail that is kept over any chunks is the last three bytes of the whole stream, or all of it.
pub tail_of_stream :
    (chunks : List Bytes) → foldl tail_update_after_feed [] chunks ≡ last_three (flatten chunks)
tail_of_stream chunks = tail_after_chunks chunks []

-- If a stream has no terminator, then the search over its tail and a new chunk finds what the
-- search over the whole stream with that chunk finds, counted from the tail.
pub find-last_three :
    (s q : Bytes)
    → find_header_terminator_end [] s ≡ none
    → find_header_terminator_end [] (s ++ q)
      ≡ Option.map (λ e. e + (length s - 3)) (find_header_terminator_end (last_three s) q)
find-last_three s q h =
    rw (find-first_end [] (s ++ q), find-first_end (last_three s) q)
      (first_end-last_three s q (sym (find-first_end [] s) ∙ h))
