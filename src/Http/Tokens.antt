-- ===== src/Http/Tokens.antt =====
-- The lists of tokens in Transfer-Encoding and Expect headers (http_parser.c).
use lamseryn.Prelude.{
  ℕ, zero, suc, ◌≤◌, Bool, true, false, ◌&&◌, ◌||◌, not, List, [], ◌∷◌, ◌++◌, ◌≡◌, refl, sym, ap,
  ap₂, ◌∙◌, arith, Bytes, codes, ◌==◌, if◌then◌else◌, length, length-append, All, Bool-cases, inl,
  inr,
}

abbrev pub is_sep : ℕ → Bool
is_sep c = c == b' ' || (c == b'\t' || c == b',')

unfoldable pub skip_seps : Bytes → Bytes
skip_seps [] = []
skip_seps (c ∷ s) = let rest = skip_seps s in if is_sep c then rest else c ∷ s

-- The bytes up to the next separator, and what follows.
unfoldable pub take_token : Bytes → Bytes × Bytes
take_token [] = ([], [])
take_token (c ∷ s) =
    let (tok, rest) = take_token s in if is_sep c then ([], c ∷ s) else (c ∷ tok, rest)

abbrev pub same : Bytes → Bytes → Bool
same [] [] = true
same [] (b ∷ t) = false
same (a ∷ s) [] = false
same (a ∷ s) (b ∷ t) = a == b && same s t

abbrev pub is_chunked : Bytes → Bool
is_chunked tok = same tok (codes "chunked")

abbrev pub is_continue : Bytes → Bool
is_continue tok = same tok (codes "100-continue")

-- The loop over a Transfer-Encoding value, on fuel, with `te_chunked` and `te_other`. An empty token
-- stands only at the end.
unfoldable pub te_from : ℕ → Bytes → Bool → Bool → Bool × Bool
unfolding skip_seps take_token
te_from zero s chunked other = (chunked, other)
te_from (suc fuel) s chunked other =
    let (tok, rest) = take_token (skip_seps s) in
    let more = te_from fuel rest (chunked || is_chunked tok) (other || not (is_chunked tok)) in
    if length tok == 0 then (chunked, other) else more

-- A round takes a byte.
unfoldable pub te_tokens : Bytes → Bool → Bool → Bool × Bool
unfolding te_from
te_tokens s chunked other = te_from (length s) s chunked other

-- The loop of `h1_expect_value_supported`, on fuel.
unfoldable pub expect_from : ℕ → Bytes → Bool → Bool
unfolding skip_seps take_token
expect_from zero s saw = saw
expect_from (suc fuel) s saw =
    let (tok, rest) = take_token (skip_seps s) in
    let more = expect_from fuel rest true in
    if length tok == 0 then saw else if is_continue tok then more else false

unfoldable pub expect_value_supported : Bytes → Bool
unfolding expect_from
expect_value_supported s = expect_from (length s) s false

-- A text that is empty or begins with a separator.
abbrev pub Ends : Bytes → Type 0
Ends [] = Unit
Ends (c ∷ s) = is_sep c ≡ true

abbrev pub IsWord : Bytes → Type 0
IsWord t = All (λ c. is_sep c ≡ false) t

-- A text with its tokens.
pub data Splits : Bytes → List Bytes → Type 0 where
  none_left : Splits [] []
  sep :
      (c : ℕ) {s : Bytes} {toks : List Bytes}
      → is_sep c ≡ true
      → Splits s toks
      → Splits (c ∷ s) toks
  word :
      (c : ℕ) (t : Bytes) {s : Bytes} {toks : List Bytes}
      → IsWord (c ∷ t)
      → Ends s
      → Splits s toks
      → Splits (c ∷ t ++ s) ((c ∷ t) ∷ toks)

take_token-word : (t s : Bytes) → IsWord t → Ends s → take_token (t ++ s) ≡ (t, s)
unfolding take_token
take_token-word [] [] w e = refl
take_token-word [] (c ∷ s) w e = rw e refl
take_token-word (c ∷ t) s w e = rw (w.0, take_token-word t s w.1 e) refl

skip_seps-word : (c : ℕ) (s : Bytes) → is_sep c ≡ false → skip_seps (c ∷ s) ≡ c ∷ s
unfolding skip_seps
skip_seps-word c s h = rw h refl

skip_seps-sep : (c : ℕ) (s : Bytes) → is_sep c ≡ true → skip_seps (c ∷ s) ≡ skip_seps s
unfolding skip_seps
skip_seps-sep c s h = rw h refl

not_empty : (n : ℕ) → (suc n == 0) ≡ false
not_empty n = ground arith

if_and : (a b : Bool) → (if a then b else false) ≡ (a && b)
if_and a b = ground arith

abbrev pub any_chunked : List Bytes → Bool
any_chunked [] = false
any_chunked (t ∷ ts) = is_chunked t || any_chunked ts

abbrev pub any_other : List Bytes → Bool
any_other [] = false
any_other (t ∷ ts) = not (is_chunked t) || any_other ts

abbrev pub all_continue : List Bytes → Bool
all_continue [] = true
all_continue (t ∷ ts) = is_continue t && all_continue ts

or_assoc : (a b c : Bool) → ((a || b) || c) ≡ (a || (b || c))
or_assoc a b c = ground arith

or_false : (a : Bool) → (a || false) ≡ a
or_false a = ground arith

te_from-tokens :
    {s : Bytes} {toks : List Bytes}
    → Splits s toks
    → (fuel : ℕ) (ch ot : Bool) → length s ≤ fuel
    → te_from fuel s ch ot ≡ (ch || any_chunked toks, ot || any_other toks)
unfolding te_from
te_from-tokens none_left zero ch ot h = ap₂ (λ a b. (a, b)) (sym (or_false ch)) (sym (or_false ot))
te_from-tokens none_left (suc f) ch ot h =
    ap₂ (λ a b. (a, b)) (sym (or_false ch)) (sym (or_false ot))
te_from-tokens (sep c e sp) zero ch ot h = absurd (omega arith)
te_from-tokens (sep c {s} e sp) (suc f) ch ot h =
    rw (skip_seps-sep c s e) (te_from-tokens sp (suc f) ch ot (omega arith))
te_from-tokens (word c t w e sp) zero ch ot h = absurd (omega arith)
te_from-tokens (word c t {s} {toks} w e sp) (suc f) ch ot h =
    let tok = c ∷ t in
    let shorter : length s ≤ f = omega (arith, h, length-append t s) in
    rw (skip_seps-word c (t ++ s) w.0, take_token-word tok s w e, not_empty (length t))
      (te_from-tokens sp f (ch || is_chunked tok) (ot || not (is_chunked tok)) shorter
        ∙ ap₂ (λ a b. (a, b)) (or_assoc ch (is_chunked tok) (any_chunked toks))
            (or_assoc ot (not (is_chunked tok)) (any_other toks)))

abbrev pub expected : Bool → List Bytes → Bool
expected saw [] = saw
expected saw (t ∷ ts) = all_continue (t ∷ ts)

expected-true : (toks : List Bytes) → expected true toks ≡ all_continue toks
expected-true [] = refl
expected-true (t ∷ ts) = refl

expect_from-tokens :
    {s : Bytes} {toks : List Bytes}
    → Splits s toks
    → (fuel : ℕ) (saw : Bool) → length s ≤ fuel
    → expect_from fuel s saw ≡ expected saw toks
unfolding expect_from
expect_from-tokens none_left zero saw h = refl
expect_from-tokens none_left (suc f) saw h = refl
expect_from-tokens (sep c e sp) zero saw h = absurd (omega arith)
expect_from-tokens (sep c {s} e sp) (suc f) saw h =
    rw (skip_seps-sep c s e) (expect_from-tokens sp (suc f) saw (omega arith))
expect_from-tokens (word c t w e sp) zero saw h = absurd (omega arith)
expect_from-tokens (word c t {s} {toks} w e sp) (suc f) saw h =
    let tok = c ∷ t in
    let shorter : length s ≤ f = omega (arith, h, length-append t s) in
    let rest = expect_from-tokens sp f true shorter ∙ expected-true toks in
    rw (skip_seps-word c (t ++ s) w.0, take_token-word tok s w e, not_empty (length t))
      (ap (λ b. if is_continue tok then b else false) rest
        ∙ if_and (is_continue tok) (all_continue toks))

-- A letter before a text begins its first token, or is a token of its own.
one_letter :
    (c : ℕ) {s : Bytes} {toks : List Bytes}
    → is_sep c ≡ false
    → Splits s toks
    → (ts : List Bytes) × Splits (c ∷ s) ts
one_letter c e none_left = ((c ∷ []) ∷ [], word c [] (e, tt) tt none_left)
one_letter c e (sep d f sp) = ((c ∷ []) ∷ _, word c [] (e, tt) f (sep d f sp))
one_letter c e (word d t w f sp) = ((c ∷ d ∷ t) ∷ _, word c (d ∷ t) (e, w) f sp)

one_more :
    (c : ℕ) {s : Bytes} {toks : List Bytes} → Splits s toks → (ts : List Bytes) × Splits (c ∷ s) ts
one_more c sp = elim (Bool-cases (is_sep c)) [ inl e ↦ (_, sep c e sp) | inr e ↦ one_letter c e sp ]

-- Every text has its tokens.
split_text : (s : Bytes) → (toks : List Bytes) × Splits s toks
split_text [] = ([], none_left)
split_text (c ∷ s) = one_more c (split_text s).1

-- A Transfer-Encoding value consists of tokens set apart by blanks and commas. After it `te_chunked`
-- is set if it was or one of the tokens is "chunked", and `te_other` if it was or one is another.
-- An Expect value is supported when it has a token and each is "100-continue".
pub tokens_lem :
    (s : Bytes) (chunked other : Bool)
    → (toks : List Bytes) × Splits s toks
      × (te_tokens s chunked other ≡ (chunked || any_chunked toks, other || any_other toks))
      × (expect_value_supported s ≡ expected false toks)
unfolding te_tokens expect_value_supported
tokens_lem s chunked other =
    let (toks, sp) = split_text s in
    (
      toks,
      sp,
      te_from-tokens sp (length s) chunked other (omega arith),
      expect_from-tokens sp (length s) false (omega arith),
    )
