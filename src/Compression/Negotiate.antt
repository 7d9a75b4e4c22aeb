-- ===== src/Compression/Negotiate.antt =====
-- What an Accept-Encoding header of codings with weights says, and that compression.c reads it so.
use lamseryn.Prelude.{
  ℕ, zero, suc, ◌≤◌, ◌<◌, Bool, true, false, ◌&&◌, ◌||◌, not, Option, none, some, List, [], ◌∷◌,
  ◌++◌, Bytes, ◌==◌, if◌then◌else◌, length, ◌≡◌, refl, ap, All, arith, append_assoc,
}
use lamseryn.Compression.{
  is_ws, ae_skip_ws, split_at, ends_value, trim_end, skip_value, is_digit, fraction, after_zero,
  ae_q_is_zero, parameter, parameters, Codings, record_coding, skip_comma, coding,
}

-- A weight: a digit, and digits behind a point.
pub record Weight : Type 0 where
  pub whole : ℕ
  pub decimals : Option Bytes

abbrev pub point : Option Bytes → Bytes
point none = []
point (some ds) = b'.' ∷ ds

abbrev pub weight_text : Weight → Bytes
weight_text q = q.whole ∷ point q.decimals

abbrev pub zeros : Bytes → Bool
zeros [] = true
zeros (d ∷ ds) = d == b'0' && zeros ds

abbrev pub zero_decimals : Option Bytes → Bool
zero_decimals none = true
zero_decimals (some ds) = zeros ds

abbrev pub is_zero : Weight → Bool
is_zero q = q.whole == b'0' && zero_decimals q.decimals

abbrev pub Digits : Option Bytes → Type 0
Digits none = Unit
Digits (some ds) = All (λ d. is_digit d ≡ true) ds

unfoldable pub IsWeight : Weight → Type 0
IsWeight q = (is_digit q.whole ≡ true) × Digits q.decimals

-- The end of a coding: the header's, or a comma.
abbrev pub Ended : Bytes → Type 0
Ended [] = Unit
Ended (c ∷ s) = c ≡ b','

digit_ends : (d : ℕ) → is_digit d ≡ true → (ends_value d ≡ false) × (is_ws d ≡ false)
digit_ends d h = ground (arith, h)

split_at-stop : (s : Bytes) → Ended s → split_at ends_value s ≡ ([], s)
unfolding split_at
split_at-stop [] h = refl
split_at-stop (c ∷ s) h = rw h refl

split_at-append :
    (stop : ℕ → Bool) (xs s : Bytes)
    → All (λ c. stop c ≡ false) xs
    → split_at stop s ≡ ([], s)
    → split_at stop (xs ++ s) ≡ (xs, s)
unfolding split_at
split_at-append stop [] s h e = e
split_at-append stop (x ∷ xs) s h e = rw (split_at-append stop xs s h.1 e, h.0) refl

digits_end : (ds : Bytes) → All (λ d. is_digit d ≡ true) ds → All (λ d. ends_value d ≡ false) ds
digits_end [] h = tt
digits_end (d ∷ ds) (h, hs) = ((digit_ends d h).0, digits_end ds hs)

skip_value-digits :
    (ds s : Bytes) → All (λ d. is_digit d ≡ true) ds → Ended s → skip_value (ds ++ s) ≡ s
skip_value-digits ds s h e =
    ap (λ (r : Bytes × Bytes). r.1)
      (split_at-append ends_value ds s (digits_end ds h) (split_at-stop s e))

fraction-stop : (s : Bytes) → Ended s → fraction s ≡ (true, s)
unfolding fraction split_at
fraction-stop [] h = refl
fraction-stop (c ∷ s) h = rw h refl

zero_or :
    (b z : Bool) (s : Bytes)
    → ◌≡◌ {A = Bool × Bytes} (if not b then (false, s) else (z, s)) (b && z, s)
zero_or true z s = refl
zero_or false z s = refl

fraction-digits :
    (ds s : Bytes) → All (λ d. is_digit d ≡ true) ds → Ended s → fraction (ds ++ s) ≡ (zeros ds, s)
unfolding fraction
fraction-digits [] s h e = fraction-stop s e
fraction-digits (d ∷ ds) s (h, hs) e =
    rw (fraction-digits ds s hs e, skip_value-digits (d ∷ ds) s (h, hs) e, h)
      (zero_or (d == b'0') (zeros ds) s)

after_zero-point :
    (o : Option Bytes) (s : Bytes)
    → Digits o
    → Ended s
    → after_zero (point o ++ s) ≡ (zero_decimals o, s)
unfolding split_at fraction
after_zero-point none [] h e = refl
after_zero-point none (c ∷ s) h e = rw e refl
after_zero-point (some ds) s h e = fraction-digits ds s h e

skip_value-point :
    (o : Option Bytes) (s : Bytes) → Digits o → Ended s → skip_value (point o ++ s) ≡ s
unfolding split_at
skip_value-point none s h e = ap (λ (r : Bytes × Bytes). r.1) (split_at-stop s e)
skip_value-point (some ds) s h e = skip_value-digits ds s h e

skip_value-cons : (d : ℕ) (s : Bytes) → is_digit d ≡ true → skip_value (d ∷ s) ≡ skip_value s
unfolding split_at
skip_value-cons d s h = rw (skip_value, (digit_ends d h).0) refl

-- A weight is read as zero just when all its digits are.
ae_q_is_zero-weight :
    (q : Weight) (s : Bytes)
    → IsWeight q
    → Ended s
    → ae_q_is_zero (weight_text q ++ s) ≡ (is_zero q, s)
unfolding ae_q_is_zero ae_skip_ws IsWeight
ae_q_is_zero-weight q s (h, k) e =
    rw
      (
        (digit_ends q.whole h).1,
        after_zero-point q.decimals s k e,
        skip_value-cons q.whole (point q.decimals ++ s) h,
        skip_value-point q.decimals s k e,
      )
      (zero_or (q.whole == b'0') (zero_decimals q.decimals) s)

-- A coding with its weight, if it has one.
pub record Item : Type 0 where
  pub name : Bytes
  pub weight : Option Weight

abbrev pub weight_suffix : Option Weight → Bytes
weight_suffix none = []
weight_suffix (some q) = b';' ∷ b'q' ∷ b'=' ∷ weight_text q

abbrev pub is_refused : Option Weight → Bool
is_refused none = false
is_refused (some q) = is_zero q

abbrev pub WeightOr : Option Weight → Type 0
WeightOr none = Unit
WeightOr (some q) = IsWeight q

abbrev pub is_name_char : ℕ → Bool
is_name_char c = not (is_ws c || ends_value c)

-- A name of characters that neither end it nor are blank.
unfoldable pub IsItem : Item → Type 0
IsItem i = (0 < length i.name) × All (λ c. is_name_char c ≡ true) i.name × WeightOr i.weight

abbrev pub item_text : Item → Bytes
item_text i = i.name ++ weight_suffix i.weight

-- The items after the first, each behind a comma and a space.
unfoldable pub more_text : List Item → Bytes
more_text [] = []
more_text (i ∷ is_) = b',' ∷ b' ' ∷ item_text i ++ more_text is_

unfoldable pub header_text : List Item → Bytes
unfolding more_text
header_text [] = []
header_text (i ∷ is_) = item_text i ++ more_text is_

parameters-Ended : (fuel : ℕ) (q : Bool) (s : Bytes) → Ended s → parameters fuel q s ≡ (q, s)
unfolding parameters
parameters-Ended zero q s e = refl
parameters-Ended (suc fuel) q [] e = refl
parameters-Ended (suc fuel) q (c ∷ s) e = rw e refl

parameters-weight :
    (fuel : ℕ) (o : Option Weight) (s : Bytes)
    → WeightOr o
    → Ended s
    → length (weight_suffix o ++ s) ≤ fuel
    → parameters fuel false (weight_suffix o ++ s) ≡ (is_refused o, s)
unfolding parameters parameter split_at ae_skip_ws
parameters-weight fuel none s h e k = parameters-Ended fuel false s e
parameters-weight zero (some q) s h e k = absurd (omega arith)
parameters-weight (suc fuel) (some q) s h e k =
    let read = ae_q_is_zero-weight q s h e in rw read (parameters-Ended fuel (is_zero q) s e)

pub name_char : (c : ℕ) → is_name_char c ≡ true → (ends_value c ≡ false) × (is_ws c ≡ false)
name_char c h = ground (arith, h)

names_end : (s : Bytes) → All (λ c. is_name_char c ≡ true) s → All (λ c. ends_value c ≡ false) s
names_end [] h = tt
names_end (c ∷ s) (h, hs) = ((name_char c h).0, names_end s hs)

trim_end-name : (s : Bytes) → All (λ c. is_name_char c ≡ true) s → trim_end s ≡ s
unfolding trim_end
trim_end-name [] h = refl
trim_end-name (c ∷ s) (h, hs) = rw (trim_end-name s hs, (name_char c h).1) refl

split_at-suffix :
    (o : Option Weight) (s : Bytes)
    → Ended s
    → split_at ends_value (weight_suffix o ++ s) ≡ ([], weight_suffix o ++ s)
unfolding split_at
split_at-suffix none s e = split_at-stop s e
split_at-suffix (some q) s e = refl

ae_skip_ws-Ended : (s : Bytes) → Ended s → ae_skip_ws s ≡ s
unfolding ae_skip_ws
ae_skip_ws-Ended [] e = refl
ae_skip_ws-Ended (c ∷ s) e = rw e refl

-- One coding is read as its name and whether its weight is zero.
pub coding-item :
    (k : Codings) (i : Item) (s : Bytes)
    → IsItem i
    → Ended s
    → coding k (item_text i ++ s) ≡ (record_coding k i.name (is_refused i.weight), skip_comma s)
unfolding coding IsItem
coding-item k i s (some_name, chars, weight) e =
    rw
      (
        append_assoc i.name (weight_suffix i.weight) s,
        split_at-append ends_value i.name (weight_suffix i.weight ++ s) (names_end i.name chars)
            (split_at-suffix i.weight s e),
        parameters-weight (length (weight_suffix i.weight ++ s)) i.weight s weight e (omega arith),
        trim_end-name i.name chars,
        ae_skip_ws-Ended s e,
      )
      refl
