-- ===== src/Compression/Accepted.antt =====
-- Which codings compression.c accepts of a header that lists codings with weights.
use lamseryn.Prelude.{
  ℕ, zero, suc, ◌+◌, ◌≤◌, ◌<◌, Bool, true, false, ◌&&◌, not, Option, none, some, List, [], ◌∷◌,
  ◌++◌, Bytes, codes, ◌==◌, if◌then◌else◌, length, length-append, ◌≡◌, ◌≢◌, refl, sym, ap, ap₂,
  subst, ◌∙◌, All, arith, inl, inr, Bool-cases, append_assoc,
}
use lamseryn.Http.Tokens.{same}
use lamseryn.Compression.{
  ae_skip_ws, ascii_lower, ae_token_ieq, Codings, record_coding, skip_comma, coding, codings,
  no_codings, is_accepted, bit, compress_parse_accept_encoding,
}
use lamseryn.Compression.Negotiate.{
  Ended, weight_suffix, is_name_char, Item, is_refused, IsItem, item_text, more_text, header_text,
  coding-item, name_char,
}

abbrev pub or_else : Option Bool → Option Bool → Option Bool
or_else none o = o
or_else (some b) o = some b

abbrev pub names_gzip : Bytes → Bool
unfolding ae_token_ieq
names_gzip name = ae_token_ieq name (codes "gzip")

abbrev pub names_brotli : Bytes → Bool
unfolding ae_token_ieq
names_brotli name = ae_token_ieq name (codes "br")

abbrev pub names_all : Bytes → Bool
names_all name = same name (codes "*")

-- What an item says of a coding that its name may be of.
abbrev pub says : (Bytes → Bool) → Item → Option Bool
says p i = if p i.name then some (not (is_refused i.weight)) else none

-- The last word on a coding.
abbrev pub last_said : (Bytes → Bool) → List Item → Option Bool
last_said p [] = none
last_said p (i ∷ is_) = or_else (last_said p is_) (says p i)

abbrev pub with_items : List Item → Codings → Codings
with_items is_ k = record {
  gzip = or_else (last_said names_gzip is_) k.gzip;
  brotli = or_else (last_said names_brotli is_) k.brotli;
  wildcard = or_else (last_said names_all is_) k.wildcard;
}

or_else_assoc : (a b c : Option Bool) → or_else (or_else a b) c ≡ or_else a (or_else b c)
or_else_assoc none b c = refl
or_else_assoc (some x) b c = refl

same-eq : (a b : Bytes) → same a b ≡ true → a ≡ b
same-eq [] [] h = refl
same-eq [] (y ∷ b) h = absurd (ground (arith, h))
same-eq (x ∷ a) [] h = absurd (ground (arith, h))
same-eq (x ∷ a) (y ∷ b) h =
    ap₂ (◌∷◌) (first_same (x == y) x y (same a b) refl h)
      (same-eq a b (rest_same (x == y) (same a b) h))
  where
    first_same : (t : Bool) (x y : ℕ) (u : Bool) → (x == y) ≡ t → t && u ≡ true → x ≡ y
    first_same true x y u e h = ground (arith, e)
    first_same false x y u e h = absurd (ground (arith, h))

    rest_same : (t u : Bool) → t && u ≡ true → u ≡ true
    rest_same t u h = ground (arith, h)

not_all : (tok lit : Bytes) → ascii_lower tok ≡ lit → length lit ≢ 1 → names_all tok ≡ false
not_all tok lit e n = elim (Bool-cases (names_all tok)) [
  | inl all ↦
      let star : ascii_lower (codes "*") ≡ lit =
        subst (λ (t : Bytes). ascii_lower t ≡ lit) (same-eq tok (codes "*") all) e in
      absurd (n (sym (ap length star)))
  | inr other ↦ other
]

gzip-alone :
    (tok : Bytes) → names_gzip tok ≡ true → (names_brotli tok ≡ false) × (names_all tok ≡ false)
unfolding ae_token_ieq
gzip-alone tok h =
    let e = same-eq (ascii_lower tok) (codes "gzip") h in
    (rw e refl, not_all tok (codes "gzip") e (λ n. omega (arith, n)))

brotli-alone : (tok : Bytes) → names_brotli tok ≡ true → names_all tok ≡ false
unfolding ae_token_ieq
brotli-alone tok h =
    not_all tok (codes "br") (same-eq (ascii_lower tok) (codes "br") h) (λ n. omega (arith, n))

-- The three tests of a name, at most one of which is true.
recorded :
    (g b a : Bool) (k : Codings) (z : Bool)
    → (g ≡ true → (b ≡ false) × (a ≡ false))
    → (b ≡ true → a ≡ false)
    → ◌≡◌ {A = Codings}
        (if g
          then record k { gzip = some (not z) }
          else if b
          then record k { brotli = some (not z) }
          else if a
          then record k { wildcard = some (not z) }
          else k)
        (record {
          gzip = or_else (if g then some (not z) else none) k.gzip;
          brotli = or_else (if b then some (not z) else none) k.brotli;
          wildcard = or_else (if a then some (not z) else none) k.wildcard;
        })
recorded true true a k z p q = absurd (ground (arith, (p refl).0))
recorded true false true k z p q = absurd (ground (arith, (p refl).1))
recorded true false false k z p q = refl
recorded false true true k z p q = absurd (ground (arith, q refl))
recorded false true false k z p q = refl
recorded false false true k z p q = refl
recorded false false false k z p q = refl

record_coding-item :
    (k : Codings) (i : Item)
    → record_coding k i.name (is_refused i.weight) ≡ record {
      gzip = or_else (says names_gzip i) k.gzip;
      brotli = or_else (says names_brotli i) k.brotli;
      wildcard = or_else (says names_all i) k.wildcard;
    }
unfolding record_coding ae_token_ieq
record_coding-item k i =
    recorded (names_gzip i.name) (names_brotli i.name) (names_all i.name) k (is_refused i.weight)
      (gzip-alone i.name) (brotli-alone i.name)

name-Opens :
    (name s : Bytes)
    → 0 < length name
    → All (λ c. is_name_char c ≡ true) name
    → (ae_skip_ws (name ++ s) ≡ name ++ s) × ((length (name ++ s) == 0) ≡ false)
unfolding ae_skip_ws
name-Opens [] s h k = absurd (omega arith)
name-Opens (c ∷ name) s h (k, ks) = (rw (name_char c k).1 refl, ground arith)

item-Opens :
    (i : Item) (s : Bytes)
    → IsItem i
    → (ae_skip_ws (item_text i ++ s) ≡ item_text i ++ s)
      × ((length (item_text i ++ s) == 0) ≡ false)
unfolding IsItem
item-Opens i s h =
    subst (λ (t : Bytes). (ae_skip_ws t ≡ t) × ((length t == 0) ≡ false))
      (sym (append_assoc i.name (weight_suffix i.weight) s))
      (name-Opens i.name (weight_suffix i.weight ++ s) h.0 h.1)

codings-nil : (fuel : ℕ) (k : Codings) → codings fuel k [] ≡ k
unfolding codings ae_skip_ws
codings-nil zero k = refl
codings-nil (suc fuel) k = refl

codings-step :
    (fuel : ℕ) (k : Codings) (s start : Bytes)
    → ae_skip_ws s ≡ start
    → (length start == 0) ≡ false
    → codings (suc fuel) k s ≡ codings fuel (coding k start).0 (coding k start).1
unfolding codings
codings-step fuel k s start e n = rw (e, n) refl

with_one : Codings → Item → Codings
with_one k i = record {
  gzip = or_else (says names_gzip i) k.gzip;
  brotli = or_else (says names_brotli i) k.brotli;
  wildcard = or_else (says names_all i) k.wildcard;
}

record_codings :
    (g g' b b' a a' : Option Bool)
    → g ≡ g'
    → b ≡ b'
    → a ≡ a'
    → ◌≡◌ {A = Codings}
        (record { gzip = g; brotli = b; wildcard = a })
        (record { gzip = g'; brotli = b'; wildcard = a' })
record_codings g g' b b' a a' p q r = rw (p, q, r) refl

with_items-cons :
    (k : Codings) (i : Item) (is_ : List Item)
    → with_items is_ (with_one k i) ≡ with_items (i ∷ is_) k
unfolding with_one
with_items-cons k i is_ =
    record_codings (or_else (last_said names_gzip is_) (or_else (says names_gzip i) k.gzip))
      (or_else (or_else (last_said names_gzip is_) (says names_gzip i)) k.gzip)
      (or_else (last_said names_brotli is_) (or_else (says names_brotli i) k.brotli))
      (or_else (or_else (last_said names_brotli is_) (says names_brotli i)) k.brotli)
      (or_else (last_said names_all is_) (or_else (says names_all i) k.wildcard))
      (or_else (or_else (last_said names_all is_) (says names_all i)) k.wildcard)
      (sym (or_else_assoc (last_said names_gzip is_) (says names_gzip i) k.gzip))
      (sym (or_else_assoc (last_said names_brotli is_) (says names_brotli i) k.brotli))
      (sym (or_else_assoc (last_said names_all is_) (says names_all i) k.wildcard))

codings-item :
    (fuel : ℕ) (k : Codings) (i : Item) (s u : Bytes)
    → IsItem i
    → Ended u
    → ae_skip_ws s ≡ item_text i ++ u
    → codings (suc fuel) k s ≡ codings fuel (with_one k i) (skip_comma u)
unfolding with_one
codings-item fuel k i s u h e o =
    codings-step fuel k s (item_text i ++ u) o (item-Opens i u h).1
    ∙ ap (λ (r : Codings × Bytes). codings fuel r.0 r.1) (coding-item k i u h e)
    ∙ ap (λ (c : Codings). codings fuel c (skip_comma u)) (record_coding-item k i)

codings-items :
    (is_ : List Item) (fuel : ℕ) (k : Codings) (i : Item) (s : Bytes)
    → All IsItem (i ∷ is_)
    → ae_skip_ws s ≡ item_text i ++ more_text is_
    → length (i ∷ is_) ≤ fuel
    → codings fuel k s ≡ with_items (i ∷ is_) k
unfolding more_text ae_skip_ws
codings-items is_ zero k i s h o n = absurd (omega arith)
codings-items [] (suc fuel) k i s (h, hs) o n =
    codings-item fuel k i s [] h tt o ∙ codings-nil fuel (with_one k i) ∙ with_items-cons k i []
codings-items (j ∷ js) (suc fuel) k i s (h, hs) o n =
    codings-item fuel k i s (more_text (j ∷ js)) h refl o
    ∙ codings-items js fuel (with_one k i) j (b' ' ∷ item_text j ++ more_text js) hs
        (item-Opens j (more_text js) hs.0).0 (omega arith)
    ∙ with_items-cons k i (j ∷ js)

items_fit : (is_ : List Item) → All IsItem is_ → length is_ ≤ length (more_text is_)
unfolding more_text
items_fit [] h = omega arith
items_fit (i ∷ is_) (h, hs) =
    omega (arith, items_fit is_ hs, length-append (item_text i) (more_text is_))

value_length :
    (i : Item) (is_ : List Item)
    → All IsItem (i ∷ is_)
    → length (i ∷ is_) ≤ length (item_text i ++ more_text is_)
unfolding IsItem
value_length i is_ (h, hs) = omega (
  arith,
  items_fit is_ hs,
  length-append (item_text i) (more_text is_),
  length-append i.name (weight_suffix i.weight),
  h.0,
)

or_else-none : (o : Option Bool) → or_else o none ≡ o
or_else-none none = refl
or_else-none (some b) = refl

abbrev accepted_bits : Codings → ℕ
accepted_bits k = bit (is_accepted k.gzip k.wildcard) 1 + bit (is_accepted k.brotli k.wildcard) 2

-- An item with the coding's name decides, and otherwise one for all codings.
abbrev pub decided : Option Bool → Option Bool → Bool
decided (some b) all = b
decided none (some b) = b
decided none none = false

is_accepted-decided : (o all : Option Bool) → is_accepted o all ≡ decided o all
is_accepted-decided none none = refl
is_accepted-decided none (some b) = refl
is_accepted-decided (some b) none = refl
is_accepted-decided (some b) (some c) = refl

-- A header that lists codings, each with or without a weight: gzip and br are accepted as the last item with that name says,
-- which is no if its weight has no digit but zero, or, where there is none, as the last `*` says.
pub compress_parse_accept_encoding-text :
    (is_ : List Item)
    → All IsItem is_
    → compress_parse_accept_encoding (header_text is_)
      ≡ bit (decided (last_said names_gzip is_) (last_said names_all is_)) 1
        + bit (decided (last_said names_brotli is_) (last_said names_all is_)) 2
unfolding compress_parse_accept_encoding header_text
compress_parse_accept_encoding-text [] h = refl
compress_parse_accept_encoding-text (i ∷ is_) h =
    let value = item_text i ++ more_text is_ in
    ap accepted_bits (
      codings-items is_ (length value) no_codings i value h (item-Opens i (more_text is_) h.0).0
        (value_length i is_ h))
    ∙ rw
        (
          or_else-none (or_else (last_said names_gzip is_) (says names_gzip i)),
          or_else-none (or_else (last_said names_brotli is_) (says names_brotli i)),
          or_else-none (or_else (last_said names_all is_) (says names_all i)),
          is_accepted-decided (last_said names_gzip (i ∷ is_)) (last_said names_all (i ∷ is_)),
          is_accepted-decided (last_said names_brotli (i ∷ is_)) (last_said names_all (i ∷ is_)),
        )
        refl
