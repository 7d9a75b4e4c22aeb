-- ===== src/Http/Pieces.antt =====
-- How the callbacks for names and values gather a header that arrives in pieces (http_parser.c).
use lamseryn.Prelude.{
  ℕ, suc, ◌+◌, ◌-◌, ◌<◌, Bool, true, false, ◌||◌, List, [], ◌∷◌, ◌++◌, ◌≡◌, refl, sym, ap, ap₂, ◌∙◌,
  arith, Bytes, ltb, ◌==◌, length, take, append-nil, Bool-cases, inl, inr, if_both,
}
use mathlib.Core.List.{foldl}
use lamseryn.Http.Values.{
  append_raw, hdr_append_lower, lowered, take-cons, take-none, take-nil, append_lower, append_step,
  lowered-append,
}
use lamseryn.Http.Fields.{
  Fields, Interest, no_interest, content_length, transfer_encoding, expect, in_field, in_value,
  is_in_value, hdr_name_size, hdr_val_size, req_hdr_value_max, ArenaRoom, on_header_field,
  on_header_value, interest_of, val_of,
}

room_left : (size len : ℕ) → size - 1 - (len + 1) ≡ size - 1 - len - 1
room_left size len = omega arith

room_more : (size len : ℕ) → ltb (len + 1) size ≡ true → 0 < size - 1 - len
room_more size len h = ground (arith, h)

no_space : (size len : ℕ) → ltb (len + 1) size ≡ false → size - 1 - len ≡ 0
no_space size len h = ground (arith, h)

room_cut :
    (size len n : ℕ)
    → ltb (len + 1) size ≡ true
    → ltb (size - 1 - (len + 1)) n ≡ ltb (size - 1 - len) (suc n)
room_cut size len n h = ground (arith, h)

pub append_raw-cut :
    (size len : ℕ) (s : Bytes)
    → append_raw size len s ≡ (take (size - 1 - len) s, ltb (size - 1 - len) (length s))
unfolding append_raw
append_raw-cut size len [] = ap₂ (λ a b. (a, b)) (sym (take-nil (size - 1 - len))) (ground arith)
append_raw-cut size len (c ∷ s) = elim (Bool-cases (ltb (len + 1) size)) [
  | inl room ↦
      rw (room, append_raw-cut size (len + 1) s)
        (ap₂ (λ a b. (a, b))
          (ap (λ k. c ∷ take k s) (room_left size len)
            ∙ sym (take-cons (size - 1 - len) c s (room_more size len room)))
          (room_cut size len (length s) room))
  | inr full ↦ rw full (
      ap₂ (λ a b. (a, b)) (sym (take-none (size - 1 - len) (c ∷ s) (no_space size len full)))
        (ground (arith, full)))
]

-- What the raw buffer holds of a text, and whether it is cut.
abbrev pub cut_raw : Bytes → Bytes × Bool
cut_raw s = (take (req_hdr_value_max - 1) s, ltb (req_hdr_value_max - 1) (length s))

-- The name so far.
abbrev pub named : Fields → Bytes → Fields
named c name = record c { hdr_state = in_field; hdr_name = name }

-- The value so far.
abbrev pub valued : Fields → Interest → Bytes → Bytes → Bool → Fields
valued c i val raw cut = record c {
  hdr_state = in_value;
  hdr_interest = i;
  hdr_val = val;
  hdr_val_raw = raw;
  hdr_val_raw_truncated = cut;
}

empty_of : (s : Bytes) → (length s == 0) ≡ true → s ≡ []
empty_of [] h = refl
empty_of (c ∷ s) h = absurd (ground (arith, h))

true-false : ¬ (true ≡ false)
true-false e = ground (arith, e)

-- What a header's value buffer holds: nothing, unless the header decides the framing.
abbrev pub kept_val : Interest → Bytes → Bytes
kept_val no_interest val = []
kept_val content_length val = take (hdr_val_size - 1) (lowered val)
kept_val transfer_encoding val = take (hdr_val_size - 1) (lowered val)
kept_val expect val = take (hdr_val_size - 1) (lowered val)

lower_step :
    (t p : Bytes)
    → hdr_append_lower hdr_val_size (take (hdr_val_size - 1) (lowered t)) p
      ≡ take (hdr_val_size - 1) (lowered (t ++ p))
lower_step t p =
    append_step hdr_val_size (lowered t) p ∙ ap (take (hdr_val_size - 1)) (sym (lowered-append t p))

pub val_step : (i : Interest) (t p : Bytes) → val_of i (kept_val i t) p ≡ kept_val i (t ++ p)
val_step no_interest t p = refl
val_step content_length t p = lower_step t p
val_step transfer_encoding t p = lower_step t p
val_step expect t p = lower_step t p

empty_val : (i : Interest) (val : Bytes) → val ≡ val_of i val []
unfolding hdr_append_lower append_lower
empty_val no_interest val = refl
empty_val content_length val = sym (append-nil val)
empty_val transfer_encoding val = sym (append-nil val)
empty_val expect val = sym (append-nil val)

pub valued_eq :
    (c : Fields) (i : Interest) {v v' r r' : Bytes} {t t' : Bool}
    → v ≡ v'
    → r ≡ r'
    → t ≡ t'
    → valued c i v r t ≡ valued c i v' r' t'
valued_eq c i {v} {v'} {r} {r'} {t} {t'} a b d =
    ap (λ x. valued c i x r t) a ∙ ap₂ (λ x y. valued c i v' x y) b d

or_false : (b : Bool) → b ≡ (b || false)
or_false b = ground arith

empty_value :
    (c : Fields) (i : Interest) (val raw : Bytes) (cut : Bool)
    → valued c i val raw cut
      ≡ valued c i
          (val_of i val [])
          (raw ++ (append_raw req_hdr_value_max (length raw) []).0)
          (cut || (append_raw req_hdr_value_max (length raw) []).1)
unfolding append_raw
empty_value c i val raw cut = valued_eq c i (empty_val i val) (sym (append-nil raw)) (or_false cut)

module _ (room : ArenaRoom) (c : Fields) (small : c.h1.header_too_big ≡ false) where
  name_piece :
      (name p : Bytes)
      → on_header_field room (named c name) p ≡ named c (hdr_append_lower hdr_name_size name p)
  unfolding on_header_field hdr_append_lower append_lower
  name_piece name p =
      let goal : Fields → Type 0 = λ v. v ≡ named c (hdr_append_lower hdr_name_size name p) in
      if_both goal (length p == 0) (λ e. rw (empty_of p e) (ap (named c) (sym (append-nil name))))
        (λ e.
          if_both goal c.h1.header_too_big (λ big. absurd (true-false (sym big ∙ small)))
            (λ fits. refl))

  pub name_pieces :
      (ps : List Bytes) (name : Bytes)
      → foldl (on_header_field room) (named c name) ps
        ≡ named c (foldl (hdr_append_lower hdr_name_size) name ps)
  name_pieces [] name = refl
  name_pieces (p ∷ ps) name =
      rw (name_piece name p) (name_pieces ps (hdr_append_lower hdr_name_size name p))

  pub first_name :
      (p : Bytes)
      → 0 < length p
      → is_in_value c.hdr_state ≡ false
      → on_header_field room c p ≡ named c (hdr_append_lower hdr_name_size c.hdr_name p)
  unfolding on_header_field
  first_name p some_bytes fresh =
      let goal : Fields → Type 0 = λ v. v ≡ named c (hdr_append_lower hdr_name_size c.hdr_name p) in
      if_both goal (length p == 0) (λ e. absurd (ground (arith, some_bytes, e)))
        (λ e.
          if_both goal c.h1.header_too_big (λ big. absurd (true-false (sym big ∙ small)))
            (λ fits. rw fresh refl))

  -- The first piece of the value of the header with this name.
  abbrev pub begun : Bytes → Bytes → Fields
  begun name p =
      valued (named c name) (interest_of name) (val_of (interest_of name) [] p)
        (append_raw req_hdr_value_max 0 p).0 (append_raw req_hdr_value_max 0 p).1

  -- A piece of the value, once the first has been seen.
  pub value_piece :
      (i : Interest) (val raw p : Bytes) (cut : Bool)
      → on_header_value (valued c i val raw cut) p
        ≡ valued c i
            (val_of i val p)
            (raw ++ (append_raw req_hdr_value_max (length raw) p).0)
            (cut || (append_raw req_hdr_value_max (length raw) p).1)
  unfolding on_header_value
  value_piece i val raw p cut =
      let goal : Fields → Type 0 = λ v.
        v
        ≡ valued c i (val_of i val p) (raw ++ (append_raw req_hdr_value_max (length raw) p).0)
            (cut || (append_raw req_hdr_value_max (length raw) p).1) in
      if_both goal (length p == 0) (λ e. rw (empty_of p e) (empty_value c i val raw cut))
        (λ e.
          if_both goal c.h1.header_too_big (λ big. absurd (true-false (sym big ∙ small)))
            (λ fits. refl))

  pub first_value :
      (name p : Bytes) → 0 < length p → on_header_value (named c name) p ≡ begun name p
  unfolding on_header_value
  first_value name p some_bytes =
      let goal : Fields → Type 0 = λ v. v ≡ begun name p in
      if_both goal (length p == 0) (λ e. absurd (ground (arith, some_bytes, e)))
        (λ e.
          if_both goal c.h1.header_too_big (λ big. absurd (true-false (sym big ∙ small)))
            (λ fits. refl))
