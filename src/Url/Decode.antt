-- ===== src/Url/Decode.antt =====
-- What the percent decoder accepts and returns.
use lamseryn.Prelude.{
  ℕ, suc, ◌+◌, ◌-◌, ◌≤◌, ◌<◌, Bool, true, false, [], ◌∷◌, ◌≡◌, ◌≢◌, ◌⊎◌, inl, inr, Bool-cases, refl,
  sym, ◌∙◌, arith, Bytes, ◌==◌, if◌then◌else◌, length,
}
use lamseryn.Url.{
  Result, ok, invalid, overflow, hexval, join_hex, admit, decode_from, emit, percent_decode_strict,
}

-- How often a byte occurs.
abbrev pub count : ℕ → Bytes → ℕ
count b [] = 0
count b (c ∷ s) = if c == b then suc (count b s) else count b s

-- What the decoder may do to a text when it refuses encoded slashes.
pub record Decoded (input out : Bytes) (room : ℕ) : Type 0 where
  pub fits : length out ≤ room
  pub shrinks : length out ≤ length input
  pub slashes : count b'/' out ≡ count b'/' input
  pub backslashes : count b'\\' out ≡ count b'\\' input
  pub nuls : count 0 out ≤ count 0 input

Decoded-admit :
    (a b d : ℕ)
    → admit true (join_hex (hexval a) (hexval b)) ≡ ok d
    → (d ≢ 0)
      × (d ≢ b'/')
      × (d ≢ b'\\')
      × (a ≢ b'/')
      × (a ≢ b'\\')
      × (a ≢ 0)
      × (b ≢ b'/')
      × (b ≢ b'\\')
      × (b ≢ 0)
unfolding admit join_hex hexval
Decoded-admit a b d h = ground arith

emit-ok :
    (cap o d : ℕ) (r : Result Bytes) (out : Bytes)
    → emit cap o d r ≡ ok out
    → (ds : Bytes) × (r ≡ ok ds) × (out ≡ d ∷ ds) × (o + 1 ≤ cap)
emit-ok cap o d (ok ds) out h = (ds, refl, ground arith, ground arith)
emit-ok cap o d invalid out h = ground arith
emit-ok cap o d overflow out h = ground arith

Decoded-plain :
    (cap o c : ℕ) (s ds : Bytes)
    → o + 1 ≤ cap
    → Decoded s ds (cap - (o + 1))
    → Decoded (c ∷ s) (c ∷ ds) (cap - o)
Decoded-plain cap o c s ds room v = ground arith

Decoded-escaped :
    (cap o a b d : ℕ) (s ds : Bytes)
    → o + 1 ≤ cap
    → admit true (join_hex (hexval a) (hexval b)) ≡ ok d
    → Decoded s ds (cap - (o + 1))
    → Decoded (b'%' ∷ a ∷ b ∷ s) (d ∷ ds) (cap - o)
Decoded-escaped cap o a b d s ds room h v = ground (arith, Decoded-admit a b d h)

plain_step :
    (cap o c : ℕ) (s : Bytes) (r : Result Bytes) (out : Bytes)
    → ((ds : Bytes) → o + 1 ≤ cap → r ≡ ok ds → Decoded s ds (cap - (o + 1)))
    → emit cap o c r ≡ ok out
    → Decoded (c ∷ s) out (cap - o)
plain_step cap o c s r out ih h =
    let (ds, rest, e, room) = emit-ok cap o c r out h in
    rw e (Decoded-plain cap o c s ds room (ih ds room rest))

escaped_step :
    (cap o a b d : ℕ) (s : Bytes) (r : Result Bytes) (out : Bytes)
    → admit true (join_hex (hexval a) (hexval b)) ≡ ok d
    → ((ds : Bytes) → o + 1 ≤ cap → r ≡ ok ds → Decoded s ds (cap - (o + 1)))
    → emit cap o d r ≡ ok out
    → Decoded (b'%' ∷ a ∷ b ∷ s) out (cap - o)
escaped_step cap o a b d s r out adm ih h =
    let (ds, rest, e, room) = emit-ok cap o d r out h in
    rw e (Decoded-escaped cap o a b d s ds room adm (ih ds room rest))

Result-cases {ℓ} :
    {A : Type ℓ} (r : Result A) → ((a : A) × (r ≡ ok a)) ⊎ ((r ≡ invalid) ⊎ (r ≡ overflow))
Result-cases (ok a) = inl (a, refl)
Result-cases invalid = inr (inl refl)
Result-cases overflow = inr (inr refl)

-- The steps of the loop, as equations.
module _ (reject : Bool) (cap c : ℕ) (o : ℕ) where
  decode-plain :
      (s : Bytes)
      → (c == b'%') ≡ false
      → decode_from reject cap (c ∷ s) o ≡ emit cap o c (decode_from reject cap s (o + 1))
  unfolding decode_from
  decode-plain [] h = ground arith
  decode-plain (a ∷ []) h = ground arith
  decode-plain (a ∷ b ∷ s) h = ground arith

  pub decode-escaped :
      (a b d : ℕ) (s : Bytes)
      → (c == b'%') ≡ true
      → admit reject (join_hex (hexval a) (hexval b)) ≡ ok d
      → decode_from reject cap (c ∷ a ∷ b ∷ s) o ≡ emit cap o d (decode_from reject cap s (o + 1))
  unfolding decode_from
  decode-escaped a b d s h adm = ground arith

decode_percent_short :
    (reject : Bool) (cap c o : ℕ) (s : Bytes) (out : Bytes)
    → length s < 2
    → (c == b'%') ≡ true
    → decode_from reject cap (c ∷ s) o ≢ ok out
unfolding decode_from
decode_percent_short reject cap c o [] out h e d = ground arith
decode_percent_short reject cap c o (a ∷ []) out h e d = ground arith
decode_percent_short reject cap c o (a ∷ b ∷ s) out h e d = omega arith

decode_percent :
    (reject : Bool) (cap c o a b : ℕ) (s : Bytes) (out : Bytes)
    → (c == b'%') ≡ true
    → decode_from reject cap (c ∷ a ∷ b ∷ s) o ≡ ok out
    → (d : ℕ) × (admit reject (join_hex (hexval a) (hexval b)) ≡ ok d)
unfolding decode_from
decode_percent reject cap c o a b s out e h =
    elim (Result-cases (admit reject (join_hex (hexval a) (hexval b)))) [
      | inl found ↦ found
      | inr (inl bad) ↦ ground (arith, bad)
      | inr (inr bad) ↦ ground (arith, bad)
    ]

decode_nil : (reject : Bool) (cap o : ℕ) → decode_from reject cap [] o ≡ ok []
unfolding decode_from
decode_nil reject cap o = refl

decode_from-Decoded :
    (cap : ℕ) (s : Bytes) (o : ℕ) (out : Bytes)
    → o ≤ cap
    → decode_from true cap s o ≡ ok out
    → Decoded s out (cap - o)
decode_from-Decoded cap [] o out room h = ground (arith, decode_nil true cap o)
decode_from-Decoded cap (c ∷ []) o out room h = elim (Bool-cases (c == b'%')) [
  | inl esc ↦ absurd (decode_percent_short true cap c o [] out (omega arith) esc h)
  | inr plain ↦
      plain_step cap o c [] (decode_from true cap [] (o + 1)) out
        (λ ds fits e. decode_from-Decoded cap [] (o + 1) ds fits e)
        (sym (decode-plain true cap c o [] plain) ∙ h)
]
decode_from-Decoded cap (c ∷ a ∷ []) o out room h = elim (Bool-cases (c == b'%')) [
  | inl esc ↦ absurd (decode_percent_short true cap c o (a ∷ []) out (omega arith) esc h)
  | inr plain ↦
      plain_step cap o c (a ∷ []) (decode_from true cap (a ∷ []) (o + 1)) out
        (λ ds fits e. decode_from-Decoded cap (a ∷ []) (o + 1) ds fits e)
        (sym (decode-plain true cap c o (a ∷ []) plain) ∙ h)
]
decode_from-Decoded cap (c ∷ a ∷ b ∷ s) o out room h = elim (Bool-cases (c == b'%')) [
  | inl esc ↦
      let (d, adm) = decode_percent true cap c o a b s out esc h in
      let percent : c ≡ b'%' = ground arith in
      rw percent (
        escaped_step cap o a b d s (decode_from true cap s (o + 1)) out adm
          (λ ds fits e. decode_from-Decoded cap s (o + 1) ds fits e)
          (sym (decode-escaped true cap c o a b d s esc adm) ∙ h))
  | inr plain ↦
      plain_step cap o c (a ∷ b ∷ s) (decode_from true cap (a ∷ b ∷ s) (o + 1)) out
        (λ ds fits e. decode_from-Decoded cap (a ∷ b ∷ s) (o + 1) ds fits e)
        (sym (decode-plain true cap c o (a ∷ b ∷ s) plain) ∙ h)
]

-- A text that is decoded with encoded slashes refused fits the buffer, is no longer than the input,
-- has exactly the slashes and backslashes that stood in the input unencoded, and no new NUL.
pub percent_decode_strict-Decoded :
    (s : Bytes) (out_cap : ℕ) (out : Bytes)
    → percent_decode_strict s out_cap true ≡ ok out
    → Decoded s out out_cap
unfolding percent_decode_strict
percent_decode_strict-Decoded s out_cap out h =
    ground (arith, decode_from-Decoded out_cap s 0 out (omega arith))
