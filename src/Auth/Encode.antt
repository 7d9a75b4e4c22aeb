-- ===== src/Auth/Encode.antt =====
-- RFC 4648 encoding, and what the decoder of auth.c returns.
use lamseryn.Prelude.{
  ℕ, ◌+◌, ◌-◌, ◌*◌, ◌/◌, ◌%◌, ◌≤◌, ◌<◌, Option, none, some, [], ◌∷◌, ◌≡◌, refl, subst, Bytes, leb,
  ltb, ◌==◌, if◌then◌else◌, length, All, arith, if_both,
}
use lamseryn.Auth.Base64.{
  Symbol, digit, padding, invalid, Place, missing, present, b64_char_val, byte_one, byte_two,
  byte_three, put_byte, at_end, fourth, padded, third, group, decode_groups, auth_base64_decode,
}

-- The character of a digit.
unfoldable pub letter : ℕ → ℕ
letter n =
    if ltb n 26
    then n + b'A'
    else if ltb n 52
    then n - 26 + b'a'
    else if ltb n 62
    then n - 52 + b'0'
    else if n == 62
    then b'+'
    else b'/'

-- RFC 4648, section 4, with padding.
unfoldable pub encode : Bytes → Bytes
unfolding letter
encode [] = []
encode (x ∷ []) = letter (x / 4) ∷ letter (x % 4 * 16) ∷ b'=' ∷ b'=' ∷ []
encode (x ∷ y ∷ []) =
    letter (x / 4) ∷ letter (x % 4 * 16 + y / 16) ∷ letter (y % 16 * 4) ∷ b'=' ∷ []
encode (x ∷ y ∷ z ∷ s) =
    letter (x / 4)
    ∷ letter (x % 4 * 16 + y / 16)
    ∷ letter (y % 16 * 4 + z / 64)
    ∷ letter (z % 64)
    ∷ encode s

b64_char_val-letter : (n : ℕ) → n < 64 → b64_char_val (letter n) ≡ digit n
unfolding letter b64_char_val
b64_char_val-letter n h = ground arith

put_byte-some :
    (cap out x : ℕ) (rest : Bytes) → out < cap → put_byte cap out x (some rest) ≡ some (x ∷ rest)
unfolding put_byte
put_byte-some cap out x rest h = ground arith

-- What is decoded into a buffer of `cap` with `out` bytes: it fits, and it is bytes.
Good : ℕ → ℕ → Option Bytes → Type 0
Good cap out none = Unit
Good cap out (some s) = (out + length s ≤ cap) × All (λ x. x < 256) s

put_byte-Good :
    (cap out x : ℕ) (rest : Option Bytes)
    → x < 256
    → (out < cap → Good cap (out + 1) rest)
    → Good cap out (put_byte cap out x rest)
unfolding Good put_byte
put_byte-Good cap out x none h g = tt
put_byte-Good cap out x (some s) h g =
    if_both (Good cap out) (leb cap out) (λ e. tt)
      (λ e. let (k, all) = g (ground (arith, e)) in (omega (arith, k), (h, all)))

at_end-Good : (cap out : ℕ) (junk : Bytes) → out ≤ cap → Good cap out (at_end junk)
unfolding Good
at_end-Good cap out [] h = (omega arith, tt)
at_end-Good cap out (x ∷ s) h = tt

fourth-Good :
    (cap out c : ℕ) (d : Place) (junk : Bytes) (rest : Option Bytes)
    → out ≤ cap
    → (out + 1 ≤ cap → Good cap (out + 1) rest)
    → Good cap out (fourth cap out c d junk rest)
unfolding Good
fourth-Good cap out c missing junk rest h g = at_end-Good cap out junk h
fourth-Good cap out c (present padding) junk rest h g = at_end-Good cap out junk h
fourth-Good cap out c (present invalid) junk rest h g = tt
fourth-Good cap out c (present (digit d)) junk rest h g =
    put_byte-Good cap out (byte_three c d) rest (omega arith) (λ k. g (omega arith))

padded-Good : (cap out : ℕ) (d : Place) (junk : Bytes) → out ≤ cap → Good cap out (padded d junk)
unfolding Good
padded-Good cap out missing junk h = tt
padded-Good cap out (present padding) junk h = at_end-Good cap out junk h
padded-Good cap out (present invalid) junk h = tt
padded-Good cap out (present (digit d)) junk h = tt

third-Good :
    (cap out b : ℕ) (c d : Place) (junk : Bytes) (rest : Option Bytes)
    → out ≤ cap
    → (out + 2 ≤ cap → Good cap (out + 2) rest)
    → Good cap out (third cap out b c d junk rest)
unfolding Good
third-Good cap out b missing d junk rest h g = at_end-Good cap out junk h
third-Good cap out b (present padding) d junk rest h g = padded-Good cap out d junk h
third-Good cap out b (present invalid) d junk rest h g = tt
third-Good cap out b (present (digit c)) d junk rest h g =
    put_byte-Good cap out (byte_two b c) (fourth cap (out + 1) c d junk rest) (omega arith)
      (λ k. fourth-Good cap (out + 1) c d junk rest (omega arith) (λ j. at_two (g (omega arith))))
  where
    at_two : Good cap (out + 2) rest → Good cap (out + 1 + 1) rest
    at_two = subst (λ n. Good cap n rest) (omega arith)

group-Good :
    (cap out : ℕ) (a b : Symbol) (c d : Place) (junk : Bytes) (rest : Option Bytes)
    → (out + 3 ≤ cap → Good cap (out + 3) rest)
    → Good cap out (group cap out a b c d junk rest)
unfolding Good group
group-Good cap out (digit a) (digit b) c d junk rest g =
    put_byte-Good cap out (byte_one a b) (third cap (out + 1) b c d junk rest) (omega arith) (λ k.
      third-Good cap (out + 1) b c d junk rest (omega arith) (λ j. at_three (g (omega arith))))
  where
    at_three : Good cap (out + 3) rest → Good cap (out + 1 + 2) rest
    at_three = subst (λ n. Good cap n rest) (omega arith)
group-Good cap out (digit a) padding c d junk rest g = tt
group-Good cap out (digit a) invalid c d junk rest g = tt
group-Good cap out padding b c d junk rest g = tt
group-Good cap out invalid b c d junk rest g = tt

decode_groups-Good :
    (cap out : ℕ) (src : Bytes) → out ≤ cap → Good cap out (decode_groups cap out src)
unfolding Good decode_groups
decode_groups-Good cap out [] h = (omega arith, tt)
decode_groups-Good cap out (a ∷ []) h = tt
decode_groups-Good cap out (a ∷ b ∷ []) h =
    group-Good cap out (b64_char_val a) (b64_char_val b) missing missing [] (some [])
      (λ h. (omega arith, tt))
decode_groups-Good cap out (a ∷ b ∷ c ∷ []) h =
    group-Good cap out (b64_char_val a) (b64_char_val b) (present (b64_char_val c)) missing []
      (some []) (λ h. (omega arith, tt))
decode_groups-Good cap out (a ∷ b ∷ c ∷ d ∷ s) h =
    group-Good cap out (b64_char_val a) (b64_char_val b) (present (b64_char_val c))
      (present (b64_char_val d)) s (decode_groups cap (out + 3) s)
      (decode_groups-Good cap (out + 3) s)

-- What the decoder returns fits the buffer, and it is bytes.
pub auth_base64_decode-fits :
    (cap : ℕ) (src s : Bytes)
    → auth_base64_decode cap src ≡ some s
    → (length s ≤ cap) × All (λ x. x < 256) s
unfolding auth_base64_decode Good
auth_base64_decode-fits cap src s e =
    let (h, all) = subst (Good cap 0) e (decode_groups-Good cap 0 src (omega arith)) in
    (omega (arith, h), all)

put_byte-exact :
    (cap out b x : ℕ) (o : Option Bytes) (s : Bytes)
    → out < cap
    → b ≡ x
    → o ≡ some s
    → put_byte cap out b o ≡ some (x ∷ s)
unfolding put_byte
put_byte-exact cap out b x o s h e k = rw (k, e) (ground (arith, h))

decode_groups-encode :
    (cap out : ℕ) (s : Bytes)
    → All (λ x. x < 256) s
    → out + length s ≤ cap
    → decode_groups cap out (encode s) ≡ some s
unfolding encode decode_groups group
decode_groups-encode cap out [] b h = refl
decode_groups-encode cap out (x ∷ []) (bx, b) h =
    rw (b64_char_val-letter (x / 4) (omega arith), b64_char_val-letter (x % 4 * 16) (omega arith))
      (put_byte-exact cap out (byte_one (x / 4) (x % 4 * 16)) x (some []) [] (omega arith)
        (omega arith) refl)
decode_groups-encode cap out (x ∷ y ∷ []) (bx, (by, b)) h =
    let one = x / 4 in
    let two = x % 4 * 16 + y / 16 in
    let three = y % 16 * 4 in
    rw
      (
        b64_char_val-letter one (omega arith),
        b64_char_val-letter two (omega arith),
        b64_char_val-letter three (omega arith),
      )
      (put_byte-exact cap out (byte_one one two) x
        (put_byte cap (out + 1) (byte_two two three) (some [])) (y ∷ []) (omega arith) (omega arith)
        (put_byte-exact cap (out + 1) (byte_two two three) y (some []) [] (omega arith)
          (omega arith) refl))
decode_groups-encode cap out (x ∷ y ∷ z ∷ s) (bx, (by, (bz, b))) h =
    let one = x / 4 in
    let two = x % 4 * 16 + y / 16 in
    let three = y % 16 * 4 + z / 64 in
    let four = z % 64 in
    let rest = decode_groups cap (out + 3) (encode s) in
    let last = put_byte cap (out + 1 + 1) (byte_three three four) rest in
    rw
      (
        b64_char_val-letter one (omega arith),
        b64_char_val-letter two (omega arith),
        b64_char_val-letter three (omega arith),
        b64_char_val-letter four (omega arith),
      )
      (put_byte-exact cap out (byte_one one two) x
        (put_byte cap (out + 1) (byte_two two three) last) (y ∷ z ∷ s) (omega arith) (omega arith)
        (put_byte-exact cap (out + 1) (byte_two two three) y last (z ∷ s) (omega arith)
          (omega arith)
          (put_byte-exact cap (out + 1 + 1) (byte_three three four) z rest s (omega arith)
            (omega arith) (decode_groups-encode cap (out + 3) s b (omega arith)))))

-- What is encoded as RFC 4648 says is decoded, if the buffer has room for it.
pub auth_base64_decode-encode :
    (cap : ℕ) (s : Bytes)
    → All (λ x. x < 256) s
    → length s ≤ cap
    → auth_base64_decode cap (encode s) ≡ some s
unfolding auth_base64_decode
auth_base64_decode-encode cap s b h = decode_groups-encode cap 0 s b (omega arith)
