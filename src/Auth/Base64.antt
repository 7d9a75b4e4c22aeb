-- ===== src/Auth/Base64.antt =====
-- The base64 decoder of auth.c, with RFC 4648 encoding as its reference.
use lamseryn.Prelude.{
  ℕ, ◌+◌, ◌-◌, ◌*◌, ◌/◌, ◌%◌, ◌&&◌, Option, none, some, [], ◌∷◌, Bytes, leb, ◌==◌, if◌then◌else◌,
}

-- What a character stands for; the source has -2 for the padding and -1 for what is invalid.
pub data Symbol : Type 0 where
  digit : ℕ → Symbol
  padding invalid : Symbol

unfoldable pub b64_char_val : ℕ → Symbol
b64_char_val c =
    if leb b'A' c && leb c b'Z'
    then digit (c - b'A')
    else if leb b'a' c && leb c b'z'
    then digit (c - b'a' + 26)
    else if leb b'0' c && leb c b'9'
    then digit (c - b'0' + 52)
    else if c == b'+'
    then digit 62
    else if c == b'/'
    then digit 63
    else if c == b'='
    then padding
    else invalid

-- A character of a group that may be missing at the end of the text.
pub data Place : Type 0 where
  missing : Place
  present : Symbol → Place

-- The bytes of a group; a digit is below 64, so the `|` of shifted digits is their sum.
abbrev pub byte_one : ℕ → ℕ → ℕ
byte_one a b = (a * 4 + b / 16) % 256

abbrev pub byte_two : ℕ → ℕ → ℕ
byte_two b c = (b * 16 + c / 4) % 256

abbrev pub byte_three : ℕ → ℕ → ℕ
byte_three c d = (c * 64 + d) % 256

-- One more byte, if there is room for it.
unfoldable pub put_byte : ℕ → ℕ → ℕ → Option Bytes → Option Bytes
put_byte cap out x rest = elim rest [
  | none ↦ none
  | some bytes ↦ if leb cap out then none else some (x ∷ bytes)
]

-- After padding nothing may follow.
abbrev pub at_end : Bytes → Option Bytes
at_end [] = some []
at_end (c ∷ s) = none

abbrev pub fourth : ℕ → ℕ → ℕ → Place → Bytes → Option Bytes → Option Bytes
fourth cap out c missing junk rest = at_end junk
fourth cap out c (present padding) junk rest = at_end junk
fourth cap out c (present invalid) junk rest = none
fourth cap out c (present (digit d)) junk rest = put_byte cap out (byte_three c d) rest

-- `c == -2`: a padding character has to be followed by another.
abbrev pub padded : Place → Bytes → Option Bytes
padded (present padding) junk = at_end junk
padded missing junk = none
padded (present invalid) junk = none
padded (present (digit d)) junk = none

abbrev pub third : ℕ → ℕ → ℕ → Place → Place → Bytes → Option Bytes → Option Bytes
third cap out b missing d junk rest = at_end junk
third cap out b (present padding) d junk rest = padded d junk
third cap out b (present invalid) d junk rest = none
third cap out b (present (digit c)) d junk rest =
    put_byte cap out (byte_two b c) (fourth cap (out + 1) c d junk rest)

-- A group of up to four characters, what follows it, and the bytes of that.
unfoldable pub group : ℕ → ℕ → Symbol → Symbol → Place → Place → Bytes → Option Bytes → Option Bytes
unfolding put_byte
group cap out (digit a) (digit b) c d junk rest =
    put_byte cap out (byte_one a b) (third cap (out + 1) b c d junk rest)
group cap out (digit a) padding c d junk rest = none
group cap out (digit a) invalid c d junk rest = none
group cap out padding b c d junk rest = none
group cap out invalid b c d junk rest = none

-- The loop, when `out` bytes have been written into a buffer of `cap`. A byte is put after the rest
-- of its group is read here; what is returned is the same.
unfoldable pub decode_groups : ℕ → ℕ → Bytes → Option Bytes
unfolding b64_char_val group
decode_groups cap out [] = some []
decode_groups cap out (a ∷ []) = none
decode_groups cap out (a ∷ b ∷ []) =
    group cap out (b64_char_val a) (b64_char_val b) missing missing [] (some [])
decode_groups cap out (a ∷ b ∷ c ∷ []) =
    group cap out (b64_char_val a) (b64_char_val b) (present (b64_char_val c)) missing [] (some [])
decode_groups cap out (a ∷ b ∷ c ∷ d ∷ s) =
    group cap out (b64_char_val a) (b64_char_val b) (present (b64_char_val c))
      (present (b64_char_val d)) s (decode_groups cap (out + 3) s)

-- `auth_base64_decode`: the bytes that are decoded; `none` is the result -1.
unfoldable pub auth_base64_decode : ℕ → Bytes → Option Bytes
unfolding decode_groups
auth_base64_decode cap src = decode_groups cap 0 src
