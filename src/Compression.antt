-- ===== src/Compression.antt =====
-- Content codings (compression.c): which of them a request accepts.
pub mod Accepted
pub mod Compressors
pub mod Negotiate
use lamseryn.Prelude.{
  ℕ, zero, suc, ◌+◌, ◌-◌, ◌%◌, ◌^◌, Bool, true, false, ◌&&◌, ◌||◌, not, Option, none, some, List,
  [], ◌∷◌, ◌++◌, Bytes, codes, ltb, leb, ◌==◌, if◌then◌else◌, length, take,
}
use lamseryn.Http.Tokens.{same}

abbrev pub is_ws : ℕ → Bool
is_ws c = c == b' ' || c == 9

unfoldable pub ae_skip_ws : Bytes → Bytes
ae_skip_ws [] = []
ae_skip_ws (c ∷ s) = let rest = ae_skip_ws s in if is_ws c then rest else c ∷ s

abbrev pub ascii_lower : Bytes → Bytes
ascii_lower [] = []
ascii_lower (c ∷ s) = (if leb b'A' c && leb c b'Z' then c + 32 else c) ∷ ascii_lower s

unfoldable pub ae_token_ieq : Bytes → Bytes → Bool
ae_token_ieq tok s = same (ascii_lower tok) s

-- The characters before the first that is an end, and the rest from there.
unfoldable pub split_at : (ℕ → Bool) → Bytes → Bytes × Bytes
split_at stop [] = ([], [])
split_at stop (c ∷ s) =
    let (before, rest) = split_at stop s in if stop c then ([], c ∷ s) else (c ∷ before, rest)

abbrev pub ends_value : ℕ → Bool
ends_value c = c == b',' || c == b';'

abbrev pub ends_name : ℕ → Bool
ends_name c = c == b'=' || (c == b',' || c == b';')

unfoldable pub trim_end : Bytes → Bytes
trim_end [] = []
trim_end (c ∷ s) = let rest = trim_end s in if is_ws c && length rest == 0 then [] else c ∷ rest

abbrev pub skip_value : Bytes → Bytes
skip_value s = (split_at ends_value s).1

abbrev pub is_digit : ℕ → Bool
is_digit c = leb b'0' c && leb c b'9'

-- The digits behind the point: whether all are zeros, and what follows the value.
unfoldable pub fraction : Bytes → Bool × Bytes
unfolding split_at
fraction [] = (true, [])
fraction (c ∷ s) =
    let later = fraction s in
    let rest = skip_value (c ∷ s) in
    if is_digit c then if not (c == b'0') then (false, rest) else later else (true, rest)

abbrev pub after_zero : Bytes → Bool × Bytes
unfolding fraction split_at
after_zero [] = (true, [])
after_zero (c ∷ s) = if c == b'.' then fraction s else (true, skip_value (c ∷ s))

abbrev pub q_value : Bytes → Bool × Bytes
unfolding fraction split_at
q_value [] = (false, [])
q_value (c ∷ s) = if not (c == b'0') then (false, skip_value (c ∷ s)) else after_zero s

-- Whether the value is zero, and what follows it.
unfoldable pub ae_q_is_zero : Bytes → Bool × Bytes
unfolding ae_skip_ws fraction split_at
ae_q_is_zero s = q_value (ae_skip_ws s)

abbrev pub is_q : Bytes → Bool
is_q name = same (ascii_lower name) (codes "q")

-- What stands behind the name of a parameter.
abbrev pub parameter_value : Bool → Bytes → Bytes → Bool × Bytes
unfolding ae_q_is_zero split_at
parameter_value q_zero name [] = (q_zero, [])
parameter_value q_zero name (c ∷ s) =
    if c == b'='
    then if is_q name then ae_q_is_zero s else (q_zero, skip_value s)
    else (q_zero, c ∷ s)

-- One parameter, from behind its semicolon.
unfoldable pub parameter : Bool → Bytes → Bool × Bytes
unfolding ae_skip_ws split_at ae_q_is_zero
parameter q_zero s =
    let (name, rest) = split_at ends_name (ae_skip_ws s) in parameter_value q_zero name rest

-- The loop over the parameters, on fuel.
unfoldable pub parameters : ℕ → Bool → Bytes → Bool × Bytes
unfolding parameter
parameters zero q_zero s = (q_zero, s)
parameters (suc fuel) q_zero [] = (q_zero, [])
parameters (suc fuel) q_zero (c ∷ s) =
    let next = parameters fuel (parameter q_zero s).0 (parameter q_zero s).1 in
    if c == b';' then next else (q_zero, c ∷ s)

-- What was said of gzip, of br and of `*`: nothing, or whether it is accepted.
pub record Codings : Type 0 where
  pub gzip : Option Bool
  pub brotli : Option Bool
  pub wildcard : Option Bool

unfoldable pub record_coding : Codings → Bytes → Bool → Codings
unfolding ae_token_ieq
record_coding k tok q_zero =
    if ae_token_ieq tok (codes "gzip")
    then record k { gzip = some (not q_zero) }
    else if ae_token_ieq tok (codes "br")
    then record k { brotli = some (not q_zero) }
    else if same tok (codes "*")
    then record k { wildcard = some (not q_zero) }
    else k

abbrev pub skip_comma : Bytes → Bytes
skip_comma [] = []
skip_comma (c ∷ s) = if c == b',' then s else c ∷ s

-- One coding with its parameters, from its first character.
unfoldable pub coding : Codings → Bytes → Codings × Bytes
unfolding split_at trim_end parameters record_coding ae_skip_ws
coding k s =
    let (tok, rest) = split_at ends_value s in
    let (q_zero, after) = parameters (length rest) false rest in
    (record_coding k (trim_end tok) q_zero, skip_comma (ae_skip_ws after))

-- The loop over the codings, on fuel.
unfoldable pub codings : ℕ → Codings → Bytes → Codings
unfolding ae_skip_ws coding
codings zero k s = k
codings (suc fuel) k s =
    let start = ae_skip_ws s in
    let next = codings fuel (coding k start).0 (coding k start).1 in
    if length start == 0 then k else next

abbrev pub no_codings : Codings
no_codings = record { gzip = none; brotli = none; wildcard = none }

-- An explicit entry wins over the wildcard.
abbrev pub is_accepted : Option Bool → Option Bool → Bool
is_accepted none none = false
is_accepted none (some b) = b
is_accepted (some b) wildcard = b

abbrev pub bit : Bool → ℕ → ℕ
bit b n = if b then n else 0

-- The bits of gzip and of br.
unfoldable pub compress_parse_accept_encoding : Bytes → ℕ
unfolding codings
compress_parse_accept_encoding value =
    let k = codings (length value) no_codings value in
    bit (is_accepted k.gzip k.wildcard) 1 + bit (is_accepted k.brotli k.wildcard) 2
