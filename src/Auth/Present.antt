-- ===== src/Auth/Present.antt =====
-- A client that encodes its credentials as RFC 7617 says presents them to auth.c.
use lamseryn.Prelude.{
  ℕ, ◌+◌, ◌/◌, ◌≤◌, ◌<◌, suc, false, some, List, [], ◌∷◌, ◌++◌, Bytes, codes, ltb, ◌==◌, length,
  drop, take-append, length-append, ◌≡◌, refl, sym, ap, ◌∙◌, All, arith,
}
use lamseryn.Http.Ids.{Entry}
use lamseryn.Http.Values.{lowered}
use lamseryn.Auth.{skip_spaces, basic_token, find_authorization}
use lamseryn.Auth.Encode.{letter, encode, auth_base64_decode-encode}
use lamseryn.Auth.Access.{Presents}

-- A text that begins with something else than a space.
Inked : Bytes → Type 0
Inked [] = ⊥
Inked (c ∷ s) = (c == b' ') ≡ false

letter-Inked : (n : ℕ) → (letter n == b' ') ≡ false
unfolding letter
letter-Inked n = ground arith

encode-Inked : (text : Bytes) → 0 < length text → Inked (encode text)
unfolding encode Inked
encode-Inked [] h = absurd (omega arith)
encode-Inked (x ∷ []) h = letter-Inked (x / 4)
encode-Inked (x ∷ y ∷ []) h = letter-Inked (x / 4)
encode-Inked (x ∷ y ∷ z ∷ s) h = letter-Inked (x / 4)

skip_spaces-Inked : (s : Bytes) → Inked s → skip_spaces (b' ' ∷ s) ≡ s
unfolding skip_spaces Inked
skip_spaces-Inked [] h = elim h [ ]
skip_spaces-Inked (c ∷ s) h = rw h refl

length-lowered : (s : Bytes) → length (lowered s) ≡ length s
length-lowered [] = refl
length-lowered (c ∷ s) = ap suc (length-lowered s)

drop-append : (n : ℕ) (s t : Bytes) → n ≡ length s → drop n (s ++ t) ≡ t
drop-append ℕ.zero [] t h = refl
drop-append ℕ.zero (c ∷ s) t h = absurd (omega arith)
drop-append (suc n) [] t h = absurd (omega arith)
drop-append (suc n) (c ∷ s) t h = drop-append n s t (omega arith)

Inked-length : (s : Bytes) → Inked s → (length s == 0) ≡ false
unfolding Inked
Inked-length [] h = elim h [ ]
Inked-length (c ∷ s) h = ground arith

long_enough : (n m : ℕ) → n ≡ 5 → ltb (n + suc m) 6 ≡ false
long_enough n m h = ground (arith, h)

basic_token_lem :
    (scheme token : Bytes)
    → lowered scheme ≡ codes "basic"
    → Inked token
    → basic_token (scheme ++ b' ' ∷ token) ≡ some token
unfolding basic_token
basic_token_lem scheme token h k =
    let five : length scheme ≡ 5 = sym (length-lowered scheme) ∙ ap length h in
    rw
      (
        length-append scheme (b' ' ∷ token),
        long_enough (length scheme) (length token) five,
        take-append 5 scheme (b' ' ∷ token) (sym five),
        h,
        drop-append 5 scheme (b' ' ∷ token) (sym five),
        skip_spaces-Inked token k,
        Inked-length token k,
      )
      refl

-- The text of a credential, up to 95 bytes of it, that is encoded behind the scheme Basic and one space
-- in an Authorization header which is not cut, is what that header presents.
pub encode-Presents :
    (hdrs : List Entry) (e : Entry) (scheme text : Bytes)
    → find_authorization hdrs ≡ some e
    → e.truncated ≡ false
    → lowered scheme ≡ codes "basic"
    → e.value ≡ scheme ++ b' ' ∷ encode text
    → All (λ c. c < 256) text
    → 0 < length text
    → length text ≤ 95
    → Presents hdrs text
unfolding Presents
encode-Presents hdrs e scheme text found whole basic value bytes some_text short = (
  e,
  encode text,
  found,
  whole,
  rw value (basic_token_lem scheme (encode text) basic (encode-Inked text some_text)),
  auth_base64_decode-encode 95 text bytes short,
)
