-- ===== src/Tests/Auth.antt =====
-- Examples for auth.c.
use lamseryn.Prelude.{
  ℕ, Bool, true, false, Option, none, some, [], ◌∷◌, ◌++◌, Bytes, codes, if◌then◌else◌, length, ◌≡◌,
  ◌↔◌, refl, subst, ◌<◌, ◌^◌, All, arith, if_both, ◌≢◌,
}
use lamseryn.Http.Ids.{Entry, id_authorization}
use lamseryn.Http.Tokens.{same}
use lamseryn.Tests.Tx.{begun}
use lamseryn.Auth.{Crypt, AuthEntry, PolicyLines, authorized, auth_basic_check, find_authorization}
use lamseryn.Auth.Base64.{auth_base64_decode}
use lamseryn.Auth.Encode.{encode, auth_base64_decode-encode}
use lamseryn.Auth.Load.{auth_store_load}
use lamseryn.Auth.Loaded.{IsEntry, IsLoaded, auth_store_load-IsLoaded}
use lamseryn.Auth.Written.{IsWritable, file_of, auth_store_load-file_of}
use lamseryn.Auth.Verify.{CryptFits, Credential}
use lamseryn.Auth.Access.{Presents, access_lem}
use lamseryn.Auth.Present.{encode-Presents}

-- A function that has "$1$h" for the password "pw", whatever the setting.
abbrev one_password : Crypt
one_password password hash =
    if same password (codes "pw") then some (codes "$1$h") else some (codes "$")

abbrev ann : AuthEntry
ann = record { user = codes "ann"; hash = codes "$1$h" }

abbrev ann_file : Bytes
ann_file = codes "# users\nann:$1$h\r\nno separator\n"

abbrev memory : ℕ → Bool
memory n = true

abbrev pub basic_entry : Entry
basic_entry = record {
  name = codes "Authorization";
  id = id_authorization;
  truncated = false;
  value = codes "Basic YW5uOnB3";
}

abbrev one_line : PolicyLines
one_line = record { overflow = false; lines = codes "X-A: b\r\n" ∷ [] }

ann_loaded : auth_store_load one_password true memory false (some ann_file) ≡ some (ann ∷ [])
unfolding auth_store_load
ann_loaded = refl

ann_encoded : encode (codes "ann:pw") ≡ codes "YW5uOnB3"
unfolding encode
ann_encoded = refl

lets_ann_in :
    (auth_basic_check one_password
      (some (ann ∷ []))
      (basic_entry ∷ [])
      []
      one_line
      (λ s. none)
      true
      begun).0
    ≡ authorized
unfolding auth_basic_check
lets_ann_in = refl

-- Padding has to end the text.
rejects_junk : auth_base64_decode 95 (codes "YQ==YQ==") ≡ none
unfolding auth_base64_decode
rejects_junk = refl

small_bytes : All (λ c. c < 256) (codes "ann:pw")
small_bytes =
    (omega arith, (omega arith, (omega arith, (omega arith, (omega arith, (omega arith, tt))))))

auth_base64_decode-encode_example :
    auth_base64_decode 95 (encode (codes "ann:pw")) ≡ some (codes "ann:pw")
auth_base64_decode-encode_example =
    auth_base64_decode-encode 95 (codes "ann:pw") small_bytes (omega arith)

ann_decoded : auth_base64_decode 95 (codes "YW5uOnB3") ≡ some (codes "ann:pw")
unfolding auth_base64_decode
ann_decoded = refl

auth_store_load-IsLoaded_example : IsLoaded one_password (ann ∷ [])
auth_store_load-IsLoaded_example =
    auth_store_load-IsLoaded one_password true memory false (some ann_file) (ann ∷ []) ann_loaded

ann-IsWritable : IsWritable one_password ann
unfolding IsWritable IsEntry
ann-IsWritable = (
  (omega arith, omega arith, omega arith, omega arith, refl),
  (omega arith, (omega arith, (omega arith, tt))),
  refl,
  (refl, (refl, (refl, (refl, (refl, (refl, (refl, (refl, tt)))))))),
)

auth_store_load-file_of_example :
    auth_store_load one_password true memory false (some (file_of (ann ∷ ann ∷ [])))
    ≡ some (ann ∷ ann ∷ [])
auth_store_load-file_of_example =
    auth_store_load-file_of one_password memory (ann ∷ ann ∷ [])
      (ann-IsWritable, (ann-IsWritable, tt)) (λ n. refl) (omega arith) (omega arith)

ShortText : Option Bytes → Type 0
ShortText none = Unit
ShortText (some r) = length r < 2 ^ 31

one_password-CryptFits : CryptFits one_password
unfolding CryptFits ShortText
one_password-CryptFits password hash r e =
    subst ShortText e
      (if_both ShortText (same password (codes "pw")) (λ h. omega arith) (λ h. omega arith))

access_lem_example :
    ((auth_basic_check one_password
        (some (ann ∷ []))
        (basic_entry ∷ [])
        []
        one_line
        (λ s. none)
        true
        begun).0
      ≡ authorized)
    ↔ ((text : Bytes) × Presents (basic_entry ∷ []) text
        × (All (λ c. c ≢ 0) text × Credential one_password (ann ∷ []) text))
access_lem_example =
    access_lem one_password (ann ∷ []) (basic_entry ∷ []) [] one_line (λ s. none) true begun true
      memory false (some ann_file) ann_loaded one_password-CryptFits

entry_found : find_authorization (basic_entry ∷ []) ≡ some basic_entry
unfolding find_authorization
entry_found = refl

entry_value : basic_entry.value ≡ codes "Basic" ++ b' ' ∷ encode (codes "ann:pw")
unfolding encode
entry_value = refl

encode-Presents_example : Presents (basic_entry ∷ []) (codes "ann:pw")
encode-Presents_example =
    encode-Presents (basic_entry ∷ []) basic_entry (codes "Basic") (codes "ann:pw") entry_found refl
      refl entry_value small_bytes (omega arith) (omega arith)
