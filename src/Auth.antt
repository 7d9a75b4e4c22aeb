-- ===== src/Auth.antt =====
-- Basic authentication (auth.c). A text is a list of bytes without its NUL; an entry of the
-- credential store is a user and the hash of the password. What `crypt_r` returns, the lines of
-- policy headers and what `tx_build_headers` builds are arguments.
pub mod Access
pub mod Base64
pub mod Compare
pub mod Deny
pub mod Encode
pub mod Load
pub mod Loaded
pub mod Present
pub mod Verify
pub mod Written
use lamseryn.Prelude.{
  ℕ, ◌+◌, ◌-◌, Bool, true, false, ◌&&◌, ◌||◌, not, Option, none, some, List, [], ◌∷◌, ◌++◌, Bytes,
  codes, ltb, leb, ◌==◌, if◌then◌else◌, length, drop, take,
}
use lamseryn.Responses.{RespKind, rk_401}
use lamseryn.Tx.{TxState, tx_begin_headers}
use lamseryn.Http.Values.{lowered}
use lamseryn.Http.Tokens.{same}
use lamseryn.Http.Ids.{Entry, same_id, id_authorization}
use lamseryn.Auth.Base64.{auth_base64_decode}
use lamseryn.Auth.Compare.{auth_ct_strcmp}

-- `crypt_r` of a password with a stored hash as its setting; `none` is NULL.
abbrev pub Crypt : Type 0
Crypt = Bytes → Bytes → Option Bytes

-- `struct auth_entry`
pub record AuthEntry : Type 0 where
  pub user : Bytes
  pub hash : Bytes

abbrev pub starts_with_star : Bytes → Bool
starts_with_star [] = false
starts_with_star (c ∷ s) = c == b'*'

abbrev pub matches_hash : Option Bytes → Bytes → Bool
matches_hash none hash = false
matches_hash (some r) hash = not (starts_with_star r) && auth_ct_strcmp r hash == 0

-- True for the result 0.
unfoldable pub auth_verify_password : Crypt → Bytes → Bytes → Bool
unfolding auth_ct_strcmp
auth_verify_password crypt password hash = matches_hash (crypt password hash) hash

-- The first captured Authorization header.
unfoldable pub find_authorization : List Entry → Option Entry
find_authorization [] = none
find_authorization (e ∷ es) =
    let later = find_authorization es in if same_id e.id id_authorization then some e else later

unfoldable pub skip_spaces : Bytes → Bytes
skip_spaces [] = []
skip_spaces (c ∷ s) = let rest = skip_spaces s in if c == b' ' then rest else c ∷ s

abbrev pub is_space_first : Bytes → Bool
is_space_first [] = false
is_space_first (c ∷ s) = c == b' '

-- The token of a value with the scheme "Basic".
unfoldable pub basic_token : Bytes → Option Bytes
unfolding skip_spaces
basic_token val =
    let rest = drop 5 val in
    let token = skip_spaces rest in
    if ltb (length val) 6
    then none
    else if not (same (lowered (take 5 val)) (codes "basic")) || not (is_space_first rest)
    then none
    else if length token == 0
    then none
    else some token

unfoldable pub has_nul : Bytes → Bool
has_nul [] = false
has_nul (c ∷ s) = c == 0 || has_nul s

-- What stands before the first colon, and after it.
unfoldable pub split_colon : Bytes → Option (Bytes × Bytes)
split_colon [] = none
split_colon (c ∷ s) =
    let rest = split_colon s in
    if c == b':'
    then some ([], s)
    else elim rest [ none ↦ none | some (user, pass) ↦ some (c ∷ user, pass) ]

-- The hash of the first entry of the user.
unfoldable pub find_user : List AuthEntry → Bytes → Option Bytes
find_user [] user = none
find_user (e ∷ es) user =
    let later = find_user es user in if same e.user user then some e.hash else later

-- The hash that the password is verified with: for an unknown user, that of the first entry.
abbrev pub candidate_hash : Bytes → Option Bytes → Bytes
candidate_hash first none = first
candidate_hash first (some hash) = hash

abbrev pub is_found : Option Bytes → Bool
is_found none = false
is_found (some hash) = true

unfoldable pub verify_user : Crypt → List AuthEntry → Bytes → Bytes → Bool
unfolding find_user auth_verify_password
verify_user crypt [] user pass = false
verify_user crypt (e ∷ es) user pass =
    let found = find_user (e ∷ es) user in
    auth_verify_password crypt pass (candidate_hash e.hash found) && is_found found

abbrev pub decoded_size : ℕ
decoded_size = 96

abbrev pub verify_split : Crypt → List AuthEntry → Option (Bytes × Bytes) → Bool
verify_split crypt store none = false
verify_split crypt store (some (user, pass)) = verify_user crypt store user pass

unfoldable pub verify_decoded : Crypt → List AuthEntry → Option Bytes → Bool
unfolding has_nul split_colon verify_user
verify_decoded crypt store none = false
verify_decoded crypt store (some text) =
    if length text == 0
    then false
    else if has_nul text
    then false
    else verify_split crypt store (split_colon text)

abbrev pub verify_token : Crypt → List AuthEntry → Option Bytes → Bool
verify_token crypt store none = false
verify_token crypt store (some token) =
    verify_decoded crypt store (auth_base64_decode (decoded_size - 1) token)

unfoldable pub verify_header : Crypt → List AuthEntry → Option Entry → Bool
unfolding basic_token auth_base64_decode verify_decoded
verify_header crypt store none = false
verify_header crypt store (some e) =
    if e.truncated then false else verify_token crypt store (basic_token e.value)

-- `policy_shared_header_ctx`: the lines of the policy headers, or too many of them.
pub record PolicyLines : Type 0 where
  pub overflow : Bool
  pub lines : List Bytes

-- `auth_hdr_appendf` of a text; `none` is the result -1.
unfoldable pub auth_hdr_appendf : ℕ → Bytes → Bytes → Option Bytes
auth_hdr_appendf cap buf text =
    if leb cap (length buf)
    then none
    else if length text == 0 || leb (cap - length buf) (length text)
    then none
    else some (buf ++ text)

-- The loop over the policy lines; empty ones are left out.
unfoldable pub append_lines : Bytes → List Bytes → Option Bytes
unfolding auth_hdr_appendf
append_lines buf [] = some buf
append_lines buf (l ∷ ls) = elim (length l == 0) [
  | true ↦ append_lines buf ls
  | false ↦ elim (auth_hdr_appendf 1024 buf l) [ none ↦ none | some more ↦ append_lines more ls ]
]

-- `none` is the result -1, and no text the result 0.
unfoldable pub auth_build_policy_extra_headers : PolicyLines → Option Bytes
unfolding append_lines
auth_build_policy_extra_headers p = if p.overflow then none else append_lines [] p.lines

abbrev pub or_restricted : Bytes → Bytes
or_restricted [] = codes "Restricted"
or_restricted (c ∷ s) = c ∷ s

abbrev pub challenge_text : Bytes → Bytes
challenge_text realm =
    codes "WWW-Authenticate: Basic realm=\"" ++ realm ++ codes "\"" ++ 13 ∷ 10 ∷ []

-- A challenge that does not fit its buffer of 128 bytes is built for "Restricted" instead.
unfoldable pub challenge : Bytes → Bytes
challenge realm =
    let text = challenge_text (or_restricted realm) in
    if leb 128 (length text) then challenge_text (codes "Restricted") else text

unfoldable pub deny_headers : Bytes → PolicyLines → Option Bytes
unfolding auth_build_policy_extra_headers auth_hdr_appendf challenge
deny_headers realm policy = elim (auth_build_policy_extra_headers policy) [
  | none ↦ none
  | some extra ↦ elim (auth_hdr_appendf 1280 [] (challenge realm)) [
    | none ↦ none
    | some buf ↦
        let more = auth_hdr_appendf 1280 buf extra in if length extra == 0 then some buf else more
  ]
]

-- The results 0, 1 and -1.
pub data AuthResult : Type 0 where
  authorized denied auth_failed : AuthResult

-- The 401 response, from what `tx_build_headers` builds of the headers.
unfoldable pub stage_401 : TxState → Bool → Option Bytes → AuthResult × TxState
unfolding tx_begin_headers
stage_401 tx ka none = (auth_failed, tx)
stage_401 tx ka (some buf) =
    let (decision, t, out) = tx_begin_headers tx rk_401 (some buf) (length buf) ka false in
    (denied, t)

unfoldable pub auth_deny :
    Bytes → PolicyLines → (Bytes → Option Bytes) → Bool → TxState → AuthResult × TxState
unfolding deny_headers stage_401
auth_deny realm policy build ka tx = elim (deny_headers realm policy) [
  | none ↦ (auth_failed, tx)
  | some extra ↦ stage_401 tx ka (build extra)
]

-- `auth_basic_check` of a connection whose virtual host has the store, or none.
unfoldable pub auth_basic_check :
    Crypt
    → Option (List AuthEntry)
    → List Entry
    → Bytes
    → PolicyLines
    → (Bytes → Option Bytes)
    → Bool
    → TxState
    → AuthResult × TxState
unfolding find_authorization verify_header auth_deny
auth_basic_check crypt none hdrs realm policy build ka tx = (authorized, tx)
auth_basic_check crypt (some store) hdrs realm policy build ka tx =
    if verify_header crypt store (find_authorization hdrs)
    then (authorized, tx)
    else auth_deny realm policy build ka tx
