-- ===== src/Auth/Access.antt =====
-- Whom the access check of auth.c lets through.
use lamseryn.Prelude.{
  ℕ, Bool, true, false, Option, none, some, List, [], ◌∷◌, Bytes, if◌then◌else◌, ◌≡◌, ◌≢◌, ◌↔◌,
  refl, subst, ◌∙◌, All, arith, inl, inr, Bool-cases, Option-cases,
}
use lamseryn.Http.Ids.{Entry}
use lamseryn.Tx.{TxState}
use lamseryn.Auth.Base64.{auth_base64_decode}
use lamseryn.Auth.Load.{auth_store_load}
use lamseryn.Auth.Loaded.{IsEntry, IsLoaded, auth_store_load-IsLoaded}
use lamseryn.Auth.Verify.{CryptFits, HashesFit, Credential, verify_decoded_lem}
use lamseryn.Auth.{
  Crypt, AuthEntry, verify_decoded, find_authorization, basic_token, verify_token, verify_header,
  stage_401, auth_basic_check, deny_headers, auth_deny, PolicyLines, AuthResult, authorized,
  auth_failed,
}

-- What the access check takes from a header: a value that is not cut, its token, and the text of that.
unfoldable pub Presents : List Entry → Bytes → Type 0
Presents hdrs text =
    (e : Entry) × (token : Bytes) × (find_authorization hdrs ≡ some e)
    × (e.truncated ≡ false)
    × (basic_token e.value ≡ some token)
    × (auth_base64_decode 95 token ≡ some text)

verify_token-some :
    (crypt : Crypt) (store : List AuthEntry) (o : Option Bytes)
    → verify_token crypt store o ≡ true
    → (text : Bytes) × (token : Bytes) × (o ≡ some token)
      × (auth_base64_decode 95 token ≡ some text)
      × (verify_decoded crypt store (some text) ≡ true)
unfolding verify_decoded
verify_token-some crypt store none h = absurd (ground (arith, h))
verify_token-some crypt store (some token) h = elim (Option-cases (auth_base64_decode 95 token)) [
  | inl bad ↦
      let h0 : verify_decoded crypt store (auth_base64_decode 95 token) ≡ true = h in
      absurd
        (ground (arith, subst (λ (o : Option Bytes). verify_decoded crypt store o ≡ true) bad h0))
  | inr (text, e) ↦
      (text, token, refl, e, subst (λ (o : Option Bytes). verify_decoded crypt store o ≡ true) e h)
]

cut-false : (cut ok : Bool) → (if cut then false else ok) ≡ true → (cut ≡ false) × (ok ≡ true)
cut-false cut ok e = ground (arith, e)

verify_header-Presents :
    (crypt : Crypt) (store : List AuthEntry) (hdrs : List Entry) (o : Option Entry)
    → find_authorization hdrs ≡ o
    → verify_header crypt store o ≡ true
    → (text : Bytes) × Presents hdrs text × (verify_decoded crypt store (some text) ≡ true)
unfolding Presents verify_header
verify_header-Presents crypt store hdrs none found h = absurd (ground (arith, h))
verify_header-Presents crypt store hdrs (some e) found h =
    let (whole, k) = cut-false e.truncated (verify_token crypt store (basic_token e.value)) h in
    let (text, token, basic, decoded, ok) = verify_token-some crypt store (basic_token e.value) k in
    (text, (e, token, found, whole, basic, decoded), ok)

Presents-verify_header :
    (crypt : Crypt) (store : List AuthEntry) (hdrs : List Entry) (text : Bytes)
    → Presents hdrs text
    → verify_header crypt store (find_authorization hdrs) ≡ verify_decoded crypt store (some text)
unfolding Presents verify_header
Presents-verify_header crypt store hdrs text (e, token, found, whole, basic, decoded) =
    rw (found, whole, basic, decoded) refl

stage_401-authorized :
    (tx : TxState) (ka : Bool) (o : Option Bytes) → (stage_401 tx ka o).0 ≢ authorized
unfolding stage_401
stage_401-authorized tx ka none h = ground (arith, h)
stage_401-authorized tx ka (some buf) h = ground (arith, h)

-- A denial is never the result 0.
auth_deny-authorized :
    (realm : Bytes) (policy : PolicyLines) (build : Bytes → Option Bytes) (ka : Bool) (tx : TxState)
    → (auth_deny realm policy build ka tx).0 ≢ authorized
unfolding auth_deny
auth_deny-authorized realm policy build ka tx h = elim (Option-cases (deny_headers realm policy)) [
  | inl e ↦ ground (arith, subst (λ o. (staged realm build ka tx o).0 ≡ authorized) e h)
  | inr (extra, e) ↦
      stage_401-authorized tx ka (build extra)
        (subst (λ o. (staged realm build ka tx o).0 ≡ authorized) e h)
]
  where
    staged : Bytes → (Bytes → Option Bytes) → Bool → TxState → Option Bytes → AuthResult × TxState
    staged realm build ka tx none = (auth_failed, tx)
    staged realm build ka tx (some extra) = stage_401 tx ka (build extra)

IsLoaded-HashesFit :
    (crypt : Crypt) (store : List AuthEntry) → All (IsEntry crypt) store → HashesFit store
unfolding HashesFit IsEntry
IsLoaded-HashesFit crypt [] h = tt
IsLoaded-HashesFit crypt (e ∷ store) (h, hs) =
    (omega (arith, h.3), IsLoaded-HashesFit crypt store hs)

module _ (crypt : Crypt) (store : List AuthEntry) (hdrs : List Entry) (realm : Bytes)
    (policy : PolicyLines) (build : Bytes → Option Bytes) (ka : Bool) (tx : TxState) where
  auth_basic_check_lem :
      CryptFits crypt
      → HashesFit store
      → ((auth_basic_check crypt (some store) hdrs realm policy build ka tx).0 ≡ authorized) ↔ (
          (text : Bytes) × Presents hdrs text
          × (All (λ c. c ≢ 0) text × Credential crypt store text))
  unfolding auth_basic_check
  auth_basic_check_lem fits small =
      elim (Bool-cases (verify_header crypt store (find_authorization hdrs))) [
        | inl ok ↦ (
          λ e.
              let (text, shown, k) =
                verify_header-Presents crypt store hdrs (find_authorization hdrs) refl ok in
              (text, shown, (verify_decoded_lem crypt store text fits small).0 k),
          λ h. rw ok refl,
        )
        | inr bad ↦ (
          λ e. absurd (auth_deny-authorized realm policy build ka tx (subst denied_first bad e)),
          λ (text, shown, k). absurd (
              ground (
                arith,
                bad,
                Presents-verify_header crypt store hdrs text shown
                    ∙ (verify_decoded_lem crypt store text fits small).1 k,
              )),
        )
      ]
    where
      denied_first : Bool → Type 0
      denied_first b =
          (if b then (authorized, tx) else auth_deny realm policy build ka tx).0 ≡ authorized

  -- With a credential store loaded from a file, a request is let through just when its first Authorization header is not cut,
  -- has the scheme Basic and decodes to a text without NUL that is a user of the store, a colon and a password whose
  -- crypt with that user's hash is the hash and no failure, if `crypt_r` returns texts below 2^31 bytes.
  pub access_lem :
      (alloc : Bool) (grow : ℕ → Bool) (read_error : Bool) (file : Option Bytes)
      → auth_store_load crypt alloc grow read_error file ≡ some store
      → CryptFits crypt
      → ((auth_basic_check crypt (some store) hdrs realm policy build ka tx).0 ≡ authorized) ↔ (
          (text : Bytes) × Presents hdrs text
          × (All (λ c. c ≢ 0) text × Credential crypt store text))
  unfolding IsLoaded
  access_lem alloc grow read_error file e fits = auth_basic_check_lem fits (
      IsLoaded-HashesFit crypt store
        (auth_store_load-IsLoaded crypt alloc grow read_error file store e).2)
