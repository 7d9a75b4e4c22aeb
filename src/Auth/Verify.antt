-- ===== src/Auth/Verify.antt =====
-- Which passwords and which decoded texts auth.c verifies.
use lamseryn.Prelude.{
  ℕ, ◌<◌, ◌^◌, Bool, true, false, ◌&&◌, not, Option, none, some, List, [], ◌∷◌, ◌++◌, Bytes, ◌==◌,
  if◌then◌else◌, length, ◌≡◌, ◌≢◌, ◌↔◌, refl, sym, ap, subst, ◌∙◌, All, arith, inl, inr,
  Option-cases, if_both,
}
use lamseryn.Http.Tokens.{same}
use lamseryn.Auth.Compare.{auth_ct_strcmp, auth_ct_strcmp_lem, auth_ct_strcmp_self}
use lamseryn.Auth.{
  Crypt, AuthEntry, starts_with_star, matches_hash, auth_verify_password, find_user, verify_user,
  has_nul, split_colon, verify_split, verify_decoded,
}

-- What a text split at its first colon has before and after it.
Split : Bytes → Option (Bytes × Bytes) → Type 0
Split s none = Unit
Split s (some (user, pass)) = (s ≡ user ++ b':' ∷ pass) × All (λ c. c ≢ b':') user

cons-Split :
    (c : ℕ) (s : Bytes) (o : Option (Bytes × Bytes))
    → c ≢ b':'
    → Split s o
    → Split (c ∷ s) (elim o [ none ↦ none | some (user, pass) ↦ some (c ∷ user, pass) ])
unfolding Split
cons-Split c s none h k = tt
cons-Split c s (some (user, pass)) h (e, k) = (ap (◌∷◌ c) e, (h, k))

split_colon-Split : (s : Bytes) → Split s (split_colon s)
unfolding Split split_colon
split_colon-Split [] = tt
split_colon-Split (c ∷ s) =
    if_both (Split (c ∷ s)) (c == b':') (λ e. (ap (λ x. x ∷ s) (ground (arith, e)), tt))
      (λ e. cons-Split c s (split_colon s) (ground (arith, e)) (split_colon-Split s))

pub split_colon-append :
    (user pass : Bytes)
    → All (λ c. c ≢ b':') user
    → split_colon (user ++ b':' ∷ pass) ≡ some (user, pass)
unfolding split_colon
split_colon-append [] pass h = refl
split_colon-append (c ∷ user) pass (h, k) = rw (split_colon-append user pass k) (ground (arith, h))

has_nul-false : (s : Bytes) → (has_nul s ≡ false) ↔ All (λ c. c ≢ 0) s
unfolding has_nul
has_nul-false [] = (λ e. tt, λ h. refl)
has_nul-false (c ∷ s) = ground (arith, has_nul-false s)

-- `crypt_r` returns a text below 2^31 bytes.
unfoldable pub CryptFits : Crypt → Type 0
CryptFits crypt = (password hash r : Bytes) → crypt password hash ≡ some r → length r < 2 ^ 31

-- The crypt of the password is the hash, and not a failure.
pub Matches : Crypt → Bytes → Bytes → Type 0
Matches crypt password hash = (crypt password hash ≡ some hash) × (starts_with_star hash ≡ false)

and-true : (a b : Bool) → a && b ≡ true → (a ≡ true) × (b ≡ true)
and-true a b e = ground (arith, e)

and_true : (a : Bool) → a && true ≡ a
and_true a = ground arith

and_false : (a : Bool) → a && false ≡ false
and_false a = ground arith

tests_passed :
    (empty nul ok : Bool)
    → (if empty then false else if nul then false else ok) ≡ true
    → (nul ≡ false) × (ok ≡ true)
tests_passed empty nul ok e = ground (arith, e)

tests_pass :
    (empty nul ok : Bool)
    → empty ≡ false
    → nul ≡ false
    → ok ≡ true
    → (if empty then false else if nul then false else ok) ≡ true
tests_pass empty nul ok e n k = ground (arith, e, n, k)

not-true : (a : Bool) → not a ≡ true → a ≡ false
not-true a e = ground (arith, e)

matches_hash_lem :
    (crypt : Crypt) (password hash : Bytes) (o : Option Bytes)
    → CryptFits crypt
    → length hash < 2 ^ 31
    → crypt password hash ≡ o
    → matches_hash o hash ≡ true
    → Matches crypt password hash
unfolding Matches CryptFits
matches_hash_lem crypt password hash none fits h e k = ground (arith, k)
matches_hash_lem crypt password hash (some r) fits h e k =
    let (a, b) = and-true (not (starts_with_star r)) (auth_ct_strcmp r hash == 0) k in
    let q : r ≡ hash =
      (auth_ct_strcmp_lem r hash (fits password hash r e) h).0 (ground (arith, b)) in
    (
      e ∙ ap some q,
      subst (λ (x : Bytes). starts_with_star x ≡ false) q (not-true (starts_with_star r) a),
    )

-- A password is verified just when its crypt with the hash is the hash.
auth_verify_password_lem :
    (crypt : Crypt) (password hash : Bytes)
    → CryptFits crypt
    → length hash < 2 ^ 31
    → (auth_verify_password crypt password hash ≡ true) ↔ Matches crypt password hash
unfolding auth_verify_password Matches
auth_verify_password_lem crypt password hash fits h = (
  matches_hash_lem crypt password hash (crypt password hash) fits h refl,
  λ m. rw (m.0, m.1, auth_ct_strcmp_self hash) refl,
)

-- The store's hashes are below 2^31 bytes; auth.h bounds them by 128.
unfoldable pub HashesFit : List AuthEntry → Type 0
HashesFit store = All (λ e. length e.hash < 2 ^ 31) store

-- The text is a user of the store, a colon, and a password whose crypt is that user's hash.
pub Credential : Crypt → List AuthEntry → Bytes → Type 0
Credential crypt store text =
    (user : Bytes) × (pass : Bytes) × (hash : Bytes) × (text ≡ user ++ b':' ∷ pass)
    × All (λ c. c ≢ b':') user
    × (find_user store user ≡ some hash)
    × Matches crypt pass hash

HashFits : Option Bytes → Type 0
HashFits none = Unit
HashFits (some hash) = length hash < 2 ^ 31

find_user-HashFits :
    (store : List AuthEntry) (user : Bytes) → HashesFit store → HashFits (find_user store user)
unfolding HashesFit HashFits find_user
find_user-HashFits [] user h = tt
find_user-HashFits (x ∷ store) user (h, hs) =
    if_both HashFits (same x.user user) (λ e. h) (λ e. find_user-HashFits store user hs)

find_user-fits :
    (store : List AuthEntry) (user hash : Bytes)
    → HashesFit store
    → find_user store user ≡ some hash
    → length hash < 2 ^ 31
unfolding HashFits
find_user-fits store user hash h e = subst HashFits e (find_user-HashFits store user h)

verify_user_lem :
    (crypt : Crypt) (store : List AuthEntry) (user pass hash : Bytes)
    → find_user store user ≡ some hash
    → verify_user crypt store user pass ≡ auth_verify_password crypt pass hash
unfolding verify_user find_user auth_verify_password
verify_user_lem crypt [] user pass hash e = absurd (ground (arith, e))
verify_user_lem crypt (x ∷ store) user pass hash e =
    rw e (and_true (matches_hash (crypt pass hash) hash))

verify_user-none :
    (crypt : Crypt) (store : List AuthEntry) (user pass : Bytes)
    → find_user store user ≡ none
    → verify_user crypt store user pass ≡ false
unfolding verify_user auth_verify_password
verify_user-none crypt [] user pass e = refl
verify_user-none crypt (x ∷ store) user pass e =
    rw e (and_false (matches_hash (crypt pass x.hash) x.hash))

verify_user-Matches :
    (crypt : Crypt) (store : List AuthEntry) (user pass : Bytes)
    → CryptFits crypt
    → HashesFit store
    → verify_user crypt store user pass ≡ true
    → (hash : Bytes) × (find_user store user ≡ some hash) × Matches crypt pass hash
verify_user-Matches crypt store user pass fits small e =
    elim (Option-cases (find_user store user)) [
      | inl none_found ↦
          absurd (ground (arith, e, verify_user-none crypt store user pass none_found))
      | inr (hash, found) ↦
          let verified = sym (verify_user_lem crypt store user pass hash found) ∙ e in
          (
            hash,
            found,
            (auth_verify_password_lem crypt pass hash fits
                  (find_user-fits store user hash small found)).0
                verified,
          )
    ]

verify_split-Credential :
    (crypt : Crypt) (store : List AuthEntry) (text : Bytes) (o : Option (Bytes × Bytes))
    → CryptFits crypt
    → HashesFit store
    → Split text o
    → verify_split crypt store o ≡ true
    → Credential crypt store text
unfolding Split Credential
verify_split-Credential crypt store text none fits small h e = absurd (ground (arith, e))
verify_split-Credential crypt store text (some (user, pass)) fits small (h, k) e =
    let (hash, found, m) = verify_user-Matches crypt store user pass fits small e in
    (user, pass, hash, h, k, found, m)

Credential-length :
    (crypt : Crypt) (store : List AuthEntry) (text : Bytes)
    → Credential crypt store text
    → (length text == 0) ≡ false
unfolding Credential
Credential-length crypt store [] ([], pass, hash, e, k, f, m) = absurd (ground (arith, e))
Credential-length crypt store [] (c ∷ user, pass, hash, e, k, f, m) = absurd (ground (arith, e))
Credential-length crypt store (c ∷ text) h = ground arith

Credential-verify_split :
    (crypt : Crypt) (store : List AuthEntry) (text : Bytes)
    → CryptFits crypt
    → HashesFit store
    → Credential crypt store text
    → verify_split crypt store (split_colon text) ≡ true
unfolding Credential
Credential-verify_split crypt store text fits small (user, pass, hash, e, colonless, found, m) =
    rw (e, split_colon-append user pass colonless, verify_user_lem crypt store user pass hash found)
      ((auth_verify_password_lem crypt pass hash fits
          (find_user-fits store user hash small found)).1
        m)

-- A decoded text passes just when it is a credential of the store and has no NUL byte.
pub verify_decoded_lem :
    (crypt : Crypt) (store : List AuthEntry) (text : Bytes)
    → CryptFits crypt
    → HashesFit store
    → (verify_decoded crypt store (some text) ≡ true)
      ↔ (All (λ c. c ≢ 0) text × Credential crypt store text)
unfolding verify_decoded Credential
verify_decoded_lem crypt store text fits small = (
  λ e.
      let (plain, split) =
        tests_passed (length text == 0) (has_nul text) (verify_split crypt store (split_colon text))
          e in
      (
        (has_nul-false text).0 plain,
        verify_split-Credential crypt store text (split_colon text) fits small
            (split_colon-Split text) split,
      ),
  λ (plain, credential).
      tests_pass (length text == 0) (has_nul text) (verify_split crypt store (split_colon text))
        (Credential-length crypt store text credential) ((has_nul-false text).1 plain)
        (Credential-verify_split crypt store text fits small credential),
)
