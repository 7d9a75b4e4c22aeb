-- ===== src/Auth/Loaded.antt =====
-- What holds of every credential store that auth.c loads, and that the loop reads the whole file.
use lamseryn.Prelude.{
  ℕ, zero, suc, ◌*◌, ◌≤◌, ◌<◌, ◌%◌, ◌^◌, Bool, true, false, ◌||◌, not, Option, none, some, List, [],
  ◌∷◌, Bytes, ltb, leb, ◌==◌, if◌then◌else◌, length, length-append, All-append, ◌≡◌, ◌≢◌, subst,
  All, arith, if_both,
}
use lamseryn.Auth.{Crypt, AuthEntry, split_colon}
use lamseryn.Auth.Load.{
  auth_max_users, auth_user_max, auth_hash_max, line_max, is_supported, fgets, until_nul, stripped,
  usable, is_comment, line_entry, next_cap, grown, LoadStep, complete, no_store, more, add_entry,
  after_line, after_read, load_line, load_from, go_on, loaded, auth_store_load,
}

-- A user and a hash that fit their arrays, and a hash that `crypt_r` can handle.
unfoldable pub IsEntry : Crypt → AuthEntry → Type 0
IsEntry crypt e =
    (0 < length e.user)
    × (length e.user ≤ 64)
    × (0 < length e.hash)
    × (length e.hash ≤ 128)
    × (is_supported (crypt [] e.hash) ≡ true)

-- The entries fit the array, which has at most 256 places.
Held : Crypt → List AuthEntry → ℕ → Type 0
Held crypt es cap = (length es ≤ cap) × (cap ≤ 256) × All (IsEntry crypt) es

EntryOr : Crypt → Option AuthEntry → Type 0
EntryOr crypt none = Unit
EntryOr crypt (some e) = IsEntry crypt e

-- Tests of a length that is from 1 to `n`.
within : (k n : ℕ) → k == 0 || ltb n k ≡ false → (0 < k) × (k ≤ n)
within k n h = (ground (arith, h), ground (arith, h))

not-false : (b : Bool) → not b ≡ false → b ≡ true
not-false b h = ground (arith, h)

usable-EntryOr : (crypt : Crypt) (o : Option (Bytes × Bytes)) → EntryOr crypt (usable crypt o)
unfolding EntryOr IsEntry
usable-EntryOr crypt none = tt
usable-EntryOr crypt (some (user, hash)) =
    if_both (EntryOr crypt) (length user == 0 || ltb auth_user_max (length user)) (λ h. tt)
      (λ h.
        if_both (EntryOr crypt) (length hash == 0 || ltb auth_hash_max (length hash)) (λ k. tt)
          (λ k.
            if_both (EntryOr crypt) (not (is_supported (crypt [] hash))) (λ j. tt)
              (λ j. (
                (within (length user) 64 h).0,
                (within (length user) 64 h).1,
                (within (length hash) 128 k).0,
                (within (length hash) 128 k).1,
                not-false (is_supported (crypt [] hash)) j,
              ))))

StepHeld : Crypt → LoadStep → Type 0
StepHeld crypt (complete es) = (cap : ℕ) × Held crypt es cap
StepHeld crypt no_store = Unit
StepHeld crypt (more es cap rest) = Held crypt es cap

-- Room for one more entry.
Room : ℕ → Option ℕ → Type 0
Room count none = Unit
Room count (some cap) = (count < cap) × (cap ≤ 256)

or-false : (a b : Bool) → a || b ≡ false → a ≡ false
or-false a b h = ground (arith, h)

capped :
    (count new : ℕ)
    → count < 256
    → count < new
    → let cap = if ltb 256 new || ltb new count then 256 else new in (count < cap) × (cap ≤ 256)
capped count new h k =
    if_both (λ cap. (count < cap) × (cap ≤ 256)) (ltb 256 new || ltb new count)
      (λ e. (h, omega arith)) (λ e. (k, ground (arith, or-false (ltb 256 new) (ltb new count) e)))

doubled : (count : ℕ) → count < 256 → count < (if count == 0 then 8 else count * 2 % 2 ^ 32)
doubled count h =
    if_both (λ n. count < n) (count == 0) (λ e. ground (arith, e))
      (λ e. let k : count ≢ 0 = ground (arith, e) in omega (arith, k))

next_cap-Room : (count : ℕ) → count < 256 → (count < next_cap count) × (next_cap count ≤ 256)
next_cap-Room count h =
    capped count (if count == 0 then 8 else count * 2 % 2 ^ 32) h (doubled count h)

grown-Room :
    (grow : ℕ → Bool) (count cap : ℕ)
    → count < 256
    → count ≤ cap
    → cap ≤ 256
    → Room count (grown grow count cap)
unfolding grown Room
grown-Room grow count cap h k j =
    if_both (Room count) (count == cap)
      (λ e.
        if_both (Room count) (grow (next_cap cap))
          (λ f.
            subst (λ n. (count < next_cap n) × (next_cap n ≤ 256)) (same_count e)
              (next_cap-Room count h))
          (λ f. tt))
      (λ e. (ground (arith, e), j))
  where
    same_count : count == cap ≡ true → count ≡ cap
    same_count e = ground (arith, e)

add_entry-StepHeld :
    (crypt : Crypt) (es : List AuthEntry) (cap : ℕ) (e : AuthEntry) (rest : Bytes) (o : Option ℕ)
    → Held crypt es cap
    → IsEntry crypt e
    → Room (length es) o
    → StepHeld crypt (add_entry es e rest o)
unfolding StepHeld Held Room
add_entry-StepHeld crypt es cap e rest none h k r = tt
add_entry-StepHeld crypt es cap e rest (some more_cap) h k r = (
  omega (arith, r.0, length-append es (e ∷ [])),
  r.1,
  All-append (IsEntry crypt) es (e ∷ []) h.2 (k, tt),
)

after_line-StepHeld :
    (crypt : Crypt) (grow : ℕ → Bool) (es : List AuthEntry) (cap : ℕ) (rest : Bytes)
    (o : Option AuthEntry)
    → Held crypt es cap
    → EntryOr crypt o
    → StepHeld crypt (after_line grow es cap rest o)
unfolding StepHeld EntryOr Held
after_line-StepHeld crypt grow es cap rest none h k = h
after_line-StepHeld crypt grow es cap rest (some e) h k =
    if_both (StepHeld crypt) (leb auth_max_users (length es)) (λ f. (cap, h))
      (λ f.
        add_entry-StepHeld crypt es cap e rest (grown grow (length es) cap) h k
          (grown-Room grow (length es) cap (ground (arith, f)) h.0 h.1))

line_entry-EntryOr : (crypt : Crypt) (line : Bytes) → EntryOr crypt (line_entry crypt line)
unfolding line_entry EntryOr
line_entry-EntryOr crypt line =
    if_both (EntryOr crypt) (is_comment line) (λ e. tt)
      (λ e. usable-EntryOr crypt (split_colon line))

after_read-StepHeld :
    (crypt : Crypt) (grow : ℕ → Bool) (es : List AuthEntry) (cap : ℕ) (input : Bytes × Bytes)
    → Held crypt es cap
    → StepHeld crypt (after_read crypt grow es cap input)
unfolding after_read StepHeld
after_read-StepHeld crypt grow es cap (read, rest) h =
    let line = stripped (until_nul read) in
    if_both (StepHeld crypt) (length line == line_max) (λ e. h)
      (λ e.
        after_line-StepHeld crypt grow es cap rest (line_entry crypt line) h
          (line_entry-EntryOr crypt line))

load_line-StepHeld :
    (crypt : Crypt) (grow : ℕ → Bool) (es : List AuthEntry) (cap : ℕ) (s : Bytes)
    → Held crypt es cap
    → StepHeld crypt (load_line crypt grow es cap s)
unfolding load_line
load_line-StepHeld crypt grow es cap s h =
    after_read-StepHeld crypt grow es cap (fgets line_max s) h

-- A store of the loop: at most 256 entries, each of them sound.
StoreOr : Crypt → Option (List AuthEntry) → Type 0
StoreOr crypt none = Unit
StoreOr crypt (some es) = (length es ≤ 256) × All (IsEntry crypt) es

Held-StoreOr :
    (crypt : Crypt) (es : List AuthEntry) (cap : ℕ) → Held crypt es cap → StoreOr crypt (some es)
unfolding Held StoreOr
Held-StoreOr crypt es cap h = (omega (arith, h.0, h.1), h.2)

go_on-StoreOr :
    (crypt : Crypt) (step : LoadStep) (next : List AuthEntry → ℕ → Bytes → Option (List AuthEntry))
    → StepHeld crypt step
    → ((es : List AuthEntry) (cap : ℕ) (s : Bytes)
        → Held crypt es cap
        → StoreOr crypt (next es cap s))
    → StoreOr crypt (go_on step next)
unfolding StepHeld StoreOr
go_on-StoreOr crypt (complete es) next (cap, h) k = Held-StoreOr crypt es cap h
go_on-StoreOr crypt no_store next h k = tt
go_on-StoreOr crypt (more es cap rest) next h k = k es cap rest h

load_from-StoreOr :
    (fuel : ℕ) (crypt : Crypt) (grow : ℕ → Bool) (es : List AuthEntry) (cap : ℕ) (s : Bytes)
    → Held crypt es cap
    → StoreOr crypt (load_from fuel crypt grow es cap s)
unfolding load_from
load_from-StoreOr zero crypt grow es cap s h = Held-StoreOr crypt es cap h
load_from-StoreOr (suc fuel) crypt grow es cap [] h = Held-StoreOr crypt es cap h
load_from-StoreOr (suc fuel) crypt grow es cap (c ∷ s) h =
    go_on-StoreOr crypt (load_line crypt grow es cap (c ∷ s)) (load_from fuel crypt grow)
      (load_line-StepHeld crypt grow es cap (c ∷ s) h) (load_from-StoreOr fuel crypt grow)

-- At least one entry and at most 256, each of them sound.
unfoldable pub IsLoaded : Crypt → List AuthEntry → Type 0
IsLoaded crypt es = (0 < length es) × (length es ≤ 256) × All (IsEntry crypt) es

LoadedOr : Crypt → Option (List AuthEntry) → Type 0
LoadedOr crypt none = Unit
LoadedOr crypt (some es) = IsLoaded crypt es

loaded-LoadedOr :
    (crypt : Crypt) (read_error : Bool) (o : Option (List AuthEntry))
    → StoreOr crypt o
    → LoadedOr crypt (loaded read_error o)
unfolding StoreOr LoadedOr IsLoaded
loaded-LoadedOr crypt read_error none h = tt
loaded-LoadedOr crypt read_error (some []) h = tt
loaded-LoadedOr crypt read_error (some (e ∷ es)) h =
    if_both (LoadedOr crypt) read_error (λ k. tt) (λ k. (omega arith, h.0, h.1))

auth_store_load-LoadedOr :
    (crypt : Crypt) (alloc : Bool) (grow : ℕ → Bool) (read_error : Bool) (file : Option Bytes)
    → LoadedOr crypt (auth_store_load crypt alloc grow read_error file)
unfolding auth_store_load LoadedOr Held
auth_store_load-LoadedOr crypt alloc grow read_error none = tt
auth_store_load-LoadedOr crypt alloc grow read_error (some file) =
    if_both (LoadedOr crypt) alloc
      (λ e.
        loaded-LoadedOr crypt read_error (load_from (suc (length file)) crypt grow [] 0 file) (
          load_from-StoreOr (suc (length file)) crypt grow [] 0 file
            (omega arith, omega arith, tt)))
      (λ e. tt)

-- Whatever the file, a store that is loaded from it has from 1 to 256 entries, and each of them a user of 1 to 64 bytes
-- and a hash of 1 to 128 bytes that `crypt_r` can handle.
pub auth_store_load-IsLoaded :
    (crypt : Crypt) (alloc : Bool) (grow : ℕ → Bool) (read_error : Bool) (file : Option Bytes)
    (es : List AuthEntry)
    → auth_store_load crypt alloc grow read_error file ≡ some es
    → IsLoaded crypt es
unfolding LoadedOr
auth_store_load-IsLoaded crypt alloc grow read_error file es e =
    subst (LoadedOr crypt) e (auth_store_load-LoadedOr crypt alloc grow read_error file)
