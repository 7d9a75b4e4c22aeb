-- ===== src/Auth/Load.antt =====
-- Loading the credential store of auth.c from a file, which is a list of bytes.
use lamseryn.Prelude.{
  ℕ, zero, suc, ◌+◌, ◌*◌, ◌%◌, ◌^◌, Bool, true, false, ◌&&◌, ◌||◌, not, Option, none, some, List,
  [], ◌∷◌, ◌++◌, Bytes, ltb, leb, ◌==◌, if◌then◌else◌, length,
}
use lamseryn.Auth.{Crypt, AuthEntry, starts_with_star, split_colon}

abbrev pub auth_max_users : ℕ
auth_max_users = 256

abbrev pub auth_user_max : ℕ
auth_user_max = 64

abbrev pub auth_hash_max : ℕ
auth_hash_max = 128

-- The characters that the buffer of a line holds: its NUL has the last place.
abbrev pub line_max : ℕ
line_max = auth_user_max + 1 + auth_hash_max + 1

abbrev pub is_supported : Option Bytes → Bool
is_supported none = false
is_supported (some r) = not (starts_with_star r)

-- `fgets` of at most `n` characters: what is read, and the rest of the file.
unfoldable pub fgets : ℕ → Bytes → Bytes × Bytes
fgets zero s = ([], s)
fgets (suc n) [] = ([], [])
fgets (suc n) (c ∷ s) =
    let (line, rest) = fgets n s in if c == 10 then (c ∷ [], s) else (c ∷ line, rest)

-- The C string of what is read.
unfoldable pub until_nul : Bytes → Bytes
until_nul [] = []
until_nul (c ∷ s) = let rest = until_nul s in if c == 0 then [] else c ∷ rest

-- The trailing line feeds and carriage returns go.
unfoldable pub stripped : Bytes → Bytes
stripped [] = []
stripped (c ∷ s) =
    let rest = stripped s in if (c == 10 || c == 13) && length rest == 0 then [] else c ∷ rest

-- The rest of a line that is too long is skipped.
unfoldable pub skip_line : Bytes → Bytes
skip_line [] = []
skip_line (c ∷ s) = let rest = skip_line s in if c == 10 then s else rest

-- A pair of a user and a hash that is taken over.
abbrev pub usable : Crypt → Option (Bytes × Bytes) → Option AuthEntry
usable crypt none = none
usable crypt (some (user, hash)) =
    let e : AuthEntry = record { user = user; hash = hash } in
    if length user == 0 || ltb auth_user_max (length user)
    then none
    else if length hash == 0 || ltb auth_hash_max (length hash)
    then none
    else if not (is_supported (crypt [] hash))
    then none
    else some e

abbrev pub is_comment : Bytes → Bool
is_comment [] = true
is_comment (c ∷ s) = c == b'#'

-- The entry of a line; `none` is a line that is left out.
unfoldable pub line_entry : Crypt → Bytes → Option AuthEntry
unfolding split_colon
line_entry crypt line = if is_comment line then none else usable crypt (split_colon line)

-- The next capacity: twice as much, from 8 up to the most users.
abbrev pub next_cap : ℕ → ℕ
next_cap cap =
    let new_cap = if cap == 0 then 8 else cap * 2 % 2 ^ 32 in
    if ltb auth_max_users new_cap || ltb new_cap cap then auth_max_users else new_cap

-- The capacity before an entry is written; `none` if there is no memory.
unfoldable pub grown : (ℕ → Bool) → ℕ → ℕ → Option ℕ
grown grow count cap =
    if count == cap then if grow (next_cap cap) then some (next_cap cap) else none else some cap

-- After a line: the entries are complete, there is no memory, or the loop goes on.
pub data LoadStep : Type 0 where
  complete : List AuthEntry → LoadStep
  no_store : LoadStep
  more : List AuthEntry → ℕ → Bytes → LoadStep

abbrev pub add_entry : List AuthEntry → AuthEntry → Bytes → Option ℕ → LoadStep
add_entry entries e rest none = no_store
add_entry entries e rest (some cap) = more (entries ++ e ∷ []) cap rest

abbrev pub after_line : (ℕ → Bool) → List AuthEntry → ℕ → Bytes → Option AuthEntry → LoadStep
after_line grow entries cap rest none = more entries cap rest
after_line grow entries cap rest (some e) =
    if leb auth_max_users (length entries)
    then complete entries
    else add_entry entries e rest (grown grow (length entries) cap)

-- What `fgets` reads is stripped; a line that fills the buffer is skipped to its end.
unfoldable pub after_read : Crypt → (ℕ → Bool) → List AuthEntry → ℕ → Bytes × Bytes → LoadStep
unfolding until_nul stripped skip_line line_entry grown
after_read crypt grow entries cap (read, rest) =
    let line = stripped (until_nul read) in
    if length line == line_max
    then more entries cap (skip_line rest)
    else after_line grow entries cap rest (line_entry crypt line)

unfoldable pub load_line : Crypt → (ℕ → Bool) → List AuthEntry → ℕ → Bytes → LoadStep
unfolding fgets after_read
load_line crypt grow entries cap s = after_read crypt grow entries cap (fgets line_max s)

abbrev pub go_on :
    LoadStep → (List AuthEntry → ℕ → Bytes → Option (List AuthEntry)) → Option (List AuthEntry)
go_on (complete es) next = some es
go_on no_store next = none
go_on (more es cap rest) next = next es cap rest

-- The loop, on fuel; at the end of the file `fgets` gives nothing.
unfoldable pub load_from :
    ℕ → Crypt → (ℕ → Bool) → List AuthEntry → ℕ → Bytes → Option (List AuthEntry)
unfolding load_line
load_from zero crypt grow entries cap s = some entries
load_from (suc fuel) crypt grow entries cap [] = some entries
load_from (suc fuel) crypt grow entries cap (c ∷ s) =
    go_on (load_line crypt grow entries cap (c ∷ s)) (load_from fuel crypt grow)

-- A store without entries, or a file with a read error, is no store.
abbrev pub loaded : Bool → Option (List AuthEntry) → Option (List AuthEntry)
loaded read_error none = none
loaded read_error (some []) = none
loaded read_error (some (e ∷ es)) = if read_error then none else some (e ∷ es)

-- `auth_store_load` of a file, if it can be opened; each line takes a character at least.
unfoldable pub auth_store_load :
    Crypt → Bool → (ℕ → Bool) → Bool → Option Bytes → Option (List AuthEntry)
unfolding load_from
auth_store_load crypt alloc grow read_error none = none
auth_store_load crypt alloc grow read_error (some file) =
    if alloc then loaded read_error (load_from (suc (length file)) crypt grow [] 0 file) else none
