-- ===== src/Accept/Opening.antt =====
-- What `accept_setup_listeners` leaves open.
use lamseryn.Prelude.{
  ℕ, zero, suc, ◌+◌, ◌≤◌, true, false, Option, none, some, List, [], ◌∷◌, ◌++◌, ◌≡◌, refl, sym, ap,
  subst, ◌∙◌, ◌⊎◌, inl, inr, length, length-append, leb, ◌==◌, arith, append-nil, if_both,
  if◌then◌else◌,
}
use mathlib.Core.List.{append_assoc, Perm, perm_append_singleton}
use mathlib.Core.List.Perm
use lamseryn.Accept.{Listener}
use lamseryn.Accept.Listeners.{
  Vhost, ListenOptions, ListenRequest, Setup, max_listeners, fds, new_listener, request_of,
  fail_setup, setup_from, accept_setup_listeners,
}

-- The requests of the virtual hosts that have a port.
abbrev pub wanted : ListenOptions → List Vhost → List ListenRequest
wanted o [] = []
wanted o (v ∷ vs) = let rest = wanted o vs in if v.port == 0 then rest else request_of o v ∷ rest

-- The sockets that were opened by `n` requests.
abbrev pub sockets : ℕ → List (Option ℕ) → List ℕ
sockets zero opened = []
sockets (suc n) [] = []
sockets (suc n) (none ∷ more) = sockets n more
sockets (suc n) (some fd ∷ more) = fd ∷ sockets n more

-- The sockets that were opened are those of the listeners and those closed, each once.
abbrev pub IsTidy : ListenOptions → List Vhost → List (Option ℕ) → Setup → Type 0
IsTidy o vs opened r =
    Perm (fds r.listeners ++ r.closed) (sockets (length r.requests) opened)
    × (((r.ok ≡ true)
          × (r.requests ≡ wanted o vs)
          × (r.closed ≡ [])
          × (length r.listeners ≡ length r.requests)
          × (length r.listeners ≤ max_listeners))
        ⊎ ((r.ok ≡ false) × (r.listeners ≡ [])))

-- The outcome of the loop, from the listeners `ls` and the requests `rs` on.
abbrev Outcome :
    ListenOptions
    → List Vhost
    → List (Option ℕ)
    → List Listener
    → List ListenRequest
    → Setup
    → Type 0
Outcome o vs opened ls rs r =
    (extra : List ListenRequest) × (r.requests ≡ rs ++ extra)
    × Perm (fds r.listeners ++ r.closed) (fds ls ++ sockets (length extra) opened)
    × (((r.ok ≡ true)
          × (extra ≡ wanted o vs)
          × (r.closed ≡ [])
          × (length r.listeners ≡ length ls + length extra)
          × (length r.listeners ≤ max_listeners))
        ⊎ ((r.ok ≡ false) × (r.listeners ≡ [])))

perm_of : {xs ys : List ℕ} → xs ≡ ys → Perm xs ys
perm_of {xs} {ys} e = subst (λ zs. Perm xs zs) e (Perm.refl xs)

fds-append : (ls : List Listener) (fd : ℕ) → fds (ls ++ new_listener fd ∷ []) ≡ fds ls ++ fd ∷ []
fds-append [] fd = refl
fds-append (l ∷ ls) fd = ap (◌∷◌ l.fd) (fds-append ls fd)

module _ (o : ListenOptions) (v : Vhost) (vs : List Vhost) (h : (v.port == 0) ≡ false) where
  wanted-cons : wanted o (v ∷ vs) ≡ request_of o v ∷ wanted o vs
  wanted-cons = ap (λ b. if b then wanted o vs else request_of o v ∷ wanted o vs) h

  opened_one :
      (fd : ℕ) (more : List (Option ℕ)) (ls : List Listener) (rs : List ListenRequest) (r : Setup)
      → Outcome o vs more (ls ++ new_listener fd ∷ []) (rs ++ request_of o v ∷ []) r
      → Outcome o (v ∷ vs) (some fd ∷ more) ls rs r
  opened_one fd more ls rs r (extra, asked, perm, res) = (
    request_of o v ∷ extra,
    asked ∙ append_assoc rs (request_of o v ∷ []) extra,
    Perm.trans perm (
        perm_of (
          ap (λ zs. zs ++ sockets (length extra) more) (fds-append ls fd)
          ∙ append_assoc (fds ls) (fd ∷ []) (sockets (length extra) more))),
    elim res [
      | inl (ok, all, none_closed, count, bound) ↦ inl (
        ok,
        ap (◌∷◌ (request_of o v)) all ∙ sym wanted-cons,
        none_closed,
        omega (arith, count, length-append ls (new_listener fd ∷ [])),
        bound,
      )
      | inr bad ↦ inr bad
    ],
  )

skip_one :
    (o : ListenOptions) (v : Vhost) (vs : List Vhost) (opened : List (Option ℕ))
    (ls : List Listener) (rs : List ListenRequest) (r : Setup)
    → (v.port == 0) ≡ true
    → Outcome o vs opened ls rs r
    → Outcome o (v ∷ vs) opened ls rs r
skip_one o v vs opened ls rs r h (extra, asked, perm, res) = (
  extra,
  asked,
  perm,
  elim res [
    | inl (ok, all, closed, count, bound) ↦ inl (
      ok,
      all ∙ sym (ap (λ b. if b then wanted o vs else request_of o v ∷ wanted o vs) h),
      closed,
      count,
      bound,
    )
    | inr bad ↦ inr bad
  ],
)

gave_up :
    (o : ListenOptions) (vs : List Vhost) (opened : List (Option ℕ)) (ls : List Listener)
    (rs : List ListenRequest) (q : ListenRequest)
    → sockets 1 opened ≡ []
    → Outcome o vs opened ls rs (fail_setup ls (rs ++ q ∷ []) [])
gave_up o vs opened ls rs q h = (
  q ∷ [],
  refl,
  perm_of (sym (append-nil (fds ls)) ∙ ap (λ zs. fds ls ++ zs) (sym h)),
  inr (refl, refl),
)

one_fits : (n m : ℕ) {k : ℕ} → leb m n ≡ false → k ≡ n + 1 → k ≤ m
one_fits n m h e = ground arith

setup_from-Outcome :
    (o : ListenOptions) (vs : List Vhost) (opened : List (Option ℕ)) (ls : List Listener)
    (rs : List ListenRequest)
    → length ls ≤ max_listeners
    → Outcome o vs opened ls rs (setup_from o vs opened ls rs)
unfolding setup_from
setup_from-Outcome o [] opened ls rs h =
    ([], sym (append-nil rs), Perm.refl (fds ls ++ []), inl (refl, refl, refl, omega arith, h))
setup_from-Outcome o (v ∷ vs) [] ls rs h =
    if_both (Outcome o (v ∷ vs) [] ls rs) (v.port == 0)
      (λ e.
        skip_one o v vs [] ls rs (setup_from o vs [] ls rs) e (setup_from-Outcome o vs [] ls rs h))
      (λ e. gave_up o (v ∷ vs) [] ls rs (request_of o v) refl)
setup_from-Outcome o (v ∷ vs) (none ∷ more) ls rs h =
    if_both (Outcome o (v ∷ vs) (none ∷ more) ls rs) (v.port == 0)
      (λ e.
        skip_one o v vs (none ∷ more) ls rs (setup_from o vs (none ∷ more) ls rs) e
          (setup_from-Outcome o vs (none ∷ more) ls rs h))
      (λ e. gave_up o (v ∷ vs) (none ∷ more) ls rs (request_of o v) refl)
setup_from-Outcome o (v ∷ vs) (some fd ∷ more) ls rs h =
    if_both (Outcome o (v ∷ vs) (some fd ∷ more) ls rs) (v.port == 0)
      (λ e.
        skip_one o v vs (some fd ∷ more) ls rs (setup_from o vs (some fd ∷ more) ls rs) e
          (setup_from-Outcome o vs (some fd ∷ more) ls rs h))
      (λ e.
        if_both (Outcome o (v ∷ vs) (some fd ∷ more) ls rs) (leb max_listeners (length ls))
          (λ full. (
            request_of o v ∷ [],
            refl,
            Perm.symm (perm_append_singleton fd (fds ls)),
            inr (refl, refl),
          ))
          (λ free.
            let room : length (ls ++ new_listener fd ∷ []) ≤ max_listeners =
              one_fits (length ls) max_listeners free (length-append ls (new_listener fd ∷ [])) in
            let asked = rs ++ request_of o v ∷ [] in
            let now = ls ++ new_listener fd ∷ [] in
            opened_one o v vs e fd more ls rs (setup_from o vs more now asked)
              (setup_from-Outcome o vs more now asked room)))

-- Every socket that the set-up opens is that of a listener or is closed, exactly once. On success
-- every virtual host with a port has been asked for, in order, and has a listener, at most 32 in
-- all, and nothing is closed; on failure no listener is left.
pub accept_setup_listeners-IsTidy :
    (o : ListenOptions) (vs : List Vhost) (opened : List (Option ℕ))
    → IsTidy o vs opened (accept_setup_listeners o vs opened)
unfolding accept_setup_listeners
accept_setup_listeners-IsTidy o vs opened =
    let (extra, asked, perm, res) = setup_from-Outcome o vs opened [] [] (omega arith) in
    (
      Perm.trans perm (perm_of (ap (λ n. sockets n opened) (ap length (sym asked)))),
      elim res [
        | inl (ok, all, none_closed, count, bound) ↦
            inl (ok, asked ∙ all, none_closed, omega (arith, count, ap length (sym asked)), bound)
        | inr bad ↦ inr bad
      ],
    )
