-- ===== src/Lifecycle/Removed.antt =====
-- `worker_active_remove` keeps the active set right and takes out one connection.
use lamseryn.Prelude.{
  ℕ, ◌-◌, ◌<◌, true, false, ◌&&◌, not, Option, some, ltb, ◌==◌, if◌then◌else◌, ◌≡◌, refl, sym, ap,
  subst, ◌∙◌, arith, if_both,
}
use lamseryn.Store.{update}
use lamseryn.Wheel.Chain.{update_here}
use lamseryn.Lifecycle.{
  ActiveLink, ActiveSet, outside, is_at, index_of, reindex, swap_out, remove_conn,
  worker_active_remove,
}
use lamseryn.Lifecycle.Active.{Listed, Indexed, IsActive}
use lamseryn.Lifecycle.Leaving.{last_Listed, last_Indexed, moved_Listed, moved_Indexed, ==_eq}

index_of-at :
    (a : ActiveSet) (fd i : ℕ)
    → i < a.active_count
    → a.active_fds i ≡ fd
    → index_of a fd (some i) ≡ some i
unfolding index_of
index_of-at a fd i below here =
    if_both (λ (o : Option ℕ). o ≡ some i) (is_at a fd (some i)) (λ e. refl)
      (λ e. absurd (wrong a.active_count (a.active_fds i) e below here))
  where
    wrong : (n g : ℕ) → (ltb i n && g == fd) ≡ false → i < n → g ≡ fd → ⊥
    wrong n g e below here = ground (arith, e, below, here)

remove_conn-inside :
    (get : ℕ → Option ℕ) (a : ActiveSet) (fd c : ℕ)
    → (a.links c).in_active_set ≡ true
    → remove_conn get a fd (some c) ≡ swap_out get a c (index_of a fd (a.links c).active_idx)
unfolding remove_conn
remove_conn-inside get a fd c inside =
    if_both (λ (b : ActiveSet). b ≡ swap_out get a c (index_of a fd (a.links c).active_idx))
      (not (a.links c).in_active_set) (λ e. absurd (ground (arith, e, inside))) (λ e. refl)

-- The set without the descriptor at an index.
abbrev without : (ℕ → Option ℕ) → ActiveSet → ℕ → ℕ → (ℕ → ActiveLink) → ActiveSet
without get a c i links = record a {
  active_fds = update a.active_fds i (a.active_fds (a.active_count - 1));
  active_count = a.active_count - 1;
  links = update links c outside;
}

module _ (get : ℕ → Option ℕ) (a : ActiveSet) (fd c : ℕ) (active : IsActive get a)
    (found : get fd ≡ some c) (inside : (a.links c).in_active_set ≡ true) where
  swap_out-IsActive :
      (i : ℕ)
      → (a.links c).active_idx ≡ some i
      → i < a.active_count
      → a.active_fds i ≡ fd
      → IsActive get (swap_out get a c (some i))
  unfolding swap_out IsActive Listed
  swap_out-IsActive i at below here =
      let last = a.active_count - 1 in
      let (cs, cs_stored, cs_inside, cs_at) = active.0 last (omega arith) in
      if_both (λ (links : ℕ → ActiveLink). IsActive get (without get a c i links)) (i == last)
        (λ e. (
          last_Listed get a fd c i active found inside at below here (==_eq i last e),
          last_Indexed get a fd c i active found inside at below here (==_eq i last e),
          omega (arith, active.2),
        ))
        (λ e.
          subst (λ (o : Option ℕ). IsActive get (without get a c i (reindex a.links i o)))
            (sym cs_stored)
            (
              moved_Listed get a fd c i active found inside at below here cs cs_stored cs_inside
                  cs_at e,
              moved_Indexed get a fd c i active found inside at below here cs cs_stored cs_inside
                  cs_at e,
              omega (arith, active.2),
            ))

  removal :
      (i : ℕ) × (worker_active_remove get a fd ≡ swap_out get a c (some i))
      × IsActive get (swap_out get a c (some i))
  unfolding worker_active_remove IsActive Indexed
  removal =
      let (i, at, below, here) = active.1 c fd found inside in
      (
        i,
        ap (remove_conn get a fd) found
            ∙ remove_conn-inside get a fd c inside
            ∙ ap (λ (o : Option ℕ). swap_out get a c o)
                (ap (index_of a fd) at ∙ index_of-at a fd i below here),
        swap_out-IsActive i at below here,
      )

  -- A connection in the set is taken out of it: the set stays right, is one smaller, and the connection knows that it is out.
  pub worker_active_remove-IsActive :
      IsActive get (worker_active_remove get a fd)
      × ((worker_active_remove get a fd).links c ≡ outside)
      × ((worker_active_remove get a fd).active_count ≡ a.active_count - 1)
  unfolding swap_out
  worker_active_remove-IsActive =
      let (i, e, right) = removal in
      let last = a.active_count - 1 in
      let links = if i == last then a.links else reindex a.links i (get (a.active_fds last)) in
      (
        subst (IsActive get) (sym e) right,
        ap (λ (b : ActiveSet). b.links c) e ∙ update_here links c outside,
        ap (λ (b : ActiveSet). b.active_count) e,
      )
