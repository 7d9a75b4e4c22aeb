-- ===== src/Lifecycle/Leaving.antt =====
-- Taking a descriptor out of the active set: the last one moves into its place.
use lamseryn.Prelude.{
  ℕ, ◌-◌, ◌<◌, true, false, Option, some, ◌==◌, ◌≡◌, sym, ap, ◌∙◌, arith, inl, inr, Bool-cases,
}
use lamseryn.Store.{update}
use lamseryn.Wheel.Chain.{update_here, other_node}
use lamseryn.Lifecycle.{ActiveLink, ActiveSet, outside}
use lamseryn.Lifecycle.Active.{Listed, Indexed, IsActive, differs, true-false, some-eq}

-- The link of the connection that was last, with its new index.
abbrev pub moved : ActiveLink → ℕ → ActiveLink
moved l i = record l { active_idx = some i }

pub ==_eq : (n m : ℕ) → (n == m) ≡ true → n ≡ m
==_eq n m e = ground (arith, e)

module _ (get : ℕ → Option ℕ) (a : ActiveSet) (fd c i : ℕ) (active : IsActive get a)
    (found : get fd ≡ some c) (inside : (a.links c).in_active_set ≡ true)
    (at : (a.links c).active_idx ≡ some i) (below : i < a.active_count)
    (here : a.active_fds i ≡ fd) where
  abbrev pub last : ℕ
  last = a.active_count - 1

  abbrev pub left_fds : ℕ → ℕ
  left_fds = update a.active_fds i (a.active_fds last)

  not_here :
      (d gd j : ℕ) → (d == c) ≡ false → get gd ≡ some d → a.active_fds j ≡ gd → (j == i) ≡ false
  not_here d gd j apart stored listed = elim (Bool-cases (j == i)) [
    | inl e ↦
        let same : gd ≡ fd = sym listed ∙ ap a.active_fds (==_eq j i e) ∙ here in
        absurd (ground (arith, apart, some-eq d c (sym stored ∙ ap get same ∙ found)))
    | inr e ↦ e
  ]

  -- A connection whose link says that it is inside is another one.
  not_outside :
      (links : ℕ → ActiveLink) (d : ℕ)
      → ((update links c outside) d).in_active_set ≡ true
      → (d == c) ≡ false
  not_outside links d h = elim (Bool-cases (d == c)) [
    | inl e ↦ absurd (
        true-false (
          sym h
          ∙ ap (λ (l : ActiveLink). l.in_active_set)
              (ap (update links c outside) (==_eq d c e) ∙ update_here links c outside)))
    | inr e ↦ e
  ]

  -- The last one goes.
  pub last_Listed : i ≡ last → (j : ℕ) → j < last → Listed get left_fds (update a.links c outside) j
  unfolding Listed IsActive
  last_Listed e j h =
      let (d, stored, is_in, idx) = active.0 j (omega arith) in
      let apart : (d == c) ≡ false =
        differs (λ x. (a.links x).active_idx) d c
          (λ k. ground (arith, some-eq j i (sym idx ∙ k ∙ at), e, h)) in
      let same = other_node a.links c outside d apart in
      (
        d,
        ap get (other_node a.active_fds i (a.active_fds last) j (ground (arith, e, h))) ∙ stored,
        ap (λ (l : ActiveLink). l.in_active_set) same ∙ is_in,
        ap (λ (l : ActiveLink). l.active_idx) same ∙ idx,
      )

  pub last_Indexed :
      i ≡ last
      → (d gd : ℕ) → get gd ≡ some d
      → ((update a.links c outside) d).in_active_set ≡ true
      → Indexed left_fds last ((update a.links c outside) d) gd
  unfolding Indexed IsActive
  last_Indexed e d gd stored is_in =
      let apart = not_outside a.links d is_in in
      let same = other_node a.links c outside d apart in
      let (j, idx, h, listed) =
        active.1 d gd stored (sym (ap (λ (l : ActiveLink). l.in_active_set) same) ∙ is_in) in
      let elsewhere = not_here d gd j apart stored listed in
      (
        j,
        ap (λ (l : ActiveLink). l.active_idx) same ∙ idx,
        ground (arith, e, h, elsewhere),
        other_node a.active_fds i (a.active_fds last) j elsewhere ∙ listed,
      )

  module _ (cs : ℕ) (cs_stored : get (a.active_fds last) ≡ some cs)
      (cs_inside : (a.links cs).in_active_set ≡ true) (cs_at : (a.links cs).active_idx ≡ some last)
      (e : (i == last) ≡ false) where
    abbrev pub moved_links : ℕ → ActiveLink
    moved_links = update a.links cs (moved (a.links cs) i)

    abbrev pub left_links : ℕ → ActiveLink
    left_links = update moved_links c outside

    cs_apart : (cs == c) ≡ false
    cs_apart =
        differs (λ x. (a.links x).active_idx) cs c
          (λ k. ground (arith, e, some-eq last i (sym cs_at ∙ k ∙ at)))

    cs_link : left_links cs ≡ moved (a.links cs) i
    cs_link =
        other_node moved_links c outside cs cs_apart ∙ update_here a.links cs (moved (a.links cs) i)

    other_link : (d : ℕ) → (d == c) ≡ false → (d == cs) ≡ false → left_links d ≡ a.links d
    other_link d k l =
        other_node moved_links c outside d k ∙ other_node a.links cs (moved (a.links cs) i) d l

    pub moved_Listed : (j : ℕ) → j < last → Listed get left_fds left_links j
    unfolding Listed IsActive
    moved_Listed j h = elim (Bool-cases (j == i)) [
      | inl k ↦ (
        cs,
        ap get (ap left_fds (==_eq j i k) ∙ update_here a.active_fds i (a.active_fds last))
            ∙ cs_stored,
        ap (λ (l : ActiveLink). l.in_active_set) cs_link ∙ cs_inside,
        ap (λ (l : ActiveLink). l.active_idx) cs_link ∙ ap some (sym (==_eq j i k)),
      )
      | inr k ↦
          let (d, stored, is_in, idx) = active.0 j (omega arith) in
          let one =
            differs (λ x. (a.links x).active_idx) d c
              (λ m. ground (arith, k, some-eq j i (sym idx ∙ m ∙ at))) in
          let two =
            differs (λ x. (a.links x).active_idx) d cs
              (λ m. ground (arith, h, some-eq j last (sym idx ∙ m ∙ cs_at))) in
          let same = other_link d one two in
          (
            d,
            ap get (other_node a.active_fds i (a.active_fds last) j k) ∙ stored,
            ap (λ (l : ActiveLink). l.in_active_set) same ∙ is_in,
            ap (λ (l : ActiveLink). l.active_idx) same ∙ idx,
          )
    ]

    pub moved_Indexed :
        (d gd : ℕ)
        → get gd ≡ some d
        → (left_links d).in_active_set ≡ true
        → Indexed left_fds last (left_links d) gd
    unfolding Indexed IsActive
    moved_Indexed d gd stored is_in =
        let apart = not_outside moved_links d is_in in
        elim (Bool-cases (d == cs)) [
          | inl k ↦
              let same = ==_eq d cs k in
              let (j, idx, h, listed) = active.1 cs gd (stored ∙ ap some same) cs_inside in
              let at_last : j ≡ last = some-eq j last (sym idx ∙ cs_at) in
              (
                i,
                ap (λ (l : ActiveLink). l.active_idx) (ap left_links same ∙ cs_link),
                ground (arith, e, below),
                update_here a.active_fds i (a.active_fds last)
                    ∙ ap a.active_fds (sym at_last)
                    ∙ listed,
              )
          | inr k ↦
              let same = other_link d apart k in
              let (j, idx, h, listed) =
                active.1 d gd stored
                  (sym (ap (λ (l : ActiveLink). l.in_active_set) same) ∙ is_in) in
              let elsewhere = not_here d gd j apart stored listed in
              let before : (j == last) ≡ false =
                differs (λ n. get (a.active_fds n)) j last
                  (λ m.
                    ground (
                      arith,
                      k,
                      some-eq d cs (sym stored ∙ ap get (sym listed) ∙ m ∙ cs_stored),
                    )) in
              (
                j,
                ap (λ (l : ActiveLink). l.active_idx) same ∙ idx,
                ground (arith, h, before),
                other_node a.active_fds i (a.active_fds last) j elsewhere ∙ listed,
              )
        ]
