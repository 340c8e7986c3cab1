-- ===== src/Mm/Handed.antt =====
-- No process hangs while its parent waits: an invariant of the memory manager.
use mathlib.Core.Path.{subst}
use minx.Prelude.{
  ltb→lt, ℕ, ◌<◌, ◌≡◌, ◌≢◌, inl, inr, refl, sym, ◌∙◌, ap, Bool, true, false, ◌&&◌, Bool-cases, ◌==◌,
  ltb, ==→eq, &&-true, bit_or, has_flag, clear_flag, all_below, all_below-at, same, same-eq, update,
}
use minx.Mm.State.{Proc, waiting, hanging}

-- What `|= HANGING`, `|= WAITING` and `&= ~WAITING` do to the two flags, for flags below 64.
keeps : ℕ → Bool
keeps x =
    same (has_flag (bit_or x hanging) waiting) (has_flag x waiting)
    && (same (has_flag (bit_or x waiting) hanging) (has_flag x hanging)
        && (same (has_flag (clear_flag x waiting) hanging) (has_flag x hanging)
            && (same (has_flag (clear_flag x waiting) waiting) false
                && (ltb (bit_or x hanging) 64
                    && (ltb (bit_or x waiting) 64 && ltb (clear_flag x waiting) 64)))))

keeps_table : all_below 64 keeps ≡ true
unfolding keeps
keeps_table = refl

record Keeps (x : ℕ) : Type 0 where
  hang_waiting : has_flag (bit_or x hanging) waiting ≡ has_flag x waiting
  wait_hanging : has_flag (bit_or x waiting) hanging ≡ has_flag x hanging
  clear_hanging : has_flag (clear_flag x waiting) hanging ≡ has_flag x hanging
  clear_waiting : has_flag (clear_flag x waiting) waiting ≡ false
  hang_small : bit_or x hanging < 64
  wait_small : bit_or x waiting < 64
  clear_small : clear_flag x waiting < 64

flags-Keeps : (x : ℕ) → x < 64 → Keeps x
unfolding keeps
flags-Keeps x l =
    let (a, t) = &&-true _ _ (all_below-at 64 keeps x l keeps_table) in
    let (b, u) = &&-true _ _ t in
    let (c, v) = &&-true _ _ u in
    let (d, w) = &&-true _ _ v in
    let (e, y) = &&-true _ _ w in
    let (f, g) = &&-true _ _ y in
    record {
      hang_waiting = same-eq _ _ a;
      wait_hanging = same-eq _ _ b;
      clear_hanging = same-eq _ _ c;
      clear_waiting = same-eq _ _ d;
      hang_small = ltb→lt _ _ e;
      wait_small = ltb→lt _ _ f;
      clear_small = ltb→lt _ _ g;
    }

abbrev pub hangs : (ℕ → Proc) → ℕ → Bool
hangs t i = has_flag (t i).p_flags hanging

abbrev pub waits : (ℕ → Proc) → ℕ → Bool
waits t i = has_flag (t i).p_flags waiting

-- The flags are those that the kernel uses, and no process of the table hangs whose parent waits.
pub record IsHandedOver (n : ℕ) (t : ℕ → Proc) : Type 0 where
  pub small : (i : ℕ) → (t i).p_flags < 64
  pub handed : (i : ℕ) → i < n → hangs t i ≡ true → waits t (t i).p_parent ≡ false

not_waiting : (t : ℕ → Proc) (i j : ℕ) → i ≡ j → waits t i ≡ true → waits t j ≡ false → ⊥
not_waiting t i j e a b = let c : waits t i ≡ false = ap (waits t) e ∙ b in cc

module _ (n : ℕ) (t : ℕ → Proc) (h : IsHandedOver n t) (j : ℕ) where
  -- Another entry for `j`.
  update-IsHandedOver :
      (v : Proc)
      → v.p_flags < 64
      → (j < n → has_flag v.p_flags hanging ≡ true → waits (update t j v) v.p_parent ≡ false)
      → (has_flag v.p_flags waiting ≡ true
          → (i : ℕ) → i < n
          → hangs t i ≡ true
          → j ≢ (t i).p_parent)
      → IsHandedOver n (update t j v)
  update-IsHandedOver v small own others = record {
    small = λ i. elim (Bool-cases (j == i)) [ inl e ↦ rw e small | inr e ↦ rw e (h.small i) ];
    handed = λ i l. elim (Bool-cases (j == i)) [
      | inl e ↦ rw e λ k. own (subst (λ x. x < n) (sym (==→eq j i e)) l) k
      | inr e ↦ rw e λ k. elim (Bool-cases (j == (t i).p_parent)) [
        | inr d ↦ rw d (h.handed i l k)
        | inl d ↦ rw d (elim (Bool-cases (has_flag v.p_flags waiting)) [
          | inl w ↦ absurd (others w i l k (==→eq j _ d))
          | inr w ↦ w
        ])
      ]
    ];
  }

  -- An entry that neither hangs nor waits.
  pub idle-IsHandedOver :
      (v : Proc)
      → v.p_flags < 64
      → has_flag v.p_flags hanging ≡ false
      → has_flag v.p_flags waiting ≡ false
      → IsHandedOver n (update t j v)
  idle-IsHandedOver v small nh nw = update-IsHandedOver v small (λ l k. cc) (λ k. cc)

  -- With the entry's flags changed, a parent that did not wait, and is not the entry if that waits
  -- now, does not wait.
  still_not :
      (v : Proc) (p : ℕ)
      → waits t p ≡ false
      → (j ≡ p → has_flag v.p_flags waiting ≡ false)
      → waits (update t j v) p ≡ false
  still_not v p w own = elim (Bool-cases (j == p)) [
    | inl e ↦ rw e (own (==→eq j p e))
    | inr e ↦ rw e w
  ]

  pub clear-IsHandedOver :
      IsHandedOver n (update t j (record (t j) { p_flags = clear_flag (t j).p_flags waiting }))
  clear-IsHandedOver =
      let k = flags-Keeps (t j).p_flags (h.small j) in
      update-IsHandedOver (record (t j) { p_flags = clear_flag (t j).p_flags waiting })
        k.clear_small
        (λ l g.
          still_not _ (t j).p_parent (h.handed j l (sym k.clear_hanging ∙ g))
            (λ e. k.clear_waiting))
        (λ g. let f = k.clear_waiting in absurd (cc))

  pub hang-IsHandedOver :
      waits t (t j).p_parent ≡ false
      → IsHandedOver n (update t j (record (t j) { p_flags = bit_or (t j).p_flags hanging }))
  hang-IsHandedOver free =
      let k = flags-Keeps (t j).p_flags (h.small j) in
      update-IsHandedOver (record (t j) { p_flags = bit_or (t j).p_flags hanging }) k.hang_small
        (λ l g. still_not _ (t j).p_parent free (λ e. k.hang_waiting ∙ ap (waits t) e ∙ free))
        (λ g i l hg e. not_waiting t j (t i).p_parent e (sym k.hang_waiting ∙ g) (h.handed i l hg))

  pub wait-IsHandedOver :
      ((i : ℕ) → i < n → hangs t i ≡ true → j ≢ (t i).p_parent)
      → IsHandedOver n (update t j (record (t j) { p_flags = bit_or (t j).p_flags waiting }))
  wait-IsHandedOver none =
      let k = flags-Keeps (t j).p_flags (h.small j) in
      update-IsHandedOver (record (t j) { p_flags = bit_or (t j).p_flags waiting }) k.wait_small
        (λ l g.
          let g' : hangs t j ≡ true = sym k.wait_hanging ∙ g in
          still_not _ (t j).p_parent (h.handed j l g') (λ e. absurd (none j l g' e)))
        (λ g. none)

  -- A new parent, who does not wait if the process hangs.
  pub parent-IsHandedOver :
      (q : ℕ)
      → (hangs t j ≡ true → waits t q ≡ false)
      → IsHandedOver n (update t j (record (t j) { p_parent = q }))
  parent-IsHandedOver q free =
      update-IsHandedOver (record (t j) { p_parent = q }) (h.small j)
        (λ l g. still_not _ q (free g) (λ e. ap (waits t) e ∙ free g))
        (λ g i l hg e. not_waiting t j (t i).p_parent e g (h.handed i l hg))

  pub status-IsHandedOver :
      (status : ℕ) → IsHandedOver n (update t j (record (t j) { exit_status = status }))
  status-IsHandedOver status =
      update-IsHandedOver (record (t j) { exit_status = status }) (h.small j)
        (λ l g. still_not _ (t j).p_parent (h.handed j l g) (λ e. ap (waits t) e ∙ h.handed j l g))
        (λ g i l hg e. not_waiting t j (t i).p_parent e g (h.handed i l hg))
