-- ===== src/Mm/Adopt.antt =====
-- The loop of `do_exit` over the table, where INIT does not wait.
use mathlib.Core.Path.{subst}
use minx.Prelude.{
  ℕ, zero, suc, ◌+◌, ◌<◌, ◌≤◌, ◌≡◌, ◌≢◌, ◌⊎◌, inl, inr, refl, sym, ◌∙◌, ap, true, false, Bool-cases,
  ◌==◌, ==→eq, eq→==, ne→==, if◌then◌else◌, update_self, update_ne, has_flag, ok, bind-ok, arith,
}
use minx.Mm.State.{Platform, Proc, Mm, waiting, set_proc}
use minx.Mm.Exit.{is_child, is_waiting, adopt, adopt_from}

-- A change of the table that keeps flags and statuses and sends nothing.
pub record IsQuiet (s s' : Mm) : Type 0 where
  pub flags : (j : ℕ) → (s'.proc_table j).p_flags ≡ (s.proc_table j).p_flags
  pub status : (j : ℕ) → (s'.proc_table j).exit_status ≡ (s.proc_table j).exit_status
  pub sent : s'.sent ≡ s.sent

IsQuiet-trans : (s s1 s2 : Mm) → IsQuiet s s1 → IsQuiet s1 s2 → IsQuiet s s2
IsQuiet-trans s s1 s2 a b = record {
  flags = λ j. b.flags j ∙ a.flags j;
  status = λ j. b.status j ∙ a.status j;
  sent = b.sent ∙ a.sent;
}

-- A process after one round of the loop over the table.
abbrev adopted : Platform → ℕ → ℕ → Mm → Mm
adopted pl pid i s =
    if is_child pid i s then set_proc i (record (s.proc_table i) { p_parent = pl.init }) s else s

module _ (pl : Platform) (pid i : ℕ) (s : Mm) where
  reparented-IsQuiet : IsQuiet s (set_proc i (record (s.proc_table i) { p_parent = pl.init }) s)
  reparented-IsQuiet = record {
    flags = λ j. elim (Bool-cases (i == j)) [
      | inl e ↦ rw e (ap (λ k. (s.proc_table k).p_flags) (==→eq i j e))
      | inr e ↦ rw e refl
    ];
    status = λ j. elim (Bool-cases (i == j)) [
      | inl e ↦ rw e (ap (λ k. (s.proc_table k).exit_status) (==→eq i j e))
      | inr e ↦ rw e refl
    ];
    sent = refl;
  }

  adopted-IsQuiet : IsQuiet s (adopted pl pid i s)
  adopted-IsQuiet = elim (Bool-cases (is_child pid i s)) [
    | inl e ↦ rw e reparented-IsQuiet
    | inr e ↦ rw e (record { flags = λ j. refl; status = λ j. refl; sent = refl })
  ]

  adopt-run : is_waiting pl.init s ≡ false → adopt pl pid i s ≡ ok (adopted pl pid i s)
  unfolding adopt
  adopt-run w =
      let q = reparented-IsQuiet in
      let w' : is_waiting pl.init (set_proc i (record (s.proc_table i) { p_parent = pl.init }) s)
          ≡ false =
        ap (λ x. has_flag x waiting) (q.flags pl.init) ∙ w in
      elim (Bool-cases (is_child pid i s)) [ inl e ↦ rw e (rw w' refl) | inr e ↦ rw e refl ]

  adopted-child : is_child pid i s ≡ true → ((adopted pl pid i s).proc_table i).p_parent ≡ pl.init
  adopted-child e = rw e (ap (λ (v : Proc). v.p_parent) (update_self s.proc_table i _))

  adopted-other :
      (j : ℕ)
      → is_child pid i s ≡ false ⊎ i ≢ j
      → ((adopted pl pid i s).proc_table j).p_parent ≡ (s.proc_table j).p_parent
  adopted-other j (inl e) = rw e refl
  adopted-other j (inr ne) = elim (Bool-cases (is_child pid i s)) [
    | inl e ↦ rw e (ap (λ (v : Proc). v.p_parent) (update_ne s.proc_table i j _ ne))
    | inr e ↦ rw e refl
  ]

-- The children of `pid` from `i` to `hi` have INIT for their parent, and no other process has changed.
pub record IsAdopted (pl : Platform) (pid i hi : ℕ) (s s' : Mm) : Type 0 where
  pub quiet : IsQuiet s s'
  pub child :
      (j : ℕ)
      → i ≤ j
      → j < hi
      → (s.proc_table j).p_parent ≡ pid
      → (s'.proc_table j).p_parent ≡ pl.init
  pub other :
      (j : ℕ)
      → (s.proc_table j).p_parent ≢ pid
      → (s'.proc_table j).p_parent ≡ (s.proc_table j).p_parent
  pub before : (j : ℕ) → j < i → (s'.proc_table j).p_parent ≡ (s.proc_table j).p_parent

adopted-IsAdopted :
    (pl : Platform) (pid i hi : ℕ) (s s' : Mm)
    → i < hi
    → pl.init ≢ pid
    → IsAdopted pl pid (i + 1) hi (adopted pl pid i s) s'
    → IsAdopted pl pid i hi s s'
adopted-IsAdopted pl pid i hi s s' l ne a = record {
  quiet = IsQuiet-trans s (adopted pl pid i s) s' (adopted-IsQuiet pl pid i s) a.quiet;
  child = λ j from to e. elim (Bool-cases (i == j)) [
    | inl same ↦
        let q = ==→eq i j same in
        let e' : is_child pid i s ≡ true = eq→== _ _ (ap (λ k. (s.proc_table k).p_parent) q ∙ e) in
        subst (λ k. (s'.proc_table k).p_parent ≡ pl.init) q
          (a.before i (omega arith) ∙ adopted-child pl pid i s e')
    | inr same ↦
        a.child j (ground (arith, from, same)) to
          (adopted-other pl pid i s j (inr (ground (arith, same))) ∙ e)
  ];
  other = λ j no_child.
      let no_self : is_child pid i s ≡ false ⊎ i ≢ j = elim (Bool-cases (i == j)) [
        | inl same ↦ inl (
            ne→== _ _
              λ e. no_child (ap (λ k. (s.proc_table k).p_parent) (sym (==→eq i j same)) ∙ e))
        | inr same ↦ inr (ground (arith, same))
      ] in
      let here = adopted-other pl pid i s j no_self in
      a.other j (λ e. no_child (sym here ∙ e)) ∙ here;
  before =
      λ j b. a.before j (omega (arith, b)) ∙ adopted-other pl pid i s j (inr (omega (arith, b)));
}

pub adopt_from-IsAdopted :
    (pl : Platform) (left pid i hi : ℕ) (s : Mm)
    → i + left ≡ hi
    → pl.init ≢ pid
    → is_waiting pl.init s ≡ false
    → (s' : Mm) × (adopt_from pl left pid i s ≡ ok s') × IsAdopted pl pid i hi s s'
unfolding adopt_from
adopt_from-IsAdopted pl zero pid i hi s e ne w = (
  s,
  refl,
  record {
    quiet = record { flags = λ j. refl; status = λ j. refl; sent = refl };
    child = λ j a b. absurd (omega (arith, a, b, e));
    other = λ j a. refl;
    before = λ j a. refl;
  },
)
adopt_from-IsAdopted pl (suc left) pid i hi s e ne w =
    let s1 = adopted pl pid i s in
    let q = adopted-IsQuiet pl pid i s in
    let (s', run, a) =
      adopt_from-IsAdopted pl left pid (i + 1) hi s1 (omega (arith, e)) ne
        (ap (λ x. has_flag x waiting) (q.flags pl.init) ∙ w) in
    (
      s',
      bind-ok _ _ s1 (adopt-run pl pid i s w) ∙ run,
      adopted-IsAdopted pl pid i hi s s' (omega (arith, e)) ne a,
    )
