-- ===== src/Mm/Wait.antt =====
-- What `do_wait` does, in the three cases.
use mathlib.Core.Path.{subst}
use minx.Prelude.{
  ℕ, zero, suc, ◌+◌, ◌≤◌, ◌<◌, ◌≡◌, ◌≢◌, ◌∷◌, ◌⊎◌, inl, inr, refl, sym, true, false, Bool-cases,
  ◌==◌, ==→eq, has_flag, bit_or, arith,
}
use minx.Const.{msg_syscall_ret}
use minx.Mm.State.{Platform, Mm, waiting, set_flags, post, cleanup}
use minx.Mm.Exit.{
  is_child, is_hanging, alone_msg, Found, child, count, wait_from, finish_wait, do_wait,
}

-- A process with the flag 16 hangs. Among these numbers no child of `pid` hangs.
abbrev pub NoneHang : ℕ → Mm → ℕ → ℕ → Type 0
NoneHang pid s lo hi =
    (j : ℕ)
    → lo ≤ j
    → j < hi
    → ((s.proc_table j).p_parent == pid) ≡ true
    → has_flag (s.proc_table j).p_flags 16 ≡ false

-- None is a child of `pid`, or one is.
abbrev pub NoChild : ℕ → Mm → ℕ → ℕ → Type 0
NoChild pid s lo hi = (j : ℕ) → lo ≤ j → j < hi → ((s.proc_table j).p_parent == pid) ≡ false

abbrev pub SomeChild : ℕ → Mm → ℕ → ℕ → Type 0
SomeChild pid s lo hi = (j : ℕ) × (lo ≤ j) × (j < hi) × (((s.proc_table j).p_parent == pid) ≡ true)

-- The first child that hangs.
pub record IsFirst (pid : ℕ) (s : Mm) (lo hi k : ℕ) : Type 0 where
  pub from : lo ≤ k
  pub to : k < hi
  pub is_its_child : ((s.proc_table k).p_parent == pid) ≡ true
  pub hangs : has_flag (s.proc_table k).p_flags 16 ≡ true
  pub none_before : NoneHang pid s lo k

-- What the `for` has found from `i` to `hi`, with `c` children counted before.
abbrev Scanned : ℕ → Mm → ℕ → ℕ → ℕ → Found → Type 0
Scanned pid s i hi c (child k) = IsFirst pid s i hi k
Scanned pid s i hi c (count m) =
    NoneHang pid s i hi × ((m ≡ c) × NoChild pid s i hi ⊎ (c < m) × SomeChild pid s i hi)

module _ (pid : ℕ) (s : Mm) (i hi : ℕ) (l : i < hi) where
  NoneHang-from :
      (k : ℕ)
      → (is_child pid i s ≡ true → is_hanging i s ≡ false)
      → NoneHang pid s (i + 1) k
      → NoneHang pid s i k
  NoneHang-from k h none j a b e = elim (Bool-cases (i == j)) [
    | inl same ↦
        let q = ==→eq i j same in
        subst (λ j. is_child pid j s ≡ true → is_hanging j s ≡ false) q h e
    | inr other ↦ none j (ground (arith, a, other)) b e
  ]

  skip-Scanned :
      (c : ℕ) (r : Found)
      → is_child pid i s ≡ false
      → Scanned pid s (i + 1) hi c r
      → Scanned pid s i hi c r
  skip-Scanned c (child k) nc f = record {
    from = let a = f.from in omega (arith, a);
    to = f.to;
    is_its_child = f.is_its_child;
    hangs = f.hangs;
    none_before = NoneHang-from k (λ e. cc) f.none_before;
  }
  skip-Scanned c (count m) nh (none, inl (e, noc)) = (
    NoneHang-from hi (λ e. cc) none,
    inl (
      e,
      λ j a b. elim (Bool-cases (i == j)) [
        | inl same ↦ subst (λ j. is_child pid j s ≡ false) (==→eq i j same) nh
        | inr other ↦ noc j (ground (arith, a, other)) b
      ],
    ),
  )
  skip-Scanned c (count m) nh (none, inr (e, (j, a, b, ch))) =
      (NoneHang-from hi (λ e. cc) none, inr (e, (j, omega (arith, a), b, ch)))

  count-Scanned :
      (c : ℕ) (r : Found)
      → is_child pid i s ≡ true
      → is_hanging i s ≡ false
      → Scanned pid s (i + 1) hi (c + 1) r
      → Scanned pid s i hi c r
  count-Scanned c (child k) ch nh f = record {
    from = let a = f.from in omega (arith, a);
    to = f.to;
    is_its_child = f.is_its_child;
    hangs = f.hangs;
    none_before = NoneHang-from k (λ e. nh) f.none_before;
  }
  count-Scanned c (count m) ch nh (none, inl (e, noc)) =
      (NoneHang-from hi (λ e. nh) none, inr (omega (arith, e), (i, omega arith, l, ch)))
  count-Scanned c (count m) ch nh (none, inr (e, some_child)) =
      (NoneHang-from hi (λ e. nh) none, inr (omega (arith, e), (i, omega arith, l, ch)))

module _ (pid : ℕ) (s : Mm) (left i c : ℕ) where
  wait_from-skip :
      is_child pid i s ≡ false → wait_from (suc left) pid i c s ≡ wait_from left pid (i + 1) c s
  unfolding wait_from
  wait_from-skip e = rw (e, wait_from) refl

  wait_from-count :
      is_child pid i s ≡ true
      → is_hanging i s ≡ false
      → wait_from (suc left) pid i c s ≡ wait_from left pid (i + 1) (c + 1) s
  unfolding wait_from
  wait_from-count e h = rw (e, wait_from) (rw h refl)

  wait_from-found :
      is_child pid i s ≡ true → is_hanging i s ≡ true → wait_from (suc left) pid i c s ≡ child i
  unfolding wait_from
  wait_from-found e h = rw (e, wait_from) (rw h refl)

here-IsFirst :
    (pid i hi : ℕ) (s : Mm)
    → i < hi
    → is_child pid i s ≡ true
    → is_hanging i s ≡ true
    → IsFirst pid s i hi i
here-IsFirst pid i hi s l ch h = record {
  from = omega arith;
  to = l;
  is_its_child = ch;
  hangs = h;
  none_before = λ j a b. absurd (omega (arith, a, b));
}

wait_from-Scanned :
    (pid : ℕ) (s : Mm) (left i hi c : ℕ)
    → i + left ≡ hi
    → Scanned pid s i hi c (wait_from left pid i c s)
unfolding wait_from
wait_from-Scanned pid s zero i hi c e =
    (λ j a b. absurd (omega (arith, a, b, e)), inl (refl, λ j a b. absurd (omega (arith, a, b, e))))
wait_from-Scanned pid s (suc left) i hi c e =
    let l : i < hi = omega (arith, e) in
    let at = λ (r : Found). Scanned pid s i hi c r in
    elim (Bool-cases (is_child pid i s)) [
      | inl ch ↦ elim (Bool-cases (is_hanging i s)) [
        | inl h ↦
            subst at (sym (wait_from-found pid s left i c ch h)) (here-IsFirst pid i hi s l ch h)
        | inr nh ↦ subst at (sym (wait_from-count pid s left i c ch nh)) (
            count-Scanned pid s i hi l c _ ch nh
              (wait_from-Scanned pid s left (i + 1) hi (c + 1) (omega (arith, e))))
      ]
      | inr nc ↦ subst at (sym (wait_from-skip pid s left i c nc)) (
          skip-Scanned pid s i hi l c _ nc
            (wait_from-Scanned pid s left (i + 1) hi c (omega (arith, e))))
    ]

-- The three cases of `do_wait`, for a result of its `for`.
abbrev pub Cases : Platform → Mm → Mm → Type 0
Cases pl s s' =
    let pid = s.mm_msg.source in
    let n = pl.nr_tasks + pl.nr_procs in
    ((k : ℕ) × IsFirst pid s 0 n k × (s' ≡ cleanup pl.unset k s))
    ⊎ (NoneHang pid s 0 n
        × SomeChild pid s 0 n
        × (s' ≡ set_flags pid (bit_or (s.proc_table pid).p_flags waiting) s))
    ⊎ (NoChild pid s 0 n × (s' ≡ post pid (alone_msg pl.unset) s))

finish_wait-Cases :
    (pl : Platform) (s : Mm) (r : Found)
    → Scanned s.mm_msg.source s 0 (pl.nr_tasks + pl.nr_procs) 0 r
    → Cases pl s (finish_wait pl s.mm_msg.source s r)
unfolding finish_wait
finish_wait-Cases pl s (child k) f = inl (k, f, refl)
finish_wait-Cases pl s (count zero) (none, inl (e, nc)) = inr (inr (nc, refl))
finish_wait-Cases pl s (count zero) (none, inr (e, sc)) = absurd (omega (arith, e))
finish_wait-Cases pl s (count (suc m)) (none, inl (e, nc)) = absurd (omega (arith, e))
finish_wait-Cases pl s (count (suc m)) (none, inr (e, sc)) = inr (inl (none, sc, refl))

pub do_wait-Cases : (pl : Platform) (s : Mm) → Cases pl s (do_wait pl s)
unfolding do_wait
do_wait-Cases pl s =
    let pid = s.mm_msg.source in
    let n = pl.nr_tasks + pl.nr_procs in
    finish_wait-Cases pl s (wait_from n pid 0 0 s) (wait_from-Scanned pid s n 0 n 0 (omega arith))

-- The flags of process `i` are `flags`, those of the others and all the parents and exit statuses are
-- as before.
pub record IsFlagged (i flags : ℕ) (s s' : Mm) : Type 0 where
  pub here : (s'.proc_table i).p_flags ≡ flags
  pub others : (j : ℕ) → i ≢ j → s'.proc_table j ≡ s.proc_table j
  pub parent : (s'.proc_table i).p_parent ≡ (s.proc_table i).p_parent
  pub status : (s'.proc_table i).exit_status ≡ (s.proc_table i).exit_status

-- The state after `do_wait`: a child is cleaned up, the caller waits, or it has no child. The messages
-- have type SYSCALL_RET; their PID is `m3i2` and their STATUS `m3i1`.
pub data Waited (pl : Platform) (s s' : Mm) : Type 0 where
  cleaned :
      (k : ℕ)
      → IsFirst s.mm_msg.source s 0 (pl.nr_tasks + pl.nr_procs) k
      → IsFlagged k 0x20 s s'
      → s'.sent
        ≡ (
          s.mm_msg.source,
          record (pl.unset) {
            type = msg_syscall_ret;
            m3i2 = k;
            m3i1 = (s.proc_table k).exit_status;
          },
        )
          ∷ s.sent
      → Waited pl s s'
  waits :
      NoneHang s.mm_msg.source s 0 (pl.nr_tasks + pl.nr_procs)
      → SomeChild s.mm_msg.source s 0 (pl.nr_tasks + pl.nr_procs)
      → IsFlagged s.mm_msg.source (bit_or (s.proc_table s.mm_msg.source).p_flags 8) s s'
      → s'.sent ≡ s.sent
      → Waited pl s s'
  alone :
      NoChild s.mm_msg.source s 0 (pl.nr_tasks + pl.nr_procs)
      → s'.proc_table ≡ s.proc_table
      → s'.sent
        ≡ (s.mm_msg.source, record (pl.unset) { type = msg_syscall_ret; m3i2 = 29 }) ∷ s.sent
      → Waited pl s s'
