-- ===== src/Mm/Keep.antt =====
-- Every request that the memory manager serves keeps the invariant of Mm/Handed.
use mathlib.Core.Path.{subst}
use minx.Prelude.{
  ℕ, zero, suc, ◌+◌, ◌≡◌, inl, inr, refl, sym, ◌∙◌, ap, Bool, true, false, ◌&&◌, Bool-cases, ◌==◌,
  leb, if◌then◌else◌, update, clear_flag, has_flag, Result, ok, stop, check, ◌>>=◌, eq→==, ==→eq,
  arith, [], ◌∷◌,
}
use minx.Prelude.Int.{ℤ, pos, negsuc}
use minx.Strings.{Bytes}
use minx.Format.{vsprintf}
use minx.Kernel.{Message}
use minx.Const.{msg_fork, msg_exit, msg_wait}
use minx.Mm.State.{Platform, Proc, Mm, waiting, hanging, free_slot, set_flags, set_proc, cleanup}
use minx.Mm.Memory.{alloc_mem}
use minx.Mm.Fork.{
  fork_msg, find_slot, fork_to, give_birth, do_fork, segment_size, text_limit, is_one_segment,
  child_ldts,
}
use minx.Mm.Exit.{
  exit_msg, is_child, is_waiting, is_hanging, adopt, adopt_from, tell_parent, do_exit, do_wait,
}
use minx.Mm.Wait.{do_wait-Cases}
use minx.Mm.Task.{serve_mm}
use minx.Mm.Handed.{
  hangs, waits, IsHandedOver, idle-IsHandedOver, clear-IsHandedOver, hang-IsHandedOver,
  wait-IsHandedOver, parent-IsHandedOver, status-IsHandedOver,
}

-- The table is handed over.
abbrev pub Handed : ℕ → Mm → Type 0
Handed n s = IsHandedOver n s.proc_table

-- What holds of a value, if one is returned.
abbrev After : {A : Type 0} → (A → Type 0) → Result A → Type 0
After P (stop fault) = Unit
After P (ok a) = P a

bind-After :
    {A B : Type 0} (P : B → Type 0) (m : Result A) (f : A → Result B)
    → ((a : A) → After P (f a))
    → After P (m >>= f)
bind-After P (stop fault) f k = tt
bind-After P (ok a) f k = k a

then-After :
    {A B : Type 0} (Q : A → Type 0) (P : B → Type 0) (m : Result A) (f : A → Result B)
    → After Q m
    → ((a : A) → Q a → After P (f a))
    → After P (m >>= f)
then-After Q P (stop fault) f h k = tt
then-After Q P (ok a) f h k = k a h

if-After :
    {A : Type 0} (P : A → Type 0) (b : Bool) (r r' : Result A)
    → After P r
    → After P r'
    → After P (if b then r else r')
if-After P true r r' h h' = h
if-After P false r r' h h' = h'

After-ok : {A : Type 0} (P : A → Type 0) (r : Result A) {a : A} → r ≡ ok a → After P r → P a
After-ok P r e h = subst (After P) e h

abbrev HandedAfter : ℕ → Result Mm → Type 0
HandedAfter n r = After (Handed n) r

-- A process neither hangs nor waits.
abbrev pub IsIdle : ℕ → Mm → Type 0
IsIdle i s = (is_hanging i s ≡ false) × (is_waiting i s ≡ false)

-- With another parent for `i`, the flags are as before.
flags-parent :
    (t : ℕ → Proc) (i q j : ℕ)
    → (update t i (record (t i) { p_parent = q }) j).p_flags ≡ (t j).p_flags
flags-parent t i q j = elim (Bool-cases (i == j)) [
  | inl e ↦ rw e (ap (λ k. (t k).p_flags) (==→eq i j e))
  | inr e ↦ rw e refl
]

left-false : (a b : Bool) → b ≡ true → (a && b) ≡ false → a ≡ false
left-false true b h e = cc
left-false false b h e = refl

free_of_parent :
    (t : ℕ → Proc) (i q : ℕ)
    → let t' = update t i (record (t i) { p_parent = q }) in
      (waits t' q && hangs t' i) ≡ false → hangs t i ≡ true → waits t q ≡ false
free_of_parent t i q e g =
    sym (ap (λ x. has_flag x waiting) (flags-parent t i q q))
    ∙ left-false _ _ (ap (λ x. has_flag x hanging) (flags-parent t i q i) ∙ g) e

module _ (pl : Platform) (n : ℕ) where
  cleanup-Handed : (i : ℕ) (s : Mm) → Handed n s → Handed n (cleanup pl.unset i s)
  cleanup-Handed i s h =
      idle-IsHandedOver n s.proc_table h i (record (s.proc_table i) { p_flags = free_slot })
        (omega arith) refl refl

  tell_parent-Handed : (pid : ℕ) (s : Mm) → Handed n s → Handed n (tell_parent pl pid s)
  unfolding tell_parent
  tell_parent-Handed pid s h =
      let parent_pid = (s.proc_table pid).p_parent in
      elim (Bool-cases (is_waiting parent_pid s)) [
        | inl w ↦
            let s1 =
              set_flags parent_pid (clear_flag (s.proc_table parent_pid).p_flags waiting) s in
            rw w (cleanup-Handed pid s1 (clear-IsHandedOver n s.proc_table h parent_pid))
        | inr w ↦ rw w (hang-IsHandedOver n s.proc_table h pid w)
      ]

  adopt-Handed : (pid i : ℕ) (s : Mm) → Handed n s → HandedAfter n (adopt pl pid i s)
  unfolding adopt
  adopt-Handed pid i s h =
      let s1 = set_proc i (record (s.proc_table i) { p_parent = pl.init }) s in
      elim (Bool-cases (is_child pid i s)) [
        | inr e ↦ rw e h
        | inl e ↦ elim (Bool-cases (is_waiting pl.init s1 && is_hanging i s1)) [
          | inl both ↦ rw e (rw both tt)
          | inr k ↦ rw e (
              rw k (
                parent-IsHandedOver n s.proc_table h i pl.init
                  λ g. free_of_parent s.proc_table i pl.init k g))
        ]
      ]

  adopt_from-Handed :
      (left pid i : ℕ) (s : Mm) → Handed n s → HandedAfter n (adopt_from pl left pid i s)
  unfolding adopt_from
  adopt_from-Handed zero pid i s h = h
  adopt_from-Handed (suc left) pid i s h =
      then-After (Handed n) (Handed n) (adopt pl pid i s) (λ s1. adopt_from pl left pid (i + 1) s1)
        (adopt-Handed pid i s h) (adopt_from-Handed left pid (i + 1))

  do_exit-Handed : (status : ℕ) (s : Mm) → Handed n s → HandedAfter n (do_exit pl status s)
  unfolding do_exit
  do_exit-Handed status s h =
      bind-After (Handed n) (pl.tell_fs (exit_msg pl.unset s.mm_msg.source)) _ λ told.
        adopt_from-Handed (pl.nr_tasks + pl.nr_procs) s.mm_msg.source 0 _ (
          tell_parent-Handed s.mm_msg.source _
            (status-IsHandedOver n s.proc_table h s.mm_msg.source status))

  give_birth-Handed :
      (child_pid base size : ℕ) (mem1 : Bytes) (s : Mm)
      → Handed n s
      → IsIdle s.mm_msg.source s
      → Handed n (give_birth pl child_pid base size mem1 s)
  unfolding give_birth
  give_birth-Handed child_pid base size mem1 s h (nh, nw) =
      let parent = s.proc_table s.mm_msg.source in
      let child : Proc = record parent {
        ldt_sel = (s.proc_table child_pid).ldt_sel;
        p_parent = s.mm_msg.source;
        ldts = child_ldts pl base parent.ldts;
      } in
      idle-IsHandedOver n s.proc_table h child_pid child (h.small s.mm_msg.source) nh nw

  -- The caller neither hangs nor waits: it waits for the answer.
  fork_to-Handed :
      (fuel fmt child_pid : ℕ) (s : Mm)
      → Handed n s
      → IsIdle s.mm_msg.source s
      → After (λ (r : ℤ × Mm). Handed n r.1) (fork_to pl fuel fmt child_pid s)
  unfolding fork_to
  fork_to-Handed fuel fmt child_pid s h idle =
      let P = λ (r : ℤ × Mm). Handed n r.1 in
      let parent = s.proc_table s.mm_msg.source in
      let text = parent.ldts pl.index_ldt_c in
      let size = segment_size (text_limit pl text) text in
      let one = check (is_one_segment pl text (parent.ldts pl.index_ldt_rw)) in
      let tell = pl.tell_fs (fork_msg pl.unset child_pid) in
      let end = λ (mem1 : Bytes) (base : ℕ).
        tell >>= λ told. ok (pos 0, give_birth pl child_pid base size mem1 s) in
      bind-After P (vsprintf fuel parent.name fmt (parent.name ∷ child_pid ∷ []) s.mem)
        (λ r. one >>= λ checked. alloc_mem pl child_pid size >>= end r.1)
        λ r.
          bind-After P one (λ checked. alloc_mem pl child_pid size >>= end r.1)
            λ checked.
              bind-After P (alloc_mem pl child_pid size) (end r.1) λ base.
                bind-After P tell _ λ told. give_birth-Handed child_pid base size r.1 s h idle

  do_fork-Handed :
      (fuel fmt : ℕ) (s : Mm)
      → Handed n s
      → IsIdle s.mm_msg.source s
      → After (λ (r : ℤ × Mm). Handed n r.1) (do_fork pl fuel fmt s)
  unfolding do_fork
  do_fork-Handed fuel fmt s h idle =
      let P = λ (r : ℤ × Mm). Handed n r.1 in
      let slot = find_slot pl s in
      bind-After P (check (leb (pl.nr_tasks + pl.nr_native_procs) slot)) _ λ checked.
        if-After P (slot == pl.nr_tasks + pl.nr_procs) (ok (negsuc 0, s))
          (fork_to pl fuel fmt slot s) h (fork_to-Handed fuel fmt slot s h idle)

do_wait-Handed :
    (pl : Platform) (s : Mm)
    → Handed (pl.nr_tasks + pl.nr_procs) s
    → Handed (pl.nr_tasks + pl.nr_procs) (do_wait pl s)
do_wait-Handed pl s h = elim (do_wait-Cases pl s) [
  | inl (k, f, e) ↦ rw e (cleanup-Handed pl _ k s h)
  | inr (inl (nh, sc, e)) ↦ rw e (
      wait-IsHandedOver _ s.proc_table h s.mm_msg.source
        λ i l hg d. let c = nh i (omega arith) l (eq→== _ _ (sym d)) in cc)
  | inr (inr (alone, e)) ↦ rw e h
]

-- Let the flags of all processes be below 64, so that they have no other bits than the six of
-- include/sys/const.h, let no process of the table hang whose parent waits, and let the sender of a
-- request neither hang nor wait. After a round of the loop of `task_mm` that ends, for any request and
-- whatever the file system makes of its messages, the flags are below 64 and no process hangs whose
-- parent waits.
pub serve_mm-Handed :
    (pl : Platform) (fuel fmt : ℕ) (m : Message) (s s' : Mm)
    → Handed (pl.nr_tasks + pl.nr_procs) s
    → IsIdle m.source s
    → serve_mm pl fuel fmt m s ≡ ok s'
    → Handed (pl.nr_tasks + pl.nr_procs) s'
unfolding serve_mm
serve_mm-Handed pl fuel fmt m s s' h idle run =
    let n = pl.nr_tasks + pl.nr_procs in
    let s0 = record s { mm_msg = m } in
    let P = Handed n in
    let forked = do_fork-Handed pl n fuel fmt s0 h idle in
    After-ok P (serve_mm pl fuel fmt m s) run (
      if-After P (m.type == msg_fork) _ _
        (then-After (λ (r : ℤ × Mm). Handed n r.1) P (do_fork pl fuel fmt s0) _ forked (λ r k. k))
        (if-After P (m.type == msg_exit) _ _ (do_exit-Handed pl n m.m3i1 s0 h)
          (if-After P (m.type == msg_wait) _ _ (do_wait-Handed pl s0 h) tt)))
