-- ===== src/Mm/Exit.antt =====
-- `do_exit` and `do_wait` of mm/fork.c.
use minx.Prelude.{
  ℕ, zero, suc, ◌+◌, Bool, ◌&&◌, ◌==◌, if◌then◌else◌, bit_or, has_flag, clear_flag, true, false,
  Result, ok, stop, assertion, ◌>>=◌, ◌>>◌,
}
use minx.Const.{task_fs, msg_exit, msg_syscall_ret, no_task}
use minx.Kernel.{Message}
use minx.Mm.State.{Platform, Mm, waiting, hanging, set_proc, set_flags, post, cleanup}

abbrev pub is_waiting : ℕ → Mm → Bool
is_waiting i s = has_flag (s.proc_table i).p_flags waiting

abbrev pub is_hanging : ℕ → Mm → Bool
is_hanging i s = has_flag (s.proc_table i).p_flags hanging

-- `p_parent == pid`
abbrev pub is_child : ℕ → ℕ → Mm → Bool
is_child pid i s = (s.proc_table i).p_parent == pid

-- The message to the file system.
abbrev pub exit_msg : Message → ℕ → Message
exit_msg unset pid = record unset { type = msg_exit; m3i2 = pid }

-- A child of `pid` gets INIT for its parent. Where INIT waits and the child hangs, `assert(0)` follows
-- the `cleanup`.
unfoldable pub adopt : Platform → ℕ → ℕ → Mm → Result Mm
adopt pl pid i s =
    if is_child pid i s
    then (let s1 = set_proc i (record (s.proc_table i) { p_parent = pl.init }) s in
        if is_waiting pl.init s1 && is_hanging i s1 then stop assertion else ok s1)
    else ok s

-- The `for` over the table, with `left` rounds left.
unfoldable pub adopt_from : Platform → ℕ → ℕ → ℕ → Mm → Result Mm
adopt_from pl zero pid i s = ok s
adopt_from pl (suc left) pid i s = adopt pl pid i s >>= λ s1. adopt_from pl left pid (i + 1) s1

-- The parent is told if it waits; else the process hangs.
unfoldable pub tell_parent : Platform → ℕ → Mm → Mm
tell_parent pl pid s =
    let parent_pid = (s.proc_table pid).p_parent in
    if is_waiting parent_pid s
    then cleanup pl.unset pid
        (set_flags parent_pid (clear_flag (s.proc_table parent_pid).p_flags waiting) s)
    else set_flags pid (bit_or (s.proc_table pid).p_flags hanging) s

unfoldable pub do_exit : Platform → ℕ → Mm → Result Mm
do_exit pl status s =
    let pid = s.mm_msg.source in
    let s1 = post task_fs (exit_msg pl.unset pid) s in
    let s2 = set_proc pid (record (s1.proc_table pid) { exit_status = status }) s1 in
    pl.tell_fs (exit_msg pl.unset pid)
    >> adopt_from pl (pl.nr_tasks + pl.nr_procs) pid 0 (tell_parent pl pid s2)

-- What the `for` of `do_wait` ends with: a child that hangs, or the number of children.
pub data Found : Type 0 where
  child : ℕ → Found
  count : ℕ → Found

-- The `for`, with `left` rounds left and `children` counted.
unfoldable pub wait_from : ℕ → ℕ → ℕ → ℕ → Mm → Found
wait_from zero pid i children s = count children
wait_from (suc left) pid i children s = elim (is_child pid i s) [
  | true ↦ elim (is_hanging i s) [
    | true ↦ child i
    | false ↦ wait_from left pid (i + 1) (children + 1) s
  ]
  | false ↦ wait_from left pid (i + 1) children s
]

-- The message to a process that has no child.
abbrev pub alone_msg : Message → Message
alone_msg unset = record unset { type = msg_syscall_ret; m3i2 = no_task }

unfoldable pub finish_wait : Platform → ℕ → Mm → Found → Mm
finish_wait pl pid s (child i) = cleanup pl.unset i s
finish_wait pl pid s (count zero) = post pid (alone_msg pl.unset) s
finish_wait pl pid s (count (suc children)) =
    set_flags pid (bit_or (s.proc_table pid).p_flags waiting) s

unfoldable pub do_wait : Platform → Mm → Mm
do_wait pl s =
    let pid = s.mm_msg.source in
    finish_wait pl pid s (wait_from (pl.nr_tasks + pl.nr_procs) pid 0 0 s)
