-- ===== src/Mm/Leave.antt =====
-- What `do_exit` leaves, where INIT does not wait.

use minx.Prelude.{
  ℕ, ◌+◌, ◌<◌, ◌≡◌, ◌≢◌, ◌⊎◌, true, false, bit_or, clear_flag, has_flag, ok, stop, Result, Fault,
  ◌∷◌,
}
use minx.Const.{task_fs, msg_exit, msg_syscall_ret}
use minx.Mm.State.{Platform, Mm, waiting, hanging, free_slot, set_proc, farewell, post}
use minx.Mm.Exit.{is_waiting, exit_msg}

-- The process has told its parent, which waited; else it hangs.
record IsTold (pl : Platform) (pid : ℕ) (s s' : Mm) : Type 0 where
  told :
      is_waiting (s.proc_table pid).p_parent s ≡ true
      → ((s'.proc_table pid).p_flags ≡ free_slot)
        × ((s'.proc_table (s.proc_table pid).p_parent).p_flags
            ≡ clear_flag (s.proc_table (s.proc_table pid).p_parent).p_flags waiting)
        × (s'.sent
            ≡ ((s.proc_table pid).p_parent, farewell pl.unset pid (s.proc_table pid).exit_status)
              ∷ s.sent)
  hangs :
      is_waiting (s.proc_table pid).p_parent s ≡ false
      → ((s'.proc_table pid).p_flags ≡ bit_or (s.proc_table pid).p_flags hanging)
        × ((s'.proc_table pid).exit_status ≡ (s.proc_table pid).exit_status)
        × (s'.sent ≡ s.sent)
  others :
      (j : ℕ)
      → pid ≢ j
      → (is_waiting (s.proc_table pid).p_parent s ≡ false) ⊎ (s.proc_table pid).p_parent ≢ j
      → (s'.proc_table j).p_flags ≡ (s.proc_table j).p_flags
  parents : (j : ℕ) → (s'.proc_table j).p_parent ≡ (s.proc_table j).p_parent

-- What `exit` with this status leaves.
pub record IsLeft (pl : Platform) (status pid n : ℕ) (s s' : Mm) : Type 0 where
  -- The parent waited: it is told the status and waits no longer, and the slot is free.
  pub told :
      has_flag (s.proc_table (s.proc_table pid).p_parent).p_flags 8 ≡ true
      → ((s'.proc_table pid).p_flags ≡ 0x20)
        × ((s'.proc_table (s.proc_table pid).p_parent).p_flags
            ≡ clear_flag (s.proc_table (s.proc_table pid).p_parent).p_flags 8)
        × (s'.sent
            ≡ (
              (s.proc_table pid).p_parent,
              record (pl.unset) { type = msg_syscall_ret; m3i2 = pid; m3i1 = status },
            )
              ∷ (task_fs, record (pl.unset) { type = msg_exit; m3i2 = pid })
              ∷ s.sent)
  -- It did not: the process hangs, with its status.
  pub hangs :
      has_flag (s.proc_table (s.proc_table pid).p_parent).p_flags 8 ≡ false
      → ((s'.proc_table pid).p_flags ≡ bit_or (s.proc_table pid).p_flags 16)
        × ((s'.proc_table pid).exit_status ≡ status)
        × (s'.sent ≡ (task_fs, record (pl.unset) { type = msg_exit; m3i2 = pid }) ∷ s.sent)
  pub others :
      (j : ℕ)
      → pid ≢ j
      → (s.proc_table pid).p_parent ≢ j
      → (s'.proc_table j).p_flags ≡ (s.proc_table j).p_flags
  -- INIT is the parent of its children, and nobody else's parent has changed.
  pub orphan :
      (j : ℕ) → j < n → (s.proc_table j).p_parent ≡ pid → (s'.proc_table j).p_parent ≡ pl.init
  pub family :
      (j : ℕ)
      → (s.proc_table j).p_parent ≢ pid
      → (s'.proc_table j).p_parent ≡ (s.proc_table j).p_parent

-- The state with the status set and the file system told.
abbrev dying : Platform → ℕ → ℕ → Mm → Mm
dying pl status pid s =
    set_proc pid (record (s.proc_table pid) { exit_status = status })
      (post task_fs (exit_msg pl.unset pid) s)

-- The outcome of `exit`, for what becomes of the message to the file system.
pub data Left (pl : Platform) (status : ℕ) (s : Mm) : Result (Unit {0}) → Result Mm → Type 0 where
  left :
      {s' : Mm}
      → IsLeft pl status s.mm_msg.source (pl.nr_tasks + pl.nr_procs) s s'
      → Left pl status s (ok tt) (ok s')
  stopped : {f : Fault} → Left pl status s (stop f) (stop f)
