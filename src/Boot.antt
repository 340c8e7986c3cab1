-- ===== src/Boot.antt =====
-- The start of the kernel: the loop of `kernelMain` of kernel/main.c over the table of processes.
-- Where the tasks and the test processes begin, and where their stacks end, is a parameter.
pub mod Table
mod Tests
use minx.Prelude.{
  ℕ, zero, suc, ◌+◌, ◌-◌, ◌^◌, ◌==◌, ltb, leb, if◌then◌else◌, update, Result, ok, stop, overrun,
  ◌>>=◌,
}
use minx.Prelude.Int.{pos}
use minx.Const.{nr_task, nr_proc}
use minx.Kernel.{Pcb, idle_pcb, Kernel}

-- NR_MAX_USER_PROCESS
abbrev pub nr_max_user_process : ℕ
nr_max_user_process = 32

-- `TASK`, without the name.
pub record Task : Type 0 where
  pub eip : ℕ
  pub top_of_stack : ℕ

-- The members of `STACK_FRAME` that are set; `ds` stands for `es`, `gs`, `fs` and `ss` too, which get
-- the same value.
pub record Frame : Type 0 where
  pub cs : ℕ
  pub ds : ℕ
  pub frame_eip : ℕ
  pub esp : ℕ
  pub eflags : ℕ

-- The kernel, and the registers with which each process starts.
pub record Boot : Type 0 where
  pub kernel : Kernel
  pub regs : ℕ → Frame

module _ (task user_process : ℕ → Task) where
  -- The selectors are those of privilege 1 for a task and of privilege 3 for a process.
  abbrev pub frame : ℕ → Frame
  frame i =
      if ltb i nr_task
      then record {
        cs = 33;
        ds = 25;
        frame_eip = (task i).eip;
        esp = (task i).top_of_stack;
        eflags = 0x1202;
      }
      else record {
        cs = 51;
        ds = 43;
        frame_eip = (user_process (i - nr_task)).eip;
        esp = (user_process (i - nr_task)).top_of_stack;
        eflags = 0x0202;
      }

  -- The `if` at the start of a round: `p` is still the entry of the round before.
  abbrev pub mark_unused : ℕ → Boot → Boot
  mark_unused i b =
      let k = b.kernel in
      let p = record (k.pcb_table (i - 1)) { p_flags = 2 ^ 32 - 1 } in
      if leb nr_proc i
      then record b { kernel = record k { pcb_table = update k.pcb_table (i - 1) p } }
      else b

  -- The rest of the round, for entry `i`, which the table must have.
  unfoldable pub init_entry : ℕ → Boot → Result Boot
  init_entry i b =
      let k = b.kernel in
      if ltb i nr_proc
      then ok (record {
        kernel = record k {
          pcb_table = update k.pcb_table i (idle_pcb i);
          ticks = update k.ticks i (pos 30);
          priority = update k.priority i (pos 30);
        };
        regs = update b.regs i (frame i);
      })
      else stop overrun

  -- The `for`, with `left` rounds left.
  unfoldable pub init_from : ℕ → ℕ → Boot → Result Boot
  init_from zero i b = ok b
  init_from (suc left) i b = do b1 ← init_entry i (mark_unused i b); init_from left (i + 1) b1

  -- The loop of `kernelMain` and the assignments behind it.
  unfoldable pub init_table : Boot → Result Boot
  init_table b = do
    b1 ← init_from (nr_task + nr_max_user_process) 0 b
    let k = record (b1.kernel) { pcb_ptr = 0; int_re_enter = 0; ticks_count = 0 }
    ok (record b1 { kernel = k })
