-- ===== src/Sched.antt =====
-- The scheduler, lib/process.c. Its proofs are in the child modules.
pub mod Pick
pub mod Run
mod Tests
use minx.Prelude.{
  ℕ, zero, suc, Bool, false, ◌&&◌, ◌==◌, if◌then◌else◌, update, Result, ok, stop, hang,
}
use minx.Prelude.Int.{ℤ, pos, negsuc, ltb_ℤ}
use minx.Const.{nr_proc}
use minx.Kernel.{Kernel}

-- `great_ticks` and the process that `pcb_ptr` points at.
pub record Best : Type 0 where
  pub great_ticks : ℤ
  pub chosen : ℕ

-- One round of the first `for`: process `p` is taken if it may run and has more ticks.
pub consider : Kernel → ℕ → Best → Best
consider k p b =
    if (k.pcb_table p).p_flags == 0 && ltb_ℤ b.great_ticks (k.ticks p)
    then record { great_ticks = k.ticks p; chosen = p }
    else b

-- The first `for`, after the processes below `n`.
pub scan : Kernel → ℕ → Best
scan k zero = record { great_ticks = pos 0; chosen = k.pcb_ptr }
scan k (suc n) = consider k n (scan k n)

-- The second `for`, after the processes below `n`.
pub refill : Kernel → ℕ → ℕ → ℤ
refill k zero = k.ticks
refill k (suc n) = update (refill k n) n (k.priority n)

-- `!great_ticks`
abbrev pub is_zero : ℤ → Bool
is_zero (pos n) = n == 0
is_zero (negsuc n) = false

-- `schedule`: each unit of fuel is one round of the `while`. When no process may run and has a
-- positive priority, the loop is left by no round.
pub schedule : ℕ → Kernel → Result Kernel
schedule zero k = stop hang
schedule (suc fuel) k =
    let rest =
      schedule fuel (record k { pcb_ptr = (scan k nr_proc).chosen; ticks = refill k nr_proc }) in
    if is_zero (scan k nr_proc).great_ticks
    then rest
    else ok (record k { pcb_ptr = (scan k nr_proc).chosen })
