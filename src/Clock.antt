-- ===== src/Clock.antt =====
-- The clock interrupt, `clock_handler` of lib/clock.c. Its proofs are in the child modules.
pub mod Turn
mod Tests
use minx.Prelude.{ℕ, zero, suc, ◌+◌, ◌%◌, ◌^◌, ◌==◌, not, if◌then◌else◌, update, Result, ok, ◌>>=◌}
use minx.Prelude.Int.{ℤ, pos, negsuc, ltb_ℤ}
use minx.Const.{task_tty}
use minx.Kernel.{Kernel}
use minx.Sched.{schedule}
use minx.Ipc.{inform_int}

-- `ticks--`
abbrev pub pred_ℤ : ℤ → ℤ
pred_ℤ (pos zero) = negsuc 0
pred_ℤ (pos (suc n)) = pos n
pred_ℤ (negsuc n) = negsuc (suc n)

-- The first two lines: `ticksCount++` on 32 bits, and a tick of the process that runs.
abbrev pub count_tick : Kernel → Kernel
count_tick k = record k {
  ticks_count = (k.ticks_count + 1) % 2 ^ 32;
  ticks = update k.ticks k.pcb_ptr (pred_ℤ (k.ticks k.pcb_ptr));
}

-- The second part: a terminal task that waits for a key is told.
pub tell_tty : Kernel → Result Kernel
tell_tty k = if not (k.key_pressed == 0) then inform_int task_tty k else ok k

-- The last part: a process whose ticks are used up gives its place to another.
pub take_turn : Kernel → Result Kernel
take_turn k =
    if not (k.int_re_enter == 0)
    then ok k
    else if ltb_ℤ (pos 0) (k.ticks k.pcb_ptr)
    then ok k
    else schedule 2 k

pub clock_handler : Kernel → Result Kernel
clock_handler k = do told ← tell_tty (count_tick k); take_turn told
