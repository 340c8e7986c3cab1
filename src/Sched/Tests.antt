-- ===== src/Sched/Tests.antt =====
-- `schedule` at concrete tables: only process 1 may run and has used up its ticks.
use minx.Prelude.{ℕ, ◌≡◌, refl, ◌==◌, if◌then◌else◌, arith, ok, stop, hang}
use minx.Prelude.Int.{pos}
use minx.Const.{nr_proc}
use minx.Kernel.{Kernel, idle_pcb, zero_msg}
use minx.Sched.{schedule}
use minx.Sched.Pick.{CanRun, Exhausted}
use minx.Sched.Run.{IsScheduled, schedule-IsScheduled, schedule-hang}

-- Process 1 may run and has no ticks; the others wait for a message. Every priority is `n`.
abbrev waiting_but_one : ℕ → Kernel
waiting_but_one n = record {
  pcb_table = λ i. record (idle_pcb i) { p_flags = if i == 1 then 0 else 4 };
  ticks = λ i. pos (if i == 1 then 0 else 7);
  priority = λ _. pos n;
  pcb_ptr = 0;
  memory = λ _. zero_msg;
  int_re_enter = 0;
  ticks_count = 0;
  key_pressed = 0;
}

schedule-IsScheduled_example :
    (k' : Kernel) × (schedule 2 (waiting_but_one 30) ≡ ok k') × IsScheduled (waiting_but_one 30) k'
schedule-IsScheduled_example =
    schedule-IsScheduled 0 (waiting_but_one 30) 1 (omega arith) refl (omega arith)

only_one : (n i : ℕ) → CanRun (waiting_but_one n) i → i ≡ 1
only_one n i r = ground (arith, r)

no_ticks : (n : ℕ) → Exhausted (waiting_but_one n) nr_proc
no_ticks n i h r = ground (arith, only_one n i r)

schedule-hang_example : schedule 5 (waiting_but_one 0) ≡ stop hang
schedule-hang_example = schedule-hang 5 (waiting_but_one 0) (no_ticks 0) (λ i h r. omega arith)
