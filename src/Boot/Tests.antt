-- ===== src/Boot/Tests.antt =====
-- The loop of `kernelMain` on an empty table.
use minx.Prelude.{ℕ, ◌≡◌, ok, stop, overrun}
use minx.Prelude.Int.{pos}
use minx.Const.{nr_proc}
use minx.Kernel.{idle_pcb, zero_msg}
use minx.Boot.{Boot, Task, init_from, init_table}
use minx.Boot.Table.{IsReady, init_table-overruns}

abbrev routine : ℕ → Task
routine i = record { eip = 4096; top_of_stack = 8192 }

abbrev empty : Boot
empty = record {
  kernel = record {
    pcb_table = idle_pcb;
    ticks = λ i. pos 0;
    priority = λ i. pos 0;
    pcb_ptr = 0;
    memory = λ i. zero_msg;
    int_re_enter = 0;
    ticks_count = 0;
    key_pressed = 0;
  };
  regs = λ i. record { cs = 0; ds = 0; frame_eip = 0; esp = 0; eflags = 0 };
}

init_table-overruns_example :
    ((b' : Boot) × (init_from routine routine nr_proc 0 empty ≡ ok b') × IsReady routine routine b')
    × (init_table routine routine empty ≡ stop overrun)
init_table-overruns_example = init_table-overruns routine routine empty
