-- ===== src/Clock/Tests.antt =====
-- A clock interrupt while process 0, the terminal task, waits for anyone and a key was pressed.
use minx.Prelude.{◌≡◌, refl, arith, ok}
use minx.Prelude.Int.{pos}
use minx.Kernel.{Kernel}
use minx.Ipc.Samples.{no_queues, listening, listening-IsValid}
use minx.Clock.{clock_handler}
use minx.Clock.Turn.{IsTicked, clock_handler_lem}

-- Process 1 runs and has one tick left.
abbrev pressed : Kernel
pressed = record listening { key_pressed = 1; pcb_ptr = 1; ticks = λ _. pos 1 }

clock_handler_lem_example :
    (k' : Kernel) × (clock_handler pressed ≡ ok k') × IsTicked pressed k' no_queues
clock_handler_lem_example =
    clock_handler_lem {k = pressed} listening-IsValid 1 (omega arith) refl (omega arith)
