-- ===== src/History.antt =====
-- The kernel as a transition system: system calls, clock and keyboard interrupts, and the work of
-- the processes between them, in any order.
mod Tests
use minx.Prelude.{ℕ, ◌<◌, ◌≡◌, List, ok}
use minx.Prelude.Int.{pos, ◌≤ℤ◌}
use minx.Const.{nr_proc, send}
use minx.Kernel.{Message, Kernel}
use minx.Sched.Pick.{CanRun}
use minx.Ipc.{sys_sendrec}
use minx.Ipc.State.{IsValid}
use minx.Ipc.Steps.{CanCall, Keeps, ok-same, sys_sendrec-Keeps}
use minx.Clock.{clock_handler}
use minx.Clock.Turn.{clock_handler_lem, IsTicked}

-- `system_call`: the process that runs calls `sendrec`, and does not send to ANY or INTERRUPT, which
-- the code does not refuse and would write outside of the table. `clock`: `clock_handler`, where some
-- process may run. `key`: `keyboard_handler` says that a key was pressed. `compute`: the process that
-- runs writes to memory, and the terminal task may have seen the key.
pub data Step (k : Kernel) : Kernel → Type 0 where
  system_call :
      {ipc_type dest m : ℕ} {k' : Kernel}
      → CanCall k k.pcb_ptr m
      → (ipc_type ≡ send → dest < nr_proc)
      → sys_sendrec ipc_type dest m k.pcb_ptr k ≡ ok k'
      → Step k k'
  clock :
      {w : ℕ} {k' : Kernel}
      → w < nr_proc
      → CanRun k w
      → pos 1 ≤ℤ k.priority w
      → clock_handler k ≡ ok k'
      → Step k k'
  key : Step k (record k { key_pressed = 1 })
  compute :
      (memory : ℕ → Message) (seen : ℕ) → Step k (record k { memory = memory; key_pressed = seen })

-- Steps one after another.
pub data Steps : Kernel → Kernel → Type 0 where
  done : {k : Kernel} → Steps k k
  next : {k j k' : Kernel} → Step k j → Steps j k' → Steps k k'

Step-Keeps : {k k' : Kernel} → Step k k' → Keeps k → Keeps k'
Step-Keeps (system_call c to run) (q, v) = sys_sendrec-Keeps v _ _ _ _ c to run
Step-Keeps {k} {k'} (clock {w} h r pr run) (q, v) =
    let (j, e, d) = clock_handler_lem {k = k} v w h r pr in ok-same j k' _ e run (q, d.valid)
Step-Keeps key (q, v) = (q, v)
Step-Keeps (compute memory seen) (q, v) = (q, v)

-- Whatever steps follow each other (calls of `sys_sendrec` that return, by the process that runs,
-- with a buffer and while another of positive priority may run, where the target of a SEND is a
-- process of the table and not ANY or INTERRUPT; clock interrupts while some process may run whose
-- priority is positive; keyboard interrupts; writes to memory), a kernel that starts with a
-- well-formed table keeps one: every process is ready, sends or receives, the linked sending queues
-- hold just the processes that send, each once, and the chains of processes that wait to send end.
pub Steps-Keeps : {k k' : Kernel} → Steps k k' → Keeps k → Keeps k'
Steps-Keeps done v = v
Steps-Keeps (next s rest) v = Steps-Keeps rest (Step-Keeps s v)
