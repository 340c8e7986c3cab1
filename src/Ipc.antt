-- ===== src/Ipc.antt =====
-- Messages between processes: `inform_int` of kernel/ipc.c and `sys_sendrec` of lib/system_call.c. A
-- pointer into `pcb_table` is an index; each `assert` is a `check`. `msg_send` and `msg_receive` are
-- in Ipc/Send and Ipc/Recv, the proofs in the other child modules.
pub mod Base
pub mod Send
pub mod Recv
pub mod State
pub mod Chain
pub mod Waiting
pub mod Queue
pub mod Update
pub mod Deliver
pub mod Append
pub mod Link
pub mod Enqueue
pub mod Wait
pub mod Taken
pub mod Unlink
pub mod Take
pub mod Receive
pub mod Outcome
pub mod Interrupt
pub mod Pending
pub mod Steps
pub mod Samples
mod Tests
use minx.Prelude.{
  ℕ, zero, suc, ◌+◌, ◌-◌, Bool, true, false, not, ◌&&◌, ◌||◌, ◌==◌, ltb, if◌then◌else◌, update,
  Option, none, some, Result, ok, stop, hang, panic, check, has_flag, clear_flag, bit_or, ◌>>=◌,
  ◌>>◌,
}
use minx.Const.{nr_proc, any, interrupt, no_task, sending, receiving, send, receive, hard_int}
use minx.Kernel.{Pcb, Kernel, zero_msg}
use minx.Sched.{schedule}
use minx.Ipc.Base.{set_pcb, unblock}
use minx.Ipc.Recv.{msg_receive}
use minx.Ipc.Send.{msg_send}

pub inform_int : ℕ → Kernel → Result Kernel
inform_int task_nr k =
    let p = k.pcb_table task_nr in
    if has_flag p.p_flags receiving && (p.p_recvfrom == interrupt || p.p_recvfrom == any)
    then (do
      let m = record (k.memory p.p_msg) { source = interrupt; type = hard_int }
      let p' = record p {
        p_msg = 0;
        has_int_msg = 0;
        p_flags = clear_flag p.p_flags receiving;
        p_recvfrom = no_task;
      }
      let k' = set_pcb (record k { memory = update k.memory p.p_msg m }) task_nr p'
      check (p'.p_flags == 0)
      unblock task_nr k'
      check (p'.p_flags == 0)
      check (p'.p_msg == 0)
      check (p'.p_recvfrom == no_task)
      check (p'.p_sendto == no_task)
      ok k')
    else ok (set_pcb k task_nr (record p { has_int_msg = 1 }))

-- `sendrec` in the kernel, called by process `p`.
pub sys_sendrec : ℕ → ℕ → ℕ → ℕ → Kernel → Result Kernel
sys_sendrec ipc_type dest m p k = do
  check (k.int_re_enter == 0)
  check (ltb dest nr_proc || dest == any || dest == interrupt)
  let caller = (k.pcb_table p).pid
  let k' = record k { memory = update k.memory m (record (k.memory m) { source = caller }) }
  check (not (caller == dest))
  if ipc_type == send
      then msg_send p dest m k'
      else if ipc_type == receive
      then msg_receive p dest m k'
      else stop panic
