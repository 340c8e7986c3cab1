-- ===== src/Ipc/Recv.antt =====
-- `msg_receive` of kernel/ipc.c. A pointer into `pcb_table` is an index; each `assert` is a `check`.
use minx.Prelude.{
  ℕ, zero, suc, ◌+◌, ◌-◌, Bool, true, false, not, ◌&&◌, ◌||◌, ◌==◌, ltb, if◌then◌else◌, update,
  Option, none, some, Result, ok, stop, hang, panic, check, has_flag, clear_flag, bit_or, ◌>>=◌,
  ◌>>◌,
}
use minx.Const.{nr_proc, any, interrupt, no_task, sending, receiving, hard_int}
use minx.Kernel.{Kernel, zero_msg}
use minx.Ipc.Base.{set_pcb, is_null, is_some_of, block, unblock}

-- `msg_receive` where an interrupt is pending.
unfoldable pub take_interrupt : ℕ → ℕ → Kernel → Result Kernel
take_interrupt receiver m k = do
  check (not (m == 0))
  let k' =
      set_pcb
        (record k {
          memory = update k.memory m (record zero_msg { source = interrupt; type = hard_int });
        })
        receiver (record (k.pcb_table receiver) { has_int_msg = 0 })
  let r = k'.pcb_table receiver
  check (r.p_flags == 0)
  check (r.p_msg == 0)
  check (r.p_sendto == no_task)
  check (r.has_int_msg == 0)
  ok k'

-- The assertions on both sides of a message that is about to be copied.
unfoldable pub check_sides : ℕ → ℕ → Kernel → Result (Unit {0})
check_sides receiver sender k = do
  let r = k.pcb_table receiver
  let s = k.pcb_table sender
  check (r.p_flags == 0)
  check (r.p_msg == 0)
  check (r.p_recvfrom == no_task)
  check (r.p_sendto == no_task)
  check (not (is_null r.q_sending))
  check (s.p_flags == sending)
  check (not (s.p_msg == 0))
  check (s.p_recvfrom == no_task)
  check (s.p_sendto == r.pid)

-- The `while` that looks for `sender_pid` in the queue, at `p`: the entry before it.
unfoldable pub find_prev : ℕ → ℕ → Option ℕ → Option ℕ → Kernel → Result (Option ℕ)
find_prev zero sender_pid prev p k = stop hang
find_prev (suc fuel) sender_pid prev none k = ok prev
find_prev (suc fuel) sender_pid prev (some p) k =
    let rest = find_prev fuel sender_pid (some p) (k.pcb_table p).next_sending k in
    do
      check (has_flag (k.pcb_table sender_pid).p_flags sending)
      if (k.pcb_table p).pid == sender_pid then ok prev else rest

-- Remove `sender` from the queue of `receiver`, where `prev` is the entry before it.
unfoldable pub remove_sender : ℕ → ℕ → Option ℕ → Kernel → Result Kernel
remove_sender receiver sender prev k =
    let next = (k.pcb_table sender).next_sending in
    if is_some_of sender (k.pcb_table receiver).q_sending
    then (do
      check (is_null prev)
      let k' = set_pcb k receiver (record (k.pcb_table receiver) { q_sending = next })
      ok (set_pcb k' sender (record (k'.pcb_table sender) { next_sending = none })))
    else elim prev [
      | none ↦ stop minx.Prelude.assertion
      | some p ↦
          let k' = set_pcb k p (record (k.pcb_table p) { next_sending = next }) in
          ok (set_pcb k' sender (record (k'.pcb_table sender) { next_sending = none }))
    ]

-- The copy from `sender`, which is no longer in the queue.
unfoldable pub copy_message : ℕ → ℕ → Kernel → Result Kernel
copy_message sender m k = do
  check (not (m == 0))
  let s = k.pcb_table sender
  check (not (s.p_msg == 0))
  let k' =
      set_pcb (record k { memory = update k.memory m (k.memory s.p_msg) }) sender
        (record s { p_msg = 0; p_sendto = no_task; p_flags = clear_flag s.p_flags sending })
  unblock sender k'
  ok k'

-- `msg_receive` with `copyok` set.
unfoldable pub take_message : ℕ → ℕ → Option ℕ → ℕ → Kernel → Result Kernel
take_message receiver sender prev m k = do
  k' ← remove_sender receiver sender prev k
  copy_message sender m k'

-- The last part of `msg_receive` where nobody is sending: the receiver gives up the processor.
unfoldable pub block_receiver : ℕ → Kernel → Result Kernel
block_receiver receiver k = do
  k' ← block receiver k
  let r = k'.pcb_table receiver
  check (r.p_flags == receiving)
  check (not (r.p_msg == 0))
  check (not (r.p_recvfrom == no_task))
  check (r.p_sendto == no_task)
  check (r.has_int_msg == 0)
  ok k'

-- `msg_receive` where nobody is sending.
unfoldable pub await_message : ℕ → ℕ → ℕ → Kernel → Result Kernel
await_message receiver sender_pid m k =
    let r = k.pcb_table receiver in
    block_receiver receiver (
      set_pcb k receiver
        (record r { p_flags = bit_or r.p_flags receiving; p_msg = m; p_recvfrom = sender_pid }))

-- `msg_receive` from the one process `sender_pid`.
unfoldable pub receive_from : ℕ → ℕ → ℕ → Kernel → Result Kernel
receive_from receiver sender_pid m k =
    let r = k.pcb_table receiver in
    let s = k.pcb_table sender_pid in
    if has_flag s.p_flags sending && (s.p_sendto == r.pid)
    then (do
      check (not (is_null r.q_sending))
      prev ← find_prev (suc (suc nr_proc)) sender_pid none r.q_sending k
      check_sides receiver sender_pid k
      take_message receiver sender_pid prev m k)
    else await_message receiver sender_pid m k

-- `msg_receive` from any process: the first in the queue.
unfoldable pub receive_any : ℕ → ℕ → Kernel → Result Kernel
receive_any receiver m k = elim (k.pcb_table receiver).q_sending [
  | none ↦ await_message receiver any m k
  | some sender ↦ do check_sides receiver sender k; take_message receiver sender none m k
]

unfoldable pub msg_receive : ℕ → ℕ → ℕ → Kernel → Result Kernel
msg_receive receiver sender_pid m k = do
  let r = k.pcb_table receiver
  check (not (r.pid == sender_pid))
  if not (r.has_int_msg == 0) && (sender_pid == any || sender_pid == interrupt)
      then take_interrupt receiver m k
      else if sender_pid == any
      then receive_any receiver m k
      else if ltb sender_pid nr_proc
      then receive_from receiver sender_pid m k
      else await_message receiver sender_pid m k
