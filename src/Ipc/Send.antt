-- ===== src/Ipc/Send.antt =====
-- `deadlock` and `msg_send` of kernel/ipc.c. A pointer into `pcb_table` is an index; each `assert` is a
-- `check`.
use minx.Prelude.{
  ℕ, zero, suc, Bool, true, false, not, ◌&&◌, ◌||◌, ◌==◌, if◌then◌else◌, update, none, some, Result,
  ok, stop, hang, panic, check, has_flag, clear_flag, bit_or, ◌>>=◌, ◌>>◌,
}
use minx.Const.{nr_proc, any, no_task, sending, receiving}
use minx.Kernel.{Pcb, Kernel}
use minx.Ipc.Base.{set_pcb, block, unblock}

-- The `do` loop of `deadlock`, which prints the chain from `p` to `src`.
unfoldable pub print_chain : ℕ → ℕ → ℕ → Kernel → Result (Unit {0})
print_chain zero src p k = stop hang
print_chain (suc fuel) src p k =
    let next = (k.pcb_table p).p_sendto in
    let rest = print_chain fuel src next k in
    do check (not ((k.pcb_table p).p_msg == 0)); if next == src then ok tt else rest

-- The outer loop of `deadlock`, at `p`; `dest` is where it began.
unfoldable pub deadlock_from : ℕ → ℕ → ℕ → ℕ → Kernel → Result Bool
deadlock_from zero src dest p k = stop hang
deadlock_from (suc fuel) src dest p k =
    let next = (k.pcb_table p).p_sendto in
    let rest = deadlock_from fuel src dest next k in
    if has_flag (k.pcb_table p).p_flags sending
    then (if next == src then (do print_chain (suc nr_proc) src dest k; ok true) else rest)
    else ok false

unfoldable pub deadlock : ℕ → ℕ → Kernel → Result Bool
deadlock src dest k = deadlock_from (suc nr_proc) src dest dest k

-- The receiver of a message is waiting for it.
abbrev pub awaits : Pcb → ℕ → Bool
awaits r src = has_flag r.p_flags receiving && (r.p_recvfrom == src || r.p_recvfrom == any)

-- `msg_send` where the receiver is waiting.
unfoldable pub deliver : ℕ → ℕ → ℕ → Kernel → Result Kernel
deliver sender dest m k = do
  let r = k.pcb_table dest
  check (not (r.p_msg == 0))
  check (not (m == 0))
  let r' = record r { p_msg = 0; p_flags = clear_flag r.p_flags receiving; p_recvfrom = no_task }
  let k' = set_pcb (record k { memory = update k.memory r.p_msg (k.memory m) }) dest r'
  let s = k'.pcb_table sender
  unblock dest k'
  check (r'.p_flags == 0)
  check (r'.p_msg == 0)
  check (r'.p_recvfrom == no_task)
  check (r'.p_sendto == no_task)
  check (s.p_flags == 0)
  check (s.p_msg == 0)
  check (s.p_recvfrom == no_task)
  check (s.p_sendto == no_task)
  ok k'

-- The `while` that goes to the end of a sending queue.
unfoldable pub find_last : ℕ → ℕ → Kernel → Result ℕ
find_last zero p k = stop hang
find_last (suc fuel) p k = elim (k.pcb_table p).next_sending [
  | none ↦ ok p
  | some q ↦ find_last fuel q k
]

-- Append `sender` to the sending queue of `dest`.
unfoldable pub append_sender : ℕ → ℕ → Kernel → Result Kernel
append_sender sender dest k = elim (k.pcb_table dest).q_sending [
  | none ↦ ok (set_pcb k dest (record (k.pcb_table dest) { q_sending = some sender }))
  | some first ↦ do
    p ← find_last (suc nr_proc) first k
    ok (set_pcb k p (record (k.pcb_table p) { next_sending = some sender }))
]

-- The first part of the other branch of `msg_send`: the sender joins the sending queue.
unfoldable pub link_sender : ℕ → ℕ → ℕ → Kernel → Result Kernel
link_sender sender dest m k = do
  let flags = bit_or (k.pcb_table sender).p_flags sending
  check (flags == sending)
  let k1 =
      set_pcb k sender (record (k.pcb_table sender) { p_flags = flags; p_sendto = dest; p_msg = m })
  k2 ← append_sender sender dest k1
  ok (set_pcb k2 sender (record (k2.pcb_table sender) { next_sending = none }))

-- The rest of that branch: the sender gives up the processor.
unfoldable pub block_sender : ℕ → ℕ → Kernel → Result Kernel
block_sender sender dest k = do
  k' ← block sender k
  let s = k'.pcb_table sender
  check (s.p_flags == sending)
  check (not (s.p_msg == 0))
  check (s.p_recvfrom == no_task)
  check (s.p_sendto == dest)
  ok k'

-- `msg_send` where the receiver is not waiting.
unfoldable pub enqueue : ℕ → ℕ → ℕ → Kernel → Result Kernel
enqueue sender dest m k = do k' ← link_sender sender dest m k; block_sender sender dest k'

unfoldable pub msg_send : ℕ → ℕ → ℕ → Kernel → Result Kernel
msg_send sender dest m k = do
  let pid = (k.pcb_table sender).pid
  check (not (pid == dest))
  cyclic ← deadlock pid dest k
  if cyclic
      then stop panic
      else if awaits (k.pcb_table dest) pid
      then deliver sender dest m k
      else enqueue sender dest m k
