-- ===== src/System.antt =====
-- The task `task_sys` of kernel/main.c with the calls that ask it, `getCurrentPid` of
-- lib/system_call.c and `get_ticks_by_message` of lib/kliba.c; `fork`, which asks
-- the memory manager; and the system call `sys_printx`, which writes to a terminal.
pub mod Fails
mod Tests
use minx.Prelude.{
  ℕ, zero, suc, ◌+◌, Bool, ◌&&◌, ◌||◌, ◌==◌, ltb, not, if◌then◌else◌, List, [], ◌∷◌, Result, ok,
  stop, hang, panic, overrun, check, ◌>>=◌, ◌>>◌,
}
use minx.Kernel.{Message, zero_msg}
use minx.Const.{nr_task, msg_syscall_ret, msg_fork}
use minx.Strings.{Bytes}
use minx.Tty.Output.{Display, putchar_c}
use minx.Mm.State.{Platform, Mm}
use minx.Mm.Task.{serve_mm}

-- The message type GET_TICKS.
abbrev pub msg_get_ticks : ℕ
msg_get_ticks = 2

-- The message type GET_PID.
abbrev pub msg_get_pid : ℕ
msg_get_pid = 3

-- One round of the loop of `task_sys`: the answer to the sender of `msg`.
unfoldable pub serve_sys : ℕ → Message → Result Message
serve_sys ticks_count msg =
    if msg.type == msg_get_ticks
    then ok (record msg { m3i1 = ticks_count })
    else if msg.type == msg_get_pid
    then ok (record msg { type = msg_syscall_ret; m3i2 = msg.source })
    else stop panic

-- `getCurrentPid` of process `p`; `unset` has the members of the message that the call does not set.
unfoldable pub get_current_pid : Message → ℕ → ℕ → Result ℕ
get_current_pid unset p ticks_count = do
  msg ← serve_sys ticks_count (record unset { type = msg_get_pid; source = p })
  check (msg.type == msg_syscall_ret)
  ok msg.m3i2

unfoldable pub get_ticks_by_message : ℕ → ℕ → Result ℕ
get_ticks_by_message p ticks_count = do
  msg ← serve_sys ticks_count (record zero_msg { type = msg_get_ticks; source = p })
  ok msg.m3i1

-- What process `p` has when its `send_recv` to the memory manager returns: the last message sent, if it
-- is for `p`; else `p` waits for ever.
abbrev pub received : ℕ → List (ℕ × Message) → Result Message
received p [] = stop hang
received p ((dest, msg) ∷ sent) = if dest == p then ok msg else stop hang

-- `fork` of process `p`.
unfoldable pub fork_process : Platform → ℕ → ℕ → Message → ℕ → Mm → Result (ℕ × Mm)
fork_process pl fuel fmt unset p s = do
  s1 ← serve_mm pl fuel fmt (record unset { type = msg_fork; source = p }) s
  msg ← received p s1.sent
  check (msg.type == msg_syscall_ret)
  check (msg.m3i1 == 0)
  ok (msg.m3i2, s1)

-- MAG_CH_PANIC and MAG_CH_ASSERT
abbrev pub mag_ch_panic : ℕ
mag_ch_panic = 1

abbrev pub mag_ch_assert : ℕ
mag_ch_assert = 2

-- The first `while` of `sys_printx`: every character up to the zero.
unfoldable pub print_all : ℕ → ℕ → ℕ → Display → Result Display
print_all zero n p d = stop hang
print_all (suc fuel) n p d =
    let rest = print_all fuel n (p + 1) (putchar_c n (d.mem p) d) in
    if d.mem p == 0 then ok d else rest

abbrev pub is_magic : ℕ → Bool
is_magic ch = ch == mag_ch_panic || ch == mag_ch_assert

-- The second: the magic characters are skipped.
unfoldable pub print_plain : ℕ → ℕ → ℕ → Display → Result Display
print_plain zero n p d = stop hang
print_plain (suc fuel) n p d =
    let ch = d.mem p in
    let rest = print_plain fuel n (p + 1) (if is_magic ch then d else putchar_c n ch d) in
    if ch == 0 then ok d else rest

-- `sys_printx` of process `pid` on its terminal `n`, for a text at `s`. After a panic, or a failed
-- assertion of a task, the text is printed and the processor halts. `Int_reEnter` has no sign, so the
-- test of it is always true.
unfoldable pub sys_printx : ℕ → ℕ → ℕ → ℕ → Display → Result Display
sys_printx fuel n pid s d =
    if d.mem s == mag_ch_panic || (d.mem s == mag_ch_assert && ltb pid nr_task)
    then (print_all fuel n (s + 1) d >>= λ shown. stop panic)
    else print_plain fuel n s d
