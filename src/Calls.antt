-- ===== src/Calls.antt =====
-- The calls of lib/system_call.c that ask the file system: `open`, `close`, `read`, `write` and
-- `unlink`. A call sends a message and waits for the answer, which the file system's loop gives in
-- one round.
pub mod Count
mod Tests
use minx.Prelude.{
  ℕ, Bool, ◌==◌, if◌then◌else◌, Option, none, some, Result, ok, stop, hang, check, ◌>>=◌, ◌>>◌,
}
use minx.Prelude.Int.{ℤ, int_of}
use minx.Kernel.{Message}
use minx.Const.{msg_open, msg_close, msg_read, msg_write, msg_unlink, msg_syscall_ret}
use minx.Strings.{strlen}
use minx.Fs.State.{Fs}
use minx.Fs.Task.{serve}

-- `answer` is what the driver of a terminal makes of a message.
module _ (answer : Message → Message) where
  -- What the caller has when `send_recv` returns; a caller that is not answered waits for ever.
  abbrev pub answered : ℕ → Option ℕ × Fs → Result (Message × Fs)
  answered p (none, s) = stop hang
  answered p (some q, s) = if q == p then ok (s.fs_msg, s) else stop hang

  -- `send_recv(BOTH, TASK_FS, &msg)` of the process `p`.
  pub send_recv_fs : ℕ → Message → Fs → Result (Message × Fs)
  send_recv_fs p msg s = do r ← serve answer (record msg { source = p }) s; answered p r

  -- `unset` has the members of the message that a call does not set, and `fuel` is for `strlen`.
  pub open_file : Message → ℕ → ℕ → ℕ → ℕ → Fs → Result (ℤ × Fs)
  open_file unset fuel p pathname flags s = do
    name_len ← strlen fuel s.memory pathname
    (msg, s1) ←
        send_recv_fs p
          (record unset { type = msg_open; m3p1 = pathname; m3i1 = flags; m3i2 = name_len }) s
    check (msg.type == msg_syscall_ret)
    ok (int_of msg.m3i1, s1)

  pub close_file : Message → ℕ → ℕ → Fs → Result (ℤ × Fs)
  close_file unset p fd s = do
    (msg, s1) ← send_recv_fs p (record unset { type = msg_close; m3i1 = fd }) s
    ok (int_of msg.m3i1, s1)

  pub read_file : Message → ℕ → ℕ → ℕ → ℕ → Fs → Result (ℤ × Fs)
  read_file unset p fd buf count s = do
    (msg, s1) ←
        send_recv_fs p (record unset { type = msg_read; m3i1 = fd; m3p2 = buf; m3i2 = count }) s
    ok (int_of msg.m3i2, s1)

  pub write_file : Message → ℕ → ℕ → ℕ → ℕ → Fs → Result (ℤ × Fs)
  write_file unset p fd buf count s = do
    (msg, s1) ←
        send_recv_fs p (record unset { type = msg_write; m3i1 = fd; m3p2 = buf; m3i2 = count }) s
    ok (int_of msg.m3i2, s1)

  pub unlink_file : Message → ℕ → ℕ → ℕ → Fs → Result (ℤ × Fs)
  unlink_file unset fuel p pathname s = do
    name_len ← strlen fuel s.memory pathname
    (msg, s1) ←
        send_recv_fs p (record unset { type = msg_unlink; m3p1 = pathname; m3i2 = name_len }) s
    ok (int_of msg.m3i1, s1)
