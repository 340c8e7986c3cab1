-- ===== src/Fs/Task.antt =====
-- The loop of `task_fs` of fs/main.c: a request is served and answered.
use minx.Prelude.{
  ℕ, ◌==◌, ◌||◌, if◌then◌else◌, Option, none, some, Result, ok, stop, assertion, ◌>>=◌, true, false,
}
use minx.Prelude.Int.{ℤ, pattern_of}
use minx.Kernel.{Message}
use minx.Const.{
  msg_open, msg_close, msg_read, msg_write, msg_unlink, msg_suspend_proc, msg_resume_proc,
  msg_syscall_ret,
}
use minx.Fs.State.{Fs}
use minx.Fs.Open.{do_open, do_close}
use minx.Fs.Rdwt.{do_rdwt}
use minx.Fs.Unlink.{do_unlink}

-- `RETVAL` and `FD`, which are one word of the message.
abbrev pub set_retval : ℤ × Fs → Fs
set_retval (v, s) = record s { fs_msg = record (s.fs_msg) { m3i1 = pattern_of v } }

-- `CNT`
abbrev pub set_cnt : ℤ × Fs → Fs
set_cnt (v, s) = record s { fs_msg = record (s.fs_msg) { m3i2 = pattern_of v } }

module _ (answer : Message → Message) where
  -- The `switch`: the process to answer, and the state.
  unfoldable pub dispatch : Fs → Result (ℕ × Fs)
  dispatch s =
      let m = s.fs_msg in
      if m.type == msg_open
      then (do_open s >>= λ r. ok (m.source, set_retval r))
      else if m.type == msg_close
      then (do_close s >>= λ r. ok (m.source, set_retval r))
      else if m.type == msg_read || m.type == msg_write
      then (do_rdwt answer s >>= λ r. ok (m.source, set_cnt r))
      else if m.type == msg_unlink
      then (do_unlink s >>= λ r. ok (m.source, set_retval r))
      else if m.type == msg_resume_proc
      then ok (m.m3i3, s)
      else stop assertion

  -- One round of the loop, for the message `m`: the receiver of the answer, if there is one, and
  -- the state, whose `fs_msg` is the answer.
  unfoldable pub serve : Message → Fs → Result (Option ℕ × Fs)
  serve m s = do
    (src, s1) ← dispatch (record s { fs_msg = m; pcaller = m.source })
    elim (s1.fs_msg.type == msg_suspend_proc) [
      | true ↦ ok (none, s1)
      | false ↦ ok (some src, record s1 { fs_msg = record (s1.fs_msg) { type = msg_syscall_ret } })
    ]
