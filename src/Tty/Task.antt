-- ===== src/Tty/Task.antt =====
-- The task of the terminals: the loop of `task_tty` and what it calls, `clear`, and the printing of
-- `sys_printx` of lib/system_call.c. The keys that `tty_dev_read` has decoded come through
-- `in_process`.
use minx.Prelude.{
  ℕ, zero, suc, ◌+◌, ◌-◌, ◌%◌, Bool, not, ◌&&◌, ◌||◌, ◌==◌, leb, if◌then◌else◌, update, min, List,
  [], ◌∷◌, Result, ok, stop, hang, check, ◌>>◌, ◌>>=◌,
}
use minx.Kernel.{Message, zero_msg}
use minx.Const.{
  task_tty, hard_int, msg_dev_open, msg_dev_read, msg_dev_write, msg_syscall_ret, msg_suspend_proc,
  msg_resume_proc,
}
use minx.Strings.{Bytes}
use minx.Tty.{Tty, nr_tty_buf}
use minx.Tty.Output.{Display, cell, putchar_c}

-- The display, the messages sent with their receivers, the last first, and `key_pressed`.
pub record TtyState : Type 0 where
  pub display : Display
  pub sent : List (ℕ × Message)
  pub key_pressed : ℕ

abbrev pub tty_at : ℕ → Display → Tty
tty_at n d = d.terminals.tty_table n

abbrev pub set_tty : ℕ → Tty → Display → Display
set_tty n t d = record d {
  terminals = record (d.terminals) { tty_table = update d.terminals.tty_table n t };
}

abbrev pub put : ℕ → ℕ → TtyState → TtyState
put n c s = record s { display = putchar_c n c s.display }

abbrev pub send_to : ℕ → Message → TtyState → TtyState
send_to dest m s = record s { sent = (dest, m) ∷ s.sent }

unfoldable pub tty_do_read : ℕ → Message → TtyState → TtyState
tty_do_read n msg s =
    let t = record (tty_at n s.display) {
      tty_caller = msg.source;
      tty_procnr = msg.m3i3;
      tty_req_buf = msg.m3p2;
      tty_left_cnt = msg.m3i2;
      tty_trans_cnt = 0;
    } in
    send_to msg.source (record msg { type = msg_suspend_proc; m3i2 = msg.m3i2 })
      (record s { display = set_tty n t s.display })

-- The `for` over the characters of `buf`.
unfoldable pub put_all : ℕ → List ℕ → TtyState → TtyState
put_all n [] s = s
put_all n (c ∷ cs) s = put_all n cs (put n c s)

-- `bytes` bytes of the memory from `p` on.
abbrev pub bytes_at : ℕ → ℕ → Bytes → List ℕ
bytes_at zero p m = []
bytes_at (suc bytes) p m = m p ∷ bytes_at bytes (p + 1) m

-- TTY_OUT_BUF_LEN
abbrev pub tty_out_buf_len : ℕ
tty_out_buf_len = 2

-- The `while` of `tty_do_write`, for `i` characters that are left.
unfoldable pub write_loop : ℕ → ℕ → ℕ → ℕ → TtyState → Result TtyState
write_loop zero n p i s = stop hang
write_loop (suc fuel) n p i s =
    let bytes = min tty_out_buf_len i in
    let rest =
      write_loop fuel n (p + bytes) (i - bytes) (put_all n (bytes_at bytes p s.display.mem) s) in
    if i == 0 then ok s else rest

unfoldable pub tty_do_write : ℕ → ℕ → Message → TtyState → Result TtyState
tty_do_write fuel n msg s = do
  s1 ← write_loop fuel n msg.m3p2 msg.m3i2 s
  ok (send_to msg.source (record msg { type = msg_syscall_ret }) s1)

-- The terminal without the key at the tail.
abbrev pub taken : Tty → Tty
taken t = record t {
  ibuf_tail = if t.ibuf_tail + 1 == nr_tty_buf then 0 else t.ibuf_tail + 1;
  ibuf_cnt = t.ibuf_cnt - 1;
}

abbrev pub is_shown : ℕ → Bool
is_shown ch = leb b' ' ch && leb ch b'~'

-- The first `if` on the character: it is shown and stored, or takes one back.
unfoldable pub transfer_char : ℕ → ℕ → TtyState → TtyState
transfer_char n ch s =
    let t = tty_at n s.display in
    if is_shown ch
    then (let d = putchar_c n ch s.display in
        let t' = record (tty_at n d) {
          tty_trans_cnt = t.tty_trans_cnt + 1;
          tty_left_cnt = t.tty_left_cnt - 1;
        } in
        let d' = record d { mem = update d.mem (t.tty_req_buf + t.tty_trans_cnt) ch } in
        record s { display = set_tty n t' d' })
    else if ch == 8 && not (t.tty_trans_cnt == 0)
    then (let d = putchar_c n ch s.display in
        let t' = record (tty_at n d) {
          tty_trans_cnt = t.tty_trans_cnt - 1;
          tty_left_cnt = t.tty_left_cnt + 1;
        } in
        record s { display = set_tty n t' d })
    else s

-- The message that lets the reader go on.
abbrev pub resume_msg : Message → Tty → Message
resume_msg unset t = record unset {
  type = msg_resume_proc;
  m3i3 = t.tty_procnr;
  m3i2 = t.tty_trans_cnt;
}

-- The second `if`: the line or the request is complete.
unfoldable pub complete : Message → ℕ → ℕ → TtyState → TtyState
complete unset n ch s =
    let t = tty_at n s.display in
    if ch == 10 || t.tty_left_cnt == 0
    then (let d = putchar_c n 10 s.display in
        send_to t.tty_caller (resume_msg unset t)
          (record s { display = set_tty n (record (tty_at n d) { tty_left_cnt = 0 }) d }))
    else s

-- `tty_dev_write`, for the current terminal.
unfoldable pub tty_dev_write : Message → TtyState → TtyState
tty_dev_write unset s =
    let n = s.display.terminals.current_tty in
    let t = tty_at n s.display in
    if t.ibuf_cnt == 0
    then s
    else (let ch = t.ibuf t.ibuf_tail % 256 in
        let s1 = record s { display = set_tty n (taken t) s.display } in
        if t.tty_left_cnt == 0 then s1 else complete unset n ch (transfer_char n ch s1))

-- The `switch` of `task_tty` for a message; an unknown one is only printed.
unfoldable pub serve_tty : ℕ → Message → TtyState → Result TtyState
serve_tty fuel msg s =
    check (not (msg.source == task_tty))
    >> (if msg.type == msg_dev_open
        then ok (send_to msg.source (record zero_msg { type = msg_syscall_ret }) s)
        else if msg.type == msg_dev_read
        then ok (tty_do_read msg.m3i4 msg s)
        else if msg.type == msg_dev_write
        then tty_do_write fuel msg.m3i4 msg s
        else if msg.type == hard_int
        then ok (record s { key_pressed = 0 })
        else ok s)

-- `memset_word` with 0x0720, a blank in white on black.
unfoldable pub blank : ℕ → ℕ → Bytes → Bytes
blank zero v m = m
blank (suc words) v m = blank words (v + 2) (update (update m v 0x20) (v + 1) 7)

-- `clear`: the console shows its first cells, which are blank.
unfoldable pub clear : Display → Display
clear d =
    let n = d.terminals.current_tty in
    let t = tty_at n d in
    let c = t.p_console in
    let c' = record c { cursor = c.original_addr; current_start_addr = c.original_addr } in
    record (set_tty n (record t { p_console = c' }) d) {
      mem = blank c.v_mem_limit (cell c.original_addr) d.mem;
    }
