-- ===== src/Tty/Reading.antt =====
-- A read from a terminal: what `tty_dev_write` does for it with a key of the buffer.
use minx.Prelude.{ℕ, ◌+◌, ◌-◌, ◌≤◌, ◌<◌, ◌≡◌, ◌≢◌, ◌⊎◌, ◌∷◌}
use minx.Kernel.{Message}
use minx.Const.{msg_resume_proc}
use minx.Tty.{Tty}
use minx.Tty.Output.{Display, putchar_c}
use minx.Tty.Task.{TtyState, tty_at}

-- The terminal `t'` has the reader and the key buffer of `t`, and has moved `moved` characters for the
-- reader, with `left` left.
pub record Serves (t : Tty) (moved left : ℕ) (t' : Tty) : Type 0 where
  pub caller : t'.tty_caller ≡ t.tty_caller
  pub procnr : t'.tty_procnr ≡ t.tty_procnr
  pub req_buf : t'.tty_req_buf ≡ t.tty_req_buf
  pub ibuf_cnt : t'.ibuf_cnt ≡ t.ibuf_cnt
  pub ibuf_tail : t'.ibuf_tail ≡ t.ibuf_tail
  pub trans : t'.tty_trans_cnt ≡ moved
  pub left_cnt : t'.tty_left_cnt ≡ left

-- What the character `ch` does to the request of `t`: the memory and the terminal in `d'`.
pub data Transferred (n ch : ℕ) (t : Tty) (d d' : Display) : Type 0 where
  -- A printable one is shown and stored behind those that were moved before.
  shown :
      32 ≤ ch
      → ch ≤ 126
      → d'.mem (t.tty_req_buf + t.tty_trans_cnt) ≡ ch
      → ((a : ℕ) → t.tty_req_buf + t.tty_trans_cnt ≢ a → d'.mem a ≡ (putchar_c n ch d).mem a)
      → Serves t (t.tty_trans_cnt + 1) (t.tty_left_cnt - 1) (tty_at n d')
      → Transferred n ch t d d'
  -- A backspace takes back the last one that was moved.
  erased :
      ch ≡ 8
      → 0 < t.tty_trans_cnt
      → d'.mem ≡ (putchar_c n 8 d).mem
      → Serves t (t.tty_trans_cnt - 1) (t.tty_left_cnt + 1) (tty_at n d')
      → Transferred n ch t d d'
  -- Any other is left out.
  ignored :
      (ch < 32) ⊎ (126 < ch)
      → (ch ≢ 8) ⊎ (t.tty_trans_cnt ≡ 0)
      → d'.mem ≡ d.mem
      → Serves t t.tty_trans_cnt t.tty_left_cnt (tty_at n d')
      → Transferred n ch t d d'

-- After the character, the request goes on, or a line end or its last character completes it.
pub data Completed (unset : Message) (n ch : ℕ) (s1 s' : TtyState) : Type 0 where
  more : ch ≢ 10 → 0 < (tty_at n s1.display).tty_left_cnt → s' ≡ s1 → Completed unset n ch s1 s'
  done :
      (ch ≡ 10) ⊎ ((tty_at n s1.display).tty_left_cnt ≡ 0)
      → Serves (tty_at n s1.display) (tty_at n s1.display).tty_trans_cnt 0 (tty_at n s'.display)
      → s'.display.mem ≡ (putchar_c n 10 s1.display).mem
      → s'.sent
        ≡ (
          (tty_at n s1.display).tty_caller,
          record unset {
            type = msg_resume_proc;
            m3i3 = (tty_at n s1.display).tty_procnr;
            m3i2 = (tty_at n s1.display).tty_trans_cnt;
          },
        )
          ∷ s1.sent
      → Completed unset n ch s1 s'

-- The terminal after its oldest key is taken.
pub record IsTaken (t t1 : Tty) : Type 0 where
  pub fewer : t1.ibuf_cnt + 1 ≡ t.ibuf_cnt
  pub next :
      (t.ibuf_tail ≡ 4095 → t1.ibuf_tail ≡ 0)
      × (t.ibuf_tail < 4095 → t1.ibuf_tail ≡ t.ibuf_tail + 1)
  pub caller : t1.tty_caller ≡ t.tty_caller
  pub procnr : t1.tty_procnr ≡ t.tty_procnr
  pub req_buf : t1.tty_req_buf ≡ t.tty_req_buf
  pub trans : t1.tty_trans_cnt ≡ t.tty_trans_cnt
  pub left_cnt : t1.tty_left_cnt ≡ t.tty_left_cnt

-- The three stages: `d` has the key taken, `s1` has it transferred.
pub record Progress (unset : Message) (n ch : ℕ) (t : Tty) (s s' : TtyState) : Type 0 where
  pub d : Display
  pub s1 : TtyState
  pub key : IsTaken t (tty_at n d)
  pub mem : d.mem ≡ s.display.mem
  pub transferred : Transferred n ch (tty_at n d) d s1.display
  pub sent : s1.sent ≡ s.sent
  pub completed : Completed unset n ch s1 s'
