-- ===== src/Kernel.antt =====
-- The kernel's state: `MESSAGE` and `PCB` of include/sys/process.h, and the globals of lib/global.c
-- that scheduling and messages use.
use minx.Prelude.{ℕ, Option, none}
use minx.Prelude.Int.{ℤ}
use minx.Const.{no_task}

-- `MESSAGE`: the fields of the union are those of `struct mess3`, the only member in use.
pub record Message : Type 0 where
  pub source : ℕ
  pub type : ℕ
  pub m3i1 : ℕ
  pub m3i2 : ℕ
  pub m3i3 : ℕ
  pub m3i4 : ℕ
  pub m3l1 : ℕ
  pub m3l2 : ℕ
  pub m3p1 : ℕ
  pub m3p2 : ℕ

-- What `memset(p, 0, sizeof(MESSAGE))` leaves.
abbrev pub zero_msg : Message
zero_msg = record {
  source = 0;
  type = 0;
  m3i1 = 0;
  m3i2 = 0;
  m3i3 = 0;
  m3i4 = 0;
  m3l1 = 0;
  m3l2 = 0;
  m3p1 = 0;
  m3p2 = 0;
}

-- The part of `PCB` that scheduling and messages use. A pointer to a `MESSAGE` is an address, 0 for
-- NULL; a pointer into `pcb_table` is an index, `none` for NULL. `ticks` and `priority` are tables
-- of `Kernel`, since `schedule` writes only those.
pub record Pcb : Type 0 where
  pub pid : ℕ
  pub p_flags : ℕ
  pub p_msg : ℕ
  pub p_recvfrom : ℕ
  pub p_sendto : ℕ
  pub has_int_msg : ℕ
  pub q_sending : Option ℕ
  pub next_sending : Option ℕ

-- An entry as `kernelMain` leaves it.
abbrev pub idle_pcb : ℕ → Pcb
idle_pcb i = record {
  pid = i;
  p_flags = 0;
  p_msg = 0;
  p_recvfrom = no_task;
  p_sendto = no_task;
  has_int_msg = 0;
  q_sending = none;
  next_sending = none;
}

-- All processes run in one address space, so a message is read and written where its pointer says.
pub record Kernel : Type 0 where
  pub pcb_table : ℕ → Pcb
  pub ticks : ℕ → ℤ
  pub priority : ℕ → ℤ
  pub pcb_ptr : ℕ
  pub memory : ℕ → Message
  pub int_re_enter : ℕ
  pub ticks_count : ℕ
  pub key_pressed : ℕ
