-- ===== src/Tty.antt =====
-- The terminals of kernel/tty.c: what a key does to the buffer and to the screen of a terminal, and in
-- the children what is written to a terminal and the loop of its task. The
-- writes to the display controller are left out; its start address is that of the console.
pub mod Screen
pub mod Output
pub mod Task
mod Cells
mod Reading
mod Tests
use minx.Prelude.{
  ℕ, suc, ◌+◌, ◌-◌, ◌*◌, ◌/◌, ◌%◌, ◌^◌, Bool, not, ◌&&◌, ◌||◌, ◌==◌, ltb, leb, if◌then◌else◌,
  update, bit_and, has_flag, clear_flag, bit_or, Result, ok, stop, overrun, ◌>>=◌,
}
use minx.Keyboard.Keys.{
  flag_ext, flag_shift_l, flag_shift_r, flag_ctrl_l, flag_ctrl_r, pageup, pagedown, f1, f12,
}

abbrev pub nr_tty : ℕ
nr_tty = 2

abbrev pub nr_tty_buf : ℕ
nr_tty_buf = 4096

-- V_MEM_SIZE
abbrev pub v_mem_size : ℕ
v_mem_size = 0x8000

-- `CONSOLE`; its last two fields are not used.
pub record Console : Type 0 where
  pub original_addr : ℕ
  pub current_start_addr : ℕ
  pub v_mem_limit : ℕ
  pub cursor : ℕ

-- `TTY`, with indices into `ibuf` for the head and the tail. A key writes the buffer only.
pub record Tty : Type 0 where
  pub ibuf : ℕ → ℕ
  pub ibuf_head : ℕ
  pub ibuf_tail : ℕ
  pub ibuf_cnt : ℕ
  pub tty_caller : ℕ
  pub tty_procnr : ℕ
  pub tty_req_buf : ℕ
  pub tty_left_cnt : ℕ
  pub tty_trans_cnt : ℕ
  pub p_console : Console

-- A key that `in_process` puts in the buffer: no function key, and no modifier but shift.
abbrev pub is_printable : ℕ → Bool
is_printable key = not (
    has_flag key flag_ext
    || not (clear_flag key (bit_or (bit_or flag_shift_l flag_shift_r) 0xff) == 0))

-- The terminal with a key written at the head, which is compared with the end before it moves on.
abbrev pub written : ℕ → Tty → Tty
written key t = record t {
  ibuf = update t.ibuf t.ibuf_head key;
  ibuf_head = if t.ibuf_head == nr_tty_buf then 0 else t.ibuf_head + 1;
  ibuf_cnt = t.ibuf_cnt + 1;
}

-- `in_process` with such a key. With the head at the end the write is one past the buffer.
pub put_key : ℕ → Tty → Result Tty
put_key key t =
    if ltb t.ibuf_cnt nr_tty_buf
    then (if ltb t.ibuf_head nr_tty_buf then ok (written key t) else stop overrun)
    else ok t

-- The case PAGEUP.
pub page_up : Console → Console
page_up c =
    if leb 80 c.current_start_addr
    then (if ltb (c.current_start_addr - 80) c.original_addr
        then record c { current_start_addr = c.current_start_addr - 80 + 80 }
        else record c { current_start_addr = c.current_start_addr - 80 })
    else c

-- The case PAGEDOWN, on 32 bits.
pub page_down : Console → Console
page_down c =
    let next = (c.current_start_addr + 80) % 2 ^ 32 in
    if ltb ((c.original_addr + c.v_mem_limit) % 2 ^ 32) ((next + 80 * 25) % 2 ^ 32)
    then record c { current_start_addr = (next + 2 ^ 32 - 80) % 2 ^ 32 }
    else record c { current_start_addr = next }

-- `init_screen` of terminal `tty_ntr`, with the cursor that the controller reports.
pub init_screen : ℕ → ℕ → Console
init_screen tty_ntr read_cursor =
    let con_v_mem_size = v_mem_size / 2 / nr_tty in
    record {
      original_addr = tty_ntr * con_v_mem_size;
      current_start_addr = tty_ntr * con_v_mem_size;
      v_mem_limit = con_v_mem_size;
      cursor = if tty_ntr == 0 then read_cursor else tty_ntr * con_v_mem_size;
    }

-- `tty_table`, and the index of `current_tty`.
pub record Terminals : Type 0 where
  pub tty_table : ℕ → Tty
  pub current_tty : ℕ

abbrev pub current : Terminals → Tty
current t = t.tty_table t.current_tty

abbrev pub set_current : Terminals → Tty → Terminals
set_current t v = record t { tty_table = update t.tty_table t.current_tty v }

pub switch_console : ℕ → Terminals → Terminals
switch_console num t = if ltb num nr_tty then record t { current_tty = num } else t

-- The cases F1 to F12, for the key without its flags.
pub function_key : ℕ → ℕ → Terminals → Terminals
function_key key code t =
    if (has_flag key flag_ctrl_l || has_flag key flag_ctrl_r) && not (code - f1 == t.current_tty)
    then switch_console (code - f1) t
    else t

-- The `switch`, for the key without its flags.
pub control_key : ℕ → ℕ → Terminals → Terminals
control_key key code t =
    let c = (current t).p_console in
    if code == pageup
    then set_current t (record (current t) { p_console = page_up c })
    else if code == pagedown
    then set_current t (record (current t) { p_console = page_down c })
    else if leb f1 code && leb code f12
    then function_key key code t
    else t

pub in_process : ℕ → Terminals → Result Terminals
in_process key t =
    if is_printable key
    then (do v ← put_key key (current t); ok (set_current t v))
    else ok (control_key key (bit_and key 0x1ff) t)
