-- ===== src/Keyboard.antt =====
-- The keyboard of lib/keyboard.c: the buffer of scan codes, and the decoder that makes keys of them.
-- `set_leds` only talks to the keyboard controller and is left out.
pub mod Keys
pub mod Keymap
pub mod Buffer
pub mod Queue
pub mod Decode
mod Tests
use minx.Prelude.{
  ℕ, ◌+◌, ◌-◌, Bool, true, false, not, ◌&&◌, ◌||◌, ◌==◌, ltb, leb, if◌then◌else◌, update, bit_and,
  bit_or, List, [], ◌∷◌, Option, none, some, Result, ok, stop, hang, ◌>>=◌,
}
use minx.Kernel.{Kernel}

abbrev pub ke_in_count : ℕ
ke_in_count = 32

-- `KB_BUF`, with indices into `buf` for the two pointers.
pub record KbBuf : Type 0 where
  pub p_usable : ℕ
  pub p_pending : ℕ
  pub count : ℕ
  pub buf : ℕ → ℕ

-- The keys that are held down and the locks that are on.
pub record Held : Type 0 where
  pub code_with_e0 : Bool
  pub has_shift_l : Bool
  pub has_shift_r : Bool
  pub has_alt_l : Bool
  pub has_alt_r : Bool
  pub has_ctrl_l : Bool
  pub has_ctrl_r : Bool
  pub has_caps_lock : Bool
  pub has_num_lock : Bool
  pub has_scroll_lock : Bool

-- An increment of a pointer into `buf`, back to the start at the end.
abbrev pub advance : ℕ → ℕ
advance i = if i + 1 == ke_in_count then 0 else i + 1

-- What `keyboard_handler` does to the buffer.
pub put_scan_code : ℕ → KbBuf → KbBuf
put_scan_code scan_code b =
    if ltb b.count ke_in_count
    then record b {
      buf = update b.buf b.p_usable scan_code;
      p_usable = advance b.p_usable;
      count = b.count + 1;
    }
    else b

-- The keyboard interrupt.
pub keyboard_handler : ℕ → KbBuf → Kernel → KbBuf × Kernel
keyboard_handler scan_code b k = (put_scan_code scan_code b, record k { key_pressed = 1 })

-- With nothing in the buffer the loop waits for an interrupt: no code is left to read.
pub get_scan_code_from_kb_buf : KbBuf → Result (ℕ × KbBuf)
get_scan_code_from_kb_buf b =
    if b.count == 0
    then stop hang
    else ok (b.buf b.p_pending, record b { p_pending = advance b.p_pending; count = b.count - 1 })

-- What `init_keyboard` leaves, over what the buffer held.
pub init_buf : KbBuf → KbBuf
init_buf b = record b { p_usable = 0; p_pending = 0; count = 0 }

abbrev pub init_held : Held
init_held = record {
  code_with_e0 = false;
  has_shift_l = false;
  has_shift_r = false;
  has_alt_l = false;
  has_alt_r = false;
  has_ctrl_l = false;
  has_ctrl_r = false;
  has_caps_lock = false;
  has_num_lock = true;
  has_scroll_lock = false;
}
