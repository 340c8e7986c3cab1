-- ===== src/Keyboard/Decode.antt =====
-- `keyboard_read` of lib/keyboard.c: scan codes become keys. The key that it passes to `in_process`
-- is its result. Its proofs are in the child modules.
pub mod Release
pub mod Letter
pub mod Read
use minx.Prelude.{
  ℕ, ◌+◌, ◌-◌, Bool, true, false, not, ◌&&◌, ◌||◌, ◌==◌, leb, if◌then◌else◌, bit_and, bit_or, List,
  [], ◌∷◌, Option, none, some, Result, ok, ◌>>=◌,
}
use minx.Keyboard.{KbBuf, Held, get_scan_code_from_kb_buf}
use minx.Keyboard.Keys.{
  flag_shift_l, flag_shift_r, flag_ctrl_l, flag_ctrl_r, flag_alt_l, flag_alt_r, shift_l, shift_r,
  ctrl_l, ctrl_r, alt_l, alt_r, caps_lock, num_lock, scroll_lock, insert, delete, home, end, pageup,
  pagedown, up, down, left, right, pad_slash, pad_star, pad_minus, pad_plus, pad_enter, pad_dot,
  pad_0, pad_9, pad_up, pad_down, pad_left, pad_right, pad_home, pad_end, pad_pageup, pad_pagedown,
  pad_ins,
}
use minx.Keyboard.Keymap.{Row, row_at, keymap}

-- `isMakeCode`: the code of a key that goes down.
abbrev pub is_make_code : ℕ → Bool
is_make_code scan_code = bit_and scan_code 0x80 == 0

-- The shifted column is asked for; the caps lock turns that about for a letter.
abbrev pub caps : Held → Row → Bool
caps h row =
    let shift = h.has_shift_l || h.has_shift_r in
    if h.has_caps_lock && (leb 97 row.plain && leb row.plain 122) then not shift else shift

-- `maps_row[maps_col]`
abbrev pub column : Held → Row → ℕ
column h row =
    if h.code_with_e0 then row.extended else if caps h row then row.shifted else row.plain

-- The first `switch`: a modifier is held while its key is down, and a lock changes when it goes down.
unfoldable pub press : ℕ → Bool → Held → Held
press key make h =
    if key == shift_l
    then record h { has_shift_l = make }
    else if key == shift_r
    then record h { has_shift_r = make }
    else if key == ctrl_l
    then record h { has_ctrl_l = make }
    else if key == ctrl_r
    then record h { has_ctrl_r = make }
    else if key == alt_l
    then record h { has_alt_l = make }
    else if key == alt_r
    then record h { has_alt_r = make }
    else if key == caps_lock
    then (if make then record h { has_caps_lock = not h.has_caps_lock } else h)
    else if key == num_lock
    then (if make then record h { has_num_lock = not h.has_num_lock } else h)
    else if key == scroll_lock
    then (if make then record h { has_scroll_lock = not h.has_scroll_lock } else h)
    else h

-- The innermost `switch`: a key of the pad as a key that moves.
pub pad_move : ℕ → ℕ
pad_move key =
    if key == pad_home
    then home
    else if key == pad_end
    then end
    else if key == pad_pageup
    then pageup
    else if key == pad_pagedown
    then pagedown
    else if key == pad_ins
    then insert
    else if key == pad_up
    then up
    else if key == pad_down
    then down
    else if key == pad_left
    then left
    else if key == pad_right
    then right
    else if key == pad_dot
    then delete
    else key

-- A key of the pad as what it stands for, with the number lock on or off.
pub pad : Bool → ℕ → ℕ
pad num key =
    if leb pad_slash key && leb key pad_9
    then (if key == pad_slash
        then 47
        else if key == pad_star
        then 42
        else if key == pad_minus
        then 45
        else if key == pad_plus
        then 43
        else if key == pad_enter
        then 10
        else if num && (leb pad_0 key && leb key pad_9)
        then key - pad_0 + 48
        else if num && (key == pad_dot)
        then 46
        else pad_move key)
    else key

-- `cond ? flag : 0`
abbrev pub flag_if : Bool → ℕ → ℕ
flag_if held flag = if held then flag else 0

-- The key with a flag for each modifier that is held.
unfoldable pub with_flags : Held → ℕ → ℕ
with_flags h key =
    let k1 = bit_or key (flag_if h.has_shift_l flag_shift_l) in
    let k2 = bit_or k1 (flag_if h.has_shift_r flag_shift_r) in
    let k3 = bit_or k2 (flag_if h.has_ctrl_l flag_ctrl_l) in
    let k4 = bit_or k3 (flag_if h.has_ctrl_r flag_ctrl_r) in
    let k5 = bit_or k4 (flag_if h.has_alt_l flag_alt_l) in
    bit_or k5 (flag_if h.has_alt_r flag_alt_r)

-- `keyboard_read` from `isMakeCode` on: the modifiers, and the key for `in_process`.
pub interpret : ℕ → Held → Held × Option ℕ
interpret scan_code h =
    let row = row_at keymap (bit_and scan_code 0x7f) in
    let key = column h row in
    let make = is_make_code scan_code in
    let h' = press key make (record h { code_with_e0 = false }) in
    (h', if make then some (with_flags h' (pad h'.has_num_lock key)) else none)

-- The codes of the buffer, as long as they are those of the list: whether they all were.
pub match_codes : List ℕ → KbBuf → Result (Bool × KbBuf)
match_codes [] b = ok (true, b)
match_codes (code ∷ codes) b = do
  r ← get_scan_code_from_kb_buf b
  let rest = match_codes codes r.1
  if r.0 == code then rest else ok (false, r.1)

-- What follows 0xE0 is the print-screen key that goes down or up; `scan_code` is the first of it.
pub match_printscreen : ℕ → KbBuf → Result (Bool × KbBuf)
match_printscreen scan_code b =
    if scan_code == 0x2a
    then match_codes (0xe0 ∷ 0x37 ∷ []) b
    else if scan_code == 0xb7
    then match_codes (0xe0 ∷ 0xaa ∷ []) b
    else ok (false, b)

-- The buffer, the modifiers, and the key for `in_process`. The codes of the pause key and of
-- print-screen give none.
pub keyboard_read : KbBuf → Held → Result (KbBuf × (Held × Option ℕ))
keyboard_read b h = if b.count == 0 then ok (b, (h, none)) else (do
  r ← get_scan_code_from_kb_buf b
  if r.0 == 0xe1
      then (do
        is_pausebreak ← match_codes (0x1d ∷ 0x45 ∷ 0xe1 ∷ 0x9d ∷ 0xc5 ∷ []) r.1
        ok (is_pausebreak.1, if is_pausebreak.0 then (h, none) else interpret r.0 h))
      else if r.0 == 0xe0
      then (do
        second ← get_scan_code_from_kb_buf r.1
        is_printscreen ← match_printscreen second.0 second.1
        ok (
          is_printscreen.1,
          if is_printscreen.0
              then (h, none)
              else interpret second.0 (record h { code_with_e0 = true }),
        ))
      else ok (r.1, interpret r.0 h))
