-- ===== src/Keyboard/Keymap.antt =====
-- The key map of lib/keyboard.c, for a US keyboard. A character is its ASCII code.
use minx.Prelude.{ℕ, zero, suc, List, [], ◌∷◌}
use minx.Keyboard.Keys.{
  alt_l, alt_r, apps, caps_lock, ctrl_l, ctrl_r, delete, down, end, esc, f1, f10, f11, f12, f2, f3,
  f4, f5, f6, f7, f8, f9, gui_l, gui_r, home, insert, left, num_lock, pad_dot, pad_down, pad_end,
  pad_home, pad_ins, pad_left, pad_mid, pad_minus, pad_pagedown, pad_pageup, pad_plus, pad_right,
  pad_slash, pad_up, pagedown, pageup, right, scroll_lock, shift_l, shift_r, tab, up,
}

-- One row of `keymap`: without shift, with shift, after the code 0xE0.
pub record Row : Type 0 where
  pub plain : ℕ
  pub shifted : ℕ
  pub extended : ℕ

abbrev pub row : ℕ → ℕ → ℕ → Row
row a b c = record { plain = a; shifted = b; extended = c }

-- Row `i` of the table; there are 128, and the decoder asks for no other.
abbrev pub row_at : List Row → ℕ → Row
row_at [] i = row 0 0 0
row_at (r ∷ rows) zero = r
row_at (r ∷ rows) (suc i) = row_at rows i

abbrev pub keymap : List Row
keymap =
    row 0 0 0
    ∷ row esc esc 0
    ∷ row 49 33 0
    ∷ row 50 64 0
    ∷ row 51 35 0
    ∷ row 52 36 0
    ∷ row 53 37 0
    ∷ row 54 94 0
    ∷ row 55 38 0
    ∷ row 56 42 0
    ∷ row 57 40 0
    ∷ row 48 41 0
    ∷ row 45 95 0
    ∷ row 61 43 0
    ∷ row 8 8 0
    ∷ row tab tab 0
    ∷ row 113 81 0
    ∷ row 119 87 0
    ∷ row 101 69 0
    ∷ row 114 82 0
    ∷ row 116 84 0
    ∷ row 121 89 0
    ∷ row 117 85 0
    ∷ row 105 73 0
    ∷ row 111 79 0
    ∷ row 112 80 0
    ∷ row 91 123 0
    ∷ row 93 125 0
    ∷ row 10 10 10
    ∷ row ctrl_l ctrl_l ctrl_r
    ∷ row 97 65 0
    ∷ row 115 83 0
    ∷ row 100 68 0
    ∷ row 102 70 0
    ∷ row 103 71 0
    ∷ row 104 72 0
    ∷ row 106 74 0
    ∷ row 107 75 0
    ∷ row 108 76 0
    ∷ row 59 58 0
    ∷ row 39 34 0
    ∷ row 96 126 0
    ∷ row shift_l shift_l 0
    ∷ row 92 124 0
    ∷ row 122 90 0
    ∷ row 120 88 0
    ∷ row 99 67 0
    ∷ row 118 86 0
    ∷ row 98 66 0
    ∷ row 110 78 0
    ∷ row 109 77 0
    ∷ row 44 60 0
    ∷ row 46 62 0
    ∷ row 47 63 pad_slash
    ∷ row shift_r shift_r 0
    ∷ row 42 42 0
    ∷ row alt_l alt_l alt_r
    ∷ row 32 32 0
    ∷ row caps_lock caps_lock 0
    ∷ row f1 f1 0
    ∷ row f2 f2 0
    ∷ row f3 f3 0
    ∷ row f4 f4 0
    ∷ row f5 f5 0
    ∷ row f6 f6 0
    ∷ row f7 f7 0
    ∷ row f8 f8 0
    ∷ row f9 f9 0
    ∷ row f10 f10 0
    ∷ row num_lock num_lock 0
    ∷ row scroll_lock scroll_lock 0
    ∷ row pad_home 55 home
    ∷ row pad_up 56 up
    ∷ row pad_pageup 57 pageup
    ∷ row pad_minus 45 0
    ∷ row pad_left 52 left
    ∷ row pad_mid 53 0
    ∷ row pad_right 54 right
    ∷ row pad_plus 43 0
    ∷ row pad_end 49 end
    ∷ row pad_down 50 down
    ∷ row pad_pagedown 51 pagedown
    ∷ row pad_ins 48 insert
    ∷ row pad_dot 46 delete
    ∷ row 0 0 0
    ∷ row 0 0 0
    ∷ row 0 0 0
    ∷ row f11 f11 0
    ∷ row f12 f12 0
    ∷ row 0 0 0
    ∷ row 0 0 0
    ∷ row 0 0 gui_l
    ∷ row 0 0 gui_r
    ∷ row 0 0 apps
    ∷ row 0 0 0
    ∷ row 0 0 0
    ∷ row 0 0 0
    ∷ row 0 0 0
    ∷ row 0 0 0
    ∷ row 0 0 0
    ∷ row 0 0 0
    ∷ row 0 0 0
    ∷ row 0 0 0
    ∷ row 0 0 0
    ∷ row 0 0 0
    ∷ row 0 0 0
    ∷ row 0 0 0
    ∷ row 0 0 0
    ∷ row 0 0 0
    ∷ row 0 0 0
    ∷ row 0 0 0
    ∷ row 0 0 0
    ∷ row 0 0 0
    ∷ row 0 0 0
    ∷ row 0 0 0
    ∷ row 0 0 0
    ∷ row 0 0 0
    ∷ row 0 0 0
    ∷ row 0 0 0
    ∷ row 0 0 0
    ∷ row 0 0 0
    ∷ row 0 0 0
    ∷ row 0 0 0
    ∷ row 0 0 0
    ∷ row 0 0 0
    ∷ row 0 0 0
    ∷ row 0 0 0
    ∷ row 0 0 0
    ∷ []
