-- ===== src/Keyboard/Tests.antt =====
-- The keyboard at concrete codes.
use minx.Prelude.{◌+◌, ◌≡◌, refl, arith, [], ◌∷◌, true, false, none, some, ok}
use minx.Keyboard.{KbBuf, init_buf, Held, init_held}
use minx.Keyboard.{put_scan_code}
use minx.Keyboard.Decode.Read.{keyboard_read-extended}
use minx.Keyboard.Decode.{keyboard_read, interpret, press}
use minx.Keyboard.Decode.Release.{interpret-break, interpret-release}
use minx.Keyboard.Decode.Letter.{interpret-letter}
use minx.Keyboard.Buffer.{Holds, put_scan_code-Holds, init_buf-Holds}
use minx.Keyboard.Queue.{pressed, read, codes_read, queue_read, codes_read-init}

abbrev blank : KbBuf
blank = record { p_usable = 7; p_pending = 3; count = 4; buf = λ _. 0 }

codes_read-init_example :
    codes_read (pressed 30 ∷ pressed 158 ∷ read ∷ read ∷ []) (init_buf blank)
    ≡ queue_read (pressed 30 ∷ pressed 158 ∷ read ∷ read ∷ []) []
codes_read-init_example = codes_read-init (pressed 30 ∷ pressed 158 ∷ read ∷ read ∷ []) blank

-- The left shift key is held.
abbrev shifted : Held
shifted = record init_held { has_shift_l = true }

shift_r-free : press 265 false shifted ≡ shifted
unfolding press
shift_r-free = refl

-- The codes of the right shift key.
interpret-release_case : (interpret 0xb6 (interpret 0x36 shifted).0).0 ≡ shifted
interpret-release_case = interpret-release 0x36 0xb6 shifted refl refl refl refl refl shift_r-free

interpret-break_case :
    ((interpret 0xaa shifted).1 ≡ none)
    × ((interpret 0xaa shifted).0.has_caps_lock ≡ shifted.has_caps_lock)
    × ((interpret 0xaa shifted).0.has_num_lock ≡ shifted.has_num_lock)
    × ((interpret 0xaa shifted).0.has_scroll_lock ≡ shifted.has_scroll_lock)
interpret-break_case = interpret-break 0xaa shifted refl

-- The code of the key of the letter a, whose capital is 65.
interpret-letter_example : interpret 0x1e shifted ≡ (shifted, some (65 + 0x200))
interpret-letter_example = interpret-letter 0x1e shifted refl refl refl

-- The codes 0xE0 and 0x48 wait: the key that moves up.
abbrev two_codes : KbBuf
two_codes = put_scan_code 0x48 (put_scan_code 0xe0 (init_buf blank))

two_codes-Holds : Holds two_codes (0xe0 ∷ 0x48 ∷ [])
two_codes-Holds =
    put_scan_code-Holds (put_scan_code 0xe0 (init_buf blank)) (0xe0 ∷ []) 0x48
      (put_scan_code-Holds (init_buf blank) [] 0xe0 (init_buf-Holds blank))

keyboard_read-extended_case :
    (b' : KbBuf) × (keyboard_read two_codes shifted
      ≡ ok (b', interpret 0x48 (record shifted { code_with_e0 = true })))
    × Holds b' []
keyboard_read-extended_case =
    keyboard_read-extended two_codes 0x48 [] shifted two_codes-Holds (omega arith) (omega arith)
