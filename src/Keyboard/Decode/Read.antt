-- ===== src/Keyboard/Decode/Read.antt =====
-- `keyboard_read` on a buffer that holds the codes of one key.
use minx.Prelude.{ℕ, ◌≡◌, ◌≢◌, refl, true, false, List, ◌∷◌, ok, arith, ◌==◌, ne→==}
use minx.Keyboard.{KbBuf, Held}
use minx.Keyboard.Buffer.{Holds, get_scan_code-Holds}
use minx.Keyboard.Decode.{match_printscreen, interpret, keyboard_read}

-- If the first scan code of the buffer is neither 0xE0 nor 0xE1, `keyboard_read` takes it,
-- interprets it, and leaves the rest in the buffer.
pub keyboard_read-plain :
    (b : KbBuf) (x : ℕ) (xs : List ℕ) (h : Held)
    → Holds b (x ∷ xs)
    → x ≢ 0xe1
    → x ≢ 0xe0
    → (b' : KbBuf) × (keyboard_read b h ≡ ok (b', interpret x h)) × Holds b' xs
unfolding keyboard_read
keyboard_read-plain b x xs h holds n1 n0 =
    let nonempty : (b.count == 0) ≡ false = ne→== _ _ (omega (arith, holds.counted)) in
    let (b', run, holds') = get_scan_code-Holds b x xs holds in
    (b', rw (nonempty, run, ne→== _ _ n1, ne→== _ _ n0) refl, holds')

-- If the buffer holds the code 0xE0 and a next one that does not begin the codes of print-screen,
-- `keyboard_read` takes both, interprets the next as an extended key, and leaves the rest in the
-- buffer.
pub keyboard_read-extended :
    (b : KbBuf) (x : ℕ) (xs : List ℕ) (h : Held)
    → Holds b (0xe0 ∷ x ∷ xs)
    → x ≢ 0x2a
    → x ≢ 0xb7
    → (b' : KbBuf) × (keyboard_read b h ≡ ok (b', interpret x (record h { code_with_e0 = true })))
      × Holds b' xs
unfolding keyboard_read match_printscreen
keyboard_read-extended b x xs h holds n1 n2 =
    let nonempty : (b.count == 0) ≡ false = ne→== _ _ (omega (arith, holds.counted)) in
    let (b1, run1, holds1) = get_scan_code-Holds b 0xe0 (x ∷ xs) holds in
    let (b2, run2, holds2) = get_scan_code-Holds b1 x xs holds1 in
    (b2, rw (nonempty, run1, run2, ne→== _ _ n1, ne→== _ _ n2) refl, holds2)
