-- ===== src/Keyboard/Decode/Letter.antt =====
-- The letter keys.
use minx.Prelude.{
  ℕ, ◌+◌, ◌-◌, bit_or, all_below, all_below-at, &&-true, ==→eq, ◌≡◌, refl, ap, ◌∙◌, Bool, true,
  false, not, ◌&&◌, ◌||◌, ◌==◌, leb, if◌then◌else◌, arith, some, Option, sym, ◌<◌, bit_and,
}
use minx.Keyboard.{Held}
use minx.Keyboard.Keys.{
  pad_slash, flag_shift_l, flag_shift_r, flag_ctrl_l, flag_ctrl_r, flag_alt_l, flag_alt_r,
}
use minx.Keyboard.Keymap.{Row, row_at, keymap}
use minx.Keyboard.Decode.{is_make_code, column, press, pad, flag_if, with_flags, interpret}
use minx.Keyboard.Decode.Release.{press-other, all_rows-at}

-- A small letter.
abbrev pub is_letter : ℕ → Bool
is_letter k = leb 97 k && leb k 122

-- The shifted column of a letter is the capital.
abbrev capital : Row → Bool
capital r = not (is_letter r.plain) || (r.shifted == r.plain - 32)

keymap-capital : (i : ℕ) → capital (row_at keymap i) ≡ true
keymap-capital i = all_rows-at capital keymap i refl refl

-- Exactly one of shift and caps lock.
abbrev pub upper : Held → Bool
upper h =
    if h.has_caps_lock then not (h.has_shift_l || h.has_shift_r) else h.has_shift_l || h.has_shift_r

abbrev pub letter : Held → ℕ → ℕ
letter h k = if upper h then k - 32 else k

column-letter :
    (r : Row) (h : Held)
    → capital r ≡ true
    → is_letter r.plain ≡ true
    → h.code_with_e0 ≡ false
    → column h r ≡ letter h r.plain
column-letter r h c l e = rw (e, l) (ground (arith, c, l))

letter-lt : (k : ℕ) (h : Held) → is_letter k ≡ true → letter h k < 264
letter-lt k h l = ground (arith, l)

press-small : (k : ℕ) (make : Bool) (h : Held) → k < 264 → press k make h ≡ h
press-small k make h l = press-other k make h (ground (arith, l)) (ground (arith, l))

pad-small : (k : ℕ) (num : Bool) → k < 264 → pad num k ≡ k
unfolding pad
pad-small k num l = let out : leb pad_slash k ≡ false = ground (arith, l) in rw out refl

-- `interpret` where the key goes down, in terms of the key.
down_as : ℕ → Held → Held × Option ℕ
down_as key h = (
  press key true h,
  some (with_flags (press key true h) (pad (press key true h).has_num_lock key)),
)

interpret-down :
    (c : ℕ) (h : Held)
    → is_make_code c ≡ true
    → interpret c h
      ≡ down_as (column h (row_at keymap (bit_and c 0x7f))) (record h { code_with_e0 = false })
unfolding interpret down_as
interpret-down c h down = rw down refl

down_as-small : (k : ℕ) (h : Held) → k < 264 → down_as k h ≡ (h, some (with_flags h k))
unfolding down_as
down_as-small k h l = rw (press-small k true h l, pad-small k h.has_num_lock l) refl

-- The flags in a key, as they are numbered in include/sys/keyboard.h: left and right shift, control and
-- alt.
abbrev flag_sum : Bool → Bool → Bool → Bool → Bool → Bool → ℕ
flag_sum shift_l shift_r ctrl_l ctrl_r alt_l alt_r =
    (if shift_l then 0x200 else 0)
    + (if shift_r then 0x400 else 0)
    + (if ctrl_l then 0x800 else 0)
    + (if ctrl_r then 0x1000 else 0)
    + (if alt_l then 0x2000 else 0)
    + (if alt_r then 0x4000 else 0)

abbrev pub held_flags : Held → ℕ
held_flags h =
    flag_sum h.has_shift_l h.has_shift_r h.has_ctrl_l h.has_ctrl_r h.has_alt_l h.has_alt_r

-- A test of both values.
abbrev both : (Bool → Bool) → Bool
both f = f true && f false

both-at : (f : Bool → Bool) (b : Bool) → both f ≡ true → f b ≡ true
both-at f true h = (&&-true (f true) (f false) h).0
both-at f false h = (&&-true (f true) (f false) h).1

-- `with_flags` of these modifiers.
abbrev joined : Bool → Bool → Bool → Bool → Bool → Bool → ℕ → ℕ
joined a b c d e f key =
    bit_or
      (bit_or
        (bit_or
          (bit_or (bit_or (bit_or key (flag_if a flag_shift_l)) (flag_if b flag_shift_r))
            (flag_if c flag_ctrl_l))
          (flag_if d flag_ctrl_r))
        (flag_if e flag_alt_l))
      (flag_if f flag_alt_r)

adds : Bool → Bool → Bool → Bool → Bool → Bool → Bool
adds a b c d e f = all_below 128 (λ key. joined a b c d e f key == key + flag_sum a b c d e f)

adds_table : both (λ a. both λ b. both λ c. both λ d. both λ e. both λ f. adds a b c d e f) ≡ true
unfolding adds
adds_table = refl

with_flags-sum : (h : Held) (key : ℕ) → key < 128 → with_flags h key ≡ key + held_flags h
unfolding with_flags adds
with_flags-sum h key l =
    let ta =
      both-at (λ a. both λ b. both λ c. both λ d. both λ e. both λ f. adds a b c d e f)
        h.has_shift_l adds_table in
    let tb =
      both-at (λ b. both λ c. both λ d. both λ e. both λ f. adds h.has_shift_l b c d e f)
        h.has_shift_r ta in
    let tc =
      both-at (λ c. both λ d. both λ e. both λ f. adds h.has_shift_l h.has_shift_r c d e f)
        h.has_ctrl_l tb in
    let td =
      both-at (λ d. both λ e. both λ f. adds h.has_shift_l h.has_shift_r h.has_ctrl_l d e f)
        h.has_ctrl_r tc in
    let te =
      both-at (λ e. both λ f. adds h.has_shift_l h.has_shift_r h.has_ctrl_l h.has_ctrl_r e f)
        h.has_alt_l td in
    let tf =
      both-at (λ f. adds h.has_shift_l h.has_shift_r h.has_ctrl_l h.has_ctrl_r h.has_alt_l f)
        h.has_alt_r te in
    let held = λ (k : ℕ).
      joined h.has_shift_l h.has_shift_r h.has_ctrl_l h.has_ctrl_r h.has_alt_l h.has_alt_r k
      == k + held_flags h in
    ==→eq _ _ (all_below-at 128 held key l tf)

letter-ascii : (k : ℕ) (h : Held) → is_letter k ≡ true → letter h k < 128
letter-ascii k h l = ground (arith, l)

-- Without the code 0xE0 before it, a letter key that goes down passes its letter to `in_process`, the
-- capital if exactly one of shift and caps lock is on, and else the small letter, plus 0x200 for a
-- left shift that is held, 0x400 for a right one, 0x800 and 0x1000 for control and 0x2000 and 0x4000
-- for alt. It changes no modifier and no lock.
pub interpret-letter :
    (c : ℕ) (h : Held)
    → is_make_code c ≡ true
    → h.code_with_e0 ≡ false
    → is_letter (row_at keymap (bit_and c 0x7f)).plain ≡ true
    → interpret c h ≡ (h, some (letter h (row_at keymap (bit_and c 0x7f)).plain + held_flags h))
interpret-letter c h down e l =
    let row = row_at keymap (bit_and c 0x7f) in
    let same : record h { code_with_e0 = false } ≡ h =
      ap (λ b. record h { code_with_e0 = b }) (sym e) in
    interpret-down c h down
    ∙ ap (λ x. down_as (column h row) x) same
    ∙ ap (λ k. down_as k h) (column-letter row h (keymap-capital (bit_and c 0x7f)) l e)
    ∙ down_as-small (letter h row.plain) h (letter-lt row.plain h l)
    ∙ ap (λ k. (h, some k)) (with_flags-sum h (letter h row.plain) (letter-ascii row.plain h l))
