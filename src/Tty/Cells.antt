-- ===== src/Tty/Cells.antt =====
-- A character that is not a line end nor a backspace, on the screen of a terminal.
use minx.Prelude.{
  ℕ, ◌+◌, ◌-◌, ◌*◌, ◌≤◌, ◌<◌, ◌≡◌, ◌≢◌, ◌⊎◌, inl, inr, refl, ap, ◌∙◌, false, Bool-cases, ltb, leb,
  ne→==, ==-refl, if◌then◌else◌, update_ne, arith,
}
use minx.Strings.{Bytes}
use minx.Fs.State.{copy}
use minx.Fs.Buffer.{copy_in, copy_out}
use minx.Tty.{Console}
use minx.Tty.Output.{Display, cell, add32, sub32, put_plain, place, roll, follow, putchar_c}

-- The cursor is in the part of the video memory that the console has, and not before what is shown.
pub record IsWithin (c : Console) : Type 0 where
  pub rows : 160 ≤ c.v_mem_limit
  pub all : c.original_addr + c.v_mem_limit ≤ 0x4000
  pub from : c.original_addr ≤ c.current_start_addr
  pub last : c.current_start_addr + 80 ≤ c.original_addr + c.v_mem_limit
  pub low : c.current_start_addr ≤ c.cursor
  pub high : c.cursor < c.original_addr + c.v_mem_limit

-- The cursor behind the character, before the row that is shown is chosen.
abbrev next_cursor : Console → ℕ
next_cursor c =
    if leb (c.original_addr + c.v_mem_limit) (c.cursor + 1)
    then c.original_addr + c.v_mem_limit - 80
    else c.cursor + 1

follow-IsWithin :
    (c : Console) (cursor : ℕ)
    → IsWithin c
    → c.current_start_addr ≤ cursor
    → cursor < c.original_addr + c.v_mem_limit
    → IsWithin (follow c cursor)
      × ((follow c cursor).cursor ≡ cursor)
      × ((follow c cursor).original_addr ≡ c.original_addr)
      × ((follow c cursor).v_mem_limit ≡ c.v_mem_limit)
unfolding follow
follow-IsWithin c cursor w l h =
    let a = w.all in
    let f = w.from in
    elim (Bool-cases (leb (add32 c.current_start_addr 2000) cursor)) [
      | inl e ↦ rw e (
        record {
          rows = w.rows;
          all = w.all;
          from = omega (arith, f, l, h, a);
          last = ground (arith, e, f, l, h, a);
          low = ground (arith, e, f, l, h, a);
          high = h;
        },
        refl,
        refl,
        refl,
      )
      | inr e ↦
          let no : ltb cursor c.current_start_addr ≡ false = ground (arith, l) in
          rw (e, no)
            (
              record {
                rows = w.rows;
                all = w.all;
                from = w.from;
                last = w.last;
                low = l;
                high = h;
              },
              refl,
              refl,
              refl,
            )
    ]

-- What the character leaves: it stands before the cursor, with the colour, and nothing outside of the
-- console's cells has changed.
record IsShown (c : Console) (s high_light : ℕ) (m m' : Bytes) (cursor : ℕ) : Type 0 where
  char : m' (cell cursor - 2) ≡ s
  colour : m' (cell cursor - 1) ≡ high_light
  outside :
      (i : ℕ)
      → (i < cell c.original_addr) ⊎ (cell (c.original_addr + c.v_mem_limit) ≤ i)
      → m' i ≡ m i
  after : c.current_start_addr ≤ cursor
  before : cursor < c.original_addr + c.v_mem_limit

-- The bytes after the rows have moved up.
abbrev rolled : Console → Bytes → Bytes
rolled c b =
    copy (copy b (cell c.original_addr) b (cell c.original_addr + 160) (c.v_mem_limit * 2 - 160))
      (cell (sub32 (add32 c.original_addr c.v_mem_limit) 80)) (λ i. 0) 0 160

-- The end of the console on 32 bits, and its last row.
end-eq :
    (c : Console)
    → IsWithin c
    → add32 c.original_addr c.v_mem_limit ≡ c.original_addr + c.v_mem_limit
end-eq c w = let a = w.all in omega (arith, a)

last-eq :
    (c : Console)
    → IsWithin c
    → sub32 (add32 c.original_addr c.v_mem_limit) 80 ≡ c.original_addr + c.v_mem_limit - 80
last-eq c w = let a = w.all in let r = w.rows in omega (arith, a, r)

-- The last cell comes before the last row.
rolled-cell :
    (c : Console) (b : Bytes)
    → IsWithin c
    → (k : ℕ) → 0 < k
    → k ≤ 2
    → rolled c b (cell (sub32 (add32 c.original_addr c.v_mem_limit) 80) - k)
      ≡ b (cell (c.original_addr + c.v_mem_limit) - k)
rolled-cell c b w k l l' =
    let r = w.rows in
    let last = cell (c.original_addr + c.v_mem_limit - 80) in
    let first = cell c.original_addr in
    let n = c.v_mem_limit * 2 - 160 in
    let up = copy b first b (first + 160) n in
    let at : last - k ≡ first + (n - k) = omega (arith, r, l, l') in
    let from : first + 160 + (n - k) ≡ cell (c.original_addr + c.v_mem_limit) - k =
      omega (arith, r, l, l') in
    rw (last-eq c w) (
      copy_out up last (λ i. 0) 0 160 (last - k) (inl (omega (arith, l, r)))
      ∙ ap up at
      ∙ copy_in b first b (first + 160) n (n - k) (omega (arith, r, l, l'))
      ∙ ap b from)

rolled-outside :
    (c : Console) (b : Bytes)
    → IsWithin c
    → (i : ℕ) → (i < cell c.original_addr) ⊎ (cell (c.original_addr + c.v_mem_limit) ≤ i)
    → rolled c b i ≡ b i
rolled-outside c b w i o =
    let r = w.rows in
    let last = cell (c.original_addr + c.v_mem_limit - 80) in
    let first = cell c.original_addr in
    let n = c.v_mem_limit * 2 - 160 in
    rw (last-eq c w) (
      copy_out (copy b first b (first + 160) n) last (λ i. 0) 0 160 i (ground (arith, o, r))
      ∙ copy_out b first b (first + 160) n i (ground (arith, o, r)))

roll-IsShown :
    (c : Console) (s high_light : ℕ) (m : Bytes)
    → IsWithin c
    → IsShown c s high_light m
        (roll c (put_plain s high_light c.cursor m)).bytes
        (roll c (put_plain s high_light c.cursor m)).at
unfolding roll put_plain
roll-IsShown c s high_light m w =
    let a = w.all in
    let f = w.from in
    let l = w.low in
    let h = w.high in
    let r = w.rows in
    let t = w.last in
    let b = (put_plain s high_light c.cursor m).bytes in
    let end = cell (c.original_addr + c.v_mem_limit) in
    elim (Bool-cases (leb (add32 c.original_addr c.v_mem_limit) (add32 c.cursor 1))) [
      | inl e ↦ rw e (record {
        char =
            let at : end - 2 ≡ cell c.cursor = ground (arith, e, h, a) in
            rolled-cell c b w 2 (omega arith) (omega arith) ∙ ap b at ∙ ground arith;
        colour =
            let at : end - 1 ≡ cell c.cursor + 1 = ground (arith, e, h, a) in
            rolled-cell c b w 1 (omega arith) (omega arith) ∙ ap b at ∙ ground arith;
        outside = λ i o. rolled-outside c b w i o ∙ ground (arith, f, l, h, o);
        after = omega (arith, a, f, l, h, r, t);
        before = omega (arith, a, f, l, h, r, t);
      })
      | inr e ↦ rw e (record {
        char = ground (arith, a, h);
        colour = ground (arith, a, h);
        outside = λ i o. ground (arith, a, f, l, h, o);
        after = omega (arith, a, f, l, h);
        before = ground (arith, e, a, f, l, h);
      })
    ]

-- A character has been put on the screen of terminal `n`.
pub record IsPut (n s : ℕ) (d d' : Display) (c c' : Console) : Type 0 where
  pub within : IsWithin c'
  pub part : (c'.original_addr ≡ c.original_addr) × (c'.v_mem_limit ≡ c.v_mem_limit)
  pub char : d'.mem (cell c'.cursor - 2) ≡ s
  pub colour : d'.mem (cell c'.cursor - 1) ≡ d.high_light
  pub outside :
      (i : ℕ)
      → (i < cell c.original_addr) ⊎ (cell (c.original_addr + c.v_mem_limit) ≤ i)
      → d'.mem i ≡ d.mem i
  pub others : (k : ℕ) → n ≢ k → d'.terminals.tty_table k ≡ d.terminals.tty_table k

-- `putchar_c` of a character that is neither a line end nor a backspace, on a terminal with at least
-- 160 cells within the 0x4000 of the video memory, where the first row shown is in that part with a
-- row of room behind its start, and the cursor is in that part too and not before what is shown: the
-- character stands before the cursor, in the current colour, all of this holds again, also where the
-- rows have moved up, nothing outside of the part is written, and the other terminals are as before.
pub putchar_c-IsPut :
    (n s : ℕ) (d : Display)
    → IsWithin (d.terminals.tty_table n).p_console
    → s ≢ 10
    → s ≢ 13
    → s ≢ 8
    → IsPut n s d
        (putchar_c n s d)
        (d.terminals.tty_table n).p_console
        ((putchar_c n s d).terminals.tty_table n).p_console
unfolding putchar_c place
putchar_c-IsPut n s d w no_lf no_cr no_bs =
    let t = d.terminals.tty_table n in
    let c = t.p_console in
    let plain = put_plain s d.high_light c.cursor d.mem in
    let shown = roll-IsShown c s d.high_light d.mem w in
    let (within, at, low, size) = follow-IsWithin c (roll c plain).at w shown.after shown.before in
    rw (ne→== s 10 no_lf, ne→== s 13 no_cr, ne→== s 8 no_bs, ==-refl n)
      (record {
        within = within;
        part = (low, size);
        char = ap (λ k. (roll c plain).bytes (cell k - 2)) at ∙ shown.char;
        colour = ap (λ k. (roll c plain).bytes (cell k - 1)) at ∙ shown.colour;
        outside = shown.outside;
        others = λ k ne. update_ne d.terminals.tty_table n k _ ne;
      })
