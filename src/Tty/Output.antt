-- ===== src/Tty/Output.antt =====
-- `putchar_c` of lib/mystring_c.c: a character on the screen of a terminal. An address is that of a
-- byte, and the video memory is part of the memory. A cursor is an `int` as its pattern of 32 bits,
-- and is compared as a number without sign, as in the code.
use minx.Prelude.{
  ℕ, zero, suc, ◌+◌, ◌-◌, ◌*◌, ◌/◌, ◌%◌, ◌^◌, ◌&&◌, ◌||◌, ◌==◌, ltb, leb, if◌then◌else◌, update,
  min,
}
use minx.Prelude.Int.{ℤ, pos, negsuc, sub_ℕ, int_of, pattern_of}
use minx.Strings.{Bytes}
use minx.Fs.State.{copy}
use minx.Tty.{Console, Terminals}

-- V_MEM_BASE
abbrev pub v_mem_base : ℕ
v_mem_base = 0xb_8000

-- The terminals, the memory, and `out_char_highLight`.
pub record Display : Type 0 where
  pub terminals : Terminals
  pub mem : Bytes
  pub high_light : ℕ

-- The address of a cell, on 32 bits.
abbrev pub cell : ℕ → ℕ
cell cursor = (v_mem_base + 2 * cursor) % 2 ^ 32

-- Sums and differences on 32 bits.
abbrev pub add32 : ℕ → ℕ → ℕ
add32 a b = (a + b) % 2 ^ 32

abbrev pub sub32 : ℕ → ℕ → ℕ
sub32 a b = (a + 2 ^ 32 - b) % 2 ^ 32

-- What a character leaves of the memory and the cursor, before the screen is moved.
pub record Placed : Type 0 where
  pub bytes : Bytes
  pub at : ℕ

-- `(cursor / 80 + 1) * 80`, and how far that is from the cursor; a division cuts off towards 0.
abbrev pub next_row : ℤ → ℤ
next_row (pos n) = pos ((n / 80 + 1) * 80)
next_row (negsuc n) = sub_ℕ 80 ((n + 1) / 80 * 80)

abbrev pub to_row_end : ℤ → ℕ
to_row_end (pos n) = 80 - n % 80
to_row_end (negsuc n) = 80 + (n + 1) % 80

-- The `for` that clears cells, with `left` rounds left.
unfoldable pub clear_cells : ℕ → ℕ → Bytes → Bytes
clear_cells zero v m = m
clear_cells (suc left) v m = clear_cells left (v + 2) (update (update m v 0) (v + 1) 7)

-- The cases of the two line ends; `start` is the first cell that the current terminal shows.
unfoldable pub put_newline : ℕ → ℕ → Bytes → Placed
put_newline start cursor m =
    let z = int_of (sub32 cursor start) in
    record {
      bytes = clear_cells (min 80 (to_row_end z)) (cell cursor) m;
      at = add32 (pattern_of (next_row z)) start;
    }

-- How many cells before `v` are clear, of `left` at most.
unfoldable pub clear_before : ℕ → ℕ → Bytes → ℕ
clear_before zero v m = 0
clear_before (suc left) v m =
    let rest = clear_before left (v - 2) m in
    if m (v - 1) == 7 && m (v - 2) == 0 then rest + 1 else 0

-- The case of the backspace.
unfoldable pub put_backspace : ℕ → Bytes → Placed
put_backspace cursor m =
    let v = cell cursor in
    let n = clear_before 80 v m in
    if n == 0
    then record { bytes = update (update m (v - 1) 7) (v - 2) b' '; at = sub32 cursor 1 }
    else record { bytes = m; at = sub32 cursor n }

-- Any other character.
unfoldable pub put_plain : ℕ → ℕ → ℕ → Bytes → Placed
put_plain s high_light cursor m = record {
  bytes = update (update m (cell cursor) s) (cell cursor + 1) high_light;
  at = add32 cursor 1;
}

-- The `switch`.
unfoldable pub place : ℕ → ℕ → ℕ → ℕ → Bytes → Placed
place s start high_light cursor m =
    if s == 10 || s == 13
    then put_newline start cursor m
    else if s == 8
    then put_backspace cursor m
    else put_plain s high_light cursor m

-- At the end of the console the rows move up by one, and the last one is clear.
unfoldable pub roll : Console → Placed → Placed
roll c p =
    let end = add32 c.original_addr c.v_mem_limit in
    if leb end p.at
    then (let last = sub32 end 80 in
        record {
          bytes =
              copy
                (copy p.bytes (cell c.original_addr) p.bytes (cell c.original_addr + 160)
                  (c.v_mem_limit * 2 - 160))
                (cell last) (λ i. 0) 0 160;
          at = last;
        })
    else p

-- The console with the cursor, whose row is shown.
unfoldable pub follow : Console → ℕ → Console
follow c cursor =
    if leb (add32 c.current_start_addr (80 * 25)) cursor
    then record c { current_start_addr = add32 c.current_start_addr 80; cursor = cursor }
    else if ltb cursor c.current_start_addr
    then (let start = sub32 c.current_start_addr 80 in
        if leb start c.original_addr
        then record c { current_start_addr = c.original_addr; cursor = c.original_addr }
        else record c { current_start_addr = start; cursor = cursor })
    else record c { cursor = cursor }

-- `putchar_c(&tty_table[n], s)`
unfoldable pub putchar_c : ℕ → ℕ → Display → Display
putchar_c n s d =
    let ts = d.terminals in
    let t = ts.tty_table n in
    let c = t.p_console in
    let start = (ts.tty_table ts.current_tty).p_console.current_start_addr in
    let p = roll c (place s start d.high_light c.cursor d.mem) in
    record d {
      terminals = record ts {
        tty_table = update ts.tty_table n (record t { p_console = follow c p.at });
      };
      mem = p.bytes;
    }
