-- ===== src/Tty/Screen.antt =====
-- What stays within the memory of a terminal, and what does not.
use mathlib.Core.Path.{subst}
use minx.Prelude.{
  ◌&&◌, ℕ, ◌+◌, ◌-◌, ◌*◌, ◌≤◌, ◌<◌, ◌≡◌, refl, inl, inr, Bool, true, false, arith, Bool-cases, ◌==◌,
  ltb, leb, if◌then◌else◌, bit_and, ok, stop, overrun, update, ◌⊎◌, sym,
}
use minx.Keyboard.Keys.{pageup, pagedown, f1, f12}
use minx.Tty.{
  Console, Tty, nr_tty, nr_tty_buf, is_printable, written, put_key, page_up, page_down, init_screen,
  in_process, Terminals, current, set_current, switch_console, function_key, control_key,
}

-- The 25 rows that are shown lie in the part of the video memory that the console has.
pub record Shows (c : Console) : Type 0 where
  pub low : c.original_addr ≤ c.current_start_addr
  pub high : c.current_start_addr + 2000 ≤ c.original_addr + c.v_mem_limit
  pub all : c.original_addr + c.v_mem_limit ≤ 0x4000

page_up-Shows : (c : Console) → Shows c → Shows (page_up c)
unfolding page_up
page_up-Shows c s = record {
  low = ground (arith, s.low);
  high = ground (arith, s.high, s.low);
  all = ground (arith, s.all);
}

page_down-Shows : (c : Console) → Shows c → Shows (page_down c)
unfolding page_down
page_down-Shows c s = record {
  low = ground (arith, s.low, s.high, s.all);
  high = ground (arith, s.low, s.high, s.all);
  all = ground (arith, s.all);
}

-- `init_screen` gives the two consoles parts of the video memory that do not meet.
pub init_screen-Shows :
    (n cursor : ℕ)
    → n < nr_tty
    → Shows (init_screen n cursor)
      × ((init_screen n cursor).original_addr ≡ n * (init_screen n cursor).v_mem_limit)
unfolding init_screen
init_screen-Shows n cursor h =
    (record { low = omega arith; high = omega (arith, h); all = omega (arith, h) }, refl)

-- Every terminal shows its own part of the video memory, and one of them is the current one.
pub record AllShow (t : Terminals) : Type 0 where
  pub each : (n : ℕ) → n < nr_tty → Shows (t.tty_table n).p_console
  pub current : t.current_tty < nr_tty

set-AllShow : (t : Terminals) (v : Tty) → AllShow t → Shows v.p_console → AllShow (set_current t v)
set-AllShow t v a s = record {
  each = λ n h. elim (Bool-cases (t.current_tty == n)) [
    | inl here ↦ rw here s
    | inr there ↦ rw there (a.each n h)
  ];
  current = a.current;
}

if-AllShow :
    (b : Bool) (t u : Terminals) → (b ≡ true → AllShow t) → AllShow u → AllShow (if b then t else u)
if-AllShow true t u a b = a refl
if-AllShow false t u a b = b

switch_console-AllShow : (num : ℕ) (t : Terminals) → AllShow t → AllShow (switch_console num t)
unfolding switch_console
switch_console-AllShow num t a =
    if-AllShow (ltb num nr_tty) (record t { current_tty = num }) t
      (λ h. record { each = a.each; current = ground (arith, h) }) a

function_key-AllShow :
    (key code : ℕ) (t : Terminals) → AllShow t → AllShow (function_key key code t)
unfolding function_key
function_key-AllShow key code t a =
    if-AllShow _ (switch_console (code - f1) t) t (λ h. switch_console-AllShow (code - f1) t a) a

control_key-AllShow : (key code : ℕ) (t : Terminals) → AllShow t → AllShow (control_key key code t)
unfolding control_key
control_key-AllShow key code t a =
    let here = a.each t.current_tty a.current in
    if-AllShow (code == pageup) _ _ (λ h. set-AllShow t _ a (page_up-Shows _ here))
      (if-AllShow (code == pagedown) _ _ (λ h. set-AllShow t _ a (page_down-Shows _ here))
        (if-AllShow (leb f1 code && leb code f12) (function_key key code t) t
          (λ h. function_key-AllShow key code t a) a))

-- What `put_key` does with a key.
put_key-ok :
    (key : ℕ) (t : Tty)
    → ((t' : Tty) × (put_key key t ≡ ok t') × (t'.p_console ≡ t.p_console))
      ⊎ ((put_key key t ≡ stop overrun) × (nr_tty_buf ≤ t.ibuf_head) × (t.ibuf_cnt < nr_tty_buf))
unfolding put_key
put_key-ok key t = elim (Bool-cases (ltb t.ibuf_cnt nr_tty_buf)) [
  | inr full ↦ inl (t, rw full refl, refl)
  | inl room ↦ elim (Bool-cases (ltb t.ibuf_head nr_tty_buf)) [
    | inl fits ↦ inl (written key t, rw (room, fits) refl, refl)
    | inr over ↦ inr (rw (room, over) refl, ground (arith, over), ground (arith, room))
  ]
]

-- Whatever key comes, each terminal goes on showing 25 rows of its own part of the video memory and
-- one of them is the current one, unless the key would be written past the end of the buffer.
pub in_process-AllShow :
    (key : ℕ) (t : Terminals)
    → AllShow t
    → ((t' : Terminals) × (in_process key t ≡ ok t') × AllShow t')
      ⊎ ((in_process key t ≡ stop overrun)
          × (nr_tty_buf ≤ (current t).ibuf_head)
          × ((current t).ibuf_cnt < nr_tty_buf))
unfolding in_process
in_process-AllShow key t a = elim (Bool-cases (is_printable key)) [
  | inr control ↦ inl (
    control_key key (bit_and key 0x1ff) t,
    rw control refl,
    control_key-AllShow key (bit_and key 0x1ff) t a,
  )
  | inl plain ↦ elim (put_key-ok key (current t)) [
    | inl (v, run, same) ↦ inl (
      set_current t v,
      rw (plain, run) refl,
      set-AllShow t v a (subst Shows (sym same) (a.each t.current_tty a.current)),
    )
    | inr (run, over, room) ↦ inr (rw (plain, run) refl, over, room)
  ]
]

-- With room in the buffer and the head at its last element, a key moves the head to the end, and the
-- next key is written past the end of the buffer.
pub put_key-overrun :
    (key next : ℕ) (t : Tty)
    → t.ibuf_head ≡ nr_tty_buf - 1
    → t.ibuf_cnt + 1 < nr_tty_buf
    → (t' : Tty) × (put_key key t ≡ ok t')
      × (t'.ibuf_head ≡ nr_tty_buf)
      × (put_key next t' ≡ stop overrun)
unfolding put_key
put_key-overrun key next t head room =
    let more : ltb t.ibuf_cnt nr_tty_buf ≡ true = ground (arith, room) in
    let again : ltb (t.ibuf_cnt + 1) nr_tty_buf ≡ true = ground (arith, room) in
    (
      record t {
        ibuf = update t.ibuf (nr_tty_buf - 1) key;
        ibuf_head = nr_tty_buf;
        ibuf_cnt = t.ibuf_cnt + 1;
      },
      rw (more, head) refl,
      refl,
      rw again refl,
    )
