-- ===== src/Tty/Tests.antt =====
-- The terminals after `init_screen`.
use minx.Tty.Output.{Display, cell, putchar_c, put_newline, clear_cells}
use minx.Tty.Task.{TtyState}
use minx.Tty.Cells.{IsWithin, IsPut, putchar_c-IsPut}
use minx.Prelude.{[], ℕ, ◌+◌, ◌*◌, ◌≤◌, ◌<◌, ◌≡◌, ◌⊎◌, refl, arith, ok, stop, overrun}
use minx.Tty.{Tty, Terminals, current, nr_tty_buf, put_key, init_screen, in_process}
use minx.Tty.Screen.{AllShow, init_screen-Shows, in_process-AllShow, put_key-overrun}

abbrev tty : ℕ → Tty
tty n = record {
  ibuf = λ _. b'a';
  ibuf_head = 4095;
  ibuf_tail = 4092;
  ibuf_cnt = 3;
  tty_caller = 3;
  tty_procnr = 8;
  tty_req_buf = 5000;
  tty_left_cnt = 2;
  tty_trans_cnt = 1;
  p_console = init_screen n (n * 8192 + 160);
}

abbrev terminals : Terminals
terminals = record { tty_table = tty; current_tty = 1 }

terminals-AllShow : AllShow terminals
terminals-AllShow = record {
  each = λ n h. (init_screen-Shows n (n * 8192 + 160) h).0;
  current = omega arith;
}

in_process-AllShow_example :
    ((t' : Terminals) × (in_process 97 terminals ≡ ok t') × AllShow t')
    ⊎ ((in_process 97 terminals ≡ stop overrun)
        × (nr_tty_buf ≤ (current terminals).ibuf_head)
        × ((current terminals).ibuf_cnt < nr_tty_buf))
in_process-AllShow_example = in_process-AllShow 97 terminals terminals-AllShow

put_key-overrun_case :
    (t' : Tty) × (put_key 97 (tty 0) ≡ ok t')
    × (t'.ibuf_head ≡ nr_tty_buf)
    × (put_key 98 t' ≡ stop overrun)
put_key-overrun_case = put_key-overrun 97 98 (tty 0) refl (omega arith)

abbrev display : Display
display = record { terminals = terminals; mem = λ i. 0; high_light = 7 }

abbrev reading : TtyState
reading = record { display = display; sent = []; key_pressed = 0 }

tty-IsWithin : IsWithin (tty 0).p_console
unfolding init_screen
tty-IsWithin = omega arith

putchar_c-IsPut_example :
    IsPut 0 b'x' display
      (putchar_c 0 b'x' display)
      (tty 0).p_console
      ((putchar_c 0 b'x' display).terminals.tty_table 0).p_console
putchar_c-IsPut_example =
    putchar_c-IsPut 0 b'x' display tty-IsWithin (omega arith) (omega arith) (omega arith)

-- A line end in the last row of a console, which has 32 of its 80 cells, clears cells of the next one.
abbrev last_row : Display
last_row = record display {
  terminals = record terminals {
    tty_table = λ n. record (tty n) {
      p_console = record {
        original_addr = 0;
        current_start_addr = 6240;
        v_mem_limit = 8192;
        cursor = 8180;
      };
    };
    current_tty = 0;
  };
  mem = λ i. 1;
}

newline-spills : (put_newline 6240 8180 last_row.mem).bytes (cell 8200) ≡ 0
unfolding put_newline clear_cells
newline-spills = refl
