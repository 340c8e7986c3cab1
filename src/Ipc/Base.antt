-- ===== src/Ipc/Base.antt =====
-- The tables of processes as an operation of kernel/ipc.c sees it, `block` and `unblock`.
use minx.Prelude.{ℕ, Bool, true, false, not, ◌==◌, update, Option, none, some, Result, check, ◌>>◌}
use minx.Kernel.{Pcb, Kernel}
use minx.Sched.{schedule}

-- `pcb_table[p] = v`
abbrev pub set_pcb : Kernel → ℕ → Pcb → Kernel
set_pcb k p v = record k { pcb_table = update k.pcb_table p v }

abbrev pub is_null : Option ℕ → Bool
is_null none = true
is_null (some p) = false

abbrev pub is_some_of : ℕ → Option ℕ → Bool
is_some_of p none = false
is_some_of p (some q) = p == q

-- Two rounds of the loop of `schedule` are all that can change its outcome.
unfoldable pub block : ℕ → Kernel → Result Kernel
block p k = do check (not ((k.pcb_table p).p_flags == 0)); schedule 2 k

unfoldable pub unblock : ℕ → Kernel → Result (Unit {0})
unblock p k = check ((k.pcb_table p).p_flags == 0)
