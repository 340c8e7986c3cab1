-- ===== src/System/Fails.antt =====
-- What the calls return, and where `fork` does not.
use minx.Prelude.{
  ℕ, zero, suc, ◌+◌, ◌≤◌, ◌<◌, ◌≡◌, ◌≢◌, refl, Bool, true, false, ◌==◌, leb, ne→==, ==-refl, none,
  ok, stop, assertion, arith,
}
use minx.Prelude.Int.{negsuc}
use minx.Kernel.{Message}
use minx.Const.{msg_fork}
use minx.Fs.State.{first_from}
use minx.Mm.State.{Platform, Mm, free_slot}
use minx.Mm.Fork.{find_slot, do_fork}
use minx.Mm.Task.{serve_mm}
use minx.System.{serve_sys, get_current_pid, fork_process}

-- `getCurrentPid` returns the number of the process that calls it.
pub get_current_pid_lem :
    (unset : Message) (p ticks_count : ℕ) → get_current_pid unset p ticks_count ≡ ok p
unfolding get_current_pid serve_sys
get_current_pid_lem unset p ticks_count = refl

no_slot :
    (n : ℕ) (test : ℕ → Bool) (i : ℕ)
    → ((j : ℕ) → i ≤ j → j < i + n → test j ≡ false)
    → first_from n test i ≡ none
unfolding first_from
no_slot zero test i h = refl
no_slot (suc n) test i h =
    rw (h i (omega arith) (omega arith))
      (no_slot n test (i + 1) (λ j a b. h j (omega (arith, a)) (omega (arith, b))))

find_slot-full :
    (pl : Platform) (s : Mm)
    → ((j : ℕ) → j < pl.nr_tasks + pl.nr_procs → (s.proc_table j).p_flags ≢ free_slot)
    → find_slot pl s ≡ pl.nr_tasks + pl.nr_procs
unfolding find_slot
find_slot-full pl s full =
    let none_free =
      no_slot (pl.nr_tasks + pl.nr_procs) (λ i. (s.proc_table i).p_flags == free_slot) 0
        (λ j a b. ne→== (s.proc_table j).p_flags free_slot (full j (omega (arith, b)))) in
    rw (none_free, find_slot) refl

do_fork-full :
    (pl : Platform) (fuel fmt : ℕ) (s : Mm)
    → ((j : ℕ) → j < pl.nr_tasks + pl.nr_procs → (s.proc_table j).p_flags ≢ free_slot)
    → pl.nr_native_procs ≤ pl.nr_procs
    → do_fork pl fuel fmt s ≡ ok (negsuc 0, s)
unfolding do_fork
do_fork-full pl fuel fmt s full native =
    let n = pl.nr_tasks + pl.nr_procs in
    let room : leb (pl.nr_tasks + pl.nr_native_procs) n ≡ true = ground (arith, native) in
    rw (find_slot-full pl s full, room, ==-refl n) refl

-- Where no slot of the table is free, and the native processes are among those of the table, `fork`
-- fails an assertion: the memory manager answers -1, and `fork` takes any answer but 0 for
-- impossible.
pub fork_process-fails :
    (pl : Platform) (fuel fmt : ℕ) (unset : Message) (p : ℕ) (s : Mm)
    → ((j : ℕ) → j < pl.nr_tasks + pl.nr_procs → (s.proc_table j).p_flags ≢ free_slot)
    → pl.nr_native_procs ≤ pl.nr_procs
    → fork_process pl fuel fmt unset p s ≡ stop assertion
unfolding fork_process serve_mm
fork_process-fails pl fuel fmt unset p s full native =
    let s0 = record s { mm_msg = record unset { type = msg_fork; source = p } } in
    rw (do_fork-full pl fuel fmt s0 full native, ==-refl p) refl
