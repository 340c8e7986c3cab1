-- ===== src/Mm/Tests.antt =====
-- A table in which process 6 is a child of 5, and 5 waits.
use minx.Prelude.{
  ℕ, ◌+◌, ◌*◌, ◌^◌, ◌<◌, ◌≤◌, ◌≡◌, ◌⊎◌, inl, inr, refl, false, Bool-cases, ◌==◌, if◌then◌else◌, [],
  ok, arith,
}
use minx.Kernel.{Message, zero_msg}
use minx.Const.{msg_wait, no_task}
use minx.Protect.{Descriptor, init_descriptor}
use minx.Mm.State.{Platform, Proc, Mm, set_flags, cleanup}
use minx.Mm.Memory.{alloc_mem, alloc_mem-IsApart}
use minx.Mm.Exit.{do_wait, wait_from, finish_wait}
use minx.Mm.Task.{serve_mm}
use minx.Mm.Handed.{IsHandedOver, hangs}
use minx.Mm.Keep.{Handed, serve_mm-Handed}

-- The 16 MB of a small machine, with the images of the processes from 10 MB on.
abbrev machine : Platform
machine = record {
  nr_tasks = 5;
  nr_procs = 8;
  nr_native_procs = 4;
  init = 8;
  procs_base = 0xa0_0000;
  proc_image_size_default = 0x10_0000;
  memory_size = 0x100_0000;
  index_ldt_c = 0;
  index_ldt_rw = 1;
  limit_4k_shift = 12;
  reassembly =
      λ high high_shift mid mid_shift low. high * 2 ^ high_shift + mid * 2 ^ mid_shift + low;
  init_desc = init_descriptor;
  phys_copy = λ dst src size m. m;
  unset = zero_msg;
  tell_fs = λ m. ok tt;
}

abbrev segment : Descriptor
segment = record {
  limit_low = 0;
  base_low = 0;
  base_mid = 0;
  attr_low = 0;
  attr_high = 0;
  base_high = 0;
}

abbrev flags : ℕ → ℕ
flags i = if i == 5 then 12 else 4

abbrev procs : ℕ → Proc
procs i = record {
  p_flags = flags i;
  p_parent = if i == 6 then 5 else no_task;
  exit_status = 0;
  name = 0;
  ldt_sel = 0;
  ldts = λ j. segment;
}

-- What process `p` asks for.
abbrev request : ℕ → ℕ → Message
request type p = record zero_msg { type = type; source = p; m3i1 = 3 }

abbrev asked : ℕ → ℕ → Mm
asked type p = record { proc_table = procs; mm_msg = request type p; mem = λ i. 0; sent = [] }

procs-IsHandedOver : IsHandedOver 13 procs
procs-IsHandedOver = record {
  small = λ i. ground arith;
  handed = λ i l h. elim (Bool-cases (i == 5)) [
    | inl e ↦ let k : hangs procs i ≡ false = rw e refl in absurd (cc)
    | inr e ↦ let k : hangs procs i ≡ false = rw e refl in absurd (cc)
  ];
}

serve_mm-Handed_example : Handed 13 (do_wait machine (asked msg_wait 6))
unfolding serve_mm
serve_mm-Handed_example =
    serve_mm-Handed machine 0 0 (request msg_wait 6) (asked msg_wait 6)
      (do_wait machine (asked msg_wait 6)) procs-IsHandedOver (refl, refl) refl

alloc_mem-IsApart_example :
    ((0xa0_0000 + 4096 ≤ 0xb0_0000) ⊎ (0xb0_0000 + 8192 ≤ 0xa0_0000))
    × (0xa0_0000 ≤ 0xa0_0000)
    × (0xa0_0000 + 4096 < 0x100_0000)
unfolding alloc_mem
alloc_mem-IsApart_example =
    alloc_mem-IsApart machine 9 10 4096 8192 (omega arith) (omega arith) (omega arith) (omega arith)
      (omega arith) refl refl

-- A process whose only child has been cleaned up is not told that it has none: it waits for ever.
forgotten : Mm
forgotten = cleanup zero_msg 6 (asked msg_wait 5)

do_wait-forgotten : do_wait machine forgotten ≡ set_flags 5 12 forgotten
unfolding do_wait wait_from finish_wait forgotten
do_wait-forgotten = refl
