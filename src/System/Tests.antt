-- ===== src/System/Tests.antt =====
-- The calls with a full table of processes.
use minx.Prelude.{◌≡◌, ok, stop, assertion, [], arith}
use minx.Kernel.{zero_msg}
use minx.Protect.{Descriptor, init_descriptor}
use minx.Mm.State.{Platform, Proc, Mm}
use minx.System.{get_current_pid, fork_process}
use minx.System.Fails.{get_current_pid_lem, fork_process-fails}

abbrev machine : Platform
machine = record {
  nr_tasks = 5;
  nr_procs = 4;
  nr_native_procs = 4;
  init = 8;
  procs_base = 0xa0_0000;
  proc_image_size_default = 0x10_0000;
  memory_size = 0x100_0000;
  index_ldt_c = 0;
  index_ldt_rw = 1;
  limit_4k_shift = 12;
  reassembly = λ high high_shift mid mid_shift low. low;
  init_desc = init_descriptor;
  phys_copy = λ dst src size m. m;
  unset = zero_msg;
  tell_fs = λ m. stop assertion;
}

abbrev segment : Descriptor
segment = record {
  limit_low = 0;
  base_low = 0;
  base_mid = 0;
  attr_low = 0;
  attr_high = 0;
  base_high = 0;
}

abbrev busy : Proc
busy = record {
  p_flags = 4;
  p_parent = 29;
  exit_status = 0;
  name = 0;
  ldt_sel = 0;
  ldts = λ j. segment;
}

abbrev full : Mm
full = record { proc_table = λ i. busy; mm_msg = zero_msg; mem = λ i. 0; sent = [] }

get_current_pid_lem_case : get_current_pid zero_msg 7 123 ≡ ok 7
get_current_pid_lem_case = get_current_pid_lem zero_msg 7 123

fork_process-fails_example : fork_process machine 10 0 zero_msg 7 full ≡ stop assertion
fork_process-fails_example =
    fork_process-fails machine 10 0 zero_msg 7 full (λ j l. omega arith) (omega arith)
