-- ===== src/Mm/State.antt =====
-- The state of the memory manager, and `cleanup` of mm/fork.c.
use minx.Prelude.{ℕ, ◌∷◌, List, update, Result}
use minx.Const.{msg_syscall_ret}
use minx.Kernel.{Message}
use minx.Protect.{Descriptor}
use minx.Strings.{Bytes}

-- What mm/main.c and mm/fork.c use that no file declares. `unset` has the members of a message on the
-- stack that are not set. `tell_fs` is what becomes of `send_recv(BOTH, TASK_FS, &msg)`: it returns, or
-- the system stops. With the file system of this commit it stops for FORK and EXIT, whose cases in
-- fs/main.c are commented out.
pub record Platform : Type 0 where
  pub nr_tasks : ℕ
  pub nr_procs : ℕ
  pub nr_native_procs : ℕ
  pub init : ℕ
  pub procs_base : ℕ
  pub proc_image_size_default : ℕ
  pub memory_size : ℕ
  pub index_ldt_c : ℕ
  pub index_ldt_rw : ℕ
  pub limit_4k_shift : ℕ
  pub reassembly : ℕ → ℕ → ℕ → ℕ → ℕ → ℕ
  pub init_desc : ℕ → ℕ → ℕ → Descriptor
  pub phys_copy : ℕ → ℕ → ℕ → Bytes → Bytes
  pub unset : Message
  pub tell_fs : Message → Result (Unit {0})

-- An entry of `proc_table`: the fields that mm/fork.c uses. `name` is the address of the name.
pub record Proc : Type 0 where
  pub p_flags : ℕ
  pub p_parent : ℕ
  pub exit_status : ℕ
  pub name : ℕ
  pub ldt_sel : ℕ
  pub ldts : ℕ → Descriptor

-- `proc_table`, the message that is served, the memory, and the messages sent with their receivers.
pub record Mm : Type 0 where
  pub proc_table : ℕ → Proc
  pub mm_msg : Message
  pub mem : Bytes
  pub sent : List (ℕ × Message)

abbrev pub waiting : ℕ
waiting = 8

abbrev pub hanging : ℕ
hanging = 16

abbrev pub free_slot : ℕ
free_slot = 32

abbrev pub set_proc : ℕ → Proc → Mm → Mm
set_proc i v s = record s { proc_table = update s.proc_table i v }

abbrev pub set_flags : ℕ → ℕ → Mm → Mm
set_flags i flags s = set_proc i (record (s.proc_table i) { p_flags = flags }) s

-- `send_recv(SEND, dest, &m)`
abbrev pub post : ℕ → Message → Mm → Mm
post dest m s = record s { sent = (dest, m) ∷ s.sent }

-- The message of `cleanup` to the parent, and `cleanup` of process `i`.
abbrev pub farewell : Message → ℕ → ℕ → Message
farewell unset i status = record unset { type = msg_syscall_ret; m3i2 = i; m3i1 = status }

abbrev pub cleanup : Message → ℕ → Mm → Mm
cleanup unset i s =
    let p = s.proc_table i in
    set_flags i free_slot (post p.p_parent (farewell unset i p.exit_status) s)
