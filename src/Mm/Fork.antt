-- ===== src/Mm/Fork.antt =====
-- `do_fork` of mm/fork.c.
use minx.Prelude.{
  ℕ, ◌+◌, ◌-◌, ◌*◌, ◌/◌, ◌%◌, ◌^◌, Bool, ◌&&◌, ◌==◌, leb, if◌then◌else◌, bit_and, has_flag, update,
  [], ◌∷◌, none, some, Result, ok, check, ◌>>=◌, ◌>>◌,
}
use minx.Prelude.Int.{ℤ, pos, negsuc}
use minx.Const.{task_fs, msg_fork, msg_syscall_ret}
use minx.Kernel.{Message}
use minx.Protect.{Descriptor}
use minx.Format.{vsprintf}
use minx.Strings.{Bytes}
use minx.Fs.State.{first_from}
use minx.Mm.State.{Platform, Proc, Mm, free_slot, set_proc, post}
use minx.Mm.Memory.{alloc_mem}

-- The number of the first free slot, or of the end of the table.
unfoldable pub find_slot : Platform → Mm → ℕ
find_slot pl s =
    let n = pl.nr_tasks + pl.nr_procs in
    elim (first_from n (λ i. (s.proc_table i).p_flags == free_slot) 0) [ none ↦ n | some i ↦ i ]

-- The bases, limits and sizes that the code compares. The size of the data segment is computed with
-- the limit of the text segment, as in the code. A size is the pattern of an `int` of 32 bits.
abbrev pub segment_base : Platform → Descriptor → ℕ
segment_base pl d = pl.reassembly d.base_high 24 d.base_mid 16 d.base_low

abbrev pub text_limit : Platform → Descriptor → ℕ
text_limit pl d = pl.reassembly 0 0 (bit_and d.attr_high 0xf) 16 d.limit_low

abbrev pub data_limit : Platform → Descriptor → ℕ
data_limit pl d = pl.reassembly (bit_and d.attr_high 0xf) 16 0 0 d.limit_low

abbrev pub segment_size : ℕ → Descriptor → ℕ
segment_size limit d = (limit + 1) * (if has_flag d.attr_high 0x80 then 4096 else 1) % 2 ^ 32

abbrev pub is_one_segment : Platform → Descriptor → Descriptor → Bool
is_one_segment pl text rw_data =
    segment_base pl text == segment_base pl rw_data
    && text_limit pl text == data_limit pl rw_data
    && segment_size (text_limit pl text) text == segment_size (text_limit pl text) rw_data

-- The table of the child's segments.
abbrev pub child_ldts : Platform → ℕ → (ℕ → Descriptor) → ℕ → Descriptor
child_ldts pl base ldts =
    let limit = (pl.proc_image_size_default - 1) / 2 ^ pl.limit_4k_shift in
    update (update ldts pl.index_ldt_c (pl.init_desc base limit 0xc0f8)) pl.index_ldt_rw
      (pl.init_desc base limit 0xc0f2)

-- The messages to the file system and to the child.
abbrev pub fork_msg : Message → ℕ → Message
fork_msg unset child_pid = record unset { type = msg_fork; m3i2 = child_pid }

abbrev pub birth_msg : Message → Message
birth_msg unset = record unset { type = msg_syscall_ret; m3i1 = 0; m3i2 = 0 }

-- The child's entry at `child_pid`, with its memory at `child_base`, and all that is told to others.
-- `mem1` is the memory with the child's name.
unfoldable pub give_birth : Platform → ℕ → ℕ → ℕ → Bytes → Mm → Mm
give_birth pl child_pid child_base size mem1 s =
    let pid = s.mm_msg.source in
    let parent = s.proc_table pid in
    let child : Proc = record parent {
      ldt_sel = (s.proc_table child_pid).ldt_sel;
      p_parent = pid;
      ldts = child_ldts pl child_base parent.ldts;
    } in
    post child_pid (birth_msg pl.unset) (
      post task_fs (fork_msg pl.unset child_pid) (record (set_proc child_pid child s) {
        mem = pl.phys_copy child_base (segment_base pl (parent.ldts pl.index_ldt_c)) size mem1;
        mm_msg = record (s.mm_msg) { m3i2 = child_pid };
      }))

-- From the copy of the entry on, for a slot of the table. `fmt` is the address of the text "%s_%d".
unfoldable pub fork_to : Platform → ℕ → ℕ → ℕ → Mm → Result (ℤ × Mm)
fork_to pl fuel fmt child_pid s = do
  let parent = s.proc_table s.mm_msg.source
  (len, mem1) ← vsprintf fuel parent.name fmt (parent.name ∷ child_pid ∷ []) s.mem
  let text = parent.ldts pl.index_ldt_c
  let size = segment_size (text_limit pl text) text
  check (is_one_segment pl text (parent.ldts pl.index_ldt_rw))
  child_base ← alloc_mem pl child_pid size
  pl.tell_fs (fork_msg pl.unset child_pid)
  ok (pos 0, give_birth pl child_pid child_base size mem1 s)

unfoldable pub do_fork : Platform → ℕ → ℕ → Mm → Result (ℤ × Mm)
do_fork pl fuel fmt s =
    let child_pid = find_slot pl s in
    check (leb (pl.nr_tasks + pl.nr_native_procs) child_pid)
    >> (if child_pid == pl.nr_tasks + pl.nr_procs
        then ok (negsuc 0, s)
        else fork_to pl fuel fmt child_pid s)
