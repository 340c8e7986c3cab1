-- ===== src/Fs/Rdwt.antt =====
-- Reading and writing of files: `do_rdwt` of fs/read_write.c. Counts are those of an `int` that is
-- not negative.
use minx.Prelude.{
  ℕ, zero, suc, ◌+◌, ◌*◌, ◌/◌, ◌%◌, ◌^◌, ◌-◌, min, Bool, true, false, not, ◌||◌, ◌==◌, ltb,
  if◌then◌else◌, update, Result, ok, stop, hang, overflow, check, has_flag, bit_and, ◌>>=◌, ◌>>◌,
}
use minx.Prelude.Int.{ℤ, pos, negsuc}
use minx.Kernel.{Message}
use minx.Const.{
  sector_size, fsbuf_size, i_type_mask, i_char_special, i_directory, i_regular, o_rdwr, msg_read,
  msg_write, msg_dev_read, msg_dev_write,
}
use minx.Fs.State.{Fs, has_driver, major, minor, sect_pos, copy, read_sector, write_sector}
use minx.Fs.Inode.{set_inode, sync_inode}
use minx.Fs.Open.{deref, is_unset}

-- What stays the same in the loop: READ or WRITE, the descriptor, the i-node, the caller's buffer,
-- `chunk` and `rw_sect_max`.
pub record Job : Type 0 where
  pub reads : Bool
  pub desc : ℕ
  pub pin : ℕ
  pub buf : ℕ
  pub chunk : ℕ
  pub rw_sect_max : ℕ

-- `fd_pos += bytes`
abbrev pub advance_pos : ℕ → ℕ → Fs → Fs
advance_pos i bytes s =
    let f = s.f_desc_table i in
    record s { f_desc_table = update s.f_desc_table i (record f { fd_pos = f.fd_pos + bytes }) }

-- The two calls of `memcpy`: `bytes` bytes of `fsbuf` from `off` on go to the caller or come from it,
-- `done` bytes into its buffer.
abbrev pub to_caller : Job → ℕ → ℕ → ℕ → Fs → Fs
to_caller job off done bytes s = record s {
  memory = copy s.memory (job.buf + done) s.fsbuf off bytes;
}

abbrev pub from_caller : Job → ℕ → ℕ → ℕ → Fs → Fs
from_caller job off done bytes s = record s {
  fsbuf = copy s.fsbuf off s.memory (job.buf + done) bytes;
}

-- The body of the loop, at sector `i`.
unfoldable pub transfer : Job → ℕ → ℕ → ℕ → ℕ → Fs → Result Fs
transfer job i off done bytes s = do
  let dev = (s.inode_table job.pin).i_dev
  s1 ← read_sector dev (sect_pos i) (job.chunk * sector_size) s
  if job.reads
      then ok (to_caller job off done bytes s1)
      else write_sector dev (sect_pos i) (job.chunk * sector_size)
          (from_caller job off done bytes s1)

-- The loop from sector `i` on; the result is `bytes_rw`.
unfoldable pub rdwt_loop : ℕ → Job → ℕ → ℕ → ℕ → ℕ → Fs → Result (ℕ × Fs)
rdwt_loop zero job i off bytes_rw bytes_left s = stop hang
rdwt_loop (suc fuel) job i off bytes_rw bytes_left s = elim (ltb job.rw_sect_max i) [
  | true ↦ ok (bytes_rw, s)
  | false ↦ do
    let bytes = min bytes_left (job.chunk * sector_size - off)
    s1 ← transfer job i off bytes_rw bytes s
    rdwt_loop fuel job (i + job.chunk) 0 (bytes_rw + bytes) (bytes_left - bytes)
        (advance_pos job.desc bytes s1)
]

-- The end of `do_rdwt`: a file that the position is past grows.
unfoldable pub grow : ℕ → ℕ → Fs → Result Fs
grow i pin s =
    let fd_pos = (s.f_desc_table i).fd_pos in
    let v = s.inode_table pin in
    if ltb v.i_size fd_pos
    then sync_inode pin (set_inode pin (record v { i_size = fd_pos }) s)
    else ok s

-- The loop and what follows it.
unfoldable pub run_job : ℕ → Job → ℕ → ℕ → ℕ → Fs → Result (ℤ × Fs)
run_job fuel job rw_sect_min off len s = do
  (bytes_rw, s1) ← rdwt_loop fuel job rw_sect_min off 0 len s
  s2 ← grow job.desc job.pin s1
  ok (pos bytes_rw, s2)

-- An `int` that overflows stops the model.
abbrev pub bounded : ℕ → Result (Unit {0})
bounded n = if ltb n (2 ^ 31) then ok tt else stop overflow

-- The branch of `do_rdwt` for files and directories. The size of the sectors of a file is a number of
-- 32 bits without a sign; an int that would overflow stops. The difference of the two sectors, plus
-- 1, is below 1 only if the loop ends at once. One round more than there are sectors is enough.
unfoldable pub rdwt_file : ℕ → ℕ → ℕ → ℕ → ℕ → Fs → Result (ℤ × Fs)
rdwt_file type i pin buf len s = do
  let reads = type == msg_read
  let v = s.inode_table pin
  let position = (s.f_desc_table i).fd_pos
  check (v.i_mode == i_regular || v.i_mode == i_directory)
  check (type == msg_read || type == msg_write)
  bounded (position + len)
  let pos_end =
      min (position + len) (if reads then v.i_size else v.i_nr_sects * sector_size % 2 ^ 32)
  let rw_sect_min = v.i_start_sect + position / sector_size
  let rw_sect_max = v.i_start_sect + pos_end / sector_size
  bounded rw_sect_max
  let chunk = min (rw_sect_max + 1 - rw_sect_min) (fsbuf_size / sector_size)
  let job : Job = record {
    reads = reads;
    desc = i;
    pin = pin;
    buf = buf;
    chunk = chunk;
    rw_sect_max = rw_sect_max;
  }
  run_job (suc (rw_sect_max + 1 - rw_sect_min)) job rw_sect_min (position % sector_size) len s

module _ (answer : Message → Message) where
  -- The branch of `do_rdwt` for terminals; `answer` is what the driver makes of the message.
  unfoldable pub rdwt_special : ℕ → ℕ → ℕ → Fs → Result (ℤ × Fs)
  rdwt_special dev buf len s = do
    let m = s.fs_msg
    check (major dev == 4)
    check (has_driver dev)
    let asked = record m {
      type = if m.type == msg_read then msg_dev_read else msg_dev_write;
      m3i4 = minor dev;
      m3p2 = buf;
      m3i2 = len;
      m3i3 = m.source;
    }
    let told = answer asked
    check (told.m3i2 == len)
    ok (pos told.m3i2, record s { fs_msg = told })

  -- What `do_rdwt` does with the i-node of the descriptor `i`.
  unfoldable pub rdwt_inode : ℕ → ℕ → Fs → Result (ℤ × Fs)
  rdwt_inode i pin s =
      let m = s.fs_msg in
      if bit_and (s.inode_table pin).i_mode i_type_mask == i_char_special
      then rdwt_special (s.inode_table pin).i_start_sect m.m3p2 m.m3i2 s
      else rdwt_file m.type i pin m.m3p2 m.m3i2 s

  -- What it does with the descriptor.
  unfoldable pub rdwt_desc : ℕ → Fs → Result (ℤ × Fs)
  rdwt_desc i s =
      let file = (do
        check (not (is_unset (s.f_desc_table i).fd_inode))
        pin ← deref (s.f_desc_table i).fd_inode
        rdwt_inode i pin s) in
      if has_flag (s.f_desc_table i).fd_mode o_rdwr then file else ok (negsuc 0, s)

  unfoldable pub do_rdwt : Fs → Result (ℤ × Fs)
  do_rdwt s = do
    let fd = s.fs_msg.m3i1
    check (not (is_unset (s.filp s.pcaller fd)))
    i ← deref (s.filp s.pcaller fd)
    rdwt_desc i s
