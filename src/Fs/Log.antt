-- ===== src/Fs/Log.antt =====
-- The log of the file system, fs/disklog.c: `do_disklog` and `disklog`, with both options of
-- include/sys/config.h set. `pos` is the static variable. The device has at least as many sectors as
-- the log. `dump_fd_graph`, which only prints, is left out.
use minx.Prelude.{
  ℕ, zero, suc, ◌+◌, ◌-◌, ◌*◌, ◌/◌, ◌%◌, ◌^◌, ◌&&◌, ◌==◌, ltb, leb, true, false, if◌then◌else◌,
  update, min, bit_or, [], ◌∷◌, Result, ok, stop, hang, check, ◌>>=◌, ◌>>◌,
}
use minx.Const.{sector_size, nr_default_file_sects}
use minx.Strings.{Bytes, strlen}
use minx.Format.{vsprintf}
use minx.Fs.State.{Fs, copy, sect_pos, write_sector, rd_sect, wr_sect, get_super_block}

-- The file system and the position in the log.
pub record Log : Type 0 where
  pub fs : Fs
  pub pos : ℕ

-- STR_DEFAULT_LEN
abbrev pub str_default_len : ℕ
str_default_len = 1024

-- NR_SECTS_FOR_LOG
abbrev pub nr_sects_for_log : ℕ
nr_sects_for_log = nr_default_file_sects

-- The `for` over the bits of a byte, with `left` rounds left: the byte, and the bits that are still to
-- be set.
unfoldable pub mark_bits : ℕ → ℕ → ℕ → ℕ → Result (ℕ × ℕ)
mark_bits zero bit_off byte bits_left = ok (byte, bits_left)
mark_bits (suc left) bit_off byte bits_left =
    check (byte / 2 ^ bit_off % 2 == 0)
    >> (let v = bit_or byte (2 ^ bit_off) in
        let rest = mark_bits left (bit_off + 1) v (bits_left - 1) in
        if bits_left - 1 == 0 then ok (v, 0) else rest)

-- The `for` over the bytes of a sector.
unfoldable pub mark_bytes : ℕ → ℕ → ℕ → ℕ → Bytes → Result (Bytes × ℕ)
mark_bytes zero byte_off bit_off bits_left buf = ok (buf, bits_left)
mark_bytes (suc left) byte_off bit_off bits_left buf = elim (bits_left == 0) [
  | true ↦ ok (buf, bits_left)
  | false ↦ mark_bits (8 - bit_off) bit_off (buf byte_off) bits_left >>= λ (v, more).
      mark_bytes left (byte_off + 1) 0 more (update buf byte_off v)
]

-- The `for` over the sectors of the map, and the assertion behind it.
unfoldable pub mark_sects : ℕ → ℕ → ℕ → ℕ → ℕ → ℕ → Fs → Result Fs
mark_sects zero device nr byte_off bit_off bits_left s = check (bits_left == 0) >> ok s
mark_sects (suc left) device nr byte_off bit_off bits_left s = do
  s1 ← rd_sect device nr s
  (buf, more) ← mark_bytes (sector_size - byte_off) byte_off bit_off bits_left s1.fsbuf
  s2 ← wr_sect device nr (record s1 { fsbuf = buf })
  elim (more == 0) [ true ↦ ok s2 | false ↦ mark_sects left device (nr + 1) 0 0 more s2 ]

-- The sectors of the log, from `nr_log_blk0_nr` on, are marked as used.
unfoldable pub mark_log : ℕ → ℕ → ℕ → Fs → Result Fs
mark_log device nr_imap_sects nr_log_blk0_nr s =
    let bits_per_sect = sector_size * 8 in
    mark_sects (nr_sects_for_log / bits_per_sect + 2) device
      (1 + 1 + nr_imap_sects + nr_log_blk0_nr / bits_per_sect) (nr_log_blk0_nr % bits_per_sect / 8)
      (nr_log_blk0_nr % bits_per_sect % 8) nr_sects_for_log s

-- `memset(fsbuf + off, v, n)`
abbrev pub fill : ℕ → ℕ → ℕ → Bytes → ℕ → ℕ
fill off n v buf i = if leb off i && ltb i (off + n) then v else buf i

-- The `for` that fills the log with spaces, 256 sectors at once.
abbrev pub chunk : ℕ
chunk = 256

unfoldable pub pad_sects : ℕ → ℕ → ℕ → Fs → Result Fs
pad_sects zero device i s = ok s
pad_sects (suc left) device i s = do
  s1 ←
      write_sector device (sect_pos i) (chunk * sector_size)
        (record s { fsbuf = fill 0 (chunk * sector_size) 0x20 s.fsbuf })
  pad_sects left device (i + chunk) s1

-- What the first call does.
unfoldable pub start_log : ℕ → ℕ → ℕ → Fs → Result Log
start_log device nr_imap_sects nr_log_blk0_nr s = do
  s1 ← mark_log device nr_imap_sects nr_log_blk0_nr s
  s2 ← pad_sects (nr_sects_for_log / chunk) device nr_log_blk0_nr s1
  ok (record { fs = s2; pos = 0x40 })

-- The `while`: `bytes_left` bytes of the memory from `p` on, into the log from sector `sect_nr` on.
unfoldable pub log_loop : ℕ → ℕ → ℕ → ℕ → ℕ → Log → Result Log
log_loop zero device sect_nr p bytes_left l = stop hang
log_loop (suc fuel) device sect_nr p bytes_left l = elim (bytes_left == 0) [
  | true ↦ ok l
  | false ↦
      let off = l.pos % sector_size in
      let bytes = min bytes_left (sector_size - off) in
      rd_sect device sect_nr l.fs >>= λ s1.
      wr_sect device sect_nr (record s1 { fsbuf = copy s1.fsbuf off s1.memory p bytes }) >>= λ s2.
      log_loop fuel device (sect_nr + 1) (p + bytes) (bytes_left - bytes)
        (record { fs = s2; pos = l.pos + bytes })
]

-- The text "%8d\n", at an address behind the buffer.
abbrev pub pos_format : ℕ
pos_format = 0x10_0000

abbrev pub with_format : Bytes → Bytes
with_format buf i =
    if i == pos_format
    then b'%'
    else if i == pos_format + 1
    then b'8'
    else if i == pos_format + 2
    then b'd'
    else if i == pos_format + 3
    then 10
    else if i == pos_format + 4
    then 0
    else buf i

-- The header of the log: `sprintf` of the position, and lines of spaces.
unfoldable pub header : ℕ → Bytes → Result Bytes
header pos buf = do
  (n, m) ← vsprintf 64 0 pos_format (pos ∷ []) (with_format buf)
  ok (update (fill 32 31 0x20 (update (fill 9 22 0x20 m) 31 10)) 63 10)

unfoldable pub write_header : ℕ → ℕ → Log → Result Log
write_header device nr_log_blk0_nr l = do
  s1 ← rd_sect device nr_log_blk0_nr l.fs
  buf ← header l.pos s1.fsbuf
  s2 ← wr_sect device nr_log_blk0_nr (record s1 { fsbuf = buf })
  let last = fill 64 448 (s2.fsbuf 51) s2.fsbuf
  s3 ← wr_sect device (nr_log_blk0_nr + nr_sects_for_log - 1) (record s2 { fsbuf = last })
  ok (record { fs = s3; pos = l.pos })

-- `disklog`; `fuel` is for `strlen` and the `while`.
unfoldable pub disklog : ℕ → ℕ → Log → Result (ℕ × Log)
disklog fuel logstr l = do
  let device = (l.fs.inode_table l.fs.root_inode).i_dev
  sb ← get_super_block device l.fs
  let nr_log_blk0_nr = (l.fs.super_block sb).nr_sects - nr_sects_for_log
  l1 ←
      (if l.pos == 0
        then start_log device (l.fs.super_block sb).nr_imap_sects nr_log_blk0_nr l.fs
        else ok l)
  bytes_left ← strlen fuel l1.fs.memory logstr
  l2 ← log_loop fuel device (nr_log_blk0_nr + l1.pos / 2 ^ 9) logstr bytes_left l1
  l3 ← write_header device nr_log_blk0_nr l2
  ok (l3.pos, l3)

-- `do_disklog`; `buf` is where its copy of the text stands.
unfoldable pub do_disklog : ℕ → ℕ → Log → Result (ℕ × Log)
do_disklog fuel buf l = do
  let m = l.fs.fs_msg
  check (ltb m.m3i2 str_default_len)
  let memory = update (copy l.fs.memory buf l.fs.memory m.m3p2 m.m3i2) (buf + m.m3i2) 0
  disklog fuel buf (record l { fs = record (l.fs) { memory = memory } })
