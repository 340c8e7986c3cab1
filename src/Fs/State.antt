-- ===== src/Fs/State.antt =====
-- The state of the file system: the structures of include/sys/fs.h, the tables of lib/global.c, and
-- `rw_sector` of fs/main.c. An `int` is its 32-bit pattern.
use minx.Prelude.{
  ℕ, zero, suc, ◌+◌, ◌*◌, ◌/◌, ◌%◌, ◌^◌, ◌-◌, bit_or, Bool, not, ◌&&◌, ◌==◌, ltb, leb,
  if◌then◌else◌, update, Option, none, some, Result, ok, stop, panic, hang, check, ◌>>◌,
}
use minx.Const.{sector_size, task_tty, task_hd, invalid_driver, nr_super_block}
use minx.Kernel.{Message}

-- The members of `struct inode` in use.
pub record Inode : Type 0 where
  pub i_mode : ℕ
  pub i_size : ℕ
  pub i_start_sect : ℕ
  pub i_nr_sects : ℕ
  pub i_dev : ℕ
  pub i_cnt : ℕ
  pub i_num : ℕ

-- `struct super_block`
pub record SuperBlock : Type 0 where
  pub magic : ℕ
  pub nr_inodes : ℕ
  pub nr_sects : ℕ
  pub nr_imap_sects : ℕ
  pub nr_smap_sects : ℕ
  pub n_1st_sect : ℕ
  pub nr_inode_sects : ℕ
  pub root_inode : ℕ
  pub inode_size : ℕ
  pub inode_isize_off : ℕ
  pub inode_start_off : ℕ
  pub dir_ent_size : ℕ
  pub dir_ent_inode_off : ℕ
  pub dir_ent_fname_off : ℕ
  pub sb_dev : ℕ

-- `FILE_DESC`: the pointer to the i-node is an index of `inode_table`, `none` for NULL.
pub record FileDesc : Type 0 where
  pub fd_mode : ℕ
  pub fd_pos : ℕ
  pub fd_inode : Option ℕ

-- The globals of the file system. `disk` holds the bytes of each device at each position, `memory`
-- those of the callers, and `filp` the descriptors of each process as indices of `f_desc_table`.
-- `fs_msg` is the message being served; `pcaller` is the entry of its sender.
pub record Fs : Type 0 where
  pub disk : ℕ → ℕ → ℕ
  pub fsbuf : ℕ → ℕ
  pub memory : ℕ → ℕ
  pub inode_table : ℕ → Inode
  pub super_block : ℕ → SuperBlock
  pub f_desc_table : ℕ → FileDesc
  pub filp : ℕ → ℕ → Option ℕ
  pub root_inode : ℕ
  pub fs_msg : Message
  pub pcaller : ℕ

-- `MAKE_DEV`, `MAJOR` and `MINOR`
abbrev pub make_dev : ℕ → ℕ → ℕ
make_dev a b = bit_or (a * 2 ^ 8) b

abbrev pub major : ℕ → ℕ
major dev = dev / 2 ^ 8 % 256

abbrev pub minor : ℕ → ℕ
minor dev = dev % 256

-- `dd_map[k].driver_nr`
abbrev pub driver_nr : ℕ → ℕ
driver_nr k = if k == 3 then task_hd else if k == 4 then task_tty else invalid_driver

-- `assert(dd_map[MAJOR(dev)].driver_nr != INVALID_DRIVER)`
abbrev pub has_driver : ℕ → Bool
has_driver dev = not (driver_nr (major dev) == invalid_driver)

-- The position of a sector: an `int` of 32 bits, whose sign is extended to 64 bits.
abbrev pub sect_pos : ℕ → ℕ
sect_pos nr =
    let p = nr * sector_size % 2 ^ 32 in if ltb p (2 ^ 31) then p else p + (2 ^ 64 - 2 ^ 32)

-- The most sectors of one command: its count has 8 bits, of which 0 stands for 256. Behind these
-- a READ waits for ever and a WRITE panics.
abbrev pub max_sectors : ℕ
max_sectors = 256

-- `bytes` bytes of `src` from `from` on, copied over `dst` from `to` on.
abbrev pub copy : (ℕ → ℕ) → ℕ → (ℕ → ℕ) → ℕ → ℕ → ℕ → ℕ
copy dst to src from bytes i = if leb to i && ltb i (to + bytes) then src (from + i - to) else dst i

-- `rw_sector` with DEV_READ, into `fsbuf`.
unfoldable pub read_sector : ℕ → ℕ → ℕ → Fs → Result Fs
read_sector dev position bytes s = do
  check (has_driver dev)
  if leb bytes (max_sectors * sector_size)
      then ok (record s { fsbuf = copy s.fsbuf 0 (s.disk dev) position bytes })
      else stop hang

-- `rw_sector` with DEV_WRITE, from `fsbuf`.
unfoldable pub write_sector : ℕ → ℕ → ℕ → Fs → Result Fs
write_sector dev position bytes s = do
  check (has_driver dev)
  if leb bytes (max_sectors * sector_size)
      then ok (record s { disk = update s.disk dev (copy (s.disk dev) position s.fsbuf 0 bytes) })
      else stop panic

-- `RD_SECT`
abbrev pub rd_sect : ℕ → ℕ → Fs → Result Fs
rd_sect dev nr s = read_sector dev (sect_pos nr) sector_size s

-- `WR_SECT`
abbrev pub wr_sect : ℕ → ℕ → Fs → Result Fs
wr_sect dev nr s = write_sector dev (sect_pos nr) sector_size s

-- A `for` that looks for the first index from `j` on that passes a test, with `left` rounds left.
unfoldable pub first_from : ℕ → (ℕ → Bool) → ℕ → Option ℕ
first_from zero test j = none
first_from (suc left) test j =
    let rest = first_from left test (j + 1) in if test j then some j else rest

-- The index of the super block of the device.
unfoldable pub get_super_block : ℕ → Fs → Result ℕ
get_super_block dev s = elim (first_from nr_super_block (λ i. (s.super_block i).sb_dev == dev) 0) [
  | none ↦ stop panic
  | some i ↦ ok i
]

-- The little-endian 32-bit word at `off` of a buffer, and a write to it.
abbrev pub read32 : (ℕ → ℕ) → ℕ → ℕ
read32 buf off = buf off + buf (off + 1) * 2 ^ 8 + buf (off + 2) * 2 ^ 16 + buf (off + 3) * 2 ^ 24

abbrev pub write32 : (ℕ → ℕ) → ℕ → ℕ → ℕ → ℕ
write32 buf off v i =
    if i == off
    then v % 2 ^ 8
    else if i == off + 1
    then v / 2 ^ 8 % 2 ^ 8
    else if i == off + 2
    then v / 2 ^ 16 % 2 ^ 8
    else if i == off + 3
    then v / 2 ^ 24 % 2 ^ 8
    else buf i
