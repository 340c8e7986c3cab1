-- ===== src/Fs/Inode.antt =====
-- I-nodes and super blocks: `read_super_block`, `get_inode`, `put_inode` and `sync_inode` of
-- fs/main.c. A pointer into `inode_table` is an index, `none` for NULL.
use minx.Prelude.{
  ℕ, zero, suc, ◌+◌, ◌*◌, ◌/◌, ◌%◌, ◌-◌, Bool, ◌&&◌, ◌==◌, ltb, if◌then◌else◌, update, Option, none,
  some, Result, ok, stop, panic, check, ◌>>=◌, ◌>>◌,
}
use minx.Const.{sector_size, inode_size, nr_inode, nr_super_block, no_dev}
use minx.Fs.State.{
  Inode, SuperBlock, Fs, first_from, get_super_block, read32, write32, rd_sect, wr_sect,
  read_sector, has_driver, sect_pos,
}

abbrev pub set_inode : ℕ → Inode → Fs → Fs
set_inode p v s = record s { inode_table = update s.inode_table p v }

-- `*(struct super_block *)fsbuf`, with `sb_dev = dev`.
abbrev pub super_block_at : (ℕ → ℕ) → ℕ → SuperBlock
super_block_at buf dev = record {
  magic = read32 buf 0;
  nr_inodes = read32 buf 4;
  nr_sects = read32 buf 8;
  nr_imap_sects = read32 buf 12;
  nr_smap_sects = read32 buf 16;
  n_1st_sect = read32 buf 20;
  nr_inode_sects = read32 buf 24;
  root_inode = read32 buf 28;
  inode_size = read32 buf 32;
  inode_isize_off = read32 buf 36;
  inode_start_off = read32 buf 40;
  dir_ent_size = read32 buf 44;
  dir_ent_inode_off = read32 buf 48;
  dir_ent_fname_off = read32 buf 52;
  sb_dev = dev;
}

pub read_super_block : ℕ → Fs → Result Fs
read_super_block dev s = do
  check (has_driver dev)
  s1 ← read_sector dev (sector_size * 1) sector_size s
  elim (first_from nr_super_block (λ i. (s1.super_block i).sb_dev == no_dev) 0) [
    | none ↦ stop panic
    | some i ↦ do
      check (i == 0)
      ok (record s1 { super_block = update s1.super_block i (super_block_at s1.fsbuf dev) })
  ]

-- What the loop of `get_inode` finds: the i-node itself, else the first free slot.
pub data Slot : Type 0 where
  cached free : ℕ → Slot
  full : Slot

-- `p->i_dev == dev && p->i_num == num`
abbrev pub is_inode : ℕ → ℕ → Inode → Bool
is_inode dev num p = (p.i_dev == dev) && (p.i_num == num)

-- `q` after the round in which `p` is free.
abbrev pub first_free : ℕ → Option ℕ → Option ℕ
first_free p none = some p
first_free p (some q) = some q

-- The loop of `get_inode` from `p` on, with `left` slots left; `q` is the first free slot so far.
unfoldable pub scan_slots : ℕ → (ℕ → Inode) → ℕ → ℕ → ℕ → Option ℕ → Slot
scan_slots zero table dev num p none = full
scan_slots zero table dev num p (some q) = free q
scan_slots (suc left) table dev num p q =
    let rest =
      scan_slots left table dev num (p + 1) (if (table p).i_cnt == 0 then first_free p q else q) in
    if (table p).i_cnt == 0 then rest else if is_inode dev num (table p) then cached p else rest

-- The sector of an i-node of the device, and where it stands in the sector.
abbrev pub inode_sect : SuperBlock → ℕ → ℕ
inode_sect sb num =
    1 + 1 + sb.nr_imap_sects + sb.nr_smap_sects + (num - 1) / (sector_size / inode_size)

abbrev pub inode_off : ℕ → ℕ
inode_off num = (num - 1) % (sector_size / inode_size) * inode_size

-- Where an i-node stands on the device.
abbrev pub inode_pos : SuperBlock → ℕ → ℕ
inode_pos sb num = sect_pos (inode_sect sb num) + inode_off num

-- The slot as the i-node's own, and with the words that the buffer has at `off`.
abbrev pub taken_by : ℕ → ℕ → Inode → Inode
taken_by dev num v = record v { i_dev = dev; i_num = num; i_cnt = 1 }

abbrev pub with_words : (ℕ → ℕ) → ℕ → Inode → Inode
with_words buf off v = record v {
  i_mode = read32 buf off;
  i_size = read32 buf (off + 4);
  i_start_sect = read32 buf (off + 8);
  i_nr_sects = read32 buf (off + 12);
}

-- The part of `get_inode` after the loop: the i-node goes into slot `q`.
unfoldable pub load_inode : ℕ → ℕ → ℕ → Fs → Result Fs
load_inode dev num q s = do
  let taken = taken_by dev num (s.inode_table q)
  let s1 = set_inode q taken s
  b ← get_super_block dev s1
  s2 ← rd_sect dev (inode_sect (s1.super_block b) num) s1
  ok (set_inode q (with_words s2.fsbuf (inode_off num) taken) s2)

-- What `get_inode` does with the slot found.
unfoldable pub use_slot : ℕ → ℕ → Fs → Slot → Result (Option ℕ × Fs)
use_slot dev num s (cached p) =
    let v = s.inode_table p in ok (some p, set_inode p (record v { i_cnt = v.i_cnt + 1 }) s)
use_slot dev num s (free q) = do s1 ← load_inode dev num q s; ok (some q, s1)
use_slot dev num s full = stop panic

unfoldable pub get_inode : ℕ → ℕ → Fs → Result (Option ℕ × Fs)
get_inode dev zero s = ok (none, s)
get_inode dev (suc n) s =
    use_slot dev (suc n) s (scan_slots nr_inode s.inode_table dev (suc n) 0 none)

unfoldable pub put_inode : ℕ → Fs → Result Fs
put_inode p s = do
  let v = s.inode_table p
  check (ltb 0 v.i_cnt)
  ok (set_inode p (record v { i_cnt = v.i_cnt - 1 }) s)

-- The four words of an i-node, written into the buffer at `off`.
abbrev pub write_inode : (ℕ → ℕ) → ℕ → Inode → ℕ → ℕ
write_inode buf off v =
    write32
      (write32 (write32 (write32 buf off v.i_mode) (off + 4) v.i_size) (off + 8) v.i_start_sect)
      (off + 12) v.i_nr_sects

unfoldable pub sync_inode : ℕ → Fs → Result Fs
sync_inode p s = do
  let v = s.inode_table p
  b ← get_super_block v.i_dev s
  let nr = inode_sect (s.super_block b) v.i_num
  s1 ← rd_sect v.i_dev nr s
  wr_sect v.i_dev nr (record s1 { fsbuf = write_inode s1.fsbuf (inode_off v.i_num) v })
