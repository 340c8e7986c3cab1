-- ===== src/Fs/Mkfs.antt =====
-- A new file system: `mkfs` and `init_fs` of fs/main.c. `geo_size`, the number of sectors of the
-- partition, is what the driver answers to DIOCTL_GET_GEO.
use minx.Prelude.{
  ℕ, zero, suc, ◌+◌, ◌*◌, ◌/◌, ◌%◌, ◌-◌, ◌^◌, ◌==◌, ltb, if◌then◌else◌, update, none, Result, ok,
  check, bit_or, ◌>>=◌, ◌>>◌, List, [], ◌∷◌,
}
use minx.Const.{
  sector_size, inode_size, dir_entry_size, no_dev, magic_v1, nr_default_file_sects, i_directory,
  i_char_special, root_inode_nr,
}
use minx.Tty.{nr_tty}
use minx.Fs.State.{Inode, SuperBlock, Fs, make_dev, has_driver, get_super_block, wr_sect, write32}
use minx.Fs.Inode.{read_super_block, get_inode, write_inode}
use minx.Fs.Dir.{write_text}
use minx.Fs.Open.{deref}

-- `MAKE_DEV(DEV_HD, MINOR_BOOT)`
abbrev pub root_dev : ℕ
root_dev = make_dev 3 0x20

abbrev pub bits_per_sect : ℕ
bits_per_sect = sector_size * 8

abbrev pub new_super_block : ℕ → SuperBlock
new_super_block geo_size =
    let nr_smap_sects = geo_size / bits_per_sect + 1 in
    let nr_inode_sects = bits_per_sect * inode_size / sector_size in
    record {
      magic = magic_v1;
      nr_inodes = bits_per_sect;
      nr_inode_sects = nr_inode_sects;
      nr_sects = geo_size;
      nr_imap_sects = 1;
      nr_smap_sects = nr_smap_sects;
      n_1st_sect = 1 + 1 + 1 + nr_smap_sects + nr_inode_sects;
      root_inode = root_inode_nr;
      inode_size = inode_size;
      inode_isize_off = 4;
      inode_start_off = 8;
      dir_ent_size = dir_entry_size;
      dir_ent_inode_off = 0;
      dir_ent_fname_off = 4;
      sb_dev = no_dev;
    }

-- `memset(fsbuf, v, SECTOR_SIZE)`
abbrev pub fill_sector : ℕ → Fs → Fs
fill_sector v s = record s { fsbuf = λ i. if ltb i sector_size then v else s.fsbuf i }

-- Words of 32 bits from `off` on.
unfoldable pub write_words : List ℕ → ℕ → (ℕ → ℕ) → ℕ → ℕ
write_words [] off buf = buf
write_words (w ∷ ws) off buf = write_words ws (off + 4) (write32 buf off w)

-- `memcpy(fsbuf, &sb, SUPER_BLOCK_SIZE)`
unfoldable pub super_block_words : SuperBlock → List ℕ
super_block_words sb =
    sb.magic ∷ sb.nr_inodes ∷ sb.nr_sects ∷ sb.nr_imap_sects ∷ sb.nr_smap_sects ∷ sb.n_1st_sect
    ∷ sb.nr_inode_sects ∷ sb.root_inode ∷ sb.inode_size ∷ sb.inode_isize_off ∷ sb.inode_start_off
    ∷ sb.dir_ent_size ∷ sb.dir_ent_inode_off ∷ sb.dir_ent_fname_off ∷ []

-- `for (i = 0; i < n; i++) byte |= 1 << i;`
unfoldable pub or_bits : ℕ → ℕ → ℕ → ℕ
or_bits zero i byte = byte
or_bits (suc left) i byte = or_bits left (i + 1) (bit_or byte (2 ^ i))

-- The first sector of the map of sectors, with `nr_sects` of them taken.
abbrev pub smap_start : ℕ → (ℕ → ℕ) → ℕ → ℕ
smap_start nr_sects buf i =
    if ltb i (nr_sects / 8)
    then 0xff
    else if i == nr_sects / 8
    then or_bits (nr_sects % 8) 0 (buf i)
    else buf i

-- The loop that writes the rest of the map of sectors, from sector `i` of it on.
unfoldable pub clear_smap : ℕ → ℕ → ℕ → Fs → Result Fs
clear_smap zero first i s = ok s
clear_smap (suc left) first i s = do
  s1 ← wr_sect root_dev (first + i) s
  clear_smap left first (i + 1) s1

-- An i-node as `mkfs` writes it; only the words that go to the disk matter.
abbrev pub disk_inode : ℕ → ℕ → ℕ → ℕ → Inode
disk_inode mode size start_sect nr_sects = record {
  i_mode = mode;
  i_size = size;
  i_start_sect = start_sect;
  i_nr_sects = nr_sects;
  i_dev = 0;
  i_cnt = 0;
  i_num = 0;
}

-- The i-nodes of the terminals, from the `i`-th on.
unfoldable pub tty_inodes : ℕ → ℕ → (ℕ → ℕ) → ℕ → ℕ
tty_inodes zero i buf = buf
tty_inodes (suc left) i buf =
    tty_inodes left (i + 1)
      (write_inode buf (inode_size * (i + 1)) (disk_inode i_char_special 0 (make_dev 4 i) 0))

-- The characters `dev_tty` and the digit `i`.
abbrev pub tty_name : ℕ → List ℕ
tty_name i = 100 ∷ 101 ∷ 118 ∷ 95 ∷ 116 ∷ 116 ∷ 121 ∷ (48 + i) ∷ []

-- The entries of the terminals, from the `i`-th on.
unfoldable pub tty_entries : ℕ → ℕ → (ℕ → ℕ) → ℕ → ℕ
tty_entries zero i buf = buf
tty_entries (suc left) i buf =
    let pde = dir_entry_size * (i + 1) in
    tty_entries left (i + 1) (write_text (write32 buf pde (i + 2)) (pde + 4) (tty_name i))

-- The boot sector and the super block come before the maps.
unfoldable pub mkfs : ℕ → Fs → Result Fs
mkfs geo_size s0 = do
  check (has_driver root_dev)
  let sb = new_super_block geo_size
  let s1 = fill_sector 0x90 s0
  s2 ← wr_sect root_dev 1 (record s1 { fsbuf = write_words (super_block_words sb) 0 s1.fsbuf })
  let s3 = fill_sector 0 s2
  s4 ←
      wr_sect root_dev 2
        (record s3 { fsbuf = update s3.fsbuf 0 (or_bits (nr_tty + 2) 0 (s3.fsbuf 0)) })
  let s5 = fill_sector 0 s4
  s6 ←
      wr_sect root_dev (2 + sb.nr_imap_sects)
        (record s5 { fsbuf = smap_start (nr_default_file_sects + 1) s5.fsbuf })
  s7 ← clear_smap (sb.nr_smap_sects - 1) (2 + sb.nr_imap_sects) 1 (fill_sector 0 s6)
  let s8 = fill_sector 0 s7
  let root =
      disk_inode i_directory (dir_entry_size * (nr_tty + 1)) sb.n_1st_sect nr_default_file_sects
  s9 ←
      wr_sect root_dev (2 + sb.nr_imap_sects + sb.nr_smap_sects)
        (record s8 { fsbuf = tty_inodes nr_tty 0 (write_inode s8.fsbuf 0 root) })
  let s10 = fill_sector 0 s9
  wr_sect root_dev sb.n_1st_sect
      (record s10 { fsbuf = tty_entries nr_tty 0 (write_text (write32 s10.fsbuf 0 1) 4 (46 ∷ [])) })

-- The tables as the loops of `init_fs` leave them.
abbrev pub clear_tables : Fs → Fs
clear_tables s = record s {
  f_desc_table = λ i. record { fd_mode = 0; fd_pos = 0; fd_inode = none };
  inode_table = λ i. disk_inode 0 0 0 0;
  super_block = λ i. record (s.super_block i) { sb_dev = no_dev };
}

unfoldable pub init_fs : ℕ → Fs → Result Fs
init_fs geo_size s = do
  check (has_driver root_dev)
  s1 ← mkfs geo_size (clear_tables s)
  s2 ← read_super_block root_dev s1
  b ← get_super_block root_dev s2
  check ((s2.super_block b).magic == magic_v1)
  (root, s3) ← get_inode root_dev root_inode_nr s2
  r ← deref root
  ok (record s3 { root_inode = r })
