-- ===== src/Fs/Unlink.antt =====
-- Removal of files: `do_unlink` of fs/link.c.
use minx.Prelude.{
  ℕ, zero, suc, ◌+◌, ◌*◌, ◌/◌, ◌%◌, ◌-◌, ◌^◌, Bool, true, false, not, ◌&&◌, ◌||◌, ◌==◌, ltb, leb,
  if◌then◌else◌, update, none, some, Result, ok, check, ◌>>=◌, ◌>>◌, List, [], ◌∷◌,
}
use minx.Prelude.Int.{ℤ, pos, negsuc}
use minx.Const.{sector_size, dir_entry_size, i_regular}
use minx.Fs.State.{Fs, SuperBlock, get_super_block, read32, rd_sect, wr_sect}
use minx.Fs.Inode.{set_inode, get_inode, put_inode, sync_inode}
use minx.Fs.Dir.{search_file}
use minx.Fs.Alloc.{bit}
use minx.Fs.Open.{deref, pathname_of}
use minx.Fs.{strip_path, slash}

-- `byte & ~(1 << k)`
abbrev pub clear_bit : ℕ → ℕ → ℕ
clear_bit byte k = byte - bit byte k * 2 ^ k

-- `fsbuf[at] = v`
abbrev pub set_byte : ℕ → ℕ → Fs → Fs
set_byte at v s = record s { fsbuf = update s.fsbuf at v }

-- The part that frees the bit of the i-node.
unfoldable pub free_imap_bit : ℕ → ℕ → Fs → Result Fs
free_imap_bit dev inode_nr s = do
  let byte_idx = inode_nr / 8
  let bit_idx = inode_nr % 8
  check (ltb byte_idx sector_size)
  s1 ← rd_sect dev 2 s
  let byte = s1.fsbuf (byte_idx % sector_size)
  check (bit byte bit_idx == 1)
  wr_sect dev 2 (set_byte (byte_idx % sector_size) (clear_bit byte bit_idx) s1)

-- The first byte: the bits from `i` on, at most `bits_left`. The result is the byte and `bits_left`.
unfoldable pub clear_first : ℕ → ℕ → ℕ → ℕ → Result (ℕ × ℕ)
clear_first zero byte i bits_left = ok (byte, bits_left)
clear_first (suc left) byte i bits_left = elim (bits_left == 0) [
  | true ↦ ok (byte, bits_left)
  | false ↦ do check (bit byte i == 1); clear_first left (clear_bit byte i) (i + 1) (bits_left - 1)
]

-- `if (i == SECTOR_SIZE)`: the buffer goes back to the disk, and the next sector comes in. The
-- result is `i`, `s` and the state.
unfoldable pub turn_sector : ℕ → ℕ → ℕ → Fs → Result (ℕ × ℕ × Fs)
turn_sector dev i nr s = elim (i == sector_size) [
  | true ↦ do s1 ← wr_sect dev nr s; s2 ← rd_sect dev (nr + 1) s1; ok (0, nr + 1, s2)
  | false ↦ ok (i, nr, s)
]

-- The bytes that are freed whole.
unfoldable pub clear_bytes : ℕ → ℕ → ℕ → ℕ → Fs → Result (ℕ × ℕ × Fs)
clear_bytes zero dev i nr s = ok (i, nr, s)
clear_bytes (suc byte_cnt) dev i nr s = do
  (i', nr', s1) ← turn_sector dev i nr s
  check (s1.fsbuf i' == 0xff)
  clear_bytes byte_cnt dev (i' + 1) nr' (set_byte i' 0 s1)

-- The part that frees the bits of the sectors, from bit `first` of the map on. The C division of a
-- negative count of bytes gives 0, as long as a file has sectors.
unfoldable pub free_smap_bits : ℕ → SuperBlock → ℕ → ℕ → Fs → Result Fs
free_smap_bits dev sb first nr_sects s = do
  let byte_idx = first / 8
  let byte_cnt = (nr_sects - (8 - first % 8)) / 8
  let nr = 2 + sb.nr_imap_sects + byte_idx / sector_size
  let at = byte_idx % sector_size
  s1 ← rd_sect dev nr s
  (byte, bits_left) ← clear_first (8 - first % 8) (s1.fsbuf at) (first % 8) nr_sects
  (i, nr1, s2) ← clear_bytes byte_cnt dev (at + 1) nr (set_byte at byte s1)
  (i', nr2, s3) ← turn_sector dev i nr1 s2
  let last = bits_left - 8 * byte_cnt
  check (s3.fsbuf i' % 2 ^ last == 2 ^ last - 1)
  wr_sect dev nr2 (set_byte i' (s3.fsbuf i' - s3.fsbuf i' % 2 ^ last) s3)

-- How a round over a block of the directory ends: at the entry, past the last one, or at the end of
-- the block; with `m` and `dir_size`.
pub data Entry : Type 0 where
  at : ℕ → ℕ → ℕ → Entry
  past next : ℕ → ℕ → Entry

-- The loop over the entries of a block.
unfoldable pub find_entry : ℕ → (ℕ → ℕ) → ℕ → ℕ → ℕ → ℕ → ℕ → Entry
find_entry zero buf inode_nr nr_dir_entries off m dir_size = next m dir_size
find_entry (suc left) buf inode_nr nr_dir_entries off m dir_size =
    let rest =
      find_entry left buf inode_nr nr_dir_entries (off + dir_entry_size) (m + 1)
        (if read32 buf off == 0 then dir_size else dir_size + dir_entry_size) in
    if ltb nr_dir_entries (m + 1)
    then past (m + 1) dir_size
    else if read32 buf off == inode_nr
    then at off (m + 1) dir_size
    else rest

-- `memset(pde, 0, DIR_ENTRY_SIZE)`
abbrev pub clear_entry : ℕ → (ℕ → ℕ) → ℕ → ℕ
clear_entry off buf i = if leb off i && ltb i (off + dir_entry_size) then 0 else buf i

-- The loop over the blocks, up to the assertion `flg`. The result is `m`, `dir_size` and the state.
unfoldable pub remove_entry : ℕ → ℕ → ℕ → ℕ → ℕ → ℕ → ℕ → Fs → Result (ℕ × ℕ × Fs)
remove_entry zero dev blk inode_nr nr_dir_entries m dir_size s = do check false; ok (m, dir_size, s)
remove_entry (suc left) dev blk inode_nr nr_dir_entries m dir_size s = do
  s1 ← rd_sect dev blk s
  elim (find_entry (sector_size / dir_entry_size) s1.fsbuf inode_nr nr_dir_entries 0 m dir_size) [
    | at off m' size ↦ do
      s2 ← wr_sect dev blk (record s1 { fsbuf = clear_entry off s1.fsbuf })
      ok (m', size, s2)
    | past m' size ↦ do check false; ok (m', size, s1)
    | next m' size ↦ remove_entry left dev (blk + 1) inode_nr nr_dir_entries m' size s1
  ]

-- The part that clears the entry of the directory, whose slot is `dir`.
unfoldable pub unlink_entry : ℕ → ℕ → Fs → Result Fs
unlink_entry dir inode_nr s = do
  let d = s.inode_table dir
  let nr_dir_entries = d.i_size / dir_entry_size
  (m, dir_size, s1) ←
      remove_entry ((d.i_size + sector_size) % 2 ^ 32 / sector_size) d.i_dev d.i_start_sect inode_nr
        nr_dir_entries 0 0 s
  elim (m == nr_dir_entries) [
    | true ↦ sync_inode dir (set_inode dir (record (s1.inode_table dir) { i_size = dir_size }) s1)
    | false ↦ ok s1
  ]

-- What `do_unlink` does once the file, in slot `p`, may be removed.
unfoldable pub remove_file : ℕ → ℕ → Fs → Result Fs
remove_file p inode_nr s = do
  let v = s.inode_table p
  b ← get_super_block v.i_dev s
  let sb = s.super_block b
  s1 ← free_imap_bit v.i_dev inode_nr s
  s2 ←
      free_smap_bits v.i_dev sb ((v.i_start_sect + 2 ^ 32 - sb.n_1st_sect + 1) % 2 ^ 32)
        v.i_nr_sects s1
  let cleared = record v { i_mode = 0; i_size = 0; i_start_sect = 0; i_nr_sects = 0 }
  s3 ← sync_inode p (set_inode p cleared s2)
  s4 ← put_inode p s3
  unlink_entry s4.root_inode inode_nr s4

-- `strcmp(pathname, "/") == 0`
abbrev pub is_root_path : List ℕ → Bool
is_root_path [] = false
is_root_path (c ∷ []) = c == slash
is_root_path (c ∷ d ∷ rest) = false

-- The guards of `do_unlink` on the i-node found, in slot `p`.
abbrev pub unlink_inode : ℕ → ℕ → Fs → Result (ℤ × Fs)
unlink_inode p inode_nr s =
    elim (not ((s.inode_table p).i_mode == i_regular) || ltb 1 (s.inode_table p).i_cnt) [
      | true ↦ ok (negsuc 0, s)
      | false ↦ do s1 ← remove_file p inode_nr s; ok (pos 0, s1)
    ]

pub do_unlink : Fs → Result (ℤ × Fs)
do_unlink s = do
  pathname ← pathname_of s
  elim (is_root_path pathname) [
    | true ↦ ok (negsuc 0, s)
    | false ↦ do
      (inode_nr, s1) ← search_file pathname s
      elim (inode_nr == 0) [
        | true ↦ ok (negsuc 0, s1)
        | false ↦ elim (strip_path pathname) [
          | none ↦ ok (negsuc 0, s1)
          | some filename ↦ do
            (pin, s2) ← get_inode (s1.inode_table s1.root_inode).i_dev inode_nr s1
            p ← deref pin
            unlink_inode p inode_nr s2
        ]
      ]
  ]
