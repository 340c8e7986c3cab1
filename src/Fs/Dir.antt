-- ===== src/Fs/Dir.antt =====
-- The root directory: `search_file` of fs/misc.c and `new_dir_entry` of fs/open.c. An entry is 16
-- bytes of `fsbuf`, the number of an i-node and a name.
use minx.Prelude.{
  ℕ, zero, suc, ◌+◌, ◌/◌, ◌%◌, ◌-◌, ◌^◌, Bool, true, false, ◌&&◌, ◌==◌, ltb, if◌then◌else◌, none,
  some, Result, ok, ◌>>=◌, List, length, get_elem?,
}
use minx.Const.{sector_size, dir_entry_size, max_filename_len}
use minx.Fs.State.{Inode, Fs, read32, write32, rd_sect, wr_sect, copy}
use minx.Fs.Inode.{set_inode, sync_inode}
use minx.Fs.{strip_path}

-- Character `k` of a string that ends with a zero.
abbrev pub char_at : List ℕ → ℕ → ℕ
char_at text k = elim (get_elem? text k) [ none ↦ 0 | some c ↦ c ]

-- `n` bytes at `off` are those of the name, from its character `k` on.
unfoldable pub name_from : ℕ → (ℕ → ℕ) → ℕ → List ℕ → ℕ → Bool
name_from zero buf off name k = true
name_from (suc n) buf off name k =
    (buf (off + k) == char_at name k) && name_from n buf off name (k + 1)

-- `memcmp(filename, pde->name, MAX_FILENAME_LEN) == 0`, for the entry at `off`.
abbrev pub has_name : (ℕ → ℕ) → ℕ → List ℕ → Bool
has_name buf off name = name_from max_filename_len buf (off + 4) name 0

-- How a round over a block of the directory ends: with the i-node of the file, past the last entry,
-- or at the end of the block with `m` entries seen.
pub data Search : Type 0 where
  found : ℕ → Search
  past : Search
  more : ℕ → Search

-- The loop of `search_file` over the entries of a block, from the entry at `off` on.
unfoldable pub search_block : ℕ → (ℕ → ℕ) → List ℕ → ℕ → ℕ → ℕ → Search
search_block zero buf name nr_dir_entries off m = more m
search_block (suc left) buf name nr_dir_entries off m =
    let rest = search_block left buf name nr_dir_entries (off + dir_entry_size) (m + 1) in
    if has_name buf off name
    then found (read32 buf off)
    else if ltb nr_dir_entries (m + 1)
    then past
    else rest

-- What the loop over the blocks does after a block; `rest` is the rest of the loop.
abbrev pub next_block : Search → Fs → (ℕ → Result (ℕ × Fs)) → Result (ℕ × Fs)
next_block (found inode_nr) s rest = ok (inode_nr, s)
next_block past s rest = ok (0, s)
next_block (more m) s rest = rest m

-- The loop over the blocks, from block `blk` of the device on.
unfoldable pub search_blocks : ℕ → ℕ → ℕ → List ℕ → ℕ → ℕ → Fs → Result (ℕ × Fs)
search_blocks zero dev blk name nr_dir_entries m s = ok (0, s)
search_blocks (suc left) dev blk name nr_dir_entries m s = do
  s1 ← rd_sect dev blk s
  next_block (search_block (sector_size / dir_entry_size) s1.fsbuf name nr_dir_entries 0 m) s1
      (λ m'. search_blocks left dev (blk + 1) name nr_dir_entries m' s1)

-- `search_file` once the path is stripped: no characters are left of the path `/`.
unfoldable pub search_name : List ℕ → Fs → Result (ℕ × Fs)
search_name name s =
    let dir_inode = s.inode_table s.root_inode in
    if char_at name 0 == 0
    then ok (dir_inode.i_num, s)
    else search_blocks ((dir_inode.i_size + sector_size - 1) % 2 ^ 32 / sector_size) dir_inode.i_dev
        dir_inode.i_start_sect name (dir_inode.i_size / dir_entry_size) 0 s

unfoldable pub search_file : List ℕ → Fs → Result (ℕ × Fs)
search_file path s = elim (strip_path path) [ none ↦ ok (0, s) | some name ↦ search_name name s ]

-- How a round of `new_dir_entry` over a block ends: at a free entry, or as in `Search`.
pub data Place : Type 0 where
  unused : ℕ → Place
  end : ℕ → Place
  next : ℕ → Place

-- The loop of `new_dir_entry` over the entries of a block.
unfoldable pub place_block : ℕ → (ℕ → ℕ) → ℕ → ℕ → ℕ → Place
place_block zero buf nr_dir_entries off m = next m
place_block (suc left) buf nr_dir_entries off m =
    let rest = place_block left buf nr_dir_entries (off + dir_entry_size) (m + 1) in
    if ltb nr_dir_entries (m + 1) then end off else if read32 buf off == 0 then unused off else rest

-- Where the new entry goes: a free one or not, its block, its offset there, and the state.
abbrev pub Spot : Type 0
Spot = Bool × ℕ × ℕ × Fs

-- The loop over the blocks, from the `i`-th on; `pde` is where the last block ended.
unfoldable pub place_blocks : ℕ → Inode → ℕ → ℕ → ℕ → ℕ → Fs → Result Spot
place_blocks zero dir_inode i nr_dir_entries m pde s = ok (false, i, pde, s)
place_blocks (suc left) dir_inode i nr_dir_entries m pde s = do
  s1 ← rd_sect dir_inode.i_dev (dir_inode.i_start_sect + i) s
  elim (place_block (sector_size / dir_entry_size) s1.fsbuf nr_dir_entries 0 m) [
    | unused off ↦ ok (true, i, off, s1)
    | end off ↦ ok (false, i, off, s1)
    | next m' ↦ place_blocks left dir_inode (i + 1) nr_dir_entries m' sector_size s1
  ]

-- `strcpy(buf + at, text)`: the characters and the zero after them.
abbrev pub write_text : (ℕ → ℕ) → ℕ → List ℕ → ℕ → ℕ
write_text buf at text = copy buf at (char_at text) 0 (length text + 1)

-- The entry at `off` of the buffer.
abbrev pub write_entry : (ℕ → ℕ) → ℕ → ℕ → List ℕ → ℕ → ℕ
write_entry buf off inode_nr name = write_text (write32 buf off inode_nr) (off + 4) name

-- `dir` is the slot of the directory.
unfoldable pub new_dir_entry : ℕ → ℕ → List ℕ → Fs → Result Fs
new_dir_entry dir inode_nr filename s = do
  let d = s.inode_table dir
  (is_free, i, off, s1) ←
      place_blocks ((d.i_size + sector_size) % 2 ^ 32 / sector_size) d 0 (d.i_size / dir_entry_size)
        0 0 s
  let size = if is_free then d.i_size else (d.i_size + dir_entry_size) % 2 ^ 32
  let grown = set_inode dir (record d { i_size = size }) s1
  s2 ←
      wr_sect d.i_dev (d.i_start_sect + i)
        (record grown { fsbuf = write_entry s1.fsbuf off inode_nr filename })
  sync_inode dir s2
