-- ===== src/Fs/Lookup.antt =====
-- `search_file` of fs/misc.c, against a search of the entries as they stand on the disk.
use minx.Prelude.{
  ℕ, zero, suc, ◌+◌, ◌-◌, ◌*◌, ◌/◌, ◌%◌, ◌^◌, ◌≤◌, ◌<◌, ◌≡◌, ◌≢◌, inl, inr, refl, ap, ◌∙◌, Bool,
  true, false, ltb, some, Result, ok, arith, Bool-cases, ne→==, List,
}
use minx.Const.{sector_size, dir_entry_size}
use minx.Fs.State.{Fs, copy, read32, read_sector, has_driver, sect_pos}
use minx.Fs.Dir.{
  char_at, has_name, Search, search_block, next_block, search_blocks, search_name, search_file,
}
use minx.Fs.{strip_path}
use minx.Fs.Scan.{NoneBefore}
use minx.Fs.Buffer.{sect_pos-small, copy_load, read32-load}
use minx.Fs.Search.{Looked, hit, gone, on, search_block-Looked, name_from-same}

-- Entry `r` of a directory that starts at a sector of a device: its name is `name`; its number.
abbrev pub named_on : (ℕ → ℕ) → ℕ → List ℕ → ℕ → Bool
named_on d start name r = has_name d (start * sector_size + dir_entry_size * r) name

abbrev pub number_on : (ℕ → ℕ) → ℕ → ℕ → ℕ
number_on d start r = read32 d (start * sector_size + dir_entry_size * r)

-- What the loop over the blocks finds among the entries from `m` up to `last` and to number `nr`:
-- the number of the first with the name, or 0 if none has it. The disk and the table are as before.
pub data Finds (named : ℕ → Bool) (num : ℕ → ℕ) (nr m last : ℕ) (s : Fs)
    : Result (ℕ × Fs) → Type 0 where
  finds :
      {r n : ℕ} {s' : Fs}
      → r < last
      → r ≤ nr
      → named r ≡ true
      → NoneBefore named m r
      → n ≡ num r
      → s'.disk ≡ s.disk
      → s'.inode_table ≡ s.inode_table
      → Finds named num nr m last s (ok (n, s'))
  misses :
      {s' : Fs}
      → ((i : ℕ) → m ≤ i → i < last → i ≤ nr → named i ≡ false)
      → s'.disk ≡ s.disk
      → s'.inode_table ≡ s.inode_table
      → Finds named num nr m last s (ok (0, s'))

-- The block `blk` in the buffer.
abbrev block : ℕ → ℕ → Fs → ℕ → ℕ
block dev blk s = copy s.fsbuf 0 (s.disk dev) (sect_pos blk) sector_size

abbrev in_buffer : ℕ → ℕ → Fs → Fs
in_buffer dev blk s = record s { fsbuf = block dev blk s }

block-Looked :
    (dev start b blk m nr : ℕ) (name : List ℕ) (s : Fs)
    → blk ≡ start + b
    → m ≡ 32 * b
    → m ≤ nr
    → (blk + 1) * sector_size ≤ 2 ^ 31
    → Looked
        (named_on (s.disk dev) start name)
        (number_on (s.disk dev) start)
        nr
        m
        (m + 32)
        (search_block 32 (block dev blk s) name nr 0 m)
block-Looked dev start b blk m nr name s eb em l w =
    let place : sect_pos blk ≡ blk * sector_size = sect_pos-small blk (omega (arith, w)) in
    search_block-Looked 32 0 m (m + 32) nr (block dev blk s) name (named_on (s.disk dev) start name)
      (number_on (s.disk dev) start) refl l
      (λ j lj.
        name_from-same 12 (0 + dir_entry_size * j + 4)
          (start * sector_size + dir_entry_size * (m + j) + 4) 0 (block dev blk s) (s.disk dev) name
          (λ i li.
            copy_load s.fsbuf (s.disk dev) (sect_pos blk) sector_size
              (0 + dir_entry_size * j + 4 + i) (omega (arith, lj, li))
            ∙ ap (s.disk dev) (omega (arith, place, eb, em))))
      (λ j lj.
        read32-load s.fsbuf (s.disk dev) (sect_pos blk) sector_size (0 + dir_entry_size * j)
          (omega (arith, lj))
        ∙ ap (read32 (s.disk dev)) (omega (arith, place, eb, em)))

search_blocks-run :
    (left dev blk m nr : ℕ) (name : List ℕ) (s : Fs)
    → has_driver dev ≡ true
    → search_blocks (suc left) dev blk name nr m s
      ≡ next_block
          (search_block 32 (block dev blk s) name nr 0 m)
          (in_buffer dev blk s)
          (λ m'. search_blocks left dev (blk + 1) name nr m' (in_buffer dev blk s))
unfolding search_blocks read_sector
search_blocks-run left dev blk m nr name s driver = rw (driver, search_blocks) refl

search_blocks-Finds :
    (left dev start b blk m last nr : ℕ) (name : List ℕ) (s : Fs)
    → blk ≡ start + b
    → m ≡ 32 * b
    → last ≡ 32 * (b + left)
    → m ≤ nr
    → (blk + left) * sector_size ≤ 2 ^ 31
    → has_driver dev ≡ true
    → Finds
        (named_on (s.disk dev) start name)
        (number_on (s.disk dev) start)
        nr
        m
        last
        s
        (search_blocks left dev blk name nr m s)
unfolding search_blocks read_sector
search_blocks-Finds zero dev start b blk m last nr name s eb em el l w driver =
    misses (λ i a c d. absurd (omega (arith, a, c, em, el))) refl refl
search_blocks-Finds (suc left) dev start b blk m last nr name s eb em el l w driver =
    rw (search_blocks-run left dev blk m nr name s driver) (
      go (block-Looked dev start b blk m nr name s eb em l (omega (arith, w))) (λ a.
        search_blocks-Finds left dev start (b + 1) (blk + 1) (m + 32) last nr name
          (in_buffer dev blk s) (omega (arith, eb)) (omega (arith, em)) (omega (arith, el)) a
          (omega (arith, w)) driver))
  where
    later :
        {r : Result (ℕ × Fs)}
        → NoneBefore (named_on (s.disk dev) start name) m (m + 32)
        → Finds
            (named_on (s.disk dev) start name)
            (number_on (s.disk dev) start)
            nr
            (m + 32)
            last
            (in_buffer dev blk s)
            r
        → Finds (named_on (s.disk dev) start name) (number_on (s.disk dev) start) nr m last s r
    later none_here (finds a b t h n d i) =
        finds a b t
          (λ j x y. elim (Bool-cases (ltb j (m + 32))) [
            | inl e ↦ none_here j x (ground (arith, e))
            | inr e ↦ h j (ground (arith, e)) y
          ])
          n d i
    later none_here (misses h d i) =
        misses
          (λ j x y z. elim (Bool-cases (ltb j (m + 32))) [
            | inl e ↦ none_here j x (ground (arith, e))
            | inr e ↦ h j (ground (arith, e)) y z
          ])
          d i

    go :
        {x : Search}
        → Looked (named_on (s.disk dev) start name) (number_on (s.disk dev) start) nr m (m + 32) x
        → (m + 32 ≤ nr
            → Finds
                (named_on (s.disk dev) start name)
                (number_on (s.disk dev) start)
                nr
                (m + 32)
                last
                (in_buffer dev blk s)
                (search_blocks left dev (blk + 1) name nr (m + 32) (in_buffer dev blk s)))
        → Finds (named_on (s.disk dev) start name) (number_on (s.disk dev) start) nr m last s (
            next_block x
              (in_buffer dev blk s)
              (λ m'. search_blocks left dev (blk + 1) name nr m' (in_buffer dev blk s)))
    go (hit a b t h n_is) rest = finds (omega (arith, a, em, el)) b t h n_is refl refl
    go (gone a h) rest = misses (λ i x y z. h i x (omega (arith, z))) refl refl
    go (on same a h) rest = rw same (later h (rest a))

search_file-name :
    (path name : List ℕ) (s : Fs)
    → strip_path path ≡ some name
    → char_at name 0 ≢ 0
    → (s.inode_table s.root_inode).i_size + 511 < 2 ^ 32
    → search_file path s
      ≡ search_blocks
          (((s.inode_table s.root_inode).i_size + 511) / sector_size)
          (s.inode_table s.root_inode).i_dev
          (s.inode_table s.root_inode).i_start_sect
          name
          ((s.inode_table s.root_inode).i_size / dir_entry_size)
          0
          s
unfolding search_file search_name
search_file-name path name s strip ne small =
    let size = (s.inode_table s.root_inode).i_size in
    let blocks : (size + sector_size - 1) % 2 ^ 32 / sector_size ≡ (size + 511) / sector_size =
      omega (arith, small) in
    rw (strip, search_file, ne→== (char_at name 0) 0 ne, search_name, blocks) refl

-- For a path with a name that is not empty, in a root directory on a device with a driver, whose size
-- has 32 bits and whose sectors lie below 2 ^ 31, `search_file` returns the number in the first entry
-- that has the name, among the entries of the directory's blocks up to number `i_size / 16` (one more
-- than the directory has), or 0 if none has it; it changes no disk and no slot of the table of
-- i-nodes.
pub search_file-Finds :
    (path name : List ℕ) (s : Fs)
    → strip_path path ≡ some name
    → char_at name 0 ≢ 0
    → has_driver (s.inode_table s.root_inode).i_dev ≡ true
    → (s.inode_table s.root_inode).i_size + 511 < 2 ^ 32
    → ((s.inode_table s.root_inode).i_start_sect
          + ((s.inode_table s.root_inode).i_size + 511) / sector_size)
        * sector_size
      ≤ 2 ^ 31
    → Finds
        (named_on
          (s.disk (s.inode_table s.root_inode).i_dev)
          (s.inode_table s.root_inode).i_start_sect
          name)
        (number_on
          (s.disk (s.inode_table s.root_inode).i_dev)
          (s.inode_table s.root_inode).i_start_sect)
        ((s.inode_table s.root_inode).i_size / dir_entry_size)
        0
        (32 * (((s.inode_table s.root_inode).i_size + 511) / sector_size))
        s
        (search_file path s)
search_file-Finds path name s strip ne driver small within =
    let d = s.inode_table s.root_inode in
    let blocks = (d.i_size + 511) / sector_size in
    rw (search_file-name path name s strip ne small) (
      search_blocks-Finds blocks d.i_dev d.i_start_sect 0 d.i_start_sect 0 (32 * blocks)
        (d.i_size / dir_entry_size) name s (omega arith) refl (omega arith) (omega arith) within
        driver)
