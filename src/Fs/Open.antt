-- ===== src/Fs/Open.antt =====
-- Opening and closing of files: `new_inode`, `create_file`, `do_open`, `do_close` and `do_lseek` of
-- fs/open.c. A result -1 is the integer `negsuc 0`.
use minx.Prelude.{
  ℕ, zero, suc, ◌+◌, Bool, true, false, ◌||◌, ◌==◌, ltb, if◌then◌else◌, update, Option, none, some,
  Result, ok, stop, panic, overrun, null_pointer, check, has_flag, bit_and, ◌>>=◌, ◌>>◌, List, [],
  ◌∷◌,
}
use minx.Prelude.Int.{ℤ, pos, negsuc, ltb_ℤ, ◌+ℤ◌, pos_part, int_of}
use minx.Const.{
  nr_default_file_sects, max_path, nr_files, nr_file_desc, i_type_mask, i_char_special, i_directory,
  i_regular, o_creat, o_rdwr, root_inode_nr, seek_set, seek_cur, seek_end,
}
use minx.Fs.State.{Inode, Fs, first_from, has_driver, major}
use minx.Fs.Inode.{set_inode, get_inode, put_inode, sync_inode}
use minx.Fs.Dir.{search_file, new_dir_entry}
use minx.Fs.Alloc.{alloc_imap_bit, alloc_smap_bit}
use minx.Fs.{strip_path}

-- A pointer that the code follows.
abbrev pub deref : Option ℕ → Result ℕ
deref none = stop null_pointer
deref (some p) = ok p

abbrev pub is_unset : Option ℕ → Bool
is_unset none = true
is_unset (some p) = false

-- The slot of the new i-node.
unfoldable pub new_inode : ℕ → ℕ → ℕ → Fs → Result (ℕ × Fs)
new_inode dev inode_nr start_sect s = do
  (pin, s1) ← get_inode dev inode_nr s
  p ← deref pin
  let v : Inode = record {
    i_mode = i_regular;
    i_size = 0;
    i_start_sect = start_sect;
    i_nr_sects = nr_default_file_sects;
    i_dev = dev;
    i_cnt = 1;
    i_num = inode_nr;
  }
  s2 ← sync_inode p (set_inode p v s1)
  ok (p, s2)

unfoldable pub create_file : List ℕ → Fs → Result (Option ℕ × Fs)
create_file path s = elim (strip_path path) [
  | none ↦ ok (none, s)
  | some filename ↦ do
    let dev = (s.inode_table s.root_inode).i_dev
    (inode_nr, s1) ← alloc_imap_bit dev s
    (free_sect_nr, s2) ← alloc_smap_bit dev nr_default_file_sects s1
    (p, s3) ← new_inode dev inode_nr free_sect_nr s2
    s4 ← new_dir_entry s3.root_inode (s3.inode_table p).i_num filename s3
    ok (some p, s4)
]

-- The string of `n` bytes at most at an address.
abbrev pub string_at : ℕ → (ℕ → ℕ) → ℕ → List ℕ
string_at zero memory a = []
string_at (suc n) memory a =
    let rest = string_at n memory (a + 1) in if memory a == 0 then [] else memory a ∷ rest

-- `pathname`, as `do_open` and `do_unlink` copy it from the message.
abbrev pub pathname_of : Fs → Result (List ℕ)
pathname_of s = do
  check (ltb s.fs_msg.m3i2 max_path)
  ok (string_at s.fs_msg.m3i2 s.memory s.fs_msg.m3p1)

-- The checks at the end of `do_open`: that the file is of a known kind, and the terminal's driver
-- is there to be told of the opening.
unfoldable pub check_kind : Inode → Result (Unit {0})
check_kind v =
    let imode = bit_and v.i_mode i_type_mask in
    if imode == i_char_special
    then (do check (major v.i_start_sect == 4); check (has_driver v.i_start_sect))
    else if imode == i_directory
    then check (v.i_num == root_inode_nr)
    else check (v.i_mode == i_regular)

-- The part of `do_open` that finds or creates the file.
unfoldable pub open_inode : List ℕ → ℕ → Fs → Result (Option ℕ × Fs)
open_inode pathname flags s = do
  (inode_nr, s1) ← search_file pathname s
  elim (has_flag flags o_creat) [
    | true ↦ if inode_nr == 0 then create_file pathname s1 else ok (none, s1)
    | false ↦ do
      check (has_flag flags o_rdwr)
      elim (strip_path pathname) [
        | none ↦ ok (none, s1)
        | some filename ↦ get_inode (s1.inode_table s1.root_inode).i_dev inode_nr s1
      ]
  ]

-- `filp[fd] = &f_desc_table[i]`, with the descriptor as `do_open` fills it.
abbrev pub connect : ℕ → ℕ → ℕ → ℕ → Fs → Fs
connect fd i pin flags s = record s {
  filp = update s.filp s.pcaller (update (s.filp s.pcaller) fd (some i));
  f_desc_table =
      update s.f_desc_table i (record { fd_mode = flags; fd_pos = 0; fd_inode = some pin });
}

-- The end of `do_open`, with the i-node found or NULL.
abbrev pub finish_open : ℕ → ℕ → Option ℕ → ℕ → Fs → Result (ℤ × Fs)
finish_open fd i none flags s = ok (negsuc 0, s)
finish_open fd i (some pin) flags s = do
  check_kind (s.inode_table pin)
  ok (pos fd, connect fd i pin flags s)

-- The first free entry, or `panic`.
abbrev pub free_entry : Option ℕ → Result ℕ
free_entry none = stop panic
free_entry (some i) = ok i

unfoldable pub do_open : Fs → Result (ℤ × Fs)
do_open s = do
  let flags = s.fs_msg.m3i1
  pathname ← pathname_of s
  fd ← free_entry (first_from nr_files (λ i. is_unset (s.filp s.pcaller i)) 0)
  i ← free_entry (first_from nr_file_desc (λ i. is_unset (s.f_desc_table i).fd_inode) 0)
  (pin, s1) ← open_inode pathname flags s
  finish_open fd i pin flags s1

-- `pcaller->filp[fd]`, followed.
unfoldable pub descriptor : ℕ → Fs → Result ℕ
descriptor fd s = if ltb fd nr_files then deref (s.filp s.pcaller fd) else stop overrun

unfoldable pub do_close : Fs → Result (ℤ × Fs)
do_close s = do
  let fd = s.fs_msg.m3i1
  i ← descriptor fd s
  pin ← deref (s.f_desc_table i).fd_inode
  s1 ← put_inode pin s
  ok (
    pos 0,
    record s1 {
      f_desc_table = update s1.f_desc_table i (record (s1.f_desc_table i) { fd_inode = none });
      filp = update s1.filp s1.pcaller (update (s1.filp s1.pcaller) fd none);
    },
  )

-- The position that a `whence` and an offset ask for.
abbrev pub seek_pos : ℕ → ℤ → ℤ → ℤ → Option ℤ
seek_pos whence off fd_pos f_size =
    if whence == seek_set
    then some off
    else if whence == seek_cur
    then some (fd_pos +ℤ off)
    else if whence == seek_end
    then some (f_size +ℤ off)
    else none

-- The end of `do_lseek`: a position past the file or below 0 is refused.
abbrev pub seek_to : ℕ → ℤ → ℤ → Fs → Result (ℤ × Fs)
seek_to i position f_size s =
    if ltb_ℤ f_size position || ltb_ℤ position (pos 0)
    then ok (negsuc 0, s)
    else ok (
      position,
      record s {
        f_desc_table =
            update s.f_desc_table i (record (s.f_desc_table i) { fd_pos = pos_part position });
      },
    )

-- The end of `do_lseek`, with the position asked for.
abbrev pub finish_seek : ℕ → ℤ → Fs → Option ℤ → Result (ℤ × Fs)
finish_seek i f_size s none = ok (negsuc 0, s)
finish_seek i f_size s (some position) = seek_to i position f_size s

unfoldable pub do_lseek : Fs → Result (ℤ × Fs)
do_lseek s = do
  i ← descriptor s.fs_msg.m3i1 s
  pin ← deref (s.f_desc_table i).fd_inode
  let f_size = int_of (s.inode_table pin).i_size
  finish_seek i f_size s
      (seek_pos s.fs_msg.m3i3 (int_of s.fs_msg.m3i2) (pos (s.f_desc_table i).fd_pos) f_size)
