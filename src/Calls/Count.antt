-- ===== src/Calls/Count.antt =====
-- `read` and `write` of lib/system_call.c on files, through the loop of the file system.
use minx.Prelude.{
  ℕ, ◌+◌, ◌*◌, ◌^◌, ◌%◌, ◌≤◌, ◌<◌, ◌≡◌, ◌⊎◌, inl, inr, refl, ap, Bool, true, false, some, Result,
  ok, arith, has_flag, lt→ltb, eq→==,
}
use minx.Prelude.Int.{ℤ, pos}
use minx.Kernel.{Message}
use minx.Const.{sector_size, o_rdwr, i_regular, msg_read, msg_write, msg_syscall_ret}
use minx.Fs.State.{Fs, has_driver, get_super_block}
use minx.Fs.Rdwt.{do_rdwt}
use minx.Fs.Count.{grown, limit, do_rdwt-IsCounted}
use minx.Fs.Task.{dispatch, serve}
use minx.Calls.{send_recv_fs, read_file, write_file}

-- The state in which a message of a process is served.
abbrev pub asked : ℕ → Message → Fs → Fs
asked p msg s = record s { fs_msg = record msg { source = p }; pcaller = p }

abbrev pub request : Message → ℕ → ℕ → ℕ → ℕ → Message
request unset type fd buf count = record unset { type = type; m3i1 = fd; m3p2 = buf; m3i2 = count }

-- The state in which the answer goes out.
abbrev replied : ℕ → Fs → Fs
replied n s = record s { fs_msg = record (s.fs_msg) { m3i2 = n % 2 ^ 32; type = msg_syscall_ret } }

-- READ or WRITE.
abbrev pub kind_of : Bool → ℕ
kind_of true = msg_read
kind_of false = msg_write

module _ (answer : Message → Message) where
  send_recv_fs-rdwt :
      (unset : Message) (reads : Bool) (p fd buf count n : ℕ) (s s' : Fs)
      → do_rdwt answer (asked p (request unset (kind_of reads) fd buf count) s) ≡ ok (pos n, s')
      → s'.fs_msg ≡ record (request unset (kind_of reads) fd buf count) { source = p }
      → send_recv_fs answer p (request unset (kind_of reads) fd buf count) s
        ≡ ok ((replied n s').fs_msg, replied n s')
  unfolding send_recv_fs serve dispatch
  send_recv_fs-rdwt unset true p fd buf count n s s' run same =
      let kind : s'.fs_msg.type ≡ msg_read = ap (λ (m : Message). m.type) same in
      rw (run, kind, eq→== p p refl) refl
  send_recv_fs-rdwt unset false p fd buf count n s s' run same =
      let kind : s'.fs_msg.type ≡ msg_write = ap (λ (m : Message). m.type) same in
      rw (run, kind, eq→== p p refl) refl

  -- `read` or `write`.
  abbrev pub call_of : Bool → Message → ℕ → ℕ → ℕ → ℕ → Fs → Result (ℤ × Fs)
  call_of true = read_file answer
  call_of false = write_file answer

  call_of-run :
      (unset : Message) (reads : Bool) (p fd buf count n : ℕ) (s s' : Fs)
      → n < 2 ^ 31
      → send_recv_fs answer p (request unset (kind_of reads) fd buf count) s
        ≡ ok ((replied n s').fs_msg, replied n s')
      → call_of reads unset p fd buf count s ≡ ok (pos n, replied n s')
  unfolding read_file write_file
  call_of-run unset true p fd buf count n s s' l run =
      let same : n % 2 ^ 32 ≡ n = omega (arith, l) in rw (run, same, lt→ltb n (2 ^ 31) l) refl
  call_of-run unset false p fd buf count n s s' l run =
      let same : n % 2 ^ 32 ≡ n = omega (arith, l) in rw (run, same, lt→ltb n (2 ^ 31) l) refl

  -- For a process with an open descriptor for reading and writing, of a regular file on a device with
  -- a driver and a super block, a count of at most 255 sectors' bytes (so that no command asks for
  -- more than 256 sectors), and the end of the request, and that plus the first sector of the file,
  -- below 2 ^ 31, `read` and `write` return how many bytes were moved: at most the count, and all if
  -- a `read` ends within the size of the file or a `write` within its sectors (counted on 32 bits).
  -- The position of the descriptor is as many further, and the size of the file becomes the new
  -- position if that is past the old size.
  pub call_of-counts :
      (unset : Message) (reads : Bool) (p fd buf count i pin b : ℕ) (s : Fs)
      → s.filp p fd ≡ some i
      → has_flag (s.f_desc_table i).fd_mode o_rdwr ≡ true
      → (s.f_desc_table i).fd_inode ≡ some pin
      → (s.inode_table pin).i_mode ≡ i_regular
      → has_driver (s.inode_table pin).i_dev ≡ true
      → get_super_block (s.inode_table pin).i_dev s ≡ ok b
      → count ≤ 255 * sector_size
      → (s.f_desc_table i).fd_pos + count < 2 ^ 31
      → (s.inode_table pin).i_start_sect + (s.f_desc_table i).fd_pos + count < 2 ^ 31
      → (n : ℕ) × (s' : Fs) × (call_of reads unset p fd buf count s ≡ ok (pos n, s'))
        × (n ≤ count)
        × ((s.f_desc_table i).fd_pos + count ≤ limit (kind_of reads) (s.inode_table pin)
            → n ≡ count)
        × ((s'.f_desc_table i).fd_pos ≡ (s.f_desc_table i).fd_pos + n)
        × ((s'.inode_table pin).i_size
            ≡ grown (s.inode_table pin).i_size ((s.f_desc_table i).fd_pos + n))
  unfolding get_super_block
  call_of-counts unset reads p fd buf count i pin b s open_fd mode open_inode regular driver found
        few low small =
      let (n, s', run, most, whole, h) =
        do_rdwt-IsCounted answer i pin b (asked p (request unset (kind_of reads) fd buf count) s)
          open_fd mode open_inode regular (is_kind reads) driver found few low small in
      (
        n,
        replied n s',
        call_of-run unset reads p fd buf count n s s' (omega (arith, most, few))
            (send_recv_fs-rdwt unset reads p fd buf count n s s' run h.fs_msg),
        most,
        whole,
        h.fd_pos,
        h.i_size,
      )
    where
      is_kind : (reads : Bool) → (kind_of reads ≡ msg_read) ⊎ (kind_of reads ≡ msg_write)
      is_kind true = inl refl
      is_kind false = inr refl
