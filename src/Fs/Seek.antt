-- ===== src/Fs/Seek.antt =====
-- `do_lseek` of fs/open.c.
use minx.Prelude.{
  ℕ, ◌^◌, ◌≤◌, ◌<◌, ◌≡◌, inl, inr, refl, true, false, ltb, ◌||◌, ◌==◌, ◌≢◌, ==→eq, update, Option,
  none, some, Result, ok, arith, Bool-cases, lt→ltb,
}
use minx.Prelude.Int.{ℤ, pos, negsuc, ltb_ℤ, int_of, ◌+ℤ◌}
use minx.Const.{nr_files}
use minx.Fs.State.{Fs}
use minx.Fs.Open.{descriptor, seek_pos, seek_to, finish_seek, do_lseek}

-- The state with the position of a descriptor set.
abbrev pub at_pos : ℕ → ℕ → Fs → Fs
at_pos i n s = record s {
  f_desc_table = update s.f_desc_table i (record (s.f_desc_table i) { fd_pos = n });
}

-- The outcome for the position that is asked for, if `whence` asks for one, in a file of `size` bytes.
pub data Seeks (i size : ℕ) (s : Fs) : Option ℤ → Result (ℤ × Fs) → Type 0 where
  moved : {n : ℕ} → n ≤ size → Seeks i size s (some (pos n)) (ok (pos n, at_pos i n s))
  beyond : {n : ℕ} → size < n → Seeks i size s (some (pos n)) (ok (negsuc 0, s))
  below : {n : ℕ} → Seeks i size s (some (negsuc n)) (ok (negsuc 0, s))
  unknown : Seeks i size s none (ok (negsuc 0, s))

seek_to-Seeks : (i size : ℕ) (p : ℤ) (s : Fs) → Seeks i size s (some p) (seek_to i p (pos size) s)
seek_to-Seeks i size (negsuc n) s =
    let low : (ltb_ℤ (pos size) (negsuc n) || ltb_ℤ (negsuc n) (pos 0)) ≡ true = ground arith in
    rw low below
seek_to-Seeks i size (pos n) s = elim (Bool-cases (ltb size n)) [
  | inl past ↦
      let test : (ltb_ℤ (pos size) (pos n) || ltb_ℤ (pos n) (pos 0)) ≡ true =
        ground (arith, past) in
      rw test (beyond (ground (arith, past)))
  | inr within ↦
      let test : (ltb_ℤ (pos size) (pos n) || ltb_ℤ (pos n) (pos 0)) ≡ false =
        ground (arith, within) in
      rw test (moved (ground (arith, within)))
]

finish_seek-Seeks :
    (i size : ℕ) (s : Fs) (p : Option ℤ) → Seeks i size s p (finish_seek i (pos size) s p)
finish_seek-Seeks i size s none = unknown
finish_seek-Seeks i size s (some p) = seek_to-Seeks i size p s

int_of-small : (x : ℕ) → x < 2 ^ 31 → int_of x ≡ pos x
int_of-small x l = rw (lt→ltb x (2 ^ 31) l) refl

-- The position that `whence` and the offset ask for: from the start, from where the descriptor is, or
-- from the end of a file of `size` bytes; no other `whence` asks for one.
pub data Asks (whence : ℕ) (off : ℤ) (fd_pos size : ℕ) : Option ℤ → Type 0 where
  from_start : whence ≡ 1 → Asks whence off fd_pos size (some off)
  from_here : whence ≡ 2 → Asks whence off fd_pos size (some (pos fd_pos +ℤ off))
  from_end : whence ≡ 3 → Asks whence off fd_pos size (some (pos size +ℤ off))
  neither : whence ≢ 1 → whence ≢ 2 → whence ≢ 3 → Asks whence off fd_pos size none

seek_pos-Asks :
    (whence : ℕ) (off : ℤ) (fd_pos size : ℕ)
    → Asks whence off fd_pos size (seek_pos whence off (pos fd_pos) (pos size))
seek_pos-Asks whence off fd_pos size = elim (Bool-cases (whence == 1)) [
  | inl a ↦ rw a (from_start (==→eq whence 1 a))
  | inr a ↦ elim (Bool-cases (whence == 2)) [
    | inl b ↦ rw (a, b) (from_here (==→eq whence 2 b))
    | inr b ↦ elim (Bool-cases (whence == 3)) [
      | inl c ↦ rw (a, b, c) (from_end (==→eq whence 3 c))
      | inr c ↦ rw (a, b, c) (neither (ground (arith, a)) (ground (arith, b)) (ground (arith, c)))
    ]
  ]
]

-- On a descriptor that is open, of a file of less than 2 ^ 31 bytes, `do_lseek` returns. The position
-- asked for is the offset, an int, from the start of the file (SEEK_SET, 1), from the position of the
-- descriptor (SEEK_CUR, 2) or from the end of the file (SEEK_END, 3), and none for any other `whence`.
-- If it is neither below 0 nor past the end of the file, it is returned, and set in the descriptor and
-- nowhere else; else the result is -1, and nothing changes.
pub do_lseek-Seeks :
    (i pin : ℕ) (s : Fs)
    → s.fs_msg.m3i1 < nr_files
    → s.filp s.pcaller s.fs_msg.m3i1 ≡ some i
    → (s.f_desc_table i).fd_inode ≡ some pin
    → (s.inode_table pin).i_size < 2 ^ 31
    → (p : Option ℤ) × Asks s.fs_msg.m3i3
        (int_of s.fs_msg.m3i2)
        (s.f_desc_table i).fd_pos
        (s.inode_table pin).i_size
        p
      × Seeks i (s.inode_table pin).i_size s p (do_lseek s)
unfolding do_lseek descriptor
do_lseek-Seeks i pin s l open_fd open_inode small =
    let size = (s.inode_table pin).i_size in
    let fd_pos = (s.f_desc_table i).fd_pos in
    let p = seek_pos s.fs_msg.m3i3 (int_of s.fs_msg.m3i2) (pos fd_pos) (pos size) in
    (
      p,
      seek_pos-Asks s.fs_msg.m3i3 (int_of s.fs_msg.m3i2) fd_pos size,
      rw (lt→ltb s.fs_msg.m3i1 nr_files l, open_fd, open_inode, int_of-small size small)
          (finish_seek-Seeks i size s p),
    )
