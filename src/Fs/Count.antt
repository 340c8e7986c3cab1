-- ===== src/Fs/Count.antt =====
-- `do_rdwt` of fs/read_write.c on files: it returns, and counts what it moved.
use minx.Prelude.{
  ◌*◌, ◌/◌, ◌%◌, ℕ, suc, ◌+◌, ◌-◌, ◌≤◌, ◌<◌, ◌≡◌, ◌⊎◌, inl, inr, refl, ap, ◌∙◌, min, true, ltb,
  ◌==◌, ◌||◌, if◌then◌else◌, update_self, some, ok, arith, lt→ltb, ◌^◌, Bool-cases, has_flag,
}
use minx.Prelude.Int.{pos}
use minx.Kernel.{Message}
use minx.Const.{sector_size, fsbuf_size, i_regular, o_rdwr, msg_read, msg_write}
use minx.Fs.State.{Inode, Fs, has_driver, get_super_block}
use minx.Fs.Inode.{set_inode}
use minx.Fs.Sync.{written_back, sync_inode-run}
use minx.Fs.Rdwt.{Job, grow, run_job, rdwt_file, rdwt_inode, rdwt_desc, do_rdwt}
use minx.Fs.Transfer.{IsAll, rdwt_loop-any}

-- The size of a file that was written up to a position.
abbrev pub grown : ℕ → ℕ → ℕ
grown size fd_pos = if ltb size fd_pos then fd_pos else size

get_super_block-same :
    (dev : ℕ) (s s' : Fs)
    → s'.super_block ≡ s.super_block
    → get_super_block dev s' ≡ get_super_block dev s
unfolding get_super_block
get_super_block-same dev s s' e = rw e refl

grow-ends :
    (i pin b : ℕ) (s : Fs)
    → has_driver (s.inode_table pin).i_dev ≡ true
    → get_super_block (s.inode_table pin).i_dev s ≡ ok b
    → (s' : Fs) × (grow i pin s ≡ ok s')
      × (s'.f_desc_table ≡ s.f_desc_table)
      × (s'.fs_msg ≡ s.fs_msg)
      × ((s'.inode_table pin).i_size ≡ grown (s.inode_table pin).i_size (s.f_desc_table i).fd_pos)
unfolding grow
grow-ends i pin b s driver found =
    elim (Bool-cases (ltb (s.inode_table pin).i_size (s.f_desc_table i).fd_pos)) [
      | inr e ↦ (s, rw e refl, refl, refl, rw e refl)
      | inl e ↦
          let v : Inode = record (s.inode_table pin) { i_size = (s.f_desc_table i).fd_pos } in
          let s1 = set_inode pin v s in
          let here : s1.inode_table pin ≡ v = update_self s.inode_table pin v in
          let same : (s1.inode_table pin).i_dev ≡ (s.inode_table pin).i_dev =
            ap (λ (x : Inode). x.i_dev) here in
          (
            written_back pin (s.super_block b) s1,
            rw e (
                sync_inode-run pin b s1 (ap has_driver same ∙ driver)
                  (get_super_block-same _ s s1 refl ∙ ap (λ d. get_super_block d s) same ∙ found)),
            refl,
            refl,
            rw e (ap (λ (x : Inode). x.i_size) here),
          )
    ]

-- `n` bytes were moved; the message is as before.
pub record IsCounted (i pin n : ℕ) (s s' : Fs) : Type 0 where
  pub fd_pos : (s'.f_desc_table i).fd_pos ≡ (s.f_desc_table i).fd_pos + n
  pub fs_msg : s'.fs_msg ≡ s.fs_msg
  pub i_size :
      (s'.inode_table pin).i_size ≡ grown (s.inode_table pin).i_size ((s.f_desc_table i).fd_pos + n)

run_job-ends :
    (fuel : ℕ) (job : Job) (first off len b : ℕ) (s : Fs)
    → job.chunk ≤ 256
    → has_driver (s.inode_table job.pin).i_dev ≡ true
    → get_super_block (s.inode_table job.pin).i_dev s ≡ ok b
    → (0 < job.chunk) ⊎ (job.rw_sect_max < first)
    → job.rw_sect_max < fuel + first
    → (n : ℕ) × (s' : Fs) × (run_job (suc fuel) job first off len s ≡ ok (pos n, s'))
      × IsAll job first off len n
      × IsCounted job.desc job.pin n s s'
unfolding run_job
run_job-ends fuel job first off len b s few driver found c l =
    let (n, s1, run, most, adv) = rdwt_loop-any fuel job first off 0 len s few driver c l in
    let same : (s1.inode_table job.pin) ≡ (s.inode_table job.pin) =
      ap (λ t. t job.pin) adv.inode_table in
    let (s2, end, descs, msg, size) =
      grow-ends job.desc job.pin b s1 (ap (λ (v : Inode). has_driver v.i_dev) same ∙ driver) (
        get_super_block-same (s1.inode_table job.pin).i_dev s s1 adv.super_block
        ∙ ap (λ (v : Inode). get_super_block v.i_dev s) same
        ∙ found) in
    (
      n,
      s2,
      rw (run, end) (ap (λ m. ok (pos m, s2)) (omega arith)),
      most,
      record {
        fs_msg = msg ∙ adv.fs_msg;
        fd_pos = ap (λ t. (t job.desc).fd_pos) descs ∙ adv.fd_pos;
        i_size =
            size
            ∙ ap (λ (v : Inode). grown v.i_size (s1.f_desc_table job.desc).fd_pos) same
            ∙ ap (grown (s.inode_table job.pin).i_size) adv.fd_pos;
      },
    )

rdwt_desc-file :
    (answer : Message → Message) (i pin : ℕ) (s : Fs)
    → has_flag (s.f_desc_table i).fd_mode o_rdwr ≡ true
    → (s.f_desc_table i).fd_inode ≡ some pin
    → (s.inode_table pin).i_mode ≡ i_regular
    → rdwt_desc answer i s ≡ rdwt_file s.fs_msg.type i pin s.fs_msg.m3p2 s.fs_msg.m3i2 s
unfolding rdwt_desc rdwt_inode
rdwt_desc-file answer i pin s mode open_inode regular = rw (mode, open_inode, regular) refl

do_rdwt-desc :
    (answer : Message → Message) (i : ℕ) (s : Fs)
    → s.filp s.pcaller s.fs_msg.m3i1 ≡ some i
    → do_rdwt answer s ≡ rdwt_desc answer i s
unfolding do_rdwt
do_rdwt-desc answer i s open_fd = rw open_fd refl

-- How far a READ or a WRITE may go in a file.
abbrev pub limit : ℕ → Inode → ℕ
limit type v = if type == msg_read then v.i_size else v.i_nr_sects * sector_size % 2 ^ 32

-- The loop moves all bytes of a request that ends within the limit.
all_within :
    (start position len lim n : ℕ)
    → (n ≡ len)
      ⊎ ((start + min (position + len) lim / sector_size + 1) * sector_size
          ≤ (start + position / sector_size) * sector_size + position % sector_size + n)
    → n ≤ len
    → position + len ≤ lim
    → n ≡ len
all_within start position len lim n (inl e) l within = e
all_within start position len lim n (inr far) l within = omega (arith, far, l, within)

-- `chunk` is 0 only if the position is past the last sector to move.
some_chunk : (last first : ℕ) → (0 < min (last + 1 - first) 2048) ⊎ (last < first)
some_chunk last first = elim (Bool-cases (ltb last first)) [
  | inl past ↦ inr (ground (arith, past))
  | inr within ↦ inl (ground (arith, within))
]

rdwt_file-ends :
    (type i pin buf len b : ℕ) (s : Fs)
    → (s.inode_table pin).i_mode ≡ i_regular
    → (type == msg_read || type == msg_write) ≡ true
    → has_driver (s.inode_table pin).i_dev ≡ true
    → get_super_block (s.inode_table pin).i_dev s ≡ ok b
    → len ≤ 255 * sector_size
    → (s.f_desc_table i).fd_pos + len < 2 ^ 31
    → (s.inode_table pin).i_start_sect + (s.f_desc_table i).fd_pos + len < 2 ^ 31
    → (n : ℕ) × (s' : Fs) × (rdwt_file type i pin buf len s ≡ ok (pos n, s'))
      × (n ≤ len)
      × ((s.f_desc_table i).fd_pos + len ≤ limit type (s.inode_table pin) → n ≡ len)
      × IsCounted i pin n s s'
unfolding rdwt_file
rdwt_file-ends type i pin buf len b s regular kind driver found few low small =
    let v = s.inode_table pin in
    let position = (s.f_desc_table i).fd_pos in
    let first = v.i_start_sect + position / sector_size in
    let last = v.i_start_sect + min (position + len) (limit type v) / sector_size in
    let job : Job = record {
      reads = type == msg_read;
      desc = i;
      pin = pin;
      buf = buf;
      chunk = min (last + 1 - first) (fsbuf_size / sector_size);
      rw_sect_max = last;
    } in
    let fits : ltb (position + len) (2 ^ 31) ≡ true = lt→ltb _ _ low in
    let last_fits : ltb last (2 ^ 31) ≡ true = lt→ltb _ _ (omega (arith, small)) in
    let (n, s', run, all, counted) =
      run_job-ends (last + 1 - first) job first (position % sector_size) len b s
        (omega (arith, few)) driver found (some_chunk last first) (omega arith) in
    (
      n,
      s',
      rw (regular, kind, fits, last_fits) run,
      all.most,
      (λ within. all_within v.i_start_sect position len (limit type v) n all.all all.most within),
      counted,
    )

-- On an open descriptor for reading and writing, of a regular file on a device with a driver and a
-- super block, a READ or WRITE of at most 255 sectors' bytes (so that no command asks for more than
-- 256 sectors), with the end of the request, and that plus the first sector of the file, below 2 ^
-- 31, returns: it moves at most the bytes asked for, and all of them if a READ ends within the size
-- of the file or a WRITE within its sectors (counted on 32 bits); it moves the position by as many,
-- and the size of the file becomes the new position if that is past the old size. The message is as
-- before.
pub do_rdwt-IsCounted :
    (answer : Message → Message) (i pin b : ℕ) (s : Fs)
    → s.filp s.pcaller s.fs_msg.m3i1 ≡ some i
    → has_flag (s.f_desc_table i).fd_mode o_rdwr ≡ true
    → (s.f_desc_table i).fd_inode ≡ some pin
    → (s.inode_table pin).i_mode ≡ i_regular
    → (s.fs_msg.type ≡ msg_read) ⊎ (s.fs_msg.type ≡ msg_write)
    → has_driver (s.inode_table pin).i_dev ≡ true
    → get_super_block (s.inode_table pin).i_dev s ≡ ok b
    → s.fs_msg.m3i2 ≤ 255 * sector_size
    → (s.f_desc_table i).fd_pos + s.fs_msg.m3i2 < 2 ^ 31
    → (s.inode_table pin).i_start_sect + (s.f_desc_table i).fd_pos + s.fs_msg.m3i2 < 2 ^ 31
    → (n : ℕ) × (s' : Fs) × (do_rdwt answer s ≡ ok (pos n, s'))
      × (n ≤ s.fs_msg.m3i2)
      × ((s.f_desc_table i).fd_pos + s.fs_msg.m3i2 ≤ limit s.fs_msg.type (s.inode_table pin)
          → n ≡ s.fs_msg.m3i2)
      × IsCounted i pin n s s'
do_rdwt-IsCounted answer i pin b s open_fd mode open_inode regular kind driver found few low small =
    rw (do_rdwt-desc answer i s open_fd, rdwt_desc-file answer i pin s mode open_inode regular)
      (rdwt_file-ends s.fs_msg.type i pin s.fs_msg.m3p2 s.fs_msg.m3i2 b s regular (is_kind kind)
        driver found few low small)
  where
    is_kind :
        (s.fs_msg.type ≡ msg_read) ⊎ (s.fs_msg.type ≡ msg_write)
        → (s.fs_msg.type == msg_read || s.fs_msg.type == msg_write) ≡ true
    is_kind (inl e) = rw e refl
    is_kind (inr e) = rw e refl
