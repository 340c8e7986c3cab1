-- ===== src/Fs/Sync.antt =====
-- `sync_inode` of fs/main.c: the i-node on the disk is the one in the table.
use minx.Prelude.{
  ℕ, ◌+◌, ◌^◌, ◌≤◌, ◌<◌, ◌≡◌, ◌≢◌, ◌⊎◌, inl, inr, refl, sym, ap, ◌∙◌, true, update, update_self,
  update_ne, ok, arith,
}
use minx.Const.{sector_size}
use minx.Fs.State.{
  Inode, SuperBlock, Fs, copy, get_super_block, read32, write32, read_sector, write_sector,
  has_driver, sect_pos,
}
use minx.Fs.Inode.{write_inode, sync_inode, inode_sect, inode_off, inode_pos}
use minx.Fs.Buffer.{copy_back, read32-store, read32-write32, read32-write32-apart, write32-out}

-- The four words are `uint32_t`.
pub record IsWords (v : Inode) : Type 0 where
  pub i_mode : v.i_mode < 2 ^ 32
  pub i_size : v.i_size < 2 ^ 32
  pub i_start_sect : v.i_start_sect < 2 ^ 32
  pub i_nr_sects : v.i_nr_sects < 2 ^ 32

-- The words of the i-node stand at `at`.
pub record IsWritten (d : ℕ → ℕ) (at : ℕ) (v : Inode) : Type 0 where
  pub i_mode : read32 d at ≡ v.i_mode
  pub i_size : read32 d (at + 4) ≡ v.i_size
  pub i_start_sect : read32 d (at + 8) ≡ v.i_start_sect
  pub i_nr_sects : read32 d (at + 12) ≡ v.i_nr_sects

write_inode-IsWritten :
    (buf : ℕ → ℕ) (off : ℕ) (v : Inode) → IsWords v → IsWritten (write_inode buf off v) off v
write_inode-IsWritten buf off v w =
    let b1 = write32 buf off v.i_mode in
    let b2 = write32 b1 (off + 4) v.i_size in
    let b3 = write32 b2 (off + 8) v.i_start_sect in
    record {
      i_mode =
          read32-write32-apart b3 (off + 12) v.i_nr_sects off (inl (omega arith))
          ∙ read32-write32-apart b2 (off + 8) v.i_start_sect off (inl (omega arith))
          ∙ read32-write32-apart b1 (off + 4) v.i_size off (inl (omega arith))
          ∙ read32-write32 buf off v.i_mode w.i_mode;
      i_size =
          read32-write32-apart b3 (off + 12) v.i_nr_sects (off + 4) (inl (omega arith))
          ∙ read32-write32-apart b2 (off + 8) v.i_start_sect (off + 4) (inl (omega arith))
          ∙ read32-write32 b1 (off + 4) v.i_size w.i_size;
      i_start_sect =
          read32-write32-apart b3 (off + 12) v.i_nr_sects (off + 8) (inl (omega arith))
          ∙ read32-write32 b2 (off + 8) v.i_start_sect w.i_start_sect;
      i_nr_sects = read32-write32 b3 (off + 12) v.i_nr_sects w.i_nr_sects;
    }

write_inode-out :
    (buf : ℕ → ℕ) (off : ℕ) (v : Inode) (i : ℕ)
    → (i < off) ⊎ (off + 16 ≤ i)
    → write_inode buf off v i ≡ buf i
write_inode-out buf off v i apart =
    let b1 = write32 buf off v.i_mode in
    let b2 = write32 b1 (off + 4) v.i_size in
    let b3 = write32 b2 (off + 8) v.i_start_sect in
    write32-out b3 (off + 12) v.i_nr_sects i (word 12 (omega arith) apart)
    ∙ write32-out b2 (off + 8) v.i_start_sect i (word 8 (omega arith) apart)
    ∙ write32-out b1 (off + 4) v.i_size i (word 4 (omega arith) apart)
    ∙ write32-out buf off v.i_mode i (first apart)
  where
    word : (k : ℕ) → k ≤ 12 → (i < off) ⊎ (off + 16 ≤ i) → (i < off + k) ⊎ (off + k + 4 ≤ i)
    word k lk (inl l) = inl (omega (arith, l))
    word k lk (inr l) = inr (omega (arith, l, lk))

    first : (i < off) ⊎ (off + 16 ≤ i) → (i < off) ⊎ (off + 4 ≤ i)
    first (inl l) = inl l
    first (inr l) = inr (omega (arith, l))

-- `s'` is `s` with the i-node `v` written to its place.
pub record IsSynced (sb : SuperBlock) (v : Inode) (s s' : Fs) : Type 0 where
  pub written : IsWritten (s'.disk v.i_dev) (inode_pos sb v.i_num) v
  pub others :
      (i : ℕ)
      → (i < inode_pos sb v.i_num) ⊎ (inode_pos sb v.i_num + 16 ≤ i)
      → s'.disk v.i_dev i ≡ s.disk v.i_dev i
  pub devices : (d : ℕ) → d ≢ v.i_dev → s'.disk d ≡ s.disk d
  pub inode_table : s'.inode_table ≡ s.inode_table

-- The disk of the device of `v` when its i-node is written back.
abbrev pub synced : SuperBlock → Inode → Fs → ℕ → ℕ
synced sb v s =
    let at = sect_pos (inode_sect sb v.i_num) in
    let d = s.disk v.i_dev in
    copy d at (write_inode (copy s.fsbuf 0 d at sector_size) (inode_off v.i_num) v) 0 sector_size

synced-IsWritten :
    (sb : SuperBlock) (v : Inode) (s : Fs)
    → IsWords v
    → IsWritten (synced sb v s) (inode_pos sb v.i_num) v
synced-IsWritten sb v s w =
    let at = sect_pos (inode_sect sb v.i_num) in
    let off = inode_off v.i_num in
    let d = s.disk v.i_dev in
    let buf = write_inode (copy s.fsbuf 0 d at sector_size) off v in
    let h = write_inode-IsWritten (copy s.fsbuf 0 d at sector_size) off v w in
    let word : (k : ℕ) → k ≤ 12 → read32 (synced sb v s) (at + off + k) ≡ read32 buf (off + k) =
      λ k l.
        ap (read32 (synced sb v s)) (omega arith)
        ∙ read32-store d buf at sector_size (off + k) (omega (arith, l)) in
    record {
      i_mode = read32-store d buf at sector_size off (omega arith) ∙ h.i_mode;
      i_size = word 4 (omega arith) ∙ h.i_size;
      i_start_sect = word 8 (omega arith) ∙ h.i_start_sect;
      i_nr_sects = word 12 (omega arith) ∙ h.i_nr_sects;
    }

synced-others :
    (sb : SuperBlock) (v : Inode) (s : Fs) (i : ℕ)
    → (i < inode_pos sb v.i_num) ⊎ (inode_pos sb v.i_num + 16 ≤ i)
    → synced sb v s i ≡ s.disk v.i_dev i
synced-others sb v s i apart =
    let at = sect_pos (inode_sect sb v.i_num) in
    let off = inode_off v.i_num in
    let d = s.disk v.i_dev in
    copy_back d s.fsbuf (write_inode (copy s.fsbuf 0 d at sector_size) off v) at sector_size i
      (λ k l e. write_inode-out (copy s.fsbuf 0 d at sector_size) off v k (grind (arith, apart, e)))

-- The state in which `sync_inode` ends.
abbrev pub written_back : ℕ → SuperBlock → Fs → Fs
written_back p sb s =
    let v = s.inode_table p in
    let at = sect_pos (inode_sect sb v.i_num) in
    record s {
      fsbuf = write_inode (copy s.fsbuf 0 (s.disk v.i_dev) at sector_size) (inode_off v.i_num) v;
      disk = update s.disk v.i_dev (synced sb v s);
    }

pub sync_inode-run :
    (p b : ℕ) (s : Fs)
    → has_driver (s.inode_table p).i_dev ≡ true
    → get_super_block (s.inode_table p).i_dev s ≡ ok b
    → sync_inode p s ≡ ok (written_back p (s.super_block b) s)
unfolding sync_inode read_sector write_sector
sync_inode-run p b s driver found = rw (found, driver) refl

-- For a slot of the table whose device has a driver and a super block, and whose words are below
-- 2 ^ 32, `sync_inode` returns; on the disk, read as `get_inode` reads it, the i-node then has the
-- words of the slot, every other byte of every device is as before, and so is the table.
pub sync_inode-IsSynced :
    (p b : ℕ) (s : Fs)
    → has_driver (s.inode_table p).i_dev ≡ true
    → get_super_block (s.inode_table p).i_dev s ≡ ok b
    → IsWords (s.inode_table p)
    → (s' : Fs) × (sync_inode p s ≡ ok s') × IsSynced (s.super_block b) (s.inode_table p) s s'
sync_inode-IsSynced p b s driver found w =
    let v = s.inode_table p in
    let sb = s.super_block b in
    let s' = written_back p sb s in
    let here : s'.disk v.i_dev ≡ synced sb v s = update_self s.disk v.i_dev (synced sb v s) in
    (
      s',
      sync_inode-run p b s driver found,
      record {
        written = rw here (synced-IsWritten sb v s w);
        others = λ i apart. ap (λ t. t i) here ∙ synced-others sb v s i apart;
        devices = λ d ne. update_ne s.disk v.i_dev d (synced sb v s) (λ e. ne (sym e));
        inode_table = refl;
      },
    )
