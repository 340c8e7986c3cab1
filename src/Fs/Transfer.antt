-- ===== src/Fs/Transfer.antt =====
-- `do_rdwt` of fs/read_write.c ends, and what it counts.
use minx.Prelude.{
  ℕ, zero, suc, ◌+◌, ◌-◌, ◌*◌, ◌≤◌, ◌<◌, ◌≡◌, ◌⊎◌, inl, inr, refl, ap, ◌∙◌, min, true, false, ltb,
  leb, if◌then◌else◌, update, update_self, ok, arith, Bool-cases, lt→ltb,
}
use minx.Const.{sector_size}
use minx.Fs.State.{FileDesc, Fs, copy, has_driver, sect_pos, read_sector, write_sector}
use minx.Fs.Rdwt.{Job, to_caller, from_caller, advance_pos, transfer, rdwt_loop}

-- The parts of the state that the loop leaves alone.
pub record IsSameTables (s s' : Fs) : Type 0 where
  pub inode_table : s'.inode_table ≡ s.inode_table
  pub super_block : s'.super_block ≡ s.super_block
  pub fs_msg : s'.fs_msg ≡ s.fs_msg
  pub f_desc_table : s'.f_desc_table ≡ s.f_desc_table

-- The state in which the body of the loop ends.
abbrev pub transferred : Job → ℕ → ℕ → ℕ → ℕ → Fs → Fs
transferred job i off done bytes s =
    let dev = (s.inode_table job.pin).i_dev in
    let len = job.chunk * sector_size in
    let s1 = record s { fsbuf = copy s.fsbuf 0 (s.disk dev) (sect_pos i) len } in
    let s2 = from_caller job off done bytes s1 in
    if job.reads
    then to_caller job off done bytes s1
    else record s2 { disk = update s2.disk dev (copy (s2.disk dev) (sect_pos i) s2.fsbuf 0 len) }

pub transfer-run :
    (job : Job) (i off done bytes : ℕ) (s : Fs)
    → job.chunk ≤ 256
    → has_driver (s.inode_table job.pin).i_dev ≡ true
    → transfer job i off done bytes s ≡ ok (transferred job i off done bytes s)
unfolding transfer read_sector write_sector
transfer-run job i off done bytes s few driver =
    let fits : leb (job.chunk * sector_size) 131072 ≡ true = ground (arith, few) in
    elim (Bool-cases job.reads) [
      | inl e ↦ rw (driver, e, fits) refl
      | inr e ↦ rw (driver, e, fits) refl
    ]

pub transferred-IsSameTables :
    (job : Job) (i off done bytes : ℕ) (s : Fs)
    → IsSameTables s (transferred job i off done bytes s)
transferred-IsSameTables job i off done bytes s = elim (Bool-cases job.reads) [
  | inl e ↦
      rw e (record { inode_table = refl; super_block = refl; fs_msg = refl; f_desc_table = refl })
  | inr e ↦
      rw e (record { inode_table = refl; super_block = refl; fs_msg = refl; f_desc_table = refl })
]

-- `s'` is `s` with the position of the descriptor `n` further; no i-node and no super block changes,
-- nor the message.
pub record IsAdvanced (desc n : ℕ) (s s' : Fs) : Type 0 where
  pub inode_table : s'.inode_table ≡ s.inode_table
  pub super_block : s'.super_block ≡ s.super_block
  pub fs_msg : s'.fs_msg ≡ s.fs_msg
  pub fd_pos : (s'.f_desc_table desc).fd_pos ≡ (s.f_desc_table desc).fd_pos + n

IsAdvanced-step :
    (job : Job) (m n : ℕ) (s s1 s2 : Fs)
    → IsSameTables s s1
    → IsAdvanced job.desc n (advance_pos job.desc m s1) s2
    → IsAdvanced job.desc (m + n) s s2
IsAdvanced-step job m n s s1 s2 t h = record {
  inode_table = h.inode_table ∙ t.inode_table;
  super_block = h.super_block ∙ t.super_block;
  fs_msg = h.fs_msg ∙ t.fs_msg;
  fd_pos =
      let f = s1.f_desc_table job.desc in
      let v : FileDesc = record f { fd_pos = f.fd_pos + m } in
      let here : (update s1.f_desc_table job.desc v job.desc).fd_pos ≡ f.fd_pos + m =
        ap (λ (x : FileDesc). x.fd_pos) (update_self s1.f_desc_table job.desc v) in
      let before : f.fd_pos ≡ (s.f_desc_table job.desc).fd_pos =
        ap (λ t. (t job.desc).fd_pos) t.f_desc_table in
      h.fd_pos ∙ ap (λ x. x + n) here ∙ ap (λ x. x + m + n) before ∙ omega arith;
}

pub loop-done :
    (fuel : ℕ) (job : Job) (i off bytes_rw bytes_left : ℕ) (s : Fs)
    → ltb job.rw_sect_max i ≡ true
    → rdwt_loop (suc fuel) job i off bytes_rw bytes_left s ≡ ok (bytes_rw, s)
unfolding rdwt_loop
loop-done fuel job i off bytes_rw bytes_left s e = rw (e, rdwt_loop) refl

-- A round of the loop moves this many bytes.
abbrev pub round_bytes : Job → ℕ → ℕ → ℕ
round_bytes job off bytes_left = min bytes_left (job.chunk * sector_size - off)

-- Of `bytes_left` bytes the loop moves `n`: all of them, or those up to the end of the last sector
-- at least.
pub record IsAll (job : Job) (i off bytes_left n : ℕ) : Type 0 where
  pub most : n ≤ bytes_left
  pub all : (n ≡ bytes_left) ⊎ ((job.rw_sect_max + 1) * sector_size ≤ i * sector_size + off + n)

pub none-IsAll :
    (job : Job) (i off bytes_left : ℕ) → job.rw_sect_max < i → IsAll job i off bytes_left 0
none-IsAll job i off bytes_left l = record { most = omega arith; all = inr (omega (arith, l)) }

pub round-IsAll :
    (job : Job) (i off bytes_left n : ℕ)
    → IsAll job (i + job.chunk) 0 (bytes_left - round_bytes job off bytes_left) n
    → IsAll job i off bytes_left (round_bytes job off bytes_left + n)
round-IsAll job i off bytes_left n t = record {
  most = let m = t.most in omega (arith, m);
  all = let m = t.most in let a = t.all in grind (arith, m, a);
}

pub loop-round :
    (fuel : ℕ) (job : Job) (i off bytes_rw bytes_left : ℕ) (s : Fs)
    → job.chunk ≤ 256
    → has_driver (s.inode_table job.pin).i_dev ≡ true
    → ltb job.rw_sect_max i ≡ false
    → rdwt_loop (suc fuel) job i off bytes_rw bytes_left s
      ≡ rdwt_loop fuel job
          (i + job.chunk)
          0
          (bytes_rw + round_bytes job off bytes_left)
          (bytes_left - round_bytes job off bytes_left)
          (advance_pos job.desc
            (round_bytes job off bytes_left)
            (transferred job i off bytes_rw (round_bytes job off bytes_left) s))
unfolding rdwt_loop
loop-round fuel job i off bytes_rw bytes_left s few driver e =
    rw (e, rdwt_loop, transfer-run job i off bytes_rw (round_bytes job off bytes_left) s few driver)
      refl

stopped :
    (fuel : ℕ) (job : Job) (i off bytes_rw bytes_left : ℕ) (s : Fs)
    → ltb job.rw_sect_max i ≡ true
    → (n : ℕ) × (s' : Fs) × (rdwt_loop (suc fuel) job i off bytes_rw bytes_left s
        ≡ ok (bytes_rw + n, s'))
      × IsAll job i off bytes_left n
      × IsAdvanced job.desc n s s'
stopped fuel job i off bytes_rw bytes_left s e = (
  0,
  s,
  loop-done fuel job i off bytes_rw bytes_left s e ∙ ap (λ n. ok (n, s)) (omega arith),
  none-IsAll job i off bytes_left (ground (arith, e)),
  record { inode_table = refl; super_block = refl; fs_msg = refl; fd_pos = omega arith },
)

-- With a round for each sector that is left and one more, the loop ends.
pub rdwt_loop-ends :
    (fuel : ℕ) (job : Job) (i off bytes_rw bytes_left : ℕ) (s : Fs)
    → job.chunk ≤ 256
    → has_driver (s.inode_table job.pin).i_dev ≡ true
    → 0 < job.chunk
    → 0 < fuel
    → job.rw_sect_max + 1 < fuel + i
    → (n : ℕ) × (s' : Fs) × (rdwt_loop fuel job i off bytes_rw bytes_left s ≡ ok (bytes_rw + n, s'))
      × IsAll job i off bytes_left n
      × IsAdvanced job.desc n s s'
rdwt_loop-ends zero job i off bytes_rw bytes_left s few driver c f l = absurd (omega (arith, f))
rdwt_loop-ends (suc fuel) job i off bytes_rw bytes_left s few driver c f l =
    elim (Bool-cases (ltb job.rw_sect_max i)) [
      | inl e ↦ stopped fuel job i off bytes_rw bytes_left s e
      | inr e ↦
          let bytes = round_bytes job off bytes_left in
          let s1 = transferred job i off bytes_rw bytes s in
          let same = transferred-IsSameTables job i off bytes_rw bytes s in
          let (n, s2, run, most, adv) =
            rdwt_loop-ends fuel job (i + job.chunk) 0 (bytes_rw + bytes) (bytes_left - bytes)
              (advance_pos job.desc bytes s1) few
              (ap (λ t. has_driver (t job.pin).i_dev) same.inode_table ∙ driver) c
              (ground (arith, e, l)) (omega (arith, l, c)) in
          (
            bytes + n,
            s2,
            loop-round fuel job i off bytes_rw bytes_left s few driver e
                ∙ run
                ∙ ap (λ n. ok (n, s2)) (omega arith),
            round-IsAll job i off bytes_left n most,
            IsAdvanced-step job bytes n s s1 s2 same adv,
          )
    ]

-- A loop whose chunk may be empty if it has no round.
pub rdwt_loop-any :
    (fuel : ℕ) (job : Job) (i off bytes_rw bytes_left : ℕ) (s : Fs)
    → job.chunk ≤ 256
    → has_driver (s.inode_table job.pin).i_dev ≡ true
    → (0 < job.chunk) ⊎ (job.rw_sect_max < i)
    → job.rw_sect_max < fuel + i
    → (n : ℕ) × (s' : Fs) × (rdwt_loop (suc fuel) job i off bytes_rw bytes_left s
        ≡ ok (bytes_rw + n, s'))
      × IsAll job i off bytes_left n
      × IsAdvanced job.desc n s s'
rdwt_loop-any fuel job i off bytes_rw bytes_left s few driver (inl c) l =
    rdwt_loop-ends (suc fuel) job i off bytes_rw bytes_left s few driver c (omega arith)
      (omega (arith, l))
rdwt_loop-any fuel job i off bytes_rw bytes_left s few driver (inr none_left) l =
    stopped fuel job i off bytes_rw bytes_left s (lt→ltb job.rw_sect_max i none_left)
