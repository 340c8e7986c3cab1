-- ===== src/Fs/Fetch.antt =====
-- What a READ moves: the loop of `do_rdwt` of fs/read_write.c.
use minx.Prelude.{
  ℕ, ◌+◌, ◌-◌, ◌*◌, ◌^◌, ◌≤◌, ◌<◌, ◌≡◌, ◌⊎◌, inl, inr, refl, ap, ◌∙◌, true, ltb, ok, arith,
  Bool-cases,
}
use minx.Const.{sector_size}
use minx.Fs.State.{Fs, copy, has_driver, sect_pos}
use minx.Fs.Rdwt.{Job, rdwt_loop}
use minx.Fs.Buffer.{copy_in, copy_out, copy_load}
use minx.Fs.Transfer.{IsAll}
use minx.Fs.Content.{round, loop-moves}

-- `n` bytes of the device from `base` on are in the caller's memory from `buf` on; nothing else of
-- the memory changes, and no disk.
pub record IsRead (dev base buf n : ℕ) (s s' : Fs) : Type 0 where
  pub bytes : (k : ℕ) → k < n → s'.memory (buf + k) ≡ s.disk dev (base + k)
  pub others : (a : ℕ) → (a < buf) ⊎ (buf + n ≤ a) → s'.memory a ≡ s.memory a
  pub disk : s'.disk ≡ s.disk

-- The buffer after `chunk` sectors from `i` on are read into it.
abbrev sectors : Job → ℕ → Fs → ℕ → ℕ
sectors job i s =
    copy s.fsbuf 0 (s.disk (s.inode_table job.pin).i_dev) (sect_pos i) (job.chunk * sector_size)

sectors-disk :
    (job : Job) (i k dev : ℕ) (s : Fs)
    → (s.inode_table job.pin).i_dev ≡ dev
    → sect_pos i ≡ i * sector_size
    → k < job.chunk * sector_size
    → sectors job i s k ≡ s.disk dev (i * sector_size + k)
sectors-disk job i k dev s at place l =
    copy_load s.fsbuf (s.disk (s.inode_table job.pin).i_dev) (sect_pos i) (job.chunk * sector_size)
      k l
    ∙ ap (λ d. s.disk d (sect_pos i + k)) at
    ∙ ap (λ p. s.disk dev (p + k)) place

join-IsRead :
    (job : Job) (dev i off done bytes next n : ℕ) (s s' : Fs)
    → job.reads ≡ true
    → (s.inode_table job.pin).i_dev ≡ dev
    → sect_pos i ≡ i * sector_size
    → off + bytes ≤ job.chunk * sector_size
    → (0 < n → next ≡ i * sector_size + off + bytes)
    → IsRead dev next (job.buf + (done + bytes)) n (round job i off done bytes s) s'
    → IsRead dev (i * sector_size + off) (job.buf + done) (bytes + n) s s'
join-IsRead job dev i off done bytes next n s s' reads at place fits follows t = record {
  bytes = λ k l. elim (Bool-cases (ltb k bytes)) [
    | inl e ↦
        let here : k < bytes = ground (arith, e) in
        t.others (job.buf + done + k) (inl (omega (arith, here)))
        ∙ ap (λ m. m (job.buf + done + k)) memory
        ∙ copy_in s.memory (job.buf + done) (sectors job i s) off bytes k here
        ∙ sectors-disk job i (off + k) dev s at place (omega (arith, here, fits))
        ∙ ap (s.disk dev) (omega arith)
    | inr e ↦
        let after : bytes ≤ k = ground (arith, e) in
        let rest : k - bytes < n = omega (arith, after, l) in
        let start = follows (omega (arith, rest)) in
        ap s'.memory (omega (arith, after))
        ∙ t.bytes (k - bytes) rest
        ∙ ap (λ d. d dev (next + (k - bytes))) disk
        ∙ ap (s.disk dev) (omega (arith, after, start))
  ];
  others = λ a apart.
      t.others a (grind (arith, apart))
      ∙ ap (λ m. m a) memory
      ∙ copy_out s.memory (job.buf + done) (sectors job i s) off bytes a (grind (arith, apart));
  disk = t.disk ∙ disk;
}
  where
    memory :
        (round job i off done bytes s).memory
        ≡ copy s.memory (job.buf + done) (sectors job i s) off bytes
    memory = rw reads refl

    disk : (round job i off done bytes s).disk ≡ s.disk
    disk = rw reads refl

-- The loop of a READ, on a device with a driver, with a round for each sector that is left and one
-- more, a chunk of 1 to 256 sectors, `off` within it, and sectors whose positions are below 2 ^ 31,
-- returns: of `bytes_left` bytes it moves all, or those up to the end of the last sector at least,
-- which are those of the device from `off` in sector `i` on, to the caller's buffer from `done` on.
pub rdwt_loop-IsRead :
    (fuel : ℕ) (job : Job) (i off done bytes_left : ℕ) (s : Fs)
    → job.reads ≡ true
    → job.chunk ≤ 256
    → has_driver (s.inode_table job.pin).i_dev ≡ true
    → 0 < job.chunk
    → off ≤ job.chunk * sector_size
    → 0 < fuel
    → job.rw_sect_max + 1 < fuel + i
    → (job.rw_sect_max + 1) * sector_size ≤ 2 ^ 31
    → (n : ℕ) × (s' : Fs) × (rdwt_loop fuel job i off done bytes_left s ≡ ok (done + n, s'))
      × IsAll job i off bytes_left n
      × IsRead (s.inode_table job.pin).i_dev (i * sector_size + off) (job.buf + done) n s s'
rdwt_loop-IsRead fuel job i off done bytes_left s reads few driver c o f l w =
    let dev = (s.inode_table job.pin).i_dev in
    loop-moves job dev (IsRead dev)
      (λ base buf s. record {
        bytes = λ k l. absurd (omega (arith, l));
        others = λ a apart. refl;
        disk = refl;
      })
      (λ i off done bytes next n s s'. join-IsRead job dev i off done bytes next n s s' reads) fuel
      i off done bytes_left s refl few driver c o f l w
