-- ===== src/Fs/Store.antt =====
-- What a WRITE moves: the loop of `do_rdwt` of fs/read_write.c.
use minx.Prelude.{
  ℕ, ◌+◌, ◌-◌, ◌*◌, ◌^◌, ◌≤◌, ◌<◌, ◌≡◌, ◌≢◌, ◌⊎◌, inl, inr, refl, sym, ap, ◌∙◌, true, false, ltb,
  update, update_self, update_ne, ok, arith, Bool-cases,
}
use minx.Const.{sector_size}
use minx.Fs.State.{Fs, copy, has_driver, sect_pos}
use minx.Fs.Rdwt.{Job, rdwt_loop}
use minx.Fs.Buffer.{copy_in, copy_out, copy_store, copy_back}
use minx.Fs.Transfer.{IsAll}
use minx.Fs.Content.{round, loop-moves}

-- `n` bytes of the caller's memory from `buf` on are on the device from `base` on; no other byte of
-- a device changes, and nothing of the memory.
pub record IsStoredAt (dev base buf n : ℕ) (s s' : Fs) : Type 0 where
  pub bytes : (k : ℕ) → k < n → s'.disk dev (base + k) ≡ s.memory (buf + k)
  pub others : (p : ℕ) → (p < base) ⊎ (base + n ≤ p) → s'.disk dev p ≡ s.disk dev p
  pub devices : (d : ℕ) → d ≢ dev → s'.disk d ≡ s.disk d
  pub memory : s'.memory ≡ s.memory

-- What a round of a WRITE leaves on the device.
module _ (job : Job) (dev i off done bytes : ℕ) (s : Fs) (writes : job.reads ≡ false)
    (at : (s.inode_table job.pin).i_dev ≡ dev) (place : sect_pos i ≡ i * sector_size)
    (fits : off + bytes ≤ job.chunk * sector_size) where
  abbrev len : ℕ
  len = job.chunk * sector_size

  abbrev loaded : ℕ → ℕ
  loaded = copy s.fsbuf 0 (s.disk dev) (i * sector_size) len

  abbrev filled : ℕ → ℕ
  filled = copy loaded off s.memory (job.buf + done) bytes

  abbrev after : ℕ → ℕ
  after = copy (s.disk dev) (i * sector_size) filled 0 len

  round-disk : (round job i off done bytes s).disk ≡ update s.disk dev after
  round-disk = rw (writes, at, place) refl

  round-memory : (round job i off done bytes s).memory ≡ s.memory
  round-memory = rw writes refl

  round-bytes :
      (k : ℕ)
      → k < bytes
      → (round job i off done bytes s).disk dev (i * sector_size + off + k)
        ≡ s.memory (job.buf + done + k)
  round-bytes k l =
      ap (λ d. d dev (i * sector_size + off + k)) round-disk
      ∙ ap (λ t. t (i * sector_size + off + k)) (update_self s.disk dev after)
      ∙ ap after (omega arith)
      ∙ copy_store (s.disk dev) filled (i * sector_size) len (off + k) (omega (arith, l, fits))
      ∙ copy_in loaded off s.memory (job.buf + done) bytes k l

  round-others :
      (p : ℕ)
      → (p < i * sector_size + off) ⊎ (i * sector_size + off + bytes ≤ p)
      → (round job i off done bytes s).disk dev p ≡ s.disk dev p
  round-others p apart =
      ap (λ d. d dev p) round-disk
      ∙ ap (λ t. t p) (update_self s.disk dev after)
      ∙ copy_back (s.disk dev) s.fsbuf filled (i * sector_size) len p
          (λ k l e. copy_out loaded off s.memory (job.buf + done) bytes k (grind (arith, apart, e)))

  round-devices : (d : ℕ) → d ≢ dev → (round job i off done bytes s).disk d ≡ s.disk d
  round-devices d ne = ap (λ t. t d) round-disk ∙ update_ne s.disk dev d after (λ e. ne (sym e))

  -- A loop of a WRITE after the round.
  join-IsStoredAt :
      (next n : ℕ) (s' : Fs)
      → (0 < n → next ≡ i * sector_size + off + bytes)
      → IsStoredAt dev next (job.buf + (done + bytes)) n (round job i off done bytes s) s'
      → IsStoredAt dev (i * sector_size + off) (job.buf + done) (bytes + n) s s'
  join-IsStoredAt next n s' follows t = record {
    bytes = λ k l. elim (Bool-cases (ltb k bytes)) [
      | inl e ↦
          let here : k < bytes = ground (arith, e) in
          t.others (i * sector_size + off + k) (apart_of _ (inl (omega (arith, here))))
          ∙ round-bytes k here
      | inr e ↦
          let past : bytes ≤ k = ground (arith, e) in
          let rest : k - bytes < n = omega (arith, past, l) in
          let start = follows (omega (arith, rest)) in
          ap (s'.disk dev) (omega (arith, past, start))
          ∙ t.bytes (k - bytes) rest
          ∙ ap (λ m. m (job.buf + (done + bytes) + (k - bytes))) round-memory
          ∙ ap s.memory (omega (arith, past))
    ];
    others = λ p apart.
        t.others p (apart_of p (grind (arith, apart))) ∙ round-others p (grind (arith, apart));
    devices = λ d ne. t.devices d ne ∙ round-devices d ne;
    memory = t.memory ∙ round-memory;
  }
    where
      -- What is apart from the bytes of the loop, if it moves any.
      apart_of :
          (p : ℕ)
          → (p < i * sector_size + off + bytes) ⊎ (i * sector_size + off + bytes + n ≤ p)
          → (p < next) ⊎ (next + n ≤ p)
      apart_of p apart = elim (Bool-cases (ltb 0 n)) [
        | inl some_left ↦
            let start = follows (ground (arith, some_left)) in grind (arith, apart, start)
        | inr none_left ↦
            let zero_left : n ≡ 0 = ground (arith, none_left) in
            elim (Bool-cases (ltb p next)) [
              | inl e ↦ inl (ground (arith, e))
              | inr e ↦ inr (ground (arith, e, zero_left))
            ]
      ]

-- The loop of a WRITE, on a device with a driver, with a round for each sector that is left and one
-- more, a chunk of 1 to 256 sectors, `off` within it, and sectors whose positions are below 2 ^ 31,
-- returns: of `bytes_left` bytes it moves all, or those up to the end of the last sector at least,
-- which are those of the caller's buffer from `done` on, to the device from `off` in sector `i` on,
-- and it changes no other byte of any device, although it writes whole sectors.
pub rdwt_loop-IsStoredAt :
    (fuel : ℕ) (job : Job) (i off done bytes_left : ℕ) (s : Fs)
    → job.reads ≡ false
    → job.chunk ≤ 256
    → has_driver (s.inode_table job.pin).i_dev ≡ true
    → 0 < job.chunk
    → off ≤ job.chunk * sector_size
    → 0 < fuel
    → job.rw_sect_max + 1 < fuel + i
    → (job.rw_sect_max + 1) * sector_size ≤ 2 ^ 31
    → (n : ℕ) × (s' : Fs) × (rdwt_loop fuel job i off done bytes_left s ≡ ok (done + n, s'))
      × IsAll job i off bytes_left n
      × IsStoredAt (s.inode_table job.pin).i_dev (i * sector_size + off) (job.buf + done) n s s'
rdwt_loop-IsStoredAt fuel job i off done bytes_left s writes few driver c o f l w =
    let dev = (s.inode_table job.pin).i_dev in
    loop-moves job dev (IsStoredAt dev)
      (λ base buf s. record {
        bytes = λ k l. absurd (omega (arith, l));
        others = λ p apart. refl;
        devices = λ d ne. refl;
        memory = refl;
      })
      (λ i off done bytes next n s s' at place fits.
        join-IsStoredAt job dev i off done bytes s writes at place fits next n s')
      fuel i off done bytes_left s refl few driver c o f l w
