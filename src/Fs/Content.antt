-- ===== src/Fs/Content.antt =====
-- The loop of `do_rdwt` of fs/read_write.c moves bytes in order.
use minx.Prelude.{
  ℕ, zero, suc, ◌+◌, ◌-◌, ◌*◌, ◌^◌, ◌≤◌, ◌<◌, ◌≡◌, inl, inr, ap, ◌∙◌, true, ltb, ok, arith,
  Bool-cases,
}
use minx.Const.{sector_size}
use minx.Fs.State.{Fs, has_driver, sect_pos}
use minx.Fs.Buffer.{sect_pos-small}
use minx.Fs.Rdwt.{Job, advance_pos, rdwt_loop}
use minx.Fs.Transfer.{
  IsAll, none-IsAll, round-IsAll, transferred, transferred-IsSameTables, round_bytes, loop-round,
  loop-done,
}

-- The state after a round.
abbrev pub round : Job → ℕ → ℕ → ℕ → ℕ → Fs → Fs
round job i off done bytes s = advance_pos job.desc bytes (transferred job i off done bytes s)

module _ (job : Job) (dev : ℕ) (Moved : ℕ → ℕ → ℕ → Fs → Fs → Type 0)
    (nothing : (base buf : ℕ) (s : Fs) → Moved base buf 0 s s)
    (join : (i off done bytes next n : ℕ) (s s' : Fs)
      → (s.inode_table job.pin).i_dev ≡ dev
      → sect_pos i ≡ i * sector_size
      → off + bytes ≤ job.chunk * sector_size
      → (0 < n → next ≡ i * sector_size + off + bytes)
      → Moved next (job.buf + (done + bytes)) n (round job i off done bytes s) s'
      → Moved (i * sector_size + off) (job.buf + done) (bytes + n) s s') where
  -- The loop moves bytes in order if a round and a loop after it do.
  pub loop-moves :
      (fuel : ℕ) (i off done bytes_left : ℕ) (s : Fs)
      → (s.inode_table job.pin).i_dev ≡ dev
      → job.chunk ≤ 256
      → has_driver dev ≡ true
      → 0 < job.chunk
      → off ≤ job.chunk * sector_size
      → 0 < fuel
      → job.rw_sect_max + 1 < fuel + i
      → (job.rw_sect_max + 1) * sector_size ≤ 2 ^ 31
      → (n : ℕ) × (s' : Fs) × (rdwt_loop fuel job i off done bytes_left s ≡ ok (done + n, s'))
        × IsAll job i off bytes_left n
        × Moved (i * sector_size + off) (job.buf + done) n s s'
  loop-moves zero i off done bytes_left s at few driver c o f l w = absurd (omega (arith, f))
  loop-moves (suc fuel) i off done bytes_left s at few driver c o f l w =
      elim (Bool-cases (ltb job.rw_sect_max i)) [
        | inl e ↦ (
          0,
          s,
          loop-done fuel job i off done bytes_left s e ∙ ap (λ n. ok (n, s)) (omega arith),
          none-IsAll job i off bytes_left (ground (arith, e)),
          nothing _ _ s,
        )
        | inr e ↦
            let bytes = round_bytes job off bytes_left in
            let same = transferred-IsSameTables job i off done bytes s in
            let (n, s2, run, most, moved) =
              loop-moves fuel (i + job.chunk) 0 (done + bytes) (bytes_left - bytes)
                (round job i off done bytes s) (ap (λ t. (t job.pin).i_dev) same.inode_table ∙ at)
                few driver c (omega arith) (ground (arith, e, l)) (omega (arith, l, c)) w in
            let bound = most.most in
            let within : i ≤ job.rw_sect_max = ground (arith, e) in
            (
              bytes + n,
              s2,
              loop-round fuel job i off done bytes_left s few (ap has_driver at ∙ driver) e
                  ∙ run
                  ∙ ap (λ n. ok (n, s2)) (omega arith),
              round-IsAll job i off bytes_left n most,
              join i off done bytes ((i + job.chunk) * sector_size + 0) n s s2 at
                  (sect_pos-small i (omega (arith, within, w))) (omega (arith, o))
                  (λ some_left. omega (arith, bound, some_left)) moved,
            )
      ]
