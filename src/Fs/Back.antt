-- ===== src/Fs/Back.antt =====
-- What was written is read back: two loops of `do_rdwt` of fs/read_write.c.
use minx.Prelude.{ℕ, ◌+◌, ◌*◌, ◌^◌, ◌≤◌, ◌<◌, ◌≡◌, sym, ap, ◌∙◌, true, false, Result, ok, arith}
use minx.Const.{sector_size}
use minx.Fs.State.{Fs, has_driver}
use minx.Fs.Rdwt.{Job, rdwt_loop}
use minx.Fs.Transfer.{IsAll, rdwt_loop-ends}
use minx.Fs.Fetch.{rdwt_loop-IsRead}
use minx.Fs.Store.{rdwt_loop-IsStoredAt}

-- The loop of `job` is given enough rounds, from `off` in sector `i` on, on sectors whose positions
-- are below 2 ^ 31, with at most 256 sectors in a command.
pub record IsEnough (fuel : ℕ) (job : Job) (i off : ℕ) : Type 0 where
  pub chunk : 0 < job.chunk
  pub few : job.chunk ≤ 256
  pub within : off ≤ job.chunk * sector_size
  pub some_fuel : 0 < fuel
  pub rounds : job.rw_sect_max + 1 < fuel + i
  pub small : (job.rw_sect_max + 1) * sector_size ≤ 2 ^ 31

same_end : {n m : ℕ} {s t : Fs} {r : Result (ℕ × Fs)} → r ≡ ok (n, s) → r ≡ ok (m, t) → s ≡ t
same_end h g = cc

-- On a device with a driver, given enough rounds, with chunks of 1 to 256 sectors and sectors whose
-- positions are below 2 ^ 31, the loop of a WRITE and then that of a READ of the same i-node from the
-- same place return; each moves all the bytes asked for, or those up to
-- the end of its last sector at least, and each byte that both moved is in the reader's buffer what
-- it was in the writer's.
pub rdwt_loop-back :
    (fuel more : ℕ) (writer reader : Job) (i off len room : ℕ) (s : Fs)
    → writer.reads ≡ false
    → reader.reads ≡ true
    → writer.pin ≡ reader.pin
    → has_driver (s.inode_table writer.pin).i_dev ≡ true
    → IsEnough fuel writer i off
    → IsEnough more reader i off
    → (n m : ℕ) × (s1 s2 : Fs) × (rdwt_loop fuel writer i off 0 len s ≡ ok (n, s1))
      × (rdwt_loop more reader i off 0 room s1 ≡ ok (m, s2))
      × IsAll writer i off len n
      × IsAll reader i off room m
      × ((k : ℕ) → k < n → k < m → s2.memory (reader.buf + k) ≡ s.memory (writer.buf + k))
rdwt_loop-back fuel more writer reader i off len room s writes reads pin driver w r =
    let (n, s1, run, most, put) =
      rdwt_loop-IsStoredAt fuel writer i off 0 len s writes w.few driver w.chunk w.within
        w.some_fuel w.rounds w.small in
    let (n', s1', run', most', adv) =
      rdwt_loop-ends fuel writer i off 0 len s w.few driver w.chunk w.some_fuel w.rounds in
    let table : s1.inode_table ≡ s.inode_table =
      ap (λ (t : Fs). t.inode_table) (same_end run run') ∙ adv.inode_table in
    let dev : (s1.inode_table reader.pin).i_dev ≡ (s.inode_table writer.pin).i_dev =
      ap (λ t. (t reader.pin).i_dev) table ∙ ap (λ p. (s.inode_table p).i_dev) (sym pin) in
    let (m, s2, run2, most2, got) =
      rdwt_loop-IsRead more reader i off 0 room s1 reads r.few (ap has_driver dev ∙ driver) r.chunk
        r.within r.some_fuel r.rounds r.small in
    (
      n,
      m,
      s1,
      s2,
      run ∙ ap (λ n. ok (n, s1)) (omega arith),
      run2 ∙ ap (λ m. ok (m, s2)) (omega arith),
      most,
      most2,
      λ k kn km.
          ap s2.memory (omega arith)
          ∙ got.bytes k km
          ∙ ap (λ d. s1.disk d (i * sector_size + off + k)) dev
          ∙ put.bytes k kn
          ∙ ap s.memory (omega arith),
    )
