-- ===== src/Hd/Sectors.antt =====
-- The loop of `hd_rdwt` of kernel/hd.c on a READ.
use minx.Prelude.{
  ℕ, zero, suc, ◌+◌, ◌-◌, ◌*◌, ◌/◌, ◌%◌, ◌≤◌, ◌<◌, ◌≡◌, ◌⊎◌, inl, inr, lt→ltb, Bool-cases, ◌^◌,
  ◌==◌, refl, ap, ◌∙◌, min, true, false, ltb, List, ok, arith, eq→==,
}
use minx.Kernel.{Message}
use minx.Const.{sector_size, msg_dev_read}
use minx.Fs.State.{copy}
use minx.Fs.Buffer.{copy_in, copy_out, copy_load}
use minx.Hd.{
  Hd, HdCmd, port_read, hd_cmd_out, has_partition, sectors_of, rdwt_cmd, rdwt_sector, rdwt_sectors,
  hd_rdwt,
}

module _ (answer : List HdCmd → ℕ → ℕ → ℕ) where
  -- The caller's memory has, from `la` on, the `n` sectors that the drive answers from turn `turn`
  -- on; nothing else of the memory changes.
  pub record IsDelivered (turn la n : ℕ) (hd hd' : Hd) : Type 0 where
    pub sectors :
        (r k : ℕ)
        → r < n
        → k < sector_size
        → hd'.memory (la + sector_size * r + k) ≡ answer hd.commands (turn + r) k
    pub others : (a : ℕ) → (a < la) ⊎ (la + sector_size * n ≤ a) → hd'.memory a ≡ hd.memory a

  loop-round :
      (fuel sectors turn la more : ℕ) (hd : Hd)
      → ltb turn sectors ≡ true
      → ltb (suc more) sector_size ≡ false
      → rdwt_sectors answer (suc fuel) true sectors turn la (suc more) hd
        ≡ rdwt_sectors answer fuel true sectors
            (turn + 1)
            (la + sector_size)
            (suc more - sector_size)
            (rdwt_sector answer true turn la sector_size hd)
  unfolding rdwt_sectors
  loop-round fuel sectors turn la more hd t e =
      let whole : min sector_size (suc more) ≡ sector_size = ground (arith, e) in
      rw (t, e, rdwt_sectors, whole) refl

  -- A round brings one sector.
  round-memory :
      (turn la k : ℕ) (hd : Hd)
      → k < sector_size
      → (rdwt_sector answer true turn la sector_size hd).memory (la + k) ≡ answer hd.commands turn k
  round-memory turn la k hd l =
      let buf = copy hd.hdbuf 0 (answer hd.commands turn) 0 sector_size in
      let same : 0 + k ≡ k = omega arith in
      copy_in hd.memory la buf 0 sector_size k l
      ∙ ap buf same
      ∙ copy_load hd.hdbuf (answer hd.commands turn) 0 sector_size k l
      ∙ ap (answer hd.commands turn) same

  step :
      (turn la n : ℕ) (hd hd' : Hd)
      → IsDelivered
          (turn + 1)
          (la + sector_size)
          n
          (rdwt_sector answer true turn la sector_size hd)
          hd'
      → IsDelivered turn la (suc n) hd hd'
  step turn la n hd hd' t = record {
    sectors = λ r k lr lk. sector r k lr lk;
    others = λ a apart.
        t.others a (grind (arith, apart))
        ∙ copy_out hd.memory la (port_read answer turn hd).hdbuf 0 sector_size a
            (grind (arith, apart));
  }
    where
      sector :
          (r k : ℕ)
          → r < suc n
          → k < sector_size
          → hd'.memory (la + sector_size * r + k) ≡ answer hd.commands (turn + r) k
      sector zero k lr lk =
          t.others (la + sector_size * 0 + k) (inl (omega (arith, lk)))
          ∙ ap (rdwt_sector answer true turn la sector_size hd).memory (omega arith)
          ∙ round-memory turn la k hd lk
          ∙ ap (λ x. answer hd.commands x k) (omega arith)
      sector (suc r) k lr lk =
          ap hd'.memory (omega arith)
          ∙ t.sectors r k (omega (arith, lr)) lk
          ∙ ap (λ x. answer hd.commands x k) (omega arith)

  rdwt_sectors-IsDelivered :
      (fuel sectors turn la n bytes_left : ℕ) (hd : Hd)
      → turn + n ≤ sectors
      → bytes_left ≡ sector_size * n
      → n < fuel
      → (hd' : Hd) × (rdwt_sectors answer fuel true sectors turn la bytes_left hd ≡ ok hd')
        × IsDelivered turn la n hd hd'
  unfolding rdwt_sectors
  rdwt_sectors-IsDelivered zero sectors turn la n bytes_left hd m e l = absurd (omega (arith, l))
  rdwt_sectors-IsDelivered (suc fuel) sectors turn la zero zero hd m e l = (
    hd,
    refl,
    record { sectors = λ r k lr lk. absurd (omega (arith, lr)); others = λ a apart. refl },
  )
  rdwt_sectors-IsDelivered (suc fuel) sectors turn la zero (suc more) hd m e l =
      absurd (omega (arith, e))
  rdwt_sectors-IsDelivered (suc fuel) sectors turn la (suc n) zero hd m e l =
      absurd (omega (arith, e))
  rdwt_sectors-IsDelivered (suc fuel) sectors turn la (suc n) (suc more) hd m e l =
      let next = rdwt_sector answer true turn la sector_size hd in
      let full : ltb (suc more) sector_size ≡ false = ground (arith, e) in
      let (hd', run, t) =
        rdwt_sectors-IsDelivered fuel sectors (turn + 1) (la + sector_size) n
          (suc more - sector_size) next (omega (arith, m)) (omega (arith, e)) (omega (arith, l)) in
      (
        hd',
        loop-round fuel sectors turn la more hd (lt→ltb _ _ (omega (arith, m))) full ∙ run,
        step turn la n hd hd' t,
      )

  -- A command for up to 256 sectors moves them all.
  few_sectors :
      (p : Message) (hd : Hd) (n : ℕ)
      → p.m3i2 ≡ sector_size * n
      → n ≤ 256
      → 0 + n ≤ sectors_of (rdwt_cmd p hd)
  unfolding rdwt_cmd
  few_sectors p hd n count few =
      let c : (p.m3i2 + sector_size - 1) / sector_size ≡ n = omega (arith, count) in
      rw c (elim (Bool-cases (n % 2 ^ 8 == 0)) [
        | inl e ↦ rw e (omega (arith, few))
        | inr e ↦ rw e (ground (arith, e, few))
      ])

  -- For a READ of a whole number of sectors, at most 256, from a position at a sector of a device
  -- that has a partition, `hd_rdwt` returns, and the caller's buffer has, in order, the sectors that
  -- the drive answers to the command for the position; nothing else of the memory changes.
  pub hd_rdwt-IsDelivered :
      (p : Message) (hd : Hd) (n : ℕ)
      → p.type ≡ msg_dev_read
      → has_partition p.m3i4 ≡ true
      → p.m3l1 % sector_size ≡ 0
      → p.m3i2 ≡ sector_size * n
      → n ≤ 256
      → (hd' : Hd) × (hd_rdwt answer p hd ≡ ok hd')
        × IsDelivered 0 p.m3p2 n (hd_cmd_out (rdwt_cmd p hd) hd) hd'
  unfolding hd_rdwt
  hd_rdwt-IsDelivered p hd n kind has at_sector count few =
      let cmd = rdwt_cmd p hd in
      let (hd', run, t) =
        rdwt_sectors-IsDelivered (p.m3i2 / sector_size + 1) (sectors_of cmd) 0 p.m3p2 n p.m3i2
          (hd_cmd_out cmd hd) (few_sectors p hd n count few) count (omega (arith, count)) in
      (
        hd',
        rw (eq→== (p.m3l1 % sector_size) 0 at_sector, has, eq→== p.type msg_dev_read kind) run,
        t,
      )
