-- ===== src/Fs/Smap.antt =====
-- `alloc_smap_bit` over the sectors of the map.
use minx.Prelude.{ℕ, ◌+◌, true, false, ◌==◌, if◌then◌else◌, Result, ok}
use minx.Const.{sector_size}
use minx.Fs.State.{SuperBlock, Fs, write_sector}
use minx.Fs.Alloc.{smap_sects, Progress}
use minx.Fs.Filled.{Filled}

-- The rest of a round behind the loop over the bytes: the sector is written if a bit has been set.
abbrev store : ℕ → ℕ → Fs → Progress → Result Fs
store dev pos s p =
    if p.1 == 0
    then ok (record s { fsbuf = p.0 })
    else write_sector dev pos sector_size (record s { fsbuf = p.0 })

abbrev go_on : ℕ → ℕ → SuperBlock → ℕ → Progress → Fs → Result (ℕ × ℕ × Fs)
go_on left dev sb i p s = elim (p.2 == 0) [
  | true ↦ ok (p.1, p.2, s)
  | false ↦ smap_sects left dev sb (i + 1) p.1 p.2 s
]
