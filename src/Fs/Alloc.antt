-- ===== src/Fs/Alloc.antt =====
-- The maps of i-nodes and sectors: `alloc_imap_bit` and `alloc_smap_bit` of fs/open.c.
use minx.Prelude.{
  ℕ, zero, suc, ◌+◌, ◌*◌, ◌/◌, ◌%◌, ◌-◌, ◌^◌, true, false, not, ◌==◌, ltb, if◌then◌else◌, update,
  bit_or, Option, none, some, Result, ok, stop, panic, hang, check, ◌>>=◌, ◌>>◌,
}
use minx.Const.{sector_size}
use minx.Fs.State.{Fs, SuperBlock, first_from, get_super_block, rd_sect, wr_sect}

-- `(byte >> k) & 1`
abbrev pub bit : ℕ → ℕ → ℕ
bit byte k = byte / 2 ^ k % 2

-- The `for` over `k` up to the first bit that is clear.
unfoldable pub skip_bits : ℕ → ℕ → ℕ → Result ℕ
skip_bits zero byte k = stop hang
skip_bits (suc fuel) byte k =
    let rest = skip_bits fuel byte (k + 1) in if bit byte k == 0 then ok k else rest

-- The `for` over `j` up to the first byte that is not full.
abbrev pub skip_bytes : (ℕ → ℕ) → Option ℕ
skip_bytes buf = first_from sector_size (λ j. not (buf j == 0xff)) 0

-- What follows the `for` over `j`, in sector `i` of the map: a byte that is not full has a clear bit
-- among its 8.
unfoldable pub set_clear_bit : ℕ → ℕ → Fs → Option ℕ → Result (ℕ × Fs)
set_clear_bit dev i s none = ok (0, s)
set_clear_bit dev i s (some j) = do
  k ← skip_bits 8 (s.fsbuf j) 0
  s1 ← wr_sect dev (1 + 1 + i) (record s { fsbuf = update s.fsbuf j (bit_or (s.fsbuf j) (2 ^ k)) })
  ok ((i * sector_size + j) * 8 + k, s1)

-- The body of the `for` over `i`, which returns in its first round.
unfoldable pub alloc_in_sect : ℕ → ℕ → Fs → Result (ℕ × Fs)
alloc_in_sect dev i s = do
  s1 ← rd_sect dev (1 + 1 + i) s
  set_clear_bit dev i s1 (skip_bytes s1.fsbuf)

unfoldable pub alloc_imap_bit : ℕ → Fs → Result (ℕ × Fs)
alloc_imap_bit dev s = do
  sb ← get_super_block dev s
  elim ((s.super_block sb).nr_imap_sects) [ zero ↦ stop panic | suc more ↦ alloc_in_sect dev 0 s ]

-- The second `for` over `k`, which sets bits until `n` are set or the byte ends.
unfoldable pub set_bits : ℕ → ℕ → ℕ → ℕ → Result (ℕ × ℕ)
set_bits zero byte k n = ok (byte, n)
set_bits (suc left) byte k n = do
  check (bit byte k == 0)
  let byte' = bit_or byte (2 ^ k)
  elim (n - 1 == 0) [ true ↦ ok (byte', 0) | false ↦ set_bits left byte' (k + 1) (n - 1) ]

-- What the loops of `alloc_smap_bit` change: `fsbuf`, `free_sect_nr` and `nr_sects_to_alloc`.
abbrev pub Progress : Type 0
Progress = (ℕ → ℕ) × ℕ × ℕ

-- The sector of bit `bit_nr` of the map, on 32 bits.
abbrev pub sector_of_bit : SuperBlock → ℕ → ℕ
sector_of_bit sb bit_nr = (bit_nr + sb.n_1st_sect + (2 ^ 32 - 1)) % 2 ^ 32

-- The `for` over `j`, in sector `i` of the map.
unfoldable pub smap_bytes : ℕ → SuperBlock → ℕ → ℕ → Progress → Result Progress
smap_bytes zero sb i j p = ok p
smap_bytes (suc left) sb i j (buf, free_sect_nr, n) = elim (ltb 0 n) [
  | false ↦ ok (buf, free_sect_nr, n)
  | true ↦ elim (free_sect_nr == 0) [
    | false ↦ do
      (byte, n') ← set_bits 8 (buf j) 0 n
      smap_bytes left sb i (j + 1) (update buf j byte, free_sect_nr, n')
    | true ↦ elim (buf j == 0xff) [
      | true ↦ smap_bytes left sb i (j + 1) (buf, free_sect_nr, n)
      | false ↦ do
        k ← skip_bits 8 (buf j) 0
        (byte, n') ← set_bits (8 - k) (buf j) k n
        let first = sector_of_bit sb ((i * sector_size + j) * 8 + k)
        smap_bytes left sb i (j + 1) (update buf j byte, first, n')
    ]
  ]
]

-- The `for` over `i`.
unfoldable pub smap_sects : ℕ → ℕ → SuperBlock → ℕ → ℕ → ℕ → Fs → Result (ℕ × ℕ × Fs)
smap_sects zero dev sb i free_sect_nr n s = ok (free_sect_nr, n, s)
smap_sects (suc left) dev sb i free_sect_nr n s = do
  let nr = 1 + 1 + sb.nr_imap_sects + i
  s1 ← rd_sect dev nr s
  (buf, first, n') ← smap_bytes sector_size sb i 0 (s1.fsbuf, free_sect_nr, n)
  let s2 = record s1 { fsbuf = buf }
  s3 ← if first == 0 then ok s2 else wr_sect dev nr s2
  elim (n' == 0) [ true ↦ ok (first, n', s3) | false ↦ smap_sects left dev sb (i + 1) first n' s3 ]

unfoldable pub alloc_smap_bit : ℕ → ℕ → Fs → Result (ℕ × Fs)
alloc_smap_bit dev nr_sects_to_alloc s = do
  b ← get_super_block dev s
  let sb = s.super_block b
  (free_sect_nr, n, s1) ← smap_sects sb.nr_smap_sects dev sb 0 0 nr_sects_to_alloc s
  check (n == 0)
  ok (free_sect_nr, s1)
