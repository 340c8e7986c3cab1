-- ===== src/Fs/Filled.antt =====
-- The loop of `alloc_smap_bit` over the bytes of a sector of the map.

use minx.Prelude.{
  ℕ, zero, suc, ◌+◌, ◌-◌, ◌*◌, ◌^◌, ◌<◌, ◌≤◌, ◌≡◌, ◌≢◌, inl, inr, refl, ◌==◌, ltb, Bool-cases,
  update, Result, assertion, Yields, then-Yields, Yields-map, ltb→lt, arith,
}
use minx.Const.{sector_size}
use minx.Fs.State.{SuperBlock}
use minx.Fs.Alloc.{skip_bits, set_bits, smap_bytes, Progress, sector_of_bit}
use minx.Fs.Marks.{
  IsMarked, IsFilled, none-IsFilled, IsFilled-trans, byte-IsFilled, set_bits-IsMarked,
  skip_bits-Yields,
}

-- What the loop over the bytes leaves, begun with `f` for the first sector allocated: while that is 0,
-- nothing has changed.
pub record Filled (f : ℕ) (buf : ℕ → ℕ) (n : ℕ) (p : Progress) : Type 0 where
  pub filled : IsFilled buf n p.0 p.2
  pub begun : f ≢ 0 → p.1 ≢ 0
  pub same : f ≡ 0 → p.1 ≡ 0 → (j : ℕ) → p.0 j ≡ buf j
  pub left : f ≡ 0 → p.1 ≡ 0 → p.2 ≡ n

none-Filled : (f : ℕ) (buf : ℕ → ℕ) (n : ℕ) → ((j : ℕ) → buf j < 256) → Filled f buf n (buf, f, n)
none-Filled f buf n small = record {
  filled = none-IsFilled buf n small;
  begun = λ ne. ne;
  same = λ z e j. refl;
  left = λ z e. refl;
}

-- A byte is done, and the others follow; `g` is the first sector allocated from there on.
rest-Filled :
    (f g : ℕ) (buf : ℕ → ℕ) (n j : ℕ) (r : ℕ × ℕ) (m : Result Progress)
    → g ≢ 0
    → ((j : ℕ) → buf j < 256)
    → j < sector_size
    → IsMarked (buf j) n r
    → (((k : ℕ) → update buf j r.0 k < 256) → Yields assertion (Filled g (update buf j r.0) r.1) m)
    → Yields assertion (Filled f buf n) m
rest-Filled f g buf n j r m ne small l marked more =
    let first = byte-IsFilled buf n j r small l marked in
    Yields-map assertion (Filled g (update buf j r.0) r.1) (Filled f buf n) m
      (λ p h. record {
        filled = IsFilled-trans buf n (update buf j r.0) r.1 p.0 p.2 first h.filled;
        begun = λ nf. h.begun ne;
        same = λ z e. absurd (h.begun ne e);
        left = λ z e. absurd (h.begun ne e);
      })
      (more first.bytes)

-- A sector that a bit of the map stands for is not 0.
sector-nonzero :
    (sb : SuperBlock) (i j k : ℕ)
    → 2 ≤ sb.n_1st_sect
    → (i + 1) * 4096 + sb.n_1st_sect ≤ 2 ^ 32
    → j < sector_size
    → k < 8
    → sector_of_bit sb ((i * sector_size + j) * 8 + k) ≢ 0
sector-nonzero sb i j k a b l h = omega (arith, a, b, l, h)

pub smap_bytes-Filled :
    (left : ℕ) (sb : SuperBlock) (i j : ℕ) (buf : ℕ → ℕ) (f n : ℕ)
    → 2 ≤ sb.n_1st_sect
    → (i + 1) * 4096 + sb.n_1st_sect ≤ 2 ^ 32
    → ((j : ℕ) → buf j < 256)
    → j + left ≤ sector_size
    → Yields assertion (Filled f buf n) (smap_bytes left sb i j (buf, f, n))
unfolding smap_bytes
smap_bytes-Filled zero sb i j buf f n a b small l = none-Filled f buf n small
smap_bytes-Filled (suc left) sb i j buf f n a b small l = elim (Bool-cases (ltb 0 n)) [
  | inr e ↦ rw (e, smap_bytes) (none-Filled f buf n small)
  | inl e ↦
      let more : 0 < n = ltb→lt 0 n e in
      let at : j < sector_size = omega (arith, l) in
      elim (Bool-cases (f == 0)) [
        | inr g ↦
            let nf : f ≢ 0 = ground (arith, g) in
            rw (e, g, smap_bytes)
              (then-Yields assertion (IsMarked (buf j) n) (Filled f buf n) (set_bits 8 (buf j) 0 n)
                _ (set_bits-IsMarked 8 (buf j) 0 n (small j) (omega arith) more)
                λ r h. rest-Filled f f buf n j r _ nf small at h λ small'.
                  smap_bytes-Filled left sb i (j + 1) (update buf j r.0) f r.1 a b small'
                    (omega (arith, l)))
        | inl g ↦ elim (Bool-cases (buf j == 0xff)) [
          | inl full ↦
              rw (e, g, full, smap_bytes)
                (smap_bytes-Filled left sb i (j + 1) buf f n a b small (omega (arith, l)))
          | inr free ↦
              let below : buf j < 255 = let s = small j in ground (arith, free, s) in
              rw (e, g, free, smap_bytes)
                (then-Yields assertion (λ k. k < 8) (Filled f buf n) (skip_bits 8 (buf j) 0) _
                  (skip_bits-Yields (buf j) below)
                  λ k kl.
                    let first = sector_of_bit sb ((i * sector_size + j) * 8 + k) in
                    then-Yields assertion (IsMarked (buf j) n) (Filled f buf n)
                      (set_bits (8 - k) (buf j) k n) _
                      (set_bits-IsMarked (8 - k) (buf j) k n (small j) (omega (arith, kl)) more)
                      λ r h.
                        rest-Filled f first buf n j r _ (sector-nonzero sb i j k a b at kl) small at
                          h
                          λ small'.
                            smap_bytes-Filled left sb i (j + 1) (update buf j r.0) first r.1 a b
                              small' (omega (arith, l)))
        ]
      ]
]
