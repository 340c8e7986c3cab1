-- ===== src/Fs/Buffer.antt =====
-- Copies between a device and `fsbuf`, and words of 32 bits in a buffer.
use minx.Prelude.{
  ℕ, ◌*◌, ◌%◌, lt→ltb, ◌+◌, ◌-◌, ◌^◌, ◌≤◌, ◌<◌, ◌≡◌, ◌⊎◌, inl, inr, refl, sym, ap, ◌∙◌, true, false,
  leb, ltb, ◌&&◌, arith, Bool-cases,
}
use minx.Const.{sector_size}
use minx.Fs.State.{sect_pos, copy, read32, write32}

-- A position below 2 ^ 31 is that of the sector.
pub sect_pos-small : (nr : ℕ) → nr * sector_size < 2 ^ 31 → sect_pos nr ≡ nr * sector_size
sect_pos-small nr l =
    let same : nr * sector_size % 2 ^ 32 ≡ nr * sector_size = omega (arith, l) in
    let low : ltb (nr * sector_size) (2 ^ 31) ≡ true = lt→ltb _ _ l in rw (same, low) refl

pub copy_in :
    (dst : ℕ → ℕ) (to : ℕ) (src : ℕ → ℕ) (from bytes k : ℕ)
    → k < bytes
    → copy dst to src from bytes (to + k) ≡ src (from + k)
copy_in dst to src from bytes k l =
    let at : from + (to + k) - to ≡ from + k = omega arith in
    let inside : (leb to (to + k) && ltb (to + k) (to + bytes)) ≡ true = ground (arith, l) in
    rw (inside, at) refl

pub copy_out :
    (dst : ℕ → ℕ) (to : ℕ) (src : ℕ → ℕ) (from bytes i : ℕ)
    → (i < to) ⊎ (to + bytes ≤ i)
    → copy dst to src from bytes i ≡ dst i
copy_out dst to src from bytes i (inl l) = ground (arith, l)
copy_out dst to src from bytes i (inr l) = ground (arith, l)

-- To and from the start of the buffer.
pub copy_load : (buf d : ℕ → ℕ) (at bytes k : ℕ) → k < bytes → copy buf 0 d at bytes k ≡ d (at + k)
copy_load buf d at bytes k l =
    ap (copy buf 0 d at bytes) (omega arith) ∙ copy_in buf 0 d at bytes k l

pub copy_store :
    (d buf : ℕ → ℕ) (at bytes k : ℕ) → k < bytes → copy d at buf 0 bytes (at + k) ≡ buf k
copy_store d buf at bytes k l = copy_in d at buf 0 bytes k l ∙ ap buf (omega arith)

-- What is copied to the buffer and back unchanged is unchanged.
pub copy_back :
    (d buf new : ℕ → ℕ) (at bytes i : ℕ)
    → ((k : ℕ) → k < bytes → at + k ≡ i → new k ≡ copy buf 0 d at bytes k)
    → copy d at new 0 bytes i ≡ d i
copy_back d buf new at bytes i h = go (Bool-cases (leb at i && ltb i (at + bytes)))
  where
    go :
        ((leb at i && ltb i (at + bytes)) ≡ true) ⊎ ((leb at i && ltb i (at + bytes)) ≡ false)
        → copy d at new 0 bytes i ≡ d i
    go (inl inside) =
        let k = i - at in
        let here : at + k ≡ i = ground (arith, inside) in
        let small : k < bytes = ground (arith, inside) in
        ap (copy d at new 0 bytes) (sym here)
        ∙ copy_store d new at bytes k small
        ∙ h k small here
        ∙ copy_load buf d at bytes k small
        ∙ ap d here
    go (inr outside) = rw outside refl

-- A word that is read into the buffer is the one on the device.
pub read32-load :
    (buf d : ℕ → ℕ) (at bytes off : ℕ)
    → off + 4 ≤ bytes
    → read32 (copy buf 0 d at bytes) off ≡ read32 d (at + off)
read32-load buf d at bytes off l =
    let byte : (k : ℕ) → k < 4 → copy buf 0 d at bytes (off + k) ≡ d (at + off + k) =
      λ k lk. copy_load buf d at bytes (off + k) (omega (arith, l, lk)) ∙ ap d (omega arith) in
    let first : copy buf 0 d at bytes off ≡ d (at + off) =
      copy_load buf d at bytes off (omega (arith, l)) in
    rw (first, byte 1 (omega arith), byte 2 (omega arith), byte 3 (omega arith)) refl

-- A word of the buffer goes to the device.
pub read32-store :
    (d buf : ℕ → ℕ) (at bytes off : ℕ)
    → off + 4 ≤ bytes
    → read32 (copy d at buf 0 bytes) (at + off) ≡ read32 buf off
read32-store d buf at bytes off l =
    let byte : (k : ℕ) → k < 4 → copy d at buf 0 bytes (at + off + k) ≡ buf (off + k) = λ k lk.
      ap (copy d at buf 0 bytes) (omega arith)
      ∙ copy_store d buf at bytes (off + k) (omega (arith, l, lk)) in
    let first : copy d at buf 0 bytes (at + off) ≡ buf off =
      copy_store d buf at bytes off (omega (arith, l)) in
    rw (first, byte 1 (omega arith), byte 2 (omega arith), byte 3 (omega arith)) refl

pub read32-write32 : (buf : ℕ → ℕ) (off v : ℕ) → v < 2 ^ 32 → read32 (write32 buf off v) off ≡ v
read32-write32 buf off v l = ground (arith, l)

pub write32-out :
    (buf : ℕ → ℕ) (off v i : ℕ) → (i < off) ⊎ (off + 4 ≤ i) → write32 buf off v i ≡ buf i
write32-out buf off v i (inl l) = ground (arith, l)
write32-out buf off v i (inr l) = ground (arith, l)

-- A word apart from the one written is unchanged.
pub read32-write32-apart :
    (buf : ℕ → ℕ) (off v at : ℕ)
    → (at + 4 ≤ off) ⊎ (off + 4 ≤ at)
    → read32 (write32 buf off v) at ≡ read32 buf at
read32-write32-apart buf off v at (inl l) =
    let byte : (i : ℕ) → i < off → write32 buf off v i ≡ buf i =
      λ i h. write32-out buf off v i (inl h) in
    rw
      (
        byte at (omega (arith, l)),
        byte (at + 1) (omega (arith, l)),
        byte (at + 2) (omega (arith, l)),
        byte (at + 3) (omega (arith, l)),
      )
      refl
read32-write32-apart buf off v at (inr l) =
    let byte : (i : ℕ) → off + 4 ≤ i → write32 buf off v i ≡ buf i =
      λ i h. write32-out buf off v i (inr h) in
    rw
      (
        byte at (omega (arith, l)),
        byte (at + 1) (omega (arith, l)),
        byte (at + 2) (omega (arith, l)),
        byte (at + 3) (omega (arith, l)),
      )
      refl
