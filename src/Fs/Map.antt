-- ===== src/Fs/Map.antt =====
-- The bits of the map of i-nodes.
use minx.Prelude.{
  all_below, all_below-at, ℕ, suc, ◌+◌, ◌*◌, ◌^◌, ◌<◌, ◌≡◌, ◌≢◌, refl, ap, sym, ◌∙◌, Bool, true,
  false, ◌&&◌, Option, none, some, arith, ◌==◌, ltb, if◌then◌else◌, update, update_self, bit_or,
  not, Result, ok, stop, update_ne,
}
use minx.Const.{sector_size}
use minx.Fs.State.{Fs, copy, get_super_block, read_sector, write_sector, has_driver}
use minx.Fs.Alloc.{bit, skip_bits, skip_bytes, set_clear_bit, alloc_in_sect, alloc_imap_bit}
use minx.Fs.Buffer.{copy_load, copy_store, copy_back}
use minx.Fs.Scan.{Found, absent, first_at, first_from-Found}

-- Setting a bit of a byte sets that one and no other.
set_bit-ok : ℕ → ℕ → ℕ → Bool
set_bit-ok b k i = bit (bit_or b (2 ^ k)) i == (if i == k then 1 else bit b i)

sets : all_below 256 (λ b. all_below 8 (λ k. all_below 8 (λ i. set_bit-ok b k i))) ≡ true
unfolding set_bit-ok
sets = refl

bit-set :
    (b k i : ℕ)
    → b < 256
    → k < 8
    → i < 8
    → bit (bit_or b (2 ^ k)) i ≡ (if i == k then 1 else bit b i)
unfolding set_bit-ok
bit-set b k i lb lk li =
    let row =
      all_below-at 256 (λ b. all_below 8 (λ k. all_below 8 (λ i. set_bit-ok b k i))) b lb sets in
    let cell = all_below-at 8 (λ k. all_below 8 (λ i. set_bit-ok b k i)) k lk row in
    let it = all_below-at 8 (λ i. set_bit-ok b k i) i li cell in eq_of_test _ _ it
  where
    eq_of_test : (x y : ℕ) → (x == y) ≡ true → x ≡ y
    eq_of_test x y h = ground (arith, h)

-- `k` is the first clear bit of the byte.
pub record IsFirst (byte k : ℕ) : Type 0 where
  pub below : k < 8
  pub clear : bit byte k ≡ 0
  pub before : (i : ℕ) → i < k → bit byte i ≡ 1

abbrev first_of : ℕ → Result ℕ → Bool
first_of b (stop e) = false
first_of b (ok k) = ltb k 8 && (bit b k == 0 && all_below k (λ i. bit b i == 1))

all_first : all_below 255 (λ b. first_of b (skip_bits 8 b 0)) ≡ true
unfolding skip_bits
all_first = refl

skip_bits-IsFirst : (b : ℕ) → b < 256 → b ≢ 255 → (k : ℕ) × (skip_bits 8 b 0 ≡ ok k) × IsFirst b k
skip_bits-IsFirst b l ne =
    go (skip_bits 8 b 0) refl
      (all_below-at 255 (λ b. first_of b (skip_bits 8 b 0)) b (omega arith) all_first)
  where
    go :
        (r : Result ℕ)
        → skip_bits 8 b 0 ≡ r
        → first_of b r ≡ true
        → (k : ℕ) × (skip_bits 8 b 0 ≡ ok k) × IsFirst b k
    go (stop e) run h = cc
    go (ok k) run h = (
      k,
      run,
      record {
        below = ground (arith, h);
        clear = ground (arith, h);
        before = λ i l.
            let each : (bit b i == 1) ≡ true =
              all_below-at k (λ i. bit b i == 1) i l (ground (arith, h)) in
            ground (arith, each);
      },
    )

-- `s'` is `s` with bit `k` of byte `j` of the first sector of the map set, as 32 bits address it.
pub record IsAllocated (dev : ℕ) (s s' : Fs) (j k : ℕ) : Type 0 where
  pub byte : j < sector_size
  pub first_byte : (i : ℕ) → i < j → s.disk dev (1024 + i) ≡ 255
  pub first_bit : IsFirst (s.disk dev (1024 + j)) k
  pub set :
      (i : ℕ)
      → i < 8
      → bit (s'.disk dev (1024 + j)) i ≡ (if i == k then 1 else bit (s.disk dev (1024 + j)) i)
  pub others : (p : ℕ) → p ≢ 1024 + j → s'.disk dev p ≡ s.disk dev p
  pub devices : (d p : ℕ) → d ≢ dev → s'.disk d p ≡ s.disk d p
  pub inodes : s'.inode_table ≡ s.inode_table

-- The buffer after the first sector of the map is read.
abbrev map_read : ℕ → Fs → ℕ → ℕ
map_read dev s = copy s.fsbuf 0 (s.disk dev) 1024 sector_size

-- The state with bit `k` of byte `j` of the map set.
abbrev marked : ℕ → Fs → ℕ → ℕ → Fs
marked dev s j k =
    let read = map_read dev s in
    let buf = update read j (bit_or (read j) (2 ^ k)) in
    record s { fsbuf = buf; disk = update s.disk dev (copy (s.disk dev) 1024 buf 0 sector_size) }

read-disk : (dev : ℕ) (s : Fs) (j : ℕ) → j < sector_size → map_read dev s j ≡ s.disk dev (1024 + j)
read-disk dev s j l = copy_load s.fsbuf (s.disk dev) 1024 sector_size j l

-- The byte of the map changes, and nothing else of the device.
marked-byte :
    (dev : ℕ) (s : Fs) (j k : ℕ)
    → j < sector_size
    → (marked dev s j k).disk dev (1024 + j) ≡ bit_or (s.disk dev (1024 + j)) (2 ^ k)
marked-byte dev s j k l =
    let read = map_read dev s in
    let v = bit_or (read j) (2 ^ k) in
    ap (λ t. t (1024 + j)) (update_self s.disk dev _)
    ∙ copy_store (s.disk dev) (update read j v) 1024 sector_size j l
    ∙ update_self read j v
    ∙ ap (λ b. bit_or b (2 ^ k)) (read-disk dev s j l)

marked-others :
    (dev : ℕ) (s : Fs) (j k p : ℕ) → p ≢ 1024 + j → (marked dev s j k).disk dev p ≡ s.disk dev p
marked-others dev s j k p ne =
    let read = map_read dev s in
    let v = bit_or (read j) (2 ^ k) in
    ap (λ t. t p) (update_self s.disk dev _)
    ∙ copy_back (s.disk dev) s.fsbuf (update read j v) 1024 sector_size p
        (λ i l e. update_ne read j i v (λ same. ne (sym (ap (λ x. 1024 + x) same ∙ e))))

marked-IsAllocated :
    (dev : ℕ) (s : Fs) (j k : ℕ)
    → s.disk dev (1024 + j) < 256
    → j < sector_size
    → ((i : ℕ) → i < j → s.disk dev (1024 + i) ≡ 255)
    → IsFirst (s.disk dev (1024 + j)) k
    → IsAllocated dev s (marked dev s j k) j k
marked-IsAllocated dev s j k small l h f = record {
  byte = l;
  first_byte = h;
  first_bit = f;
  set = λ i li.
      ap (λ b. bit b i) (marked-byte dev s j k l)
      ∙ bit-set (s.disk dev (1024 + j)) k i small f.below li;
  others = λ p ne. marked-others dev s j k p ne;
  devices = λ d p ne. ap (λ t. t p) (update_ne s.disk dev d _ (λ e. ne (sym e)));
  inodes = refl;
}

-- What `alloc_in_sect` does in the first sector of the map.
pub data Allocated (dev : ℕ) (s : Fs) : Result (ℕ × Fs) → Type 0 where
  taken :
      {s' : Fs} {n : ℕ} (j k : ℕ)
      → n ≡ j * 8 + k
      → IsAllocated dev s s' j k
      → Allocated dev s (ok (n, s'))
  full :
      {s' : Fs}
      → ((i : ℕ) → i < sector_size → s.disk dev (1024 + i) ≡ 255)
      → s'.disk ≡ s.disk
      → Allocated dev s (ok (0, s'))

alloc_imap_bit_run :
    (dev b more : ℕ) (s : Fs)
    → has_driver dev ≡ true
    → get_super_block dev s ≡ ok b
    → (s.super_block b).nr_imap_sects ≡ suc more
    → alloc_imap_bit dev s
      ≡ set_clear_bit dev 0 (record s { fsbuf = map_read dev s }) (skip_bytes (map_read dev s))
unfolding alloc_imap_bit alloc_in_sect read_sector
alloc_imap_bit_run dev b more s driver found sects = rw (found, sects, driver) refl

-- On a device with a driver, whose super block is loaded and counts at least one sector of map, and
-- whose bytes are below 256, `alloc_imap_bit` returns the number of the first clear bit of the first
-- sector of the map, sets that bit and changes no other byte of any device and no slot of the table
-- of i-nodes; if that sector is full it returns 0 and writes nothing, whatever the other sectors hold.
pub alloc_imap_bit_lem :
    (dev b more : ℕ) (s : Fs)
    → has_driver dev ≡ true
    → get_super_block dev s ≡ ok b
    → (s.super_block b).nr_imap_sects ≡ suc more
    → ((i : ℕ) → s.disk dev i < 256)
    → Allocated dev s (alloc_imap_bit dev s)
unfolding set_clear_bit write_sector
alloc_imap_bit_lem dev b more s driver found sects byte =
    next (skip_bytes (map_read dev s)) refl (first_from-Found sector_size _ 0 sector_size refl)
  where
    is_full :
        (i : ℕ)
        → i < sector_size
        → not (map_read dev s i == 0xff) ≡ false
        → s.disk dev (1024 + i) ≡ 255
    is_full i l h =
        let eq : map_read dev s i ≡ 255 = ground (arith, h) in sym (read-disk dev s i l) ∙ eq

    next :
        (r : Option ℕ)
        → skip_bytes (map_read dev s) ≡ r
        → Found (λ j. not (map_read dev s j == 0xff)) 0 sector_size r
        → Allocated dev s (alloc_imap_bit dev s)
    next none e (absent h) =
        rw (alloc_imap_bit_run dev b more s driver found sects, e)
          (full (λ i l. is_full i l (h i (omega arith) l)) refl)
    next (some j) e (first_at a l t h) =
        let here = read-disk dev s j l in
        let ne : map_read dev s j ≢ 255 = λ same. ground (arith, t, same) in
        let (k, run, f) =
          skip_bits-IsFirst (s.disk dev (1024 + j)) (byte (1024 + j)) (λ same. ne (here ∙ same)) in
        rw
          (
            alloc_imap_bit_run dev b more s driver found sects,
            e,
            ap (λ v. skip_bits 8 v 0) here ∙ run,
            driver,
          )
          (taken j k (omega arith) (
            marked-IsAllocated dev s j k (byte (1024 + j)) l
              (λ i li. is_full i (omega (arith, l, li)) (h i (omega arith) li)) f))
