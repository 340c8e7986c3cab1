-- ===== src/Fs/Taken.antt =====
-- Bits of a device that are set, sector by sector.
use mathlib.Core.Path.{subst}
use minx.Prelude.{
  ℕ, zero, suc, ◌+◌, ◌-◌, ◌<◌, ◌≤◌, ◌≡◌, ◌≢◌, ◌⊎◌, inl, inr, refl, sym, ap, ◌∙◌, leb, ltb, ◌&&◌,
  Bool-cases, update, update_ne, update_self, ltb→lt, arith,
}
use minx.Const.{sector_size}
use minx.Fs.State.{Fs, copy}
use minx.Fs.Alloc.{bit}
use minx.Fs.Buffer.{copy_load, copy_store, copy_out}
use minx.Fs.Marks.{ones_in, IsFilled}

-- `s'` is `s` with more bits in the `len` bytes of the device from `at` on, and a count that is as much
-- smaller; nothing else of the devices has changed.
pub record IsTaken (dev at len : ℕ) (s : Fs) (n : ℕ) (s' : Fs) (n' : ℕ) : Type 0 where
  pub disk_small : (q : ℕ) → s'.disk dev q < 256
  pub buf_small : (j : ℕ) → s'.fsbuf j < 256
  pub count :
      ones_in len (λ j. s'.disk dev (at + j)) + n' ≡ ones_in len (λ j. s.disk dev (at + j)) + n
  pub kept : (q i : ℕ) → i < 8 → bit (s.disk dev q) i ≤ bit (s'.disk dev q) i
  pub outside : (q : ℕ) → (q < at) ⊎ (at + len ≤ q) → s'.disk dev q ≡ s.disk dev q
  pub devices : (d q : ℕ) → d ≢ dev → s'.disk d q ≡ s.disk d q

ones_in-ext : (m : ℕ) (f g : ℕ → ℕ) → ((j : ℕ) → j < m → f j ≡ g j) → ones_in m f ≡ ones_in m g
unfolding ones_in
ones_in-ext zero f g h = refl
ones_in-ext (suc m) f g h =
    rw (ones_in-ext m f g (λ j l. h j (omega (arith, l))), h m (omega arith)) refl

ones_in-append :
    (a b : ℕ) (f : ℕ → ℕ) → ones_in (a + b) f ≡ ones_in a f + ones_in b (λ j. f (a + j))
unfolding ones_in
ones_in-append a zero f = let e : a + 0 ≡ a = omega arith in rw (e, ones_in) (omega arith)
ones_in-append a (suc b) f =
    let e : a + suc b ≡ suc (a + b) = omega arith in
    let rest = ones_in-append a b f in rw (e, ones_in) (omega (arith, rest))

pub none-IsTaken :
    (dev at len : ℕ) (s : Fs) (n : ℕ) (buf : ℕ → ℕ)
    → ((q : ℕ) → s.disk dev q < 256)
    → ((j : ℕ) → buf j < 256)
    → IsTaken dev at len s n (record s { fsbuf = buf }) n
none-IsTaken dev at len s n buf ds bs = record {
  disk_small = ds;
  buf_small = bs;
  count = refl;
  kept = λ q i l. omega arith;
  outside = λ q o. refl;
  devices = λ d q ne. refl;
}

pub IsTaken-join :
    (dev at a b : ℕ) (s : Fs) (n : ℕ) (s1 : Fs) (n1 : ℕ) (s2 : Fs) (n2 : ℕ)
    → IsTaken dev at a s n s1 n1
    → IsTaken dev (at + a) b s1 n1 s2 n2
    → IsTaken dev at (a + b) s n s2 n2
IsTaken-join dev at a b s n s1 n1 s2 n2 h h' = record {
  disk_small = h'.disk_small;
  buf_small = h'.buf_small;
  count =
      let front : ones_in a (λ j. s2.disk dev (at + j)) ≡ ones_in a (λ j. s1.disk dev (at + j)) =
        ones_in-ext a _ _ (λ j l. h'.outside (at + j) (inl (omega (arith, l)))) in
      let back : ones_in b (λ j. s1.disk dev (at + a + j))
          ≡ ones_in b (λ j. s.disk dev (at + (a + j))) =
        ones_in-ext b _ _
          (λ j l. h.outside (at + a + j) (inr (omega arith)) ∙ ap (s.disk dev) (omega arith)) in
      let back' : ones_in b (λ j. s2.disk dev (at + (a + j)))
          ≡ ones_in b (λ j. s2.disk dev (at + a + j)) =
        ones_in-ext b _ _ (λ j l. ap (s2.disk dev) (omega arith)) in
      let c = h.count in
      let c' = h'.count in
      let all2 = ones_in-append a b (λ j. s2.disk dev (at + j)) in
      let all = ones_in-append a b (λ j. s.disk dev (at + j)) in
      omega (arith, front, back, back', c, c', all2, all);
  kept = λ q i l. let x = h.kept q i l in let y = h'.kept q i l in omega (arith, x, y);
  outside = λ q o. h'.outside q (later q o) ∙ h.outside q (earlier q o);
  devices = λ d q ne. h'.devices d q ne ∙ h.devices d q ne;
}
  where
    later : (q : ℕ) → (q < at) ⊎ (at + (a + b) ≤ q) → (q < at + a) ⊎ (at + a + b ≤ q)
    later q (inl l) = inl (omega (arith, l))
    later q (inr l) = inr (omega (arith, l))

    earlier : (q : ℕ) → (q < at) ⊎ (at + (a + b) ≤ q) → (q < at) ⊎ (at + a ≤ q)
    earlier q (inl l) = inl l
    earlier q (inr l) = inr (omega (arith, l))

-- A sector of the map is read, and written with more bits.
abbrev pub sect_read : ℕ → ℕ → Fs → ℕ → ℕ
sect_read dev pos s = copy s.fsbuf 0 (s.disk dev) pos sector_size

abbrev pub sect_written : ℕ → ℕ → Fs → (ℕ → ℕ) → Fs
sect_written dev pos s buf = record s {
  fsbuf = buf;
  disk = update s.disk dev (copy (s.disk dev) pos buf 0 sector_size);
}

pub read-small :
    (dev pos : ℕ) (s : Fs)
    → ((q : ℕ) → s.disk dev q < 256)
    → ((j : ℕ) → s.fsbuf j < 256)
    → (j : ℕ) → sect_read dev pos s j < 256
read-small dev pos s ds bs j = elim (Bool-cases (leb 0 j && ltb j (0 + sector_size))) [
  | inl e ↦ rw e (ds (pos + j - 0))
  | inr e ↦ rw e (bs j)
]

written-in :
    (dev pos : ℕ) (s : Fs) (buf : ℕ → ℕ) (j : ℕ)
    → j < sector_size
    → (sect_written dev pos s buf).disk dev (pos + j) ≡ buf j
written-in dev pos s buf j l =
    ap (λ t. t (pos + j)) (update_self s.disk dev _)
    ∙ copy_store (s.disk dev) buf pos sector_size j l

written-out :
    (dev pos : ℕ) (s : Fs) (buf : ℕ → ℕ) (q : ℕ)
    → (q < pos) ⊎ (pos + sector_size ≤ q)
    → (sect_written dev pos s buf).disk dev q ≡ s.disk dev q
written-out dev pos s buf q o =
    ap (λ t. t q) (update_self s.disk dev _) ∙ copy_out (s.disk dev) pos buf 0 sector_size q o

-- A position is in the sector or not.
place_in :
    (pos q : ℕ)
    → ((j : ℕ) × (j < sector_size) × (q ≡ pos + j)) ⊎ ((q < pos) ⊎ (pos + sector_size ≤ q))
place_in pos q = elim (Bool-cases (ltb q pos)) [
  | inl e ↦ inr (inl (ltb→lt q pos e))
  | inr e ↦ elim (Bool-cases (ltb q (pos + sector_size))) [
    | inl g ↦ inl (q - pos, ground (arith, e, g), ground (arith, e))
    | inr g ↦ inr (inr (ground (arith, g)))
  ]
]

pub written-IsTaken :
    (dev pos : ℕ) (s : Fs) (n : ℕ) (buf : ℕ → ℕ) (n' : ℕ)
    → ((q : ℕ) → s.disk dev q < 256)
    → IsFilled (sect_read dev pos s) n buf n'
    → IsTaken dev pos sector_size s n (sect_written dev pos s buf) n'
written-IsTaken dev pos s n buf n' ds h =
    let s' = sect_written dev pos s buf in
    record {
      disk_small = λ q. elim (place_in pos q) [
        | inl (j, l, e) ↦
            subst (λ k. k < 256) (sym (ap (s'.disk dev) e ∙ written-in dev pos s buf j l))
              (h.bytes j)
        | inr o ↦ subst (λ k. k < 256) (sym (written-out dev pos s buf q o)) (ds q)
      ];
      buf_small = h.bytes;
      count =
          let new =
            ones_in-ext sector_size (λ j. s'.disk dev (pos + j)) buf
              (λ j l. written-in dev pos s buf j l) in
          let old =
            ones_in-ext sector_size (sect_read dev pos s) (λ j. s.disk dev (pos + j))
              (λ j l. copy_load s.fsbuf (s.disk dev) pos sector_size j l) in
          let c = h.count in omega (arith, new, old, c);
      kept = λ q i l. elim (place_in pos q) [
        | inl (j, lj, e) ↦
            let old =
              ap (λ b. bit b i)
                (ap (s.disk dev) e ∙ sym (copy_load s.fsbuf (s.disk dev) pos sector_size j lj)) in
            let new = ap (λ b. bit b i) (ap (s'.disk dev) e ∙ written-in dev pos s buf j lj) in
            subst (λ k. k ≤ bit (s'.disk dev q) i) (sym old)
              (subst (λ k. bit (sect_read dev pos s j) i ≤ k) (sym new) (h.kept j i l))
        | inr o ↦
            subst (λ k. bit (s.disk dev q) i ≤ k)
              (sym (ap (λ b. bit b i) (written-out dev pos s buf q o))) (omega arith)
      ];
      outside = λ q o. written-out dev pos s buf q o;
      devices = λ d q ne. ap (λ t. t q) (update_ne s.disk dev d _ (λ e. ne (sym e)));
    }
