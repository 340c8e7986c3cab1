-- ===== src/Fs/Logged.antt =====
-- What the loop of `disklog` writes.
use mathlib.Core.Path.{subst}
use minx.Prelude.{
  ℕ, zero, suc, ◌+◌, ◌-◌, ◌*◌, ◌%◌, ◌^◌, ◌≤◌, ◌<◌, ◌≡◌, ◌≢◌, ◌⊎◌, inl, inr, refl, sym, ap, ◌∙◌,
  true, ◌&&◌, Bool-cases, ◌==◌, ==→eq, ==-refl, ne→==, ltb, leb, update, min, ok, arith,
}
use minx.Const.{sector_size}
use minx.Fs.State.{copy, has_driver, sect_pos, read_sector, write_sector}
use minx.Fs.Buffer.{sect_pos-small, copy_in, copy_out, copy_load, copy_store}
use minx.Strings.{Bytes}
use minx.Fs.Log.{Log, log_loop}

-- The state after a round that writes `bytes` bytes.
abbrev logged : ℕ → ℕ → ℕ → ℕ → Log → Log
logged device nr p bytes l =
    let s = l.fs in
    let off = l.pos % sector_size in
    let buf =
      copy (copy s.fsbuf 0 (s.disk device) (sect_pos nr) sector_size) off s.memory p bytes in
    let disk = update s.disk device (copy (s.disk device) (sect_pos nr) buf 0 sector_size) in
    record { fs = record s { fsbuf = buf; disk = disk }; pos = l.pos + bytes }

-- The bytes of the memory from `p` on are on the device from `at` on, and no other byte of a device has
-- changed, nor the memory.
pub record IsLogged (device at p n : ℕ) (l l' : Log) : Type 0 where
  pub pos : l'.pos ≡ l.pos + n
  pub memory : l'.fs.memory ≡ l.fs.memory
  pub stored : (k : ℕ) → k < n → l'.fs.disk device (at + k) ≡ l.fs.memory (p + k)
  pub outside : (d i : ℕ) → (device ≢ d) ⊎ (i < at) ⊎ (at + n ≤ i) → l'.fs.disk d i ≡ l.fs.disk d i

none-IsLogged : (device at p : ℕ) (l : Log) → IsLogged device at p 0 l l
none-IsLogged device at p l = record {
  pos = omega arith;
  memory = refl;
  stored = λ k a. absurd (omega (arith, a));
  outside = λ d i o. refl;
}

add_assoc : (a b c : ℕ) → a + b + c ≡ a + (b + c)
add_assoc a b c = omega arith

not_other :
    (device d i at end : ℕ)
    → (device == d) ≡ true
    → (device ≢ d) ⊎ (i < at) ⊎ (end ≤ i)
    → (i < at) ⊎ (end ≤ i)
not_other device d i at end e (inl ne) = absurd (ne (==→eq device d e))
not_other device d i at end e (inr o) = o

-- A byte that is not among those written.
kept :
    (buf q mem : Bytes) (sect off p bytes i : ℕ)
    → (i < sect + off) ⊎ (sect + off + bytes ≤ i)
    → off + bytes ≤ sector_size
    → copy q sect (copy (copy buf 0 q sect sector_size) off mem p bytes) 0 sector_size i ≡ q i
kept buf q mem sect off p bytes i o fits =
    elim (Bool-cases (leb sect i && ltb i (sect + sector_size))) [
      | inr e ↦
          copy_out q sect (copy (copy buf 0 q sect sector_size) off mem p bytes) 0 sector_size i
            (ground (arith, e))
      | inl e ↦
          let k = i - sect in
          let there : i ≡ sect + k = ground (arith, e) in
          let read = copy buf 0 q sect sector_size in
          let written = copy read off mem p bytes in
          let small : k < sector_size = ground (arith, e) in
          ap (copy q sect written 0 sector_size) there
          ∙ copy_store q written sect sector_size k small
          ∙ copy_out read off mem p bytes k (ground (arith, o, there))
          ∙ copy_load buf q sect sector_size k small
          ∙ ap q (sym there)
    ]

logged-IsLogged :
    (device nr p bytes : ℕ) (l : Log)
    → sect_pos nr ≡ nr * sector_size
    → l.pos % sector_size + bytes ≤ sector_size
    → IsLogged device
        (nr * sector_size + l.pos % sector_size)
        p
        bytes
        l
        (logged device nr p bytes l)
logged-IsLogged device nr p bytes l at fits =
    let s = l.fs in
    let off = l.pos % sector_size in
    let sect = nr * sector_size in
    let read = copy s.fsbuf 0 (s.disk device) sect sector_size in
    let buf = copy read off s.memory p bytes in
    record {
      pos = refl;
      memory = refl;
      stored = λ k a.
          rw (==-refl device, at)
            (ap (copy (s.disk device) sect buf 0 sector_size) (add_assoc sect off k)
              ∙ copy_store (s.disk device) buf sect sector_size (off + k) (omega (arith, a, fits))
              ∙ copy_in read off s.memory p bytes k a);
      outside = λ d i o. elim (Bool-cases (device == d)) [
        | inr e ↦ rw e refl
        | inl e ↦
            rw (e, at)
              (kept s.fsbuf (s.disk device) s.memory sect off p bytes i
                  (not_other device d i _ _ e o) fits
                ∙ ap (λ x. s.disk x i) (==→eq device d e))
      ];
    }

-- A place that is outside of a piece, if the piece is not empty.
away : (x next n : ℕ) → (0 < n → (x < next) ⊎ (next + n ≤ x)) → (x < next) ⊎ (next + n ≤ x)
away x next zero h = elim (Bool-cases (ltb x next)) [
  | inl e ↦ inl (ground (arith, e))
  | inr e ↦ inr (ground (arith, e))
]
away x next (suc n) h = h (omega arith)

before_rest :
    (device d i at next b n : ℕ)
    → (0 < n → next ≡ at + b)
    → (device ≢ d) ⊎ (i < at) ⊎ (at + (b + n) ≤ i)
    → (device ≢ d) ⊎ (i < next) ⊎ (next + n ≤ i)
before_rest device d i at next b n e (inl ne) = inl ne
before_rest device d i at next b n e (inr o) =
    inr (away i next n (λ l. let f = e l in ground (arith, f, o)))

before_first :
    (device d i at b n : ℕ)
    → (device ≢ d) ⊎ (i < at) ⊎ (at + (b + n) ≤ i)
    → (device ≢ d) ⊎ (i < at) ⊎ (at + b ≤ i)
before_first device d i at b n (inl ne) = inl ne
before_first device d i at b n (inr (inl l)) = inr (inl l)
before_first device d i at b n (inr (inr l)) = inr (inr (omega (arith, l)))

-- One piece after another.
IsLogged-join :
    (device at next p b n : ℕ) (l l1 l' : Log)
    → (0 < n → next ≡ at + b)
    → IsLogged device at p b l l1
    → IsLogged device next (p + b) n l1 l'
    → IsLogged device at p (b + n) l l'
IsLogged-join device at next p b n l l1 l' e first rest = record {
  pos = rest.pos ∙ ap (λ x. x + n) first.pos ∙ add_assoc l.pos b n;
  memory = rest.memory ∙ first.memory;
  stored = λ k a. elim (Bool-cases (ltb k b)) [
    | inl early ↦
        let h : k < b = ground (arith, early) in
        rest.outside device (at + k)
          (inr (away (at + k) next n λ l. inl (let f = e l in omega (arith, f, h))))
        ∙ first.stored k h
    | inr late ↦
        let j = k - b in
        let here : k ≡ b + j = ground (arith, late) in
        let i : j < n = omega (arith, a, here) in
        let to : at + k ≡ next + j = omega (arith, here, e (omega (arith, i))) in
        let from : p + b + j ≡ p + k = omega (arith, here) in
        ap (l'.fs.disk device) to
        ∙ rest.stored j i
        ∙ ap (λ m. m (p + b + j)) first.memory
        ∙ ap l.fs.memory from
  ];
  outside = λ d i o.
      rest.outside d i (before_rest device d i at next b n e o)
      ∙ first.outside d i (before_first device d i at b n o);
}

-- A round of the loop.
loop-round :
    (fuel device nr p bytes_left : ℕ) (l : Log)
    → has_driver device ≡ true
    → 0 < bytes_left
    → let bytes = min bytes_left (sector_size - l.pos % sector_size) in
      log_loop (suc fuel) device nr p bytes_left l
      ≡ log_loop fuel device (nr + 1) (p + bytes) (bytes_left - bytes) (logged device nr p bytes l)
unfolding log_loop read_sector write_sector
loop-round fuel device nr p bytes_left l driver more =
    rw (ne→== bytes_left 0 (omega (arith, more)), log_loop) (rw driver refl)

next_sector :
    (nr pos left : ℕ)
    → let off = pos % sector_size in
      let bytes = min (suc left) (sector_size - off) in
      0 < suc left - bytes
      → (nr + 1) * sector_size + (pos + bytes) % sector_size ≡ nr * sector_size + off + bytes
next_sector nr pos left m = omega (arith, m)

-- On a device with a driver, with more fuel than bytes and sectors whose positions are below 2 ^ 31,
-- the loop of `disklog` returns; the bytes of the text are in the log, from the position in the
-- sector on and in order over the sectors that follow, the position is as many further, and no other
-- byte of a device has changed.
pub log_loop-IsLogged :
    (fuel device nr p bytes_left : ℕ) (l : Log)
    → has_driver device ≡ true
    → bytes_left < fuel
    → (nr + bytes_left) * sector_size < 2 ^ 31
    → (l' : Log) × (log_loop fuel device nr p bytes_left l ≡ ok l')
      × IsLogged device (nr * sector_size + l.pos % sector_size) p bytes_left l l'
unfolding log_loop
log_loop-IsLogged zero device nr p bytes_left l driver f w = absurd (omega (arith, f))
log_loop-IsLogged (suc fuel) device nr p zero l driver f w = (l, refl, none-IsLogged device _ p l)
log_loop-IsLogged (suc fuel) device nr p (suc left) l driver f w =
    let off = l.pos % sector_size in
    let bytes = min (suc left) (sector_size - off) in
    let n = suc left - bytes in
    let l1 = logged device nr p bytes l in
    let room : off < sector_size = omega arith in
    let first =
      logged-IsLogged device nr p bytes l (sect_pos-small nr (omega (arith, w)))
        (omega (arith, room)) in
    let (l', run, rest) =
      log_loop-IsLogged fuel device (nr + 1) (p + bytes) n l1 driver (omega (arith, f, room))
        (omega (arith, w, room)) in
    let next : 0 < n
        → (nr + 1) * sector_size + l1.pos % sector_size ≡ nr * sector_size + off + bytes =
      λ m. next_sector nr l.pos left m in
    let joined = IsLogged-join device _ _ p bytes n l l1 l' next first rest in
    (
      l',
      loop-round fuel device nr p (suc left) l driver (omega arith) ∙ run,
      subst (λ k. IsLogged device (nr * sector_size + off) p k l l') (omega (arith, room)) joined,
    )
