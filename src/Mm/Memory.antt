-- ===== src/Mm/Memory.antt =====
-- `alloc_mem` and `free_mem` of mm/main.c.
use mathlib.Core.Path.{subst}
use minx.Prelude.{
  ℕ, ◌+◌, ◌-◌, ◌*◌, ◌%◌, ◌^◌, ◌≤◌, ◌<◌, ◌≡◌, ◌≢◌, ◌⊎◌, inl, inr, refl, sym, ap, ◌∙◌, true, false,
  Bool-cases, ltb, leb, lt→ltb, ltb→lt, if◌then◌else◌, Result, ok, stop, panic, assertion, check,
  ◌>>◌, arith,
}
use minx.Prelude.Int.{pos, int_of, ltb_ℤ}
use minx.Const.{nr_proc}
use minx.Mm.State.{Platform}

-- The memory of a process is its own, whatever else is in use. The size and the base are patterns of
-- an `int` of 32 bits, on which the sums wrap around.
unfoldable pub alloc_mem : Platform → ℕ → ℕ → Result ℕ
alloc_mem pl pid memsize =
    let base = (pl.procs_base + (pid - nr_proc) * pl.proc_image_size_default) % 2 ^ 32 in
    check (leb nr_proc pid)
    >> (if ltb_ℤ (pos pl.proc_image_size_default) (int_of memsize)
        then stop panic
        else if ltb_ℤ (int_of ((base + memsize) % 2 ^ 32)) (pos pl.memory_size)
        then ok base
        else stop panic)

-- Nothing is freed.
unfoldable pub free_mem : ℕ → ℕ
free_mem pid = 0

mul-gap : (a b k : ℕ) → a < b → a * k + k ≤ b * k
mul-gap a b k l = grind (arith, l)

int_of-below : (x : ℕ) → x < 2 ^ 31 → int_of x ≡ pos x
int_of-below x l = rw (lt→ltb x (2 ^ 31) l) refl

-- Where the images lie when they all end below 2 ^ 31.
abbrev pub image_end : Platform → ℕ → ℕ
image_end pl pid = pl.procs_base + (pid - nr_proc + 1) * pl.proc_image_size_default

image_end-eq :
    (pl : Platform) (pid : ℕ)
    → image_end pl pid
      ≡ pl.procs_base + (pid - nr_proc) * pl.proc_image_size_default + pl.proc_image_size_default
image_end-eq pl pid = grind arith

-- What `alloc_mem` does behind its assertion.
abbrev alloc_rest : Platform → ℕ → ℕ → Result ℕ
alloc_rest pl base memsize =
    if ltb_ℤ (pos pl.proc_image_size_default) (int_of memsize)
    then stop panic
    else if ltb_ℤ (int_of ((base + memsize) % 2 ^ 32)) (pos pl.memory_size)
    then ok base
    else stop panic

alloc_rest-eq :
    (pl : Platform) (at memsize : ℕ) {base : ℕ}
    → at + pl.proc_image_size_default < 2 ^ 31
    → memsize < 2 ^ 31
    → alloc_rest pl at memsize ≡ ok base
    → (memsize ≤ pl.proc_image_size_default) × (at + memsize < pl.memory_size) × (base ≡ at)
alloc_rest-eq pl at memsize {base} l m e =
    let k = pl.proc_image_size_default in
    elim (Bool-cases (ltb k memsize)) [
      | inl big ↦
          let run : alloc_rest pl at memsize ≡ stop panic =
            rw (int_of-below memsize m)
              (let t : ltb_ℤ (pos k) (pos memsize) ≡ true = ground (arith, big) in rw t refl) in
          absurd (cc)
      | inr small ↦
          let fits : memsize ≤ k = ground (arith, small) in
          let sum : (at + memsize) % 2 ^ 32 ≡ at + memsize = omega (arith, l, fits) in
          let low : ltb_ℤ (pos k) (pos memsize) ≡ false = ground (arith, small) in
          elim (Bool-cases (ltb (at + memsize) pl.memory_size)) [
            | inl inside ↦
                let t : ltb_ℤ (pos (at + memsize)) (pos pl.memory_size) ≡ true =
                  ground (arith, inside) in
                let run : alloc_rest pl at memsize ≡ ok at =
                  rw
                    (
                      int_of-below memsize m,
                      low,
                      sum,
                      int_of-below (at + memsize) (omega (arith, l, fits)),
                      t,
                    )
                    refl in
                (fits, ltb→lt _ _ inside, cc)
            | inr past ↦
                let t : ltb_ℤ (pos (at + memsize)) (pos pl.memory_size) ≡ false =
                  ground (arith, past) in
                let run : alloc_rest pl at memsize ≡ stop panic =
                  rw
                    (
                      int_of-below memsize m,
                      low,
                      sum,
                      int_of-below (at + memsize) (omega (arith, l, fits)),
                      t,
                    )
                    refl in
                absurd (cc)
          ]
    ]

-- What `alloc_mem` returns: a block of no more than an image, at the place of the process.
alloc_mem-eq :
    (pl : Platform) (pid memsize : ℕ) {base : ℕ}
    → image_end pl pid < 2 ^ 31
    → memsize < 2 ^ 31
    → alloc_mem pl pid memsize ≡ ok base
    → (nr_proc ≤ pid)
      × (memsize ≤ pl.proc_image_size_default)
      × (base + memsize < pl.memory_size)
      × (base ≡ pl.procs_base + (pid - nr_proc) * pl.proc_image_size_default)
unfolding alloc_mem
alloc_mem-eq pl pid memsize {base} l m e =
    let k = pl.proc_image_size_default in
    let at = pl.procs_base + (pid - nr_proc) * k in
    let end = image_end-eq pl pid in
    let whole : at % 2 ^ 32 ≡ at = omega (arith, l, end) in
    elim (Bool-cases (leb nr_proc pid)) [
      | inr f ↦
          let run : stop assertion ≡ ok base =
            subst (λ b. (check b >> alloc_rest pl at memsize) ≡ ok base) f
              (ap (λ b. check (leb nr_proc pid) >> alloc_rest pl b memsize) (sym whole) ∙ e) in
          absurd (cc)
      | inl t ↦
          let run : alloc_rest pl at memsize ≡ ok base =
            subst (λ b. (check b >> alloc_rest pl at memsize) ≡ ok base) t
              (ap (λ b. check (leb nr_proc pid) >> alloc_rest pl b memsize) (sym whole) ∙ e) in
          let (fits, inside, same) = alloc_rest-eq pl at memsize (omega (arith, l, end)) m run in
          (ground (arith, t), fits, rw same inside, same)
    ]

-- The blocks that `alloc_mem` gives to two processes do not overlap, lie in the memory and begin at
-- `procs_base` or behind it, for sizes that are not negative, if the images of both processes end below
-- 2 ^ 31; beyond that the base of an image wraps around on 32 bits.
pub alloc_mem-IsApart :
    (pl : Platform) (pid pid' size size' : ℕ) {base base' : ℕ}
    → pid ≢ pid'
    → image_end pl pid < 2 ^ 31
    → image_end pl pid' < 2 ^ 31
    → size < 2 ^ 31
    → size' < 2 ^ 31
    → alloc_mem pl pid size ≡ ok base
    → alloc_mem pl pid' size' ≡ ok base'
    → ((base + size ≤ base') ⊎ (base' + size' ≤ base))
      × (pl.procs_base ≤ base)
      × (base + size < pl.memory_size)
alloc_mem-IsApart pl pid pid' size size' ne l l' m m' e e' =
    let (a, b, c, d) = alloc_mem-eq pl pid size l m e in
    let (a', b', c', d') = alloc_mem-eq pl pid' size' l' m' e' in
    let k = pl.proc_image_size_default in
    (
      elim (Bool-cases (ltb pid pid')) [
        | inl l ↦ inl (
            omega
              (arith, mul-gap (pid - nr_proc) (pid' - nr_proc) k (ground (arith, l, a)), d, d', b))
        | inr l ↦ inr (
            omega (
              arith,
              mul-gap (pid' - nr_proc) (pid - nr_proc) k (ground (arith, l, ne, a')),
              d,
              d',
              b',
            ))
      ],
      omega (arith, d),
      c,
    )
