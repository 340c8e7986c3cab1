-- ===== src/Sched/Pick.antt =====
-- What the two loops of `schedule` compute.
use minx.Prelude.{
  ℕ, zero, suc, ◌≤◌, ◌<◌, ◌≡◌, ◌≢◌, refl, sym, ap, ◌⊎◌, inl, inr, true, false, ◌&&◌, arith, ◌==◌,
  update, if◌then◌else◌, Bool-cases, ltb,
}
use mathlib.Core.Path.{subst}
use minx.Prelude.Int.{ℤ, pos, ltb_ℤ, ◌≤ℤ◌, pos_part, neg_part}
use minx.Kernel.{Kernel}
use minx.Sched.{Best, consider, scan, refill}

-- Process `p` is not blocked.
abbrev pub CanRun : Kernel → ℕ → Type 0
CanRun k p = (k.pcb_table p).p_flags ≡ 0

-- `p` may run, and has ticks that are positive and no fewer than any other process below `n` that
-- may run.
pub record IsBest (k : Kernel) (n p : ℕ) : Type 0 where
  pub below : p < n
  pub runs : CanRun k p
  pub positive : pos 1 ≤ℤ k.ticks p
  pub most : (i : ℕ) → i < n → CanRun k i → k.ticks i ≤ℤ k.ticks p

-- No process below `n` may run and has ticks left.
abbrev pub Exhausted : Kernel → ℕ → Type 0
Exhausted k n = (i : ℕ) → i < n → CanRun k i → k.ticks i ≤ℤ pos 0

-- What the first `for` has found after the processes below `n`.
pub data Found (k : Kernel) (n : ℕ) (b : Best) : Type 0 where
  none_yet : b.great_ticks ≡ pos 0 → b.chosen ≡ k.pcb_ptr → Exhausted k n → Found k n b
  found : b.great_ticks ≡ k.ticks b.chosen → IsBest k n b.chosen → Found k n b

lt-suc : (i n : ℕ) → i < suc n → (i < n) ⊎ (i ≡ n)
lt-suc i n h = omega arith

module _ (k : Kernel) (n : ℕ) (b : Best) where
  abbrev Test : minx.Prelude.Bool
  Test = (k.pcb_table n).p_flags == 0 && ltb_ℤ b.great_ticks (k.ticks n)

  consider-skip : Test ≡ false → consider k n b ≡ b
  unfolding consider
  consider-skip e = rw e

  consider-take : Test ≡ true → consider k n b ≡ record { great_ticks = k.ticks n; chosen = n }
  unfolding consider
  consider-take e = rw e

  -- A process that is passed over has no more ticks than the best one so far.
  passed_over : Test ≡ false → CanRun k n → k.ticks n ≤ℤ b.great_ticks
  passed_over e h = ground arith

  taken :
      Test ≡ true
      → CanRun k n × (b.great_ticks ≤ℤ k.ticks n) × (pos 0 ≤ℤ b.great_ticks → pos 1 ≤ℤ k.ticks n)
  taken e = ground arith

  most-skip :
      (t : ℤ)
      → Test ≡ false
      → b.great_ticks ≡ t
      → ((i : ℕ) → i < n → CanRun k i → k.ticks i ≤ℤ t)
      → (i : ℕ) → i < suc n
      → CanRun k i
      → k.ticks i ≤ℤ t
  most-skip t e g old i h r = elim (lt-suc i n h) [
    | inl lt ↦ old i lt r
    | inr eq ↦
        subst (λ j. k.ticks j ≤ℤ t) (sym eq)
          (subst (λ x. k.ticks n ≤ℤ x) g (passed_over e (subst (CanRun k) eq r)))
  ]

  Found-skip : Test ≡ false → Found k n b → Found k (suc n) b
  Found-skip e (none_yet z c ex) = none_yet z c (most-skip (pos 0) e z ex)
  Found-skip e (found g best) = found g (record {
    below = omega (arith, best.below);
    runs = best.runs;
    positive = best.positive;
    most = most-skip (k.ticks b.chosen) e g best.most;
  })

  most-take :
      Test ≡ true
      → ((i : ℕ) → i < n → CanRun k i → k.ticks i ≤ℤ b.great_ticks)
      → (i : ℕ) → i < suc n
      → CanRun k i
      → k.ticks i ≤ℤ k.ticks n
  most-take e old i h r = elim (lt-suc i n h) [
    | inl lt ↦ omega (arith, old i lt r, (taken e).1)
    | inr eq ↦ omega (arith, ap (λ j. pos_part (k.ticks j)) eq, ap (λ j. neg_part (k.ticks j)) eq)
  ]

  Found-take :
      Test ≡ true → Found k n b → Found k (suc n) (record { great_ticks = k.ticks n; chosen = n })
  Found-take e (none_yet z c ex) = found refl (record {
    below = omega arith;
    runs = (taken e).0;
    positive = (taken e).2 (rw z (omega arith));
    most = most-take e (rw z ex);
  })
  Found-take e (found g best) = found refl (record {
    below = omega arith;
    runs = (taken e).0;
    positive = (taken e).2 (rw g (omega (arith, best.positive)));
    most = most-take e (rw g best.most);
  })

-- The first `for` finds a process with the most ticks, or none has any left.
pub scan-Found : (k : Kernel) (n : ℕ) → Found k n (scan k n)
unfolding scan
scan-Found k zero = none_yet refl refl (λ i h r. elim h [ ])
scan-Found k (suc n) = elim (Bool-cases (Test k n (scan k n))) [
  | inl e ↦ rw (consider-take k n (scan k n) e) (Found-take k n (scan k n) e (scan-Found k n))
  | inr e ↦ rw (consider-skip k n (scan k n) e) (Found-skip k n (scan k n) e (scan-Found k n))
]

pub refill-below : (k : Kernel) (n i : ℕ) → i < n → refill k n i ≡ k.priority i
unfolding refill
refill-below k zero i h = elim h [ ]
refill-below k (suc n) i h = ground (arith, refill-below k n i)
