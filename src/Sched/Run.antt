-- ===== src/Sched/Run.antt =====
-- `schedule` as a whole: whom it chooses, and when its loop ends.
use minx.Prelude.{
  ℕ, zero, suc, ◌<◌, ◌≡◌, refl, ◌∙◌, sym, ◌⊎◌, inl, inr, false, arith, ok, stop, hang,
}
use mathlib.Core.Path.{subst}
use minx.Prelude.Int.{ℤ, pos, ◌≤ℤ◌}
use minx.Const.{nr_proc}
use minx.Kernel.{Kernel}
use minx.Sched.{scan, refill, is_zero, schedule}
use minx.Sched.Pick.{CanRun, IsBest, Exhausted, Found, none_yet, found, scan-Found, refill-below}

-- `k'` is `k` after `schedule`: `pcb_ptr` is the best process, the ticks are those of `k`, or all
-- were used up and are the priorities now, and nothing else has changed.
pub record IsScheduled (k k' : Kernel) : Type 0 where
  pub best : IsBest k' nr_proc k'.pcb_ptr
  pub slices :
      (k'.ticks ≡ k.ticks)
      ⊎ Exhausted k nr_proc × ((i : ℕ) → i < nr_proc → k'.ticks i ≡ k.priority i)
  pub frame : k' ≡ record k { pcb_ptr = k'.pcb_ptr; ticks = k'.ticks }

-- The state that the loop leaves from, when a process is found.
abbrev pub chosen : Kernel → Kernel
chosen k = record k { pcb_ptr = (scan k nr_proc).chosen }

-- The state in which the next round starts, when none is found.
abbrev pub refilled : Kernel → Kernel
refilled k = record k { pcb_ptr = (scan k nr_proc).chosen; ticks = refill k nr_proc }

zero-false : (t u : ℤ) → t ≡ u → pos 1 ≤ℤ u → is_zero t ≡ false
zero-false t u e h = ground arith

schedule-found :
    (fuel : ℕ) (k : Kernel)
    → (scan k nr_proc).great_ticks ≡ k.ticks (scan k nr_proc).chosen
    → IsBest k nr_proc (scan k nr_proc).chosen
    → schedule (suc fuel) k ≡ ok (chosen k)
unfolding schedule
schedule-found fuel k e best = rw (zero-false _ _ e best.positive)

schedule-none :
    (fuel : ℕ) (k : Kernel)
    → (scan k nr_proc).great_ticks ≡ pos 0
    → schedule (suc fuel) k ≡ schedule fuel (refilled k)
unfolding schedule
schedule-none fuel k e = rw e

found-IsScheduled :
    (k : Kernel) → IsBest k nr_proc (scan k nr_proc).chosen → IsScheduled k (chosen k)
found-IsScheduled k best = record {
  best = record {
    below = best.below;
    runs = best.runs;
    positive = best.positive;
    most = best.most;
  };
  slices = inl refl;
  frame = refl;
}

refilled-IsScheduled :
    (k : Kernel) {k' : Kernel}
    → Exhausted k nr_proc
    → k'.ticks ≡ refill k nr_proc
    → IsScheduled (refilled k) k'
    → IsScheduled k k'
refilled-IsScheduled k {k'} ex e s = record {
  best = s.best;
  slices = inr (ex, λ i h. (λ j. e j i) ∙ refill-below k nr_proc i h);
  frame = s.frame;
}

-- With ticks left somewhere, one round is enough.
ready-IsScheduled :
    (fuel : ℕ) (k : Kernel) (q : ℕ)
    → q < nr_proc
    → CanRun k q
    → pos 1 ≤ℤ k.ticks q
    → (schedule (suc fuel) k ≡ ok (chosen k)) × IsScheduled k (chosen k)
ready-IsScheduled fuel k q h r t = go (scan-Found k nr_proc)
  where
    go :
        Found k nr_proc (scan k nr_proc)
        → (schedule (suc fuel) k ≡ ok (chosen k)) × IsScheduled k (chosen k)
    go (none_yet z c ex) = absurd (omega (arith, ex q h r))
    go (found e best) = (schedule-found fuel k e best, found-IsScheduled k best)

-- If some process may run and has a positive priority, `schedule` returns after at most two rounds
-- of its loop. It has chosen a process that may run, with the most ticks of those that may; the
-- ticks are as they were, or every process that may run had used up its own and all have been set
-- to the priorities; nothing else has changed.
pub schedule-IsScheduled :
    (fuel : ℕ) (k : Kernel) (q : ℕ)
    → q < nr_proc
    → CanRun k q
    → pos 1 ≤ℤ k.priority q
    → (k' : Kernel) × (schedule (suc (suc fuel)) k ≡ ok k') × IsScheduled k k'
schedule-IsScheduled fuel k q h r t = go (scan-Found k nr_proc)
  where
    go :
        Found k nr_proc (scan k nr_proc)
        → (k' : Kernel) × (schedule (suc (suc fuel)) k ≡ ok k') × IsScheduled k k'
    go (found e best) = (chosen k, schedule-found (suc fuel) k e best, found-IsScheduled k best)
    go (none_yet z c ex) =
        let again =
          ready-IsScheduled fuel (refilled k) q h r
            (subst (λ x. pos 1 ≤ℤ x) (sym (refill-below k nr_proc q h)) t) in
        (
          chosen (refilled k),
          schedule-none (suc fuel) k z ∙ again.0,
          refilled-IsScheduled k ex refl again.1,
        )

-- If every process that may run has neither ticks left nor a positive priority, the loop of
-- `schedule` is left by no number of rounds.
pub schedule-hang :
    (fuel : ℕ) (k : Kernel)
    → Exhausted k nr_proc
    → ((i : ℕ) → i < nr_proc → CanRun k i → k.priority i ≤ℤ pos 0)
    → schedule fuel k ≡ stop hang
unfolding schedule
schedule-hang zero k ex low = refl
schedule-hang (suc fuel) k ex low = go (scan-Found k nr_proc) (
    schedule-hang fuel (refilled k)
      (λ i h r. subst (λ x. x ≤ℤ pos 0) (sym (refill-below k nr_proc i h)) (low i h r)) low)
  where
    go :
        Found k nr_proc (scan k nr_proc)
        → schedule fuel (refilled k) ≡ stop hang
        → schedule (suc fuel) k ≡ stop hang
    go (found e best) again = absurd (omega (arith, best.positive, ex _ best.below best.runs))
    go (none_yet z c _) again = schedule-none fuel k z ∙ again
