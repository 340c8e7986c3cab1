-- ===== src/Clock/Turn.antt =====
-- What a clock interrupt does to the processes.
use mathlib.Core.Path.{subst}
use minx.Prelude.{
  ℕ, ◌<◌, ◌+◌, ◌%◌, ◌^◌, ◌≡◌, ◌≢◌, refl, sym, ap, ◌∙◌, ◌⊎◌, inl, inr, true, false, List, arith,
  ◌==◌, not, Bool-cases, update, update_self, ok, bind-ok, ltb, if◌then◌else◌,
}
use minx.Prelude.Int.{pos, ◌≤ℤ◌, ltb_ℤ}
use minx.Const.{nr_proc, task_tty}
use minx.Kernel.{Kernel}
use minx.Sched.Pick.{CanRun, IsBest}
use minx.Sched.Run.{IsScheduled, schedule-IsScheduled}
use minx.Ipc.State.{IsReady, IsValid}
use minx.Ipc.Interrupt.{expects, told, waked, marked, inform_int_lem}
use minx.Clock.{count_tick, tell_tty, take_turn, clock_handler}

-- The terminal task has been told of the key: it may run if it waited for an interrupt, and else
-- the interrupt is pending.
abbrev Alerted : Kernel → Kernel → Type 0
Alerted k k' =
    ((expects k task_tty ≡ true) × CanRun k' task_tty)
    ⊎ ((expects k task_tty ≡ false) × ((k'.pcb_table task_tty).has_int_msg ≡ 1))

-- `k'` is `k` after `tell_tty`.
record IsTold (k k' : Kernel) (q : ℕ → List ℕ) : Type 0 where
  valid : IsValid k'.pcb_table q
  awake : (p : ℕ) → CanRun k p → CanRun k' p
  alerted : k.key_pressed ≢ 0 → Alerted k k'
  frame : k' ≡ record k { pcb_table = k'.pcb_table; memory = k'.memory }

waked-awake :
    (k : Kernel) → IsReady (told k task_tty) → (p : ℕ) → CanRun k p → CanRun (waked k task_tty) p
waked-awake k r p h = elim (Bool-cases (0 == p)) [
  | inl here ↦ rw here r.flags
  | inr there ↦ rw there h
]

marked-awake : (k : Kernel) (p : ℕ) → CanRun k p → CanRun (marked k task_tty) p
marked-awake k p h = elim (Bool-cases (0 == p)) [
  | inl here ↦ rw here (ground (arith, h))
  | inr there ↦ rw there h
]

module _ {k : Kernel} {q : ℕ → List ℕ} (v : IsValid k.pcb_table q) where
  tell_tty-IsTold : k.key_pressed ≢ 0 → (k' : Kernel) × (tell_tty k ≡ ok k') × IsTold k k' q
  unfolding tell_tty
  tell_tty-IsTold ne =
      let (k', run, valid, which) = inform_int_lem {k = k} v task_tty (omega arith) in
      (
        k',
        rw (minx.Prelude.ne→== _ _ ne) run,
        elim which [
          | inl w ↦ record {
            valid = valid;
            awake = λ p h. subst (λ x. CanRun x p) (sym w.2) (waked-awake k w.1 p h);
            alerted = λ _. inl (w.0, subst (λ x. CanRun x task_tty) (sym w.2) w.1.flags);
            frame =
                subst (λ x. x ≡ record k { pcb_table = x.pcb_table; memory = x.memory }) (sym w.2)
                  refl;
          }
          | inr w ↦ record {
            valid = valid;
            awake = λ p h. subst (λ x. CanRun x p) (sym w.1) (marked-awake k p h);
            alerted = λ _. inr (w.0, ap (λ x. (x.pcb_table task_tty).has_int_msg) w.1);
            frame =
                subst (λ x. x ≡ record k { pcb_table = x.pcb_table; memory = x.memory }) (sym w.1)
                  refl;
          }
        ],
      )

  tell_tty-ok : (k' : Kernel) × (tell_tty k ≡ ok k') × IsTold k k' q
  unfolding tell_tty
  tell_tty-ok = elim (Bool-cases (k.key_pressed == 0)) [
    | inr pressed ↦ tell_tty-IsTold (ground arith)
    | inl e ↦ (
      k,
      rw e refl,
      record { valid = v; awake = λ p h. h; alerted = λ ne. absurd (ground arith); frame = refl },
    )
  ]

-- The process that runs goes on, in a nested interrupt or with ticks left.
abbrev GoesOn : Kernel → Kernel → Type 0
GoesOn k k' = (k' ≡ k) × ((k.int_re_enter ≢ 0) ⊎ (pos 1 ≤ℤ k.ticks k.pcb_ptr))

-- Its ticks are used up, and another turn begins.
abbrev GivesPlace : Kernel → Kernel → Type 0
GivesPlace k k' = (k.int_re_enter ≡ 0) × (k.ticks k.pcb_ptr ≤ℤ pos 0) × IsScheduled k k'

take_turn-ok :
    (k : Kernel) (w : ℕ)
    → w < nr_proc
    → CanRun k w
    → pos 1 ≤ℤ k.priority w
    → (k' : Kernel) × (take_turn k ≡ ok k') × (GoesOn k k' ⊎ GivesPlace k k')
unfolding take_turn
take_turn-ok k w h run pr = elim (Bool-cases (k.int_re_enter == 0)) [
  | inr nested ↦ (k, rw nested refl, inl (refl, inl (ground arith)))
  | inl flat ↦ elim (Bool-cases (ltb_ℤ (pos 0) (k.ticks k.pcb_ptr))) [
    | inl left ↦ (k, rw (flat, left) refl, inl (refl, inr (ground arith)))
    | inr used ↦
        let (k', done, s) = schedule-IsScheduled 0 k w h run pr in
        (k', rw (flat, used) done, inr (ground arith, ground arith, s))
  ]
]

-- `k'` is `k` after a clock interrupt.
pub record IsTicked (k k' : Kernel) (q : ℕ → List ℕ) : Type 0 where
  pub valid : IsValid k'.pcb_table q
  pub awake : (p : ℕ) → CanRun k p → CanRun k' p
  pub alerted : k.key_pressed ≢ 0 → Alerted k k'
  pub count : k'.ticks_count ≡ (k.ticks_count + 1) % 2 ^ 32
  pub turn :
      (k'.pcb_ptr ≡ k.pcb_ptr)
        × (k'.ticks ≡ (count_tick k).ticks)
        × ((k.int_re_enter ≢ 0) ⊎ (pos 1 ≤ℤ k'.ticks k'.pcb_ptr))
      ⊎ (k.int_re_enter ≡ 0)
        × ((count_tick k).ticks k.pcb_ptr ≤ℤ pos 0)
        × IsBest k' nr_proc k'.pcb_ptr

told-IsTicked :
    (k : Kernel) {t k' : Kernel} {q : ℕ → List ℕ}
    → IsTold (count_tick k) t q
    → GoesOn t k' ⊎ GivesPlace t k'
    → IsTicked k k' q
told-IsTicked k {t} {k'} {q} d (inl (same, why)) =
    subst (λ x. IsTicked k x q) (sym same)
      (record {
        valid = d.valid;
        awake = d.awake;
        alerted = d.alerted;
        count = ap (λ x. x.ticks_count) d.frame;
        turn = inl (
          ap (λ x. x.pcb_ptr) d.frame,
          ap (λ x. x.ticks) d.frame,
          elim why [
            | inl nested ↦ inl (λ e. nested (ap (λ x. x.int_re_enter) d.frame ∙ e))
            | inr left ↦ inr left
          ],
        );
      })
told-IsTicked k {t} {k'} {q} d (inr (flat, used, s)) =
    let same : k'.pcb_table ≡ t.pcb_table = ap (λ x. x.pcb_table) s.frame in
    let ticks : t.ticks t.pcb_ptr ≡ (count_tick k).ticks k.pcb_ptr =
      ap (λ x. x.ticks x.pcb_ptr) d.frame in
    record {
      valid = subst (λ x. IsValid x q) (sym same) d.valid;
      awake = λ p h. ap (λ x. (x p).p_flags) same ∙ d.awake p h;
      alerted = λ ne. subst (λ x. Alerted k (record t { pcb_table = x })) (sym same) (d.alerted ne);
      count = ap (λ x. x.ticks_count) s.frame ∙ ap (λ x. x.ticks_count) d.frame;
      turn = inr (
        sym (ap (λ x. x.int_re_enter) d.frame) ∙ flat,
        subst (λ x. x ≤ℤ pos 0) ticks used,
        s.best,
      );
    }

-- Where some process may run and has a positive priority, a clock interrupt in a well-formed state
-- fails no assertion and ends: the interrupts are counted, the sending queues stay, nobody is
-- blocked, and the terminal task is told if a key was pressed. The process that runs has one tick
-- less and goes on, in a nested interrupt or with ticks left; else the next is one with the most
-- ticks of those that may run.
pub clock_handler_lem :
    {k : Kernel} {q : ℕ → List ℕ}
    → IsValid k.pcb_table q
    → (w : ℕ) → w < nr_proc
    → CanRun k w
    → pos 1 ≤ℤ k.priority w
    → (k' : Kernel) × (clock_handler k ≡ ok k') × IsTicked k k' q
unfolding clock_handler
clock_handler_lem {k} {q} v w h run pr =
    let (t, e, d) = tell_tty-ok {k = count_tick k} v in
    let (k', e', which) =
      take_turn-ok t w h (d.awake w run)
        (subst (λ x. pos 1 ≤ℤ x w) (sym (ap (λ x. x.priority) d.frame)) pr) in
    (k', bind-ok _ take_turn t e ∙ e', told-IsTicked k d which)
