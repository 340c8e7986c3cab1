-- ===== src/Protect/Idt.antt =====
-- The table of interrupts: `setIdt` and `set_irq_table` of lib/interrupt.c. Where the routines stand is
-- a parameter; the writes to the interrupt controller are left out.
use minx.Prelude.{
  ℕ, ◌-◌, ◌%◌, sym, ◌^◌, ◌<◌, ◌≡◌, inl, inr, refl, ap, ◌∙◌, true, Bool, Bool-cases, ◌&&◌, ◌||◌, leb,
  List, [], ◌∷◌, ◌==◌, if◌then◌else◌, update, all_below, all_below-at, ==→eq, &&-true, same,
  same-eq,
}
use minx.Protect.{Gate, init_idt_desc, idt_desc}
use minx.Protect.Fields.{offset_of, privilege_of, is_present, idt_desc-offset}

-- DA_386IGate
abbrev da_386i_gate : ℕ
da_386i_gate = 0x8e

-- The routines that the table is filled with, all of them in assembly; `hwint 7` is `hwint07`.
pub data Routine : Type 0 where
  divide_error : Routine
  single_step_exception : Routine
  nmi : Routine
  breakpoint_exception : Routine
  overflow : Routine
  bounds_check : Routine
  inval_opcode : Routine
  copr_not_available : Routine
  double_fault : Routine
  copr_seg_overrun : Routine
  inval_tss : Routine
  segment_not_present : Routine
  stack_exception : Routine
  general_protection : Routine
  page_fault : Routine
  copr_error : Routine
  hwint : ℕ → Routine
  system_call : Routine

-- A call of `init_idt_desc`: the vector, the routine and the privilege.
pub record Entry : Type 0 where
  pub vector : ℕ
  pub routine : Routine
  pub privilege : ℕ

abbrev pub entry : ℕ → Routine → ℕ → Entry
entry v r p = record { vector = v; routine = r; privilege = p }

-- The calls in the order in which `setIdt` makes them.
abbrev pub gates : List Entry
gates =
    entry 0x0 divide_error 0
    ∷ entry 0x1 single_step_exception 0
    ∷ entry 0x2 nmi 0
    ∷ entry 0x3 breakpoint_exception 3
    ∷ entry 0x4 overflow 3
    ∷ entry 0x5 bounds_check 0
    ∷ entry 0x6 inval_opcode 0
    ∷ entry 0x7 copr_not_available 0
    ∷ entry 0x8 double_fault 0
    ∷ entry 0x9 copr_seg_overrun 0
    ∷ entry 0xa inval_tss 0
    ∷ entry 0xb segment_not_present 0
    ∷ entry 0xc stack_exception 0
    ∷ entry 0xd general_protection 0
    ∷ entry 0xe page_fault 0
    ∷ entry 0x10 copr_error 0
    ∷ entry 0x20 (hwint 0) 3
    ∷ entry 0x21 (hwint 1) 0
    ∷ entry 0x22 (hwint 2) 0
    ∷ entry 0x23 (hwint 3) 0
    ∷ entry 0x24 (hwint 4) 0
    ∷ entry 0x25 (hwint 5) 0
    ∷ entry 0x26 (hwint 6) 0
    ∷ entry 0x27 (hwint 7) 0
    ∷ entry 0x28 (hwint 8) 0
    ∷ entry 0x29 (hwint 9) 0
    ∷ entry 0x2a (hwint 10) 0
    ∷ entry 0x2b (hwint 11) 0
    ∷ entry 0x2c (hwint 12) 0
    ∷ entry 0x2d (hwint 13) 0
    ∷ entry 0x2e (hwint 14) 0
    ∷ entry 0x2f (hwint 15) 0
    ∷ entry 0x80 system_call 3
    ∷ []

-- The table before, which is a global and so holds zeros.
abbrev no_gate : Gate
no_gate = record { offset_low = 0; selector = 0; dcount = 0; gate_attr = 0; offset_high = 0 }

-- The calls of `init_idt_desc` one after the other; `address` is where each routine stands.
pub set_gates : (Routine → ℕ) → List Entry → (ℕ → Gate) → ℕ → Gate
set_gates address [] idt = idt
set_gates address (e ∷ es) idt =
    set_gates address es (init_idt_desc e.vector da_386i_gate (address e.routine) e.privilege idt)

-- `idt` after `setIdt`.
pub set_idt : (Routine → ℕ) → ℕ → Gate
set_idt address = set_gates address gates (λ vector. no_gate)

-- `set_irq_table`: a null handler is not set. The interrupts are disabled before and enabled after.
pub set_irq_table : ℕ → ℕ → (ℕ → ℕ) → ℕ → ℕ
set_irq_table irq handler irq_table =
    if handler == 0 then irq_table else update irq_table irq handler

-- The routine for a vector: the processor's exceptions by their numbers, the interrupt lines from 32
-- on, and the system call.
abbrev pub routine_of : ℕ → Routine
routine_of v =
    if v == 0
    then divide_error
    else if v == 1
    then single_step_exception
    else if v == 2
    then nmi
    else if v == 3
    then breakpoint_exception
    else if v == 4
    then overflow
    else if v == 5
    then bounds_check
    else if v == 6
    then inval_opcode
    else if v == 7
    then copr_not_available
    else if v == 8
    then double_fault
    else if v == 9
    then copr_seg_overrun
    else if v == 10
    then inval_tss
    else if v == 11
    then segment_not_present
    else if v == 12
    then stack_exception
    else if v == 13
    then general_protection
    else if v == 14
    then page_fault
    else if v == 16
    then copr_error
    else if v == 128
    then system_call
    else hwint (v - 32)

-- A present gate leads to the routine of its vector.
HasOffset : (Routine → ℕ) → (ℕ → Gate) → Type 0
HasOffset address idt =
    (v : ℕ) → is_present (idt v) ≡ true → offset_of (idt v) ≡ address (routine_of v)

-- Each call names the routine of its vector.
abbrev AllOwn : List Entry → Type 0
AllOwn [] = Unit
AllOwn (e ∷ es) = (e.routine ≡ routine_of e.vector) × AllOwn es

set_gates-HasOffset :
    (address : Routine → ℕ) (es : List Entry) (idt : ℕ → Gate)
    → ((r : Routine) → address r < 2 ^ 32)
    → AllOwn es
    → HasOffset address idt
    → HasOffset address (set_gates address es idt)
unfolding set_gates init_idt_desc HasOffset
set_gates-HasOffset address [] idt small own h = h
set_gates-HasOffset address (e ∷ es) idt small (here, own) h =
    set_gates-HasOffset address es
      (init_idt_desc e.vector da_386i_gate (address e.routine) e.privilege idt) small own
      λ v. elim (Bool-cases (e.vector == v)) [
        | inl same_vector ↦ rw same_vector λ p.
            idt_desc-offset da_386i_gate (address e.routine) e.privilege (small e.routine)
            ∙ ap address (here ∙ ap routine_of (==→eq e.vector v same_vector))
        | inr other ↦ rw other (h v)
      ]

-- The vectors that `setIdt` fills, and those that a program may call.
abbrev pub is_filled : ℕ → Bool
is_filled v = leb v 14 || v == 16 || (leb 32 v && leb v 47) || v == 128

abbrev pub is_callable : ℕ → Bool
is_callable v = v == 3 || v == 4 || v == 32 || v == 128

-- A gate for a 32-bit interrupt, to the code segment of the core.
is_interrupt_gate : Gate → Bool
is_interrupt_gate g = g.selector == 16 && (g.dcount == 0 && g.gate_attr % 2 ^ 5 == 0x0e)

as_listed : (Routine → ℕ) → ℕ → Bool
as_listed address v =
    same (is_present (set_idt address v)) (is_filled v)
    && (same (is_present (set_idt address v) && privilege_of (set_idt address v) == 3)
          (is_callable v)
        && same (is_present (set_idt address v) && is_interrupt_gate (set_idt address v))
            (is_filled v))

as_listed_table : (address : Routine → ℕ) → all_below 256 (as_listed address) ≡ true
unfolding as_listed set_idt set_gates init_idt_desc idt_desc is_interrupt_gate
as_listed_table address = refl

gates-AllOwn : AllOwn gates
gates-AllOwn = (
  refl,
  (
    refl,
    (
      refl,
      (
        refl,
        (
          refl,
          (
            refl,
            (
              refl,
              (
                refl,
                (
                  refl,
                  (
                    refl,
                    (
                      refl,
                      (
                        refl,
                        (
                          refl,
                          (
                            refl,
                            (
                              refl,
                              (
                                refl,
                                (
                                  refl,
                                  (
                                    refl,
                                    (
                                      refl,
                                      (
                                        refl,
                                        (
                                          refl,
                                          (
                                            refl,
                                            (
                                              refl,
                                              (
                                                refl,
                                                (
                                                  refl,
                                                  (
                                                    refl,
                                                    (
                                                      refl,
                                                      (
                                                        refl,
                                                        (refl, (refl, (refl, (refl, (refl, tt))))),
                                                      ),
                                                    ),
                                                  ),
                                                ),
                                              ),
                                            ),
                                          ),
                                        ),
                                      ),
                                    ),
                                  ),
                                ),
                              ),
                            ),
                          ),
                        ),
                      ),
                    ),
                  ),
                ),
              ),
            ),
          ),
        ),
      ),
    ),
  ),
)

-- A gate for a 32-bit interrupt that leads to the address of its routine in the code segment of the
-- core.
pub record LeadsTo (address : ℕ) (g : Gate) : Type 0 where
  pub offset : offset_of g ≡ address
  pub selector : g.selector ≡ 16
  pub dcount : g.dcount ≡ 0
  pub kind : g.gate_attr % 2 ^ 5 ≡ 0x0e

is_interrupt_gate-LeadsTo :
    (address : ℕ) (g : Gate)
    → is_interrupt_gate g ≡ true
    → offset_of g ≡ address
    → LeadsTo address g
unfolding is_interrupt_gate
is_interrupt_gate-LeadsTo address g e at =
    let (s, rest) = &&-true (g.selector == 16) (g.dcount == 0 && g.gate_attr % 2 ^ 5 == 0x0e) e in
    let (d, k) = &&-true (g.dcount == 0) (g.gate_attr % 2 ^ 5 == 0x0e) rest in
    record { offset = at; selector = ==→eq _ _ s; dcount = ==→eq _ _ d; kind = ==→eq _ _ k }

-- After `setIdt`, for routines at addresses of 32 bits: the gates that are present are those of the
-- vectors 0 to 14, 16, 32 to 47 and 128, the ones that a program may call are 3, 4, 32 (the clock)
-- and 128 (the system call), and each that is present is a gate for a 32-bit interrupt to the code
-- segment of the core, at the address of the routine for its vector: that of the processor's
-- exception, of the interrupt line counted from 32 on, or of the system call.
pub set_idt_lem :
    (address : Routine → ℕ) (v : ℕ)
    → ((r : Routine) → address r < 2 ^ 32)
    → v < 256
    → (is_present (set_idt address v) ≡ is_filled v)
      × ((is_present (set_idt address v) && privilege_of (set_idt address v) == 3) ≡ is_callable v)
      × (is_present (set_idt address v) ≡ true
          → LeadsTo (address (routine_of v)) (set_idt address v))
unfolding as_listed set_idt HasOffset
set_idt_lem address v small l =
    let g = set_idt address v in
    let t = all_below-at 256 (as_listed address) v l (as_listed_table address) in
    let (a, rest) = &&-true (same (is_present g) (is_filled v)) _ t in
    let (b, c) = &&-true (same (is_present g && privilege_of g == 3) (is_callable v)) _ rest in
    (
      same-eq _ _ a,
      same-eq _ _ b,
      λ p.
          is_interrupt_gate-LeadsTo _ g
            (&&-true (is_present g) _ (same-eq _ _ c ∙ sym (same-eq _ _ a) ∙ p)).1
            (set_gates-HasOffset address gates (λ vector. no_gate) small gates-AllOwn (λ w q. cc) v
              p),
    )
