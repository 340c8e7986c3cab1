-- ===== src/Ipc/Chain.antt =====
-- Chains of waiting senders: their length is bounded, and `deadlock` decides where they lead.
use mathlib.Core.Path.{subst}
use minx.Prelude.{
  ℕ, zero, suc, ◌≤◌, ◌<◌, ◌≡◌, refl, sym, ap, ◌∙◌, ◌⊎◌, inl, inr, Bool, true, false, List, [], ◌∷◌,
  arith, length, has, Distinct, has_flag, ok, ◌==◌, length-le_of_Distinct, Bool-cases,
}
use minx.Const.{nr_proc, sending}
use minx.Kernel.{Pcb, Kernel}
use minx.Ipc.Send.{print_chain, deadlock_from, deadlock}
use minx.Ipc.State.{Ends, last, hop, Leads, direct, via, IsValid, sender_of_flag}

-- A chain has one length.
Ends-unique : {t : ℕ → Pcb} {n m p : ℕ} → Ends t n p → Ends t m p → n ≡ m
Ends-unique (last e) (last f) = refl
Ends-unique (last e) (hop f _) = cc
Ends-unique (hop e _) (last f) = cc
Ends-unique (hop e a) (hop f b) = ap suc (Ends-unique a b)

module _ (t : ℕ → Pcb) where
  -- The processes on a chain of `n` steps.
  abbrev chain : ℕ → ℕ → List ℕ
  chain zero p = p ∷ []
  chain (suc n) p = p ∷ chain n (t p).p_sendto

  length-chain : (n p : ℕ) → length (chain n p) ≡ suc n
  length-chain zero p = refl
  length-chain (suc n) p = ap suc (length-chain n (t p).p_sendto)

  Ends-has :
      {n p : ℕ} (x : ℕ) → Ends t n p → has x (chain n p) ≡ true → (j : ℕ) × (j ≤ n) × Ends t j x
  Ends-has {n = zero} {p} x e h = (0, omega arith, subst (Ends t 0) (sym (ground arith)) e)
  Ends-has {n = suc n} {p} x (hop f e) h = elim (Bool-cases (x == p)) [
    | inl here ↦ (suc n, omega arith, subst (Ends t (suc n)) (sym (ground arith)) (hop f e))
    | inr there ↦ let (j, le, e') = Ends-has x e (ground arith) in (j, omega arith, e')
  ]

  -- No process comes twice.
  Distinct-chain : {n p : ℕ} → Ends t n p → Distinct (chain n p)
  Distinct-chain (last f) = (refl, tt)
  Distinct-chain {n = suc n} {p} (hop f e) = elim (Bool-cases (has p (chain n (t p).p_sendto))) [
    | inl back ↦
        let (j, le, e') = Ends-has p e back in absurd (omega (arith, Ends-unique (hop f e) e'))
    | inr out ↦ (out, Distinct-chain e)
  ]

  chain-below :
      {n p : ℕ}
      → ((x : ℕ) → x < nr_proc → has_flag (t x).p_flags sending ≡ true → (t x).p_sendto < nr_proc)
      → p < nr_proc
      → Ends t n p
      → (x : ℕ) → has x (chain n p) ≡ true
      → x < nr_proc
  chain-below to h (last f) x m = ground arith
  chain-below {n = suc n} {p} to h (hop f e) x m = elim (Bool-cases (x == p)) [
    | inl here ↦ ground arith
    | inr there ↦ chain-below to (to p h f) e x (ground arith)
  ]

  Ends-lt :
      {n p : ℕ}
      → ((x : ℕ) → x < nr_proc → has_flag (t x).p_flags sending ≡ true → (t x).p_sendto < nr_proc)
      → p < nr_proc
      → Ends t n p
      → n < nr_proc
  Ends-lt {n} {p} to h e = omega (
    arith,
    length-chain n p,
    length-le_of_Distinct nr_proc (chain n p) (Distinct-chain e) (chain-below to h e),
  )

module _ {t : ℕ → Pcb} {q : ℕ → List ℕ} (v : IsValid t q) where
  sending_target :
      (x : ℕ) → x < nr_proc → has_flag (t x).p_flags sending ≡ true → (t x).p_sendto < nr_proc
  sending_target x h f = (sender_of_flag (t x) (v.status x h) f).sendto

  -- A chain of waiting senders is shorter than the table.
  pub chain_lt : (p : ℕ) → p < nr_proc → (n : ℕ) × (n < nr_proc) × Ends t n p
  chain_lt p h = let (n, e) = v.ends p h in (n, Ends-lt t sending_target h e, e)

module _ (k : Kernel) {q : ℕ → List ℕ} (v : IsValid k.pcb_table q) (src : ℕ) where
  print_chain-ok :
      {n p : ℕ} (fuel : ℕ)
      → n < fuel
      → p < nr_proc
      → Ends k.pcb_table n p
      → Leads k.pcb_table src p
      → print_chain fuel src p k ≡ ok tt
  unfolding print_chain
  print_chain-ok {n} {p} zero lt h e l = absurd (omega arith)
  print_chain-ok {n} {p} (suc fuel) lt h e (direct f to) =
      let s = sender_of_flag (k.pcb_table p) (v.status p h) f in ground (arith, s.msg)
  print_chain-ok {n = zero} {p} (suc fuel) lt h (last g) (via f l) = cc
  print_chain-ok {n = suc n} {p} (suc fuel) lt h (hop g e) (via f l) =
      let s = sender_of_flag (k.pcb_table p) (v.status p h) f in
      ground (
        arith,
        s.msg,
        print_chain-ok {n = n} {p = (k.pcb_table p).p_sendto} fuel (omega arith) s.sendto e l,
      )

  -- What the search for a deadlock says from `p` on.
  data Answer (fuel dest p : ℕ) : Type 0 where
    cyclic :
        Leads k.pcb_table src p → deadlock_from fuel src dest p k ≡ ok true → Answer fuel dest p
    safe :
        ¬ (Leads k.pcb_table src p)
        → deadlock_from fuel src dest p k ≡ ok false
        → Answer fuel dest p

  module _ (fuel dest p : ℕ) where
    abbrev flagged : Bool
    flagged = has_flag (k.pcb_table p).p_flags sending

    abbrev next : ℕ
    next = (k.pcb_table p).p_sendto

    from-last : flagged ≡ false → deadlock_from (suc fuel) src dest p k ≡ ok false
    unfolding deadlock_from
    from-last e = rw e

    from-hit :
        flagged ≡ true
        → (next == src) ≡ true
        → print_chain (suc nr_proc) src dest k ≡ ok tt
        → deadlock_from (suc fuel) src dest p k ≡ ok true
    unfolding deadlock_from
    from-hit e h pr = rw (e, h, pr)

    from-next :
        flagged ≡ true
        → (next == src) ≡ false
        → deadlock_from (suc fuel) src dest p k ≡ deadlock_from fuel src dest next k
    unfolding deadlock_from
    from-next e h = rw (e, h)

  not-Leads-last :
      {p : ℕ} → has_flag (k.pcb_table p).p_flags sending ≡ false → ¬ (Leads k.pcb_table src p)
  not-Leads-last g (direct f to) = cc
  not-Leads-last g (via f l) = cc

  not-Leads-next :
      {p : ℕ}
      → ((k.pcb_table p).p_sendto == src) ≡ false
      → ¬ (Leads k.pcb_table src (k.pcb_table p).p_sendto)
      → ¬ (Leads k.pcb_table src p)
  not-Leads-next miss no_lead (direct f to) = ground arith
  not-Leads-next miss no_lead (via f l) = no_lead l

  Answer-next :
      {fuel dest p : ℕ}
      → has_flag (k.pcb_table p).p_flags sending ≡ true
      → ((k.pcb_table p).p_sendto == src) ≡ false
      → Answer fuel dest (k.pcb_table p).p_sendto
      → Answer (suc fuel) dest p
  Answer-next {fuel} {dest} {p} g miss (cyclic l e) =
      cyclic (via g l) (from-next fuel dest p g miss ∙ e)
  Answer-next {fuel} {dest} {p} g miss (safe l e) =
      safe (not-Leads-next miss l) (from-next fuel dest p g miss ∙ e)

  deadlock_from-Answer :
      {n p : ℕ} (fuel dest : ℕ)
      → n < fuel
      → p < nr_proc
      → Ends k.pcb_table n p
      → (Leads k.pcb_table src p → print_chain (suc nr_proc) src dest k ≡ ok tt)
      → Answer fuel dest p
  deadlock_from-Answer zero dest lt h e pr = absurd (omega arith)
  deadlock_from-Answer {p} (suc fuel) dest lt h (last g) pr =
      safe (not-Leads-last g) (from-last fuel dest p g)
  deadlock_from-Answer {p} (suc fuel) dest lt h (hop {n} g e) pr =
      elim (Bool-cases ((k.pcb_table p).p_sendto == src)) [
        | inl hit ↦ let l = direct g (ground arith) in cyclic l (from-hit fuel dest p g hit (pr l))
        | inr miss ↦ Answer-next g miss (
            deadlock_from-Answer {n = n} fuel dest (omega arith) (sending_target v p h g) e
              (λ l. pr (via g l)))
      ]

  -- In a well-formed state, for the number of a process as `dest`, the search of `deadlock` ends
  -- with no assertion failed, and answers whether `dest` waits to send to `src`, at once or through
  -- other processes.
  pub deadlock_lem :
      (dest : ℕ)
      → dest < nr_proc
      → (Leads k.pcb_table src dest × (deadlock src dest k ≡ ok true))
        ⊎ (¬ (Leads k.pcb_table src dest) × (deadlock src dest k ≡ ok false))
  unfolding deadlock
  deadlock_lem dest h =
      let (n, lt, e) = chain_lt v dest h in
      go (
        deadlock_from-Answer (suc nr_proc) dest (omega arith) h e
          (print_chain-ok (suc nr_proc) (omega arith) h e))
    where
      go :
          Answer (suc nr_proc) dest dest
          → (Leads k.pcb_table src dest × (deadlock src dest k ≡ ok true))
            ⊎ (¬ (Leads k.pcb_table src dest) × (deadlock src dest k ≡ ok false))
      go (cyclic l e) = inl (l, e)
      go (safe l e) = inr (l, e)
