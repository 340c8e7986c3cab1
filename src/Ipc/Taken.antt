-- ===== src/Ipc/Taken.antt =====
-- The table after a message has been taken from a process in a sending queue.
use mathlib.Core.Path.{subst}
use minx.Prelude.{
  ℕ, ◌<◌, ◌≡◌, ◌≢◌, sym, ap, ◌∙◌, inl, inr, true, false, List, arith, has, Distinct, remove,
  has-remove_ne, has-remove_self, Distinct-remove, ◌==◌, Bool-cases, update,
}
use minx.Const.{nr_proc, sending}
use minx.Kernel.{Pcb}
use minx.Ipc.State.{Status, Linked, Ends, last, IsReady, IsValid}
use minx.Ipc.Waiting.{Ends-change, SameWait}
use minx.Ipc.Queue.{Linked-frame}
use minx.Ipc.Append.{SameCore, SameCore-Status}

-- `u` is `t` with `sender` taken out of the queue of `receiver`, and no longer blocked.
pub record IsTaken (t u : ℕ → Pcb) (q : ℕ → List ℕ) (sender receiver : ℕ) : Type 0 where
  pub pid : (u sender).pid ≡ sender
  pub ready : IsReady (u sender)
  pub core : (p : ℕ) → p ≢ sender → SameCore (u p) (t p)
  pub first : (p : ℕ) → p ≢ receiver → (u p).q_sending ≡ (t p).q_sending
  pub next : (p : ℕ) → has p (q receiver) ≡ false → (u p).next_sending ≡ (t p).next_sending
  pub tail : Linked u (u receiver).q_sending (remove sender (q receiver))

module _ {t u : ℕ → Pcb} {q : ℕ → List ℕ} (v : IsValid t q) (sender receiver : ℕ)
    (to : receiver < nr_proc) (a : IsTaken t u q sender receiver) where
  abbrev q' : ℕ → List ℕ
  q' = update q receiver (remove sender (q receiver))

  a-Status : (p : ℕ) → p < nr_proc → Status (u p)
  a-Status p h = elim (Bool-cases (p == sender)) [
    | inl e ↦ subst (λ x. Status (u x)) (sym (ground arith)) (inl a.ready)
    | inr e ↦ SameCore-Status (u p) (t p) (a.core p (ground arith)) (v.status p h)
  ]

  a-pids : (p : ℕ) → p < nr_proc → (u p).pid ≡ p
  a-pids p h = elim (Bool-cases (p == sender)) [
    | inl e ↦ subst (λ x. (u x).pid ≡ x) (sym (ground arith)) a.pid
    | inr e ↦ (a.core p (ground arith)).pid ∙ v.pids p h
  ]

  one_queue :
      (r x : ℕ) → r < nr_proc → receiver ≢ r → has x (q r) ≡ true → has x (q receiver) ≡ false
  one_queue r x h ne m = elim (Bool-cases (has x (q receiver))) [
    | inl m' ↦ absurd (ne (sym (v.member receiver x to m').2 ∙ (v.member r x h m).2))
    | inr m' ↦ m'
  ]

  a-Linked : (r : ℕ) → r < nr_proc → Linked u (u r).q_sending (q' r)
  a-Linked r h = elim (Bool-cases (receiver == r)) [
    | inl e ↦
        rw e
          (subst (λ x. Linked u (u x).q_sending (remove sender (q receiver))) (ground arith) a.tail)
    | inr e ↦
        rw (e, a.first r (ground arith))
          (Linked-frame t u (t r).q_sending (q r) (v.linked r h)
            (λ x m. a.next x (one_queue r x h (ground arith) m)))
  ]

  a-Distinct : (r : ℕ) → r < nr_proc → Distinct (q' r)
  a-Distinct r h = elim (Bool-cases (receiver == r)) [
    | inl e ↦ rw e (Distinct-remove sender (q receiver) (v.distinct receiver to))
    | inr e ↦ rw e (v.distinct r h)
  ]

  abbrev Member : ℕ → ℕ → Type 0
  Member r p = (p < nr_proc) × ((u p).p_flags ≡ sending) × ((u p).p_sendto ≡ r)

  Member-old : (r p : ℕ) → r < nr_proc → p ≢ sender → has p (q r) ≡ true → Member r p
  Member-old r p h ne m =
      let (lt, f, to') = v.member r p h m in
      let c = a.core p ne in (lt, c.flags ∙ f, c.sendto ∙ to')

  module _ (in_queue : has sender (q receiver) ≡ true) where
    a-Member : (r p : ℕ) → r < nr_proc → has p (q' r) ≡ true → Member r p
    a-Member r p h m = elim (Bool-cases (receiver == r)) [
      | inl e ↦ subst (λ x. Member x p) (ground arith) (at_receiver (rw e at m))
      | inr e ↦
          let m' : has p (q r) ≡ true = rw e at m in
          Member-old r p h
            (λ eq.
              cc (one_queue r p h (ground arith) m', in_queue, ap (λ x. has x (q receiver)) eq))
            m'
    ]
      where
        at_receiver : has p (remove sender (q receiver)) ≡ true → Member receiver p
        at_receiver m' = elim (Bool-cases (p == sender)) [
          | inl e ↦
              let eq : p ≡ sender = ground arith in
              let out = has-remove_self sender (q receiver) (v.distinct receiver to) in
              cc (out, m', ap (λ x. has x (remove sender (q receiver))) eq)
          | inr e ↦
              Member-old receiver p to (ground arith)
                (sym (has-remove_ne p sender (q receiver) (ground arith)) ∙ m')
        ]

    a-queued : (p : ℕ) → p < nr_proc → (u p).p_flags ≡ sending → has p (q' (u p).p_sendto) ≡ true
    a-queued p h f = elim (Bool-cases (p == sender)) [
      | inl e ↦
          let eq : p ≡ sender = ground arith in
          absurd (omega (arith, a.ready.flags, subst (λ x. (u x).p_flags ≡ sending) eq f))
      | inr e ↦
          let c = a.core p (ground arith) in
          let m = v.queued p h (sym c.flags ∙ f) in
          rw c.sendto (ground (arith, has-remove_ne p sender (q receiver)))
    ]

    a-Ends : (p : ℕ) → p < nr_proc → (n : ℕ) × Ends u n p
    a-Ends p h =
        let same : (x : ℕ) → x ≢ sender → SameWait (u x) (t x) =
          λ x ne. ((a.core x ne).flags, (a.core x ne).sendto) in
        let (m, d) = v.ends p h in Ends-change t u sender same (0, last (rw a.ready.flags)) d

    pub IsTaken-IsValid : IsValid u q'
    IsTaken-IsValid = record {
      pids = a-pids;
      status = a-Status;
      linked = a-Linked;
      distinct = a-Distinct;
      member = a-Member;
      queued = a-queued;
      ends = a-Ends;
    }
