-- ===== src/Ipc/Append.antt =====
-- The table after a process has been appended to a sending queue.
use mathlib.Core.Path.{subst}
use minx.Prelude.{
  ℕ, suc, ◌<◌, ◌≡◌, ◌≢◌, sym, ◌∙◌, ◌⊎◌, inl, inr, true, false, List, [], ◌∷◌, ◌++◌, arith, has,
  has-append, Distinct-append, Distinct, ◌==◌, ◌||◌, Bool-cases, update,
}
use minx.Const.{nr_proc, sending, receiving}
use minx.Kernel.{Pcb}
use minx.Ipc.State.{Status, Linked, Ends, hop, Leads, IsReady, IsSending, IsValid}
use minx.Ipc.Waiting.{Ends-avoid, Ends-change, SameWait}
use minx.Ipc.Queue.{Linked-frame}

-- The fields that say what a process is waiting for.
pub record SameCore (c d : Pcb) : Type 0 where
  pub pid : c.pid ≡ d.pid
  pub flags : c.p_flags ≡ d.p_flags
  pub msg : c.p_msg ≡ d.p_msg
  pub recvfrom : c.p_recvfrom ≡ d.p_recvfrom
  pub sendto : c.p_sendto ≡ d.p_sendto
  pub has_int : c.has_int_msg ≡ d.has_int_msg

pub SameCore-Status : (c d : Pcb) → SameCore c d → Status d → Status c
SameCore-Status c d s (inl r) = inl (ground (arith, s.flags, s.msg, s.recvfrom, s.sendto))
SameCore-Status c d s (inr (inl r)) =
    inr (inl (ground (arith, s.flags, s.msg, s.recvfrom, s.sendto)))
SameCore-Status c d s (inr (inr r)) = inr (
    inr (record {
      flags = s.flags ∙ r.flags;
      msg = λ e. r.msg (sym s.msg ∙ e);
      recvfrom = λ e. r.recvfrom (sym s.recvfrom ∙ e);
      sendto = s.sendto ∙ r.sendto;
      quiet = λ e.
          s.has_int
          ∙ r.quiet (subst (λ x. (x ≡ minx.Const.any) ⊎ (x ≡ minx.Const.interrupt)) s.recvfrom e);
    }))

-- `u` is `t` with `sender` waiting at the end of the queue of `dest`.
pub record IsAppended (t u : ℕ → Pcb) (q : ℕ → List ℕ) (sender dest : ℕ) : Type 0 where
  pub pid : (u sender).pid ≡ sender
  pub waits : IsSending (u sender)
  pub target : (u sender).p_sendto ≡ dest
  pub core : (p : ℕ) → p ≢ sender → SameCore (u p) (t p)
  pub first : (p : ℕ) → p ≢ dest → (u p).q_sending ≡ (t p).q_sending
  pub next : (p : ℕ) → p ≢ sender → has p (q dest) ≡ false → (u p).next_sending ≡ (t p).next_sending
  pub tail : Linked u (u dest).q_sending (q dest ++ sender ∷ [])

module _ {t u : ℕ → Pcb} {q : ℕ → List ℕ} (v : IsValid t q) (sender dest : ℕ)
    (from : sender < nr_proc) (to : dest < nr_proc) (ready : IsReady (t sender))
    (apart : sender ≢ dest) (a : IsAppended t u q sender dest) where
  abbrev q' : ℕ → List ℕ
  q' = update q dest (q dest ++ sender ∷ [])

  -- A process that is not blocked is in no queue.
  out_of : (r : ℕ) → r < nr_proc → has sender (q r) ≡ false
  out_of r h = elim (Bool-cases (has sender (q r))) [
    | inl m ↦ absurd (omega (arith, ready.flags, (v.member r sender h m).1))
    | inr m ↦ m
  ]

  a-Status : (p : ℕ) → p < nr_proc → Status (u p)
  a-Status p h = elim (Bool-cases (p == sender)) [
    | inl e ↦ subst (λ x. Status (u x)) (sym (ground arith)) (inr (inl a.waits))
    | inr e ↦ SameCore-Status (u p) (t p) (a.core p (ground arith)) (v.status p h)
  ]

  a-pids : (p : ℕ) → p < nr_proc → (u p).pid ≡ p
  a-pids p h = elim (Bool-cases (p == sender)) [
    | inl e ↦ subst (λ x. (u x).pid ≡ x) (sym (ground arith)) a.pid
    | inr e ↦ (a.core p (ground arith)).pid ∙ v.pids p h
  ]

  mem-ne : (r x : ℕ) → r < nr_proc → has x (q r) ≡ true → x ≢ sender
  mem-ne r x h m e =
      let f : (t sender).p_flags ≡ sending =
        subst (λ y. (t y).p_flags ≡ sending) e (v.member r x h m).1 in
      omega (arith, ready.flags)

  -- A process is in one queue at most.
  one_queue : (r x : ℕ) → r < nr_proc → dest ≢ r → has x (q r) ≡ true → has x (q dest) ≡ false
  one_queue r x h ne m = elim (Bool-cases (has x (q dest))) [
    | inl m' ↦ absurd (ne (sym (v.member dest x to m').2 ∙ (v.member r x h m).2))
    | inr m' ↦ m'
  ]

  a-Linked : (r : ℕ) → r < nr_proc → Linked u (u r).q_sending (q' r)
  a-Linked r h = elim (Bool-cases (dest == r)) [
    | inl e ↦
        rw e (subst (λ x. Linked u (u x).q_sending (q dest ++ sender ∷ [])) (ground arith) a.tail)
    | inr e ↦
        rw (e, a.first r (ground arith))
          (Linked-frame t u (t r).q_sending (q r) (v.linked r h)
            (λ x m. a.next x (mem-ne r x h m) (one_queue r x h (ground arith) m)))
  ]

  a-Distinct : (r : ℕ) → r < nr_proc → Distinct (q' r)
  a-Distinct r h = elim (Bool-cases (dest == r)) [
    | inl e ↦ rw e (Distinct-append sender (q dest) (v.distinct dest to) (out_of dest to))
    | inr e ↦ rw e (v.distinct r h)
  ]

  abbrev Member : ℕ → ℕ → Type 0
  Member r p = (p < nr_proc) × ((u p).p_flags ≡ sending) × ((u p).p_sendto ≡ r)

  Member-old : (r p : ℕ) → r < nr_proc → has p (q r) ≡ true → Member r p
  Member-old r p h m =
      let (lt, f, to') = v.member r p h m in
      let c = a.core p (mem-ne r p h m) in (lt, c.flags ∙ f, c.sendto ∙ to')

  a-Member : (r p : ℕ) → r < nr_proc → has p (q' r) ≡ true → Member r p
  a-Member r p h m = elim (Bool-cases (dest == r)) [
    | inl e ↦
        let m' : (has p (q dest) || (p == sender)) ≡ true =
          sym (has-append p sender (q dest)) ∙ (rw e at m) in
        subst (λ x. Member x p) (ground arith) (at_dest m')
    | inr e ↦ Member-old r p h (rw e at m)
  ]
    where
      at_dest : (has p (q dest) || (p == sender)) ≡ true → Member dest p
      at_dest m' = elim (Bool-cases (p == sender)) [
        | inl e ↦ subst (Member dest) (sym (ground arith)) (from, a.waits.flags, a.target)
        | inr e ↦ Member-old dest p to (ground arith)
      ]

  a-queued : (p : ℕ) → p < nr_proc → (u p).p_flags ≡ sending → has p (q' (u p).p_sendto) ≡ true
  a-queued p h f = elim (Bool-cases (p == sender)) [
    | inl e ↦
        let here : p ≡ sender = ground arith in
        subst (λ x. has x (q' (u x).p_sendto) ≡ true) (sym here)
          (rw a.target (ground (arith, has-append sender sender (q dest))))
    | inr e ↦
        let c = a.core p (ground arith) in
        let m = v.queued p h (sym c.flags ∙ f) in
        rw c.sendto (ground (arith, has-append p sender (q dest)))
  ]

  a-Ends : ¬ (Leads t sender dest) → (p : ℕ) → p < nr_proc → (n : ℕ) × Ends u n p
  a-Ends no_lead p h =
      let same : (x : ℕ) → x ≢ sender → SameWait (u x) (t x) =
        λ x ne. ((a.core x ne).flags, (a.core x ne).sendto) in
      let (n, e) = v.ends dest to in
      let e' = Ends-avoid t u sender same (λ x. apart (sym x)) no_lead e in
      let (m, d) = v.ends p h in
      Ends-change t u sender same
        (suc n, hop (rw a.waits.flags) (subst (Ends u n) (sym a.target) e')) d

  pub IsAppended-IsValid : ¬ (Leads t sender dest) → IsValid u q'
  IsAppended-IsValid no_lead = record {
    pids = a-pids;
    status = a-Status;
    linked = a-Linked;
    distinct = a-Distinct;
    member = a-Member;
    queued = a-queued;
    ends = a-Ends no_lead;
  }
