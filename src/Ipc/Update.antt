-- ===== src/Ipc/Update.antt =====
-- A change of one process that is not sending before or after keeps the table well-formed.
use mathlib.Core.Path.{subst}
use minx.Prelude.{
  ℕ, ◌<◌, ◌≡◌, ◌≢◌, sym, ap, ◌∙◌, inl, inr, true, false, List, arith, has, has_flag, ◌==◌,
  Bool-cases, update, update_self, update_ne,
}
use minx.Const.{nr_proc, sending}
use minx.Kernel.{Pcb}
use minx.Ipc.State.{Status, Linked, Ends, last, IsValid, sending-flag_of_ne}
use minx.Ipc.Waiting.{Ends-change, Ends-same, SameWait}
use minx.Ipc.Queue.{Linked-frame}

-- Entry `c` may take the place of entry `d`.
pub record Replaces (c d : Pcb) : Type 0 where
  pub pid : c.pid ≡ d.pid
  pub first : c.q_sending ≡ d.q_sending
  pub next : c.next_sending ≡ d.next_sending
  pub status : Status c
  pub was : d.p_flags ≢ sending
  pub now : c.p_flags ≢ sending

-- A field that the new entry has from the old one is unchanged everywhere.
update-field :
    {A : Type 0} (t : ℕ → Pcb) (s : ℕ) (c : Pcb) (f : Pcb → A)
    → f c ≡ f (t s)
    → (p : ℕ) → f (update t s c p) ≡ f (t p)
update-field t s c f e p = elim (Bool-cases (s == p)) [
  | inl here ↦ rw here (e ∙ ap (λ x. f (t x)) (ground arith))
  | inr there ↦ rw there
]

-- A change of one process that leaves it waiting as before keeps the table well-formed.
pub mark-IsValid :
    {t : ℕ → Pcb} {q : ℕ → List ℕ} (v : IsValid t q) (s : ℕ) (c : Pcb)
    → c.pid ≡ (t s).pid
    → c.q_sending ≡ (t s).q_sending
    → c.next_sending ≡ (t s).next_sending
    → SameWait c (t s)
    → Status c
    → IsValid (update t s c) q
mark-IsValid {t} {q} v s c pid first next wait st =
    let u = update t s c in
    let flags = update-field t s c (λ x. x.p_flags) wait.0 in
    let target = update-field t s c (λ x. x.p_sendto) wait.1 in
    record {
      pids = λ p h. update-field t s c (λ x. x.pid) pid p ∙ v.pids p h;
      status = λ p h. elim (Bool-cases (s == p)) [
        | inl here ↦ rw here st
        | inr there ↦ rw there (v.status p h)
      ];
      linked = λ a h.
          subst (λ x. Linked u x (q a)) (sym (update-field t s c (λ x. x.q_sending) first a))
            (Linked-frame t u (t a).q_sending (q a) (v.linked a h)
              (λ x m. update-field t s c (λ y. y.next_sending) next x));
      distinct = v.distinct;
      member = λ a p h m. let (lt, f, to) = v.member a p h m in (lt, flags p ∙ f, target p ∙ to);
      queued = λ p h f.
          subst (λ x. has p (q x) ≡ true) (sym (target p)) (v.queued p h (sym (flags p) ∙ f));
      ends = λ p h. let (n, e) = v.ends p h in (n, Ends-same t u (λ x. (flags x, target x)) e);
    }

module _ {t : ℕ → Pcb} {q : ℕ → List ℕ} (v : IsValid t q) (s : ℕ) (c : Pcb)
    (r : Replaces c (t s)) where
  abbrev u : ℕ → Pcb
  u = update t s c

  u-field : {A : Type 0} (f : Pcb → A) → f c ≡ f (t s) → (p : ℕ) → f (u p) ≡ f (t p)
  u-field f e p = update-field t s c f e p

  u-same : (p : ℕ) → p ≢ s → u p ≡ t p
  u-same p ne = update_ne t s p c (λ e. ne (sym e))

  u-Status : (p : ℕ) → p < nr_proc → Status (u p)
  u-Status p h = elim (Bool-cases (s == p)) [
    | inl here ↦ rw here r.status
    | inr there ↦ rw there (v.status p h)
  ]

  -- A sending process is not the one that changes.
  u-sending : (p : ℕ) → (t p).p_flags ≡ sending → u p ≡ t p
  u-sending p f = u-same p (λ e. r.was (subst (λ x. (t x).p_flags ≡ sending) e f))

  sending-u : (p : ℕ) → (u p).p_flags ≡ sending → u p ≡ t p
  sending-u p f = elim (Bool-cases (s == p)) [
    | inl here ↦ absurd (r.now (rw here at f))
    | inr there ↦ rw there
  ]

  u-member :
      (a p : ℕ)
      → a < nr_proc
      → has p (q a) ≡ true
      → (p < nr_proc) × ((u p).p_flags ≡ sending) × ((u p).p_sendto ≡ a)
  u-member a p h m =
      let (lt, f, to) = v.member a p h m in
      let e = u-sending p f in (lt, ap (λ x. x.p_flags) e ∙ f, ap (λ x. x.p_sendto) e ∙ to)

  u-queued : (p : ℕ) → p < nr_proc → (u p).p_flags ≡ sending → has p (q (u p).p_sendto) ≡ true
  u-queued p h f = let e = sending-u p f in rw e (v.queued p h (rw e at f))

  u-Ends : (p : ℕ) → p < nr_proc → (n : ℕ) × Ends u n p
  u-Ends p h =
      let (n, e) = v.ends p h in
      Ends-change t u s
        (λ x ne. (ap (λ y. y.p_flags) (u-same x ne), ap (λ y. y.p_sendto) (u-same x ne)))
        (
          0,
          last (
              subst (λ y. has_flag y.p_flags sending ≡ false) (sym (update_self t s c))
                (sending-flag_of_ne c r.status r.now)),
        )
        e

  pub update-IsValid : IsValid u q
  update-IsValid = record {
    pids = λ p h. u-field (λ x. x.pid) r.pid p ∙ v.pids p h;
    status = u-Status;
    linked = λ a h.
        subst (λ x. Linked u x (q a)) (sym (u-field (λ x. x.q_sending) r.first a))
          (Linked-frame t u (t a).q_sending (q a) (v.linked a h)
            (λ x m. u-field (λ y. y.next_sending) r.next x));
    distinct = v.distinct;
    member = u-member;
    queued = u-queued;
    ends = u-Ends;
  }
