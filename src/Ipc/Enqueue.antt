-- ===== src/Ipc/Enqueue.antt =====
-- `msg_send` to a process that is not waiting for the message.
use mathlib.Core.Path.{subst}
use minx.Prelude.{
  ℕ, suc, ◌<◌, ◌≤◌, ◌≡◌, ◌≢◌, refl, sym, ap, ◌∙◌, false, List, [], ◌∷◌, ◌++◌, none, some, arith,
  length, update, update_ne, bind-ok, ok, length-le_of_Distinct,
}
use minx.Prelude.Int.{pos, ◌≤ℤ◌}
use minx.Const.{nr_proc}
use minx.Kernel.{Pcb, Kernel}
use minx.Sched.{schedule}
use minx.Sched.Pick.{CanRun, IsBest}
use minx.Sched.Run.{IsScheduled, schedule-IsScheduled}
use minx.Ipc.Send.{append_sender, enqueue, link_sender, find_last, msg_send, awaits}
use minx.Ipc.State.{Linked, Leads, IsValid}
use minx.Ipc.Queue.{last_of, find_last-last_of, Linked-frame}
use minx.Ipc.Append.{SameCore, IsAppended, IsAppended-IsValid}
use minx.Ipc.Deliver.{IsSend, msg_send-safe}
use minx.Ipc.Link.{
  starts, linked_in, set_first, set_next, with_table, SendsTo, first-IsAppended, last-IsAppended,
  block_sender-ok, link_sender-ok,
}

append_sender-first :
    (k : Kernel) (sender dest : ℕ)
    → (k.pcb_table dest).q_sending ≡ none
    → append_sender sender dest k
      ≡ ok (with_table k (update k.pcb_table dest (set_first sender (k.pcb_table dest))))
unfolding append_sender
append_sender-first k sender dest e = rw (e, append_sender)

append_sender-last :
    (k : Kernel) (sender dest x l : ℕ)
    → (k.pcb_table dest).q_sending ≡ some x
    → find_last (suc nr_proc) x k ≡ ok l
    → append_sender sender dest k
      ≡ ok (with_table k (update k.pcb_table l (set_next sender (k.pcb_table l))))
unfolding append_sender
append_sender-last k sender dest x l e h = rw (e, append_sender, h)

module _ {k : Kernel} {q : ℕ → List ℕ} (v : IsValid k.pcb_table q) {sender dest m : ℕ}
    (c : IsSend k sender dest m) where
  abbrev started : ℕ → Pcb
  started = update k.pcb_table sender (starts (k.pcb_table sender) dest m)

  started-dest : started dest ≡ k.pcb_table dest
  started-dest = update_ne k.pcb_table sender dest (starts (k.pcb_table sender) dest m) c.apart

  -- `u` is the table that `link_sender` leaves.
  record IsLinked (u : ℕ → Pcb) : Type 0 where
    runs : link_sender sender dest m k ≡ ok (with_table k u)
    appended : IsAppended k.pcb_table u q sender dest
    msg : (u sender).p_msg ≡ m

  link-first : q dest ≡ [] → (u : ℕ → Pcb) × IsLinked u
  link-first e =
      let ptr : (k.pcb_table dest).q_sending ≡ none = rw e at (v.linked dest c.to) in
      (
        linked_in k.pcb_table sender dest m dest (set_first sender),
        record {
          runs = link_sender-ok k sender dest m dest (set_first sender) c.ready.flags (
              append_sender-first (with_table k started) sender dest
                (ap (λ x. x.q_sending) started-dest ∙ ptr));
          appended = first-IsAppended v sender dest m c.from c.to c.ready c.apart c.buffer e;
          msg = ground arith;
        },
      )

  short : length (q dest) ≤ nr_proc
  short =
      length-le_of_Distinct nr_proc (q dest) (v.distinct dest c.to)
        (λ p h. (v.member dest p c.to h).0)

  next_started : (x : ℕ) → (started x).next_sending ≡ (k.pcb_table x).next_sending
  next_started x = ground arith

  link-last : (x : ℕ) (xs : List ℕ) → q dest ≡ x ∷ xs → (u : ℕ → Pcb) × IsLinked u
  link-last x xs e =
      let l : Linked k.pcb_table (k.pcb_table dest).q_sending (x ∷ xs) =
        rw e at (v.linked dest c.to) in
      let l' : Linked started (started x).next_sending xs = rw (next_started x) (
        Linked-frame k.pcb_table started (k.pcb_table x).next_sending xs l.1
          (λ y h. next_started y)) in
      (
        linked_in k.pcb_table sender dest m (last_of x xs) (set_next sender),
        record {
          runs = link_sender-ok k sender dest m (last_of x xs) (set_next sender) c.ready.flags (
              append_sender-last (with_table k started) sender dest x (last_of x xs)
                (ap (λ y. y.q_sending) started-dest ∙ l.0)
                (find_last-last_of (with_table k started) nr_proc x xs l'
                  (omega (arith, short, ap length e))));
          appended = last-IsAppended v sender dest m c.from c.to c.ready c.apart c.buffer x xs e;
          msg = ground arith;
        },
      )

  link : (xs : List ℕ) → q dest ≡ xs → (u : ℕ → Pcb) × IsLinked u
  link [] e = link-first e
  link (x ∷ xs) e = link-last x xs e

  -- What a send that has to wait leaves behind.
  pub record IsQueued (k' : Kernel) : Type 0 where
    pub valid : IsValid k'.pcb_table (update q dest (q dest ++ sender ∷ []))
    pub sends : SendsTo dest (k'.pcb_table sender)
    pub msg : (k'.pcb_table sender).p_msg ≡ m
    pub others : (p : ℕ) → p ≢ sender → SameCore (k'.pcb_table p) (k.pcb_table p)
    pub memory : k'.memory ≡ k.memory
    pub chosen : IsBest k' nr_proc k'.pcb_ptr

  scheduled-IsQueued :
      (u : ℕ → Pcb) (k' : Kernel)
      → ¬ (Leads k.pcb_table sender dest)
      → IsLinked u
      → IsScheduled (with_table k u) k'
      → IsQueued k'
  scheduled-IsQueued u k' no_lead l s =
      let same : k'.pcb_table ≡ u = ap (λ x. x.pcb_table) s.frame in
      record {
        valid =
            subst (λ x. IsValid x (update q dest (q dest ++ sender ∷ []))) (sym same)
              (IsAppended-IsValid v sender dest c.from c.to c.ready c.apart l.appended no_lead);
        sends = rw same (l.appended.waits, l.appended.target);
        msg = rw same l.msg;
        others = rw same l.appended.core;
        memory = ap (λ x. x.memory) s.frame;
        chosen = s.best;
      }

  enqueue-ok :
      (u : ℕ → Pcb) (k' : Kernel)
      → IsLinked u
      → schedule 2 (with_table k u) ≡ ok k'
      → SendsTo dest (k'.pcb_table sender)
      → enqueue sender dest m k ≡ ok k'
  unfolding enqueue
  enqueue-ok u k' l run s =
      bind-ok _ _ _ l.runs
      ∙ block_sender-ok (with_table k u) k' sender dest (l.appended.waits, l.appended.target) run s

  -- In a well-formed state, for a caller that is not blocked, has a buffer and sends to another
  -- process: if the receiver waits for no message of this sender, sending to it closes no cycle of
  -- waiting senders, and some other process may run and has a positive priority, then the send
  -- succeeds and no assertion fails; the sender is blocked at the end of the receiver's sending
  -- queue with its message, the table is well-formed for the queues so changed, what every other
  -- process waits for and all messages are unchanged, and a process with the most ticks of those
  -- that may run is next.
  pub msg_send-enqueue :
      (w : ℕ)
      → awaits (k.pcb_table dest) sender ≡ false
      → ¬ (Leads k.pcb_table sender dest)
      → w < nr_proc
      → w ≢ sender
      → CanRun k w
      → pos 1 ≤ℤ k.priority w
      → (k' : Kernel) × (msg_send sender dest m k ≡ ok k') × IsQueued k'
  msg_send-enqueue w no_wait no_lead h ne r pr =
      let (u, l) = link (q dest) refl in
      let (k', run, s) =
        schedule-IsScheduled 0 (with_table k u) w h ((l.appended.core w ne).flags ∙ r) pr in
      let d = scheduled-IsQueued u k' no_lead l s in
      (k', msg_send-safe v c no_lead ∙ rw no_wait (enqueue-ok u k' l run d.sends), d)
