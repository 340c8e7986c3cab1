-- ===== src/Ipc/Wait.antt =====
-- `msg_receive` where nobody is sending: the receiver is blocked.
use mathlib.Core.Path.{subst}
use minx.Prelude.{
  ℕ, ◌<◌, ◌≡◌, ◌≢◌, refl, sym, ap, ◌∙◌, inr, List, arith, update, update_self, update_ne, ne→==,
  bit_or, ok,
}
use minx.Prelude.Int.{pos, ◌≤ℤ◌}
use minx.Const.{nr_proc, receiving, no_task}
use minx.Kernel.{Pcb, Kernel}
use minx.Sched.{schedule}
use minx.Sched.Pick.{CanRun, IsBest}
use minx.Sched.Run.{IsScheduled, schedule-IsScheduled}
use minx.Ipc.Base.{block}
use minx.Ipc.Recv.{block_receiver, await_message}
use minx.Ipc.State.{IsReady, IsReceiving, IsValid}
use minx.Ipc.Update.{update-IsValid}

-- The entry of a process that starts to wait for `src`.
abbrev pub awaiting : Pcb → ℕ → ℕ → Pcb
awaiting r src m = record r { p_flags = bit_or r.p_flags receiving; p_msg = m; p_recvfrom = src }

-- Process `receiver` is not blocked, and asks for a message of `src` at `m`.
pub record IsReceive (k : Kernel) (receiver src m : ℕ) : Type 0 where
  pub to : receiver < nr_proc
  pub apart : receiver ≢ src
  pub from : src ≢ no_task
  pub buffer : m ≢ 0
  pub ready : IsReady (k.pcb_table receiver)

block_receiver-ok :
    (k k' : Kernel) (receiver : ℕ)
    → IsReceiving (k.pcb_table receiver)
    → schedule 2 k ≡ ok k'
    → IsReceiving (k'.pcb_table receiver)
    → (k'.pcb_table receiver).has_int_msg ≡ 0
    → block_receiver receiver k ≡ ok k'
unfolding block_receiver block
block_receiver-ok k k' receiver r sch r' i =
    rw (r.flags, sch, r'.flags, ne→== _ _ r'.msg, ne→== _ _ r'.recvfrom, r'.sendto, i)

awaiting-IsReceiving :
    (r : Pcb) (src m : ℕ)
    → IsReady r
    → src ≢ no_task
    → m ≢ 0
    → r.has_int_msg ≡ 0
    → IsReceiving (awaiting r src m)
awaiting-IsReceiving r src m s ne b i = record {
  flags = rw s.flags;
  msg = b;
  recvfrom = ne;
  sendto = s.sendto;
  quiet = λ _. i;
}

module _ {k : Kernel} {q : ℕ → List ℕ} (v : IsValid k.pcb_table q) {receiver src m : ℕ}
    (c : IsReceive k receiver src m) where
  abbrev waiting : ℕ → Pcb
  waiting = update k.pcb_table receiver (awaiting (k.pcb_table receiver) src m)

  -- What a receive that has to wait leaves behind.
  pub record IsWaiting (k' : Kernel) : Type 0 where
    pub valid : IsValid k'.pcb_table q
    pub waits : IsReceiving (k'.pcb_table receiver)
    pub entry : k'.pcb_table receiver ≡ awaiting (k.pcb_table receiver) src m
    pub others : (p : ℕ) → p ≢ receiver → k'.pcb_table p ≡ k.pcb_table p
    pub memory : k'.memory ≡ k.memory
    pub chosen : IsBest k' nr_proc k'.pcb_ptr

  waiting-IsValid : IsReceiving (awaiting (k.pcb_table receiver) src m) → IsValid waiting q
  waiting-IsValid r = update-IsValid v receiver (awaiting (k.pcb_table receiver) src m) (record {
    pid = refl;
    first = refl;
    next = refl;
    status = inr (inr r);
    was = omega (arith, c.ready.flags);
    now = omega (arith, r.flags);
  })

  scheduled-IsWaiting :
      (k' : Kernel)
      → (k.pcb_table receiver).has_int_msg ≡ 0
      → IsScheduled (record k { pcb_table = waiting }) k'
      → IsWaiting k'
  scheduled-IsWaiting k' i s =
      let r = awaiting-IsReceiving (k.pcb_table receiver) src m c.ready c.from c.buffer i in
      let same : k'.pcb_table ≡ waiting = ap (λ x. x.pcb_table) s.frame in
      let here : k'.pcb_table receiver ≡ awaiting (k.pcb_table receiver) src m =
        ap (λ t. t receiver) same
        ∙ update_self k.pcb_table receiver (awaiting (k.pcb_table receiver) src m) in
      record {
        valid = subst (λ x. IsValid x q) (sym same) (waiting-IsValid r);
        waits = subst IsReceiving (sym here) r;
        entry = here;
        others = λ p ne.
            ap (λ t. t p) same
            ∙ update_ne k.pcb_table receiver p (awaiting (k.pcb_table receiver) src m)
                (λ e. ne (sym e));
        memory = ap (λ x. x.memory) s.frame;
        chosen = s.best;
      }

  pub await_message-IsWaiting :
      (w : ℕ)
      → (k.pcb_table receiver).has_int_msg ≡ 0
      → w < nr_proc
      → w ≢ receiver
      → CanRun k w
      → pos 1 ≤ℤ k.priority w
      → (k' : Kernel) × (await_message receiver src m k ≡ ok k') × IsWaiting k'
  unfolding await_message
  await_message-IsWaiting w i h ne r pr =
      let other : waiting w ≡ k.pcb_table w =
        update_ne k.pcb_table receiver w (awaiting (k.pcb_table receiver) src m)
          (λ e. ne (sym e)) in
      let (k', run, s) =
        schedule-IsScheduled 0 (record k { pcb_table = waiting }) w h
          (ap (λ x. x.p_flags) other ∙ r) pr in
      let d = scheduled-IsWaiting k' i s in
      let start = awaiting-IsReceiving (k.pcb_table receiver) src m c.ready c.from c.buffer i in
      (
        k',
        block_receiver-ok (record k { pcb_table = waiting }) k' receiver
            (subst IsReceiving
              (sym (update_self k.pcb_table receiver (awaiting (k.pcb_table receiver) src m)))
              start)
            run d.waits (ap (λ x. x.has_int_msg) d.entry ∙ i),
        d,
      )
