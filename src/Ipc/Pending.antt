-- ===== src/Ipc/Pending.antt =====
-- `msg_receive` from one process while an interrupt is pending for the receiver.
use minx.Prelude.{
  ℕ, ◌<◌, ◌≡◌, ◌≢◌, refl, sym, ap, ◌∙◌, false, List, has, update, update_self, update_ne, ne→==, ok,
  stop, assertion,
}
use minx.Prelude.Int.{pos, ◌≤ℤ◌}
use minx.Const.{nr_proc, receiving, no_task}
use minx.Kernel.{Pcb, Kernel}
use minx.Sched.{schedule}
use minx.Sched.Pick.{CanRun}
use minx.Sched.Run.{schedule-IsScheduled}
use minx.Ipc.Base.{block}
use minx.Ipc.Recv.{msg_receive, await_message, block_receiver}
use minx.Ipc.State.{IsValid}
use minx.Ipc.Wait.{IsReceive, awaiting}
use minx.Ipc.Outcome.{receive-await}

-- The entry of a process that has just been told to wait, with the interrupt still pending.
record IsBlocked (r : Pcb) : Type 0 where
  flags : r.p_flags ≡ receiving
  msg : r.p_msg ≢ 0
  recvfrom : r.p_recvfrom ≢ no_task
  sendto : r.p_sendto ≡ no_task
  pending : r.has_int_msg ≢ 0

block_receiver-stop :
    (k k' : Kernel) (receiver : ℕ)
    → (k.pcb_table receiver).p_flags ≡ receiving
    → schedule 2 k ≡ ok k'
    → IsBlocked (k'.pcb_table receiver)
    → block_receiver receiver k ≡ stop assertion
unfolding block_receiver block
block_receiver-stop k k' receiver f sch r =
    rw (f, sch, r.flags, ne→== _ _ r.msg, ne→== _ _ r.recvfrom, r.sendto, ne→== _ _ r.pending) refl

module _ {k : Kernel} {q : ℕ → List ℕ} (v : IsValid k.pcb_table q) {receiver src m : ℕ}
    (c : IsReceive k receiver src m) where
  abbrev r : Pcb
  r = awaiting (k.pcb_table receiver) src m

  -- In a well-formed state, for a caller that is not blocked, has a buffer and has an interrupt
  -- pending: a receive from one process that is not sending to the caller fails an assertion, where
  -- some other process may run and has a positive priority.
  pub msg_receive-pending :
      (w : ℕ)
      → (k.pcb_table receiver).has_int_msg ≢ 0
      → src < nr_proc
      → has src (q receiver) ≡ false
      → w < nr_proc
      → w ≢ receiver
      → CanRun k w
      → pos 1 ≤ℤ k.priority w
      → msg_receive receiver src m k ≡ stop assertion
  unfolding await_message
  msg_receive-pending w pending lt out h ne run pr =
      let waiting = update k.pcb_table receiver r in
      let here : waiting receiver ≡ r = update_self k.pcb_table receiver r in
      let other : waiting w ≡ k.pcb_table w =
        update_ne k.pcb_table receiver w r (λ e. ne (sym e)) in
      let (k', done, s) =
        schedule-IsScheduled 0 (record k { pcb_table = waiting }) w h
          (ap (λ x. x.p_flags) other ∙ run) pr in
      let there : k'.pcb_table receiver ≡ r = ap (λ x. x.pcb_table receiver) s.frame ∙ here in
      let flags : r.p_flags ≡ receiving = rw c.ready.flags in
      receive-await v c lt out
      ∙ block_receiver-stop (record k { pcb_table = waiting }) k' receiver
          (ap (λ x. x.p_flags) here ∙ flags) done
          (record {
            flags = ap (λ x. x.p_flags) there ∙ flags;
            msg = λ e. c.buffer (sym (ap (λ x. x.p_msg) there) ∙ e);
            recvfrom = λ e. c.from (sym (ap (λ x. x.p_recvfrom) there) ∙ e);
            sendto = ap (λ x. x.p_sendto) there ∙ c.ready.sendto;
            pending = λ e. pending (sym (ap (λ x. x.has_int_msg) there) ∙ e);
          })
