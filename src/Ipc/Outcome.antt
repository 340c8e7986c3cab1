-- ===== src/Ipc/Outcome.antt =====
-- `msg_receive` as a whole: what a receive takes, and when it waits.

use minx.Prelude.{
  ℕ, ◌<◌, ◌≡◌, ◌≢◌, refl, sym, ap, ◌∙◌, ◌⊎◌, inl, inr, Bool, true, false, List, [], ◌∷◌, arith, has,
  has_flag, ◌==◌, ◌&&◌, Bool-cases, update, ok, ne→==,
}
use minx.Prelude.Int.{pos, ◌≤ℤ◌}
use minx.Const.{nr_proc, sending, any, interrupt, hard_int}
use minx.Kernel.{Pcb, Kernel, zero_msg}
use minx.Sched.Pick.{CanRun}
use minx.Ipc.Base.{set_pcb}
use minx.Ipc.Recv.{msg_receive, receive_any, receive_from, take_interrupt, await_message}
use minx.Ipc.State.{Linked, IsValid, sender_of_flag}
use minx.Ipc.Update.{mark-IsValid}
use minx.Ipc.Wait.{IsReceive, IsWaiting, await_message-IsWaiting}
use minx.Ipc.Receive.{IsReceived, receive_any-ok, receive_from-ok}

-- `k'` is `k` after the pending interrupt has been told to `receiver` at `m`.
pub record IsInterrupted (k k' : Kernel) (q : ℕ → List ℕ) (receiver m : ℕ) : Type 0 where
  pub valid : IsValid k'.pcb_table q
  pub frame : k' ≡ record k {
    pcb_table = update k.pcb_table receiver (record (k.pcb_table receiver) { has_int_msg = 0 });
    memory = update k.memory m (record zero_msg { source = interrupt; type = hard_int });
  }

module _ {k : Kernel} {q : ℕ → List ℕ} (v : IsValid k.pcb_table q) {receiver src m : ℕ}
    (c : IsReceive k receiver src m) where
  abbrev r : Pcb
  r = k.pcb_table receiver

  -- In a well-formed state, for a caller that is not blocked, has a buffer and has an interrupt
  -- pending: a receive from any process, or of interrupts, takes the interrupt before any message.
  -- It succeeds with no assertion failed, the buffer says that it is a hardware interrupt, the
  -- interrupt is no longer pending, the sending queues stay, and nothing else has changed.
  pub msg_receive-interrupt :
      r.has_int_msg ≢ 0
      → (src ≡ any) ⊎ (src ≡ interrupt)
      → (k' : Kernel) × (msg_receive receiver src m k ≡ ok k') × IsInterrupted k k' q receiver m
  unfolding msg_receive take_interrupt
  msg_receive-interrupt pending who = (
    set_pcb
        (record k {
          memory = update k.memory m (record zero_msg { source = interrupt; type = hard_int });
        })
        receiver (record r { has_int_msg = 0 }),
    rw (v.pids receiver c.to, ne→== _ _ c.apart)
        (ground (arith, c.buffer, c.ready.flags, c.ready.msg, c.ready.recvfrom, c.ready.sendto)),
    record {
      valid =
          mark-IsValid v receiver (record r { has_int_msg = 0 }) refl refl refl (refl, refl)
            (inl (record {
              flags = c.ready.flags;
              msg = c.ready.msg;
              recvfrom = c.ready.recvfrom;
              sendto = c.ready.sendto;
            }));
      frame = refl;
    },
  )

  -- With no interrupt taken, a receive from any process looks at the queue.
  dispatch_any :
      r.has_int_msg ≡ 0 → src ≡ any → msg_receive receiver src m k ≡ receive_any receiver m k
  unfolding msg_receive
  dispatch_any quiet e = rw (v.pids receiver c.to, ne→== _ _ c.apart, quiet, e)

  dispatch_from : src < nr_proc → msg_receive receiver src m k ≡ receive_from receiver src m k
  unfolding msg_receive
  dispatch_from lt = rw (v.pids receiver c.to, ne→== _ _ c.apart) (ground arith)

  -- In a well-formed state, for a caller that is not blocked, has a buffer and has no interrupt
  -- pending: a receive from any process takes the message of the first process in its sending
  -- queue. No assertion fails; the message is copied to the buffer, its sender leaves the queue and
  -- is no longer blocked, the table is well-formed for the queues so changed, and what every other
  -- process waits for is unchanged.
  pub msg_receive-first :
      (s : ℕ) (xs : List ℕ)
      → r.has_int_msg ≡ 0
      → src ≡ any
      → q receiver ≡ s ∷ xs
      → (k' : Kernel) × (msg_receive receiver src m k ≡ ok k') × IsReceived k k' q s receiver m
  msg_receive-first s xs quiet e queue =
      let (k', run, d) = receive_any-ok k v receiver m c.to c.buffer c.ready s xs queue in
      (k', dispatch_any quiet e ∙ run, d)

  -- In a well-formed state, for a caller that is not blocked, has a buffer and does not name
  -- itself: a receive from one process takes its message if it waits in the sending queue, at any
  -- place of it. No assertion fails; the message is copied to the buffer, its sender leaves the
  -- queue and is no longer blocked, the table is well-formed for the queues so changed, and what
  -- every other process waits for is unchanged.
  pub msg_receive-from :
      src < nr_proc
      → has src (q receiver) ≡ true
      → (k' : Kernel) × (msg_receive receiver src m k ≡ ok k') × IsReceived k k' q src receiver m
  msg_receive-from lt mem =
      let (k', run, d) = receive_from-ok k v receiver m c.to c.buffer c.ready src mem in
      (k', dispatch_from lt ∙ run, d)

  -- There is no message for the receiver.
  abbrev pub NoMessage : Type 0
  NoMessage =
      ((src ≡ any) × (q receiver ≡ []))
      ⊎ (((src < nr_proc) × (has src (q receiver) ≡ false)) ⊎ (src ≡ interrupt))

  abbrev sends_here : Bool
  sends_here = has_flag (k.pcb_table src).p_flags sending && ((k.pcb_table src).p_sendto == r.pid)

  not_sending : src < nr_proc → has src (q receiver) ≡ false → sends_here ≡ false
  not_sending lt out = elim (Bool-cases sends_here) [
    | inl e ↦
        let s = sender_of_flag (k.pcb_table src) (v.status src lt) (ground arith) in
        let here : (k.pcb_table src).p_sendto ≡ receiver = ground (arith, v.pids receiver c.to) in
        cc (v.queued src lt s.flags, out, ap (λ x. has src (q x)) here)
    | inr e ↦ e
  ]

  from-await :
      src < nr_proc
      → has src (q receiver) ≡ false
      → receive_from receiver src m k ≡ await_message receiver src m k
  unfolding receive_from
  from-await lt out = rw (not_sending lt out)

  pub receive-await :
      src < nr_proc
      → has src (q receiver) ≡ false
      → msg_receive receiver src m k ≡ await_message receiver src m k
  receive-await lt out = dispatch_from lt ∙ from-await lt out

  any-await :
      q receiver ≡ [] → src ≡ any → receive_any receiver m k ≡ await_message receiver src m k
  unfolding receive_any
  any-await e who =
      let l : Linked k.pcb_table r.q_sending [] = rw e at (v.linked receiver c.to) in
      rw (l, receive_any) (ap (λ x. await_message receiver x m k) (sym who))

  dispatch_await :
      r.has_int_msg ≡ 0 → NoMessage → msg_receive receiver src m k ≡ await_message receiver src m k
  unfolding msg_receive
  dispatch_await quiet (inl a) = dispatch_any quiet a.0 ∙ any-await a.1 a.0
  dispatch_await quiet (inr (inl a)) = receive-await a.0 a.1
  dispatch_await quiet (inr (inr a)) = rw (v.pids receiver c.to, ne→== _ _ c.apart, quiet, a)

  -- In a well-formed state, for a caller that is not blocked, has a buffer and has no interrupt
  -- pending: if there is no message for it, and some other process may run and has a positive
  -- priority, the receive succeeds with no assertion failed; the receiver is blocked with its
  -- buffer and what it waits for, no other entry and no message has changed, and a process with the
  -- most ticks of those that may run is next.
  pub msg_receive-wait :
      (w : ℕ)
      → r.has_int_msg ≡ 0
      → NoMessage
      → w < nr_proc
      → w ≢ receiver
      → CanRun k w
      → pos 1 ≤ℤ k.priority w
      → (k' : Kernel) × (msg_receive receiver src m k ≡ ok k') × IsWaiting v c k'
  msg_receive-wait w quiet none_there h ne run pr =
      let (k', e, d) = await_message-IsWaiting v c w quiet h ne run pr in
      (k', dispatch_await quiet none_there ∙ e, d)
