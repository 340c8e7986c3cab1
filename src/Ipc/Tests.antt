-- ===== src/Ipc/Tests.antt =====
-- The message calls at concrete states.
use minx.Prelude.{ℕ, ◌≡◌, ◌≢◌, refl, inl, inr, true, false, [], arith, update, ok, stop, panic, ◌⊎◌}
use minx.Const.{any, interrupt}
use minx.Kernel.{Kernel, idle_pcb}
use minx.Ipc.{inform_int}
use minx.Ipc.Recv.{msg_receive}
use minx.Ipc.Send.{msg_send, deadlock}
use minx.Ipc.State.{IsValid, IsReady, Leads, direct}
use minx.Ipc.Chain.{deadlock_lem}
use minx.Ipc.Update.{mark-IsValid}
use minx.Ipc.Deliver.{IsSend, msg_send-deliver, msg_send-panic}
use minx.Ipc.Link.{with_table}
use minx.Ipc.Enqueue.{IsQueued, msg_send-enqueue}
use minx.Ipc.Wait.{IsReceive, IsWaiting}
use minx.Ipc.Receive.{IsReceived}
use minx.Ipc.Outcome.{
  IsInterrupted, msg_receive-interrupt, msg_receive-first, msg_receive-from, msg_receive-wait,
}
use minx.Ipc.Pending.{msg_receive-pending}
use minx.Prelude.{assertion}
use minx.Ipc.Interrupt.{expects, told, waked, marked, inform_int_lem}
use minx.Ipc.Samples.{
  no_queues, start, idle-IsReady, start-IsValid, queued, one_queue, not-Leads, queued-IsValid,
  listening, listening-IsValid,
}

send_5_0 : IsSend listening 5 0 100
send_5_0 = record {
  from = omega arith;
  to = omega arith;
  apart = omega arith;
  buffer = omega arith;
  ready = idle-IsReady 5;
}

msg_send-deliver_example :
    (k' : Kernel) × (msg_send 5 0 100 listening ≡ ok k')
    × IsValid k'.pcb_table no_queues
    × IsReady (k'.pcb_table 0)
    × ((p : ℕ) → p ≢ 0 → k'.pcb_table p ≡ listening.pcb_table p)
    × (k'.memory ≡ update listening.memory 200 (listening.memory 100))
msg_send-deliver_example = msg_send-deliver listening-IsValid send_5_0 refl

send_5_3 : IsSend start 5 3 100
send_5_3 = record {
  from = omega arith;
  to = omega arith;
  apart = omega arith;
  buffer = omega arith;
  ready = idle-IsReady 5;
}

msg_send-enqueue_example :
    (k' : Kernel) × (msg_send 5 3 100 start ≡ ok k') × IsQueued start-IsValid send_5_3 k'
msg_send-enqueue_example =
    msg_send-enqueue start-IsValid send_5_3 1 refl (not-Leads 5) (omega arith) (omega arith) refl
      (omega arith)

-- Process 3 sends back to process 5, which waits for it.
send_3_5 : IsSend queued 3 5 300
send_3_5 = record {
  from = omega arith;
  to = omega arith;
  apart = omega arith;
  buffer = omega arith;
  ready = record { flags = refl; msg = refl; recvfrom = refl; sendto = refl };
}

msg_send-panic_example : msg_send 3 5 300 queued ≡ stop panic
msg_send-panic_example = msg_send-panic queued-IsValid send_3_5 (direct refl refl)

deadlock_lem_example :
    (Leads queued.pcb_table 3 5 × (deadlock 3 5 queued ≡ ok true))
    ⊎ (¬ (Leads queued.pcb_table 3 5) × (deadlock 3 5 queued ≡ ok false))
deadlock_lem_example = deadlock_lem queued queued-IsValid 3 5 (omega arith)

ask : (src : ℕ) → 3 ≢ src → src ≢ 29 → IsReceive queued 3 src 400
ask src apart from = record {
  to = omega arith;
  apart = apart;
  from = from;
  buffer = omega arith;
  ready = record { flags = refl; msg = refl; recvfrom = refl; sendto = refl };
}

-- An interrupt came for process 2.
abbrev interrupted : Kernel
interrupted = with_table start (update idle_pcb 2 (record (idle_pcb 2) { has_int_msg = 1 }))

interrupted-IsValid : IsValid interrupted.pcb_table no_queues
interrupted-IsValid =
    mark-IsValid start-IsValid 2 (record (idle_pcb 2) { has_int_msg = 1 }) refl refl refl
      (refl, refl) (inl (record { flags = refl; msg = refl; recvfrom = refl; sendto = refl }))

ask_2 : IsReceive interrupted 2 interrupt 400
ask_2 = record {
  to = omega arith;
  apart = omega arith;
  from = omega arith;
  buffer = omega arith;
  ready = record { flags = refl; msg = refl; recvfrom = refl; sendto = refl };
}

msg_receive-interrupt_case :
    (k' : Kernel) × (msg_receive 2 interrupt 400 interrupted ≡ ok k')
    × IsInterrupted interrupted k' no_queues 2 400
msg_receive-interrupt_case =
    msg_receive-interrupt interrupted-IsValid ask_2 (omega arith) (inr refl)

ask_from_7 : IsReceive interrupted 2 7 400
ask_from_7 = record {
  to = omega arith;
  apart = omega arith;
  from = omega arith;
  buffer = omega arith;
  ready = record { flags = refl; msg = refl; recvfrom = refl; sendto = refl };
}

msg_receive-pending_case : msg_receive 2 7 400 interrupted ≡ stop assertion
msg_receive-pending_case =
    msg_receive-pending interrupted-IsValid ask_from_7 1 (omega arith) (omega arith) refl
      (omega arith) (omega arith) refl (omega arith)

msg_receive-first_example :
    (k' : Kernel) × (msg_receive 3 any 400 queued ≡ ok k') × IsReceived queued k' one_queue 5 3 400
msg_receive-first_example =
    msg_receive-first queued-IsValid (ask any (omega arith) (omega arith)) 5 [] refl refl refl

msg_receive-from_example :
    (k' : Kernel) × (msg_receive 3 5 400 queued ≡ ok k') × IsReceived queued k' one_queue 5 3 400
msg_receive-from_example =
    msg_receive-from queued-IsValid (ask 5 (omega arith) (omega arith)) (omega arith) refl

msg_receive-wait_case :
    (k' : Kernel) × (msg_receive 3 interrupt 400 queued ≡ ok k')
    × IsWaiting queued-IsValid (ask interrupt (omega arith) (omega arith)) k'
msg_receive-wait_case =
    msg_receive-wait queued-IsValid (ask interrupt (omega arith) (omega arith)) 1 refl
      (inr (inr refl)) (omega arith) (omega arith) refl (omega arith)

inform_int_lem_example :
    (k' : Kernel) × (inform_int 0 listening ≡ ok k')
    × IsValid k'.pcb_table no_queues
    × (((expects listening 0 ≡ true) × IsReady (told listening 0) × (k' ≡ waked listening 0))
        ⊎ ((expects listening 0 ≡ false) × (k' ≡ marked listening 0)))
inform_int_lem_example = inform_int_lem listening-IsValid 0 (omega arith)
