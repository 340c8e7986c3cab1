-- ===== src/Ipc/Samples.antt =====
-- Concrete states of the kernel: all processes idle, process 5 in the queue of process 3, and
-- process 0 waiting for anyone.
use minx.Prelude.{ℕ, ◌≡◌, refl, inl, inr, List, [], ◌∷◌, arith, update, ok}
use minx.Prelude.Int.{pos}
use minx.Const.{send, any}
use minx.Kernel.{Kernel, idle_pcb, zero_msg}
use minx.Ipc.{sys_sendrec}
use minx.Ipc.Steps.{CanCall, stamped}
use minx.Ipc.State.{IsValid, IsReady, IsReceiving, last, Leads, direct, via}
use minx.Ipc.Update.{update-IsValid}
use minx.Ipc.Deliver.{IsSend}
use minx.Ipc.Append.{IsAppended-IsValid}
use minx.Ipc.Link.{linked_in, set_first, first-IsAppended, with_table}
use minx.Ipc.Enqueue.{msg_send-enqueue}
use minx.Ipc.Wait.{awaiting}

abbrev pub no_queues : ℕ → List ℕ
no_queues _ = []

-- The state that `kernelMain` means to leave: nobody is blocked, and everyone has 30 ticks.
abbrev pub start : Kernel
start = record {
  pcb_table = idle_pcb;
  ticks = λ _. pos 30;
  priority = λ _. pos 30;
  pcb_ptr = 0;
  memory = λ _. zero_msg;
  int_re_enter = 0;
  ticks_count = 0;
  key_pressed = 0;
}

pub idle-IsReady : (p : ℕ) → IsReady (idle_pcb p)
idle-IsReady p = record { flags = refl; msg = refl; recvfrom = refl; sendto = refl }

pub start-IsValid : IsValid start.pcb_table no_queues
start-IsValid = record {
  pids = λ p h. refl;
  status = λ p h. inl (idle-IsReady p);
  linked = λ r h. refl;
  distinct = λ r h. tt;
  member = λ r p h m. cc;
  queued = λ p h f. absurd (omega (arith, f));
  ends = λ p h. (0, last refl);
}

-- Process 5 waits to send the message at 100 to process 3.
abbrev pub queued : Kernel
queued = with_table start (linked_in idle_pcb 5 3 100 3 (set_first 5))

abbrev pub one_queue : ℕ → List ℕ
one_queue = update no_queues 3 (5 ∷ [])

pub not-Leads : (src : ℕ) {p : ℕ} → ¬ (Leads idle_pcb src p)
not-Leads src (direct f to) = cc
not-Leads src (via f l) = cc

pub queued-IsValid : IsValid queued.pcb_table one_queue
queued-IsValid =
    IsAppended-IsValid start-IsValid 5 3 (omega arith) (omega arith) (idle-IsReady 5) (omega arith)
      (first-IsAppended start-IsValid 5 3 100 (omega arith) (omega arith) (idle-IsReady 5)
        (omega arith) (omega arith) refl)
      (not-Leads 5)

-- Process 0 waits at 200 for a message of anyone.
abbrev pub listening : Kernel
listening = with_table start (update idle_pcb 0 (awaiting (idle_pcb 0) any 200))

pub listening-IsReceiving : IsReceiving (awaiting (idle_pcb 0) any 200)
listening-IsReceiving = record {
  flags = refl;
  msg = omega arith;
  recvfrom = omega arith;
  sendto = refl;
  quiet = λ _. refl;
}

pub listening-IsValid : IsValid listening.pcb_table no_queues
listening-IsValid = update-IsValid start-IsValid 0 (awaiting (idle_pcb 0) any 200) (record {
  pid = refl;
  first = refl;
  next = refl;
  status = inr (inr listening-IsReceiving);
  was = omega arith;
  now = omega arith;
})

-- Process 5 runs.
abbrev pub five : Kernel
five = record start { pcb_ptr = 5 }

pub can_call : CanCall five 5 100
can_call = record {
  caller = omega arith;
  buffer = omega arith;
  ready = idle-IsReady 5;
  other = 0;
  below = omega arith;
  apart = omega arith;
  runs = refl;
  priority = omega arith;
}

-- It sends the message at 100 to process 3.
pub sent : (k' : Kernel) × (sys_sendrec send 3 100 5 five ≡ ok k')
unfolding sys_sendrec
sent =
    let s : IsSend (stamped five 100 5) 5 3 100 = record {
      from = omega arith;
      to = omega arith;
      apart = omega arith;
      buffer = omega arith;
      ready = idle-IsReady 5;
    } in
    let (k', run, d) =
      msg_send-enqueue {k = stamped five 100 5} start-IsValid s 1 refl (not-Leads 5) (omega arith)
        (omega arith) refl (omega arith) in
    (k', run)
