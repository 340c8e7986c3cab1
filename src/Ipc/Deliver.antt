-- ===== src/Ipc/Deliver.antt =====
-- `msg_send` to a process that is waiting for the message.
use mathlib.Core.Path.{subst}
use minx.Prelude.{
  ℕ, ◌<◌, ◌≡◌, ◌≢◌, refl, sym, ◌∙◌, inl, inr, true, false, List, arith, update, update_self,
  update_ne, ne→==, ◌⊎◌, if◌then◌else◌, ok, stop, panic, clear_flag,
}
use minx.Const.{nr_proc, receiving, no_task}
use minx.Kernel.{Pcb, Kernel}
use minx.Ipc.Base.{set_pcb}
use minx.Ipc.Send.{deadlock, deliver, enqueue, msg_send, awaits}
use minx.Ipc.State.{IsReady, IsReceiving, IsValid, Leads, direct, via, receiver_of_flag}
use minx.Ipc.Chain.{deadlock_lem}
use minx.Ipc.Update.{update-IsValid}

-- Process `sender` is not blocked, and sends the message at `m` to `dest`.
pub record IsSend (k : Kernel) (sender dest m : ℕ) : Type 0 where
  pub from : sender < nr_proc
  pub to : dest < nr_proc
  pub apart : sender ≢ dest
  pub buffer : m ≢ 0
  pub ready : IsReady (k.pcb_table sender)

-- The entry of a process that has got what it waited for.
abbrev pub got : Pcb → Pcb
got r = record r { p_msg = 0; p_flags = clear_flag r.p_flags receiving; p_recvfrom = no_task }

-- The kernel after the message at `m` has gone to `dest`.
abbrev pub delivered : Kernel → ℕ → ℕ → Kernel
delivered k dest m =
    let r = k.pcb_table dest in
    set_pcb (record k { memory = update k.memory r.p_msg (k.memory m) }) dest (got r)

got-IsReady : (r : Pcb) → IsReceiving r → IsReady (got r)
got-IsReady r s = record { flags = rw s.flags; msg = refl; recvfrom = refl; sendto = s.sendto }

module _ {k : Kernel} {q : ℕ → List ℕ} (v : IsValid k.pcb_table q) {sender dest m : ℕ}
    (c : IsSend k sender dest m) where
  deliver-ok : IsReceiving (k.pcb_table dest) → deliver sender dest m k ≡ ok (delivered k dest m)
  unfolding deliver minx.Ipc.Base.unblock
  deliver-ok s = ground (arith, s.msg, got-IsReady (k.pcb_table dest) s)

  delivered-IsValid : IsReceiving (k.pcb_table dest) → IsValid (delivered k dest m).pcb_table q
  delivered-IsValid s = update-IsValid v dest (got (k.pcb_table dest)) (record {
    pid = refl;
    first = refl;
    next = refl;
    status = inl (got-IsReady (k.pcb_table dest) s);
    was = omega (arith, s.flags);
    now = omega (arith, (got-IsReady (k.pcb_table dest) s).flags);
  })

  deadlock-false : ¬ (Leads k.pcb_table sender dest) → deadlock sender dest k ≡ ok false
  deadlock-false no_lead = go (deadlock_lem k v sender dest c.to)
    where
      go :
          (Leads k.pcb_table sender dest × (deadlock sender dest k ≡ ok true))
            ⊎ (¬ (Leads k.pcb_table sender dest) × (deadlock sender dest k ≡ ok false))
          → deadlock sender dest k ≡ ok false
      go (inl a) = absurd (no_lead a.0)
      go (inr a) = a.1

  deadlock-true : Leads k.pcb_table sender dest → deadlock sender dest k ≡ ok true
  deadlock-true lead = go (deadlock_lem k v sender dest c.to)
    where
      go :
          (Leads k.pcb_table sender dest × (deadlock sender dest k ≡ ok true))
            ⊎ (¬ (Leads k.pcb_table sender dest) × (deadlock sender dest k ≡ ok false))
          → deadlock sender dest k ≡ ok true
      go (inl a) = a.1
      go (inr a) = absurd (a.0 lead)

  pub msg_send-safe :
      ¬ (Leads k.pcb_table sender dest)
      → msg_send sender dest m k ≡ (
          if awaits (k.pcb_table dest) sender
          then deliver sender dest m k
          else enqueue sender dest m k)
  unfolding msg_send
  msg_send-safe no_lead = rw (v.pids sender c.from, ne→== _ _ c.apart, deadlock-false no_lead)

  -- In a well-formed state, for a caller that is not blocked, has a buffer and sends to another
  -- process: if the receiver waits to send to the caller, at once or through others, the kernel
  -- panics.
  pub msg_send-panic : Leads k.pcb_table sender dest → msg_send sender dest m k ≡ stop panic
  unfolding msg_send
  msg_send-panic lead = rw (v.pids sender c.from, ne→== _ _ c.apart, deadlock-true lead)

  not-Leads-receiving : IsReceiving (k.pcb_table dest) → ¬ (Leads k.pcb_table sender dest)
  not-Leads-receiving s (direct f to) = let h : false ≡ true = rw s.flags at f in cc
  not-Leads-receiving s (via f l) = let h : false ≡ true = rw s.flags at f in cc

  -- In a well-formed state, for a caller that is not blocked, has a buffer and sends to another
  -- process: if the receiver waits for this sender or for any, the send succeeds and no assertion
  -- fails; the receiver's buffer holds the message, the receiver is no longer blocked, no other
  -- entry of the table and no other message has changed, and the sending queues are as they were.
  pub msg_send-deliver :
      awaits (k.pcb_table dest) sender ≡ true
      → (k' : Kernel) × (msg_send sender dest m k ≡ ok k')
        × IsValid k'.pcb_table q
        × IsReady (k'.pcb_table dest)
        × ((p : ℕ) → p ≢ dest → k'.pcb_table p ≡ k.pcb_table p)
        × (k'.memory ≡ update k.memory (k.pcb_table dest).p_msg (k.memory m))
  msg_send-deliver w =
      let s = receiver_of_flag (k.pcb_table dest) (v.status dest c.to) (ground arith) in
      (
        delivered k dest m,
        msg_send-safe (not-Leads-receiving s) ∙ rw w (deliver-ok s),
        delivered-IsValid s,
        subst IsReady (sym (update_self k.pcb_table dest (got (k.pcb_table dest))))
            (got-IsReady (k.pcb_table dest) s),
        (λ p ne. update_ne k.pcb_table dest p (got (k.pcb_table dest)) (λ e. ne (sym e))),
        refl,
      )
