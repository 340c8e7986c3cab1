-- ===== src/Ipc/Take.antt =====
-- `take_message`: the message is copied from a process that is taken out of the sending queue.

use minx.Prelude.{
  ℕ, ◌≡◌, ◌≢◌, refl, sym, ap, ◌∙◌, not, Option, none, some, arith, ◌==◌, update, ok, check-ok,
  bind-ok, ne→==, eq→==,
}
use minx.Kernel.{Pcb, Kernel}
use minx.Ipc.Base.{unblock}
use minx.Ipc.Recv.{remove_sender, copy_message, take_message}
use minx.Ipc.State.{IsSending}
use minx.Ipc.Append.{SameCore}
use minx.Ipc.Link.{with_table}
use minx.Ipc.Unlink.{sent, set_first, set_next, unlinked, taken}

-- The kernel after the message of `sender` has been copied to `m`.
abbrev pub copied : Kernel → ℕ → ℕ → ℕ → (Pcb → Pcb) → Kernel
copied k sender m p f = record k {
  pcb_table = taken k.pcb_table sender p f;
  memory = update k.memory m (k.memory (k.pcb_table sender).p_msg);
}

remove-first :
    (k : Kernel) (receiver sender : ℕ)
    → (k.pcb_table receiver).q_sending ≡ some sender
    → remove_sender receiver sender none k
      ≡ ok (
          with_table k
            (unlinked k.pcb_table sender receiver (set_first (k.pcb_table sender).next_sending)))
unfolding remove_sender
remove-first k receiver sender e = rw (e, eq→== sender sender refl)

remove-later :
    (k : Kernel) (receiver sender first p : ℕ)
    → (k.pcb_table receiver).q_sending ≡ some first
    → first ≢ sender
    → remove_sender receiver sender (some p) k
      ≡ ok (
          with_table k (unlinked k.pcb_table sender p (set_next (k.pcb_table sender).next_sending)))
unfolding remove_sender
remove-later k receiver sender first p e ne = rw (e, ne→== sender first (λ x. ne (sym x)))

copy_message-ok :
    (k : Kernel) (sender m : ℕ)
    → IsSending (k.pcb_table sender)
    → m ≢ 0
    → copy_message sender m k
      ≡ ok (record k {
        pcb_table = update k.pcb_table sender (sent (k.pcb_table sender));
        memory = update k.memory m (k.memory (k.pcb_table sender).p_msg);
      })
unfolding copy_message unblock
copy_message-ok k sender m s ne =
    check-ok (not (m == 0)) _ (rw (ne→== _ _ ne))
    ∙ check-ok (not ((k.pcb_table sender).p_msg == 0)) _ (rw (ne→== _ _ s.msg))
    ∙ check-ok _ _ (rw (eq→== sender sender refl, s.flags))

SameCore-IsSending : (c d : Pcb) → SameCore c d → IsSending d → IsSending c
SameCore-IsSending c d s r = record {
  flags = s.flags ∙ r.flags;
  msg = λ e. r.msg (sym s.msg ∙ e);
  recvfrom = s.recvfrom ∙ r.recvfrom;
  sendto = omega (arith, s.sendto, r.sendto);
}

unlinked-SameCore :
    (t : ℕ → Pcb) (sender p : ℕ) (f : Pcb → Pcb)
    → SameCore (f (t p)) (t p)
    → SameCore (unlinked t sender p f sender) (t sender)
unlinked-SameCore t sender p f c = record {
  pid = ground (arith, c.pid);
  flags = ground (arith, c.flags);
  msg = ground (arith, c.msg);
  recvfrom = ground (arith, c.recvfrom);
  sendto = ground (arith, c.sendto);
  has_int = ground (arith, c.has_int);
}

-- What `unlinked` leaves of the sender.
unlinked-IsSending :
    (t : ℕ → Pcb) (sender p : ℕ) (f : Pcb → Pcb)
    → ((c : Pcb) → SameCore (f c) c)
    → IsSending (t sender)
    → IsSending (unlinked t sender p f sender)
      × ((unlinked t sender p f sender).p_msg ≡ (t sender).p_msg)
unlinked-IsSending t sender p f core s =
    let c = unlinked-SameCore t sender p f (core (t p)) in (SameCore-IsSending _ _ c s, c.msg)

take-copied :
    (k : Kernel) (receiver sender m p : ℕ) (before_it : Option ℕ) (f : Pcb → Pcb)
    → ((c : Pcb) → SameCore (f c) c)
    → IsSending (k.pcb_table sender)
    → remove_sender receiver sender before_it k
      ≡ ok (with_table k (unlinked k.pcb_table sender p f))
    → m ≢ 0
    → take_message receiver sender before_it m k ≡ ok (copied k sender m p f)
unfolding take_message
take-copied k receiver sender m p before_it f core s run ne =
    let (s', same) = unlinked-IsSending k.pcb_table sender p f core s in
    bind-ok _ _ _ run
    ∙ copy_message-ok (with_table k (unlinked k.pcb_table sender p f)) sender m s' ne
    ∙ ap
        (λ x. ok (record k {
          pcb_table = taken k.pcb_table sender p f;
          memory = update k.memory m (k.memory x);
        }))
        same

keep_first : (n : Option ℕ) (c : Pcb) → SameCore (set_first n c) c
keep_first n c = record {
  pid = refl;
  flags = refl;
  msg = refl;
  recvfrom = refl;
  sendto = refl;
  has_int = refl;
}

keep_next : (n : Option ℕ) (c : Pcb) → SameCore (set_next n c) c
keep_next n c = record {
  pid = refl;
  flags = refl;
  msg = refl;
  recvfrom = refl;
  sendto = refl;
  has_int = refl;
}

-- Where `sender` is the first in the queue.
pub take-first :
    (k : Kernel) (receiver sender m : ℕ)
    → IsSending (k.pcb_table sender)
    → (k.pcb_table receiver).q_sending ≡ some sender
    → m ≢ 0
    → take_message receiver sender none m k
      ≡ ok (copied k sender m receiver (set_first (k.pcb_table sender).next_sending))
take-first k receiver sender m s e ne =
    let n = (k.pcb_table sender).next_sending in
    take-copied k receiver sender m receiver none (set_first n) (keep_first n) s
      (remove-first k receiver sender e) ne

-- Where `p` stands before it.
pub take-later :
    (k : Kernel) (receiver sender m first p : ℕ)
    → IsSending (k.pcb_table sender)
    → (k.pcb_table receiver).q_sending ≡ some first
    → first ≢ sender
    → m ≢ 0
    → take_message receiver sender (some p) m k
      ≡ ok (copied k sender m p (set_next (k.pcb_table sender).next_sending))
take-later k receiver sender m first p s e ne buffer =
    let n = (k.pcb_table sender).next_sending in
    take-copied k receiver sender m p (some p) (set_next n) (keep_next n) s
      (remove-later k receiver sender first p e ne) buffer
