-- ===== src/Ipc/Link.antt =====
-- The first and the last part of `enqueue`: a process joins a sending queue, and gives up the
-- processor.
use mathlib.Core.Path.{subst}
use minx.Prelude.{
  ℕ, ◌<◌, ◌≡◌, ◌≢◌, refl, ap, ◌∙◌, true, List, [], ◌∷◌, ◌++◌, none, some, arith, has, update, ne→==,
  eq→==, check-ok, bind-ok, bit_or, ok,
}
use minx.Const.{nr_proc, sending}
use minx.Kernel.{Pcb, Kernel}
use minx.Sched.{schedule}
use minx.Ipc.Base.{block}
use minx.Ipc.Send.{append_sender, link_sender, block_sender}
use minx.Ipc.State.{Linked, IsReady, IsSending, IsValid}
use minx.Ipc.Queue.{last_of, has-last_of, Linked-append}
use minx.Ipc.Append.{IsAppended}

-- The entry of a process that starts to send.
abbrev pub starts : Pcb → ℕ → ℕ → Pcb
starts c dest m = record c { p_flags = bit_or c.p_flags sending; p_sendto = dest; p_msg = m }

-- The table when `sender` starts to send, and entry `p` becomes `f p` to link it in.
abbrev pub linked_in : (ℕ → Pcb) → ℕ → ℕ → ℕ → ℕ → (Pcb → Pcb) → ℕ → Pcb
linked_in t sender dest m p f =
    let t1 = update t sender (starts (t sender) dest m) in
    let t2 = update t1 p (f (t1 p)) in update t2 sender (record (t2 sender) { next_sending = none })

abbrev pub set_first : ℕ → Pcb → Pcb
set_first s c = record c { q_sending = some s }

abbrev pub set_next : ℕ → Pcb → Pcb
set_next s c = record c { next_sending = some s }

module _ {t : ℕ → Pcb} {q : ℕ → List ℕ} (v : IsValid t q) (sender dest m : ℕ)
    (from : sender < nr_proc) (to : dest < nr_proc) (ready : IsReady (t sender))
    (apart : sender ≢ dest) (buffer : m ≢ 0) where
  abbrev pub first_in : ℕ → Pcb
  first_in = linked_in t sender dest m dest (set_first sender)

  pub first-IsAppended : q dest ≡ [] → IsAppended t first_in q sender dest
  first-IsAppended e = record {
    pid = ground (arith, v.pids sender from);
    waits = record {
      flags = ground (arith, ready.flags);
      msg = λ z. buffer (ground arith);
      recvfrom = ground (arith, ready.recvfrom);
      sendto = ground arith;
    };
    target = ground arith;
    core = λ p ne. record {
      pid = ground arith;
      flags = ground arith;
      msg = ground arith;
      recvfrom = ground arith;
      sendto = ground arith;
      has_int = ground arith;
    };
    first = λ p ne. ground arith;
    next = λ p ne out. ground arith;
    tail = rw e (ground arith);
  }

  module _ (x : ℕ) (xs : List ℕ) (e : q dest ≡ x ∷ xs) where
    abbrev pub end : ℕ
    end = last_of x xs

    abbrev pub last_in : ℕ → Pcb
    last_in = linked_in t sender dest m end (set_next sender)

    pub queue : Linked t (t dest).q_sending (x ∷ xs)
    queue = rw e at (v.linked dest to)

    end-mem : has end (q dest) ≡ true
    end-mem = rw e (has-last_of x xs)

    member-ne : (y : ℕ) → has y (q dest) ≡ true → y ≢ sender
    member-ne y h eq =
        let f : (t sender).p_flags ≡ sending =
          subst (λ z. (t z).p_flags ≡ sending) eq (v.member dest y to h).1 in
        omega (arith, ready.flags)

    last-tail : Linked last_in (last_in dest).q_sending (x ∷ (xs ++ sender ∷ []))
    last-tail = (
      ground (arith, queue.0),
      Linked-append t last_in sender x xs queue.1 (rw e at (v.distinct dest to)) (ground arith)
          (ground (arith, member-ne end end-mem)) (λ y h ne. ground (arith, member-ne y (rw e h))),
    )

    pub last-IsAppended : IsAppended t last_in q sender dest
    last-IsAppended = record {
      pid = ground (arith, v.pids sender from);
      waits = record {
        flags = ground (arith, ready.flags);
        msg = λ z. buffer (ground arith);
        recvfrom = ground (arith, ready.recvfrom);
        sendto = ground arith;
      };
      target = ground arith;
      core = λ p ne. record {
        pid = ground arith;
        flags = ground arith;
        msg = ground arith;
        recvfrom = ground arith;
        sendto = ground arith;
        has_int = ground arith;
      };
      first = λ p ne. ground arith;
      next = λ p ne out.
          let apart' : p ≢ end = λ eq. cc (end-mem, out, ap (λ y. has y (q dest)) eq) in
          ground arith;
      tail = rw e last-tail;
    }

-- The kernel with the table `u`.
abbrev pub with_table : Kernel → (ℕ → Pcb) → Kernel
with_table k u = record k { pcb_table = u }

-- `sender` waits to send to `dest`.
abbrev pub SendsTo : ℕ → Pcb → Type 0
SendsTo dest c = IsSending c × (c.p_sendto ≡ dest)

pub block_sender-ok :
    (k k' : Kernel) (sender dest : ℕ)
    → SendsTo dest (k.pcb_table sender)
    → schedule 2 k ≡ ok k'
    → SendsTo dest (k'.pcb_table sender)
    → block_sender sender dest k ≡ ok k'
unfolding block_sender block
block_sender-ok k k' sender dest s sch s' =
    rw (s.0.flags, sch, s'.0.flags, ne→== _ _ s'.0.msg, s'.0.recvfrom, s'.1, eq→== dest dest refl)

pub link_sender-ok :
    (k : Kernel) (sender dest m p : ℕ) (f : Pcb → Pcb)
    → (k.pcb_table sender).p_flags ≡ 0
    → let t = k.pcb_table in
      let t1 = update t sender (starts (t sender) dest m) in
      append_sender sender dest (with_table k t1) ≡ ok (with_table k (update t1 p (f (t1 p))))
      → link_sender sender dest m k ≡ ok (with_table k (linked_in t sender dest m p f))
unfolding link_sender
link_sender-ok k sender dest m p f z e = check-ok _ _ (rw z) ∙ bind-ok _ _ _ e
