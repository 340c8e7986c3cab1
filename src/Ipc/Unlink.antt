-- ===== src/Ipc/Unlink.antt =====
-- `remove_sender`: the table after a process has been taken out of a sending queue.
use mathlib.Core.Path.{subst}
use minx.Prelude.{
  ℕ, ◌<◌, ◌≡◌, ◌≢◌, ap, true, List, ◌∷◌, Option, none, arith, has, Distinct, remove, ◌==◌, update,
  clear_flag,
}
use minx.Const.{nr_proc, sending, no_task}
use minx.Kernel.{Pcb}
use minx.Ipc.State.{Linked, IsSending, IsValid}
use minx.Ipc.Queue.{before, has-before, before-ne_self, Linked-remove, Linked-frame}
use minx.Ipc.Taken.{IsTaken}

-- The entry of a process whose message has been taken.
abbrev pub sent : Pcb → Pcb
sent s = record s { p_msg = 0; p_sendto = no_task; p_flags = clear_flag s.p_flags sending }

abbrev pub set_first : Option ℕ → Pcb → Pcb
set_first n c = record c { q_sending = n }

abbrev pub set_next : Option ℕ → Pcb → Pcb
set_next n c = record c { next_sending = n }

-- Entry `p` becomes `f p`, and `sender` has no successor.
abbrev pub unlinked : (ℕ → Pcb) → ℕ → ℕ → (Pcb → Pcb) → ℕ → Pcb
unlinked t sender p f =
    let t1 = update t p (f (t p)) in update t1 sender (set_next none (t1 sender))

-- And the message of `sender` has been taken.
abbrev pub taken : (ℕ → Pcb) → ℕ → ℕ → (Pcb → Pcb) → ℕ → Pcb
taken t sender p f = let t2 = unlinked t sender p f in update t2 sender (sent (t2 sender))

module _ {t : ℕ → Pcb} {q : ℕ → List ℕ} (v : IsValid t q) (sender receiver : ℕ)
    (from : sender < nr_proc) (to : receiver < nr_proc) (s : IsSending (t sender)) where
  abbrev next : Option ℕ
  next = (t sender).next_sending

  module _ (xs : List ℕ) (e : q receiver ≡ sender ∷ xs) where
    abbrev u : ℕ → Pcb
    u = taken t sender receiver (set_first next)

    queue : Linked t (t receiver).q_sending (sender ∷ xs)
    queue = rw e at (v.linked receiver to)

    distinct : Distinct (sender ∷ xs)
    distinct = rw e at (v.distinct receiver to)

    self_first : (sender == sender) ≡ true
    self_first = ground arith

    removed : remove sender (q receiver) ≡ xs
    removed = rw (e, self_first)

    sender-ne : (x : ℕ) → has x xs ≡ true → sender ≢ x
    sender-ne x m eq = cc (distinct.0, m, ap (λ y. has y xs) eq)

    pub first-IsTaken : IsTaken t u q sender receiver
    first-IsTaken = record {
      pid = ground (arith, v.pids sender from);
      ready = record {
        flags = ground (arith, s.flags);
        msg = ground arith;
        recvfrom = ground (arith, s.recvfrom);
        sendto = ground arith;
      };
      core = λ p ne. record {
        pid = ground arith;
        flags = ground arith;
        msg = ground arith;
        recvfrom = ground arith;
        sendto = ground arith;
        has_int = ground arith;
      };
      first = λ p ne. ground arith;
      next = λ p out.
          let apart : sender ≢ p = λ eq. cc (out, self_first, e, ap (λ y. has y (q receiver)) eq) in
          ground arith;
      tail = rw removed (
          subst (λ x. Linked u x xs) (ground arith)
            (Linked-frame t u next xs queue.1 (λ x m. ground (arith, sender-ne x m))));
    }

  module _ (x : ℕ) (xs : List ℕ) (e : q receiver ≡ x ∷ xs) (x_ne : x ≢ sender)
      (m : has sender xs ≡ true) where
    abbrev prev : ℕ
    prev = before sender x xs

    abbrev w : ℕ → Pcb
    w = taken t sender prev (set_next next)

    prev-ne : prev ≢ sender
    prev-ne = before-ne_self sender x xs x_ne

    prev-mem : has prev (q receiver) ≡ true
    prev-mem = rw e (has-before sender x xs)

    sender-mem : has sender (q receiver) ≡ true
    sender-mem = rw e (ground arith)

    links : Linked t (t receiver).q_sending (x ∷ xs)
    links = rw e at (v.linked receiver to)

    later : remove sender (x ∷ xs) ≡ x ∷ remove sender xs
    later = ground arith

    w-tail : Linked w (w receiver).q_sending (remove sender (x ∷ xs))
    w-tail = rw later (
      ground (arith, links.0),
      Linked-remove t w sender x xs links.1 m (rw e at (v.distinct receiver to))
          (ground (arith, prev-ne)) (λ y h ne ns. ground arith),
    )

    pub later-IsTaken : IsTaken t w q sender receiver
    later-IsTaken = record {
      pid = ground (arith, v.pids sender from);
      ready = record {
        flags = ground (arith, s.flags);
        msg = ground arith;
        recvfrom = ground (arith, s.recvfrom);
        sendto = ground arith;
      };
      core = λ p ne. record {
        pid = ground arith;
        flags = ground arith;
        msg = ground arith;
        recvfrom = ground arith;
        sendto = ground arith;
        has_int = ground arith;
      };
      first = λ p ne. ground arith;
      next = λ p out.
          let apart : sender ≢ p = λ eq. cc (out, sender-mem, ap (λ y. has y (q receiver)) eq) in
          let apart' : prev ≢ p = λ eq. cc (out, prev-mem, ap (λ y. has y (q receiver)) eq) in
          ground arith;
      tail = rw e w-tail;
    }
