-- ===== src/Ipc/Receive.antt =====
-- `msg_receive` where a message or an interrupt is there.

use minx.Prelude.{
  ℕ, suc, ◌<◌, ◌≤◌, ◌≡◌, ◌≢◌, refl, ap, ◌∙◌, inl, inr, true, false, List, [], ◌∷◌, Option, none,
  some, arith, has, length, remove, has_flag, ◌==◌, Bool-cases, update, ok, check-ok, bind-ok,
  ne→==, eq→==, length-le_of_Distinct,
}
use minx.Const.{nr_proc, sending}
use minx.Kernel.{Pcb, Kernel}
use minx.Ipc.Recv.{receive_any, receive_from, take_message, check_sides, find_prev}
use minx.Ipc.State.{Linked, IsReady, IsSending, IsValid, sender_of_flag, sending-flag}
use minx.Ipc.Queue.{before, find_prev-before}
use minx.Ipc.Append.{SameCore}
use minx.Ipc.Taken.{IsTaken, IsTaken-IsValid}
use minx.Ipc.Unlink.{taken, set_first, set_next, first-IsTaken, later-IsTaken}
use minx.Ipc.Take.{copied, take-first, take-later}

-- `k'` is `k` after the message of `s` has been copied to `m` for `receiver`.
pub record IsReceived (k k' : Kernel) (q : ℕ → List ℕ) (s receiver m : ℕ) : Type 0 where
  pub valid : IsValid k'.pcb_table (update q receiver (remove s (q receiver)))
  pub woken : IsReady (k'.pcb_table s)
  pub others : (p : ℕ) → p ≢ s → SameCore (k'.pcb_table p) (k.pcb_table p)
  pub frame : k' ≡ record k {
    pcb_table = k'.pcb_table;
    memory = update k.memory m (k.memory (k.pcb_table s).p_msg);
  }

module _ (k : Kernel) {q : ℕ → List ℕ} (v : IsValid k.pcb_table q) (receiver m : ℕ)
    (to : receiver < nr_proc) (buffer : m ≢ 0) (ready : IsReady (k.pcb_table receiver)) where
  taken-IsReceived :
      (s p : ℕ) (f : Pcb → Pcb)
      → has s (q receiver) ≡ true
      → IsTaken k.pcb_table (taken k.pcb_table s p f) q s receiver
      → IsReceived k (copied k s m p f) q s receiver m
  taken-IsReceived s p f mem a = record {
    valid = IsTaken-IsValid v s receiver to a mem;
    woken = a.ready;
    others = a.core;
    frame = refl;
  }

  -- A process in the queue of `receiver` sends to it.
  queue-IsSending :
      (s : ℕ)
      → has s (q receiver) ≡ true
      → (s < nr_proc) × IsSending (k.pcb_table s) × ((k.pcb_table s).p_sendto ≡ receiver)
  queue-IsSending s mem =
      let (lt, f, t) = v.member receiver s to mem in
      (lt, sender_of_flag (k.pcb_table s) (v.status s lt) (sending-flag (k.pcb_table s) f), t)

  check_sides-ok :
      (s first : ℕ)
      → has s (q receiver) ≡ true
      → (k.pcb_table receiver).q_sending ≡ some first
      → check_sides receiver s k ≡ ok tt
  unfolding check_sides
  check_sides-ok s first mem ptr =
      let (lt, snd, t) = queue-IsSending s mem in
      rw (
        ready.flags,
        ready.msg,
        ready.recvfrom,
        ready.sendto,
        ptr,
        snd.flags,
        ne→== _ _ snd.msg,
        snd.recvfrom,
        t,
        v.pids receiver to,
        eq→== receiver receiver refl,
      )

  pub receive_any-ok :
      (s : ℕ) (xs : List ℕ)
      → q receiver ≡ s ∷ xs
      → (k' : Kernel) × (receive_any receiver m k ≡ ok k') × IsReceived k k' q s receiver m
  unfolding receive_any
  receive_any-ok s xs e =
      let l : Linked k.pcb_table (k.pcb_table receiver).q_sending (s ∷ xs) =
        rw e at (v.linked receiver to) in
      let mem : has s (q receiver) ≡ true = rw e (ground arith) in
      let (lt, snd, t) = queue-IsSending s mem in
      let f = set_first (k.pcb_table s).next_sending in
      (
        copied k s m receiver f,
        rw (l.0, receive_any)
            (bind-ok _ _ _ (check_sides-ok s s mem l.0) ∙ take-first k receiver s m snd l.0 buffer),
        taken-IsReceived s receiver f mem (first-IsTaken v s receiver lt to snd xs e),
      )

  short : length (q receiver) ≤ nr_proc
  short =
      length-le_of_Distinct nr_proc (q receiver) (v.distinct receiver to)
        (λ p h. (v.member receiver p to h).0)

  find_prev-none :
      (s : ℕ) (xs : List ℕ)
      → q receiver ≡ s ∷ xs
      → find_prev (suc (suc nr_proc)) s none (k.pcb_table receiver).q_sending k ≡ ok none
  unfolding find_prev
  find_prev-none s xs e =
      let l : Linked k.pcb_table (k.pcb_table receiver).q_sending (s ∷ xs) =
        rw e at (v.linked receiver to) in
      let (lt, snd, t) = queue-IsSending s (rw e (ground arith)) in
      rw (l.0, snd.flags, v.pids s lt, eq→== s s refl)

  find_prev-some :
      (s x : ℕ) (xs : List ℕ)
      → q receiver ≡ x ∷ xs
      → x ≢ s
      → has s xs ≡ true
      → find_prev (suc (suc nr_proc)) s none (k.pcb_table receiver).q_sending k
        ≡ ok (some (before s x xs))
  unfolding find_prev
  find_prev-some s x xs e ne mem =
      let l : Linked k.pcb_table (k.pcb_table receiver).q_sending (x ∷ xs) =
        rw e at (v.linked receiver to) in
      let (lt, snd, t) = queue-IsSending s (rw e (ground arith)) in
      let (lt', snd', t') = queue-IsSending x (rw e (ground arith)) in
      let f : has_flag (k.pcb_table s).p_flags sending ≡ true =
        sending-flag (k.pcb_table s) snd.flags in
      let pids : (y : ℕ) → has y xs ≡ true → (k.pcb_table y).pid ≡ y =
        λ y h. v.pids y (queue-IsSending y (rw e (ground arith))).0 in
      rw (l.0, f, v.pids x lt', ne→== x s ne)
        (find_prev-before k s nr_proc x xs l.1 mem pids f (omega (arith, short, ap length e)))

  -- The search and the copy of `receive_from`, for both places of `s` in the queue.
  abbrev Taking : ℕ → Type 0
  Taking s =
      (prev : Option ℕ) × (k' : Kernel) × (find_prev (suc (suc nr_proc)) s none
          (k.pcb_table receiver).q_sending k
        ≡ ok prev)
      × (take_message receiver s prev m k ≡ ok k')
      × IsReceived k k' q s receiver m

  taking : (s x : ℕ) (xs : List ℕ) → q receiver ≡ x ∷ xs → has s (q receiver) ≡ true → Taking s
  taking s x xs e mem = elim (Bool-cases (s == x)) [
    | inl here ↦
        let e' : q receiver ≡ s ∷ xs = e ∙ ap (λ y. y ∷ xs) (ground arith) in
        let l : Linked k.pcb_table (k.pcb_table receiver).q_sending (s ∷ xs) =
          rw e' at (v.linked receiver to) in
        let (lt, snd, t) = queue-IsSending s mem in
        let f = set_first (k.pcb_table s).next_sending in
        (
          none,
          copied k s m receiver f,
          find_prev-none s xs e',
          take-first k receiver s m snd l.0 buffer,
          taken-IsReceived s receiver f mem (first-IsTaken v s receiver lt to snd xs e'),
        )
    | inr there ↦
        let l : Linked k.pcb_table (k.pcb_table receiver).q_sending (x ∷ xs) =
          rw e at (v.linked receiver to) in
        let ne : x ≢ s = ground arith in
        let mem' : has s xs ≡ true = let m0 : has s (x ∷ xs) ≡ true = rw e at mem in ground arith in
        let (lt, snd, t) = queue-IsSending s mem in
        let p = before s x xs in
        let f = set_next (k.pcb_table s).next_sending in
        (
          some p,
          copied k s m p f,
          find_prev-some s x xs e ne mem',
          take-later k receiver s m x p snd l.0 ne buffer,
          taken-IsReceived s p f mem (later-IsTaken v s receiver lt to snd x xs e ne mem'),
        )
  ]

  take-any : (s : ℕ) (xs : List ℕ) → q receiver ≡ xs → has s (q receiver) ≡ true → Taking s
  take-any s [] e mem = let h : false ≡ true = rw e at mem in cc
  take-any s (x ∷ xs) e mem = taking s x xs e mem

  queue_head :
      (xs : List ℕ)
      → q receiver ≡ xs
      → (s : ℕ) → has s (q receiver) ≡ true
      → (x : ℕ) × ((k.pcb_table receiver).q_sending ≡ some x)
  queue_head [] e s mem = let h : false ≡ true = rw e at mem in cc
  queue_head (x ∷ xs) e s mem =
      let l : Linked k.pcb_table (k.pcb_table receiver).q_sending (x ∷ xs) =
        rw e at (v.linked receiver to) in
      (x, l.0)

  pub receive_from-ok :
      (s : ℕ)
      → has s (q receiver) ≡ true
      → (k' : Kernel) × (receive_from receiver s m k ≡ ok k') × IsReceived k k' q s receiver m
  unfolding receive_from
  receive_from-ok s mem =
      let (lt, snd, t) = queue-IsSending s mem in
      let (first, ptr) = queue_head (q receiver) refl s mem in
      let (prev, k', found, run, d) = take-any s (q receiver) refl mem in
      (
        k',
        rw (snd.flags, t, v.pids receiver to, eq→== receiver receiver refl)
            (check-ok _ _ (rw ptr)
              ∙ bind-ok _ _ _ found
              ∙ bind-ok _ _ _ (check_sides-ok s first mem ptr)
              ∙ run),
        d,
      )
