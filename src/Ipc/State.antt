-- ===== src/Ipc/State.antt =====
-- What `pcb_table` looks like between two kernel calls: the state of each process, the linked
-- sending queues against plain lists, and the chains of processes that wait to send.
use minx.Prelude.{
  ℕ, zero, suc, ◌<◌, ◌≡◌, ◌≢◌, ◌⊎◌, true, false, List, [], ◌∷◌, Option, none, some, inl, inr, has,
  Distinct, has_flag,
}
use minx.Const.{nr_proc, any, interrupt, no_task, sending, receiving}
use minx.Kernel.{Pcb}

-- Not blocked.
pub record IsReady (c : Pcb) : Type 0 where
  pub flags : c.p_flags ≡ 0
  pub msg : c.p_msg ≡ 0
  pub recvfrom : c.p_recvfrom ≡ no_task
  pub sendto : c.p_sendto ≡ no_task

-- Blocked until `p_sendto` takes its message.
pub record IsSending (c : Pcb) : Type 0 where
  pub flags : c.p_flags ≡ sending
  pub msg : c.p_msg ≢ 0
  pub recvfrom : c.p_recvfrom ≡ no_task
  pub sendto : c.p_sendto < nr_proc

-- Blocked until a message comes; an interrupt that it would take is not pending.
pub record IsReceiving (c : Pcb) : Type 0 where
  pub flags : c.p_flags ≡ receiving
  pub msg : c.p_msg ≢ 0
  pub recvfrom : c.p_recvfrom ≢ no_task
  pub sendto : c.p_sendto ≡ no_task
  pub quiet : (c.p_recvfrom ≡ any) ⊎ (c.p_recvfrom ≡ interrupt) → c.has_int_msg ≡ 0

abbrev pub Status : Pcb → Type 0
Status c = IsReady c ⊎ (IsSending c ⊎ IsReceiving c)

-- From `ptr` the `next_sending` pointers lead through `xs` to NULL.
abbrev pub Linked : (ℕ → Pcb) → Option ℕ → List ℕ → Type 0
Linked t ptr [] = ptr ≡ none
Linked t ptr (x ∷ xs) = (ptr ≡ some x) × Linked t (t x).next_sending xs

-- Process `p` waits for another, which waits for another, and so on, `n` times; the last one is not
-- sending.
pub data Ends (t : ℕ → Pcb) : ℕ → ℕ → Type 0 where
  last : {p : ℕ} → has_flag (t p).p_flags sending ≡ false → Ends t zero p
  hop :
      {n p : ℕ} → has_flag (t p).p_flags sending ≡ true → Ends t n (t p).p_sendto → Ends t (suc n) p

-- `p` waits to send to `src`, at once or through others.
pub data Leads (t : ℕ → Pcb) (src : ℕ) : ℕ → Type 0 where
  direct : {p : ℕ} → has_flag (t p).p_flags sending ≡ true → (t p).p_sendto ≡ src → Leads t src p
  via : {p : ℕ} → has_flag (t p).p_flags sending ≡ true → Leads t src (t p).p_sendto → Leads t src p

-- `q r` lists the processes that wait to send to `r`, first come first.
pub record IsValid (t : ℕ → Pcb) (q : ℕ → List ℕ) : Type 0 where
  pub pids : (p : ℕ) → p < nr_proc → (t p).pid ≡ p
  pub status : (p : ℕ) → p < nr_proc → Status (t p)
  pub linked : (r : ℕ) → r < nr_proc → Linked t (t r).q_sending (q r)
  pub distinct : (r : ℕ) → r < nr_proc → Distinct (q r)
  pub member :
      (r p : ℕ)
      → r < nr_proc
      → has p (q r) ≡ true
      → (p < nr_proc) × ((t p).p_flags ≡ sending) × ((t p).p_sendto ≡ r)
  pub queued : (p : ℕ) → p < nr_proc → (t p).p_flags ≡ sending → has p (q (t p).p_sendto) ≡ true
  pub ends : (p : ℕ) → p < nr_proc → (n : ℕ) × Ends t n p

pub sender_of_flag : (c : Pcb) → Status c → has_flag c.p_flags sending ≡ true → IsSending c
sender_of_flag c (inl r) h = let h' : false ≡ true = rw r.flags at h in cc
sender_of_flag c (inr (inl s)) h = s
sender_of_flag c (inr (inr r)) h = let h' : false ≡ true = rw r.flags at h in cc

pub receiver_of_flag : (c : Pcb) → Status c → has_flag c.p_flags receiving ≡ true → IsReceiving c
receiver_of_flag c (inl r) h = let h' : false ≡ true = rw r.flags at h in cc
receiver_of_flag c (inr (inl s)) h = let h' : false ≡ true = rw s.flags at h in cc
receiver_of_flag c (inr (inr r)) h = r

pub sending-flag : (c : Pcb) → c.p_flags ≡ sending → has_flag c.p_flags sending ≡ true
sending-flag c h = rw h

pub sending-flag_of_ne :
    (c : Pcb) → Status c → c.p_flags ≢ sending → has_flag c.p_flags sending ≡ false
sending-flag_of_ne c (inl r) ne = rw r.flags
sending-flag_of_ne c (inr (inl s)) ne = absurd (ne s.flags)
sending-flag_of_ne c (inr (inr r)) ne = rw r.flags
