-- ===== src/Boot/Table.antt =====
-- What the loop of `kernelMain` leaves, and where it fails.
use mathlib.Core.Path.{subst}
use minx.Prelude.{
  ℕ, zero, suc, ◌+◌, ◌-◌, ◌/◌, ◌%◌, ◌^◌, none, false, ◌≤◌, ◌<◌, ◌≡◌, inl, inr, refl, ap, true,
  false, Bool-cases, ◌==◌, ==→eq, ltb, leb, update, ok, stop, overrun, arith,
}
use minx.Prelude.Int.{pos}
use minx.Const.{nr_proc, nr_task}
use minx.Kernel.{Pcb, idle_pcb}
use minx.Boot.{Boot, Task, Frame, frame, init_entry, init_from, init_table}

-- The entries below `n` are as a round of the loop makes them.
record IsMade (task user_process : ℕ → Task) (n : ℕ) (b : Boot) : Type 0 where
  pcb : (i : ℕ) → i < n → b.kernel.pcb_table i ≡ idle_pcb i
  ticks : (i : ℕ) → i < n → b.kernel.ticks i ≡ pos 30
  priority : (i : ℕ) → i < n → b.kernel.priority i ≡ pos 30
  regs : (i : ℕ) → i < n → b.regs i ≡ frame task user_process i

update_below :
    {A : Type 0} (t : ℕ → A) (f : ℕ → A) (i : ℕ)
    → ((j : ℕ) → j < i → t j ≡ f j)
    → (j : ℕ) → j < i + 1
    → update t i (f i) j ≡ f j
update_below t f i h j l = elim (Bool-cases (i == j)) [
  | inl e ↦ rw e (ap f (==→eq i j e))
  | inr e ↦ rw e (h j (ground (arith, e, l)))
]

module _ (task user_process : ℕ → Task) where
  init_from-IsMade :
      (left i : ℕ) (b : Boot)
      → i + left ≤ nr_proc
      → IsMade task user_process i b
      → (b' : Boot) × (init_from task user_process left i b ≡ ok b')
        × IsMade task user_process (i + left) b'
  unfolding init_from init_entry
  init_from-IsMade zero i b l r =
      (b, refl, subst (λ n. IsMade task user_process n b) (omega arith) r)
  init_from-IsMade (suc left) i b l r =
      let k = b.kernel in
      let b1 : Boot = record {
        kernel = record k {
          pcb_table = update k.pcb_table i (idle_pcb i);
          ticks = update k.ticks i (pos 30);
          priority = update k.priority i (pos 30);
        };
        regs = update b.regs i (frame task user_process i);
      } in
      let r1 : IsMade task user_process (i + 1) b1 = record {
        pcb = update_below k.pcb_table idle_pcb i r.pcb;
        ticks = update_below k.ticks (λ j. pos 30) i r.ticks;
        priority = update_below k.priority (λ j. pos 30) i r.priority;
        regs = update_below b.regs (frame task user_process) i r.regs;
      } in
      let (b', run, ready) = init_from-IsMade left (i + 1) b1 (omega (arith, l)) r1 in
      let in_table : ltb i nr_proc ≡ true = ground (arith, l) in
      let no_mark : leb nr_proc i ≡ false = ground (arith, l) in
      (
        b',
        rw (no_mark, in_table) run,
        subst (λ n. IsMade task user_process n b') (omega arith) ready,
      )

  -- Entry `i` is ready to run, with nothing to send or receive.
  pub record IsIdle (i : ℕ) (v : Pcb) : Type 0 where
    pub pid : v.pid ≡ i
    pub p_flags : v.p_flags ≡ 0
    pub p_msg : v.p_msg ≡ 0
    pub p_recvfrom : v.p_recvfrom ≡ 29
    pub p_sendto : v.p_sendto ≡ 29
    pub has_int_msg : v.has_int_msg ≡ 0
    pub q_sending : v.q_sending ≡ none
    pub next_sending : v.next_sending ≡ none

  -- The registers for a routine at this privilege, with interrupts on and I/O for privilege `io`.
  pub record Starts (privilege io : ℕ) (t : Task) (v : Frame) : Type 0 where
    pub cs : v.cs % 4 ≡ privilege
    pub ds : v.ds % 4 ≡ privilege
    pub eip : v.frame_eip ≡ t.eip
    pub esp : v.esp ≡ t.top_of_stack
    pub interrupts : v.eflags / 2 ^ 9 % 2 ≡ 1
    pub io_level : v.eflags / 2 ^ 12 % 4 ≡ io

  -- The table of nine entries is ready: five tasks and four user processes.
  pub record IsReady (b : Boot) : Type 0 where
    pub pcb : (i : ℕ) → i < 9 → IsIdle i (b.kernel.pcb_table i)
    pub ticks : (i : ℕ) → i < 9 → b.kernel.ticks i ≡ pos 30
    pub priority : (i : ℕ) → i < 9 → b.kernel.priority i ≡ pos 30
    pub tasks : (i : ℕ) → i < 5 → Starts 1 1 (task i) (b.regs i)
    pub users : (i : ℕ) → i < 4 → Starts 3 0 (user_process i) (b.regs (5 + i))

  idle_pcb-IsIdle : (i : ℕ) → IsIdle i (idle_pcb i)
  idle_pcb-IsIdle i = record {
    pid = refl;
    p_flags = refl;
    p_msg = refl;
    p_recvfrom = refl;
    p_sendto = refl;
    has_int_msg = refl;
    q_sending = refl;
    next_sending = refl;
  }

  frame-task : (i : ℕ) → i < 5 → Starts 1 1 (task i) (frame task user_process i)
  frame-task i l =
      let t : ltb i nr_task ≡ true = ground (arith, l) in
      rw t (record {
        cs = refl;
        ds = refl;
        eip = refl;
        esp = refl;
        interrupts = refl;
        io_level = refl;
      })

  frame-user : (i : ℕ) → Starts 3 0 (user_process i) (frame task user_process (5 + i))
  frame-user i =
      let t : ltb (5 + i) nr_task ≡ false = ground arith in
      let at : 5 + i - nr_task ≡ i = omega arith in
      rw (t, at)
        (record {
          cs = refl;
          ds = refl;
          eip = refl;
          esp = refl;
          interrupts = refl;
          io_level = refl;
        })

  made-IsReady : (b : Boot) → IsMade task user_process nr_proc b → IsReady b
  made-IsReady b made = record {
    pcb = λ i l. rw (made.pcb i l) (idle_pcb-IsIdle i);
    ticks = made.ticks;
    priority = made.priority;
    tasks = λ i l. rw (made.regs i (omega (arith, l))) (frame-task i l);
    users = λ i l. rw (made.regs (5 + i) (omega (arith, l))) (frame-user i);
  }

  -- The first nine rounds of the loop of `kernelMain` make every entry of the table ready, each with
  -- 30 ticks, no flags, messages or queue, and the registers of its kind: a task runs with privilege
  -- 1 and a user process with privilege 3, each from the start and on the stack that its table names;
  -- but the loop has 37 rounds, and the tenth writes past the end of the table, whatever the state at
  -- the start.
  pub init_table-overruns :
      (b : Boot)
      → ((b' : Boot) × (init_from task user_process nr_proc 0 b ≡ ok b') × IsReady b')
        × (init_table task user_process b ≡ stop overrun)
  unfolding init_table init_from init_entry
  init_table-overruns b =
      let start : IsMade task user_process 0 b = record {
        pcb = λ i l. absurd (omega (arith, l));
        ticks = λ i l. absurd (omega (arith, l));
        priority = λ i l. absurd (omega (arith, l));
        regs = λ i l. absurd (omega (arith, l));
      } in
      let (b', run, made) = init_from-IsMade nr_proc 0 b (omega arith) start in
      ((b', run, made-IsReady b' made), refl)
