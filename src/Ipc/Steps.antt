-- ===== src/Ipc/Steps.antt =====
-- The kernel as a transition system: calls of `sys_sendrec` and interrupts, in any order.
use mathlib.Core.Path.{subst}
use minx.Prelude.{
  ℕ, ◌<◌, ◌≡◌, ◌≢◌, refl, sym, ◌∙◌, ◌⊎◌, inl, inr, true, List, [], ◌∷◌, ◌++◌, arith, has, update,
  remove, ◌==◌, ltb, not, Result, ok, stop, panic, ok_of_check, Bool-cases, check, ◌>>◌,
  if◌then◌else◌, ◌||◌, Bool,
}
use minx.Prelude.Int.{pos, ◌≤ℤ◌}
use minx.Const.{nr_proc, any, interrupt, no_task, send, receive}
use minx.Kernel.{Kernel}
use minx.Sched.Pick.{CanRun}
use minx.Ipc.{sys_sendrec}
use minx.Ipc.Recv.{msg_receive}
use minx.Ipc.Send.{msg_send, awaits}
use minx.Ipc.State.{IsReady, IsValid}
use minx.Ipc.Chain.{deadlock_lem}
use minx.Ipc.Deliver.{IsSend, msg_send-panic, msg_send-deliver}
use minx.Ipc.Enqueue.{msg_send-enqueue}
use minx.Ipc.Wait.{IsReceive}
use minx.Ipc.Receive.{IsReceived}
use minx.Ipc.Outcome.{
  NoMessage, msg_receive-interrupt, msg_receive-first, msg_receive-from, msg_receive-wait,
}
use minx.Ipc.Pending.{msg_receive-pending}

-- Process `p` may make a call with the buffer `m`: it runs, and some other process may run after it.
pub record CanCall (k : Kernel) (p m : ℕ) : Type 0 where
  pub caller : p < nr_proc
  pub buffer : m ≢ 0
  pub ready : IsReady (k.pcb_table p)
  pub other : ℕ
  pub below : other < nr_proc
  pub apart : other ≢ p
  pub runs : CanRun k other
  pub priority : pos 1 ≤ℤ k.priority other

-- Whom a call may name: a process, anyone, or an interrupt.
pub data Names (dest : ℕ) : Type 0 where
  process : dest < nr_proc → Names dest
  anyone : dest ≡ any → Names dest
  hardware : dest ≡ interrupt → Names dest

-- The table is well-formed for some sending queues.
abbrev pub Keeps : Kernel → Type 0
Keeps k = (q : ℕ → List ℕ) × IsValid k.pcb_table q

pub ok-same : (j k : Kernel) (r : Result Kernel) → r ≡ ok j → r ≡ ok k → Keeps j → Keeps k
ok-same j k r e f w = let eq : j ≡ k = cc in subst Keeps eq w

module _ {k : Kernel} {q : ℕ → List ℕ} (v : IsValid k.pcb_table q) {p m : ℕ} (c : CanCall k p m)
    (k' : Kernel) where
  send-Keeps : (dest : ℕ) → dest < nr_proc → p ≢ dest → msg_send p dest m k ≡ ok k' → Keeps k'
  send-Keeps dest to apart run =
      let s : IsSend k p dest m = record {
        from = c.caller;
        to = to;
        apart = apart;
        buffer = c.buffer;
        ready = c.ready;
      } in
      elim (deadlock_lem k v p dest to) [
        | inl (lead, _) ↦ let e = msg_send-panic v s lead in cc
        | inr (safe, _) ↦ elim (Bool-cases (awaits (k.pcb_table dest) p)) [
          | inl w ↦
              let (j, e, valid, _, _, _) = msg_send-deliver v s w in ok-same j k' _ e run (q, valid)
          | inr w ↦
              let (j, e, d) =
                msg_send-enqueue v s c.other w safe c.below c.apart c.runs c.priority in
              ok-same j k' _ e run (update q dest (q dest ++ p ∷ []), d.valid)
        ]
      ]

  module _ (src : ℕ) (r : IsReceive k p src m) (run : msg_receive p src m k ≡ ok k') where
    received-Keeps :
        (s : ℕ) → (j : Kernel) × (msg_receive p src m k ≡ ok j) × IsReceived k j q s p m → Keeps k'
    received-Keeps s (j, e, d) = ok-same j k' _ e run (update q p (remove s (q p)), d.valid)

    wait-Keeps : (k.pcb_table p).has_int_msg ≡ 0 → NoMessage v r → Keeps k'
    wait-Keeps quiet none =
        let (j, e, d) = msg_receive-wait v r c.other quiet none c.below c.apart c.runs c.priority in
        ok-same j k' _ e run (q, d.valid)

    interrupted-Keeps : (k.pcb_table p).has_int_msg ≢ 0 → (src ≡ any) ⊎ (src ≡ interrupt) → Keeps k'
    interrupted-Keeps pending who =
        let (j, e, d) = msg_receive-interrupt v r pending who in ok-same j k' _ e run (q, d.valid)

    from-Keeps : src < nr_proc → Keeps k'
    from-Keeps lt = elim (Bool-cases (has src (q p))) [
      | inl mem ↦ received-Keeps src (msg_receive-from v r lt mem)
      | inr out ↦ elim (Bool-cases ((k.pcb_table p).has_int_msg == 0)) [
        | inl z ↦ wait-Keeps (ground arith) (inr (inl (lt, out)))
        | inr nz ↦
            let e =
              msg_receive-pending v r c.other (ground arith) lt out c.below c.apart c.runs
                c.priority in
            cc
      ]
    ]

    any-Keeps : src ≡ any → Keeps k'
    any-Keeps who = elim (Bool-cases ((k.pcb_table p).has_int_msg == 0)) [
      | inr nz ↦ interrupted-Keeps (ground arith) (inl who)
      | inl z ↦ go (q p) refl (ground arith)
    ]
      where
        go : (xs : List ℕ) → q p ≡ xs → (k.pcb_table p).has_int_msg ≡ 0 → Keeps k'
        go [] e quiet = wait-Keeps quiet (inl (who, e))
        go (s ∷ xs) e quiet = received-Keeps s (msg_receive-first v r s xs quiet who e)

    hardware-Keeps : src ≡ interrupt → Keeps k'
    hardware-Keeps who = elim (Bool-cases ((k.pcb_table p).has_int_msg == 0)) [
      | inr nz ↦ interrupted-Keeps (ground arith) (inr who)
      | inl z ↦ wait-Keeps (ground arith) (inr (inr who))
    ]

  receive-Keeps : (src : ℕ) → Names src → p ≢ src → msg_receive p src m k ≡ ok k' → Keeps k'
  receive-Keeps src n apart run = go n
    where
      asks : src ≢ no_task → IsReceive k p src m
      asks from = record {
        to = c.caller;
        apart = apart;
        from = from;
        buffer = c.buffer;
        ready = c.ready;
      }

      go : Names src → Keeps k'
      go (process lt) = from-Keeps src (asks (omega (arith, lt))) run lt
      go (anyone e) = any-Keeps src (asks (omega (arith, e))) run e
      go (hardware e) = hardware-Keeps src (asks (omega (arith, e))) run e

-- The kernel in which the message of a call names its sender.
abbrev pub stamped : Kernel → ℕ → ℕ → Kernel
stamped k m p = record k { memory = update k.memory m (record (k.memory m) { source = p }) }

-- The call that `sys_sendrec` has made.
data Served (ipc_type dest m p : ℕ) (k k' : Kernel) : Type 0 where
  sent : ipc_type ≡ send → msg_send p dest m (stamped k m p) ≡ ok k' → Served ipc_type dest m p k k'
  received : msg_receive p dest m (stamped k m p) ≡ ok k' → Served ipc_type dest m p k k'

Names-of_test :
    (dest : ℕ) → (ltb dest nr_proc || dest == any || dest == interrupt) ≡ true → Names dest
Names-of_test dest h = elim (Bool-cases (ltb dest nr_proc)) [
  | inl a ↦ process (ground arith)
  | inr a ↦ elim (Bool-cases (dest == any)) [
    | inl b ↦ anyone (ground arith)
    | inr b ↦ hardware (ground arith)
  ]
]

-- `sys_sendrec` after its checks, for a caller whose `pid` is `p`.
abbrev call : Kernel → ℕ → ℕ → ℕ → ℕ → Result Kernel
call k ipc_type dest m p =
    if ipc_type == send
    then msg_send p dest m (stamped k m p)
    else if ipc_type == receive
    then msg_receive p dest m (stamped k m p)
    else stop panic

abbrev in_range : ℕ → Bool
in_range dest = ltb dest nr_proc || dest == any || dest == interrupt

call-Served :
    (k k' : Kernel) (ipc_type dest m p : ℕ)
    → call k ipc_type dest m p ≡ ok k'
    → Served ipc_type dest m p k k'
call-Served k k' ipc_type dest m p run = elim (Bool-cases (ipc_type == send)) [
  | inl a ↦ sent (ground arith) (rw a at run)
  | inr a ↦ elim (Bool-cases (ipc_type == receive)) [
    | inl b ↦ received (rw (a, b) at run)
    | inr b ↦ let bad : stop panic ≡ ok k' = rw (a, b) at run in cc
  ]
]

sys_sendrec-call :
    (k : Kernel) (ipc_type dest m p : ℕ)
    → (k.pcb_table p).pid ≡ p
    → sys_sendrec ipc_type dest m p k ≡ (
        check (k.int_re_enter == 0)
        >> (check (in_range dest) >> (check (not (p == dest)) >> call k ipc_type dest m p)))
unfolding sys_sendrec
sys_sendrec-call k ipc_type dest m p pid = rw pid refl

-- A call that returns has passed the checks and is one of the two kinds.
sys_sendrec-Served :
    (k k' : Kernel) (ipc_type dest m p : ℕ)
    → (k.pcb_table p).pid ≡ p
    → sys_sendrec ipc_type dest m p k ≡ ok k'
    → Names dest × (p ≢ dest) × Served ipc_type dest m p k k'
sys_sendrec-Served k k' ipc_type dest m p pid run =
    let rest = call k ipc_type dest m p in
    let apart = check (not (p == dest)) >> rest in
    let first =
      ok_of_check (k.int_re_enter == 0) (check (in_range dest) >> apart)
        (sym (sys_sendrec-call k ipc_type dest m p pid) ∙ run) in
    let second = ok_of_check (in_range dest) apart first.1 in
    let third = ok_of_check (not (p == dest)) rest second.1 in
    let other : p ≢ dest = ground (arith, third.0) in
    (Names-of_test dest second.0, other, call-Served k k' ipc_type dest m p third.1)

-- If a call of `sys_sendrec` in a well-formed state returns, the table is well-formed for some
-- sending queues again, where the caller is not blocked and has a buffer, some other process may
-- run and has a positive priority, and a message is sent to a process.
pub sys_sendrec-Keeps :
    {k k' : Kernel} {q : ℕ → List ℕ}
    → IsValid k.pcb_table q
    → (ipc_type dest m p : ℕ) → CanCall k p m
    → (ipc_type ≡ send → dest < nr_proc)
    → sys_sendrec ipc_type dest m p k ≡ ok k'
    → Keeps k'
sys_sendrec-Keeps {k} {k'} v ipc_type dest m p c to run =
    let (named, apart, s) = sys_sendrec-Served k k' ipc_type dest m p (v.pids p c.caller) run in
    let c' : CanCall (stamped k m p) p m = record {
      caller = c.caller;
      buffer = c.buffer;
      ready = c.ready;
      other = c.other;
      below = c.below;
      apart = c.apart;
      runs = c.runs;
      priority = c.priority;
    } in
    elim s [
      | sent e run' ↦ send-Keeps {k = stamped k m p} v c' k' dest (to e) apart run'
      | received run' ↦ receive-Keeps {k = stamped k m p} v c' k' dest named apart run'
    ]
