-- ===== src/Ipc/Interrupt.antt =====
-- `inform_int`: an interrupt for a task.
use minx.Prelude.{
  ℕ, ◌<◌, ◌≡◌, refl, ◌⊎◌, inl, inr, Bool, true, false, List, arith, has_flag, ◌==◌, ◌&&◌, ◌||◌,
  Bool-cases, update, ok, clear_flag, eq→==,
}
use minx.Const.{nr_proc, receiving, no_task, any, interrupt, hard_int}
use minx.Kernel.{Pcb, Kernel}
use minx.Ipc.{inform_int}
use minx.Ipc.Base.{set_pcb, unblock}
use minx.Ipc.State.{Status, IsReady, IsReceiving, IsValid, receiver_of_flag}
use minx.Ipc.Update.{update-IsValid, mark-IsValid}

module _ (k : Kernel) (task_nr : ℕ) where
  abbrev pub p : Pcb
  p = k.pcb_table task_nr

  -- The task waits for an interrupt.
  abbrev pub expects : Bool
  expects = has_flag p.p_flags receiving && (p.p_recvfrom == interrupt || p.p_recvfrom == any)

  -- The entry of the task that has been told of the interrupt.
  abbrev pub told : Pcb
  told = record p {
    p_msg = 0;
    has_int_msg = 0;
    p_flags = clear_flag p.p_flags receiving;
    p_recvfrom = no_task;
  }

  abbrev pub waked : Kernel
  waked =
      set_pcb
        (record k {
          memory =
              update k.memory p.p_msg
                (record (k.memory p.p_msg) { source = interrupt; type = hard_int });
        })
        task_nr told

  abbrev pub marked : Kernel
  marked = set_pcb k task_nr (record p { has_int_msg = 1 })

  told-IsReady : IsReceiving p → IsReady told
  told-IsReady r = record { flags = rw r.flags; msg = refl; recvfrom = refl; sendto = r.sendto }

  waked-ok : expects ≡ true → IsReceiving p → inform_int task_nr k ≡ ok waked
  unfolding inform_int unblock
  waked-ok e r = rw (e, (told-IsReady r).flags, r.sendto, eq→== task_nr task_nr refl)

  marked-ok : expects ≡ false → inform_int task_nr k ≡ ok marked
  unfolding inform_int
  marked-ok e = rw e

  marked-Status : expects ≡ false → Status p → Status (record p { has_int_msg = 1 })
  marked-Status e (inl r) =
      inl (record { flags = r.flags; msg = r.msg; recvfrom = r.recvfrom; sendto = r.sendto })
  marked-Status e (inr (inl s)) =
      inr (inl (record { flags = s.flags; msg = s.msg; recvfrom = s.recvfrom; sendto = s.sendto }))
  marked-Status e (inr (inr r)) =
      let other : (p.p_recvfrom == interrupt || p.p_recvfrom == any) ≡ false = rw r.flags at e in
      inr (
        inr (record {
          flags = r.flags;
          msg = r.msg;
          recvfrom = r.recvfrom;
          sendto = r.sendto;
          quiet = λ who. absurd (ground arith);
        }))

module _ {k : Kernel} {q : ℕ → List ℕ} (v : IsValid k.pcb_table q) (task_nr : ℕ)
    (h : task_nr < nr_proc) where
  -- In a well-formed state `inform_int` of a process fails no assertion. A task that waits for an
  -- interrupt, or for anyone, is woken with a hardware-interrupt message in its buffer; for any
  -- other the interrupt is pending. Either way the table is well-formed for the same sending
  -- queues.
  pub inform_int_lem :
      (k' : Kernel) × (inform_int task_nr k ≡ ok k')
      × IsValid k'.pcb_table q
      × (((expects k task_nr ≡ true) × IsReady (told k task_nr) × (k' ≡ waked k task_nr))
          ⊎ ((expects k task_nr ≡ false) × (k' ≡ marked k task_nr)))
  inform_int_lem = elim (Bool-cases (expects k task_nr)) [
    | inl e ↦
        let r = receiver_of_flag (p k task_nr) (v.status task_nr h) (ground arith) in
        let ready = told-IsReady k task_nr r in
        (
          waked k task_nr,
          waked-ok k task_nr e r,
          update-IsValid v task_nr (told k task_nr) (record {
            pid = refl;
            first = refl;
            next = refl;
            status = inl ready;
            was = omega (arith, r.flags);
            now = omega (arith, ready.flags);
          }),
          inl (e, ready, refl),
        )
    | inr e ↦ (
      marked k task_nr,
      marked-ok k task_nr e,
      mark-IsValid v task_nr (record (p k task_nr) { has_int_msg = 1 }) refl refl refl (refl, refl)
          (marked-Status k task_nr e (v.status task_nr h)),
      inr (e, refl),
    )
  ]
