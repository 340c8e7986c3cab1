-- ===== src/History/Tests.antt =====
-- Two steps from the state in which nobody is blocked: a key is pressed, and process 5 sends to
-- process 3.
use minx.Prelude.{arith}
use minx.Const.{send}
use minx.Ipc.Steps.{Keeps, sys_sendrec-Keeps}
use minx.Ipc.Samples.{five, can_call, sent, start-IsValid, no_queues}
use minx.History.{Steps, system_call, key, done, next, Steps-Keeps}

sys_sendrec-Keeps_case : Keeps sent.0
sys_sendrec-Keeps_case =
    sys_sendrec-Keeps {k = five} start-IsValid send 3 100 5 can_call (λ _. omega arith) sent.1

two_steps : Steps five (record sent.0 { key_pressed = 1 })
two_steps = next (system_call can_call (λ _. omega arith) sent.1) (next key done)

Steps-Keeps_example : Keeps (record sent.0 { key_pressed = 1 })
Steps-Keeps_example = Steps-Keeps two_steps (no_queues, start-IsValid)
