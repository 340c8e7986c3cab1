-- ===== src/Mm.antt =====
-- Memory and processes, mm/main.c and mm/fork.c: what the process `task_mm` does for the calls `fork`,
-- `exit` and `wait`. mm/fork.c uses fields of a process, constants and routines that no file declares;
-- the fields are those of `Proc`, the rest is the parameter `Platform`. The messages that are sent
-- stand in `sent`, the last one first. What is printed is left out.
pub mod State
pub mod Memory
pub mod Fork
pub mod Exit
pub mod Task
mod Wait
mod Handed
mod Keep
mod Adopt
mod Leave
mod Tests
