-- ===== src/Mm/Task.antt =====
-- The loop of `task_mm` of mm/main.c: a request is served and, but for `exit` and `wait`, answered.
use minx.Prelude.{ℕ, ◌==◌, if◌then◌else◌, Result, ok, stop, assertion, ◌>>=◌}
use minx.Prelude.Int.{pattern_of}
use minx.Const.{msg_fork, msg_exit, msg_wait, msg_syscall_ret}
use minx.Kernel.{Message}
use minx.Mm.State.{Platform, Mm, post}
use minx.Mm.Fork.{do_fork}
use minx.Mm.Exit.{do_exit, do_wait}

-- The answer to the process that asked.
abbrev pub reply : ℕ → Mm → Mm
reply src s =
    let m = record (s.mm_msg) { type = msg_syscall_ret } in post src m (record s { mm_msg = m })

-- One round of the loop, for the message `m`.
unfoldable pub serve_mm : Platform → ℕ → ℕ → Message → Mm → Result Mm
serve_mm pl fuel fmt m s =
    let s0 = record s { mm_msg = m } in
    if m.type == msg_fork
    then (do_fork pl fuel fmt s0 >>= λ (r, s1).
        ok (reply m.source (record s1 { mm_msg = record (s1.mm_msg) { m3i1 = pattern_of r } })))
    else if m.type == msg_exit
    then do_exit pl m.m3i1 s0
    else if m.type == msg_wait
    then ok (do_wait pl s0)
    else stop assertion
