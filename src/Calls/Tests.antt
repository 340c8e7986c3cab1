-- ===== src/Calls/Tests.antt =====
-- Process 6 writes 20 bytes in the sample file system.
use minx.Prelude.{ℕ, ◌+◌, ◌*◌, ◌≤◌, ◌≡◌, refl, false, ok, arith}
use minx.Prelude.Int.{pos}
use minx.Const.{sector_size}
use minx.Kernel.{zero_msg}
use minx.Fs.State.{Fs, get_super_block, first_from}
use minx.Fs.Samples.{sample}
use minx.Fs.Count.{grown}
use minx.Calls.Count.{call_of, call_of-counts}

call_of-counts_example :
    (n : ℕ) × (s' : Fs) × (call_of (λ m. m) false zero_msg 6 0 100 20 sample ≡ ok (pos n, s'))
    × (n ≤ 20)
    × (3 + 20 ≤ 2 * sector_size → n ≡ 20)
    × ((s'.f_desc_table 0).fd_pos ≡ 3 + n)
    × ((s'.inode_table 1).i_size ≡ grown 10 (3 + n))
unfolding get_super_block first_from
call_of-counts_example =
    call_of-counts (λ m. m) zero_msg false 6 0 100 20 0 1 0 sample refl refl refl refl refl refl
      (omega arith) (omega arith) (omega arith)
