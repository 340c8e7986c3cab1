-- ===== src/Fs/Tests.antt =====
-- The theorems on the file system at a path and in a small file system.
use minx.Prelude.{
  Option, Result, stop, zero, suc, ℕ, ◌+◌, ◌*◌, ◌≤◌, ◌<◌, ◌%◌, ◌≡◌, inr, true, false, if◌then◌else◌,
  arith, ok, refl, none, some, take, has, [], ◌∷◌,
}
use minx.Prelude.Int.{ℤ, pos, int_of}
use minx.Kernel.{zero_msg}
use minx.Const.{max_filename_len, msg_write, sector_size}
use minx.Fs.Basename.{strip_path-take}
use minx.Fs.{strip_path, strip_from, skip_slash, slash}
use minx.Fs.Samples.{sample, sample_disk, sample_super_block, file_sample, inode_samples}
use minx.Fs.Alloc.{alloc_imap_bit, smap_bytes, Progress, set_bits, skip_bits}
use minx.Fs.State.{get_super_block, first_from, Fs}
use minx.Fs.Map.{Allocated, alloc_imap_bit_lem}
use minx.Fs.Inode.{get_inode, sync_inode, set_inode, scan_slots, use_slot}
use minx.Fs.Cache.{Gets, get_inode-Gets}
use minx.Fs.Unique.{IsUnique, get_inode-IsUnique}
use minx.Fs.Sync.{IsSynced, sync_inode-IsSynced}
use minx.Fs.Open.{do_lseek}
use minx.Fs.Seek.{Asks, Seeks, do_lseek-Seeks}
use minx.Fs.Rdwt.{Job, do_rdwt, rdwt_loop}
use minx.Fs.Count.{IsCounted, do_rdwt-IsCounted}
use minx.Fs.Transfer.{IsAll}
use minx.Fs.Fetch.{IsRead, rdwt_loop-IsRead}
use minx.Fs.Store.{IsStoredAt, rdwt_loop-IsStoredAt}
use minx.Fs.Dir.{search_file}
use minx.Fs.Lookup.{Finds, named_on, number_on, search_file-Finds}
use minx.Fs.Back.{IsEnough, rdwt_loop-back}
use minx.Fs.Log.{Log, log_loop}
use minx.Fs.Logged.{IsLogged, log_loop-IsLogged}

sample-byte : (i : ℕ) → sample_disk i < 256
sample-byte i = ground arith

alloc_imap_bit_lem_example : Allocated 800 sample (alloc_imap_bit 800 sample)
unfolding get_super_block first_from
alloc_imap_bit_lem_example = alloc_imap_bit_lem 800 0 0 sample refl refl refl sample-byte

-- The path /ab.
strip_path-take_case : strip_path (47 ∷ 97 ∷ 98 ∷ []) ≡ (
    if has slash (take max_filename_len (skip_slash (47 ∷ 97 ∷ 98 ∷ [])))
    then none
    else some (take max_filename_len (skip_slash (47 ∷ 97 ∷ 98 ∷ []))))
strip_path-take_case = strip_path-take (47 ∷ 97 ∷ 98 ∷ [])

sample-found : get_super_block 800 sample ≡ ok 0
unfolding get_super_block first_from
sample-found = refl

get_inode-Gets_example : Gets 800 9 sample_super_block sample (get_inode 800 9 sample)
get_inode-Gets_example = get_inode-Gets 800 9 0 sample refl sample-found (omega arith)

sample-IsUnique : IsUnique inode_samples
sample-IsUnique = record { same_slot = λ i j dev num li lj hi hj. ground (arith, hi, hj) }

-- The file of slot 1, used twice.
abbrev got_twice : Fs
got_twice = set_inode 1 (record (file_sample) { i_cnt = 2 }) sample

got_twice-run : get_inode 800 5 sample ≡ ok (some 1, got_twice)
unfolding get_inode scan_slots use_slot
got_twice-run = refl

get_inode-IsUnique_example : IsUnique got_twice.inode_table
get_inode-IsUnique_example =
    get_inode-IsUnique 800 5 0 sample (some 1) got_twice refl sample-found (omega arith)
      sample-IsUnique got_twice-run

sync_inode-IsSynced_example :
    (s' : Fs) × (sync_inode 1 sample ≡ ok s') × IsSynced sample_super_block file_sample sample s'
sync_inode-IsSynced_example = sync_inode-IsSynced 1 0 sample refl sample-found (record {
  i_mode = omega arith;
  i_size = omega arith;
  i_start_sect = omega arith;
  i_nr_sects = omega arith;
})

do_lseek-Seeks_example :
    (p : Option ℤ) × Asks 1 (int_of 4) 3 10 p × Seeks 0 10 sample p (do_lseek sample)
do_lseek-Seeks_example = do_lseek-Seeks 0 1 sample (omega arith) refl refl (omega arith)

-- A request to write 20 bytes, at position 3 of a file of 10.
abbrev writing : Fs
writing = record sample { fs_msg = record (zero_msg) { type = msg_write; m3i2 = 20 } }

do_rdwt-IsCounted_example :
    (n : ℕ) × (s' : Fs) × (do_rdwt (λ m. m) writing ≡ ok (pos n, s'))
    × (n ≤ 20)
    × (3 + 20 ≤ 2 * sector_size → n ≡ 20)
    × IsCounted 0 1 n writing s'
unfolding get_super_block
do_rdwt-IsCounted_example =
    do_rdwt-IsCounted (λ m. m) 0 1 0 writing refl refl refl refl (inr refl) refl sample-found
      (omega arith) (omega arith) (omega arith)

abbrev write_job : Job
write_job = record { reads = false; desc = 0; pin = 1; buf = 100; chunk = 1; rw_sect_max = 8 }

abbrev read_job : Job
read_job = record { reads = true; desc = 0; pin = 1; buf = 5000; chunk = 2; rw_sect_max = 8 }

rdwt_loop-IsRead_example :
    (n : ℕ) × (s' : Fs) × (rdwt_loop 4 read_job 7 3 0 600 sample ≡ ok (0 + n, s'))
    × IsAll read_job 7 3 600 n
    × IsRead 800 (7 * sector_size + 3) (5000 + 0) n sample s'
rdwt_loop-IsRead_example =
    rdwt_loop-IsRead 4 read_job 7 3 0 600 sample refl (omega arith) refl (omega arith) (omega arith)
      (omega arith) (omega arith) (omega arith)

rdwt_loop-IsStoredAt_example :
    (n : ℕ) × (s' : Fs) × (rdwt_loop 4 write_job 7 3 0 600 sample ≡ ok (0 + n, s'))
    × IsAll write_job 7 3 600 n
    × IsStoredAt 800 (7 * sector_size + 3) (100 + 0) n sample s'
rdwt_loop-IsStoredAt_example =
    rdwt_loop-IsStoredAt 4 write_job 7 3 0 600 sample refl (omega arith) refl (omega arith)
      (omega arith) (omega arith) (omega arith) (omega arith)

write_job-IsEnough : IsEnough 4 write_job 7 3
write_job-IsEnough = record {
  chunk = omega arith;
  few = omega arith;
  within = omega arith;
  some_fuel = omega arith;
  rounds = omega arith;
  small = omega arith;
}

read_job-IsEnough : IsEnough 4 read_job 7 3
read_job-IsEnough = record {
  chunk = omega arith;
  few = omega arith;
  within = omega arith;
  some_fuel = omega arith;
  rounds = omega arith;
  small = omega arith;
}

rdwt_loop-back_example :
    (n m : ℕ) × (s1 s2 : Fs) × (rdwt_loop 4 write_job 7 3 0 600 sample ≡ ok (n, s1))
    × (rdwt_loop 4 read_job 7 3 0 500 s1 ≡ ok (m, s2))
    × IsAll write_job 7 3 600 n
    × IsAll read_job 7 3 500 m
    × ((k : ℕ) → k < n → k < m → s2.memory (5000 + k) ≡ sample.memory (100 + k))
rdwt_loop-back_example =
    rdwt_loop-back 4 4 write_job read_job 7 3 600 500 sample refl refl refl refl write_job-IsEnough
      read_job-IsEnough

-- The path /ab, in the second entry, with the number 5.
search_file-Finds_example :
    Finds
      (named_on sample_disk 6 (97 ∷ 98 ∷ []))
      (number_on sample_disk 6)
      2
      0
      32
      sample
      (search_file (47 ∷ 97 ∷ 98 ∷ []) sample)
unfolding strip_path strip_from skip_slash
search_file-Finds_example =
    search_file-Finds (47 ∷ 97 ∷ 98 ∷ []) (97 ∷ 98 ∷ []) sample refl (omega arith) refl
      (omega arith) (omega arith)

log_loop-IsLogged_example :
    (l' : Log) × (log_loop 4 800 90 0 3 (record { fs = sample; pos = 64 }) ≡ ok l')
    × IsLogged 800 (90 * sector_size + 64 % sector_size) 0 3 (record { fs = sample; pos = 64 }) l'
log_loop-IsLogged_example =
    log_loop-IsLogged 4 800 90 0 3 (record { fs = sample; pos = 64 }) refl (omega arith)
      (omega arith)

-- A sector of the map whose first byte is full, and whose others have their lowest bit set.
abbrev map_sector : ℕ → ℕ
map_sector zero = 0xff
map_sector (suc j) = 1

abbrev second_byte : Result Progress → ℕ
second_byte (stop f) = 0
second_byte (ok p) = p.0 1

-- The five sectors stand for the bits 9 to 13.
smap_bytes-five : second_byte (smap_bytes 4 sample_super_block 0 0 (map_sector, 0, 5)) ≡ 0x3f
unfolding smap_bytes set_bits skip_bits
smap_bytes-five = refl
