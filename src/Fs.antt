-- ===== src/Fs.antt =====
-- The file system, fs/. This module has `strip_path` of fs/misc.c; the other operations and the
-- proofs are in the child modules.
pub mod Basename
pub mod Map
pub mod State
pub mod Samples
pub mod Scan
pub mod Buffer
pub mod Cache
pub mod Unique
pub mod Sync
pub mod Seek
pub mod Transfer
pub mod Count
pub mod Content
pub mod Fetch
pub mod Store
pub mod Back
pub mod Search
pub mod Lookup
pub mod Inode
pub mod Dir
pub mod Alloc
pub mod Open
pub mod Rdwt
pub mod Unlink
pub mod Mkfs
pub mod Log
pub mod Logged
pub mod Marks
pub mod Filled
pub mod Taken
pub mod Smap
pub mod Task
mod Tests
use minx.Const.{max_filename_len}
use minx.Prelude.{
  ℕ, zero, suc, ◌+◌, ◌*◌, ◌/◌, ◌%◌, ◌^◌, ◌==◌, if◌then◌else◌, update, bit_or, List, [], ◌∷◌, Option,
  none, some, Result, ok, stop, panic, hang, ◌>>=◌,
}

-- The character `/`.
abbrev pub slash : ℕ
slash = 47

-- The `while` of `strip_path`, with room for `room` more characters; `none` for -1.
pub strip_from : ℕ → List ℕ → Option (List ℕ)
strip_from room [] = some []
strip_from zero (c ∷ s) = some []
strip_from (suc room) (c ∷ s) =
    let rest = strip_from room s in
    if c == slash then none else elim rest [ none ↦ none | some t ↦ some (c ∷ t) ]

-- `if (*s == '/') s++;`
pub skip_slash : List ℕ → List ℕ
skip_slash [] = []
skip_slash (c ∷ s) = if c == slash then s else c ∷ s

-- The file name of a path that is not null; `none` for -1.
pub strip_path : List ℕ → Option (List ℕ)
strip_path pathname = strip_from max_filename_len (skip_slash pathname)
