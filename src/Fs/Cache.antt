-- ===== src/Fs/Cache.antt =====
-- `get_inode` and `put_inode` of fs/main.c: the table of i-nodes as a cache.
use minx.Prelude.{
  ℕ, zero, suc, ◌+◌, ◌≤◌, ◌<◌, ◌≡◌, ◌≢◌, inl, inr, refl, sym, ap, ◌∙◌, Bool, true, false, not, ◌&&◌,
  ◌==◌, update, update_self, update_ne, Option, none, some, Result, ok, stop, panic, ◌>>=◌, arith,
  Bool-cases,
}
use minx.Const.{sector_size, nr_inode}
use minx.Fs.State.{
  Inode, SuperBlock, Fs, copy, first_from, get_super_block, read32, read_sector, has_driver,
  sect_pos,
}
use minx.Fs.Inode.{
  taken_by, with_words, set_inode, Slot, is_inode, scan_slots, load_inode, use_slot, get_inode,
  inode_sect, inode_off, inode_pos,
}
use minx.Fs.Scan.{Found, first_from-Found}
use minx.Fs.Buffer.{read32-load}

-- The slot is in use and holds the i-node.
abbrev pub holds : ℕ → ℕ → Inode → Bool
holds dev num v = not (v.i_cnt == 0) && is_inode dev num v

abbrev pub is_free : Inode → Bool
is_free v = v.i_cnt == 0

abbrev slot_of : Option ℕ → Slot
slot_of none = Slot.full
slot_of (some q) = Slot.free q

abbrev or_else : Option ℕ → Option ℕ → Option ℕ
or_else none r = r
or_else (some q) r = some q

abbrev either : Option ℕ → Option ℕ → Slot
either (some r) q = Slot.cached r
either none q = slot_of q

-- The loop looks for the i-node and for the first free slot at once; here these are two searches.
abbrev two_searches : ℕ → (ℕ → Inode) → ℕ → ℕ → ℕ → Option ℕ → Slot
two_searches left table dev num p q =
    either (first_from left (λ i. holds dev num (table i)) p)
      (or_else q (first_from left (λ i. is_free (table i)) p))

scan_slots-searches :
    (left : ℕ) (table : ℕ → Inode) (dev num p : ℕ) (q : Option ℕ)
    → scan_slots left table dev num p q ≡ two_searches left table dev num p q
unfolding scan_slots first_from
scan_slots-searches zero table dev num p none = refl
scan_slots-searches zero table dev num p (some q) = refl
scan_slots-searches (suc left) table dev num p none = elim (Bool-cases (is_free (table p))) [
  | inl e ↦ rw e (scan_slots-searches left table dev num (p + 1) (some p))
  | inr e ↦ elim (Bool-cases (is_inode dev num (table p))) [
    | inl same ↦ rw (e, same) refl
    | inr other ↦ rw (e, other) (scan_slots-searches left table dev num (p + 1) none)
  ]
]
scan_slots-searches (suc left) table dev num p (some q) = elim (Bool-cases (is_free (table p))) [
  | inl e ↦ rw e (scan_slots-searches left table dev num (p + 1) (some q))
  | inr e ↦ elim (Bool-cases (is_inode dev num (table p))) [
    | inl same ↦ rw (e, same) refl
    | inr other ↦ rw (e, other) (scan_slots-searches left table dev num (p + 1) (some q))
  ]
]

-- `v` is the i-node `num` of the device, as the disk has it, used once.
pub record IsLoaded (dev num : ℕ) (sb : SuperBlock) (disk : ℕ → ℕ → ℕ) (v : Inode) : Type 0 where
  pub i_dev : v.i_dev ≡ dev
  pub i_num : v.i_num ≡ num
  pub i_cnt : v.i_cnt ≡ 1
  pub i_mode : v.i_mode ≡ read32 (disk dev) (inode_pos sb num)
  pub i_size : v.i_size ≡ read32 (disk dev) (inode_pos sb num + 4)
  pub i_start_sect : v.i_start_sect ≡ read32 (disk dev) (inode_pos sb num + 8)
  pub i_nr_sects : v.i_nr_sects ≡ read32 (disk dev) (inode_pos sb num + 12)

-- What `get_inode` does, with the super block `sb` of the device: it counts one more use of a slot
-- that holds the i-node; else it loads the i-node into the first free slot; else it panics.
pub data Gets (dev num : ℕ) (sb : SuperBlock) (s : Fs) : Result (Option ℕ × Fs) → Type 0 where
  again :
      {p : ℕ} {s' : Fs}
      → p < nr_inode
      → holds dev num (s.inode_table p) ≡ true
      → s' ≡ set_inode p (record (s.inode_table p) { i_cnt = (s.inode_table p).i_cnt + 1 }) s
      → Gets dev num sb s (ok (some p, s'))
  fresh :
      {p : ℕ} {s' : Fs}
      → ((i : ℕ) → i < nr_inode → holds dev num (s.inode_table i) ≡ false)
      → p < nr_inode
      → (s.inode_table p).i_cnt ≡ 0
      → ((i : ℕ) → i < p → (s.inode_table i).i_cnt ≢ 0)
      → IsLoaded dev num sb s.disk (s'.inode_table p)
      → ((i : ℕ) → i ≢ p → s'.inode_table i ≡ s.inode_table i)
      → s'.disk ≡ s.disk
      → Gets dev num sb s (ok (some p, s'))
  crowded :
      ((i : ℕ) → i < nr_inode → holds dev num (s.inode_table i) ≡ false)
      → ((i : ℕ) → i < nr_inode → (s.inode_table i).i_cnt ≢ 0)
      → Gets dev num sb s (stop panic)

-- A word of the i-node, read into the buffer with its sector.
word_at :
    (dev num k : ℕ) (sb : SuperBlock) (s : Fs)
    → k ≤ 12
    → read32
        (copy s.fsbuf 0 (s.disk dev) (sect_pos (inode_sect sb num)) sector_size)
        (inode_off num + k)
      ≡ read32 (s.disk dev) (inode_pos sb num + k)
word_at dev num k sb s l =
    read32-load s.fsbuf (s.disk dev) (sect_pos (inode_sect sb num)) sector_size (inode_off num + k)
      (omega (arith, l))
    ∙ ap (read32 (s.disk dev)) (omega arith)

first_word :
    (dev num : ℕ) (sb : SuperBlock) (s : Fs)
    → read32
        (copy s.fsbuf 0 (s.disk dev) (sect_pos (inode_sect sb num)) sector_size)
        (inode_off num)
      ≡ read32 (s.disk dev) (inode_pos sb num)
first_word dev num sb s =
    read32-load s.fsbuf (s.disk dev) (sect_pos (inode_sect sb num)) sector_size (inode_off num)
      (omega arith)

load_inode-Gets :
    (dev num b p : ℕ) (s : Fs)
    → has_driver dev ≡ true
    → get_super_block dev s ≡ ok b
    → ((i : ℕ) → i < nr_inode → holds dev num (s.inode_table i) ≡ false)
    → p < nr_inode
    → (s.inode_table p).i_cnt ≡ 0
    → ((i : ℕ) → i < p → (s.inode_table i).i_cnt ≢ 0)
    → Gets dev num (s.super_block b) s (load_inode dev num p s >>= λ s1. ok (some p, s1))
unfolding load_inode read_sector get_super_block
load_inode-Gets dev num b p s driver found none_holds l cnt first =
    let sb = s.super_block b in
    let taken = taken_by dev num (s.inode_table p) in
    let t1 = update s.inode_table p taken in
    let buf = copy s.fsbuf 0 (s.disk dev) (sect_pos (inode_sect sb num)) sector_size in
    let v = with_words buf (inode_off num) taken in
    let slot : update t1 p v p ≡ v = update_self t1 p v in
    rw (found, driver)
      (fresh none_holds l cnt first
        (record {
          i_dev = ap (λ (v : Inode). v.i_dev) slot;
          i_num = ap (λ (v : Inode). v.i_num) slot;
          i_cnt = ap (λ (v : Inode). v.i_cnt) slot;
          i_mode = ap (λ (v : Inode). v.i_mode) slot ∙ first_word dev num sb s;
          i_size = ap (λ (v : Inode). v.i_size) slot ∙ word_at dev num 4 sb s (omega arith);
          i_start_sect =
              ap (λ (v : Inode). v.i_start_sect) slot ∙ word_at dev num 8 sb s (omega arith);
          i_nr_sects =
              ap (λ (v : Inode). v.i_nr_sects) slot ∙ word_at dev num 12 sb s (omega arith);
        })
        (λ i ne.
          update_ne t1 p i v (λ e. ne (sym e))
          ∙ update_ne s.inode_table p i taken (λ e. ne (sym e)))
        refl)

-- On a device with a driver and a super block, and for a number that is not 0, `get_inode` does one
-- of three things. If a slot in use holds the i-node, that slot is used once more. If none does and
-- a slot is free, the first free slot holds the i-node as the disk has it, used once, and the other
-- slots and the disk are as before. If none does and all slots are in use, it panics.
pub get_inode-Gets :
    (dev num b : ℕ) (s : Fs)
    → has_driver dev ≡ true
    → get_super_block dev s ≡ ok b
    → num ≢ 0
    → Gets dev num (s.super_block b) s (get_inode dev num s)
unfolding get_inode use_slot
get_inode-Gets dev zero b s driver found ne = absurd (ne refl)
get_inode-Gets dev (suc n) b s driver found ne =
    let run : get_inode dev (suc n) s
        ≡ use_slot dev (suc n) s (two_searches nr_inode s.inode_table dev (suc n) 0 none) =
      ap (use_slot dev (suc n) s) (scan_slots-searches nr_inode s.inode_table dev (suc n) 0 none) in
    rw run (
      choose (first_from-Found nr_inode _ 0 nr_inode refl)
        (first_from-Found nr_inode _ 0 nr_inode refl))
  where
    choose :
        {r f : Option ℕ}
        → Found (λ i. holds dev (suc n) (s.inode_table i)) 0 nr_inode r
        → Found (λ i. is_free (s.inode_table i)) 0 nr_inode f
        → Gets dev (suc n) (s.super_block b) s (use_slot dev (suc n) s (either r f))
    choose (Found.first_at a l h before) found_free = again l h refl
    choose (Found.absent none_holds) (Found.absent none_free) =
        crowded (λ i l. none_holds i (omega arith) l)
          (λ i l e. let t = none_free i (omega arith) l in ground (arith, t, e))
    choose (Found.absent none_holds) (Found.first_at a l h before) =
        load_inode-Gets dev (suc n) b _ s driver found (λ i l. none_holds i (omega arith) l) l
          (ground (arith, h)) (λ i li e. let t = before i (omega arith) li in ground (arith, t, e))
