-- ===== src/Hd/Partition.antt =====
-- The tables of partitions that `partition` of kernel/hd.c fills.
use minx.Prelude.{
  ℕ, zero, suc, ◌+◌, ◌-◌, ◌*◌, ◌^◌, ◌%◌, ◌≤◌, ◌<◌, ◌≡◌, ◌≢◌, ◌⊎◌, inl, inr, refl, sym, ap, ◌∙◌,
  ◌==◌, update, update_self, update_ne, List, arith, Bool-cases,
}
use minx.Hd.{Hd, HdCmd, HdInfo, PartInfo, nr_sub_per_drive}
use minx.Hd.Task.{get_part_table, part_ent, set_logical, partition_extended, partition_sub}

-- Of what the driver knows of `drive`, only logical partitions from `first` up to `last` differ.
pub record IsWithin (drive first last : ℕ) (hd hd' : Hd) : Type 0 where
  pub logical :
      (i : ℕ)
      → (i < first) ⊎ (last ≤ i)
      → (hd'.hd_info drive).logical i ≡ (hd.hd_info drive).logical i
  pub primary : (hd'.hd_info drive).primary ≡ (hd.hd_info drive).primary
  pub open_cnt : (hd'.hd_info drive).open_cnt ≡ (hd.hd_info drive).open_cnt
  pub drives : (d : ℕ) → d ≢ drive → hd'.hd_info d ≡ hd.hd_info d

same_info :
    {drive first last : ℕ} {hd hd1 hd' : Hd}
    → hd1.hd_info ≡ hd.hd_info
    → IsWithin drive first last hd1 hd'
    → IsWithin drive first last hd hd'
same_info {drive} e t = record {
  logical = λ i apart. t.logical i apart ∙ ap (λ h. (h drive).logical i) e;
  primary = t.primary ∙ ap (λ h. (h drive).primary) e;
  open_cnt = t.open_cnt ∙ ap (λ h. (h drive).open_cnt) e;
  drives = λ d ne. t.drives d ne ∙ ap (λ h. h d) e;
}

widen :
    {drive first last first' last' : ℕ} {hd hd' : Hd}
    → first' ≤ first
    → last ≤ last'
    → IsWithin drive first last hd hd'
    → IsWithin drive first' last' hd hd'
widen low high t = record {
  logical = λ i apart. t.logical i (grind (arith, apart, low, high));
  primary = t.primary;
  open_cnt = t.open_cnt;
  drives = t.drives;
}

both :
    {drive first last : ℕ} {hd hd1 hd2 : Hd}
    → IsWithin drive first last hd hd1
    → IsWithin drive first last hd1 hd2
    → IsWithin drive first last hd hd2
both t u = record {
  logical = λ i apart. u.logical i apart ∙ t.logical i apart;
  primary = u.primary ∙ t.primary;
  open_cnt = u.open_cnt ∙ t.open_cnt;
  drives = λ d ne. u.drives d ne ∙ t.drives d ne;
}

module _ (answer : List HdCmd → ℕ → ℕ → ℕ) where
  get_part_table-info :
      (drive s : ℕ) (hd : Hd) → (get_part_table answer drive s hd).hd_info ≡ hd.hd_info
  unfolding get_part_table
  get_part_table-info drive s hd = refl

  set_logical-IsWithin :
      (drive dev_nr : ℕ) (v : PartInfo) (hd : Hd)
      → IsWithin drive dev_nr (dev_nr + 1) hd (set_logical answer drive dev_nr v hd)
  set_logical-IsWithin drive dev_nr v hd =
      let info = hd.hd_info drive in
      let info' : HdInfo = record info { logical = update info.logical dev_nr v } in
      let here : update hd.hd_info drive info' drive ≡ info' = update_self hd.hd_info drive info' in
      record {
        logical = λ i apart.
            ap (λ (x : HdInfo). x.logical i) here
            ∙ update_ne info.logical dev_nr i v (λ e. grind (arith, apart, e));
        primary = ap (λ (x : HdInfo). x.primary) here;
        open_cnt = ap (λ (x : HdInfo). x.open_cnt) here;
        drives = λ d ne. update_ne hd.hd_info drive d info' (λ e. ne (sym e));
      }

  -- The loop over an extended partition fills at most `left` logical partitions, from `dev_nr` on.
  partition_extended-IsWithin :
      (left drive ext_start_sect dev_nr last s : ℕ) (hd : Hd)
      → last ≡ dev_nr + left
      → IsWithin drive dev_nr last hd
          (partition_extended answer left drive ext_start_sect dev_nr s hd)
  unfolding partition_extended
  partition_extended-IsWithin zero drive ext dev_nr last s hd e = record {
    logical = λ i apart. refl;
    primary = refl;
    open_cnt = refl;
    drives = λ d ne. refl;
  }
  partition_extended-IsWithin (suc left) drive ext dev_nr last s hd e =
      let hd1 = get_part_table answer drive s hd in
      let first = part_ent answer hd1.hdbuf 0 in
      let second = part_ent answer hd1.hdbuf 1 in
      let v : PartInfo = record { base = (s + first.start_sect) % 2 ^ 32; size = first.nr_sects } in
      let hd2 = set_logical answer drive dev_nr v hd1 in
      let one : IsWithin drive dev_nr (dev_nr + 1) hd hd2 =
        same_info (get_part_table-info drive s hd) (set_logical-IsWithin drive dev_nr v hd1) in
      let wide : IsWithin drive dev_nr last hd hd2 = widen (omega arith) (omega (arith, e)) one in
      let rest =
        partition_extended-IsWithin left drive ext (dev_nr + 1) last
          ((ext + second.start_sect) % 2 ^ 32) hd2 (omega (arith, e)) in
      elim (Bool-cases (second.sys_id == 0)) [
        | inl none_left ↦ rw none_left wide
        | inr some_left ↦ rw some_left (both wide (widen (omega arith) (omega arith) rest))
      ]

  -- The loop over the extended partition at entry `j` of the primary table, of 4, fills only logical
  -- partitions of that entry's 16, which are among the drive's 64, and of what the driver knows of
  -- any drive nothing else changes.
  pub partition_sub-IsWithin :
      (drive j : ℕ) (hd : Hd)
      → 1 ≤ j
      → j ≤ 4
      → IsWithin drive ((j - 1) * 16) ((j - 1) * 16 + 16) hd (partition_sub answer drive j hd)
        × ((j - 1) * 16 + 16 ≤ nr_sub_per_drive)
  partition_sub-IsWithin drive j hd low high =
      let ext = ((hd.hd_info drive).primary j).base in
      (
        partition_extended-IsWithin 16 drive ext ((j - 1) * 16) ((j - 1) * 16 + 16) ext hd refl,
        omega (arith, high),
      )
