-- ===== src/Hd/Task.antt =====
-- The tables of partitions and the main loop of kernel/hd.c.
use minx.Prelude.{
  ℕ, zero, suc, ◌+◌, ◌-◌, ◌*◌, ◌%◌, ◌^◌, not, ◌||◌, ◌==◌, if◌then◌else◌, update, List, Result, ok,
  stop, hang, overrun, assertion, check, ◌>>◌,
}
use minx.Kernel.{Message}
use minx.Const.{msg_dev_open, msg_dev_close, msg_dev_read, msg_dev_write, msg_dev_ioctl}
use minx.Fs.State.{read32, write32}
use minx.Hd.{
  HdCmd, PartInfo, PartEnt, Hd, nr_part_per_drive, nr_sub_per_part, drv_of_dev, make_device_reg,
  sect_cmd, partition_of, has_partition, hd_cmd_out, port_read, hd_rdwt,
}

module _ (answer : List HdCmd → ℕ → ℕ → ℕ) where
  -- `PARTITION_TABLE_OFFSET` and the entries of 16 bytes after it.
  abbrev pub part_ent : (ℕ → ℕ) → ℕ → PartEnt
  part_ent buf i =
      let off = 0x1be + 16 * i in
      record {
        sys_id = buf (off + 4);
        start_sect = read32 buf (off + 8);
        nr_sects = read32 buf (off + 12);
      }

  -- The table that `get_part_table` copies to `entry` is in `hdbuf`.
  unfoldable pub get_part_table : ℕ → ℕ → Hd → Hd
  get_part_table drive sect_nr hd =
      port_read answer 0 (hd_cmd_out (sect_cmd drive 1 sect_nr 0x20) hd)

  abbrev pub set_logical : ℕ → ℕ → PartInfo → Hd → Hd
  set_logical drive dev_nr v hd =
      let info = hd.hd_info drive in
      record hd {
        hd_info = update hd.hd_info drive (record info { logical = update info.logical dev_nr v });
      }

  abbrev pub set_primary : ℕ → ℕ → PartInfo → Hd → Hd
  set_primary drive dev_nr v hd =
      let info = hd.hd_info drive in
      record hd {
        hd_info = update hd.hd_info drive (record info { primary = update info.primary dev_nr v });
      }

  -- The loop of `partition` over an extended partition, with the next table at sector `s`.
  unfoldable pub partition_extended : ℕ → ℕ → ℕ → ℕ → ℕ → Hd → Hd
  partition_extended zero drive ext_start_sect dev_nr s hd = hd
  partition_extended (suc left) drive ext_start_sect dev_nr s hd =
      let hd1 = get_part_table drive s hd in
      let first = part_ent hd1.hdbuf 0 in
      let second = part_ent hd1.hdbuf 1 in
      let v : PartInfo = record { base = (s + first.start_sect) % 2 ^ 32; size = first.nr_sects } in
      let hd2 = set_logical drive dev_nr v hd1 in
      let rest =
        partition_extended left drive ext_start_sect (dev_nr + 1)
          ((ext_start_sect + second.start_sect) % 2 ^ 32) hd2 in
      if second.sys_id == 0 then hd2 else rest

  -- `partition` with P_EXTENDED, for entry `j` of the primary table.
  abbrev pub partition_sub : ℕ → ℕ → Hd → Hd
  partition_sub drive j hd =
      let ext_start_sect = ((hd.hd_info drive).primary j).base in
      partition_extended nr_sub_per_part drive ext_start_sect ((j - 1) * nr_sub_per_part)
        ext_start_sect hd

  -- The loop of `partition` over the entries of the primary table from the `i`-th on, with the
  -- number of those in use.
  unfoldable pub partition_entries : ℕ → ℕ → (ℕ → ℕ) → ℕ → ℕ → Hd → ℕ × Hd
  partition_entries zero drive table i nr_prim_parts hd = (nr_prim_parts, hd)
  partition_entries (suc left) drive table i nr_prim_parts hd =
      let e = part_ent table i in
      let hd1 = set_primary drive (i + 1) (record { base = e.start_sect; size = e.nr_sects }) hd in
      let hd2 = if e.sys_id == 5 then partition_sub drive (i + 1) hd1 else hd1 in
      let used = not (e.sys_id == 0) in
      partition_entries left drive table (i + 1) (if used then nr_prim_parts + 1 else nr_prim_parts)
        (if used then hd2 else hd)

  -- `partition` with P_PRIMARY.
  unfoldable pub partition_primary : ℕ → Hd → Result Hd
  partition_primary drive hd =
      let hd1 = get_part_table drive drive hd in
      let (nr_prim_parts, hd2) = partition_entries nr_part_per_drive drive hd1.hdbuf 0 0 hd1 in
      do check (not (nr_prim_parts == 0)); ok hd2

  -- `hd_identify`, without what it prints; `unset` has the members that it does not set.
  abbrev pub hd_identify : HdCmd → ℕ → Hd → Hd
  hd_identify unset drive hd =
      port_read answer 0
        (hd_cmd_out (record unset { device = make_device_reg drive 0; command = 0xec }) hd)

  abbrev pub set_open_cnt : ℕ → ℕ → Hd → Hd
  set_open_cnt drive n hd = record hd {
    hd_info = update hd.hd_info drive (record (hd.hd_info drive) { open_cnt = n });
  }

  pub hd_open : HdCmd → ℕ → Hd → Result Hd
  hd_open unset device hd = do
    let drive = drv_of_dev device
    check (drive == 0)
    let hd1 = hd_identify unset drive hd
    let n = (hd1.hd_info drive).open_cnt
    let hd2 = set_open_cnt drive (n + 1) hd1
    if n == 0 then partition_primary drive hd2 else ok hd2

  pub hd_close : ℕ → Hd → Result Hd
  hd_close device hd = do
    let drive = drv_of_dev device
    check (drive == 0)
    ok (set_open_cnt drive (((hd.hd_info drive).open_cnt + (2 ^ 32 - 1)) % 2 ^ 32) hd)

  -- The two words of `struct part_info` go to the caller.
  pub hd_ioctl : Message → Hd → Result Hd
  hd_ioctl p hd =
      let v = partition_of p.m3i4 (hd.hd_info (drv_of_dev p.m3i4)) in
      if p.m3i2 == 1
      then (if has_partition p.m3i4
          then ok
              (record hd { memory = write32 (write32 hd.memory p.m3p2 v.base) (p.m3p2 + 4) v.size })
          else stop overrun)
      else stop assertion

  -- The `switch` of `task_hd`; `spin` never returns.
  pub serve_hd : HdCmd → Message → Hd → Result Hd
  serve_hd unset msg hd =
      if msg.type == msg_dev_open
      then hd_open unset msg.m3i4 hd
      else if msg.type == msg_dev_close
      then hd_close msg.m3i4 hd
      else if msg.type == msg_dev_read || msg.type == msg_dev_write
      then hd_rdwt answer msg hd
      else if msg.type == msg_dev_ioctl
      then hd_ioctl msg hd
      else stop hang
