-- ===== src/Hd.antt =====
-- The hard disk driver, kernel/hd.c and include/sys/hd.h: its state, its commands and `hd_rdwt`. What
-- the drive answers to a command, one sector after another, is a parameter. The other messages are in
-- Hd/Task, the proofs in the other child modules.
pub mod Task
pub mod Address
pub mod Partition
pub mod Sectors
mod Tests
use minx.Prelude.{
  ℕ, zero, suc, ◌+◌, ◌-◌, ◌*◌, ◌/◌, ◌%◌, ◌^◌, min, Bool, true, false, not, ◌&&◌, ◌||◌, ◌==◌, ltb,
  leb, if◌then◌else◌, update, bit_or, List, [], ◌∷◌, ◌++◌, Result, ok, stop, hang, panic, overrun,
  assertion, check, ◌>>=◌, ◌>>◌,
}
use minx.Kernel.{Message}
use minx.Const.{
  sector_size, msg_dev_open, msg_dev_close, msg_dev_read, msg_dev_write, msg_dev_ioctl,
}
use minx.Fs.State.{copy, read32, write32}

-- `struct hd_cmd`: seven bytes.
pub record HdCmd : Type 0 where
  pub features : ℕ
  pub count : ℕ
  pub lba_low : ℕ
  pub lba_mid : ℕ
  pub lba_high : ℕ
  pub device : ℕ
  pub command : ℕ

-- `PART_INFO`
pub record PartInfo : Type 0 where
  pub base : ℕ
  pub size : ℕ

-- `HD_INFO`
pub record HdInfo : Type 0 where
  pub open_cnt : ℕ
  pub primary : ℕ → PartInfo
  pub logical : ℕ → PartInfo

-- The members of `struct part_ent` in use.
pub record PartEnt : Type 0 where
  pub sys_id : ℕ
  pub start_sect : ℕ
  pub nr_sects : ℕ

-- The driver: what it knows of each drive, its buffer, the memory of its callers, and what it has
-- sent to the drives: the commands, and the sectors written after them, the last one first.
pub record Hd : Type 0 where
  pub hd_info : ℕ → HdInfo
  pub hdbuf : ℕ → ℕ
  pub memory : ℕ → ℕ
  pub commands : List HdCmd
  pub written : List (ℕ → ℕ)

abbrev pub nr_part_per_drive : ℕ
nr_part_per_drive = 4

abbrev pub nr_sub_per_part : ℕ
nr_sub_per_part = 16

abbrev pub nr_sub_per_drive : ℕ
nr_sub_per_drive = nr_sub_per_part * nr_part_per_drive

abbrev pub nr_prim_per_drive : ℕ
nr_prim_per_drive = nr_part_per_drive + 1

abbrev pub max_prim : ℕ
max_prim = 2 * nr_prim_per_drive - 1

abbrev pub minor_hd1a : ℕ
minor_hd1a = 0x10

-- `DRV_OF_DEV`
abbrev pub drv_of_dev : ℕ → ℕ
drv_of_dev dev =
    if leb dev max_prim then dev / nr_prim_per_drive else (dev - minor_hd1a) / nr_sub_per_drive

-- `MAKE_DEVICE_REG(1, drive, lba_highest)`
abbrev pub make_device_reg : ℕ → ℕ → ℕ
make_device_reg drive lba_highest =
    bit_or (bit_or (bit_or (2 ^ 6) (drive * 2 ^ 4)) (lba_highest % 2 ^ 4)) 0xa0

-- A command for `count` sectors from `sect_nr` on; each member has 8 bits.
abbrev pub sect_cmd : ℕ → ℕ → ℕ → ℕ → HdCmd
sect_cmd drive count sect_nr command = record {
  features = 0;
  count = count % 2 ^ 8;
  lba_low = sect_nr % 2 ^ 8;
  lba_mid = sect_nr / 2 ^ 8 % 2 ^ 8;
  lba_high = sect_nr / 2 ^ 16 % 2 ^ 8;
  device = make_device_reg drive (sect_nr / 2 ^ 24 % 2 ^ 4) % 2 ^ 8;
  command = command;
}

-- The device has an entry in the tables of the one drive that `hd_info` has: the drive itself, one of
-- its four primary partitions, or a logical one. The index of a device from `max_prim` to `minor_hd1a`
-- is negative.
abbrev pub has_partition : ℕ → Bool
has_partition device = drv_of_dev device == 0 && (ltb device max_prim || leb minor_hd1a device)

-- The partition of a device that has one.
abbrev pub partition_of : ℕ → HdInfo → PartInfo
partition_of device info =
    if ltb device max_prim
    then info.primary device
    else info.logical ((device - minor_hd1a) % nr_sub_per_drive)

-- The command that `hd_rdwt` makes of a message: the partition's base is added on 32 bits.
unfoldable pub rdwt_cmd : Message → Hd → HdCmd
rdwt_cmd p hd =
    let drive = drv_of_dev p.m3i4 in
    let sect_nr = p.m3l1 / sector_size % 2 ^ 32 in
    sect_cmd drive ((p.m3i2 + sector_size - 1) / sector_size)
      ((sect_nr + (partition_of p.m3i4 (hd.hd_info drive)).base) % 2 ^ 32)
      (if p.type == msg_dev_read then 0x20 else 0x30)

-- How many sectors the drive moves for a command: a count of 0 stands for 256.
abbrev pub sectors_of : HdCmd → ℕ
sectors_of cmd = if cmd.count == 0 then 256 else cmd.count

-- `hd_cmd_out`, to a drive that is not busy.
abbrev pub hd_cmd_out : HdCmd → Hd → Hd
hd_cmd_out cmd hd = record hd { commands = cmd ∷ hd.commands }

module _ (answer : List HdCmd → ℕ → ℕ → ℕ) where
  -- `port_read`: the sector that the drive answers in turn `turn` after the commands so far.
  abbrev pub port_read : ℕ → Hd → Hd
  port_read turn hd = record hd { hdbuf = copy hd.hdbuf 0 (answer hd.commands turn) 0 sector_size }

  -- The body of the loop of `hd_rdwt`, in round `turn`; `la` is the caller's buffer.
  abbrev pub rdwt_sector : Bool → ℕ → ℕ → ℕ → Hd → Hd
  rdwt_sector true turn la bytes hd =
      let hd1 = port_read turn hd in record hd1 { memory = copy hd1.memory la hd1.hdbuf 0 bytes }
  rdwt_sector false turn la bytes hd = record hd {
    written = copy (λ i. 0) 0 hd.memory la bytes ∷ hd.written;
  }

  -- The loop, after a command for `sectors`. `bytes_left` that is no multiple of a sector passes 0
  -- and is never 0 again. Behind the sectors of the command `interrupt_wait` of a READ waits for
  -- ever, and `waitfor` of a WRITE gives up.
  unfoldable pub rdwt_sectors : ℕ → Bool → ℕ → ℕ → ℕ → ℕ → Hd → Result Hd
  rdwt_sectors zero reads sectors turn la bytes_left hd = stop hang
  rdwt_sectors (suc fuel) reads sectors turn la bytes_left hd = elim bytes_left [
    | zero ↦ ok hd
    | suc more ↦ elim (ltb turn sectors) [
      | false ↦ stop (if reads then hang else panic)
      | true ↦
          let next = rdwt_sector reads turn la (min sector_size (suc more)) hd in
          elim (ltb (suc more) sector_size) [
            | true ↦ stop hang
            | false ↦
                rdwt_sectors fuel reads sectors (turn + 1) (la + sector_size)
                  (suc more - sector_size) next
          ]
    ]
  ]

  unfoldable pub hd_rdwt : Message → Hd → Result Hd
  hd_rdwt p hd = do
    check (p.m3l1 % sector_size == 0)
    let cmd = rdwt_cmd p hd
    if has_partition p.m3i4
        then rdwt_sectors (p.m3i2 / sector_size + 1) (p.type == msg_dev_read) (sectors_of cmd) 0
            p.m3p2 p.m3i2 (hd_cmd_out cmd hd)
        else stop overrun
