-- ===== src/Hd/Tests.antt =====
-- A request to read two sectors of the partition of minor number 0x20, and a drive that answers zeros.
use minx.Prelude.{◌≤◌, ◌≡◌, refl, ok, [], arith}
use minx.Kernel.{Message, zero_msg}
use minx.Const.{msg_dev_read}
use minx.Hd.{Hd, rdwt_cmd, hd_cmd_out, hd_rdwt, nr_sub_per_drive}
use minx.Hd.Task.{partition_sub}
use minx.Hd.Sectors.{IsDelivered, hd_rdwt-IsDelivered}
use minx.Hd.Partition.{IsWithin, partition_sub-IsWithin}

abbrev hd : Hd
hd = record {
  hd_info = λ d. record {
    open_cnt = 1;
    primary = λ i. record { base = 63; size = 5000 };
    logical = λ i. record { base = 1000; size = 3000 };
  };
  hdbuf = λ i. 0;
  memory = λ i. 7;
  commands = [];
  written = [];
}

abbrev reading : Message
reading = record (zero_msg) {
  type = msg_dev_read;
  m3i2 = 1024;
  m3i4 = 0x20;
  m3l1 = 2048;
  m3p2 = 4096;
}

hd_rdwt-IsDelivered_example :
    (hd' : Hd) × (hd_rdwt (λ c t k. 0) reading hd ≡ ok hd')
    × IsDelivered (λ c t k. 0) 0 4096 2 (hd_cmd_out (rdwt_cmd reading hd) hd) hd'
hd_rdwt-IsDelivered_example =
    hd_rdwt-IsDelivered (λ c t k. 0) reading hd 2 refl refl refl refl (omega arith)

partition_sub-IsWithin_case :
    IsWithin 0 16 32 hd (partition_sub (λ c t k. 0) 0 2 hd) × (32 ≤ nr_sub_per_drive)
partition_sub-IsWithin_case = partition_sub-IsWithin (λ c t k. 0) 0 2 hd (omega arith) (omega arith)
