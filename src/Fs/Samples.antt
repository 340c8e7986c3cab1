-- ===== src/Fs/Samples.antt =====
-- A small file system: the root directory in slot 0 of the table, and a file `ab` that is open.
use minx.Prelude.{ℕ, ◌==◌, if◌then◌else◌, none, some}
use minx.Kernel.{zero_msg}
use minx.Const.{i_directory, i_regular, o_rdwr}
use minx.Fs.State.{Inode, SuperBlock, Fs}

-- Sector 2 is the map of i-nodes, whose first byte is full; sector 4 has the i-nodes, and sector 6
-- the directory, with the file `ab` in its second entry.
abbrev pub sample_disk : ℕ → ℕ
sample_disk i =
    if i == 1024
    then 255
    else if i == 1025
    then 3
    else if i == 3072
    then 1
    else if i == 3076
    then 46
    else if i == 3088
    then 5
    else if i == 3092
    then 97
    else if i == 3093
    then 98
    else 0

abbrev pub sample_super_block : SuperBlock
sample_super_block = record {
  magic = 0x111;
  nr_inodes = 4096;
  nr_sects = 100;
  nr_imap_sects = 1;
  nr_smap_sects = 1;
  n_1st_sect = 6;
  nr_inode_sects = 2;
  root_inode = 1;
  inode_size = 32;
  inode_isize_off = 4;
  inode_start_off = 8;
  dir_ent_size = 16;
  dir_ent_inode_off = 0;
  dir_ent_fname_off = 4;
  sb_dev = 800;
}

abbrev pub root_sample : Inode
root_sample = record {
  i_mode = i_directory;
  i_size = 32;
  i_start_sect = 6;
  i_nr_sects = 1;
  i_dev = 800;
  i_cnt = 1;
  i_num = 1;
}

abbrev pub file_sample : Inode
file_sample = record {
  i_mode = i_regular;
  i_size = 10;
  i_start_sect = 7;
  i_nr_sects = 2;
  i_dev = 800;
  i_cnt = 1;
  i_num = 5;
}

abbrev pub no_inode : Inode
no_inode = record {
  i_mode = 0;
  i_size = 0;
  i_start_sect = 0;
  i_nr_sects = 0;
  i_dev = 0;
  i_cnt = 0;
  i_num = 0;
}

abbrev pub inode_samples : ℕ → Inode
inode_samples p = if p == 0 then root_sample else if p == 1 then file_sample else no_inode

-- The message asks for `SEEK_SET` to 4 on descriptor 0.
abbrev pub sample : Fs
sample = record {
  disk = λ d. sample_disk;
  fsbuf = λ i. 0;
  memory = λ i. 0;
  inode_table = inode_samples;
  super_block = λ i. sample_super_block;
  f_desc_table = λ i.
      if i == 0
      then record { fd_mode = o_rdwr; fd_pos = 3; fd_inode = some 1 }
      else record { fd_mode = 0; fd_pos = 0; fd_inode = none };
  filp = λ p fd. if fd == 0 then some 0 else none;
  root_inode = 0;
  fs_msg = record (zero_msg) { m3i2 = 4; m3i3 = 1 };
  pcaller = 6;
}
