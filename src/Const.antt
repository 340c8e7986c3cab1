-- ===== src/Const.antt =====
-- The constants of include/sys/const.h, include/sys/fs.h and include/stdio.h that the model uses. An
-- `int` that may be negative is its 32-bit pattern.
use minx.Prelude.{ℕ, ◌+◌, ◌-◌, ◌^◌}

abbrev pub nr_task : ℕ
nr_task = 5

abbrev pub nr_user_process : ℕ
nr_user_process = 4

-- The number of entries of `pcb_table`.
abbrev pub nr_proc : ℕ
nr_proc = nr_task + nr_user_process

abbrev pub task_tty : ℕ
task_tty = 0

-- -10
abbrev pub interrupt : ℕ
interrupt = 2 ^ 32 - 10

abbrev pub any : ℕ
any = nr_proc + 10

abbrev pub no_task : ℕ
no_task = nr_proc + 20

-- The kinds of call that `sendrec` takes.
abbrev pub send : ℕ
send = 1

abbrev pub receive : ℕ
receive = 2

abbrev pub sending : ℕ
sending = 2

abbrev pub receiving : ℕ
receiving = 4

-- The message type HARD_INT.
abbrev pub hard_int : ℕ
hard_int = 1

abbrev pub task_hd : ℕ
task_hd = 2

abbrev pub task_fs : ℕ
task_fs = 3

-- -20
abbrev pub invalid_driver : ℕ
invalid_driver = 2 ^ 32 - 20

abbrev pub sector_size : ℕ
sector_size = 512

-- The size of an i-node on the disk.
abbrev pub inode_size : ℕ
inode_size = 32

abbrev pub dir_entry_size : ℕ
dir_entry_size = 16

abbrev pub max_filename_len : ℕ
max_filename_len = 12

abbrev pub max_path : ℕ
max_path = 128

-- The number of descriptors of a process.
abbrev pub nr_files : ℕ
nr_files = 64

abbrev pub nr_file_desc : ℕ
nr_file_desc = 64

abbrev pub nr_inode : ℕ
nr_inode = 64

abbrev pub nr_super_block : ℕ
nr_super_block = 8

abbrev pub no_dev : ℕ
no_dev = 0

abbrev pub invalid_inode : ℕ
invalid_inode = 0

-- ROOT_INODE
abbrev pub root_inode_nr : ℕ
root_inode_nr = 1

abbrev pub magic_v1 : ℕ
magic_v1 = 0x111

abbrev pub nr_default_file_sects : ℕ
nr_default_file_sects = 2048

abbrev pub fsbuf_size : ℕ
fsbuf_size = 0x10_0000

abbrev pub i_type_mask : ℕ
i_type_mask = 0xf000

abbrev pub i_char_special : ℕ
i_char_special = 0x2000

abbrev pub i_directory : ℕ
i_directory = 0x4000

abbrev pub i_regular : ℕ
i_regular = 0x8000

abbrev pub o_creat : ℕ
o_creat = 1

abbrev pub o_rdwr : ℕ
o_rdwr = 2

abbrev pub seek_set : ℕ
seek_set = 1

abbrev pub seek_cur : ℕ
seek_cur = 2

abbrev pub seek_end : ℕ
seek_end = 3

-- The message type OPEN.
abbrev pub msg_open : ℕ
msg_open = 5

-- The message type CLOSE.
abbrev pub msg_close : ℕ
msg_close = 6

-- The message type READ.
abbrev pub msg_read : ℕ
msg_read = 7

-- The message type WRITE.
abbrev pub msg_write : ℕ
msg_write = 8

-- The message type LSEEK.
abbrev pub msg_lseek : ℕ
msg_lseek = 9

-- The message type UNLINK.
abbrev pub msg_unlink : ℕ
msg_unlink = 11

-- The message type SUSPEND_PROC.
abbrev pub msg_suspend_proc : ℕ
msg_suspend_proc = 12

-- The message type RESUME_PROC.
abbrev pub msg_resume_proc : ℕ
msg_resume_proc = 13

-- The message type SYSCALL_RET.
abbrev pub msg_syscall_ret : ℕ
msg_syscall_ret = 18

-- The message type DEV_OPEN.
abbrev pub msg_dev_open : ℕ
msg_dev_open = 1001

-- The message type DEV_CLOSE.
abbrev pub msg_dev_close : ℕ
msg_dev_close = 1002

-- The message type DEV_READ.
abbrev pub msg_dev_read : ℕ
msg_dev_read = 1003

-- The message type DEV_WRITE.
abbrev pub msg_dev_write : ℕ
msg_dev_write = 1004

-- The message type DEV_IOCTL.
abbrev pub msg_dev_ioctl : ℕ
msg_dev_ioctl = 1005

-- The message type WAIT.
abbrev pub msg_wait : ℕ
msg_wait = 15

-- The message type FORK.
abbrev pub msg_fork : ℕ
msg_fork = 16

-- The message type EXIT.
abbrev pub msg_exit : ℕ
msg_exit = 17
