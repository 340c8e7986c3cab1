-- ===== src/Lib.antt =====
-- A model of the kernel of MINX, a small operating system for the PC: processes that run in one
-- address space and speak to each other by messages, a scheduler, the interrupts that become
-- messages, and the routines they share.
--
-- The state of messages and scheduling is `Kernel` (Kernel.antt): the table of processes of
-- lib/global.c, the scheduler's pointer, the messages in memory and the globals that interrupts
-- touch. A pointer into the table is an index, a pointer to a message is an address; NULL is
-- `none` or 0. The file system and the disk driver are processes of their own, with the states
-- `Fs` (Fs/State.antt) and `Hd` (Hd.antt). An operation takes the state and returns a `Result`:
-- the next state, or the fault at which the kernel stops (an assertion that fails, a panic, a
-- loop that is never left, an access past a table, a null pointer that is followed, or an int
-- that overflows).
--
-- - Prelude: tests on numbers, lists, tables, faults, shared by all.
-- - Const, Kernel: include/sys/const.h, include/sys/process.h and lib/global.c.
-- - Sched: lib/process.c. Sched/Pick has the choice of one round, Sched/Run the loop.
-- - Ipc: inform_int of kernel/ipc.c and sys_sendrec of lib/system_call.c; Ipc/Base has block and
--   unblock, Ipc/Send deadlock and msg_send, Ipc/Recv msg_receive. The parts of msg_send and
--   msg_receive are functions of their own (deliver, enqueue, take_interrupt, receive_any,
--   receive_from, take_message, await_message). Ipc/State has the invariant: `IsValid t q` says
--   that the linked list of each process is the list `q` gives it, that these lists hold exactly
--   the processes that are sending to it, each once, and that the chain of processes that wait
--   to send ends. Ipc/Chain is about the search for a deadlock, Append, Link and Enqueue about
--   joining a queue, Taken, Unlink, Take and Receive about leaving it, Wait and Pending about
--   blocking, Steps about sys_sendrec, and Deliver, Outcome and Interrupt put the operations
--   together.
-- - Clock: clock_handler of lib/clock.c.
-- - Keyboard: lib/keyboard.c. Keyboard/Buffer and Keyboard/Queue are about the buffer of scan
--   codes, Keyboard/Decode has keyboard_read with the key map of Keyboard/Keymap; the key that
--   keyboard_read passes to in_process is its result.
-- - Tty: in_process, switch_console and init_screen of kernel/tty.c; a write past the buffer of
--   a terminal stops the model. Tty/Output is putchar_c of lib/mystring_c.c, on memory with the
--   video memory in it, and Tty/Cells is about it; Tty/Task has the loop of task_tty,
--   tty_dev_write, tty_do_read, tty_do_write and clear, and Tty/Reading is about tty_dev_write.
-- - Strings: the string routines and itoa of lib/mystring_c.c. Strings/Text is about texts that
--   end with a zero, Strings/Compare about comparisons, Strings/Number about itoa.
-- - Format: vsprintf of lib/printf.c. Format/Pieces says what a format stands for, as a list of
--   pieces; Format/Numeral is about the digits of a number, Format/Digits, Cases and Render are
--   about the conversions and the loop.
-- - Protect: init_descriptor of lib/protect.c, init_idt_desc, setIdt and set_irq_table of
--   lib/interrupt.c, where the address of each routine of the assembly is a parameter, with
--   DESCRIPTOR and GATE of include/sys/protect.h.
-- - Fs: the file system, fs/. Fs/State has the structures of include/sys/fs.h, the tables of
--   lib/global.c and rw_sector; Fs/Inode the super block and the table of i-nodes (get_inode,
--   put_inode, sync_inode); Fs/Dir search_file and new_dir_entry; Fs/Alloc alloc_imap_bit and
--   alloc_smap_bit, with Fs/Map about the one and Fs/Marks, Filled, Taken and Smap about the
--   other; Fs/Open do_open, create_file, do_close and do_lseek; Fs/Rdwt do_rdwt; Fs/Unlink
--   do_unlink; Fs/Mkfs mkfs and init_fs; Fs/Task the loop of task_fs; Fs/Log do_disklog and
--   disklog of fs/disklog.c. A device is a table of bytes that its driver reads and writes; what
--   the driver of a terminal answers is a parameter. Pointers into inode_table and f_desc_table
--   are indices. A request for more than 256 sectors stops, a READ with `hang` and a WRITE with
--   `panic`, since hd_rdwt keeps 8 bits of the number of sectors (max_sectors of Fs/State).
--   Positions and counts are ints that are not negative; the position of a sector is an int that
--   is sign-extended to 64 bits, and a position of do_rdwt that is no int stops with `overflow`.
-- - Hd: the hard disk driver, kernel/hd.c. Hd/Task has the tables of partitions and the main
--   loop, Hd/Address is about the command that hd_rdwt makes, Hd/Sectors about its loop,
--   Hd/Partition about the tables of partitions. What the drive answers to a command, sector by
--   sector, is a parameter, and so are the members of a command that hd_identify does not set.
--   The drive answers as many sectors as its command counts, 256 for the count 0; a READ behind
--   them waits for ever and a WRITE panics. A device without a partition of the one drive, which
--   would index a table of hd_info out of range, stops.
-- - Mm: the memory manager, mm/. Mm/State has its table of processes and cleanup, Mm/Memory
--   alloc_mem and free_mem, Mm/Fork do_fork, Mm/Exit do_exit and do_wait, Mm/Task the loop of
--   task_mm. What mm/fork.c uses and no file declares is the record `Platform`, with what
--   becomes of the message to the file system (tell_fs), whose loop has its cases for FORK and
--   EXIT commented out. The sizes of segments and the addresses of images are taken on 32 bits.
--   Mm/Handed and Keep are about the processes that hang and wait, Adopt and Leave about
--   do_exit, Wait about do_wait.
-- - Calls: open, close, read, write and unlink of lib/system_call.c. A call is a message that
--   the loop of the file system serves in one round (Calls/Count). Their names here end in
--   _file.
-- - Boot: the loop of kernelMain of kernel/main.c over the table of processes.
-- - System: task_sys of kernel/main.c, getCurrentPid, fork and sys_printx of lib/system_call.c,
--   get_ticks_by_message of lib/kliba.c. fork is named fork_process here.
-- - History: system calls, interrupts and the work of the processes as steps in any order.
--
-- Loops run on fuel. The loops along a queue or a chain get one more round than there are
-- processes, which the invariant makes enough; `schedule` gets two rounds where `block` calls
-- it, and the theorems on it cover every number from two on. The loop of do_rdwt gets one more
-- round than there are sectors to move, and that of hd_rdwt one more than the sectors of the
-- count; Fs/Count, Fs/Transfer and Hd/Sectors show that this is enough. The other loops of the
-- file system count down what is left of a table, a block or a map. A loop along a text gets
-- more than it has characters, and itoa gets 32 rounds, which is enough for an int of 32 bits.
-- vsprintf gets more rounds than its format and the text it stands for have characters, and the
-- loop of disklog more than there are bytes in the text (Format/Render and Fs/Logged show that
-- this is enough); the loop of tty_do_write takes two characters in a round, and its fuel is a
-- parameter. The loops of the memory manager count down the table.
--
-- Not modelled: dump_fd_graph and syslog, which print for debugging, init_mm, which reads the
-- size of the memory, setTss and resetGdt, which copy tables of the processor, the assembly, the
-- port input and output, the other printing of messages, and send_recv, which runs in the
-- calling process and not in the kernel.
pub mod Prelude
pub mod Const
pub mod Kernel
pub mod Sched
pub mod Ipc
pub mod Clock
pub mod Keyboard
pub mod Tty
pub mod Strings
pub mod Format
pub mod Protect
pub mod Fs
pub mod Hd
pub mod Mm
pub mod Calls
pub mod Boot
pub mod System
pub mod History
