-- ===== src/Lib.antt =====
-- RasPiK, a bare-metal kernel for the Raspberry Pi in C (src/, include/, user/, import/).
--
-- The kernel boots (src/main.c), sets up the screen log, the timers, the interrupt vector and the
-- system call table, and then runs processes. A process reaches the kernel by a software interrupt
-- (src/interrupts.c), which calls an entry of the system call table (src/syscalls.c): a memory
-- function (src/mem.c), a process function (src/process.c) or a function of the virtual file system
-- (src/fs/vfs.c). The latter dispatches on the mount point to one of three file systems: files in
-- memory (src/fs/vffs.c), devices with their drivers (src/fs/devfs.c, src/driver/), and a FAT32 disk
-- (src/fs/fat32.c, src/fs/mbr.c), which itself reads its device through the virtual file system.
--
-- How the modules correspond to the code:
--
-- - Base: numbers, lists, integers, Boolean tests.
-- - Strings: src/utils.c. `strlen`, `strcmp`, `strcat`, `itoa` and `uint32_to_hex` keep their names;
--   `reverse_str` is `reverse`. A `char *` is the list of the bytes up to the terminator.
-- - Store: the objects of include/fs/vffs.h and include/fs/devfs.h by address, with the monad of the
--   code that works on them. The answers of `kmalloc` are an input of each run. Store/Blocks has the
--   block behind a file's `data`, as `krealloc` of src/mem.c leaves it.
-- - Mem: src/mem.c, one definition for each function, under its name, on headers by address. Mem/Fit and
--   Mem/Take have `kmalloc` as the first fit in the free list, Mem/Free the loop of `kfree`, Mem/Units
--   the rounding of sizes. The file systems do not stand on it: they take the answers of `kmalloc` as an
--   input.
-- - Graphics: src/graphics.c, one definition for each function, under its name, on a memory of bytes;
--   Graphics/Font has the table of the bitmaps, Graphics/Init the request of a frame buffer.
--   Graphics/Pixels, Graphics/Glyphs, Graphics/Chars and Graphics/Copy have what each function leaves on
--   the screen as `get_pixel` reads it, and Graphics/Run, Graphics/Column and Graphics/Scroll what the
--   calls of the log do there.
-- - Mmio: the registers of include/mmio.h and the loops that wait for one. Mmio/Timers has `usleep` of
--   src/timers.c, Mmio/Mailbox src/mailbox.c, and Mmio/Uart the serial port of src/driver/uart.c.
-- - Drivers: src/driver/sdcard.c, src/driver/console.c and the start of a driver; the card's functions
--   of import/src/emmc.c are a parameter. Drivers/Sdcard leads from the start of the card's driver to
--   what the FAT32 volume relies on.
-- - Syscalls: the table of src/syscalls.c and `handle_swi` of src/interrupts.c.
-- - Klog: src/klog.c, one definition for each function, under its name: the cursor of the console and
--   the calls to the functions of src/graphics.c and of the serial port. Klog/Screen has their bounds.
-- - Vffs: src/fs/vffs.c, one definition for each function, under its name. Vffs/Entries and
--   Vffs/Lookup have the directory that the array of files stands for, Vffs/Files and Vffs/Remove what
--   the operations do to it, Vffs/Bytes and Vffs/Contents what reads and writes do to a file;
--   Vffs/Exhausted is a write without memory.
-- - Devfs: src/fs/devfs.c, one definition for each function, under its name. Devfs/Slots has what its
--   loops find, Devfs/Add and Devfs/Stale what adding and removing a device does.
-- - Kernel: the state of include/fs/vfs.h (the mount points, the file descriptors of the current
--   process, the store of objects) and its monad. src/fs/fat32.c stands behind the record `Fat32`, which
--   FatRead fills.
-- - Paths: `parse_path` and the leading slash of src/fs/vfs.c.
-- - Vfs: nodes and file descriptors of src/fs/vfs.c; `open` is `open_file`. Vfs/Fds, Vfs/Rounds and
--   Vfs/Truncate have its theorems; Vfs/Devices has the path of a device, and
--   Vfs/DeviceFds a file descriptor that is open on it.
-- - Mounts: mount points and operations on paths of src/fs/vfs.c; `add_fs` is `add_vffs`, `add_devfs`
--   and `add_fat32`. Mounts/Table, Mounts/Stale and Mounts/Insmod have its theorems.
-- - Mbr: `get_parts` of src/fs/mbr.c, on a buffer of bytes.
-- - FatNames: the entries of a directory and their names in src/fs/fat32.c. FatNames/Directory has the
--   directory as a list of entries, FatNames/Match the names that `check_filename` takes.
-- - FatVolume: `create_fat32`, `remove_fat32`, `get_entry` and `get_node_fat32` of src/fs/fat32.c, over
--   the record `Disk` of the functions of src/fs/vfs.c, which `vfs_disk` fills. FatVolume/Device has
--   what the code relies on of a device, which serves reads of whole sectors of 512 bytes, as the
--   functions of import/src/emmc.c do; FatVolume/Walk has the chain of clusters of the directory,
--   FatVolume/Mounted the device of src/fs/devfs.c that fills this, through src/fs/vfs.c, and
--   FatVolume/Create what a failed read leaves; FatVolume/Sample is a small disk.
-- - FatList: `readdir_fat32`. FatRead: `read_fat32file` with `read_shortfile` and `read_longfile`, and
--   the record `Fat32` filled with all of them; FatRead/Offset has what a short read returns,
--   FatRead/Whole that of a file that lies in a cluster, and FatRead/Long, Range and Chain that
--   of a file that lies in a chain of clusters.
-- - Elf: `load_elf`, `load_segment` and `check_elf` of src/elf.c, on a memory of bytes, over the record
--   `Files` of the functions of src/fs/vfs.c. Elf/Load has what a segment leaves in memory.
-- - Process: the list of processes of src/process.c, one definition for each function, under its name.
--   What the block of a new process reads as before it is filled in is an argument of `add_process`.
--   Process/Start has `clone`, `spawn`, `waitpid` and `init_process`. Process/Ring and Process/Exit have
--   theorems on the list as it is linked forwards, Process/Queue, Process/Rotate and Process/Add those on
--   the doubly linked list.
-- - Scheduler: `schedule` and `init_scheduler` of src/scheduler.c. Scheduler/Turns has its loop,
--   Scheduler/Rounds which process runs next.
--
-- Not modelled: `print_vfs` of src/fs/vfs.c, `print_parts` of src/fs/mbr.c, src/atags.c and the banner of
-- src/main.c, which print to the log; the order of the initialisations in src/main.c; the switch of
-- contexts and `exec` of src/elf.c, which are assembly; `init_timers`, which sets two registers; the
-- handlers of src/interrupts.c that print and stop, and the vectors. What is released of parsed
-- paths, buffers and directory lists is not part of the store. A driver of a device, the registers of
-- the hardware and the functions of import/ are parameters.
--
-- Loops are recursions on the rounds that are left. Fuel is given to the loops over the digits of a
-- number (`numlen`, `itoa`), where it is enough since the number falls in each round; to the loops over
-- the list of processes, which get as many rounds as `real_nbprocs` counts, and in `schedule` as many for
-- each process as the count of one that has ended goes up to: enough where the list closes; to the
-- loops of src/mem.c, which are given their rounds by the caller: as many as there are free blocks is
-- enough; and to the walks along the table of a FAT32 volume, which get a round for each entry of the
-- table and one more: enough where the chain ends. The loops that wait for a register are given their rounds by
-- the caller: one more than the reads for which the hardware is busy is enough.
pub mod Base
pub mod Strings
pub mod Store
pub mod Vffs
pub mod Devfs
pub mod Mem
pub mod Klog
pub mod Kernel
pub mod Paths
pub mod Vfs
pub mod Mounts
pub mod Mbr
pub mod FatNames
pub mod FatVolume
pub mod FatList
pub mod FatRead
pub mod Elf
pub mod Process
pub mod Scheduler
pub mod Graphics
pub mod Mmio
pub mod Drivers
pub mod Syscalls
