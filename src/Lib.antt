-- ===== src/Lib.antt =====
-- A verification library for the kernel modules of this repository. Each directory of the repository is
-- a module of its own, or a pair of them; they share no state, and the library has a module per
-- directory.
--
-- Simplefs: simplefs/, a file system on a block device, and the program that writes a new one.
--   Layout: the structures of simple.h as bytes; State: the cached and the stored blocks, the three
--   mutexes, and the monad of the functions, which fail as the calls at each site fail; Super:
--   simplefs_sb_sync, simplefs_sb_get_a_freeblock, simplefs_sb_get_objects_count; Inodes:
--   simplefs_inode_search, simplefs_inode_add, simplefs_get_inode, simplefs_inode_save, with the list of
--   inodes that the inode store stands for in Inodes/Table; Files: simplefs_read, simplefs_write;
--   Directories: simplefs_iterate, simplefs_create_fs_object, simplefs_mkdir, simplefs_create,
--   simplefs_iget, simplefs_lookup; Mount: simplefs_fill_super; Registration: simplefs_init,
--   simplefs_exit; Mkfs: mkfs.c; Image: a new file system
--   under the module; Interrupts: the mutexes under signals; Overruns: what runs over the
--   end of a block; Numbers: the numbers that creations give; Volume: a file system in use, as any
--   sequence of creations, writes and mounts, with its invariant in Invariant, what a file and a directory
--   keep of it in Persistence, what becomes of the names in Names, the tree of files and directories
--   that it stands for in Tree and Refinement, and what mkfs.c makes of the first
--   file in Clash; Threads: any number of creations and writes at the same time, each a sequence of the
--   stretches between its calls of the three mutexes, which `act` gives, over the shared blocks of Shared
--   and the mutexes' owners.
--   Create calls the free-block search, then inode_add, then inode_save, each of which takes its own
--   mutexes and writes the cached blocks that lookup and get_inode read.
-- BlockDevice: block_device/simple.c, a disk in memory. BlockDevice itself has do_request and queue_rq,
--   Transfer and Requests what they move, Driver the init and exit functions.
-- Ftrace: ftrace/ftrace_hook.c, hooks on functions of the kernel: fh_install_hooks and fh_remove_hooks
--   with what they call, and fh_ftrace_thunk. Hooks has the installation, Removal the removal, and
--   Calls the module's own hooks: fh_init, fh_exit, duplicate_filename, fh_sys_execve; Names has
--   lookup_name and fh_sys_clone.
-- Pci: pci/my_pci_device.c, a device for QEMU, in Device, and pci/driver_pci.c, its driver, in Driver. The
--   driver's accesses run on the device's model.
-- Codec: pci/unknown/simple.c, another driver: its probe and remove functions, in Probe, and the init and
--   exit functions of its module, in Setup.
-- Rcu: RCU/simple.c, the pointer that one thread reads and another replaces: a step relation of the
--   threads and the callbacks. Waiting has the structures given to call_rcu, Threads and Safety what is
--   allocated, Order what the reader sees, Progress a bound of the steps, Owed who frees what, Ends how
--   the runs end. rcu_dereference,
--   rcu_assign_pointer and call_rcu are the steps named so; a callback runs when the critical section that
--   was open at its call_rcu has ended. Listed is the same for the list, whose updater waits in
--   synchronize_rcu and frees the old structure itself; there the list can be empty yet and allocations
--   can fail, while the pointer's runs are those in which rcu_test_init has finished before the threads'
--   first accesses and every kzalloc succeeds. Exit has what rcu_test_exit frees.
-- Mutex: mutex/simple.c and mutex/poc.c. Mutex itself has the steps of any threads that call read_file and
--   write_file, a byte at a time; which calls they make is a parameter. Holder has who holds the mutex,
--   Atomic the same calls made at once, Refinement the one by the other, Calls how a waiting call ends,
--   Poc the three threads of poc.c, Driver the init and exit functions.
-- UdpSend: udp_send/version1/simple.c: its init function, and in Sender the thread that sends beside the
--   init and exit functions; in Version2 what udp_send/version2/simple.c sends.
-- Net: netfilter/simple.c in Netfilter, netdev/netdev_rx_handler/simple.c in RxHandler,
--   netdev/netdevice_notifier/simple.c in Events, and pernet/simple.c in PerNet.
-- Netlink: netlink/simple.c and netlink/user.c, the messages of the one as the other reads
--   them; in User what the program and the module open and close.
-- Sysfs: sysfs/simple.c: Decimal has the texts of the numbers, Attributes the three attributes.
-- Debugfs: debugfs/simple.c, the sum of what is written.
-- Idr: idr/simple.c, over an interface for the kernel's map, IdrOps, with the laws that its documentation
--   gives; the tests have a map for it.
-- Timer: timer/, a callback that starts its timer again, beside the exit function: in Higher with
--   hrtimer_cancel, in Lower with del_timer.
-- Notifier: notifier/publisher.c and notifier/subscriber.c, over an interface for the kernel's chain,
--   ChainOps; Delivery has who gets a message.
-- Umh: umh/simple.c, the thread that runs a helper and its signal, in Signals.
-- Deferred: tasklet/, workqueue/, worker/ and soft_irq/, one callback beside the exit function; in Exits.
-- WakeUp: wake_up/simple.c, the queue of a sleeping init function, in Frame.
-- IoctlMmap: ioctl_mmap/simple.c, a page behind a file: mmap_read, mmap_write, mmap_lseek,
--   mmap_vm_fault, in Setup its init and exit functions, and in Program the program ioctl_mmap/test.c.
-- CharDevice: char_device/version2/simple.c, its init and exit functions, and in Hello the read function
--   of char_device/version1/my_dev.c; in Misc misc_device/simple.c.
-- Kernel: what the init, exit and error paths take from the kernel and give back, as a list.
-- Prelude: Boolean tests, lists over native numbers, memory as a function from addresses to bytes, bits.
--
-- Loops are by structural recursion: over the records or inodes that a count names, over the segments of a
-- request, over the array of hooks, over the BARs, over the rounds of the loop of the free-block search,
-- 62 of them. The one definition that takes fuel prints a number, with a step for
-- each of its digits: 10, as an int has no more. A block of simplefs has 4096 bytes: a copy
-- or a record behind them ends in a fault, since the functions do not test the bound. Machine integers are
-- natural numbers; where the code can reach it, the wrap or the truncation is written out, as that of the
-- int in simplefs_iget.
--
-- What the kernel's functions do is taken from their documentation: a call fails or not as an environment
-- says, one answer for each call site, and an operation is undisturbed when none fails and no signal
-- comes; memory that is read with a failed call ends in a fault, as does an unlock of a mutex that is not
-- held. The buffer cache gives the same buffer for a block until the file system is unmounted. The memory
-- of the guest is written by a parameter, QEMU's cpu_physical_memory_write, and the accesses that the
-- regions do not allow are dropped.
--
-- Coarser than the code: the callback of Timer/Higher is one step; in UdpSend/Sender the thread starts
-- inside send_udp, and its buffer and the module's are one; in Deferred, kthread_destroy_worker is the wait
-- for the worker only; in IoctlMmap/Program a mapped page is accessed without the page fault; a mutex's
-- waiting call is interrupted or not at each call site of its own.
--
-- Not modelled: output with printk, the reference counts of buffers, dentries and inodes, time stamps,
-- and the other directories of the repository, each a few calls of one interface of the kernel.
pub mod Prelude
pub mod Kernel
pub mod Simplefs
pub mod Sysfs
pub mod Timer
pub mod Umh
pub mod Deferred
pub mod UdpSend
pub mod WakeUp
pub mod BlockDevice
pub mod Debugfs
pub mod Ftrace
pub mod Net
pub mod Netlink
pub mod Notifier
pub mod Pci
pub mod Mutex
pub mod Rcu
pub mod CharDevice
pub mod Idr
pub mod IoctlMmap
pub mod Codec
