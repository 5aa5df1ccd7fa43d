-- ===== src/Lib.antt =====
-- The Vanilla operating system for the Cortex-M7: its kernel and its bootloader.
--
-- The kernel schedules threads of four classes (real-time, application, background, idle) whose
-- run queues, sleep queue and thread list are intrusive doubly linked lists. Its memory manager keeps a
-- free list, on which the page and bitmap allocators stand, and its file system reads and writes FAT32
-- volumes on an SD card through a cache of one sector. The bootloader, and the kernel while it waits for
-- an upgrade, receive frames from the host over a serial port, byte by byte in an interrupt handler; the
-- bootloader executes them as commands that erase, write and check the kernel in flash.
--
-- Base: shared names. Base/Commands: a command takes the state it works on and returns a result
-- and the new state, or ends in `panic`, in `fault` (an access through NULL or out of bounds) or, when
-- the fuel of a loop is used up, in `hang`. Base/Words: values of an unsigned type of w bits are
-- numbers, reduced modulo 2 ^ w where the code stores them. Base/Lists, Base/Tests and Base/Bits:
-- lists, Boolean tests and bitwise operations on native numbers.
--
-- Dlist: kernel/src/kernel/dlist.c on a memory that maps an address to its node. Dlist/Links says
-- what it means that a list holds a sequence of nodes; Dlist/Splice is shared by the insertions and
-- the removals, and Dlist/Insert, Dlist/Remove and Dlist/Search are about the functions.
--
-- Sched: kernel/src/kernel/scheduler.h and the globals of scheduler.c as one record, the node of a
-- thread being at a fixed offset in it. Sched/Classes: rt.c, app.c, background.c and idle.c, where
-- the function pointers of a class become functions by the class. Sched/Core: scheduler.c.
-- Sched/View relates the lists to the threads in them; Sched/Pick, Sched/Sleep and Sched/Expire are
-- about choosing a thread, putting one to sleep and waking one. The loops run on fuel; a list of n
-- threads needs n + 1, as the theorems say. Writes to hardware registers, the switch of the stacks
-- and what is printed are left out. Sched/Threads: thread.c, with the answer of the page allocator and
-- the address of thread_exit as arguments, and the start of the scheduler; Sched/Nap is about
-- thread_sleep and the stack of a new thread, Sched/Exit about removing one.
--
-- Crc: kernel/src/generic/crc.c, the same as bootloader/src/generic/crc.c. Frame:
-- bootloader/src/frame.c, the state machine of a frame as a function of the byte that came in, and
-- Frame/Exception the kernel's own copy of it in kernel/src/kernel/bootloader.c. Frame/Receive follows it through a frame,
-- Frame/Accept is about frames of the host, Frame/Invariant about single bytes, and Frame/Kernel
-- compares the two handlers.
--
-- Mm: kernel/src/mm/mm.c, the memory manager. Its nodes lie in memory by their addresses, the root
-- nodes too. Mm/Join has the blocks of a free list in memory and the merging of adjacent ones,
-- Mm/Insert puts a block into the list, and Mm/Free is about the list's order and its free bytes. The
-- searches run on fuel above the number of blocks. Mm/Init: mm_init, with the addresses that
-- the linker gives as arguments; erasing memory is modelled on the words of the nodes.
--
-- Ringbuffer: kernel/src/generic/ringbuffer.c with the memory of its bytes; Ringbuffer/Fifo relates it
-- to the bytes that were added and not read.
--
-- Bytes: kernel/src/generic/memory.c on a memory of bytes, whose addresses do not wrap; the loops on
-- strings run on fuel.
--
-- Umalloc: kernel/src/mm/umalloc.c, with pmalloc.c and bmalloc.c over the memory manager.
-- Umalloc/Bitmap has the free blocks as the set bits of the bitmap's words, Umalloc/Blocks allocates and
-- frees.
--
-- Fat: kernel/src/disk/fat32.h, disk_io.c and the lowest layer of fat32.c, on one record with the
-- globals, the memory of the volumes by their addresses, the memory manager and the disk. The functions
-- of the SD card that disk_io.c calls are an interface, and what is relied on from a card is the record
-- IsCard of Fat/Cache. Fat/Clusters: allocation of a cluster and the moves to the next one; Fat/Names:
-- names and checksums; Fat/Search: the search in a directory and the volume label; Fat/Volumes: the list
-- of volumes; Fat/Paths: paths, opening and closing; Fat/Files: reading files and directories; Fat/Mount:
-- recognising, mounting and ejecting. Proofs: Fat/Values (stored values), Fat/Cache (the sector in the
-- buffer), Fat/Chains (the table and chains of clusters), Fat/Reading and Fat/Contents (reading a file),
-- Fat/Letters, Fat/Grow and Fat/Added (the list of volumes). An access behind the buffer of 512 bytes is a
-- fault; loops over directories, paths and lists run on fuel, one round each, so that the number of
-- entries and characters, plus one, is enough.
--
-- Boot: bootloader/src/drivers/flash.c and the data of bootloader/src/bootloader.c, over the flash
-- controller and the hash engine as interfaces; Boot/Commands: the commands, the check at boot and the
-- loop of bootloader/src/main.c. Boot/Hash has what is relied on from the hardware, as IsFlash and
-- IsEngine, and is about the hash of the kernel.
--
-- Sprint: kernel/src/generic/sprint.c, the same as bootloader/src/generic/sprint.c, with the variadic
-- arguments as a list of words; its loops run on fuel above the lengths of the strings, and ten rounds
-- print a number. Sprint/Decimal reads the printed digits back.
--
-- Linker: the relocation of kernel/src/kernel/dynamic_linker.c, on words of memory; Linker/Relocation is
-- about the tables. Starting the thread of the application is left out.
--
-- Usb: the types of kernel/src/usb/usb.h and usb_protocol.h, a descriptor being the list of its bytes.
-- Usb/Descriptors: the verification and the parsing of usb.c, on the objects in a device's block by their
-- addresses; Usb/Drivers: the search for a driver; Usb/Requests and Usb/Enumeration: the requests and the
-- handler of usb.c, with the calls of the host controller (drivers/usbhc.c) as a list, and the block that
-- bmalloc returns as an argument. The buffer of the enumeration has 1024 bytes, and an answer that is
-- longer is a fault. Usb/Stream says what descriptors a buffer holds; Usb/Block, that the objects of
-- a block lie apart, so that a map for each kind of them stands for its bytes; Usb/Layout, Usb/Kept,
-- Usb/Tree, Usb/Forest, Usb/Parsing, Usb/Printed and Usb/RoundTrip follow the parser along it, Usb/Order and
-- Usb/Enumerated the handler along the answers of a device; Usb/Addresses and Usb/Matching are about
-- addresses and drivers. Loops over descriptors run on fuel above the number of bytes.
--
-- Usbhc: the state of kernel/src/drivers/usbhc.c, over the registers, which usbhw.h reads and writes, and the
-- callbacks as interfaces. Usbhc/Transfers: the life of an URB; Usbhc/Pipes: claiming, configuring and picking
-- pipes; Usbhc/Exceptions: the interrupt handlers and the start. Usbhc/Receive, Usbhc/Queue, Usbhc/Pick
-- and Usbhc/Sizes are about the bytes that come in, the order of the URBs, the pipe that is handled and the
-- size of a pipe.
--
-- Ring: the circular lists of kernel/src/kernel/list.h, which the USB host uses, on a memory of their
-- nodes.
--
-- Not modelled: drivers, clocks, pins, the SD protocol and the registers of the USB host, which write and poll hardware
-- registers; start-up, fault handlers and stack switches, which are assembly; printing for people,
-- benchmarks and empty placeholders; the tools of the host, which are not C.
pub mod Base
pub mod Dlist
pub mod Sched
pub mod Crc
pub mod Frame
pub mod Boot
pub mod Bytes
pub mod Fat
pub mod Linker
pub mod Mm
pub mod Ring
pub mod Ringbuffer
pub mod Sprint
pub mod Umalloc
pub mod Usb
pub mod Usbhc
