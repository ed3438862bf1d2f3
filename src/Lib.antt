-- ===== src/Lib.antt =====
-- Nyxis OS: a model of the kernel's core, with what is proved of it.
--
-- The parts, each in the file or the folder of its name:
--
-- Base         What all parts share. Base.Status has the codes of include/types.h; a function that
--              returns an Nstatus and writes results through pointers returns a Result, `ok` with
--              those results or `err` with the code. Base.Words has unsigned words, with the wrap
--              written out as `% 2 ^ w`, and the page alignment of pfa.c, umem.c and elf.c.
--              Base.Steady has rules for what a chain of calls makes sure of on every path.
-- Vfs          drivers/filesystem/vfs.c and vfs.h. Vfs.Handle has handle_t and vfs_stat_t, Vfs.Path
--              the parsing of paths, Vfs.Tree the tables, Vfs.Resolve the way along a path, Vfs.Calls
--              the calls on open files and Vfs.Editing those that change the tree. The tables of
--              dentries, vnodes, handles and namespaces are lists and a pointer to an entry is its
--              index; a table of operations is a number that the parameter Drivers gives a meaning to,
--              with a state of its own, so that one file system's functions may change all tables.
--              Walks along siblings and parents have a round of fuel for each of the 64 dentries, and
--              the loops over a path one for each byte of it (Vfs.Walking).
-- Handles      nxkernel/kernel/syscall/handles.c. A table is the list of its slots, and a slot
--              pointer is an index. nx_handle_close calls vfs_close, which is a parameter with the
--              state that it changes.
-- Pfa          nxkernel/kernel/mm/pfa.c. The memory is a function from an address to the u64 that
--              stands there, so the free list really runs through the free frames. The memory map is
--              the list of its descriptors. The loop of pfa_init over the pages of a descriptor has a
--              round of fuel for each page below the descriptor's end and one more; Pfa.Range and
--              Pfa.Init prove that this is enough, since every frame offered is registered.
-- Elf          nxkernel/kernel/process/elf.c. Elf.Format has the headers and the checks on them, Elf the
--              functions that read the file and map pages. What they call is the parameter Loader, a
--              state S of the open file, the frames and the page tables; a call is a function from the
--              state to a status and the new state (Base.Effect), so that a failed call keeps what it
--              has done. The loop over a segment's pages has a round of fuel for each page below the
--              end of the segment, which is enough for those from its start on (Elf.Image).
-- Spawn        nxkernel/kernel/process/spawn.c, on top of Elf; the rest of what it calls is Spawner.
-- Syscall      nxkernel/kernel/syscall/syscall.c. A Kernel is the current process with its handle
--              table, user memory, the state of the file systems and what was printed. The handlers work
--              on the tables of Handles, the copies of Uaccess and the heap of Umem; the VFS, the
--              scheduler and the timer are the parameter Calls. The loops of sys_read and sys_write
--              carry the file of the slot, which is written back at their end, and have a round of fuel
--              for each byte; every round but the last transfers at least one.
-- Fat16        drivers/filesystem/fat16/fat16.c. A device is a record that holds its read function as
--              a parameter; the two bytes of a FAT entry and the packed structs are read from byte
--              lists. The copy loop of fat16_file_read has a round of fuel for each byte left to
--              read, and every round reads at least one. The loop over a directory's chain has the
--              bound of the source, total_clusters.
-- Process      nxkernel/kernel/process/process.c, sched_rr.h and schedule.c. The table is a list of
--              its slots, a pointer to a process the index of its slot, and the list of processes
--              runs through the `next` fields. What belongs to paging.c and the file systems is a
--              state of its own that the parameters of Machine change. A call that may not return
--              gives an Outcome; process_switch ends at the switch of the registers, and
--              after_sleep is what process_sleep_ticks does when its caller runs again. Loops over
--              the list have a round of fuel for each slot; since the list has no slot twice, that
--              is enough, as the theorems on the loops prove.
-- Memory       memcpy of nxkernel/lib/memory.c, over a memory that is a function from an address to a
--              byte. It copies forward, by words where both pointers are aligned.
-- Ramdisk      drivers/ramdisk/ramdisk.c, over the same memory. memset is its effect on it.
-- Registry     drivers/filesystem/core.c. A function that is registered is a field of its entry, and null
--              is none; the drivers' state is what such a function changes.
-- Strings      nxkernel/lib/string.c. A string is the list of its bytes before the NUL, and a pointer
--              into it the rest of the list.
-- Umem         nxkernel/kernel/process/umem.c. What it calls of pfa.c and paging.c is the parameter
--              Pages. The loops have a round of fuel for each page below their end, which is enough
--              for the pages that they go through (Umem.Mapping).
-- Uaccess      nxkernel/kernel/syscall/uaccess.c. The check of a range and the copy that may fault are
--              the parameter User; what a copy to user memory wrote before a fault stays there.
--
-- Conventions. Arguments that the source checks for a null pointer, and that its callers make from
-- the address of a variable, are values here, so those checks have no counterpart. Masks that select
-- the low or high half of a word are `%` and `/`; all other `&` and `|` are the bit operations.
-- Locks and irq_save are left out: the code runs on one core, and each call is one step.
--
-- Not modelled: assembly, device drivers and register access, boot code, tests, and what
-- PROJECT.json lists so.
pub mod Base
pub mod Elf
pub mod Fat16
pub mod Handles
pub mod Memory
pub mod Pfa
pub mod Process
pub mod Ramdisk
pub mod Registry
pub mod Spawn
pub mod Strings
pub mod Syscall
pub mod Uaccess
pub mod Umem
pub mod Vfs
