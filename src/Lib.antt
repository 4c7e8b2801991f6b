-- ===== src/Lib.antt =====
-- A model of the simulated operating system of this repository, in the configuration of
-- include/os-cfg.h: MLQ_SCHED, MM_PAGING and MM64.
--
-- A process is a list of instructions; `run` (src/cpu.c) executes one of them and calls the memory
-- library (src/libmem.c) or the system calls (src/libstd.c, src/syscall.c). The library keeps regions
-- in areas (src/mm-vm.c) and a symbol table, looks pages up in page tables (src/mm64.c), and takes
-- frames from the RAM and swap devices (src/mm-memphy.c). The scheduler (src/sched.c) keeps queues of
-- processes (src/queue.c). The threads of the CPUs and of the loader (src/os.c), which reads programs
-- (src/loader.c), meet once in each time slot at the timer (src/timer.c).
--
-- Files, with the code that each models:
--   Prelude     shared names, C integers, lists for arrays, faults, and bit operations
--   Memphy      src/mm-memphy.c: devices; MEMPHY_x of the source is x here
--   Swap        __swap_cp_page of src/mm64.c
--   Pte         page table entries and address digits of src/mm64.c, include/mm.h, include/mm64.h
--   Mm32        src/mm.c, for builds with 32-bit addresses
--   Mm          the structures of include/os-mm.h and include/common.h
--   Vma         src/mm-vm.c and the list constructors of src/mm64.c
--   Mapping     vm_map_ram and what it calls, of src/mm64.c
--   FreeList    get_free_vmrg_area, enlist_vm_freerg_list, get_symrg_byid of src/libmem.c
--   Syscall     src/syscall.c, src/sys_mem.c, src/sys_listsyscall.c, src/libstd.c
--   Alloc       __alloc, __free, liballoc, libfree of src/libmem.c
--   Paging      page faults, __read, __write, free_pcb_memph of src/libmem.c, pte_* of src/mm64.c
--   Kmem        the kernel memory calls of src/libmem.c
--   Sched       src/queue.c and src/sched.c; Sched/Plain is the build without MLQ_SCHED
--   Cpu         `run` of src/cpu.c
--   Timer       src/timer.c: the threads of the timer and of its devices, as a step relation
--   Loader      src/loader.c: get_opcode and load
--   Segmented   src/mem.c, with alloc, free_data, read, write and run of src/cpu.c: builds without
--               paging
--   Printing    the functions that print lists of src/mm64.c, and dump of src/mem.c
--   Os          cpu_routine and ld_routine of src/os.c
--   Threads     the threads of src/os.c and src/timer.c together, as a step relation
--   Main        main of src/os.c from the creation of the threads on, and stop_timer of src/timer.c
--   Config      read_config of src/os.c
--   Boot        main of src/os.c, from the timer to the creation of the threads
--   Launch      main of src/os.c from its arguments, with read_config and load
--   PagingTest  src/paging.c, a test program
--   Tests       each property that has hypotheses, at a concrete input
-- The children of a module hold its proofs, each named for what it is about.
--
-- State is passed explicitly. A function of the source becomes a function to its status, the new
-- state and the new values of its out-parameters, inside `Outcome`, which is a result or a fault: a
-- use of NULL, of something never initialised, or of an element outside an array, or waiting for
-- ever on a mutex. A pointer is NULL, never initialised, or valid; a pointer to a node of a list that
-- the code updates is the position of the node. Integers are natural numbers with the wrap-around of
-- their C type written out; `int` results are ℤ.
--
-- Threads: in Timer, a section of src/timer.c between lock and unlock is one step, and a thread
-- that waits for a condition has no step until it holds. Os has a CPU and the loader between their
-- calls of next_slot, each alone, as functions. Threads puts the timer, all CPUs and the loader
-- together: a step is one call of the scheduler, one test of `done` or of the time, one
-- instruction, one half of next_slot, or detach_event, by any thread that can take it; the children
-- of Threads are about all orders of such steps. An instruction of one CPU and the loader's changes
-- of the kernel are taken as atomic, which the source does not ensure, and every thread sees the
-- writes of the others at once. The CPU and the loader take the scheduler as an interface
-- (include/sched.h), of which no law is assumed, but that add_proc returns where Os/Arrivals has
-- the loader alone. Os/Idle fills it with the functions of src/sched.c; Threads/Stalled, Main/Stuck
-- and Launch/Stalled are about the program with these, and the other modules about whatever
-- scheduler stands there. Main adds the steps of main: the joins, which wait for the threads, and
-- stop_timer, which sets `timer_stop`, waits for the timer and frees its devices. Launch has main
-- from its arguments on: it reads the configuration, sets up what Boot has, and starts the program
-- of Main, in which the loader reads the programs by Loader.
--
-- Bounds and fuel: the loop of MEMPHY_mv_csr is on fuel, one more than the number of cells of the
-- device, and makes at most one round for each cell. The loop in which the loader waits for a start
-- time is on fuel, that start time, and each of its rounds lasts one slot. cpu_routine is an endless
-- loop, and cpu_rounds is any number of its rounds. All other loops are recursions on lists or on
-- counters.
--
-- Parameters: the table of system calls, which the build generates from src/syscall.tbl; the
-- conversions of stdio (in Loader and Config), which read words and numbers from a stream; the content
-- of memory from malloc and of uninitialised locals. malloc is taken to succeed, and the mutexes of
-- src/libmem.c and src/sched.c to be used by one thread at a time.
--
-- Not modelled: pthread_create, a thread that has not been made being one that has taken no step;
-- what the functions print, but for those whose purpose it is.
pub mod Prelude
pub mod Memphy
pub mod Swap
pub mod Pte
pub mod Mm32
pub mod Mm
pub mod Vma
pub mod Mapping
pub mod FreeList
pub mod Syscall
pub mod Alloc
pub mod Paging
pub mod Sched
pub mod Timer
pub mod Kmem
pub mod Cpu
pub mod Loader
pub mod Segmented
pub mod Printing
pub mod Os
pub mod Config
pub mod Boot
pub mod Threads
pub mod Main
pub mod Launch
pub mod PagingTest
pub mod Tests
