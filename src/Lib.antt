-- ===== src/Lib.antt =====
-- ZeOS, the teaching kernel of the course SO2: the current kernel (zeos/), the second phase of the
-- previous one (so2_old/E1_E2/zeos/), which has processes, and the kernel of the game
-- (so2_old/GAME/zeos/), which has processes with statistics and a keyboard buffer.
--
-- A list_head is an address, the links of all list_heads are two functions (ListHead), and the
-- well-formed lists are the rings of ListHead/Ring; the scheduler's queues (Phase2/Kernel/Queues,
-- Game/Process/Fork) are rings that share no entry. Memory is a function from addresses to bytes, a
-- page table a function from pages to 32-bit entries, the byte map of frames a function from frames
-- to marks. The parts of the kernels meet in their state, a record, which the scheduler, sys_fork
-- and sys_exit take and return; Game/Reach puts them together into the steps of a running kernel.
--
-- Which file models what:
--   ListHead             zeos/list.c, zeos/include/list.h
--   Memory               zeos/utils.c: copies and access_ok
--   Console              zeos/io.c, zeos/devices.c
--   Write                zeos/sys.c: check_fd, sys_write
--   Libc                 zeos/libc.c: itoa, strlen, perror
--   Boot                 zeos/mm.c, sched.c: frames, page tables, the first two processes
--   Start                zeos/system.c: the copy of the user program that main makes
--   Build                zeos/build.c: the tool that puts the boot image together
--   Paging/Entry, Table  so2_old/E1_E2/zeos/mm.c: set_ss_pag, del_ss_pag, get_frame
--   Paging/Frames        so2_old/E1_E2/zeos/mm.c: init_frames, alloc_frame, free_frame
--   Phase2/Kernel        so2_old/E1_E2/zeos/include/sched.h, and current of sched.c
--   Phase2/Boot          so2_old/E1_E2/zeos/mm.c, sched.c: init_mm, set_user_pages, init_sched,
--                        init_idle, init_task1
--   Phase2/Interrupt     so2_old/E1_E2/zeos/interrupt.c
--   Phase2/Segments      so2_old/E1_E2/zeos/mm.c: setGdt, setTSS
--   Phase2/Sched         so2_old/E1_E2/zeos/sched.c: the round robin scheduler, the task switch
--   Phase2/Space         so2_old/E1_E2/zeos/sys.c: the loops over frames and page tables of
--                        init_child_address_space and sys_exit
--   Phase2/Fork, Exit, Block, Unblock, Write
--                        so2_old/E1_E2/zeos/sys.c: the system calls of these names
--   Game/Kernel          so2_old/GAME/zeos: processes with statistics, p_stats.c
--   Game/Sched           so2_old/GAME/zeos/sched.c: the scheduler
--   Game/Space           so2_old/GAME/zeos/sys.c: the loops over frames and page tables
--   Game/Process         so2_old/GAME/zeos/sys.c: sys_fork, sys_exit
--   Game/Boot            so2_old/GAME/zeos/mm.c, sched.c, system.c: how the kernel starts
--   Game/Reach           so2_old/GAME/zeos: the steps of the running kernel and what they reach
--   Game/Clock           so2_old/GAME/zeos/interrupt.c: the clock interrupt
--   Game/Keyboard        so2_old/GAME/zeos/interrupt.c: the circular buffer of key events
--   Game/Ticks           so2_old/GAME/zeos/utils.c: get_ticks
--   Game/Calls           so2_old/GAME/zeos/sys.c: sys_write, sys_get_stats, sys_yield, sys_pollEvent
--
-- A piece of kernel code is a function from state to state; where it reads or writes through NULL it
-- is `none` or `null_access`, where the model stops: the first process faults there, while a child of
-- sys_fork has page 0 mapped and would go on with what it holds. Loops whose end the data decides run on fuel: a fuel above the number of
-- entries suffices for a walk of a list, above the number of bytes for sys_write and for the copy
-- loop of the image builder, and 385 rounds of step 2 for alloc_frame. An int is a natural number or
-- a negative one, without a bound above; a page table entry is a 32-bit word, the fields of which
-- keep the low bits of what is assigned. The steps of Game/Reach are the clock tick, sys_fork and
-- sys_exit of a process other than the idle one, a switch between ready processes, and a move of the
-- stack pointer within the stack of the running process, for what it does in between.
--
-- read, write, lseek and fstat, which the image builder calls, are modelled by what they document:
-- a file is its bytes and a position. That the boot sector loads the image where main expects it is
-- a hypothesis of the theorem on both.
--
-- Not modelled: what is in assembly (the switch of stacks stands as the change of the stack pointer,
-- a flush of the TLB as nothing but the new page directory), the
-- functions of libzeos, which are parameters, what the image builder prints, the test programs, and
-- the exam kernels of so2_old, which vary the code of these; main of the kernels calls the parts
-- above one after the other, of which Game/Boot has memory, scheduler and processes.
pub mod Boot
pub mod Build
pub mod Console
pub mod Examples
pub mod Game
pub mod Libc
pub mod ListHead
pub mod Memory
pub mod Paging
pub mod Phase2
pub mod Prelude
pub mod Start
pub mod Write
