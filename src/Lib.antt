-- ===== src/Lib.antt =====
-- PepsOS: a verification library for the kernel and its shell.
--
-- PepsOS is a small 64-bit kernel with preemptive scheduling by priorities, blocking and sleeping
-- processes, and a choice of two memory managers. The timer interrupt calls the scheduler and then
-- the sleeping processes' counters; system calls change the process table and may block the caller,
-- who then waits for another process; the process table lives on memory from the memory manager.
--
-- Which file models which part:
--   * Common: tests on numbers, lists with native indices, machine words, and weights of lists. Chain
--     is about lists that C code links with a pointer to the last element, Swaps about reversal in
--     place.
--   * Scheduler (Kernel/scheduler.c, Kernel/include/scheduler.h, Kernel/time.c): Table has the
--     records; Queues links a process at the end of a ready list; Unlink is the search and removal
--     that `block`, `unblock`, `kill` and `changePriority` share; Timer has `unblock` and the sleeping
--     processes; Switch has `priorityScheduler`, the interrupt handler that calls it, `block`,
--     `yield`, `wait` and `sleep`; Kids, Create, Kill, Priorities and Info have the rest.
--   * Scheduler/Invariant: what holds of the table between operations, and that each operation keeps
--     it; System has the steps of the whole system, Booted the start.
--   * Memory (Kernel/memMan.c): the interface `Allocator` that the scheduler takes as an instance
--     argument. Memory/Buddy is Kernel/BuddyMemoryManager.c, Memory/Block is
--     Kernel/BlockMemoryManager.c, Memory/Managers has the two as instances.
--   * Clib (Kernel/lib.c): strings, memory copies, the key buffer, logarithms, the clock's digits.
--   * Keyboard (Kernel/keyboard.c): modifier keys and the table of signs, on the key buffer.
--   * Sem (Kernel/sem.c, enter_region and leave_region of Kernel/asm/libasm.asm): semaphores, on the
--     scheduler and the memory manager's interface.
--   * Pipes (Kernel/pipes.c): pipes, on the semaphores. Pipes/Buffer is about the ring buffer alone.
--   * Console (Kernel/video.c): the text cursor, strings and numbers. Console/Shapes has the shapes,
--     Console/Reports the reports on registers and processes of Kernel/lib.c.
--   * NaiveConsole (Kernel/naiveConsole.c): the early console, on the memory of the screen.
--   * Kernel (Kernel/irqDispatcher.c, `main` of Kernel/kernel.c): the state of the whole kernel, and
--     the calls that come into it. Numbers has the cases of `int_80`, Calls what each does, Streams
--     `system_read` and `system_write`, Boot the start; Kernel/Invariant carries what holds of the
--     process table through all of them.
--   * Userland (Userland/SampleCodeModule): Text is user_lib.c; Commands and Shell are consola.c, on
--     the system calls as an interface (Calls); Snake is snake.c and snake2.c; Philosophers is
--     philosophers.c as a step relation; Filters is IPC.c.
--   * Tests modules hold concrete systems.
--
-- How state and pointers are modelled. A pointer to a `Process` is its pid; the `next` fields are the
-- order of the lists. `pcb.running` is null, the halt process, or a process that is in no list.
-- Address 0 is mapped, with the interrupt descriptor table there (Kernel/idtLoader.c), and the code
-- does store through a null `lastReady`: `null_next` is what that store leaves there, and its damage
-- to the descriptors is not modelled. A result of `allocMemory` that is NULL is kept as the address 0:
-- a process with that address is not queued (`enqueue_new`), and the lemmas on creation ask for memory
-- (`HasRoomFor`). The bytes of a stack are not modelled, nor what a stack at NULL overwrites. A pointer
-- being a pid, the process table takes it for granted that a memory manager gives out no block twice.
-- A C `int` is its 32-bit pattern, and sums wrap. A
-- function that blocks its caller gives the state in which the next process runs. A call of `kill` or
-- `exit` that ends its caller does not return (`Outcome`). The system's steps are the timer interrupt
-- at any time and a call by the running process; a call that would use up the last pid is no step,
-- since `nextPid` is not checked for overflow.
--
-- The tree of the buddy memory manager is a tree; the nodes' own addresses, which the code computes
-- from their indices, are not modelled. `malloc_rec` splits on fuel, which is the block's size: each
-- split halves it. The rounding loop runs on 32 steps: after 31 doublings the `int` is negative. The
-- blocks that are given out are compared by weights: two trees have the same blocks if every
-- function of start and size has the same sum over them.
--
-- The block memory manager's list is in the order of the `nextBlock` fields; a release of an address
-- behind all blocks runs through a null pointer, and gives `none`. Strings are shorter than 2 ^ 31
-- bytes. `memcpy` is between buffers that do not overlap. The screen is a log of the shapes drawn.
--
-- An attempt of `sem_wait` or `sem_post` at a semaphore's lock is one step; a caller that misses the
-- lock is blocked and makes another attempt when it runs again. Interrupts inside an attempt are left
-- out, with the `sti` of `enter_region`. `clear_sem` runs on fuel, the length that the semaphore has noted for its list.
--
-- A call on a pipe that blocks its caller says how it goes on (`Progress`). An index of a pipe is
-- taken as not negative.
--
-- A system call gets its arguments as registers; what the kernel reads of a process's memory is a
-- parameter, and what it writes there is a log (`Store`). A call whose caller is blocked is made again
-- when the caller runs (`Result`). A key comes while a process runs: with the halt process running the
-- keyboard's write to its pipe would have no process to block. A device (the clock) is a function.
--
-- The shell reads letters from its pipe one at a time: a turn of its loop is a function of the line
-- and the letter; it ends in `overruns` where the code stores behind the line's 50 bytes. A read behind
-- a string's last byte gives 0. Eating at the snake's full length gives `none`. A semaphore of the philosophers is its counter, and a step that has to wait is
-- `none`; each access to a shared variable is a step of its own. The loop that looks for a place of a
-- face is modelled by one turn of it, which says whether the loop ends: a screen that the snake covers
-- has no such place, so there is no bound on the turns.
--
-- `ncNewline` and `uintToBase` run on fuel, 80 turns (the columns of a row) and 64 (the binary digits
-- of a number), and give `none` if it were not enough. Their stores outside the buffer are lost.
--
-- Not modelled: the bytes of stacks, registers of the scheduler but for the stack and frame pointers,
-- devices, pixels, the drawing of the games and the menu, and the loader.
pub mod Clib
pub mod Common
pub mod Console
pub mod Kernel
pub mod Keyboard
pub mod Memory
pub mod NaiveConsole
pub mod Pipes
pub mod Scheduler
pub mod Sem
pub mod Userland
