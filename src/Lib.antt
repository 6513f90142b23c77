-- ===== src/Lib.antt =====
-- StakOS, a 32-bit x86 kernel in C: its memory management, its scheduler, its file table and system
-- calls, its console and its shell.
--
-- The parts, each in the file of its name:
--   Pmm        kernel/pmm.c: the bitmap of physical frames; frames for the heap, page tables and programs.
--   Kmalloc    mm/kmalloc.c: the kernel heap, a chain of headers in memory.
--   Process    kernel/process.h and kernel/process.c: the process structures and their table.
--   Scheduler  kernel/scheduler.c and boot/context_switch.asm: the ready queue and the switch.
--   RamFs      kernel/ramfs.c: the table of files.
--   Syscall    kernel/syscall.c: the calls on files and on the screen.
--   Vga        kernel/vga.c: the text screen.
--   Keyboard   drivers/keyboard.c: scancodes and the input buffer.
--   Shell      shell/shell.c and shell/sh_util.c: numbers, words and the line editor.
--   Paging     kernel/paging.c: page directories and page tables.
--   Elf        kernel/elf.c: the check and the loading of programs.
--   Descriptors  kernel/gdt.c and kernel/idt.c: the encoding of the entries, and the segment table.
--   Interrupt  kernel/idt.c and kernel/pit.c: the gates, the exception reports, the handlers, the timer.
--   Kernel     kernel/process.c, kernel/scheduler.c, kernel/syscall.c: what needs the whole kernel, that
--              is the creation and the end of processes, the tick, the dispatch of system calls and the
--              reports; Kernel.Context is the stack of boot/context_switch.asm.
--   Command    shell/commands*.c and shell/shell.c: the commands, their table and the shell's loop.
--   Boot       kernel/kernel.c: the start, and what an interrupt runs.
--   Userland   userland/test_prog.c: the demonstration program, as the system calls that it makes.
-- Base holds what they share, with the words of 32 bits and their bits in Base.Words, literals in
-- Base.Text and, in Base.Run, how a routine ends: with a value, with the machine halted, or out of
-- fuel. Memory is the byte memory behind the C pointers. An operation has the source's name and takes
-- the state of its part, a record with the source's static variables, explicitly. The tests stand in
-- the modules called Tests.
--
-- Numbers are natural numbers; words wrap at 2^32 where the source computes in `uint32_t`. A pointer
-- is an address, 0 being NULL, since the kernel runs identity-mapped; the addresses of a loop over a
-- buffer are taken not to pass 2^32. A string is the list of its bytes before the NUL. Loops over
-- linked structures run on fuel, and the theorems say that fuel above the number of elements is
-- enough; loops with a counter recurse on what is left to count.
--
-- A process structure is a record next to the byte memory: of its block of the heap the model keeps
-- the header alone. After a switch to another process the model goes on with the new state; where the
-- code that has switched runs on later (cmd_synctest, cmd_sleep), the state that it then finds is a
-- parameter (Command.World).
--
-- The kernel's static variables and process structures are records next to the byte memory. Where a
-- pointer from user mode leads to them, which the source does not check, the model stops with
-- `unmodelled` (Kernel.Exit.touches).
--
-- Not modelled: interrupts within a routine (a critical section, and kernel_main, is one step), the
-- TLB and the control registers but CR3, what the devices do with the bytes written to their ports,
-- the command shutdown, the idle loop and the jump to user mode.
--
-- A well-formed heap (Kmalloc.Calls.IsHeap) is a chain of headers for blocks in address order that do
-- not overlap; a well-formed queue (Scheduler.Queue.IsQueue) leads through distinct processes to NULL,
-- with its tail and its count right, and with the zombies (Scheduler.Lists.IsSched) it shares no
-- process; a valid counter (Pmm.Alloc.IsValid) is the number of free frames plus a slack `k`, which
-- pmm_init can leave above 0: it reserves frame 0 without counting, and counts a frame of two regions
-- twice. The memory map of the boot loader is a list of tags (Pmm.Map.AreTags).
pub mod Base
pub mod Memory
pub mod Pmm
pub mod Kmalloc
pub mod Process
pub mod Scheduler
pub mod Keyboard
pub mod Shell
pub mod RamFs
pub mod Vga
pub mod Syscall
pub mod Userland
pub mod Paging
pub mod Elf
pub mod Descriptors
pub mod Kernel
pub mod Command
pub mod Interrupt
pub mod Boot
