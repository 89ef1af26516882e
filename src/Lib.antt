-- ===== src/Lib.antt =====
-- catchOS, a small x86 kernel: its memory allocators, its tasks and scheduler, its data structures,
-- its locks, the tables of the firmware and some of its device drivers.
--
-- The parts. Base has what the others share: tests, C arrays as functions of an index (`Mem` is
-- memory, a byte for each address), signed integers, counted loops and single bits.
--   Bitmap       kernel/utils/bitmap.c
--   Str          kernel/utils/string.c; the underscore of the C names is dropped
--   KHeap        kernel/mmu/kheap.c, the bump allocator, which clears what it hands out
--   PageFrame    kernel/mmu/pageframe_alloc.c; its bitmap lies on the kernel heap
--   Tasks        kernel/tasks/tasks.c and include/tasks.h: the task list (Create), the scheduler
--                (Schedule), their laws in the other files; Tasks.Semaphore is kernel/tasks/sem.c,
--                on the queues
--   LinkedList   kernel/utils/list.c: commands over a heap of nodes and data blocks
--   Queue        kernel/utils/queue.c, on the linked lists
--   Printf       kernel/utils/printf.c, by the rounds of the loop over the format
--   HashTable    kernel/utils/hashtable.c, on the linked lists: the pairs of a table (Pairs), what
--                it stands for (Refine), and one insertion (Steps, Grow, Keyed, Insert)
--   Boot         kernel/common/multiboot_info.c, the walk over the boot loader's tags
--   Acpi         kernel/drivers/acpi/acpi.c, on the page frames, paging and the hash table; Acpi.Madt
--                and Acpi.Info are kernel/drivers/acpi/madt.c
--   Drivers      kernel/drivers/pic.c, pit.c, serial.c, keyboard.c, ioapic.c
--                and lapic.c
--   Sync         kernel/utils/atomic.c, spinlock.c and rwlock.c
--   Console      kernel/drivers/svga.c, and `ceiling` of kernel/utils/maths.c; its colours and the
--                place of a glyph (kernel/shell/font.c) are Console.Colour
--   Syscall      kernel/sys/syscall.c, the screen for user programs
--   Shell        kernel/shell/shell.c, on Syscall and Console: the input line (Edit, Line, Cin), the
--                output (Output), the commands (Command, Choice), and a round of all of them
--                (Spelled, Turn)
--   Bmp          kernel/shell/bmp.c: the size of a row (Rows), and all pixels (Pixels)
--   Power        kernel/power/shutdown.c and reboot.c, and kernel/drivers/acpi/fadt.c
--   Debug        kernel/utils/debug.c: one loop for both functions, with a record of operations for
--                the serial line or the screen; formats and their texts are Debug.Items
--   Smp          kernel/tasks/smp.c, on the local APIC and the I/O APIC
--   Mmu          kernel/mmu/liballoc_hooks.c and mmu.c, on the page frames and paging
--   TextMode     kernel/drivers/vga_legacy_textmode.c and include/drivers/framebuffer.h
--   Interrupt    kernel/interrupt/interrupt.c; Timer: kernel/timer/timer.c
--   Paging       kernel/mmu/paging.c, over bytes of memory on the kernel heap
--   Tests        runs on small inputs, and the theorems at concrete arguments
-- A function of the C code is a definition of the same name; a static variable is a field of the
-- record of its module, and a function that changes it takes the record and returns the new one.
-- The best fit of the page frames is three definitions: the search in one byte
-- (`best_fit_pos_in`), the search over the bytes (`bestfit_page`), and the marking (`claim_page`);
-- the first fit is `skip_full`, `firstfit_page` and `claim_page`. A task function that returns is
-- `task_return`; one look of `task_join` at its task is `task_join_step`.
--
-- Numbers. Unsigned values are natural numbers with their wrap-around written out. The signed
-- counters are integers without it: overflow is undefined in C, and the values stay small. The
-- pointer 0 is null. Addresses wrap around in the loops over the tables of the firmware and the
-- boot loader; elsewhere a buffer does not reach over the top of the address space. The library allocator of mmu_mmap is outside: its results are arguments
-- (`NewArgs`) or a list of addresses (`supply`, null for a failure).
--
-- Fuel. `kmalloc_align` takes its alignment as fuel, since a multiple is never further away. The
-- loop of `schedule` needs two rounds when some task is runnable, and may run for ever when none
-- is. `strlen`, `strcmp` and the walks over lists need more than the length of their string or
-- list; without that they give `none`, as they do for a null pointer that is followed.
-- `int_to_str_static` has 32 rounds, one for each bit. `madt_parse` has a round for each byte of its
-- table, since no entry is empty; where it would write past an array of `struct MADT_info` the
-- model stops (`past_array`), as the walk over the boot loader's tags does at a third module
-- (`past_mods`). That walk has fuel for the tags and fuel for each memory map, and needs more than
-- their number and more than the bytes of the maps. The polling of the serial line ends with the list of its
-- readings. `round_up` of the pictures needs four rounds. `shell_cout` and `_dbg_log` need more
-- than the length of their text, and the search for a command needs 9 for the longest name. A
-- round of the shell takes its keys from a list, and `delay_bootstrap` a round for each tick.
--
-- Concurrency. The spin lock is a system of CPUs in which each access to the lock is one step and
-- a schedule is any list of CPUs. The readers-writer lock is such a system too; it has the places
-- of a CPU in the functions of rwlock.c, and a schedule also says who reads and who writes. In
-- Tasks each section under the lock of the task list is one step, and in Tasks.Semaphore each
-- function runs undisturbed.
--
-- Not modelled: the exchange of registers and stacks, the table of glyphs, the order of the
-- start-up in kernel/kmain.c, single machine instructions, and the copy of the third-party
-- allocator. A product of floating-point numbers in the colours of the screen is an argument. The
-- other modules leave their debug output out: it has no effect on their state.
pub mod Base
pub mod Bitmap
pub mod Str
pub mod KHeap
pub mod PageFrame
pub mod Tasks
pub mod LinkedList
pub mod Queue
pub mod Drivers
pub mod Sync
pub mod Console
pub mod Interrupt
pub mod Paging
pub mod Timer
pub mod TextMode
pub mod HashTable
pub mod Acpi
pub mod Printf
pub mod Boot
pub mod Bmp
pub mod Syscall
pub mod Shell
pub mod Power
pub mod Debug
pub mod Smp
pub mod Mmu
mod Tests
