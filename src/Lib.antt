-- ===== src/Lib.antt =====
-- A model of the C programs of this repository: the allocator of the malloc lab with its memory
-- system and its test driver, the handout of the machine-code simulator, and three of
-- the simulator's test programs.
--
-- The parts. All paths are below cs4400/. The allocator (assn5/malloclab-handout/mm.c) keeps
-- mapped regions, each a page header followed by blocks with a header and a footer, and a doubly
-- linked list of the free blocks and another one of the regions. It gets its regions from memlib.c, which calls mmap and
-- munmap and records every mapped page in pagemap.c's three-level table. mdriver.c runs traces of
-- requests through the allocator and checks every payload it is given against that table and
-- against the payloads in use; fcyc.c repeats a measurement until it is stable.
--
-- Files and code.
-- - Machine: memory is a function from the address of an 8-byte word to its value, with nothing
--   where no page is mapped; an access there is a fault. The 4-byte `allocated` of a header is the
--   low half of the word behind `size`. The static variables of mm.c, memlib.c and pagemap.c are
--   the other fields of the state. A command takes a state to a result and a state, or to a fault,
--   an abort, or the end of its fuel. Machine/Returns has the rules for total correctness.
-- - Pagemap is pagemap.c; Memlib is memlib.c with `pagemap_for_each`. Pagemap/Links, Splice and
--   Listing are about the doubly linked list of mapped entries, Memlib/Map and Unmap about regions,
--   and Memlib/Reset about `mem_reset`.
-- - Mm is mm.c: Mm/Layout has its macros and structs, Mm/Lists the free list and the page list,
--   Mm/Blocks `write_footer`, `get_prev_block`, `get_next_block` and `split_block`, and Mm itself
--   `coalesce`, `check_and_unmap_full_pages`, `mm_init`, `mm_malloc` and `mm_free`. Functions keep
--   their names; free blocks are addressed by their payloads, as in the source.
-- - Mm/Heap states when a page is well-formed: blocks tile its body, each with a footer that
--   repeats its size, and the free list has the payloads of exactly the free ones among the page's
--   addresses. A Hole is a page of which one region is neither tiled nor listed, a Listed one of
--   which the region's payload is still on the list. All of them say, by Mm/Blocks/Elsewhere, that
--   nothing but links has changed outside of the page. Mm/Malloc and Mm/Free are about `mm_malloc`
--   and `mm_free` in a page.
-- - Mm/Arena states when the heap as a whole is well-formed: the page list, every page, the page
--   table's entries for the pages, the table's own list, and the free list, every block of which
--   lies in a page. Its child modules are about `mm_init`, `mm_malloc` and `mm_free`: Malloc serves a
--   request from the free list; Vacant, Grow, Format and Fresh from a new region; Refused is about
--   mmap failing; Free merges, and Sweep,
--   Detach and Drop take `check_and_unmap_full_pages` apart: delist the block, unlink the
--   page, unmap it. Taken says that exactly some pages have gone from the table and from memory.
-- - Mm/Arena/Client is the view of a client, for whom a heap is the bag of the payloads in use
--   (Mm/Arena/Live): Holds relates a state to such a bag, up to order, Find goes from a payload to its
--   block, and Apart is about overlaps. Contents lets clients write to payloads. Covers and Serving know a
--   payload by the size that was asked for, as clients do, and Session has them as a step relation.
--   Mm/Heap/Keeps, Mm/Arena/Clear and Keeping follow the words of the payloads in use through an
--   operation, and Lasting follows one of them through the steps of a client.
-- - Driver is mdriver.c: Driver/Ranges the range list, Driver/Eval the runs `eval_mm_valid`,
--   `eval_mm_util` and `eval_mm_speed`, Driver/Memset the `memset` they call, Driver/Libc the runs
--   against the C library. Driver/Trace is `read_trace`, on the words of a file, and
--   Driver/Trace/Printing writes such files. Driver/Eval/Running, Requests and Valid put
--   `eval_mm_valid` and the allocator together, Driver/Eval/Util and Peak `eval_mm_util`.
-- - Fcyc is fcyc.c, with the cache clearing in Fcyc/Clear. Fcyc/Ends is about its loop over samples,
--   Fcyc/Insert and Best compare the array of kept values with a sorted list of all samples, and
--   Fcyc/Stops and Least are about the number of samples and the result. Clock is the cycle
--   counter of the x86 in clock.c. Simulator is simulator/simulator.c and instruction.h, and Programs has
--   simulator/tests/complex/factorial.c, log2.c and sort.c.
-- - Base has what all of them share, Tests the theorems at concrete inputs.
--
-- Numbers. `size_t` sums and differences wrap at 2 ^ 64 where they are written with add64 and
-- sub64. Pointers are natural numbers, and sums of a pointer and an offset do not wrap: such a
-- pointer would lie outside of any object. `page_count` and `activity_counter` are 32-bit patterns.
-- `mem_heapsize` multiplies two values of type int; a product beyond that type is undefined in C and a
-- fault here, and `eval_mm_util` is treated for fewer than 2 ^ 19 pages. `get_counter` returns a double:
-- its sum is rounded to the nearest one. A sample of fcyc.c is a double, negative or fractional as it may
-- be, and stands as its rank in the order of the doubles; NaN is left out. The product of 1 plus epsilon
-- and a sample is Scale, a parameter, since the floating-point unit rounds it.
-- The registers of the simulator are the 17 of `NUM_REGS`; an instruction that reads or writes
-- another one has no result.
--
-- Fuel. A walk along a list in memory takes fuel, one unit for an element and one for the end. The
-- theorems about walks ask for more fuel than the list has elements; Mm/Arena/Enough shows that
-- more than 2 ^ 64 + 1 is enough for every list of a heap, since its elements are different
-- addresses, and the theorems about clients and runs ask for that. `fact` and `log2` take fuel for
-- the depth of the recursion, `fcyc` for every sample and for every word of the cache that `clear` reads, `read_trace` for every request, and
-- `mem_reset` for every page of the address space. The loops over the pages of a region count the
-- pages and need none.
--
-- Parameters. mmap, munmap and getpagesize are answers that an operating system gives; a fresh
-- mapping holds zeros. Granted, in Memlib/Map, is about one request: the answer of mmap, what
-- mmap documents of it, and a condition on the program's own page table, that no page of the
-- region is recorded there. What the C library's malloc and realloc answer to the driver's calls is another
-- parameter, Libc. What malloc gives `clear`, and what the cycle counters give `fcyc`, are parameters too. The tables that pagemap.c asks calloc for are taken to be
-- given, and so is the range record that `add_range` asks malloc for.
--
-- Not modelled: the options, the opening of trace files and all printing of mdriver.c, with its
-- `unix_error`; the other
-- counters of clock.c, and the timers of ftimer.c and fsecs.c, which are assembly, sleeping, signals
-- and floating-point arithmetic; the floating-point mean of `eval_mm_util`; the exercises in other languages.
pub mod Base
pub mod Machine
pub mod Pagemap
pub mod Memlib
pub mod Mm
pub mod Clock
pub mod Driver
mod Tests
pub mod Programs
pub mod Fcyc
pub mod Simulator
