-- ===== src/Driver.antt =====
-- cs4400/assn5/malloclab-handout/mdriver.c: the range list and the runs of a trace against mm.c.
pub mod Ranges
pub mod Memset
pub mod Eval
pub mod Trace
pub mod Libc
