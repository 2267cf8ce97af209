-- ===== src/Mm/Malloc.antt =====
-- `mm_malloc` of mm.c.
pub mod Reuse
