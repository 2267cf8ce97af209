-- ===== src/Mm/Layout.antt =====
-- The constants, macros and structs of mm.c: the offset of each field, and the accesses.
use uof_ufall.Base.{ℕ, ◌+◌, ◌-◌, ◌*◌, ◌/◌, ◌%◌, ◌^◌, add64}
use uof_ufall.Machine.{Ptr, Cmd, pure, ◌>>=◌, load, store}

abbrev pub alignment : ℕ
alignment = 16

-- `ALIGN(sz)`: adding wraps, and `& ~15` clears the last four bits
abbrev pub align : ℕ → ℕ
align size = add64 size (alignment - 1) / alignment * alignment

-- `sizeof` of `header_t` and `footer_t` is 16, that of `page_chunk_t` is 32
abbrev pub hdrsize : ℕ
hdrsize = align 16

abbrev pub fdrsize : ℕ
fdrsize = align 16

abbrev pub pagehdrsize : ℕ
pagehdrsize = align 32

abbrev pub min_block_size : ℕ
min_block_size = 32

-- `header_t`: `size` at 0, the 4-byte `allocated` at 8
unfoldable pub block_size : Ptr → Cmd ℕ
block_size h = load h

unfoldable pub set_size : Ptr → ℕ → Cmd (Unit {0})
set_size h size = store h size

unfoldable pub get_alloc : Ptr → Cmd ℕ
get_alloc h = do w ← load (h + 8); pure (w % 2 ^ 32)

-- a 4-byte store keeps the upper half of the word
write_alloc : Ptr → ℕ → Cmd (Unit {0})
write_alloc h flag = do w ← load (h + 8); store (h + 8) (w / 2 ^ 32 * 2 ^ 32 + flag)

unfoldable pub set_alloc : Ptr → Cmd (Unit {0})
unfolding write_alloc
set_alloc h = write_alloc h 1

unfoldable pub set_free : Ptr → Cmd (Unit {0})
unfolding write_alloc
set_free h = write_alloc h 0

-- `FREE_PREV_PTR` and `FREE_NEXT_PTR`, in the payload of a free block; `prev_chunk` and
-- `next_chunk` of `page_chunk_t` have the same offsets
abbrev pub get_prev : Ptr → Cmd Ptr
get_prev p = load p

abbrev pub get_next : Ptr → Cmd Ptr
get_next p = load (p + 8)

abbrev pub set_prev : Ptr → Ptr → Cmd (Unit {0})
set_prev p q = store p q

abbrev pub set_next : Ptr → Ptr → Cmd (Unit {0})
set_next p q = store (p + 8) q

-- `page_size` and `page_end` of `page_chunk_t`
abbrev pub get_page_size : Ptr → Cmd ℕ
get_page_size p = load (p + 16)

abbrev pub get_page_end : Ptr → Cmd Ptr
get_page_end p = load (p + 24)

abbrev pub set_page_size : Ptr → ℕ → Cmd (Unit {0})
set_page_size p size = store (p + 16) size

abbrev pub set_page_end : Ptr → Ptr → Cmd (Unit {0})
set_page_end p end = store (p + 24) end
