-- ===== src/Driver/Memset.antt =====
-- The `memset` that mdriver.c calls, on memory of 8-byte words: whole words, then the low bytes of
-- the last one. The destination is a multiple of 8.
pub mod Laws
use uof_ufall.Base.{ℕ, zero, suc, ◌+◌, ◌*◌, ◌-◌, ◌/◌, ◌%◌, ◌^◌, ◌==◌, if◌then◌else◌}
use uof_ufall.Machine.{Ptr, Cmd, pure, load, store, ◌>>=◌, ◌>>◌}

-- `n` bytes that each hold `byte`, as a number
abbrev pub repeat_byte : ℕ → ℕ → ℕ
repeat_byte byte n = byte * ((256 ^ n - 1) / 255)

unfoldable pub fill_words : ℕ → Ptr → ℕ → Cmd (Unit {0})
fill_words zero p byte = pure tt
fill_words (suc n) p byte = do store p (repeat_byte byte 8); fill_words n (p + 8) byte

-- a store of the low `n` bytes keeps the others
unfoldable pub fill_part : ℕ → Ptr → ℕ → Cmd (Unit {0})
fill_part n p byte =
    if n == 0 then pure tt else do w ← load p; store p (w / 256 ^ n * 256 ^ n + repeat_byte byte n)

unfoldable pub memset : Ptr → ℕ → ℕ → Cmd (Unit {0})
unfolding fill_words fill_part
memset p byte size = do fill_words (size / 8) p byte; fill_part (size % 8) (p + size / 8 * 8) byte
