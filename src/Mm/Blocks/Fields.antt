-- ===== src/Mm/Blocks/Fields.antt =====
-- The accesses to a block's header, each as one write.
use uof_ufall.Base.{ℕ, ◌+◌, ◌*◌, ◌/◌, ◌%◌, ◌^◌, ◌≤◌, ◌<◌, ◌≡◌, some, arith}
use native.Mathlib.Decide.{ℕ_discrete}
use uof_ufall.Machine.{Ptr, State, Memory, ok, write, load, store}
use uof_ufall.Mm.Layout.{get_alloc, set_alloc, set_free, set_size, block_size}

-- every address from `lo` up to `hi` is mapped
abbrev pub Mapped : Memory → ℕ → ℕ → Type 0
Mapped m lo hi = (a : ℕ) → lo ≤ a → a < hi → (v : ℕ) × (m a ≡ some v)

-- a word whose lower half is replaced by a flag
abbrev pub with_flag : ℕ → ℕ → ℕ
with_flag w flag = w / 2 ^ 32 * 2 ^ 32 + flag

module _ (s : State) (h : Ptr) {w : ℕ} where
  pub set_size-ok :
      (size : ℕ)
      → s.mem h ≡ some w
      → set_size h size s ≡ ok tt (record s { mem = write s.mem h size })
  unfolding set_size store
  set_size-ok size e = ground arith

  pub block_size-ok : s.mem h ≡ some w → block_size h s ≡ ok w s
  unfolding block_size load
  block_size-ok e = ground arith

  pub get_alloc-ok : s.mem (h + 8) ≡ some w → get_alloc h s ≡ ok (w % 2 ^ 32) s
  unfolding get_alloc load
  get_alloc-ok e = ground arith

  pub set_alloc-ok :
      s.mem (h + 8) ≡ some w
      → set_alloc h s ≡ ok tt (record s { mem = write s.mem (h + 8) (with_flag w 1) })
  unfolding set_alloc load store
  set_alloc-ok e = ground arith

  pub set_free-ok :
      s.mem (h + 8) ≡ some w
      → set_free h s ≡ ok tt (record s { mem = write s.mem (h + 8) (with_flag w 0) })
  unfolding set_free load store
  set_free-ok e = ground arith

pub write-Mapped : (m : Memory) (a v lo hi : ℕ) → Mapped m lo hi → Mapped (write m a v) lo hi
unfolding write
write-Mapped m a v lo hi mapped b low high =
    let (u, e) = mapped b low high in
    elim (ℕ_discrete b a) [ yes p ↦ (v, ground arith) | no p ↦ (u, ground arith) ]
