-- ===== src/Machine.antt =====
-- The machine under cs4400/assn5/malloclab-handout: 8-byte words of memory, the static variables of
-- mm.c, memlib.c and pagemap.c, and commands that read and write them or fail.
pub mod Words
pub mod Returns
use uof_ufall.Base.{
  ℕ, ◌+◌, ◌≤◌, ◌<◌, Bool, true, false, ◌&&◌, Option, none, some, ◌==◌, if◌then◌else◌, leb, ltb,
}
use uof_ufall.Pagemap.{Pagemap}

abbrev pub Ptr : Type 0
Ptr = ℕ

abbrev pub null : Ptr
null = 0

-- The word that starts at an address; `none` where nothing is mapped.
abbrev pub Memory : Type 0
Memory = ℕ → Option ℕ

pub record State : Type 0 where
  pub mem : Memory
  pub free_list_head : Ptr
  pub page_list_head : Ptr
  pub pagemap : Pagemap
  pub page_count : ℕ
  pub activity_counter : ℕ
  pub mmap_calls : ℕ

-- `fault` is an access to memory that is not mapped, `aborted` a call of `abort`.
pub data Run (A : Type 0) : Type 0 where
  ok : A → State → Run A
  fault : Run A
  aborted : Run A
  out_of_fuel : Run A

abbrev pub Cmd : Type 0 → Type 0
Cmd A = State → Run A

abbrev pub pure : {A : Type 0} → A → Cmd A
pure = ok

module _ {A B : Type 0} where
  abbrev pub and_then : Run A → (A → Cmd B) → Run B
  and_then (ok a s) k = k a s
  and_then fault k = fault
  and_then aborted k = aborted
  and_then out_of_fuel k = out_of_fuel

  infixl 5 ◌>>=◌ ◌>>◌
  abbrev pub ◌>>=◌ : Cmd A → (A → Cmd B) → Cmd B
  m >>= k = λ s. and_then (m s) k

  abbrev pub ◌>>◌ : Cmd A → Cmd B → Cmd B
  m >> n = m >>= λ _. n

abbrev pub abort : {A : Type 0} → Cmd A
abort s = aborted

unfoldable pub write : Memory → ℕ → ℕ → Memory
write m p v a = if a == p then some v else m a

unfoldable pub load : ℕ → Cmd ℕ
load p s = elim (s.mem p) [ none ↦ fault | some v ↦ ok v s ]

unfoldable pub store : ℕ → ℕ → Cmd (Unit {0})
store p v s = elim (s.mem p) [ none ↦ fault | some _ ↦ ok tt (record s { mem = write s.mem p v }) ]

-- The operating system: what `mmap` answers at each call for a size (`none` is MAP_FAILED), whether
-- `munmap` succeeds, and `getpagesize`.
pub record Os : Type 0 where
  pub mmap_answer : ℕ → ℕ → Option Ptr
  pub munmap_succeeds : Ptr → ℕ → Bool
  pub getpagesize : ℕ

abbrev pub within : Ptr → ℕ → ℕ → Bool
within p size a = leb p a && ltb a (p + size)

-- `mmap` of `size` bytes: fresh pages hold zeros.
unfoldable pub mmap : Os → ℕ → Cmd (Option Ptr)
mmap os size s = elim (os.mmap_answer s.mmap_calls size) [
  | none ↦ ok none (record s { mmap_calls = s.mmap_calls + 1 })
  | some p ↦ ok (some p) (record s {
    mem = λ a. if within p size a then some 0 else s.mem a;
    mmap_calls = s.mmap_calls + 1;
  })
]

-- `munmap` takes the words away; the result says whether it succeeded.
unfoldable pub munmap : Os → Ptr → ℕ → Cmd Bool
munmap os p size s =
    if os.munmap_succeeds p size
    then ok true (record s { mem = λ a. if within p size a then none else s.mem a })
    else ok false s
