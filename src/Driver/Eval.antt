-- ===== src/Driver/Eval.antt =====
-- The runs of a trace by mdriver.c: `eval_mm_valid`, `eval_mm_util` and `eval_mm_speed`. Sizes are
-- those of a trace, not negative; `fuel` bounds the walks of mm.c and `mem_reset`.
pub mod Running
pub mod Requests
pub mod Valid
pub mod Util
pub mod Peak
use uof_ufall.Base.{
  ℕ, ◌+◌, ◌%◌, Bool, true, false, List, [], ◌∷◌, ◌==◌, if◌then◌else◌, ltb, add64, sub64,
}
use uof_ufall.Machine.{Ptr, null, Cmd, pure, ok, Os, ◌>>=◌, ◌>>◌}
use uof_ufall.Memlib.{mem_reset, mem_heapsize}
use uof_ufall.Mm.{mm_init, mm_malloc, mm_free}
use uof_ufall.Driver.Ranges.{
  Range, Added, added, rejected, assertion_failed, add_range, remove_range, clear_ranges,
}
use uof_ufall.Driver.Memset.{memset}

-- `traceop_t`
pub data TraceOp : Type 0 where
  alloc : (index size : ℕ) → TraceOp
  free : (index : ℕ) → TraceOp
  realloc : (index size : ℕ) → TraceOp

-- The driver's own state: the range list, the count of errors, and a trace's two arrays.
pub record Driver : Type 0 where
  pub ranges : List Range
  pub errors : ℕ
  pub blocks : ℕ → Ptr
  pub block_sizes : ℕ → ℕ

abbrev pub put : (ℕ → ℕ) → ℕ → ℕ → ℕ → ℕ
put f i v j = if j == i then v else f j

abbrev pub malloc_error : Driver → Driver
malloc_error d = record d { errors = d.errors + 1 }

abbrev pub remember : Driver → ℕ → Ptr → ℕ → Driver
remember d index p size = record d {
  blocks = put d.blocks index p;
  block_sizes = put d.block_sizes index size;
}

-- `add_range` looks at the page table
unfoldable pub check_range : List Range → Ptr → ℕ → Cmd Added
check_range ranges lo size s = ok (add_range ranges lo size s.pagemap) s

-- How a run ends: with the value that is returned, by `app_error`, or by a failed assertion.
pub data Outcome (A : Type 0) : Type 0 where
  value : A → Outcome A
  exited : Outcome A
  assertion : Outcome A

-- The counters of `eval_mm_util`, and the operands of the ratio of each request, last first. The
-- floating-point mean of the ratios is not computed.
pub record Usage : Type 0 where
  pub total_size : ℕ
  pub max_total_size : ℕ
  pub max_heap_size : ℕ
  pub ratios : List (ℕ × ℕ)

abbrev pub no_usage : Usage
no_usage = record { total_size = 0; max_total_size = 0; max_heap_size = 0; ratios = [] }

-- `Update statistics`
unfoldable pub update_usage : ℕ → Usage → Usage
update_usage heap_size u = record u {
  max_total_size = if ltb u.max_total_size u.total_size then u.total_size else u.max_total_size;
  max_heap_size = if ltb u.max_heap_size heap_size then heap_size else u.max_heap_size;
  ratios = (add64 u.total_size 1, add64 heap_size 1) ∷ u.ratios;
}

module _ (os : Os) (fuel : ℕ) where
  -- One request of `eval_mm_valid`: whether the run goes on.
  unfoldable pub valid_alloc : (index size : ℕ) → Driver → Cmd (Outcome Bool × Driver)
  valid_alloc index size d = do
    p ← mm_malloc os fuel size
    if p == null then pure (value false, malloc_error d) else do
      answer ← check_range d.ranges p size
      elim answer [
        | added rs ↦ do
          memset p (index % 256) size
          pure (value true, remember (record d { ranges = rs }) index p size)
        | rejected ↦ pure (value false, malloc_error d)
        | assertion_failed ↦ pure (assertion, d)
      ]

  unfoldable pub valid_realloc : (index size : ℕ) → Driver → Cmd (Outcome Bool × Driver)
  valid_realloc index size d = do
    newp ← mm_malloc os fuel size
    if newp == null then pure (value false, malloc_error d) else do
      answer ← check_range (remove_range d.ranges (d.blocks index)) newp size
      let d' = record d { ranges = remove_range d.ranges (d.blocks index) } in
          elim answer [
            | added rs ↦ do
              memset newp (index % 256) size
              mm_free os fuel (d.blocks index)
              pure (value true, remember (record d' { ranges = rs }) index newp size)
            | rejected ↦ pure (value false, malloc_error d')
            | assertion_failed ↦ pure (assertion, d')
          ]

  unfoldable pub valid_free : ℕ → Driver → Cmd (Outcome Bool × Driver)
  valid_free index d = do
    mm_free os fuel (d.blocks index)
    pure (value true, record d { ranges = remove_range d.ranges (d.blocks index) })

  unfoldable pub valid_op : TraceOp → Driver → Cmd (Outcome Bool × Driver)
  unfolding valid_alloc valid_realloc valid_free
  valid_op (alloc index size) d = valid_alloc index size d
  valid_op (realloc index size) d = valid_realloc index size d
  valid_op (free index) d = valid_free index d

  -- The `for` over the requests; a request that fails returns at once, without `mem_reset`.
  unfoldable pub valid_loop : List TraceOp → Driver → Cmd (Outcome Bool × Driver)
  unfolding valid_op
  valid_loop [] d = mem_reset os fuel >> pure (value true, d)
  valid_loop (op ∷ ops) d = do
    (done, d') ← valid_op op d
    elim done [
      | value true ↦ valid_loop ops d'
      | value false ↦ pure (value false, d')
      | exited ↦ pure (exited, d')
      | assertion ↦ pure (assertion, d')
    ]

  unfoldable pub eval_mm_valid : List TraceOp → Driver → Cmd (Outcome Bool × Driver)
  unfolding valid_loop
  eval_mm_valid ops d = do _ ← mm_init; valid_loop ops (record d { ranges = clear_ranges d.ranges })

  -- One request of `eval_mm_util`; `exited` where it calls `app_error`.
  unfoldable pub util_op : TraceOp → Driver → Usage → Cmd (Outcome (Driver × Usage))
  util_op (alloc index size) d u = do
    p ← mm_malloc os fuel size
    if p == null
        then pure exited
        else pure
            (value (remember d index p size, record u { total_size = add64 u.total_size size }))
  util_op (realloc index newsize) d u = do
    newp ← mm_malloc os fuel newsize
    if newp == null then pure exited else do
      mm_free os fuel (d.blocks index)
      pure (
          value (
            remember d index newp newsize,
            record u { total_size = add64 u.total_size (sub64 newsize (d.block_sizes index)) },
          ))
  util_op (free index) d u = do
    mm_free os fuel (d.blocks index)
    pure (value (d, record u { total_size = sub64 u.total_size (d.block_sizes index) }))

  unfoldable pub util_loop : List TraceOp → Driver → Usage → Cmd (Outcome (Driver × Usage))
  unfolding util_op update_usage
  util_loop [] d u = mem_reset os fuel >> pure (value (d, u))
  util_loop (op ∷ ops) d u = do
    r ← util_op op d u
    elim r [
      | value (d', u') ↦ do heap_size ← mem_heapsize; util_loop ops d' (update_usage heap_size u')
      | exited ↦ pure exited
      | assertion ↦ pure assertion
    ]

  unfoldable pub eval_mm_util : List TraceOp → Driver → Cmd (Outcome (Driver × Usage))
  unfolding util_loop
  eval_mm_util ops d = do _ ← mm_init; util_loop ops d no_usage

  -- One request of `eval_mm_speed`.
  unfoldable pub speed_op : TraceOp → Driver → Cmd (Outcome Driver)
  speed_op (alloc index size) d = do
    p ← mm_malloc os fuel size
    pure (if p == null then exited else value (record d { blocks = put d.blocks index p }))
  speed_op (realloc index newsize) d = do
    newp ← mm_malloc os fuel newsize
    if newp == null then pure exited else do
      mm_free os fuel (d.blocks index)
      pure (value (record d { blocks = put d.blocks index newp }))
  speed_op (free index) d = do mm_free os fuel (d.blocks index); pure (value d)

  unfoldable pub speed_loop : List TraceOp → Driver → Cmd (Outcome Driver)
  unfolding speed_op
  speed_loop [] d = mem_reset os fuel >> pure (value d)
  speed_loop (op ∷ ops) d = do
    r ← speed_op op d
    elim r [ value d' ↦ speed_loop ops d' | exited ↦ pure exited | assertion ↦ pure assertion ]

  unfoldable pub eval_mm_speed : List TraceOp → Driver → Cmd (Outcome Driver)
  unfolding speed_loop
  eval_mm_speed ops d = do _ ← mm_init; speed_loop ops d
