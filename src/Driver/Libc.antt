-- ===== src/Driver/Libc.antt =====
-- The runs of mdriver.c against the C library: `eval_libc_valid` and `eval_libc_speed`. The library's
-- calls are numbered; what they answer is a parameter.
use uof_ufall.Base.{ℕ, ◌+◌, Bool, true, false, List, [], ◌∷◌, ◌==◌, if◌then◌else◌}
use uof_ufall.Machine.{Ptr, null}
use uof_ufall.Driver.Eval.{TraceOp, alloc, free, realloc, Outcome, value, exited, put}

-- The C library's allocator: the answer to the call of a number, null where it fails.
pub record Libc : Type 0 where
  pub malloc_answer : (call size : ℕ) → Ptr
  pub realloc_answer : (call : ℕ) → Ptr → (size : ℕ) → Ptr

-- The array of a trace, the number of calls so far, what was given to `free`, last first, and the
-- count of errors.
pub record Run : Type 0 where
  pub blocks : ℕ → Ptr
  pub calls : ℕ
  pub freed : List Ptr
  pub errors : ℕ

abbrev called : Run → Run
called r = record r { calls = r.calls + 1 }

abbrev released : Ptr → Run → Run
released p r = record r { freed = p ∷ r.freed; calls = r.calls + 1 }

module _ (libc : Libc) where
  -- One request of `eval_libc_valid`; `malloc_error` and `unix_error` where a call fails.
  unfoldable pub libc_valid_op : TraceOp → Run → Bool × Run
  libc_valid_op (alloc index size) r =
      let p = libc.malloc_answer r.calls size in
      if p == null
      then (false, record (called r) { errors = r.errors + 1 })
      else (true, record (called r) { blocks = put r.blocks index p })
  libc_valid_op (realloc index newsize) r =
      let newp = libc.realloc_answer r.calls (r.blocks index) newsize in
      if newp == null
      then (false, record (called r) { errors = r.errors + 1 })
      else (true, record (called r) { blocks = put r.blocks index newp })
  libc_valid_op (free index) r = (true, released (r.blocks index) r)

  -- The `for`; `unix_error` ends the program.
  unfoldable pub eval_libc_valid : List TraceOp → Run → Outcome ℕ × Run
  unfolding libc_valid_op
  eval_libc_valid [] r = (value 1, r)
  eval_libc_valid (op ∷ ops) r =
      let (going, r') = libc_valid_op op r in
      let rest = eval_libc_valid ops r' in if going then rest else (exited, r')

  -- One request of `eval_libc_speed`, which takes `realloc` apart without copying.
  unfoldable pub libc_speed_op : TraceOp → Run → Bool × Run
  libc_speed_op (alloc index size) r =
      let p = libc.malloc_answer r.calls size in
      if p == null
      then (false, called r)
      else (true, record (called r) { blocks = put r.blocks index p })
  libc_speed_op (realloc index newsize) r =
      let newp = libc.malloc_answer r.calls newsize in
      if newp == null then (false, called r) else (
        true,
        record (released (r.blocks index) (called r)) { blocks = put r.blocks index newp },
      )
  libc_speed_op (free index) r = (true, released (r.blocks index) r)

  unfoldable pub eval_libc_speed : List TraceOp → Run → Outcome (Unit {0}) × Run
  unfolding libc_speed_op
  eval_libc_speed [] r = (value tt, r)
  eval_libc_speed (op ∷ ops) r =
      let (going, r') = libc_speed_op op r in
      let rest = eval_libc_speed ops r' in if going then rest else (exited, r')
