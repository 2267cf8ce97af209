-- ===== src/Driver/Trace/Printing.antt =====
-- Trace files as they are written: `read_trace` of mdriver.c reads them back.
use uof_ufall.Base.{
  ℕ, zero, suc, ◌+◌, ◌-◌, ◌%◌, ◌^◌, ◌≡◌, ◌<◌, List, [], ◌∷◌, ◌++◌, arith, length, length-append,
  ◌∙◌, ap, sym, eq→==, lt→ltb,
}
use mathlib.Core.List.{append-nil, append_assoc}
use uof_ufall.Driver.Eval.{TraceOp, alloc, free, realloc}
use uof_ufall.Driver.Trace.{
  Token, word, number, Trace, trace, Scanner, larger, letter_a, letter_f, letter_r, check_counts,
  read_alloc, read_free, read_header, read_loop, read_trace,
}

-- a line of a trace file
abbrev pub print_op : TraceOp → List Token → List Token
print_op (alloc index size) ts = word letter_a ∷ number index ∷ number size ∷ ts
print_op (realloc index size) ts = word letter_r ∷ number index ∷ number size ∷ ts
print_op (free index) ts = word letter_f ∷ number index ∷ ts

abbrev pub print_ops : List TraceOp → List Token
print_ops [] = []
print_ops (op ∷ ops) = print_op op (print_ops ops)

abbrev pub print_trace : Trace → List Token
print_trace t =
    number t.sugg_heapsize ∷ number t.num_ids ∷ number t.num_ops ∷ number t.weight ∷ print_ops t.ops

-- the largest index of the requests that allocate, and of those read before
abbrev pub last_index : ℕ → List TraceOp → ℕ
last_index m [] = m
last_index m (alloc index size ∷ ops) = last_index (larger index m) ops
last_index m (realloc index size ∷ ops) = last_index (larger index m) ops
last_index m (free index ∷ ops) = last_index m ops

-- a request that has been read counts as one of those read before
longer :
    (n : ℕ) (done : List TraceOp) (op : TraceOp) (ops : List TraceOp)
    → n ≡ length done + suc (length ops)
    → n ≡ length (done ++ op ∷ []) + length ops
longer n done op ops e = omega (arith, e, length-append done (op ∷ []))

regroup :
    (t : Trace) (done : List TraceOp) (op : TraceOp) (ops : List TraceOp)
    → trace (record t { ops = (done ++ op ∷ []) ++ ops })
      ≡ trace (record t { ops = done ++ op ∷ ops })
regroup t done op ops = ap (λ z. trace (record t { ops = z })) (append_assoc done (op ∷ []) ops)

read_loop-print :
    (fuel : ℕ) (t : Trace) (ops : List TraceOp) (v : Scanner)
    → length ops < fuel
    → t.num_ops ≡ length v.done + length ops
    → last_index v.max_index ops ≡ (t.num_ids + 2 ^ 32 - 1) % 2 ^ 32
    → read_loop fuel t (print_ops ops) v ≡ trace (record t { ops = v.done ++ ops })
unfolding read_loop check_counts read_alloc read_free
read_loop-print zero t ops v enough count ids = absurd (omega arith)
read_loop-print (suc fuel) t [] v enough count ids =
    rw
      (
        eq→== v.max_index ((t.num_ids + 2 ^ 32 - 1) % 2 ^ 32) ids,
        eq→== t.num_ops (length v.done) (omega arith),
      )
      (ap (λ z. trace (record t { ops = z })) (sym (append-nil v.done)))
read_loop-print (suc fuel) t (alloc index size ∷ ops) v enough count ids =
    rw (lt→ltb (length v.done) t.num_ops (omega arith)) (
      read_loop-print fuel t ops _ (omega arith) (longer t.num_ops v.done _ ops count) ids
      ∙ regroup t v.done _ ops)
read_loop-print (suc fuel) t (realloc index size ∷ ops) v enough count ids =
    rw (lt→ltb (length v.done) t.num_ops (omega arith)) (
      read_loop-print fuel t ops _ (omega arith) (longer t.num_ops v.done _ ops count) ids
      ∙ regroup t v.done _ ops)
read_loop-print (suc fuel) t (free index ∷ ops) v enough count ids =
    rw (lt→ltb (length v.done) t.num_ops (omega arith)) (
      read_loop-print fuel t ops _ (omega arith) (longer t.num_ops v.done _ ops count) ids
      ∙ regroup t v.done _ ops)

-- A trace that is printed as a file, with as many requests as its header says and with the largest
-- index of those that allocate one below the number of ids, modulo 2 ^ 32, is read back as it is,
-- whatever the new record and the uninitialized variable hold, with fuel beyond its requests.
pub read_trace-print :
    (fuel : ℕ) (t fresh : Trace) (size : ℕ)
    → length t.ops < fuel
    → t.num_ops ≡ length t.ops
    → last_index 0 t.ops ≡ (t.num_ids + 2 ^ 32 - 1) % 2 ^ 32
    → read_trace fuel (print_trace t) fresh size ≡ trace t
unfolding read_trace read_header
read_trace-print fuel t fresh size enough count ids =
    read_loop-print fuel (record t { ops = [] }) t.ops
      (record { index = 0; size = size; max_index = 0; done = [] }) enough (omega (arith, count))
      ids
