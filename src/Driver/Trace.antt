-- ===== src/Driver/Trace.antt =====
-- `read_trace` of mdriver.c. A trace file is the list of its words between white space; one that
-- begins with a digit is read by `%d` and `%u` as its number, which is taken to be below 2 ^ 31.
pub mod Printing
use uof_ufall.Base.{
  ℕ, zero, suc, ◌+◌, ◌-◌, ◌%◌, ◌^◌, Bool, true, false, not, List, [], ◌∷◌, ◌++◌, ◌==◌,
  if◌then◌else◌, ltb, length,
}
use uof_ufall.Driver.Eval.{TraceOp, alloc, free, realloc}

-- a word by its first character, or a number
pub data Token : Type 0 where
  word : ℕ → Token
  number : ℕ → Token

-- `trace_t` as far as `read_trace` fills it; of `ops` the entries that have been written
pub record Trace : Type 0 where
  pub sugg_heapsize : ℕ
  pub num_ids : ℕ
  pub num_ops : ℕ
  pub weight : ℕ
  pub ops : List TraceOp

-- How reading ends: with a trace, by `exit` on a bogus type, by a failed assertion, by a write behind
-- the array `ops`, or out of fuel.
pub data Reading : Type 0 where
  trace : Trace → Reading
  exited : Reading
  assertion : Reading
  overrun : Reading
  out_of_fuel : Reading

-- `fscanf` of one number into a variable: where none follows, the variable and the input stay
abbrev pub scan : ℕ → List Token → ℕ × List Token
scan old [] = (old, [])
scan old (number n ∷ ts) = (n, ts)
scan old (word c ∷ ts) = (old, word c ∷ ts)

-- whether a number follows
abbrev pub numeric : List Token → Bool
numeric [] = false
numeric (number n ∷ ts) = true
numeric (word c ∷ ts) = false

-- `"%u %u"`: the second number is not tried where the first is missing
abbrev pub scan_two : ℕ → ℕ → List Token → ℕ × ℕ × List Token
scan_two index size ts =
    let (index', ts') = scan index ts in
    if numeric ts
    then (let (size', rest) = scan size ts' in (index', size', rest))
    else (index', size, ts')

-- the variables of the loop
pub record Scanner : Type 0 where
  pub index : ℕ
  pub size : ℕ
  pub max_index : ℕ
  pub done : List TraceOp

abbrev pub larger : ℕ → ℕ → ℕ
larger index max_index = if ltb max_index index then index else max_index

-- the letters of the requests
abbrev pub letter_a : ℕ
letter_a = 97

abbrev pub letter_f : ℕ
letter_f = 102

abbrev pub letter_r : ℕ
letter_r = 114

-- The first four numbers.
unfoldable pub read_header : List Token → Trace → Trace × List Token
read_header ts t =
    let (sugg_heapsize, ts1) = scan t.sugg_heapsize ts in
    let (num_ids, ts2) = scan t.num_ids ts1 in
    let (num_ops, ts3) = scan t.num_ops ts2 in
    let (weight, ts4) = scan t.weight ts3 in
    (
      record {
        sugg_heapsize = sugg_heapsize;
        num_ids = num_ids;
        num_ops = num_ops;
        weight = weight;
        ops = [];
      },
      ts4,
    )

-- The assertions at the end.
unfoldable pub check_counts : Trace → Scanner → Reading
check_counts t v =
    if not (v.max_index == (t.num_ids + 2 ^ 32 - 1) % 2 ^ 32)
    then assertion
    else if not (t.num_ops == length v.done)
    then assertion
    else trace (record t { ops = v.done })

-- One request behind its letter.
unfoldable pub read_alloc : (ℕ → ℕ → TraceOp) → List Token → Scanner → Scanner × List Token
read_alloc make ts v =
    let (index, size, rest) = scan_two v.index v.size ts in
    (
      record {
        index = index;
        size = size;
        max_index = larger index v.max_index;
        done = v.done ++ make index size ∷ [];
      },
      rest,
    )

unfoldable pub read_free : List Token → Scanner → Scanner × List Token
read_free ts v =
    let (index, rest) = scan v.index ts in
    (record v { index = index; done = v.done ++ free index ∷ [] }, rest)

-- The `while`, a unit of fuel for each word that it reads.
unfoldable pub read_loop : ℕ → Trace → List Token → Scanner → Reading
unfolding check_counts read_alloc read_free
read_loop fuel t [] v = check_counts t v
read_loop zero t (c ∷ ts) v = out_of_fuel
read_loop (suc fuel) t (number n ∷ ts) v = exited
read_loop (suc fuel) t (word c ∷ ts) v =
    let full = not (ltb (length v.done) t.num_ops) in
    let (v1, ts1) = read_alloc alloc ts v in
    let (v2, ts2) = read_alloc realloc ts v in
    let (v3, ts3) = read_free ts v in
    let rest1 = read_loop fuel t ts1 v1 in
    let rest2 = read_loop fuel t ts2 v2 in
    let rest3 = read_loop fuel t ts3 v3 in
    if c == letter_a
    then (if full then overrun else rest1)
    else if c == letter_r
    then (if full then overrun else rest2)
    else if c == letter_f
    then (if full then overrun else rest3)
    else exited

-- `fresh` is what the new record holds; `size` is not initialized.
unfoldable pub read_trace : ℕ → List Token → Trace → (size : ℕ) → Reading
unfolding read_header read_loop
read_trace fuel ts fresh size =
    let (t, rest) = read_header ts fresh in
    read_loop fuel t rest (record { index = 0; size = size; max_index = 0; done = [] })
