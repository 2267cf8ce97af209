-- ===== src/Driver/Eval/Valid.antt =====
-- `eval_mm_valid` of mdriver.c as a whole, on traces that use their indices as malloc and free are used.
use uof_ufall.Base.{
  ℕ, ◌+◌, ◌^◌, ◌<◌, ◌≡◌, refl, Bool, true, false, List, [], ◌∷◌, ◌++◌, arith, ap₂, sym, subst,
}
use uof_ufall.Base.Distinct.{has, Distinct, without, without-Distinct, without-gone}
use uof_ufall.Driver.Eval.{
  TraceOp, alloc, free, realloc, Driver, Outcome, value, valid_op, valid_realloc, valid_free,
  valid_loop, eval_mm_valid,
}
use uof_ufall.Driver.Eval.Requests.{
  Fits, GoesOn, valid_alloc-GoesOn, valid_realloc-GoesOn, valid_free-GoesOn,
}
use uof_ufall.Driver.Eval.Running.{Request, indices, Running, lookup}
use uof_ufall.Driver.Ranges.{clear_ranges}
use uof_ufall.Machine.{State, Os, ok}
use uof_ufall.Machine.Returns
use uof_ufall.Machine.Returns.{Returns, returns}
use uof_ufall.Memlib.{mem_heapsize}
use uof_ufall.Memlib.Reset.{mem_reset-Emptied}
use uof_ufall.Memlib.Table.{TableInv}
use uof_ufall.Mm.Arena.{HeapInv}
use uof_ufall.Mm.Arena.Client.{Holds}
use uof_ufall.Mm.{mm_init}
use uof_ufall.Mm.Arena.Serving.{Serving, Supplied, mm_init-Serving}
use uof_ufall.Pagemap.{pagemap_is_mapped}

-- whether a request may be made while `live` are the indices in use
abbrev pub Allowed : TraceOp → List ℕ → Type 0
Allowed (alloc i n) live = (has i live ≡ false) × Fits n
Allowed (realloc i n) live = (has i live ≡ true) × Fits n
Allowed (free i) live = has i live ≡ true

abbrev pub live_after : TraceOp → List ℕ → List ℕ
live_after (alloc i n) live = i ∷ live
live_after (realloc i n) live = i ∷ without i live
live_after (free i) live = without i live

-- A trace that allocates under indices that are not in use, frees and reallocates those that are, and
-- asks for sizes that can be served.
abbrev pub WellFormed : List TraceOp → List ℕ → Type 0
WellFormed [] live = Unit
WellFormed (op ∷ ops) live = Allowed op live × WellFormed ops (live_after op live)

-- the run has returned 1, and the page table has no mapped page
abbrev pub Accepted : Outcome Bool × Driver → State → Type 0
Accepted r t =
    (r.0 ≡ value true)
    × ((q : ℕ) → pagemap_is_mapped q t.pagemap ≡ false)
    × (mem_heapsize t ≡ ok 0 t)

module _ (os : Os) (fuel : ℕ) where
  -- the operating system has memory for the request, if it takes some
  abbrev pub Provided : TraceOp → State → Type 0
  Provided (alloc i n) s = Supplied os fuel n s
  Provided (realloc i n) s = Supplied os fuel n s
  Provided (free i) s = Unit

  -- the same for every request of a run
  abbrev pub AllProvided : List TraceOp → Driver → State → Type 0
  AllProvided [] d s = Unit
  AllProvided (op ∷ ops) d s =
      Provided op s
      × ((r : Outcome Bool) (d' : Driver) (t : State)
          → valid_op os fuel op d s ≡ ok (r, d') t
          → AllProvided ops d' t)

  -- the run goes on with the indices `live`
  record StepsTo (live : List ℕ) (r : Outcome Bool × Driver) (t : State) : Type 0 where
    open_requests : List Request
    names : indices open_requests ≡ live
    after : GoesOn fuel open_requests r t

  module _ (enough : 2 ^ 64 + 1 < fuel)
      (succeeds : (q size : ℕ) → os.munmap_succeeds q size ≡ true) where
    valid_op-StepsTo :
        (op : TraceOp) (rs : List Request) (d : Driver) (s : State)
        → Running fuel rs d s
        → Allowed op (indices rs)
        → Provided op s
        → Returns (StepsTo (live_after op (indices rs))) (valid_op os fuel op d s)
    unfolding valid_op
    valid_op-StepsTo (alloc i n) rs d s run (fresh, fits) supply =
        Returns.mono (valid_alloc-GoesOn os enough rs i n d s run fresh fits supply)
          λ r t (p, g). record { open_requests = _; names = refl; after = g }
    valid_op-StepsTo (realloc i n) rs d s run (used, fits) supply =
        let l = lookup i rs used in
        let run' : Running fuel (l.front ++ l.own ∷ l.back) d s =
          subst (λ z. Running fuel z d s) l.shape run in
        let distinct : Distinct (indices (l.front ++ l.back)) =
          subst Distinct (sym l.others) (without-Distinct i (indices rs) run.distinct) in
        let fresh : has l.own.index (indices (l.front ++ l.back)) ≡ false =
          rw (l.others, l.index) (without-gone i (indices rs) run.distinct) in
        subst (λ z. Returns (StepsTo (i ∷ without i (indices rs))) (valid_realloc os fuel z n d s))
          l.index
          (Returns.mono
            (valid_realloc-GoesOn os enough l.front l.back l.own n d s succeeds run' fresh distinct
              fits supply)
            λ r t (p, g). record {
              open_requests = _;
              names = ap₂ (λ x xs. x ∷ xs) l.index l.others;
              after = g;
            })
    valid_op-StepsTo (free i) rs d s run used supply =
        let l = lookup i rs used in
        let run' : Running fuel (l.front ++ l.own ∷ l.back) d s =
          subst (λ z. Running fuel z d s) l.shape run in
        let distinct : Distinct (indices (l.front ++ l.back)) =
          subst Distinct (sym l.others) (without-Distinct i (indices rs) run.distinct) in
        subst (λ z. Returns (StepsTo (without i (indices rs))) (valid_free os fuel z d s)) l.index
          (Returns.mono
            (valid_free-GoesOn os enough l.front l.back l.own d s succeeds run' distinct)
            λ r t g. record { open_requests = _; names = l.others; after = g })

    valid_loop-Accepted :
        (ops : List TraceOp) (rs : List Request) (d : Driver) (s : State)
        → Running fuel rs d s
        → WellFormed ops (indices rs)
        → AllProvided ops d s
        → Returns (λ r t. Accepted r t) (valid_loop os fuel ops d s)
    unfolding valid_loop
    valid_loop-Accepted [] rs d s run formed supply =
        Returns.bind
          (mem_reset-Emptied os fuel s succeeds
            (HeapInv.table (Holds.heap (Serving.holds run.serving))) (omega arith))
          λ _ t p. returns (refl, p.0, p.2)
    valid_loop-Accepted (op ∷ ops) rs d s run formed supply =
        let ((o, d'), t, e, p) =
          Returns.result (valid_op-StepsTo op rs d s run formed.0 supply.0) in
        Returns.eq_then (o, d') t _ e
          (rw p.after.goes_on (
            valid_loop-Accepted ops p.open_requests d' t p.after.running
              (subst (WellFormed ops) (sym p.names) formed.1) (supply.1 o d' t e)))

-- On a trace that is well-formed, where munmap succeeds and mmap has memory for every request, with
-- a page table that lists its mapped entries and with fuel beyond 2 ^ 64 + 1, `eval_mm_valid` finds
-- nothing wrong with mm.c, whatever the driver and mm.c held before: it ends without fault or abort
-- and returns 1, with no page mapped in the page table any more.
pub eval_mm_valid-Accepted :
    (os : Os) (fuel : ℕ) (ops : List TraceOp) (d : Driver) (s : State)
    → 2 ^ 64 + 1 < fuel
    → ((q size : ℕ) → os.munmap_succeeds q size ≡ true)
    → TableInv s.pagemap
    → WellFormed ops []
    → ((r : ℕ) (t : State)
        → mm_init s ≡ ok r t
        → AllProvided os fuel ops (record d { ranges = [] }) t)
    → Returns (λ r t. Accepted r t) (eval_mm_valid os fuel ops d s)
unfolding eval_mm_valid clear_ranges
eval_mm_valid-Accepted os fuel ops d s enough succeeds table formed supply =
    let (r, t, e, (zero_returned, v)) =
      Returns.result (mm_init-Serving s fuel (omega arith) table) in
    Returns.eq_then r t _ e (
      valid_loop-Accepted os fuel enough succeeds ops [] (record d { ranges = [] }) t
        (record { serving = v; ranges = refl; blocks = tt; sizes = tt; distinct = tt }) formed
        (supply r t e))
