-- ===== src/Driver/Eval/Peak.antt =====
-- `eval_mm_util` of mdriver.c as a whole: what it measures of a trace.
use uof_ufall.Base.{
  ℕ, ◌+◌, ◌*◌, ◌%◌, ◌^◌, ◌<◌, ◌≡◌, refl, true, false, List, [], ◌∷◌, arith, ap, ap₂, sym, ◌∙◌,
  subst, if◌then◌else◌, ltb,
}
use uof_ufall.Driver.Eval.{
  TraceOp, Driver, Outcome, value, Usage, no_usage, update_usage, util_op, util_loop, eval_mm_util,
}
use uof_ufall.Driver.Eval.Running.{Request, indices}
use uof_ufall.Driver.Eval.Util.{sizes_after, total, Metering, util_op-Metered}
use uof_ufall.Driver.Eval.Valid.{live_after, WellFormed, Provided}
use uof_ufall.Machine.{State, Os, ok}
use uof_ufall.Machine.Returns
use uof_ufall.Machine.Returns.{Returns, returns}
use uof_ufall.Memlib.{mem_heapsize}
use uof_ufall.Memlib.Reset.{mem_reset-Emptied}
use uof_ufall.Memlib.Table.{TableInv}
use uof_ufall.Mm.{mm_init}
use uof_ufall.Mm.Arena.{HeapInv}
use uof_ufall.Mm.Arena.Client.{Holds}
use uof_ufall.Mm.Arena.Serving.{Serving, mm_init-Serving}
use uof_ufall.Pagemap.{pagemap_is_mapped}

-- the greatest total of the sizes in use, modulo 2 ^ 64, after any of the requests
unfoldable pub peak : List TraceOp → (ℕ → ℕ) → List ℕ → ℕ → ℕ
peak [] sizes live most = most
peak (op ∷ ops) sizes live most =
    let now = total (sizes_after op sizes) (live_after op live) % 2 ^ 64 in
    peak ops (sizes_after op sizes) (live_after op live) (if ltb most now then now else most)

-- the run has ended with that as `max_total_size`, and the page table has no mapped page
abbrev pub Measured : ℕ → Outcome (Driver × Usage) → State → Type 0
Measured most r t =
    (d : Driver) × (u : Usage) × (r ≡ value (d, u))
    × (u.max_total_size ≡ most)
    × ((q : ℕ) → pagemap_is_mapped q t.pagemap ≡ false)

module _ (os : Os) (fuel : ℕ) where
  -- The operating system has memory for every request of a run, after which fewer than 2 ^ 19 pages are
  -- counted, so that their bytes are an `int`.
  abbrev pub AllSupplied : List TraceOp → Driver → Usage → State → Type 0
  AllSupplied [] d u s = Unit
  AllSupplied (op ∷ ops) d u s =
      Provided os fuel op s
      × ((d' : Driver) (u' : Usage) (t : State)
          → util_op os fuel op d u s ≡ ok (value (d', u')) t
          → (t.page_count < 2 ^ 19) × AllSupplied ops d' (update_usage (4096 * t.page_count) u') t)

  module _ (enough : 2 ^ 64 + 1 < fuel)
      (succeeds : (q size : ℕ) → os.munmap_succeeds q size ≡ true) where
    util_loop-Measured :
        (ops : List TraceOp) (rs : List Request) (d : Driver) (u : Usage) (s : State)
        → Metering fuel rs d u s
        → WellFormed ops (indices rs)
        → AllSupplied ops d u s
        → Returns
            (Measured (peak ops d.block_sizes (indices rs) u.max_total_size))
            (util_loop os fuel ops d u s)
    unfolding util_loop peak update_usage mem_heapsize
    util_loop-Measured [] rs d u s run formed supply =
        Returns.bind
          (mem_reset-Emptied os fuel s succeeds
            (HeapInv.table (Holds.heap (Serving.holds run.serving))) (omega arith))
          λ _ t p. returns (d, u, refl, refl, p.0)
    util_loop-Measured (op ∷ ops) rs d u s run formed supply =
        let (o, t, e, m) =
          Returns.result (util_op-Metered os enough succeeds op rs d u s run formed.0 supply.0) in
        let a = m.after in
        let heap_size : ℕ = 4096 * t.page_count in
        let u' : Usage = update_usage heap_size m.usage in
        let run' : Metering fuel m.open_requests m.driver u' t = record {
          serving = a.serving;
          blocks = a.blocks;
          distinct = a.distinct;
          small = a.small;
          sum = a.sum;
        } in
        let e' : util_op os fuel op d u s ≡ ok (value (m.driver, m.usage)) t =
          e ∙ ap (λ z. ok z t) m.result in
        let sizes = sizes_after op d.block_sizes in
        let live = live_after op (indices rs) in
        let now : m.usage.total_size ≡ total sizes live % 2 ^ 64 =
          a.sum ∙ ap₂ (λ f xs. total f xs % 2 ^ 64) m.sizes m.names in
        let most : u'.max_total_size ≡ (
            if ltb u.max_total_size (total sizes live % 2 ^ 64)
            then total sizes live % 2 ^ 64
            else u.max_total_size) =
          ap₂ (λ x y. if ltb x y then y else x) m.most now in
        let same : peak ops m.driver.block_sizes (indices m.open_requests) u'.max_total_size
            ≡ peak (op ∷ ops) d.block_sizes (indices rs) u.max_total_size =
          ap₂ (λ f xs. peak ops f xs u'.max_total_size) m.sizes m.names
          ∙ ap (peak ops sizes live) most in
        let (small, supply') = supply.1 m.driver m.usage t e' in
        let fits : ltb t.page_count (2 ^ 19) ≡ true = ground arith in
        Returns.eq_then (value (m.driver, m.usage)) t _ e' (
          rw fits (
            subst (λ z. Returns (Measured z) (util_loop os fuel ops m.driver u' t)) same
              (util_loop-Measured ops m.open_requests m.driver u' t run'
                (subst (WellFormed ops) (sym m.names) formed.1) supply')))

-- On a trace that is well-formed, where munmap succeeds, mmap has memory for every request and fewer
-- than 2 ^ 19 pages are counted after it, with a table that lists its mapped entries and with fuel
-- beyond 2 ^ 64 + 1, `eval_mm_util` ends without fault, abort or `app_error`, with no page mapped in
-- the page table any more. Its `max_total_size` is then the greatest total, modulo 2 ^ 64, of the
-- sizes that the trace has in use after any of its requests.
pub eval_mm_util-Measured :
    (os : Os) (fuel : ℕ) (ops : List TraceOp) (d : Driver) (s : State)
    → 2 ^ 64 + 1 < fuel
    → ((q size : ℕ) → os.munmap_succeeds q size ≡ true)
    → TableInv s.pagemap
    → WellFormed ops []
    → ((r : ℕ) (t : State) → mm_init s ≡ ok r t → AllSupplied os fuel ops d no_usage t)
    → Returns (Measured (peak ops d.block_sizes [] 0)) (eval_mm_util os fuel ops d s)
unfolding eval_mm_util
eval_mm_util-Measured os fuel ops d s enough succeeds table formed supply =
    let (r, t, e, (zero_returned, v)) =
      Returns.result (mm_init-Serving s fuel (omega arith) table) in
    Returns.eq_then r t _ e (
      util_loop-Measured os fuel enough succeeds ops [] d no_usage t
        (record { serving = v; blocks = tt; distinct = tt; small = λ i h. cc h; sum = refl }) formed
        (supply r t e))
