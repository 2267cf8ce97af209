-- ===== src/Tests/Sessions.antt =====
-- Clients of the allocator from the program's start, and the driver's run of a trace.
use uof_ufall.Base.{ℕ, ◌+◌, ◌≡◌, ◌≢◌, ◌<◌, refl, true, false, none, some, List, [], ◌∷◌, arith}
use mathlib.Core.List.{Pairwise, Memᴰ}
use uof_ufall.Driver.Eval.{alloc, free, eval_mm_valid, eval_mm_util}
use uof_ufall.Driver.Eval.Peak.{peak, Measured, eval_mm_util-Measured}
use uof_ufall.Driver.Eval.Valid.{Accepted, eval_mm_valid-Accepted}
use uof_ufall.Machine.{State, ok, load, store}
use uof_ufall.Machine.Words.{store-ok}
use uof_ufall.Machine.Returns
use uof_ufall.Machine.Returns.{Returns, returns}
use uof_ufall.Memlib.{mem_reset, mem_heapsize}
use uof_ufall.Memlib.Map.{Granted}
use uof_ufall.Memlib.Reset.{mem_reset-Emptied}
use uof_ufall.Memlib.Table.{initial-TableInv}
use uof_ufall.Mm.{mm_init}
use uof_ufall.Mm.Arena.Apart.{InPayload, Disjoint}
use uof_ufall.Mm.Arena.Fresh.{region_size}
use uof_ufall.Mm.Arena.Lasting.{Spares, Lasting, Session-remembers}
use uof_ufall.Mm.Arena.Live.{Payload, payload}
use uof_ufall.Mm.Arena.Serving.{Serving-Room, Supplied, mm_malloc-Answered}
use uof_ufall.Mm.Arena.Session.{Session, Step, Ask, Session-safe, Session-progress, Session-Serving}
use uof_ufall.Pagemap.{pagemap_is_mapped}
use uof_ufall.Tests.{linux}
use uof_ufall.Tests.Counts.{plenty, driver, asked-small, freed-small}
use uof_ufall.Tests.Arena.{start, start-Granted}
use uof_ufall.Tests.Tables.{table, table-TableInv}

-- a client that has asked for 5000 bytes
begun : Session linux plenty start []
unfolding mm_init
begun = Session.start start 0 initial-TableInv refl

record Opened : Type 0 where
  place : ℕ
  state : State
  session : Session linux plenty state (payload place 5000 ∷ [])

opened : Opened
opened =
    let v = Session-Serving linux (omega arith) (λ q size. refl) begun in
    let supply : Supplied linux plenty 5000 start = λ e. (0x7f00_0010_0000, start-Granted) in
    let (p, t, e, a) =
      Returns.result
        (mm_malloc-Answered linux 5000 (omega arith) v (omega arith) (omega arith) supply) in
    record {
      place = p;
      state = t;
      session = Session.next begun (Step.malloc (omega arith) (omega arith) supply e);
    }

abbrev request : Payload
request = payload opened.place 5000

Session-safe_example :
    Pairwise Disjoint (request ∷ [])
    × ((r : Payload) (a : ℕ)
        → Memᴰ r (request ∷ [])
        → InPayload a r
        → ((v : ℕ) × (opened.state.mem a ≡ some v))
          × (pagemap_is_mapped a opened.state.pagemap ≡ true))
Session-safe_example = Session-safe linux (omega arith) (λ q size. refl) opened.session

-- the 5000 bytes are given back
Session-progress_example :
    (t : State) × (rs : List Payload) × Step linux plenty opened.state (request ∷ []) t rs
Session-progress_example =
    Session-progress linux (omega arith) (λ q size. refl) opened.session (Ask.free [] [] request)

abbrev inside : (d : ℕ) → d < 5000 → InPayload (opened.place + d) request
inside d low = (omega arith, omega arith)

record Wrote (s : State) (d v : ℕ) : Type 0 where
  after : State
  stored : store (opened.place + d) v s ≡ ok tt after
  step : Step linux plenty s (request ∷ []) after (request ∷ [])
  elsewhere : (a : ℕ) → a ≢ opened.place + d → Spares linux plenty a step

wrote : {s : State} → Session linux plenty s (request ∷ []) → (d v : ℕ) → d < 5000 → Wrote s d v
wrote se d v low =
    let held = Session-Serving linux (omega arith) (λ q size. refl) se in
    let room = Serving-Room held request (Memᴰ.head refl) (omega arith) in
    let (w, here) = room.words (opened.place + d) (inside d low) in
    let e = store-ok _ (opened.place + d) v here in
    record {
      after = _;
      stored = e;
      step = Step.put request (opened.place + d) v (Memᴰ.head refl) (inside d low) e;
      elsewhere = λ a ne. ne;
    }

-- 7 is written to the first byte, and then 9 to the fourth
first : Wrote opened.state 0 7
first = wrote opened.session 0 7 (omega arith)

fourth : Wrote first.after 3 9
fourth = wrote (Session.next opened.session first.step) 3 9 (omega arith)

Session-remembers_example : load (opened.place + 0) fourth.after ≡ ok 7 fourth.after
Session-remembers_example =
    Session-remembers linux (omega arith) (λ q size. refl) request (opened.place + 0)
      (inside 0 (omega arith)) 7 opened.session (Memᴰ.head refl) first.stored
      (Lasting.go_on (Lasting.stay (Memᴰ.head refl)) fourth.step
        (fourth.elsewhere (opened.place + 0) (omega arith)) (Memᴰ.head refl))

abbrev mapped_page : State
mapped_page = record start { pagemap = table; page_count = 1 }

mem_reset-Emptied_example :
    Returns
      (λ _ t.
        ((q : ℕ) → pagemap_is_mapped q t.pagemap ≡ false)
        × (t.pagemap.all_mapped_pages ≡ none)
        × (mem_heapsize t ≡ ok 0 t)
        × (t.activity_counter ≡ 0)
        × (t.free_list_head ≡ 0)
        × (t.page_list_head ≡ 0))
      (mem_reset linux plenty mapped_page)
mem_reset-Emptied_example =
    mem_reset-Emptied linux plenty mapped_page (λ q size. refl) table-TableInv (omega arith)

mm_init-Granted :
    (r : ℕ) (t : State)
    → mm_init start ≡ ok r t
    → Granted linux (region_size 5000) t 0x7f00_0010_0000
unfolding mm_init
mm_init-Granted r t e =
    Returns.known {P = λ _ u. Granted linux (region_size 5000) u 0x7f00_0010_0000}
      (returns start-Granted) e

eval_mm_valid-Accepted_example :
    Returns Accepted (eval_mm_valid linux plenty (alloc 0 5000 ∷ free 0 ∷ []) driver start)
eval_mm_valid-Accepted_example =
    eval_mm_valid-Accepted linux plenty (alloc 0 5000 ∷ free 0 ∷ []) driver start (omega arith)
      (λ q size. refl) initial-TableInv ((refl, (omega arith, omega arith)), (refl, tt))
      λ r t e.
        ((λ _. (0x7f00_0010_0000, mm_init-Granted r t e)), λ o d u k. (tt, λ o' d' u' k'. tt))

eval_mm_util-Measured_example :
    Returns
      (Measured (peak (alloc 0 5000 ∷ free 0 ∷ []) (λ i. 0) [] 0))
      (eval_mm_util linux plenty (alloc 0 5000 ∷ free 0 ∷ []) driver start)
eval_mm_util-Measured_example =
    eval_mm_util-Measured linux plenty (alloc 0 5000 ∷ free 0 ∷ []) driver start (omega arith)
      (λ q size. refl) initial-TableInv ((refl, (omega arith, omega arith)), (refl, tt))
      λ r t e. (
        (λ _. (0x7f00_0010_0000, mm_init-Granted r t e)),
        λ d u t' k. (
          asked-small r t e d u t' k,
          (tt, λ d' u' t'' k'. (freed-small r t e d u t' k _ d' u' t'' k', tt)),
        ),
      )

-- the most that the trace had in use
peak_example : peak (alloc 0 5000 ∷ free 0 ∷ []) (λ i. 0) [] 0 ≡ 5000
unfolding peak
peak_example = refl
