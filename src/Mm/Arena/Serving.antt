-- ===== src/Mm/Arena/Serving.antt =====
-- The requests that a client has open: what was asked for of each payload in use, of which the client
-- does not know the room. With fuel beyond 2 ^ 64 + 1 no walk runs out of it.
use uof_ufall.Base.{
  ℕ, ◌+◌, ◌-◌, ◌%◌, ◌^◌, ◌≤◌, ◌<◌, ◌≡◌, refl, [], ◌∷◌, List, ◌++◌, arith, sym, subst, ◌∙◌, add64,
  some, true,
}
use mathlib.Core.List.{Perm, perm_middle, Pairwise, Memᴰ}
use mathlib.Core.List.Perm
use native.Mathlib.Decide.{ℕ_discrete}
use uof_ufall.Machine.{Ptr, null, State, Os, ok}
use uof_ufall.Machine.Returns
use uof_ufall.Machine.Returns.{Returns}
use uof_ufall.Memlib.Map.{Granted}
use uof_ufall.Memlib.Unmap.{RegionMapped}
use uof_ufall.Memlib.Table.{TableInv}
use uof_ufall.Mm.{mm_init, mm_malloc, mm_free}
use uof_ufall.Mm.Arena.Init.{mm_init-HeapInv}
use uof_ufall.Mm.Arena.{HeapInv}
use uof_ufall.Mm.Arena.Apart.{InPayload, Disjoint, payload-page, page-inside}
use uof_ufall.Mm.Arena.Blocks.{header_at, every-HasHeader}
use uof_ufall.Mm.Arena.Client.{Holds, Holds-Disjoint, Served, mm_malloc-Served, mm_free-Holds}
use uof_ufall.Mm.Arena.Contents.{Scribbled, contents-HeapInv}
use uof_ufall.Mm.Arena.Covers.{
  Covers, nil, cons, Covers-Split, Covers-OwnPayload, narrow, Covers-Disjoint, Covers-in_payloads,
}
use uof_ufall.Mm.Arena.Enough.{length-free, length-pages}
use uof_ufall.Mm.Arena.Find.{found}
use uof_ufall.Mm.Arena.Fresh.{region_size}
use uof_ufall.Mm.Arena.Keeping.{Unchanged}
use uof_ufall.Mm.Arena.Live.{Payload, payload}
use uof_ufall.Mm.Heap.{PageInv}
use uof_ufall.Mm.Layout.{align}
use uof_ufall.Mm.Lists.{find_fit}
use uof_ufall.Mm.Lists.Fit.{first_fit, find_fit-first_fit}

-- a well-formed heap with the requests `rs` open
pub record Serving (fuel : ℕ) (rs : List Payload) (s : State) : Type 0 where
  pub payloads : List Payload
  pub covers : Covers payloads rs
  pub holds : Holds fuel payloads s

pub Serving-Disjoint :
    {fuel : ℕ} {rs : List Payload} {s : State} → Serving fuel rs s → Pairwise Disjoint rs
Serving-Disjoint v = Covers-Disjoint v.covers (Holds-Disjoint v.holds)

-- the memory from which the request was served
pub record Room (s : State) (r : Payload) : Type 0 where
  pub not_null : 0 < r.place
  pub bound : r.place + r.room ≤ 2 ^ 64
  pub words : (a : ℕ) → InPayload a r → (v : ℕ) × (s.mem a ≡ some v)
  pub table : RegionMapped r.place r.room s.pagemap

widen :
    {s t : State} {e r : Payload}
    → Scribbled s r t
    → e.place ≡ r.place
    → r.room ≤ e.room
    → Scribbled s e t
widen {e} {r} w place room = record {
  rest = w.rest;
  mapped = w.mapped;
  same = λ a out. w.same a λ inside. out (narrow e r a place room inside);
}

module _ {fuel : ℕ} {rs : List Payload} {s : State} (v : Serving fuel rs s) where
  pub Serving-Room : (r : Payload) → Memᴰ r rs → 0 < r.room → Room s r
  Serving-Room r m pos =
      let o = Covers-OwnPayload r v.covers m in
      let i = v.holds.heap in
      let mem = found o.own _ ((Perm.mem_iff v.holds.in_use).1 ∣ o.listed ∣₁) in
      let (pc, own, d) = payload-page v.holds.blocks v.holds.pages o.own mem in
      let place = o.place in
      let room = o.room in
      let first = page-inside i pc own o.own r.place d (omega arith) in
      let last = page-inside i pc own o.own (r.place + r.room - 1) d (omega arith) in
      let region = i.region pc own in
      let bound = region.bound in
      record {
        not_null = omega (arith, first);
        bound = omega (arith, last);
        words = λ a (low, high).
            (PageInv.mapped (i.page pc own)) a (omega (arith, first)) (omega (arith, last));
        table = λ q low high. region.table q (omega (arith, first)) (omega (arith, last));
      }

  -- what the client writes to a payload
  pub scribble-Serving : (r : Payload) (t : State) → Memᴰ r rs → Scribbled s r t → Serving fuel rs t
  scribble-Serving r t m w =
      let o = Covers-OwnPayload r v.covers m in
      let mem = found o.own _ ((Perm.mem_iff v.holds.in_use).1 ∣ o.listed ∣₁) in
      record {
        payloads = v.payloads;
        covers = v.covers;
        holds = record {
          ends = v.holds.ends;
          pages = v.holds.pages;
          blocks = v.holds.blocks;
          list = v.holds.list;
          heap = contents-HeapInv v.holds.heap (widen w o.place o.room) mem;
          in_use = v.holds.in_use;
        };
      }

-- Wherever `find_fit` finds no block for a request of `size` bytes, mmap grants a region.
abbrev pub Supplied : Os → ℕ → ℕ → State → Type 0
Supplied os fuel size s =
    find_fit fuel (align size) s ≡ ok null s → (pc : Ptr) × Granted os (region_size size) s pc

-- the request is the newest, and the contents of the others are unchanged
pub record Answered (fuel : ℕ) (rs : List Payload) (s : State) (size : ℕ) (p : Ptr) (t : State)
    : Type 0 where
  pub unchanged : Unchanged rs s t
  pub aligned : p % 16 ≡ 0
  pub serving : Serving fuel (payload p size ∷ rs) t

Served-Answered :
    {fuel : ℕ} {rs es : List Payload} {size : ℕ} {p : Ptr} {s t : State}
    → Covers es rs
    → Served fuel es s size p t
    → Answered fuel rs s size p t
Served-Answered c v = record {
  unchanged = λ a k. v.unchanged a (Covers-in_payloads a c k);
  aligned = v.aligned;
  serving = record { payloads = _; covers = cons refl v.enough c; holds = v.holds };
}

pub mm_malloc-Answered :
    (os : Os) {fuel : ℕ} {rs : List Payload} {s : State} (size : ℕ)
    → 2 ^ 64 + 1 < fuel
    → Serving fuel rs s
    → 0 < size
    → size + 4174 < 2 ^ 64
    → Supplied os fuel size s
    → Returns (Answered fuel rs s size) (mm_malloc os fuel size s)
mm_malloc-Answered os {fuel} {rs} {s} size enough v pos small supply =
    let h = v.holds in
    let free = length-free h.heap in
    let pages = length-pages h.heap in
    let total : add64 (add64 16 (align size)) 16 ≡ align size + 32 = omega arith in
    let run =
      λ (pc : Ptr)
          (grant : first_fit (header_at s.mem) (align size + 32) h.list ≡ null
            → Granted os (region_size size) s pc).
        Returns.mono (mm_malloc-Served os size pc h pos small (omega arith) (omega arith) grant)
          λ p t served. Served-Answered v.covers served in
    elim (ℕ_discrete (first_fit (header_at s.mem) (align size + 32) h.list) null) [
      | no found ↦ run 0 λ e. absurd (found e)
      | yes none_fits ↦
          let (pc, g) = supply (
            find_fit-first_fit s (header_at s.mem) (align size) fuel _ (HeapInv.chain h.heap)
              (every-HasHeader h.heap) (omega arith)
            ∙ rw (total, none_fits) refl) in
          run pc λ e. g
    ]

pub mm_free-Serving :
    (os : Os) {fuel : ℕ} {s : State} (front back : List Payload) (r : Payload)
    → ((q size : ℕ) → os.munmap_succeeds q size ≡ true)
    → Serving fuel (front ++ r ∷ back) s
    → Returns
        (λ _ t. Serving fuel (front ++ back) t × Unchanged (front ++ back) s t)
        (mm_free os fuel r.place s)
mm_free-Serving os {fuel} {s} front back r succeeds v =
    let c = Covers-Split front back r v.covers in
    let h = v.holds in
    let h' : Holds fuel (payload r.place c.own.room ∷ (c.before ++ c.behind)) s = record {
      ends = h.ends;
      pages = h.pages;
      blocks = h.blocks;
      list = h.list;
      heap = h.heap;
      in_use = Perm.trans h.in_use (
          subst (λ z. Perm z (payload r.place c.own.room ∷ (c.before ++ c.behind))) (sym c.shape)
            (subst
              (λ z.
                Perm (c.before ++ c.own ∷ c.behind) (payload z c.own.room ∷ (c.before ++ c.behind)))
              c.place (perm_middle c.before c.behind)));
    } in
    Returns.mono (mm_free-Holds os r.place c.own.room succeeds h') λ _ t (k, same). (
      record { payloads = _; covers = c.others; holds = k },
      λ a h. same a (Covers-in_payloads a c.others h),
    )

-- `mm_init` makes a heap that serves nobody
pub mm_init-Serving :
    (s : State) (fuel : ℕ)
    → 0 < fuel
    → TableInv s.pagemap
    → Returns (λ r t. (r ≡ 0) × Serving fuel [] t) (mm_init s)
mm_init-Serving s fuel enough table =
    Returns.mono (mm_init-HeapInv s fuel (λ p. 0) (λ p. []) enough table)
      λ r t (zero_returned, heap). (
        zero_returned,
        record {
          payloads = [];
          covers = nil;
          holds = record {
            ends = λ p. 0;
            pages = [];
            blocks = λ p. [];
            list = [];
            heap = heap;
            in_use = Perm.refl [];
          };
        },
      )
