-- ===== src/Mm/Arena/Client.antt =====
-- What mm.c promises its clients: payloads come and go, and nothing else changes for them.
use uof_ufall.Base.{
  ℕ, suc, ◌+◌, ◌-◌, ◌%◌, ◌^◌, ◌≤◌, ◌<◌, ◌≡◌, refl, true, false, ◌∷◌, [], List, ◌++◌, arith, ap, sym,
  subst, length, ne→==, eq→==,
}
use mathlib.Core.List.{append-nil, Perm, Mem, mem-cons_self, Pairwise, rel_of_Pairwise-cons}
use mathlib.Core.List.Perm
use native.Mathlib.Decide.{ℕ_discrete}
use uof_ufall.Machine.{Ptr, Memory, null, State, Os}
use uof_ufall.Machine.Returns
use uof_ufall.Machine.Returns.{Returns}
use uof_ufall.Memlib.Map.{Granted}
use uof_ufall.Mm.{mm_malloc, mm_free}
use uof_ufall.Mm.Arena.{HeapInv, put_blocks}
use uof_ufall.Mm.Arena.Apart.{Disjoint, Disjoint-prop, heap-Disjoint}
use uof_ufall.Mm.Arena.Blocks.{header_at}
use uof_ufall.Mm.Arena.Find.{UsedAt, used-page, found}
use uof_ufall.Mm.Arena.Free.{freed, mm_free-HeapInv}
use uof_ufall.Mm.Arena.Fresh.{region_size, Grown, mm_malloc-Grown}
use uof_ufall.Mm.Arena.Keeping.{in_payloads-Perm, Unchanged}
use uof_ufall.Mm.Arena.Live.{
  Payload, payload, payloads, live, room_of, Without, Without-Perm, live-same, live-Without,
  split-Without, freed-Without, kept-live,
}
use uof_ufall.Mm.Arena.Malloc.{Allocated, mm_malloc-HeapInv}
use uof_ufall.Mm.Free.{left_of, left_size, right_of, right_size}
use uof_ufall.Mm.Heap.{Block, block, behind}
use uof_ufall.Mm.Heap.Split.{pieces}
use uof_ufall.Mm.Layout.{align}
use uof_ufall.Mm.Lists.Chain.{Chain, cons, has}
use uof_ufall.Mm.Lists.Chunk.{Pages}
use uof_ufall.Mm.Lists.Fit.{first_fit}

-- a well-formed heap whose payloads in use are those of `es`, in any order
pub record Holds (fuel : ℕ) (es : List Payload) (s : State) : Type 0 where
  pub ends : Ptr → Ptr
  pub pages : List Ptr
  pub blocks : Ptr → List Block
  pub list : List Ptr
  pub heap : HeapInv s fuel ends pages blocks list
  pub in_use : Perm (live blocks pages) es

-- no byte belongs to two of the payloads in use
pub Holds-Disjoint :
    {fuel : ℕ} {es : List Payload} {s : State} → Holds fuel es s → Pairwise Disjoint es
Holds-Disjoint h =
    Perm.pairwise Disjoint-prop (λ e f d a x y. d a y x) h.in_use (heap-Disjoint h.heap)

-- the payload `p` for a request of `size` bytes is new, and the contents of the others are unchanged
pub record Served (fuel : ℕ) (es : List Payload) (s : State) (size : ℕ) (p : Ptr) (t : State)
    : Type 0 where
  pub unchanged : Unchanged es s t
  pub room : ℕ
  pub enough : size ≤ room
  pub aligned : p % 16 ≡ 0
  pub holds : Holds fuel (payload p room ∷ es) t

first-once :
    {m : Memory} {before head p : Ptr} {ps : List Ptr}
    → Chain m before head (p ∷ ps)
    → has p ps ≡ false
first-once (cons el out back fwd c) = out

module _ {fuel : ℕ} {ends : Ptr → Ptr} {pages : List Ptr} {blocks : Ptr → List Block} {size : ℕ}
    {p : Ptr} {s t : State} where
  Allocated-Without :
      (a : Allocated fuel ends pages blocks s size p t)
      → Without
          (live
            (put_blocks blocks a.page
              (a.at.front ++ (pieces a.at.size (align size + 32) ++ a.at.back)))
            pages)
          (live blocks pages)
          (payload p (room_of a.at.size (align size + 32)))
  Allocated-Without a =
      live-Without
        (put_blocks blocks a.page (a.at.front ++ (pieces a.at.size (align size + 32) ++ a.at.back)))
        blocks a.page (λ q ne. rw (ne→== q a.page ne) refl) (Pages.chain (HeapInv.listed a.heap))
        a.own
        (rw (eq→== a.page a.page refl, a.at.shape, a.at.place)
          (split-Without (a.page + 32) a.at.front a.at.size (align size + 32) a.at.back a.fits))

  Allocated-Served :
      size + 47 < 2 ^ 64
      → Allocated fuel ends pages blocks s size p t
      → Served fuel (live blocks pages) s size p t
  Allocated-Served small a =
      let w = Allocated-Without a in
      let fits = a.fits in
      record {
        unchanged = a.unchanged;
        room = room_of a.at.size (align size + 32);
        enough = ground arith;
        aligned = a.aligned;
        holds = record {
          ends = _;
          pages = _;
          blocks = _;
          list = _;
          heap = a.heap;
          in_use = Without-Perm w;
        };
      }

  Grown-Without :
      (pc : Ptr)
      → size + 4174 < 2 ^ 64
      → (g : Grown fuel ends pages blocks s size pc p t)
      → Without
          (live
            (put_blocks blocks pc (pieces (region_size size - 32) (align size + 32)))
            (pc ∷ pages))
          (live blocks pages)
          (payload p (room_of (region_size size - 32) (align size + 32)))
  Grown-Without pc small g =
      let n = region_size size - 32 in
      let chain = Pages.chain (HeapInv.listed g.heap) in
      let empty : Ptr → List Block = put_blocks blocks pc (block n false ∷ []) in
      let w =
        live-Without (put_blocks blocks pc (pieces n (align size + 32))) empty pc
          (λ q ne. rw (ne→== q pc ne) refl) chain (ground arith)
          (rw (eq→== pc pc refl, g.place)
            (subst
              (λ z.
                Without (payloads (pc + 32) z) (payloads (pc + 32) (block n false ∷ []))
                  (payload (pc + 32 + 16) (room_of n (align size + 32))))
              (append-nil (pieces n (align size + 32)))
              (split-Without (pc + 32) [] n (align size + 32) [] g.fits))) in
      subst
        (λ z.
          Without (live (put_blocks blocks pc (pieces n (align size + 32))) (pc ∷ pages)) z
            (payload p (room_of n (align size + 32))))
        (rw (eq→== pc pc refl)
          (live-same empty blocks pc (λ q ne. rw (ne→== q pc ne) refl) pages (first-once chain)))
        w

  Grown-Served :
      (pc : Ptr)
      → size + 4174 < 2 ^ 64
      → Grown fuel ends pages blocks s size pc p t
      → Served fuel (live blocks pages) s size p t
  Grown-Served pc small g =
      let fits = g.fits in
      record {
        unchanged = g.unchanged;
        room = room_of (region_size size - 32) (align size + 32);
        enough = ground arith;
        aligned = g.aligned;
        holds = record {
          ends = _;
          pages = _;
          blocks = _;
          list = _;
          heap = g.heap;
          in_use = Without-Perm (Grown-Without pc small g);
        };
      }

Served-Perm :
    {fuel : ℕ} {es es' : List Payload} {size : ℕ} {p : Ptr} {s t : State}
    → Perm es es'
    → Served fuel es s size p t
    → Served fuel es' s size p t
Served-Perm {p} e v = record {
  unchanged = λ a k. v.unchanged a (in_payloads-Perm a e k);
  room = v.room;
  enough = v.enough;
  aligned = v.aligned;
  holds = record {
    ends = _;
    pages = _;
    blocks = _;
    list = _;
    heap = v.holds.heap;
    in_use = Perm.trans v.holds.in_use (Perm.cons (payload p v.room) e);
  };
}

-- On a well-formed heap, with fuel beyond the length of the free list and that of a page list with one
-- more page, where mmap grants a region at `pc` if no free block is large enough, a request of a
-- size from 1 up to 2 ^ 64 - 4175 returns without fault or abort. The heap is well-formed afterwards,
-- and the payloads in use are those from before and the one that is returned, which is aligned
-- to 16 bytes and has at least that many bytes. The contents of the payloads from before are unchanged.
pub mm_malloc-Served :
    (os : Os) {s : State} {fuel : ℕ} {es : List Payload} (size pc : ℕ) (h : Holds fuel es s)
    → 0 < size
    → size + 4174 < 2 ^ 64
    → length h.list < fuel
    → suc (length h.pages) < fuel
    → (first_fit (header_at s.mem) (align size + 32) h.list ≡ null
        → Granted os (region_size size) s pc)
    → Returns (Served fuel es s size) (mm_malloc os fuel size s)
mm_malloc-Served os {s} size pc h pos small enough enough' grant =
    elim (ℕ_discrete (first_fit (header_at s.mem) (align size + 32) h.list) null) [
      | no found ↦
          Returns.mono (mm_malloc-HeapInv os size h.heap pos (omega arith) enough found)
            λ p t a. Served-Perm h.in_use (Allocated-Served (omega arith) a)
      | yes none_fits ↦
          Returns.mono
            (mm_malloc-Grown os size pc h.heap pos small enough enough' none_fits (grant none_fits))
            λ p t g. Served-Perm h.in_use (Grown-Served pc small g)
    ]

-- Under the conditions of the theorem above, no byte of the block's room for the payload that
-- `mm_malloc` returns belongs to a payload that was in use.
pub mm_malloc-Disjoint :
    (os : Os) {s : State} {fuel : ℕ} {es : List Payload} (size pc : ℕ) (h : Holds fuel es s)
    → 0 < size
    → size + 4174 < 2 ^ 64
    → length h.list < fuel
    → suc (length h.pages) < fuel
    → (first_fit (header_at s.mem) (align size + 32) h.list ≡ null
        → Granted os (region_size size) s pc)
    → Returns
        (λ p t.
          (room : ℕ) × (size ≤ room) × ((f : Payload) → Mem f es → Disjoint (payload p room) f))
        (mm_malloc os fuel size s)
mm_malloc-Disjoint os size pc h pos small enough enough' grant =
    Returns.mono (mm_malloc-Served os size pc h pos small enough enough' grant)
      λ p t v. (v.room, v.enough, λ f m. rel_of_Pairwise-cons (Holds-Disjoint v.holds) m)

used-Without :
    (blocks : Ptr → List Block) (pc : Ptr) (e : Payload) (u : UsedAt e (pc + 32) (blocks pc))
    → Without
        (payloads (pc + 32) (blocks pc))
        (payloads (pc + 32) (freed blocks pc u.front u.size u.back pc))
        e
used-Without blocks pc e u =
    let after : List Block =
      left_of u.front
      ++ block (left_size u.front + u.size + right_size u.back) false ∷ right_of u.back in
    rw (eq→== pc pc refl) (
      subst (λ z. Without (payloads (pc + 32) (blocks pc)) (payloads (pc + 32) after) z)
        (sym u.place)
        (subst
          (λ z.
            Without (payloads (pc + 32) z) (payloads (pc + 32) after)
              (payload (behind (pc + 32) u.front + 16) (u.size - 32)))
          (sym u.shape) (freed-Without (pc + 32) u.front u.size u.back)))

-- On a well-formed heap, where munmap succeeds, `mm_free` of any payload in use ends without fault or
-- abort. The heap is well-formed afterwards, exactly the other payloads are in use, and their
-- contents are unchanged.
pub mm_free-Holds :
    (os : Os) {s : State} {fuel : ℕ} {es : List Payload} (p room : ℕ)
    → ((q size : ℕ) → os.munmap_succeeds q size ≡ true)
    → Holds fuel (payload p room ∷ es) s
    → Returns (λ _ t. Holds fuel es t × Unchanged es s t) (mm_free os fuel p s)
mm_free-Holds os {fuel} {es} p room succeeds h =
    let e = payload p room in
    let (pc, own, u) =
      used-page e h.blocks h.pages (found e _ ((Perm.mem_iff h.in_use).1 (mem-cons_self))) in
    let place : behind (pc + 32) u.front + 16 ≡ p = sym (ap (λ (x : Payload). x.place) u.place) in
    let blocks' = freed h.blocks pc u.front u.size u.back in
    let w : Without (live h.blocks h.pages) (live blocks' h.pages) e =
      live-Without h.blocks blocks' pc (λ q ne. rw (ne→== q pc ne) refl)
        (Pages.chain (HeapInv.listed h.heap)) own (used-Without h.blocks pc e u) in
    let rest : Perm (live blocks' h.pages) es =
      Perm.cons_inv (Perm.trans (Perm.symm (Without-Perm w)) h.in_use) in
    rw (← place) (
      Returns.mono (mm_free-HeapInv os pc u.front u.size u.back succeeds h.heap own u.shape)
        λ _ t (gl, i, same, taken). (
          record {
            ends = _;
            pages = _;
            blocks = _;
            list = _;
            heap = i;
            in_use = rw (kept-live blocks' h.pages) rest;
          },
          λ a k. same a (in_payloads-Perm a rest k),
        ))
