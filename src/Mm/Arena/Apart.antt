-- ===== src/Mm/Arena/Apart.antt =====
-- The payloads in use do not overlap.
use uof_ufall.Base.{ℕ, ◌+◌, ◌≤◌, ◌<◌, ◌≡◌, true, inl, inr, ◌∷◌, [], List, arith, subst, Bool-cases}
use mathlib.Core.List.{Memᴰ, Pairwise, Pairwise-append}
use mathlib.Core.List.Memᴰ
use mathlib.Core.Logic.{∥∥₁_elim}
use mathlib.Core.HLevel.{⊥_prop}
use uof_ufall.Machine.{Ptr, Memory, State}
use uof_ufall.Mm.Arena.{HeapInv}
use uof_ufall.Mm.Arena.Find.{payloads_cases}
use uof_ufall.Mm.Arena.Live.{Payload, payloads, live}
use uof_ufall.Mm.Heap.{Block, IsBlock, Tiles, PageInv}
use uof_ufall.Mm.Heap.Tiles.{Tiles-le}
use uof_ufall.Mm.Lists.Chain.{Chain, nil, cons, has}
use uof_ufall.Mm.Lists.Chunk.{Pages}

-- a byte of a payload
abbrev pub InPayload : ℕ → Payload → Type 0
InPayload a e = (e.place ≤ a) × (a < e.place + e.room)

-- no byte is in both
abbrev pub Disjoint : Payload → Payload → Type 0
Disjoint e f = (a : ℕ) → InPayload a e → InPayload a f → ⊥

pub Disjoint-prop : (e f : Payload) → IsProp (Disjoint e f)
Disjoint-prop e f = hlevel

-- the payloads of a tiling lie inside of it
payloads-inside :
    (m : Memory) (p end : Ptr) (bs : List Block) (e : Payload) (a : ℕ)
    → Tiles m p end bs
    → Memᴰ e (payloads p bs)
    → InPayload a e
    → (p ≤ a) × (a < end)
payloads-inside m p end [] e a t k b = absurd (Memᴰ.not-nil k)
payloads-inside m p end (b ∷ bs) e a t k within = elim (payloads_cases e p b bs k) [
  | inl (used, here) ↦
      let le = Tiles-le m (p + b.size) end bs t.1 in
      let large = IsBlock.large t.0 in let w = subst (InPayload a) here within in omega (arith, w)
  | inr later ↦
      let rest = payloads-inside m (p + b.size) end bs e a t.1 later within in
      let large = IsBlock.large t.0 in omega (arith, rest)
]

payloads-Disjoint :
    (m : Memory) (p end : Ptr) (bs : List Block)
    → Tiles m p end bs
    → Pairwise Disjoint (payloads p bs)
payloads-Disjoint m p end [] t = Pairwise.nil
payloads-Disjoint m p end (b ∷ bs) t = elim (Bool-cases b.used) [
  | inl used ↦
      let large = IsBlock.large t.0 in
      rw used (
        Pairwise.cons
          (λ f k a low high. ∥∥₁_elim k ⊥_prop λ d.
            let rest = payloads-inside m (p + b.size) end bs f a t.1 d high in
            omega (arith, low, rest))
          (payloads-Disjoint m (p + b.size) end bs t.1))
  | inr free ↦ rw free (payloads-Disjoint m (p + b.size) end bs t.1)
]

-- the page of a payload
pub payload-page :
    (blocks : Ptr → List Block) (pages : List Ptr) (e : Payload)
    → Memᴰ e (live blocks pages)
    → (pc : Ptr) × (has pc pages ≡ true) × Memᴰ e (payloads (pc + 32) (blocks pc))
payload-page blocks [] e m = absurd (Memᴰ.not-nil m)
payload-page blocks (p ∷ pages) e m = elim (Memᴰ.append_cases (payloads (p + 32) (blocks p)) m) [
  | inl here ↦ (p, ground arith, here)
  | inr later ↦ let (pc, own, k) = payload-page blocks pages e later in (pc, ground arith, k)
]

module _ {s : State} {fuel : ℕ} {ends : Ptr → Ptr} {pages : List Ptr} {blocks : Ptr → List Block}
    {fl : List Ptr} (i : HeapInv s fuel ends pages blocks fl) where
  pub page-inside :
      (p : Ptr)
      → has p pages ≡ true
      → (e : Payload) (a : ℕ) → Memᴰ e (payloads (p + 32) (blocks p))
      → InPayload a e
      → (p + 32 ≤ a) × (a < ends p)
  page-inside p h e a k within =
      payloads-inside s.mem (p + 32) (ends p) (blocks p) e a (PageInv.tiles (i.page p h)) k within

  live-Disjoint :
      {m : Memory} {before head : Ptr} {ps : List Ptr}
      → Chain m before head ps
      → ((p : Ptr) → has p ps ≡ true → has p pages ≡ true)
      → Pairwise Disjoint (live blocks ps)
  live-Disjoint nil part = Pairwise.nil
  live-Disjoint (cons {p} {xs = ps} el out back fwd c) part =
      let own = part p (ground arith) in
      (Pairwise-append Disjoint-prop {l₁ = payloads (p + 32) (blocks p)} {l₂ = live blocks ps}).1 (
        payloads-Disjoint s.mem (p + 32) (ends p) (blocks p) (PageInv.tiles (i.page p own)),
        live-Disjoint c (λ q h. part q (ground arith)),
        λ e k f l a in_e in_f. ∥∥₁_elim k ⊥_prop λ d. ∥∥₁_elim l ⊥_prop λ d'.
            let (q, h, d'') = payload-page blocks ps f d' in
            let mine = page-inside p own e a d in_e in
            let own' = part q (ground arith) in
            let other = page-inside q own' f a d'' in_f in
            ground (arith, i.apart p q own own', mine, other, out, h),
      )

  -- the payloads in use of a well-formed heap
  pub heap-Disjoint : Pairwise Disjoint (live blocks pages)
  heap-Disjoint = live-Disjoint (Pages.chain i.listed) λ p h. h
