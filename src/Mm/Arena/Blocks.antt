-- ===== src/Mm/Arena/Blocks.antt =====
-- The free list of a well-formed heap: where its blocks lie, and what their headers hold.
use uof_ufall.Base.{
  ℕ, ◌+◌, ◌-◌, ◌%◌, ◌^◌, ◌≤◌, ◌<◌, ◌≡◌, refl, true, false, Option, none, some, List, [], ◌∷◌, ◌++◌,
  arith, ◌∙◌, sym, ap, Bool-cases, inl, inr, All,
}
use native.Mathlib.Decide.{ℕ_discrete}
use uof_ufall.Machine.{Ptr, State, Memory}
use uof_ufall.Mm.Arena.{HeapInv}
use uof_ufall.Mm.Heap.{Block, block, IsBlock, Tiles, PageInv, frees, behind}
use uof_ufall.Mm.Heap.Tiles.{Tiles-back}
use uof_ufall.Mm.Lists.Chain.{has}
use uof_ufall.Mm.Lists.Fit.{Header, HasHeader}

-- a free block among the blocks from `p` on, by its payload
pub record FreeAt (p : Ptr) (bs : List Block) (a : Ptr) : Type 0 where
  pub front : List Block
  pub size : ℕ
  pub back : List Block
  pub shape : bs ≡ front ++ block size false ∷ back
  pub place : a ≡ behind p front + 16

FreeAt-cons :
    (p a : Ptr) (b : Block) (bs : List Block) → FreeAt (p + b.size) bs a → FreeAt p (b ∷ bs) a
FreeAt-cons p a b bs f = record {
  front = b ∷ f.front;
  size = f.size;
  back = f.back;
  shape = ap (◌∷◌ b) f.shape;
  place = f.place;
}

pub frees-FreeAt : (p : Ptr) (bs : List Block) (a : Ptr) → has a (frees p bs) ≡ true → FreeAt p bs a
frees-FreeAt p [] a h = cc
frees-FreeAt p (b ∷ bs) a h = elim (Bool-cases b.used) [
  | inl u ↦ FreeAt-cons p a b bs (frees-FreeAt (p + b.size) bs a (ground (arith, h)))
  | inr u ↦ elim (ℕ_discrete a (p + 16)) [
    | yes e ↦ record { front = []; size = b.size; back = bs; shape = ground arith; place = e }
    | no ne ↦ FreeAt-cons p a b bs (frees-FreeAt (p + b.size) bs a (ground arith))
  ]
]

-- what the words in front of a payload say
abbrev value_or_zero : Option ℕ → ℕ
value_or_zero none = 0
value_or_zero (some v) = v

abbrev pub header_at : Memory → Ptr → Header
header_at m bp = record {
  size = value_or_zero (m (bp - 16));
  allocated = value_or_zero (m (bp - 16 + 8)) % 2 ^ 32;
}

module _ {s : State} {fuel : ℕ} {ends : Ptr → Ptr} {pages : List Ptr} {blocks : Ptr → List Block}
    {fl : List Ptr} (i : HeapInv s fuel ends pages blocks fl) where
  pub listed-FreeAt :
      (pc a : Ptr)
      → has pc pages ≡ true
      → has a fl ≡ true
      → pc + 32 ≤ a
      → a < ends pc
      → FreeAt (pc + 32) (blocks pc) a
  listed-FreeAt pc a own h low high =
      frees-FreeAt (pc + 32) (blocks pc) a
        (sym (PageInv.member (i.page pc own) a (omega arith) high) ∙ h)

  pub listed-IsBlock :
      (pc a : Ptr) (f : FreeAt (pc + 32) (blocks pc) a)
      → has pc pages ≡ true
      → IsBlock s.mem (a - 16) (block f.size false)
  listed-IsBlock pc a f own =
      let tiles = PageInv.tiles (i.page pc own) in
      let split : Tiles s.mem (pc + 32) (ends pc) (f.front ++ block f.size false ∷ f.back) =
        rw f.shape at tiles in
      let here = Tiles-back s.mem (pc + 32) (ends pc) f.front (block f.size false ∷ f.back) split in
      let e : a - 16 ≡ behind (pc + 32) f.front = omega (arith, f.place) in rw e here.0

  pub listed-HasHeader : (a : Ptr) → has a fl ≡ true → HasHeader s.mem (header_at s.mem) a
  listed-HasHeader a h =
      let (pc, own, low, high) = i.owner a h in
      let f = listed-FreeAt pc a own h low high in
      let is = listed-IsBlock pc a f own in
      record { size = is.header ∙ rw is.header refl; flags = (is.word, is.mark, rw is.mark refl) }

pub every_listed :
    {P : Ptr → Type 0} (xs : List Ptr) → ((a : Ptr) → has a xs ≡ true → P a) → All P xs
every_listed [] h = tt
every_listed (x ∷ xs) h = (h x (ground arith), every_listed xs λ a k. h a (ground arith))

pub every-HasHeader :
    {s : State} {fuel : ℕ} {ends : Ptr → Ptr} {pages : List Ptr} {blocks : Ptr → List Block}
    {fl : List Ptr}
    → HeapInv s fuel ends pages blocks fl
    → All (HasHeader s.mem (header_at s.mem)) fl
every-HasHeader {fl} i = every_listed fl (listed-HasHeader i)
