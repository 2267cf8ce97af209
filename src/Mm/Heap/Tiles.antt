-- ===== src/Mm/Heap/Tiles.antt =====
-- Tilings: joining and cutting them, where the links of their free blocks lie, and which changes of
-- memory they survive.
use uof_ufall.Base.{
  ℕ, ◌+◌, ◌-◌, ◌%◌, ◌≤◌, ◌<◌, ◌≡◌, refl, true, false, ◌||◌, List, [], ◌∷◌, ◌++◌, arith, ◌⊎◌, inl,
  inr, Bool-cases, ◌∙◌,
}
use uof_ufall.Machine.{Ptr, Memory}
use uof_ufall.Mm.Heap.{Block, IsBlock, Tiles, frees, behind}
use uof_ufall.Mm.Lists.Chain.{has, is_link}

pub Tiles-le : (m : Memory) (p end : Ptr) (bs : List Block) → Tiles m p end bs → p ≤ end
Tiles-le m p end [] t = omega arith
Tiles-le m p end (b ∷ bs) t = omega (arith, Tiles-le m (p + b.size) end bs t.1)

pub Tiles-append :
    (m : Memory) (p q end : Ptr) (xs ys : List Block)
    → Tiles m p q xs
    → Tiles m q end ys
    → Tiles m p end (xs ++ ys)
Tiles-append m p q end [] ys t u = rw t u
Tiles-append m p q end (x ∷ xs) ys t u = (t.0, Tiles-append m (p + x.size) q end xs ys t.1 u)

pub Tiles-front :
    (m : Memory) (p end : Ptr) (xs ys : List Block)
    → Tiles m p end (xs ++ ys)
    → Tiles m p (behind p xs) xs
Tiles-front m p end [] ys t = refl
Tiles-front m p end (x ∷ xs) ys t = (t.0, Tiles-front m (p + x.size) end xs ys t.1)

pub Tiles-back :
    (m : Memory) (p end : Ptr) (xs ys : List Block)
    → Tiles m p end (xs ++ ys)
    → Tiles m (behind p xs) end ys
Tiles-back m p end [] ys t = t
Tiles-back m p end (x ∷ xs) ys t = Tiles-back m (p + x.size) end xs ys t.1

-- the links of the free blocks lie behind the first header and before the last footer
pub frees-bounds :
    (m : Memory) (p end : Ptr) (bs : List Block) (a : ℕ)
    → Tiles m p end bs
    → is_link a (frees p bs) ≡ true
    → (p + 16 ≤ a) × (a + 24 ≤ end)
frees-bounds m p end [] a t i = cc
frees-bounds m p end (b ∷ bs) a t i = ground (
  arith,
  frees-bounds m (p + b.size) end bs a t.1,
  Tiles-le m (p + b.size) end bs t.1,
  IsBlock.large t.0,
)

pub has-bounds :
    (m : Memory) (p end : Ptr) (bs : List Block) (a : ℕ)
    → Tiles m p end bs
    → has a (frees p bs) ≡ true
    → (p + 16 ≤ a) × (a + 32 ≤ end)
has-bounds m p end [] a t i = cc
has-bounds m p end (b ∷ bs) a t i = ground (
  arith,
  has-bounds m (p + b.size) end bs a t.1,
  Tiles-le m (p + b.size) end bs t.1,
  IsBlock.large t.0,
)

-- the free blocks of a tiling that is joined at `q`
pub frees-append :
    (m : Memory) (p q : Ptr) (xs ys : List Block) (a : ℕ)
    → Tiles m p q xs
    → has a (frees p (xs ++ ys)) ≡ (has a (frees p xs) || has a (frees q ys))
frees-append m p q [] ys a t = rw t refl
frees-append m p q (x ∷ xs) ys a t = ground (arith, frees-append m (p + x.size) q xs ys a t.1)

pub Tiles-aligned :
    (m : Memory) (p end : Ptr) (bs : List Block) → Tiles m p end bs → p % 16 ≡ 0 → end % 16 ≡ 0
Tiles-aligned m p end [] t al = rw (← t) al
Tiles-aligned m p end (b ∷ bs) t al =
    Tiles-aligned m (p + b.size) end bs t.1 (omega (arith, IsBlock.aligned t.0))

frees-low :
    (m : Memory) (p end : Ptr) (bs : List Block) (a : ℕ)
    → Tiles m p end bs
    → a < p + 16
    → is_link a (frees p bs) ≡ false
frees-low m p end bs a t low = elim (Bool-cases (is_link a (frees p bs))) [
  | inl i ↦ absurd (omega (arith, (frees-bounds m p end bs a t i).0))
  | inr o ↦ o
]

-- the words of a block are no links, of its own payload or of later ones
words-not-link :
    (m : Memory) (p end : Ptr) (b : Block) (bs : List Block) (a : ℕ)
    → Tiles m p end (b ∷ bs)
    → a < p + b.size
    → ((a < p + 16) ⊎ (p + 32 ≤ a))
    → is_link a (frees p (b ∷ bs)) ≡ false
words-not-link m p end b bs a t high at =
    ground (arith, frees-low m (p + b.size) end bs a t.1, IsBlock.large t.0)

later-not-link :
    (m : Memory) (p : Ptr) (b : Block) (bs : List Block) (a : ℕ)
    → IsBlock m p b
    → p + b.size ≤ a
    → is_link a (frees (p + b.size) bs) ≡ false
    → is_link a (frees p (b ∷ bs)) ≡ false
later-not-link m p b bs a is low o = ground (arith, is.large)

pub IsBlock-frame :
    (m g : Memory) (p : Ptr) (b : Block)
    → IsBlock m p b
    → g p ≡ m p
    → g (p + 8) ≡ m (p + 8)
    → g (p + b.size - 16) ≡ m (p + b.size - 16)
    → IsBlock g p b
IsBlock-frame m g p b is e e8 ef = record {
  header = e ∙ is.header;
  word = is.word;
  mark = e8 ∙ is.mark;
  flag = is.flag;
  footer = ef ∙ is.footer;
  large = is.large;
  aligned = is.aligned;
}

-- a tiling survives any change that spares all but the links of its free blocks
pub Tiles-frame :
    (m g : Memory) (p end : Ptr) (bs : List Block)
    → Tiles m p end bs
    → ((a : ℕ) → p ≤ a → a < end → is_link a (frees p bs) ≡ false → g a ≡ m a)
    → Tiles g p end bs
Tiles-frame m g p end [] t same = t
Tiles-frame m g p end (b ∷ bs) t same =
    let large = IsBlock.large t.0 in
    let le = Tiles-le m (p + b.size) end bs t.1 in
    let word = λ (a : ℕ) (h : p ≤ a) (k : a < p + b.size) (at : (a < p + 16) ⊎ (p + 32 ≤ a)).
      same a h (omega arith) (words-not-link m p end b bs a t k at) in
    (
      IsBlock-frame m g p b t.0 (word p (omega arith) (omega arith) (inl (omega arith)))
          (word (p + 8) (omega arith) (omega arith) (inl (omega arith)))
          (word (p + b.size - 16) (omega arith) (omega arith) (inr (omega arith))),
      Tiles-frame m g (p + b.size) end bs t.1
          λ a low high o. same a (omega arith) high (later-not-link m p b bs a t.0 low o),
    )
