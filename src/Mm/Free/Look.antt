-- ===== src/Mm/Free/Look.antt =====
-- How `coalesce` of mm.c looks at the blocks on either side of the one that is freed.
use uof_ufall.Base.{
  ℕ, ◌+◌, ◌-◌, ◌≤◌, ◌<◌, ◌≡◌, refl, Bool, true, false, not, some, List, [], ◌∷◌, ◌++◌, arith, ◌∙◌,
  ◌⊎◌, inl, inr, ne→==, eq→==, sym,
}
use uof_ufall.Machine.{Ptr, null, State, ok, load}
use uof_ufall.Mm.{is_free_block}
use uof_ufall.Mm.Free.{
  left_of, left_size, right_of, right_size, left_of-used, left_of-free, left_size-used,
  left_size-free,
}
use uof_ufall.Mm.Blocks.{get_prev_block, get_next_block}
use uof_ufall.Mm.Blocks.Footer.{
  PageList, get_next_block-ok, get_prev_block-first, get_prev_block-ok,
}
use uof_ufall.Mm.Heap.{Block, block, IsBlock, behind}
use uof_ufall.Mm.Heap.Page.{Hole}
use uof_ufall.Mm.Heap.Region.{Hole-start, Hole-end}
use uof_ufall.Mm.Heap.Tiles.{Tiles-front, Tiles-back, Tiles-le}
use uof_ufall.Mm.Layout.{get_alloc}

-- a list of blocks is empty or has a last one
pub data Snoc : List Block → Type 0 where
  empty : Snoc []
  last : (xs : List Block) (b : Block) → Snoc (xs ++ b ∷ [])

Snoc-cons : (x : Block) (xs : List Block) → Snoc xs → Snoc (x ∷ xs)
Snoc-cons x [] empty = last [] x
Snoc-cons x _ (last xs b) = last (x ∷ xs) b

pub snoc : (xs : List Block) → Snoc xs
snoc [] = empty
snoc (x ∷ xs) = Snoc-cons x xs (snoc xs)

is_free_block-ok :
    (s : State) (p : Ptr) (b : Block)
    → 0 < p
    → IsBlock s.mem p b
    → is_free_block p s ≡ ok (not b.used) s
unfolding is_free_block get_alloc load
is_free_block-ok s p b pos is = ground (arith, is.mark, is.flag)

is_free_block-null : (s : State) → is_free_block null s ≡ ok false s
unfolding is_free_block
is_free_block-null s = refl

-- The next block: whether there is one that is free, and where.
pub record Next (s : State) (fuel : ℕ) (q n : ℕ) (ys : List Block) : Type 0 where
  pub at : Ptr
  pub free : Bool
  pub found : get_next_block fuel q s ≡ ok at s
  pub tested : is_free_block at s ≡ ok free s
  pub kind :
      ((free ≡ false) × (right_of ys ≡ ys) × (right_size ys ≡ 0))
      ⊎ ((free ≡ true) × (at ≡ q + n) × (ys ≡ block (right_size ys) false ∷ right_of ys))

module _ {s : State} {fuel : ℕ} {l : PageList} {pc end : Ptr} {xs : List Block} {q n : ℕ}
    {fl : List Ptr} where
  pub look-Next :
      (ys : List Block)
      → Hole s fuel l pc end xs q n ys fl
      → s.mem q ≡ some n
      → 48 ≤ n
      → Next s fuel q n ys
  unfolding right_of right_size
  look-Next [] h e large =
      let start = Hole-start h in
      let stop = Hole-end h in
      let next =
        get_next_block-ok s fuel q pc end h.here start (omega arith) {size = n} e (omega arith)
          (inl h.back) in
      record {
        at = null;
        free = false;
        found = next ∙ rw (eq→== (q + n) end h.back) refl;
        tested = is_free_block-null s;
        kind = inl (refl, refl, refl);
      }
  look-Next (b ∷ ys) h e large =
      let start = Hole-start h in
      let is = h.back.0 in
      let stop = Tiles-le s.mem (q + n + b.size) end ys h.back.1 in
      let next =
        get_next_block-ok s fuel q pc end h.here start (omega (arith, is.large)) {size = n} e
          (omega arith) (inr (omega (arith, is.large))) in
      record {
        at = q + n;
        free = not b.used;
        found = next ∙ rw (ne→== (q + n) end (omega (arith, is.large))) refl;
        tested = is_free_block-ok s (q + n) b (omega arith) is;
        kind = ground arith;
      }

-- The previous block: whether there is one that is free, and where.
pub record Prev (s : State) (fuel : ℕ) (first q : ℕ) (xs : List Block) : Type 0 where
  pub at : Ptr
  pub free : Bool
  pub found : get_prev_block fuel q s ≡ ok at s
  pub tested : is_free_block at s ≡ ok free s
  pub kind :
      ((free ≡ false) × (left_of xs ≡ xs) × (left_size xs ≡ 0))
      ⊎ ((free ≡ true)
          × (at ≡ behind first (left_of xs))
          × (xs ≡ left_of xs ++ block (left_size xs) false ∷ []))

module _ {s : State} {fuel : ℕ} {l : PageList} {pc end : Ptr} {q n : ℕ} {ys : List Block}
    {fl : List Ptr} where
  Prev-last :
      (xs : List Block) (k : ℕ) (used : Bool)
      → Hole s fuel l pc end (xs ++ block k used ∷ []) q n ys fl
      → 0 < n
      → Prev s fuel (pc + 32) q (xs ++ block k used ∷ [])
  Prev-last xs k used h some_left =
      let p = behind (pc + 32) xs in
      let t = Tiles-back s.mem (pc + 32) q xs _ h.front in
      let low = Tiles-le s.mem (pc + 32) p xs (Tiles-front s.mem (pc + 32) q xs _ h.front) in
      let is = t.0 in
      let stop = Hole-end h in
      let foot : s.mem (q - 16) ≡ some k = rw (t.1) at is.footer in
      let at_p : q - k ≡ p = omega arith in
      record {
        at = p;
        free = not used;
        found =
            get_prev_block-ok s fuel q pc end h.here (omega arith) (omega arith) {size = k} foot
              (omega (arith, is.large)) (omega arith)
            ∙ rw at_p refl;
        tested = is_free_block-ok s p (block k used) (omega arith) is;
        kind = kind_of xs k used p refl;
      }
    where
      kind_of :
          (xs : List Block) (k : ℕ) (used : Bool) (p : ℕ)
          → p ≡ behind (pc + 32) xs
          → ((not used ≡ false)
              × (left_of (xs ++ block k used ∷ []) ≡ xs ++ block k used ∷ [])
              × (left_size (xs ++ block k used ∷ []) ≡ 0))
            ⊎ ((not used ≡ true)
                × (p ≡ behind (pc + 32) (left_of (xs ++ block k used ∷ [])))
                × (xs ++ block k used ∷ []
                    ≡ left_of (xs ++ block k used ∷ [])
                      ++ block (left_size (xs ++ block k used ∷ [])) false ∷ []))
      kind_of xs k true p e = inl (refl, left_of-used xs k, left_size-used xs k)
      kind_of xs k false p e = inr (refl, rw left_of-free e, rw (left_of-free, left_size-free) refl)

  pub look-Prev :
      {xs : List Block}
      → Snoc xs
      → Hole s fuel l pc end xs q n ys fl
      → 0 < n
      → Prev s fuel (pc + 32) q xs
  unfolding left_of left_size
  look-Prev empty h some_left =
      let stop = Hole-end h in
      record {
        at = null;
        free = false;
        found =
            get_prev_block-first s fuel q pc end h.here (omega (arith, h.front)) (omega arith)
              (sym h.front);
        tested = is_free_block-null s;
        kind = inl (refl, refl, refl);
      }
  look-Prev (last xs b) h some_left = Prev-last xs b.size b.used h some_left
