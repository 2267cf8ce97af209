-- ===== src/Mm/Free.antt =====
-- `mm_free` of mm.c: what its merging of neighbours leaves of a page.
pub mod Look
pub mod Merge
pub mod Coalesce
use uof_ufall.Base.{ℕ, ◌≡◌, refl, true, false, List, [], ◌∷◌, ◌++◌, ap, if◌then◌else◌}
use uof_ufall.Mm.Heap.{Block, block}

-- the blocks in front of a freed one that are left as they are: all but a last one that is free
unfoldable pub left_of : List Block → List Block
left_of [] = []
left_of (b ∷ []) = if b.used then b ∷ [] else []
left_of (b ∷ c ∷ bs) = b ∷ left_of (c ∷ bs)

-- the bytes of a last block that is free
unfoldable pub left_size : List Block → ℕ
left_size [] = 0
left_size (b ∷ []) = if b.used then 0 else b.size
left_size (b ∷ c ∷ bs) = left_size (c ∷ bs)

-- and the same behind it
unfoldable pub right_of : List Block → List Block
right_of [] = []
right_of (b ∷ bs) = if b.used then b ∷ bs else bs

unfoldable pub right_size : List Block → ℕ
right_size [] = 0
right_size (b ∷ bs) = if b.used then 0 else b.size

pub left_of-used :
    (xs : List Block) (n : ℕ) → left_of (xs ++ block n true ∷ []) ≡ xs ++ block n true ∷ []
unfolding left_of
left_of-used [] n = refl
left_of-used (x ∷ []) n = refl
left_of-used (x ∷ y ∷ xs) n = ap (◌∷◌ x) (left_of-used (y ∷ xs) n)

pub left_of-free : (xs : List Block) (n : ℕ) → left_of (xs ++ block n false ∷ []) ≡ xs
unfolding left_of
left_of-free [] n = refl
left_of-free (x ∷ []) n = refl
left_of-free (x ∷ y ∷ xs) n = ap (◌∷◌ x) (left_of-free (y ∷ xs) n)

pub left_size-used : (xs : List Block) (n : ℕ) → left_size (xs ++ block n true ∷ []) ≡ 0
unfolding left_size
left_size-used [] n = refl
left_size-used (x ∷ []) n = refl
left_size-used (x ∷ y ∷ xs) n = left_size-used (y ∷ xs) n

pub left_size-free : (xs : List Block) (n : ℕ) → left_size (xs ++ block n false ∷ []) ≡ n
unfolding left_size
left_size-free [] n = refl
left_size-free (x ∷ []) n = refl
left_size-free (x ∷ y ∷ xs) n = left_size-free (y ∷ xs) n
