-- ===== src/Mm/Lists/Chain.antt =====
-- Doubly linked lists in memory: the free list by payload pointers, the page list by page pointers.
-- Both keep the link to the previous element in the first word of an element and the link to the
-- next element in the second.
use uof_ufall.Base.{
  ℕ, ◌+◌, ◌%◌, ◌≡◌, ◌≢◌, refl, Bool, true, false, ◌||◌, some, List, [], ◌∷◌, arith, ◌==◌,
}
pub use uof_ufall.Base.Distinct.{has}
use uof_ufall.Machine.{Ptr, null, Memory}

-- the address of a link of an element
abbrev pub is_link : ℕ → List Ptr → Bool
is_link a [] = false
is_link a (p ∷ xs) = (a == p) || ((a == p + 8) || is_link a xs)

-- an element's address, as `mm_malloc` makes them
pub record Element (p : Ptr) : Type 0 where
  pub ne_null : p ≢ null
  pub aligned : p % 16 ≡ 0

-- from `p` the links lead through the elements `xs` to the end; `before` stands before `p`
pub data Chain (m : Memory) : Ptr → Ptr → List Ptr → Type 0 where
  nil : {before : Ptr} → Chain m before null []
  cons :
      {before p q : Ptr} {xs : List Ptr}
      → Element p
      → has p xs ≡ false
      → m p ≡ some before
      → m (p + 8) ≡ some q
      → Chain m p q xs
      → Chain m before p (p ∷ xs)

-- `g` is `m` but for the links of `xs`
abbrev pub SameOutside : List Ptr → Memory → Memory → Type 0
SameOutside xs m g = (a : ℕ) → is_link a xs ≡ false → g a ≡ m a

-- a chain survives any change that spares its own links
pub frame :
    {m g : Memory} {before p : Ptr} {xs : List Ptr}
    → Chain m before p xs
    → ((a : ℕ) → is_link a xs ≡ true → g a ≡ m a)
    → Chain g before p xs
frame nil same = nil
frame (cons {p} el out back fwd c) same =
    cons el out (ground (arith, same p)) (ground (arith, same (p + 8)))
      (frame c λ a i. same a (ground arith))

-- an element outside the chain has none of its links
pub not-link :
    {m : Memory} {before q : Ptr} {xs : List Ptr} (p : Ptr)
    → Chain m before q xs
    → p % 16 ≡ 0
    → has p xs ≡ false
    → (is_link p xs ≡ false) × (is_link (p + 8) xs ≡ false)
not-link p nil al out = (refl, refl)
not-link p (cons el o back fwd c) al out = ground (arith, not-link p c al, el.aligned)
