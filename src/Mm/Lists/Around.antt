-- ===== src/Mm/Lists/Around.antt =====
-- A doubly linked list around one of its elements: what the parts before and behind it know.
use uof_ufall.Base.{
  ap, ℕ, ◌+◌, ◌%◌, ◌≡◌, ◌⊎◌, inl, inr, refl, false, true, some, List, [], ◌∷◌, ◌++◌, ◌||◌, arith,
}
use native.Mathlib.Decide.{ℕ_discrete}
use uof_ufall.Machine.{Ptr, null, Memory}
use uof_ufall.Mm.Lists.Chain.{Chain, Element, has, is_link, nil, cons}

unfoldable pub last_or : Ptr → List Ptr → Ptr
last_or b [] = b
last_or b (x ∷ xs) = last_or x xs

-- where the list starts after `bp` has gone from behind `xs`
unfoldable pub head_after : Ptr → Ptr → List Ptr → Ptr
head_after p next [] = next
head_after p next (x ∷ xs) = p

pub has-append : (a : Ptr) (xs ys : List Ptr) → has a (xs ++ ys) ≡ (has a xs || has a ys)
has-append a [] ys = refl
has-append a (x ∷ xs) ys = ground (arith, has-append a xs ys)

-- what the parts of a chain around `bp` know of it
pub record Around (m : Memory) (before bp : Ptr) (xs ys : List Ptr) (next : Ptr) : Type 0 where
  pub el : Element bp
  pub back : m bp ≡ some (last_or before xs)
  pub fwd : m (bp + 8) ≡ some next
  pub behind : Chain m bp next ys
  pub out : has bp xs ≡ false
  pub out' : has bp ys ≡ false

pub around :
    (xs : List Ptr) {m : Memory} {before p bp : Ptr} {ys : List Ptr}
    → Chain m before p (xs ++ bp ∷ ys)
    → (next : Ptr) × Around m before bp xs ys next
unfolding last_or
around [] (cons {q} el out back fwd c) =
    (q, record { el = el; back = back; fwd = fwd; behind = c; out = refl; out' = out })
around (x ∷ xs) {bp} {ys} (cons {q} el out back fwd c) =
    let (next, r) = around xs c in
    (
      next,
      record {
        el = r.el;
        back = r.back;
        fwd = r.fwd;
        behind = r.behind;
        out = ground (arith, has-append x xs (bp ∷ ys), r.out);
        out' = r.out';
      },
    )

-- the first element of a chain is one of its elements, unless the chain is empty
pub head-mem :
    {m : Memory} {before p : Ptr} {xs : List Ptr}
    → Chain m before p xs
    → (p ≡ null) ⊎ (has p xs ≡ true)
head-mem nil = inl refl
head-mem (cons el out back fwd c) = inr (ground arith)

pub head-aligned : {m : Memory} {before p : Ptr} {xs : List Ptr} → Chain m before p xs → p % 16 ≡ 0
head-aligned nil = refl
head-aligned (cons el out back fwd c) = el.aligned

pub null-not-mem :
    {m : Memory} {before p : Ptr} {xs : List Ptr} → Chain m before p xs → has null xs ≡ false
null-not-mem nil = refl
null-not-mem (cons el out back fwd c) = ground (arith, null-not-mem c, el.ne_null)

pub last-aligned :
    (xs ys : List Ptr) {m : Memory} {before p : Ptr}
    → Chain m before p (xs ++ ys)
    → before % 16 ≡ 0
    → last_or before xs % 16 ≡ 0
unfolding last_or
last-aligned [] ys c al = al
last-aligned (x ∷ xs) ys (cons el out back fwd c) al = last-aligned xs ys c el.aligned

pub last-not-mem :
    (xs ys : List Ptr) {m : Memory} {before p : Ptr}
    → Chain m before p (xs ++ ys)
    → has before ys ≡ false
    → has (last_or before xs) ys ≡ false
unfolding last_or
last-not-mem [] ys c h = h
last-not-mem (x ∷ xs) ys (cons el out back fwd c) h =
    last-not-mem xs ys c (ground (arith, has-append x xs ys))

pub last-mem : (x : Ptr) (xs : List Ptr) → has (last_or x xs) (x ∷ xs) ≡ true
unfolding last_or
last-mem x [] = ground arith
last-mem x (y ∷ xs) = ground (arith, last-mem y xs)

pub is_link-append :
    (a : ℕ) (xs ys : List Ptr) → is_link a (xs ++ ys) ≡ (is_link a xs || is_link a ys)
is_link-append a [] ys = refl
is_link-append a (x ∷ xs) ys = ground (arith, is_link-append a xs ys)

pub link_of_mem :
    (p : Ptr) (xs : List Ptr)
    → has p xs ≡ true
    → (is_link p xs ≡ true) × (is_link (p + 8) xs ≡ true)
link_of_mem p [] h = cc
link_of_mem p (x ∷ xs) h = ground (arith, link_of_mem p xs)

-- an element splits the list
pub has-split :
    (r : Ptr) (fl : List Ptr)
    → has r fl ≡ true
    → (us : List Ptr) × (vs : List Ptr) × (fl ≡ us ++ r ∷ vs)
has-split r [] h = cc
has-split r (p ∷ fl) h = elim (ℕ_discrete r p) [
  | yes e ↦ ([], fl, rw e refl)
  | no ne ↦ let (us, vs, e) = has-split r fl (ground arith) in (p ∷ us, vs, ap (◌∷◌ p) e)
]
