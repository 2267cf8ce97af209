-- ===== src/Mm/Lists/Splice.antt =====
-- A doubly linked list from which an element is taken by joining its neighbours.
use uof_ufall.Base.{
  ℕ, ◌+◌, ◌%◌, ◌≡◌, ◌≢◌, ◌⊎◌, refl, false, true, some, List, [], ◌∷◌, ◌++◌, arith, ◌==◌,
  if◌then◌else◌,
}
use uof_ufall.Machine.{Ptr, null, Memory}
use uof_ufall.Mm.Lists.Chain
use uof_ufall.Mm.Lists.Chain.{Chain, Element, has, is_link, SameOutside, nil, cons, not-link}
use uof_ufall.Mm.Lists.Around.{last_or, head_after, has-append, last-mem, link_of_mem}

-- `g` is `m` with the links round `bp` joined, and the links of `bp` itself unknown
pub record Spliced (m g : Memory) (prev bp next : Ptr) : Type 0 where
  pub fwd : prev ≢ null → g (prev + 8) ≡ some next
  pub back : next ≢ null → g next ≡ some prev
  pub same : (a : ℕ) → a ≢ prev + 8 → a ≢ next → a ≢ bp → a ≢ bp + 8 → g a ≡ m a

module _ {m g : Memory} {prev bp next : Ptr} (sp : Spliced m g prev bp next) (al : prev % 16 ≡ 0)
    (al' : bp % 16 ≡ 0) (al'' : next % 16 ≡ 0) where
  pub relink :
      {q : Ptr} {ys : List Ptr}
      → Chain m bp q ys
      → q ≡ next
      → has prev ys ≡ false
      → has bp ys ≡ false
      → Chain g prev q ys
  relink nil e out out' = nil
  relink (cons {p} {xs} el o back fwd c) e out out' =
      cons el o (ground (arith, sp.back, el.ne_null)) (ground (arith, sp.same (p + 8), el.aligned))
        (Chain.frame c λ a i.
          ground
            (arith, sp.same a, not-link prev c al, not-link bp c al', not-link p c el.aligned o))

  pub splice :
      (xs ys : List Ptr) {before p : Ptr}
      → Chain m before p (xs ++ bp ∷ ys)
      → m (bp + 8) ≡ some next
      → last_or before xs ≡ prev
      → has prev ys ≡ false
      → ((next ≡ null) ⊎ (has next ys ≡ true))
      → Chain g before (head_after p next xs) (xs ++ ys)
  unfolding last_or head_after
  splice [] ys (cons {before} {q} el out back fwd c) e l apart h =
      let q_is : q ≡ next = ground arith in rw (l, ← q_is) (relink c q_is apart out)
  splice (x ∷ []) ys (cons {before} {q} el out back fwd c) e l apart h =
      cons el (ground arith) (ground (arith, sp.same x, el.aligned, el.ne_null))
        (ground (arith, sp.fwd, el.ne_null)) (splice [] ys c e l apart h)
  splice (x ∷ y ∷ xs) ys (cons {before} {q} el out back fwd c) e l apart h =
      cons el (ground (arith, has-append x xs (bp ∷ ys), has-append x xs ys))
        (ground (arith, sp.same x, el.aligned, el.ne_null, has-append x xs (bp ∷ ys)))
        (ground (arith, sp.same (x + 8), el.aligned, has-append x xs (bp ∷ ys), last-mem y xs))
        (splice (y ∷ xs) ys c e l apart h)

pub chain-head :
    {m : Memory} {before p bp : Ptr} {ys : List Ptr} → Chain m before p (bp ∷ ys) → p ≡ bp
chain-head (cons el out back fwd c) = refl

pub head-back :
    {m : Memory} {before p : Ptr} {ys : List Ptr}
    → Chain m before p ys
    → p ≢ null
    → m p ≡ some before
head-back nil ne = absurd (ne refl)
head-back (cons el out back fwd c) ne = back

pub last-fwd :
    (x : Ptr) (xs ys : List Ptr) {m : Memory} {before p bp : Ptr}
    → Chain m before p (x ∷ (xs ++ bp ∷ ys))
    → m (last_or x xs + 8) ≡ some bp
unfolding last_or
last-fwd x [] ys (cons el out back fwd c) = ground (arith, chain-head c)
last-fwd x (y ∷ xs) ys (cons el out back fwd c) = last-fwd y xs ys c

pub prev-mapped :
    (xs ys : List Ptr) {m : Memory} {p bp : Ptr}
    → Chain m null p (xs ++ bp ∷ ys)
    → last_or null xs ≢ null
    → m (last_or null xs + 8) ≡ some bp
unfolding last_or
prev-mapped [] ys c ne = absurd (ne refl)
prev-mapped (x ∷ xs) ys c ne = last-fwd x xs ys c

pub last-ne-null :
    (x : Ptr) (xs ys : List Ptr) {m : Memory} {before p : Ptr}
    → Chain m before p (x ∷ (xs ++ ys))
    → last_or x xs ≢ null
unfolding last_or
last-ne-null x [] ys (cons el out back fwd c) = el.ne_null
last-ne-null x (y ∷ xs) ys (cons el out back fwd c) = last-ne-null y xs ys c

pub head_after-if :
    (next : Ptr) (xs ys : List Ptr) {m : Memory} {p : Ptr}
    → Chain m null p (xs ++ ys)
    → (if last_or null xs == null then next else p) ≡ head_after p next xs
unfolding last_or head_after
head_after-if next [] ys c = refl
head_after-if next (x ∷ xs) ys c = ground (arith, last-ne-null x xs ys c)

pub last-link : (xs : List Ptr) → last_or null xs ≢ null → is_link (last_or null xs + 8) xs ≡ true
unfolding last_or
last-link [] ne = absurd (ne refl)
last-link (x ∷ xs) ne = (link_of_mem _ (x ∷ xs) (last-mem x xs)).1
