-- ===== src/Driver/Eval/Running.antt =====
-- The state of a run of `eval_mm_valid`: the requests that are open, as the range list, the arrays of
-- the trace and the allocator have them.
use uof_ufall.Base.{
  ℕ, ◌+◌, ◌-◌, ◌<◌, ◌≡◌, ◌≢◌, refl, true, List, [], ◌∷◌, ◌++◌, map, arith, All, ap, Bool-cases, inl,
  inr, ◌==◌, ==→eq,
}
use uof_ufall.Base.Distinct.{has, Distinct, without}
use mathlib.Core.List.{Pairwise, Memᴰ}
use native.Mathlib.Decide.{dec_lt}
use uof_ufall.Driver.Eval.{Driver}
use uof_ufall.Driver.Ranges.{Range}
use uof_ufall.Driver.Ranges.Laws.{Apart, IsExtent}
use uof_ufall.Machine.{Ptr, State}
use uof_ufall.Mm.Arena.Apart.{Disjoint}
use uof_ufall.Mm.Arena.Live.{Payload, payload}
use uof_ufall.Mm.Arena.Serving.{Serving}

-- what a trace asked for under an index, and where it got it
pub record Request : Type 0 where
  pub index : ℕ
  pub place : Ptr
  pub size : ℕ

abbrev pub request : ℕ → Ptr → ℕ → Request
request index place size = record { index = index; place = place; size = size }

abbrev pub payload_of : Request → Payload
payload_of r = payload r.place r.size

abbrev pub range_of : Request → Range
range_of r = record { lo = r.place; hi = r.place + r.size - 1 }

abbrev pub index_of : Request → ℕ
index_of r = r.index

abbrev pub indices : List Request → List ℕ
indices = map index_of

-- The open requests `rs`: the allocator serves them, the range list has their extents, and `blocks`
-- has their places.
pub record Running (fuel : ℕ) (rs : List Request) (d : Driver) (s : State) : Type 0 where
  pub serving : Serving fuel (map payload_of rs) s
  pub ranges : d.ranges ≡ map range_of rs
  pub blocks : All (λ (r : Request). d.blocks r.index ≡ r.place) rs
  pub sizes : All (λ (r : Request). 0 < r.size) rs
  pub distinct : Distinct (indices rs)

pub map-append :
    {A : Type 0} (f : Request → A) (xs ys : List Request) → map f (xs ++ ys) ≡ map f xs ++ map f ys
map-append f [] ys = refl
map-append f (x ∷ xs) ys = ap (◌∷◌ (f x)) (map-append f xs ys)

pub All-middle {κ} :
    (P : Request → Type κ) (xs ys : List Request) (r : Request)
    → All P (xs ++ r ∷ ys)
    → P r × All P (xs ++ ys)
All-middle P [] ys r h = h
All-middle P (x ∷ xs) ys r h = let (p, rest) = All-middle P xs ys r h.1 in (p, (h.0, rest))

-- an open request, by its index
pub record Lookup (rs : List Request) (i : ℕ) : Type 0 where
  pub front : List Request
  pub own : Request
  pub back : List Request
  pub shape : rs ≡ front ++ own ∷ back
  pub index : own.index ≡ i
  pub others : indices (front ++ back) ≡ without i (indices rs)

pub lookup : (i : ℕ) (rs : List Request) → has i (indices rs) ≡ true → Lookup rs i
lookup i [] h = cc
lookup i (r ∷ rs) h = elim (Bool-cases (r.index == i)) [
  | inl here ↦ record {
    front = [];
    own = r;
    back = rs;
    shape = refl;
    index = ==→eq r.index i here;
    others = rw here refl;
  }
  | inr other ↦
      let l = lookup i rs (ground arith) in
      record {
        front = r ∷ l.front;
        own = l.own;
        back = l.back;
        shape = ap (◌∷◌ r) l.shape;
        index = l.index;
        others = rw other (ap (◌∷◌ r.index) l.others);
      }
]

-- extents that share no byte lie apart
Disjoint-Apart :
    (p size : ℕ) (r : Request)
    → 0 < size
    → 0 < r.size
    → Disjoint (payload p size) (payload_of r)
    → Apart p (p + size - 1) (range_of r)
Disjoint-Apart p size r pos pos' d = elim (dec_lt (p + size - 1) r.place) [
  | yes before ↦ inl before
  | no not_before ↦ elim (dec_lt (r.place + r.size - 1) p) [
    | yes behind ↦ inr behind
    | no not_behind ↦ elim (dec_lt p r.place) [
      | yes low ↦ absurd (d r.place (omega arith, omega arith) (omega arith, omega arith))
      | no high ↦ absurd (d p (omega arith, omega arith) (omega arith, omega arith))
    ]
  ]
]

-- a payload that is disjoint from those of all requests lies apart from their ranges
pub ranges-Apart :
    (p size : ℕ) (rs : List Request)
    → 0 < size
    → All (λ (r : Request). 0 < r.size) rs
    → ((f : Payload) → Memᴰ f (map payload_of rs) → Disjoint (payload p size) f)
    → All IsExtent (map range_of rs) × All (Apart p (p + size - 1)) (map range_of rs)
ranges-Apart p size [] pos sizes d = (tt, tt)
ranges-Apart p size (r ∷ rs) pos sizes d =
    let (extents, apart) = ranges-Apart p size rs pos sizes.1 λ f m. d f (Memᴰ.tail m) in
    (
      (omega (arith, sizes.0), extents),
      (Disjoint-Apart p size r pos sizes.0 (d (payload_of r) (Memᴰ.head refl)), apart),
    )

-- so no request in front of another starts where that does
pub front-ne :
    (front back : List Request) (r : Request)
    → All (λ (r : Request). 0 < r.size) (front ++ r ∷ back)
    → Pairwise Disjoint (map payload_of (front ++ r ∷ back))
    → All (λ (f : Range). f.lo ≢ r.place) (map range_of front)
front-ne [] back r sizes d = tt
front-ne (f ∷ front) back r sizes (Pairwise.cons apart d) =
    let (pos, rest) = All-middle (λ (r : Request). 0 < r.size) front back r sizes.1 in
    (
      λ e.
          apart (payload_of r) ∣ middle front ∣₁ r.place
            (omega (arith, e, sizes.0), omega (arith, e, sizes.0))
            (omega arith, omega (arith, pos)),
      front-ne front back r sizes.1 d,
    )
  where
    middle : (front : List Request) → Memᴰ (payload_of r) (map payload_of (front ++ r ∷ back))
    middle [] = Memᴰ.head refl
    middle (x ∷ xs) = Memᴰ.tail (middle xs)
