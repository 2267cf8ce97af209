-- ===== src/Mm/Lists/Fit.antt =====
-- `find_fit` of mm.c is a first-fit search of the free list.
use uof_ufall.Base.{
  ℕ, zero, suc, ◌+◌, ◌-◌, ◌%◌, ◌^◌, ◌<◌, ◌≡◌, refl, true, ◌&&◌, some, List, [], ◌∷◌, arith, ◌==◌,
  if◌then◌else◌, leb, add64, length, All, Bool-cases, inl, inr, ne→==, ◌≤◌, ◌≢◌, sym,
}
use native.Mathlib.Decide.{ℕ_discrete}
use uof_ufall.Machine.{Ptr, null, State, Memory, ok, load}
use uof_ufall.Mm.Layout.{get_alloc, block_size}
use uof_ufall.Mm.Lists.{fits, find_fit_loop, find_fit}
use uof_ufall.Machine.Words.{load-ok}
use uof_ufall.Mm.Lists.Chain.{Chain, has, nil, cons}

-- what the header in front of a free block's payload holds
pub record Header : Type 0 where
  pub size : ℕ
  pub allocated : ℕ

pub record HasHeader (m : Memory) (head : Ptr → Header) (bp : Ptr) : Type 0 where
  pub size : m (bp - 16) ≡ some (head bp).size
  pub flags : (w : ℕ) × (m (bp - 16 + 8) ≡ some w) × (w % 2 ^ 32 ≡ (head bp).allocated)

-- first fit: the first block that is free and holds header, payload and footer
unfoldable pub first_fit : (Ptr → Header) → ℕ → List Ptr → Ptr
first_fit head total [] = null
first_fit head total (bp ∷ xs) =
    if (head bp).allocated == 0 && leb total (head bp).size then bp else first_fit head total xs

fits-header :
    (s : State) (head : Ptr → Header) (bp : Ptr) (total : ℕ)
    → HasHeader s.mem head bp
    → fits (bp - 16) total s ≡ ok ((head bp).allocated == 0 && leb total (head bp).size) s
unfolding fits get_alloc block_size load
fits-header s head bp total h = let (w, e, f) = h.flags in ground (arith, h.size)

find_fit_loop-first_fit :
    (s : State) (head : Ptr → Header) (asize fuel : ℕ) {before p : Ptr} {xs : List Ptr}
    → Chain s.mem before p xs
    → All (HasHeader s.mem head) xs
    → length xs < fuel
    → find_fit_loop fuel asize p s ≡ ok (first_fit head (add64 (add64 16 asize) 16) xs) s
unfolding find_fit_loop first_fit
find_fit_loop-first_fit s head asize zero c hs enough = absurd (omega arith)
find_fit_loop-first_fit s head asize (suc fuel) nil hs enough = refl
find_fit_loop-first_fit s head asize (suc fuel) (cons {p} {q} {xs} el out back fwd c) hs enough =
    rw (ne→== p null el.ne_null, fits-header s head p _ hs.0)
      (elim (Bool-cases
        ((head p).allocated == 0 && leb (add64 (add64 16 asize) 16) (head p).size)) [
          | inl found ↦ rw found refl
          | inr missed ↦
              rw (missed, load-ok s (p + 8) fwd)
                (find_fit_loop-first_fit s head asize fuel c hs.1 (omega arith))
        ])

-- With fuel beyond the length of the free list, `find_fit` ends, changes nothing, and returns the
-- first block of the list that is free and large enough, or null if there is none.
pub find_fit-first_fit :
    (s : State) (head : Ptr → Header) (asize fuel : ℕ) (xs : List Ptr)
    → Chain s.mem null s.free_list_head xs
    → All (HasHeader s.mem head) xs
    → length xs < fuel
    → find_fit fuel asize s ≡ ok (first_fit head (add64 (add64 16 asize) 16) xs) s
unfolding find_fit
find_fit-first_fit s head asize fuel xs c hs enough =
    find_fit_loop-first_fit s head asize fuel c hs enough

-- a block that the search returns is listed, free and large enough
pub first_fit-fits :
    (head : Ptr → Header) (total : ℕ) (xs : List Ptr) (bp : Ptr)
    → first_fit head total xs ≡ bp
    → bp ≢ null
    → (has bp xs ≡ true) × ((head bp).allocated ≡ 0) × (total ≤ (head bp).size)
unfolding first_fit
first_fit-fits head total [] bp e ne = absurd (ne (sym e))
first_fit-fits head total (x ∷ xs) bp e ne =
    elim (Bool-cases ((head x).allocated == 0 && leb total (head x).size)) [
      | inl hit ↦ let e' : x ≡ bp = ground arith in rw (← e') (ground arith)
      | inr miss ↦
          let e' : first_fit head total xs ≡ bp = rw miss at e in
          let (mem, free, large) = first_fit-fits head total xs bp e' ne in
          (ground arith, free, large)
    ]

pub All-has :
    (m : Memory) (head : Ptr → Header) (xs : List Ptr) (bp : Ptr)
    → All (HasHeader m head) xs
    → has bp xs ≡ true
    → HasHeader m head bp
All-has m head [] bp hs i = cc
All-has m head (x ∷ xs) bp hs i = elim (ℕ_discrete bp x) [
  | yes e ↦ rw e hs.0
  | no ne ↦ All-has m head xs bp hs.1 (ground arith)
]
