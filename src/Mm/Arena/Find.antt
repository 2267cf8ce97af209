-- ===== src/Mm/Arena/Find.antt =====
-- A payload in use belongs to a used block of a page.
use uof_ufall.Base.{
  ℕ, ◌+◌, ◌-◌, ◌≡◌, ◌≢◌, Bool, true, ◌⊎◌, inl, inr, ◌∷◌, [], List, ◌++◌, arith, ap, subst,
  Bool-cases, if◌then◌else◌,
}
use mathlib.Core.List.{Mem, Memᴰ}
use mathlib.Core.List.Memᴰ
use mathlib.Core.Logic.{∥∥₁_elim}
use mathlib.Core.HLevel.{⊥_prop}
use native.Mathlib.Decide.{ℕ_discrete}
use uof_ufall.Machine.{Ptr}
use uof_ufall.Mm.Arena.Live.{Payload, payload, payloads, live}
use uof_ufall.Mm.Heap.{Block, block, behind}
use uof_ufall.Mm.Lists.Chain.{has}

-- the used block of a payload
pub record UsedAt (e : Payload) (p : Ptr) (bs : List Block) : Type 0 where
  pub front : List Block
  pub size : ℕ
  pub back : List Block
  pub shape : bs ≡ front ++ block size true ∷ back
  pub place : e ≡ payload (behind p front + 16) (size - 32)

UsedAt-cons :
    (e : Payload) (p : Ptr) (b : Block) (bs : List Block)
    → UsedAt e (p + b.size) bs
    → UsedAt e p (b ∷ bs)
UsedAt-cons e p b bs u = record {
  front = b ∷ u.front;
  size = u.size;
  back = u.back;
  shape = ap (◌∷◌ b) u.shape;
  place = u.place;
}

-- a payload of a tiling is that of its first block, which is used, or a later one
pub payloads_cases :
    (e : Payload) (p : Ptr) (b : Block) (bs : List Block)
    → Memᴰ e (payloads p (b ∷ bs))
    → ((b.used ≡ true) × (e ≡ payload (p + 16) (b.size - 32))) ⊎ Memᴰ e (payloads (p + b.size) bs)
payloads_cases e p b bs m = elim (Bool-cases b.used) [
  | inl used ↦ elim (Memᴰ.cases_cons (subst own used m)) [
    | inl here ↦ inl (used, here)
    | inr later ↦ inr later
  ]
  | inr free ↦ inr (subst own free m)
]
  where
    own : Bool → Type 0
    own z =
        Memᴰ e ((if z then payload (p + 16) (b.size - 32) ∷ [] else []) ++ payloads (p + b.size) bs)

module _ (e : Payload) where
  used-block : (p : Ptr) (bs : List Block) → Memᴰ e (payloads p bs) → UsedAt e p bs
  used-block p [] m = absurd (Memᴰ.not-nil m)
  used-block p (b ∷ bs) m = elim (payloads_cases e p b bs m) [
    | inl (used, here) ↦ record {
      front = [];
      size = b.size;
      back = bs;
      shape = ap (λ z. record { size = b.size; used = z } ∷ bs) used;
      place = here;
    }
    | inr later ↦ UsedAt-cons e p b bs (used-block (p + b.size) bs later)
  ]

  pub used-page :
      (blocks : Ptr → List Block) (pages : List Ptr)
      → Memᴰ e (live blocks pages)
      → (pc : Ptr) × (has pc pages ≡ true) × UsedAt e (pc + 32) (blocks pc)
  used-page blocks [] m = absurd (Memᴰ.not-nil m)
  used-page blocks (p ∷ pages) m = elim (Memᴰ.append_cases (payloads (p + 32) (blocks p)) m) [
    | inl here ↦ (p, ground arith, used-block (p + 32) (blocks p) here)
    | inr later ↦ let (pc, own, u) = used-page blocks pages later in (pc, ground arith, u)
  ]

-- whether a payload is in use
payload-eq : (e f : Payload) → (e ≡ f) ⊎ (e ≢ f)
payload-eq e f = elim (ℕ_discrete e.place f.place) [
  | no ne ↦ inr λ h. ne (ap (λ (x : Payload). x.place) h)
  | yes i ↦ elim (ℕ_discrete e.room f.room) [
    | no ne ↦ inr λ h. ne (ap (λ (x : Payload). x.room) h)
    | yes j ↦ inl (λ k. payload (i k) (j k))
  ]
]

find : (e : Payload) (es : List Payload) → Memᴰ e es ⊎ (Memᴰ e es → ⊥)
find e [] = inr Memᴰ.not-nil
find e (f ∷ es) = elim (payload-eq e f) [
  | inl same ↦ inl (Memᴰ.head same)
  | inr ne ↦ elim (find e es) [
    | inl m ↦ inl (Memᴰ.tail m)
    | inr out ↦ inr λ m. elim (Memᴰ.cases_cons m) [ inl same ↦ ne same | inr later ↦ out later ]
  ]
]

-- so the truncation of `Mem` can be undone
pub found : (e : Payload) (es : List Payload) → Mem e es → Memᴰ e es
found e es m = elim (find e es) [ inl d ↦ d | inr out ↦ absurd (∥∥₁_elim m ⊥_prop out) ]
