-- ===== src/Mm/Arena/Keeping.antt =====
-- The bytes of payloads in use are no part of a free block, no link and no word of a page's header, so
-- that what mm.c does to those leaves them alone.
use uof_ufall.Base.{
  ℕ, ◌+◌, ◌-◌, ◌≤◌, ◌<◌, ◌≡◌, refl, Bool, true, false, ◌&&◌, ◌||◌, List, [], ◌∷◌, arith, inl, inr,
  Bool-cases, leb, ltb, ap, subst, sym,
}
use mathlib.Core.List.{Memᴰ, Perm}
use mathlib.Core.List.Perm
use mathlib.Core.List.Memᴰ
use native.Mathlib.Decide.{ℕ_discrete}
use uof_ufall.Machine.{Ptr, State}
use uof_ufall.Mm.Arena.{HeapInv}
use uof_ufall.Mm.Arena.Apart.{InPayload, payload-page, page-inside}
use uof_ufall.Mm.Arena.Clear.{SparedAt, Sized, Sized-le, SparedAt-below, SparedAt-above, Clear}
use uof_ufall.Mm.Arena.Find.{payloads_cases, found}
use uof_ufall.Mm.Arena.Live.{Payload, payloads, live}
use uof_ufall.Mm.Heap.{Block}
use uof_ufall.Mm.Lists.Chain.{has}

-- whether a byte is in one of the payloads
abbrev pub in_payloads : List Payload → ℕ → Bool
in_payloads [] a = false
in_payloads (e ∷ es) a = (leb e.place a && ltb a (e.place + e.room)) || in_payloads es a

pub payload-at :
    (es : List Payload) (a : ℕ)
    → in_payloads es a ≡ true
    → (e : Payload) × Memᴰ e es × InPayload a e
payload-at [] a h = cc
payload-at (e ∷ es) a h = elim (Bool-cases (leb e.place a && ltb a (e.place + e.room))) [
  | inl here ↦ (e, Memᴰ.head refl, ground arith)
  | inr other ↦ let (f, m, inside) = payload-at es a (ground arith) in (f, Memᴰ.tail m, inside)
]

pub at-payload :
    (es : List Payload) (a : ℕ) (e : Payload) → Memᴰ e es → InPayload a e → in_payloads es a ≡ true
at-payload [] a e m inside = absurd (Memᴰ.not-nil m)
at-payload (f ∷ es) a e m inside = elim (Memᴰ.cases_cons m) [
  | inl here ↦
      let here_in : InPayload a f = subst (InPayload a) here inside in
      let low : f.place ≤ a = here_in.0 in
      let high : a < f.place + f.room = here_in.1 in ground arith
  | inr later ↦ ground (arith, at-payload es a e later inside)
]

-- the bytes of the payloads hold in `t` what they hold in `s`
abbrev pub Unchanged : List Payload → State → State → Type 0
Unchanged es s t = (a : ℕ) → in_payloads es a ≡ true → t.mem a ≡ s.mem a

-- the order of the payloads does not matter
pub in_payloads-Perm :
    {es fs : List Payload} (a : ℕ) → Perm es fs → in_payloads fs a ≡ true → in_payloads es a ≡ true
in_payloads-Perm {es} {fs} a e h =
    let (f, m, inside) = payload-at fs a h in
    at-payload es a f (found f es ((Perm.mem_iff e).1 ∣ m ∣₁)) inside

-- a byte of a payload of the blocks
SparedAt-own :
    (a p end : ℕ) (bs : List Block) (e : Payload)
    → Sized p end bs
    → Memᴰ e (payloads p bs)
    → InPayload a e
    → SparedAt a p bs × ((p ≤ a) × (a < end))
SparedAt-own a p end [] e t m inside = absurd (Memᴰ.not-nil m)
SparedAt-own a p end (b ∷ bs) e t m inside = elim (payloads_cases e p b bs m) [
  | inl (used, here) ↦
      let large = t.0 in
      let le = Sized-le (p + b.size) end bs t.1 in
      let place : e.place ≡ p + 16 = ap (λ (x : Payload). x.place) here in
      let room : e.room ≡ b.size - 32 = ap (λ (x : Payload). x.room) here in
      let low = inside.0 in
      let high = inside.1 in
      (
        ((λ u. cc (used, u)), SparedAt-below a (p + b.size) bs (omega arith)),
        (omega arith, omega arith),
      )
  | inr later ↦
      let (rest, (low, high)) = SparedAt-own a (p + b.size) end bs e t.1 later inside in
      (((λ u. inr low), rest), (omega arith, high))
]

module _ {s : State} {fuel : ℕ} {ends : Ptr → Ptr} {pages : List Ptr} {blocks : Ptr → List Block}
    {fl : List Ptr} (i : HeapInv s fuel ends pages blocks fl) where
  -- the bytes of the payloads of blocks of the same sizes, some of which may be free
  pub live-Clear :
      (marks : Ptr → List Block)
      → ((p : Ptr) → has p pages ≡ true → Sized (p + 32) (ends p) (marks p))
      → Clear (in_payloads (live marks pages)) pages marks
  live-Clear marks sized p m a k =
      let (e, mem, inside) = payload-at (live marks pages) a k in
      let (pc, own, d) = payload-page marks pages e mem in
      let (spared, (low, high)) =
        SparedAt-own a (pc + 32) (ends pc) (marks pc) e (sized pc own) d inside in
      elim (ℕ_discrete p pc) [
        | yes same ↦
            (inr (omega (arith, low)), subst (λ z. SparedAt a (z + 32) (marks z)) (sym same) spared)
        | no ne ↦ elim (i.apart p pc m own ne) [
          | inl before ↦ (
            inr (omega (arith, low, Sized-le (p + 32) (ends p) (marks p) (sized p m))),
            SparedAt-above a (p + 32) (ends p) (marks p) (sized p m) (omega arith),
          )
          | inr behind_it ↦ (inl (omega arith), SparedAt-below a (p + 32) (marks p) (omega arith))
        ]
      ]

  -- the page of a byte
  pub live-page :
      (a : ℕ)
      → in_payloads (live blocks pages) a ≡ true
      → (p : Ptr) × (has p pages ≡ true) × (p + 32 ≤ a) × (a < ends p)
  live-page a k =
      let (e, mem, inside) = payload-at (live blocks pages) a k in
      let (p, own, d) = payload-page blocks pages e mem in
      let (low, high) = page-inside i p own e a d inside in (p, own, low, high)
