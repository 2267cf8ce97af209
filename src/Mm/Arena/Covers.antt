-- ===== src/Mm/Arena/Covers.antt =====
-- The payloads that serve a list of requests: at the same places, with at least their bytes.
use uof_ufall.Base.{ℕ, ◌≤◌, ◌≡◌, refl, [], ◌∷◌, List, ◌++◌, arith, ap, sym, subst, inl, inr, true}
use mathlib.Core.List.{Pairwise, Memᴰ}
use mathlib.Core.List.Memᴰ
use mathlib.Core.Logic.{∥∥₁_elim}
use mathlib.Core.HLevel.{⊥_prop}
use uof_ufall.Mm.Arena.Apart.{InPayload, Disjoint}
use uof_ufall.Mm.Arena.Keeping.{in_payloads, payload-at, at-payload}
use uof_ufall.Mm.Arena.Live.{Payload}

-- the payloads `es` are at the places of the requests `rs`, with at least their bytes
pub data Covers : List Payload → List Payload → Type 0 where
  nil : Covers [] []
  cons :
      {e r : Payload} {es rs : List Payload}
      → e.place ≡ r.place
      → r.room ≤ e.room
      → Covers es rs
      → Covers (e ∷ es) (r ∷ rs)

-- the payload of a request, and the others
pub record Split (es front back : List Payload) (r : Payload) : Type 0 where
  pub before : List Payload
  pub own : Payload
  pub behind : List Payload
  pub shape : es ≡ before ++ own ∷ behind
  pub place : own.place ≡ r.place
  pub room : r.room ≤ own.room
  pub others : Covers (before ++ behind) (front ++ back)

pub Covers-Split :
    (front back : List Payload) (r : Payload) {es : List Payload}
    → Covers es (front ++ r ∷ back)
    → Split es front back r
Covers-Split [] back r (cons {e} {es = es} place room c) = record {
  before = [];
  own = e;
  behind = es;
  shape = refl;
  place = place;
  room = room;
  others = c;
}
Covers-Split (f ∷ front) back r (cons {e} place room c) =
    let s = Covers-Split front back r c in
    record {
      before = e ∷ s.before;
      own = s.own;
      behind = s.behind;
      shape = ap (◌∷◌ e) s.shape;
      place = s.place;
      room = s.room;
      others = cons place room s.others;
    }

-- the payload of a request
pub record OwnPayload (es : List Payload) (r : Payload) : Type 0 where
  pub own : Payload
  pub listed : Memᴰ own es
  pub place : own.place ≡ r.place
  pub room : r.room ≤ own.room

pub Covers-OwnPayload :
    {es rs : List Payload} (r : Payload) → Covers es rs → Memᴰ r rs → OwnPayload es r
Covers-OwnPayload r nil m = absurd (Memᴰ.not-nil m)
Covers-OwnPayload r (cons {e} place room c) m = elim (Memᴰ.cases_cons m) [
  | inl here ↦ record {
    own = e;
    listed = Memᴰ.head refl;
    place = cc (place, here);
    room = subst (λ (z : Payload). z.room ≤ e.room) (sym here) room;
  }
  | inr later ↦
      let o = Covers-OwnPayload r c later in
      record { own = o.own; listed = Memᴰ.tail o.listed; place = o.place; room = o.room }
]

pub narrow :
    (e r : Payload) (a : ℕ) → e.place ≡ r.place → r.room ≤ e.room → InPayload a r → InPayload a e
narrow e r a place room (low, high) = omega (arith, low, high)

pub Covers-Disjoint :
    {es rs : List Payload} → Covers es rs → Pairwise Disjoint es → Pairwise Disjoint rs
Covers-Disjoint nil d = Pairwise.nil
Covers-Disjoint (cons {e} {r} place room c) (Pairwise.cons apart d) =
    Pairwise.cons
      (λ f k a in_r in_f. ∥∥₁_elim k ⊥_prop λ m.
        let o = Covers-OwnPayload f c m in
        apart o.own ∣ o.listed ∣₁ a (narrow e r a place room in_r)
          (narrow o.own f a o.place o.room in_f))
      (Covers-Disjoint c d)

-- a byte of a request is one of its payload
pub Covers-in_payloads :
    {es rs : List Payload} (a : ℕ)
    → Covers es rs
    → in_payloads rs a ≡ true
    → in_payloads es a ≡ true
Covers-in_payloads {es} {rs} a c k =
    let (r, m, inside) = payload-at rs a k in
    let o = Covers-OwnPayload r c m in
    at-payload es a o.own o.listed (narrow o.own r a o.place o.room inside)
