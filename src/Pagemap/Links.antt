-- ===== src/Pagemap/Links.antt =====
-- The doubly linked list that pagemap.c keeps of the entries of mapped pages.
use uof_ufall.Base.{
  Bool-cases, inl, inr, ◌≡◌, refl, Bool, true, false, ◌||◌, Option, none, some, List, [], ◌∷◌, ◌++◌,
  arith, ap, ◌∙◌, subst, sym,
}
use uof_ufall.Pagemap.{Slot, Mpage, same_slot, is_head}

pub same_slot_refl : (t : Slot) → same_slot t t ≡ true
unfolding same_slot
same_slot_refl t = ground arith

pub same_slot-eq : (t u : Slot) → same_slot t u ≡ true → t ≡ u
unfolding same_slot
same_slot-eq t u h = ground arith

abbrev pub has_slot : Slot → List Slot → Bool
has_slot t [] = false
has_slot t (u ∷ us) = same_slot t u || has_slot t us

pub other_slot :
    (t u : Slot) (us : List Slot)
    → has_slot t us ≡ true
    → has_slot u us ≡ false
    → same_slot t u ≡ false
other_slot t u us h o = elim (Bool-cases (same_slot t u)) [
  | inl e ↦ cc (h, o, same_slot-eq t u e)
  | inr n ↦ n
]

pub has_slot-append :
    (t : Slot) (us vs : List Slot) → has_slot t (us ++ vs) ≡ (has_slot t us || has_slot t vs)
has_slot-append t [] vs = refl
has_slot-append t (u ∷ us) vs = ground (arith, has_slot-append t us vs)

-- from `o` the links lead through the entries `ts` to the end; `before` stands before `o`
pub data Linked (e : Slot → Mpage) : Option Slot → Option Slot → List Slot → Type 0 where
  nil : {before : Option Slot} → Linked e before none []
  cons :
      {before : Option Slot} {t : Slot} {ts : List Slot}
      → has_slot t ts ≡ false
      → (e t).prev ≡ before
      → Linked e (some t) (e t).next ts
      → Linked e before (some t) (t ∷ ts)

-- only the links of the entries of the list matter
pub frame :
    {e g : Slot → Mpage} {before o : Option Slot} {ts : List Slot}
    → Linked e before o ts
    → ((t : Slot) → has_slot t ts ≡ true → ((g t).prev ≡ (e t).prev) × ((g t).next ≡ (e t).next))
    → Linked g before o ts
frame nil same = nil
frame {g} (cons {before} {t} {ts} out back c) same =
    let (p, n) = same t (ground (arith, same_slot_refl t)) in
    cons out (p ∙ back)
      (subst (λ z. Linked g (some t) z ts) (sym n) (frame c λ u h. same u (ground arith)))

-- the first entry of the list, as the list's head has it
pub head-mem :
    {e : Slot → Mpage} {before o : Option Slot} {ts : List Slot} (u : Slot)
    → Linked e before o ts
    → is_head u o ≡ true
    → has_slot u ts ≡ true
unfolding is_head
head-mem u nil h = cc
head-mem u (cons out back c) h = ground arith

unfoldable pub last_slot : Option Slot → List Slot → Option Slot
last_slot before [] = before
last_slot before (t ∷ ts) = last_slot (some t) ts

-- where the list starts after an entry has gone from behind `ts`
unfoldable pub slot_after : Option Slot → Option Slot → List Slot → Option Slot
slot_after o next [] = next
slot_after o next (t ∷ ts) = o

pub last_slot-mem :
    (u : Slot) (before : Option Slot) (ts : List Slot)
    → is_head u (last_slot before ts) ≡ true
    → (is_head u before || has_slot u ts) ≡ true
unfolding is_head last_slot
last_slot-mem u before [] h = ground arith
last_slot-mem u before (t ∷ ts) h = ground (arith, last_slot-mem u (some t) ts h)

-- what the parts of the list around an entry know of it
pub record Around (e : Slot → Mpage) (before : Option Slot) (t : Slot) (us vs : List Slot)
    : Type 0 where
  pub back : (e t).prev ≡ last_slot before us
  pub behind : Linked e (some t) (e t).next vs
  pub out : has_slot t us ≡ false
  pub out' : has_slot t vs ≡ false
  -- the entry before it is not behind it
  pub apart : (u : Slot) → has_slot u us ≡ true → has_slot u vs ≡ false

pub around :
    (us : List Slot) {e : Slot → Mpage} {before o : Option Slot} {t : Slot} {vs : List Slot}
    → Linked e before o (us ++ t ∷ vs)
    → Around e before t us vs
unfolding last_slot
around [] (cons out back c) = record {
  back = back;
  behind = c;
  out = refl;
  out' = out;
  apart = λ u h. cc;
}
around (x ∷ us) {e} {before} {o} {t} {vs} (cons out back c) =
    let r = around us c in
    record {
      back = r.back;
      behind = r.behind;
      out =
          ground (arith, has_slot-append x us (t ∷ vs), r.out, same_slot-eq t x, same_slot_refl x);
      out' = r.out';
      apart = λ u h. ground (arith, has_slot-append x us (t ∷ vs), r.apart u, same_slot-eq u x);
    }

-- an entry splits the list
pub slot-split :
    (t : Slot) (ts : List Slot)
    → has_slot t ts ≡ true
    → (us : List Slot) × (vs : List Slot) × (ts ≡ us ++ t ∷ vs)
slot-split t [] h = cc
slot-split t (u ∷ ts) h = elim (Bool-cases (same_slot t u)) [
  | inl same ↦ ([], ts, ap (λ x. x ∷ ts) (sym (same_slot-eq t u same)))
  | inr other ↦ let (us, vs, e) = slot-split t ts (ground arith) in (u ∷ us, vs, ap (◌∷◌ u) e)
]
