-- ===== src/Pagemap/Splice.antt =====
-- An entry joins the list of pagemap.c or leaves it: its neighbours' links change, all others stay.
use uof_ufall.Base.{
  ◌≡◌, refl, true, false, Option, some, List, [], ◌∷◌, ◌++◌, arith, ◌∙◌, subst, sym, if◌then◌else◌,
}
use uof_ufall.Pagemap.{Slot, Mpage, same_slot, is_head}
use uof_ufall.Pagemap.Links
use uof_ufall.Pagemap.Links.{
  Linked, nil, cons, has_slot, has_slot-append, other_slot, same_slot-eq, same_slot_refl, last_slot,
  slot_after, head-mem, last_slot-mem, Around, around,
}

-- `g` is `e` with `prev` and `next` linked to each other; the links of `t` are unknown
pub record Joined (e g : Slot → Mpage) (t : Slot) (prev next : Option Slot) : Type 0 where
  pub nexts :
      (u : Slot)
      → same_slot u t ≡ false
      → (g u).next ≡ (if is_head u prev then next else (e u).next)
  pub prevs :
      (u : Slot)
      → same_slot u t ≡ false
      → (g u).prev ≡ (if is_head u next then prev else (e u).prev)

module _ {e g : Slot → Mpage} {t : Slot} {prev next : Option Slot}
    (j : Joined e g t prev next) where
  -- the part behind the joint
  pub relink :
      {before o : Option Slot} {ts : List Slot}
      → Linked e before o ts
      → o ≡ next
      → has_slot t ts ≡ false
      → ((u : Slot) → is_head u prev ≡ true → has_slot u ts ≡ false)
      → Linked g prev o ts
  unfolding is_head
  relink nil h out apart = nil
  relink (cons {t = u} {ts = us} o back c) h out apart =
      let n : (g u).next ≡ (e u).next =
        ground (arith, j.nexts u, apart u, same_slot-eq u t, same_slot-eq t u, same_slot_refl u) in
      let tail : has_slot t us ≡ false = ground arith in
      cons o (ground (arith, j.prevs u, same_slot-eq u t, same_slot-eq t u, same_slot_refl u)) (
        subst (λ z. Linked g (some u) z us) (sym n)
          (Links.frame c λ v k. (
            j.prevs v (other_slot v t us k tail) ∙ rw (← h, other_slot v u us k o) refl,
            j.nexts v (other_slot v t us k tail) ∙ ground (arith, apart v),
          )))

  -- the link behind an entry of the front part
  joint :
      (x : Slot) (us vs : List Slot)
      → has_slot x (us ++ t ∷ vs) ≡ false
      → last_slot (some x) us ≡ prev
      → (g x).next ≡ slot_after (e x).next next us
  unfolding last_slot slot_after is_head
  joint x [] vs o l = ground (arith, j.nexts x, same_slot_refl x)
  joint x (y ∷ us) vs o l =
      ground (arith, j.nexts x, has_slot-append x us (t ∷ vs), last_slot-mem x (some y) us)

  -- the whole list, without `t`
  pub splice :
      (us vs : List Slot) {before o : Option Slot}
      → Linked e before o (us ++ t ∷ vs)
      → last_slot before us ≡ prev
      → (e t).next ≡ next
      → ((u : Slot) → is_head u prev ≡ true → has_slot u vs ≡ false)
      → Linked g before (slot_after o next us) (us ++ vs)
  unfolding last_slot slot_after
  splice [] vs (cons out back c) l n apart = rw (l, ← n) (relink c n out apart)
  splice (x ∷ us) vs (cons out back c) l n apart =
      let r = around us c in
      let head : is_head x next ≡ false =
        ground (arith, has_slot-append x us (t ∷ vs), n, head-mem x r.behind) in
      cons (ground (arith, has_slot-append x us (t ∷ vs), has_slot-append x us vs))
        (ground (arith, j.prevs x, has_slot-append x us (t ∷ vs)))
        (subst (λ z. Linked g (some x) z (us ++ vs)) (sym (joint x us vs out l))
          (splice us vs c l n apart))
