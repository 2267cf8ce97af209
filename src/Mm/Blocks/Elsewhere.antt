-- ===== src/Mm/Blocks/Elsewhere.antt =====
-- What mm.c's operations inside of one page leave alone outside of its body.
use uof_ufall.Base.{ℕ, ◌≤◌, ◌<◌, ◌≡◌, refl, false, List, ◌∙◌, ap, ◌⊎◌}
use uof_ufall.Machine.{Ptr, State}
use uof_ufall.Mm.Lists.Chain.{has, is_link}

abbrev pub Outside : ℕ → Ptr → Ptr → Type 0
Outside a lo hi = (a < lo) ⊎ (hi ≤ a)

-- `t` is `s` but for its memory and the head of the free list.
abbrev pub SameRest : State → State → Type 0
SameRest s t = t ≡ record s { mem = t.mem; free_list_head = t.free_list_head }

pub SameRest-trans : (s t u : State) → SameRest s t → SameRest t u → SameRest s u
SameRest-trans s t u e e' =
    e' ∙ ap (λ (v : State). record v { mem = u.mem; free_list_head = u.free_list_head }) e

-- Compared with the state `from` and its free list `free`, the memory of `s` differs outside of the
-- body from `lo` to `hi` in links at most, its free list `fl` has the same blocks there, and its
-- other variables are the same.
pub record Elsewhere (from : State) (free : List Ptr) (lo hi : Ptr) (s : State) (fl : List Ptr)
    : Type 0 where
  pub same : (a : ℕ) → Outside a lo hi → is_link a free ≡ false → s.mem a ≡ from.mem a
  pub members : (a : ℕ) → Outside a lo hi → has a fl ≡ has a free
  pub links : (a : ℕ) → Outside a lo hi → is_link a fl ≡ is_link a free
  pub rest : SameRest from s

pub Elsewhere-refl : (s : State) (fl : List Ptr) (lo hi : Ptr) → Elsewhere s fl lo hi s fl
Elsewhere-refl s fl lo hi = record {
  same = λ a o i. refl;
  members = λ a o. refl;
  links = λ a o. refl;
  rest = refl;
}

module _ {from s : State} {free fl : List Ptr} {lo hi : Ptr} (e : Elsewhere from free lo hi s fl)
    (t : State) where
  -- a change inside of the body
  pub Elsewhere-write :
      ((a : ℕ) → Outside a lo hi → t.mem a ≡ s.mem a)
      → SameRest s t
      → Elsewhere from free lo hi t fl
  Elsewhere-write same rest = record {
    same = λ a o i. same a o ∙ e.same a o i;
    members = e.members;
    links = e.links;
    rest = SameRest-trans from s t e.rest rest;
  }

  -- a change of links, and of the list inside of the body
  pub Elsewhere-relist :
      (touched gl : List Ptr)
      → ((a : ℕ) → is_link a touched ≡ false → t.mem a ≡ s.mem a)
      → ((a : ℕ) → Outside a lo hi → is_link a touched ≡ is_link a fl)
      → ((a : ℕ) → Outside a lo hi → has a gl ≡ has a fl)
      → ((a : ℕ) → Outside a lo hi → is_link a gl ≡ is_link a fl)
      → SameRest s t
      → Elsewhere from free lo hi t gl
  Elsewhere-relist touched gl same touch mem links rest = record {
    same = λ a o i. same a (touch a o ∙ (e.links a o ∙ i)) ∙ e.same a o i;
    members = λ a o. mem a o ∙ e.members a o;
    links = λ a o. links a o ∙ e.links a o;
    rest = SameRest-trans from s t e.rest rest;
  }
