-- ===== src/Mm/Arena/Taken.antt =====
-- What giving pages back takes out of the page table and out of memory.
use uof_ufall.Base.{
  ℕ, ◌≡◌, Bool, true, false, none, if◌then◌else◌, ◌||◌, ◌∙◌, ap, Bool-cases, inl, inr, arith,
}
use uof_ufall.Machine.{State}
use uof_ufall.Pagemap.{Pagemap, pagemap_is_mapped}

-- The page table has lost the pages of the addresses in `gone` and is otherwise as before, and nothing
-- is mapped in memory at these addresses.
pub record Taken (gone : ℕ → Bool) (s t : State) : Type 0 where
  pub table :
      (q : ℕ)
      → pagemap_is_mapped q t.pagemap ≡ (if gone q then false else pagemap_is_mapped q s.pagemap)
  pub words : (a : ℕ) → gone a ≡ true → t.mem a ≡ none

-- what is not mapped stays so
abbrev pub StaysNone : State → State → Type 0
StaysNone s t = (a : ℕ) → s.mem a ≡ none → t.mem a ≡ none

pub Taken-then :
    {g h k : ℕ → Bool} {s u t : State}
    → Taken g s u
    → Taken h u t
    → StaysNone u t
    → ((a : ℕ) → k a ≡ (g a || h a))
    → Taken k s t
Taken-then {g} {h} first second stays same = record {
  table = λ q. second.table q ∙ ground (arith, first.table q, same q);
  words = λ a out. elim (Bool-cases (h a)) [
    | inl later ↦ second.words a later
    | inr earlier ↦ stays a (first.words a (ground (arith, same a)))
  ];
}

-- from a state with the same page table
pub Taken-from : {g : ℕ → Bool} {s u t : State} → u.pagemap ≡ s.pagemap → Taken g u t → Taken g s t
Taken-from {g} e taken = record {
  table = λ q. taken.table q ∙ ap (λ (m : Pagemap). if g q then false else pagemap_is_mapped q m) e;
  words = taken.words;
}

pub Taken-ext : {g k : ℕ → Bool} {s t : State} → Taken g s t → ((a : ℕ) → k a ≡ g a) → Taken k s t
Taken-ext {g} {k} taken same = record {
  table = λ q. taken.table q ∙ ground (arith, same q);
  words = λ a out. taken.words a (ground (arith, same a));
}
