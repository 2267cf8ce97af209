-- ===== src/Mm/Lists/Chunk.antt =====
-- `find_page_chunk_for_addr` of mm.c, and the page list that it walks.
use uof_ufall.Base.{
  ℕ, zero, suc, ◌+◌, ◌<◌, ◌≡◌, refl, Bool, true, false, ◌&&◌, ◌||◌, some, List, [], ◌∷◌, arith,
  ◌==◌, if◌then◌else◌, leb, ltb, length, All, Bool-cases, inl, inr, ne→==, ◌⊎◌, subst, sym,
}
use uof_ufall.Machine.{Ptr, null, State, Memory, ok}
use uof_ufall.Machine.Words.{load-ok}
use uof_ufall.Mm.Lists.{find_page_loop, find_page_chunk_for_addr}
use uof_ufall.Mm.Lists.Chain
use uof_ufall.Mm.Lists.Chain.{Chain, Element, has, is_link, nil, cons}

-- `h` lies behind the page's header and before its end
abbrev pub in_page : (Ptr → Ptr) → Ptr → Ptr → Bool
in_page ends h pc = leb (pc + 32) h && ltb h (ends pc)

-- the first page on the list that holds `h`
unfoldable pub first_page : (Ptr → Ptr) → Ptr → List Ptr → Ptr
first_page ends h [] = null
first_page ends h (pc ∷ xs) = if in_page ends h pc then pc else first_page ends h xs

-- one of the four words of a page's header
abbrev pub is_page_word : ℕ → List Ptr → Bool
is_page_word a [] = false
is_page_word a (p ∷ xs) =
    (a == p) || ((a == p + 8) || ((a == p + 16) || ((a == p + 24) || is_page_word a xs)))

-- the page list from `head`, each page with the end that its header states
pub record Pages (m : Memory) (ends : Ptr → Ptr) (head : Ptr) (xs : List Ptr) : Type 0 where
  pub chain : Chain m null head xs
  pub ends_at : All (λ pc. m (pc + 24) ≡ some (ends pc)) xs

pub link-page_word : (a : ℕ) (xs : List Ptr) → is_link a xs ≡ true → is_page_word a xs ≡ true
link-page_word a [] h = h
link-page_word a (p ∷ xs) h = ground (arith, link-page_word a xs)

All-frame :
    {m g : Memory} (ends : Ptr → Ptr) (xs : List Ptr)
    → All (λ pc. m (pc + 24) ≡ some (ends pc)) xs
    → ((a : ℕ) → is_page_word a xs ≡ true → g a ≡ m a)
    → All (λ pc. g (pc + 24) ≡ some (ends pc)) xs
All-frame ends [] h same = tt
All-frame ends (p ∷ xs) h same =
    (ground (arith, same (p + 24)), All-frame ends xs h.1 λ a w. same a (ground arith))

-- a change outside the headers keeps the page list
pub Pages-frame :
    {m g : Memory} {ends : Ptr → Ptr} {head : Ptr} {xs : List Ptr}
    → Pages m ends head xs
    → ((a : ℕ) → is_page_word a xs ≡ true → g a ≡ m a)
    → Pages g ends head xs
Pages-frame {ends} {xs} p same = record {
  chain = Chain.frame p.chain λ a i. same a (link-page_word a xs i);
  ends_at = All-frame ends xs p.ends_at same;
}

loop-first_page :
    (s : State) (ends : Ptr → Ptr) (h : Ptr) (fuel : ℕ) {before p : Ptr} {xs : List Ptr}
    → Chain s.mem before p xs
    → All (λ pc. s.mem (pc + 24) ≡ some (ends pc)) xs
    → length xs < fuel
    → find_page_loop fuel h p s ≡ ok (first_page ends h xs) s
unfolding find_page_loop first_page
loop-first_page s ends h zero c e enough = absurd (omega arith)
loop-first_page s ends h (suc fuel) nil e enough = refl
loop-first_page s ends h (suc fuel) (cons {p} {q} {xs} el out back fwd c) e enough =
    rw (ne→== p null el.ne_null, load-ok s (p + 24) e.0)
      (elim (Bool-cases (leb (p + 32) h && ltb h (ends p))) [
        | inl found ↦ rw found refl
        | inr missed ↦
            rw (missed, load-ok s (p + 8) fwd) (loop-first_page s ends h fuel c e.1 (omega arith))
      ])

pub find_page-first_page :
    (s : State) (ends : Ptr → Ptr) (h : Ptr) (fuel : ℕ) (xs : List Ptr)
    → Pages s.mem ends s.page_list_head xs
    → length xs < fuel
    → find_page_chunk_for_addr fuel h s ≡ ok (first_page ends h xs) s
unfolding find_page_chunk_for_addr
find_page-first_page s ends h fuel xs p enough =
    loop-first_page s ends h fuel p.chain p.ends_at enough

-- What a search of the page list may return: null if no page holds `h`, else a page that does.
abbrev pub Found : (Ptr → Ptr) → Ptr → List Ptr → Ptr → Type 0
Found ends h xs pc =
    ((pc ≡ null) × All (λ q. in_page ends h q ≡ false) xs)
    ⊎ ((has pc xs ≡ true) × (in_page ends h pc ≡ true))

Found-cons :
    (ends : Ptr → Ptr) (h p pc : Ptr) (xs : List Ptr)
    → in_page ends h p ≡ false
    → Found ends h xs pc
    → Found ends h (p ∷ xs) pc
Found-cons ends h p pc xs miss (inl (e, all)) = inl (e, (miss, all))
Found-cons ends h p pc xs miss (inr (mem, hit)) = inr (ground arith, hit)

first_page_hit :
    (ends : Ptr → Ptr) (h p : Ptr) (xs : List Ptr)
    → in_page ends h p ≡ true
    → first_page ends h (p ∷ xs) ≡ p
unfolding first_page
first_page_hit ends h p xs hit = ground arith

first_page_miss :
    (ends : Ptr → Ptr) (h p : Ptr) (xs : List Ptr)
    → in_page ends h p ≡ false
    → first_page ends h (p ∷ xs) ≡ first_page ends h xs
unfolding first_page
first_page_miss ends h p xs miss = ground arith

first_page-Found :
    (ends : Ptr → Ptr) (h : Ptr) (xs : List Ptr) → Found ends h xs (first_page ends h xs)
unfolding first_page
first_page-Found ends h [] = inl (refl, tt)
first_page-Found ends h (p ∷ xs) = elim (Bool-cases (in_page ends h p)) [
  | inl hit ↦
      subst (Found ends h (p ∷ xs)) (sym (first_page_hit ends h p xs hit)) (inr (ground arith, hit))
  | inr miss ↦
      subst (Found ends h (p ∷ xs)) (sym (first_page_miss ends h p xs miss))
        (Found-cons ends h p _ xs miss (first_page-Found ends h xs))
]

-- With fuel beyond the number of pages, `find_page_chunk_for_addr` ends and changes nothing; it
-- returns a page of the list whose body holds the address, or null if no page's body does.
pub find_page-Found :
    (s : State) (ends : Ptr → Ptr) (h : Ptr) (fuel : ℕ) (xs : List Ptr)
    → Pages s.mem ends s.page_list_head xs
    → length xs < fuel
    → (pc : Ptr) × (find_page_chunk_for_addr fuel h s ≡ ok pc s) × Found ends h xs pc
find_page-Found s ends h fuel xs p enough =
    (_, find_page-first_page s ends h fuel xs p enough, first_page-Found ends h xs)
