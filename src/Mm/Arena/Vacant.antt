-- ===== src/Mm/Arena/Vacant.antt =====
-- A region that covers nothing mapped lies outside of every page of the heap.
use uof_ufall.Base.{
  ℕ, suc, ◌+◌, ◌≤◌, ◌<◌, ◌≡◌, ◌⊎◌, refl, true, false, some, ◌∷◌, [], List, arith, inl, inr,
  if◌then◌else◌, ◌==◌, leb, ltb, Bool-cases, length, ◌∙◌,
}
use uof_ufall.Machine.{Ptr, State}
use uof_ufall.Memlib.Map.{Vacant}
use uof_ufall.Mm.Arena.{view, Region, HeapInv}
use uof_ufall.Mm.Blocks.Footer.{PageAt}
use uof_ufall.Mm.Heap.{Block, PageInv}
use uof_ufall.Mm.Heap.Page.{Chain-mapped}
use uof_ufall.Mm.Lists.Chain.{has, is_link}
use uof_ufall.Mm.Lists.Chunk.{Pages, is_page_word, first_page}

-- the ends of the pages with a new page
abbrev pub put_end : (Ptr → Ptr) → Ptr → Ptr → Ptr → Ptr
put_end ends pc end p = if p == pc then end else ends p

-- the page whose header has a word
pub record PageOf (a : ℕ) (pages : List Ptr) : Type 0 where
  pub page : Ptr
  pub listed : has page pages ≡ true
  pub low : page ≤ a
  pub high : a < page + 32

pub page_word-page : (a : ℕ) (pages : List Ptr) → is_page_word a pages ≡ true → PageOf a pages
page_word-page a [] h = cc
page_word-page a (p ∷ pages) h = elim (Bool-cases (is_page_word a pages)) [
  | inl later ↦
      let r = page_word-page a pages later in
      record { page = r.page; listed = ground (arith, r.listed); low = r.low; high = r.high }
  | inr here ↦ record { page = p; listed = ground arith; low = ground arith; high = ground arith }
]

first_page-ends :
    (ends ends' : Ptr → Ptr) (a : ℕ) (xs : List Ptr)
    → ((p : Ptr) → has p xs ≡ true → ends' p ≡ ends p)
    → first_page ends' a xs ≡ first_page ends a xs
unfolding first_page
first_page-ends ends ends' a [] same = refl
first_page-ends ends ends' a (x ∷ xs) same =
    let rest = first_page-ends ends ends' a xs λ p h. same p (ground arith) in
    ground (arith, rest, same x)

module _ {s : State} {fuel : ℕ} {ends : Ptr → Ptr} {pages : List Ptr} {blocks : Ptr → List Block}
    {fl : List Ptr} (i : HeapInv s fuel ends pages blocks fl) (pc size : ℕ)
    (vacant : Vacant pc size s.mem) where
  -- what is mapped is not in the region
  pub outside_vacant : (a v : ℕ) → s.mem a ≡ some v → pc ≤ a → a < pc + size → ⊥
  outside_vacant a v e low high = cc (e, vacant a low high)

  pub outside_pages : (p : Ptr) → has p pages ≡ true → 0 < size → ((ends p ≤ pc) ⊎ (pc + size ≤ p))
  outside_pages p h large =
      let mapped = PageInv.mapped (i.page p h) in
      let below = Region.below (i.region p h) in
      elim (Bool-cases (leb p pc)) [
        | inl before ↦ elim (Bool-cases (ltb pc (ends p))) [
          | inl hit ↦
              let (v, e) = mapped pc (ground arith) (ground arith) in
              absurd (outside_vacant pc v e (omega arith) (omega arith))
          | inr miss ↦ inl (ground arith)
        ]
        | inr after ↦ elim (Bool-cases (ltb p (pc + size))) [
          | inl hit ↦
              let (v, e) = mapped p (omega arith) (omega arith) in
              absurd (outside_vacant p v e (ground arith) (ground arith))
          | inr miss ↦ inr (ground arith)
        ]
      ]

  pub fresh : 0 < size → has pc pages ≡ false
  fresh large = elim (Bool-cases (has pc pages)) [
    | inl h ↦
        let below = Region.below (i.region pc h) in absurd (ground (arith, outside_pages pc h))
    | inr h ↦ h
  ]

  pub outside_words :
      (a : ℕ) → is_page_word a pages ≡ true → 0 < size → ((a < pc) ⊎ (pc + size ≤ a))
  outside_words a h large =
      let k = page_word-page a pages h in
      let below = Region.below (i.region k.page k.listed) in
      let low = k.low in
      let high = k.high in
      elim (outside_pages k.page k.listed large) [
        | inl f ↦ inl (omega arith)
        | inr g ↦ inr (omega arith)
      ]

  pub outside_links : (a : ℕ) → is_link a fl ≡ true → pc ≤ a → a < pc + size → ⊥
  outside_links a h low high =
      let (v, e) = Chain-mapped a i.chain h in outside_vacant a v e low high

  pub other_end :
      (p : Ptr) (end : Ptr) → 0 < size → has p pages ≡ true → put_end ends pc end p ≡ ends p
  other_end p end large h = ground (arith, fresh large)

  module _ (t from : State) (large : 32 < size) (pos : 0 < pc) (enough : suc (length pages) < fuel)
      (listed : Pages t.mem (put_end ends pc (pc + size)) t.page_list_head (pc ∷ pages)) where
    -- the new page on the new list
    pub new-PageAt :
        PageAt t fuel (view from (put_end ends pc (pc + size)) (pc ∷ pages) fl) pc (pc + size)
    unfolding first_page
    new-PageAt = record {
      listed = listed;
      enough = enough;
      ne_null = pos;
      page_end = let e = Pages.ends_at listed in ground (arith, e.0);
      word = ground arith;
      found = λ a low high. ground arith;
      apart = λ a low high. ground (arith, outside_words a);
    }

    -- a page that was there before
    pub old-PageAt :
        (p : Ptr)
        → has p pages ≡ true
        → t.mem (p + 24) ≡ s.mem (p + 24)
        → PageAt t fuel (view from (put_end ends pc (pc + size)) (pc ∷ pages) fl) p (ends p)
    unfolding first_page
    old-PageAt p h same =
        let old = PageInv.here (i.page p h) in
        let out = outside_pages p h (omega arith) in
        record {
          listed = listed;
          enough = enough;
          ne_null = old.ne_null;
          page_end = same ∙ old.page_end;
          word = ground (arith, old.word);
          found = λ a low high. ground (
            arith,
            old.found a,
            first_page-ends ends (put_end ends pc (pc + size)) a pages
                λ q m. other_end q _ (omega arith) m,
          );
          apart = λ a low high. ground (arith, old.apart a);
        }
