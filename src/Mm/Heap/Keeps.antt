-- ===== src/Mm/Heap/Keeps.antt =====
-- The bytes that an operation leaves alone, when a page is taken apart and put together.
use uof_ufall.Base.{ℕ, ◌+◌, ◌≤◌, ◌<◌, ◌≡◌, Bool, true, false, List, [], ◌∷◌, ◌++◌, ◌⊎◌}
use uof_ufall.Machine.{Ptr, State, Memory}
use uof_ufall.Mm.Blocks.Footer.{PageList}
use uof_ufall.Mm.Heap.{Block, Tiles, Spared, KeepsPage, behind}
use uof_ufall.Mm.Lists.Chain.{is_link}

-- the same for a page with a region taken out, which none of the bytes is in
pub record KeepsHole (s : State) (l : PageList) (pc : Ptr) (xs : List Block) (q n : ℕ)
    (ys : List Block) (fl : List Ptr) : Type 0 where
  pub kept : (a : ℕ) → l.keep a ≡ true → s.mem a ≡ l.from.mem a
  pub front : Spared l.keep (pc + 32) xs
  pub back : Spared l.keep (q + n) ys
  pub outside : (a : ℕ) → l.keep a ≡ true → (a < q) ⊎ (q + n ≤ a)
  pub unlinked : (a : ℕ) → l.keep a ≡ true → is_link a fl ≡ false

pub Spared-append :
    (keep : ℕ → Bool) (m : Memory) (p q : Ptr) (xs ys : List Block)
    → Tiles m p q xs
    → Spared keep p xs
    → Spared keep q ys
    → Spared keep p (xs ++ ys)
Spared-append keep m p q [] ys t f b = rw t b
Spared-append keep m p q (x ∷ xs) ys t f b =
    (f.0, Spared-append keep m (p + x.size) q xs ys t.1 f.1 b)

pub Spared-split :
    (keep : ℕ → Bool) (p : Ptr) (xs ys : List Block)
    → Spared keep p (xs ++ ys)
    → Spared keep p xs × Spared keep (behind p xs) ys
Spared-split keep p [] ys h = (tt, h)
Spared-split keep p (x ∷ xs) ys h =
    let (f, b) = Spared-split keep (p + x.size) xs ys h.1 in ((h.0, f), b)

Spared-none : (p : Ptr) (bs : List Block) → Spared (λ a. false) p bs
Spared-none p [] = tt
Spared-none p (b ∷ bs) = (λ u a k. cc k, Spared-none (p + b.size) bs)

-- nothing is kept
pub KeepsPage-none :
    {s from : State} {ends : Ptr → Ptr} {pages : List Ptr} (pc : Ptr) (bs : List Block)
    {free fl : List Ptr}
    → KeepsPage s
        (record { ends = ends; pages = pages; from = from; free = free; keep = λ a. false })
        pc
        bs
        fl
KeepsPage-none pc bs = record {
  kept = λ a k. cc k;
  spared = Spared-none (pc + 32) bs;
  unlinked = λ a k. cc k;
}

pub KeepsHole-none :
    {s from : State} {ends : Ptr → Ptr} {pages : List Ptr} (pc : Ptr) (xs : List Block) (q n : ℕ)
    (ys : List Block) {free fl : List Ptr}
    → KeepsHole s
        (record { ends = ends; pages = pages; from = from; free = free; keep = λ a. false })
        pc
        xs
        q
        n
        ys
        fl
KeepsHole-none pc xs q n ys = record {
  kept = λ a k. cc k;
  front = Spared-none (pc + 32) xs;
  back = Spared-none (q + n) ys;
  outside = λ a k. cc k;
  unlinked = λ a k. cc k;
}
