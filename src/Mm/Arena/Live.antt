-- ===== src/Mm/Arena/Live.antt =====
-- The payloads in use: what mm.c's heap is for its clients, who see neither pages nor free blocks.
use uof_ufall.Base.{
  ℕ, ◌+◌, ◌-◌, ◌≤◌, ◌≡◌, ◌≢◌, refl, true, false, ◌∷◌, [], List, ◌++◌, arith, ap, ap₂, sym, subst,
  ◌∙◌, if◌then◌else◌, Bool-cases, inl, inr, leb,
}
use mathlib.Core.List.{append_assoc, Perm, perm_middle}
use native.Mathlib.Decide.{ℕ_discrete}
use uof_ufall.Machine.{Ptr, Memory}
use uof_ufall.Mm.Arena.Sweep.{is_full, is_full-shape, kept_pages}
use uof_ufall.Mm.Free.{left_of, left_size, right_of, right_size}
use uof_ufall.Mm.Heap.{Block, block, behind}
use uof_ufall.Mm.Heap.Split.{pieces}
use uof_ufall.Mm.Lists.Chain.{Chain, nil, cons, has}

-- a payload and the bytes its block has for it
pub record Payload : Type 0 where
  pub place : Ptr
  pub room : ℕ

abbrev pub payload : Ptr → ℕ → Payload
payload place room = record { place = place; room = room }

-- those of the used blocks from `p` on
abbrev of_block : Ptr → Block → List Payload
of_block p b = if b.used then payload (p + 16) (b.size - 32) ∷ [] else []

abbrev pub payloads : Ptr → List Block → List Payload
payloads p [] = []
payloads p (b ∷ bs) = of_block p b ++ payloads (p + b.size) bs

-- those of all pages
abbrev pub live : (Ptr → List Block) → List Ptr → List Payload
live blocks [] = []
live blocks (pc ∷ pages) = payloads (pc + 32) (blocks pc) ++ live blocks pages

payloads-append :
    (p : Ptr) (xs ys : List Block)
    → payloads p (xs ++ ys) ≡ payloads p xs ++ payloads (behind p xs) ys
payloads-append p [] ys = refl
payloads-append p (x ∷ xs) ys =
    ap (λ z. of_block p x ++ z) (payloads-append (p + x.size) xs ys)
    ∙ sym (append_assoc (of_block p x) _ _)

-- `full` is `rest` with one more payload somewhere
pub record Without (full rest : List Payload) (e : Payload) : Type 0 where
  pub front : List Payload
  pub back : List Payload
  pub with_it : full ≡ front ++ e ∷ back
  pub without_it : rest ≡ front ++ back

pub Without-Perm :
    {full rest : List Payload} {e : Payload} → Without full rest e → Perm full (e ∷ rest)
Without-Perm {full} {rest} {e} w =
    subst (λ z. Perm z (e ∷ rest)) (sym w.with_it)
      (subst (λ z. Perm (w.front ++ e ∷ w.back) (e ∷ z)) (sym w.without_it)
        (perm_middle w.front w.back))

Without-left :
    {full rest : List Payload} {e : Payload} (xs : List Payload)
    → Without full rest e
    → Without (xs ++ full) (xs ++ rest) e
Without-left {e} xs w = record {
  front = xs ++ w.front;
  back = w.back;
  with_it = ap (λ z. xs ++ z) w.with_it ∙ sym (append_assoc xs w.front (e ∷ w.back));
  without_it = ap (λ z. xs ++ z) w.without_it ∙ sym (append_assoc xs w.front w.back);
}

Without-right :
    {full rest : List Payload} {e : Payload} (ys : List Payload)
    → Without full rest e
    → Without (full ++ ys) (rest ++ ys) e
Without-right {e} ys w = record {
  front = w.front;
  back = w.back ++ ys;
  with_it = ap (λ z. z ++ ys) w.with_it ∙ append_assoc w.front (e ∷ w.back) ys;
  without_it = ap (λ z. z ++ ys) w.without_it ∙ append_assoc w.front w.back ys;
}

pub live-ext :
    (blocks blocks' : Ptr → List Block) (pages : List Ptr)
    → ((p : Ptr) → payloads (p + 32) (blocks p) ≡ payloads (p + 32) (blocks' p))
    → live blocks pages ≡ live blocks' pages
live-ext blocks blocks' [] same = refl
live-ext blocks blocks' (p ∷ pages) same =
    ap₂ (λ x y. x ++ y) (same p) (live-ext blocks blocks' pages same)

-- two maps that agree but for one page, which has one more payload in the first
module _ (blocks blocks' : Ptr → List Block) (pc : Ptr)
    (same : (p : Ptr) → p ≢ pc → blocks p ≡ blocks' p) where
  pub live-same : (pages : List Ptr) → has pc pages ≡ false → live blocks pages ≡ live blocks' pages
  live-same [] out = refl
  live-same (p ∷ pages) out =
      ap₂ (λ x y. payloads (p + 32) x ++ y) (same p (ground arith)) (live-same pages (ground arith))

  pub live-Without :
      {m : Memory} {before head : Ptr} {pages : List Ptr} {e : Payload}
      → Chain m before head pages
      → has pc pages ≡ true
      → Without (payloads (pc + 32) (blocks pc)) (payloads (pc + 32) (blocks' pc)) e
      → Without (live blocks pages) (live blocks' pages) e
  live-Without nil h w = cc
  live-Without {e = e} (cons {p} {xs = pages} el out back fwd c) h w = elim (ℕ_discrete p pc) [
    | yes i ↦
        let apart : has pc pages ≡ false = subst (λ z. has z pages ≡ false) i out in
        subst
          (λ z.
            Without (payloads (z + 32) (blocks z) ++ live blocks pages)
              (payloads (z + 32) (blocks' z) ++ live blocks' pages) e)
          (sym i)
          (subst
            (λ z.
              Without (payloads (pc + 32) (blocks pc) ++ live blocks pages)
                (payloads (pc + 32) (blocks' pc) ++ z) e)
            (live-same pages apart) (Without-right (live blocks pages) w))
    | no ne ↦
        subst
          (λ z.
            Without (payloads (p + 32) (blocks p) ++ live blocks pages)
              (payloads (p + 32) z ++ live blocks' pages) e)
          (same p ne)
          (Without-left (payloads (p + 32) (blocks p)) (live-Without c (ground (arith, ne)) w))
  ]

-- the room of the payload that a free block of `n` bytes gives to a request of `total` bytes
abbrev pub room_of : (n total : ℕ) → ℕ
room_of n total = if leb 64 (n - total) then total - 32 else n - 32

-- the pieces of a free block have one payload more
pieces-Without :
    (q n total : ℕ) (back : List Block)
    → total ≤ n
    → Without
        (payloads q (pieces n total ++ back))
        (payloads q (block n false ∷ back))
        (payload (q + 16) (room_of n total))
pieces-Without q n total back le = elim (Bool-cases (leb 64 (n - total))) [
  | inl cut ↦
      let e : q + total + (n - total) ≡ q + n = omega arith in
      rw cut (record {
        front = [];
        back = payloads (q + n) back;
        with_it = rw e refl;
        without_it = refl;
      })
  | inr whole ↦
      rw whole
        (record { front = []; back = payloads (q + n) back; with_it = refl; without_it = refl })
]

pub split-Without :
    (p : Ptr) (front : List Block) (n total : ℕ) (back : List Block)
    → total ≤ n
    → Without
        (payloads p (front ++ (pieces n total ++ back)))
        (payloads p (front ++ block n false ∷ back))
        (payload (behind p front + 16) (room_of n total))
split-Without p front n total back le =
    rw
      (
        payloads-append p front (pieces n total ++ back),
        payloads-append p front (block n false ∷ back),
      )
      (Without-left (payloads p front) (pieces-Without (behind p front) n total back le))

-- a freed block's neighbours have no payloads
left_of-payloads :
    (p : Ptr) (xs : List Block)
    → (payloads p (left_of xs) ≡ payloads p xs)
      × (behind p (left_of xs) + left_size xs ≡ behind p xs)
unfolding left_of left_size
left_of-payloads p [] = (refl, omega arith)
left_of-payloads p (x ∷ []) = elim (Bool-cases x.used) [
  | inl used ↦ rw used (refl, omega arith)
  | inr free ↦ rw free (refl, refl)
]
left_of-payloads p (x ∷ y ∷ xs) =
    let (e, f) = left_of-payloads (p + x.size) (y ∷ xs) in (ap (λ z. of_block p x ++ z) e, f)

right_of-payloads :
    (p : Ptr) (ys : List Block) → payloads (p + right_size ys) (right_of ys) ≡ payloads p ys
unfolding right_of right_size
right_of-payloads p [] = refl
right_of-payloads p (y ∷ ys) = elim (Bool-cases y.used) [
  | inl used ↦ let e : p + 0 ≡ p = omega arith in rw (used, e) refl
  | inr free ↦ rw free refl
]

-- the blocks that a free merges have the payloads of those before the merge
pub merged-payloads :
    (p : Ptr) (xs : List Block) (n : ℕ) (ys : List Block)
    → payloads p (left_of xs ++ block (left_size xs + n + right_size ys) false ∷ right_of ys)
      ≡ payloads p (xs ++ block n false ∷ ys)
merged-payloads p xs n ys =
    let (e, f) = left_of-payloads p xs in
    let place : behind p (left_of xs) + (left_size xs + n + right_size ys)
        ≡ behind p xs + n + right_size ys =
      omega (arith, f) in
    payloads-append p (left_of xs) _
    ∙ (ap₂ (λ x y. x ++ y) e
          (ap (λ z. payloads z (right_of ys)) place ∙ right_of-payloads (behind p xs + n) ys)
        ∙ sym (payloads-append p xs (block n false ∷ ys)))

-- freeing a block takes one payload away
pub freed-Without :
    (p : Ptr) (xs : List Block) (n : ℕ) (ys : List Block)
    → Without
        (payloads p (xs ++ block n true ∷ ys))
        (payloads p (left_of xs ++ block (left_size xs + n + right_size ys) false ∷ right_of ys))
        (payload (behind p xs + 16) (n - 32))
freed-Without p xs n ys = record {
  front = payloads p xs;
  back = payloads (behind p xs + n) ys;
  with_it = payloads-append p xs (block n true ∷ ys);
  without_it = merged-payloads p xs n ys ∙ payloads-append p xs (block n false ∷ ys);
}

-- pages of one free block have no payload
pub kept-live :
    (blocks : Ptr → List Block) (pages : List Ptr)
    → live blocks (kept_pages blocks pages) ≡ live blocks pages
unfolding kept_pages
kept-live blocks [] = refl
kept-live blocks (p ∷ pages) = elim (Bool-cases (is_full (blocks p))) [
  | inl full ↦
      let (n, shape) = is_full-shape (blocks p) full in rw (full, shape) (kept-live blocks pages)
  | inr open' ↦ rw open' (ap (λ z. payloads (p + 32) (blocks p) ++ z) (kept-live blocks pages))
]
