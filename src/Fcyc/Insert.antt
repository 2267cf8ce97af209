-- ===== src/Fcyc/Insert.antt =====
-- The insertion sort of fcyc.c puts one value into a list in order.
use uof_ufall.Base.{
  take, Bool, leb, ◌&&◌, ◌-◌, ℕ, zero, suc, ◌+◌, ◌≤◌, ◌<◌, ◌≡◌, refl, false, List, [], ◌∷◌, ◌++◌,
  arith, if◌then◌else◌, ltb, Bool-cases, inl, inr, length, set, subst, sym, ap, ◌∙◌, All,
  length-append,
}
use mathlib.Core.List.{append_assoc}
use uof_ufall.Fcyc.{Scale, replicate, at, sink}

-- the reference: a value goes in front of the first one that is larger
unfoldable pub insert : ℕ → List ℕ → List ℕ
insert v [] = v ∷ []
insert v (x ∷ xs) = if ltb v x then v ∷ x ∷ xs else x ∷ insert v xs

-- the first `n` samples in order
unfoldable pub sorted_samples : (ℕ → ℕ) → ℕ → List ℕ
unfolding insert
sorted_samples reading zero = []
sorted_samples reading (suc n) = insert (reading n) (sorted_samples reading n)

abbrev pub InOrder : List ℕ → Type 0
InOrder [] = Unit
InOrder (x ∷ xs) = All (λ y. x ≤ y) xs × InOrder xs

insert-All : (b v : ℕ) (xs : List ℕ) → b ≤ v → All (λ y. b ≤ y) xs → All (λ y. b ≤ y) (insert v xs)
unfolding insert
insert-All b v [] le h = (le, tt)
insert-All b v (x ∷ xs) le h = elim (Bool-cases (ltb v x)) [
  | inl lt ↦ rw lt (le, h)
  | inr ge ↦ rw ge (h.0, insert-All b v xs le h.1)
]

lower-All : (a b : ℕ) (xs : List ℕ) → a ≤ b → All (λ y. b ≤ y) xs → All (λ y. a ≤ y) xs
lower-All a b [] le h = tt
lower-All a b (x ∷ xs) le h = (omega (arith, h.0), lower-All a b xs le h.1)

insert-InOrder : (v : ℕ) (xs : List ℕ) → InOrder xs → InOrder (insert v xs)
unfolding insert
insert-InOrder v [] h = (tt, tt)
insert-InOrder v (x ∷ xs) h = elim (Bool-cases (ltb v x)) [
  | inl lt ↦ let le : v ≤ x = ground arith in rw lt ((le, lower-All v x xs le h.0), h)
  | inr ge ↦
      let le : x ≤ v = ground arith in rw ge (insert-All x v xs le h.0, insert-InOrder v xs h.1)
]

pub sorted-next :
    (reading : ℕ → ℕ) (n : ℕ)
    → sorted_samples reading (n + 1) ≡ insert (reading n) (sorted_samples reading n)
unfolding sorted_samples
sorted-next reading n = let e : n + 1 ≡ suc n = omega arith in rw e refl

pub sorted-InOrder : (reading : ℕ → ℕ) (n : ℕ) → InOrder (sorted_samples reading n)
unfolding sorted_samples
sorted-InOrder reading zero = tt
sorted-InOrder reading (suc n) = insert-InOrder (reading n) _ (sorted-InOrder reading n)

pub length-insert : (v : ℕ) (xs : List ℕ) → length (insert v xs) ≡ suc (length xs)
unfolding insert
length-insert v [] = refl
length-insert v (x ∷ xs) = ground (arith, length-insert v xs)

pub length-sorted : (reading : ℕ → ℕ) (n : ℕ) → length (sorted_samples reading n) ≡ n
unfolding sorted_samples
length-sorted reading zero = refl
length-sorted reading (suc n) =
    omega (arith, length-insert (reading n) (sorted_samples reading n), length-sorted reading n)

-- a value below another one goes in front of that
pub insert-before :
    (v x : ℕ) (xs ys : List ℕ) → v < x → insert v (xs ++ x ∷ ys) ≡ insert v xs ++ x ∷ ys
unfolding insert
insert-before v x [] ys lt = ground arith
insert-before v x (y ∷ xs) ys lt = elim (Bool-cases (ltb v y)) [
  | inl low ↦ rw low refl
  | inr high ↦ rw high (ap (◌∷◌ y) (insert-before v x xs ys lt))
]

-- and a value that is not below it goes behind, where the list is in order
pub insert-behind :
    (v x : ℕ) (xs ys : List ℕ)
    → x ≤ v
    → InOrder (xs ++ x ∷ ys)
    → insert v (xs ++ x ∷ ys) ≡ xs ++ x ∷ insert v ys
unfolding insert
insert-behind v x [] ys le h = let e : ltb v x ≡ false = ground arith in rw e refl
insert-behind v x (y ∷ xs) ys le h =
    let e : ltb v y ≡ false = ground (arith, middle xs h.0) in
    rw e (ap (◌∷◌ y) (insert-behind v x xs ys le h.1))
  where
    middle : (zs : List ℕ) → All (λ z. y ≤ z) (zs ++ x ∷ ys) → y ≤ x
    middle [] a = a.0
    middle (z ∷ zs) a = middle zs a.1

pub at-middle :
    (n : ℕ) (xs : List ℕ) (v : ℕ) (ys : List ℕ) → length xs ≡ n → at (xs ++ v ∷ ys) n ≡ v
at-middle zero [] v ys e = refl
at-middle zero (x ∷ xs) v ys e = absurd (omega arith)
at-middle (suc n) [] v ys e = absurd (omega arith)
at-middle (suc n) (x ∷ xs) v ys e = at-middle n xs v ys (omega arith)

pub set-middle :
    (n : ℕ) (xs : List ℕ) (u v : ℕ) (ys : List ℕ)
    → length xs ≡ n
    → set (xs ++ u ∷ ys) n v ≡ xs ++ v ∷ ys
set-middle zero [] u v ys e = refl
set-middle zero (x ∷ xs) u v ys e = absurd (omega arith)
set-middle (suc n) [] u v ys e = absurd (omega arith)
set-middle (suc n) (x ∷ xs) u v ys e = ap (◌∷◌ x) (set-middle n xs u v ys (omega arith))

pub InOrder-front : (xs ys : List ℕ) → InOrder (xs ++ ys) → InOrder xs
InOrder-front [] ys h = tt
InOrder-front (x ∷ xs) ys h = (front xs h.0, InOrder-front xs ys h.1)
  where
    front : (zs : List ℕ) → All (λ z. x ≤ z) (zs ++ ys) → All (λ z. x ≤ z) zs
    front [] a = tt
    front (z ∷ zs) a = (a.0, front zs a.1)

-- the last of a list
pub record Last (xs : List ℕ) (n : ℕ) : Type 0 where
  pub init : List ℕ
  pub last : ℕ
  pub shape : xs ≡ init ++ last ∷ []
  pub rest : length init ≡ n

pub snoc-Last : (n : ℕ) (xs : List ℕ) → length xs ≡ suc n → Last xs n
snoc-Last n [] e = absurd (omega arith)
snoc-Last zero (x ∷ []) e = record { init = []; last = x; shape = refl; rest = refl }
snoc-Last zero (x ∷ y ∷ xs) e = absurd (omega arith)
snoc-Last (suc n) (x ∷ xs) e =
    let l = snoc-Last n xs (omega arith) in
    record {
      init = x ∷ l.init;
      last = l.last;
      shape = ap (◌∷◌ x) l.shape;
      rest = omega (arith, l.rest);
    }

-- one round of that loop
sink-step :
    (n : ℕ) (ys : List ℕ) (x v : ℕ) (rest : List ℕ)
    → length ys ≡ n
    → sink (suc n) (ys ++ x ∷ v ∷ rest)
      ≡ (if ltb v x then sink n (ys ++ v ∷ x ∷ rest) else ys ++ x ∷ v ∷ rest)
unfolding sink
sink-step n ys x v rest e =
    let all = ys ++ x ∷ v ∷ rest in
    let shift : all ≡ (ys ++ x ∷ []) ++ v ∷ rest = sym (append_assoc ys (x ∷ []) (v ∷ rest)) in
    let len : length (ys ++ x ∷ []) ≡ suc n = omega (arith, length-append ys (x ∷ []), e) in
    let upper : at all (suc n) ≡ v =
      ap (λ z. at z (suc n)) shift ∙ at-middle (suc n) (ys ++ x ∷ []) v rest len in
    let lower : at all n ≡ x = at-middle n ys x (v ∷ rest) e in
    let first : set all n v ≡ ys ++ v ∷ v ∷ rest = set-middle n ys x v (v ∷ rest) e in
    let len' : length (ys ++ v ∷ []) ≡ suc n = omega (arith, length-append ys (v ∷ []), e) in
    let second : set (ys ++ v ∷ v ∷ rest) (suc n) x ≡ ys ++ v ∷ x ∷ rest =
      ap (λ z. set z (suc n) x) (sym (append_assoc ys (v ∷ []) (v ∷ rest)))
      ∙ (set-middle (suc n) (ys ++ v ∷ []) v x rest len' ∙ append_assoc ys (v ∷ []) (x ∷ rest)) in
    rw (upper, lower, first, second) refl

-- the loop of the insertion sort inserts the value behind the first ones into them
pub sink-insert :
    (n v : ℕ) (xs rest : List ℕ)
    → length xs ≡ n
    → InOrder xs
    → sink n (xs ++ v ∷ rest) ≡ insert v xs ++ rest
unfolding sink insert
sink-insert zero v [] rest e h = refl
sink-insert zero v (x ∷ xs) rest e h = absurd (omega arith)
sink-insert (suc n) v xs rest e h =
    let l = snoc-Last n xs e in
    let ys = l.init in
    let x = l.last in
    let behind : xs ++ v ∷ rest ≡ ys ++ x ∷ v ∷ rest =
      ap (λ z. z ++ v ∷ rest) l.shape ∙ append_assoc ys (x ∷ []) (v ∷ rest) in
    let step = sink-step n ys x v rest l.rest in
    let order : InOrder (ys ++ x ∷ []) = subst InOrder l.shape h in
    rw (behind, step)
      (elim (Bool-cases (ltb v x)) [
        | inl lower ↦
            rw (lower, sink-insert n v ys (x ∷ rest) l.rest (InOrder-front ys (x ∷ []) order))
              (sym (append_assoc (insert v ys) (x ∷ []) rest)
                ∙ ap (λ z. z ++ rest)
                    (sym (insert-before v x ys [] (ground arith)) ∙ ap (insert v) (sym l.shape)))
        | inr settled ↦ rw settled (
            sym (append_assoc ys (x ∷ v ∷ []) rest)
            ∙ ap (λ z. z ++ rest)
                (sym (insert-behind v x ys [] (ground arith) order) ∙ ap (insert v) (sym l.shape)))
      ])

pub length-replicate : (n v : ℕ) → length (replicate n v) ≡ n
length-replicate zero v = refl
length-replicate (suc n) v = omega (arith, length-replicate n v)

pub at-take : (n : ℕ) (xs : List ℕ) (i : ℕ) → i < n → at (take n xs) i ≡ at xs i
at-take zero xs i h = absurd (omega arith)
at-take (suc n) [] i h = refl
at-take (suc n) (x ∷ xs) zero h = refl
at-take (suc n) (x ∷ xs) (suc i) h = at-take n xs i (omega arith)

-- whether the first `n` samples would do: there are `kbest`, and the last of the `kbest` least ones is
-- at most the product of 1 plus `epsilon` and the least
unfoldable pub converged : Scale → (kbest epsilon : ℕ) → (ℕ → ℕ) → ℕ → Bool
converged scale kbest epsilon reading n =
    leb kbest n
    && leb (at (sorted_samples reading n) (kbest - 1))
        (scale epsilon (at (sorted_samples reading n) 0))
