-- ===== src/Fcyc/Best.antt =====
-- fcyc.c keeps the least of its samples: its array next to a sorted list of all samples.
use uof_ufall.Base.{
  ℕ, ◌+◌, ◌-◌, ◌≤◌, ◌<◌, ◌≡◌, refl, true, false, List, [], ◌∷◌, ◌++◌, arith, ◌⊎◌, ltb, leb,
  Bool-cases, inl, inr, length, set, subst, sym, ap, ◌∙◌, take, take_front, take_all, length-append,
}
use mathlib.Core.List.{append_assoc, append-nil}
use uof_ufall.Fcyc.{
  Scale, zero_rank, Sampler, replicate, at, init_sampler, add_sample, sink, has_converged,
}
use uof_ufall.Fcyc.Insert.{
  insert, sorted_samples, InOrder, sorted-next, sorted-InOrder, length-insert, length-sorted,
  insert-before, insert-behind, at-middle, set-middle, InOrder-front, Last, snoc-Last, sink-insert,
  length-replicate, at-take, converged,
}

-- The values start with the first of the sorted samples: all of them, or as many as there is room for.
pub record Best (reading : ℕ → ℕ) (s : Sampler) : Type 0 where
  pub some_kept : 0 < s.kbest
  room : length s.values ≡ s.kbest
  front : List ℕ
  more : List ℕ
  rest : List ℕ
  sorted : sorted_samples reading s.samplecount ≡ front ++ more
  values : s.values ≡ front ++ rest
  full : (more ≡ []) ⊎ (rest ≡ [])

rest-cases : (xs : List ℕ) → ((x : ℕ) × ((ys : List ℕ) × (xs ≡ x ∷ ys))) ⊎ (xs ≡ [])
rest-cases [] = inr refl
rest-cases (x ∷ xs) = inl (x, (xs, refl))

module _ (reading : ℕ → ℕ) (s : Sampler) (b : Best reading s) where
  order : InOrder (b.front ++ b.more)
  order = subst InOrder b.sorted (sorted-InOrder reading s.samplecount)

  counted : length b.front + length b.more ≡ s.samplecount
  counted =
      omega (
        arith,
        length-append b.front b.more,
        ap length b.sorted,
        length-sorted reading s.samplecount,
      )

  placed : length b.front + length b.rest ≡ s.kbest
  placed = omega (arith, length-append b.front b.rest, ap length b.values, b.room)

  add_sample-filling :
      s.samplecount < s.kbest
      → b.more ≡ []
      → (r : ℕ) (rs : List ℕ) → b.rest ≡ r ∷ rs
      → Best reading (add_sample (reading s.samplecount) s)
  unfolding add_sample sorted_samples
  add_sample-filling below none r rs e =
      let val = reading s.samplecount in
      let S : sorted_samples reading s.samplecount ≡ b.front =
        b.sorted ∙ (ap (λ z. b.front ++ z) none ∙ append-nil b.front) in
      let len : length b.front ≡ s.samplecount = omega (arith, counted, ap length none) in
      let has_room : ltb s.samplecount s.kbest ≡ true = ground arith in
      let held : s.values ≡ b.front ++ r ∷ rs = b.values ∙ ap (λ z. b.front ++ z) e in
      let written : set s.values s.samplecount val ≡ b.front ++ val ∷ rs =
        ap (λ z. set z s.samplecount val) held ∙ set-middle s.samplecount b.front r val rs len in
      let sunk =
        sink-insert s.samplecount val b.front rs len (InOrder-front b.front b.more order) in
      rw (has_room, written, sunk)
        (record {
          some_kept = b.some_kept;
          room = omega (
            arith,
            length-append (insert val b.front) rs,
            length-insert val b.front,
            placed,
            ap length e,
          );
          front = insert val b.front;
          more = [];
          rest = rs;
          sorted =
              sorted-next reading s.samplecount
              ∙ (ap (insert val) S ∙ sym (append-nil (insert val b.front)));
          values = refl;
          full = inl refl;
        })

  add_sample-full :
      s.kbest ≤ s.samplecount
      → b.rest ≡ []
      → Last b.front (s.kbest - 1)
      → Best reading (add_sample (reading s.samplecount) s)
  unfolding add_sample sorted_samples sink
  add_sample-full above none l =
      let val = reading s.samplecount in
      let pos = b.some_kept in
      let no_room : ltb s.samplecount s.kbest ≡ false = ground arith in
      let len : length b.front ≡ s.kbest = omega (arith, placed, ap length none) in
      let held : s.values ≡ l.init ++ l.last ∷ [] =
        b.values ∙ (ap (λ z. b.front ++ z) none ∙ (append-nil b.front ∙ l.shape)) in
      let top : at s.values (s.kbest - 1) ≡ l.last =
        ap (λ z. at z (s.kbest - 1)) held ∙ at-middle (s.kbest - 1) l.init l.last [] l.rest in
      let split : sorted_samples reading s.samplecount ≡ l.init ++ l.last ∷ b.more =
        b.sorted ∙ (ap (λ z. z ++ b.more) l.shape ∙ append_assoc l.init (l.last ∷ []) b.more) in
      let in_order : InOrder (l.init ++ l.last ∷ b.more) =
        subst InOrder split (sorted-InOrder reading s.samplecount) in
      elim (Bool-cases (ltb val l.last)) [
        | inl lower ↦
            let written : set s.values (s.kbest - 1) val ≡ l.init ++ val ∷ [] =
              ap (λ z. set z (s.kbest - 1) val) held
              ∙ set-middle (s.kbest - 1) l.init l.last val [] l.rest in
            let sunk =
              sink-insert (s.kbest - 1) val l.init [] l.rest
                (InOrder-front l.init (l.last ∷ b.more) in_order) in
            rw (no_room, top, lower, written, sunk)
              (record {
                some_kept = b.some_kept;
                room =
                    omega (
                      arith,
                      length-append (insert val l.init) [],
                      length-insert val l.init,
                      l.rest,
                    );
                front = insert val l.init;
                more = l.last ∷ b.more;
                rest = [];
                sorted =
                    sorted-next reading s.samplecount
                    ∙ ap (insert val) split
                    ∙ insert-before val l.last l.init b.more (ground arith);
                values = refl;
                full = inr refl;
              })
        | inr settled ↦
            rw (no_room, top, settled)
              (record {
                some_kept = b.some_kept;
                room = b.room;
                front = l.init ++ l.last ∷ [];
                more = insert val b.more;
                rest = [];
                sorted =
                    sorted-next reading s.samplecount
                    ∙ ap (insert val) split
                    ∙ (insert-behind val l.last l.init b.more (ground arith) in_order
                        ∙ sym (append_assoc l.init (l.last ∷ []) (insert val b.more)));
                values = held ∙ sym (append-nil (l.init ++ l.last ∷ []));
                full = inr refl;
              })
      ]

  -- where the array is not full, all samples are in it
  pub add_sample-Best : Best reading (add_sample (reading s.samplecount) s)
  add_sample-Best = elim (Bool-cases (ltb s.samplecount s.kbest)) [
    | inl below ↦ elim b.full [
      | inl none ↦ elim (rest-cases b.rest) [
        | inl (r, (rs, e)) ↦ add_sample-filling (ground arith) none r rs e
        | inr empty ↦ absurd (ground (arith, placed, counted, ap length none, ap length empty))
      ]
      | inr none ↦ absurd (ground (arith, placed, counted, ap length none))
    ]
    | inr above ↦
        let full : b.rest ≡ [] → Best reading (add_sample (reading s.samplecount) s) = λ none.
          let pos = b.some_kept in
          add_sample-full (ground arith) none
            (snoc-Last (s.kbest - 1) b.front (omega (arith, placed, ap length none))) in
        elim b.full [
          | inl none ↦ elim (rest-cases b.rest) [
            | inl (r, (rs, e)) ↦
                absurd (ground (arith, placed, counted, ap length none, ap length e))
            | inr empty ↦ full empty
          ]
          | inr none ↦ full none
        ]
  ]

  -- what the values are
  Best-values : take s.samplecount s.values ≡ take s.kbest (sorted_samples reading s.samplecount)
  Best-values = elim b.full [
    | inl none ↦
        let len : length b.front ≡ s.samplecount = omega (arith, counted, ap length none) in
        let all : sorted_samples reading s.samplecount ≡ b.front =
          b.sorted ∙ (ap (λ z. b.front ++ z) none ∙ append-nil b.front) in
        ap (take s.samplecount) b.values
        ∙ (ap (λ z. take z (b.front ++ b.rest)) (sym len)
            ∙ (take_front b.front b.rest
                ∙ (sym (take_all s.kbest b.front (omega (arith, placed)))
                    ∙ ap (take s.kbest) (sym all))))
    | inr none ↦
        let len : length b.front ≡ s.kbest = omega (arith, placed, ap length none) in
        let all : s.values ≡ b.front =
          b.values ∙ (ap (λ z. b.front ++ z) none ∙ append-nil b.front) in
        ap (take s.samplecount) all
        ∙ (take_all s.samplecount b.front (omega (arith, counted))
            ∙ (sym (take_front b.front b.more)
                ∙ (ap (λ z. take z (b.front ++ b.more)) len ∙ ap (take s.kbest) (sym b.sorted))))
  ]

  -- one of the values, once the array is full
  Best-at :
      (i : ℕ)
      → i < s.kbest
      → i < s.samplecount
      → at s.values i ≡ at (sorted_samples reading s.samplecount) i
  Best-at i lo lo' =
      sym (at-take s.samplecount s.values i lo')
      ∙ (ap (λ z. at z i) Best-values ∙ at-take s.kbest _ i lo)

  pub least-Best : 0 < s.samplecount → at s.values 0 ≡ at (sorted_samples reading s.samplecount) 0
  least-Best some_taken = Best-at 0 b.some_kept some_taken

  -- the test of the code is that of the reference
  pub has_converged-Best :
      (scale : Scale)
      → 0 < s.samplecount
      → has_converged scale s ≡ converged scale s.kbest s.epsilon reading s.samplecount
  unfolding has_converged converged
  has_converged-Best scale some_taken = elim (Bool-cases (leb s.kbest s.samplecount)) [
    | inl enough ↦
        let pos = b.some_kept in
        rw (enough, least-Best some_taken, Best-at (s.kbest - 1) (omega arith) (ground arith)) refl
    | inr few ↦ rw few refl
  ]

pub init-Best : (reading : ℕ → ℕ) (s : Sampler) → 0 < s.kbest → Best reading (init_sampler s)
unfolding init_sampler sorted_samples
init-Best reading s pos = record {
  some_kept = pos;
  room = length-replicate s.kbest zero_rank;
  front = [];
  more = [];
  rest = replicate s.kbest zero_rank;
  sorted = refl;
  values = refl;
  full = inl refl;
}
