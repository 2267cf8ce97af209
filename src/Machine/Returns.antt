-- ===== src/Machine/Returns.antt =====
-- Total correctness of a run: it neither faults nor aborts, its fuel is enough, and a postcondition
-- holds of its result and final state. The rules step through a command from its first part on.
use uof_ufall.Base.{ℕ, ◌≡◌, refl, some, subst}
use uof_ufall.Machine.{State, Run, ok, Cmd, and_then, write, load, store}
use uof_ufall.Machine.Words.{load-ok, store-ok}

pub data Returns {A : Type 0} (P : A → State → Type 0) : Run A → Type 0 where
  returns : {a : A} {s : State} → P a s → Returns P (ok a s)

module _ {A : Type 0} {P : A → State → Type 0} where
  pub bind :
      {B : Type 0} {Q : B → State → Type 0} {r : Run A} {k : A → Cmd B}
      → Returns P r
      → ((a : A) (s : State) → P a s → Returns Q (k a s))
      → Returns Q (and_then r k)
  bind (returns p) next = next _ _ p

  pub mono :
      {Q : A → State → Type 0} {r : Run A}
      → Returns P r
      → ((a : A) (s : State) → P a s → Q a s)
      → Returns Q r
  mono (returns p) weaken = returns (weaken _ _ p)

  -- a run whose result and final state are known
  pub of_eq : {r : Run A} (a : A) (s : State) → r ≡ ok a s → P a s → Returns P r
  of_eq a s e p = rw e (returns p)

  -- a part of a command whose result and final state are known
  pub eq_then :
      {B : Type 0} {r : Run B} (a : B) (s : State) (k : B → Cmd A)
      → r ≡ ok a s
      → Returns P (k a s)
      → Returns P (and_then r k)
  eq_then a s k e p = rw e p

  pub load_then :
      (s : State) (a : ℕ) {v : ℕ} (k : ℕ → Cmd A)
      → s.mem a ≡ some v
      → Returns P (k v s)
      → Returns P (and_then (load a s) k)
  load_then s a k e r = rw (load-ok s a e) r

  pub store_then :
      (s : State) (a w : ℕ) {v : ℕ} (k : Unit {0} → Cmd A)
      → s.mem a ≡ some v
      → Returns P (k tt (record s { mem = write s.mem a w }))
      → Returns P (and_then (store a w s) k)
  store_then s a w k e r = rw (store-ok s a w e) r

-- the result and the final state of a run that returns
pub result :
    {A : Type 0} {P : A → State → Type 0} {r : Run A}
    → Returns P r
    → (a : A) × (s : State) × (r ≡ ok a s) × P a s
result (returns p) = (_, _, refl, p)

-- the postcondition holds of what the run is known to return
pub known :
    {A : Type 0} {P : A → State → Type 0} {r : Run A} {a : A} {s : State}
    → Returns P r
    → r ≡ ok a s
    → P a s
known {P} {a} {s} h e = go (subst (Returns P) e h)
  where
    go : Returns P (ok a s) → P a s
    go (returns p) = p

pub store_last :
    {P : Unit {0} → State → Type 0} (s : State) (a w : ℕ) {v : ℕ}
    → s.mem a ≡ some v
    → P tt (record s { mem = write s.mem a w })
    → Returns P (store a w s)
store_last s a w e p = of_eq tt _ (store-ok s a w e) p
