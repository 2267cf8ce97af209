-- ===== src/Machine/Words.antt =====
-- One word of memory: what a load and a store do where it is mapped.
use uof_ufall.Base.{ℕ, ◌≡◌, ◌≢◌, none, some, arith}
use uof_ufall.Machine.{State, Memory, ok, fault, write, load, store}

pub load-ok : (s : State) (a : ℕ) {v : ℕ} → s.mem a ≡ some v → load a s ≡ ok v s
unfolding load
load-ok s a e = rw (e, load)

pub store-ok :
    (s : State) (a w : ℕ) {v : ℕ}
    → s.mem a ≡ some v
    → store a w s ≡ ok tt (record s { mem = write s.mem a w })
unfolding store
store-ok s a w e = rw (e, store)

pub load-fault : (s : State) (a : ℕ) → s.mem a ≡ none → load a s ≡ fault
unfolding load
load-fault s a e = rw (e, load)

pub write_self : (m : Memory) (a v : ℕ) → write m a v a ≡ some v
unfolding write
write_self m a v = ground arith

pub write_other : (m : Memory) (a v b : ℕ) → b ≢ a → write m a v b ≡ m b
unfolding write
write_other m a v b ne = ground arith
