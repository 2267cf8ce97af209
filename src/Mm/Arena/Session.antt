-- ===== src/Mm/Arena/Session.antt =====
-- Clients of mm.c as a step relation: after `mm_init`, requests, writes to payloads and frees in any order.
use uof_ufall.Base.{ℕ, ◌+◌, ◌^◌, ◌<◌, ◌≡◌, true, some, List, [], ◌∷◌, ◌++◌, arith}
use mathlib.Core.List.{Pairwise, Memᴰ}
use uof_ufall.Machine.{State, Os, ok, store}
use uof_ufall.Machine.Returns
use uof_ufall.Machine.Words.{store-ok}
use uof_ufall.Memlib.Table.{TableInv}
use uof_ufall.Pagemap.{pagemap_is_mapped}
use uof_ufall.Mm.{mm_init, mm_malloc, mm_free}
use uof_ufall.Mm.Arena.Apart.{InPayload, Disjoint}
use uof_ufall.Mm.Arena.Contents.{write-Scribbled}
use uof_ufall.Mm.Arena.Live.{Payload, payload}
use uof_ufall.Mm.Arena.Serving.{
  Serving, Serving-Disjoint, Room, Serving-Room, scribble-Serving, Supplied, mm_malloc-Answered,
  mm_free-Serving, mm_init-Serving,
}

module _ (os : Os) (fuel : ℕ) where
  -- A step of a client with the requests `rs` open. A request may be of any size that can be served, for
  -- which the operating system has memory; the client frees and writes to what it was given.
  pub data Step : State → List Payload → State → List Payload → Type 0 where
    malloc :
        {s t : State} {rs : List Payload} {size p : ℕ}
        → 0 < size
        → size + 4174 < 2 ^ 64
        → Supplied os fuel size s
        → mm_malloc os fuel size s ≡ ok p t
        → Step s rs t (payload p size ∷ rs)
    free :
        {s t : State} (front back : List Payload) (r : Payload)
        → mm_free os fuel r.place s ≡ ok tt t
        → Step s (front ++ r ∷ back) t (front ++ back)
    put :
        {s t : State} {rs : List Payload} (r : Payload) (a v : ℕ)
        → Memᴰ r rs
        → InPayload a r
        → store a v s ≡ ok tt t
        → Step s rs t rs

  -- The states that a client can reach, with the requests that are open there.
  pub data Session : State → List Payload → Type 0 where
    start : (s : State) (r : ℕ) {t : State} → TableInv s.pagemap → mm_init s ≡ ok r t → Session t []
    next : {s t : State} {rs rs' : List Payload} → Session s rs → Step s rs t rs' → Session t rs'

  -- what a client may ask for in a state
  pub data Ask (s : State) : List Payload → Type 0 where
    malloc :
        {rs : List Payload} (size : ℕ)
        → 0 < size
        → size + 4174 < 2 ^ 64
        → Supplied os fuel size s
        → Ask s rs
    free : (front back : List Payload) (r : Payload) → Ask s (front ++ r ∷ back)
    put : {rs : List Payload} (r : Payload) (a v : ℕ) → Memᴰ r rs → InPayload a r → Ask s rs

module _ (os : Os) {fuel : ℕ} (enough : 2 ^ 64 + 1 < fuel)
    (succeeds : (q size : ℕ) → os.munmap_succeeds q size ≡ true) where
  Step-Serving :
      {s t : State} {rs rs' : List Payload}
      → Serving fuel rs s
      → Step os fuel s rs t rs'
      → Serving fuel rs' t
  Step-Serving v (malloc {size} pos small supply e) =
      (Returns.known (mm_malloc-Answered os size enough v pos small supply) e).serving
  Step-Serving v (free front back r e) =
      (Returns.known (mm_free-Serving os front back r succeeds v) e).0
  Step-Serving {s} {rs} v (put r a x m inside e) =
      let (w, here) =
        Room.words (Serving-Room v r m (omega (arith, inside.0, inside.1))) a inside in
      Returns.known {P = λ _ u. Serving fuel rs u}
        (Returns.of_eq tt _ (store-ok s a x here)
          (scribble-Serving v r _ m (write-Scribbled s r a x inside)))
        e

  pub Session-Serving : {s : State} {rs : List Payload} → Session os fuel s rs → Serving fuel rs s
  Session-Serving (start s r table e) =
      (Returns.known (mm_init-Serving s fuel (omega arith) table) e).1
  Session-Serving (next se st) = Step-Serving (Session-Serving se) st

  -- Where munmap succeeds, with fuel beyond 2 ^ 64 + 1, in every state that a client can reach by
  -- requests that the operating system has memory for, by freeing what is in use and by writing to it:
  -- no byte belongs to two of the payloads in use, and every byte of them is mapped, in memory and
  -- in the page table.
  pub Session-safe :
      {s : State} {rs : List Payload}
      → Session os fuel s rs
      → Pairwise Disjoint rs
        × ((r : Payload) (a : ℕ)
            → Memᴰ r rs
            → InPayload a r
            → ((v : ℕ) × (s.mem a ≡ some v)) × (pagemap_is_mapped a s.pagemap ≡ true))
  Session-safe se =
      let v = Session-Serving se in
      (
        Serving-Disjoint v,
        λ r a m inside.
            let room = Serving-Room v r m (omega (arith, inside.0, inside.1)) in
            (room.words a inside, room.table a inside.0 inside.1),
      )

  -- In every such state, whatever the client asks for next is done: a request of a size from 1 up to
  -- 2 ^ 64 - 4175, for which the operating system has memory if no free block is large enough, a
  -- free of any payload in use, and a write to any byte of one.
  pub Session-progress :
      {s : State} {rs : List Payload}
      → Session os fuel s rs
      → Ask os fuel s rs
      → (t : State) × (rs' : List Payload) × Step os fuel s rs t rs'
  Session-progress se (Ask.malloc size pos small supply) =
      let (p, t, e, a) =
        Returns.result (mm_malloc-Answered os size enough (Session-Serving se) pos small supply) in
      (t, _, Step.malloc pos small supply e)
  Session-progress se (Ask.free front back r) =
      let (u, t, e, (v, same)) =
        Returns.result (mm_free-Serving os front back r succeeds (Session-Serving se)) in
      (t, _, Step.free front back r e)
  Session-progress {s} se (Ask.put r a x m inside) =
      let (w, here) =
        Room.words (Serving-Room (Session-Serving se) r m (omega (arith, inside.0, inside.1))) a
          inside in
      (_, _, Step.put r a x m inside (store-ok s a x here))
