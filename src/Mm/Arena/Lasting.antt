-- ===== src/Mm/Arena/Lasting.antt =====
-- What a client writes to a payload stays there while mm.c serves other requests.
use uof_ufall.Base.{ℕ, ◌+◌, ◌^◌, ◌<◌, ◌≡◌, ◌≢◌, refl, List, some, true, arith, ◌∙◌}
use mathlib.Core.List.{Memᴰ}
use uof_ufall.Machine.{State, Os, ok, load, store}
use uof_ufall.Machine.Returns
use uof_ufall.Machine.Words.{load-ok, store-ok, write_self, write_other}
use uof_ufall.Mm.Arena.Apart.{InPayload}
use uof_ufall.Mm.Arena.Keeping.{at-payload}
use uof_ufall.Mm.Arena.Live.{Payload}
use uof_ufall.Mm.Arena.Serving.{Room, Serving-Room, mm_malloc-Answered, mm_free-Serving}
use uof_ufall.Mm.Arena.Session.{Step, Session, Session-Serving}

module _ (os : Os) (fuel : ℕ) where
  -- the client's step writes nothing to `a`
  abbrev pub Spares :
      (a : ℕ) {s t : State} {rs rs' : List Payload} → Step os fuel s rs t rs' → Type 0
  Spares a (Step.malloc pos small supply e) = Unit
  Spares a (Step.free front back r e) = Unit
  Spares a (Step.put r b v m inside e) = a ≢ b

  -- Steps from one state to another, during which the request `r` stays open and the client writes
  -- nothing to `a`.
  pub data Lasting (r : Payload) (a : ℕ)
      : State → List Payload → State → List Payload → Type 0 where
    stay : {s : State} {rs : List Payload} → Memᴰ r rs → Lasting r a s rs s rs
    go_on :
        {s t u : State} {rs rs' rs'' : List Payload}
        → Lasting r a s rs t rs'
        → (st : Step os fuel t rs' u rs'') → Spares a st
        → Memᴰ r rs''
        → Lasting r a s rs u rs''

module _ (os : Os) {fuel : ℕ} (enough : 2 ^ 64 + 1 < fuel)
    (succeeds : (q size : ℕ) → os.munmap_succeeds q size ≡ true) (r : Payload) (a : ℕ)
    (inside : InPayload a r) where
  Step-unchanged :
      {s t : State} {rs rs' : List Payload}
      → Session os fuel s rs
      → Memᴰ r rs
      → (st : Step os fuel s rs t rs') → Spares os fuel a st
      → Memᴰ r rs'
      → t.mem a ≡ s.mem a
  Step-unchanged {rs} se m (Step.malloc {size} pos small supply e) spares m' =
      (Returns.known
          (mm_malloc-Answered os size enough (Session-Serving os enough succeeds se) pos small
            supply)
          e).unchanged
        a (at-payload rs a r m inside)
  Step-unchanged {rs' = rs'} se m (Step.free front back f e) spares m' =
      (Returns.known
          (mm_free-Serving os front back f succeeds (Session-Serving os enough succeeds se)) e).1
        a (at-payload rs' a r m' inside)
  Step-unchanged {s} {rs = rs} se m (Step.put f b x in_use within e) spares m' =
      let v = Session-Serving os enough succeeds se in
      let (w, here) =
        Room.words (Serving-Room v f in_use (omega (arith, within.0, within.1))) b within in
      Returns.known {P = λ _ u. u.mem a ≡ s.mem a}
        (Returns.of_eq tt _ (store-ok s b x here) (write_other s.mem b x a spares)) e

  Lasting-Session :
      {s t : State} {rs rs' : List Payload}
      → Session os fuel s rs
      → Lasting os fuel r a s rs t rs'
      → Session os fuel t rs' × Memᴰ r rs' × (t.mem a ≡ s.mem a)
  Lasting-Session se (stay m) = (se, m, refl)
  Lasting-Session se (go_on steps st spares m) =
      let (se', m', same) = Lasting-Session se steps in
      (Session.next se' st, m, Step-unchanged se' m' st spares m ∙ same)

  -- Where munmap succeeds, with fuel beyond 2 ^ 64 + 1: what a client stores at a byte of a payload in
  -- use, it loads from there after any number of further requests, frees and writes, as long as the
  -- payload stays in use and the client stores nothing else at that byte.
  pub Session-remembers :
      {s t u : State} {rs rs' : List Payload} (v : ℕ)
      → Session os fuel s rs
      → Memᴰ r rs
      → store a v s ≡ ok tt t
      → Lasting os fuel r a t rs u rs'
      → load a u ≡ ok v u
  Session-remembers {s} {t} {u} {rs} v se m e steps =
      let (w, here) =
        Room.words
          (Serving-Room (Session-Serving os enough succeeds se) r m
            (omega (arith, inside.0, inside.1)))
          a inside in
      let stored : t.mem a ≡ some v =
        Returns.known {P = λ _ u. u.mem a ≡ some v}
          (Returns.of_eq tt _ (store-ok s a v here) (write_self s.mem a v)) e in
      let (se', m', same) = Lasting-Session (Session.next se (Step.put r a v m inside e)) steps in
      load-ok u a (same ∙ stored)
