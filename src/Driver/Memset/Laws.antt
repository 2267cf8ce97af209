-- ===== src/Driver/Memset/Laws.antt =====
-- `memset` of a payload writes to the payload alone.
use uof_ufall.Base.{
  ℕ, zero, suc, ◌+◌, ◌*◌, ◌/◌, ◌%◌, ◌≤◌, ◌≡◌, refl, some, arith, ap, ◌∙◌, ◌==◌, Bool-cases, inl,
  inr,
}
use uof_ufall.Driver.Memset.{fill_words, fill_part, memset, repeat_byte}
use uof_ufall.Machine.{State}
use uof_ufall.Machine.Returns
use uof_ufall.Machine.Returns.{Returns, returns}
use uof_ufall.Mm.Arena.Apart.{InPayload}
use uof_ufall.Mm.Arena.Contents.{Scribbled, write-Scribbled}
use uof_ufall.Mm.Arena.Live.{Payload}

-- every word of a payload is mapped
abbrev Words : State → Payload → Type 0
Words s r = (a : ℕ) → InPayload a r → (v : ℕ) × (s.mem a ≡ some v)

Scribbled-refl : (s : State) (r : Payload) → Scribbled s r s
Scribbled-refl s r = record { rest = refl; mapped = λ a v e. (v, e); same = λ a out. refl }

Scribbled-trans :
    {s t u : State} {r : Payload} → Scribbled s r t → Scribbled t r u → Scribbled s r u
Scribbled-trans {s} {t} {u} w w' = record {
  rest = w'.rest ∙ ap (λ (v : State). record v { mem = u.mem }) w.rest;
  mapped = λ a v e. let (x, k) = w.mapped a v e in w'.mapped a x k;
  same = λ a out. w'.same a out ∙ w.same a out;
}

Words-Scribbled : {s t : State} {r : Payload} → Words s r → Scribbled s r t → Words t r
Words-Scribbled words w a inside = let (v, e) = words a inside in w.mapped a v e

fill_words-Scribbled :
    (n q byte : ℕ) (s : State) (r : Payload)
    → Words s r
    → r.place ≤ q
    → q + n * 8 ≤ r.place + r.room
    → Returns (λ _ t. Scribbled s r t) (fill_words n q byte s)
unfolding fill_words
fill_words-Scribbled zero q byte s r words low high = returns (Scribbled-refl s r)
fill_words-Scribbled (suc n) q byte s r words low high =
    let inside : InPayload q r = (low, omega arith) in
    let w = write-Scribbled s r q (repeat_byte byte 8) inside in
    let (v, e) = words q inside in
    Returns.store_then s q (repeat_byte byte 8) _ e (
      Returns.mono
        (fill_words-Scribbled n (q + 8) byte _ r (Words-Scribbled words w) (omega arith)
          (omega arith))
        λ _ t w'. Scribbled-trans w w')

fill_part-Scribbled :
    (n q byte : ℕ) (s : State) (r : Payload)
    → Words s r
    → r.place ≤ q
    → q + n ≤ r.place + r.room
    → Returns (λ _ t. Scribbled s r t) (fill_part n q byte s)
unfolding fill_part
fill_part-Scribbled n q byte s r words low high = elim (Bool-cases (n == 0)) [
  | inl nothing ↦ rw nothing (returns (Scribbled-refl s r))
  | inr some_bytes ↦
      let inside : InPayload q r = (low, ground arith) in
      let (v, e) = words q inside in
      rw some_bytes
        (Returns.load_then s q _ e (Returns.store_last s q _ e (write-Scribbled s r q _ inside)))
]

-- `memset` of a payload's bytes, all of which are mapped, ends and changes no other word
pub memset-Scribbled :
    (byte : ℕ) (s : State) (r : Payload)
    → Words s r
    → Returns (λ _ t. Scribbled s r t) (memset r.place byte r.room s)
unfolding memset
memset-Scribbled byte s r words =
    Returns.bind
      (fill_words-Scribbled (r.room / 8) r.place byte s r words (omega arith) (omega arith))
      λ _ t w.
        Returns.mono
          (fill_part-Scribbled (r.room % 8) (r.place + r.room / 8 * 8) byte t r
            (Words-Scribbled words w) (omega arith) (omega arith))
          λ _ u w'. Scribbled-trans w w'
