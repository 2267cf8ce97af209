-- ===== src/Fcyc/Clear.antt =====
-- The cache clearing of fcyc.c: `clear` reads one word of every block of a buffer as large as the
-- cache. Sizes are in bytes and not negative; the buffer is a list of its 4-byte words.
use uof_ufall.Base.{
  ℕ, zero, suc, ◌+◌, ◌/◌, ◌%◌, ◌^◌, ◌≤◌, ◌<◌, ◌≡◌, refl, true, false, Option, none, some, List, [],
  ◌∷◌, arith, ◌==◌, ltb, length, get_elem?, Bool-cases, inl, inr, if◌then◌else◌, ◌∙◌,
}

-- how a call ends: with a result, by `exit`, without fuel, or with a read behind the buffer
module _ {ℓ} where
  pub data Result (A : Type ℓ) : Type ℓ where
    done : A → Result A
    exited : Result A
    out_of_fuel : Result A
    out_of_bounds : Result A

module _ {ℓ κ} {A : Type ℓ} {B : Type κ} where
  abbrev pub and_then : Result A → (A → Result B) → Result B
  and_then (done a) k = k a
  and_then exited k = exited
  and_then out_of_fuel k = out_of_fuel
  and_then out_of_bounds k = out_of_bounds

-- the static variables; `sink_word` is `sink`
pub record Cache : Type 0 where
  pub clear_cache : ℕ
  pub cache_bytes : ℕ
  pub cache_block : ℕ
  pub cache_buf : Option (List ℕ)
  pub sink_word : ℕ

-- the reads, from the word `cptr` on
unfoldable pub clear_loop : ℕ → (incr cend : ℕ) → List ℕ → (cptr x : ℕ) → Result ℕ
clear_loop zero incr cend buf cptr x = out_of_fuel
clear_loop (suc fuel) incr cend buf cptr x = elim (ltb cptr cend) [
  | false ↦ done x
  | true ↦ elim (get_elem? buf cptr) [
    | none ↦ out_of_bounds
    | some v ↦ clear_loop fuel incr cend buf (cptr + incr) ((x + v) % 2 ^ 32)
  ]
]

-- what `malloc` answers for a size in bytes
abbrev pub Malloc : Type 0
Malloc = ℕ → Option (List ℕ)

-- the buffer, which is allocated once
unfoldable pub buffer : Malloc → Cache → Option (List ℕ)
buffer malloc c = elim c.cache_buf [ none ↦ malloc c.cache_bytes | some buf ↦ some buf ]

unfoldable pub clear : ℕ → Malloc → Cache → Result Cache
unfolding clear_loop buffer
clear fuel malloc c = elim (buffer malloc c) [
  | none ↦ exited
  | some buf ↦
      and_then (clear_loop fuel (c.cache_block / 4) (c.cache_bytes / 4) buf 0 c.sink_word)
        λ x. done (record c { cache_buf = some buf; sink_word = x })
]

-- `if (clear_cache) clear()`
unfoldable pub maybe_clear : ℕ → Malloc → Cache → Result Cache
unfolding clear
maybe_clear fuel malloc c =
    let cleared = clear fuel malloc c in if c.clear_cache == 0 then done c else cleared

unfoldable pub set_fcyc_clear_cache : ℕ → Cache → Cache
set_fcyc_clear_cache clear c = record c { clear_cache = clear }

-- a buffer of another size is freed
unfoldable pub set_fcyc_cache_size : ℕ → Cache → Cache
set_fcyc_cache_size bytes c =
    if bytes == c.cache_bytes then c else record c { cache_bytes = bytes; cache_buf = none }

unfoldable pub set_fcyc_cache_block : ℕ → Cache → Cache
set_fcyc_cache_block bytes c = record c { cache_block = bytes }

-- blocks have a word or more, and the buffer is as large as the cache
pub record Ready (c : Cache) : Type 0 where
  pub block : 4 ≤ c.cache_block
  pub room : (buf : List ℕ) → c.cache_buf ≡ some buf → c.cache_bytes / 4 ≤ length buf

-- `malloc` gives a buffer of the size it is asked for
abbrev pub Gives : Malloc → Type 0
Gives malloc = (n : ℕ) → (buf : List ℕ) × (malloc n ≡ some buf) × (n / 4 ≤ length buf)

get_elem?-some : (xs : List ℕ) (i : ℕ) → i < length xs → (v : ℕ) × (get_elem? xs i ≡ some v)
get_elem?-some [] i h = absurd (omega arith)
get_elem?-some (x ∷ xs) zero h = (x, refl)
get_elem?-some (x ∷ xs) (suc i) h = get_elem?-some xs i (omega arith)

-- one read, and the end
clear_loop-more :
    (fuel incr cend : ℕ) (buf : List ℕ) (cptr x v : ℕ)
    → ltb cptr cend ≡ true
    → get_elem? buf cptr ≡ some v
    → clear_loop (suc fuel) incr cend buf cptr x
      ≡ clear_loop fuel incr cend buf (cptr + incr) ((x + v) % 2 ^ 32)
unfolding clear_loop
clear_loop-more fuel incr cend buf cptr x v more e = rw (more, e, clear_loop) refl

clear_loop-stop :
    (fuel incr cend : ℕ) (buf : List ℕ) (cptr x : ℕ)
    → ltb cptr cend ≡ false
    → clear_loop (suc fuel) incr cend buf cptr x ≡ done x
unfolding clear_loop
clear_loop-stop fuel incr cend buf cptr x stop = rw (stop, clear_loop) refl

clear_loop-done :
    (fuel incr cend : ℕ) (buf : List ℕ) (cptr x : ℕ)
    → 0 < incr
    → cend ≤ length buf
    → 0 < fuel
    → cend < cptr + fuel
    → (y : ℕ) × (clear_loop fuel incr cend buf cptr x ≡ done y)
clear_loop-done zero incr cend buf cptr x pos room some_fuel enough = absurd (omega arith)
clear_loop-done (suc fuel) incr cend buf cptr x pos room some_fuel enough =
    elim (Bool-cases (ltb cptr cend)) [
      | inl more ↦
          let before : cptr < cend = ground arith in
          let (v, e) = get_elem?-some buf cptr (omega arith) in
          let (y, rest) =
            clear_loop-done fuel incr cend buf (cptr + incr) ((x + v) % 2 ^ 32) pos room
              (omega arith) (omega arith) in
          (y, clear_loop-more fuel incr cend buf cptr x v more e ∙ rest)
      | inr stop ↦ (x, clear_loop-stop fuel incr cend buf cptr x stop)
    ]

buffer-none :
    (malloc : Malloc) (c : Cache) (buf : List ℕ)
    → c.cache_buf ≡ none
    → malloc c.cache_bytes ≡ some buf
    → buffer malloc c ≡ some buf
unfolding buffer
buffer-none malloc c buf e given = rw (e, buffer) given

buffer-some :
    (malloc : Malloc) (c : Cache) (buf : List ℕ)
    → c.cache_buf ≡ some buf
    → buffer malloc c ≡ some buf
unfolding buffer
buffer-some malloc c buf e = rw (e, buffer) refl

clear-run :
    (fuel : ℕ) (malloc : Malloc) (c : Cache) (buf : List ℕ) (y : ℕ)
    → buffer malloc c ≡ some buf
    → clear_loop fuel (c.cache_block / 4) (c.cache_bytes / 4) buf 0 c.sink_word ≡ done y
    → clear fuel malloc c ≡ done (record c { cache_buf = some buf; sink_word = y })
unfolding clear
clear-run fuel malloc c buf y e run = rw (e, clear, run) refl

-- what clearing leaves alone
pub record Cleared (c d : Cache) : Type 0 where
  pub ready : Ready d
  pub bytes : d.cache_bytes ≡ c.cache_bytes

module _ (fuel : ℕ) (malloc : Malloc) (c : Cache) (gives : Gives malloc) (r : Ready c)
    (enough : c.cache_bytes / 4 < fuel) where
  clear-buffer :
      (buf : List ℕ)
      → buffer malloc c ≡ some buf
      → c.cache_bytes / 4 ≤ length buf
      → (d : Cache) × (clear fuel malloc c ≡ done d) × Cleared c d
  clear-buffer buf e room =
      let block = r.block in
      let (y, run) =
        clear_loop-done fuel (c.cache_block / 4) (c.cache_bytes / 4) buf 0 c.sink_word (omega arith)
          room (omega arith) (omega arith) in
      (
        record c { cache_buf = some buf; sink_word = y },
        clear-run fuel malloc c buf y e run,
        record {
          ready = record {
            block = block;
            room = λ b same. let e : buf ≡ b = cc same in rw (← e) room;
          };
          bytes = refl;
        },
      )

  clear-Cleared : (d : Cache) × (clear fuel malloc c ≡ done d) × Cleared c d
  clear-Cleared = go c.cache_buf refl
    where
      go :
          (o : Option (List ℕ))
          → c.cache_buf ≡ o
          → (d : Cache) × (clear fuel malloc c ≡ done d) × Cleared c d
      go none e =
          let (buf, given, room) = gives c.cache_bytes in
          clear-buffer buf (buffer-none malloc c buf e given) room
      go (some buf) e = clear-buffer buf (buffer-some malloc c buf e) (r.room buf e)

  -- Where `malloc` gives buffers as large as it is asked for, and blocks have four bytes or more, clearing
  -- the cache ends without a read behind the buffer.
  pub maybe_clear-Cleared : (d : Cache) × (maybe_clear fuel malloc c ≡ done d) × Cleared c d
  unfolding maybe_clear
  maybe_clear-Cleared = elim (Bool-cases (c.clear_cache == 0)) [
    | inl off ↦ (c, rw off refl, record { ready = r; bytes = refl })
    | inr on ↦ let (d, e, cleared) = clear-Cleared in (d, rw on e, cleared)
  ]
