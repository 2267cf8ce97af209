-- ===== src/Driver/Eval/Util.antt =====
-- One request of `eval_mm_util` of mdriver.c: how its counter follows the sizes in use.
use uof_ufall.Base.{
  ℕ, ◌+◌, ◌%◌, ◌^◌, ◌<◌, ◌≡◌, refl, true, false, List, [], ◌∷◌, ◌++◌, map, arith, All, ap, ap₂, sym,
  ◌∙◌, subst, ne→==, inl, inr, add64, sub64, Bool-cases, ==→eq, ◌==◌,
}
use uof_ufall.Base.Distinct.{has, Distinct, without, without-Distinct, without-gone, has-without}
use mathlib.Core.List.{Memᴰ}
use uof_ufall.Driver.Eval.{
  TraceOp, alloc, free, realloc, Driver, Outcome, value, put, remember, Usage, util_op,
}
use uof_ufall.Driver.Eval.Requests.{Fits, put-others, put-own}
use uof_ufall.Driver.Eval.Running.{
  Request, request, payload_of, indices, map-append, All-middle, lookup,
}
use uof_ufall.Driver.Eval.Valid.{Allowed, live_after, Provided}
use uof_ufall.Machine.{null, State, Os}
use uof_ufall.Machine.Returns
use uof_ufall.Machine.Returns.{Returns, returns}
use uof_ufall.Mm.Arena.Live.{payload}
use uof_ufall.Mm.Arena.Serving.{
  Serving, Serving-Room, Supplied, mm_malloc-Answered, mm_free-Serving,
}

-- the sizes that a trace has asked for under its indices
abbrev pub sizes_after : TraceOp → (ℕ → ℕ) → ℕ → ℕ
sizes_after (alloc i n) sizes = put sizes i n
sizes_after (realloc i n) sizes = put sizes i n
sizes_after (free i) sizes = sizes

abbrev pub total : (ℕ → ℕ) → List ℕ → ℕ
total sizes [] = 0
total sizes (i ∷ live) = sizes i + total sizes live

total-put :
    (sizes : ℕ → ℕ) (i n : ℕ) (live : List ℕ)
    → has i live ≡ false
    → total (put sizes i n) live ≡ total sizes live
total-put sizes i n [] out = refl
total-put sizes i n (j ∷ live) out = ground (arith, total-put sizes i n live)

total-without :
    (sizes : ℕ → ℕ) (i : ℕ) (live : List ℕ)
    → has i live ≡ true
    → total sizes live ≡ sizes i + total sizes (without i live)
total-without sizes i [] used = cc used
total-without sizes i (j ∷ live) used = elim (Bool-cases (j == i)) [
  | inl here ↦ let e = ==→eq j i here in rw here (ap (λ z. sizes z + total sizes live) e)
  | inr other ↦ rw other (ground (arith, total-without sizes i live))
]

-- The open requests `rs` of a run: the allocator serves them, `blocks` has their places, and
-- `total_size` is the sum of their sizes.
pub record Metering (fuel : ℕ) (rs : List Request) (d : Driver) (u : Usage) (s : State)
    : Type 0 where
  pub serving : Serving fuel (map payload_of rs) s
  pub blocks : All (λ (r : Request). d.blocks r.index ≡ r.place) rs
  pub distinct : Distinct (indices rs)
  pub small : (i : ℕ) → has i (indices rs) ≡ true → d.block_sizes i < 2 ^ 64
  pub sum : u.total_size ≡ total d.block_sizes (indices rs) % 2 ^ 64

-- after a request
pub record Metered (fuel : ℕ) (op : TraceOp) (live : List ℕ) (d : Driver) (u : Usage)
    (r : Outcome (Driver × Usage)) (t : State) : Type 0 where
  pub driver : Driver
  pub usage : Usage
  pub result : r ≡ value (driver, usage)
  pub sizes : driver.block_sizes ≡ sizes_after op d.block_sizes
  pub most : usage.max_total_size ≡ u.max_total_size
  pub open_requests : List Request
  pub names : indices open_requests ≡ live_after op live
  pub after : Metering fuel open_requests driver usage t

module _ (os : Os) {fuel : ℕ} (enough : 2 ^ 64 + 1 < fuel)
    (succeeds : (q size : ℕ) → os.munmap_succeeds q size ≡ true) where
  util_alloc-Metered :
      (i n : ℕ) (rs : List Request) (d : Driver) (u : Usage) (s : State)
      → Metering fuel rs d u s
      → has i (indices rs) ≡ false
      → Fits n
      → Supplied os fuel n s
      → Returns (Metered fuel (alloc i n) (indices rs) d u) (util_op os fuel (alloc i n) d u s)
  unfolding util_op
  util_alloc-Metered i n rs d u s run fresh (pos, small) supply =
      Returns.bind (mm_malloc-Answered os n enough run.serving pos small supply) λ p t a.
        let room = Serving-Room a.serving (payload p n) (Memᴰ.head refl) pos in
        rw (ne→== p null (omega (arith, room.not_null))) (
          returns (record {
            driver = remember d i p n;
            usage = record u { total_size = add64 u.total_size n };
            result = refl;
            sizes = refl;
            most = refl;
            open_requests = request i p n ∷ rs;
            names = refl;
            after = record {
              serving = a.serving;
              blocks = (put-own d.blocks i p, put-others d.blocks i p rs fresh run.blocks);
              distinct = (fresh, run.distinct);
              small = λ j h. ground (arith, run.small j);
              sum = omega (
                arith,
                run.sum,
                put-own d.block_sizes i n,
                total-put d.block_sizes i n (indices rs) fresh,
              );
            };
          }))

  util_realloc-Metered :
      (front back : List Request) (r : Request) (n : ℕ) (d : Driver) (u : Usage) (s : State)
      → Metering fuel (front ++ r ∷ back) d u s
      → has r.index (indices (front ++ r ∷ back)) ≡ true
      → indices (front ++ back) ≡ without r.index (indices (front ++ r ∷ back))
      → Fits n
      → Supplied os fuel n s
      → Returns
          (Metered fuel (realloc r.index n) (indices (front ++ r ∷ back)) d u)
          (util_op os fuel (realloc r.index n) d u s)
  unfolding util_op
  util_realloc-Metered front back r n d u s run used others (pos, small) supply =
      let live = indices (front ++ r ∷ back) in
      let distinct : Distinct (indices (front ++ back)) =
        subst Distinct (sym others) (without-Distinct r.index live run.distinct) in
      let fresh : has r.index (indices (front ++ back)) ≡ false =
        rw others (without-gone r.index live run.distinct) in
      let within : (j : ℕ) → has j (indices (front ++ back)) ≡ true → has j live ≡ true =
        λ j h. has-without r.index j live (subst (λ z. has j z ≡ true) others h) in
      let (old, blocks) =
        All-middle (λ (x : Request). d.blocks x.index ≡ x.place) front back r run.blocks in
      let counted : total d.block_sizes live
          ≡ d.block_sizes r.index + total d.block_sizes (indices (front ++ back)) =
        total-without d.block_sizes r.index live used
        ∙ ap (λ z. d.block_sizes r.index + total d.block_sizes z) (sym others) in
      Returns.bind (mm_malloc-Answered os n enough run.serving pos small supply) λ p t a.
        let room = Serving-Room a.serving (payload p n) (Memᴰ.head refl) pos in
        let v : Serving fuel
            ((payload p n ∷ map payload_of front) ++ payload_of r ∷ map payload_of back) t =
          subst (λ z. Serving fuel (payload p n ∷ z) t) (map-append payload_of front (r ∷ back))
            a.serving in
        rw (ne→== p null (omega (arith, room.not_null)), old)
          (Returns.bind
            (mm_free-Serving os (payload p n ∷ map payload_of front) (map payload_of back)
              (payload_of r) succeeds v)
            λ _ w (k, same). returns (record {
              driver = remember d r.index p n;
              usage = record u {
                total_size = add64 u.total_size (sub64 n (d.block_sizes r.index));
              };
              result = refl;
              sizes = refl;
              most = refl;
              open_requests = request r.index p n ∷ (front ++ back);
              names = ap (◌∷◌ r.index) others;
              after = record {
                serving =
                    subst (λ z. Serving fuel (payload p n ∷ z) w)
                      (sym (map-append payload_of front back)) k;
                blocks = (
                  put-own d.blocks r.index p,
                  put-others d.blocks r.index p (front ++ back) fresh blocks,
                );
                distinct = (fresh, distinct);
                small = λ j h. ground (arith, run.small j, within j);
                sum = omega (
                  arith,
                  run.small r.index used,
                  run.sum,
                  counted,
                  put-own d.block_sizes r.index n,
                  total-put d.block_sizes r.index n (indices (front ++ back)) fresh,
                );
              };
            }))

  util_free-Metered :
      (front back : List Request) (r : Request) (d : Driver) (u : Usage) (s : State)
      → Metering fuel (front ++ r ∷ back) d u s
      → has r.index (indices (front ++ r ∷ back)) ≡ true
      → indices (front ++ back) ≡ without r.index (indices (front ++ r ∷ back))
      → Returns
          (Metered fuel (free r.index) (indices (front ++ r ∷ back)) d u)
          (util_op os fuel (free r.index) d u s)
  unfolding util_op
  util_free-Metered front back r d u s run used others =
      let live = indices (front ++ r ∷ back) in
      let within : (j : ℕ) → has j (indices (front ++ back)) ≡ true → has j live ≡ true =
        λ j h. has-without r.index j live (subst (λ z. has j z ≡ true) others h) in
      let (old, blocks) =
        All-middle (λ (x : Request). d.blocks x.index ≡ x.place) front back r run.blocks in
      let counted : total d.block_sizes live
          ≡ d.block_sizes r.index + total d.block_sizes (indices (front ++ back)) =
        total-without d.block_sizes r.index live used
        ∙ ap (λ z. d.block_sizes r.index + total d.block_sizes z) (sym others) in
      let v : Serving fuel (map payload_of front ++ payload_of r ∷ map payload_of back) s =
        subst (λ z. Serving fuel z s) (map-append payload_of front (r ∷ back)) run.serving in
      rw old (
        Returns.bind
          (mm_free-Serving os (map payload_of front) (map payload_of back) (payload_of r) succeeds
            v)
          λ _ w (k, same). returns (record {
            driver = d;
            usage = record u { total_size = sub64 u.total_size (d.block_sizes r.index) };
            result = refl;
            sizes = refl;
            most = refl;
            open_requests = front ++ back;
            names = others;
            after = record {
              serving = subst (λ z. Serving fuel z w) (sym (map-append payload_of front back)) k;
              blocks = blocks;
              distinct = subst Distinct (sym others) (without-Distinct r.index live run.distinct);
              small = λ j h. run.small j (within j h);
              sum = omega (arith, run.small r.index used, run.sum, counted);
            };
          }))

  pub util_op-Metered :
      (op : TraceOp) (rs : List Request) (d : Driver) (u : Usage) (s : State)
      → Metering fuel rs d u s
      → Allowed op (indices rs)
      → Provided os fuel op s
      → Returns (Metered fuel op (indices rs) d u) (util_op os fuel op d u s)
  util_op-Metered (alloc i n) rs d u s run (fresh, fits) supply =
      util_alloc-Metered i n rs d u s run fresh fits supply
  util_op-Metered (realloc i n) rs d u s run (used, fits) supply =
      let l = lookup i rs used in
      let goal : List Request → ℕ → Type 0 = λ xs j.
        Returns (Metered fuel (realloc j n) (indices xs) d u)
          (util_op os fuel (realloc j n) d u s) in
      subst (λ xs. goal xs i) (sym l.shape)
        (subst (goal (l.front ++ l.own ∷ l.back)) l.index (
          util_realloc-Metered l.front l.back l.own n d u s
            (subst (λ xs. Metering fuel xs d u s) l.shape run)
            (subst (λ xs. has l.own.index (indices xs) ≡ true) l.shape
              (subst (λ j. has j (indices rs) ≡ true) (sym l.index) used))
            (l.others ∙ ap₂ (λ j xs. without j (indices xs)) (sym l.index) l.shape) fits supply))
  util_op-Metered (free i) rs d u s run used supply =
      let l = lookup i rs used in
      let goal : List Request → ℕ → Type 0 =
        λ xs j. Returns (Metered fuel (free j) (indices xs) d u) (util_op os fuel (free j) d u s) in
      subst (λ xs. goal xs i) (sym l.shape)
        (subst (goal (l.front ++ l.own ∷ l.back)) l.index (
          util_free-Metered l.front l.back l.own d u s
            (subst (λ xs. Metering fuel xs d u s) l.shape run)
            (subst (λ xs. has l.own.index (indices xs) ≡ true) l.shape
              (subst (λ j. has j (indices rs) ≡ true) (sym l.index) used))
            (l.others ∙ ap₂ (λ j xs. without j (indices xs)) (sym l.index) l.shape)))
