-- ===== src/Driver/Eval/Requests.antt =====
-- One request of `eval_mm_valid`: the checks of mdriver.c accept what mm.c returns.
use uof_ufall.Base.{
  ℕ, ◌+◌, ◌%◌, ◌^◌, ◌<◌, ◌≡◌, refl, Bool, true, false, List, [], ◌∷◌, ◌++◌, map, arith, All, ap,
  sym, ◌∙◌, subst, ne→==, eq→==, inl, inr,
}
use uof_ufall.Base.Distinct.{has, Distinct}
use mathlib.Core.List.{Pairwise, rel_of_Pairwise-cons, Memᴰ}
use mathlib.Core.List.Memᴰ
use uof_ufall.Driver.Eval.{
  Driver, Outcome, value, put, check_range, valid_alloc, valid_realloc, valid_free,
}
use uof_ufall.Driver.Eval.Running.{
  Request, request, payload_of, range_of, indices, Running, map-append, All-middle, ranges-Apart,
  front-ne,
}
use uof_ufall.Driver.Memset.Laws.{memset-Scribbled}
use uof_ufall.Driver.Ranges.{Range, added, add_range, remove_range}
use uof_ufall.Driver.Ranges.Accepted.{add_range-accepts, remove_range-middle}
use uof_ufall.Machine.{Ptr, null, State, Os, ◌>>=◌, pure, ok}
use uof_ufall.Machine.Returns
use uof_ufall.Machine.Returns.{Returns, returns}
use uof_ufall.Mm.{mm_free}
use uof_ufall.Mm.Arena.Apart.{Disjoint}
use uof_ufall.Mm.Arena.Live.{Payload, payload}
use uof_ufall.Mm.Arena.Serving.{
  Serving, Serving-Disjoint, Serving-Room, scribble-Serving, Supplied, mm_malloc-Answered,
  mm_free-Serving,
}

-- a size that can be served
abbrev pub Fits : ℕ → Type 0
Fits n = (0 < n) × (n + 4174 < 2 ^ 64)

-- the run goes on with the open requests `rs`
pub record GoesOn (fuel : ℕ) (rs : List Request) (r : Outcome Bool × Driver) (t : State)
    : Type 0 where
  pub goes_on : r.0 ≡ value true
  pub running : Running fuel rs r.1 t

pub put-others :
    (blocks : ℕ → Ptr) (i p : ℕ) (rs : List Request)
    → has i (indices rs) ≡ false
    → All (λ (r : Request). blocks r.index ≡ r.place) rs
    → All (λ (r : Request). put blocks i p r.index ≡ r.place) rs
put-others blocks i p [] out h = tt
put-others blocks i p (r ∷ rs) out h =
    (ground (arith, h.0), put-others blocks i p rs (ground arith) h.1)

pub put-own : (blocks : ℕ → Ptr) (i p : ℕ) → put blocks i p i ≡ p
put-own blocks i p = rw (eq→== i i refl) refl

check_range-added :
    (ranges rs : List Range) (p n : ℕ) (s : State)
    → add_range ranges p n s.pagemap ≡ added rs
    → check_range ranges p n s ≡ ok (added rs) s
unfolding check_range
check_range-added ranges rs p n s e = rw (e, check_range) refl

-- the range list without the extent of one request
close-ranges :
    (front back : List Request) (r : Request)
    → All (λ (x : Request). 0 < x.size) (front ++ r ∷ back)
    → Pairwise Disjoint (map payload_of (front ++ r ∷ back))
    → remove_range (map range_of (front ++ r ∷ back)) r.place ≡ map range_of (front ++ back)
close-ranges front back r sizes d =
    ap (λ z. remove_range z r.place) (map-append range_of front (r ∷ back))
    ∙ remove_range-middle (map range_of front) (map range_of back) (range_of r)
        (front-ne front back r sizes d)
    ∙ sym (map-append range_of front back)

module _ (os : Os) {fuel : ℕ} (enough : 2 ^ 64 + 1 < fuel) where
  pub valid_alloc-GoesOn :
      (rs : List Request) (i n : ℕ) (d : Driver) (s : State)
      → Running fuel rs d s
      → has i (indices rs) ≡ false
      → Fits n
      → Supplied os fuel n s
      → Returns
          (λ r t. (p : Ptr) × GoesOn fuel (request i p n ∷ rs) r t)
          (valid_alloc os fuel i n d s)
  unfolding valid_alloc
  valid_alloc-GoesOn rs i n d s run fresh (pos, small) supply =
      Returns.bind (mm_malloc-Answered os n enough run.serving pos small supply) λ p t a.
        let own : Memᴰ (payload p n) (payload p n ∷ map payload_of rs) = Memᴰ.head refl in
        let room = Serving-Room a.serving (payload p n) own pos in
        let (extents, apart) =
          ranges-Apart p n rs pos run.sizes
            λ f m. rel_of_Pairwise-cons (Serving-Disjoint a.serving) ∣ m ∣₁ in
        let accepted : add_range d.ranges p n t.pagemap
            ≡ added (range_of (request i p n) ∷ d.ranges) =
          rw run.ranges (
            add_range-accepts (map range_of rs) p n t.pagemap pos a.aligned room.table extents
              apart) in
        rw (ne→== p null (omega (arith, room.not_null))) (
          Returns.eq_then _ t _ (check_range-added _ _ p n t accepted) (
            Returns.bind (memset-Scribbled (i % 256) t (payload p n) room.words) λ _ u w. returns (
              p,
              record {
                goes_on = refl;
                running = record {
                  serving = scribble-Serving a.serving (payload p n) u own w;
                  ranges = ap (◌∷◌ (range_of (request i p n))) run.ranges;
                  blocks = (put-own d.blocks i p, put-others d.blocks i p rs fresh run.blocks);
                  sizes = (pos, run.sizes);
                  distinct = (fresh, run.distinct);
                };
              },
            )))

  pub valid_realloc-GoesOn :
      (front back : List Request) (r : Request) (n : ℕ) (d : Driver) (s : State)
      → ((q size : ℕ) → os.munmap_succeeds q size ≡ true)
      → Running fuel (front ++ r ∷ back) d s
      → has r.index (indices (front ++ back)) ≡ false
      → Distinct (indices (front ++ back))
      → Fits n
      → Supplied os fuel n s
      → Returns
          (λ o t. (p : Ptr) × GoesOn fuel (request r.index p n ∷ (front ++ back)) o t)
          (valid_realloc os fuel r.index n d s)
  unfolding valid_realloc
  valid_realloc-GoesOn front back r n d s succeeds run fresh distinct (pos, small) supply =
      Returns.bind (mm_malloc-Answered os n enough run.serving pos small supply) λ p t a.
        let own : Memᴰ (payload p n) (payload p n ∷ map payload_of (front ++ r ∷ back)) =
          Memᴰ.head refl in
        let room = Serving-Room a.serving (payload p n) own pos in
        let rest = front ++ back in
        let (_, sizes) = All-middle (λ (x : Request). 0 < x.size) front back r run.sizes in
        let (old, blocks) =
          All-middle (λ (x : Request). d.blocks x.index ≡ x.place) front back r run.blocks in
        let closed : remove_range d.ranges r.place ≡ map range_of rest =
          rw run.ranges (close-ranges front back r run.sizes (Serving-Disjoint run.serving)) in
        let removed : remove_range d.ranges (d.blocks r.index) ≡ map range_of rest =
          rw old closed in
        let (extents, apart) =
          ranges-Apart p n rest pos sizes
            λ f m. rel_of_Pairwise-cons (Serving-Disjoint a.serving) ∣ shrink front f m ∣₁ in
        let accepted : add_range (remove_range d.ranges (d.blocks r.index)) p n t.pagemap
            ≡ added (range_of (request r.index p n) ∷ remove_range d.ranges (d.blocks r.index)) =
          rw removed (
            add_range-accepts (map range_of rest) p n t.pagemap pos a.aligned room.table extents
              apart) in
        rw (ne→== p null (omega (arith, room.not_null))) (
          Returns.eq_then _ t _ (check_range-added _ _ p n t accepted) (
            Returns.bind (memset-Scribbled (r.index % 256) t (payload p n) room.words) λ _ u w.
              let v = scribble-Serving a.serving (payload p n) u own w in
              let v' : Serving fuel
                  ((payload p n ∷ map payload_of front) ++ payload_of r ∷ map payload_of back) u =
                subst (λ z. Serving fuel (payload p n ∷ z) u)
                  (map-append payload_of front (r ∷ back)) v in
              rw old (
                Returns.bind
                  (mm_free-Serving os (payload p n ∷ map payload_of front) (map payload_of back)
                    (payload_of r) succeeds v')
                  λ _ w' (v'', same). returns (
                    p,
                    record {
                      goes_on = refl;
                      running = record {
                        serving =
                            subst (λ z. Serving fuel (payload p n ∷ z) w')
                              (sym (map-append payload_of front back)) v'';
                        ranges = ap (◌∷◌ (range_of (request r.index p n))) closed;
                        blocks = (
                          put-own d.blocks r.index p,
                          put-others d.blocks r.index p rest fresh blocks,
                        );
                        sizes = (pos, sizes);
                        distinct = (fresh, distinct);
                      };
                    },
                  ))))
    where
      shrink :
          (front : List Request) (f : Payload)
          → Memᴰ f (map payload_of (front ++ back))
          → Memᴰ f (map payload_of (front ++ r ∷ back))
      shrink [] f m = Memᴰ.tail m
      shrink (x ∷ xs) f m = elim (Memᴰ.cases_cons m) [
        | inl here ↦ Memᴰ.head here
        | inr later ↦ Memᴰ.tail (shrink xs f later)
      ]

  pub valid_free-GoesOn :
      (front back : List Request) (r : Request) (d : Driver) (s : State)
      → ((q size : ℕ) → os.munmap_succeeds q size ≡ true)
      → Running fuel (front ++ r ∷ back) d s
      → Distinct (indices (front ++ back))
      → Returns (λ o t. GoesOn fuel (front ++ back) o t) (valid_free os fuel r.index d s)
  unfolding valid_free
  valid_free-GoesOn front back r d s succeeds run distinct =
      let (_, sizes) = All-middle (λ (x : Request). 0 < x.size) front back r run.sizes in
      let (old, blocks) =
        All-middle (λ (x : Request). d.blocks x.index ≡ x.place) front back r run.blocks in
      let removed : remove_range d.ranges (d.blocks r.index) ≡ map range_of (front ++ back) =
        rw (run.ranges, old) (close-ranges front back r run.sizes (Serving-Disjoint run.serving)) in
      let v : Serving fuel (map payload_of front ++ payload_of r ∷ map payload_of back) s =
        subst (λ z. Serving fuel z s) (map-append payload_of front (r ∷ back)) run.serving in
      subst
        (λ z.
          Returns (λ o t. GoesOn fuel (front ++ back) o t)
            ((mm_free os fuel z >>= λ _.
                pure (value true, record d { ranges = remove_range d.ranges (d.blocks r.index) }))
              s))
        (sym old)
        (Returns.bind
          (mm_free-Serving os (map payload_of front) (map payload_of back) (payload_of r) succeeds
            v)
          λ _ t (v', same). returns (record {
            goes_on = refl;
            running = record {
              serving = subst (λ z. Serving fuel z t) (sym (map-append payload_of front back)) v';
              ranges = removed;
              blocks = blocks;
              sizes = sizes;
              distinct = distinct;
            };
          }))
