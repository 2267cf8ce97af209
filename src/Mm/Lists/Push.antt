-- ===== src/Mm/Lists/Push.antt =====
-- `mm_malloc` of mm.c puts a new page in front of the page list.
use uof_ufall.Base.{◌+◌, ◌≡◌, refl, false, some, List, ◌∷◌, arith, ne→==}
use uof_ufall.Machine.{Ptr, null, State, write}
use uof_ufall.Machine.Returns
use uof_ufall.Machine.Returns.{Returns, returns}
use uof_ufall.Mm.Lists.{push_page}
use uof_ufall.Mm.Lists.Chain
use uof_ufall.Mm.Lists.Chain.{Chain, Element, has, nil, cons, not-link}
use uof_ufall.Mm.Lists.Unlink.{PageListIs}

-- For a page whose links are null and the head of the well-formed page list, on which it is not,
-- `push_page` makes it the first page of the list and writes nowhere but to links.
pub push-Chain :
    (s : State) (pc : Ptr) {head : Ptr} {xs : List Ptr}
    → Element pc
    → s.mem pc ≡ some null
    → s.mem (pc + 8) ≡ some head
    → Chain s.mem null head xs
    → s.page_list_head ≡ head
    → has pc xs ≡ false
    → Returns (λ _ t. PageListIs s (pc ∷ xs) t) (push_page pc s)
unfolding push_page write
push-Chain s pc el e f nil at out =
    rw at (returns (record { chain = cons el refl e f nil; same = λ a o. refl; rest = refl }))
push-Chain s pc el e f (cons {p} {q} {xs} el' out' back fwd c) at out =
    let (apart, apart') = not-link pc c el.aligned (ground arith) in
    rw (at, ne→== p null el'.ne_null)
      (Returns.store_then _ _ _ {v = null} _ back (
        returns (record {
          chain = cons el (ground arith) (ground arith) (ground arith) (
              cons el' out' (ground arith) (ground arith)
                (Chain.frame c λ a i. ground (arith, not-link p c el'.aligned out')));
          same = λ a o. ground arith;
          rest = refl;
        })))
