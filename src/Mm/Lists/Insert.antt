-- ===== src/Mm/Lists/Insert.antt =====
-- `insert_free_block` of mm.c puts a block in front of the free list.
use uof_ufall.Base.{ℕ, ◌+◌, ◌≡◌, refl, false, some, List, ◌∷◌, arith, ne→==}
use uof_ufall.Machine.{Ptr, null, State, write}
use uof_ufall.Machine.Returns
use uof_ufall.Machine.Returns.{Returns, returns}
use uof_ufall.Mm.Lists.{insert_free_block}
use uof_ufall.Mm.Lists.Chain
use uof_ufall.Mm.Lists.Chain.{Chain, Element, has, SameOutside, nil, cons, not-link}

-- The final state `t` of a command that leaves the list `xs` and changes only the memory and the
-- head of the free list of `s`, and of the memory only the links of `touched`.
pub record FreeListIs (s : State) (xs touched : List Ptr) (t : State) : Type 0 where
  pub chain : Chain t.mem null t.free_list_head xs
  pub same : SameOutside touched s.mem t.mem
  pub rest : t ≡ record s { mem = t.mem; free_list_head = t.free_list_head }

module _ (s : State) (bp : Ptr) {u v : ℕ} (el : Element bp) (e : s.mem bp ≡ some u)
    (f : s.mem (bp + 8) ≡ some v) where
  -- Inserting a block whose two link words are mapped, whose address is a nonzero multiple of 16,
  -- and which is not on the well-formed free list yet, puts it in front of the list: the other
  -- blocks stay on it in their order, nothing but links of the new list is written, and the
  -- static variables other than the head stay.
  pub insert-Chain :
      {head : Ptr} {xs : List Ptr}
      → Chain s.mem null head xs
      → s.free_list_head ≡ head
      → has bp xs ≡ false
      → Returns
          (λ _ t. FreeListIs s (bp ∷ xs) (bp ∷ xs) t × (t.free_list_head ≡ bp))
          (insert_free_block bp s)
  unfolding insert_free_block write
  insert-Chain nil at out = Returns.store_then _ _ _ _ e (
      Returns.store_then _ _ _ {v = v} _ (ground arith) (
        rw at (
          returns (
            record {
              chain = cons el refl (ground arith) (ground arith) nil;
              same = ground arith;
              rest = refl;
            },
            refl,
          ))))
  insert-Chain (cons {p} {q} {xs} el' out' back fwd c) at out =
      let (apart, apart') = not-link bp c el.aligned (ground arith) in
      Returns.store_then _ _ _ _ e (
        Returns.store_then _ _ _ {v = v} _ (ground arith) (
          rw (at, ne→== p null el'.ne_null)
            (Returns.store_then _ _ _ {v = null} _ (ground arith) (
              returns (
                record {
                  chain = cons el (ground arith) (ground arith) (ground arith) (
                      cons el' out' (ground arith) (ground arith)
                        (Chain.frame c λ a i. ground (arith, not-link p c el'.aligned out')));
                  same = λ a o. ground arith;
                  rest = refl;
                },
                refl,
              )))))
