-- ===== src/Tests/Walks.antt =====
-- The lists of mm.c and the neighbours of a block, on the page of Tests/Page.
use uof_ufall.Base.{◌+◌, ◌≡◌, refl, some, [], ◌∷◌, arith}
use uof_ufall.Machine.{ok, write}
use uof_ufall.Machine.Returns.{Returns}
use uof_ufall.Mm.Blocks.{write_footer}
use uof_ufall.Mm.Blocks.Footer.{write_footer-ok}
use uof_ufall.Mm.Lists.{insert_free_block, remove_free_block, find_fit}
use uof_ufall.Mm.Lists.Fit.{first_fit, find_fit-first_fit}
use uof_ufall.Mm.Lists.Insert.{FreeListIs, insert-Chain}
use uof_ufall.Mm.Lists.Remove.{remove-Chain}
use uof_ufall.Tests.Page.{small, small_header, small-PageAt, small-Chain, smevery-HasHeader}

remove-Chain_example :
    Returns
      (λ _ t.
        FreeListIs small [] (4192 ∷ []) t × (t.mem 4192 ≡ some 0) × (t.mem (4192 + 8) ≡ some 0))
      (remove_free_block 4192 small)
remove-Chain_example = remove-Chain small [] [] 4192 small-Chain

insert-Chain_example :
    Returns
      (λ _ t. FreeListIs small (4144 ∷ 4192 ∷ []) (4144 ∷ 4192 ∷ []) t × (t.free_list_head ≡ 4144))
      (insert_free_block 4144 small)
insert-Chain_example =
    insert-Chain small 4144 (record { ne_null = omega arith; aligned = refl }) refl refl small-Chain
      refl refl

find_fit-first_fit_example :
    find_fit 3 112 small ≡ ok (first_fit small_header 144 (4192 ∷ [])) small
find_fit-first_fit_example =
    find_fit-first_fit small small_header 112 3 (4192 ∷ []) small-Chain (smevery-HasHeader, tt)
      (omega arith)

write_footer-ok_example :
    write_footer 3 4176 small ≡ ok tt (record small { mem = write small.mem 8176 4016 })
write_footer-ok_example =
    write_footer-ok small 3 4176 4096 8192 small-PageAt (omega arith) (omega arith) refl refl
      (omega arith) (omega arith)
