-- ===== src/Tests/Client.antt =====
-- What mm.c promises its clients, on the heap of one page.
use uof_ufall.Base.{ℕ, ◌≤◌, refl, List, [], ◌∷◌, arith}
use mathlib.Core.List.{Mem}
use mathlib.Core.List.Perm
use uof_ufall.Machine.Returns.{Returns}
use uof_ufall.Mm.{mm_malloc, mm_free}
use uof_ufall.Mm.Arena.Apart.{Disjoint}
use uof_ufall.Mm.Arena.Client.{Holds, Served, mm_malloc-Served, mm_malloc-Disjoint, mm_free-Holds}
use uof_ufall.Mm.Arena.Keeping.{Unchanged}
use uof_ufall.Mm.Arena.Live.{Payload, payload}
use uof_ufall.Tests.{linux}
use uof_ufall.Tests.Arena.{ends, blocks, small-HeapInv, small-fit_found}
use uof_ufall.Tests.Page.{small}

-- the payload of the used block of 48 bytes
abbrev in_use : List Payload
in_use = payload 4144 16 ∷ []

abbrev small-Holds : Holds 3 in_use small
small-Holds = record {
  ends = ends;
  pages = 4096 ∷ [];
  blocks = blocks;
  list = 4192 ∷ [];
  heap = small-HeapInv;
  in_use = Perm.refl _;
}

mm_malloc-Served_example : Returns (Served 3 in_use small 100) (mm_malloc linux 3 100 small)
mm_malloc-Served_example =
    mm_malloc-Served linux 100 0 small-Holds (omega arith) (omega arith) (omega arith) (omega arith)
      λ e. absurd (small-fit_found e)

mm_free-Holds_example :
    Returns (λ _ t. Holds 3 [] t × Unchanged [] small t) (mm_free linux 3 4144 small)
mm_free-Holds_example = mm_free-Holds linux 4144 16 (λ q size. refl) small-Holds

mm_malloc-Disjoint_example :
    Returns
      (λ p t.
        (room : ℕ) × (100 ≤ room) × ((f : Payload) → Mem f in_use → Disjoint (payload p room) f))
      (mm_malloc linux 3 100 small)
mm_malloc-Disjoint_example =
    mm_malloc-Disjoint linux 100 0 small-Holds (omega arith) (omega arith) (omega arith)
      (omega arith) λ e. absurd (small-fit_found e)
