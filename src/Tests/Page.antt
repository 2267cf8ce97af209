-- ===== src/Tests/Page.antt =====
-- A page of mm.c with a used and a free block, and the theorems about pages at it.
use uof_ufall.Base.{List, ℕ, ◌+◌, ◌≡◌, refl, true, false, some, [], ◌∷◌, arith, ◌==◌, if◌then◌else◌}
use uof_ufall.Machine.{Ptr, State}
use uof_ufall.Machine.Returns.{Returns}
use uof_ufall.Tests.Tables.{table}
use uof_ufall.Mm.Blocks.{split_block}
use uof_ufall.Mm.Blocks.Elsewhere.{Elsewhere-refl}
use uof_ufall.Mm.Blocks.Footer.{PageList, PageAt}
use uof_ufall.Mm.Free.Merge.{Freed}
use uof_ufall.Mm.Heap.{block, PageInv}
use uof_ufall.Mm.Heap.Listing.{insert-PageInv}
use uof_ufall.Mm.Heap.Keeps.{KeepsPage-none, KeepsHole-none}
use uof_ufall.Mm.Heap.Page.{Hole}
use uof_ufall.Mm.Heap.Split.{split_block-PageInv}
use uof_ufall.Mm.Layout.{align}
use uof_ufall.Mm.Lists.{insert_free_block}
use uof_ufall.Mm.Lists.Chain.{Chain, nil, cons}
use uof_ufall.Mm.Lists.Chunk.{Pages, first_page}
use uof_ufall.Mm.Lists.Fit.{Header, HasHeader, first_fit}
use uof_ufall.Mm.Lists.Insert.{FreeListIs}

-- The page of one chunk at 4096: a used block of 48 bytes at 4128, a free one of 4016 at 4176.
abbrev pub word_at : ℕ → ℕ
word_at a =
    if a == 4112
    then 4096
    else if a == 4120
    then 8192
    else if a == 4128
    then 48
    else if a == 4136
    then 1
    else if a == 4160
    then 48
    else if a == 4176
    then 4016
    else if a == 8176
    then 4016
    else 0

abbrev pub small : State
small = record {
  mem = λ a. some (word_at a);
  free_list_head = 4192;
  page_list_head = 4096;
  pagemap = table;
  page_count = 1;
  activity_counter = 0;
  mmap_calls = 1;
}

-- the page, as seen from a state with a free list
abbrev pub page_of : State → List Ptr → PageList
page_of s fl = record {
  ends = λ p. 8192;
  pages = 4096 ∷ [];
  from = s;
  free = fl;
  keep = λ a. false;
}

abbrev pub one_page : PageList
one_page = page_of small (4192 ∷ [])

pub small-Pages : Pages small.mem (λ p. 8192) 4096 (4096 ∷ [])
small-Pages = record {
  chain = cons (record { ne_null = omega arith; aligned = refl }) refl refl refl nil;
  ends_at = (refl, tt);
}

pub small-PageAt : PageAt small 3 one_page 4096 8192
unfolding first_page
small-PageAt = record {
  listed = small-Pages;
  enough = omega arith;
  ne_null = omega arith;
  page_end = refl;
  word = refl;
  found = λ a low high. ground arith;
  apart = λ a low high. ground arith;
}

pub small-Chain : Chain small.mem 0 4192 (4192 ∷ [])
small-Chain = cons (record { ne_null = omega arith; aligned = refl }) refl refl refl nil

pub small-PageInv :
    PageInv small 3 one_page 4096 8192 (block 48 true ∷ block 4016 false ∷ []) (4192 ∷ [])
small-PageInv = record {
  here = small-PageAt;
  aligned = refl;
  mapped = λ a low high. (word_at a, refl);
  tiles = (
    record {
      header = refl;
      word = 1;
      mark = refl;
      flag = refl;
      footer = refl;
      large = omega arith;
      aligned = refl;
    },
    (
      record {
        header = refl;
        word = 0;
        mark = refl;
        flag = refl;
        footer = refl;
        large = omega arith;
        aligned = refl;
      },
      refl,
    ),
  );
  chain = small-Chain;
  member = λ a low high. refl;
  links = λ a i. ground arith;
  elsewhere = Elsewhere-refl small (4192 ∷ []) (4096 + 32) 8192;
  keeps = KeepsPage-none 4096 _;
}

abbrev pub small_header : Ptr → Header
small_header p = record { size = 4016; allocated = 0 }

pub smevery-HasHeader : HasHeader small.mem small_header 4192
smevery-HasHeader = record { size = refl; flags = (0, refl, refl) }

first_fit-small : first_fit small_header (align 100 + 32) (4192 ∷ []) ≡ 4192
unfolding first_fit
first_fit-small = refl

-- the page when its free block has been taken off the list
abbrev taken : State
taken = record small { free_list_head = 0 }

taken-Hole : Hole taken 3 (page_of taken []) 4096 8192 (block 48 true ∷ []) 4176 4016 [] []
unfolding first_page
taken-Hole = record {
  here = record {
    listed = small-Pages;
    enough = omega arith;
    ne_null = omega arith;
    page_end = refl;
    word = refl;
    found = λ a low high. ground arith;
    apart = λ a low high. ground arith;
  };
  aligned = refl;
  mapped = λ a low high. (word_at a, refl);
  front = (small-PageInv.tiles.0, refl);
  back = refl;
  chain = nil;
  member = λ a low high. refl;
  links = λ a i. ground arith;
  elsewhere = Elsewhere-refl taken [] (4096 + 32) 8192;
  keeps = KeepsHole-none 4096 _ _ _ _;
}

split_block-PageInv_example :
    Returns
      (λ _ t.
        PageInv t 3
          (page_of taken [])
          4096
          8192
          (block 48 true ∷ block 144 true ∷ block 3872 false ∷ [])
          (4336 ∷ []))
      (split_block 3 4176 112 taken)
split_block-PageInv_example =
    split_block-PageInv taken-Hole 112 0 (omega arith) (omega arith) refl (omega arith) refl refl
      refl refl

insert-PageInv_example :
    Returns
      (λ _ t.
        PageInv t 3 (page_of taken []) 4096 8192 (block 48 true ∷ block 4016 false ∷ []) (4192 ∷ [])
        × FreeListIs taken (4192 ∷ []) (4192 ∷ []) t)
      (insert_free_block 4192 taken)
insert-PageInv_example = insert-PageInv taken-Hole small-PageInv.tiles.1.0 refl

-- the page when its used block has been marked as free
abbrev marked : State
marked = record small { mem = λ a. some (if a == 4136 then 0 else word_at a) }

marked-Freed :
    Freed marked 3
      (page_of marked (4192 ∷ []))
      4096
      8192
      []
      4128
      48
      (block 4016 false ∷ [])
      (4192 ∷ [])
unfolding first_page
marked-Freed = record {
  hole = record {
    here = record {
      listed = record {
        chain = cons (record { ne_null = omega arith; aligned = refl }) refl refl refl nil;
        ends_at = (refl, tt);
      };
      enough = omega arith;
      ne_null = omega arith;
      page_end = refl;
      word = refl;
      found = λ a low high. ground arith;
      apart = λ a low high. ground arith;
    };
    aligned = refl;
    mapped = λ a low high. (_, refl);
    front = refl;
    back = (
      record {
        header = refl;
        word = 0;
        mark = refl;
        flag = refl;
        footer = refl;
        large = omega arith;
        aligned = refl;
      },
      refl,
    );
    chain = cons (record { ne_null = omega arith; aligned = refl }) refl refl refl nil;
    member = λ a low high. refl;
    links = λ a i. ground arith;
    elsewhere = Elsewhere-refl marked (4192 ∷ []) (4096 + 32) 8192;
    keeps = KeepsHole-none 4096 _ _ _ _;
  };
  size = refl;
  word = 0;
  mark = refl;
  flag = refl;
  large = omega arith;
  aligned = refl;
}
