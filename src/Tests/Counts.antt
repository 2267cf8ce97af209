-- ===== src/Tests/Counts.antt =====
-- The pages that are counted in a run of the driver.
use uof_ufall.Base.{ℕ, ◌+◌, ◌^◌, ◌<◌, ◌≡◌, refl, [], sym, ap, ◌∙◌, arith}
use uof_ufall.Driver.Eval.{alloc, free, Driver, Usage, no_usage, Outcome, value, util_op}
use uof_ufall.Machine.{State, Run, ok, fault, aborted, out_of_fuel}
use uof_ufall.Mm.{
  mm_init, mm_malloc, mm_free, map_size, format_page, check_and_unmap_full_pages, coalesce,
  fills_page, is_free_block, merge_neighbours, merge_next, merge_prev, unmap_full_loop,
}
use uof_ufall.Mm.Lists.{
  find_fit, push_page, find_page_chunk_for_addr, find_fit_loop, find_page_loop, fits,
  insert_free_block, remove_free_block, unlink_page,
}
use uof_ufall.Mm.Layout.{set_size, set_free, block_size, get_alloc, set_alloc}
use uof_ufall.Mm.Blocks.{write_footer, split_block, cut_block, get_next_block, get_prev_block}
use uof_ufall.Machine.{mmap, store, write, load, munmap}
use uof_ufall.Memlib.{
  mem_map, mem_pagesize, decoy, is_mapped, map_loop, mem_unmap, modify, unmap_loop,
}
use uof_ufall.Pagemap.{
  ensure, ensure_maps1, ensure_maps2, ensure_maps3, is_head, link_next, link_prev, map_entry,
  unmap_entry, pagemap_modify, pagemap_is_mapped,
}
use uof_ufall.Tests.{linux}
use uof_ufall.Tests.Arena.{start}

abbrev pub plenty : ℕ
plenty = 2 ^ 64 + 2

abbrev pub driver : Driver
driver = record { ranges = []; errors = 0; blocks = λ i. 0; block_sizes = λ i. 0 }

abbrev state_of : {A : Type 0} → Run A → State
state_of (ok a s) = s
state_of fault = start
state_of aborted = start
state_of out_of_fuel = start

abbrev driver_of : Run (Outcome (Driver × Usage)) → Driver
driver_of (ok (value (d, u)) s) = d
driver_of _ = driver

abbrev asked : State → Run (Outcome (Driver × Usage))
asked s = util_op linux plenty (alloc 0 5000) driver no_usage s

abbrev freed : Driver → Usage → State → Run (Outcome (Driver × Usage))
freed d u s = util_op linux plenty (free 0) d u s

abbrev begun : State
begun = state_of (mm_init start)

asked-page_count : (state_of (asked begun)).page_count ≡ 2
unfolding util_op mm_init mm_malloc mm_free map_size format_page check_and_unmap_full_pages coalesce
    fills_page is_free_block merge_neighbours merge_next merge_prev unmap_full_loop find_fit
    push_page find_page_chunk_for_addr find_fit_loop find_page_loop fits insert_free_block
    remove_free_block unlink_page set_size set_free block_size get_alloc set_alloc write_footer
    split_block cut_block get_next_block get_prev_block mmap store write load munmap mem_map
    mem_pagesize decoy is_mapped map_loop mem_unmap modify unmap_loop ensure ensure_maps1
    ensure_maps2 ensure_maps3 is_head link_next link_prev map_entry unmap_entry pagemap_modify
    pagemap_is_mapped
asked-page_count = refl

freed-page_count :
    (u : Usage)
    → (state_of (freed (driver_of (asked begun)) u (state_of (asked begun)))).page_count ≡ 0
unfolding util_op mm_init mm_malloc mm_free map_size format_page check_and_unmap_full_pages coalesce
    fills_page is_free_block merge_neighbours merge_next merge_prev unmap_full_loop find_fit
    push_page find_page_chunk_for_addr find_fit_loop find_page_loop fits insert_free_block
    remove_free_block unlink_page set_size set_free block_size get_alloc set_alloc write_footer
    split_block cut_block get_next_block get_prev_block mmap store write load munmap mem_map
    mem_pagesize decoy is_mapped map_loop mem_unmap modify unmap_loop ensure ensure_maps1
    ensure_maps2 ensure_maps3 is_head link_next link_prev map_entry unmap_entry pagemap_modify
    pagemap_is_mapped
freed-page_count u = refl

-- the states of the run are the ones above
module _ (r : ℕ) (s : State) (e : mm_init start ≡ ok r s) (d : Driver) (u : Usage) (t : State)
    (k : asked s ≡ ok (value (d, u)) t) where
  asked-driver : d ≡ driver_of (asked begun)
  asked-driver = sym (ap driver_of k) ∙ ap (λ b. driver_of (asked b)) (sym (ap state_of e))

  asked-state : t ≡ state_of (asked begun)
  asked-state = sym (ap state_of k) ∙ ap (λ b. state_of (asked b)) (sym (ap state_of e))

  pub asked-small : t.page_count < 2 ^ 19
  asked-small = omega (arith, ap (λ b. b.page_count) asked-state, asked-page_count)

  pub freed-small :
      (w : Usage) (d' : Driver) (u' : Usage) (t' : State)
      → freed d w t ≡ ok (value (d', u')) t'
      → t'.page_count < 2 ^ 19
  freed-small w d' u' t' k' =
      let same =
        sym (ap state_of k')
        ∙ (ap (λ b. state_of (freed b w t)) asked-driver
            ∙ ap (λ b. state_of (freed (driver_of (asked begun)) w b)) asked-state) in
      omega (arith, ap (λ b. b.page_count) same, freed-page_count w)
