-- ===== src/Tests/Segment.antt =====
-- Runs of PA3/src/dataseg.c.
use sysprog.Base.{ℕ, ◌+◌, ◌*◌, ◌^◌, ◌≡◌, refl, Bool, true, some, ◌⊎◌, arith}
use sysprog.Base.Int.{pos}
use sysprog.Base.Process.{ok}
use sysprog.DataSeg.{DataSeg, Prot, failed, shift, is_zero, ds_allocate, ds_sbrk}
use sysprog.DataSeg.Bounds.{IsSegment, ds_allocate-IsSegment, ds_sbrk-IsSegment, ds_sbrk_grow}

-- A heap area of 2 ^ 20 bytes between two guard pages, all of it unused.
abbrev pub clean : DataSeg
clean = record {
  ds_start = 4096;
  ds_end = 4096 * 3 + 2 ^ 20;
  ds_heap_start = 8192;
  ds_heap_brk = 8192;
  ds_heap_end = 8192 + 2 ^ 20;
  pagesize = 4096;
  ds_initialized = true;
  ds_domprotect = true;
  ds_num_sbrk = 0;
}

pub clean-IsSegment : IsSegment clean
clean-IsSegment = record {
  initialized = refl;
  low_guard = refl;
  high_guard = refl;
  above = omega arith;
  below = omega arith;
  fits = omega arith;
}

abbrev grants : ℕ → ℕ → Prot → Bool
grants a l prot = true

-- The break moves up by one page.
abbrev one_page : DataSeg
one_page = record clean { ds_heap_brk = 12288; ds_num_sbrk = 1 }

one_page_up : ds_sbrk grants (pos 4096) clean ≡ ok (8192, one_page)
one_page_up =
    ds_sbrk_grow grants 4096 clean clean-IsSegment (λ a l prot. refl) (omega arith) (omega arith)
      (omega arith)

ds_sbrk-IsSegment_example :
    IsSegment one_page
    × (one_page.ds_heap_start ≡ clean.ds_heap_start)
    × (one_page.ds_heap_end ≡ clean.ds_heap_end)
    × (((8192 ≡ clean.ds_heap_brk)
          × ((is_zero (pos 4096) ≡ true) × (one_page ≡ clean)
              ⊎ (one_page.ds_heap_brk ≡ shift clean.ds_heap_brk (pos 4096))))
        ⊎ ((8192 ≡ failed) × (one_page.ds_heap_brk ≡ clean.ds_heap_brk)))
ds_sbrk-IsSegment_example =
    ds_sbrk-IsSegment grants (pos 4096) clean one_page 8192 clean-IsSegment one_page_up

-- A mapping for 2 ^ 20 bytes and two guard pages.
ds_allocate-IsSegment_example :
    (d' : DataSeg) × (ds_allocate 4096 (λ n. some 4096) (2 ^ 20) clean ≡ ok d')
    × IsSegment d'
    × (d'.ds_heap_brk ≡ d'.ds_heap_start)
    × (d'.ds_heap_end ≡ d'.ds_heap_start + 2 ^ 20)
ds_allocate-IsSegment_example =
    ds_allocate-IsSegment 4096 (λ n. some 4096) (2 ^ 20) 4096 clean (omega arith) refl (omega arith)
