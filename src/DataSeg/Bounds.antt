-- ===== src/DataSeg/Bounds.antt =====
-- PA3/src/dataseg.c, `ds_sbrk`: the break stays inside the heap area.
use sysprog.Base.{
  ◌*◌, ◌/◌, ◌%◌, ℕ, ◌+◌, ◌-◌, ◌≤◌, ◌<◌, ◌^◌, ◌≡◌, refl, Bool, true, Option, some, ◌⊎◌, arith, ◌==◌,
  ltb, if◌then◌else◌,
}
use sysprog.Base.Int.{ℤ, pos, negsuc}
use sysprog.Base.Process.{ok}
use sysprog.DataSeg.{
  prot_none, prot_read_write, null, protects, allocate_at, DataSeg, Prot, failed, shift, is_zero,
  ds_allocate, ds_sbrk, ds_release,
}

-- An initialised segment: guard pages on both sides, and the break inside the heap area.
pub record IsSegment (d : DataSeg) : Type 0 where
  pub initialized : d.ds_initialized ≡ true
  pub low_guard : d.ds_start + d.pagesize ≡ d.ds_heap_start
  pub high_guard : d.ds_heap_end + d.pagesize ≡ d.ds_end
  pub above : d.ds_heap_start ≤ d.ds_heap_brk
  pub below : d.ds_heap_brk < d.ds_heap_end
  pub fits : d.ds_end < 2 ^ 64

-- `ds_allocate` of at least one byte builds a segment with an empty heap, whatever was there.
pub ds_allocate-IsSegment :
    (page : ℕ) (mmap : ℕ → Option ℕ) (max_heap_size start : ℕ) (d : DataSeg)
    → 0 < max_heap_size
    → mmap (max_heap_size + 2 * page) ≡ some start
    → start + (max_heap_size + 2 * page) < 2 ^ 64
    → (d' : DataSeg) × (ds_allocate page mmap max_heap_size d ≡ ok d')
      × IsSegment d'
      × (d'.ds_heap_brk ≡ d'.ds_heap_start)
      × (d'.ds_heap_end ≡ d'.ds_heap_start + max_heap_size)
unfolding ds_allocate allocate_at
ds_allocate-IsSegment page mmap max start d some_room mapped fits =
    let whole : (max + 2 * page) % 2 ^ 64 ≡ max + 2 * page = omega arith in
    (
      allocate_at page (max + 2 * page) start (if d.ds_start == null then d else ds_release d),
      ground (arith, whole, mapped),
      record {
        initialized = refl;
        low_guard = refl;
        high_guard = omega arith;
        above = omega arith;
        below = omega arith;
        fits = omega arith;
      },
      refl,
      omega arith,
    )

module _ (mprotect : ℕ → ℕ → Prot → Bool) where
  -- Whatever the increment, a call that returns leaves a segment with the same bounds. It answers
  -- with the old break, moved by the increment, or with `failed` and the break where it was.
  pub ds_sbrk-IsSegment :
      (increment : ℤ) (d d' : DataSeg) (r : ℕ)
      → IsSegment d
      → ds_sbrk mprotect increment d ≡ ok (r, d')
      → IsSegment d'
        × (d'.ds_heap_start ≡ d.ds_heap_start)
        × (d'.ds_heap_end ≡ d.ds_heap_end)
        × (((r ≡ d.ds_heap_brk)
              × ((is_zero increment ≡ true) × (d' ≡ d)
                  ⊎ (d'.ds_heap_brk ≡ shift d.ds_heap_brk increment)))
            ⊎ ((r ≡ failed) × (d'.ds_heap_brk ≡ d.ds_heap_brk)))
  unfolding ds_sbrk
  ds_sbrk-IsSegment increment d d' r s e = ground arith

  protects_granted :
      ((a l : ℕ) (prot : Prot) → mprotect a l prot ≡ true)
      → (brk : ℕ) (d : DataSeg) → protects mprotect brk d ≡ true
  unfolding protects
  protects_granted grants brk d = rw (
    grants (brk / d.pagesize * d.pagesize) (d.ds_end - brk / d.pagesize * d.pagesize) prot_none,
    grants d.ds_heap_start (brk - d.ds_heap_start) prot_read_write,
  )

  -- Growing by `n` bytes succeeds exactly while the break stays below the end of the heap area,
  -- given that the kernel grants every protection asked for.
  pub ds_sbrk_grow :
      (n : ℕ) (d : DataSeg)
      → IsSegment d
      → ((a l : ℕ) (prot : Prot) → mprotect a l prot ≡ true)
      → 0 < n
      → n < 2 ^ 63
      → d.ds_end < 2 ^ 63
      → ds_sbrk mprotect (pos n) d
        ≡ ok (
            if ltb (d.ds_heap_brk + n) d.ds_heap_end
            then (
              d.ds_heap_brk,
              record d { ds_heap_brk = d.ds_heap_brk + n; ds_num_sbrk = d.ds_num_sbrk + 1 },
            )
            else (failed, record d { ds_num_sbrk = d.ds_num_sbrk + 1 }))
  unfolding ds_sbrk shift
  ds_sbrk_grow n d s grants some_bytes small low =
      let near : (d.ds_heap_brk + n) % 2 ^ 64 ≡ d.ds_heap_brk + n = omega arith in
      rw near (ground (arith, protects_granted grants (d.ds_heap_brk + n) d))

  -- Shrinking by `n + 1` bytes succeeds as long as the break stays above the start of the heap.
  pub ds_sbrk_shrink :
      (n : ℕ) (d : DataSeg)
      → IsSegment d
      → ((a l : ℕ) (prot : Prot) → mprotect a l prot ≡ true)
      → d.ds_heap_start + (n + 1) ≤ d.ds_heap_brk
      → ds_sbrk mprotect (negsuc n) d
        ≡ ok (
          d.ds_heap_brk,
          record d { ds_heap_brk = d.ds_heap_brk - (n + 1); ds_num_sbrk = d.ds_num_sbrk + 1 },
        )
  unfolding ds_sbrk shift
  ds_sbrk_shrink n d s grants above =
      let near : (d.ds_heap_brk + 2 ^ 64 - (n + 1)) % 2 ^ 64 ≡ d.ds_heap_brk - (n + 1) =
        omega arith in
      rw near (ground (arith, protects_granted grants (d.ds_heap_brk - (n + 1)) d))
