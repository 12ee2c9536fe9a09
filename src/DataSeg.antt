-- ===== src/DataSeg.antt =====
-- PA3/src/dataseg.c: the simulated data segment. Addresses are numbers below 2 ^ 64, `NULL` is 0,
-- and arithmetic on them wraps. `mmap`, `mprotect` and `getpagesize` are parameters; log output
-- and `errno` are left out.
pub mod Bounds
use sysprog.Base.{
  ℕ, ◌+◌, ◌-◌, ◌*◌, ◌/◌, ◌%◌, ◌^◌, Bool, true, false, ◌&&◌, Option, none, some, ltb, leb, ◌==◌,
  if◌then◌else◌,
}
use sysprog.Base.Int.{ℤ, pos, negsuc}
use sysprog.Base.Process.{Run, ok, aborts}

pub record DataSeg : Type 0 where
  pub ds_start : ℕ
  pub ds_end : ℕ
  pub ds_heap_start : ℕ
  pub ds_heap_brk : ℕ
  pub ds_heap_end : ℕ
  pub pagesize : ℕ
  pub ds_initialized : Bool
  pub ds_domprotect : Bool
  pub ds_num_sbrk : ℕ

abbrev pub null : ℕ
null = 0

-- `(void*)-1`
abbrev pub failed : ℕ
failed = 2 ^ 64 - 1

pub data Prot : Type 0 where
  prot_none prot_read_write : Prot

-- A pointer moved by an `intptr_t`.
pub shift : ℕ → ℤ → ℕ
shift p (pos n) = (p + n) % 2 ^ 64
shift p (negsuc n) = (p + 2 ^ 64 - (n + 1)) % 2 ^ 64

abbrev pub is_zero : ℤ → Bool
is_zero (pos n) = n == 0
is_zero (negsuc n) = false

pub ds_release : DataSeg → DataSeg
ds_release d = record d {
  ds_start = null;
  ds_end = null;
  ds_heap_start = null;
  ds_heap_brk = null;
  ds_heap_end = null;
  pagesize = 0;
  ds_initialized = false;
}

-- The part of `ds_allocate` behind `mmap`.
allocate_at : ℕ → ℕ → ℕ → DataSeg → DataSeg
allocate_at page ds_size start d = record d {
  ds_start = start;
  ds_end = start + ds_size;
  ds_heap_start = start + page;
  ds_heap_brk = start + page;
  ds_heap_end = start + ds_size - page;
  pagesize = page;
  ds_initialized = true;
  ds_num_sbrk = 0;
}

-- `mmap` answers `none` for `MAP_FAILED`.
unfoldable pub ds_allocate : ℕ → (ℕ → Option ℕ) → ℕ → DataSeg → Run DataSeg
unfolding allocate_at ds_release
ds_allocate page mmap max_heap_size d =
    let d' = if d.ds_start == null then d else ds_release d in
    let ds_size = (max_heap_size + 2 * page) % 2 ^ 64 in
    elim (mmap ds_size) [ none ↦ aborts | some start ↦ ok (allocate_at page ds_size start d') ]

unfoldable pub ds_getpagesize : DataSeg → Run ℕ
ds_getpagesize d = if d.ds_initialized then ok d.pagesize else aborts

abbrev pub ds_getnsbrk : DataSeg → ℕ
ds_getnsbrk d = d.ds_num_sbrk

abbrev pub ds_setmprotect : ℤ → DataSeg → DataSeg
ds_setmprotect active d = record d {
  ds_domprotect = elim active [ pos n ↦ ltb 0 n | negsuc n ↦ false ];
}

module _ (mprotect : ℕ → ℕ → Prot → Bool) where
  -- The two `mprotect` calls for a break at `brk`, the page of the break closed first.
  protects : ℕ → DataSeg → Bool
  protects brk d =
      let aligned_brk = brk / d.pagesize * d.pagesize in
      mprotect aligned_brk (d.ds_end - aligned_brk) prot_none
      && mprotect d.ds_heap_start (brk - d.ds_heap_start) prot_read_write

  -- The new break is taken, or refused and only counted.
  move_brk : ℕ → DataSeg → Run (ℕ × DataSeg)
  unfolding protects
  move_brk brk d =
      if leb d.ds_heap_start brk && ltb brk d.ds_heap_end
      then (if d.ds_domprotect
          then (if protects brk d
              then ok
                  (d.ds_heap_brk, record d { ds_heap_brk = brk; ds_num_sbrk = d.ds_num_sbrk + 1 })
              else aborts)
          else ok (d.ds_heap_brk, record d { ds_heap_brk = brk; ds_num_sbrk = d.ds_num_sbrk + 1 }))
      else ok (failed, record d { ds_num_sbrk = d.ds_num_sbrk + 1 })

  -- The old break, or `failed`, and the new segment.
  unfoldable pub ds_sbrk : ℤ → DataSeg → Run (ℕ × DataSeg)
  unfolding move_brk
  ds_sbrk increment d =
      if d.ds_initialized
      then (if is_zero increment
          then ok (d.ds_heap_brk, d)
          else move_brk (shift d.ds_heap_brk increment) d)
      else aborts
