-- ===== src/MemMgr/Words.antt =====
-- PA3/src/memmgr.c, lines 114 to 157: the macros for words, boundary tags and block pointers.
use sysprog.Base.{ℕ, ◌+◌, ◌-◌, ◌*◌, ◌/◌, ◌%◌, ◌^◌, ◌==◌, if◌then◌else◌}

-- The word at each address.
abbrev pub Mem : Type 0
Mem = ℕ → ℕ

abbrev pub type_size : ℕ
type_size = 8

abbrev pub bs : ℕ
bs = 32

abbrev pub chunksize : ℕ
chunksize = 2 ^ 16

abbrev pub shrinkthld : ℕ
shrinkthld = 2 ^ 14

pub data Status : Type 0 where
  free alloc : Status

-- `size | status`
unfoldable pub pack : ℕ → Status → ℕ
pack size free = size
pack size alloc = size / 2 * 2 + 1

-- `PUT(p, v)`; `GET(p)` is `m p`.
unfoldable pub put : ℕ → ℕ → Mem → Mem
put p v m a = if a == p then v else m a

-- `v & SIZE_MASK` and `v & STATUS_MASK`
abbrev pub size_of : ℕ → ℕ
size_of v = v / 8 * 8

abbrev pub status_of : ℕ → ℕ
status_of v = v % 8

abbrev pub get_size : Mem → ℕ → ℕ
get_size m p = size_of (m p)

abbrev pub get_status : Mem → ℕ → ℕ
get_status m p = status_of (m p)

abbrev pub prev_ptr : ℕ → ℕ
prev_ptr p = p - 8

abbrev pub next_ptr : ℕ → ℕ
next_ptr p = p + 8

abbrev pub next_next_ptr : ℕ → ℕ
next_next_ptr p = p + 16

abbrev pub hdr2ftr : Mem → ℕ → ℕ
hdr2ftr m p = p + get_size m p - 8

abbrev pub next_blkp : Mem → ℕ → ℕ
next_blkp m p = p + get_size m p

abbrev pub prev_blkp : Mem → ℕ → ℕ
prev_blkp m p = p - get_size m (prev_ptr p)

-- `x & BS_MASK`
abbrev pub align_down : ℕ → ℕ
align_down x = x / 32 * 32

-- The pair of writes `PUT(p, tag); PUT(HDR2FTR(p), tag)`.
unfoldable pub write_tags : ℕ → ℕ → Status → Mem → Mem
unfolding put
write_tags p size status m =
    let m' = put p (pack size status) m in put (hdr2ftr m' p) (pack size status) m'
