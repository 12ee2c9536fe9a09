-- ===== src/DirTree/Process/Counts.antt =====
-- PA2/src/dirtree.c: what the entries of a tree are to add to the summary.
use sysprog.Base.{
  ℕ, ◌+◌, ◌%◌, ◌^◌, ◌<◌, ◌≡◌, refl, sym, ap, ap₂, subst, ◌∙◌, Bool, false, Option, none, some, List,
  [], ◌∷◌, if◌then◌else◌, arith, Bool-cases, inl, inr,
}
use mathlib.Core.List.{Permᴰ}
use sysprog.DirTree.{
  Kind, directory, regular, link, fifo, sock, Metadata, Entry, entry, Folder, denied, holds,
  Entries, no_more, more, read_entries, is_ignored, Summary, is_folder, count_stat, count_kind,
}

-- The fields of the summary.
pub data Counter : Type 0 where
  dirs files links fifos socks size : Counter

abbrev pub value : Counter → Summary → ℕ
value dirs s = s.dirs
value files s = s.files
value links s = s.links
value fifos s = s.fifos
value socks s = s.socks
value size s = s.size

-- One more than the largest number in the field.
abbrev pub range : Counter → ℕ
range size = 2 ^ 64
range _ = 2 ^ 32

abbrev pub if_regular : Kind → ℕ
if_regular regular = 1
if_regular _ = 0

abbrev pub if_link : Kind → ℕ
if_link link = 1
if_link _ = 0

abbrev pub if_fifo : Kind → ℕ
if_fifo fifo = 1
if_fifo _ = 0

abbrev pub if_sock : Kind → ℕ
if_sock sock = 1
if_sock _ = 0

-- What one entry is to add: an entry without metadata counts as a file.
abbrev pub share : Counter → Option Metadata → ℕ
share files none = 1
share _ none = 0
share size (some m) = m.size
share dirs (some m) = if is_folder m.kind then 1 else 0
share files (some m) = if_regular m.kind
share links (some m) = if_link m.kind
share fifos (some m) = if_fifo m.kind
share socks (some m) = if_sock m.kind

abbrev pub enters : Option Metadata → Bool
enters none = false
enters (some m) = is_folder m.kind

-- What a tree is to add: all its entries but `.` and `..`, and what the directories among them hold.
unfoldable mutual
  pub sum_folder : Counter → Folder → ℕ
  sum_folder c denied = 0
  sum_folder c (holds es) = sum_entries c es

  pub sum_entries : Counter → Entries → ℕ
  sum_entries c no_more = 0
  sum_entries c (more e es) = sum_entry c e + sum_entries c es

  pub sum_entry : Counter → Entry → ℕ
  sum_entry c (entry d below) =
      let inside = sum_folder c below in
      if is_ignored d then 0 else share c d.stat + (if enters d.stat then inside else 0)

-- What an entry that is not ignored is to add.
unfoldable pub adds : Counter → Entry → ℕ
adds c (entry d below) = share c d.stat + (if enters d.stat then sum_folder c below else 0)

unfoldable pub sum_list : Counter → List Entry → ℕ
sum_list c [] = 0
sum_list c (e ∷ es) = adds c e + sum_list c es

pub sum_list-read_entries :
    (c : Counter) (es : Entries) → sum_list c (read_entries es) ≡ sum_entries c es
unfolding sum_list read_entries sum_folder adds
sum_list-read_entries c no_more = refl
sum_list-read_entries c (more (entry d below) es) =
    let rest = sum_list-read_entries c es in
    elim (Bool-cases (is_ignored d)) [
      | inl t ↦ rw (t, read_entries) (omega (arith, rest))
      | inr t ↦ rw (t, read_entries) (omega (arith, rest))
    ]

-- The order of the entries does not matter.
pub sum_list-perm : (c : Counter) (es fs : List Entry) → Permᴰ es fs → sum_list c es ≡ sum_list c fs
unfolding sum_list
sum_list-perm c _ _ Permᴰ.nil = refl
sum_list-perm c _ _ (Permᴰ.cons e p) = ap₂ ◌+◌ (ap (adds c) e) (sum_list-perm c _ _ p)
sum_list-perm c _ _ (Permᴰ.swap e f) = omega (arith, ap (adds c) e, ap (adds c) f)
sum_list-perm c _ _ (Permᴰ.trans p q) = sum_list-perm c _ _ p ∙ sum_list-perm c _ _ q

-- `n` is in the range of the field.
abbrev pub Counted : Summary → Type 0
Counted s = (c : Counter) → value c s < range c

-- The part of a share that is due to the type.
abbrev kind_share : Counter → Kind → ℕ
kind_share dirs k = if is_folder k then 1 else 0
kind_share files k = if_regular k
kind_share links k = if_link k
kind_share fifos k = if_fifo k
kind_share socks k = if_sock k
kind_share size k = 0

-- The `switch` adds the share of the type to the counter.
CountsKind : Summary → Counter → Kind → Type 0
unfolding count_kind
CountsKind s c k = value c (count_kind k s) ≡ (value c s + kind_share c k) % range c

count_kind-value :
    (k : Kind) (s : Summary) (c : Counter)
    → Counted s
    → value c (count_kind k s) ≡ (value c s + kind_share c k) % range c
unfolding count_kind CountsKind
count_kind-value k s dirs h =
    let small = h dirs in
    elim k as (CountsKind s dirs) [ directory ↦ refl | _ ↦ omega (arith, small) ]
count_kind-value k s files h =
    let small = h files in
    elim k as (CountsKind s files) [ regular ↦ refl | _ ↦ omega (arith, small) ]
count_kind-value k s links h =
    let small = h links in elim k as (CountsKind s links) [ link ↦ refl | _ ↦ omega (arith, small) ]
count_kind-value k s fifos h =
    let small = h fifos in elim k as (CountsKind s fifos) [ fifo ↦ refl | _ ↦ omega (arith, small) ]
count_kind-value k s socks h =
    let small = h socks in elim k as (CountsKind s socks) [ sock ↦ refl | _ ↦ omega (arith, small) ]
count_kind-value k s size h =
    let small = h size in
    elim k as (CountsKind s size) [ directory ↦ omega (arith, small) | _ ↦ omega (arith, small) ]

pub count_stat-value :
    (m : Option Metadata) (s : Summary) (c : Counter)
    → Counted s
    → value c (count_stat m s) ≡ (value c s + share c m) % range c
unfolding count_stat
count_stat-value none s dirs h = omega (arith, h dirs)
count_stat-value none s files h = refl
count_stat-value none s links h = omega (arith, h links)
count_stat-value none s fifos h = omega (arith, h fifos)
count_stat-value none s socks h = omega (arith, h socks)
count_stat-value none s size h = omega (arith, h size)
count_stat-value (some m) s dirs h = count_kind-value m.kind s dirs h
count_stat-value (some m) s files h = count_kind-value m.kind s files h
count_stat-value (some m) s links h = count_kind-value m.kind s links h
count_stat-value (some m) s fifos h = count_kind-value m.kind s fifos h
count_stat-value (some m) s socks h = count_kind-value m.kind s socks h
count_stat-value (some m) s size h = omega (arith, count_kind-value m.kind s size h, h size)

pub range-mod : (c : Counter) (n : ℕ) → n % range c < range c
range-mod dirs n = omega arith
range-mod files n = omega arith
range-mod links n = omega arith
range-mod fifos n = omega arith
range-mod socks n = omega arith
range-mod size n = omega arith

-- Two sums in a row are one sum.
pub add_mod :
    (c : Counter) (a m n : ℕ) → ((a + m) % range c + n) % range c ≡ (a + (m + n)) % range c
add_mod dirs a m n = omega arith
add_mod files a m n = omega arith
add_mod links a m n = omega arith
add_mod fifos a m n = omega arith
add_mod socks a m n = omega arith
add_mod size a m n = omega arith

pub count_stat-Counted : (m : Option Metadata) (s : Summary) → Counted s → Counted (count_stat m s)
count_stat-Counted m s h c =
    subst (λ n. n < range c) (sym (count_stat-value m s c h)) (range-mod c (value c s + share c m))
