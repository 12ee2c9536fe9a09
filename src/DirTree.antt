-- ===== src/DirTree.antt =====
-- PA2/src/dirtree.c: `processDir` and what it calls, on a directory tree.
--
-- What `readdir`, `lstat`, `opendir`, `getpwuid` and `getgrgid` answer is the tree; `qsort` is a
-- parameter of `process_dir`. What is printed is a list of lines. `malloc` and `realloc` succeed.
pub mod Process
pub mod Order
pub mod Names
pub mod Main
use sysprog.Base.{
  ℕ, zero, suc, ◌+◌, ◌-◌, ◌*◌, ◌/◌, ◌%◌, ◌^◌, Bool, true, false, not, ◌&&◌, ◌||◌, Option, none,
  some, List, [], ◌∷◌, ◌++◌, ltb, ◌==◌, if◌then◌else◌, length, take, Bytes, bytes_eq, codes,
}
use sysprog.Base.Int.{ℤ, pos, negsuc}
use sysprog.Base.Process.{Run, ok, aborts, out_of_fuel, ◌>>=◌}

-- `st_mode & S_IFMT`
pub data Kind : Type 0 where
  directory regular link fifo sock char_device block_device other : Kind

-- What `lstat` gives, with the names of the owner and the group that are found.
pub record Metadata : Type 0 where
  pub kind : Kind
  pub size : ℕ
  pub mode : ℕ
  pub owner : Option Bytes
  pub group : Option Bytes

-- `d_name`, whether `d_type` is `DT_DIR`, and what `lstat` gives unless it fails.
pub record Dirent : Type 0 where
  pub name : Bytes
  pub is_dir : Bool
  pub stat : Option Metadata

-- An entry with what `opendir` finds at its path, and a directory: it cannot be opened, or has
-- entries in the order of `readdir`.
mutual
  pub data Entry : Type 0 where
    entry : Dirent → Folder → Entry

  pub data Folder : Type 0 where
    denied : Folder
    holds : Entries → Folder

  pub data Entries : Type 0 where
    no_more : Entries
    more : Entry → Entries → Entries

pub record Summary : Type 0 where
  pub dirs : ℕ
  pub files : ℕ
  pub links : ℕ
  pub fifos : ℕ
  pub socks : ℕ
  pub size : ℕ

pub record Flags : Type 0 where
  pub dir_only : Bool
  pub summary : Bool
  pub verbose : Bool

-- The entries that `getNext` gives.
abbrev pub is_ignored : Dirent → Bool
is_ignored d = bytes_eq d.name (codes ".") || bytes_eq d.name (codes "..")

unfoldable pub read_entries : Entries → List Entry
read_entries no_more = []
read_entries (more (entry d below) es) =
    let rest = read_entries es in if is_ignored d then rest else entry d below ∷ rest

-- The sign of `strcmp` on byte strings.
unfoldable pub strcmp : Bytes → Bytes → ℤ
strcmp [] [] = pos 0
strcmp [] (d ∷ t) = negsuc 0
strcmp (c ∷ s) [] = pos 1
strcmp (c ∷ s) (d ∷ t) = if ltb c d then negsuc 0 else if ltb d c then pos 1 else strcmp s t

unfoldable pub dirent_compare : Dirent → Dirent → ℤ
unfolding strcmp
dirent_compare e1 e2 =
    if e1.is_dir && not e2.is_dir
    then negsuc 0
    else if not e1.is_dir && e2.is_dir
    then pos 1
    else strcmp e1.name e2.name

abbrev pub spaces : ℕ → Bytes
spaces zero = []
spaces (suc n) = 32 ∷ spaces n

-- `abbreviateFileName`; `none` when it writes outside of its buffer of 55 bytes. The buffer ends
-- with a null byte.
unfoldable pub abbreviate : ℕ → Bytes → Option Bytes
abbreviate depth name =
    let indent = (depth + 1) * 2 in
    if ltb 54 (length name + indent)
    then if ltb 51 indent
      then none
      else some (spaces indent ++ (take (51 - indent) name ++ codes "..."))
    else some (spaces indent ++ name)

-- The letter of a permission, from its bit of the mode.
abbrev pub letter : ℕ → ℕ → ℕ → ℕ
letter mode bit c = if mode / bit % 2 == 1 then c else b'-'

abbrev pub permission : ℕ → Bytes
permission mode =
    letter mode 256 b'r'
    ∷ letter mode 128 b'w'
    ∷ letter mode 64 b'x'
    ∷ letter mode 32 b'r'
    ∷ letter mode 16 b'w'
    ∷ letter mode 8 b'x'
    ∷ letter mode 4 b'r'
    ∷ letter mode 2 b'w'
    ∷ letter mode 1 b'x'
    ∷ []

abbrev pub type_char : Kind → ℕ
type_char directory = b'd'
type_char regular = b' '
type_char link = b'l'
type_char fifo = b'f'
type_char sock = b's'
type_char char_device = b'c'
type_char block_device = b'd'
type_char other = b' '

abbrev pub is_folder : Kind → Bool
is_folder directory = true
is_folder _ = false

abbrev pub or_unknown : Option Bytes → Bytes
or_unknown none = codes "Unknown"
or_unknown (some name) = name

-- The lines of `processDir`, with the fields that it prints.
pub data TreeLine : Type 0 where
  failed : ℕ → TreeLine
  named : ℕ → Bytes → TreeLine
  unreadable : Bytes → TreeLine
  details : Bytes → Bytes → Bytes → ℕ → Bytes → ℕ → TreeLine

-- `stats`, and the lines so far.
pub record Walk : Type 0 where
  pub stats : Summary
  pub lines : List TreeLine

-- The `switch` on the type, and the size.
unfoldable pub count_kind : Kind → Summary → Summary
count_kind directory s = record s { dirs = (s.dirs + 1) % 2 ^ 32 }
count_kind regular s = record s { files = (s.files + 1) % 2 ^ 32 }
count_kind link s = record s { links = (s.links + 1) % 2 ^ 32 }
count_kind fifo s = record s { fifos = (s.fifos + 1) % 2 ^ 32 }
count_kind sock s = record s { socks = (s.socks + 1) % 2 ^ 32 }
count_kind char_device s = s
count_kind block_device s = s
count_kind other s = s

unfoldable pub count_stat : Option Metadata → Summary → Summary
unfolding count_kind
count_stat none s = record s { files = (s.files + 1) % 2 ^ 32 }
count_stat (some m) s =
    let t = count_kind m.kind s in record t { size = (t.size + m.size) % 2 ^ 64 }
