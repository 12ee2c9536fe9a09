-- ===== src/DirTree/Process.antt =====
-- PA2/src/dirtree.c: `processDir`, and the loop of `main` over its directories.
pub mod Counts
pub mod Totals
use sysprog.Base.{
  ℕ, zero, suc, ◌+◌, ◌%◌, ◌^◌, Bool, true, false, not, ◌&&◌, Option, none, some, List, [], ◌∷◌,
  ◌++◌, if◌then◌else◌, Bytes,
}
use sysprog.Base.Process.{Run, ok, aborts, out_of_fuel, ◌>>=◌}
use sysprog.DirTree.{
  Metadata, Dirent, Entry, entry, Folder, denied, holds, read_entries, Summary, Flags, abbreviate,
  permission, type_char, is_folder, or_unknown, TreeLine, failed, named, unreadable, details, Walk,
  count_stat,
}

abbrev pub add_line : TreeLine → Walk → Walk
add_line l w = record w { lines = w.lines ++ l ∷ [] }

-- The lines of an entry whose metadata was read, at its abbreviated name.
abbrev pub line_of : Flags → ℕ → Bytes → Bytes → Metadata → TreeLine
line_of fl depth name short m =
    if fl.verbose
    then details short (or_unknown m.owner) (or_unknown m.group) m.size (permission m.mode)
        (type_char m.kind)
    else named depth name

-- How the walk goes on in a directory.
abbrev pub Recursion : Type 0
Recursion = ℕ → Folder → Walk → Run Walk

-- Behind the update of the statistics.
unfoldable pub show_entry :
    Recursion → Flags → ℕ → Bytes → Bytes → Option Metadata → Folder → Walk → Run Walk
show_entry recur fl depth name short none below w =
    if fl.dir_only
    then ok w
    else ok (add_line (if fl.verbose then unreadable short else named depth name) w)
show_entry recur fl depth name short (some m) below w =
    if fl.dir_only && not (is_folder m.kind)
    then ok w
    else if is_folder m.kind
    then recur (depth + 1) below (add_line (line_of fl depth name short m) w)
    else ok (add_line (line_of fl depth name short m) w)

-- An entry at its abbreviated name; it aborts where `abbreviateFileName` writes outside of its
-- buffer.
unfoldable pub visit_named :
    Recursion → Flags → ℕ → Dirent → Folder → Walk → Option Bytes → Run Walk
visit_named recur fl depth d below w none = aborts
visit_named recur fl depth d below w (some short) =
    show_entry recur fl depth d.name short d.stat below
      (record w { stats = count_stat d.stat w.stats })

-- One round of the loop.
unfoldable pub visit : Recursion → Flags → ℕ → Entry → Walk → Run Walk
visit recur fl depth (entry d below) w =
    visit_named recur fl depth d below w (abbreviate depth d.name)

unfoldable pub visit_all : Recursion → Flags → ℕ → List Entry → Walk → Run Walk
visit_all recur fl depth [] w = ok w
visit_all recur fl depth (e ∷ es) w = visit recur fl depth e w >>= visit_all recur fl depth es

-- On fuel: one more than the directories that lead into each other.
unfoldable pub process_dir : (List Entry → List Entry) → Flags → ℕ → Recursion
process_dir qsort fl fuel depth denied w = ok (add_line (failed depth) w)
process_dir qsort fl zero depth (holds es) w = out_of_fuel
process_dir qsort fl (suc fuel) depth (holds es) w =
    visit_all (process_dir qsort fl fuel) fl depth (qsort (read_entries es)) w
