-- ===== src/DirTree/Main.antt =====
-- PA2/src/dirtree.c: `main`, its options, and its loop over the directories.
pub mod Sums
use sysprog.Base.{
  ℕ, zero, suc, ◌+◌, ◌%◌, ◌^◌, Bool, true, false, Option, none, some, List, [], ◌∷◌, ◌++◌, ltb,
  ◌==◌, if◌then◌else◌, length, Bytes, bytes_eq, codes,
}
use sysprog.Base.Process.{Run, ok, ◌>>=◌}
use sysprog.DirTree.{Entry, Folder, Summary, Flags, Walk}
use sysprog.DirTree.Process.{process_dir}
use sysprog.DirTree.Process.Totals.{no_walk}

abbrev pub max_dir : ℕ
max_dir = 64

-- `flags`, `directories`, and the arguments of the warnings.
pub record Options : Type 0 where
  pub flags : Flags
  pub directories : List Bytes
  pub ignored : List Bytes

abbrev pub no_options : Options
no_options = record {
  flags = record { dir_only = false; summary = false; verbose = false };
  directories = [];
  ignored = [];
}

abbrev pub add_directory : Bytes → Options → Options
add_directory a o =
    if ltb (length o.directories) max_dir
    then record o { directories = o.directories ++ a ∷ [] }
    else record o { ignored = o.ignored ++ a ∷ [] }

-- `none` when the argument makes the program print its syntax and exit.
unfoldable pub read_flag : Bytes → Flags → Option Flags
read_flag a fl =
    if bytes_eq a (codes "-d")
    then some record fl { dir_only = true }
    else if bytes_eq a (codes "-s")
    then some record fl { summary = true }
    else if bytes_eq a (codes "-v")
    then some record fl { verbose = true }
    else none

abbrev pub set_flags : Option Flags → Options → Option Options
set_flags none o = none
set_flags (some fl) o = some record o { flags = fl }

unfoldable pub read_argument : Bytes → Options → Option Options
read_argument [] o = some (add_directory [] o)
read_argument (c ∷ cs) o =
    if c == b'-' then set_flags (read_flag (c ∷ cs) o.flags) o else some (add_directory (c ∷ cs) o)

unfoldable pub read_arguments : List Bytes → Option Options → Option Options
read_arguments args none = none
read_arguments [] (some o) = some o
read_arguments (a ∷ rest) (some o) = read_arguments rest (read_argument a o)

abbrev pub default_directory : List Bytes → List Bytes
default_directory [] = codes "." ∷ []
default_directory (d ∷ ds) = d ∷ ds

-- The update of the grand total by the summary of one directory.
unfoldable pub add_summary : Flags → Summary → Summary → Summary
add_summary fl t d =
    if fl.summary
    then if fl.dir_only then record t { dirs = (t.dirs + d.dirs) % 2 ^ 32 } else record {
      dirs = (t.dirs + d.dirs) % 2 ^ 32;
      files = (t.files + d.files) % 2 ^ 32;
      links = (t.links + d.links) % 2 ^ 32;
      fifos = (t.fifos + d.fifos) % 2 ^ 32;
      socks = (t.socks + d.socks) % 2 ^ 32;
      size = (t.size + d.size) % 2 ^ 64;
    }
    else t

-- The walks of the directories, in their order, and the grand total.
pub record Analysis : Type 0 where
  pub walks : List Walk
  pub total : Summary

-- The loop over the directories; `look` tells what `opendir` finds at a path.
unfoldable pub analyze :
    (List Entry → List Entry) → Flags → ℕ → (Bytes → Folder) → List Bytes → Summary → Run Analysis
analyze qsort fl fuel look [] t = ok record { walks = []; total = t }
analyze qsort fl fuel look (d ∷ ds) t = process_dir qsort fl fuel 0 (look d) no_walk >>= λ v.
    analyze qsort fl fuel look ds (add_summary fl t v.stats) >>= λ r.
    ok record { walks = v ∷ r.walks; total = r.total }
