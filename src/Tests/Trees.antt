-- ===== src/Tests/Trees.antt =====
-- Runs of PA2/src/dirtree.c.
use sysprog.Base.{
  ◌∷◌, [], ◌+◌, All, List, Bytes, ◌≡◌, ◌%◌, refl, true, false, some, none, codes, arith, ◌≤◌, ◌++◌,
  length,
}
use sysprog.Base.Process.{ok}
use sysprog.Base.Int.{pos}
use mathlib.Core.List.Permᴰ
use sysprog.DirTree.{
  directory, regular, Dirent, entry, Folder, holds, denied, no_more, more, Flags, Walk,
  dirent_compare, abbreviate, spaces,
}
use sysprog.DirTree.Process.{process_dir}
use sysprog.DirTree.Process.Counts.{Counter, value, range, sum_folder}
use sysprog.DirTree.Process.Totals.{height, no_walk, no_walk-Counted, process_dir-sums}
use sysprog.DirTree.Order.{skips, opposite, dirent_compare_trans}
use sysprog.DirTree.Main.{Analysis, analyze, no_options, read_flag, read_argument, read_arguments}
use sysprog.DirTree.Main.Sums.{sum_all, analyze-sums}
use sysprog.DirTree.Names.{shortened, abbreviate-fits}

abbrev plain : Flags
plain = record { dir_only = false; summary = true; verbose = false }

abbrev a_file : Dirent
a_file = record {
  name = codes "a";
  is_dir = false;
  stat = some record { kind = regular; size = 7; mode = 420; owner = none; group = none };
}

abbrev b_folder : Dirent
b_folder = record {
  name = codes "b";
  is_dir = true;
  stat = some record { kind = directory; size = 64; mode = 493; owner = none; group = none };
}

abbrev c_file : Dirent
c_file = record { name = codes "c"; is_dir = false; stat = none }

-- A file, and a directory that cannot be opened.
abbrev two : Folder
two = holds (more (entry a_file denied) (more (entry b_folder denied) no_more))

two-low : height two ≤ 1
unfolding height
two-low = omega arith

process_dir-sums_example :
    (v : Walk) × (process_dir (λ es. es) plain 1 0 two no_walk ≡ ok v)
    × ((c : Counter) → value c v.stats ≡ sum_folder c two % range c)
process_dir-sums_example =
    process_dir-sums (λ es. es) plain 1 two (λ es. Permᴰ.refl es) (omega arith) two-low

dirent_compare_trans_example :
    (skips b_folder a_file c_file ≡ false)
    × (dirent_compare a_file b_folder ≡ opposite (dirent_compare b_folder a_file))
    × (dirent_compare b_folder b_folder ≡ pos 0)
dirent_compare_trans_example = dirent_compare_trans b_folder a_file c_file

abbreviate-fits_example :
    (abbreviate 0 (codes "a") ≡ some (spaces 2 ++ shortened 0 (codes "a")))
    × (length (spaces 2 ++ shortened 0 (codes "a")) ≤ 54)
abbreviate-fits_example = abbreviate-fits 0 (codes "a") (omega arith)

-- At depth 25, a name of three bytes is too long, and its copy gets a length of -1.
too_deep : abbreviate 25 (codes "abc") ≡ none
unfolding abbreviate
too_deep = refl

two_low : (es : List Bytes) → All (λ d. height two ≤ 1) es
two_low [] = tt
two_low (d ∷ ds) = (two-low, two_low ds)

-- The same directory twice.
analyze-sums_example :
    (a : Analysis) × (analyze
        (λ es. es)
        plain
        1
        (λ d. two)
        (codes "x" ∷ codes "y" ∷ [])
        no_walk.stats
      ≡ ok a)
    × ((c : Counter)
        → value c a.total
          ≡ (value c no_walk.stats + sum_all c (λ d. two) (codes "x" ∷ codes "y" ∷ [])) % range c)
analyze-sums_example =
    analyze-sums (λ es. es) plain 1 (λ d. two) (λ es. Permᴰ.refl es) (omega arith) refl refl
      (codes "x" ∷ codes "y" ∷ []) no_walk.stats (two_low (codes "x" ∷ codes "y" ∷ []))
      no_walk-Counted

options :
    read_arguments (codes "-s" ∷ codes "src" ∷ codes "-v" ∷ []) (some no_options)
    ≡ some record {
      flags = record { dir_only = false; summary = true; verbose = true };
      directories = codes "src" ∷ [];
      ignored = [];
    }
unfolding read_flag read_argument read_arguments
options = refl
