-- ===== src/DirTree/Main/Sums.antt =====
-- PA2/src/dirtree.c: the grand total of `main`.
use sysprog.Base.{
  ℕ, ◌+◌, ◌%◌, ◌≤◌, ◌<◌, ◌≡◌, refl, sym, ap, subst, ◌∙◌, true, false, List, [], ◌∷◌, Bytes, All,
  arith,
}
use mathlib.Core.List.{Permᴰ}
use sysprog.Base.Process.{ok}
use sysprog.DirTree.{Entry, Folder, Summary, Flags}
use sysprog.DirTree.Process.Counts.{
  Counter, dirs, files, links, fifos, socks, size, value, range, range-mod, sum_folder, Counted,
}
use sysprog.DirTree.Process.Totals.{height, process_dir-sums, unchanged}
use sysprog.DirTree.Main.{add_summary, Analysis, analyze}

-- What all directories together are to add.
unfoldable pub sum_all : Counter → (Bytes → Folder) → List Bytes → ℕ
sum_all c look [] = 0
sum_all c look (d ∷ ds) = sum_folder c (look d) + sum_all c look ds

add_summary-value :
    (fl : Flags) (t d : Summary) (c : Counter)
    → fl.summary ≡ true
    → fl.dir_only ≡ false
    → value c (add_summary fl t d) ≡ (value c t + value c d) % range c
unfolding add_summary
add_summary-value fl t d dirs s o = rw s (rw o refl)
add_summary-value fl t d files s o = rw s (rw o refl)
add_summary-value fl t d links s o = rw s (rw o refl)
add_summary-value fl t d fifos s o = rw s (rw o refl)
add_summary-value fl t d socks s o = rw s (rw o refl)
add_summary-value fl t d size s o = rw s (rw o refl)

-- A sum in its range, added to a total, and then a further sum.
add_both :
    (c : Counter) (a m n : ℕ)
    → ((a + m % range c) % range c + n) % range c ≡ (a + (m + n)) % range c
add_both dirs a m n = omega arith
add_both files a m n = omega arith
add_both links a m n = omega arith
add_both fifos a m n = omega arith
add_both socks a m n = omega arith
add_both size a m n = omega arith

module _ (qsort : List Entry → List Entry) (fl : Flags) (fuel : ℕ) (look : Bytes → Folder)
    (perm : (es : List Entry) → Permᴰ es (qsort es)) (few : fuel ≤ 25) (counts : fl.summary ≡ true)
    (all_kinds : fl.dir_only ≡ false) where
  add_summary-Counted : (t d : Summary) → Counted (add_summary fl t d)
  add_summary-Counted t d c =
      subst (λ n. n < range c) (sym (add_summary-value fl t d c counts all_kinds))
        (range-mod c (value c t + value c d))

  -- With `-s` and without `-d`, on directories of at most 25 levels, the loop of `main` ends, and
  -- each field of the grand total grows by what the entries of all directories add up to, modulo
  -- the range of the field.
  pub analyze-sums :
      (ds : List Bytes) (t : Summary)
      → All (λ d. height (look d) ≤ fuel) ds
      → Counted t
      → (a : Analysis) × (analyze qsort fl fuel look ds t ≡ ok a)
        × ((c : Counter) → value c a.total ≡ (value c t + sum_all c look ds) % range c)
  unfolding analyze sum_all
  analyze-sums [] t low h = (_, refl, λ c. unchanged c (value c t) (h c))
  analyze-sums (d ∷ ds) t low h =
      let (v, runs, sums) = process_dir-sums qsort fl fuel (look d) perm few low.0 in
      let (a, ends, grown) =
        analyze-sums ds (add_summary fl t v.stats) low.1 (add_summary-Counted t v.stats) in
      (
        record { walks = v ∷ a.walks; total = a.total },
        rw runs (rw ends refl),
        λ c.
            grown c
            ∙ ap (λ n. (n + sum_all c look ds) % range c)
                (add_summary-value fl t v.stats c counts all_kinds
                  ∙ ap (λ n. (value c t + n) % range c) (sums c))
            ∙ add_both c (value c t) (sum_folder c (look d)) (sum_all c look ds),
      )
