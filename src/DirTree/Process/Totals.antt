-- ===== src/DirTree/Process/Totals.antt =====
-- PA2/src/dirtree.c: `processDir` counts the entries of the tree.
use sysprog.Base.{
  ℕ, zero, suc, ◌+◌, ◌*◌, ◌%◌, ◌≤◌, ◌<◌, ◌≡◌, refl, sym, ap, subst, ◌∙◌, Bool, true, false, ◌&&◌,
  Option, none, some, List, [], ◌∷◌, if◌then◌else◌, Bytes, All, length, arith, Bool-cases, inl, inr,
  ltb,
}
use Prim.Native.Nat.{max}
use mathlib.Core.List.{Permᴰ}
use mathlib.Core.Path.{fun_ext}
use sysprog.Base.Process.{Run, ok, ◌>>=◌}
use sysprog.DirTree.{
  Metadata, Entry, entry, Folder, denied, holds, Entries, no_more, more, read_entries, is_ignored,
  Summary, Flags, abbreviate, is_folder, Walk, count_stat, unreadable, named,
}
use sysprog.DirTree.Process.{
  add_line, line_of, Recursion, show_entry, visit_named, visit, visit_all, process_dir,
}
use sysprog.DirTree.Process.Counts.{
  Counter, dirs, files, links, fifos, socks, size, value, range, share, enters, sum_folder, adds,
  sum_list, sum_list-read_entries, sum_list-perm, Counted, count_stat-value, count_stat-Counted,
  add_mod,
}

-- The directories that lead into each other.
unfoldable mutual
  pub height : Folder → ℕ
  height denied = 0
  height (holds es) = suc (height_in es)

  pub height_in : Entries → ℕ
  height_in no_more = 0
  height_in (more (entry d below) es) =
      let inside = height below in max (if enters d.stat then inside else 0) (height_in es)

-- The summary `s` has grown by the sums.
pub record Tally (sums : Counter → ℕ) (s : Summary) (v : Walk) : Type 0 where
  pub counted : Counted v.stats
  pub grown : (c : Counter) → value c v.stats ≡ (value c s + sums c) % range c

-- The walk goes on from the summary `s` to a walk whose summary has grown by the sums.
unfoldable pub Grows : (Counter → ℕ) → Summary → Run Walk → Type 0
Grows sums s r = (v : Walk) × (r ≡ ok v) × Tally sums s v

pub unchanged : (c : Counter) (n : ℕ) → n < range c → n ≡ (n + 0) % range c
unchanged dirs n h = omega arith
unchanged files n h = omega arith
unchanged links n h = omega arith
unchanged fifos n h = omega arith
unchanged socks n h = omega arith
unchanged size n h = omega arith

nothing-Grows : (w : Walk) → Counted w.stats → Grows (λ c. 0) w.stats (ok w)
unfolding Grows
nothing-Grows w h =
    (w, refl, record { counted = h; grown = λ c. unchanged c (value c w.stats) (h c) })

-- One walk behind another.
Grows-then :
    (f g : Counter → ℕ) (s : Summary) (r : Run Walk) (k : Walk → Run Walk)
    → Grows f s r
    → ((v : Walk) → Counted v.stats → Grows g v.stats (k v))
    → Grows (λ c. f c + g c) s (r >>= k)
unfolding Grows
Grows-then f g s r k (v, e, t) h =
    let (u, e', t') = h v t.counted in
    (
      u,
      ap (λ x. x >>= k) e ∙ e',
      record {
        counted = t'.counted;
        grown = λ c.
            t'.grown c
            ∙ ap (λ n. (n + g c) % range c) (t.grown c)
            ∙ add_mod c (value c s) (f c) (g c);
      },
    )

-- The statistics of an entry, and the walk behind them.
Grows-Counted :
    (m : Option Metadata) (f : Counter → ℕ) (s : Summary) (r : Run Walk)
    → Counted s
    → Grows f (count_stat m s) r
    → Grows (λ c. share c m + f c) s r
unfolding Grows
Grows-Counted m f s r h (v, e, t) = (
  v,
  e,
  record {
    counted = t.counted;
    grown = λ c.
        t.grown c
        ∙ ap (λ n. (n + f c) % range c) (count_stat-value m s c h)
        ∙ add_mod c (value c s) (share c m) (f c);
  },
)

and-false : (b : Bool) → (b && false) ≡ false
and-false true = refl
and-false false = refl

-- At a depth of at most 24, the name fits into its buffer.
abbreviate-some :
    (depth : ℕ) (name : Bytes) → depth ≤ 24 → (short : Bytes) × (abbreviate depth name ≡ some short)
unfolding abbreviate
abbreviate-some depth name h = elim (Bool-cases (ltb 54 (length name + (depth + 1) * 2))) [
  | inl a ↦
      rw (a, abbreviate)
        (let small : ltb 51 ((depth + 1) * 2) ≡ false = ground arith in rw small (_, refl))
  | inr a ↦ rw (a, abbreviate) (_, refl)
]

-- A directory at this entry has at most so many levels.
abbrev Low : ℕ → Entry → Type 0
Low n (entry d below) = enters d.stat ≡ true → height below ≤ n

module _ (recur : Recursion) (fl : Flags) (depth n : ℕ)
    (walks : (folder : Folder) (w : Walk)
      → height folder ≤ n
      → Counted w.stats
      → Grows (λ c. sum_folder c folder) w.stats (recur (depth + 1) folder w)) where
  show_entry-Grows :
      (name short : Bytes) (m : Option Metadata) (below : Folder) (w : Walk)
      → (enters m ≡ true → height below ≤ n)
      → Counted w.stats
      → Grows
          (λ c. if enters m then sum_folder c below else 0)
          w.stats
          (show_entry recur fl depth name short m below w)
  unfolding show_entry
  show_entry-Grows name short none below w low h = elim (Bool-cases fl.dir_only) [
    | inl a ↦ rw a (nothing-Grows w h)
    | inr a ↦
        rw a
          (nothing-Grows (add_line (if fl.verbose then unreadable short else named depth name) w) h)
  ]
  show_entry-Grows name short (some m) below w low h =
      let line = add_line (line_of fl depth name short m) w in
      elim (Bool-cases (is_folder m.kind)) [
        | inl a ↦ rw (a, and-false fl.dir_only, enters) (walks below line (low a) h)
        | inr a ↦
            rw (a, enters)
              (elim (Bool-cases fl.dir_only) [
                | inl b ↦ rw b (nothing-Grows w h)
                | inr b ↦ rw b (nothing-Grows line h)
              ])
      ]

  visit-Grows :
      (e : Entry) (w : Walk)
      → depth ≤ 24
      → Low n e
      → Counted w.stats
      → Grows (λ c. adds c e) w.stats (visit recur fl depth e w)
  unfolding visit visit_named adds
  visit-Grows (entry d below) w shallow low h =
      let (short, e) = abbreviate-some depth d.name shallow in
      subst
        (λ o. Grows (λ c. adds c (entry d below)) w.stats (visit_named recur fl depth d below w o))
        (sym e)
        (Grows-Counted d.stat (λ c. if enters d.stat then sum_folder c below else 0) w.stats _ h
          (show_entry-Grows d.name short d.stat below
            (record w { stats = count_stat d.stat w.stats }) low
            (count_stat-Counted d.stat w.stats h)))

  visit_all-Grows :
      (es : List Entry) (w : Walk)
      → depth ≤ 24
      → All (Low n) es
      → Counted w.stats
      → Grows (λ c. sum_list c es) w.stats (visit_all recur fl depth es w)
  unfolding visit_all sum_list
  visit_all-Grows [] w shallow low h = nothing-Grows w h
  visit_all-Grows (e ∷ es) w shallow low h =
      Grows-then (λ c. adds c e) (λ c. sum_list c es) w.stats (visit recur fl depth e w)
        (visit_all recur fl depth es) (visit-Grows e w shallow low.0 h)
        (λ v. visit_all-Grows es v shallow low.1)

pub All-perm {ℓ κ} :
    {A : Type ℓ} (P : A → Type κ) (xs ys : List A) → Permᴰ xs ys → All P xs → All P ys
All-perm P _ _ Permᴰ.nil h = tt
All-perm P _ _ (Permᴰ.cons e p) h = (subst P e h.0, All-perm P _ _ p h.1)
All-perm P _ _ (Permᴰ.swap e f) h = (subst P f h.1.0, (subst P e h.0, h.1.1))
All-perm P _ _ (Permᴰ.trans p q) h = All-perm P _ _ q (All-perm P _ _ p h)

height_in-Low : (es : Entries) (n : ℕ) → height_in es ≤ n → All (Low n) (read_entries es)
unfolding height read_entries
height_in-Low no_more n h = tt
height_in-Low (more (entry d below) es) n h =
    let rest : All (Low n) (read_entries es) = height_in-Low es n (omega arith) in
    let below_low : enters d.stat ≡ true → height below ≤ n =
      λ e. let le : max (height below) (height_in es) ≤ n = rw e at h in omega (arith, le) in
    elim (Bool-cases (is_ignored d)) [
      | inl t ↦ rw (t, read_entries) rest
      | inr t ↦ rw (t, read_entries) (λ e. below_low e, rest)
    ]

process_dir-Grows :
    (qsort : List Entry → List Entry) (fl : Flags)
    → ((es : List Entry) → Permᴰ es (qsort es))
    → (fuel depth : ℕ) (folder : Folder) (w : Walk) → depth + fuel ≤ 25
    → height folder ≤ fuel
    → Counted w.stats
    → Grows (λ c. sum_folder c folder) w.stats (process_dir qsort fl fuel depth folder w)
unfolding process_dir sum_folder height
process_dir-Grows qsort fl perm zero depth denied w room low h = nothing-Grows _ h
process_dir-Grows qsort fl perm (suc fuel) depth denied w room low h = nothing-Grows _ h
process_dir-Grows qsort fl perm zero depth (holds es) w room low h = absurd (omega arith)
process_dir-Grows qsort fl perm (suc fuel) depth (holds es) w room low h =
    let listed = read_entries es in
    let same = λ (c : Counter).
      sym (sum_list-perm c listed (qsort listed) (perm listed)) ∙ sum_list-read_entries c es in
    subst (λ f. Grows f w.stats (visit_all (process_dir qsort fl fuel) fl depth (qsort listed) w))
      (fun_ext same)
      (visit_all-Grows (process_dir qsort fl fuel) fl depth fuel
        (λ folder v low' h'.
          process_dir-Grows qsort fl perm fuel (depth + 1) folder v (omega arith) low' h')
        (qsort listed) w (omega arith)
        (All-perm (Low fuel) listed (qsort listed) (perm listed)
          (height_in-Low es fuel (omega arith)))
        h)

-- The summary and the lines at the start of a directory of `main`.
abbrev pub no_walk : Walk
no_walk = record {
  stats = record { dirs = 0; files = 0; links = 0; fifos = 0; socks = 0; size = 0 };
  lines = [];
}

pub no_walk-Counted : Counted no_walk.stats
no_walk-Counted dirs = omega arith
no_walk-Counted files = omega arith
no_walk-Counted links = omega arith
no_walk-Counted fifos = omega arith
no_walk-Counted socks = omega arith
no_walk-Counted size = omega arith

from_zero : (c : Counter) → value c no_walk.stats ≡ 0
from_zero dirs = refl
from_zero files = refl
from_zero links = refl
from_zero fifos = refl
from_zero socks = refl
from_zero size = refl

-- Whatever the flags, and however `qsort` orders the entries, as long as it only reorders them: on a
-- tree of at most 25 levels of directories, with fuel for its levels, `processDir` ends without
-- writing outside of a buffer, and each field of the summary is what the entries of the tree add up
-- to, modulo the range of the field.
pub process_dir-sums :
    (qsort : List Entry → List Entry) (fl : Flags) (fuel : ℕ) (folder : Folder)
    → ((es : List Entry) → Permᴰ es (qsort es))
    → fuel ≤ 25
    → height folder ≤ fuel
    → (v : Walk) × (process_dir qsort fl fuel 0 folder no_walk ≡ ok v)
      × ((c : Counter) → value c v.stats ≡ sum_folder c folder % range c)
unfolding Grows
process_dir-sums qsort fl fuel folder perm few low =
    let (v, runs, t) =
      process_dir-Grows qsort fl perm fuel 0 folder no_walk (omega arith) low no_walk-Counted in
    (
      v,
      runs,
      λ c.
          t.grown c
          ∙ ap (λ n. (n + sum_folder c folder) % range c) (from_zero c)
          ∙ ap (λ n. n % range c) (omega arith),
    )
