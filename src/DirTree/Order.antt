-- ===== src/DirTree/Order.antt =====
-- PA2/src/dirtree.c: `dirent_compare` as an order.
use sysprog.Base.{
  ℕ, zero, suc, ◌<◌, ◌≡◌, refl, ◌⊎◌, Bool, true, false, [], ◌∷◌, Bytes, arith, inl, inr, ◌&&◌, not,
}
use sysprog.Base.Int.{ℤ, pos, negsuc}
use sysprog.DirTree.{Dirent, strcmp, dirent_compare}

abbrev pub is_negative : ℤ → Bool
is_negative (pos n) = false
is_negative (negsuc n) = true

-- The comparison the other way round.
abbrev pub opposite : ℤ → ℤ
opposite (pos zero) = pos zero
opposite (pos (suc n)) = negsuc n
opposite (negsuc n) = pos (suc n)

strcmp-opposite : (s t : Bytes) → strcmp t s ≡ opposite (strcmp s t)
unfolding strcmp
strcmp-opposite [] [] = refl
strcmp-opposite [] (d ∷ t) = refl
strcmp-opposite (c ∷ s) [] = refl
strcmp-opposite (c ∷ s) (d ∷ t) = ground (arith, strcmp-opposite s t)

-- The first byte decides, or else the rest does.
first_byte :
    (c d : ℕ) (s t : Bytes)
    → is_negative (strcmp (c ∷ s) (d ∷ t)) ≡ true
    → (c < d) ⊎ ((c ≡ d) × (is_negative (strcmp s t) ≡ true))
unfolding strcmp
first_byte c d s t h = ground arith

by_first_byte :
    (c d : ℕ) (s t : Bytes)
    → (c < d) ⊎ ((c ≡ d) × (is_negative (strcmp s t) ≡ true))
    → is_negative (strcmp (c ∷ s) (d ∷ t)) ≡ true
unfolding strcmp
by_first_byte c d s t (inl h) = ground arith
by_first_byte c d s t (inr h) = ground arith

strcmp_trans :
    (s t u : Bytes)
    → is_negative (strcmp s t) ≡ true
    → is_negative (strcmp t u) ≡ true
    → is_negative (strcmp s u) ≡ true
unfolding strcmp
strcmp_trans [] [] u h i = absurd cc
strcmp_trans [] (d ∷ t) [] h i = absurd cc
strcmp_trans [] (d ∷ t) (e ∷ u) h i = refl
strcmp_trans (c ∷ s) [] u h i = absurd cc
strcmp_trans (c ∷ s) (d ∷ t) [] h i = absurd cc
strcmp_trans (c ∷ s) (d ∷ t) (e ∷ u) h i = by_first_byte c e s u (elim (first_byte c d s t h) [
  | inl lt ↦ elim (first_byte d e t u i) [
    | inl lt' ↦ inl (omega arith)
    | inr (eq, le) ↦ inl (omega arith)
  ]
  | inr (eq, le) ↦ elim (first_byte d e t u i) [
    | inl lt' ↦ inl (omega arith)
    | inr (eq', le') ↦ inr (omega arith, strcmp_trans s t u le le')
  ]
])

strcmp_irrefl : (s : Bytes) → strcmp s s ≡ pos 0
unfolding strcmp
strcmp_irrefl [] = refl
strcmp_irrefl (c ∷ s) = ground (arith, strcmp_irrefl s)

-- `a` comes before `b`.
abbrev pub Before : Dirent → Dirent → Type 0
Before a b = is_negative (dirent_compare a b) ≡ true

opposite-compare : (a b : Dirent) → dirent_compare b a ≡ opposite (dirent_compare a b)
unfolding dirent_compare
opposite-compare a b = ground (arith, strcmp-opposite a.name b.name)

compare_trans : (a b c : Dirent) → Before a b → Before b c → Before a c
unfolding dirent_compare
compare_trans a b c h i = ground (arith, strcmp_trans a.name b.name c.name)

compare_irrefl : (a : Dirent) → dirent_compare a a ≡ pos 0
unfolding dirent_compare
compare_irrefl a = ground (arith, strcmp_irrefl a.name)

-- One entry comes before another, that before a third, and the first not before the third.
abbrev pub skips : Dirent → Dirent → Dirent → Bool
skips a b c =
    is_negative (dirent_compare a b)
    && is_negative (dirent_compare b c)
    && not (is_negative (dirent_compare a c))

skips-never : (x y z : Bool) → (x ≡ true → y ≡ true → z ≡ true) → (x && y && not z) ≡ false
skips-never true true z h = rw (h refl refl) refl
skips-never true false z h = refl
skips-never false y z h = refl

-- For any three entries, `dirent_compare` is an order, as `qsort` asks for: it never happens that
-- the first comes before the second, the second before the third, and the first not before the
-- third; with its arguments swapped the result changes its sign; and an entry is equal to itself.
pub dirent_compare_trans :
    (a b c : Dirent)
    → (skips a b c ≡ false)
      × (dirent_compare b a ≡ opposite (dirent_compare a b))
      × (dirent_compare a a ≡ pos 0)
dirent_compare_trans a b c =
    (skips-never _ _ _ (compare_trans a b c), opposite-compare a b, compare_irrefl a)
