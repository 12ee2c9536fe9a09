-- ===== src/DirTree/Names.antt =====
-- PA2/src/dirtree.c: the buffer of `abbreviateFileName`.
use sysprog.Base.{
  ℕ, zero, suc, ◌+◌, ◌-◌, ◌*◌, ◌≤◌, ◌≡◌, refl, ap, false, some, [], ◌∷◌, ◌++◌, if◌then◌else◌, ltb,
  Bytes, arith, Bool-cases, inl, inr, length, length-append, take, codes,
}
use sysprog.DirTree.{abbreviate, spaces}

length-spaces : (n : ℕ) → length (spaces n) ≡ n
length-spaces zero = refl
length-spaces (suc n) = ap suc (length-spaces n)

length-take-le : (n : ℕ) (bs : Bytes) → length (take n bs) ≤ n
length-take-le zero bs = omega arith
length-take-le (suc n) [] = omega arith
length-take-le (suc n) (b ∷ bs) = omega (arith, length-take-le n bs)

-- The name that is left of `name` at this depth.
abbrev pub shortened : ℕ → Bytes → Bytes
shortened depth name =
    if ltb 54 (length name + (depth + 1) * 2)
    then take (51 - (depth + 1) * 2) name ++ codes "..."
    else name

-- At a depth of at most 24, `abbreviateFileName` stays inside of its buffer: it indents by two
-- spaces for each level, and the name, cut down where it is too long, ends in front of the closing
-- null byte at 54.
pub abbreviate-fits :
    (depth : ℕ) (name : Bytes)
    → depth ≤ 24
    → (abbreviate depth name ≡ some (spaces ((depth + 1) * 2) ++ shortened depth name))
      × (length (spaces ((depth + 1) * 2) ++ shortened depth name) ≤ 54)
unfolding abbreviate
abbreviate-fits depth name h =
    let indent = (depth + 1) * 2 in
    let front = length-spaces indent in
    elim (Bool-cases (ltb 54 (length name + indent))) [
      | inl a ↦
          let small : ltb 51 indent ≡ false = ground arith in
          let cut = take (51 - indent) name in
          let long = length-append (spaces indent) (cut ++ codes "...") in
          rw (a, shortened, abbreviate)
            (
              rw small refl,
              omega (
                arith,
                front,
                long,
                length-append cut (codes "..."),
                length-take-le (51 - indent) name,
              ),
            )
      | inr a ↦
          let short : length name + indent ≤ 54 = ground arith in
          rw (a, shortened, abbreviate)
            (refl, omega (arith, front, short, length-append (spaces indent) name))
    ]
