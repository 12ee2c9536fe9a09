-- ===== src/McDonalds/Places.antt =====
-- Lists of threads: the thread at a place, sums over all threads, and what holds of each.
use sysprog.Base.{
  ℕ, zero, suc, ◌+◌, ◌≤◌, ◌≡◌, refl, Option, none, some, List, [], ◌∷◌, ◌++◌, All, arith, ap, subst,
}

abbrev pub get_elem? {ℓ} : {A : Type ℓ} → List A → ℕ → Option A
get_elem? [] i = none
get_elem? (x ∷ xs) zero = some x
get_elem? (x ∷ xs) (suc i) = get_elem? xs i

abbrev pub set_elem {ℓ} : {A : Type ℓ} → List A → ℕ → A → List A
set_elem [] i y = []
set_elem (x ∷ xs) zero y = y ∷ xs
set_elem (x ∷ xs) (suc i) y = x ∷ set_elem xs i y

unfoldable pub replicate {ℓ} : {A : Type ℓ} → ℕ → A → List A
replicate zero a = []
replicate (suc n) a = a ∷ replicate n a

unfoldable pub total {ℓ} : {A : Type ℓ} → (A → ℕ) → List A → ℕ
total w [] = 0
total w (x ∷ xs) = w x + total w xs

some-injective {ℓ} : {A : Type ℓ} {x y : A} → some x ≡ some y → x ≡ y
some-injective e = cc

module _ {ℓ} {A : Type ℓ} (w : A → ℕ) where
  pub total-set_elem :
      (xs : List A) (i : ℕ) (x y : A)
      → get_elem? xs i ≡ some x
      → total w (set_elem xs i y) + w x ≡ total w xs + w y
  unfolding total
  total-set_elem [] i x y e = absurd cc
  total-set_elem (a ∷ xs) zero x y e = omega (arith, ap w (some-injective e))
  total-set_elem (a ∷ xs) (suc i) x y e = omega (arith, total-set_elem xs i x y e)

  pub get_elem?-total : (xs : List A) (i : ℕ) (x : A) → get_elem? xs i ≡ some x → w x ≤ total w xs
  unfolding total
  get_elem?-total [] i x e = absurd cc
  get_elem?-total (a ∷ xs) zero x e = omega (arith, ap w (some-injective e))
  get_elem?-total (a ∷ xs) (suc i) x e = omega (arith, get_elem?-total xs i x e)

  pub total-add : (xs : List A) (y : A) → total w (xs ++ y ∷ []) ≡ total w xs + w y
  unfolding total
  total-add [] y = omega arith
  total-add (x ∷ xs) y = omega (arith, total-add xs y)

  pub total-replicate : (n : ℕ) (x : A) → w x ≡ 0 → total w (replicate n x) ≡ 0
  unfolding total replicate
  total-replicate zero x e = refl
  total-replicate (suc n) x e = omega (arith, e, total-replicate n x e)

module _ {ℓ κ} {A : Type ℓ} (P : A → Type κ) where
  pub All-set_elem : (xs : List A) (i : ℕ) (y : A) → All P xs → P y → All P (set_elem xs i y)
  All-set_elem [] i y h p = tt
  All-set_elem (x ∷ xs) zero y h p = (p, h.1)
  All-set_elem (x ∷ xs) (suc i) y h p = (h.0, All-set_elem xs i y h.1 p)

  pub All-get_elem? : (xs : List A) (i : ℕ) (x : A) → All P xs → get_elem? xs i ≡ some x → P x
  All-get_elem? [] i x h e = absurd cc
  All-get_elem? (a ∷ xs) zero x h e = subst P (some-injective e) h.0
  All-get_elem? (a ∷ xs) (suc i) x h e = All-get_elem? xs i x h.1 e

  pub All-replicate : (n : ℕ) (x : A) → P x → All P (replicate n x)
  unfolding replicate
  All-replicate zero x p = tt
  All-replicate (suc n) x p = (p, All-replicate n x p)

  pub All-map {μ} : (Q : A → Type μ) → ((x : A) → P x → Q x) → (xs : List A) → All P xs → All Q xs
  All-map Q f [] h = tt
  All-map Q f (x ∷ xs) h = (f x h.0, All-map Q f xs h.1)
