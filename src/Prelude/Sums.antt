-- ===== src/Prelude/Sums.antt =====
-- Sums of a number over the elements of a list.
use llm_serving_performance.Prelude.Sort.{insert_by, sort_by}
use llm_serving_performance.Prelude.{
  Bool, ℕ, zero, suc, ◌+◌, ◌≤◌, ◌≡◌, refl, some, List, [], ◌∷◌, ◌++◌, length, get_elem?, set,
  replicate, arith,
}

unfoldable pub sum_by {ℓ} : {A : Type ℓ} → (A → ℕ) → List A → ℕ
sum_by f [] = 0
sum_by f (x ∷ xs) = f x + sum_by f xs

module _ {ℓ} {A : Type ℓ} (f : A → ℕ) where
  pub sum_by-set :
      (xs : List A) (i : ℕ) (x y : A)
      → get_elem? xs i ≡ some x
      → sum_by f (set xs i y) + f x ≡ sum_by f xs + f y
  unfolding sum_by
  sum_by-set [] i x y h = cc
  sum_by-set (z ∷ xs) zero x y h = ground arith
  sum_by-set (z ∷ xs) (suc i) x y h = omega (arith, sum_by-set xs i x y h)

  pub sum_by-append : (xs : List A) (x : A) → sum_by f (xs ++ (x ∷ [])) ≡ sum_by f xs + f x
  unfolding sum_by
  sum_by-append [] x = omega arith
  sum_by-append (y ∷ xs) x = omega (arith, sum_by-append xs x)

  pub sum_by-le : (xs : List A) → ((x : A) → f x ≤ 1) → sum_by f xs ≤ length xs
  unfolding sum_by
  sum_by-le [] h = omega arith
  sum_by-le (x ∷ xs) h = omega (arith, h x, sum_by-le xs h)

  pub sum_by-replicate : (n : ℕ) (x : A) → f x ≡ 0 → sum_by f (replicate n x) ≡ 0
  unfolding sum_by
  sum_by-replicate zero x h = refl
  sum_by-replicate (suc n) x h = omega (arith, sum_by-replicate n x h)

  pub sum_by-concat : (xs ys : List A) → sum_by f (xs ++ ys) ≡ sum_by f xs + sum_by f ys
  unfolding sum_by
  sum_by-concat [] ys = omega arith
  sum_by-concat (x ∷ xs) ys = omega (arith, sum_by-concat xs ys)

  sum_by-insert_by :
      (le : A → A → Bool) (x : A) (ys : List A) → sum_by f (insert_by le x ys) ≡ f x + sum_by f ys
  unfolding sum_by insert_by
  sum_by-insert_by le x [] = refl
  sum_by-insert_by le x (y ∷ ys) = ground (arith, sum_by-insert_by le x ys)

  -- Sorting moves elements and loses none.
  pub sum_by-sort_by : (le : A → A → Bool) (xs : List A) → sum_by f (sort_by le xs) ≡ sum_by f xs
  unfolding sum_by sort_by
  sum_by-sort_by le [] = refl
  sum_by-sort_by le (x ∷ xs) =
      omega (arith, sum_by-insert_by le x (sort_by le xs), sum_by-sort_by le xs)
