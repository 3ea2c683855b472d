-- ===== src/Experiment/Product.antt =====
-- `checkedProduct` and `maxOne` of internal/experiment/plan.go. The counts are lengths of lists.
use llm_serving_performance.Prelude.{
  refl, sym, Bool, ap, arith, false, true, ◌<◌, ◌↔◌, ◌∙◌, Bool-cases, List, Option, [],
  if◌then◌else◌, inl, inr, ltb, none, some, ℕ, ◌*◌, ◌/◌, ◌==◌, ◌||◌, ◌∷◌, ◌≡◌, ◌≤◌,
}
use llm_serving_performance.Prelude.Int.{max_int64}
use native.Mathlib.Nat.{
  div-mul-le_self, mul_assoc, mul-le-mul_right, le-mul_of_pos_right, le-div_iff_mul-le,
}

-- The loop, with the result so far; `none` is the error.
unfoldable pub checked_product_from : ℕ → List ℕ → Option ℕ
checked_product_from result [] = some result
checked_product_from result (value ∷ values) =
    let rest = checked_product_from (result * value) values in
    if value == 0 || ltb (max_int64 / value) result then none else rest

unfoldable pub checked_product : List ℕ → Option ℕ
unfolding checked_product_from
checked_product values = checked_product_from 1 values

abbrev pub max_one : ℕ → ℕ
max_one value = if value == 0 then 1 else value

unfoldable pub product : List ℕ → ℕ
product [] = 1
product (n ∷ ns) = n * product ns

abbrev pub AllPositive : List ℕ → Type 0
AllPositive [] = Unit {0}
AllPositive (n ∷ ns) = (0 < n) × AllPositive ns

pub product-positive : (values : List ℕ) → AllPositive values → 0 < product values
unfolding product
product-positive [] all = omega arith
product-positive (n ∷ ns) (positive, all) = grind (arith, product-positive ns all)

pub checked_product_from_sound :
    (values : List ℕ) (r n : ℕ)
    → r ≤ max_int64
    → checked_product_from r values ≡ some n
    → (n ≡ r * product values) × (n ≤ max_int64)
unfolding checked_product_from product
checked_product_from_sound [] r n low h = some_eq r n low h
  where
    some_eq : (r n : ℕ) → r ≤ max_int64 → some r ≡ some n → (n ≡ r * 1) × (n ≤ max_int64)
    some_eq r n low h = (ground arith, ground arith)
checked_product_from_sound (v ∷ vs) r n low h =
    elim (Bool-cases (v == 0 || ltb (max_int64 / v) r)) [
      | inl e ↦ absurd (refused (checked_product_from (r * v) vs) n _ e h)
      | inr e ↦
          let (exact, fits) =
            checked_product_from_sound vs (r * v) n (within r v e)
              (accepted (checked_product_from (r * v) vs) n _ e h) in
          (exact ∙ mul_assoc r v (product vs), fits)
    ]
  where
    refused :
        (rest : Option ℕ) (n : ℕ) (bad : Bool)
        → bad ≡ true
        → (if bad then none else rest) ≡ some n
        → ⊥
    refused rest n bad e h = ground arith

    accepted :
        (rest : Option ℕ) (n : ℕ) (bad : Bool)
        → bad ≡ false
        → (if bad then none else rest) ≡ some n
        → rest ≡ some n
    accepted rest n bad e h = ground arith

    within : (r v : ℕ) → (v == 0 || ltb (max_int64 / v) r) ≡ false → r * v ≤ max_int64
    within r v e =
        let low : r ≤ max_int64 / v = ground arith in
        omega (arith, mul-le-mul_right v low, div-mul-le_self max_int64 v)

checked_product_from_complete :
    (values : List ℕ) (r : ℕ)
    → AllPositive values
    → 0 < r
    → r * product values ≤ max_int64
    → checked_product_from r values ≡ some (r * product values)
unfolding checked_product_from product
checked_product_from_complete [] r all low fits = ap some (omega arith)
checked_product_from_complete (v ∷ vs) r (positive, all) low fits =
    let regrouped = mul_assoc r v (product vs) in
    let small : r * v ≤ max_int64 =
      omega (arith, le-mul_of_pos_right (r * v) (product-positive vs all), regrouped, fits) in
    let quotient : r ≤ max_int64 / v = (le-div_iff_mul-le positive).1 small in
    let rest =
      checked_product_from_complete vs (r * v) all (grind (arith, low, positive))
        (omega (arith, regrouped, fits)) in
    rw (accepts v r positive quotient) (rest ∙ ap some regrouped)
  where
    accepts : (v r : ℕ) → 0 < v → r ≤ max_int64 / v → (v == 0 || ltb (max_int64 / v) r) ≡ false
    accepts v r positive quotient = ground arith

-- The product of positive counts is computed exactly if it fits into 64 bits, and refused exactly if
-- it does not; no other number is ever returned.
pub checked_product_exact :
    (values : List ℕ)
    → AllPositive values
    → ((checked_product values ≡ some (product values)) ↔ (product values ≤ max_int64))
      × ((checked_product values ≡ none) ↔ (max_int64 < product values))
unfolding checked_product
checked_product_exact values all = (
  (λ h. (checked_product_from_sound values 1 (product values) (omega arith) h).1, computed),
  (λ h. overflows (product values) h computed, refused (checked_product values) refl),
)
  where
    one_mul : (n : ℕ) → 1 * n ≡ n
    one_mul n = omega arith

    computed : product values ≤ max_int64 → checked_product_from 1 values ≡ some (product values)
    computed fits =
        checked_product_from_complete values 1 all (omega arith) (omega (arith, fits))
        ∙ ap some (one_mul (product values))

    overflows : (n : ℕ) {r : Option ℕ} → r ≡ none → (n ≤ max_int64 → r ≡ some n) → max_int64 < n
    overflows n h fits = elim (Bool-cases (ltb max_int64 n)) [
      | inl e ↦ ground arith
      | inr e ↦ absurd (none-some n (sym h ∙ fits (ground arith)))
    ]
      where
        none-some : (n : ℕ) → none ≡ some n → ⊥
        none-some n e = cc

    refused :
        (r : Option ℕ) → checked_product_from 1 values ≡ r → max_int64 < product values → r ≡ none
    refused none e big = refl
    refused (some n) e big =
        let (exact, fits) = checked_product_from_sound values 1 n (omega arith) e in
        absurd (omega (arith, exact, fits, big))

pub checked_product-eq :
    (values : List ℕ) (n : ℕ) → checked_product values ≡ some n → n ≡ product values
unfolding checked_product
checked_product-eq values n h =
    let (exact, fits) = checked_product_from_sound values 1 n (omega arith) h in
    omega (arith, exact)
