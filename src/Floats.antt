-- ===== src/Floats.antt =====
-- Go's float64 as an interface: the operations that the program uses, with IEEE 754 behaviour as
-- named laws where a theorem needs it. Definitions take the operations; theorems take the laws.
pub mod Whole
use llm_serving_performance.Prelude.{ℕ, ◌≡◌, ◌≤◌, Bool, true, false, ◌||◌, not, ◌&&◌, ◌⊎◌}
use llm_serving_performance.Prelude.Int.{ℤ, pos, ◌≤ℤ◌}

pub record Floats : Type 1 where
  pub Float : Type 0
  -- float64(n), and int(x) for a whole x
  pub of_int : ℤ → Float
  pub to_int : Float → ℤ
  -- the decimal literal n / d
  pub literal : ℕ → ℕ → Float
  pub add : Float → Float → Float
  pub mul : Float → Float → Float
  pub div : Float → Float → Float
  pub ceil : Float → Float
  pub floor : Float → Float
  pub lt : Float → Float → Bool
  pub le : Float → Float → Bool
  pub eq : Float → Float → Bool
  pub is_nan : Float → Bool
  pub is_inf : Float → Bool

-- 2 ^ 53, up to which every whole number is a float64.
abbrev pub max_exact : ℕ
max_exact = 9007199254740992

module _ (fl : Floats) where
  open fl use {Float, of_int, to_int, literal, mul, ceil, le, is_nan, is_inf}

  abbrev pub zero_float : Float
  zero_float = of_int (pos 0)

  -- `math.IsNaN(x) || math.IsInf(x, 0)`
  abbrev pub not_finite : Float → Bool
  not_finite x = is_nan x || is_inf x

  -- `math.IsNaN(x) || math.IsInf(x, 0) || x <= 0`
  abbrev pub not_positive : Float → Bool
  not_positive x = is_nan x || (is_inf x || le x zero_float)

  -- `finiteNonNegative` of internal/aggregate/calculate.go
  unfoldable pub finite_non_negative : Float → Bool
  finite_non_negative x = not (is_nan x) && (not (is_inf x) && le zero_float x)

  -- The order of the numbers that are no NaN.
  pub record OrderLaws : Type 0 where
    pub le_total :
        (x y : Float) → is_nan x ≡ false → is_nan y ≡ false → (le x y ≡ true) ⊎ (le y x ≡ true)
    pub le_trans : (x y z : Float) → le x y ≡ true → le y z ≡ true → le x z ≡ true

  -- What the percentile ranks rely on: exact whole numbers up to 2 ^ 53, monotone products with
  -- them, and monotone roundings.
  pub record RankLaws : Type 0 where
    pub scale_mono :
        (p q n : ℕ)
        → p ≤ q
        → q ≤ 100
        → n ≤ max_exact
        → le (mul (literal p 100) (of_int (pos n))) (mul (literal q 100) (of_int (pos n))) ≡ true
    pub scale_nonneg :
        (p n : ℕ) → n ≤ max_exact → le zero_float (mul (literal p 100) (of_int (pos n))) ≡ true
    pub scale_one :
        (n : ℕ) → n ≤ max_exact → mul (literal 100 100) (of_int (pos n)) ≡ of_int (pos n)
    pub ceil_mono : (x y : Float) → le x y ≡ true → le (ceil x) (ceil y) ≡ true
    pub ceil_whole : (n : ℕ) → ceil (of_int (pos n)) ≡ of_int (pos n)
    pub to_int_mono :
        (x y : Float) (n : ℕ)
        → le zero_float x ≡ true
        → le x y ≡ true
        → le y (of_int (pos n)) ≡ true
        → n ≤ max_exact
        → to_int x ≤ℤ to_int y
    pub to_int_whole : (n : ℕ) → n ≤ max_exact → to_int (of_int (pos n)) ≡ pos n
