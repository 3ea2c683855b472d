-- ===== src/Prelude/Int.antt =====
-- Go's signed integers, over the native numbers: `int` and `int64` values, times and durations in
-- nanoseconds. The operations are exact; `wrap64` is the wrap-around of a 64-bit result, and
-- `saturate64` the clamping of `time.Time.Sub`.
use llm_serving_performance.Prelude.{
  false, true, ℕ, suc, ◌+◌, ◌-◌, ◌*◌, ◌≤◌, ◌^◌, ◌%◌, ◌/◌, ◌≡◌, refl, ◌⊎◌, Bool, arith, ltb, leb,
  if◌then◌else◌,
}

-- `negsuc n` is -(n + 1).
pub data ℤ : Type 0 where
  pos : ℕ → ℤ
  negsuc : ℕ → ℤ

abbrev pub pos_part : ℤ → ℕ
pos_part (pos n) = n
pos_part (negsuc n) = 0

abbrev pub neg_part : ℤ → ℕ
neg_part (pos n) = 0
neg_part (negsuc n) = suc n

-- a - b, as an integer.
abbrev pub sub_ℕ : ℕ → ℕ → ℤ
sub_ℕ a b = if leb b a then pos (a - b) else negsuc (b - a - 1)

infixl 65 ◌+ℤ◌ ◌-ℤ◌
infix 50 ◌≤ℤ◌ ◌<ℤ◌
unfoldable pub ◌+ℤ◌ : ℤ → ℤ → ℤ
a +ℤ b = sub_ℕ (pos_part a + pos_part b) (neg_part a + neg_part b)

unfoldable pub ◌-ℤ◌ : ℤ → ℤ → ℤ
a -ℤ b = sub_ℕ (pos_part a + neg_part b) (neg_part a + pos_part b)

abbrev pub ◌≤ℤ◌ : ℤ → ℤ → Type 0
a ≤ℤ b = pos_part a + neg_part b ≤ pos_part b + neg_part a

abbrev pub ◌<ℤ◌ : ℤ → ℤ → Type 0
a <ℤ b = suc (pos_part a + neg_part b) ≤ pos_part b + neg_part a

abbrev pub ltb_ℤ : ℤ → ℤ → Bool
ltb_ℤ a b = ltb (pos_part a + neg_part b) (pos_part b + neg_part a)

abbrev pub leb_ℤ : ℤ → ℤ → Bool
leb_ℤ a b = leb (pos_part a + neg_part b) (pos_part b + neg_part a)

abbrev pub eqb_ℤ : ℤ → ℤ → Bool
eqb_ℤ a b = if leb_ℤ a b then leb_ℤ b a else Bool.false

-- The largest `int` and `int64`.
abbrev pub max_int64 : ℕ
max_int64 = 9223372036854775807

-- An `int64` result, two's complement.
unfoldable pub wrap64 : ℤ → ℤ
wrap64 (pos n) =
    if leb (n % 18446744073709551616) max_int64
    then pos (n % 18446744073709551616)
    else negsuc (18446744073709551615 - n % 18446744073709551616)
wrap64 (negsuc n) =
    if leb (n % 18446744073709551616) max_int64
    then negsuc (n % 18446744073709551616)
    else pos (18446744073709551615 - n % 18446744073709551616)

-- The result of `t.Sub(u)`, which stops at the least and the greatest Duration.
unfoldable pub saturate64 : ℤ → ℤ
saturate64 (pos n) = if leb n max_int64 then pos n else pos max_int64
saturate64 (negsuc n) = if leb n max_int64 then negsuc n else negsuc max_int64

-- One lemma for each operation lets `omega` work with the operations shut, at any depth.
pub +ℤ_parts :
    (a b : ℤ)
    → pos_part (a +ℤ b) + neg_part a + neg_part b ≡ neg_part (a +ℤ b) + pos_part a + pos_part b
unfolding ◌+ℤ◌
+ℤ_parts a b = ground arith

pub -ℤ_parts :
    (a b : ℤ)
    → pos_part (a -ℤ b) + neg_part a + pos_part b ≡ neg_part (a -ℤ b) + pos_part a + neg_part b
unfolding ◌-ℤ◌
-ℤ_parts a b = ground arith

pub eq_of_parts : (a b : ℤ) → pos_part a + neg_part b ≡ pos_part b + neg_part a → a ≡ b
eq_of_parts a b h = ground arith

-- Within 64 bits neither changes anything.
pub saturate64_id : (n : ℕ) → n ≤ max_int64 → saturate64 (pos n) ≡ pos n
unfolding saturate64
saturate64_id n h = ground arith

pub ruleset int_laws = (arith, +ℤ_parts, -ℤ_parts, eq_of_parts)

-- Nothing remains until the present moment.
pub saturate64-sub_self : (a : ℤ) → leb_ℤ (saturate64 (a -ℤ a)) (pos 0) ≡ Bool.true
unfolding saturate64 ◌-ℤ◌
saturate64-sub_self (pos n) = ground arith
saturate64-sub_self (negsuc n) = ground arith
