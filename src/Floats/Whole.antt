-- ===== src/Floats/Whole.antt =====
-- An instance of the interface: the whole numbers with no NaN and no infinity, where a quotient is
-- rounded down. It shows that the laws can be met, and lets tests run.
use llm_serving_performance.Prelude.Int.{
  ◌≤ℤ◌, ℤ, pos, pos_part, neg_part, sub_ℕ, ◌+ℤ◌, ltb_ℤ, leb_ℤ, eqb_ℤ,
}
use llm_serving_performance.Prelude.{◌≤◌, ℕ, ◌+◌, ◌-◌, ◌*◌, ◌/◌, ◌≡◌, refl, true, false, arith, ◌⊎◌}
use llm_serving_performance.Floats.{Floats, OrderLaws, RankLaws}

abbrev times : ℤ → ℤ → ℤ
times a b =
    sub_ℕ (pos_part a * pos_part b + neg_part a * neg_part b)
      (pos_part a * neg_part b + neg_part a * pos_part b)

abbrev over : ℤ → ℤ → ℤ
over a b = sub_ℕ (pos_part a / pos_part b) ((neg_part a + pos_part b - 1) / pos_part b)

abbrev pub whole : Floats
whole = record {
  Float = ℤ;
  of_int = λ n. n;
  to_int = λ x. x;
  literal = λ n d. pos (n / d);
  add = ◌+ℤ◌;
  mul = times;
  div = over;
  ceil = λ x. x;
  floor = λ x. x;
  lt = ltb_ℤ;
  le = leb_ℤ;
  eq = eqb_ℤ;
  is_nan = λ x. false;
  is_inf = λ x. false;
}

le_whole_total : (x y : ℤ) → (leb_ℤ x y ≡ true) ⊎ (leb_ℤ y x ≡ true)
le_whole_total x y = ground arith

le_whole_trans : (x y z : ℤ) → leb_ℤ x y ≡ true → leb_ℤ y z ≡ true → leb_ℤ x z ≡ true
le_whole_trans x y z h k = ground arith

pub whole_order : OrderLaws whole
whole_order = record { le_total = λ x y _ _. le_whole_total x y; le_trans = le_whole_trans }

scale_whole :
    (p q n : ℕ)
    → p ≤ q
    → q ≤ 100
    → leb_ℤ (times (pos (p / 100)) (pos n)) (times (pos (q / 100)) (pos n)) ≡ true
scale_whole p q n h k = let small : p / 100 * n ≤ q / 100 * n = grind arith in ground arith

scale_whole_one : (n : ℕ) → times (pos (100 / 100)) (pos n) ≡ pos n
scale_whole_one n = ground arith

to_int_whole_mono : (x y : ℤ) → leb_ℤ x y ≡ true → x ≤ℤ y
to_int_whole_mono x y h = ground arith

pub whole_ranks : RankLaws whole
whole_ranks = record {
  scale_mono = λ p q n h k _. scale_whole p q n h k;
  scale_nonneg = λ p n _. ground arith;
  scale_one = λ n _. scale_whole_one n;
  ceil_mono = λ x y h. h;
  ceil_whole = λ n. refl;
  to_int_mono = λ x y n _ h _ _. to_int_whole_mono x y h;
  to_int_whole = λ n _. refl;
}
