-- ===== src/Aggregate/Tokens/Totals.antt =====
-- Token totals that are available are exact.
use llm_serving_performance.Prelude.{
  ℕ, suc, ◌+◌, ◌≤◌, ◌<◌, ◌≡◌, refl, sym, ap, ◌⊎◌, ◌∙◌, true, false, Option, none, some, List, [],
  ◌∷◌, length, arith, Bool-cases, inl, inr,
}
use mathlib.Core.Path.{subst}
use llm_serving_performance.Prelude.Int.{ℤ, pos, pos_part, ◌+ℤ◌, ◌-ℤ◌, wrap64, max_int64}
use llm_serving_performance.Prelude.Sums.{sum_by}
use llm_serving_performance.Floats.{Floats}
use llm_serving_performance.Benchmark.Observation.{TokenUsage}
use llm_serving_performance.Aggregate.Types.{Request}
use llm_serving_performance.Aggregate.Tokens.{
  TokenReason, add_int64, inconsistent, TokenTotals, no_totals, with_sums, count_usage,
  usage_inconsistent, count_all, final_reason, token_summary, calculate_tokens,
}

wrap64_id : (n : ℕ) → n ≤ max_int64 → wrap64 (pos n) ≡ pos n
unfolding wrap64
wrap64_id n h = ground arith

-- Of numbers that are not negative the sum is exact, and fits.
add_int64_lem :
    (a b : ℕ) (s : ℤ)
    → add_int64 (pos a) (pos b) ≡ some s
    → a ≤ max_int64
    → (s ≡ pos (a + b)) × (a + b ≤ max_int64)
unfolding add_int64 ◌+ℤ◌ ◌-ℤ◌
add_int64_lem a b s h m = ground (arith, wrap64_id (a + b))

consistent_lem :
    (u : TokenUsage)
    → inconsistent u ≡ false
    → (u.input_tokens ≡ pos (pos_part u.input_tokens))
      × (u.output_tokens ≡ pos (pos_part u.output_tokens))
      × (u.total_tokens ≡ pos (pos_part u.input_tokens + pos_part u.output_tokens))
unfolding inconsistent ◌+ℤ◌
consistent_lem u h = ground arith

record Sums (t : TokenTotals) (a b : ℕ) : Type 0 where
  input_sum : t.input ≡ pos a
  output_sum : t.output ≡ pos b
  all_sum : t.all ≡ pos (a + b)
  fits : a + b ≤ max_int64

with_sums_lem :
    (t : TokenTotals) (x y z : Option ℤ)
    → (with_sums t x y z).reason ≡ none
    → (i : ℤ) × (o : ℤ) × (n : ℤ) × (x ≡ some i)
      × (y ≡ some o)
      × (z ≡ some n)
      × (with_sums t x y z ≡ record t { input = i; output = o; all = n })
with_sums_lem t (some i) (some o) (some n) h = (i, o, n, refl, refl, refl, refl)
with_sums_lem t (some i) (some o) none h = cc
with_sums_lem t (some i) none z h = cc
with_sums_lem t none y z h = cc

add_int64-as :
    (x y s : ℤ) (a b : ℕ)
    → x ≡ pos a
    → y ≡ pos b
    → add_int64 x y ≡ some s
    → a ≤ max_int64
    → (s ≡ pos (a + b)) × (a + b ≤ max_int64)
add_int64-as x y s a b h k e m =
    add_int64_lem a b s (sym (ap (λ v. add_int64 v y) h ∙ ap (add_int64 (pos a)) k) ∙ e) m

count_usage-covered :
    (t : TokenTotals) (id : List ℕ) (u : TokenUsage)
    → u.available ≡ true
    → inconsistent u ≡ false
    → count_usage t id u
      ≡ with_sums
          (record t { covered = suc t.covered })
          (add_int64 t.input u.input_tokens)
          (add_int64 t.output u.output_tokens)
          (add_int64 t.all u.total_tokens)
unfolding count_usage
count_usage-covered t id u h k = rw (h, k) refl

count_usage-bad :
    (t : TokenTotals) (id : List ℕ) (u : TokenUsage)
    → u.available ≡ true
    → inconsistent u ≡ true
    → (count_usage t id u).reason ≡ some (usage_inconsistent id)
unfolding count_usage
count_usage-bad t id u h k = rw (h, k) refl

-- A covered request with no reason against it has added its tokens.
count_usage-Sums :
    (t : TokenTotals) (id : List ℕ) (u : TokenUsage) (a b : ℕ)
    → Sums t a b
    → (count_usage t id u).reason ≡ none
    → u.available ≡ true
    → Sums (count_usage t id u) (a + pos_part u.input_tokens) (b + pos_part u.output_tokens)
count_usage-Sums t id u a b s h av = go (Bool-cases (inconsistent u))
  where
    go :
        (inconsistent u ≡ true) ⊎ (inconsistent u ≡ false)
        → Sums (count_usage t id u) (a + pos_part u.input_tokens) (b + pos_part u.output_tokens)
    go (inl e) = let bad = count_usage-bad t id u av e in absurd (ground (arith, bad))
    go (inr e) =
        let t' : TokenTotals = record t { covered = suc t.covered } in
        let counted = count_usage-covered t id u av e in
        let (i, o, n, ei, eo, en, is) =
          with_sums_lem t' _ _ _ (ap (λ z. z.reason) (sym counted) ∙ h) in
        let (ui, uo, un) = consistent_lem u e in
        let (ri, _) = add_int64-as _ _ i a _ s.input_sum ui ei (omega (arith, s.fits)) in
        let (ro, _) = add_int64-as _ _ o b _ s.output_sum uo eo (omega (arith, s.fits)) in
        let (rn, fits) = add_int64-as _ _ n (a + b) _ s.all_sum un en s.fits in
        subst (λ z. Sums z (a + pos_part u.input_tokens) (b + pos_part u.output_tokens))
          (sym (counted ∙ is))
          (record {
            input_sum = ri;
            output_sum = ro;
            all_sum = rn ∙ ap pos (omega arith);
            fits = omega (arith, fits);
          })

-- A reason stays, and a request is covered at most once.
count_usage-frame :
    (t : TokenTotals) (id : List ℕ) (u : TokenUsage)
    → ((count_usage t id u).reason ≡ none → t.reason ≡ none)
      × ((count_usage t id u).covered ≤ suc t.covered)
      × (u.available ≡ false → count_usage t id u ≡ t)
unfolding count_usage
count_usage-frame t id u = ground arith

module _ (fl : Floats) where
  open fl use {Float}

  abbrev pub input_of : Request fl → ℕ
  input_of r = pos_part r.metrics.token_usage.input_tokens

  abbrev pub output_of : Request fl → ℕ
  output_of r = pos_part r.metrics.token_usage.output_tokens

  abbrev counted_one : TokenTotals → Request fl → TokenTotals
  counted_one t r = count_usage t r.metrics.request_id r.metrics.token_usage

  count_all-frame :
      (t : TokenTotals) (rs : List (Request fl))
      → ((count_all fl t rs).reason ≡ none → t.reason ≡ none)
        × ((count_all fl t rs).covered ≤ t.covered + length rs)
  unfolding count_all
  count_all-frame t [] = (λ h. h, omega arith)
  count_all-frame t (r ∷ rs) =
      let (sticks, covers, _) = count_usage-frame t r.metrics.request_id r.metrics.token_usage in
      let (rest, bound) = count_all-frame (counted_one t r) rs in
      (λ h. sticks (rest h), omega (arith, covers, bound))

  covered_one :
      (t : TokenTotals) (r : Request fl) (n c : ℕ)
      → c ≡ t.covered + suc n
      → c ≤ (counted_one t r).covered + n
      → (counted_one t r).covered ≡ suc t.covered
  covered_one t r n c k bound =
      omega (arith, k, bound, (count_usage-frame t r.metrics.request_id r.metrics.token_usage).1)

  available_one :
      (t : TokenTotals) (r : Request fl)
      → (counted_one t r).covered ≡ suc t.covered
      → r.metrics.token_usage.available ≡ true
  available_one t r k = elim (Bool-cases r.metrics.token_usage.available) [
    | inl e ↦ e
    | inr e ↦
        let same =
          ap (λ z. z.covered)
            ((count_usage-frame t r.metrics.request_id r.metrics.token_usage).2 e) in
        absurd (omega (arith, same, k))
  ]

  available_why :
      (n : ℕ) (t : TokenTotals) (window : Float) (o : Option TokenReason)
      → (token_summary fl n t window o).available ≡ true
      → o ≡ none
  available_why n t window none h = refl
  available_why n t window (some x) h = cc

  final_lem :
      (n : ℕ) (t : TokenTotals) (window : Float)
      → final_reason fl n t window ≡ none
      → (0 < n) × (t.reason ≡ none) × (t.covered ≡ n)
  final_lem n t window h = ground arith

  none_counted : Sums no_totals 0 0
  none_counted = record { input_sum = refl; output_sum = refl; all_sum = refl; fits = omega arith }

  -- With no reason and every request covered, the totals have grown by the sums.
  count_all-Sums :
      (t : TokenTotals) (rs : List (Request fl)) (a b : ℕ)
      → Sums t a b
      → (count_all fl t rs).reason ≡ none
      → (count_all fl t rs).covered ≡ t.covered + length rs
      → Sums (count_all fl t rs) (a + sum_by input_of rs) (b + sum_by output_of rs)
  unfolding count_all sum_by
  count_all-Sums t [] a b s h k =
      subst (λ x. Sums t x (b + 0)) (omega arith) (subst (Sums t a) (omega arith) s)
  count_all-Sums t (r ∷ rs) a b s h k =
      let u = r.metrics.token_usage in
      let t' = counted_one t r in
      let (reasons, bound) = count_all-frame t' rs in
      let covered = covered_one t r (length rs) _ k bound in
      let one =
        count_usage-Sums t r.metrics.request_id u a b s (reasons h) (available_one t r covered) in
      let rest =
        count_all-Sums t' rs (a + input_of r) (b + output_of r) one h (omega (arith, k, covered)) in
      subst (λ x. Sums (count_all fl t' rs) x (b + (output_of r + sum_by output_of rs)))
        (omega arith)
        (subst (Sums (count_all fl t' rs) (a + input_of r + sum_by input_of rs)) (omega arith) rest)

  -- If a token summary is available, there are successful requests, each of them has reported its
  -- usage, and the totals are the exact sums of their input and output tokens, within an int64.
  pub tokens_exact :
      (rs : List (Request fl)) (window : Float)
      → (calculate_tokens fl rs window).available ≡ true
      → let s = calculate_tokens fl rs window in
        (0 < length rs)
        × (s.usage_covered_requests ≡ length rs)
        × (s.input_tokens ≡ pos (sum_by input_of rs))
        × (s.output_tokens ≡ pos (sum_by output_of rs))
        × (s.total_tokens ≡ pos (sum_by input_of rs + sum_by output_of rs))
        × (sum_by input_of rs + sum_by output_of rs ≤ max_int64)
  unfolding calculate_tokens
  tokens_exact rs window h =
      let t = count_all fl no_totals rs in
      let (some_requests, reason, covered) =
        final_lem (length rs) t window (available_why _ t window _ h) in
      let s = count_all-Sums no_totals rs 0 0 none_counted reason (omega (arith, covered)) in
      let is = available_why _ t window _ h in
      rw is (
        some_requests,
        covered,
        s.input_sum ∙ ap pos (omega arith),
        s.output_sum ∙ ap pos (omega arith),
        s.all_sum ∙ ap pos (omega arith),
        omega (arith, s.fits),
      )
