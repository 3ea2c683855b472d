-- ===== src/Workload/Sizes.antt =====
-- The block sizes of the refinement, `highestPowerOfTwo` and the halving loop of `Build`,
-- internal/workload/builder.go. The fuel is the starting size: each round halves a positive number.
use llm_serving_performance.Prelude.{
  ℕ, zero, suc, ◌+◌, ◌*◌, ◌/◌, ◌≤◌, ◌<◌, ◌≡◌, refl, List, [], ◌∷◌, arith, leb, ltb, if◌then◌else◌,
}

-- The loop: the result so far is doubled while it is at most half the value.
unfoldable pub double_up : ℕ → ℕ → ℕ → ℕ
double_up zero value result = result
double_up (suc fuel) value result =
    let more = double_up fuel value (result * 2) in if leb result (value / 2) then more else result

unfoldable pub highest_power_of_two : ℕ → ℕ
unfolding double_up
highest_power_of_two value = double_up value value 1

-- The sizes that the loop goes through.
unfoldable pub halvings : ℕ → ℕ → List ℕ
halvings zero size = []
halvings (suc fuel) size =
    let rest = halvings fuel (size / 2) in if ltb 0 size then size ∷ rest else []

double_up_lem :
    (fuel value result : ℕ)
    → value < result + fuel
    → result ≤ value
    → 0 < result
    → (double_up fuel value result ≤ value) × (value < 2 * double_up fuel value result)
unfolding double_up
double_up_lem zero value result f h p = omega arith
double_up_lem (suc fuel) value result f h p = ground (arith, double_up_lem fuel value (result * 2))

-- The first block is more than half of the tokens that are missing, and never more than all.
pub highest_power_of_two_lem :
    (value : ℕ)
    → 0 < value
    → (highest_power_of_two value ≤ value) × (value < 2 * highest_power_of_two value)
unfolding highest_power_of_two
highest_power_of_two_lem value p = double_up_lem value value 1 (omega arith) p (omega arith)

-- From the starting size on, more fuel changes nothing.
pub halvings_enough : (f g size : ℕ) → size ≤ f → size ≤ g → halvings f size ≡ halvings g size
unfolding halvings
halvings_enough zero zero size h k = refl
halvings_enough zero (suc g) size h k = ground arith
halvings_enough (suc f) zero size h k = ground arith
halvings_enough (suc f) (suc g) size h k = ground (arith, halvings_enough f g (size / 2))
