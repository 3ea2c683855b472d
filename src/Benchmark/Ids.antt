-- ===== src/Benchmark/Ids.antt =====
-- Request identifiers, internal/benchmark/ids.go and `phaseRequestID` of lifecycle.go. A text is the
-- list of its bytes. `none` is the error that the sequence is not positive.
pub mod Injective
use llm_serving_performance.Prelude.{
  ℕ, zero, suc, ◌+◌, ◌-◌, ◌/◌, ◌%◌, List, [], ◌∷◌, ◌++◌, Option, none, some, length, replicate,
  if◌then◌else◌, ltb,
}
use llm_serving_performance.Prelude.Int.{ℤ, pos, negsuc}
use llm_serving_performance.Benchmark.Types.{RequestPhase, warmup}

-- The decimal digits of a number before those at hand; one unit of fuel for a digit.
unfoldable pub decimal_onto : ℕ → ℕ → List ℕ → List ℕ
decimal_onto zero n acc = acc
decimal_onto (suc fuel) n acc =
    let digit = b'0' + n % 10 in
    let more = decimal_onto fuel (n / 10) (digit ∷ acc) in if ltb n 10 then digit ∷ acc else more

-- `%06d`: the digits, filled up with zeros to six.
unfoldable pub six_digits : ℕ → List ℕ
unfolding decimal_onto
six_digits n =
    let digits = decimal_onto (suc n) n [] in replicate (6 - length digits) b'0' ++ digits

unfoldable pub request_id : ℤ → Option (List ℕ)
unfolding six_digits
request_id (pos zero) = none
request_id (pos (suc n)) = some (b'r' ∷ b'e' ∷ b'q' ∷ b'-' ∷ six_digits (suc n))
request_id (negsuc n) = none

unfoldable pub warmup_request_id : ℤ → Option (List ℕ)
unfolding six_digits
warmup_request_id (pos zero) = none
warmup_request_id (pos (suc n)) =
    some (b'w' ∷ b'a' ∷ b'r' ∷ b'm' ∷ b'u' ∷ b'p' ∷ b'-' ∷ six_digits (suc n))
warmup_request_id (negsuc n) = none

unfoldable pub phase_request_id : RequestPhase → ℤ → Option (List ℕ)
unfolding request_id warmup_request_id
phase_request_id warmup sequence = warmup_request_id sequence
phase_request_id _ sequence = request_id sequence
