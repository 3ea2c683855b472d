-- ===== src/Workload/Builder.antt =====
-- `DeterministicBuilder.Build` of internal/workload/builder.go. Token counts are Go's int; the
-- numbers that a tokenizer reports are not negative, so their difference does not wrap. The digest
-- of a prompt, SHA-256 in hexadecimal, is a parameter.
use llm_serving_performance.Workload.Tokenizer.{
  refuse, Tokenizer, TokenizationEvidence, target_not_positive, output_not_positive,
  target_exceeds_limit, target_below_minimum, total_overflows, total_exceeds_model, no_exact_prompt,
  Counting, answer, and_then, count_tokens,
}
use llm_serving_performance.Prelude.{
  ℕ, zero, suc, String, ◌&&◌, ◌||◌, List, [], ◌∷◌, ◌++◌, length, if◌then◌else◌,
}
use llm_serving_performance.Prelude.Int.{
  ℤ, pos, pos_part, ◌-ℤ◌, ◌+ℤ◌, ltb_ℤ, leb_ℤ, eqb_ℤ, max_int64,
}
use llm_serving_performance.Prelude.Results.{ok, err}
use llm_serving_performance.Workload.Sizes.{highest_power_of_two, halvings}

pub record WorkloadSpec : Type 0 where
  pub target_input_tokens : ℤ
  pub requested_output_tokens : ℤ
  pub max_input_tokens : ℤ

-- `strings.Repeat`
unfoldable pub repeat_text : List ℕ → ℕ → List ℕ
repeat_text text zero = []
repeat_text text (suc n) = text ++ repeat_text text n

-- " x", " a", ".", "z" and " 0"
abbrev pub deterministic_atoms : List (List ℕ)
deterministic_atoms =
    (b' ' ∷ b'x' ∷ []) ∷ (b' ' ∷ b'a' ∷ []) ∷ (b'.' ∷ []) ∷ (b'z' ∷ []) ∷ (b' ' ∷ b'0' ∷ []) ∷ []

-- The fragments up to " slentore".
abbrev pub refinement_fragments : List (List ℕ)
refinement_fragments =
    (b' ' ∷ b'x' ∷ [])
    ∷ (b' ' ∷ b'a' ∷ [])
    ∷ (b' ' ∷ b't' ∷ b'h' ∷ b'e' ∷ [])
    ∷ (b'.' ∷ [])
    ∷ (b',' ∷ [])
    ∷ (b'!' ∷ [])
    ∷ (b'?' ∷ [])
    ∷ (b'0' ∷ [])
    ∷ (b'1' ∷ [])
    ∷ (b'A' ∷ [])
    ∷ (b'z' ∷ [])
    ∷ (10 ∷ [])
    ∷ (b' ' ∷ b'b' ∷ b'e' ∷ b'n' ∷ b'c' ∷ b'h' ∷ b'm' ∷ b'a' ∷ b'r' ∷ b'k' ∷ [])
    ∷ (b' ' ∷ b'f' ∷ b'i' ∷ b'x' ∷ b't' ∷ b'u' ∷ b'r' ∷ b'e' ∷ [])
    ∷ (b' ' ∷ b'd' ∷ b'e' ∷ b't' ∷ b'e' ∷ b'r' ∷ b'm' ∷ b'i' ∷ b'n' ∷ b'i' ∷ b's' ∷ b't' ∷ b'i'
        ∷ b'c' ∷ [])
    ∷ (b' ' ∷ b's' ∷ b'l' ∷ b'e' ∷ b'n' ∷ b't' ∷ b'o' ∷ b'r' ∷ b'e' ∷ [])
    ∷ []

-- A search ends with an exact prompt, or goes on from the best one with its count.
pub data Search : Type 0 where
  found : List ℕ → Search
  closest : List ℕ → ℤ → Search

-- `bestPrompt, bestCount` after a candidate that is not exact.
abbrev pub improve : ℤ → List ℕ → ℤ → List ℕ → ℤ → Search
improve target best best_count candidate count =
    if ltb_ℤ best_count count && ltb_ℤ count target
    then closest candidate count
    else closest best best_count

module _ (t : Tokenizer) (digest : List ℕ → String) where
  open t use {Identity}

  pub record PreparedWorkload : Type 0 where
    pub prompt : List ℕ
    pub target_tokens : ℤ
    pub resolved_tokens : ℤ
    pub output_tokens : ℤ
    pub prompt_bytes : ℕ
    pub prompt_sha256 : String
    pub tokenizer : Identity

  unfoldable pub prepared : List ℕ → WorkloadSpec → ℤ → PreparedWorkload
  prepared prompt spec resolved = record {
    prompt = prompt;
    target_tokens = spec.target_input_tokens;
    resolved_tokens = resolved;
    output_tokens = spec.requested_output_tokens;
    prompt_bytes = length prompt;
    prompt_sha256 = digest prompt;
    tokenizer = t.identity;
  }

  -- One candidate of the first two loops.
  abbrev pub try_candidate : ℤ → List ℕ → List ℕ → ℤ → Counting t Search
  try_candidate target candidate best best_count = and_then t (count_tokens t candidate) (λ e.
      answer t (
        ok (
          if eqb_ℤ e.tokens target
          then found candidate
          else improve target best best_count candidate e.tokens)))

  abbrev pub go_on : Search → (List ℕ → ℤ → Counting t Search) → Counting t Search
  go_on (found prompt) f = answer t (ok (found prompt))
  go_on (closest best best_count) f = f best best_count

  unfoldable pub try_atoms : ℤ → ℕ → List (List ℕ) → List ℕ → ℤ → Counting t Search
  unfolding repeat_text
  try_atoms target delta [] best best_count = answer t (ok (closest best best_count))
  try_atoms target delta (atom ∷ atoms) best best_count =
      and_then t (try_candidate target (repeat_text atom delta) best best_count)
        (λ s. go_on s (try_atoms target delta atoms))

  -- The fragments at one size.
  unfoldable pub try_fragments : ℤ → ℕ → List (List ℕ) → List ℕ → ℤ → Counting t Search
  unfolding repeat_text
  try_fragments target size [] best best_count = answer t (ok (closest best best_count))
  try_fragments target size (fragment ∷ fragments) best best_count =
      and_then t (try_candidate target (best ++ repeat_text fragment size) best best_count)
        (λ s. go_on s (try_fragments target size fragments))

  -- The refinement, over the sizes of its loop.
  unfoldable pub refine : ℤ → List ℕ → List ℕ → ℤ → Counting t Search
  unfolding try_fragments
  refine target [] best best_count = answer t (ok (closest best best_count))
  refine target (size ∷ sizes) best best_count =
      if ltb_ℤ best_count target
      then and_then t (try_fragments target size refinement_fragments best best_count)
          (λ s. go_on s (refine target sizes))
      else answer t (ok (closest best best_count))

  -- The last loop, which leaves the best prompt as it is.
  unfoldable pub try_suffixes : ℤ → List (List ℕ) → List ℕ → ℤ → Counting t Search
  try_suffixes target [] best best_count = answer t (ok (closest best best_count))
  try_suffixes target (fragment ∷ fragments) best best_count =
      and_then t (count_tokens t (best ++ fragment)) (λ e.
        if eqb_ℤ e.tokens target
        then answer t (ok (found (best ++ fragment)))
        else try_suffixes target fragments best best_count)

  abbrev pub finish : WorkloadSpec → Search → Counting t PreparedWorkload
  finish spec (found prompt) = answer t (ok (prepared prompt spec spec.target_input_tokens))
  finish spec (closest best best_count) =
      answer t (err (no_exact_prompt spec.target_input_tokens best_count))

  unfoldable pub search_prompt : ℤ → ℤ → Counting t Search
  unfolding try_atoms refine try_suffixes highest_power_of_two halvings
  search_prompt target minimum =
      let delta = pos_part (target -ℤ minimum) in
      let size = highest_power_of_two delta in
      and_then t (try_atoms target delta deterministic_atoms [] minimum) (λ first.
        go_on first (λ best best_count.
          and_then t (refine target (halvings size size) best best_count)
            (λ second. go_on second (try_suffixes target refinement_fragments))))

  -- The guards on the first answer, and the search.
  unfoldable pub build_from : WorkloadSpec → TokenizationEvidence → Counting t PreparedWorkload
  unfolding search_prompt prepared
  build_from spec e =
      let target = spec.target_input_tokens in
      let output = spec.requested_output_tokens in
      refuse t (ltb_ℤ target e.tokens) target_below_minimum (
        refuse t (ltb_ℤ (pos max_int64 -ℤ output) target) total_overflows (
          refuse t (ltb_ℤ (pos 0) e.model_max_length && ltb_ℤ e.model_max_length (target +ℤ output))
            total_exceeds_model
            (if eqb_ℤ e.tokens target
              then answer t (ok (prepared [] spec e.tokens))
              else and_then t (search_prompt target e.tokens) (finish spec))))

  unfoldable pub build : WorkloadSpec → Counting t PreparedWorkload
  unfolding build_from
  build spec = refuse t (leb_ℤ spec.target_input_tokens (pos 0)) target_not_positive (
      refuse t (leb_ℤ spec.requested_output_tokens (pos 0)) output_not_positive (
        refuse t
          (leb_ℤ spec.max_input_tokens (pos 0)
            || ltb_ℤ spec.max_input_tokens spec.target_input_tokens)
          target_exceeds_limit (and_then t (count_tokens t []) (build_from spec))))
