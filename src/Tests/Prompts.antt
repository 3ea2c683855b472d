-- ===== src/Tests/Prompts.antt =====
-- A prompt of seven tokens, for a tokenizer that counts bytes after a template of three.
use llm_serving_performance.Prelude.{ℕ, suc, ◌+◌, ◌≡◌, refl, List, [], ◌∷◌, String, length}
use llm_serving_performance.Prelude.Int.{pos, ◌<ℤ◌, ◌≤ℤ◌, ◌-ℤ◌, ◌+ℤ◌}
use llm_serving_performance.Prelude.Results.{ok}
use llm_serving_performance.Workload.Tokenizer.{Tokenizer, refuse}
use llm_serving_performance.Workload.Builder.{WorkloadSpec, PreparedWorkload, prepared, build}
use llm_serving_performance.Workload.Exact.{IsExact, build-IsExact}

-- Its state is the number of calls.
abbrev byte_tokenizer : Tokenizer
byte_tokenizer = record {
  World = ℕ;
  Identity = String;
  CountErr = String;
  count = λ text calls.
      (suc calls, ok (record { tokens = pos (3 + length text); model_max_length = pos 100 }));
  identity = "bytes";
}

abbrev no_digest : List ℕ → String
no_digest text = "digest"

abbrev spec : WorkloadSpec
spec = record {
  target_input_tokens = pos 7;
  requested_output_tokens = pos 5;
  max_input_tokens = pos 50;
}

abbrev four_dots : PreparedWorkload byte_tokenizer no_digest
four_dots = prepared byte_tokenizer no_digest (b'.' ∷ b'.' ∷ b'.' ∷ b'.' ∷ []) spec (pos 7)

built : (build byte_tokenizer no_digest spec 0).1 ≡ ok four_dots
unfolding build refuse ◌-ℤ◌ ◌+ℤ◌
built = refl

build-IsExact_example :
    IsExact byte_tokenizer no_digest spec four_dots
    × (pos 0 <ℤ pos 7)
    × (pos 0 <ℤ pos 5)
    × (pos 7 ≤ℤ pos 50)
build-IsExact_example = build-IsExact byte_tokenizer no_digest spec 0 four_dots built
