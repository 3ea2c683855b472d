-- ===== src/Experiment/Axes.antt =====
-- The axes of a sweep and their validation, internal/experiment/plan.go.
use llm_serving_performance.Prelude.Results.{
  err, Ensures, Ensures-map, Ensures-refuse_if, Result, ok, refuse_if, ◌>>◌,
}
use llm_serving_performance.Prelude.Int.{eqb_ℤ, leb_ℤ, negsuc, pos, ℤ, ◌<ℤ◌}
use llm_serving_performance.Prelude.{
  Bool, List, [], ap, arith, false, not, sym, true, ◌||◌, ◌∙◌, ◌∷◌, ◌≡◌, ◌≢◌,
}
use llm_serving_performance.Floats.{Floats, not_positive}
use llm_serving_performance.Config.Types.{
  Config, WorkloadMode, other_workload, prompt_mode, token_length_mode,
}
use llm_serving_performance.Benchmark.Types.{LoadMode, closed_loop, open_loop}

pub data AxisErr : Type 0 where
  value_not_positive rate_not_positive : AxisErr
  duplicate_value duplicate_rate : AxisErr

pub data ApplicabilityErr : Type 0 where
  rates_in_closed_loop concurrency_in_open_loop unknown_load_mode : ApplicabilityErr
  input_tokens_in_prompt_mode unknown_workload_mode : ApplicabilityErr

-- The map `seen`, as the list of its keys.
abbrev pub seen_value : ℤ → List ℤ → Bool
seen_value v [] = false
seen_value v (w ∷ ws) = eqb_ℤ v w || seen_value v ws

-- `validateIntAxis`, with the values seen before.
unfoldable pub validate_int_axis : List ℤ → List ℤ → Result AxisErr (Unit {0})
validate_int_axis seen [] = ok tt
validate_int_axis seen (v ∷ vs) =
    let rest = validate_int_axis (v ∷ seen) vs in
    do
      refuse_if (leb_ℤ v (pos 0)) value_not_positive
      refuse_if (seen_value v seen) duplicate_value
      rest

abbrev pub is_nil {ℓ} : {A : Type ℓ} → List A → Bool
is_nil [] = true
is_nil (_ ∷ _) = false

module _ (fl : Floats) where
  open fl use {Float, eq}

  pub record Axes : Type 0 where
    pub concurrency_values : List ℤ
    pub request_rate_values : List Float
    pub input_token_values : List ℤ
    pub output_token_values : List ℤ

  unfoldable pub axes_from_config : Config fl → Axes
  axes_from_config c = record {
    concurrency_values = c.experiment.concurrency_values;
    request_rate_values = c.experiment.request_rate_values;
    input_token_values = c.experiment.input_token_values;
    output_token_values = c.experiment.output_token_values;
  }

  abbrev pub seen_rate : Float → List Float → Bool
  seen_rate v [] = false
  seen_rate v (w ∷ ws) = eq v w || seen_rate v ws

  unfoldable pub validate_rate_axis : List Float → List Float → Result AxisErr (Unit {0})
  validate_rate_axis seen [] = ok tt
  validate_rate_axis seen (v ∷ vs) =
      let rest = validate_rate_axis (v ∷ seen) vs in
      do
        refuse_if (not_positive fl v) rate_not_positive
        refuse_if (seen_rate v seen) duplicate_rate
        rest

  check_load_axes : LoadMode → Axes → Result ApplicabilityErr (Unit {0})
  check_load_axes closed_loop a =
      refuse_if (not (is_nil a.request_rate_values)) rates_in_closed_loop
  check_load_axes open_loop a =
      refuse_if (not (is_nil a.concurrency_values)) concurrency_in_open_loop
  check_load_axes _ a = err unknown_load_mode

  check_workload_axes : WorkloadMode → Axes → Result ApplicabilityErr (Unit {0})
  check_workload_axes prompt_mode a =
      refuse_if (not (is_nil a.input_token_values)) input_tokens_in_prompt_mode
  check_workload_axes token_length_mode a = ok tt
  check_workload_axes (other_workload _) a = err unknown_workload_mode

  unfoldable pub validate_applicability : Config fl → Axes → Result ApplicabilityErr (Unit {0})
  unfolding check_load_axes check_workload_axes
  validate_applicability base a = do
    check_load_axes base.benchmark.mode a
    check_workload_axes base.workload.mode a

-- The values of an axis that validates are positive and distinct.
abbrev pub IsNew : ℤ → List ℤ → Type 0
IsNew v [] = Unit {0}
IsNew v (w ∷ ws) = (v ≢ w) × IsNew v ws

abbrev pub IsAxis : List ℤ → List ℤ → Type 0
IsAxis seen [] = Unit {0}
IsAxis seen (v ∷ vs) = (pos 0 <ℤ v) × (IsNew v seen × IsAxis (v ∷ seen) vs)

seen_value-IsNew : (v : ℤ) (seen : List ℤ) → seen_value v seen ≡ false → IsNew v seen
seen_value-IsNew v [] h = tt
seen_value-IsNew v (w ∷ ws) h =
    (λ e. different v w (ground arith) e, seen_value-IsNew v ws (ground arith))
  where
    eqb-self : (x : ℤ) → eqb_ℤ x x ≡ true
    eqb-self (pos n) = ground arith
    eqb-self (negsuc n) = ground arith

    different : (x y : ℤ) → eqb_ℤ x y ≡ false → x ≡ y → ⊥
    different x y e p = clash (sym (eqb-self x) ∙ ap (eqb_ℤ x) p ∙ e)
      where
        clash : true ≡ false → ⊥
        clash q = cc

pub validate_int_axis_sound :
    (seen vs : List ℤ) → Ensures (λ u. IsAxis seen vs) (validate_int_axis seen vs)
unfolding validate_int_axis
validate_int_axis_sound seen [] = tt
validate_int_axis_sound seen (v ∷ vs) =
    Ensures-refuse_if (λ u. IsAxis seen (v ∷ vs)) (leb_ℤ v (pos 0)) value_not_positive _
      (λ p.
        Ensures-refuse_if (λ u. IsAxis seen (v ∷ vs)) (seen_value v seen) duplicate_value _
          (λ n.
            Ensures-map (λ u. IsAxis (v ∷ seen) vs) (λ u. IsAxis seen (v ∷ vs))
              (validate_int_axis (v ∷ seen) vs)
              (λ u rest. (ground arith, (seen_value-IsNew v seen n, rest)))
              (validate_int_axis_sound (v ∷ seen) vs)))
