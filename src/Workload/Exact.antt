-- ===== src/Workload/Exact.antt =====
-- A prompt that is built has been counted, and has exactly the tokens that were asked for.
use llm_serving_performance.Workload.Tokenizer.{
  Yields-refuse, refuse, Yields-if, Tokenizer, TokenizationEvidence, Counting, answer, and_then,
  count_tokens, Yields, Yields-and_then, Answered, count_tokens-Answered,
}
use llm_serving_performance.Workload.Builder.{
  deterministic_atoms, WorkloadSpec, PreparedWorkload, Search, found, closest, improve,
  try_candidate, go_on, try_atoms, try_fragments, refine, try_suffixes, finish, search_prompt,
  build_from, build, prepared, repeat_text, refinement_fragments,
}
use llm_serving_performance.Prelude.Int.{
  ◌-ℤ◌, pos_part, ℤ, pos, ◌≤ℤ◌, ◌<ℤ◌, ltb_ℤ, eqb_ℤ, eq_of_parts,
}
use llm_serving_performance.Prelude.{
  ◌∙◌, ℕ, ◌≡◌, refl, String, true, List, [], ◌∷◌, ◌++◌, arith, if◌then◌else◌, Bool-cases, inl, inr,
}
use llm_serving_performance.Prelude.Results.{ok, ensured}
use llm_serving_performance.Workload.Sizes.{highest_power_of_two, halvings}

eqb_ℤ-eq : (a b : ℤ) → eqb_ℤ a b ≡ true → a ≡ b
eqb_ℤ-eq a b h = eq_of_parts a b (ground arith)

module _ (t : Tokenizer) (digest : List ℕ → String) where
  -- A prompt that the search has found is exact.
  abbrev Fits : ℤ → Search → Type 0
  Fits target (found text) = Answered t text target
  Fits target (closest best n) = Unit {0}

  Fits-improve :
      (target : ℤ) (best candidate : List ℕ) (m n : ℤ)
      → Fits target (improve target best m candidate n)
  Fits-improve target best candidate m n = ground arith

  Answered-as :
      (text : List ℕ) (n target : ℤ) → n ≡ target → Answered t text n → Answered t text target
  Answered-as text n target h a = record {
    asked = a.asked;
    evidence = a.evidence;
    answers = a.answers;
    number = a.number ∙ h;
  }

  try_candidate-Fits :
      (target : ℤ) (candidate best : List ℕ) (m : ℤ)
      → Yields t (Fits target) (try_candidate t digest target candidate best m)
  try_candidate-Fits target candidate best m =
      Yields-and_then t (λ e. Answered t candidate e.tokens) (Fits target)
        (count_tokens t candidate) _ (count_tokens-Answered t candidate) (λ e a w. judged e a)
    where
      judged :
          (e : TokenizationEvidence)
          → Answered t candidate e.tokens
          → Fits target (
              if eqb_ℤ e.tokens target
              then found candidate
              else improve target best m candidate e.tokens)
      judged e a = elim (Bool-cases (eqb_ℤ e.tokens target)) [
        | inl h ↦ rw h (Answered-as candidate e.tokens target (eqb_ℤ-eq e.tokens target h) a)
        | inr h ↦ rw h (Fits-improve target best candidate m e.tokens)
      ]

  go_on-Fits :
      (target : ℤ) (s : Search) (f : List ℕ → ℤ → Counting t Search)
      → Fits target s
      → ((best : List ℕ) (m : ℤ) → Yields t (Fits target) (f best m))
      → Yields t (Fits target) (go_on t digest s f)
  go_on-Fits target (found text) f h k = λ w. h
  go_on-Fits target (closest best m) f h k = k best m

  -- A search and, unless it has found a prompt, another one.
  then-Fits :
      (target : ℤ) (m : Counting t Search) (f : List ℕ → ℤ → Counting t Search)
      → Yields t (Fits target) m
      → ((best : List ℕ) (n : ℤ) → Yields t (Fits target) (f best n))
      → Yields t (Fits target) (and_then t m (λ s. go_on t digest s f))
  then-Fits target m f h k =
      Yields-and_then t (Fits target) (Fits target) m _ h (λ s a. go_on-Fits target s f a k)

  try_atoms-Fits :
      (target : ℤ) (delta : ℕ) (atoms : List (List ℕ)) (best : List ℕ) (m : ℤ)
      → Yields t (Fits target) (try_atoms t digest target delta atoms best m)
  unfolding try_atoms
  try_atoms-Fits target delta [] best m = λ w. tt
  try_atoms-Fits target delta (atom ∷ atoms) best m =
      then-Fits target _ _ (try_candidate-Fits target (repeat_text atom delta) best m)
        (try_atoms-Fits target delta atoms)

  try_fragments-Fits :
      (target : ℤ) (size : ℕ) (fragments : List (List ℕ)) (best : List ℕ) (m : ℤ)
      → Yields t (Fits target) (try_fragments t digest target size fragments best m)
  unfolding try_fragments
  try_fragments-Fits target size [] best m = λ w. tt
  try_fragments-Fits target size (fragment ∷ fragments) best m =
      then-Fits target _ _ (try_candidate-Fits target (best ++ repeat_text fragment size) best m)
        (try_fragments-Fits target size fragments)

  refine-Fits :
      (target : ℤ) (sizes : List ℕ) (best : List ℕ) (m : ℤ)
      → Yields t (Fits target) (refine t digest target sizes best m)
  unfolding refine
  refine-Fits target [] best m = λ w. tt
  refine-Fits target (size ∷ sizes) best m =
      Yields-if t (Fits target) (ltb_ℤ m target) _ _
        (λ h.
          then-Fits target _ _ (try_fragments-Fits target size refinement_fragments best m)
            (refine-Fits target sizes))
        (λ h w. tt)

  try_suffixes-Fits :
      (target : ℤ) (fragments : List (List ℕ)) (best : List ℕ) (m : ℤ)
      → Yields t (Fits target) (try_suffixes t digest target fragments best m)
  unfolding try_suffixes
  try_suffixes-Fits target [] best m = λ w. tt
  try_suffixes-Fits target (fragment ∷ fragments) best m =
      Yields-and_then t (λ e. Answered t (best ++ fragment) e.tokens) (Fits target)
        (count_tokens t (best ++ fragment)) _ (count_tokens-Answered t (best ++ fragment))
        (λ e a.
          Yields-if t (Fits target) (eqb_ℤ e.tokens target) _ _
            (λ h w. Answered-as (best ++ fragment) e.tokens target (eqb_ℤ-eq e.tokens target h) a)
            (λ h. try_suffixes-Fits target fragments best m))

  search_prompt-Fits :
      (target minimum : ℤ) → Yields t (Fits target) (search_prompt t digest target minimum)
  unfolding search_prompt
  search_prompt-Fits target minimum =
      let delta = pos_part (target -ℤ minimum) in
      let size = highest_power_of_two delta in
      then-Fits target (try_atoms t digest target delta deterministic_atoms [] minimum) _
        (try_atoms-Fits target delta deterministic_atoms [] minimum)
        (λ best m.
          then-Fits target (refine t digest target (halvings size size) best m)
            (try_suffixes t digest target refinement_fragments)
            (refine-Fits target (halvings size size) best m)
            (try_suffixes-Fits target refinement_fragments))

  -- What a prepared workload promises.
  pub record IsExact (spec : WorkloadSpec) (p : PreparedWorkload t digest) : Type 0 where
    pub counted : Answered t p.prompt spec.target_input_tokens
    pub target : p.target_tokens ≡ spec.target_input_tokens
    pub resolved : p.resolved_tokens ≡ spec.target_input_tokens
    pub output : p.output_tokens ≡ spec.requested_output_tokens
    pub digested : p.prompt_sha256 ≡ digest p.prompt

  prepared-IsExact :
      (spec : WorkloadSpec) (text : List ℕ) (n : ℤ)
      → n ≡ spec.target_input_tokens
      → Answered t text n
      → IsExact spec (prepared t digest text spec n)
  unfolding prepared
  prepared-IsExact spec text n h a = record {
    counted = Answered-as text n spec.target_input_tokens h a;
    target = refl;
    resolved = h;
    output = refl;
    digested = refl;
  }

  finish-IsExact :
      (spec : WorkloadSpec) (s : Search)
      → Fits spec.target_input_tokens s
      → Yields t (IsExact spec) (finish t digest spec s)
  finish-IsExact spec (found text) h = λ w. prepared-IsExact spec text _ refl h
  finish-IsExact spec (closest best m) h = λ w. tt

  build_from-IsExact :
      (spec : WorkloadSpec) (e : TokenizationEvidence)
      → Answered t [] e.tokens
      → Yields t (IsExact spec) (build_from t digest spec e)
  unfolding build_from
  build_from-IsExact spec e a = Yields-refuse t (IsExact spec) _ _ _ (
      Yields-refuse t (IsExact spec) _ _ _ (
        Yields-refuse t (IsExact spec) _ _ _ (
          Yields-if t (IsExact spec) (eqb_ℤ e.tokens spec.target_input_tokens)
            (answer t (ok (prepared t digest [] spec e.tokens)))
            (and_then t (search_prompt t digest spec.target_input_tokens e.tokens)
              (finish t digest spec))
            (λ h w.
              prepared-IsExact spec [] e.tokens (eqb_ℤ-eq e.tokens spec.target_input_tokens h) a)
            (λ h.
              Yields-and_then t (Fits spec.target_input_tokens) (IsExact spec)
                (search_prompt t digest spec.target_input_tokens e.tokens) (finish t digest spec)
                (search_prompt-Fits spec.target_input_tokens e.tokens) (finish-IsExact spec)))))

  build-Yields : (spec : WorkloadSpec) → Yields t (IsExact spec) (build t digest spec)
  unfolding build
  build-Yields spec = Yields-refuse t (IsExact spec) _ _ _ (
      Yields-refuse t (IsExact spec) _ _ _ (
        Yields-refuse t (IsExact spec) _ _ _ (
          Yields-and_then t (λ e. Answered t [] e.tokens) (IsExact spec) (count_tokens t [])
            (build_from t digest spec) (count_tokens-Answered t []) (build_from-IsExact spec))))

  -- The guards before the first question.
  build_within :
      (spec : WorkloadSpec) (w : t.World) (p : PreparedWorkload t digest)
      → (build t digest spec w).1 ≡ ok p
      → (pos 0 <ℤ spec.target_input_tokens)
        × (pos 0 <ℤ spec.requested_output_tokens)
        × (spec.target_input_tokens ≤ℤ spec.max_input_tokens)
  unfolding build refuse
  build_within spec w p h = ground arith

  -- Whatever the tokenizer answers on the way, a workload that is built has a prompt for which the
  -- tokenizer has answered exactly the target, with that target as its resolved length, the
  -- requested output and the digest of its prompt; and the target is positive and within its limit.
  pub build-IsExact :
      (spec : WorkloadSpec) (w : t.World) (p : PreparedWorkload t digest)
      → (build t digest spec w).1 ≡ ok p
      → IsExact spec p
        × (pos 0 <ℤ spec.target_input_tokens)
        × (pos 0 <ℤ spec.requested_output_tokens)
        × (spec.target_input_tokens ≤ℤ spec.max_input_tokens)
  build-IsExact spec w p h =
      let (low, output, high) = build_within spec w p h in
      (ensured (IsExact spec) _ (build-Yields spec w) h, low, output, high)
