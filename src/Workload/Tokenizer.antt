-- ===== src/Workload/Tokenizer.antt =====
-- The interface `Tokenizer` of internal/workload/types.go. A tokenizer is a server: a call takes its
-- state to the next, and may fail or answer another number than before. Texts are bytes.
use llm_serving_performance.Prelude.{if◌then◌else◌, false, true, Bool, refl, ap, ◌≡◌, ℕ, List}
use llm_serving_performance.Prelude.Int.{ℤ}
use llm_serving_performance.Prelude.Results.{Result, ok, err, Ensures}

pub record TokenizationEvidence : Type 0 where
  pub tokens : ℤ
  pub model_max_length : ℤ

pub record Tokenizer : Type 1 where
  pub World : Type 0
  pub Identity : Type 0
  pub CountErr : Type 0
  pub count : List ℕ → World → World × Result CountErr TokenizationEvidence
  pub identity : Identity

-- Why a prompt cannot be built; the two counts of the last one are the target and the closest.
pub data BuildErr (E : Type 0) : Type 0 where
  target_not_positive output_not_positive target_exceeds_limit : BuildErr E
  target_below_minimum total_overflows total_exceeds_model : BuildErr E
  count_failed : E → BuildErr E
  no_exact_prompt : ℤ → ℤ → BuildErr E

module _ (t : Tokenizer) where
  open t use {World, CountErr}

  -- A computation that calls the tokenizer.
  abbrev pub Counting : Type 0 → Type 0
  Counting A = World → World × Result (BuildErr CountErr) A

  abbrev pub answer : {A : Type 0} → Result (BuildErr CountErr) A → Counting A
  answer r = λ w. (w, r)

  abbrev pub after :
      {A B : Type 0}
      → World × Result (BuildErr CountErr) A
      → (A → Counting B)
      → World × Result (BuildErr CountErr) B
  after (w, ok a) f = f a w
  after (w, err e) f = (w, err e)

  abbrev pub and_then : {A B : Type 0} → Counting A → (A → Counting B) → Counting B
  and_then m f = λ w. after (m w) f

  abbrev pub counted :
      World × Result CountErr TokenizationEvidence
      → World × Result (BuildErr CountErr) TokenizationEvidence
  counted (w, ok e) = (w, ok e)
  counted (w, err e) = (w, err (count_failed e))

  abbrev pub count_tokens : List ℕ → Counting TokenizationEvidence
  count_tokens text = λ w. counted (t.count text w)

  -- `if bad { return e }` before the rest.
  unfoldable pub refuse : {A : Type 0} → Bool → BuildErr CountErr → Counting A → Counting A
  refuse bad e rest = if bad then answer (err e) else rest

  -- Whatever state it starts in, a value that it returns has the property.
  abbrev pub Yields : {A : Type 0} → (A → Type 0) → Counting A → Type 0
  Yields P m = (w : World) → Ensures P (m w).1

  pub Yields-answer :
      {A : Type 0} (P : A → Type 0) (r : Result (BuildErr CountErr) A)
      → Ensures P r
      → Yields P (answer r)
  Yields-answer P r h w = h

  pub Yields-and_then :
      {A B : Type 0} (P : A → Type 0) (Q : B → Type 0) (m : Counting A) (f : A → Counting B)
      → Yields P m
      → ((a : A) → P a → Yields Q (f a))
      → Yields Q (and_then m f)
  Yields-and_then P Q m f h k w = go (m w) (h w)
    where
      go : (r : World × Result (BuildErr CountErr) _) → Ensures P r.1 → Ensures Q (after r f).1
      go (w, ok a) h = k a h w
      go (w, err e) h = tt

  pub Yields-refuse :
      {A : Type 0} (P : A → Type 0) (bad : Bool) (e : BuildErr CountErr) (m : Counting A)
      → Yields P m
      → Yields P (refuse bad e m)
  unfolding refuse
  Yields-refuse P true e m h w = tt
  Yields-refuse P false e m h w = h w

  pub Yields-if :
      {A : Type 0} (P : A → Type 0) (b : Bool) (m n : Counting A)
      → (b ≡ true → Yields P m)
      → (b ≡ false → Yields P n)
      → Yields P (if b then m else n)
  Yields-if P true m n h k = h refl
  Yields-if P false m n h k = k refl

  -- The tokenizer has answered so many tokens for the text, in some state.
  pub record Answered (text : List ℕ) (n : ℤ) : Type 0 where
    pub asked : World
    pub evidence : TokenizationEvidence
    pub answers : (t.count text asked).1 ≡ ok evidence
    pub number : evidence.tokens ≡ n

  pub count_tokens-Answered :
      (text : List ℕ) → Yields (λ e. Answered text e.tokens) (count_tokens text)
  count_tokens-Answered text w = go (t.count text w) refl
    where
      go :
          (r : World × Result CountErr TokenizationEvidence)
          → t.count text w ≡ r
          → Ensures (λ e. Answered text e.tokens) (counted r).1
      go (w', ok e) h = record { asked = w; evidence = e; answers = ap (λ x. x.1) h; number = refl }
      go (w', err e) h = tt
