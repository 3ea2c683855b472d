-- ===== src/Prelude/Results.antt =====
-- A fallible computation with errors of type E: the pair `(value, error)` of a Go function of which
-- the caller reads the value only when the error is nil.
use llm_serving_performance.Prelude.{
  ◌≡◌, refl, ◌⊎◌, inl, inr, Bool, true, false, Option, none, some,
}
use mathlib.Core.Path.{subst}

pub data Result (E A : Type 0) : Type 0 where
  ok : A → Result E A
  err : E → Result E A

infixl 5 ◌>>=◌ ◌>>◌
abbrev pub ◌>>=◌ : {E A B : Type 0} → Result E A → (A → Result E B) → Result E B
ok a >>= f = f a
err e >>= f = err e

abbrev pub ◌>>◌ : {E B : Type 0} → Result E (Unit {0}) → Result E B → Result E B
m >> k = m >>= λ _. k

-- `if bad { return e }`
abbrev pub refuse_if : {E : Type 0} → Bool → E → Result E (Unit {0})
refuse_if true e = err e
refuse_if false e = ok tt

-- Another error in the place of the callee's, as `fmt.Errorf` wraps it.
abbrev pub wrap_err : {E F A : Type 0} → (E → F) → Result E A → Result F A
wrap_err f (ok a) = ok a
wrap_err f (err e) = err (f e)

-- A result that is a value has the property.
abbrev pub Ensures : {E A : Type 0} → (A → Type 0) → Result E A → Type 0
Ensures P (ok a) = P a
Ensures P (err e) = Unit {0}

pub ensured :
    {E A : Type 0} (P : A → Type 0) (r : Result E A) {a : A} → Ensures P r → r ≡ ok a → P a
ensured P (ok b) {a} h e = subst P (cc) h
ensured P (err x) h e = cc

pub Ensures-map :
    {E A : Type 0} (P Q : A → Type 0) (r : Result E A)
    → ((a : A) → P a → Q a)
    → Ensures P r
    → Ensures Q r
Ensures-map P Q (ok a) f h = f a h
Ensures-map P Q (err e) f h = tt

pub Ensures->>= :
    {E A B : Type 0} (P : A → Type 0) (Q : B → Type 0) (r : Result E A) (f : A → Result E B)
    → Ensures P r
    → ((a : A) → P a → Ensures Q (f a))
    → Ensures Q (r >>= f)
Ensures->>= P Q (ok a) f h k = k a h
Ensures->>= P Q (err e) f h k = tt

-- Behind a guard its condition is known to be false.
pub Ensures-refuse_if :
    {E B : Type 0} (Q : B → Type 0) (bad : Bool) (e : E) (r : Result E B)
    → (bad ≡ false → Ensures Q r)
    → Ensures Q (refuse_if bad e >> r)
Ensures-refuse_if Q true e r h = tt
Ensures-refuse_if Q false e r h = h refl

pub Ensures-last_guard :
    {E : Type 0} (Q : Type 0) (bad : Bool) (e : E)
    → (bad ≡ false → Q)
    → Ensures (λ u. Q) (refuse_if bad e)
Ensures-last_guard Q true e h = tt
Ensures-last_guard Q false e h = h refl

pub Ensures-wrap_err :
    {E F A : Type 0} (f : E → F) (r : Result E A) → Ensures (λ a. r ≡ ok a) (wrap_err f r)
Ensures-wrap_err f (ok a) = refl
Ensures-wrap_err f (err e) = tt

-- The two parts of a chain that has returned a value.
pub >>=-ok :
    {E A B : Type 0} (r : Result E A) (f : A → Result E B) {b : B}
    → (r >>= f) ≡ ok b
    → (a : A) × (r ≡ ok a) × (f a ≡ ok b)
>>=-ok (ok a) f h = (a, refl, h)
>>=-ok (err e) f h = cc

-- To split on a result and keep the equation.
pub Result-cases :
    {E A : Type 0} (r : Result E A) → ((e : E) × (r ≡ err e)) ⊎ ((a : A) × (r ≡ ok a))
Result-cases (ok a) = inr (a, refl)
Result-cases (err e) = inl (e, refl)

-- A computation that does not panic, and whose value, if it returns one, has the property.
abbrev pub Returns : {E A : Type 0} → (A → Type 0) → Option (Result E A) → Type 0
Returns P none = ⊥
Returns P (some (ok a)) = P a
Returns P (some (err e)) = Unit {0}

abbrev pub is_ok : {E A : Type 0} → Result E A → Bool
is_ok (ok a) = true
is_ok (err e) = false

-- Whatever the first part returns, the second one ensures the property.
pub Ensures-after :
    {E A B : Type 0} (Q : B → Type 0) (r : Result E A) (f : A → Result E B)
    → ((a : A) → Ensures Q (f a))
    → Ensures Q (r >>= f)
Ensures-after Q (ok a) f k = k a
Ensures-after Q (err e) f k = tt
