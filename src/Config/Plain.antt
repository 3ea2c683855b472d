-- ===== src/Config/Plain.antt =====
-- `validateBaseURL` accepts exactly the plain URLs.
use llm_serving_performance.Prelude.Results.{ok}
use llm_serving_performance.Prelude.{
  Option, [], arith, false, none, not, refl, some, true, Bool-cases, ◌⊎◌, ◌&&◌, ◌∷◌, ◌≡◌, ◌↔◌, inl,
  inr,
}
use llm_serving_performance.Config.Text.{
  Text, Url, eqb_text, http, https, is_empty_text, validate_base_url, validate_parsed,
}
use llm_serving_performance.Config.Valid.{IsPlainUrl}

eqb_text_sound : (s t : Text) → eqb_text s t ≡ true → s ≡ t
unfolding eqb_text
eqb_text_sound [] [] h = refl
eqb_text_sound [] (d ∷ e) h = cc
eqb_text_sound (c ∷ d) [] h = cc
eqb_text_sound (c ∷ s) (d ∷ t) h =
    let heads : c ≡ d = ground arith in let tails : s ≡ t = eqb_text_sound s t (ground arith) in cc

eqb_text_refl : (s : Text) → eqb_text s s ≡ true
unfolding eqb_text
eqb_text_refl [] = refl
eqb_text_refl (c ∷ s) = ground (arith, eqb_text_refl s)

empty_sound : (t : Text) → is_empty_text t ≡ true → t ≡ []
empty_sound [] h = refl
empty_sound (c ∷ t) h = cc

not_empty : (t : Text) → ¬ (t ≡ []) → is_empty_text t ≡ false
not_empty [] h = absurd (h refl)
not_empty (c ∷ t) h = refl

either_scheme :
    (t : Text)
    → (not (eqb_text t http) && not (eqb_text t https)) ≡ false
    → (t ≡ http) ⊎ (t ≡ https)
either_scheme t h = elim (Bool-cases (eqb_text t http)) [
  | inl e ↦ inl (eqb_text_sound t http e)
  | inr n ↦ inr (eqb_text_sound t https (ground (arith, n, h)))
]

parsed_sound : (u : Option Url) → validate_parsed u ≡ ok tt → IsPlainUrl u
unfolding validate_parsed
parsed_sound none h = cc
parsed_sound (some url) h = record {
  web_scheme = either_scheme url.scheme (ground arith);
  has_host = λ e. ground (arith, e);
  without_user = ground arith;
  without_query = empty_sound url.raw_query (ground arith);
  without_fragment = empty_sound url.fragment (ground arith);
}

known_scheme :
    (t : Text)
    → (t ≡ http) ⊎ (t ≡ https)
    → (not (eqb_text t http) && not (eqb_text t https)) ≡ false
known_scheme t (inl e) = ground (arith, e, eqb_text_refl http)
known_scheme t (inr e) = ground (arith, e, eqb_text_refl https)

parsed_complete : (u : Option Url) → IsPlainUrl u → validate_parsed u ≡ ok tt
unfolding validate_parsed
parsed_complete none v = absurd v
parsed_complete (some url) v = ground (
  arith,
  known_scheme url.scheme v.web_scheme,
  not_empty url.host v.has_host,
  v.without_user,
  v.without_query,
  v.without_fragment,
)

pub validate_base_url_iff :
    (parse : Text → Option Url) (raw : Text)
    → (validate_base_url parse raw ≡ ok tt) ↔ IsPlainUrl (parse raw)
unfolding validate_base_url
validate_base_url_iff parse raw = (parsed_sound (parse raw), parsed_complete (parse raw))
