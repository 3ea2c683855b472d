-- ===== src/Config/Text.antt =====
-- What the validation of a configuration reads of its texts. A text is a list of code points.
use llm_serving_performance.Prelude.Results.{◌>>◌, err, Result, refuse_if}
use llm_serving_performance.Prelude.{
  Bool, List, Option, [], false, leb, none, not, some, true, ℕ, ◌&&◌, ◌==◌, ◌||◌, ◌∷◌,
}

abbrev pub Text : Type 0
Text = List ℕ

-- `unicode.IsSpace`
unfoldable pub is_space : ℕ → Bool
is_space c =
    (leb 9 c && leb c 13)
    || (c == 32
        || (c == 133
            || (c == 160
                || (c == 5760
                    || ((leb 8192 c && leb c 8202)
                        || (c == 8232
                            || (c == 8233 || (c == 8239 || (c == 8287 || c == 12288)))))))))

-- `strings.TrimSpace(text) == ""`
unfoldable pub is_blank : Text → Bool
unfolding is_space
is_blank [] = true
is_blank (c ∷ rest) = is_space c && is_blank rest

unfoldable pub eqb_text : Text → Text → Bool
eqb_text [] [] = true
eqb_text [] (d ∷ e) = false
eqb_text (c ∷ d) [] = false
eqb_text (c ∷ s) (d ∷ t) = c == d && eqb_text s t

-- `^[A-Za-z_][A-Za-z0-9_]*$`
abbrev pub is_name_start : ℕ → Bool
is_name_start c = (leb 65 c && leb c 90) || ((leb 97 c && leb c 122) || c == 95)

unfoldable pub all_name_rest : Text → Bool
all_name_rest [] = true
all_name_rest (c ∷ rest) = (is_name_start c || (leb 48 c && leb c 57)) && all_name_rest rest

unfoldable pub is_environment_name : Text → Bool
unfolding all_name_rest
is_environment_name [] = false
is_environment_name (c ∷ rest) = is_name_start c && all_name_rest rest

-- What `url.Parse` says of a text; the parser is a parameter.
pub record Url : Type 0 where
  pub scheme : Text
  pub host : Text
  pub has_user : Bool
  pub raw_query : Text
  pub fragment : Text

pub data UrlErr : Type 0 where
  not_parsed bad_scheme no_host has_userinfo has_query has_fragment : UrlErr

abbrev pub is_empty_text : Text → Bool
is_empty_text [] = true
is_empty_text (_ ∷ _) = false

abbrev pub http : Text
http = 104 ∷ 116 ∷ 116 ∷ 112 ∷ []

abbrev pub https : Text
https = 104 ∷ 116 ∷ 116 ∷ 112 ∷ 115 ∷ []

unfoldable pub validate_parsed : Option Url → Result UrlErr (Unit {0})
unfolding eqb_text
validate_parsed none = err not_parsed
validate_parsed (some url) = do
  refuse_if (not (eqb_text url.scheme http) && not (eqb_text url.scheme https)) bad_scheme
  refuse_if (is_empty_text url.host) no_host
  refuse_if url.has_user has_userinfo
  refuse_if (not (is_empty_text url.raw_query)) has_query
  refuse_if (not (is_empty_text url.fragment)) has_fragment

unfoldable pub validate_base_url : (Text → Option Url) → Text → Result UrlErr (Unit {0})
unfolding validate_parsed
validate_base_url parse raw = validate_parsed (parse raw)
