-- ===== src/Client/Sse.antt =====
-- `parseSSE` of internal/openai/stream.go, over the tokens of its `bufio.Scanner`, which Scanner has.
-- The handler is a function on a state of its own. A frame's size is bounded by the limit plus one
-- line, so it does not wrap.
pub mod Scanner
pub mod Frames
pub mod Keeps
use llm_serving_performance.Client.Sse.Scanner.{scan, Reader, max_sse_frame_bytes, trim_return}
use llm_serving_performance.Prelude.{
  ℕ, suc, ◌+◌, Bool, true, false, ◌&&◌, ◌||◌, Option, none, some, List, [], ◌∷◌, ◌++◌, length,
  if◌then◌else◌, ◌==◌, ltb,
}
use llm_serving_performance.Prelude.Results.{Result, ok, err}

pub data StreamErr (E : Type 0) : Type 0 where
  frame_too_long read_failed : StreamErr E
  handler_failed : E → StreamErr E

-- `strings.Cut(line, ":")`; without a colon the value is empty.
abbrev pub cut_colon : List ℕ → List ℕ × List ℕ
cut_colon [] = ([], [])
cut_colon (c ∷ cs) = let rest = cut_colon cs in if c == b':' then ([], cs) else (c ∷ rest.0, rest.1)

abbrev pub drop_space : List ℕ → List ℕ
drop_space [] = []
drop_space (c ∷ cs) = if c == b' ' then cs else c ∷ cs

-- What a line is: the end of a frame, a comment or an unused field, or a value of the field `data`.
pub data Line : Type 0 where
  blank ignored : Line
  data_line : List ℕ → Line

abbrev pub is_data_field : List ℕ → Bool
is_data_field (c1 ∷ c2 ∷ c3 ∷ c4 ∷ []) =
    (c1 == b'd') && ((c2 == b'a') && ((c3 == b't') && (c4 == b'a')))
is_data_field _ = false

unfoldable pub line_of : List ℕ → Line
line_of [] = blank
line_of (c ∷ cs) =
    if c == b':'
    then ignored
    else if is_data_field (cut_colon (c ∷ cs)).0
    then data_line (drop_space (cut_colon (c ∷ cs)).1)
    else ignored

-- `strings.Join(dataLines, "\n")`
abbrev pub join_lines : List (List ℕ) → List ℕ
join_lines [] = []
join_lines (l ∷ []) = l
join_lines (l ∷ m ∷ ls) = l ++ (10 ∷ join_lines (m ∷ ls))

pub record Frame : Type 0 where
  pub data_lines : List (List ℕ)
  pub frame_bytes : ℕ

abbrev pub empty_frame : Frame
empty_frame = record { data_lines = []; frame_bytes = 0 }

-- The size of a frame with one more value: another line adds its line break.
abbrev pub grown : Frame → List ℕ → ℕ
grown f value = f.frame_bytes + length value + (if ltb 0 (length f.data_lines) then 1 else 0)

abbrev pub add_value : Frame → List ℕ → Frame
add_value f value = record {
  data_lines = f.data_lines ++ (value ∷ []);
  frame_bytes = grown f value;
}

module _ {S E : Type 0} (handle : S → List ℕ → S × Option E) where
  -- Goes on after the handler, unless it has failed.
  abbrev pub after_handler :
      S × Option E → (S → S × Result (StreamErr E) (Unit {0})) → S × Result (StreamErr E) (Unit {0})
  after_handler (s, none) k = k s
  after_handler (s, some e) k = (s, err (handler_failed e))

  -- An empty frame is not handed over.
  abbrev pub dispatch_values :
      S
      → List (List ℕ)
      → (S → S × Result (StreamErr E) (Unit {0}))
      → S × Result (StreamErr E) (Unit {0})
  dispatch_values s [] k = k s
  dispatch_values s (l ∷ ls) k = after_handler (handle s (join_lines (l ∷ ls))) k

  abbrev pub dispatch :
      S → Frame → (S → S × Result (StreamErr E) (Unit {0})) → S × Result (StreamErr E) (Unit {0})
  dispatch s f k = dispatch_values s f.data_lines k

  -- One line, and the loop from there on.
  abbrev pub parse_line :
      Line
      → S
      → Frame
      → (S → Frame → S × Result (StreamErr E) (Unit {0}))
      → S × Result (StreamErr E) (Unit {0})
  parse_line blank s f k = dispatch s f (λ s'. k s' empty_frame)
  parse_line ignored s f k = k s f
  parse_line (data_line value) s f k =
      if ltb max_sse_frame_bytes (grown f value)
      then (s, err frame_too_long)
      else k s (add_value f value)

  unfoldable pub parse_lines :
      Bool → S → Frame → List (List ℕ) → S × Result (StreamErr E) (Unit {0})
  unfolding trim_return line_of
  parse_lines scan_failed s f [] =
      if scan_failed then (s, err read_failed) else dispatch s f (λ s'. (s', ok tt))
  parse_lines scan_failed s f (line ∷ lines) =
      parse_line (line_of (trim_return line)) s f (λ s' f'. parse_lines scan_failed s' f' lines)

  -- The loop over the tokens, and the error of the scanner behind them.
  unfoldable pub parse_sse : Reader → S → S × Result (StreamErr E) (Unit {0})
  unfolding parse_lines
  parse_sse reader s = let (tokens, failed) = scan reader in parse_lines failed s empty_frame tokens
