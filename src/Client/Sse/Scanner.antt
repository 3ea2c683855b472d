-- ===== src/Client/Sse/Scanner.antt =====
-- The `bufio.Scanner` of `parseSSE`, internal/openai/stream.go, with `bufio.ScanLines` and a buffer of
-- at most the limit's size.
use llm_serving_performance.Prelude.{
  Bool, List, [], if◌then◌else◌, length, not, true, ℕ, ◌&&◌, ◌==◌, ◌||◌, ◌∷◌, leb, ltb,
}

abbrev pub max_sse_frame_bytes : ℕ
max_sse_frame_bytes = 1048576

-- What is read: the bytes, whether an error other than the end of the file is behind them, and
-- whether that error or the end comes together with the last bytes.
pub record Reader : Type 0 where
  pub bytes : List ℕ
  pub read_fails : Bool
  pub ends_with_bytes : Bool

-- `strings.TrimSuffix(line, "\r")`, and the `dropCR` of `bufio.ScanLines`.
unfoldable pub trim_return : List ℕ → List ℕ
trim_return [] = []
trim_return (c ∷ []) = if c == 13 then [] else c ∷ []
trim_return (c ∷ d ∷ cs) = c ∷ trim_return (d ∷ cs)

abbrev pub put_byte : ℕ → List (List ℕ) × List ℕ → List (List ℕ) × List ℕ
put_byte c ([], tail) = ([], c ∷ tail)
put_byte c (line ∷ lines, tail) = ((c ∷ line) ∷ lines, tail)

-- The lines that a line feed ends, and what is behind the last one.
unfoldable pub split_lines : List ℕ → List (List ℕ) × List ℕ
split_lines [] = ([], [])
split_lines (c ∷ cs) =
    let rest = split_lines cs in if c == 10 then ([] ∷ rest.0, rest.1) else put_byte c rest

-- A buffer that is full without a line feed is `bufio.ErrTooLong`; the end is seen in time if it
-- comes together with the last bytes.
abbrev pub tail_too_long : Bool → List ℕ → Bool
tail_too_long ends_with_bytes tail =
    ltb max_sse_frame_bytes (length tail)
    || (length tail == max_sse_frame_bytes && not ends_with_bytes)

-- The tokens, and whether `scanner.Err()` is an error. A line and its line feed have to fit into the
-- buffer.
unfoldable pub scan_tokens : Reader → List (List ℕ) → List ℕ → List (List ℕ) × Bool
unfolding trim_return
scan_tokens reader [] [] = ([], reader.read_fails)
scan_tokens reader [] (c ∷ cs) =
    if tail_too_long reader.ends_with_bytes (c ∷ cs)
    then ([], true)
    else (trim_return (c ∷ cs) ∷ [], reader.read_fails)
scan_tokens reader (line ∷ lines) tail =
    let rest = scan_tokens reader lines tail in
    if leb max_sse_frame_bytes (length line)
    then ([], true)
    else (trim_return line ∷ rest.0, rest.1)

unfoldable pub scan : Reader → List (List ℕ) × Bool
unfolding scan_tokens split_lines
scan reader = let (lines, tail) = split_lines reader.bytes in scan_tokens reader lines tail
