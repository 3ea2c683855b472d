-- ===== src/Client/Sse/Keeps.antt =====
-- What the handler keeps, parsing keeps.
use llm_serving_performance.Client.Sse.Scanner.{max_sse_frame_bytes, trim_return}
use llm_serving_performance.Prelude.{
  ℕ, Bool, true, false, Option, none, some, List, [], ◌∷◌, Bool-cases, inl, inr, ltb,
}
use llm_serving_performance.Prelude.Results.{Result, ok}
use llm_serving_performance.Client.Sse.{
  StreamErr, Frame, Line, blank, ignored, data_line, line_of, empty_frame, add_value, grown,
  join_lines, after_handler, dispatch_values, parse_line, parse_lines,
}

-- A property of the handler's state that the handler keeps holds after parsing.
module _ {S E : Type 0} (handle : S → List ℕ → S × Option E) (I : S → Type 0) where
  after_handler-keeps :
      (r : S × Option E) (k : S → S × Result (StreamErr E) (Unit {0}))
      → I r.0
      → ((s : S) → I s → I (k s).0)
      → I (after_handler handle r k).0
  after_handler-keeps (s, none) k h f = f s h
  after_handler-keeps (s, some e) k h f = h

  dispatch_values-keeps :
      (s : S) (ls : List (List ℕ)) (k : S → S × Result (StreamErr E) (Unit {0}))
      → ((s : S) (text : List ℕ) → I s → I (handle s text).0)
      → I s
      → ((s : S) → I s → I (k s).0)
      → I (dispatch_values handle s ls k).0
  dispatch_values-keeps s [] k kept h g = g s h
  dispatch_values-keeps s (l ∷ ls) k kept h g =
      after_handler-keeps (handle s (join_lines (l ∷ ls))) k (kept s (join_lines (l ∷ ls)) h) g

  parse_line-keeps :
      (l : Line) (s : S) (f : Frame) (k : S → Frame → S × Result (StreamErr E) (Unit {0}))
      → ((s : S) (text : List ℕ) → I s → I (handle s text).0)
      → I s
      → ((s : S) (f : Frame) → I s → I (k s f).0)
      → I (parse_line handle l s f k).0
  parse_line-keeps blank s f k kept h g =
      dispatch_values-keeps s f.data_lines (λ s'. k s' empty_frame) kept h
        (λ s' h'. g s' empty_frame h')
  parse_line-keeps ignored s f k kept h g = g s f h
  parse_line-keeps (data_line v) s f k kept h g =
      elim (Bool-cases (ltb max_sse_frame_bytes (grown f v))) [
        | inl e ↦ rw e h
        | inr e ↦ rw e (g s (add_value f v) h)
      ]

  pub parse_lines-keeps :
      (scan_failed : Bool) (s : S) (f : Frame) (lines : List (List ℕ))
      → ((s : S) (text : List ℕ) → I s → I (handle s text).0)
      → I s
      → I (parse_lines handle scan_failed s f lines).0
  unfolding parse_lines
  parse_lines-keeps true s f [] kept h = h
  parse_lines-keeps false s f [] kept h =
      dispatch_values-keeps s f.data_lines (λ s'. (s', ok tt)) kept h (λ s' h'. h')
  parse_lines-keeps scan_failed s f (line ∷ lines) kept h =
      parse_line-keeps (line_of (trim_return line)) s f
        (λ s' f'. parse_lines handle scan_failed s' f' lines) kept h
        (λ s' f' h'. parse_lines-keeps scan_failed s' f' lines kept h')
