-- ===== src/Client/Sse/Frames.antt =====
-- A stream that is printed as SSE frames is handed over event by event.
use llm_serving_performance.Prelude.{
  leb, ◌==◌, ◌≢◌, ℕ, ◌+◌, ◌≤◌, ◌<◌, ◌≡◌, refl, sym, ap, ◌∙◌, Bool, true, false, Option, none, some,
  List, [], ◌∷◌, ◌++◌, length, if◌then◌else◌, ltb, arith, length-append,
}
use llm_serving_performance.Client.Sse.Scanner.{
  Reader, max_sse_frame_bytes, scan, scan_tokens, split_lines, trim_return,
}
use llm_serving_performance.Prelude.Results.{Result, ok, err}
use llm_serving_performance.Client.Sse.{
  StreamErr, data_line, line_of, join_lines, Frame, empty_frame, grown, add_value, after_handler,
  dispatch, frame_too_long, parse_line, parse_lines, parse_sse,
}
use mathlib.Core.List.{append-nil, append_assoc}

-- "data: " and the value.
abbrev pub print_value : List ℕ → List ℕ
print_value value = b'd' ∷ b'a' ∷ b't' ∷ b'a' ∷ b':' ∷ b' ' ∷ value

-- The lines of an event and a blank line; an event is its first value and the others.
abbrev value_lines : List (List ℕ) → List (List ℕ) → List (List ℕ)
value_lines [] rest = [] ∷ rest
value_lines (v ∷ vs) rest = print_value v ∷ value_lines vs rest

abbrev event_lines : List (List ℕ × List (List ℕ)) → List (List ℕ)
event_lines [] = []
event_lines ((v, vs) ∷ events) = value_lines (v ∷ vs) (event_lines events)

-- A line feed behind each line.
abbrev pub print_lines : List (List ℕ) → List ℕ
print_lines [] = []
print_lines (l ∷ ls) = l ++ (10 ∷ print_lines ls)

abbrev pub print_events : List (List ℕ × List (List ℕ)) → List ℕ
print_events events = print_lines (event_lines events)

abbrev pub NoFeed : List ℕ → Type 0
NoFeed [] = Unit {0}
NoFeed (c ∷ cs) = (c ≢ 10) × NoFeed cs

-- A value has no line feed, and no carriage return at its end; its line with the line feed is not
-- longer than the scanner's buffer.
abbrev pub Printable : List (List ℕ) → Type 0
Printable [] = Unit {0}
Printable (v ∷ vs) =
    (NoFeed v × (trim_return v ≡ v) × (7 + length v ≤ max_sse_frame_bytes)) × Printable vs

-- The size of an event: its first value, and each other one with a line break.
abbrev pub more_size : List (List ℕ) → ℕ
more_size [] = 0
more_size (v ∷ vs) = 1 + length v + more_size vs

-- The events are printable and within the limit of a frame.
abbrev pub Fits : List (List ℕ × List (List ℕ)) → Type 0
Fits [] = Unit {0}
Fits ((v, vs) ∷ events) =
    Printable (v ∷ vs) × (length v + more_size vs ≤ max_sse_frame_bytes) × Fits events

line_of-print_value :
    (v : List ℕ) → trim_return v ≡ v → line_of (trim_return (print_value v)) ≡ data_line v
unfolding line_of trim_return
line_of-print_value [] h = refl
line_of-print_value (c ∷ cs) h = rw h refl

abbrev add_values : Frame → List (List ℕ) → Frame
add_values f [] = f
add_values f (v ∷ vs) = add_values (add_value f v) vs

data_lines-add_values :
    (f : Frame) (vs : List (List ℕ)) → (add_values f vs).data_lines ≡ f.data_lines ++ vs
data_lines-add_values f [] = sym (append-nil f.data_lines)
data_lines-add_values f (v ∷ vs) =
    data_lines-add_values (add_value f v) vs ∙ append_assoc f.data_lines (v ∷ []) vs

-- A frame that has a line grows by the values and a line break each.
frame_bytes-add_values :
    (f : Frame) (vs : List (List ℕ))
    → 0 < length f.data_lines
    → (add_values f vs).frame_bytes ≡ f.frame_bytes + more_size vs
frame_bytes-add_values f [] h = omega arith
frame_bytes-add_values f (v ∷ vs) h =
    let more : 0 < length (f.data_lines ++ (v ∷ [])) =
      omega (arith, length-append f.data_lines (v ∷ [])) in
    ground (arith, frame_bytes-add_values (add_value f v) vs more)

frame_bytes-le : (f : Frame) (vs : List (List ℕ)) → f.frame_bytes ≤ (add_values f vs).frame_bytes
frame_bytes-le f [] = omega arith
frame_bytes-le f (v ∷ vs) = ground (arith, frame_bytes-le (add_value f v) vs)

-- The lines are what the scanner makes of the printed bytes.
split_lines-line :
    (l : List ℕ) (rest : List ℕ)
    → NoFeed l
    → split_lines (l ++ (10 ∷ rest)) ≡ (l ∷ (split_lines rest).0, (split_lines rest).1)
unfolding split_lines
split_lines-line [] rest h = refl
split_lines-line (c ∷ cs) rest h = rw (not_feed c h.0, split_lines-line cs rest h.1) refl
  where
    not_feed : (c : ℕ) → c ≢ 10 → (c == 10) ≡ false
    not_feed c h = ground arith

-- A line that the scanner hands over as it is.
abbrev Scannable : List ℕ → Type 0
Scannable l = NoFeed l × (trim_return l ≡ l) × (length l < max_sse_frame_bytes)

abbrev AllScannable : List (List ℕ) → Type 0
AllScannable [] = Unit {0}
AllScannable (l ∷ ls) = Scannable l × AllScannable ls

scan_tokens-lines :
    (reader : Reader) (ls : List (List ℕ))
    → AllScannable ls
    → scan_tokens reader ls [] ≡ (ls, reader.read_fails)
unfolding scan_tokens
scan_tokens-lines reader [] h = refl
scan_tokens-lines reader (l ∷ ls) ((feed, trimmed, short), h) =
    rw (fits (length l) short, trimmed, scan_tokens-lines reader ls h) refl
  where
    fits : (n : ℕ) → n < max_sse_frame_bytes → leb max_sse_frame_bytes n ≡ false
    fits n h = ground arith

split_lines-print_lines :
    (ls : List (List ℕ)) → AllScannable ls → split_lines (print_lines ls) ≡ (ls, [])
unfolding split_lines
split_lines-print_lines [] h = refl
split_lines-print_lines (l ∷ ls) ((feed, _, _), h) =
    split_lines-line l (print_lines ls) feed
    ∙ ap (λ r. (l ∷ r.0, r.1)) (split_lines-print_lines ls h)

print_value-Scannable :
    (v : List ℕ)
    → NoFeed v
    → trim_return v ≡ v
    → 7 + length v ≤ max_sse_frame_bytes
    → Scannable (print_value v)
unfolding trim_return
print_value-Scannable v feed trimmed short = (
  (
    ground arith,
    (ground arith, (ground arith, (ground arith, (ground arith, (ground arith, feed))))),
  ),
  print_value-trimmed v trimmed,
  omega (arith, short),
)
  where
    print_value-trimmed :
        (v : List ℕ) → trim_return v ≡ v → trim_return (print_value v) ≡ print_value v
    print_value-trimmed [] h = refl
    print_value-trimmed (c ∷ cs) h = rw h refl

value_lines-scannable :
    (vs rest : List (List ℕ))
    → Printable vs
    → AllScannable rest
    → AllScannable (value_lines vs rest)
unfolding trim_return
value_lines-scannable [] rest p h = ((tt, refl, omega arith), h)
value_lines-scannable (v ∷ vs) rest ((feed, trimmed, short), p) h =
    (print_value-Scannable v feed trimmed short, value_lines-scannable vs rest p h)

event_lines-scannable :
    (events : List (List ℕ × List (List ℕ))) → Fits events → AllScannable (event_lines events)
event_lines-scannable [] h = tt
event_lines-scannable ((v, vs) ∷ events) h =
    value_lines-scannable (v ∷ vs) (event_lines events) h.0 (event_lines-scannable events h.2)

scan-print_events :
    (reader : Reader) (events : List (List ℕ × List (List ℕ)))
    → reader.bytes ≡ print_events events
    → reader.read_fails ≡ false
    → Fits events
    → scan reader ≡ (event_lines events, false)
unfolding scan
scan-print_events reader events printed sound h =
    let all = event_lines-scannable events h in
    ap (λ b. scan_tokens reader (split_lines b).0 (split_lines b).1) printed
    ∙ ap (λ r. scan_tokens reader r.0 r.1) (split_lines-print_lines (event_lines events) all)
    ∙ scan_tokens-lines reader (event_lines events) all
    ∙ ap (λ f. (event_lines events, f)) sound

module _ {S E : Type 0} (handle : S → List ℕ → S × Option E) where
  -- The events handed over one after another, until the handler fails.
  abbrev pub handle_events : S → List (List ℕ × List (List ℕ)) → S × Result (StreamErr E) (Unit {0})
  handle_events s [] = (s, ok tt)
  handle_events s ((v, vs) ∷ events) =
      after_handler handle (handle s (join_lines (v ∷ vs))) (λ s'. handle_events s' events)

  parse-data_line :
      (s : S) (f : Frame) (line value : List ℕ) (lines : List (List ℕ))
      → line_of (trim_return line) ≡ data_line value
      → ltb max_sse_frame_bytes (grown f value) ≡ false
      → parse_lines handle false s f (line ∷ lines)
        ≡ parse_lines handle false s (add_value f value) lines
  unfolding parse_lines
  parse-data_line s f line value lines h small =
      ap (λ l. parse_line handle l s f (λ s' f'. parse_lines handle false s' f' lines)) h
      ∙ go (ltb max_sse_frame_bytes (grown f value)) small
    where
      go :
          (b : Bool)
          → b ≡ false
          → (if b
              then (s, err frame_too_long)
              else parse_lines handle false s (add_value f value) lines)
            ≡ parse_lines handle false s (add_value f value) lines
      go true e = cc
      go false e = refl

  -- The values of one event are gathered, and handed over at the blank line.
  parse-value_lines :
      (s : S) (f : Frame) (vs : List (List ℕ)) (rest : List (List ℕ))
      → Printable vs
      → (add_values f vs).frame_bytes ≤ max_sse_frame_bytes
      → parse_lines handle false s f (value_lines vs rest)
        ≡ dispatch handle s (add_values f vs) (λ s'. parse_lines handle false s' empty_frame rest)
  unfolding parse_lines line_of trim_return
  parse-value_lines s f [] rest p h = refl
  parse-value_lines s f (v ∷ vs) rest ((_, trimmed, _), p) h =
      let small : ltb max_sse_frame_bytes (grown f v) ≡ false =
        ground (arith, frame_bytes-le (add_value f v) vs) in
      parse-data_line s f (print_value v) v (value_lines vs rest) (line_of-print_value v trimmed)
        small
      ∙ parse-value_lines s (add_value f v) vs rest p h

  gathered :
      (s : S) (f : Frame) (v : List ℕ) (vs : List (List ℕ))
      (k : S → S × Result (StreamErr E) (Unit {0}))
      → f.data_lines ≡ v ∷ vs
      → dispatch handle s f k ≡ after_handler handle (handle s (join_lines (v ∷ vs))) k
  gathered s f v vs k e = rw e refl

  after_handler-ext :
      (r : S × Option E) (f g : S → S × Result (StreamErr E) (Unit {0}))
      → ((s : S) → f s ≡ g s)
      → after_handler handle r f ≡ after_handler handle r g
  after_handler-ext (s, none) f g h = h s
  after_handler-ext (s, some e) f g h = refl

  parse_lines-event_lines :
      (s : S) (events : List (List ℕ × List (List ℕ)))
      → Fits events
      → parse_lines handle false s empty_frame (event_lines events) ≡ handle_events s events
  unfolding parse_lines
  parse_lines-event_lines s [] h = refl
  parse_lines-event_lines s ((v, vs) ∷ events) h =
      let first = add_value empty_frame v in
      let size : (add_values first vs).frame_bytes ≤ max_sse_frame_bytes =
        omega (arith, frame_bytes-add_values first vs (omega arith), h.1) in
      parse-value_lines s empty_frame (v ∷ vs) (event_lines events) h.0 size
      ∙ gathered s (add_values first vs) v vs _ (data_lines-add_values first vs)
      ∙ after_handler-ext (handle s (join_lines (v ∷ vs))) _ _
          (λ s'. parse_lines-event_lines s' events h.2)

  -- Parsing the bytes of printed events hands over exactly the events' values, joined by line feeds,
  -- in their order, up to the first failure of the handler, and without an error of the scanner. No
  -- value has a line feed, or ends in a carriage return; each line with its line feed fits into the
  -- scanner's buffer, and every event is within the limit of a frame. The reader does not fail.
  pub parse_sse-print_events :
      (reader : Reader) (s : S) (events : List (List ℕ × List (List ℕ)))
      → reader.bytes ≡ print_events events
      → reader.read_fails ≡ false
      → Fits events
      → parse_sse handle reader s ≡ handle_events s events
  unfolding parse_sse
  parse_sse-print_events reader s events printed sound h =
      ap (λ r. parse_lines handle r.1 s empty_frame r.0)
        (scan-print_events reader events printed sound h)
      ∙ parse_lines-event_lines s events h
