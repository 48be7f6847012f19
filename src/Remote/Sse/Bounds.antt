-- ===== src/Remote/Sse/Bounds.antt =====
-- The maximum of an `SSEParser` and what the parser holds.
use marimo_export.Prelude.{
  ℕ, zero, suc, ◌+◌, ◌≤◌, Bool, true, false, ◌&&◌, ◌||◌, Option, none, some, List, [], ◌∷◌, ◌++◌,
  length, any, length-append, ltb, ltb→le, ◌==◌, bytes_eq, if◌then◌else◌, Result, ok, err, ◌≡◌, ◌≢◌,
  refl, arith, Bool-cases, Option-cases, Result-cases, inl, inr,
}
use marimo_export.Remote.Sse.{
  Bytes, SseError, SseEvent, Parser, max_event_name_bytes, max_data_lines, next_bytes, newline,
  split_line, strip_return, partition_colon, strip_space, data_line, field_line, full_line, decoded,
  blank_line, no_event, line, feed_loop, feed, with_event, over_limit, join_lines, is_empty,
  event_field, data_field, carriage_return, reset, message_event, bad_utf8,
}
use marimo_export.Remote.Sse.Loop.{on_buffer, step_end, read_line, step_ok, step_err}
use marimo_export.Remote.Sse.Chunks.{feed_shut, feed_nul, feed_open}

pub record IsBounded (p : Parser) : Type 0 where
  pub data_counted : p.data_bytes ≡ length (join_lines p.lines)
  pub data_fits : p.data_bytes ≤ p.maximum
  pub few_lines : length p.lines ≤ max_data_lines
  pub short_name : length p.event ≤ max_event_name_bytes
  pub wire_fits : p.event_wire_bytes ≤ p.maximum

length-join_lines :
    (ls : List Bytes) (v : Bytes)
    → length (join_lines (ls ++ v ∷ []))
      ≡ length (join_lines ls) + length v + (if is_empty ls then 0 else 1)
unfolding join_lines
length-join_lines [] v = omega arith
length-join_lines (l ∷ []) v = omega (arith, length-append {0} l (newline ∷ v))
length-join_lines (l ∷ m ∷ ls) v = omega (
  arith,
  length-join_lines (m ∷ ls) v,
  length-append {0} l (newline ∷ join_lines (m ∷ ls)),
  length-append {0} l (newline ∷ join_lines (m ∷ ls ++ v ∷ [])),
)

-- The bounds hold wherever the result is no raise.
abbrev Keeps : {A : Type 0} → Parser × Result SseError A → Type 0
Keeps (p, ok a) = IsBounded p
Keeps (p, err e) = Unit

module _ (p : Parser) (h : IsBounded p) where
  grown :
      (v : Bytes)
      → length p.lines ≢ max_data_lines
      → next_bytes p v ≤ p.maximum
      → IsBounded (record p { lines = p.lines ++ v ∷ []; data_bytes = next_bytes p v })
  grown v room fits = record {
    data_counted = ground (arith, h.data_counted, length-join_lines p.lines v);
    data_fits = fits;
    few_lines = omega (arith, h.few_lines, length-append {0} p.lines (v ∷ []));
    short_name = h.short_name;
    wire_fits = h.wire_fits;
  }

  data_line-Keeps : (v : Bytes) → Keeps (data_line p v)
  unfolding data_line
  data_line-Keeps v = elim (Bool-cases (length p.lines == max_data_lines)) [
    | inl many ↦ simp many tt
    | inr room ↦ elim (Bool-cases (ltb p.maximum (next_bytes p v))) [
      | inl big ↦ simp (room, big) tt
      | inr fits ↦ simp (room, fits) (grown v (ground arith) (ltb→le _ _ fits))
    ]
  ]

  field_line-Keeps : (f v : Bytes) → Keeps (field_line p f v)
  unfolding field_line
  field_line-Keeps f v = elim (Bool-cases (bytes_eq f event_field)) [
    | inl is_event ↦ elim (Bool-cases (is_empty v || ltb max_event_name_bytes (length v))) [
      | inl bad ↦ simp (is_event, bad) tt
      | inr good ↦
          simp (is_event, good)
            (record {
              data_counted = h.data_counted;
              data_fits = h.data_fits;
              few_lines = h.few_lines;
              short_name = ground arith;
              wire_fits = h.wire_fits;
            })
    ]
    | inr other ↦ elim (Bool-cases (bytes_eq f data_field)) [
      | inl is_data ↦ simp (other, is_data) (data_line-Keeps v)
      | inr neither ↦ simp (other, neither) h
    ]
  ]

full_line-Keeps : (p : Parser) (h : IsBounded p) (l : Bytes) (n : ℕ) → Keeps (full_line p l n)
unfolding full_line
full_line-Keeps p h l n = elim (Bool-cases (ltb p.maximum (p.event_wire_bytes + n))) [
  | inl big ↦ simp big tt
  | inr fits ↦
      let h' : IsBounded (record p { event_wire_bytes = p.event_wire_bytes + n }) = record {
        data_counted = h.data_counted;
        data_fits = h.data_fits;
        few_lines = h.few_lines;
        short_name = h.short_name;
        wire_fits = ltb→le _ _ fits;
      } in
      elim (Bool-cases (bytes_eq (partition_colon l).0 [] && (partition_colon l).1)) [
        | inl comment ↦ simp (fits, comment) h'
        | inr field ↦
            simp (fits, field)
              (field_line-Keeps (record p { event_wire_bytes = p.event_wire_bytes + n }) h'
                (partition_colon l).0 (strip_space (partition_colon l).1 (partition_colon l).2))
      ]
]

-- Besides the bounds, the bytes that wait for their newline fit with the event's.
abbrev pub Fits : {A : Type 0} → Parser × Result SseError A → Type 0
Fits (p, ok a) = IsBounded p × (p.event_wire_bytes + length p.buffer ≤ p.maximum)
Fits (p, err e) = Unit

on_buffer-IsBounded : (b : Bytes) (p : Parser) → IsBounded p → IsBounded (on_buffer b p)
on_buffer-IsBounded b p h = record {
  data_counted = h.data_counted;
  data_fits = h.data_fits;
  few_lines = h.few_lines;
  short_name = h.short_name;
  wire_fits = h.wire_fits;
}

module _ {Text : Type 0} (decode : Bytes → Option Text) where
  no_event-Keeps : (r : Parser × Result SseError (Unit {0})) → Keeps r → Keeps (no_event decode r)
  unfolding no_event
  no_event-Keeps (p, ok u) k = k
  no_event-Keeps (p, err e) k = tt

  reset-IsBounded : (p : Parser) → IsBounded (reset p)
  unfolding join_lines
  reset-IsBounded p = record {
    data_counted = refl;
    data_fits = omega arith;
    few_lines = omega arith;
    short_name = omega arith;
    wire_fits = omega arith;
  }

  blank_line-Keeps : (p : Parser) → Keeps (blank_line decode p)
  unfolding blank_line
  blank_line-Keeps p = elim (Bool-cases (is_empty p.lines)) [
    | inl bare ↦ simp bare (reset-IsBounded p)
    | inr full ↦ simp full (
        dispatched (
          decoded decode (decode (if is_empty p.event then message_event else p.event))
            (decode (join_lines p.lines))))
  ]
    where
      dispatched :
          (o : Option (SseEvent Text))
          → Keeps {A = Option (SseEvent Text)}
              (elim o [ none ↦ (p, err bad_utf8) | some e ↦ (reset p, ok (some e)) ])
      dispatched none = tt
      dispatched (some e) = reset-IsBounded p

  line-Keeps : (p : Parser) (h : IsBounded p) (l : Bytes) (n : ℕ) → Keeps (line decode p l n)
  unfolding line
  line-Keeps p h [] n = blank_line-Keeps p
  line-Keeps p h (x ∷ xs) n = no_event-Keeps _ (full_line-Keeps p h (x ∷ xs) n)

  kept_ok :
      {A : Type 0} (r : Parser × Result SseError A) (a : A) → r.1 ≡ ok a → Keeps r → IsBounded r.0
  kept_ok (p, ok b) a e k = k
  kept_ok (p, err er) a e k = absurd (ground arith)

  feed_loop-Fits :
      (f : ℕ) (p : Parser) (evs : List (SseEvent Text))
      → IsBounded p
      → Fits (feed_loop decode f p evs)
  unfolding feed_loop
  feed_loop-Fits zero p evs h = tt
  feed_loop-Fits (suc f) p evs h = elim (Option-cases (split_line p.buffer)) [
    | inl none_left ↦
        rw (step_end decode f p evs none_left)
          (ending (ltb p.maximum (p.event_wire_bytes + length p.buffer)) (λ e. ltb→le _ _ e))
    | inr ((l, r), found) ↦ elim (Result-cases (read_line decode f p evs l r found).1) [
      | inl (er, e) ↦ rw (step_err decode f p evs l r found er e) tt
      | inr (ev, e) ↦ rw (step_ok decode f p evs l r found ev e) (
          feed_loop-Fits f (on_buffer r (read_line decode f p evs l r found).0)
            (with_event decode ev evs)
            (on_buffer-IsBounded r _
              (kept_ok _ ev e (line-Keeps p h (strip_return l) (length l + 1)))))
    ]
  ]
    where
      ending :
          (t : Bool)
          → (t ≡ false → p.event_wire_bytes + length p.buffer ≤ p.maximum)
          → Fits {A = List (SseEvent Text)} (if t then (p, err over_limit) else (p, ok evs))
      ending true fits = tt
      ending false fits = (h, fits refl)

  -- After a feed that does not raise, a parser within its bounds is within them again, and the
  -- buffered bytes together with those of the event in progress do not pass its maximum.
  pub feed-Fits : (p : Parser) (chunk : Bytes) → IsBounded p → Fits (feed decode p chunk)
  feed-Fits p chunk h = elim (Bool-cases p.is_closed) [
    | inl shut ↦ rw (feed_shut decode p chunk shut) tt
    | inr opened ↦ elim (Bool-cases (any (λ x. x == 0) chunk)) [
      | inl nul_byte ↦ rw (feed_nul decode p chunk opened nul_byte) tt
      | inr no_nul ↦ rw (feed_open decode p chunk opened no_nul) (
          feed_loop-Fits (suc (length (p.buffer ++ chunk))) (on_buffer (p.buffer ++ chunk) p) []
            (on_buffer-IsBounded (p.buffer ++ chunk) p h))
    ]
  ]

  -- An open parser with an empty buffer, whose event in progress has exactly the maximum of bytes.
  abbrev pub full_parser : ℕ → Bytes → List Bytes → ℕ → Parser
  full_parser maximum event lines data_bytes = record {
    maximum = maximum;
    buffer = [];
    event = event;
    lines = lines;
    data_bytes = data_bytes;
    event_wire_bytes = maximum;
    is_closed = false;
  }

  -- With the event in progress exactly at the maximum, a carriage return in a chunk by itself
  -- raises the limit error, and the same blank line with its newline in the chunk does not.
  pub split_return_raises :
      (maximum : ℕ) (event : Bytes) (lines : List Bytes) (data_bytes : ℕ)
      → ((feed decode (full_parser maximum event lines data_bytes) (carriage_return ∷ [])).1
          ≡ err over_limit)
        × ((feed decode
              (full_parser maximum event lines data_bytes)
              (carriage_return ∷ newline ∷ [])).1
            ≢ err over_limit)
  unfolding feed
  split_return_raises maximum event lines data_bytes =
      let p = full_parser maximum event lines data_bytes in (ground arith, λ e. ground arith)
