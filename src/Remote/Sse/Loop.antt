-- ===== src/Remote/Sse/Loop.antt =====
-- The loop of `feed`: its fuel, and its buffer against the chunks.
use marimo_export.Prelude.{
  ℕ, zero, suc, ◌+◌, ◌<◌, Bool, true, false, Option, none, some, List, [], ◌∷◌, ◌++◌, length, ltb,
  if◌then◌else◌, Result, ok, err, ◌≡◌, refl, sym, ap, ◌∙◌, arith, Option-cases, Result-cases, inl,
  inr,
}
use marimo_export.Remote.Sse.{
  Bytes, SseError, SseEvent, Parser, split_line, strip_return, partition_colon, strip_space,
  data_line, field_line, full_line, blank_line, no_event, line, feed_loop, with_event, over_limit,
}

pub length-split_line :
    (bs l r : Bytes) → split_line bs ≡ some (l, r) → length l + length r + 1 ≡ length bs
unfolding split_line
length-split_line [] l r h = absurd (ground arith)
length-split_line (b ∷ bs) l r h = elim (Option-cases (split_line bs)) [
  | inl e ↦ ground arith
  | inr ((l', r'), e) ↦ ground (arith, length-split_line bs l' r' e)
]

pub split_line-append_some :
    (bs more l r : Bytes)
    → split_line bs ≡ some (l, r)
    → split_line (bs ++ more) ≡ some (l, r ++ more)
unfolding split_line
split_line-append_some [] more l r h = absurd (ground arith)
split_line-append_some (b ∷ bs) more l r h = elim (Option-cases (split_line bs)) [
  | inl e ↦ ground arith
  | inr ((l', r'), e) ↦ ground (arith, split_line-append_some bs more l' r' e)
]

-- A parser with another buffer.
abbrev pub on_buffer : Bytes → Parser → Parser
on_buffer b p = record p { buffer = b }

abbrev pub both_on : {A : Type 0} → Bytes → Parser × A → Parser × A
both_on b r = (on_buffer b r.0, r.1)

data_line-on_buffer :
    (b : Bytes) (p : Parser) (v : Bytes) → data_line (on_buffer b p) v ≡ both_on b (data_line p v)
unfolding data_line
data_line-on_buffer b p v = ground arith

field_line-on_buffer :
    (b : Bytes) (p : Parser) (f v : Bytes)
    → field_line (on_buffer b p) f v ≡ both_on b (field_line p f v)
unfolding field_line
field_line-on_buffer b p f v = ground (arith, data_line-on_buffer b p v)

full_line-on_buffer :
    (b : Bytes) (p : Parser) (l : Bytes) (n : ℕ)
    → full_line (on_buffer b p) l n ≡ both_on b (full_line p l n)
unfolding full_line
full_line-on_buffer b p l n = ground (
  arith,
  field_line-on_buffer b (record p { event_wire_bytes = p.event_wire_bytes + n })
      (partition_colon l).0 (strip_space (partition_colon l).1 (partition_colon l).2),
)

module _ {Text : Type 0} (decode : Bytes → Option Text) where
  blank_line-on_buffer :
      (b : Bytes) (p : Parser) → blank_line decode (on_buffer b p) ≡ both_on b (blank_line decode p)
  unfolding blank_line
  blank_line-on_buffer b p = ground arith

  no_event-on_buffer :
      (b : Bytes) (r : Parser × Result SseError (Unit {0}))
      → no_event decode (both_on b r) ≡ both_on b (no_event decode r)
  unfolding no_event
  no_event-on_buffer b (p, ok u) = refl
  no_event-on_buffer b (p, err e) = refl

  -- A line reads and writes everything but the buffer.
  pub line-on_buffer :
      (b : Bytes) (p : Parser) (l : Bytes) (n : ℕ)
      → line decode (on_buffer b p) l n ≡ both_on b (line decode p l n)
  unfolding line
  line-on_buffer b p [] n = blank_line-on_buffer b p
  line-on_buffer b p (x ∷ xs) n =
      ap (no_event decode) (full_line-on_buffer b p (x ∷ xs) n)
      ∙ no_event-on_buffer b (full_line p (x ∷ xs) n)

  module _ (f : ℕ) (p : Parser) (evs : List (SseEvent Text)) where
    pub step_end :
        split_line p.buffer ≡ none
        → feed_loop decode (suc f) p evs ≡ (
            if ltb p.maximum (p.event_wire_bytes + length p.buffer)
            then (p, err over_limit)
            else (p, ok evs))
    unfolding feed_loop
    step_end h = rw (h, feed_loop)

    module _ (l r : Bytes) (h : split_line p.buffer ≡ some (l, r)) where
      abbrev pub read_line : Parser × Result SseError (Option (SseEvent Text))
      read_line = line decode p (strip_return l) (length l + 1)

      moved : line decode (on_buffer r p) (strip_return l) (length l + 1) ≡ both_on r read_line
      moved = line-on_buffer r p (strip_return l) (length l + 1)

      pub step_ok :
          (ev : Option (SseEvent Text))
          → read_line.1 ≡ ok ev
          → feed_loop decode (suc f) p evs
            ≡ feed_loop decode f (on_buffer r read_line.0) (with_event decode ev evs)
      unfolding feed_loop
      step_ok ev e =
          rw (h, feed_loop)
            (rw (ap (λ q. q.1) moved ∙ e)
              (ap (λ q. feed_loop decode f q.0 (with_event decode ev evs)) moved))

      pub step_err :
          (er : SseError)
          → read_line.1 ≡ err er
          → feed_loop decode (suc f) p evs ≡ (on_buffer r read_line.0, err er)
      unfolding feed_loop
      step_err er e =
          rw (h, feed_loop)
            (rw (ap (λ q. q.1) moved ∙ e)
              (ap {B = Parser × Result SseError (List (SseEvent Text))} (λ q. (q.0, err er)) moved))

  -- Any fuel above the length of the buffer gives the same result.
  pub enough_fuel :
      (f g : ℕ) (p : Parser) (evs : List (SseEvent Text))
      → length p.buffer < f
      → length p.buffer < g
      → feed_loop decode f p evs ≡ feed_loop decode g p evs
  enough_fuel zero g p evs hf hg = absurd (omega arith)
  enough_fuel (suc f) zero p evs hf hg = absurd (omega arith)
  enough_fuel (suc f) (suc g) p evs hf hg = elim (Option-cases (split_line p.buffer)) [
    | inl none_left ↦ step_end f p evs none_left ∙ sym (step_end g p evs none_left)
    | inr ((l, r), found) ↦
        let shorter = length-split_line p.buffer l r found in
        elim (Result-cases (read_line f p evs l r found).1) [
          | inl (er, e) ↦ step_err f p evs l r found er e ∙ sym (step_err g p evs l r found er e)
          | inr (ev, e) ↦
              step_ok f p evs l r found ev e
              ∙ (enough_fuel f g (on_buffer r (read_line f p evs l r found).0)
                    (with_event decode ev evs) (omega arith) (omega arith)
                  ∙ sym (step_ok g p evs l r found ev e))
        ]
  ]

data_line-is_closed : (p : Parser) (v : Bytes) → (data_line p v).0.is_closed ≡ p.is_closed
unfolding data_line
data_line-is_closed p v = ground arith

field_line-is_closed : (p : Parser) (f v : Bytes) → (field_line p f v).0.is_closed ≡ p.is_closed
unfolding field_line
field_line-is_closed p f v = ground (arith, data_line-is_closed p v)

full_line-is_closed : (p : Parser) (l : Bytes) (n : ℕ) → (full_line p l n).0.is_closed ≡ p.is_closed
unfolding full_line
full_line-is_closed p l n = ground (
  arith,
  field_line-is_closed (record p { event_wire_bytes = p.event_wire_bytes + n })
      (partition_colon l).0 (strip_space (partition_colon l).1 (partition_colon l).2),
)

module _ {Text : Type 0} (decode : Bytes → Option Text) where
  no_event-parser : (r : Parser × Result SseError (Unit {0})) → (no_event decode r).0 ≡ r.0
  unfolding no_event
  no_event-parser (p, ok u) = refl
  no_event-parser (p, err e) = refl

  line-is_closed : (p : Parser) (l : Bytes) (n : ℕ) → (line decode p l n).0.is_closed ≡ p.is_closed
  unfolding line blank_line
  line-is_closed p [] n = ground arith
  line-is_closed p (x ∷ xs) n =
      ap (λ (q : Parser). q.is_closed) (no_event-parser (full_line p (x ∷ xs) n))
      ∙ full_line-is_closed p (x ∷ xs) n

  -- Reading neither opens nor closes a parser.
  pub feed_loop-is_closed :
      (f : ℕ) (p : Parser) (evs : List (SseEvent Text))
      → (feed_loop decode f p evs).0.is_closed ≡ p.is_closed
  unfolding feed_loop
  feed_loop-is_closed zero p evs = refl
  feed_loop-is_closed (suc f) p evs = elim (Option-cases (split_line p.buffer)) [
    | inl none_left ↦ rw (step_end decode f p evs none_left) (ending _)
    | inr ((l, r), found) ↦ elim (Result-cases (read_line decode f p evs l r found).1) [
      | inl (er, e) ↦ rw (step_err decode f p evs l r found er e) (line-is_closed p _ _)
      | inr (ev, e) ↦ rw (step_ok decode f p evs l r found ev e) (
          feed_loop-is_closed f (on_buffer r (read_line decode f p evs l r found).0)
            (with_event decode ev evs)
          ∙ line-is_closed p _ _)
    ]
  ]
    where
      ending :
          (t : Bool)
          → (let out : Parser × Result SseError (List (SseEvent Text)) =
                if t then (p, err over_limit) else (p, ok evs) in
              out.0.is_closed)
            ≡ p.is_closed
      ending true = refl
      ending false = refl
