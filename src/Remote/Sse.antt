-- ===== src/Remote/Sse.antt =====
-- `SSEParser` of _remote/sse.py. Bytes are numbers; `decode` is UTF-8 decoding, which fails on
-- invalid input. A method returns the parser as the method leaves it, also where it raises.
pub mod Loop
pub mod Chunks
pub mod Bounds
use marimo_export.Prelude.{
  ℕ, zero, suc, ◌+◌, Bool, true, false, ◌&&◌, ◌||◌, not, Option, none, some, List, [], ◌∷◌, ◌++◌,
  length, any, ltb, leb, ◌==◌, bytes_eq, if◌then◌else◌, Result, ok, err,
}

abbrev pub Bytes : Type 0
Bytes = List ℕ

abbrev pub max_event_name_bytes : ℕ
max_event_name_bytes = 128

abbrev pub max_data_lines : ℕ
max_data_lines = 4096

-- The messages of `SSEError`; `out_of_fuel` stands for no raise, and is never returned.
pub data SseError : Type 0 where
  closed nul over_limit bad_name too_many_lines bad_utf8 out_of_fuel : SseError

pub record SseEvent (Text : Type 0) : Type 0 where
  pub event : Text
  pub payload : Text

pub record Parser : Type 0 where
  pub maximum : ℕ
  pub buffer : Bytes
  pub event : Bytes
  pub lines : List Bytes
  pub data_bytes : ℕ
  pub event_wire_bytes : ℕ
  pub is_closed : Bool

-- The fields of a new parser.
abbrev pub init : ℕ → Parser
init maximum = record {
  maximum = maximum;
  buffer = [];
  event = [];
  lines = [];
  data_bytes = 0;
  event_wire_bytes = 0;
  is_closed = false;
}

-- `SSEParser(maximum_event_bytes)`: `ValueError` unless the maximum is positive.
abbrev pub construct : ℕ → Option Parser
construct maximum = if maximum == 0 then none else some (init maximum)

abbrev pub newline : ℕ
newline = 10

abbrev pub carriage_return : ℕ
carriage_return = 13

-- `find(b"\n")`: the bytes before the first newline, and those behind it.
unfoldable pub split_line : Bytes → Option (Bytes × Bytes)
split_line [] = none
split_line (b ∷ bs) =
    if b == newline
    then some ([], bs)
    else elim (split_line bs) [ none ↦ none | some (line, rest) ↦ some (b ∷ line, rest) ]

-- `if line.endswith(b"\r"): line = line[:-1]`
unfoldable pub strip_return : Bytes → Bytes
strip_return [] = []
strip_return (b ∷ []) = if b == carriage_return then [] else b ∷ []
strip_return (b ∷ c ∷ bs) = b ∷ strip_return (c ∷ bs)

-- `line.partition(b":")`
unfoldable pub partition_colon : Bytes → Bytes × Bool × Bytes
partition_colon [] = ([], false, [])
partition_colon (b ∷ bs) =
    let (field, found, value) = partition_colon bs in
    if b == b':' then ([], true, bs) else (b ∷ field, found, value)

-- `if separator and value.startswith(b" "): value = value[1:]`
unfoldable pub strip_space : Bool → Bytes → Bytes
strip_space false value = value
strip_space true [] = []
strip_space true (b ∷ bs) = if b == b' ' then bs else b ∷ bs

-- `b"\n".join(lines)`
unfoldable pub join_lines : List Bytes → Bytes
join_lines [] = []
join_lines (l ∷ []) = l
join_lines (l ∷ m ∷ ls) = l ++ newline ∷ join_lines (m ∷ ls)

abbrev pub reset : Parser → Parser
reset p = record p { event = []; lines = []; data_bytes = 0; event_wire_bytes = 0 }

abbrev pub event_field : Bytes
event_field = b'e' ∷ b'v' ∷ b'e' ∷ b'n' ∷ b't' ∷ []

abbrev pub data_field : Bytes
data_field = b'd' ∷ b'a' ∷ b't' ∷ b'a' ∷ []

abbrev pub message_event : Bytes
message_event = b'm' ∷ b'e' ∷ b's' ∷ b's' ∷ b'a' ∷ b'g' ∷ b'e' ∷ []

abbrev pub is_empty : {A : Type 0} → List A → Bool
is_empty [] = true
is_empty (x ∷ xs) = false

-- `next_bytes` of a data line
abbrev pub next_bytes : Parser → Bytes → ℕ
next_bytes p value = p.data_bytes + length value + (if is_empty p.lines then 0 else 1)

unfoldable pub data_line : Parser → Bytes → Parser × Result SseError (Unit {0})
data_line p value =
    if length p.lines == max_data_lines
    then (p, err too_many_lines)
    else if ltb p.maximum (next_bytes p value)
    then (p, err over_limit)
    else (record p { lines = p.lines ++ value ∷ []; data_bytes = next_bytes p value }, ok tt)

unfoldable pub field_line : Parser → Bytes → Bytes → Parser × Result SseError (Unit {0})
unfolding data_line
field_line p field value =
    if bytes_eq field event_field
    then if is_empty value || ltb max_event_name_bytes (length value)
      then (p, err bad_name)
      else (record p { event = value }, ok tt)
    else if bytes_eq field data_field
    then data_line p value
    else (p, ok tt)

-- A line that is not blank.
unfoldable pub full_line : Parser → Bytes → ℕ → Parser × Result SseError (Unit {0})
unfolding field_line partition_colon strip_space
full_line p line wire_bytes =
    let p' = record p { event_wire_bytes = p.event_wire_bytes + wire_bytes } in
    let (field, separator, value) = partition_colon line in
    if ltb p'.maximum p'.event_wire_bytes
    then (p', err over_limit)
    else if bytes_eq field [] && separator
    then (p', ok tt)
    else field_line p' field (strip_space separator value)

module _ {Text : Type 0} (decode : Bytes → Option Text) where
  unfoldable pub decoded : Option Text → Option Text → Option (SseEvent Text)
  decoded (some e) (some d) = some (record { event = e; payload = d })
  decoded _ _ = none

  -- A blank line dispatches the event, if it has data.
  unfoldable pub blank_line : Parser → Parser × Result SseError (Option (SseEvent Text))
  unfolding decoded join_lines
  blank_line p =
      if is_empty p.lines
      then (reset p, ok none)
      else elim (decoded (decode (if is_empty p.event then message_event else p.event))
          (decode (join_lines p.lines))) [
            | none ↦ (p, err bad_utf8)
            | some e ↦ (reset p, ok (some e))
          ]

  unfoldable pub no_event :
      Parser × Result SseError (Unit {0}) → Parser × Result SseError (Option (SseEvent Text))
  no_event (p, ok u) = (p, ok none)
  no_event (p, err e) = (p, err e)

  -- `_line`
  unfoldable pub line : Parser → Bytes → ℕ → Parser × Result SseError (Option (SseEvent Text))
  unfolding blank_line no_event full_line
  line p [] wire_bytes = blank_line p
  line p (b ∷ bs) wire_bytes = no_event (full_line p (b ∷ bs) wire_bytes)

  abbrev pub with_event : Option (SseEvent Text) → List (SseEvent Text) → List (SseEvent Text)
  with_event none events = events
  with_event (some e) events = events ++ e ∷ []

  -- The `while True` of `feed`, on fuel.
  unfoldable pub feed_loop :
      ℕ → Parser → List (SseEvent Text) → Parser × Result SseError (List (SseEvent Text))
  unfolding split_line strip_return line
  feed_loop zero p events = (p, err out_of_fuel)
  feed_loop (suc fuel) p events = elim (split_line p.buffer) [
    | none ↦
        if ltb p.maximum (p.event_wire_bytes + length p.buffer)
        then (p, err over_limit)
        else (p, ok events)
    | some (found, rest) ↦
        let (p', r) = line (record p { buffer = rest }) (strip_return found) (length found + 1) in
        elim r [ err e ↦ (p', err e) | ok event ↦ feed_loop fuel p' (with_event event events) ]
  ]

  -- Each round takes at least the newline off the buffer, so its length bounds the rounds.
  unfoldable pub feed : Parser → Bytes → Parser × Result SseError (List (SseEvent Text))
  unfolding feed_loop
  feed p chunk =
      if p.is_closed
      then (p, err closed)
      else if any (λ b. b == 0) chunk
      then (p, err nul)
      else feed_loop (suc (length (p.buffer ++ chunk))) (record p { buffer = p.buffer ++ chunk }) []

  -- `close`: the last line, if the buffer holds one, and then a blank line.
  unfoldable pub close_blank :
      Parser → List (SseEvent Text) → Parser × Result SseError (List (SseEvent Text))
  unfolding line
  close_blank p events =
      let (p', r) = line p [] 0 in
      elim r [ err e ↦ (p', err e) | ok event ↦ (p', ok (with_event event events)) ]

  unfoldable pub close : Parser → Parser × Result SseError (List (SseEvent Text))
  unfolding close_blank strip_return
  close p =
      let q = record p { is_closed = true } in
      let (p', r) = line (record q { buffer = [] }) (strip_return p.buffer) (length p.buffer) in
      if p.is_closed
      then (p, ok [])
      else if is_empty p.buffer
      then close_blank q []
      else elim r [ err e ↦ (p', err e) | ok event ↦ close_blank p' (with_event event []) ]
