-- ===== src/Remote/Sse/Chunks.antt =====
-- `SSEParser.feed` on a stream that comes in chunks.
use marimo_export.Prelude.{
  ℕ, zero, suc, ◌+◌, ◌<◌, Bool, true, false, Option, none, some, List, [], ◌∷◌, ◌++◌, length, any,
  any-append, length-append, ltb, ◌==◌, if◌then◌else◌, Result, ok, err, ◌≡◌, ◌≢◌, refl, sym, ap,
  ◌∙◌, arith, Bool-cases, Option-cases, Result-cases, inl, inr,
}
use mathlib.Core.List.{append_assoc, append-nil}
use mathlib.Core.Path.{ap₂}
use marimo_export.Remote.Sse.{
  Bytes, SseError, SseEvent, Parser, split_line, strip_return, feed_loop, feed, with_event, closed,
  nul, over_limit,
}
use marimo_export.Remote.Sse.Loop.{
  length-split_line, split_line-append_some, on_buffer, line-on_buffer, step_end, read_line,
  step_ok, step_err, enough_fuel, feed_loop-is_closed,
}

module _ {Text : Type 0} (decode : Bytes → Option Text) where
  abbrev pub prepend :
      List (SseEvent Text)
      → Parser × Result SseError (List (SseEvent Text))
      → Parser × Result SseError (List (SseEvent Text))
  prepend before (p, ok events) = (p, ok (before ++ events))
  prepend before (p, err e) = (p, err e)

  with_event-append :
      (ev : Option (SseEvent Text)) (a b : List (SseEvent Text))
      → with_event decode ev (a ++ b) ≡ a ++ with_event decode ev b
  with_event-append none a b = refl
  with_event-append (some e) a b = append_assoc a b (e ∷ [])

  -- The events that are already out only stand before the others.
  feed_loop-prepend :
      (f : ℕ) (p : Parser) (a b : List (SseEvent Text))
      → feed_loop decode f p (a ++ b) ≡ prepend a (feed_loop decode f p b)
  unfolding feed_loop
  feed_loop-prepend zero p a b = refl
  feed_loop-prepend (suc f) p a b = elim (Option-cases (split_line p.buffer)) [
    | inl none_left ↦
        step_end decode f p (a ++ b) none_left
        ∙ (ending (ltb p.maximum (p.event_wire_bytes + length p.buffer))
            ∙ sym (ap (prepend a) (step_end decode f p b none_left)))
    | inr ((l, r), found) ↦ elim (Result-cases (read_line decode f p b l r found).1) [
      | inl (er, e) ↦
          step_err decode f p (a ++ b) l r found er e
          ∙ sym (ap (prepend a) (step_err decode f p b l r found er e))
      | inr (ev, e) ↦
          let p' = on_buffer r (read_line decode f p b l r found).0 in
          step_ok decode f p (a ++ b) l r found ev e
          ∙ (ap (feed_loop decode f p') (with_event-append ev a b)
              ∙ (feed_loop-prepend f p' a (with_event decode ev b)
                  ∙ sym (ap (prepend a) (step_ok decode f p b l r found ev e))))
    ]
  ]
    where
      ending :
          (t : Bool)
          → (if t then (p, err over_limit) else (p, ok (a ++ b)))
            ≡ prepend a (if t then (p, err over_limit) else (p, ok b))
      ending true = refl
      ending false = refl

  pub ended :
      (t : Bool) (p : Parser) (evs : List (SseEvent Text)) (p₁ : Parser)
      (evs₁ : List (SseEvent Text))
      → ◌≡◌ {A = Parser × Result SseError (List (SseEvent Text))}
          (if t then (p, err over_limit) else (p, ok evs))
          (p₁, ok evs₁)
      → (p ≡ p₁) × (evs ≡ evs₁)
  ended true p evs p₁ evs₁ e = absurd (ground arith)
  ended false p evs p₁ evs₁ e = (cc, cc)

  pub raised :
      (p p₁ : Parser) (er : SseError) {evs₁ : List (SseEvent Text)}
      → ◌≢◌ {A = Parser × Result SseError (List (SseEvent Text))} (p, err er) (p₁, ok evs₁)
  raised p p₁ er e = ground arith

  -- A loop that ends without a raise, and then goes on with more bytes, is the loop over all of them.
  feed_loop-append :
      (f g h : ℕ) (p : Parser) (evs : List (SseEvent Text)) (more : Bytes) (p₁ : Parser)
      (evs₁ : List (SseEvent Text))
      → feed_loop decode f p evs ≡ (p₁, ok evs₁)
      → length p.buffer + length more < g
      → length p₁.buffer + length more < h
      → feed_loop decode g (on_buffer (p.buffer ++ more) p) evs
        ≡ feed_loop decode h (on_buffer (p₁.buffer ++ more) p₁) evs₁
  unfolding feed_loop
  feed_loop-append zero g h p evs more p₁ evs₁ ran hg hh = absurd (ground arith)
  feed_loop-append (suc f) zero h p evs more p₁ evs₁ ran hg hh = absurd (omega arith)
  feed_loop-append (suc f) (suc g) h p evs more p₁ evs₁ ran hg hh =
      elim (Option-cases (split_line p.buffer)) [
        | inl none_left ↦
            let (same_p, same_evs) =
              ended (ltb p.maximum (p.event_wire_bytes + length p.buffer)) p evs p₁ evs₁
                (sym (step_end decode f p evs none_left) ∙ ran) in
            enough_fuel decode (suc g) h (on_buffer (p.buffer ++ more) p) evs
              (omega (arith, length-append {0} p.buffer more))
              (omega (
                arith,
                length-append {0} p.buffer more,
                ap (λ (q : Parser). length q.buffer) same_p,
              ))
            ∙ ap₂ (λ q es. feed_loop decode h (on_buffer (q.buffer ++ more) q) es) same_p same_evs
        | inr ((l, r), found) ↦
            let shorter = length-split_line p.buffer l r found in
            let found' = split_line-append_some p.buffer more l r found in
            let moved' =
              line-on_buffer decode (p.buffer ++ more) p (strip_return l) (length l + 1) in
            elim (Result-cases (read_line decode f p evs l r found).1) [
              | inl (er, e) ↦
                  absurd (raised _ _ er (sym (step_err decode f p evs l r found er e) ∙ ran))
              | inr (ev, e) ↦
                  step_ok decode g (on_buffer (p.buffer ++ more) p) evs l (r ++ more) found' ev
                    (ap (λ q. q.1) moved' ∙ e)
                  ∙ (ap
                        (λ q.
                          feed_loop decode g (on_buffer (r ++ more) q.0) (with_event decode ev evs))
                        moved'
                      ∙ feed_loop-append f g h (on_buffer r (read_line decode f p evs l r found).0)
                          (with_event decode ev evs) more p₁ evs₁
                          (sym (step_ok decode f p evs l r found ev e) ∙ ran) (omega arith) hh)
            ]
      ]

  pub feed_shut : (p : Parser) (a : Bytes) → p.is_closed ≡ true → feed decode p a ≡ (p, err closed)
  unfolding feed
  feed_shut p a h = simp h

  pub feed_nul :
      (p : Parser) (a : Bytes)
      → p.is_closed ≡ false
      → any (λ x. x == 0) a ≡ true
      → feed decode p a ≡ (p, err nul)
  unfolding feed
  feed_nul p a h n = simp (h, n)

  pub feed_open :
      (p : Parser) (a : Bytes)
      → p.is_closed ≡ false
      → any (λ x. x == 0) a ≡ false
      → feed decode p a
        ≡ feed_loop decode (suc (length (p.buffer ++ a))) (on_buffer (p.buffer ++ a) p) []
  unfolding feed
  feed_open p a h n = simp (h, n)

  -- Feeding two chunks one after the other, where the first is taken and the second has no NUL
  -- byte, leaves the parser, the events and the errors that feeding their concatenation
  -- leaves.
  pub feed-append :
      (p p₁ : Parser) (a b : Bytes) (evs : List (SseEvent Text))
      → feed decode p a ≡ (p₁, ok evs)
      → any (λ x. x == 0) b ≡ false
      → feed decode p (a ++ b) ≡ prepend evs (feed decode p₁ b)
  feed-append p p₁ a b evs ran clean = elim (Bool-cases p.is_closed) [
    | inl shut ↦ absurd (raised p p₁ closed (sym (feed_shut p a shut) ∙ ran))
    | inr opened ↦ elim (Bool-cases (any (λ x. x == 0) a)) [
      | inl nul_byte ↦ absurd (raised p p₁ nul (sym (feed_nul p a opened nul_byte) ∙ ran))
      | inr no_nul ↦
          let looped = sym (feed_open p a opened no_nul) ∙ ran in
          let q = on_buffer (p.buffer ++ a) p in
          let still_open : p₁.is_closed ≡ false =
            sym (ap (λ r. r.0.is_closed) looped)
            ∙ (feed_loop-is_closed decode (suc (length q.buffer)) q [] ∙ opened) in
          feed_open p (a ++ b) opened (any-append (λ x. x == 0) a b ∙ ground arith)
          ∙ (ap (λ bytes. feed_loop decode (suc (length bytes)) (on_buffer bytes p) [])
                (sym (append_assoc p.buffer a b))
              ∙ (feed_loop-append (suc (length q.buffer)) (suc (length (q.buffer ++ b)))
                    (suc (length (p₁.buffer ++ b))) q [] b p₁ evs looped
                    (omega (arith, length-append {0} q.buffer b))
                    (omega (arith, length-append {0} p₁.buffer b))
                  ∙ (ap
                        (feed_loop decode (suc (length (p₁.buffer ++ b)))
                          (on_buffer (p₁.buffer ++ b) p₁))
                        (sym (append-nil evs))
                      ∙ (feed_loop-prepend (suc (length (p₁.buffer ++ b)))
                            (on_buffer (p₁.buffer ++ b) p₁) evs []
                          ∙ ap (prepend evs) (sym (feed_open p₁ b still_open clean))))))
    ]
  ]
