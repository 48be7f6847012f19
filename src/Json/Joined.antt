-- ===== src/Json/Joined.antt =====
-- Runs over a literal, a key with its colon and two texts that follow one another.
use marimo_export.Prelude.{
  ℕ, suc, Bool, true, false, not, ◌&&◌, List, ◌∷◌, ◌++◌, Option, some, length, ◌≡◌, refl, arith,
  ◌+◌, ◌≤◌,
}
use mathlib.Core.List.{append_assoc}
use mathlib.Core.Path.{subst, ◌∙◌, sym}
use marimo_export.Format.Texts.{Text, is_in}
use marimo_export.Json.Values.{Number, Items, no_items, item, Fields, no_fields, field, max_depth}
use marimo_export.Json.Measures.{larger}
use marimo_export.Json.Canonical.{dumps, write, write_more, write_rest}
use marimo_export.Json.Preflight.{
  in_object, Place, value, Root, Container, Scan, round, take_literal, literal_rest, literals,
}
use marimo_export.Json.Characters.{continues_number}
use marimo_export.Json.Rounds.{scan, is_ready, Runs, Runs-trans, one_round}
use marimo_export.Json.Written.{after, literal_lem}
use marimo_export.Json.Brackets.{container, takes_key, key_lem}

pub left_depth : (p a b : ℕ) → p + larger (suc a) b ≤ max_depth → suc p + a ≤ max_depth
left_depth p a b h = ground arith

pub right_depth : (p a b : ℕ) → p + larger (suc a) b ≤ max_depth → p + b ≤ max_depth
right_depth p a b h = ground arith

pub same_count : (n k : ℕ) → n + 0 ≡ k → n ≡ k
same_count n k h = omega arith

pub negated : (a : Bool) → not a ≡ true → a ≡ false
negated a h = ground arith

pub both : (a b : Bool) → (a && b) ≡ true → (a ≡ true) × (b ≡ true)
both a b h = (ground arith, ground arith)

module _ (scan_string : Text → Option (Text × Text)) (match_number : Text → Option (ℕ × Text))
    (m : ℕ) where
  abbrev Run : Scan → Scan → Type 0
  Run = Runs scan_string match_number m

  abbrev through : (s t u : Scan) → Run s t → Run t u → Run s u
  through = Runs-trans scan_string match_number m

  pub literal_run :
      (c n k : ℕ) (rest tail : Text) (cs : List Container) (r : Root)
      → literal_rest literals (c ∷ tail) ≡ some rest
      → round scan_string match_number m c tail (scan (c ∷ tail) n cs r)
        ≡ take_literal m (literal_rest literals (c ∷ tail)) (scan (c ∷ tail) n cs r)
      → length rest ≤ length tail
      → is_ready cs r ≡ true
      → length cs + 0 ≤ max_depth
      → n + 1 ≡ k
      → k ≤ m
      → Run (scan (c ∷ tail) n cs r) (after rest k cs r)
  literal_run c n k rest tail cs r h e l ready shallow counted room =
      subst (λ j. Run (scan (c ∷ tail) n cs r) (after rest j cs r)) counted
        (one_round scan_string match_number m c tail n cs r (after rest (n + 1) cs r)
          (e
            ∙ rw h (
                literal_lem scan_string match_number m n cs r ready (omega arith) (omega arith)
                  (c ∷ tail) rest))
          l)

  -- Two texts that follow one another.
  pub joined :
      (one two rest : Text) (n j : ℕ) (a b : List Container) (r : Root) (t : Scan)
      → Run (scan (one ++ (two ++ rest)) n a r) (scan (two ++ rest) j b r)
      → Run (scan (two ++ rest) j b r) t
      → Run (scan ((one ++ two) ++ rest) n a r) t
  joined one two rest n j a b r t h k =
      subst (λ z. Run (scan z n a r) t) (sym (append_assoc one two rest))
        (through (scan (one ++ (two ++ rest)) n a r) (scan (two ++ rest) j b r) t h k)

module _ (quoted : Text → Text) (number_text : Number → Text) where
  pub more_bounded :
      (xs : Items) (rest : Text)
      → continues_number (write_more quoted number_text xs ++ rest) ≡ false
  unfolding write
  more_bounded no_items rest = refl
  more_bounded (item x xs) rest = refl

  pub rest_bounded :
      (fs : Fields) (rest : Text)
      → continues_number (write_rest quoted number_text fs ++ rest) ≡ false
  unfolding write
  rest_bounded no_fields rest = refl
  rest_bounded (field k x fs) rest = refl

module _ (quoted : Text → Text) (number_text : Number → Text)
    (scan_string : Text → Option (Text × Text)) (match_number : Text → Option (ℕ × Text))
    (m : ℕ) where
  -- A key with its colon, before the text of its value.
  pub pair_run :
      (place : Place) (name tail rest : Text) (n : ℕ) (seen : List Text) (cs : List Container)
      (r : Root)
      → takes_key place ≡ true
      → is_in name seen ≡ false
      → ((more : Text) → scan_string (quoted name ++ more) ≡ some (name, more))
      → n + 1 ≤ m
      → suc (length cs) ≤ max_depth
      → Runs scan_string match_number m
          (scan
            ((dumps quoted number_text name ++ (b':' ∷ tail)) ++ rest)
            n
            (container in_object place seen ∷ cs)
            r)
          (scan (tail ++ rest) (n + 1) (container in_object value (name ∷ seen) ∷ cs) r)
  pair_run place name tail rest n seen cs r h new found room shallow =
      subst
        (λ z.
          Runs scan_string match_number m
            (scan (b'"' ∷ z) n (container in_object place seen ∷ cs) r)
            (scan (tail ++ rest) (n + 1) (container in_object value (name ∷ seen) ∷ cs) r))
        (sym (append_assoc (quoted name) (b':' ∷ tail) rest))
        (key_lem scan_string match_number m n cs r place seen name (quoted name) (tail ++ rest) h
          new (found (b':' ∷ (tail ++ rest))) room shallow)
