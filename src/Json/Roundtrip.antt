-- ===== src/Json/Roundtrip.antt =====
-- The scan takes what `_write_canonical` writes, with the count of the value.
use marimo_export.Prelude.{
  ℕ, true, false, not, List, [], ◌∷◌, ◌++◌, Option, length, ◌≡◌, refl, arith, ◌+◌, ◌≤◌,
  length-append,
}
use mathlib.Core.Path.{subst}
use marimo_export.Format.Texts.{Text, is_in}
use marimo_export.Json.Values.{
  Number, Value, null, boolean, text, number, array, object, other, Items, no_items, item, Fields,
  no_fields, field, max_depth,
}
use marimo_export.Json.Measures.{size, size_items, size_fields, depth, depth_items, depth_fields}
use marimo_export.Json.Canonical.{
  key_text, dumps, write, write_items, write_more, write_fields, write_rest,
}
use marimo_export.Json.Preflight.{
  in_object, in_array, key_or_end, key, value, value_or_end, after_value, Root, Container, Scan,
  round,
}
use marimo_export.Json.Characters.{continues_number}
use marimo_export.Json.Rounds.{
  scan, is_ready, is_inside, begun, finished, ready_inside, finished_begun, Runs, Runs-trans,
  one_round,
}
use marimo_export.Json.Written.{after, string_lem, number_lem}
use marimo_export.Json.Brackets.{
  container, open_object, open_array, close_object, close_array, comma,
}
use marimo_export.Json.Spelled.{
  new_keys, is_distinct, are_distinct, are_distinct_fields, Scannable, ScannableItems,
  ScannableFields,
}
use marimo_export.Json.Joined.{
  left_depth, right_depth, same_count, negated, both, literal_run, joined, more_bounded,
  rest_bounded, pair_run,
}

module _ (quoted : Text → Text) (number_text : Number → Text)
    (scan_string : Text → Option (Text × Text)) (match_number : Text → Option (ℕ × Text))
    (m : ℕ) where
  abbrev Run : Scan → Scan → Type 0
  Run = Runs scan_string match_number m

  abbrev through : (s t u : Scan) → Run s t → Run t u → Run s u
  through = Runs-trans scan_string match_number m

  mutual
    unfolding Scannable is_distinct write size depth round

    pub value_run :
        (v : Value) (n k : ℕ) (rest : Text) (cs : List Container) (r : Root)
        → Scannable quoted number_text scan_string match_number v
        → is_distinct v ≡ true
        → continues_number rest ≡ false
        → is_ready cs r ≡ true
        → length cs + depth v ≤ max_depth
        → n + size v ≡ k
        → k ≤ m
        → Run (scan (write quoted number_text v ++ rest) n cs r) (after rest k cs r)
    value_run null n k rest cs r s d b h l e g =
        literal_run scan_string match_number m b'n' n k rest (b'u' ∷ b'l' ∷ b'l' ∷ rest) cs r refl
          refl (omega arith) h l e g
    value_run (boolean true) n k rest cs r s d b h l e g =
        literal_run scan_string match_number m b't' n k rest (b'r' ∷ b'u' ∷ b'e' ∷ rest) cs r refl
          refl (omega arith) h l e g
    value_run (boolean false) n k rest cs r s d b h l e g =
        literal_run scan_string match_number m b'f' n k rest (b'a' ∷ b'l' ∷ b's' ∷ b'e' ∷ rest) cs r
          refl refl (omega arith) h l e g
    value_run (text t) n k rest cs r s d b h l e g =
        subst (λ j. Run (scan (b'"' ∷ (quoted t ++ rest)) n cs r) (after rest j cs r)) e
          (one_round scan_string match_number m b'"' (quoted t ++ rest) n cs r
            (after rest (n + 1) cs r)
            (string_lem scan_string match_number m n cs r h (omega arith) (omega arith) (quoted t)
              rest s)
            (omega (arith, length-append (quoted t) rest)))
    value_run (number x) n k rest cs r s d b h l e g =
        subst (λ j. Run (scan (number_text x ++ rest) n cs r) (after rest j cs r)) e
          (number_lem scan_string match_number m n cs r h (omega arith) (omega arith)
            (number_text x) rest s b)
    value_run (array xs) n k rest cs r s d b h l e g =
        let inner = container in_array value_or_end [] ∷ cs in
        through (scan (b'[' ∷ (write_items quoted number_text xs ++ rest)) n cs r)
          (scan (write_items quoted number_text xs ++ rest) (n + 1) inner (begun cs r))
          (after rest k cs r)
          (open_array scan_string match_number m n cs r (write_items quoted number_text xs ++ rest)
            h (omega arith) (omega arith))
          (subst
            (λ z.
              Run (scan (write_items quoted number_text xs ++ rest) (n + 1) inner (begun cs r))
                (scan rest k (finished cs) z))
            (finished_begun cs r)
            (items_run xs (n + 1) k rest cs (begun cs r) s d (ready_inside cs r h) l (omega arith)
              g))
    value_run (object fs) n k rest cs r s d b h l e g =
        let inner = container in_object key_or_end [] ∷ cs in
        let (fresh, apart) = both (new_keys fs []) (are_distinct_fields fs) d in
        through (scan (b'{' ∷ (write_fields quoted number_text fs ++ rest)) n cs r)
          (scan (write_fields quoted number_text fs ++ rest) (n + 1) inner (begun cs r))
          (after rest k cs r)
          (open_object scan_string match_number m n cs r
            (write_fields quoted number_text fs ++ rest) h (omega arith) (omega arith))
          (subst
            (λ z.
              Run (scan (write_fields quoted number_text fs ++ rest) (n + 1) inner (begun cs r))
                (scan rest k (finished cs) z))
            (finished_begun cs r)
            (fields_run fs (n + 1) k rest [] cs (begun cs r) s fresh apart (ready_inside cs r h) l
              (omega arith) g))
    value_run other n k rest cs r s d b h l e g = absurd s

    more_run :
        (xs : Items) (n k : ℕ) (rest : Text) (cs : List Container) (r : Root)
        → ScannableItems quoted number_text scan_string match_number xs
        → are_distinct xs ≡ true
        → is_inside cs ≡ true
        → length cs + depth_items xs ≤ max_depth
        → n + size_items xs ≡ k
        → k ≤ m
        → Run
            (scan
              (write_more quoted number_text xs ++ rest)
              n
              (container in_array after_value [] ∷ cs)
              r)
            (after rest k cs r)
    more_run no_items n k rest cs r s d i l e g =
        subst
          (λ j.
            Run (scan (b']' ∷ rest) n (container in_array after_value [] ∷ cs) r)
              (after rest j cs r))
          (same_count n k e) (close_array scan_string match_number m n cs r after_value rest refl i)
    more_run (item x xs) n k rest cs r s d i l e g =
        let tail = (write quoted number_text x ++ write_more quoted number_text xs) ++ rest in
        through (scan (b',' ∷ tail) n (container in_array after_value [] ∷ cs) r)
          (scan tail n (container in_array value [] ∷ cs) r) (after rest k cs r)
          (comma scan_string match_number m n cs r in_array [] tail)
          (joined scan_string match_number m (write quoted number_text x)
            (write_more quoted number_text xs) rest n (n + size x)
            (container in_array value [] ∷ cs) (container in_array after_value [] ∷ cs) r
            (after rest k cs r)
            (value_run x n (n + size x) (write_more quoted number_text xs ++ rest)
              (container in_array value [] ∷ cs) r s.0 (both (is_distinct x) (are_distinct xs) d).0
              (more_bounded quoted number_text xs rest) refl
              (left_depth (length cs) (depth x) (depth_items xs) l) refl (omega arith))
            (more_run xs (n + size x) k rest cs r s.1 (both (is_distinct x) (are_distinct xs) d).1 i
              (right_depth (length cs) (depth x) (depth_items xs) l) (omega arith) g))

    items_run :
        (xs : Items) (n k : ℕ) (rest : Text) (cs : List Container) (r : Root)
        → ScannableItems quoted number_text scan_string match_number xs
        → are_distinct xs ≡ true
        → is_inside cs ≡ true
        → length cs + depth_items xs ≤ max_depth
        → n + size_items xs ≡ k
        → k ≤ m
        → Run
            (scan
              (write_items quoted number_text xs ++ rest)
              n
              (container in_array value_or_end [] ∷ cs)
              r)
            (after rest k cs r)
    items_run no_items n k rest cs r s d i l e g =
        subst
          (λ j.
            Run (scan (b']' ∷ rest) n (container in_array value_or_end [] ∷ cs) r)
              (after rest j cs r))
          (same_count n k e)
          (close_array scan_string match_number m n cs r value_or_end rest refl i)
    items_run (item x xs) n k rest cs r s d i l e g =
        (joined scan_string match_number m (write quoted number_text x)
          (write_more quoted number_text xs) rest n (n + size x)
          (container in_array value_or_end [] ∷ cs) (container in_array after_value [] ∷ cs) r
          (after rest k cs r)
          (value_run x n (n + size x) (write_more quoted number_text xs ++ rest)
            (container in_array value_or_end [] ∷ cs) r s.0
            (both (is_distinct x) (are_distinct xs) d).0 (more_bounded quoted number_text xs rest)
            refl (left_depth (length cs) (depth x) (depth_items xs) l) refl (omega arith))
          (more_run xs (n + size x) k rest cs r s.1 (both (is_distinct x) (are_distinct xs) d).1 i
            (right_depth (length cs) (depth x) (depth_items xs) l) (omega arith) g))

    fields_run :
        (fs : Fields) (n k : ℕ) (rest : Text) (seen : List Text) (cs : List Container) (r : Root)
        → ScannableFields quoted number_text scan_string match_number fs
        → new_keys fs seen ≡ true
        → are_distinct_fields fs ≡ true
        → is_inside cs ≡ true
        → length cs + depth_fields fs ≤ max_depth
        → n + size_fields fs ≡ k
        → k ≤ m
        → Run
            (scan
              (write_fields quoted number_text fs ++ rest)
              n
              (container in_object key_or_end seen ∷ cs)
              r)
            (after rest k cs r)
    fields_run no_fields n k rest seen cs r s f d i l e g =
        subst
          (λ j.
            Run (scan (b'}' ∷ rest) n (container in_object key_or_end seen ∷ cs) r)
              (after rest j cs r))
          (same_count n k e)
          (close_object scan_string match_number m n cs r key_or_end seen rest refl i)
    fields_run (field key' x fs) n k rest seen cs r s f d i l e g =
        let name = key_text key' in
        let tail = write quoted number_text x ++ write_rest quoted number_text fs in
        let (new, later) = both (not (is_in name seen)) (new_keys fs (name ∷ seen)) f in
        let (here, there) = both (is_distinct x) (are_distinct_fields fs) d in
        let deep = left_depth (length cs) (depth x) (depth_fields fs) l in
        through
          (scan ((dumps quoted number_text name ++ (b':' ∷ tail)) ++ rest) n
            (container in_object key_or_end seen ∷ cs) r)
          (scan (tail ++ rest) (n + 1) (container in_object value (name ∷ seen) ∷ cs) r)
          (after rest k cs r)
          (pair_run quoted number_text scan_string match_number m key_or_end name tail rest n seen
            cs r refl (negated (is_in name seen) new) s.0 (omega arith) (omega (arith, deep)))
          (joined scan_string match_number m (write quoted number_text x)
            (write_rest quoted number_text fs) rest (n + 1) (n + 1 + size x)
            (container in_object value (name ∷ seen) ∷ cs)
            (container in_object after_value (name ∷ seen) ∷ cs) r (after rest k cs r)
            (value_run x (n + 1) (n + 1 + size x) (write_rest quoted number_text fs ++ rest)
              (container in_object value (name ∷ seen) ∷ cs) r s.1 here
              (rest_bounded quoted number_text fs rest) refl deep refl (omega arith))
            (rest_run fs (n + 1 + size x) k rest (name ∷ seen) cs r s.2 later there i
              (right_depth (length cs) (depth x) (depth_fields fs) l) (omega arith) g))

    rest_run :
        (fs : Fields) (n k : ℕ) (rest : Text) (seen : List Text) (cs : List Container) (r : Root)
        → ScannableFields quoted number_text scan_string match_number fs
        → new_keys fs seen ≡ true
        → are_distinct_fields fs ≡ true
        → is_inside cs ≡ true
        → length cs + depth_fields fs ≤ max_depth
        → n + size_fields fs ≡ k
        → k ≤ m
        → Run
            (scan
              (write_rest quoted number_text fs ++ rest)
              n
              (container in_object after_value seen ∷ cs)
              r)
            (after rest k cs r)
    rest_run no_fields n k rest seen cs r s f d i l e g =
        subst
          (λ j.
            Run (scan (b'}' ∷ rest) n (container in_object after_value seen ∷ cs) r)
              (after rest j cs r))
          (same_count n k e)
          (close_object scan_string match_number m n cs r after_value seen rest refl i)
    rest_run (field key' x fs) n k rest seen cs r s f d i l e g =
        let all_of =
          (dumps quoted number_text (key_text key')
            ++ (b':' ∷ (write quoted number_text x ++ write_rest quoted number_text fs)))
          ++ rest in
        through (scan (b',' ∷ all_of) n (container in_object after_value seen ∷ cs) r)
          (scan all_of n (container in_object key seen ∷ cs) r) (after rest k cs r)
          (comma scan_string match_number m n cs r in_object seen all_of)
          (let name = key_text key' in
            let tail = write quoted number_text x ++ write_rest quoted number_text fs in
            let (new, later) = both (not (is_in name seen)) (new_keys fs (name ∷ seen)) f in
            let (here, there) = both (is_distinct x) (are_distinct_fields fs) d in
            let deep = left_depth (length cs) (depth x) (depth_fields fs) l in
            through
              (scan ((dumps quoted number_text name ++ (b':' ∷ tail)) ++ rest) n
                (container in_object key seen ∷ cs) r)
              (scan (tail ++ rest) (n + 1) (container in_object value (name ∷ seen) ∷ cs) r)
              (after rest k cs r)
              (pair_run quoted number_text scan_string match_number m key name tail rest n seen cs r
                refl (negated (is_in name seen) new) s.0 (omega arith) (omega (arith, deep)))
              (joined scan_string match_number m (write quoted number_text x)
                (write_rest quoted number_text fs) rest (n + 1) (n + 1 + size x)
                (container in_object value (name ∷ seen) ∷ cs)
                (container in_object after_value (name ∷ seen) ∷ cs) r (after rest k cs r)
                (value_run x (n + 1) (n + 1 + size x) (write_rest quoted number_text fs ++ rest)
                  (container in_object value (name ∷ seen) ∷ cs) r s.1 here
                  (rest_bounded quoted number_text fs rest) refl deep refl (omega arith))
                (rest_run fs (n + 1 + size x) k rest (name ∷ seen) cs r s.2 later there i
                  (right_depth (length cs) (depth x) (depth_fields fs) l) (omega arith) g)))
