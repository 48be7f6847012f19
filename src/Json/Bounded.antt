-- ===== src/Json/Bounded.antt =====
-- What `json_value` accepts: the types, the depth and the count.
use marimo_export.Prelude.{
  ℕ, suc, true, false, ◌&&◌, leb, ltb, ◌≡◌, refl, arith, ok, err, ◌+◌, ◌⊎◌, inl, inr, Bool-cases,
}
use mathlib.Core.Path.{subst, ◌∙◌, sym}
use marimo_export.Json.Values.{
  JsonError, integer, float, Value, null, boolean, text, number, array, object, other, Items,
  no_items, item, Fields, no_fields, field, is_finite, is_scalar_text, max_depth, json_value,
  json_value_from, json_items_from, json_fields_from, too_many, bad_text, bad_type, not_finite,
}
use marimo_export.Json.Measures.{
  size, size_items, size_fields, larger, depth, depth_items, depth_fields, is_json_key, is_json,
  are_json, are_json_fields,
}
use marimo_export.Json.Fits.{
  IsTaken, fits_at, enter_lem, both_fit, first_fails, rest_fails, few, plus_zero, plus_suc,
  plus_assoc, not_entered, too_big, key_lem, no_key, with_key, keyed,
}

mutual
  unfolding json_value_from is_json size depth IsTaken

  value_lem :
      (v : Value) (m p c : ℕ)
      → IsTaken
          (fits_at (is_json v) (depth v) p (c + size v) m)
          v
          (c + size v)
          (json_value_from v m p c)
  value_lem null m p c = elim (enter_lem m p c) [
    | inl (h, k, e) ↦ inl (ground (arith, h, k), rw e refl)
    | inr (h, x, e) ↦ inr (ground (arith, h), x, rw e refl)
  ]
  value_lem (boolean b) m p c = elim (enter_lem m p c) [
    | inl (h, k, e) ↦ inl (ground (arith, h, k), rw e refl)
    | inr (h, x, e) ↦ inr (ground (arith, h), x, rw e refl)
  ]
  value_lem (text t) m p c = elim (enter_lem m p c) [
    | inr (h, x, e) ↦ inr (ground (arith, h), x, rw e refl)
    | inl (h, k, e) ↦ elim (Bool-cases (is_scalar_text t)) [
      | inl good ↦ inl (ground (arith, h, k, good), rw (e, good) refl)
      | inr bad ↦ inr (ground (arith, bad), bad_text, rw (e, bad) refl)
    ]
  ]
  value_lem (number (integer s n)) m p c = elim (enter_lem m p c) [
    | inl (h, k, e) ↦ inl (ground (arith, h, k), rw e refl)
    | inr (h, x, e) ↦ inr (ground (arith, h), x, rw e refl)
  ]
  value_lem (number (float bits)) m p c = elim (enter_lem m p c) [
    | inr (h, x, e) ↦ inr (ground (arith, h), x, rw e refl)
    | inl (h, k, e) ↦ elim (Bool-cases (is_finite bits)) [
      | inl good ↦ inl (ground (arith, h, k, good), rw (e, good) refl)
      | inr bad ↦ inr (ground (arith, bad), not_finite, rw (e, bad) refl)
    ]
  ]
  value_lem (array xs) m p c =
      subst
        (λ n.
          IsTaken (fits_at (are_json xs) (depth_items xs) p n m) (array xs) n
            (json_value_from (array xs) m p c))
        (plus_suc c (size_items xs))
        (elim (enter_lem m p c) [
          | inr (h, x, e) ↦
              inr (not_entered (are_json xs) (depth_items xs) p c (size_items xs) m h, x, rw e refl)
          | inl (h, k, e) ↦ elim (items_lem xs m p (c + 1) h k) [
            | inl (g, f) ↦ inl (g, rw (e, f) refl)
            | inr (g, x, f) ↦ inr (g, x, rw (e, f) refl)
          ]
        ])
  value_lem (object fs) m p c =
      subst
        (λ n.
          IsTaken (fits_at (are_json_fields fs) (depth_fields fs) p n m) (object fs) n
            (json_value_from (object fs) m p c))
        (plus_suc c (size_fields fs))
        (elim (enter_lem m p c) [
          | inr (h, x, e) ↦ inr (
            not_entered (are_json_fields fs) (depth_fields fs) p c (size_fields fs) m h,
            x,
            rw e refl,
          )
          | inl (h, k, e) ↦ elim (fields_lem fs m p (c + 1) h k) [
            | inl (g, f) ↦ inl (g, rw (e, f) refl)
            | inr (g, x, f) ↦ inr (g, x, rw (e, f) refl)
          ]
        ])
  value_lem other m p c = elim (enter_lem m p c) [
    | inr (h, x, e) ↦ inr (refl, x, rw e refl)
    | inl (h, k, e) ↦ inr (refl, bad_type, rw e refl)
  ]

  items_lem :
      (xs : Items) (m p c : ℕ)
      → leb p max_depth ≡ true
      → leb c m ≡ true
      → IsTaken
          (fits_at (are_json xs) (depth_items xs) p (c + size_items xs) m)
          xs
          (c + size_items xs)
          (json_items_from xs m (suc p) c)
  items_lem no_items m p c h k =
      subst (λ n. IsTaken (fits_at true 0 p n m) no_items n (ok (no_items, c))) (plus_zero c)
        (inl (ground (arith, h, k), refl))
  items_lem (item x xs) m p c h k =
      subst
        (λ n.
          IsTaken
            (fits_at (is_json x && are_json xs) (larger (suc (depth x)) (depth_items xs)) p n m)
            (item x xs) n (json_items_from (item x xs) m (suc p) c))
        (plus_assoc c (size x) (size_items xs))
        (elim (value_lem x m (suc p) c) [
          | inr (g, e, f) ↦ inr (
            first_fails (is_json x) (are_json xs) (depth x) (depth_items xs) p (c + size x)
                (c + size x + size_items xs) m (omega arith) g,
            e,
            rw f refl,
          )
          | inl (g, f) ↦
              elim (items_lem xs m p (c + size x) h
                (few (is_json x) (depth x) (suc p) (c + size x) m g)) [
                  | inl (i, j) ↦ inl (
                    both_fit (is_json x) (are_json xs) (depth x) (depth_items xs) p (c + size x)
                        (c + size x + size_items xs) m g i,
                    rw (f, j) refl,
                  )
                  | inr (i, e, j) ↦ inr (
                    rest_fails (is_json x) (are_json xs) (depth x) (depth_items xs) p
                        (c + size x + size_items xs) m i,
                    e,
                    rw (f, j) refl,
                  )
                ]
        ])

  fields_lem :
      (fs : Fields) (m p c : ℕ)
      → leb p max_depth ≡ true
      → leb c m ≡ true
      → IsTaken
          (fits_at (are_json_fields fs) (depth_fields fs) p (c + size_fields fs) m)
          fs
          (c + size_fields fs)
          (json_fields_from fs m (suc p) c)
  fields_lem no_fields m p c h k =
      subst (λ n. IsTaken (fits_at true 0 p n m) no_fields n (ok (no_fields, c))) (plus_zero c)
        (inl (ground (arith, h, k), refl))
  fields_lem (field key x fs) m p c h k =
      subst
        (λ n.
          IsTaken
            (fits_at (is_json_key key && is_json x && are_json_fields fs)
              (larger (suc (depth x)) (depth_fields fs)) p n m)
            (field key x fs) n (json_fields_from (field key x fs) m (suc p) c))
        (keyed c (size x) (size_fields fs))
        (elim (Bool-cases (ltb m (c + 1))) [
          | inl many ↦ inr (
            subst
                (λ n.
                  fits_at (is_json_key key && is_json x && are_json_fields fs)
                    (larger (suc (depth x)) (depth_fields fs)) p n m
                  ≡ false)
                (sym (plus_assoc (c + 1) (size x) (size_fields fs)))
                (too_big (is_json_key key && is_json x && are_json_fields fs)
                  (larger (suc (depth x)) (depth_fields fs)) p c (size x + size_fields fs) m many),
            too_many,
            rw many refl,
          )
          | inr room ↦ elim (key_lem key) [
            | inr (g, e, f) ↦ inr (
              no_key (is_json_key key) (is_json x) (are_json_fields fs)
                  (larger (suc (depth x)) (depth_fields fs)) p (c + 1 + size x + size_fields fs) m
                  g,
              e,
              rw (room, f) refl,
            )
            | inl (w, u) ↦ elim (value_lem x m (suc p) (c + 1)) [
              | inr (g, e, f) ↦ inr (
                first_fails (is_json_key key && is_json x) (are_json_fields fs) (depth x)
                    (depth_fields fs) p (c + 1 + size x) (c + 1 + size x + size_fields fs) m
                    (omega arith)
                    (with_key (is_json_key key) (is_json x) (depth x) (suc p) (c + 1 + size x) m w
                      ∙ g),
                e,
                rw (room, u, f) refl,
              )
              | inl (g, f) ↦
                  elim (fields_lem fs m p (c + 1 + size x) h
                    (few (is_json x) (depth x) (suc p) (c + 1 + size x) m g)) [
                      | inl (i, j) ↦ inl (
                        both_fit (is_json_key key && is_json x) (are_json_fields fs) (depth x)
                            (depth_fields fs) p (c + 1 + size x) (c + 1 + size x + size_fields fs) m
                            (with_key (is_json_key key) (is_json x) (depth x) (suc p)
                                (c + 1 + size x) m w
                              ∙ g)
                            i,
                        rw (room, u, f, j) refl,
                      )
                      | inr (i, e, j) ↦ inr (
                        rest_fails (is_json_key key && is_json x) (are_json_fields fs) (depth x)
                            (depth_fields fs) p (c + 1 + size x + size_fields fs) m i,
                        e,
                        rw (room, u, f, j) refl,
                      )
                    ]
            ]
          ]
        ])

-- json_value returns the value that it is given with the number of its values and object keys,
-- exactly where its types, texts and numbers are JSON's, its depth is at most 256 and that
-- number is at most max_values; otherwise it raises.
pub json_value_lem :
    (v : Value) (max_values : ℕ)
    → (((is_json v && (leb (depth v) max_depth && leb (size v) max_values)) ≡ true)
        × (json_value max_values v ≡ ok (v, size v)))
      ⊎ (((is_json v && (leb (depth v) max_depth && leb (size v) max_values)) ≡ false)
          × (e : JsonError) × (json_value max_values v ≡ err e))
unfolding json_value IsTaken
json_value_lem v m =
    let at_zero : (n : ℕ) → 0 + n ≡ n = λ n. omega arith in
    subst
      (λ d.
        IsTaken (is_json v && (leb d max_depth && leb (size v) m)) v (size v)
          (json_value_from v m 0 0))
      (at_zero (depth v))
      (subst
        (λ n.
          IsTaken (is_json v && (leb (0 + depth v) max_depth && leb n m)) v n
            (json_value_from v m 0 0))
        (at_zero (size v)) (value_lem v m 0 0))
