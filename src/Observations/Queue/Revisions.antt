-- ===== src/Observations/Queue/Revisions.antt =====
-- The OrderedDict of revision advances, as an association list.
use marimo_export.Prelude.{
  ℕ, String, str_eq, str_eq_iff, false, ◌||◌, List, [], ◌∷◌, ◌≡◌, refl, arith, if◌then◌else◌,
}
use marimo_export.Observations.Queue.{revisions, put_revisions, has_revisions}

-- No producer has two entries.
abbrev pub DistinctKeys : List (String × ℕ) → Type 0
DistinctKeys [] = Unit
DistinctKeys (r ∷ rs) = (has_revisions r.0 rs ≡ false) × DistinctKeys rs

pub revisions-put_revisions :
    (j k : String) (n : ℕ) (rs : List (String × ℕ))
    → revisions j (put_revisions k n rs) ≡ (if str_eq k j then n else revisions j rs)
unfolding revisions put_revisions
revisions-put_revisions j k n [] = refl
revisions-put_revisions j k n ((p, m) ∷ rs) =
    ground (arith, str_eq_iff k j, str_eq_iff p k, str_eq_iff p j, revisions-put_revisions j k n rs)

pub has_revisions-put_revisions :
    (j k : String) (n : ℕ) (rs : List (String × ℕ))
    → has_revisions j (put_revisions k n rs) ≡ (str_eq k j || has_revisions j rs)
unfolding has_revisions put_revisions
has_revisions-put_revisions j k n [] = refl
has_revisions-put_revisions j k n ((p, m) ∷ rs) =
    ground
      (arith, str_eq_iff k j, str_eq_iff p k, str_eq_iff p j, has_revisions-put_revisions j k n rs)

pub put_revisions-DistinctKeys :
    (k : String) (n : ℕ) (rs : List (String × ℕ))
    → DistinctKeys rs
    → DistinctKeys (put_revisions k n rs)
unfolding put_revisions has_revisions
put_revisions-DistinctKeys k n [] h = (refl, tt)
put_revisions-DistinctKeys k n ((p, m) ∷ rs) h = ground (
  arith,
  str_eq_iff k p,
  str_eq_iff p k,
  has_revisions-put_revisions p k n rs,
  put_revisions-DistinctKeys k n rs h.1,
)

pub revisions_absent :
    (k : String) (rs : List (String × ℕ)) → has_revisions k rs ≡ false → revisions k rs ≡ 0
unfolding revisions has_revisions
revisions_absent k [] h = refl
revisions_absent k ((p, m) ∷ rs) h = ground (arith, revisions_absent k rs)
