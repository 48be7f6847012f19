-- ===== src/Repository/Observations/Inserted.antt =====
-- The inserts of a recorded vector: the constraints of the schema, and the orders of the events.
use marimo_export.Prelude.{
  ℕ, ◌≤◌, ◌<◌, String, str_eq, str_eq_iff, true, false, List, [], ◌∷◌, ◌≡◌, refl, arith, ◌==◌, ◌||◌,
  Bool, All, All-append, ok, err, Bool-cases, inl, inr, ◌⊎◌,
}
use marimo_export.Repository.Observations.{
  Db, Limits, integrity, insert_observation, insert_rows, has_event, Row, delete_rows, is_victim,
  prune_observation_table,
}
use mathlib.Core.Path.{subst}

-- The constraints that a new row of revision `m` breaks.
abbrev pub breaks : String → ℕ → Db → Bool
breaks p m db = m == 0 || has_event p m db.observation_events

-- The event is within a bound of its producer.
abbrev pub Within : (String → ℕ) → Row → Type 0
Within f r = r.observed_order ≤ f r.producer_sha256

All-delete_rows :
    (P : Row → Type 0) (ids : List ℕ) (rs : List Row) → All P rs → All P (delete_rows ids rs)
unfolding delete_rows
All-delete_rows P ids [] h = tt
All-delete_rows P ids (r ∷ rs) h = elim (Bool-cases (is_victim ids r)) [
  | inl gone ↦ rw gone (All-delete_rows P ids rs h.1)
  | inr stays ↦ rw stays (h.0, All-delete_rows P ids rs h.1)
]

pub Within-has_event :
    (f : String → ℕ) (p : String) (m : ℕ) (rs : List Row)
    → All (Within f) rs
    → f p < m
    → has_event p m rs ≡ false
Within-has_event f p m [] h later = refl
Within-has_event f p m (r ∷ rs) h later = elim (Bool-cases (str_eq r.producer_sha256 p)) [
  | inl same ↦
      let e : r.producer_sha256 ≡ p = (str_eq_iff _ _).0 same in
      let old : r.observed_order ≤ f p = subst (λ s. r.observed_order ≤ f s) e h.0 in
      let miss : (r.observed_order == m) ≡ false = ground arith in
      rw (same, miss) (Within-has_event f p m rs h.1 later)
  | inr apart ↦ rw apart (Within-has_event f p m rs h.1 later)
]

pub Within-later :
    (f g : String → ℕ) (rs : List Row)
    → ((q : String) → f q ≤ g q)
    → All (Within f) rs
    → All (Within g) rs
Within-later f g [] le h = tt
Within-later f g (r ∷ rs) le h =
    (omega (arith, h.0, le r.producer_sha256), Within-later f g rs le h.1)

-- The inserts are refused by a constraint, or leave the producers alone and the events within
-- any bounds that the new event respects.
pub insert_observation_lem :
    (p fingerprint : String) (names values : List ℕ) (m : ℕ) (limits : Limits) (db : Db)
    → ((insert_observation p fingerprint names values m limits db ≡ err integrity)
        × (breaks p m db ≡ true))
      ⊎ (db' : Db) × (insert_observation p fingerprint names values m limits db ≡ ok db')
        × (breaks p m db ≡ false)
        × (db'.producers ≡ db.producers)
        × ((f : String → ℕ)
            → All (Within f) db.observation_events
            → m ≤ f p
            → All (Within f) db'.observation_events)
unfolding insert_observation insert_rows prune_observation_table
insert_observation_lem p fingerprint names values m limits db =
    elim (Bool-cases (m == 0 || has_event p m db.observation_events)) [
      | inl bad ↦ inl (rw bad refl, bad)
      | inr good ↦ inr (
        insert_rows p fingerprint names values m limits db,
        rw good refl,
        good,
        refl,
        λ f h small.
            All-delete_rows (Within f) _ _
              (All-append (Within f) db.observation_events (_ ∷ []) h (small, tt)),
      )
    ]
