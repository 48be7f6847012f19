-- ===== src/Repository/Observations/Revisions.antt =====
-- What a recorded observation and a bare advance do to the producers' revisions.
use marimo_export.Prelude.{
  ℕ, ◌+◌, ◌-◌, ◌≤◌, ◌<◌, String, str_eq, str_eq_iff, str_eq_self, true, false, List, [], ◌∷◌, ◌≡◌,
  refl, ap, ◌∙◌, arith, ltb, All, ltb→lt, ltb→le, if◌then◌else◌, Result, ok, err, Bool-cases, inl,
  inr, ◌⊎◌,
}
use marimo_export.Repository.Observations.{
  Db, DbError, ProducerRow, Limits, overflow, corrupt, integrity, max_sqlite_integer, touch,
  stored_revision, set_revision, observation_revision, advance, record_observation, touch_producer,
}
use marimo_export.Repository.Observations.Inserted.{
  breaks, Within, Within-has_event, Within-later, insert_observation_lem,
}

-- The revision that the repository holds for a producer.
abbrev pub revision : String → Db → ℕ
revision p db = stored_revision p db.producers

stored_revision-touch :
    (p q : String) (now : ℕ) (rs : List ProducerRow)
    → stored_revision q (touch p now rs) ≡ stored_revision q rs
unfolding stored_revision touch
stored_revision-touch p q now [] = ground arith
stored_revision-touch p q now (r ∷ rs) = ground (arith, stored_revision-touch p q now rs)

stored_revision-set_revision_ne :
    (p q : String) (n : ℕ) (rs : List ProducerRow)
    → str_eq p q ≡ false
    → stored_revision q (set_revision p n rs) ≡ stored_revision q rs
unfolding stored_revision set_revision
stored_revision-set_revision_ne p q n [] h = refl
stored_revision-set_revision_ne p q n (r ∷ rs) h = ground (
  arith,
  stored_revision-set_revision_ne p q n rs,
  str_eq_iff r.producer_sha256 p,
  str_eq_iff r.producer_sha256 q,
)

stored_revision-set_revision-touch :
    (p q : String) (n now : ℕ) (rs : List ProducerRow)
    → str_eq p q ≡ true
    → stored_revision q (set_revision p n (touch p now rs)) ≡ n
unfolding stored_revision set_revision touch
stored_revision-set_revision-touch p q n now [] h = ground (arith, str_eq_self p)
stored_revision-set_revision-touch p q n now (r ∷ rs) h = ground (
  arith,
  stored_revision-set_revision-touch p q n now rs,
  str_eq_iff p q,
  str_eq_iff r.producer_sha256 p,
  str_eq_iff r.producer_sha256 q,
)

-- How an advance by `n` of producer `p` ends: it is refused and the transaction is undone, or the
-- producer's revision is greater by `n` and within SQLite's range, and no other revision changes.
abbrev pub Advances : Db → String → ℕ → Result DbError (Db × ℕ) → Type 0
Advances db p n r =
    ((r ≡ err corrupt) × (max_sqlite_integer < revision p db))
    ⊎ ((r ≡ err overflow) × (max_sqlite_integer < revision p db + n))
    ⊎ (db' : Db) × (r ≡ ok (db', revision p db + n))
      × (revision p db + n ≤ max_sqlite_integer)
      × ((q : String) → revision q db' ≡ revision q db + (if str_eq p q then n else 0))

advanced-revision :
    (db : Db) (p q : String) (n now : ℕ)
    → stored_revision q (set_revision p (revision p db + n) (touch p now db.producers))
      ≡ revision q db + (if str_eq p q then n else 0)
advanced-revision db p q n now = elim (Bool-cases (str_eq p q)) [
  | inl same ↦ rw same (
      stored_revision-set_revision-touch p q (revision p db + n) now db.producers same
      ∙ ap (λ s. revision s db + n) ((str_eq_iff p q).0 same))
  | inr other ↦ rw other (
      stored_revision-set_revision_ne p q (revision p db + n) (touch p now db.producers) other
      ∙ (stored_revision-touch p q now db.producers ∙ omega arith))
]

abbrev advanced : Db → String → ℕ → ℕ → Db
advanced db p n now = record (touch_producer p now db) {
  producers = set_revision p (revision p db + n) (touch p now db.producers);
}

advance_ends :
    (db : Db) (p : String) (n now : ℕ)
    → ((advance db p n now ≡ err corrupt) × (max_sqlite_integer < revision p db))
      ⊎ ((advance db p n now ≡ err overflow) × (max_sqlite_integer < revision p db + n))
      ⊎ (advance db p n now ≡ ok (advanced db p n now, revision p db + n))
        × (revision p db + n ≤ max_sqlite_integer)
unfolding advance
advance_ends db p n now =
    let same = stored_revision-touch p p now db.producers in
    elim (Bool-cases (ltb max_sqlite_integer (revision p db))) [
      | inl bad ↦ inl (rw (same, observation_revision) (rw bad), ltb→lt _ _ bad)
      | inr good ↦ elim (Bool-cases (ltb (max_sqlite_integer - revision p db) n)) [
        | inl big ↦ inr (
            inl (rw (same, observation_revision) (rw good (rw big)), omega (arith, ltb→lt _ _ big)))
        | inr small ↦
            let fits = ltb→le _ _ small in
            let low = ltb→le _ _ good in
            inr
              (inr (rw (same, observation_revision) (rw good (rw small)), omega (arith, fits, low)))
      ]
    ]

pub advance_lem : (db : Db) (p : String) (n now : ℕ) → Advances db p n (advance db p n now)
advance_lem db p n now = elim (advance_ends db p n now) [
  | inl w ↦ inl w
  | inr (inl w) ↦ inr (inl w)
  | inr (inr (ran, fits)) ↦
      inr (inr (advanced db p n now, ran, fits, λ q. advanced-revision db p q n now))
]

-- How a recorded vector ends: as an advance does, or refused by a constraint of the schema.
abbrev pub Recorded : Db → String → ℕ → Result DbError (Db × ℕ) → Type 0
Recorded db p n r =
    ((r ≡ err integrity) × (breaks p (revision p db + n) db ≡ true)) ⊎ Advances db p n r

-- No event of a producer stands beyond the producer's revision.
abbrev pub IsOrdered : Db → Type 0
IsOrdered db = All (Within (λ q. revision q db)) db.observation_events

module _ (db : Db) (p fingerprint : String) (names values : List ℕ) (n now : ℕ)
    (limits : Limits) where
  abbrev recorded : Result DbError (Db × ℕ)
  recorded = record_observation db p fingerprint names values n now limits

  -- Every end of a recorded vector, with the order of the events in the one that commits.
  record_ends :
      (((recorded ≡ err integrity) × (breaks p (revision p db + n) db ≡ true))
        ⊎ ((recorded ≡ err corrupt) × (max_sqlite_integer < revision p db))
        ⊎ ((recorded ≡ err overflow) × (max_sqlite_integer < revision p db + n))
        ⊎ (db' : Db) × (recorded ≡ ok (db', revision p db + n))
          × (revision p db + n ≤ max_sqlite_integer)
          × ((q : String) → revision q db' ≡ revision q db + (if str_eq p q then n else 0))
          × (IsOrdered db → IsOrdered db'))
  unfolding record_observation
  record_ends = elim (advance_ends db p n now) [
    | inl (ran, bad) ↦ inr (inl (rw ran, bad))
    | inr (inl (ran, big)) ↦ inr (inr (inl (rw ran, big)))
    | inr (inr (ran, fits)) ↦
        elim (insert_observation_lem p fingerprint names values (revision p db + n) limits
          (advanced db p n now)) [
            | inl (refused, bad) ↦ inl (rw ran (rw refused refl), bad)
            | inr (db', inserted, good, same, within) ↦
                let revs : (q : String)
                    → revision q db' ≡ revision q db + (if str_eq p q then n else 0) =
                  λ q. ap (stored_revision q) same ∙ advanced-revision db p q n now in
                inr (
                  inr (
                    inr (
                      db',
                      rw ran (rw inserted refl),
                      fits,
                      revs,
                      λ h.
                          within (λ q. revision q db')
                            (Within-later (λ q. revision q db) (λ q. revision q db')
                              db.observation_events (λ q. omega (arith, revs q)) h)
                            (rw (revs p, str_eq_self p) (omega arith)),
                    )))
          ]
  ]

  pub record_observation_lem : Recorded db p n recorded
  record_observation_lem = elim record_ends [
    | inl w ↦ inl w
    | inr (inl w) ↦ inr (inl w)
    | inr (inr (inl w)) ↦ inr (inr (inl w))
    | inr (inr (inr (db', ran, fits, revs, _))) ↦ inr (inr (inr (db', ran, fits, revs)))
  ]

-- How recording ends where no event stands beyond its producer's revision: no constraint refuses
-- it, and none stands beyond it afterwards.
abbrev pub RecordsInOrder : Db → String → ℕ → Result DbError (Db × ℕ) → Type 0
RecordsInOrder db p n r =
    ((r ≡ err corrupt) × (max_sqlite_integer < revision p db))
    ⊎ ((r ≡ err overflow) × (max_sqlite_integer < revision p db + n))
    ⊎ (db' : Db) × (r ≡ ok (db', revision p db + n))
      × (revision p db + n ≤ max_sqlite_integer)
      × ((q : String) → revision q db' ≡ revision q db + (if str_eq p q then n else 0))
      × IsOrdered db'

-- From tables in which no event stands beyond its producer's revision, recording a positive
-- number of occurrences meets no constraint of the schema: it raises the producer's revision
-- by the occurrences, leaves every other revision alone and no event beyond its producer's
-- revision, or ends in corrupt on a stored revision that is out of range, or in overflow when
-- the sum would be.
pub record_observation-Advances :
    (db : Db) (p fingerprint : String) (names values : List ℕ) (n now : ℕ) (limits : Limits)
    → IsOrdered db
    → 0 < n
    → RecordsInOrder db p n (record_observation db p fingerprint names values n now limits)
record_observation-Advances db p fingerprint names values n now limits h positive =
    elim (record_ends db p fingerprint names values n now limits) [
      | inl (ran, bad) ↦
          let new =
            Within-has_event (λ q. revision q db) p (revision p db + n) db.observation_events h
              (omega arith) in
          absurd (ground (arith, new, bad))
      | inr (inl w) ↦ inl w
      | inr (inr (inl w)) ↦ inr (inl w)
      | inr (inr (inr (db', ran, fits, revs, keeps))) ↦ inr (inr (db', ran, fits, revs, keeps h))
    ]
