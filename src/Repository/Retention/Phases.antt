-- ===== src/Repository/Retention/Phases.antt =====
-- The loops of `_retained`, for a predicate that the keeping of one row preserves.
use marimo_export.Prelude.{
  ℕ, String, Bool, true, false, ◌||◌, not, Option, none, some, is_none, List, [], ◌∷◌, length, all,
  ◌≡◌, refl, arith, leb, if◌then◌else◌, Result, ok, ◌>>=◌, Bool-cases, Option-cases, inl, inr,
}
use marimo_export.Repository.Retention.{
  Key, ArtifactRow, key_of, find_row, Retained, keep_generation, keep_state, Kind, Lease, Identity,
  RetentionLimits, Catalog, RetentionError, generation, state, join_pin, join_pins, pinned,
}
use marimo_export.Repository.Retention.Selection.{
  force_row, keep_leased, rows_of, force_current, keep_current, keep_identity, keep_identities,
  keep_generations, keep_states, is_known, is_full,
}

-- The identity's current generation is a row.
abbrev pub is_current : List ArtifactRow → Identity → Bool
is_current rows i = elim i.current [
  | none ↦ true
  | some serial ↦ not (is_none (find_row (i.identity_key, serial) rows))
]

abbrev pub is_pin : List ArtifactRow → Key × Key → Bool
is_pin rows pin = not (is_none (find_row pin.1 rows))

abbrev pub Yields : {A : Type 0} → Result RetentionError A → (A → Type 0) → Type 0
Yields {A = A} m P = (a : A) × (m ≡ ok a) × P a

pub >>=-Yields :
    {A B : Type 0} {P : A → Type 0} {Q : B → Type 0} (m : Result RetentionError A)
    (f : A → Result RetentionError B)
    → Yields m P
    → ((a : A) → P a → Yields (f a) Q)
    → Yields (m >>= f) Q
>>=-Yields m f (a, ran, h) next = let (b, ran', h') = next a h in (b, rw ran ran', h')

join_pins-cons :
    (g s : Key) (pins : List (Key × Key)) (rows : List ArtifactRow) {row : ArtifactRow}
    {rest : List (Key × ArtifactRow)}
    → find_row s rows ≡ some row
    → join_pins pins rows ≡ ok rest
    → join_pins ((g, s) ∷ pins) rows ≡ ok ((g, row) ∷ rest)
unfolding join_pins join_pin
join_pins-cons g s pins rows found ran = rw (found, ran) refl

pub join_pins-Yields :
    (pins : List (Key × Key)) (rows : List ArtifactRow)
    → all (is_pin rows) pins ≡ true
    → (joined : List (Key × ArtifactRow)) × (join_pins pins rows ≡ ok joined)
unfolding join_pins
join_pins-Yields [] rows h = ([], refl)
join_pins-Yields ((g, s) ∷ pins) rows h = elim (Option-cases (find_row s rows)) [
  | inl missing ↦ absurd (ground (arith, missing))
  | inr (row, found) ↦
      let (rest, ran) = join_pins-Yields pins rows (ground arith) in
      ((g, row) ∷ rest, join_pins-cons g s pins rows found ran)
]

module _ (pins : List (Key × ArtifactRow)) (P : Retained → Type 0) (force : Bool)
    (hg : (row : ArtifactRow) (r : Retained)
      → P r
      → P (keep_generation row (pinned pins (key_of row)) force r).1) where
  keep_current-Yields :
      (key current : String) (rows : List ArtifactRow) (r : Retained)
      → not (is_none (find_row (key, current) rows)) ≡ true
      → P r
      → Yields (keep_current pins force key current rows r) (λ x. P x.1)
  unfolding keep_current
  keep_current-Yields key current rows r linked h =
      elim (Option-cases (find_row (key, current) rows)) [
        | inl missing ↦ absurd (ground (arith, missing))
        | inr (row, found) ↦ (
          keep_generation row (pinned pins (key_of row)) force r,
          rw (found, keep_current) refl,
          hg row r h,
        )
      ]

module _ (pins : List (Key × ArtifactRow)) (P : Retained → Type 0)
    (hg : (row : ArtifactRow) (r : Retained)
      → P r
      → P (keep_generation row (pinned pins (key_of row)) true r).1) where
  pub force_current-Yields :
      (kept : List String) (rows : List ArtifactRow) (is : List Identity) (r : Retained)
      → all (is_current rows) is ≡ true
      → P r
      → Yields (force_current pins kept rows is r) P
  unfolding force_current
  force_current-Yields kept rows [] r linked h = (r, refl, h)
  force_current-Yields kept rows (i ∷ is) r linked h = elim (Option-cases i.current) [
    | inl nothing ↦ rw nothing (force_current-Yields kept rows is r (ground arith) h)
    | inr (serial, current) ↦ elim (Bool-cases (is_known i.identity_key kept)) [
      | inr other ↦ rw (current, other) (force_current-Yields kept rows is r (ground arith) h)
      | inl known ↦
          rw (current, known)
            (>>=-Yields (keep_current pins true i.identity_key serial rows r)
              (λ x. force_current pins kept rows is x.1)
              (keep_current-Yields pins P true hg i.identity_key serial rows r
                (ground (arith, current)) h)
              (λ x h'. force_current-Yields kept rows is x.1 (ground arith) h'))
    ]
  ]

  module _ (hs : (row : ArtifactRow) (r : Retained) → P r → P (keep_state row true r).1) where
    pub force_row-P :
        (kind : Kind) (o : Option ArtifactRow) (r : Retained) → P r → P (force_row pins kind o r)
    unfolding force_row
    force_row-P kind none r h = h
    force_row-P generation (some row) r h = hg row r h
    force_row-P state (some row) r h = hs row r h

    pub keep_leased-P :
        (c : Catalog) (leases : List Lease) (r : Retained) → P r → P (keep_leased pins c leases r)
    unfolding keep_leased
    keep_leased-P c [] r h = h
    keep_leased-P c (lease ∷ leases) r h =
        keep_leased-P c leases _
          (force_row-P lease.kind (find_row lease.artifact (rows_of lease.kind c)) r h)

module _ (pins : List (Key × ArtifactRow)) (P : Retained → Type 0)
    (hg : (row : ArtifactRow) (r : Retained)
      → P r
      → P (keep_generation row (pinned pins (key_of row)) false r).1) where
  keep_identity-Yields :
      (maximum : ℕ) (rows : List ArtifactRow) (i : Identity) (kept : List String) (r : Retained)
      → is_current rows i ≡ true
      → P r
      → Yields (keep_identity pins maximum rows i kept r) (λ x. P x.1)
  unfolding keep_identity
  keep_identity-Yields maximum rows i kept r linked h =
      elim (Bool-cases (is_known i.identity_key kept || leb maximum (length kept))) [
        | inl skipped ↦ rw skipped ((kept, r), refl, h)
        | inr room ↦ elim (Option-cases i.current) [
          | inl nothing ↦ rw (room, nothing) ((i.identity_key ∷ kept, r), refl, h)
          | inr (serial, current) ↦
              rw (room, current)
                (>>=-Yields (keep_current pins false i.identity_key serial rows r)
                  (λ x. ok (if x.0 then i.identity_key ∷ kept else kept, x.1))
                  (keep_current-Yields pins P false hg i.identity_key serial rows r
                    (ground (arith, current)) h)
                  (λ x h'. ((if x.0 then i.identity_key ∷ kept else kept, x.1), refl, h')))
        ]
      ]

  pub keep_identities-Yields :
      (maximum : ℕ) (rows : List ArtifactRow) (is : List Identity) (kept : List String)
      (r : Retained)
      → all (is_current rows) is ≡ true
      → P r
      → Yields (keep_identities pins maximum rows is kept r) (λ x. P x.1)
  unfolding keep_identities
  keep_identities-Yields maximum rows [] kept r linked h = ((kept, r), refl, h)
  keep_identities-Yields maximum rows (i ∷ is) kept r linked h =
      >>=-Yields (keep_identity pins maximum rows i kept r)
        (λ x. keep_identities pins maximum rows is x.0 x.1)
        (keep_identity-Yields maximum rows i kept r (ground arith) h)
        (λ x h'. keep_identities-Yields maximum rows is x.0 x.1 (ground arith) h')

  pub keep_generations-P :
      (limits : RetentionLimits) (kept : List String) (rows : List ArtifactRow)
      (counter : List String) (r : Retained)
      → P r
      → P (keep_generations pins limits kept counter rows r)
  unfolding keep_generations
  keep_generations-P limits kept [] counter r h = h
  keep_generations-P limits kept (row ∷ rows) counter r h =
      elim (Bool-cases (is_full limits kept counter row r)) [
        | inl full ↦ rw full (keep_generations-P limits kept rows counter r h)
        | inr room ↦ rw room (
            keep_generations-P limits kept rows
              (if (keep_generation row (pinned pins (key_of row)) false r).0
                then row.key ∷ counter
                else counter)
              (keep_generation row (pinned pins (key_of row)) false r).1 (hg row r h))
      ]

module _ (P : Retained → Type 0)
    (hs : (row : ArtifactRow) (r : Retained) → P r → P (keep_state row false r).1) where
  pub keep_states-P :
      (maximum : ℕ) (rows : List ArtifactRow) (r : Retained) → P r → P (keep_states maximum rows r)
  unfolding keep_states
  keep_states-P maximum [] r h = h
  keep_states-P maximum (row ∷ rows) r h = elim (Bool-cases (leb maximum (length r.states))) [
    | inl full ↦ rw full h
    | inr room ↦ rw room (keep_states-P maximum rows (keep_state row false r).1 (hs row r h))
  ]
