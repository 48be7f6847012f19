-- ===== src/Repository/Artifacts/Admitted.antt =====
-- What `check_slot` lets through, and the bytes of the tables when its row is placed.
use marimo_export.Prelude.{
  ℕ, ◌+◌, ◌≤◌, String, str_eq_self, Bool, true, false, ◌&&◌, not, Option, is_none, List, [], ◌∷◌,
  length, any, ◌≡◌, refl, arith, leb, ok, then-ok, raise_if-ok, Bool-cases, inl, inr, ◌⊎◌,
}
use marimo_export.Repository.Leases.{
  ArtifactLease, ArtifactKey, ArtifactKind, generation, state, is_artifact, is_same_kind,
  is_lease_of, insert_lease,
}
use marimo_export.Repository.Artifacts.{
  Pointer, Body, Tables, AdmissionLimits, Commit, current_of, find_body, is_conflict, replaced_body,
  content_of, credit_content, credit_metadata, bodies_of, category_limit, total_bytes,
  total_metadata, admit_artifact, check_slot, require_replacement,
}

-- The row fits, less the credit, in the three budgets.
pub record IsAdmitted (limits : AdmissionLimits) (kind : ArtifactKind) (t : Tables)
    (content metadata : ℕ) (replaced : Option Body) : Type 0 where
  pub category :
      content_of (bodies_of kind t) + content ≤ category_limit kind limits + credit_content replaced
  pub repository : total_bytes t + content ≤ limits.repository_bytes + credit_content replaced
  pub metadata_fits : total_metadata t + metadata ≤ limits.metadata_bytes + credit_metadata replaced

admit_artifact-ok :
    (limits : AdmissionLimits) (kind : ArtifactKind) (t : Tables) (content metadata : ℕ)
    (exists : Bool) (replaced : Option Body)
    → admit_artifact limits kind t content metadata exists replaced ≡ ok tt
    → (exists ≡ true) ⊎ IsAdmitted limits kind t content metadata replaced
unfolding admit_artifact
admit_artifact-ok limits kind t content metadata true replaced h = inl refl
admit_artifact-ok limits kind t content metadata false replaced h =
    inr
      (record { category = ground arith; repository = ground arith; metadata_fits = ground arith })

-- What a slot has passed: its pointer is as the commit says, its row is not in conflict, and is
-- there or is admitted.
pub record IsChecked (limits : AdmissionLimits) (kind : ArtifactKind) (t : Tables)
    (pointers : List Pointer) (c : Commit) : Type 0 where
  pub replaces : require_replacement (current_of c.key pointers) c.replacing c.serial ≡ ok tt
  pub agrees : is_conflict c (find_body c.key c.serial (bodies_of kind t)) ≡ false
  pub admitted :
      (not (is_none (find_body c.key c.serial (bodies_of kind t))) ≡ true)
      ⊎ IsAdmitted limits kind t c.content_bytes
          (length c.metadata)
          (replaced_body c c.replacing (bodies_of kind t))

pub check_slot-ok :
    (limits : AdmissionLimits) (kind : ArtifactKind) (t : Tables) (pointers : List Pointer)
    (c : Commit)
    → check_slot limits kind t pointers c ≡ ok tt
    → IsChecked limits kind t pointers c
unfolding check_slot
check_slot-ok limits kind t pointers c h =
    let (replaces, rest) = then-ok _ _ h in
    let (agrees, admits) = then-ok _ _ rest in
    record {
      replaces = replaces;
      agrees = raise_if-ok _ _ agrees;
      admitted = admit_artifact-ok limits kind t c.content_bytes (length c.metadata) _ _ admits;
    }

admit_artifact_passes :
    (limits : AdmissionLimits) (kind : ArtifactKind) (t : Tables) (content metadata : ℕ)
    (exists : Bool) (replaced : Option Body)
    → (exists ≡ true) ⊎ IsAdmitted limits kind t content metadata replaced
    → admit_artifact limits kind t content metadata exists replaced ≡ ok tt
unfolding admit_artifact
admit_artifact_passes limits kind t content metadata true replaced h = refl
admit_artifact_passes limits kind t content metadata false replaced (inl h) =
    absurd (ground (arith, h))
admit_artifact_passes limits kind t content metadata false replaced (inr h) =
    ground (arith, h.category, h.repository, h.metadata_fits)

pub check_slot_passes :
    (limits : AdmissionLimits) (kind : ArtifactKind) (t : Tables) (pointers : List Pointer)
    (c : Commit)
    → IsChecked limits kind t pointers c
    → check_slot limits kind t pointers c ≡ ok tt
unfolding check_slot
check_slot_passes limits kind t pointers c h =
    rw (h.replaces, h.agrees)
      (admit_artifact_passes limits kind t c.content_bytes (length c.metadata) _ _ h.admitted)

-- A lease of the owner on the artifact, to the given time at least.
abbrev pub is_leased : String → ArtifactKey → ℕ → List ArtifactLease → Bool
is_leased owner a expires rs = any (λ r. is_lease_of owner a r && leb expires r.expires_at_us) rs

is_same_kind_self : (k : ArtifactKind) → is_same_kind k k ≡ true
unfolding is_same_kind
is_same_kind_self generation = refl
is_same_kind_self state = refl

is_artifact_self : (a : ArtifactKey) → is_artifact a a ≡ true
unfolding is_artifact
is_artifact_self a =
    ground (arith, is_same_kind_self a.kind, str_eq_self a.artifact_key, str_eq_self a.serial)

pub insert_lease-is_leased :
    (owner : String) (a : ArtifactKey) (expires : ℕ) (rs : List ArtifactLease)
    → is_leased owner a expires (insert_lease owner a expires rs) ≡ true
unfolding insert_lease
insert_lease-is_leased owner a expires [] = ground (arith, str_eq_self owner, is_artifact_self a)
insert_lease-is_leased owner a expires (r ∷ rs) = elim (Bool-cases (is_lease_of owner a r)) [
  | inl hit ↦ rw hit (ground (arith, hit))
  | inr miss ↦ rw miss (ground (arith, insert_lease-is_leased owner a expires rs))
]
