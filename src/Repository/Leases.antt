-- ===== src/Repository/Leases.antt =====
-- The lifecycle tables of _repository/sqlite/leases.py: the leases on artifacts and on staging
-- paths, and the reservations of a preparation with their fences. The schema holds the fence
-- counter from the start, so that it is a number here. A table is the list of its rows.
pub mod Fences
pub mod Stale
pub mod Claims
use marimo_export.Prelude.{
  ℕ, zero, ◌+◌, String, str_eq, Bool, true, false, ◌&&◌, ◌||◌, not, Option, none, some, List, [],
  ◌∷◌, ◌++◌, any, sum_by, ltb, leb, ◌==◌, if◌then◌else◌, Result, ok, err,
}

pub data ArtifactKind : Type 0 where
  generation state : ArtifactKind

pub record ArtifactKey : Type 0 where
  pub kind : ArtifactKind
  pub artifact_key : String
  pub serial : String

unfoldable pub is_same_kind : ArtifactKind → ArtifactKind → Bool
is_same_kind generation generation = true
is_same_kind state state = true
is_same_kind _ _ = false

unfoldable pub is_artifact : ArtifactKey → ArtifactKey → Bool
unfolding is_same_kind
is_artifact a b =
    is_same_kind a.kind b.kind && str_eq a.artifact_key b.artifact_key && str_eq a.serial b.serial

pub record ArtifactLease : Type 0 where
  pub owner : String
  pub artifact : ArtifactKey
  pub expires_at_us : ℕ

pub record StagingLease : Type 0 where
  pub owner : String
  pub relative_path : String
  pub expires_at_us : ℕ

pub record Reservation : Type 0 where
  pub identity_key : String
  pub owner : String
  pub fence : ℕ
  pub producer_sha256 : String
  pub output_plan_sha256 : String
  pub spec_sha256 : String
  pub expires_at_us : ℕ

pub record Leases : Type 0 where
  pub artifacts : List ArtifactLease
  pub staging : List StagingLease
  pub reservations : List Reservation
  pub preparation_fence : ℕ

-- SQL's MAX of two
abbrev pub maximum : ℕ → ℕ → ℕ
maximum a b = if ltb a b then b else a

module _ {R : Type 0} where
  -- DELETE FROM ... WHERE
  unfoldable pub delete_where : (R → Bool) → List R → List R
  delete_where t [] = []
  delete_where t (r ∷ rs) = let rest = delete_where t rs in if t r then rest else r ∷ rest

  -- UPDATE ... WHERE
  unfoldable pub update_where : (R → Bool) → (R → R) → List R → List R
  update_where t f [] = []
  update_where t f (r ∷ rs) = (if t r then f r else r) ∷ update_where t f rs

  abbrev pub row_count : (R → Bool) → List R → ℕ
  row_count t rs = sum_by (λ r. if t r then 1 else 0) rs

  -- One update for each name, and the names for which it did not find its one row.
  unfoldable pub renew_each :
      {I : Type 0} → (I → R → Bool) → (R → R) → List I → List R → List R × List I
  unfolding update_where
  renew_each t f [] rs = (rs, [])
  renew_each t f (i ∷ is) rs =
      let (rs', lost) = renew_each t f is (update_where (t i) f rs) in
      (rs', if row_count (t i) rs == 1 then lost else i ∷ lost)

  unfoldable pub delete_each : {I : Type 0} → (I → R → Bool) → List I → List R → List R
  unfolding delete_where
  delete_each t [] rs = rs
  delete_each t (i ∷ is) rs = delete_each t is (delete_where (t i) rs)

abbrev pub is_lease_of : String → ArtifactKey → ArtifactLease → Bool
is_lease_of owner a r = str_eq r.owner owner && is_artifact r.artifact a

abbrev pub extend_lease : ℕ → ArtifactLease → ArtifactLease
extend_lease expires r = record r { expires_at_us = maximum r.expires_at_us expires }

-- INSERT ... ON CONFLICT DO UPDATE SET expires_at_us = MAX(...)
unfoldable pub insert_lease : String → ArtifactKey → ℕ → List ArtifactLease → List ArtifactLease
unfolding is_artifact
insert_lease owner a expires [] =
    record { owner = owner; artifact = a; expires_at_us = expires } ∷ []
insert_lease owner a expires (r ∷ rs) =
    let rest = insert_lease owner a expires rs in
    if is_lease_of owner a r then extend_lease expires r ∷ rs else r ∷ rest

unfoldable pub acquire_each :
    String → List ArtifactKey → ℕ → List ArtifactLease → List ArtifactLease
unfolding insert_lease
acquire_each owner [] expires rs = rs
acquire_each owner (a ∷ artifacts) expires rs =
    acquire_each owner artifacts expires (insert_lease owner a expires rs)

abbrev pub acquire_artifacts : Leases → String → List ArtifactKey → ℕ → Leases
acquire_artifacts t owner artifacts expires = record t {
  artifacts = acquire_each owner artifacts expires t.artifacts;
}

unfoldable pub renew_artifacts :
    Leases → String → List ArtifactKey → ℕ → ℕ → Leases × List ArtifactKey
unfolding renew_each is_artifact
renew_artifacts t owner artifacts expires now =
    let (rs, lost) =
      renew_each (λ a r. is_lease_of owner a r && ltb now r.expires_at_us) (extend_lease expires)
        artifacts t.artifacts in
    (record t { artifacts = rs }, lost)

-- With no artifacts named, all of the owner's; else those with their expiry unchanged.
unfoldable pub release_artifacts : Leases → String → Option (List (ArtifactKey × ℕ)) → Leases
unfolding delete_where delete_each is_artifact
release_artifacts t owner none = record t {
  artifacts = delete_where (λ r. str_eq r.owner owner) t.artifacts;
}
release_artifacts t owner (some artifacts) = record t {
  artifacts =
      delete_each (λ a r. is_lease_of owner a.0 r && (r.expires_at_us == a.1)) artifacts
        t.artifacts;
}

abbrev pub is_staging_of : String → String → StagingLease → Bool
is_staging_of owner path r = str_eq r.owner owner && str_eq r.relative_path path

unfoldable pub insert_staging : String → String → ℕ → List StagingLease → List StagingLease
insert_staging owner path expires [] =
    record { owner = owner; relative_path = path; expires_at_us = expires } ∷ []
insert_staging owner path expires (r ∷ rs) =
    let rest = insert_staging owner path expires rs in
    if is_staging_of owner path r then record r { expires_at_us = expires } ∷ rs else r ∷ rest

unfoldable pub acquire_staging : Leases → String → String → ℕ → Leases
unfolding insert_staging
acquire_staging t owner path expires = record t {
  staging = insert_staging owner path expires t.staging;
}

unfoldable pub renew_staging : Leases → String → List String → ℕ → ℕ → Leases × List String
unfolding renew_each
renew_staging t owner paths expires now =
    let (rs, lost) =
      renew_each (λ p r. is_staging_of owner p r && ltb now r.expires_at_us)
        (λ r. record r { expires_at_us = maximum r.expires_at_us expires }) paths t.staging in
    (record t { staging = rs }, lost)

unfoldable pub release_staging : Leases → String → Option (List String) → Leases
unfolding delete_where delete_each
release_staging t owner none = record t {
  staging = delete_where (λ r. str_eq r.owner owner) t.staging;
}
release_staging t owner (some paths) = record t {
  staging = delete_each (λ p r. is_staging_of owner p r) paths t.staging;
}
