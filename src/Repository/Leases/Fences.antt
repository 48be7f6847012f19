-- ===== src/Repository/Leases/Fences.antt =====
-- The reservations of _repository/sqlite/leases.py and the clean-up of all three tables.
use marimo_export.Prelude.{
  ℕ, ◌+◌, String, str_eq, Bool, false, ◌&&◌, not, Option, none, some, List, [], ◌∷◌, ltb, leb, ◌==◌,
  if◌then◌else◌, Result, ok, err,
}
use marimo_export.Repository.Leases.{
  Leases, Reservation, ArtifactLease, StagingLease, ArtifactKey, maximum, delete_where,
  update_where, renew_each, delete_each, renew_artifacts, release_artifacts, renew_staging,
  release_staging,
}

pub data FenceError : Type 0 where
  fence_error : FenceError

-- The subject of a reservation: its identity with the three digests that it stands for.
pub record Subject : Type 0 where
  pub identity_key : String
  pub producer_sha256 : String
  pub output_plan_sha256 : String
  pub spec_sha256 : String

-- SELECT ... WHERE identity_key = ?, its first row
unfoldable pub find_reservation : String → List Reservation → Option Reservation
find_reservation key [] = none
find_reservation key (r ∷ rs) =
    let rest = find_reservation key rs in if str_eq r.identity_key key then some r else rest

unfoldable pub is_subject : Subject → Reservation → Bool
is_subject s r =
    str_eq r.producer_sha256 s.producer_sha256
    && str_eq r.output_plan_sha256 s.output_plan_sha256
    && str_eq r.spec_sha256 s.spec_sha256

abbrev pub extend : ℕ → Reservation → Reservation
extend expires r = record r { expires_at_us = maximum r.expires_at_us expires }

-- `claim_reservation` behind its lookup.
unfoldable pub claim_found :
    Leases → String → Subject → ℕ → Option Reservation → Result FenceError (Leases × Option ℕ)
unfolding update_where is_subject
claim_found t owner s expires none = ok (
  record t {
    reservations =
        record {
          identity_key = s.identity_key;
          owner = owner;
          fence = t.preparation_fence + 1;
          producer_sha256 = s.producer_sha256;
          output_plan_sha256 = s.output_plan_sha256;
          spec_sha256 = s.spec_sha256;
          expires_at_us = expires;
        }
        ∷ t.reservations;
    preparation_fence = t.preparation_fence + 1;
  },
  some (t.preparation_fence + 1),
)
claim_found t owner s expires (some r) =
    if not (str_eq r.owner owner)
    then ok (t, none)
    else if not (is_subject s r)
    then err fence_error
    else ok (
      record t {
        reservations =
            update_where
              (λ q.
                str_eq q.identity_key s.identity_key
                && str_eq q.owner owner
                && (q.fence == r.fence))
              (extend expires) t.reservations;
      },
      some r.fence,
    )

abbrev pub without_expired : ℕ → Leases → Leases
without_expired now t = record t {
  reservations = delete_where (λ r. leb r.expires_at_us now) t.reservations;
}

unfoldable pub claim_reservation :
    Leases → String → Subject → ℕ → ℕ → Result FenceError (Leases × Option ℕ)
unfolding delete_where find_reservation claim_found
claim_reservation t owner s expires now =
    let t' = without_expired now t in
    claim_found t' owner s expires (find_reservation s.identity_key t'.reservations)

unfoldable pub is_reserved : String → ℕ → Subject → ℕ → Option Reservation → Bool
unfolding is_subject
is_reserved owner fence s now none = false
is_reserved owner fence s now (some r) =
    str_eq r.owner owner && (r.fence == fence) && is_subject s r && ltb now r.expires_at_us

unfoldable pub require_reservation :
    Leases → String → ℕ → Subject → ℕ → Result FenceError (Unit {0})
unfolding find_reservation is_reserved
require_reservation t owner fence s now =
    if is_reserved owner fence s now (find_reservation s.identity_key t.reservations)
    then ok tt
    else err fence_error

abbrev pub is_reservation_of : String → String → Reservation → Bool
is_reservation_of owner key r = str_eq r.identity_key key && str_eq r.owner owner

unfoldable pub renew_reservations : Leases → String → List String → ℕ → ℕ → Leases × List String
unfolding renew_each
renew_reservations t owner identities expires now =
    let (rs, lost) =
      renew_each (λ key r. is_reservation_of owner key r && ltb now r.expires_at_us)
        (extend expires) identities t.reservations in
    (record t { reservations = rs }, lost)

unfoldable pub release_reservations : Leases → String → Option (List String) → Leases
unfolding delete_where delete_each
release_reservations t owner none = record t {
  reservations = delete_where (λ r. str_eq r.owner owner) t.reservations;
}
release_reservations t owner (some identities) = record t {
  reservations = delete_each (λ key r. is_reservation_of owner key r) identities t.reservations;
}

unfoldable pub delete_expired : Leases → ℕ → Leases
unfolding delete_where
delete_expired t now = record t {
  artifacts = delete_where (λ r. leb r.expires_at_us now) t.artifacts;
  staging = delete_where (λ r. leb r.expires_at_us now) t.staging;
  reservations = delete_where (λ r. leb r.expires_at_us now) t.reservations;
}

pub record LostLifecycle : Type 0 where
  pub artifacts : List ArtifactKey
  pub staging : List String
  pub reservations : List String

unfoldable pub renew_lifecycle :
    Leases → String → List ArtifactKey → List String → List String → ℕ → ℕ → Leases × LostLifecycle
unfolding renew_artifacts renew_staging renew_reservations
renew_lifecycle t owner artifacts staging reservations expires now =
    let (t₁, lost_artifacts) = renew_artifacts t owner artifacts expires now in
    let (t₂, lost_staging) = renew_staging t₁ owner staging expires now in
    let (t₃, lost_reservations) = renew_reservations t₂ owner reservations expires now in
    (
      t₃,
      record {
        artifacts = lost_artifacts;
        staging = lost_staging;
        reservations = lost_reservations;
      },
    )

unfoldable pub release_lifecycle :
    Leases
    → String
    → Option (List (ArtifactKey × ℕ))
    → Option (List String)
    → Option (List String)
    → Leases
unfolding release_artifacts release_staging release_reservations
release_lifecycle t owner artifacts staging reservations =
    release_reservations (release_staging (release_artifacts t owner artifacts) owner staging) owner
      reservations

abbrev pub artifacts_after : ℕ → List ArtifactLease → List ArtifactKey
artifacts_after now [] = []
artifacts_after now (r ∷ rs) =
    let rest = artifacts_after now rs in if ltb now r.expires_at_us then r.artifact ∷ rest else rest

unfoldable pub active_artifacts : Leases → ℕ → Leases × List ArtifactKey
unfolding delete_expired
active_artifacts t now =
    (delete_expired t now, artifacts_after now (delete_expired t now).artifacts)

abbrev pub staging_after : ℕ → List StagingLease → List String
staging_after now [] = []
staging_after now (r ∷ rs) =
    let rest = staging_after now rs in
    if ltb now r.expires_at_us then r.relative_path ∷ rest else rest

unfoldable pub active_staging : Leases → ℕ → Leases × List String
unfolding delete_where
active_staging t now =
    let staging = delete_where (λ r. leb r.expires_at_us now) t.staging in
    (record t { staging = staging }, staging_after now staging)
