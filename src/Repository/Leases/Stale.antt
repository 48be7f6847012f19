-- ===== src/Repository/Leases/Stale.antt =====
-- The lifecycle tables over whole histories, and the fences that were given out.
use marimo_export.Prelude.{
  ℕ, ◌≤◌, String, str_eq, Bool, false, ◌&&◌, Option, List, [], ◌∷◌, any, ◌≡◌, ◌==◌, Result, ok, err,
}
use marimo_export.Repository.Leases.{Leases, Reservation, ArtifactKey}
use marimo_export.Repository.Leases.Fences.{
  FenceError, Subject, claim_reservation, delete_expired, renew_lifecycle, release_lifecycle,
}

-- Some reservation of the identity has the fence.
abbrev pub is_held : String → ℕ → List Reservation → Bool
is_held key n rs = any (λ r. str_eq r.identity_key key && (r.fence == n)) rs

pub data LeaseEvent : Type 0 where
  claimed : String → Subject → ℕ → ℕ → LeaseEvent
  renewed : String → List ArtifactKey → List String → List String → ℕ → ℕ → LeaseEvent
  released :
      String
      → Option (List (ArtifactKey × ℕ))
      → Option (List String)
      → Option (List String)
      → LeaseEvent
  expired : ℕ → LeaseEvent

-- A claim that raises is rolled back.
abbrev pub claimed_tables : {A : Type 0} → Leases → Result FenceError (Leases × A) → Leases
claimed_tables t (ok (t', _)) = t'
claimed_tables t (err e) = t

unfoldable pub happen : LeaseEvent → Leases → Leases
unfolding claim_reservation renew_lifecycle release_lifecycle delete_expired
happen (claimed owner s expires now) t = claimed_tables t (claim_reservation t owner s expires now)
happen (renewed owner names paths rs expires now) t =
    (renew_lifecycle t owner names paths rs expires now).0
happen (released owner names paths rs) t = release_lifecycle t owner names paths rs
happen (expired now) t = delete_expired t now

unfoldable pub history : List LeaseEvent → Leases → Leases
unfolding happen
history [] t = t
history (e ∷ es) t = history es (happen e t)

-- The fence was given out, and is not held.
pub record IsStale (key : String) (n : ℕ) (t : Leases) : Type 0 where
  pub given : n ≤ t.preparation_fence
  pub free : is_held key n t.reservations ≡ false
