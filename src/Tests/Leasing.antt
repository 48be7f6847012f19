-- ===== src/Tests/Leasing.antt =====
-- Two owners that claim one identity, the first of which comes too late.
use marimo_export.Prelude.{List, [], ◌∷◌, arith}
use marimo_export.Repository.Leases.{Leases}
use marimo_export.Repository.Leases.Fences.{Subject, claim_reservation, without_expired}
use marimo_export.Repository.Leases.Stale.{LeaseEvent, claimed, renewed, expired}
use marimo_export.Repository.Leases.Claims.{ClaimOutcome, claim_lem}

abbrev subject : Subject
subject = record {
  identity_key = "i";
  producer_sha256 = "p";
  output_plan_sha256 = "o";
  spec_sha256 = "s";
}

abbrev held_by_second : Leases
held_by_second = record {
  artifacts = [];
  staging = [];
  reservations =
      record {
        identity_key = "i";
        owner = "second";
        fence = 2;
        producer_sha256 = "p";
        output_plan_sha256 = "o";
        spec_sha256 = "s";
        expires_at_us = 50;
      }
      ∷ [];
  preparation_fence = 2;
}

-- The first owner renews what it lost, and claims again when the second one has expired.
abbrev later_events : List LeaseEvent
later_events =
    renewed "first" [] [] ("i" ∷ []) 90 20 ∷ expired 60 ∷ claimed "first" subject 99 61 ∷ []

claim_lem_example :
    ClaimOutcome
      (without_expired 55 held_by_second)
      "first"
      subject
      55
      (claim_reservation held_by_second "first" subject 99 55)
claim_lem_example = claim_lem held_by_second "first" subject 99 55 (omega arith)
