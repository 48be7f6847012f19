-- ===== src/Tests/Retaining.antt =====
-- Retention over a small catalog: a leased generation with the state that it pins, an older
-- generation of the same identity, and a state that does not fit.
use marimo_export.Prelude.{
  ℕ, String, true, false, Option, none, some, [], ◌∷◌, ◌≡◌, refl, ok, err, ◌⊎◌,
}
use marimo_export.Repository.Retention
use marimo_export.Repository.Retention.{
  ArtifactRow, Key, has, Lease, Identity, Candidate, RetentionLimits, Catalog, generation, state,
}
use marimo_export.Repository.Retention.Selection
use marimo_export.Repository.Retention.Selection.{RetentionVictims, retention_candidates}
use marimo_export.Repository.Retention.Selection.{rows_of}
use marimo_export.Repository.Retention.Apply.{Store, integrity_error}
use marimo_export.Repository.Retention.Applied.{applied, applied_keeps_leased}
use marimo_export.Repository.Retention.Sound.{is_linked}
use marimo_export.Repository.Retention.Selected.{Selected, retained_lem}
use marimo_export.Repository.Retention.Victims.{
  leased_is_no_victim, pinned_is_no_victim, victims_of,
}

abbrev row : String → String → ℕ → ArtifactRow
row key serial content = record {
  key = key;
  serial = serial;
  metadata_bytes = 1;
  content_bytes = content;
  others = "";
}

abbrev lease : Lease
lease = record { kind = generation; artifact = ("i", "2") }

abbrev catalog : Catalog
catalog = record {
  generations = row "i" "2" 5 ∷ row "i" "1" 5 ∷ [];
  states = row "s" "1" 4 ∷ row "t" "1" 90 ∷ [];
  pins = (("i", "2"), ("s", "1")) ∷ [];
  leases = lease ∷ [];
  identities = record { identity_key = "i"; producer_sha256 = "p"; current = some "2" } ∷ [];
  preparing = [];
}

abbrev limits : RetentionLimits
limits = record {
  metadata_bytes = 10;
  prepared_state_bytes = 20;
  generation_bytes = 8;
  retained_identities = 2;
  retained_generations = 2;
  retained_generations_per_identity = 2;
  retained_prepared_states = 2;
}

abbrev candidate : Candidate
candidate = record {
  kind = state;
  key = "s";
  serial = "2";
  replacing = some "1";
  metadata_bytes = 1;
  content_bytes = 6;
}

catalog-is_linked : is_linked catalog ≡ true
unfolding Retention.find_row Retention.is_key
catalog-is_linked = refl

retained_lem_example : Selected limits (some candidate) catalog
retained_lem_example = retained_lem limits (some candidate) catalog catalog-is_linked

leased_row : Retention.find_row ("i", "2") catalog.generations ≡ some (row "i" "2" 5)
unfolding Retention.find_row Retention.is_key
leased_row = refl

leased_is_no_victim_example :
    (v : RetentionVictims) × (retention_candidates limits none catalog ≡ ok v)
    × (has ("i", "2") (victims_of generation v) ≡ false)
leased_is_no_victim_example =
    leased_is_no_victim limits none catalog [] [] lease catalog-is_linked refl leased_row

pinning_row : has ("i", "2") catalog.generations ≡ true
unfolding Retention.is_key
pinning_row = refl

pinned_is_no_victim_example :
    (v : RetentionVictims) × (retention_candidates limits (some candidate) catalog ≡ ok v)
    × ((has ("i", "2") v.generations ≡ true) ⊎ (has ("s", "1") v.states ≡ false))
pinned_is_no_victim_example =
    pinned_is_no_victim limits (some candidate) catalog [] [] ("i", "2") ("s", "1")
      catalog-is_linked refl pinning_row

-- Without a candidate the older generation and the large state are the victims.
two_victims :
    retention_candidates limits none catalog
    ≡ ok (record { states = row "t" "1" 90 ∷ []; generations = row "i" "1" 5 ∷ [] })
unfolding Selection.retention_candidates Retention.is_key Retention.keep_generation
two_victims = refl

abbrev store : Store
store = record { catalog = catalog; scopes = []; retired = []; producers = "p" ∷ "q" ∷ [] }

abbrev all_rows : RetentionVictims
all_rows = record { states = catalog.states; generations = catalog.generations }

abbrev moved : Key → Option (String × ℕ)
moved k = some ("trash", 5)

applied_keeps_leased_example :
    (applied limits 1 none all_rows moved moved 77 store ≡ err integrity_error)
    ⊎ ((s' : Store) × (v : RetentionVictims) × (applied limits 1 none all_rows moved moved 77 store
          ≡ ok (s', v))
        × (has ("i", "2") (rows_of generation s'.catalog) ≡ true))
applied_keeps_leased_example =
    applied_keeps_leased limits 1 none all_rows moved moved 77 store [] [] lease catalog-is_linked
      refl leased_row
