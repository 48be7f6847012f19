-- ===== src/Repository/Leases/Claims.antt =====
-- `claim_reservation` as a whole.
use marimo_export.Prelude.{
  ℕ, ◌+◌, ◌<◌, String, str_eq, str_eq_self, true, false, ◌&&◌, Option, none, some, List, [], ◌∷◌,
  ◌≡◌, refl, ap, ◌∙◌, arith, ◌==◌, Result, ok, err, Bool-cases, inl, inr, ◌⊎◌,
}
use marimo_export.Repository.Leases.{Leases, Reservation, update_where}
use marimo_export.Repository.Leases.Fences.{
  FenceError, fence_error, Subject, find_reservation, is_subject, extend, claim_found,
  without_expired, claim_reservation, is_reserved, require_reservation,
}

find_reservation-update_where :
    (key owner : String) (expires : ℕ) (rs : List Reservation) (r : Reservation)
    → find_reservation key rs ≡ some r
    → str_eq r.owner owner ≡ true
    → find_reservation key (
        update_where
          (λ q. str_eq q.identity_key key && str_eq q.owner owner && (q.fence == r.fence))
          (extend expires)
          rs)
      ≡ some (extend expires r)
unfolding find_reservation update_where
find_reservation-update_where key owner expires [] r found mine = absurd (ground arith)
find_reservation-update_where key owner expires (q ∷ rs) r found mine =
    elim (Bool-cases (str_eq q.identity_key key)) [
      | inl hit ↦
          let same : q ≡ r = ground (arith, found, hit) in
          let mine' : str_eq q.owner owner ≡ true = ap (λ x. str_eq x.owner owner) same ∙ mine in
          let fence : (q.fence == r.fence) ≡ true = ground (arith, ap (λ x. x.fence) same) in
          rw (hit, mine', fence) (rw hit (ap (λ x. some (extend expires x)) same))
      | inr miss ↦ rw miss (
          rw miss (
            find_reservation-update_where key owner expires rs r (ground (arith, found, miss))
              mine))
    ]

-- What a claim comes to, on the tables `t` without their expired rows: another owner holds the
-- identity, or this one holds it for another subject, or the claim gets a fence that is good: the
-- next one of a free identity, its own of one that it holds already for the subject.
abbrev pub ClaimOutcome :
    Leases → String → Subject → ℕ → Result FenceError (Leases × Option ℕ) → Type 0
ClaimOutcome t owner s now result =
    ((r : Reservation) × (find_reservation s.identity_key t.reservations ≡ some r)
      × (str_eq r.owner owner ≡ false)
      × (result ≡ ok (t, none)))
    ⊎ ((r : Reservation) × (find_reservation s.identity_key t.reservations ≡ some r)
        × (str_eq r.owner owner ≡ true)
        × (is_subject s r ≡ false)
        × (result ≡ err fence_error))
    ⊎ ((t' : Leases) × (m : ℕ) × (result ≡ ok (t', some m))
        × ((find_reservation s.identity_key t.reservations ≡ none) × (m ≡ t.preparation_fence + 1)
            ⊎ (r : Reservation) × (find_reservation s.identity_key t.reservations ≡ some r)
              × (str_eq r.owner owner ≡ true)
              × (is_subject s r ≡ true)
              × (m ≡ r.fence))
        × (require_reservation t' owner m s now ≡ ok tt))

extended_is_reserved :
    (owner : String) (s : Subject) (expires now : ℕ) (r : Reservation)
    → str_eq r.owner owner ≡ true
    → is_subject s r ≡ true
    → now < expires
    → is_reserved owner r.fence s now (some (extend expires r)) ≡ true
unfolding is_reserved is_subject
extended_is_reserved owner s expires now r mine good later = ground arith

required :
    (t : Leases) (owner : String) (n : ℕ) (s : Subject) (now : ℕ) (r : Reservation)
    → find_reservation s.identity_key t.reservations ≡ some r
    → is_reserved owner n s now (some r) ≡ true
    → require_reservation t owner n s now ≡ ok tt
unfolding require_reservation
required t owner n s now r found h = rw (found, h) refl

abbrev renewed_claim : Leases → String → Subject → ℕ → Reservation → Leases
renewed_claim t owner s expires r = record t {
  reservations =
      update_where
        (λ q. str_eq q.identity_key s.identity_key && str_eq q.owner owner && (q.fence == r.fence))
        (extend expires) t.reservations;
}

claim_found_lem :
    (t : Leases) (owner : String) (s : Subject) (expires now : ℕ) (o : Option Reservation)
    → find_reservation s.identity_key t.reservations ≡ o
    → now < expires
    → ClaimOutcome t owner s now (claim_found t owner s expires o)
unfolding claim_found require_reservation find_reservation is_reserved is_subject
claim_found_lem t owner s expires now none found later = inr (
    inr (
      _,
      t.preparation_fence + 1,
      refl,
      inl (found, refl),
      rw (str_eq_self s.identity_key) (
          rw
            (
              str_eq_self owner,
              str_eq_self s.producer_sha256,
              str_eq_self s.output_plan_sha256,
              str_eq_self s.spec_sha256,
            )
            (ground arith)),
    ))
claim_found_lem t owner s expires now (some r) found later =
    elim (Bool-cases (str_eq r.owner owner)) [
      | inr other ↦ inl (r, found, other, rw other refl)
      | inl mine ↦ elim (Bool-cases (is_subject s r)) [
        | inr bad ↦ inr (inl (r, found, mine, bad, rw (mine, bad) refl))
        | inl good ↦ inr (
            inr (
              renewed_claim t owner s expires r,
              r.fence,
              rw (mine, good) refl,
              inr (r, found, mine, good, refl),
              required (renewed_claim t owner s expires r) owner r.fence s now (extend expires r)
                  (find_reservation-update_where s.identity_key owner expires t.reservations r found
                    mine)
                  (extended_is_reserved owner s expires now r mine good later),
            ))
      ]
    ]

-- Where the expiry lies ahead, a claim ends, behind the clean-up, in exactly one of these
-- ways: it is refused where another owner holds the identity, it raises where the owner holds
-- it for another subject, and otherwise it gets a fence that require_reservation accepts at
-- once, which is the counter's next value where nobody holds the identity and the fence
-- already held where the owner holds it for the subject.
pub claim_lem :
    (t : Leases) (owner : String) (s : Subject) (expires now : ℕ)
    → now < expires
    → ClaimOutcome (without_expired now t) owner s now (claim_reservation t owner s expires now)
unfolding claim_reservation
claim_lem t owner s expires now later =
    claim_found_lem (without_expired now t) owner s expires now _ refl later
