-- ===== src/Repository/Artifacts/Slots.antt =====
-- The pointers, rows and leases that a commit writes, read back.
use marimo_export.Prelude.{
  ℕ, ◌+◌, String, str_eq, str_eq_self, str_eq_iff, Bool, true, false, some, is_none, List, [], ◌∷◌,
  length, any, sum_by, ◌≡◌, refl, ◌∙◌, arith, bytes_eq, if◌then◌else◌, Bool-cases, inl, inr,
}
use marimo_export.Repository.Leases.{update_where}
use marimo_export.Repository.Retention.{is_key}
use marimo_export.Repository.Retention.Pins.{is_key_self}
use marimo_export.Repository.Artifacts.{
  Pointer, Body, Commit, upsert_pointer, current_of, find_body, is_conflict, content_of,
  metadata_of, insert_body, new_body, touched_body, point_at,
}

current_of-upsert_pointer :
    (c : Commit) (q : String) (ps : List Pointer)
    → current_of q (upsert_pointer c ps) ≡ current_of q ps
unfolding current_of upsert_pointer
current_of-upsert_pointer c q [] = ground arith
current_of-upsert_pointer c q (p ∷ ps) = ground (arith, current_of-upsert_pointer c q ps)

abbrev pub has_pointer : String → List Pointer → Bool
has_pointer key ps = any (λ p. str_eq p.key key) ps

upserted-has_pointer :
    (c : Commit) (ps : List Pointer) → has_pointer c.key (upsert_pointer c ps) ≡ true
unfolding upsert_pointer
upserted-has_pointer c [] = ground (arith, str_eq_self c.key)
upserted-has_pointer c (p ∷ ps) = ground (arith, upserted-has_pointer c ps)

pointed-others :
    (c : Commit) (q : String) (ps : List Pointer)
    → str_eq c.key q ≡ false
    → current_of q (point_at c ps) ≡ current_of q ps
unfolding current_of point_at update_where
pointed-others c q [] h = refl
pointed-others c q (p ∷ ps) h = elim (Bool-cases (str_eq p.key c.key)) [
  | inl same ↦ ground (
    arith,
    h,
    same,
    str_eq_iff p.key c.key,
    str_eq_iff p.key q,
    str_eq_iff c.key q,
    pointed-others c q ps h,
  )
  | inr other ↦ rw other (ground (arith, pointed-others c q ps h))
]

pointed-current :
    (c : Commit) (ps : List Pointer)
    → has_pointer c.key ps ≡ true
    → current_of c.key (point_at c ps) ≡ some c.serial
unfolding current_of point_at update_where
pointed-current c [] h = absurd (ground arith)
pointed-current c (p ∷ ps) h = elim (Bool-cases (str_eq p.key c.key)) [
  | inl same ↦ rw same (rw same refl)
  | inr other ↦ rw other (rw other (pointed-current c ps (ground (arith, other))))
]

-- The other keys point where they did.
pub point_at-others :
    (c : Commit) (q : String) (ps : List Pointer)
    → str_eq c.key q ≡ false
    → current_of q (point_at c (upsert_pointer c ps)) ≡ current_of q ps
point_at-others c q ps h =
    pointed-others c q (upsert_pointer c ps) h ∙ current_of-upsert_pointer c q ps

pub point_at-current :
    (c : Commit) (ps : List Pointer)
    → current_of c.key (point_at c (upsert_pointer c ps)) ≡ some c.serial
point_at-current c ps = pointed-current c (upsert_pointer c ps) (upserted-has_pointer c ps)

-- A new row adds its bytes to the table's; a row that is there changes none.
insert_body-sum :
    (f : Body → ℕ) (n : ℕ) (c : Commit) (bs : List Body)
    → ((b : Body) → f (touched_body c b) ≡ f b)
    → f (new_body c) ≡ n
    → sum_by f (insert_body c bs)
      ≡ sum_by f bs + (if is_none (find_body c.key c.serial bs) then n else 0)
unfolding insert_body find_body
insert_body-sum f n c [] same new = omega (arith, new)
insert_body-sum f n c (b ∷ bs) same new =
    elim (Bool-cases (is_key (b.key, b.serial) (c.key, c.serial))) [
      | inl hit ↦ rw hit (omega (arith, same b))
      | inr miss ↦ rw miss (omega (arith, insert_body-sum f n c bs same new))
    ]

pub insert_body-content :
    (c : Commit) (bs : List Body)
    → content_of (insert_body c bs)
      ≡ content_of bs + (if is_none (find_body c.key c.serial bs) then c.content_bytes else 0)
insert_body-content c bs =
    insert_body-sum (λ b. b.content_bytes) c.content_bytes c bs (λ b. refl) refl

pub insert_body-metadata :
    (c : Commit) (bs : List Body)
    → metadata_of (insert_body c bs)
      ≡ metadata_of bs + (if is_none (find_body c.key c.serial bs) then length c.metadata else 0)
insert_body-metadata c bs =
    insert_body-sum (λ b. b.metadata_bytes) (length c.metadata) c bs (λ b. refl) refl

bytes_eq_self : (xs : List ℕ) → bytes_eq xs xs ≡ true
bytes_eq_self [] = refl
bytes_eq_self (x ∷ xs) = ground (arith, bytes_eq_self xs)

-- The commit's row, read back: its metadata and its content are the commit's.
pub insert_body-found :
    (c : Commit) (bs : List Body)
    → is_conflict c (find_body c.key c.serial bs) ≡ false
    → (b : Body) × (find_body c.key c.serial (insert_body c bs) ≡ some b)
      × (is_conflict c (some b) ≡ false)
unfolding insert_body find_body
insert_body-found c [] h =
    (new_body c, rw (is_key_self (c.key, c.serial)) refl, ground (arith, bytes_eq_self c.metadata))
insert_body-found c (b ∷ bs) h = elim (Bool-cases (is_key (b.key, b.serial) (c.key, c.serial))) [
  | inl hit ↦ (touched_body c b, rw hit (rw hit refl), ground (arith, h, hit))
  | inr miss ↦
      let (found, e, good) = insert_body-found c bs (ground (arith, h, miss)) in
      (found, rw miss (rw miss e), good)
]
