-- ===== src/Json/Rounds.antt =====
-- Runs of the scan: how its rounds compose, and what its helpers do where their guards hold.
use marimo_export.Prelude.{
  ℕ, suc, Bool, true, false, List, [], ◌∷◌, Option, length, ltb, ◌≡◌, refl, arith, ok, ◌>>=◌, ◌+◌,
  ◌≤◌,
}
use mathlib.Core.Path.{subst, ◌∙◌}
use marimo_export.Format.Texts.{Text}
use marimo_export.Json.Values.{max_depth}
use marimo_export.Json.Preflight.{
  after_value, Root, active, done, Container, Scan, Step, count_value, allows_value, begin_value,
  complete_at, replace_state, is_root_value, round, scan_loop,
}

abbrev pub scan : Text → ℕ → List Container → Root → Scan
scan rest n cs r = record { left = rest; count = n; containers = cs; root = r }

-- A value may begin.
abbrev pub is_ready : List Container → Root → Bool
is_ready [] r = is_root_value r
is_ready (c ∷ cs) r = allows_value c.kind c.place

abbrev pub is_inside : List Container → Bool
is_inside [] = true
is_inside (c ∷ cs) = allows_value c.kind c.place

abbrev pub begun : List Container → Root → Root
begun [] r = active
begun (c ∷ cs) r = r

-- The state after a value.
abbrev pub finished : List Container → List Container
finished [] = []
finished (c ∷ cs) = replace_state after_value c ∷ cs

abbrev pub finished_root : List Container → Root → Root
finished_root [] r = done
finished_root (c ∷ cs) r = r

pub ready_inside : (cs : List Container) (r : Root) → is_ready cs r ≡ true → is_inside cs ≡ true
ready_inside [] r h = refl
ready_inside (c ∷ cs) r h = h

pub count_value_lem :
    (m n : ℕ) (rest : Text) (cs : List Container) (r : Root)
    → n + 1 ≤ m
    → length cs ≤ max_depth
    → count_value m (scan rest n cs r) ≡ ok (scan rest (n + 1) cs r)
count_value_lem m n rest cs r h k =
    let room : ltb m (n + 1) ≡ false = ground (arith, h) in
    let fine : ltb max_depth (length cs) ≡ false = ground (arith, k) in rw (room, fine) refl

pub begin_value_lem :
    (n : ℕ) (rest : Text) (cs : List Container) (r : Root)
    → is_ready cs r ≡ true
    → begin_value (scan rest n cs r) ≡ ok (scan rest n cs (begun cs r))
begin_value_lem n rest [] r h = rw h refl
begin_value_lem n rest (c ∷ cs) r h = rw h refl

pub complete_at_lem :
    (n : ℕ) (rest : Text) (cs : List Container) (r : Root)
    → is_inside cs ≡ true
    → complete_at cs (scan rest n cs r) ≡ ok (scan rest n (finished cs) (finished_root cs r))
complete_at_lem n rest [] r h = refl
complete_at_lem n rest (c ∷ cs) r h = rw h refl

pub finished_begun :
    (cs : List Container) (r : Root) → finished_root cs (begun cs r) ≡ finished_root cs r
finished_begun [] r = refl
finished_begun (c ∷ cs) r = refl

module _ (scan_string : Text → Option (Text × Text)) (match_number : Text → Option (ℕ × Text))
    (m : ℕ) where
  abbrev loop : ℕ → Scan → Step
  unfolding scan_loop
  loop = scan_loop scan_string match_number m

  -- Some rounds take one state to the other, and no more of them than characters.
  pub record Runs (s t : Scan) : Type 0 where
    pub rounds : ℕ
    pub runs :
        (fuel : ℕ)
        → scan_loop scan_string match_number m (rounds + fuel) s
          ≡ scan_loop scan_string match_number m fuel t
    pub paid : rounds + length t.left ≤ length s.left

  pub Runs-trans : (s t u : Scan) → Runs s t → Runs t u → Runs s u
  Runs-trans s t u a b = record {
    rounds = a.rounds + b.rounds;
    runs = λ fuel.
        subst
          (λ k.
            scan_loop scan_string match_number m k s ≡ scan_loop scan_string match_number m fuel u)
          (regrouped a.rounds b.rounds fuel) (a.runs (b.rounds + fuel) ∙ b.runs fuel);
    paid = omega (arith, a.paid, b.paid);
  }
    where
      regrouped : (i j k : ℕ) → i + (j + k) ≡ i + j + k
      regrouped i j k = omega arith

  pub one_round :
      (c : ℕ) (rest : Text) (n : ℕ) (cs : List Container) (r : Root) (t : Scan)
      → round scan_string match_number m c rest (scan (c ∷ rest) n cs r) ≡ ok t
      → length t.left ≤ length rest
      → Runs (scan (c ∷ rest) n cs r) t
  unfolding scan_loop
  one_round c rest n cs r t h k = record {
    rounds = 1;
    runs = λ fuel.
        subst
          (λ j.
            scan_loop scan_string match_number m j (scan (c ∷ rest) n cs r)
            ≡ scan_loop scan_string match_number m fuel t)
          (next_fuel fuel) (rw h refl);
    paid = omega (arith, k);
  }
    where
      next_fuel : (fuel : ℕ) → suc fuel ≡ 1 + fuel
      next_fuel fuel = omega arith

pub chain :
    {s : Scan} {o : Step} (outcome : Step) (then_do : Scan → Step)
    → outcome ≡ ok s
    → then_do s ≡ o
    → (outcome >>= then_do) ≡ o
chain outcome then_do h k = rw h k
