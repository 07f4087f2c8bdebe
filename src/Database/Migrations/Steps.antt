-- ===== src/Database/Migrations/Steps.antt =====
-- migrations.go: what the run does for one migration.
use catgirl.Base.{
  ◌+◌, ◌≡◌, refl, true, false, List, [], ◌∷◌, ◌++◌, ◌⊎◌, inl, inr, String, Result, ok, err, any,
  map, if◌then◌else◌, Bool-cases,
}
use catgirl.Database.Migrations.{Migration, Schema, is_version, is_applied, apply, run_one}

-- The migrations that a run still has to apply: of several with one version, the first.
abbrev pub pending : List String → List Migration → List Migration
pending known [] = []
pending known (m ∷ rest) =
    if any (is_version m.version) known
    then pending known rest
    else m ∷ pending (known ++ m.version ∷ []) rest

abbrev pub versions_of : List Migration → List String
versions_of = map (λ m. m.version)

abbrev pub scripts_of : List Migration → List String
scripts_of = map (λ m. m.sql)

-- The schema has what it had and these migrations.
abbrev pub Has : List String → List String → List Migration → Schema → Type 0
Has known scripts done s =
    (s.versions ≡ known ++ versions_of done) × (s.scripts ≡ scripts ++ scripts_of done)

abbrev pub OneSpec : Migration → Schema → Result (Unit {0}) × Schema → Type 0
OneSpec m s (ok _, s') =
    ((any (is_version m.version) s.versions ≡ true)
      × (s'.versions ≡ s.versions)
      × (s'.scripts ≡ s.scripts))
    ⊎ ((any (is_version m.version) s.versions ≡ false)
        × (s'.versions ≡ s.versions ++ m.version ∷ [])
        × (s'.scripts ≡ s.scripts ++ m.sql ∷ []))
OneSpec m s (err e, s') = (s'.versions ≡ s.versions) × (s'.scripts ≡ s.scripts)

-- A migration is applied whole or not at all.
abbrev ApplySpec : Migration → Schema → Result (Unit {0}) × Schema → Type 0
ApplySpec m s (ok _, s') =
    (s'.versions ≡ s.versions ++ m.version ∷ []) × (s'.scripts ≡ s.scripts ++ m.sql ∷ [])
ApplySpec m s (err e, s') = (s'.versions ≡ s.versions) × (s'.scripts ≡ s.scripts)

apply-ApplySpec : (m : Migration) (s : Schema) → ApplySpec m s (apply m s)
unfolding apply
apply-ApplySpec m s = elim (Bool-cases (s.outage s.calls)) [
  | inl c ↦ rw c (refl, refl)
  | inr c ↦ elim (Bool-cases (s.outage (s.calls + 1))) [
    | inl d ↦ rw (c, d) (refl, refl)
    | inr d ↦ elim (Bool-cases (s.accepts s.scripts m.sql)) [
      | inr bad ↦ rw (c, d, bad) (refl, refl)
      | inl good ↦ elim (Bool-cases (s.outage (s.calls + 1 + 1))) [
        | inl e ↦ rw (c, d, good, e) (refl, refl)
        | inr e ↦ elim (Bool-cases (s.outage (s.calls + 1 + 1 + 1))) [
          | inl f ↦ rw (c, d, good, e, f) (refl, refl)
          | inr f ↦ rw (c, d, good, e, f) (refl, refl)
        ]
      ]
    ]
  ]
]

pub run_one-OneSpec : (m : Migration) (s : Schema) → OneSpec m s (run_one m s)
unfolding run_one is_applied
run_one-OneSpec m s = elim (Bool-cases (s.outage s.calls)) [
  | inl a ↦ rw a (refl, refl)
  | inr a ↦ elim (Bool-cases (s.outage (s.calls + 1))) [
    | inl b ↦ rw (a, b) (refl, refl)
    | inr b ↦ elim (Bool-cases (any (is_version m.version) s.versions)) [
      | inl old ↦ rw (a, b, old) (inl (old, refl, refl))
      | inr new ↦
          let checked : Schema = record s { calls = s.calls + 1 + 1 } in
          rw (a, b, new) (applied new (apply m checked) (apply-ApplySpec m checked))
    ]
  ]
]
  where
    applied :
        any (is_version m.version) s.versions ≡ false
        → (p : Result (Unit {0}) × Schema) → ApplySpec m s p
        → OneSpec m s p
    applied new (ok _, t) h = inr (new, h.0, h.1)
    applied new (err e, t) h = h
