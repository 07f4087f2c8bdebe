-- ===== src/Database/Migrations/Laws.antt =====
-- migrations.go: which scripts a run applies, in which order, and what a failure leaves.
use catgirl.Base.{
  ◌≡◌, refl, ap, sym, subst, ◌∙◌, true, false, List, [], ◌∷◌, ◌++◌, inl, inr, String, eq_iff,
  Result, ok, err, and_then, any, All, Bool-cases, append_assoc, append-nil, any-append_left,
  any-append_last,
}
use catgirl.Database.Migrations.{Migration, Schema, is_version, run_one, run_all}
use catgirl.Database.Migrations.Steps.{
  pending, versions_of, scripts_of, Has, OneSpec, run_one-OneSpec,
}

-- What a run leaves. One that fails has applied what was pending of the first migrations, and
-- nothing of the one at which it failed.
abbrev pub RunSpec :
    List Migration → List String → List String → Result (Unit {0}) × Schema → Type 0
RunSpec ms known scripts (ok _, s') = Has known scripts (pending known ms) s'
RunSpec ms known scripts (err e, s') =
    (done : List Migration) × (m : Migration) × (rest : List Migration) × (ms ≡ done ++ m ∷ rest)
    × Has known scripts (pending known done) s'

RunSpec-known :
    (m : Migration) (ms : List Migration) (known scripts : List String)
    (p : Result (Unit {0}) × Schema)
    → any (is_version m.version) known ≡ true
    → RunSpec ms known scripts p
    → RunSpec (m ∷ ms) known scripts p
RunSpec-known m ms known scripts (ok _, s') old h = rw old h
RunSpec-known m ms known scripts (err e, s') old (done, n, rest, split, h) =
    (m ∷ done, n, rest, ap (◌∷◌ m) split, rw old h)

Has-more :
    (m : Migration) (known scripts : List String) (done : List Migration) (s : Schema)
    → Has (known ++ m.version ∷ []) (scripts ++ m.sql ∷ []) done s
    → Has known scripts (m ∷ done) s
Has-more m known scripts done s h = (
  h.0 ∙ append_assoc known (m.version ∷ []) (versions_of done),
  h.1 ∙ append_assoc scripts (m.sql ∷ []) (scripts_of done),
)

RunSpec-new :
    (m : Migration) (ms : List Migration) (known scripts : List String)
    (p : Result (Unit {0}) × Schema)
    → any (is_version m.version) known ≡ false
    → RunSpec ms (known ++ m.version ∷ []) (scripts ++ m.sql ∷ []) p
    → RunSpec (m ∷ ms) known scripts p
RunSpec-new m ms known scripts (ok _, s') new h =
    rw new (Has-more m known scripts (pending (known ++ m.version ∷ []) ms) s' h)
RunSpec-new m ms known scripts (err e, s') new (done, n, rest, split, h) = (
  m ∷ done,
  n,
  rest,
  ap (◌∷◌ m) split,
  rw new (Has-more m known scripts (pending (known ++ m.version ∷ []) done) s' h),
)

-- A run applies the scripts of the pending migrations, in order, each with its version; of those that
-- share a version only the first. One that fails stops there: what was applied before stays, the
-- migration that failed leaves nothing.
pub run_all-RunSpec :
    (ms : List Migration) (s : Schema) → RunSpec ms s.versions s.scripts (run_all ms s)
unfolding run_all
run_all-RunSpec [] s = (sym (append-nil s.versions), sym (append-nil s.scripts))
run_all-RunSpec (m ∷ ms) s = after (run_one m s) (run_one-OneSpec m s) (run_all-RunSpec ms)
  where
    after :
        (p : Result (Unit {0}) × Schema)
        → OneSpec m s p
        → ((t : Schema) → RunSpec ms t.versions t.scripts (run_all ms t))
        → RunSpec (m ∷ ms) s.versions s.scripts (and_then p (λ _. run_all ms))
    after (err e, t) h more =
        ([], m, ms, refl, (h.0 ∙ sym (append-nil s.versions), h.1 ∙ sym (append-nil s.scripts)))
    after (ok _, t) (inl (old, same, same')) more =
        RunSpec-known m ms s.versions s.scripts (run_all ms t) old (
          subst (λ v. RunSpec ms v s.scripts (run_all ms t)) same
            (subst (λ c. RunSpec ms t.versions c (run_all ms t)) same' (more t)))
    after (ok _, t) (inr (new, added, added')) more =
        RunSpec-new m ms s.versions s.scripts (run_all ms t) new (
          subst (λ v. RunSpec ms v (s.scripts ++ m.sql ∷ []) (run_all ms t)) added
            (subst (λ c. RunSpec ms t.versions c (run_all ms t)) added' (more t)))

-- Every migration is known after the pending ones have been added.
abbrev AllKnown : List String → List Migration → Type 0
AllKnown known = All (λ m. any (is_version m.version) known ≡ true)

pending-known :
    (m : Migration) (ms : List Migration) (known : List String)
    → any (is_version m.version) known ≡ true
    → pending known (m ∷ ms) ≡ pending known ms
pending-known m ms known old = rw old refl

pending-new :
    (m : Migration) (ms : List Migration) (known : List String)
    → any (is_version m.version) known ≡ false
    → pending known (m ∷ ms) ≡ m ∷ pending (known ++ m.version ∷ []) ms
pending-new m ms known new = rw new refl

pending-AllKnown :
    (known : List String) (ms : List Migration)
    → AllKnown (known ++ versions_of (pending known ms)) ms
pending-AllKnown known [] = tt
pending-AllKnown known (m ∷ ms) = elim (Bool-cases (any (is_version m.version) known)) [
  | inl old ↦
      subst (λ l. AllKnown (known ++ versions_of l) (m ∷ ms)) (sym (pending-known m ms known old))
        (
          any-append_left (is_version m.version) known (versions_of (pending known ms)) old,
          pending-AllKnown known ms,
        )
  | inr new ↦
      let more = known ++ m.version ∷ [] in
      let later = versions_of (pending more ms) in
      subst (λ l. AllKnown (known ++ versions_of l) (m ∷ ms)) (sym (pending-new m ms known new))
        (subst (λ l. AllKnown l (m ∷ ms)) (append_assoc known (m.version ∷ []) later)
          (
            any-append_left (is_version m.version) more later (
                any-append_last (is_version m.version) known m.version
                  ((eq_iff m.version m.version).1 refl)),
            pending-AllKnown more ms,
          ))
]

pending-nil :
    (known : List String) (ms : List Migration) → AllKnown known ms → pending known ms ≡ []
pending-nil known [] h = refl
pending-nil known (m ∷ ms) h = rw h.0 (pending-nil known ms h.1)

All-append_left :
    (known : List String) (xs ys : List Migration) → AllKnown known (xs ++ ys) → AllKnown known xs
All-append_left known [] ys h = tt
All-append_left known (x ∷ xs) ys h = (h.0, All-append_left known xs ys h.1)

settle :
    (known scripts : List String) (l : List Migration) (t : Schema)
    → l ≡ []
    → Has known scripts l t
    → (t.versions ≡ known) × (t.scripts ≡ scripts)
settle known scripts l t e h =
    let h' = subst (λ x. Has known scripts x t) e h in
    (h'.0 ∙ append-nil known, h'.1 ∙ append-nil scripts)

nothing_new :
    (ms : List Migration) (known scripts : List String) (p : Result (Unit {0}) × Schema)
    → AllKnown known ms
    → RunSpec ms known scripts p
    → (p.1.versions ≡ known) × (p.1.scripts ≡ scripts)
nothing_new ms known scripts (ok _, t) all h =
    settle known scripts (pending known ms) t (pending-nil known ms all) h
nothing_new ms known scripts (err e, t) all (done, n, rest, split, h) =
    settle known scripts (pending known done) t
      (pending-nil known done
        (All-append_left known done (n ∷ rest) (subst (AllKnown known) split all)))
      h

-- After a run that succeeds a second one changes nothing, whether it succeeds or fails.
pub run_all-again :
    (ms : List Migration) (s : Schema)
    → (run_all ms s).0 ≡ ok tt
    → let once = (run_all ms s).1 in
      let twice = (run_all ms once).1 in
      (twice.versions ≡ once.versions) × (twice.scripts ≡ once.scripts)
run_all-again ms s done =
    let once = (run_all ms s).1 in
    nothing_new ms once.versions once.scripts (run_all ms once)
      (known (run_all ms s) (run_all-RunSpec ms s) done) (run_all-RunSpec ms once)
  where
    known :
        (p : Result (Unit {0}) × Schema)
        → RunSpec ms s.versions s.scripts p
        → p.0 ≡ ok tt
        → AllKnown p.1.versions ms
    known (ok _, t) h e = subst (λ l. AllKnown l ms) (sym h.0) (pending-AllKnown s.versions ms)
    known (err x, t) h e = cc
