-- ===== src/Migrate/Consistent.antt =====
-- What a consistent report says of the applied migrations, and of rolling them back.
use hsync_server.Prelude.{
  ℕ, zero, suc, ℤ, ltb_ℤ, true, false, none, some, List, [], ◌∷◌, ◌++◌, Text, map, take, ◌≡◌, ◌↔◌,
  inl, inr, refl, ap, ◌∙◌, arith, All, Option-cases, text_eq, text_eqb_iff,
}
use hsync_server.Migrate.Plan.{Migration, by_version, rollback_plan, applied_desc, insert_version}
use hsync_server.Migrate.Status.{
  AppliedMigration, StatusReport, ref_of, migration_refs, rollback_refs, problem_of, check_applied,
  rows_of, build_status,
}
use hsync_server.Migrate.Order.{All-insert_version}
use hsync_server.Migrate.Sorted.{Ascending}

-- The binary has the applied migration, under its name.
abbrev pub IsEmbedded : List Migration → AppliedMigration → Type 0
IsEmbedded all a = (m : Migration) × (by_version a.version all ≡ some m) × (m.name ≡ a.name)

embedded :
    (all : List Migration) (a : AppliedMigration) → problem_of all a ≡ none → IsEmbedded all a
unfolding problem_of
embedded all a h = elim (Option-cases (by_version a.version all)) [
  | inl absent ↦ absurd (ground arith)
  | inr (m, found) ↦ (m, found, ground (arith, text_eqb_iff m.name a.name))
]

no_problem :
    (all : List Migration) (a : AppliedMigration) → IsEmbedded all a → problem_of all a ≡ none
unfolding problem_of
no_problem all a (m, found, named) = ground (arith, text_eqb_iff m.name a.name)

checked_bad :
    (all : List Migration) (applied : List AppliedMigration) (r : StatusReport)
    → r.consistent ≡ false
    → (check_applied all applied r).consistent ≡ false
unfolding check_applied
checked_bad all [] r h = h
checked_bad all (a ∷ applied) r h = elim (Option-cases (problem_of all a)) [
  | inl fine ↦ rw (fine, check_applied) (checked_bad all applied r h)
  | inr (p, bad) ↦ rw (bad, check_applied) (checked_bad all applied _ refl)
]

checked_good :
    (all : List Migration) (applied : List AppliedMigration) (r : StatusReport)
    → (check_applied all applied r).consistent ≡ true
    → All (IsEmbedded all) applied
unfolding check_applied
checked_good all [] r h = tt
checked_good all (a ∷ applied) r h = elim (Option-cases (problem_of all a)) [
  | inl fine ↦ (embedded all a fine, checked_good all applied r (ground arith))
  | inr (p, bad) ↦ absurd (
      ground (
        arith,
        checked_bad all applied (record r { consistent = false; problems = r.problems ++ p ∷ [] })
            refl,
      ))
]

checked_fine :
    (all : List Migration) (applied : List AppliedMigration) (r : StatusReport)
    → All (IsEmbedded all) applied
    → check_applied all applied r ≡ r
unfolding check_applied
checked_fine all [] r h = refl
checked_fine all (a ∷ applied) r h =
    rw (no_problem all a h.0, check_applied) (checked_fine all applied r h.1)

-- A report over a tracking table that is there is consistent exactly if the binary has every
-- applied migration, under the name that the table has for it.
pub consistent-IsEmbedded :
    (all : List Migration) (applied : List AppliedMigration) (table scope : Text)
    → ((build_status all applied table scope true).consistent ≡ true)
      ↔ (All (IsEmbedded all) applied)
unfolding build_status
consistent-IsEmbedded all applied table scope =
    (checked_good all applied _, λ h. ap (λ r. r.consistent) (checked_fine all applied _ h))

-- The migrations of the versions that have one.
unfoldable found : List Migration → List ℤ → List Migration
found all [] = []
found all (v ∷ vs) = (elim (by_version v all) [ none ↦ [] | some m ↦ m ∷ [] ]) ++ found all vs

found-append :
    (all : List Migration) (v : ℤ) (vs : List ℤ)
    → migration_refs (found all (vs ++ v ∷ []))
      ≡ migration_refs (found all vs)
        ++ (elim (by_version v all) [ none ↦ [] | some m ↦ ref_of m ∷ [] ])
unfolding found migration_refs
found-append all v [] = elim (Option-cases (by_version v all)) [
  | inl absent ↦ rw absent refl
  | inr (m, there) ↦ rw there refl
]
found-append all v (w ∷ vs) = elim (Option-cases (by_version w all)) [
  | inl absent ↦ rw (absent, found) (found-append all v vs)
  | inr (m, there) ↦ rw (there, found) (ap (λ r. ref_of m ∷ r) (found-append all v vs))
]

insert_last :
    (v : ℤ) (ws : List ℤ) → All (λ w. ltb_ℤ v w ≡ true) ws → insert_version v ws ≡ ws ++ v ∷ []
unfolding insert_version
insert_last v [] h = refl
insert_last v (w ∷ ws) h = let a = h.0 in ground (arith, insert_last v ws h.1)

All-applied_desc :
    (P : ℤ → Type 0) (applied : List AppliedMigration)
    → All (λ a. P a.version) applied
    → All P (applied_desc (rows_of applied))
unfolding applied_desc
All-applied_desc P [] h = tt
All-applied_desc P (a ∷ applied) h =
    All-insert_version P a.version (applied_desc (rows_of applied)) h.0
      (All-applied_desc P applied h.1)

All-versions :
    (P : ℤ → Type 0) (applied : List AppliedMigration)
    → All P (map (λ a. a.version) applied)
    → All (λ a. P a.version) applied
All-versions P [] h = tt
All-versions P (a ∷ applied) h = (h.0, All-versions P applied h.1)

refs-desc :
    (all : List Migration) (applied : List AppliedMigration)
    → Ascending (map (λ a. a.version) applied)
    → migration_refs (found all (applied_desc (rows_of applied))) ≡ rollback_refs all applied
unfolding rollback_refs applied_desc found migration_refs
refs-desc all [] h = refl
refs-desc all (a ∷ applied) h =
    ap (λ vs. migration_refs (found all vs))
      (insert_last a.version (applied_desc (rows_of applied))
        (All-applied_desc _ applied (All-versions _ applied h.0)))
    ∙ found-append all a.version (applied_desc (rows_of applied))
    ∙ ap (λ r. r ++ (elim (by_version a.version all) [ none ↦ [] | some m ↦ ref_of m ∷ [] ]))
        (refs-desc all applied h.1)

abbrev Known : List Migration → ℤ → Type 0
Known all v = (m : Migration) × (by_version v all ≡ some m)

plan-Known :
    (all : List Migration) (vs : List ℤ) (n : ℕ)
    → All (Known all) vs
    → rollback_plan all vs n ≡ some (take n (found all vs))
unfolding rollback_plan found
plan-Known all [] zero h = refl
plan-Known all [] (suc n) h = refl
plan-Known all (v ∷ vs) zero h = refl
plan-Known all (v ∷ vs) (suc n) h = rw (h.0.1, rollback_plan, found, plan-Known all vs n h.1) refl

refs-take : (n : ℕ) (ms : List Migration) → migration_refs (take n ms) ≡ take n (migration_refs ms)
unfolding migration_refs
refs-take zero ms = refl
refs-take (suc n) [] = refl
refs-take (suc n) (m ∷ ms) = ap (λ r. ref_of m ∷ r) (refs-take n ms)

All-Known :
    (all : List Migration) (applied : List AppliedMigration)
    → All (IsEmbedded all) applied
    → All (λ a. Known all a.version) applied
All-Known all [] h = tt
All-Known all (a ∷ applied) h = ((h.0.0, h.0.1), All-Known all applied h.1)

-- After a consistent report over a tracking table that is there, whose versions come in ascending
-- order, Down by any n has a plan, and it consists of the first n migrations that the report
-- lists as available for rollback.
pub rollback_available-plan :
    (all : List Migration) (applied : List AppliedMigration) (table scope : Text) (n : ℕ)
    → Ascending (map (λ a. a.version) applied)
    → (build_status all applied table scope true).consistent ≡ true
    → (plan : List Migration) × (rollback_plan all (applied_desc (rows_of applied)) n ≡ some plan)
      × (migration_refs plan
          ≡ take n (build_status all applied table scope true).rollback_available)
rollback_available-plan all applied table scope n up ok =
    let known =
      All-applied_desc (Known all) applied
        (All-Known all applied ((consistent-IsEmbedded all applied table scope).0 ok)) in
    (
      take n (found all (applied_desc (rows_of applied))),
      plan-Known all (applied_desc (rows_of applied)) n known,
      refs-take n (found all (applied_desc (rows_of applied)))
          ∙ ap (take n) (refs-desc all applied up)
          ∙ (unfold build_status in refl),
    )
