-- ===== src/Migrate/Sorted.antt =====
-- The sort of Parse.
use hsync_server.Prelude.{
  ℤ, ltb_ℤ, true, false, List, [], ◌∷◌, ◌==◌, ◌≡◌, inl, inr, refl, ◌∙◌, arith, any_if, All,
  Bool-cases, ◌||◌,
}
use hsync_server.Migrate.Parse.{int_eq, insert_ascending, sort_versions}
use hsync_server.Migrate.Parsing.{has_version, OneOf}

abbrev pub Ascending : List ℤ → Type 0
Ascending [] = Unit
Ascending (v ∷ vs) = All (λ w. ltb_ℤ v w ≡ true) vs × Ascending vs

All-insert_ascending :
    (P : ℤ → Type 0) (v : ℤ) (ws : List ℤ) → P v → All P ws → All P (insert_ascending v ws)
unfolding insert_ascending
All-insert_ascending P v [] h a = (h, tt)
All-insert_ascending P v (w ∷ ws) h a = elim (Bool-cases (ltb_ℤ w v)) [
  | inl later ↦ rw later (a.0, All-insert_ascending P v ws h a.1)
  | inr here ↦ rw here (h, a)
]

All-above :
    (v w : ℤ) (ws : List ℤ)
    → ltb_ℤ v w ≡ true
    → All (λ x. ltb_ℤ w x ≡ true) ws
    → All (λ x. ltb_ℤ v x ≡ true) ws
All-above v w [] h a = tt
All-above v w (x ∷ xs) h a = (let b = a.0 in ground arith, All-above v w xs h a.1)

insert-Ascending :
    (v : ℤ) (ws : List ℤ)
    → has_version v ws ≡ false
    → Ascending ws
    → Ascending (insert_ascending v ws)
unfolding insert_ascending any_if
insert-Ascending v [] h a = (tt, tt)
insert-Ascending v (w ∷ ws) h a = elim (Bool-cases (ltb_ℤ w v)) [
  | inl later ↦
      rw later (All-insert_ascending _ v ws later a.0, insert-Ascending v ws (ground arith) a.1)
  | inr here ↦
      let below : ltb_ℤ v w ≡ true = ground arith in
      rw here ((below, All-above v w ws below a.0), a)
]

has_version-insert :
    (x v : ℤ) (ws : List ℤ) → has_version x (insert_ascending v ws) ≡ (v == x || has_version x ws)
unfolding insert_ascending any_if
has_version-insert x v [] = ground arith
has_version-insert x v (w ∷ ws) = ground (arith, has_version-insert x v ws)

pub has_version-sort : (x : ℤ) (vs : List ℤ) → has_version x (sort_versions vs) ≡ has_version x vs
unfolding sort_versions any_if
has_version-sort x [] = refl
has_version-sort x (v ∷ vs) =
    has_version-insert x v (sort_versions vs) ∙ ground (arith, has_version-sort x vs)

pub sort-Ascending : (vs : List ℤ) → OneOf vs → Ascending (sort_versions vs)
unfolding sort_versions
sort-Ascending [] h = tt
sort-Ascending (v ∷ vs) h =
    insert-Ascending v (sort_versions vs) (has_version-sort v vs ∙ h.0) (sort-Ascending vs h.1)
