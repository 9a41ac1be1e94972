-- ===== src/Prelude/Maps.antt =====
-- Go's maps, and tables with a unique key, as association lists.
use mathlib.Core.Path.{◌≡◌, refl}
use mathlib.Core.Bool.{Bool, true}
use mathlib.Core.Logic.{inl, inr}
use mathlib.Core.Option.{Option, none, some}
use mathlib.Core.List.{List, [], ◌∷◌}
use native.Mathlib.Omega.{arith}
use hsync_server.Prelude.Tests.{Eq, ◌==◌, if◌then◌else◌, Bool-cases}
use hsync_server.Prelude.Lists.{keep_if}

abbrev pub Dict {ℓ κ} : Type ℓ → Type κ → Type (ℓ ⊔ κ)
Dict K V = List (K × V)

pub eqb_refl {ℓ} : {K : Type ℓ} ⦃e : Eq K⦄ (k : K) → (k == k) ≡ true
eqb_refl ⦃e⦄ k = (e.same_iff k k).1 refl

module _ {ℓ κ} {K : Type ℓ} {V : Type κ} ⦃e : Eq K⦄ where
  unfoldable pub lookup : K → Dict K V → Option V
  lookup k [] = none
  lookup k ((j, v) ∷ m) = let rest = lookup k m in if j == k then some v else rest

  unfoldable pub delete : K → Dict K V → Dict K V
  delete k [] = []
  delete k ((j, v) ∷ m) = let rest = delete k m in if j == k then rest else (j, v) ∷ rest

  unfoldable pub insert : K → V → Dict K V → Dict K V
  unfolding delete
  insert k v m = (k, v) ∷ delete k m

  pub lookup-delete :
      (k j : K) (m : Dict K V) → lookup j (delete k m) ≡ (if k == j then none else lookup j m)
  unfolding lookup delete
  lookup-delete k j [] = ground arith
  lookup-delete k j ((i, v) ∷ m) =
      ground (arith, lookup-delete k j m, e.same_iff i k, e.same_iff i j, e.same_iff k j)

  pub lookup-insert :
      (k j : K) (v : V) (m : Dict K V)
      → lookup j (insert k v m) ≡ (if k == j then some v else lookup j m)
  unfolding insert lookup
  lookup-insert k j v m = ground (arith, lookup-delete k j m)

-- No key stands twice: what Go's maps and the tables' unique keys give.
module _ {ℓ κ} {K : Type ℓ} {V : Type κ} ⦃e : Eq K⦄ where
  abbrev pub IsMap : Dict K V → Type κ
  IsMap [] = Unit
  IsMap ((k, v) ∷ m) = (lookup k m ≡ none) × IsMap m

  pub IsMap-delete : (k : K) (m : Dict K V) → IsMap m → IsMap (delete k m)
  unfolding delete
  IsMap-delete k [] h = h
  IsMap-delete k ((j, v) ∷ m) h = elim (Bool-cases (j == k)) [
    | inl same ↦ rw same (IsMap-delete k m h.1)
    | inr other ↦
        rw other (unfold lookup in ground (arith, lookup-delete k j m, h.0), IsMap-delete k m h.1)
  ]

  pub IsMap-insert : (k : K) (v : V) (m : Dict K V) → IsMap m → IsMap (insert k v m)
  unfolding insert
  IsMap-insert k v m h = (rw lookup-delete (rw (eqb_refl k)), IsMap-delete k m h)

  pub lookup-keep_if-none :
      (p : K × V → Bool) (k : K) (m : Dict K V) → lookup k m ≡ none → lookup k (keep_if p m) ≡ none
  unfolding lookup keep_if
  lookup-keep_if-none p k [] h = refl
  lookup-keep_if-none p k ((j, v) ∷ m) h = ground (arith, lookup-keep_if-none p k m)

  pub IsMap-keep_if : (p : K × V → Bool) (m : Dict K V) → IsMap m → IsMap (keep_if p m)
  unfolding keep_if
  IsMap-keep_if p [] h = h
  IsMap-keep_if p ((j, v) ∷ m) h = elim (Bool-cases (p (j, v))) [
    | inl kept ↦ rw kept (lookup-keep_if-none p j m h.0, IsMap-keep_if p m h.1)
    | inr dropped ↦ rw dropped (IsMap-keep_if p m h.1)
  ]

  -- A filtered map holds an entry exactly if the map does and the entry passes.
  pub lookup-keep_if :
      (p : K × V → Bool) (k : K) (m : Dict K V)
      → IsMap m
      → lookup k (keep_if p m)
        ≡ elim (lookup k m) [ none ↦ none | some v ↦ if p (k, v) then some v else none ]
  unfolding lookup keep_if
  lookup-keep_if p k [] h = refl
  lookup-keep_if p k ((j, v) ∷ m) h =
      ground (arith, e.same_iff j k, lookup-keep_if p k m, lookup-keep_if-none p k m, h)
