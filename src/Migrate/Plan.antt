-- ===== src/Migrate/Plan.antt =====
-- pkg/migrate/migrate.go: the plans, over the migrations that Parse returns. A row of the tracking
-- table is a version and a name.
use hsync_server.Prelude.{
  ℕ, zero, suc, ℤ, pos, ◌+ℤ◌, wrap64, ltb_ℤ, leb_ℤ, eqb_ℤ, Bool, not, Option, none, some, List, [],
  ◌∷◌, Text, if◌then◌else◌, keep_if, any_if,
}

pub record Migration : Type 0 where
  pub version : ℤ
  pub name : Text
  pub up : Text
  pub down : Text

abbrev pub Rows : Type 0
Rows = List (ℤ × Text)

-- applied[version]
abbrev pub is_applied : Rows → ℤ → Bool
is_applied rows version = any_if (λ r. eqb_ℤ r.0 version) rows

-- Pending
unfoldable pub pending_of_all : List Migration → Rows → List Migration
pending_of_all all rows = keep_if (λ m. not (is_applied rows m.version)) all

-- byVersion[version]: of two with one version the later one stands in the map.
unfoldable pub by_version : ℤ → List Migration → Option Migration
by_version version [] = none
by_version version (m ∷ ms) =
    let later = by_version version ms in
    elim later [ some n ↦ some n | none ↦ if eqb_ℤ m.version version then some m else none ]

-- RollbackPlan; none for an applied version that has no definition.
unfoldable pub rollback_plan : List Migration → List ℤ → ℕ → Option (List Migration)
rollback_plan all [] n = some []
rollback_plan all (v ∷ vs) zero = some []
rollback_plan all (v ∷ vs) (suc n) =
    let rest = rollback_plan all vs n in
    elim (by_version v all) [
      | none ↦ none
      | some m ↦ elim rest [ none ↦ none | some ms ↦ some (m ∷ ms) ]
    ]

abbrev pub max_version : ℤ → List Migration → ℤ
max_version max [] = max
max_version max (m ∷ ms) = max_version (if ltb_ℤ max m.version then m.version else max) ms

-- NextVersion
unfoldable pub next_version : List Migration → ℤ
next_version all = wrap64 (max_version (pos 0) all +ℤ pos 1)

-- ORDER BY version DESC
unfoldable pub insert_version : ℤ → List ℤ → List ℤ
insert_version v [] = v ∷ []
insert_version v (w ∷ ws) =
    let later = insert_version v ws in if leb_ℤ w v then v ∷ w ∷ ws else w ∷ later

-- appliedVersions' second result.
unfoldable pub applied_desc : Rows → List ℤ
applied_desc [] = []
applied_desc ((v, name) ∷ rows) = insert_version v (applied_desc rows)
