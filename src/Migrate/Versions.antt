-- ===== src/Migrate/Versions.antt =====
-- The version that a new migration gets.
use hsync_server.Prelude.{
  ◌^◌, ◌-◌, ◌≡◌, ℤ, pos, negsuc, ltb_ℤ, leb_ℤ, ◌+ℤ◌, wrap64_of_InInt64, InInt64, true, List, [],
  ◌∷◌, arith, if◌then◌else◌, All,
}
use hsync_server.Migrate.Plan.{Migration, max_version, next_version}

-- A version that is not the last of int64.
abbrev pub HasNext : Migration → Type 0
HasNext m = ltb_ℤ m.version (pos (2 ^ 63 - 1)) ≡ true

max_lem :
    (max : ℤ) (ms : List Migration)
    → leb_ℤ (pos 0) max ≡ true
    → ltb_ℤ max (pos (2 ^ 63 - 1)) ≡ true
    → All HasNext ms
    → (leb_ℤ max (max_version max ms) ≡ true)
      × (ltb_ℤ (max_version max ms) (pos (2 ^ 63 - 1)) ≡ true)
      × All (λ m. leb_ℤ m.version (max_version max ms) ≡ true) ms
max_lem max [] p h a = (ground arith, h, tt)
max_lem max (m ∷ ms) p h a =
    let fits = a.0 in
    let (up, small, below) =
      max_lem (if ltb_ℤ max m.version then m.version else max) ms (ground arith) (ground arith)
        a.1 in
    (ground arith, small, (ground arith, below))

weaken :
    (a b : ℤ) (ms : List Migration)
    → ((v : ℤ) → leb_ℤ v a ≡ true → ltb_ℤ v b ≡ true)
    → All (λ m. leb_ℤ m.version a ≡ true) ms
    → All (λ m. ltb_ℤ m.version b ≡ true) ms
weaken a b [] f h = tt
weaken a b (m ∷ ms) f h = (f m.version h.0, weaken a b ms f h.1)

next_fits :
    (m : ℤ) → leb_ℤ (pos 0) m ≡ true → ltb_ℤ m (pos (2 ^ 63 - 1)) ≡ true → InInt64 (m +ℤ pos 1)
unfolding ◌+ℤ◌
next_fits (pos n) p h = (ground arith, ground arith)
next_fits (negsuc n) p h = absurd (ground arith)

next_above : (m v : ℤ) → leb_ℤ (pos 0) m ≡ true → leb_ℤ v m ≡ true → ltb_ℤ v (m +ℤ pos 1) ≡ true
unfolding ◌+ℤ◌
next_above (pos n) v p h = ground arith
next_above (negsuc n) v p h = absurd (ground arith)

-- Where no version is the last of int64, the next version is positive and above every version
-- there is, so that the new migration's file names no version twice.
pub next_version_lem :
    (all : List Migration)
    → All HasNext all
    → (ltb_ℤ (pos 0) (next_version all) ≡ true)
      × All (λ m. ltb_ℤ m.version (next_version all) ≡ true) all
unfolding next_version
next_version_lem all a =
    let (up, small, below) = max_lem (pos 0) all (ground arith) (ground arith) a in
    rw
      (wrap64_of_InInt64 (max_version (pos 0) all +ℤ pos 1)
        (next_fits (max_version (pos 0) all) up small))
      (
        next_above (max_version (pos 0) all) (pos 0) up up,
        weaken (max_version (pos 0) all) _ all (λ v h. next_above (max_version (pos 0) all) v up h)
            below,
      )
