-- ===== src/Migrate/Order.antt =====
-- The applied versions in descending order, and what is left of them when rows go.
use mathlib.Core.Path.{subst}
use hsync_server.Prelude.{
  ◌≡◌, refl, sym, ap, ◌∙◌, ℤ, ltb_ℤ, leb_ℤ, eqb_ℤ, Bool, true, false, not, List, [], ◌∷◌, Text,
  keep_if, any_if, arith, Bool-cases, inl, inr, if◌then◌else◌, All, All-keep_if,
}
use hsync_server.Migrate.Plan.{Rows, is_applied, insert_version, applied_desc}

abbrev pub Desc : List ℤ → Type 0
Desc [] = Unit
Desc (v ∷ vs) = All (λ w. ltb_ℤ w v ≡ true) vs × Desc vs

-- The tracking table's primary key: no version stands twice.
abbrev pub OneRow : Rows → Type 0
OneRow [] = Unit
OneRow ((v, name) ∷ rows) = (is_applied rows v ≡ false) × OneRow rows

insert_top : (v : ℤ) (ws : List ℤ) → All (λ w. ltb_ℤ w v ≡ true) ws → insert_version v ws ≡ v ∷ ws
unfolding insert_version
insert_top v [] h = refl
insert_top v (w ∷ ws) h = let a = h.0 in ground arith

All-below :
    (v w : ℤ) (ws : List ℤ)
    → ltb_ℤ w v ≡ true
    → All (λ x. ltb_ℤ x w ≡ true) ws
    → All (λ x. ltb_ℤ x v ≡ true) ws
All-below v w [] h a = a
All-below v w (x ∷ xs) h a = (let b = a.0 in ground arith, All-below v w xs h a.1)

pub All-insert_version :
    (P : ℤ → Type 0) (v : ℤ) (ws : List ℤ) → P v → All P ws → All P (insert_version v ws)
unfolding insert_version
All-insert_version P v [] h a = (h, tt)
All-insert_version P v (w ∷ ws) h a = elim (Bool-cases (leb_ℤ w v)) [
  | inl here ↦ rw here (h, a)
  | inr later ↦ rw later (a.0, All-insert_version P v ws h a.1)
]

Desc-insert_version :
    (v : ℤ) (ws : List ℤ) → All (λ w. eqb_ℤ w v ≡ false) ws → Desc ws → Desc (insert_version v ws)
unfolding insert_version
Desc-insert_version v [] new d = (tt, tt)
Desc-insert_version v (w ∷ ws) new d = elim (Bool-cases (leb_ℤ w v)) [
  | inl here ↦
      let below : ltb_ℤ w v ≡ true = let n = new.0 in ground arith in
      rw here ((below, All-below v w ws below d.0), d)
  | inr later ↦ rw later (
    All-insert_version (λ x. ltb_ℤ x w ≡ true) v ws (ground arith) d.0,
    Desc-insert_version v ws new.1 d.1,
  )
]

All-new :
    (v : ℤ) (rows : Rows)
    → is_applied rows v ≡ false
    → All (λ w. eqb_ℤ w v ≡ false) (applied_desc rows)
unfolding any_if applied_desc
All-new v [] h = tt
All-new v ((w, name) ∷ rows) h =
    All-insert_version (λ x. eqb_ℤ x v ≡ false) w (applied_desc rows) (ground arith)
      (All-new v rows (ground arith))

pub Desc-applied_desc : (rows : Rows) → OneRow rows → Desc (applied_desc rows)
unfolding applied_desc
Desc-applied_desc [] h = tt
Desc-applied_desc ((v, name) ∷ rows) h =
    Desc-insert_version v (applied_desc rows) (All-new v rows h.0) (Desc-applied_desc rows h.1)

keep-insert_version :
    (p : ℤ → Bool) (v : ℤ) (ws : List ℤ)
    → All (λ w. eqb_ℤ w v ≡ false) ws
    → Desc ws
    → keep_if p (insert_version v ws)
      ≡ (if p v then insert_version v (keep_if p ws) else keep_if p ws)
unfolding insert_version keep_if
keep-insert_version p v [] new d = ground arith
keep-insert_version p v (w ∷ ws) new d = elim (Bool-cases (leb_ℤ w v)) [
  | inl here ↦
      let below : ltb_ℤ w v ≡ true = let n = new.0 in ground arith in
      let all : All (λ x. ltb_ℤ x v ≡ true) (w ∷ ws) = (below, All-below v w ws below d.0) in
      let top =
        insert_top v (keep_if p (w ∷ ws)) (All-keep_if (λ x. ltb_ℤ x v ≡ true) p (w ∷ ws) all) in
      ground arith
  | inr later ↦ let rest = keep-insert_version p v ws new.1 d.1 in ground arith
]

pub applied_desc-keep_if :
    (p : ℤ → Bool) (rows : Rows)
    → OneRow rows
    → applied_desc (keep_if (λ r. p r.0) rows) ≡ keep_if p (applied_desc rows)
unfolding applied_desc keep_if
applied_desc-keep_if p [] h = refl
applied_desc-keep_if p ((v, name) ∷ rows) h =
    let this =
      keep-insert_version p v (applied_desc rows) (All-new v rows h.0)
        (Desc-applied_desc rows h.1) in
    let rest = applied_desc-keep_if p rows h.1 in
    elim (Bool-cases (p v)) [
      | inl kept ↦ rw kept (ap (insert_version v) rest ∙ sym (this ∙ rw kept refl))
      | inr left ↦ rw left (rest ∙ sym (this ∙ rw left refl))
    ]

keep-below :
    (v : ℤ) (ws : List ℤ) → All (λ w. ltb_ℤ w v ≡ true) ws → keep_if (λ w. not (eqb_ℤ w v)) ws ≡ ws
unfolding keep_if
keep-below v [] h = refl
keep-below v (w ∷ ws) h = let a = h.0 in let rest = keep-below v ws h.1 in ground arith

-- Without the highest version the others are left, in their order.
pub highest_gone :
    (v : ℤ) (vs : List ℤ) (rows : Rows)
    → OneRow rows
    → applied_desc rows ≡ v ∷ vs
    → applied_desc (keep_if (λ r. not (eqb_ℤ r.0 v)) rows) ≡ vs
highest_gone v vs rows one e =
    let d : Desc (v ∷ vs) = subst Desc e (Desc-applied_desc rows one) in
    applied_desc-keep_if (λ w. not (eqb_ℤ w v)) rows one
    ∙ ap (keep_if (λ w. not (eqb_ℤ w v))) e
    ∙ (unfold keep_if in let rest = keep-below v vs d.0 in ground arith)

is_applied-keep_if :
    (v : ℤ) (p : ℤ × Text → Bool) (rows : Rows)
    → is_applied rows v ≡ false
    → is_applied (keep_if p rows) v ≡ false
unfolding any_if keep_if
is_applied-keep_if v p [] h = h
is_applied-keep_if v p (r ∷ rows) h = ground (arith, is_applied-keep_if v p rows)

pub OneRow-keep_if : (p : ℤ × Text → Bool) (rows : Rows) → OneRow rows → OneRow (keep_if p rows)
unfolding keep_if
OneRow-keep_if p [] h = h
OneRow-keep_if p ((v, name) ∷ rows) h = elim (Bool-cases (p (v, name))) [
  | inl kept ↦ rw kept (is_applied-keep_if v p rows h.0, OneRow-keep_if p rows h.1)
  | inr left ↦ rw left (OneRow-keep_if p rows h.1)
]
