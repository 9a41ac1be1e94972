-- ===== src/Migrate/Parsing.antt =====
-- What Parse returns: its scripts, versions and order.
use mathlib.Core.Path.{subst}
use hsync_server.Prelude.{
  ℤ, eq_of_eqb, Bool, true, false, Option, none, some, List, [], ◌∷◌, ◌++◌, Text, ◌==◌, text_eq,
  text_eqb_iff, Dict, lookup, lookup-insert, insert, ◌≡◌, inl, inr, refl, sym, ap, ◌∙◌, arith,
  any_if, Bool-cases, ◌||◌, Option-cases,
}
use hsync_server.Migrate.Files.{Direction, up, down, FileName}
use hsync_server.Migrate.Parse.{
  int_eqb_iff, int_eq, Pair, Collected, done, set_script, fresh_pair, put_script, add_script,
}

abbrev pub file_of : ℤ → Text → Direction → FileName
file_of v name d = record { version = v; name = name; direction = d }

abbrev pub has_version : ℤ → List ℤ → Bool
has_version v vs = any_if (λ w. w == v) vs

-- No version stands twice.
abbrev pub OneOf : List ℤ → Type 0
OneOf [] = Unit
OneOf (v ∷ vs) = (has_version v vs ≡ false) × OneOf vs

has_version-append :
    (v w : ℤ) (vs : List ℤ) → has_version v (vs ++ w ∷ []) ≡ (has_version v vs || w == v)
unfolding any_if
has_version-append v w [] = ground arith
has_version-append v w (x ∷ vs) = ground (arith, has_version-append v w vs)

OneOf-append : (v : ℤ) (vs : List ℤ) → OneOf vs → has_version v vs ≡ false → OneOf (vs ++ v ∷ [])
unfolding any_if
OneOf-append v [] one h = (refl, tt)
OneOf-append v (w ∷ vs) one h = (
  has_version-append w v vs ∙ ground (arith, one.0, h, int_eqb_iff v w, int_eqb_iff w v),
  OneOf-append v vs one.1 (ground arith),
)

abbrev pub is_some : {A : Type 0} → Option A → Bool
is_some none = false
is_some (some a) = true

-- `Good` says of a file name and a text that a file of the directory has them.
module _ (Good : FileName → Text → Type 0) where
  -- The scripts of a pair are those of files for its version and its name.
  abbrev pub PairGood : ℤ → Pair → Type 0
  PairGood v p =
      ((t : Text) → p.up_script ≡ some t → Good (file_of v p.name up) t)
      × ((t : Text) → p.down_script ≡ some t → Good (file_of v p.name down) t)

  fresh-PairGood : (f : FileName) → PairGood f.version (fresh_pair f)
  unfolding fresh_pair
  fresh-PairGood f = (λ t h. absurd (ground arith), λ t h. absurd (ground arith))

  Good-moved :
      (v : ℤ) (d : Direction) (name name' t t' : Text)
      → name' ≡ name
      → some t ≡ some t'
      → Good (file_of v name d) t
      → Good (file_of v name' d) t'
  Good-moved v d name name' t t' n e g =
      subst (Good (file_of v name' d)) (ground arith)
        (subst (λ x. Good (file_of v x d) t) (sym n) g)

  set-PairGood :
      (v : ℤ) (name text : Text) (d : Direction) (p q : Pair)
      → Good (file_of v name d) text
      → p.name ≡ name
      → set_script d text p ≡ some q
      → PairGood v p
      → PairGood v q
  unfolding set_script
  set-PairGood v name text up p q g n h k =
      let same : record p { up_script = some text } ≡ q = ground arith in
      subst (PairGood v) same ((λ t e. Good-moved v up name p.name text t n e g), k.1)
  set-PairGood v name text down p q g n h k =
      let same : record p { down_script = some text } ≡ q = ground arith in
      subst (PairGood v) same (k.0, (λ t e. Good-moved v down name p.name text t n e g))

  -- The state of the loop: each version stands once in the order, exactly the versions of the
  -- order have a pair, and the pairs are good.
  pub record IsCollected (st : Collected) : Type 0 where
    pub once : OneOf st.order
    pub keyed : (v : ℤ) → has_version v st.order ≡ is_some (lookup v st.pairs)
    pub good : (v : ℤ) (p : Pair) → lookup v st.pairs ≡ some p → PairGood v p

  insert-IsCollected :
      (v : ℤ) (q : Pair) (order : List ℤ) (pairs : Dict ℤ Pair)
      → OneOf order
      → ((w : ℤ) → has_version w order ≡ (v == w || is_some (lookup w pairs)))
      → ((w : ℤ) (p : Pair) → lookup w pairs ≡ some p → PairGood w p)
      → PairGood v q
      → IsCollected (record { pairs = insert v q pairs; order = order })
  insert-IsCollected v q order pairs one keys good k = record {
    once = one;
    keyed = λ w. keys w ∙ ground (arith, lookup-insert v w q pairs);
    good = λ w p e. elim (Bool-cases (v == w)) [
      | inl same ↦
          subst (λ x. PairGood x p) (eq_of_eqb v w same)
            (subst (PairGood v) (ground (arith, lookup-insert v w q pairs)) k)
      | inr other ↦ good w p (ground (arith, lookup-insert v w q pairs))
    ];
  }

  put-IsCollected :
      (f : FileName) (text : Text) (p : Pair) (order : List ℤ) (pairs : Dict ℤ Pair)
      (st : Collected)
      → Good f text
      → PairGood f.version p
      → OneOf order
      → ((v : ℤ) → has_version v order ≡ (f.version == v || is_some (lookup v pairs)))
      → ((v : ℤ) (q : Pair) → lookup v pairs ≡ some q → PairGood v q)
      → put_script f text p order pairs ≡ done st
      → IsCollected st
  unfolding put_script
  put-IsCollected f text p order pairs st g k one keys good h =
      elim (Bool-cases (p.name == f.name)) [
        | inr other ↦ absurd (ground arith)
        | inl same ↦ elim (Option-cases (set_script f.direction text p)) [
          | inl taken ↦ absurd (ground arith)
          | inr (q, set) ↦ subst IsCollected (ground arith) (
              insert-IsCollected f.version q order pairs one keys good (
                set-PairGood f.version f.name text f.direction p q g
                  ((text_eqb_iff p.name f.name).0 same) set k))
        ]
      ]

  pub add-IsCollected :
      (f : FileName) (text : Text) (st st' : Collected)
      → Good f text
      → IsCollected st
      → add_script f text st ≡ done st'
      → IsCollected st'
  unfolding add_script
  add-IsCollected f text st st' g inv h = elim (Option-cases (lookup f.version st.pairs)) [
    | inl absent ↦
        put-IsCollected f text (fresh_pair f) (st.order ++ f.version ∷ []) st.pairs st' g
          (fresh-PairGood f)
          (OneOf-append f.version st.order inv.once (inv.keyed f.version ∙ ap is_some absent))
          (λ v. has_version-append v f.version st.order ∙ ground (arith, inv.keyed v)) inv.good
          (ground arith)
    | inr (p, found) ↦
        put-IsCollected f text p st.order st.pairs st' g (inv.good f.version p found) inv.once
          (λ v.
            inv.keyed v
            ∙ ground (arith, found, int_eqb_iff f.version v, ap (λ w. lookup w st.pairs)))
          inv.good (ground arith)
  ]
