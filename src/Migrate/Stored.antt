-- ===== src/Migrate/Stored.antt =====
-- Parse's loop and the scripts that it has read.
use mathlib.Core.Path.{subst}
use hsync_server.Prelude.{
  ℤ, eq_of_eqb, Option, some, List, [], ◌∷◌, ◌++◌, Text, ◌==◌, eqb_refl, Dict, lookup,
  lookup-insert, insert, ◌≡◌, inl, inr, sym, ap, ◌∙◌, arith, Bool-cases, Option-cases, text_eq,
  text_eqb_iff,
}
use hsync_server.Migrate.Files.{Direction, up, down, FileName}
use hsync_server.Migrate.Parse.{
  int_eq, Entry, Reading, skipped, broken, script, read_entry, Pair, Collected, failed, done,
  set_script, fresh_pair, put_script, add_script, add_entry, collect,
}
use hsync_server.Migrate.Directory.{Outcome-cases, Holds}

abbrev pub script_in : Direction → Pair → Option Text
script_in up p = p.up_script
script_in down p = p.down_script

-- A file's script stands in the pair of its version, under its name.
abbrev pub Stored : Collected → FileName → Text → Type 0
Stored st f t =
    (p : Pair) × (lookup f.version st.pairs ≡ some p)
    × (p.name ≡ f.name)
    × (script_in f.direction p ≡ some t)

set-stores :
    (d : Direction) (text : Text) (p q : Pair)
    → set_script d text p ≡ some q
    → (script_in d q ≡ some text) × (q.name ≡ p.name)
unfolding set_script
set-stores up text p q h = (ground arith, ground arith)
set-stores down text p q h = (ground arith, ground arith)

set-keeps :
    (d k : Direction) (text u : Text) (p q : Pair)
    → set_script d text p ≡ some q
    → script_in k p ≡ some u
    → script_in k q ≡ some u
unfolding set_script
set-keeps up up text u p q h e = absurd (ground arith)
set-keeps up down text u p q h e = ground arith
set-keeps down up text u p q h e = ground arith
set-keeps down down text u p q h e = absurd (ground arith)

-- What the loop's body does to the pairs, where it does not fail.
put-done :
    (f : FileName) (text : Text) (p : Pair) (order : List ℤ) (pairs : Dict ℤ Pair) (st : Collected)
    → put_script f text p order pairs ≡ done st
    → (q : Pair) × (set_script f.direction text p ≡ some q)
      × (p.name ≡ f.name)
      × (st ≡ record { pairs = insert f.version q pairs; order = order })
unfolding put_script
put-done f text p order pairs st h = elim (Bool-cases (p.name == f.name)) [
  | inr other ↦ absurd (ground arith)
  | inl same ↦ elim (Option-cases (set_script f.direction text p)) [
    | inl taken ↦ absurd (ground arith)
    | inr (q, set) ↦ (q, set, (text_eqb_iff p.name f.name).0 same, ground arith)
  ]
]

put-stores :
    (f : FileName) (text : Text) (p : Pair) (order : List ℤ) (pairs : Dict ℤ Pair) (st : Collected)
    → put_script f text p order pairs ≡ done st
    → Stored st f text
put-stores f text p order pairs st h =
    let (q, set, same, is) = put-done f text p order pairs st h in
    let (has, kept) = set-stores f.direction text p q set in
    (
      q,
      ap (λ s. lookup f.version s.pairs) is
          ∙ ground (arith, lookup-insert f.version f.version q pairs, eqb_refl f.version),
      kept ∙ same,
      has,
    )

put-keeps :
    (f g : FileName) (text u : Text) (p : Pair) (st st' : Collected) (order : List ℤ)
    → ((r : Pair) → lookup f.version st.pairs ≡ some r → r ≡ p)
    → put_script f text p order st.pairs ≡ done st'
    → Stored st g u
    → Stored st' g u
put-keeps f g text u p st st' order old h (r, found, named, has) =
    let (q, set, same, is) = put-done f text p order st.pairs st' h in
    elim (Bool-cases (f.version == g.version)) [
      | inl one ↦
          let e : f.version ≡ g.version = eq_of_eqb f.version g.version one in
          let rp : r ≡ p = old r (ap (λ v. lookup v st.pairs) e ∙ found) in
          (
            q,
            ap (λ s. lookup g.version s.pairs) is
                ∙ ground (arith, lookup-insert f.version g.version q st.pairs, one),
            (set-stores f.direction text p q set).1 ∙ sym (ap (λ x. x.name) rp) ∙ named,
            set-keeps f.direction g.direction text u p q set
                (ap (script_in g.direction) (sym rp) ∙ has),
          )
      | inr other ↦ (
        r,
        ap (λ s. lookup g.version s.pairs) is
            ∙ ground (arith, lookup-insert f.version g.version q st.pairs, other, found),
        named,
        has,
      )
    ]

add-stores :
    (f : FileName) (text : Text) (st st' : Collected)
    → add_script f text st ≡ done st'
    → Stored st' f text
unfolding add_script
add-stores f text st st' h = elim (Option-cases (lookup f.version st.pairs)) [
  | inl absent ↦
      put-stores f text (fresh_pair f) (st.order ++ f.version ∷ []) st.pairs st' (ground arith)
  | inr (p, found) ↦ put-stores f text p st.order st.pairs st' (ground arith)
]

add-keeps :
    (f g : FileName) (text u : Text) (st st' : Collected)
    → add_script f text st ≡ done st'
    → Stored st g u
    → Stored st' g u
unfolding add_script
add-keeps f g text u st st' h s = elim (Option-cases (lookup f.version st.pairs)) [
  | inl absent ↦
      put-keeps f g text u (fresh_pair f) st st' (st.order ++ f.version ∷ [])
        (λ r e. absurd (ground arith)) (ground arith) s
  | inr (p, found) ↦ put-keeps f g text u p st st' st.order (λ r e. ground arith) (ground arith) s
]

entry-keeps :
    (e : Entry) (g : FileName) (u : Text) (st st' : Collected)
    → add_entry e st ≡ done st'
    → Stored st g u
    → Stored st' g u
unfolding add_entry
entry-keeps e g u st st' h s = go (read_entry e) h
  where
    go :
        (r : Reading)
        → elim r [ skipped ↦ done st | broken x ↦ failed x | script f text ↦ add_script f text st ]
          ≡ done st'
        → Stored st' g u
    go skipped h = subst (λ x. Stored x g u) {x = st} {y = st'} (ground arith) s
    go (broken x) h = absurd (ground arith)
    go (script f text) h = add-keeps f g text u st st' h s

collect-keeps :
    (es : List Entry) (g : FileName) (u : Text) (st st' : Collected)
    → collect es st ≡ done st'
    → Stored st g u
    → Stored st' g u
unfolding collect
collect-keeps [] g u st st' h s = subst (λ x. Stored x g u) {x = st} {y = st'} (ground arith) s
collect-keeps (e ∷ es) g u st st' h s = elim (Outcome-cases (add_entry e st)) [
  | inl (x, bad) ↦ absurd (ground arith)
  | inr (mid, fine) ↦ collect-keeps es g u mid st' (ground arith) (entry-keeps e g u st mid fine s)
]

pub collect-stores :
    (es : List Entry) (g : FileName) (u : Text) (st st' : Collected)
    → collect es st ≡ done st'
    → Holds es g u
    → Stored st' g u
unfolding collect
collect-stores [] g u st st' h held = absurd held
collect-stores (e ∷ es) g u st st' h held = elim (Outcome-cases (add_entry e st)) [
  | inl (x, bad) ↦ absurd (ground arith)
  | inr (mid, fine) ↦ elim held [
    | inl here ↦
        collect-keeps es g u mid st' (ground arith)
          (add-stores g u st mid (unfold add_entry in ground arith))
    | inr later ↦ collect-stores es g u mid st' (ground arith) later
  ]
]
