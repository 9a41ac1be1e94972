-- ===== src/Outbox/Lookup.antt =====
-- The rows of the outbox seen by id: what each statement's pieces do to them.
use hsync_server.Prelude.{
  ℕ, zero, suc, ◌≡◌, refl, sym, ap, ◌∙◌, Bool, true, false, none, some, List, [], ◌∷◌, ◌++◌, map,
  ◌==◌, nat_eq, nat_eqb_iff, take, keep_if, any_if, arith, Bool-cases, Option-cases, inl, inr,
  if◌then◌else◌,
}
use hsync_server.Outbox.Table.{
  Notification, get_by_id, update_by_id, insert_by, taken, has_id, take_rows,
}

-- No id stands twice.
abbrev pub Distinct : List Notification → Type 0
Distinct [] = Unit
Distinct (n ∷ ns) = (get_by_id n.id ns ≡ none) × Distinct ns

abbrev pub KeepsId : (Notification → Notification) → Type 0
KeepsId f = (n : Notification) → (f n).id ≡ n.id

pub get-id :
    (j : ℕ) (ns : List Notification) (n : Notification) → get_by_id j ns ≡ some n → n.id ≡ j
unfolding get_by_id
get-id j [] n e = ground arith
get-id j (m ∷ ms) n e = ground (arith, get-id j ms n, nat_eqb_iff m.id j)

pub get-update :
    (j i : ℕ) (f : Notification → Notification) (ns : List Notification)
    → KeepsId f
    → get_by_id j (update_by_id i f ns)
      ≡ elim (get_by_id j ns) [ none ↦ none | some n ↦ some (if j == i then f n else n) ]
unfolding get_by_id update_by_id
get-update j i f [] k = refl
get-update j i f (n ∷ ns) k =
    ground
      (arith, get-update j i f ns k, k n, nat_eqb_iff n.id j, nat_eqb_iff n.id i, nat_eqb_iff j i)

pub get-take_rows :
    (j now : ℕ) (picked ns : List Notification)
    → get_by_id j (take_rows now picked ns) ≡ elim (get_by_id j ns) [
      | none ↦ none
      | some n ↦ some (if has_id j picked then taken now n else n)
    ]
unfolding get_by_id take_rows
get-take_rows j now picked [] = refl
get-take_rows j now picked (n ∷ ns) =
    ground (arith, get-take_rows j now picked ns, nat_eqb_iff n.id j)

pub get-append :
    (j : ℕ) (ns ms : List Notification)
    → get_by_id j (ns ++ ms) ≡ elim (get_by_id j ns) [ none ↦ get_by_id j ms | some n ↦ some n ]
unfolding get_by_id
get-append j [] ms = refl
get-append j (n ∷ ns) ms = ground (arith, get-append j ns ms)

pub get-taken :
    (j now : ℕ) (ns : List Notification)
    → get_by_id j (map (taken now) ns)
      ≡ elim (get_by_id j ns) [ none ↦ none | some n ↦ some (taken now n) ]
unfolding get_by_id
get-taken j now [] = refl
get-taken j now (n ∷ ns) = ground (arith, get-taken j now ns)

pub get-keep_if :
    (j : ℕ) (p : Notification → Bool) (ns : List Notification)
    → Distinct ns
    → get_by_id j (keep_if p ns)
      ≡ elim (get_by_id j ns) [ none ↦ none | some n ↦ if p n then some n else none ]
unfolding get_by_id keep_if
get-keep_if j p [] d = refl
get-keep_if j p (n ∷ ns) d = ground (arith, get-keep_if j p ns d.1, nat_eqb_iff n.id j, d.0)

pub get-kept :
    (j : ℕ) (p : Notification → Bool) (ns : List Notification) (n : Notification)
    → Distinct ns
    → get_by_id j (keep_if p ns) ≡ some n
    → (get_by_id j ns ≡ some n) × (p n ≡ true)
get-kept j p ns n d e = elim (Option-cases (get_by_id j ns)) [
  | inl gone ↦ absurd (ground (arith, get-keep_if j p ns d))
  | inr (m, found) ↦ elim (Bool-cases (p m)) [
    | inl kept ↦
        let same : m ≡ n = ground (arith, get-keep_if j p ns d) in
        (found ∙ ap some same, ap p (sym same) ∙ kept)
    | inr left ↦ absurd (ground (arith, get-keep_if j p ns d))
  ]
]

pub get-insert_by :
    (j : ℕ) (before : Notification → Notification → Bool) (n : Notification)
    (ns : List Notification)
    → get_by_id n.id ns ≡ none
    → get_by_id j (insert_by before n ns) ≡ (if n.id == j then some n else get_by_id j ns)
unfolding get_by_id insert_by
get-insert_by j before n [] e = refl
get-insert_by j before n (m ∷ ms) e = ground (
  arith,
  get-insert_by j before n ms,
  nat_eqb_iff m.id j,
  nat_eqb_iff n.id j,
  nat_eqb_iff m.id n.id,
)

pub has_id-get :
    (j : ℕ) (ns : List Notification)
    → (has_id j ns) ≡ elim (get_by_id j ns) [ none ↦ false | some n ↦ true ]
unfolding get_by_id any_if
has_id-get j [] = refl
has_id-get j (n ∷ ns) = ground (arith, has_id-get j ns)

pub get-take :
    (j k : ℕ) (ns : List Notification) (n : Notification)
    → get_by_id j (take k ns) ≡ some n
    → get_by_id j ns ≡ some n
unfolding get_by_id
get-take j zero ns n e = ground arith
get-take j (suc k) [] n e = ground arith
get-take j (suc k) (m ∷ ms) n e = ground (arith, get-take j k ms n)
