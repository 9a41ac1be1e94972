-- ===== src/Outbox/Distinct.antt =====
-- The ids of the rows, and the rows that a claim picks.
use hsync_server.Prelude.{
  ℕ, zero, suc, ◌≡◌, refl, sym, ap, ◌∙◌, Bool, true, false, none, some, List, [], ◌∷◌, ◌++◌, map,
  ◌==◌, nat_eq, nat_eqb_iff, take, keep_if, arith, Bool-cases, Option-cases, inl, inr,
  if◌then◌else◌, eqb_refl,
}
use hsync_server.Outbox.Table.{
  Notification, get_by_id, update_by_id, insert_by, sort_by, taken, take_rows, pick,
}
use hsync_server.Outbox.Lookup.{
  Distinct, KeepsId, get-update, get-take_rows, get-append, get-taken, get-keep_if, get-kept,
  get-insert_by, get-take,
}

pub Distinct-update :
    (i : ℕ) (f : Notification → Notification) (ns : List Notification)
    → KeepsId f
    → Distinct ns
    → Distinct (update_by_id i f ns)
unfolding update_by_id
Distinct-update i f [] k d = d
Distinct-update i f (n ∷ ns) k d =
    (ground (arith, get-update n.id i f ns k, k n, d.0), Distinct-update i f ns k d.1)

pub Distinct-take_rows :
    (now : ℕ) (picked ns : List Notification) → Distinct ns → Distinct (take_rows now picked ns)
unfolding take_rows
Distinct-take_rows now picked [] d = d
Distinct-take_rows now picked (n ∷ ns) d =
    (ground (arith, get-take_rows n.id now picked ns, d.0), Distinct-take_rows now picked ns d.1)

pub Distinct-taken :
    (now : ℕ) (ns : List Notification) → Distinct ns → Distinct (map (taken now) ns)
Distinct-taken now [] d = d
Distinct-taken now (n ∷ ns) d =
    (ground (arith, get-taken n.id now ns, d.0), Distinct-taken now ns d.1)

pub Distinct-append :
    (ns ms : List Notification)
    → Distinct ns
    → Distinct ms
    → ((j : ℕ) (n : Notification) → get_by_id j ns ≡ some n → get_by_id j ms ≡ none)
    → Distinct (ns ++ ms)
unfolding get_by_id
Distinct-append [] ms d e apart = e
Distinct-append (n ∷ ns) ms d e apart = (
  ground (arith, get-append n.id ns ms, d.0, apart n.id n, eqb_refl n.id),
  Distinct-append ns ms d.1 e
      (λ j m found. apart j m (ground (arith, found, d.0, nat_eqb_iff n.id j))),
)

pub Distinct-keep_if :
    (p : Notification → Bool) (ns : List Notification) → Distinct ns → Distinct (keep_if p ns)
unfolding keep_if
Distinct-keep_if p [] d = d
Distinct-keep_if p (n ∷ ns) d = elim (Bool-cases (p n)) [
  | inl kept ↦ rw kept (ground (arith, get-keep_if n.id p ns d.1, d.0), Distinct-keep_if p ns d.1)
  | inr left ↦ rw left (Distinct-keep_if p ns d.1)
]

get-tail :
    (j : ℕ) (m : Notification) (ms : List Notification)
    → get_by_id j (m ∷ ms) ≡ none
    → ((m.id == j) ≡ false) × (get_by_id j ms ≡ none)
unfolding get_by_id
get-tail j m ms e = elim (Bool-cases (m.id == j)) [
  | inl same ↦ absurd (ground arith)
  | inr other ↦ (other, ground arith)
]

Distinct-insert_by :
    (before : Notification → Notification → Bool) (n : Notification) (ns : List Notification)
    → get_by_id n.id ns ≡ none
    → Distinct ns
    → Distinct (insert_by before n ns)
unfolding insert_by
Distinct-insert_by before n [] e d = (e, d)
Distinct-insert_by before n (m ∷ ms) e d =
    let rest = get-tail n.id m ms e in
    elim (Bool-cases (before n m)) [
      | inl first ↦ rw first (e, d)
      | inr later ↦ rw later (
        get-insert_by m.id before n ms rest.1
            ∙ (unfold get_by_id in
                ground (arith, d.0, rest.0, nat_eqb_iff n.id m.id, nat_eqb_iff m.id n.id)),
        Distinct-insert_by before n ms rest.1 d.1,
      )
    ]

pub get-sort_by :
    (j : ℕ) (before : Notification → Notification → Bool) (ns : List Notification)
    → Distinct ns
    → get_by_id j (sort_by before ns) ≡ get_by_id j ns
unfolding sort_by get_by_id
get-sort_by j before [] d = refl
get-sort_by j before (n ∷ ns) d =
    get-insert_by j before n (sort_by before ns) (get-sort_by n.id before ns d.1 ∙ d.0)
    ∙ ap (λ o. if n.id == j then some n else o) (get-sort_by j before ns d.1)

Distinct-sort_by :
    (before : Notification → Notification → Bool) (ns : List Notification)
    → Distinct ns
    → Distinct (sort_by before ns)
unfolding sort_by
Distinct-sort_by before [] d = d
Distinct-sort_by before (n ∷ ns) d =
    Distinct-insert_by before n (sort_by before ns) (get-sort_by n.id before ns d.1 ∙ d.0)
      (Distinct-sort_by before ns d.1)

get-take-none :
    (j k : ℕ) (ns : List Notification) → get_by_id j ns ≡ none → get_by_id j (take k ns) ≡ none
get-take-none j k ns e = elim (Option-cases (get_by_id j (take k ns))) [
  | inl gone ↦ gone
  | inr (n, found) ↦ absurd (ground (arith, get-take j k ns n found))
]

Distinct-take : (k : ℕ) (ns : List Notification) → Distinct ns → Distinct (take k ns)
Distinct-take zero ns d = tt
Distinct-take (suc k) [] d = tt
Distinct-take (suc k) (n ∷ ns) d = (get-take-none n.id k ns d.0, Distinct-take k ns d.1)

pub Distinct-pick :
    (before : Notification → Notification → Bool) (wanted : Notification → Bool) (k : ℕ)
    (ns : List Notification)
    → Distinct ns
    → Distinct (pick before wanted k ns)
unfolding pick
Distinct-pick before wanted k ns d =
    Distinct-take k _ (Distinct-sort_by before _ (Distinct-keep_if wanted ns d))

-- A picked row is a row of the table that the claim wants.
pub get-pick :
    (j : ℕ) (before : Notification → Notification → Bool) (wanted : Notification → Bool) (k : ℕ)
    (ns : List Notification) (n : Notification)
    → Distinct ns
    → get_by_id j (pick before wanted k ns) ≡ some n
    → (get_by_id j ns ≡ some n) × (wanted n ≡ true)
unfolding pick
get-pick j before wanted k ns n d e =
    let sorted = get-take j k (sort_by before (keep_if wanted ns)) n e in
    let kept =
      sym (get-sort_by j before (keep_if wanted ns) (Distinct-keep_if wanted ns d)) ∙ sorted in
    get-kept j wanted ns n d kept
