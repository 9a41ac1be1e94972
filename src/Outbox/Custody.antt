-- ===== src/Outbox/Custody.antt =====
-- The workers' custody of the notifications they have claimed.
use hsync_server.Prelude.{
  ℕ, ◌<◌, ◌≡◌, refl, sym, ap, ◌∙◌, not, none, some, List, ◌++◌, map, ◌==◌, nat_eq, nat_eqb_iff,
  arith, Bool-cases, Option-cases, inl, inr, ◌⊎◌, if◌then◌else◌,
}
use hsync_server.Outbox.Table.{
  Notification, pending, processing, failed, get_by_id, update_by_id, claim_picked, take_rows,
  taken, has_id,
}
use hsync_server.Outbox.Delivery.{max_attempts}
use hsync_server.Outbox.Distinct.{
  Distinct-update, Distinct-take_rows, Distinct-taken, Distinct-append, Distinct-keep_if,
}
use hsync_server.Outbox.Lookup.{
  Distinct, KeepsId, get-id, get-update, get-take_rows, get-append, get-taken, get-kept, has_id-get,
}
use hsync_server.Outbox.System.{Queue, let_go, hold, Kept, IsQueue}

-- A row that a claim may take.
abbrev pub Free : List Notification → List Notification → Type 0
Free picked rows =
    (j : ℕ) (n : Notification)
    → get_by_id j picked ≡ some n
    → (get_by_id j rows ≡ some n) × ((n.status ≡ pending) ⊎ (n.status ≡ failed))

-- A free row is not held.
Free-apart :
    (q : Queue) (picked : List Notification) (j : ℕ) (p : Notification)
    → IsQueue q
    → Free picked q.rows
    → get_by_id j picked ≡ some p
    → get_by_id j q.held ≡ none
Free-apart q picked j p g free e = elim (Option-cases (get_by_id j q.held)) [
  | inl gone ↦ gone
  | inr (i, h) ↦
      let (n, found, proc, _) = g.kept j i h in
      let (row, st) = free j p e in
      let here : get_by_id j q.rows ≡ some n =
        ap (λ x. get_by_id x q.rows) (sym (get-id j q.held i h)) ∙ found in
      let same : p ≡ n = ground arith in
      elim st [ inl a ↦ absurd (ground arith) | inr b ↦ absurd (ground arith) ]
]

-- What an id reads after an update: the old row, or what the update makes of it.
updated_row :
    (j id : ℕ) (f : Notification → Notification) (rows : List Notification) (n : Notification)
    → KeepsId f
    → get_by_id j (update_by_id id f rows) ≡ some n
    → (m : Notification) × (get_by_id j rows ≡ some m) × (n ≡ (if j == id then f m else m))
updated_row j id f rows n k e = elim (Option-cases (get_by_id j rows)) [
  | inl gone ↦ absurd (ground (arith, get-update j id f rows k))
  | inr (m, found) ↦ (m, found, ground (arith, get-update j id f rows k))
]

taken_row :
    (j now : ℕ) (picked rows : List Notification) (n : Notification)
    → get_by_id j (take_rows now picked rows) ≡ some n
    → (m : Notification) × (get_by_id j rows ≡ some m)
      × (n ≡ (if has_id j picked then taken now m else m))
taken_row j now picked rows n e = elim (Option-cases (get_by_id j rows)) [
  | inl gone ↦ absurd (ground (arith, get-take_rows j now picked rows))
  | inr (m, found) ↦ (m, found, ground (arith, get-take_rows j now picked rows))
]

picked_before :
    (j now : ℕ) (picked : List Notification) (n : Notification)
    → get_by_id j (map (taken now) picked) ≡ some n
    → (p : Notification) × (get_by_id j picked ≡ some p) × (n ≡ taken now p)
picked_before j now picked n e = elim (Option-cases (get_by_id j picked)) [
  | inl gone ↦ absurd (ground (arith, get-taken j now picked))
  | inr (p, found) ↦ (p, found, ground (arith, get-taken j now picked))
]

-- The row of a picked item after the claim.
picked_row :
    (rows : List Notification) (now : ℕ) (picked : List Notification) (j : ℕ) (p : Notification)
    → get_by_id j rows ≡ some p
    → get_by_id j picked ≡ some p
    → get_by_id j (take_rows now picked rows) ≡ some (taken now p)
picked_row rows now picked j p row here =
    ground (arith, get-take_rows j now picked rows, has_id-get j picked)

Kept-taken :
    (q : Queue) (now : ℕ) (picked : List Notification) (j : ℕ) (i : Notification)
    → IsQueue q
    → Free picked q.rows
    → get_by_id j (map (taken now) picked ++ q.held) ≡ some i
    → Kept (take_rows now picked q.rows) i
Kept-taken q now picked j i g free e = elim (Option-cases (get_by_id j (map (taken now) picked))) [
  | inl old ↦
      let held : get_by_id j q.held ≡ some i =
        ground (arith, get-append j (map (taken now) picked) q.held) in
      let (n, found, proc, count) = g.kept j i held in
      elim (Bool-cases (has_id i.id picked)) [
        | inl again ↦ (
          taken now n,
          get-take_rows i.id now picked q.rows ∙ simp (found, again) refl,
          refl,
          count,
        )
        | inr other ↦
            (n, get-take_rows i.id now picked q.rows ∙ simp (found, other) refl, proc, count)
      ]
  | inr (c, new) ↦
      let (p, here, form) = picked_before j now picked c new in
      let same : c ≡ i = ground (arith, get-append j (map (taken now) picked) q.held) in
      let at : i.id ≡ j = ap (λ x. x.id) (sym same ∙ form) ∙ get-id j picked p here in
      (
        taken now p,
        rw at (picked_row q.rows now picked j p (free j p here).0 here),
        refl,
        ap (λ x. x.attempt_count) (sym form ∙ same),
      )
]

pub claimed-IsQueue :
    (q : Queue) (now : ℕ) (picked : List Notification)
    → IsQueue q
    → Distinct picked
    → Free picked q.rows
    → IsQueue (hold (claim_picked now picked q.rows) q.held)
unfolding claim_picked
claimed-IsQueue q now picked g d free = record {
  distinct = Distinct-take_rows now picked q.rows g.distinct;
  exclusive = Distinct-append _ _ (Distinct-taken now picked d) g.exclusive (λ j n e.
      let (p, here, _) = picked_before j now picked n e in Free-apart q picked j p g free here);
  kept = λ j i e. Kept-taken q now picked j i g free e;
  bounded = λ j n e p.
      let (m, row, form) = taken_row j now picked q.rows n e in ground (arith, g.bounded j m row);
}

-- An update that leaves the rows that are being processed alone.
pub idle-IsQueue :
    (q : Queue) (id : ℕ) (f : Notification → Notification)
    → KeepsId f
    → ((n : Notification) → n.status ≡ processing → f n ≡ n)
    → ((n : Notification)
        → (n.status ≡ pending → n.attempt_count < max_attempts)
        → (f n).status ≡ pending
        → (f n).attempt_count < max_attempts)
    → IsQueue q
    → IsQueue (record q { rows = update_by_id id f q.rows })
idle-IsQueue q id f k quiet few g = record {
  distinct = Distinct-update id f q.rows k g.distinct;
  exclusive = g.exclusive;
  kept = λ j i e.
      let (n, found, proc, count) = g.kept j i e in
      (
        n,
        get-update i.id id f q.rows k
            ∙ simp (found, quiet n proc)
                (elim (Bool-cases (i.id == id)) [ inl a ↦ simp a refl | inr b ↦ simp b refl ]),
        proc,
        count,
      );
  bounded = λ j n e p.
      let (m, row, form) = updated_row j id f q.rows n k e in
      elim (Bool-cases (j == id)) [
        | inl same ↦
            let eq : n ≡ f m = ground arith in
            let left : (f m).attempt_count < max_attempts =
              few m (g.bounded j m row) (ap (λ x. x.status) (sym eq) ∙ p) in
            ground arith
        | inr other ↦ ground (arith, g.bounded j m row)
      ];
}

pub dropped-IsQueue :
    (q : Queue) (id : ℕ) → IsQueue q → IsQueue (record q { held = let_go id q.held })
dropped-IsQueue q id g = record {
  distinct = g.distinct;
  exclusive = Distinct-keep_if _ q.held g.exclusive;
  kept = λ j i e. g.kept j i (get-kept j _ q.held i g.exclusive e).0;
  bounded = g.bounded;
}

-- The mark of a held item, which lets it go.
pub released-IsQueue :
    (q : Queue) (item : Notification) (f : Notification → Notification)
    → KeepsId f
    → get_by_id item.id q.held ≡ some item
    → ((n : Notification)
        → n.attempt_count ≡ item.attempt_count
        → (f n).status ≡ pending
        → (f n).attempt_count < max_attempts)
    → IsQueue q
    → IsQueue (record { rows = update_by_id item.id f q.rows; held = let_go item.id q.held })
released-IsQueue q item f k mine few g = record {
  distinct = Distinct-update item.id f q.rows k g.distinct;
  exclusive = Distinct-keep_if _ q.held g.exclusive;
  kept = λ j i e.
      let (held, other) = get-kept j (λ x. not (x.id == item.id)) q.held i g.exclusive e in
      let (n, found, proc, count) = g.kept j i held in
      (n, get-update i.id item.id f q.rows k ∙ ground (arith, other), proc, count);
  bounded = λ j n e p.
      let (m, row, form) = updated_row j item.id f q.rows n k e in
      let (o, found, proc, count) = g.kept item.id item mine in
      ground (arith, few m, g.bounded j m row, nat_eqb_iff j item.id);
}
