-- ===== src/Idempotency/Rows.antt =====
-- The table's rows seen by key: what each statement changes, and what identifies a row.
use hsync_server.Prelude.{
  ℕ, ◌+◌, ◌<◌, ◌≡◌, refl, sym, ◌∙◌, none, some, List, [], ◌∷◌, Text, ◌==◌, text_eq, nat_eq, pair_eq,
  pair_eqb_iff, nat_eqb_iff, Bool-cases, Option-cases, inl, inr, arith, if◌then◌else◌,
}
use hsync_server.Idempotency.Table.{
  Row, Table, empty, ClaimParams, ClaimStatus, started, new_row, reclaimed_row, find, update, claim,
  claim_by, verdict,
}

-- An update of a row keeps its key and its id.
pub record KeepsKey (f : Row → Row) : Type 0 where
  pub key : (r : Row) → (f r).key ≡ r.key
  pub id : (r : Row) → (f r).id ≡ r.id

pub find-key : (k : Text × Text) (rows : List Row) (r : Row) → find k rows ≡ some r → r.key ≡ k
unfolding find
find-key k [] r e = ground arith
find-key k (x ∷ xs) r e = ground (arith, pair_eqb_iff x.key k, find-key k xs r)

-- An update by id is seen through each key whose row has that id.
pub find-update :
    (k : Text × Text) (id : ℕ) (f : Row → Row) (rows : List Row)
    → KeepsKey f
    → find k (update id f rows)
      ≡ elim (find k rows) [ none ↦ none | some r ↦ some (if r.id == id then f r else r) ]
unfolding find update
find-update k id f [] kk = refl
find-update k id f (x ∷ xs) kk = ground (arith, find-update k id f xs kk, kk.key x)

-- Ids are below the next one, and no two keys share one.
pub record IsTable (t : Table) : Type 0 where
  pub below : (k : Text × Text) (r : Row) → find k t.rows ≡ some r → r.id < t.next_id
  pub unique :
      (k j : Text × Text) (r s : Row)
      → find k t.rows ≡ some r
      → find j t.rows ≡ some s
      → r.id ≡ s.id
      → k ≡ j

pub empty-IsTable : IsTable empty
unfolding find
empty-IsTable = record { below = λ k r e. cc; unique = λ k j r s e. cc }

updated_from :
    (k : Text × Text) (id : ℕ) (f : Row → Row) (rows : List Row) (r : Row)
    → KeepsKey f
    → find k (update id f rows) ≡ some r
    → (o : Row) × (find k rows ≡ some o) × (o.id ≡ r.id)
updated_from k id f rows r kk e = elim (Option-cases (find k rows)) [
  | inl gone ↦ absurd (ground (arith, find-update k id f rows kk))
  | inr (o, found) ↦ (o, found, ground (arith, find-update k id f rows kk, kk.id o))
]

pub update-IsTable :
    (t : Table) (id : ℕ) (f : Row → Row)
    → KeepsKey f
    → IsTable t
    → IsTable (record t { rows = update id f t.rows })
update-IsTable t id f kk h = record {
  below = λ k r e.
      let (o, found, same) = updated_from k id f t.rows r kk e in omega (arith, h.below k o found);
  unique = λ k j r s e e' same.
      let (o, found, i) = updated_from k id f t.rows r kk e in
      let (o', found', i') = updated_from j id f t.rows s kk e' in
      h.unique k j o o' found found' (i ∙ same ∙ sym i');
}

-- The row of a key after an update by the id of a row that the table has.
pub slot-update :
    (t : Table) (k j : Text × Text) (r : Row) (f : Row → Row)
    → KeepsKey f
    → IsTable t
    → find k t.rows ≡ some r
    → find j (update r.id f t.rows) ≡ (if k == j then some (f r) else find j t.rows)
slot-update t k j r f kk h e = elim (Option-cases (find j t.rows)) [
  | inl gone ↦ ground (arith, find-update j r.id f t.rows kk, pair_eqb_iff k j)
  | inr (s, found) ↦ elim (Bool-cases (s.id == r.id)) [
    | inl same ↦
        let k≡j : k ≡ j = h.unique k j r s e found (sym ((nat_eqb_iff s.id r.id).0 same)) in
        ground (arith, find-update j r.id f t.rows kk, pair_eqb_iff k j)
    | inr other ↦
        ground (arith, find-update j r.id f t.rows kk, pair_eqb_iff k j, nat_eqb_iff s.id r.id)
  ]
]

insert-IsTable :
    (t : Table) (p : ClaimParams)
    → find p.key t.rows ≡ none
    → IsTable t
    → IsTable (record { rows = new_row t.next_id p ∷ t.rows; next_id = t.next_id + 1 })
unfolding find
insert-IsTable t p free h = record {
  below = λ k r e. ground (arith, h.below k r);
  unique = λ k j r s e e' same. ground (
    arith,
    h.below k r,
    h.below j s,
    h.unique k j r s,
    pair_eqb_iff p.key k,
    pair_eqb_iff p.key j,
  );
}

reclaim-KeepsKey : (p : ClaimParams) → KeepsKey (reclaimed_row p)
reclaim-KeepsKey p = record { key = λ r. refl; id = λ r. refl }

claim_by-IsTable :
    (v : ClaimStatus) (t : Table) (p : ClaimParams) (r : Row)
    → IsTable t
    → IsTable (claim_by v t p r).0
unfolding claim_by
claim_by-IsTable started t p r h = update-IsTable t r.id (reclaimed_row p) (reclaim-KeepsKey p) h
claim_by-IsTable _ t p r h = h

-- Claim keeps the table's keys and ids in order.
pub claim-IsTable : (t : Table) (p : ClaimParams) → IsTable t → IsTable (claim t p).0
unfolding claim
claim-IsTable t p h = elim (Option-cases (find p.key t.rows)) [
  | inl free ↦ rw (free, claim) (insert-IsTable t p free h)
  | inr (r, found) ↦ rw (found, claim) (claim_by-IsTable (verdict p r) t p r h)
]

slot-claim_by :
    (v : ClaimStatus) (t : Table) (p : ClaimParams) (r : Row) (k : Text × Text)
    → IsTable t
    → find p.key t.rows ≡ some r
    → find k (claim_by v t p r).0.rows
      ≡ (if p.key == k then some (claim_by v t p r).2 else find k t.rows)
unfolding claim_by
slot-claim_by started t p r k h e =
    slot-update t p.key k r (reclaimed_row p) (reclaim-KeepsKey p) h e
slot-claim_by _ t p r k h e = ground (arith, pair_eqb_iff p.key k)

slot-insert :
    (t : Table) (p : ClaimParams) (k : Text × Text)
    → find k (new_row t.next_id p ∷ t.rows)
      ≡ (if p.key == k then some (new_row t.next_id p) else find k t.rows)
unfolding find
slot-insert t p k = refl

-- Of all rows, claim changes only that of its key, and it returns that row.
pub slot-claim :
    (t : Table) (p : ClaimParams) (k : Text × Text)
    → IsTable t
    → find k (claim t p).0.rows ≡ (if p.key == k then some (claim t p).2 else find k t.rows)
unfolding claim
slot-claim t p k h = elim (Option-cases (find p.key t.rows)) [
  | inl free ↦ rw (free, claim) (slot-insert t p k)
  | inr (r, found) ↦ rw (found, claim) (slot-claim_by (verdict p r) t p r k h found)
]
