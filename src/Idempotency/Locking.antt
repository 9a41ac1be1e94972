-- ===== src/Idempotency/Locking.antt =====
-- The requests that meet a claim while its lock runs.
use hsync_server.Prelude.{
  ℕ, ◌≡◌, refl, sym, ap, ◌∙◌, ℤ, pos, true, false, some, List, [], ◌∷◌, Text, ◌==◌, text_eq,
  text_eqb_iff, arith, if◌then◌else◌, pair_eq, pair_eqb_iff, nat_eqb_iff, nat_eq, All, Bool-cases,
  Option-cases, inl, inr, ltb_ℤ,
}
use hsync_server.Idempotency.Table.{
  Row, Table, processing, ClaimParams, ClaimStatus, started, replayed, in_progress, conflict, find,
  update, claim, claim_by, verdict, mark_succeeded, mark_failed,
}
use hsync_server.Idempotency.Rows.{KeepsKey, IsTable, find-update, update-IsTable, claim-IsTable}
use hsync_server.Idempotency.Calls.{claim-Touches, claimed-row, succeeded-KeepsKey, failed-KeepsKey}

-- The statements that other requests and workers run on the table.
pub data Statement : Type 0 where
  claims : ClaimParams → Statement
  succeeds : (Text → Text) → ℕ → ℤ → Text → Statement
  fails : ℕ → Text → Statement

unfoldable pub apply : Statement → Table → Table
apply (claims p) t = (claim t p).0
apply (succeeds jsonb id status body) t = mark_succeeded jsonb t id status body
apply (fails id reason) t = mark_failed t id reason

unfoldable pub apply_all : List Statement → Table → Table
apply_all [] t = t
apply_all (s ∷ ss) t = apply_all ss (apply s t)

-- A statement of another request, run before the lock ends.
unfoldable pub Meanwhile : (id : ℕ) (until : ℤ) → Statement → Type 0
Meanwhile id until (claims p) = ltb_ℤ (pos p.now) until ≡ true
Meanwhile id until (succeeds jsonb i status body) = (i == id) ≡ false
Meanwhile id until (fails i reason) = (i == id) ≡ false

-- The row of the key is held under a lock.
record Held (p : ClaimParams) (id : ℕ) (t : Table) : Type 0 where
  table : IsTable t
  row : Row
  found : find p.key t.rows ≡ some row
  same_id : row.id ≡ id
  is_held : row.status ≡ processing
  locked : row.locked_until ≡ some p.locked_until
  same : row.request_fingerprint ≡ p.request_fingerprint

verdict_held :
    (p q : ClaimParams) (r : Row)
    → r.request_fingerprint ≡ p.request_fingerprint
    → r.status ≡ processing
    → r.locked_until ≡ some p.locked_until
    → ltb_ℤ (pos q.now) p.locked_until ≡ true
    → verdict q r
      ≡ (if p.request_fingerprint == q.request_fingerprint then in_progress else conflict)
unfolding verdict
verdict_held p q r same held locked soon =
    simp (same, held, locked, soon)
      (elim (Bool-cases (p.request_fingerprint == q.request_fingerprint)) [
        | inl same' ↦ simp same' refl
        | inr other ↦ simp other refl
      ])

claim_found :
    (t : Table) (p : ClaimParams) (r : Row)
    → find p.key t.rows ≡ some r
    → claim t p ≡ claim_by (verdict p r) t p r
unfolding claim
claim_found t p r found = rw (found, claim) refl

-- A claim of a held row in time is turned away.
claim_refused :
    (p q : ClaimParams) (id : ℕ) (t : Table)
    → (h : Held p id t) → q.key ≡ p.key
    → ltb_ℤ (pos q.now) p.locked_until ≡ true
    → claim t q ≡ (
      t,
      (if p.request_fingerprint == q.request_fingerprint then in_progress else conflict),
      h.row,
    )
unfolding claim_by
claim_refused p q id t h k soon =
    simp
      (claim_found t q h.row (rw k h.found), verdict_held p q h.row h.same h.is_held h.locked soon)
      (elim (Bool-cases (p.request_fingerprint == q.request_fingerprint)) [
        | inl same ↦ simp same refl
        | inr other ↦ simp other refl
      ])

Held-step :
    (p : ClaimParams) (id : ℕ) (t t' : Table)
    → Held p id t
    → IsTable t'
    → find p.key t'.rows ≡ find p.key t.rows
    → Held p id t'
Held-step p id t t' h table e = record {
  table = table;
  row = h.row;
  found = e ∙ h.found;
  same_id = h.same_id;
  is_held = h.is_held;
  locked = h.locked;
  same = h.same;
}

update-Held :
    (p : ClaimParams) (id i : ℕ) (f : Row → Row) (t : Table)
    → KeepsKey f
    → (i == id) ≡ false
    → Held p id t
    → Held p id (record t { rows = update i f t.rows })
update-Held p id i f t kk other h = Held-step p id t _ h (update-IsTable t i f kk h.table) (
    ground (
      arith,
      find-update p.key i f t.rows kk,
      h.found,
      h.same_id,
      nat_eqb_iff i id,
      nat_eqb_iff h.row.id i,
    ))

apply-Held :
    (p : ClaimParams) (id : ℕ) (s : Statement) (t : Table)
    → Meanwhile id p.locked_until s
    → Held p id t
    → Held p id (apply s t)
unfolding apply Meanwhile mark_succeeded mark_failed
apply-Held p id (claims q) t m h = elim (Bool-cases (q.key == p.key)) [
  | inl mine ↦ Held-step p id t _ h (claim-IsTable t q h.table) (
      ap (λ c. find p.key c.0.rows)
        (claim_refused p q id t h ((pair_eqb_iff q.key p.key).0 mine) m))
  | inr other ↦
      Held-step p id t _ h (claim-IsTable t q h.table)
        ((claim-Touches t q h.table).others p.key other)
]
apply-Held p id (succeeds jsonb i status body) t m h =
    update-Held p id i _ t (succeeded-KeepsKey jsonb status _) m h
apply-Held p id (fails i reason) t m h = update-Held p id i _ t (failed-KeepsKey reason) m h

by_verdict_held :
    (t : Table) (p : ClaimParams) (r : Row) (v : ClaimStatus)
    → verdict p r ≡ v
    → (claim_by v t p r).1 ≡ started
    → ((claim_by v t p r).2.status ≡ processing)
      × ((claim_by v t p r).2.locked_until ≡ some p.locked_until)
      × ((claim_by v t p r).2.request_fingerprint ≡ p.request_fingerprint)
unfolding claim_by verdict
by_verdict_held t p r started e s =
    (refl, refl, ground (arith, text_eqb_iff r.request_fingerprint p.request_fingerprint))
by_verdict_held t p r replayed e s = absurd cc
by_verdict_held t p r conflict e s = absurd cc
by_verdict_held t p r in_progress e s = absurd cc

-- A claim that starts holds its row.
claimed_held :
    (t : Table) (p : ClaimParams)
    → (claim t p).1 ≡ started
    → ((claim t p).2.status ≡ processing)
      × ((claim t p).2.locked_until ≡ some p.locked_until)
      × ((claim t p).2.request_fingerprint ≡ p.request_fingerprint)
claimed_held t p s = elim (Option-cases (find p.key t.rows)) [
  | inl fresh ↦ unfold claim in rw (fresh, claim) (refl, refl, refl)
  | inr (r, found) ↦
      rw (claim_found t p r found)
        (by_verdict_held t p r (verdict p r) refl (rw (sym (claim_found t p r found)) s))
]

claim-Held :
    (p : ClaimParams) (t : Table)
    → IsTable t
    → (claim t p).1 ≡ started
    → Held p (claim t p).2.id (claim t p).0
claim-Held p t h s =
    let r = (claim t p).2 in
    let now_held = claimed_held t p s in
    record {
      table = claim-IsTable t p h;
      row = r;
      found = claimed-row t p h;
      same_id = refl;
      is_held = now_held.0;
      locked = now_held.1;
      same = now_held.2;
    }

apply_all-Held :
    (p : ClaimParams) (id : ℕ) (ss : List Statement) (t : Table)
    → All (Meanwhile id p.locked_until) ss
    → Held p id t
    → Held p id (apply_all ss t)
unfolding apply_all
apply_all-Held p id [] t m h = h
apply_all-Held p id (s ∷ ss) t m h = apply_all-Held p id ss _ m.1 (apply-Held p id s t m.0 h)

-- Once a claim has started, and until its lock ends or its own worker reports, every claim with
-- its key is refused and changes nothing: as in progress if its fingerprint is the same, as a
-- conflict if not, whatever statements other requests run in between.
pub lock_excludes :
    (p q : ClaimParams) (ss : List Statement) (t : Table)
    → IsTable t
    → (claim t p).1 ≡ started
    → All (Meanwhile (claim t p).2.id p.locked_until) ss
    → q.key ≡ p.key
    → ltb_ℤ (pos q.now) p.locked_until ≡ true
    → let t' = apply_all ss (claim t p).0 in
      ((claim t' q).0 ≡ t')
      × ((claim t' q).1
          ≡ (if p.request_fingerprint == q.request_fingerprint then in_progress else conflict))
lock_excludes p q ss t h s quiet k soon =
    let turned =
      claim_refused p q (claim t p).2.id (apply_all ss (claim t p).0)
        (apply_all-Held p (claim t p).2.id ss (claim t p).0 quiet (claim-Held p t h s)) k soon in
    (simp turned refl, simp turned refl)
