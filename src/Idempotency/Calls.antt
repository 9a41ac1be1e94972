-- ===== src/Idempotency/Calls.antt =====
-- What one call of ExecuteIdempotent does to the table, whatever its outcome.
use hsync_server.Prelude.{
  ℕ, ◌≡◌, refl, ◌∙◌, ℤ, true, false, Option, none, some, [], Text, ◌==◌, text_eq, nat_eq, pair_eq,
  eqb_refl, Bool-cases, inl, inr, arith, if◌then◌else◌,
}
use hsync_server.GoStrings.{trim_space}
use hsync_server.Idempotency.Table.{
  Row, Table, ClaimParams, ClaimStatus, succeeded, started, replayed, conflict, find, update, claim,
  claim_by, verdict, mark_succeeded, mark_failed, failed_row, succeeded_row,
}
use hsync_server.Idempotency.Rows.{
  KeepsKey, IsTable, update-IsTable, slot-update, claim-IsTable, slot-claim,
}
use hsync_server.Idempotency.Service.{
  call_key, Options, Faults, Env, Outcome, done, fails, Encoded, encoded, not_encoded,
  execute_idempotent, claim_params, finish, dispatch, unguarded, with_fingerprint, mark_failed_if,
}

pub failed-KeepsKey : (reason : Text) → KeepsKey (failed_row reason)
failed-KeepsKey reason = record { key = λ r. refl; id = λ r. refl }

pub succeeded-KeepsKey :
    (jsonb : Text → Text) (status : ℤ) (body : Text) → KeepsKey (succeeded_row jsonb status body)
succeeded-KeepsKey jsonb status body = record { key = λ r. refl; id = λ r. refl }

-- A succeeded row is never claimed for execution.
pub claim_succeeded :
    (t : Table) (p : ClaimParams) (r : Row)
    → find p.key t.rows ≡ some r
    → r.status ≡ succeeded
    → claim t p
      ≡ (t, (if r.request_fingerprint == p.request_fingerprint then replayed else conflict), r)
unfolding claim
claim_succeeded t p r e s =
    rw (e, claim)
      (elim (Bool-cases (r.request_fingerprint == p.request_fingerprint)) [
        | inl same ↦ rw (verdict_same same) (unfold claim_by in rw same)
        | inr other ↦ rw (verdict_other other) (unfold claim_by in rw other)
      ])
  where
    verdict_same : (r.request_fingerprint == p.request_fingerprint) ≡ true → verdict p r ≡ replayed
    verdict_same h = unfold verdict in ground arith

    verdict_other :
        (r.request_fingerprint == p.request_fingerprint) ≡ false → verdict p r ≡ conflict
    verdict_other h = unfold verdict in ground arith

-- A step from a table to a later one that changes no row but that of the key.
pub record Touches (k : Text × Text) (t t' : Table) : Type 0 where
  pub table : IsTable t'
  pub others : (j : Text × Text) → (k == j) ≡ false → find j t'.rows ≡ find j t.rows

pub Touches-refl : (k : Text × Text) (t : Table) → IsTable t → Touches k t t
Touches-refl k t h = record { table = h; others = λ j e. refl }

pub Touches-trans :
    {k : Text × Text} {a b c : Table} → Touches k a b → Touches k b c → Touches k a c
Touches-trans h g = record { table = g.table; others = λ j e. g.others j e ∙ h.others j e }

update-Touches :
    (t : Table) (k : Text × Text) (r : Row) (f : Row → Row)
    → KeepsKey f
    → IsTable t
    → find k t.rows ≡ some r
    → Touches k t (record t { rows = update r.id f t.rows })
update-Touches t k r f kk h e = record {
  table = update-IsTable t r.id f kk h;
  others = λ j differs. rw (slot-update t k j r f kk h e, differs);
}

pub claim-Touches : (t : Table) (p : ClaimParams) → IsTable t → Touches p.key t (claim t p).0
claim-Touches t p h = record {
  table = claim-IsTable t p h;
  others = λ j differs. rw (slot-claim t p j h, differs);
}

-- The row that claim returns stands in its table.
pub claimed-row :
    (t : Table) (p : ClaimParams) → IsTable t → find p.key (claim t p).0.rows ≡ some (claim t p).2
claimed-row t p h = rw (slot-claim t p p.key h, eqb_refl p.key)

mark_failed-Touches :
    (t : Table) (k : Text × Text) (r : Row) (reason : Text)
    → IsTable t
    → find k t.rows ≡ some r
    → Touches k t (mark_failed t r.id reason)
unfolding mark_failed
mark_failed-Touches t k r reason = update-Touches t k r _ (failed-KeepsKey reason)

pub mark_succeeded-Touches :
    (jsonb : Text → Text) (t : Table) (k : Text × Text) (r : Row) (status : ℤ) (body : Text)
    → IsTable t
    → find k t.rows ≡ some r
    → Touches k t (mark_succeeded jsonb t r.id status body)
unfolding mark_succeeded
mark_succeeded-Touches jsonb t k r status body =
    update-Touches t k r _ (succeeded-KeepsKey jsonb status _)

module _ {T W : Type 0} (env : Env T W) where
  mark_failed_if-Touches :
      (faults : Faults) (t : Table) (k : Text × Text) (r : Row) (reason : Text)
      → IsTable t
      → find k t.rows ≡ some r
      → Touches k t (mark_failed_if env faults t r.id reason)
  mark_failed_if-Touches faults t k r reason h e = elim (Bool-cases faults.mark_fails) [
    | inl lost ↦ rw lost (Touches-refl k t h)
    | inr written ↦ rw written (mark_failed-Touches t k r reason h e)
  ]

  finish-Touches :
      (faults : Faults) (t : Table) (k : Text × Text) (r : Row) (w : W) (outcome : Outcome T)
      → IsTable t
      → find k t.rows ≡ some r
      → Touches k t (finish env faults t r.id w outcome).1
  unfolding finish
  finish-Touches faults t k r w (fails reason) h e = mark_failed_if-Touches faults t k r reason h e
  finish-Touches faults t k r w (done result status) h e = marshalled (env.encode result) refl
    where
      marshalled :
          (o : Encoded)
          → env.encode result ≡ o
          → Touches k t (finish env faults t r.id w (done result status)).1
      marshalled (not_encoded reason) q =
          rw (q, finish) (mark_failed_if-Touches faults t k r reason h e)
      marshalled (encoded body) q =
          rw (q, finish)
            (elim (Bool-cases faults.mark_fails) [
              | inl lost ↦ rw lost (Touches-refl k t h)
              | inr written ↦ rw written (mark_succeeded-Touches env.jsonb t k r _ body h e)
            ])

  dispatch-Touches :
      (faults : Faults) (w : W) (t : Table) (k : Text × Text) (s : ClaimStatus) (r : Row)
      → IsTable t
      → find k t.rows ≡ some r
      → Touches k t (dispatch env faults w (t, s, r)).1
  unfolding dispatch
  dispatch-Touches faults w t k started r h e = finish-Touches faults t k r _ _ h e
  dispatch-Touches faults w t k _ r h e = Touches-refl k t h

  with_fingerprint-Touches :
      (faults : Faults) (opts : Options) (now : ℕ) (t : Table) (w : W) (fingerprint : Option Text)
      → IsTable t
      → Touches (call_key env opts) t (with_fingerprint env faults opts now t w fingerprint).1
  unfolding with_fingerprint
  with_fingerprint-Touches faults opts now t w none h = Touches-refl _ t h
  with_fingerprint-Touches faults opts now t w (some fp) h = elim (Bool-cases faults.claim_fails) [
    | inl lost ↦ simp lost (Touches-refl _ t h)
    | inr claimed ↦ simp claimed (
        Touches-trans (claim-Touches t p h) (
          dispatch-Touches faults w (claim t p).0 p.key (claim t p).1 (claim t p).2
            (claim-IsTable t p h) (claimed-row t p h)))
  ]
    where
      p : ClaimParams
      p = claim_params env opts fp now

  pub unguarded-table : (t : Table) (w : W) (r : W × Outcome T) → (unguarded env t w r).1 ≡ t
  unfolding unguarded
  unguarded-table t w (w', fails reason) = refl
  unguarded-table t w (w', done result status) = refl

  -- On a table whose ids are below the next one and belong to one key each, a call, whatever its
  -- outcome and whichever database call fails, leaves such a table, and every row but that of its
  -- own key as it was.
  pub call-Touches :
      (faults : Faults) (opts : Options) (now : ℕ) (t : Table) (w : W)
      → IsTable t
      → Touches (call_key env opts) t (execute_idempotent env faults opts now t w).1
  unfolding execute_idempotent
  call-Touches faults opts now t w h = elim (Bool-cases (trim_space opts.idempotency_key == [])) [
    | inl unkeyed ↦ rw unkeyed (elim (Bool-cases opts.require_key) [
      | inl required ↦ simp required (Touches-refl _ t h)
      | inr optional ↦ simp (optional, unguarded-table t w (env.execute w)) (Touches-refl _ t h)
    ])
    | inr keyed ↦ rw keyed (elim (Bool-cases (trim_space opts.scope == [])) [
      | inl unscoped ↦ rw unscoped (Touches-refl _ t h)
      | inr scoped ↦ rw scoped (with_fingerprint-Touches faults opts now t w _ h)
    ])
  ]
