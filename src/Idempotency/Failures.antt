-- ===== src/Idempotency/Failures.antt =====
-- What MarkFailed does to a claim, on time or late.
use hsync_server.Prelude.{
  ◌≡◌, refl, ℤ, true, some, [], Text, ◌==◌, text_eq, pair_eq, if◌then◌else◌, eqb_refl,
}
use hsync_server.GoStrings.{codes}
use hsync_server.Idempotency.Table.{
  Row, Table, failed, ClaimParams, started, find, claim, claim_by, verdict, mark_succeeded,
  mark_failed, succeeded_row, failed_row,
}
use hsync_server.Idempotency.Rows.{IsTable, claim-IsTable, slot-update}
use hsync_server.Idempotency.Calls.{
  claimed-row, succeeded-KeepsKey, failed-KeepsKey, mark_succeeded-Touches,
}
use hsync_server.Idempotency.Recording.{claim_started}

-- The row after MarkSucceeded.
succeeded-slot :
    (jsonb : Text → Text) (t : Table) (k : Text × Text) (r : Row) (status : ℤ) (body : Text)
    → IsTable t
    → find k t.rows ≡ some r
    → find k (mark_succeeded jsonb t r.id status body).rows
      ≡ some (succeeded_row jsonb status (if body == [] then codes "{}" else body) r)
unfolding mark_succeeded
succeeded-slot jsonb t k r status body h found =
    rw
      (
        slot-update t k k r _
            (succeeded-KeepsKey jsonb status (if body == [] then codes "{}" else body)) h found,
        eqb_refl k,
      )
      refl

-- The row after MarkFailed.
failed-slot :
    (t : Table) (k : Text × Text) (r : Row) (reason : Text)
    → IsTable t
    → find k t.rows ≡ some r
    → find k (mark_failed t r.id reason).rows ≡ some (failed_row reason r)
unfolding mark_failed
failed-slot t k r reason h found =
    rw (slot-update t k k r _ (failed-KeepsKey reason) h found, eqb_refl k) refl

failed-claim :
    (t : Table) (q : ClaimParams) (r : Row)
    → find q.key t.rows ≡ some r
    → r.status ≡ failed
    → (r.request_fingerprint == q.request_fingerprint) ≡ true
    → ((claim t q).1 ≡ started) × ((claim t q).2.id ≡ r.id)
unfolding claim
failed-claim t q r found s same = rw (found, claim) (rw (free) (unfold claim_by in (refl, refl)))
  where
    free : verdict q r ≡ started
    free = unfold verdict in simp (same, s) refl

-- When a claim has started, and its row was marked as succeeded and then, by a worker that comes
-- late, as failed, the next claim with the key and the fingerprint starts again on that row,
-- however soon it comes: the recorded success does not keep the late report out, and no lock is
-- left to wait for.
pub failure_reopens :
    (t : Table) (p q : ClaimParams) (jsonb : Text → Text) (status : ℤ) (body reason : Text)
    → IsTable t
    → (claim t p).1 ≡ started
    → q.key ≡ p.key
    → q.request_fingerprint ≡ p.request_fingerprint
    → let id = (claim t p).2.id in
      let t' = mark_failed (mark_succeeded jsonb (claim t p).0 id status body) id reason in
      ((claim t' q).1 ≡ started) × ((claim t' q).2.id ≡ id)
failure_reopens t p q jsonb status body reason h s k fp =
    let done =
      succeeded-slot jsonb (claim t p).0 p.key (claim t p).2 status body (claim-IsTable t p h)
        (claimed-row t p h) in
    let kept =
      (mark_succeeded-Touches jsonb (claim t p).0 p.key (claim t p).2 status body
        (claim-IsTable t p h) (claimed-row t p h)).table in
    let filled = if body == [] then codes "{}" else body in
    let last = failed_row reason (succeeded_row jsonb status filled (claim t p).2) in
    failed-claim _ q last
      (rw k
        (failed-slot _ p.key (succeeded_row jsonb status filled (claim t p).2) reason kept done))
      refl (rw (claim_started t p s, fp) (eqb_refl p.request_fingerprint))
