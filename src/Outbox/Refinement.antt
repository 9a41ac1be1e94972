-- ===== src/Outbox/Refinement.antt =====
-- The service's operations and the runs of the outbox's steps.
use hsync_server.Prelude.{
  ℕ, ℤ, Bool, true, false, none, some, List, [], ◌∷◌, ◌++◌, nat_eq, nat_eqb, Bool-cases,
  Option-cases, inl, inr, if◌then◌else◌, leb_ℤ, pos,
}
use hsync_server.Outbox.Table.{
  Notification, OutboxStatus, is_failed, get_by_id, claim_due, claim_failed, claim_failed_by_id,
  requeue_failed, mark_discarded,
}
use hsync_server.Outbox.Delivery.{World}
use hsync_server.Outbox.Lookup.{Distinct}
use hsync_server.Outbox.System.{
  Queue, hold, QueueStep, claims_due, claims_failed, claims_one, requeues, discards, Runs, stays,
  IsQueue,
}
use hsync_server.Outbox.Delivery.{process_outbox, store_error}
use hsync_server.Outbox.Actions.{
  retry_claimed, ActionFaults, on_failed, retry_failure, requeue_failure, discard_failure,
  retry_items, retry_failures, ActionResult, updated, Acted, zero_result, action_retried,
  action_skipped, action_requeued, action_discarded, skipped_result, normalize_admin_limit,
}
use hsync_server.Outbox.Steps.{Step-IsQueue}
use hsync_server.Outbox.Batches.{
  Runs-trans, one, abandoned-Runs, settled-Runs, process_items-Runs, retry_items-Runs,
}

-- A call of ProcessOutbox.
process_outbox-Runs :
    (w : World) (locked : ℕ → Bool) (claim_fails : Bool) (limit : ℤ) (q : Queue)
    → IsQueue q
    → Runs q (record q { rows = (process_outbox w locked claim_fails limit q.rows).2 })
unfolding process_outbox
process_outbox-Runs w locked claim_fails limit q g = elim (Bool-cases claim_fails) [
  | inl lost ↦ rw lost stays
  | inr fine ↦ rw fine (
      Runs-trans (one (claims_due locked w.now size)) (
        process_items-Runs w claim.0 claim.1 q.held _
          (Step-IsQueue (claims_due locked w.now size) g).exclusive))
]
  where
    size : ℤ
    size = if leb_ℤ limit (pos 0) then pos 50 else limit

    claim : List Notification × List Notification
    claim = claim_due locked w.now size q.rows

-- A call of RetryFailures.
retry_failures-Runs :
    (w : World) (locked : ℕ → Bool) (claim_fails : Bool) (limit : ℤ) (q : Queue)
    → IsQueue q
    → Runs q (record q { rows = (retry_failures w locked claim_fails limit q.rows).2 })
unfolding retry_failures
retry_failures-Runs w locked claim_fails limit q g = elim (Bool-cases claim_fails) [
  | inl lost ↦ rw lost stays
  | inr fine ↦ rw fine (Runs-trans (one step) (after claim.0 (Step-IsQueue step g).exclusive))
]
  where
    size : ℤ
    size = normalize_admin_limit limit

    claim : List Notification × List Notification
    claim = claim_failed locked w.now size q.rows

    step : QueueStep q (hold claim q.held)
    step = claims_failed locked w.now size

    after :
        (items : List Notification)
        → Distinct (items ++ q.held)
        → let total : ActionResult = record zero_result {
          result = some action_retried;
          limit = size;
        } in
          let out : Acted = elim items [
            | [] ↦ (none, record total { result = some action_skipped; skipped = 1 }, claim.1)
            | item ∷ more ↦ retry_items w (item ∷ more) claim.1 total
          ] in
          Runs (record { rows = claim.1; held = items ++ q.held }) (record q { rows = out.2 })
    after [] d = stays
    after (item ∷ more) d = retry_items-Runs w (item ∷ more) claim.1 q.held _ d

-- What a shared head adds to an action: nothing.
on_failed-Runs :
    (faults : ActionFaults) (id : ℕ) (q : Queue) (act : Notification → Acted)
    → ((n : Notification) → Runs q (record q { rows = (act n).2 }))
    → Runs q (record q { rows = (on_failed faults id q.rows act).2 })
unfolding on_failed
on_failed-Runs faults id q act runs = elim (Bool-cases (nat_eqb id 0)) [
  | inl nil ↦ rw nil stays
  | inr real ↦ rw real (elim (Bool-cases faults.get_fails) [
    | inl lost ↦ rw lost stays
    | inr read ↦ rw read (elim (Option-cases (get_by_id id q.rows)) [
      | inl gone ↦ rw (gone, on_failed) stays
      | inr (n, found) ↦ rw (found, on_failed) (on_row n)
    ])
  ])
]
  where
    on_row :
        (n : Notification)
        → let out : Acted =
            if is_failed n.status
            then (if faults.act_fails
                then (
                  some store_error,
                  record zero_result { previous_status = some n.status },
                  q.rows,
                )
                else act n)
            else (none, skipped_result n.status, q.rows) in
          Runs q (record q { rows = out.2 })
    on_row n = elim (Bool-cases (is_failed n.status)) [
      | inl bad ↦ rw bad (elim (Bool-cases faults.act_fails) [
        | inl lost ↦ rw lost stays
        | inr fine ↦ rw fine (runs n)
      ])
      | inr other ↦ rw other stays
    ]

-- A call of RetryFailure.
retry_failure-Runs :
    (w : World) (locked : ℕ → Bool) (faults : ActionFaults) (id : ℕ) (q : Queue)
    → IsQueue q
    → Runs q (record q { rows = (retry_failure w locked faults id q.rows).2 })
unfolding retry_failure retry_claimed
retry_failure-Runs w locked faults id q g =
    on_failed-Runs faults id q _
      λ n. Runs-trans (one step) (after n claim.0 (Step-IsQueue step g).exclusive)
  where
    claim : List Notification × List Notification
    claim = claim_failed_by_id locked w.now id q.rows

    step : QueueStep q (hold claim q.held)
    step = claims_one locked w.now id

    after :
        (n : Notification) (items : List Notification)
        → Distinct (items ++ q.held)
        → let out : Acted = elim items [
          | [] ↦ (none, skipped_result n.status, claim.1)
          | item ∷ more ↦ retry_claimed w item claim.1
        ] in
          Runs (record { rows = claim.1; held = items ++ q.held }) (record q { rows = out.2 })
    after n [] d = stays
    after n (item ∷ more) d =
        Runs-trans (settled-Runs w item claim.1 (more ++ q.held) d.0)
          (abandoned-Runs more _ q.held d.1)

updated-Runs :
    (q : Queue) (status was : OutboxStatus) (r : ActionResult) (out : Bool × List Notification)
    → QueueStep q (record q { rows = out.1 })
    → Runs q (record q { rows = (updated status was r out).2 })
updated-Runs q status was r (true, rows) s = one s
updated-Runs q status was r (false, rows) s = one s

-- Every call of the service on the outbox, whatever fails in it, is a run of the steps, at the end
-- of which its worker holds no item any more: ProcessOutbox, RetryFailures, RetryFailure,
-- RequeueFailure and DiscardFailure.
pub service-Runs :
    (w : World) (locked : ℕ → Bool) (fails : Bool) (faults : ActionFaults) (limit : ℤ) (id : ℕ)
    (q : Queue)
    → IsQueue q
    → Runs q (record q { rows = (process_outbox w locked fails limit q.rows).2 })
      × Runs q (record q { rows = (retry_failures w locked fails limit q.rows).2 })
      × Runs q (record q { rows = (retry_failure w locked faults id q.rows).2 })
      × Runs q (record q { rows = (requeue_failure w.now faults id q.rows).2 })
      × Runs q (record q { rows = (discard_failure w.now faults id q.rows).2 })
unfolding requeue_failure discard_failure
service-Runs w locked fails faults limit id q g = (
  process_outbox-Runs w locked fails limit q g,
  retry_failures-Runs w locked fails limit q g,
  retry_failure-Runs w locked faults id q g,
  on_failed-Runs faults id q _ (λ n.
      updated-Runs q _ _ (record zero_result { result = some action_requeued; requeued = 1 })
        (requeue_failed w.now id w.now q.rows) (requeues w.now id w.now)),
  on_failed-Runs faults id q _ (λ n.
      updated-Runs q _ _ (record zero_result { result = some action_discarded; discarded = 1 })
        (mark_discarded w.now id q.rows) (discards w.now id)),
)
