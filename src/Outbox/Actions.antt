-- ===== src/Outbox/Actions.antt =====
-- pkg/service/notification.go: the administrator's retries, requeues and discards.
use hsync_server.Prelude.{
  ℕ, ◌+◌, ℤ, pos, leb_ℤ, ltb_ℤ, Bool, Option, none, some, List, [], ◌∷◌, if◌then◌else◌, nat_eqb,
}
use hsync_server.Outbox.Table.{
  OutboxStatus, pending, sent, failed, discarded, Notification, is_failed, get_by_id, claim_failed,
  claim_failed_by_id, requeue_failed, mark_discarded,
}
use hsync_server.Outbox.Delivery.{
  World, Settled, delivered, rescheduled, exhausted, settle, Failure, store_error, failure_of,
}

-- NotificationOutboxActionResultType
pub data Action : Type 0 where
  action_retried action_requeued action_discarded action_skipped action_not_found : Action

-- NotificationOutboxActionResult; what is not set is none or 0.
pub record ActionResult : Type 0 where
  pub result : Option Action
  pub limit : ℤ
  pub retried : ℕ
  pub requeued : ℕ
  pub discarded : ℕ
  pub skipped : ℕ
  pub not_found : ℕ
  pub sent : ℕ
  pub failed : ℕ
  pub scheduled_retry : ℕ
  pub status : Option OutboxStatus
  pub previous_status : Option OutboxStatus

abbrev pub zero_result : ActionResult
zero_result = record {
  result = none;
  limit = pos 0;
  retried = 0;
  requeued = 0;
  discarded = 0;
  skipped = 0;
  not_found = 0;
  sent = 0;
  failed = 0;
  scheduled_retry = 0;
  status = none;
  previous_status = none;
}

abbrev pub Acted : Type 0
Acted = Option Failure × ActionResult × List Notification

abbrev pub not_found_result : ActionResult
not_found_result = record zero_result { result = some action_not_found; not_found = 1 }

abbrev pub skipped_result : OutboxStatus → ActionResult
skipped_result was = record zero_result {
  result = some action_skipped;
  skipped = 1;
  status = some was;
  previous_status = some was;
}

unfoldable pub action_of : Settled → ActionResult → ActionResult
action_of delivered r = record r { sent = 1; status = some sent }
action_of rescheduled r = record r { scheduled_retry = 1; status = some pending }
action_of exhausted r = record r { failed = 1; status = some failed }
action_of _ r = r

-- retryClaimedOutboxItem
unfoldable pub retry_claimed : World → Notification → List Notification → Acted
retry_claimed w item rows =
    let (s, rows') = settle w item rows in
    (
      failure_of s,
      action_of s (record zero_result {
        result = some action_retried;
        retried = 1;
        previous_status = some failed;
      }),
      rows',
    )

-- Which of an action's two statements fails: the read of the row, or the claim or update.
pub record ActionFaults : Type 0 where
  pub get_fails : Bool
  pub act_fails : Bool

-- The head that RetryFailure, RequeueFailure and DiscardFailure share: the row must be there and
-- have failed. The id 0 is uuid.Nil.
unfoldable pub on_failed : ActionFaults → ℕ → List Notification → (Notification → Acted) → Acted
on_failed faults id rows act =
    if nat_eqb id 0
    then (none, not_found_result, rows)
    else if faults.get_fails
    then (some store_error, zero_result, rows)
    else elim (get_by_id id rows) [
      | none ↦ (none, not_found_result, rows)
      | some n ↦
          if is_failed n.status
          then (if faults.act_fails
              then (some store_error, record zero_result { previous_status = some n.status }, rows)
              else act n)
          else (none, skipped_result n.status, rows)
    ]

-- RetryFailure, where the read and the claim see one table.
unfoldable pub retry_failure : World → (ℕ → Bool) → ActionFaults → ℕ → List Notification → Acted
retry_failure w locked faults id rows = on_failed faults id rows (λ n.
    let (items, rows') = claim_failed_by_id locked w.now id rows in
    elim items [
      | [] ↦ (none, skipped_result n.status, rows')
      | item ∷ more ↦ retry_claimed w item rows'
    ])

-- What an update of a failed row reports.
abbrev pub updated : OutboxStatus → OutboxStatus → ActionResult → Bool × List Notification → Acted
updated status was result (changed, rows) =
    if changed
    then (none, record result { status = some status; previous_status = some was }, rows)
    else (none, skipped_result was, rows)

-- RequeueFailure
unfoldable pub requeue_failure : ℕ → ActionFaults → ℕ → List Notification → Acted
requeue_failure now faults id rows = on_failed faults id rows (λ n.
    updated pending n.status (record zero_result { result = some action_requeued; requeued = 1 })
      (requeue_failed now id now rows))

-- DiscardFailure
unfoldable pub discard_failure : ℕ → ActionFaults → ℕ → List Notification → Acted
discard_failure now faults id rows = on_failed faults id rows (λ n.
    updated discarded n.status
      (record zero_result { result = some action_discarded; discarded = 1 })
      (mark_discarded now id rows))

-- normalizeNotificationAdminLimit
unfoldable pub normalize_admin_limit : ℤ → ℤ
normalize_admin_limit limit =
    if leb_ℤ limit (pos 0) then pos 50 else if ltb_ℤ (pos 200) limit then pos 200 else limit

abbrev pub add_results : ActionResult → ActionResult → ActionResult
add_results total r = record total {
  retried = total.retried + r.retried;
  sent = total.sent + r.sent;
  failed = total.failed + r.failed;
  scheduled_retry = total.scheduled_retry + r.scheduled_retry;
  skipped = total.skipped + r.skipped;
}

unfoldable pub retry_items : World → List Notification → List Notification → ActionResult → Acted
retry_items w [] rows total = (none, total, rows)
retry_items w (item ∷ items) rows total =
    let (failure, r, rows') = retry_claimed w item rows in
    elim failure [
      | some e ↦ (some e, total, rows')
      | none ↦ retry_items w items rows' (add_results total r)
    ]

-- RetryFailures
unfoldable pub retry_failures : World → (ℕ → Bool) → Bool → ℤ → List Notification → Acted
retry_failures w locked claim_fails limit rows =
    let total : ActionResult = record zero_result {
      result = some action_retried;
      limit = normalize_admin_limit limit;
    } in
    if claim_fails
    then (some store_error, total, rows)
    else (let (items, rows') = claim_failed locked w.now (normalize_admin_limit limit) rows in
        elim items [
          | [] ↦ (none, record total { result = some action_skipped; skipped = 1 }, rows')
          | item ∷ more ↦ retry_items w (item ∷ more) rows' total
        ])
