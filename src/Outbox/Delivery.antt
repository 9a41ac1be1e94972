-- ===== src/Outbox/Delivery.antt =====
-- pkg/service/notification.go: ProcessOutbox, for a service that has a store.
use hsync_server.Prelude.{
  ℕ, zero, suc, ◌+◌, ◌*◌, ℤ, pos, leb_ℤ, Bool, Option, none, some, List, [], ◌∷◌, Text,
  if◌then◌else◌, length, leb,
}
use hsync_server.Outbox.Table.{Notification, claim_due, mark_sent, mark_retry, mark_failed}

abbrev pub max_attempts : ℕ
max_attempts = 5

abbrev pub base_backoff : ℕ
base_backoff = 60 * 1_000_000_000

abbrev pub max_backoff : ℕ
max_backoff = 3600 * 1_000_000_000

-- The loop of notificationRetryDelay, with the rounds left; the delay stays below two hours and
-- does not wrap.
unfoldable pub double_delay : ℕ → ℕ → ℕ
double_delay zero delay = delay
double_delay (suc rounds) delay =
    let rest = double_delay rounds (delay * 2) in
    if leb max_backoff (delay * 2) then max_backoff else rest

-- notificationRetryDelay
unfoldable pub retry_delay : ℕ → ℕ
unfolding double_delay
retry_delay zero = base_backoff
retry_delay (suc attempt) = double_delay attempt base_backoff

-- What a worker meets: the time (one value for all the clock reads of a batch), what
-- deliverOutboxItem answers for an item (none, or the text that sanitizeNotificationError makes of
-- its error), whether its context has ended when it comes to the item, and whether the statement
-- that records the outcome fails.
pub record World : Type 0 where
  pub now : ℕ
  pub deliver : Notification → Option Text
  pub cancelled : Notification → Bool
  pub mark_fails : Notification → Bool

pub data Settled : Type 0 where
  stopped unmarked delivered rescheduled exhausted : Settled

abbrev pub Settling : Type 0
Settling = Settled × List Notification

-- A mark whose statement fails changes nothing.
abbrev pub marked :
    World → Notification → Settled → List Notification → List Notification → Settling
marked w item s before after = if w.mark_fails item then (unmarked, before) else (s, after)

abbrev pub attempt_failed : World → Notification → Text → List Notification → Settling
attempt_failed w item text rows =
    if leb max_attempts (item.attempt_count + 1)
    then marked w item exhausted rows (mark_failed w.now item.id text rows)
    else marked w item rescheduled rows
        (mark_retry w.now item.id (w.now + retry_delay (item.attempt_count + 1)) text rows)

-- The delivery of one claimed item and the mark of its outcome, as the loop of ProcessOutbox and
-- retryClaimedOutboxItem do them.
unfoldable pub settle : World → Notification → List Notification → Settling
settle w item rows = if w.cancelled item then (stopped, rows) else elim (w.deliver item) [
  | none ↦ marked w item delivered rows (mark_sent w.now item.id w.now rows)
  | some text ↦ attempt_failed w item text rows
]

pub data Failure : Type 0 where
  store_error context_ended : Failure

-- The error that ends a batch at an item.
abbrev pub failure_of : Settled → Option Failure
failure_of stopped = some context_ended
failure_of unmarked = some store_error
failure_of _ = none

-- NotificationOutboxProcessResult
pub record ProcessResult : Type 0 where
  pub claimed : ℕ
  pub sent : ℕ
  pub retried : ℕ
  pub failed : ℕ

unfoldable pub count_settled : Settled → ProcessResult → ProcessResult
count_settled delivered r = record r { sent = r.sent + 1 }
count_settled rescheduled r = record r { retried = r.retried + 1 }
count_settled exhausted r = record r { failed = r.failed + 1 }
count_settled _ r = r

abbrev pub Batch : Type 0
Batch = Option Failure × ProcessResult × List Notification

unfoldable pub process_items : World → List Notification → List Notification → ProcessResult → Batch
process_items w [] rows r = (none, r, rows)
process_items w (item ∷ items) rows r =
    let (s, rows') = settle w item rows in
    elim (failure_of s) [
      | some e ↦ (some e, r, rows')
      | none ↦ process_items w items rows' (count_settled s r)
    ]

-- ProcessOutbox
unfoldable pub process_outbox : World → (ℕ → Bool) → Bool → ℤ → List Notification → Batch
process_outbox w locked claim_fails limit rows =
    let nothing : ProcessResult = record { claimed = 0; sent = 0; retried = 0; failed = 0 } in
    if claim_fails
    then (some store_error, nothing, rows)
    else (let size = if leb_ℤ limit (pos 0) then pos 50 else limit in
        let (items, rows') = claim_due locked w.now size rows in
        process_items w items rows' (record nothing { claimed = length items }))
