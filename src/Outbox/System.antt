-- ===== src/Outbox/System.antt =====
-- The outbox with the workers around it: the server's ticks of ProcessOutbox, on any number of
-- instances, and the administrators' actions. Each statement on the table is one step, and steps
-- come in any order. `held` lists the items that workers have claimed and not yet settled.
use hsync_server.Prelude.{
  ℕ, ◌<◌, ◌≡◌, ℤ, Bool, not, Option, none, some, List, [], ◌++◌, Text, ◌==◌, nat_eq, keep_if,
}
use hsync_server.Outbox.Table.{
  Notification, pending, processing, get_by_id, enqueue, claim_due, claim_failed,
  claim_failed_by_id, requeue_failed, mark_discarded,
}
use hsync_server.Outbox.Delivery.{World, settle, max_attempts}
use hsync_server.Outbox.Lookup.{Distinct}

pub record Queue : Type 0 where
  pub rows : List Notification
  pub held : List Notification

-- The held items without one.
abbrev pub let_go : ℕ → List Notification → List Notification
let_go id held = keep_if (λ i. not (i.id == id)) held

abbrev pub hold : List Notification × List Notification → List Notification → Queue
hold (items, rows) held = record { rows = rows; held = items ++ held }

pub data QueueStep (q : Queue) : Queue → Type 0 where
  enqueues :
      (id now user : ℕ) (channel category kind payload : Text) (at : Option ℕ)
      → get_by_id id q.rows ≡ none
      → QueueStep q
          (record q { rows = enqueue id now user channel category kind payload at q.rows })
  claims_due :
      (locked : ℕ → Bool) (now : ℕ) (limit : ℤ)
      → QueueStep q (hold (claim_due locked now limit q.rows) q.held)
  claims_failed :
      (locked : ℕ → Bool) (now : ℕ) (limit : ℤ)
      → QueueStep q (hold (claim_failed locked now limit q.rows) q.held)
  claims_one :
      (locked : ℕ → Bool) (now id : ℕ)
      → QueueStep q (hold (claim_failed_by_id locked now id q.rows) q.held)
  settles :
      (w : World) (item : Notification)
      → get_by_id item.id q.held ≡ some item
      → QueueStep q (record { rows = (settle w item q.rows).1; held = let_go item.id q.held })
  abandons : (id : ℕ) → QueueStep q (record q { held = let_go id q.held })
  requeues : (now id at : ℕ) → QueueStep q (record q { rows = (requeue_failed now id at q.rows).1 })
  discards : (now id : ℕ) → QueueStep q (record q { rows = (mark_discarded now id q.rows).1 })

pub data Runs (q : Queue) : Queue → Type 0 where
  stays : Runs q q
  then_step : {r s : Queue} → Runs q r → QueueStep r s → Runs q s

abbrev pub no_rows : Queue
no_rows = record { rows = []; held = [] }

-- The row of a held item is being processed and has seen as many attempts as the item says.
abbrev pub Kept : List Notification → Notification → Type 0
Kept rows i =
    (n : Notification) × (get_by_id i.id rows ≡ some n)
    × (n.status ≡ processing)
    × (n.attempt_count ≡ i.attempt_count)

-- No id stands twice among the rows or among the held items, every held item is kept, and a
-- pending row has attempts left.
pub record IsQueue (q : Queue) : Type 0 where
  pub distinct : Distinct q.rows
  pub exclusive : Distinct q.held
  pub kept : (j : ℕ) (i : Notification) → get_by_id j q.held ≡ some i → Kept q.rows i
  pub bounded :
      (j : ℕ) (n : Notification)
      → get_by_id j q.rows ≡ some n
      → n.status ≡ pending
      → n.attempt_count < max_attempts
