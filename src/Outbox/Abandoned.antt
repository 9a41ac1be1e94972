-- ===== src/Outbox/Abandoned.antt =====
-- What becomes of a notification whose worker has stopped.
use hsync_server.Prelude.{
  ℕ, ◌+◌, ◌≡◌, refl, ◌∙◌, true, false, Option, none, some, List, map, Text, ◌==◌, nat_eq,
  nat_eqb_iff, leb, arith, Bool-cases, Option-cases, inl, inr,
}
use hsync_server.Outbox.Table.{
  Notification, processing, get_by_id, update_by_id, enqueue, claim_due, claim_failed,
  claim_failed_by_id, requeue_failed, mark_discarded, claim_picked, taken, update_failed, mark_sent,
  mark_retry, mark_failed,
}
use hsync_server.Outbox.Delivery.{
  World, Settling, settle, marked, attempt_failed, Settled, delivered, rescheduled, exhausted,
  max_attempts,
}
use hsync_server.Outbox.Lookup.{KeepsId, get-kept}
use hsync_server.Outbox.System.{
  Queue, let_go, hold, QueueStep, enqueues, claims_due, claims_failed, claims_one, settles,
  abandons, requeues, discards, Runs, stays, then_step, IsQueue,
}
use hsync_server.Outbox.Custody.{Free}
use hsync_server.Outbox.Lookup.{get-update, get-take_rows, get-append, get-taken, has_id-get}
use hsync_server.Outbox.Steps.{
  Step-IsQueue, pick-Free, keep_if-Free, pending_of_test, failed_of_test,
}

-- The row with the id j is being processed as n, and no worker holds it.
record Abandoned (j : ℕ) (n : Notification) (q : Queue) : Type 0 where
  row : get_by_id j q.rows ≡ some n
  busy : n.status ≡ processing
  unheld : get_by_id j q.held ≡ none

claimed-Abandoned :
    (q : Queue) (now j : ℕ) (n : Notification) (picked : List Notification)
    → Free picked q.rows
    → Abandoned j n q
    → Abandoned j n (hold (claim_picked now picked q.rows) q.held)
unfolding claim_picked
claimed-Abandoned q now j n picked free a = elim (Option-cases (get_by_id j picked)) [
  | inl not_picked ↦ record {
    row = ground (arith, a.row, get-take_rows j now picked q.rows, has_id-get j picked);
    busy = a.busy;
    unheld =
        ground
          (arith, a.unheld, get-append j (map (taken now) picked) q.held, get-taken j now picked);
  }
  | inr (p, here) ↦
      let (row, st) = free j p here in
      let same : p ≡ n = let r = a.row in ground arith in
      let b = a.busy in elim st [ inl x ↦ absurd (ground arith) | inr x ↦ absurd (ground arith) ]
]

updated-Abandoned :
    (q : Queue) (j id : ℕ) (n : Notification) (f : Notification → Notification)
    → KeepsId f
    → ((j == id) ≡ true → f n ≡ n)
    → Abandoned j n q
    → get_by_id j (update_by_id id f q.rows) ≡ some n
updated-Abandoned q j id n f k quiet a = ground (arith, a.row, get-update j id f q.rows k, quiet)

dropped-unheld :
    (q : Queue) (j id : ℕ)
    → get_by_id j q.held ≡ none
    → IsQueue q
    → get_by_id j (let_go id q.held) ≡ none
dropped-unheld q j id e g = elim (Option-cases (get_by_id j (let_go id q.held))) [
  | inl gone ↦ gone
  | inr (i, found) ↦ absurd (let (h, _) = get-kept j _ q.held i g.exclusive found in ground arith)
]

other_id :
    (held : List Notification) (j : ℕ) (item : Notification)
    → get_by_id j held ≡ none
    → get_by_id item.id held ≡ some item
    → (j == item.id) ≡ false
other_id held j item gone found = elim (Bool-cases (j == item.id)) [
  | inl same ↦
      let eq : get_by_id j held ≡ some item = rw ((nat_eqb_iff j item.id).0 same) found in
      absurd (ground arith)
  | inr other ↦ other
]

marked-others :
    (w : World) (item : Notification) (s : Settled) (rows : List Notification) (j : ℕ)
    (f : Notification → Notification)
    → KeepsId f
    → (j == item.id) ≡ false
    → get_by_id j (marked w item s rows (update_by_id item.id f rows)).1 ≡ get_by_id j rows
marked-others w item s rows j f k other = ground (arith, get-update j item.id f rows k)

-- A delivery changes no row but that of its item.
settle-others :
    (w : World) (item : Notification) (rows : List Notification) (j : ℕ)
    → (j == item.id) ≡ false
    → get_by_id j (settle w item rows).1 ≡ get_by_id j rows
unfolding settle mark_sent mark_retry mark_failed
settle-others w item rows j other = elim (Bool-cases (w.cancelled item)) [
  | inl ended ↦ rw ended refl
  | inr alive ↦ rw alive (delivery (w.deliver item))
]
  where
    delivery :
        (answer : Option Text)
        → let out : Settling = elim answer [
          | none ↦ marked w item delivered rows (mark_sent w.now item.id w.now rows)
          | some text ↦ attempt_failed w item text rows
        ] in
          get_by_id j out.1 ≡ get_by_id j rows
    delivery none = marked-others w item delivered rows j _ (λ n. refl) other
    delivery (some text) = elim (Bool-cases (leb max_attempts (item.attempt_count + 1))) [
      | inl last ↦ rw last (marked-others w item exhausted rows j _ (λ n. refl) other)
      | inr more ↦ rw more (marked-others w item rescheduled rows j _ (λ n. refl) other)
    ]

Step-Abandoned :
    {q r : Queue} (j : ℕ) (n : Notification)
    → QueueStep q r
    → IsQueue q
    → Abandoned j n q
    → Abandoned j n r
unfolding claim_due claim_failed claim_failed_by_id requeue_failed mark_discarded update_failed
Step-Abandoned {q} j n (enqueues id now user channel category kind payload at fresh) g a = record {
  row = unfold enqueue get_by_id in ground (arith, fresh, a.row, nat_eqb_iff id j);
  busy = a.busy;
  unheld = a.unheld;
}
Step-Abandoned {q} j n (claims_due locked now limit) g a =
    claimed-Abandoned q now j n _
      (pick-Free _ _ _ q.rows g.distinct (λ m t. inl (pending_of_test m.status _ _ t))) a
Step-Abandoned {q} j n (claims_failed locked now limit) g a =
    claimed-Abandoned q now j n _
      (pick-Free _ _ _ q.rows g.distinct (λ m t. inr (failed_of_test m.status _ t))) a
Step-Abandoned {q} j n (claims_one locked now id) g a =
    claimed-Abandoned q now j n _ (keep_if-Free _ q.rows g.distinct (λ m t. inr (ground arith))) a
Step-Abandoned {q} j n (settles w item mine) g a = record {
  row = settle-others w item q.rows j (let u = a.unheld in other_id q.held j item u mine) ∙ a.row;
  busy = a.busy;
  unheld = dropped-unheld q j item.id a.unheld g;
}
Step-Abandoned {q} j n (abandons id) g a = record {
  row = a.row;
  busy = a.busy;
  unheld = dropped-unheld q j id a.unheld g;
}
Step-Abandoned {q} j n (requeues now id at) g a = record {
  row = updated-Abandoned q j id n _ (λ m. ground arith) (λ same. let b = a.busy in ground arith) a;
  busy = a.busy;
  unheld = a.unheld;
}
Step-Abandoned {q} j n (discards now id) g a = record {
  row = updated-Abandoned q j id n _ (λ m. ground arith) (λ same. let b = a.busy in ground arith) a;
  busy = a.busy;
  unheld = a.unheld;
}

-- A notification that is being processed while no worker holds it, as after a batch that ended
-- with an error, keeps its row as it is for ever: no claim, no action and no worker takes it up
-- again.
pub abandoned_stays :
    (q r : Queue) (j : ℕ) (n : Notification)
    → IsQueue q
    → Runs q r
    → get_by_id j q.rows ≡ some n
    → n.status ≡ processing
    → get_by_id j q.held ≡ none
    → (get_by_id j r.rows ≡ some n) × (get_by_id j r.held ≡ none)
abandoned_stays q r j n g runs row busy unheld = let a = (along g runs).1 in (a.row, a.unheld)
  where
    along : {r : Queue} → IsQueue q → Runs q r → IsQueue r × Abandoned j n r
    along g stays = (g, record { row = row; busy = busy; unheld = unheld })
    along g (then_step earlier s) =
        let (h, a) = along g earlier in (Step-IsQueue s h, Step-Abandoned j n s h a)
