-- ===== src/Outbox/Steps.antt =====
-- The steps of the outbox and the custody of its workers.
use hsync_server.Prelude.{
  ℕ, ◌+◌, ◌<◌, ◌≡◌, refl, Bool, true, ◌&&◌, Option, none, some, List, Text, nat_eq, nat_eqb_iff,
  keep_if, leb, arith, Bool-cases, inl, inr, ◌⊎◌,
}
use hsync_server.Outbox.Table.{
  Notification, OutboxStatus, pending, failed, is_pending, is_failed, get_by_id, update_by_id,
  enqueue, claim_due, claim_failed, claim_failed_by_id, requeue_failed, mark_discarded, pick,
  update_failed, mark_sent, mark_retry, mark_failed,
}
use hsync_server.Outbox.Delivery.{
  World, Settling, settle, marked, attempt_failed, Settled, delivered, rescheduled, exhausted,
  max_attempts,
}
use hsync_server.Outbox.Distinct.{get-pick, Distinct-keep_if, Distinct-pick}
use hsync_server.Outbox.Lookup.{Distinct, KeepsId, get-kept}
use hsync_server.Outbox.System.{
  Queue, let_go, QueueStep, enqueues, claims_due, claims_failed, claims_one, settles, abandons,
  requeues, discards, Runs, stays, then_step, no_rows, IsQueue,
}
use hsync_server.Outbox.Custody.{
  Free, claimed-IsQueue, idle-IsQueue, dropped-IsQueue, released-IsQueue,
}

pub pending_of_test :
    (s : OutboxStatus) (a b : Bool) → (is_pending s && a && b) ≡ true → s ≡ pending
pending_of_test s a b h = ground arith

pub failed_of_test : (s : OutboxStatus) (b : Bool) → (is_failed s && b) ≡ true → s ≡ failed
failed_of_test s b h = ground arith

-- What a claim picks is free, if the rows it wants are pending or failed.
pub pick-Free :
    (before : Notification → Notification → Bool) (wanted : Notification → Bool) (k : ℕ)
    (rows : List Notification)
    → Distinct rows
    → ((n : Notification) → wanted n ≡ true → (n.status ≡ pending) ⊎ (n.status ≡ failed))
    → Free (pick before wanted k rows) rows
pick-Free before wanted k rows d ok j n e =
    let (row, test) = get-pick j before wanted k rows n d e in (row, ok n test)

pub keep_if-Free :
    (wanted : Notification → Bool) (rows : List Notification)
    → Distinct rows
    → ((n : Notification) → wanted n ≡ true → (n.status ≡ pending) ⊎ (n.status ≡ failed))
    → Free (keep_if wanted rows) rows
keep_if-Free wanted rows d ok j n e =
    let (row, test) = get-kept j wanted rows n d e in (row, ok n test)

enqueued-IsQueue :
    (q : Queue) (id now user : ℕ) (channel category kind payload : Text) (at : Option ℕ)
    → get_by_id id q.rows ≡ none
    → IsQueue q
    → IsQueue (record q { rows = enqueue id now user channel category kind payload at q.rows })
unfolding enqueue
enqueued-IsQueue q id now user channel category kind payload at fresh g = record {
  distinct = (fresh, g.distinct);
  exclusive = g.exclusive;
  kept = λ j i e.
      let (n, found, proc, count) = g.kept j i e in
      (n, unfold get_by_id in ground (arith, found, fresh, nat_eqb_iff id i.id), proc, count);
  bounded = λ j n e p. unfold get_by_id in ground (arith, g.bounded j n);
}

settled-IsQueue :
    (q : Queue) (w : World) (item : Notification)
    → get_by_id item.id q.held ≡ some item
    → IsQueue q
    → IsQueue (record { rows = (settle w item q.rows).1; held = let_go item.id q.held })
unfolding settle mark_sent mark_retry mark_failed
settled-IsQueue q w item mine g = elim (Bool-cases (w.cancelled item)) [
  | inl ended ↦ rw ended dropped
  | inr alive ↦ rw alive (delivery (w.deliver item))
]
  where
    dropped : IsQueue (record q { held = let_go item.id q.held })
    dropped = dropped-IsQueue q item.id g

    unless_lost :
        (s : Settled) (f : Notification → Notification)
        → KeepsId f
        → ((n : Notification)
            → n.attempt_count ≡ item.attempt_count
            → (f n).status ≡ pending
            → (f n).attempt_count < max_attempts)
        → IsQueue (record {
          rows = (marked w item s q.rows (update_by_id item.id f q.rows)).1;
          held = let_go item.id q.held;
        })
    unless_lost s f k few = elim (Bool-cases (w.mark_fails item)) [
      | inl lost ↦ rw lost dropped
      | inr written ↦ rw written (released-IsQueue q item f k mine few g)
    ]

    delivery :
        (answer : Option Text)
        → let out : Settling = elim answer [
          | none ↦ marked w item delivered q.rows (mark_sent w.now item.id w.now q.rows)
          | some text ↦ attempt_failed w item text q.rows
        ] in
          IsQueue (record { rows = out.1; held = let_go item.id q.held })
    delivery none = unless_lost delivered _ (λ n. refl) (λ n c p. ground arith)
    delivery (some text) = elim (Bool-cases (leb max_attempts (item.attempt_count + 1))) [
      | inl last ↦ rw last (unless_lost exhausted _ (λ n. refl) (λ n c p. ground arith))
      | inr more ↦
          rw more (unless_lost rescheduled _ (λ n. refl) (λ n c p. ground (arith, c, more)))
    ]

pub Step-IsQueue : {q r : Queue} → QueueStep q r → IsQueue q → IsQueue r
unfolding claim_due claim_failed claim_failed_by_id requeue_failed mark_discarded update_failed
Step-IsQueue {q} (enqueues id now user channel category kind payload at fresh) g =
    enqueued-IsQueue q id now user channel category kind payload at fresh g
Step-IsQueue {q} (claims_due locked now limit) g =
    claimed-IsQueue q now _ g (Distinct-pick _ _ _ q.rows g.distinct)
      (pick-Free _ _ _ q.rows g.distinct (λ n t. inl (pending_of_test n.status _ _ t)))
Step-IsQueue {q} (claims_failed locked now limit) g =
    claimed-IsQueue q now _ g (Distinct-pick _ _ _ q.rows g.distinct)
      (pick-Free _ _ _ q.rows g.distinct (λ n t. inr (failed_of_test n.status _ t)))
Step-IsQueue {q} (claims_one locked now id) g =
    claimed-IsQueue q now _ g (Distinct-keep_if _ q.rows g.distinct)
      (keep_if-Free _ q.rows g.distinct (λ n t. inr (ground arith)))
Step-IsQueue {q} (settles w item mine) g = settled-IsQueue q w item mine g
Step-IsQueue {q} (abandons id) g = dropped-IsQueue q id g
Step-IsQueue {q} (requeues now id at) g =
    idle-IsQueue q id _ (λ n. ground arith) (λ n p. ground arith) (λ n b p. ground (arith, b)) g
Step-IsQueue {q} (discards now id) g =
    idle-IsQueue q id _ (λ n. ground arith) (λ n p. ground arith) (λ n b p. ground (arith, b)) g

-- Whatever the order of the steps, from an empty outbox on: no notification is held by two
-- workers or twice by one, the row of every held notification is being processed, with the number
-- of attempts that its worker knows, and a pending row has seen fewer than five attempts.
pub custody_holds : (q : Queue) → Runs no_rows q → IsQueue q
custody_holds q runs = from_start runs
  where
    from_start : {q : Queue} → Runs no_rows q → IsQueue q
    from_start stays = record {
      distinct = tt;
      exclusive = tt;
      kept = λ j i e. absurd (unfold get_by_id in ground arith);
      bounded = λ j n e p. absurd (unfold get_by_id in ground arith);
    }
    from_start (then_step r s) = Step-IsQueue s (from_start r)
