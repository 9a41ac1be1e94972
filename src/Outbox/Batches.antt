-- ===== src/Outbox/Batches.antt =====
-- How a worker goes through the items it has claimed, as steps of the outbox.
use mathlib.Core.Path.{subst}
use hsync_server.Prelude.{
  ℕ, ◌≡◌, refl, none, List, [], ◌∷◌, ◌++◌, nat_eq, keep_if, arith, Option-cases, inl, inr, eqb_refl,
}
use hsync_server.Outbox.Table.{Notification, get_by_id}
use hsync_server.Outbox.Delivery.{World, settle}
use hsync_server.Outbox.Lookup.{Distinct}
use hsync_server.Outbox.System.{Queue, let_go, QueueStep, settles, abandons, Runs, stays, then_step}
use hsync_server.Outbox.Delivery.{failure_of, ProcessResult, process_items}
use hsync_server.Outbox.Actions.{retry_claimed, retry_items, ActionResult}

pub Runs-trans : {q r s : Queue} → Runs q r → Runs r s → Runs q s
Runs-trans first stays = first
Runs-trans first (then_step later s) = then_step (Runs-trans first later) s

pub one : {q r : Queue} → QueueStep q r → Runs q r
one s = then_step stays s

pub let_go-fresh :
    (id : ℕ) (held : List Notification) → get_by_id id held ≡ none → let_go id held ≡ held
unfolding keep_if get_by_id
let_go-fresh id [] e = refl
let_go-fresh id (i ∷ is) e = ground (arith, let_go-fresh id is)

pub let_go-head :
    (item : Notification) (held : List Notification)
    → get_by_id item.id held ≡ none
    → let_go item.id (item ∷ held) ≡ held
unfolding keep_if
let_go-head item held e = rw (eqb_refl item.id) (let_go-fresh item.id held e)

-- A worker that stops lets its items go.
pub abandoned-Runs :
    (items rows held : List Notification)
    → Distinct (items ++ held)
    → Runs (record { rows = rows; held = items ++ held }) (record { rows = rows; held = held })
abandoned-Runs [] rows held d = stays
abandoned-Runs (item ∷ items) rows held d =
    let step : Runs (record { rows = rows; held = item ∷ items ++ held })
        (record { rows = rows; held = items ++ held }) =
      subst
        (λ h.
          Runs (record { rows = rows; held = item ∷ items ++ held })
            (record { rows = rows; held = h }))
        (let_go-head item (items ++ held) d.0) (one (abandons item.id)) in
    Runs-trans step (abandoned-Runs items rows held d.1)

-- The delivery of the next item.
pub settled-Runs :
    (w : World) (item : Notification) (rows held : List Notification)
    → get_by_id item.id held ≡ none
    → Runs
        (record { rows = rows; held = item ∷ held })
        (record { rows = (settle w item rows).1; held = held })
settled-Runs w item rows held fresh =
    subst
      (λ h.
        Runs (record { rows = rows; held = item ∷ held })
          (record { rows = (settle w item rows).1; held = h }))
      (let_go-head item held fresh)
      (one (settles w item (unfold get_by_id in rw (eqb_refl item.id) refl)))

pub process_items-Runs :
    (w : World) (items rows held : List Notification) (r : ProcessResult)
    → Distinct (items ++ held)
    → Runs
        (record { rows = rows; held = items ++ held })
        (record { rows = (process_items w items rows r).2; held = held })
unfolding process_items
process_items-Runs w [] rows held r d = stays
process_items-Runs w (item ∷ items) rows held r d =
    elim (Option-cases (failure_of (settle w item rows).0)) [
      | inl fine ↦
          rw (fine, process_items)
            (Runs-trans (settled-Runs w item rows (items ++ held) d.0)
              (process_items-Runs w items _ held _ d.1))
      | inr (e, stop) ↦
          rw (stop, process_items)
            (Runs-trans (settled-Runs w item rows (items ++ held) d.0)
              (abandoned-Runs items _ held d.1))
    ]

pub retry_items-Runs :
    (w : World) (items rows held : List Notification) (total : ActionResult)
    → Distinct (items ++ held)
    → Runs
        (record { rows = rows; held = items ++ held })
        (record { rows = (retry_items w items rows total).2; held = held })
unfolding retry_items retry_claimed
retry_items-Runs w [] rows held total d = stays
retry_items-Runs w (item ∷ items) rows held total d =
    elim (Option-cases (failure_of (settle w item rows).0)) [
      | inl fine ↦
          rw (fine, retry_items)
            (Runs-trans (settled-Runs w item rows (items ++ held) d.0)
              (retry_items-Runs w items _ held _ d.1))
      | inr (e, stop) ↦
          rw (stop, retry_items)
            (Runs-trans (settled-Runs w item rows (items ++ held) d.0)
              (abandoned-Runs items _ held d.1))
    ]
