-- ===== src/Outbox/Backoff.antt =====
-- notificationRetryDelay, and the accounts of ProcessOutbox.
use Prim.Native.Nat.{min}
use hsync_server.Prelude.{
  ℕ, zero, suc, ◌+◌, ◌*◌, ◌^◌, ◌≤◌, ◌<◌, ◌≡◌, refl, ◌∙◌, ap, sym, ℤ, pos, leb_ℤ, Bool, false, none,
  List, [], ◌∷◌, length, leb, arith, Bool-cases, Option-cases, inl, inr, if◌then◌else◌,
}
use hsync_server.Outbox.Table.{Notification, claim_due}
use hsync_server.Outbox.Delivery.{
  max_backoff, base_backoff, double_delay, retry_delay, World, Settled, stopped, unmarked,
  delivered, rescheduled, exhausted, settle, failure_of, ProcessResult, count_settled,
  process_items, process_outbox,
}

power_pos : (n : ℕ) → 1 ≤ 2 ^ n
power_pos zero = omega arith
power_pos (suc n) = grind (arith, power_pos n)

double_pow : (n delay : ℕ) → delay * 2 * 2 ^ n ≡ delay * 2 ^ suc n
double_pow n delay = grind arith

at_least : (n delay : ℕ) → delay ≤ delay * 2 ^ n
at_least n delay = grind (arith, power_pos n)

double_lem :
    (rounds delay : ℕ)
    → 0 < delay
    → delay < max_backoff
    → double_delay rounds delay ≡ min max_backoff (delay * 2 ^ rounds)
unfolding double_delay
double_lem zero delay p h = omega arith
double_lem (suc rounds) delay p h = elim (Bool-cases (leb max_backoff (delay * 2))) [
  | inl over ↦ rw over (ground (arith, double_pow rounds delay, at_least rounds (delay * 2)))
  | inr under ↦ rw under (
      double_lem rounds (delay * 2) (omega arith) (ground arith)
      ∙ ap (min max_backoff) (double_pow rounds delay))
]

-- The delay before the retry that follows the n-th failed attempt: a minute doubled n - 1 times,
-- and at most an hour.
pub retry_delay_lem :
    (failures : ℕ) → retry_delay (suc failures) ≡ min max_backoff (base_backoff * 2 ^ failures)
unfolding retry_delay
retry_delay_lem failures = double_lem failures base_backoff (omega arith) (omega arith)

-- How many items a batch has settled.
abbrev pub settled : ProcessResult → ℕ
settled r = r.sent + r.retried + r.failed

count_more :
    (s : Settled) (r : ProcessResult)
    → failure_of s ≡ none
    → settled (count_settled s r) ≡ settled r + 1
unfolding count_settled
count_more stopped r h = absurd (ground arith)
count_more unmarked r h = absurd (ground arith)
count_more delivered r h = omega arith
count_more rescheduled r h = omega arith
count_more exhausted r h = omega arith

count_claimed : (s : Settled) (r : ProcessResult) → (count_settled s r).claimed ≡ r.claimed
unfolding count_settled
count_claimed stopped r = refl
count_claimed unmarked r = refl
count_claimed delivered r = refl
count_claimed rescheduled r = refl
count_claimed exhausted r = refl

items_account :
    (w : World) (items rows : List Notification) (r : ProcessResult)
    → let (failure, r', _) = process_items w items rows r in
      (failure ≡ none → settled r' ≡ settled r + length items)
      × (settled r' ≤ settled r + length items)
      × (r'.claimed ≡ r.claimed)
unfolding process_items
items_account w [] rows r = ((λ _. omega arith), omega arith, refl)
items_account w (item ∷ items) rows r = elim (Option-cases (failure_of (settle w item rows).0)) [
  | inl fine ↦
      rw (fine, process_items)
        let s = (settle w item rows).0 in
          let (all, most, same) =
            items_account w items (settle w item rows).1 (count_settled s r) in
          let more = count_more s r fine in
          ((λ h. omega (arith, all h, more)), omega (arith, most, more), same ∙ count_claimed s r)
  | inr (e, stop) ↦ rw (stop, process_items) ((λ h. absurd (ground arith)), omega arith, refl)
]

-- A batch of ProcessOutbox that ends without an error has sent, put off or given up exactly as many
-- items as it claimed.
pub process_accounts :
    (w : World) (locked : ℕ → Bool) (claim_fails : Bool) (limit : ℤ) (rows : List Notification)
    → (process_outbox w locked claim_fails limit rows).0 ≡ none
    → let r = (process_outbox w locked claim_fails limit rows).1 in settled r ≡ r.claimed
unfolding process_outbox
process_accounts w locked claim_fails limit rows fine = elim (Bool-cases claim_fails) [
  | inl lost ↦ absurd (ground arith)
  | inr claimed ↦ rw (run claimed) (counted (ap (λ b. b.0) (sym (run claimed)) ∙ fine))
]
  where
    claim : List Notification × List Notification
    claim = claim_due locked w.now (if leb_ℤ limit (pos 0) then pos 50 else limit) rows

    start : ProcessResult
    start = record { claimed = length claim.0; sent = 0; retried = 0; failed = 0 }

    counted :
        (process_items w claim.0 claim.1 start).0 ≡ none
        → settled (process_items w claim.0 claim.1 start).1
          ≡ (process_items w claim.0 claim.1 start).1.claimed
    counted h =
        let (all, most, same) = items_account w claim.0 claim.1 start in omega (arith, all h, same)

    run :
        claim_fails ≡ false
        → process_outbox w locked claim_fails limit rows ≡ process_items w claim.0 claim.1 start
    run e = rw e refl
