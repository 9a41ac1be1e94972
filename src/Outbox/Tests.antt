-- ===== src/Outbox/Tests.antt =====
-- pkg/repository/notification_outbox.go and pkg/service/notification.go: runs at concrete inputs.
use Prim.Native.Nat.{min}
use hsync_server.Prelude.{
  ◌*◌, ◌^◌, ◌≡◌, refl, pos, false, none, some, [], text_eqb, keep_if, any_if, Text, ◌∷◌, ◌++◌,
  arith, Option, if◌then◌else◌, length, ◌≤◌, nat_eqb,
}
use hsync_server.GoStrings.{
  lower_byte, codes, to_lower, index_of, has_prefix, trim_left, has_suffix,
}
use hsync_server.Outbox.Table.{
  Notification, processing, get_by_id, enqueue, claim_due, claim_picked, pick, sort_by, insert_by,
  take_rows, normalize_limit,
}
use hsync_server.Outbox.Delivery.{
  World, settle, process_outbox, process_items, retry_delay, double_delay, base_backoff,
  max_backoff,
}
use hsync_server.Outbox.Actions.{
  ActionFaults, retry_failures, retry_failure, requeue_failure, discard_failure,
}
use hsync_server.Outbox.System.{
  Queue, hold, let_go, Runs, stays, then_step, enqueues, claims_due, abandons, no_rows, IsQueue,
}
use hsync_server.Outbox.Steps.{custody_holds}
use hsync_server.Outbox.Refinement.{service-Runs}
use hsync_server.GoStrings.Ascii.{is_ascii, lower_text}
use hsync_server.Outbox.Redaction.{
  redact_assignments, redact_keys, redact_assignment, ends_value, after_value,
}
use hsync_server.Outbox.Sanitize.{
  Url, sanitize_notification_error, after_webhook, finish_error, sanitize_webhook_error,
}
use hsync_server.Outbox.Sanitized.{sanitize_ends}
use hsync_server.Outbox.Secrets.{secret_redacted}
use hsync_server.Outbox.Backoff.{retry_delay_lem, process_accounts, settled}
use hsync_server.Outbox.Abandoned.{abandoned_stays}

-- One notification, enqueued at time 10.
abbrev queued : Queue
queued = record {
  rows = enqueue 7 10 1 (codes "email") (codes "billing") (codes "quota") [] none [];
  held = [];
}

-- The same after a worker has claimed it at time 20.
abbrev claimed_once : Queue
claimed_once = hold (claim_due (λ id. false) 20 (pos 50) queued.rows) []

-- And after that worker has stopped.
abbrev left_alone : Queue
left_alone = record { rows = claimed_once.rows; held = let_go 7 claimed_once.held }

queued-Runs : Runs no_rows queued
unfolding get_by_id
queued-Runs =
    then_step stays (enqueues 7 10 1 (codes "email") (codes "billing") (codes "quota") [] none refl)

claimed-Runs : Runs no_rows claimed_once
claimed-Runs = then_step queued-Runs (claims_due (λ id. false) 20 (pos 50))

left_alone-Runs : Runs no_rows left_alone
left_alone-Runs = then_step claimed-Runs (abandons 7)

custody_holds_example : IsQueue claimed_once
custody_holds_example = custody_holds claimed_once claimed-Runs

abbrev world : World
world = record {
  now = 30;
  deliver = λ n. some (codes "refused");
  cancelled = λ n. false;
  mark_fails = λ n. false;
}

abbrev no_faults : ActionFaults
no_faults = record { get_fails = false; act_fails = false }

service-Runs_example :
    Runs queued
      (record queued { rows = (process_outbox world (λ id. false) false (pos 5) queued.rows).2 })
    × Runs queued
        (record queued { rows = (retry_failures world (λ id. false) false (pos 5) queued.rows).2 })
    × Runs queued
        (record queued { rows = (retry_failure world (λ id. false) no_faults 7 queued.rows).2 })
    × Runs queued (record queued { rows = (requeue_failure 30 no_faults 7 queued.rows).2 })
    × Runs queued (record queued { rows = (discard_failure 30 no_faults 7 queued.rows).2 })
service-Runs_example =
    service-Runs world (λ id. false) false no_faults (pos 5) 7 queued
      (custody_holds queued queued-Runs)

abbrev busy_row : Notification
busy_row = record {
  id = 7;
  user_id = 1;
  channel = codes "email";
  category = codes "billing";
  kind = codes "quota";
  payload_json = codes "{}";
  status = processing;
  attempt_count = 0;
  next_retry_at = 10;
  last_error = [];
  created_at = 10;
  updated_at = 20;
  sent_at = none;
}

abandoned_stays_example :
    let later = (process_outbox world (λ id. false) false (pos 5) left_alone.rows).2 in
    (get_by_id 7 later ≡ some busy_row) × (get_by_id 7 left_alone.held ≡ none)
unfolding get_by_id claim_due claim_picked pick sort_by insert_by keep_if take_rows enqueue any_if
    normalize_limit text_eqb
abandoned_stays_example =
    abandoned_stays left_alone
      (record left_alone {
        rows = (process_outbox world (λ id. false) false (pos 5) left_alone.rows).2;
      })
      7 busy_row (custody_holds left_alone left_alone-Runs)
      (service-Runs world (λ id. false) false no_faults (pos 5) 7 left_alone
        (custody_holds left_alone left_alone-Runs)).0
      refl refl refl

retry_delay_lem_example : retry_delay 4 ≡ min max_backoff (base_backoff * 2 ^ 3)
retry_delay_lem_example = retry_delay_lem 3

process_accounts_example :
    let r = (process_outbox world (λ id. false) false (pos 0) queued.rows).1 in
    settled r ≡ r.claimed
unfolding process_outbox process_items settle claim_due claim_picked pick sort_by insert_by keep_if
    take_rows enqueue any_if normalize_limit text_eqb
process_accounts_example = process_accounts world (λ id. false) false (pos 0) queued.rows refl

hour_test : retry_delay 9 ≡ max_backoff
unfolding retry_delay double_delay
hour_test = refl

-- A strings.ToLower that knows ASCII and the letter Ⱥ, whose two bytes it maps to three.
abbrev wide_lower : Text → Text
wide_lower [] = []
wide_lower (c ∷ s) =
    let rest = wide_lower s in
    if nat_eqb c 200
    then 226 ∷ 177 ∷ rest
    else if nat_eqb c 186
    then 165 ∷ rest
    else lower_byte c ∷ rest

-- The index that is found in the longer text lies outside.
panic_test : redact_assignments wide_lower (200 ∷ 186 ∷ codes "token=") ≡ none
unfolding redact_assignments redact_assignment to_lower lower_byte index_of after_value trim_left
    has_prefix ends_value lower_text is_ascii
panic_test = refl

-- Two bytes of the secret stay.
leak_test :
    redact_assignments wide_lower (200 ∷ 186 ∷ 200 ∷ 186 ∷ codes "token=abcdef")
    ≡ some (200 ∷ 186 ∷ 200 ∷ 186 ∷ codes "token=ab<redacted>")
unfolding redact_assignments redact_assignment to_lower lower_byte index_of after_value trim_left
    has_prefix ends_value lower_text is_ascii
leak_test = refl

redacted_test :
    redact_assignments wide_lower (codes "auth failed: Token=abc&user=x password: p")
    ≡ some (codes "auth failed: Token=<redacted>&user=x password:<redacted> p")
unfolding redact_assignments redact_assignment to_lower index_of after_value trim_left has_prefix
    ends_value lower_text is_ascii
redacted_test = refl

abbrev webhook_address : Url
webhook_address = record {
  scheme = codes "https";
  host = codes "h.io";
  user = none;
  path = codes "/T0";
  raw_query = codes "key=1";
  fragment = [];
}

-- A parser of addresses that knows one, and the form of an address without its path.
abbrev one_address : Text → Option Url
one_address s = if text_eqb s (codes "https://h.io/T0?key=1") then some webhook_address else none

abbrev one_text : Url → Text
one_text u = codes "https://h.io/..."

abbrev address_text : Url → Text
address_text u = u.scheme ++ codes "://" ++ u.host ++ u.path

sanitize_test :
    sanitize_notification_error wide_lower one_address address_text
      (some (codes " post https://h.io/T0?key=1, token abc  "))
    ≡ some (codes "post https://h.io/..., token <redacted>")
unfolding sanitize_notification_error after_webhook finish_error sanitize_webhook_error
    redact_assignments redact_assignment to_lower index_of trim_left has_prefix text_eqb has_suffix
    lower_text is_ascii
sanitize_test = refl

-- The space after the colon ends the value, so the value itself stays.
spaced_secret_test :
    sanitize_notification_error wide_lower one_address address_text
      (some (codes "auth failed, password: hunter2"))
    ≡ some (codes "auth failed, password:<redacted> hunter2")
unfolding sanitize_notification_error after_webhook finish_error sanitize_webhook_error
    redact_assignments redact_assignment to_lower index_of trim_left has_prefix text_eqb has_suffix
    lower_text is_ascii after_value ends_value
spaced_secret_test = refl

unmarked_secret_test :
    sanitize_notification_error wide_lower one_address address_text
      (some (codes "bad smtp_password hunter2"))
    ≡ some (codes "bad smtp_password hunter2")
unfolding sanitize_notification_error after_webhook finish_error sanitize_webhook_error
    redact_assignments redact_assignment to_lower index_of trim_left has_prefix text_eqb has_suffix
    lower_text is_ascii
unmarked_secret_test = refl

sanitize_ends_example :
    (out : Text) × (sanitize_notification_error wide_lower one_address one_text
        (some (codes "post failed: token abc"))
      ≡ some out)
    × length out ≤ 240
sanitize_ends_example =
    sanitize_ends one_address one_text (λ u. unfold is_ascii in refl) wide_lower
      (some (codes "post failed: token abc")) (unfold is_ascii in refl)

secret_redacted_example :
    redact_keys wide_lower
      (codes "token=" ∷ [])
      (codes "bad Token=" ++ (codes "abc" ++ codes "&user=x"))
    ≡ redact_keys wide_lower
        (codes "token=" ∷ [])
        (codes "bad Token=" ++ (codes "zz99" ++ codes "&user=x"))
unfolding to_lower index_of ends_value
secret_redacted_example =
    secret_redacted wide_lower (codes "token=") [] (codes "bad Token=") (codes "abc") (codes "zz99")
      (codes "&user=x") 4 (ground arith) refl refl (ground arith) (ground arith)
      (unfold is_ascii in refl) (unfold is_ascii in refl)
