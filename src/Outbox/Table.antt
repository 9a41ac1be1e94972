-- ===== src/Outbox/Table.antt =====
-- pkg/model/model.go and pkg/repository/notification_outbox.go: the table notification_outbox and
-- the statements on it. Times are nanoseconds since 1970. A claim is one statement; the rows that
-- other transactions hold locked, which it skips, are an argument.
use hsync_server.Prelude.{
  ℕ, ◌+◌, ℤ, pos, pos_part, leb_ℤ, ltb_ℤ, Bool, true, false, not, ◌&&◌, ◌||◌, Option, none, some,
  List, [], ◌∷◌, map, Text, ◌==◌, text_eq, nat_eq, nat_eqb, if◌then◌else◌, length, ltb, leb, take,
  keep_if, any_if,
}
use hsync_server.GoStrings.{codes, trim_space}

-- NotificationOutboxStatus
pub data OutboxStatus : Type 0 where
  pending processing sent failed discarded : OutboxStatus

-- NotificationOutbox
pub record Notification : Type 0 where
  pub id : ℕ
  pub user_id : ℕ
  pub channel : Text
  pub category : Text
  pub kind : Text
  pub payload_json : Text
  pub status : OutboxStatus
  pub attempt_count : ℕ
  pub next_retry_at : ℕ
  pub last_error : Text
  pub created_at : ℕ
  pub updated_at : ℕ
  pub sent_at : Option ℕ

abbrev pub is_pending : OutboxStatus → Bool
is_pending pending = true
is_pending _ = false

abbrev pub is_failed : OutboxStatus → Bool
is_failed failed = true
is_failed _ = false

abbrev pub default_limit : ℤ
default_limit = pos 50

abbrev pub max_limit : ℤ
max_limit = pos 200

-- normalizeNotificationLimit
unfoldable pub normalize_limit : ℤ → ℤ → ℤ → ℤ
normalize_limit limit fallback max =
    if leb_ℤ limit (pos 0) || ltb_ℤ max limit then fallback else limit

-- truncateNotificationError
unfoldable pub truncate_error : Text → Text
truncate_error text =
    let trimmed = trim_space text in if leb (length trimmed) 512 then trimmed else take 512 trimmed

-- GetByID
unfoldable pub get_by_id : ℕ → List Notification → Option Notification
get_by_id id [] = none
get_by_id id (n ∷ ns) = let rest = get_by_id id ns in if n.id == id then some n else rest

-- UPDATE ... WHERE id = $1
unfoldable pub update_by_id :
    ℕ → (Notification → Notification) → List Notification → List Notification
update_by_id id f [] = []
update_by_id id f (n ∷ ns) = (if n.id == id then f n else n) ∷ update_by_id id f ns

-- Enqueue: the row that it adds, with the id that the database draws. No retry time is Go's zero
-- time, which becomes the current one.
unfoldable pub enqueue :
    ℕ → ℕ → ℕ → Text → Text → Text → Text → Option ℕ → List Notification → List Notification
enqueue id now user_id channel category kind payload next_retry_at rows =
    record {
      id = id;
      user_id = user_id;
      channel = channel;
      category = category;
      kind = kind;
      payload_json = if payload == [] then codes "{}" else payload;
      status = pending;
      attempt_count = 0;
      next_retry_at = elim next_retry_at [ none ↦ now | some t ↦ t ];
      last_error = [];
      created_at = now;
      updated_at = now;
      sent_at = none;
    }
    ∷ rows

-- ORDER BY, as an insertion sort.
unfoldable pub insert_by :
    (Notification → Notification → Bool) → Notification → List Notification → List Notification
insert_by before n [] = n ∷ []
insert_by before n (m ∷ ms) =
    let later = insert_by before n ms in if before n m then n ∷ m ∷ ms else m ∷ later

unfoldable pub sort_by :
    (Notification → Notification → Bool) → List Notification → List Notification
unfolding insert_by
sort_by before [] = []
sort_by before (n ∷ ns) = insert_by before n (sort_by before ns)

-- next_retry_at, created_at
abbrev pub due_earlier : Notification → Notification → Bool
due_earlier n m =
    ltb n.next_retry_at m.next_retry_at
    || (nat_eqb n.next_retry_at m.next_retry_at && leb n.created_at m.created_at)

-- updated_at DESC, created_at DESC, id DESC
abbrev pub failed_later : Notification → Notification → Bool
failed_later n m =
    ltb m.updated_at n.updated_at
    || (nat_eqb n.updated_at m.updated_at
        && (ltb m.created_at n.created_at || (nat_eqb n.created_at m.created_at && leb m.id n.id)))

-- status = 'processing', updated_at = now()
abbrev pub taken : ℕ → Notification → Notification
taken now n = record n { status = processing; updated_at = now }

abbrev pub has_id : ℕ → List Notification → Bool
has_id id ns = any_if (λ n. n.id == id) ns

-- WITH picked AS (SELECT ... LIMIT ... FOR UPDATE SKIP LOCKED) UPDATE ... RETURNING.
unfoldable pub pick :
    (Notification → Notification → Bool)
    → (Notification → Bool)
    → ℕ
    → List Notification
    → List Notification
pick before wanted limit rows = take limit (sort_by before (keep_if wanted rows))

unfoldable pub take_rows : ℕ → List Notification → List Notification → List Notification
take_rows now picked [] = []
take_rows now picked (n ∷ ns) =
    (if has_id n.id picked then taken now n else n) ∷ take_rows now picked ns

abbrev pub Claimed : Type 0
Claimed = List Notification × List Notification

unfoldable pub claim_picked : ℕ → List Notification → List Notification → Claimed
claim_picked now picked rows = (map (taken now) picked, take_rows now picked rows)

-- ClaimDue: the claimed items and the table after it.
unfoldable pub claim_due : (ℕ → Bool) → ℕ → ℤ → List Notification → Claimed
claim_due locked now limit rows =
    claim_picked now
      (pick due_earlier (λ n. is_pending n.status && leb n.next_retry_at now && not (locked n.id))
        (pos_part (normalize_limit limit default_limit max_limit)) rows)
      rows

-- ClaimFailed
unfoldable pub claim_failed : (ℕ → Bool) → ℕ → ℤ → List Notification → Claimed
claim_failed locked now limit rows =
    claim_picked now
      (pick failed_later (λ n. is_failed n.status && not (locked n.id))
        (pos_part (normalize_limit limit default_limit max_limit)) rows)
      rows

-- ClaimFailedByID
unfoldable pub claim_failed_by_id : (ℕ → Bool) → ℕ → ℕ → List Notification → Claimed
claim_failed_by_id locked now id rows =
    claim_picked now (keep_if (λ n. n.id == id && is_failed n.status && not (locked n.id)) rows)
      rows

unfoldable pub mark_sent : ℕ → ℕ → ℕ → List Notification → List Notification
mark_sent now id sent_at rows =
    update_by_id id
      (λ n. record n { status = sent; sent_at = some sent_at; last_error = []; updated_at = now })
      rows

unfoldable pub mark_retry : ℕ → ℕ → ℕ → Text → List Notification → List Notification
mark_retry now id next_retry_at text rows =
    update_by_id id
      (λ n. record n {
        status = pending;
        attempt_count = n.attempt_count + 1;
        next_retry_at = next_retry_at;
        last_error = truncate_error text;
        updated_at = now;
      })
      rows

unfoldable pub mark_failed : ℕ → ℕ → Text → List Notification → List Notification
mark_failed now id text rows =
    update_by_id id
      (λ n. record n {
        status = failed;
        attempt_count = n.attempt_count + 1;
        last_error = truncate_error text;
        updated_at = now;
      })
      rows

-- WHERE id = $1 AND status = 'failed', with whether a row was changed.
unfoldable pub update_failed :
    ℕ → (Notification → Notification) → List Notification → Bool × List Notification
update_failed id f rows = (
  any_if (λ n. n.id == id && is_failed n.status) rows,
  update_by_id id (λ n. if is_failed n.status then f n else n) rows,
)

unfoldable pub requeue_failed : ℕ → ℕ → ℕ → List Notification → Bool × List Notification
requeue_failed now id next_retry_at rows =
    update_failed id
      (λ n. record n {
        status = pending;
        attempt_count = 0;
        next_retry_at = next_retry_at;
        last_error = [];
        sent_at = none;
        updated_at = now;
      })
      rows

unfoldable pub mark_discarded : ℕ → ℕ → List Notification → Bool × List Notification
mark_discarded now id rows =
    update_failed id (λ n. record n { status = discarded; updated_at = now }) rows
