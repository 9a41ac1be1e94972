-- ===== src/Idempotency/Table.antt =====
-- pkg/model/idempotency.go and pkg/repository/idempotency.go: the table idempotency_records and
-- the statements on it. Its timestamps created_at and updated_at are not read by the program.
-- Times are nanoseconds since 1970; a row's id is a number that the table hands out once.
use hsync_server.Prelude.{
  ℕ, ◌+◌, ℤ, pos, ltb_ℤ, Bool, true, false, ◌&&◌, not, Option, none, some, List, [], ◌∷◌, Text,
  ◌==◌, text_eq, nat_eq, pair_eq, if◌then◌else◌, length, leb, take,
}
use hsync_server.GoStrings.{codes}

pub data Status : Type 0 where
  processing succeeded failed : Status

-- IdempotencyRecord; the key is its scope and the hash of its idempotency key.
pub record Row : Type 0 where
  pub id : ℕ
  pub key : Text × Text
  pub request_fingerprint : Text
  pub status : Status
  pub locked_until : Option ℤ
  pub response_status : Option ℤ
  pub response_body : Text
  pub error_reason : Text
  pub expires_at : ℤ

pub record Table : Type 0 where
  pub rows : List Row
  pub next_id : ℕ

abbrev pub empty : Table
empty = record { rows = []; next_id = 0 }

-- IdempotencyClaimParams
pub record ClaimParams : Type 0 where
  pub key : Text × Text
  pub request_fingerprint : Text
  pub now : ℕ
  pub locked_until : ℤ
  pub expires_at : ℤ

pub data ClaimStatus : Type 0 where
  started replayed conflict in_progress : ClaimStatus

-- getIdempotencyForUpdate: the row with the unique key.
unfoldable pub find : Text × Text → List Row → Option Row
find key [] = none
find key (r ∷ rs) = let rest = find key rs in if r.key == key then some r else rest

-- UPDATE ... WHERE id = $1
unfoldable pub update : ℕ → (Row → Row) → List Row → List Row
update id f [] = []
update id f (r ∷ rs) = (if r.id == id then f r else r) ∷ update id f rs

-- The row that insertProcessingIdempotency inserts.
abbrev pub new_row : ℕ → ClaimParams → Row
new_row id p = record {
  id = id;
  key = p.key;
  request_fingerprint = p.request_fingerprint;
  status = processing;
  locked_until = some p.locked_until;
  response_status = none;
  response_body = codes "{}";
  error_reason = [];
  expires_at = p.expires_at;
}

-- What reclaimIdempotency sets.
abbrev pub reclaimed_row : ClaimParams → Row → Row
reclaimed_row p r = record r {
  status = processing;
  locked_until = some p.locked_until;
  expires_at = p.expires_at;
  response_status = none;
  response_body = codes "{}";
  error_reason = [];
}

-- existing.LockedUntil != nil && existing.LockedUntil.After(p.Now)
abbrev pub locked_at : Option ℤ → ℕ → Bool
locked_at none now = false
locked_at (some until) now = ltb_ℤ (pos now) until

abbrev pub is_succeeded : Status → Bool
is_succeeded succeeded = true
is_succeeded _ = false

abbrev pub is_processing : Status → Bool
is_processing processing = true
is_processing _ = false

-- Claim's tests of a row that exists, in their order.
unfoldable pub verdict : ClaimParams → Row → ClaimStatus
verdict p existing =
    if not (existing.request_fingerprint == p.request_fingerprint)
    then conflict
    else if is_succeeded existing.status
    then replayed
    else if is_processing existing.status && locked_at existing.locked_until p.now
    then in_progress
    else started

-- What Claim does after its tests: only a reclaim changes the row. The transaction has locked the
-- row, so it cannot disappear in between.
unfoldable pub claim_by : ClaimStatus → Table → ClaimParams → Row → Table × ClaimStatus × Row
claim_by started t p existing = (
  record t { rows = update existing.id (reclaimed_row p) t.rows },
  started,
  reclaimed_row p existing,
)
claim_by replayed t p existing = (t, replayed, existing)
claim_by conflict t p existing = (t, conflict, existing)
claim_by in_progress t p existing = (t, in_progress, existing)

unfoldable pub claim : Table → ClaimParams → Table × ClaimStatus × Row
claim t p = elim (find p.key t.rows) [
  | none ↦ (
    record { rows = new_row t.next_id p ∷ t.rows; next_id = t.next_id + 1 },
    started,
    new_row t.next_id p,
  )
  | some existing ↦ claim_by (verdict p existing) t p existing
]

-- What MarkSucceeded sets; `jsonb` is what the column gives back for the text it is given.
abbrev pub succeeded_row : (Text → Text) → ℤ → Text → Row → Row
succeeded_row jsonb response_status body r = record r {
  status = succeeded;
  locked_until = none;
  response_status = some response_status;
  response_body = jsonb body;
  error_reason = [];
}

unfoldable pub mark_succeeded : (Text → Text) → Table → ℕ → ℤ → Text → Table
mark_succeeded jsonb t id response_status response_body =
    let body = if response_body == [] then codes "{}" else response_body in
    record t { rows = update id (succeeded_row jsonb response_status body) t.rows }

unfoldable pub trim_failure_reason : Text → Text
trim_failure_reason reason = if leb (length reason) 500 then reason else take 500 reason

-- What MarkFailed sets.
abbrev pub failed_row : Text → Row → Row
failed_row reason r = record r {
  status = failed;
  locked_until = none;
  error_reason = trim_failure_reason reason;
}

unfoldable pub mark_failed : Table → ℕ → Text → Table
mark_failed t id reason = record t { rows = update id (failed_row reason) t.rows }
