-- ===== src/Idempotency/Service.antt =====
-- pkg/service/idempotency.go: ExecuteIdempotent over the table.
use hsync_server.Prelude.{
  ℕ, ◌*◌, ℤ, pos, ◌+ℤ◌, leb_ℤ, ltb_ℤ, eqb_ℤ, Bool, true, false, Option, none, some, [], Text, ◌==◌,
  text_eq, if◌then◌else◌,
}
use hsync_server.GoStrings.{codes, trim_space}
use hsync_server.Idempotency.Table.{
  Row, Table, ClaimParams, started, replayed, conflict, in_progress, ClaimStatus, claim,
  mark_succeeded, mark_failed,
}

pub data Error : Type 0 where
  conflict_error in_progress_error key_required store_unavailable scope_required : Error
  fingerprint_error encode_error decode_error : Error
  -- the error of the guarded execution, by its text
  execute_error : Text → Error

-- FingerprintPayload's cases of the payload; `other` holds what json.Marshal gives for it.
pub data Payload : Type 0 where
  nil : Payload
  bytes : Text → Payload
  other : Option Text → Payload

-- IdempotencyOptions
pub record Options : Type 0 where
  pub scope : Text
  pub idempotency_key : Text
  pub payload : Payload
  pub require_key : Bool
  pub ttl : ℤ
  pub lock_ttl : ℤ

pub record Execution (T : Type 0) : Type 0 where
  pub result : T
  pub response_status : ℤ
  pub was_replayed : Bool

pub data Result (A : Type 0) : Type 0 where
  ok : A → Result A
  err : Error → Result A

-- What the guarded function returns: a result with an HTTP status, or an error's text.
pub data Outcome (T : Type 0) : Type 0 where
  done : T → ℤ → Outcome T
  fails : Text → Outcome T

-- What json.Marshal returns: the bytes, or an error's text.
pub data Encoded : Type 0 where
  encoded : Text → Encoded
  not_encoded : Text → Encoded

-- Which of a call's two database calls fail; a failed call changes no row.
pub record Faults : Type 0 where
  pub claim_fails : Bool
  pub mark_fails : Bool

abbrev pub default_lock_ttl : ℤ
default_lock_ttl = pos (30 * 1_000_000_000)

abbrev pub default_write_ttl : ℤ
default_write_ttl = pos (24 * 3600 * 1_000_000_000)

abbrev pub or_default : ℤ → ℤ → ℤ
or_default ttl fallback = if leb_ℤ ttl (pos 0) then fallback else ttl

-- A status of 0 means 200.
abbrev pub effective_status : ℤ → ℤ
effective_status status = if eqb_ℤ status (pos 0) then pos 200 else status

-- The status of a replay: the stored one if it is positive.
abbrev pub replay_status : Option ℤ → ℤ
replay_status none = pos 200
replay_status (some s) = if ltb_ℤ (pos 0) s then s else pos 200

-- The guarded function over the world W, and what Go's standard library and PostgreSQL supply:
-- SHA-256 in hexadecimal, json.Marshal and json.Unmarshal of the response type T, whose zero value
-- is `zero_value`, and what a JSONB column gives back.
pub record Env (T W : Type 0) : Type 0 where
  pub hash : Text → Text
  pub encode : T → Encoded
  pub decode : Text → Option T
  pub zero_value : T
  pub jsonb : Text → Text
  pub execute : W → W × Outcome T

module _ {T W : Type 0} (env : Env T W) where
  open env use {hash, encode, decode, zero_value, jsonb, execute}

  unfoldable pub fingerprint_payload : Payload → Option Text
  fingerprint_payload nil = some (hash (codes "null"))
  fingerprint_payload (bytes b) = some (hash b)
  fingerprint_payload (other none) = none
  fingerprint_payload (other (some b)) = some (hash b)

  -- HashIdempotencyKey
  unfoldable pub hash_idempotency_key : Text → Text
  hash_idempotency_key key = hash (trim_space key)

  abbrev pub Run : Type 0
  Run = Result (Execution T) × Table × W

  abbrev pub mark_failed_if : Faults → Table → ℕ → Text → Table
  mark_failed_if faults t id reason = if faults.mark_fails then t else mark_failed t id reason

  -- After the claim: what is done with the outcome of the guarded function.
  unfoldable pub finish : Faults → Table → ℕ → W → Outcome T → Run
  finish faults t id w (fails reason) =
      (err (execute_error reason), mark_failed_if faults t id reason, w)
  finish faults t id w (done result status) = elim (encode result) [
    | not_encoded reason ↦ (err encode_error, mark_failed_if faults t id reason, w)
    | encoded body ↦ if faults.mark_fails then (err store_unavailable, t, w) else (
      ok (record {
        result = result;
        response_status = effective_status status;
        was_replayed = false;
      }),
      mark_succeeded jsonb t id (effective_status status) body,
      w,
    )
  ]

  unfoldable pub replay : Row → Result (Execution T)
  replay r = elim (if r.response_body == [] then some zero_value else decode r.response_body) [
    | none ↦ err decode_error
    | some result ↦ ok (record {
      result = result;
      response_status = replay_status r.response_status;
      was_replayed = true;
    })
  ]

  -- The switch on the claim's status.
  unfoldable pub dispatch : Faults → W → Table × ClaimStatus × Row → Run
  dispatch faults w (t, replayed, r) = (replay r, t, w)
  dispatch faults w (t, conflict, r) = (err conflict_error, t, w)
  dispatch faults w (t, in_progress, r) = (err in_progress_error, t, w)
  dispatch faults w (t, started, r) =
      let (w', outcome) = execute w in finish faults t r.id w' outcome

  -- With no key there is no guard.
  unfoldable pub unguarded : Table → W → W × Outcome T → Run
  unguarded t w (w', fails reason) = (err (execute_error reason), t, w')
  unguarded t w (w', done result status) = (
    ok (record {
      result = result;
      response_status = effective_status status;
      was_replayed = false;
    }),
    t,
    w',
  )

  -- The table's key of a call: the scope and the key's hash.
  unfoldable pub call_key : Options → Text × Text
  call_key opts = (trim_space opts.scope, hash_idempotency_key (trim_space opts.idempotency_key))

  abbrev pub claim_params : Options → Text → ℕ → ClaimParams
  claim_params opts fingerprint now = record {
    key = call_key opts;
    request_fingerprint = fingerprint;
    now = now;
    locked_until = pos now +ℤ or_default opts.lock_ttl default_lock_ttl;
    expires_at = pos now +ℤ or_default opts.ttl default_write_ttl;
  }

  unfoldable pub with_fingerprint : Faults → Options → ℕ → Table → W → Option Text → Run
  with_fingerprint faults opts now t w none = (err fingerprint_error, t, w)
  with_fingerprint faults opts now t w (some fingerprint) =
      if faults.claim_fails
      then (err store_unavailable, t, w)
      else dispatch faults w (claim t (claim_params opts fingerprint now))

  -- ExecuteIdempotent, for a service that has a store.
  unfoldable pub execute_idempotent : Faults → Options → ℕ → Table → W → Run
  execute_idempotent faults opts now t w =
      if trim_space opts.idempotency_key == []
      then (if opts.require_key then (err key_required, t, w) else unguarded t w (execute w))
      else if trim_space opts.scope == []
      then (err scope_required, t, w)
      else with_fingerprint faults opts now t w (fingerprint_payload opts.payload)
