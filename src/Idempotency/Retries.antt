-- ===== src/Idempotency/Retries.antt =====
-- What a client that retries a request gets, after calls that follow one another.
use hsync_server.Prelude.{
  ℕ, ◌≡◌, refl, ◌∙◌, Bool, true, false, some, List, Text, ◌==◌, text_eq, if◌then◌else◌,
}
use hsync_server.Idempotency.Table.{Table}
use hsync_server.Idempotency.Rows.{IsTable}
use hsync_server.Idempotency.Service.{
  Options, Run, Faults, Env, Execution, Result, ok, err, execute_idempotent, call_key,
  fingerprint_payload, replay_status, conflict_error,
}
use hsync_server.Idempotency.Calls.{call-Touches}
use hsync_server.Idempotency.Replay.{IsKeyed, run_calls, run_calls-keeps, call_succeeded}
use hsync_server.Idempotency.Recording.{RoundTrips, call-Recorded}

module _ {T W : Type 0} (env : Env T W) where
  -- When a keyed call has succeeded and was no replay, every later call with its key, whatever
  -- calls came in between and whenever it comes, gives the same result with the same status (200
  -- if that was not positive) if its payload has the same fingerprint, and the conflict error if
  -- not; it runs nothing and changes no row. What json.Marshal prints must be readable from the
  -- JSONB column, and the later call's claim must reach the database.
  pub retry_replays :
      (faults faults' : Faults) (opts opts' : Options) (now now' : ℕ) (t : Table) (w : W)
      (fp fp' : Text) (e : Execution T) (between : List (Faults × Options × ℕ))
      → RoundTrips env
      → IsTable t
      → IsKeyed env opts
      → fingerprint_payload env opts.payload ≡ some fp
      → (execute_idempotent env faults opts now t w).0 ≡ ok e
      → e.was_replayed ≡ false
      → IsKeyed env opts'
      → call_key env opts' ≡ call_key env opts
      → fingerprint_payload env opts'.payload ≡ some fp'
      → faults'.claim_fails ≡ false
      → let (_, t1, w1) = execute_idempotent env faults opts now t w in
        let (t2, w2) = run_calls env between t1 w1 in
        execute_idempotent env faults' opts' now' t2 w2 ≡ (
          (if fp == fp'
              then ok (record e {
                response_status = replay_status (some e.response_status);
                was_replayed = true;
              })
              else err conflict_error),
          t2,
          w2,
        )
  retry_replays faults faults' opts opts' now now' t w fp fp' e between law h keyed print q fresh
        keyed' key print' up =
      let run = execute_idempotent env faults opts now t w in
      let rest = run_calls env between run.1 run.2 in
      let kept = call-Recorded env faults opts now t w fp e law h keyed print q fresh in
      let found =
        run_calls-keeps env between run.1 run.2 (call_key env opts) kept.row
          (call-Touches env faults opts now t w h).table kept.found kept.is_done in
      let answer =
        call_succeeded env faults' opts' now' rest.0 rest.1 fp' kept.row keyed' print' up
          (rw key found) kept.is_done in
      answer ∙ simp (kept.same, kept.replays) (pushed (fp == fp') _ _ rest.0 rest.1)
    where
      pushed :
          (b : Bool) (x y : Result (Execution T)) (t2 : Table) (w2 : W)
          → ◌≡◌ {A = Run env}
              (if b then (x, t2, w2) else (y, t2, w2))
              ((if b then x else y), t2, w2)
      pushed true x y t2 w2 = refl
      pushed false x y t2 w2 = refl
