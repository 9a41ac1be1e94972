-- ===== src/Idempotency/Tests.antt =====
-- pkg/repository/idempotency.go and pkg/service/idempotency.go: runs at concrete inputs.
use hsync_server.Prelude.{
  ℕ, ◌+◌, ◌≡◌, refl, pos, true, false, Option, none, some, List, [], ◌∷◌, Text, text_eq, text_eqb,
}
use hsync_server.GoStrings.{codes, trim_space}
use hsync_server.Idempotency.Table.{
  empty, ClaimParams, started, conflict, claim, find, mark_succeeded, mark_failed,
}
use hsync_server.Idempotency.Rows.{empty-IsTable}
use hsync_server.Idempotency.Service.{
  Options, bytes, Faults, Env, encoded, done, Execution, ok, execute_idempotent, call_key,
  fingerprint_payload, finish, dispatch, with_fingerprint,
}
use hsync_server.Idempotency.Calls.{Touches, call-Touches}
use hsync_server.Idempotency.Replay.{run_calls}
use hsync_server.Idempotency.Retries.{retry_replays}
use hsync_server.Idempotency.Locking.{lock_excludes, Statement, claims, apply_all, Meanwhile}
use hsync_server.Idempotency.Failures.{failure_reopens}
use hsync_server.Idempotency.Recording.{RoundTrips}

abbrev unquote : Text → Option Text
unquote [] = none
unquote (c ∷ cs) = some cs

-- A function that counts its runs, and a JSON of texts with a mark in front.
abbrev env : Env Text ℕ
env = record {
  hash = λ t. t;
  encode = λ t. encoded (34 ∷ t);
  decode = unquote;
  zero_value = [];
  jsonb = λ t. t;
  execute = λ n. (n + 1, done (codes "made") (pos 201));
}

env-RoundTrips : RoundTrips env
unfolding text_eqb
env-RoundTrips x b e = let eq : 34 ∷ x ≡ b = cc in rw (← eq) (refl, refl, refl)

abbrev up : Faults
up = record { claim_fails = false; mark_fails = false }

abbrev post : Text → Options
post body = record {
  scope = codes "orders";
  idempotency_key = codes " k1 ";
  payload = bytes body;
  require_key = true;
  ttl = pos 0;
  lock_ttl = pos 0;
}

abbrev made : Execution Text
made = record { result = codes "made"; response_status = pos 201; was_replayed = false }

retry_replays_example :
    let (_, t1, w1) = execute_idempotent env up (post (codes "a")) 5 empty 0 in
    let (t2, w2) = run_calls env ((up, post (codes "b"), 6) ∷ []) t1 w1 in
    execute_idempotent env up (post (codes "a")) 7 t2 w2
    ≡ (ok (record made { was_replayed = true }), t2, w2)
unfolding execute_idempotent with_fingerprint finish dispatch fingerprint_payload claim find
    text_eqb trim_space call_key
retry_replays_example =
    retry_replays env up up (post (codes "a")) (post (codes "a")) 5 7 empty 0 (codes "a")
      (codes "a") made ((up, post (codes "b"), 6) ∷ []) env-RoundTrips empty-IsTable (refl, refl)
      refl refl refl (refl, refl) refl refl refl

call-Touches_example :
    Touches
      (call_key env (post (codes "a")))
      empty
      (execute_idempotent env up (post (codes "a")) 5 empty 0).1
call-Touches_example = call-Touches env up (post (codes "a")) 5 empty 0 empty-IsTable

abbrev params : Text → Text → ℕ → ClaimParams
params key fingerprint now = record {
  key = (codes "orders", key);
  request_fingerprint = fingerprint;
  now = now;
  locked_until = pos (now + 30);
  expires_at = pos (now + 1000);
}

failure_reopens_example :
    let p = params (codes "k") (codes "x") 10 in
    let t =
      mark_failed
        (mark_succeeded (λ b. b) (claim empty p).0 0 (pos 201) (codes "b"))
        0
        (codes "lost") in
    ((claim t p).1 ≡ started) × ((claim t p).2.id ≡ 0)
unfolding claim find
failure_reopens_example =
    failure_reopens empty (params (codes "k") (codes "x") 10) (params (codes "k") (codes "x") 10)
      (λ b. b) (pos 201) (codes "b") (codes "lost") empty-IsTable refl refl refl

abbrev others : List Statement
others =
    claims (params (codes "k") (codes "x") 12) ∷ claims (params (codes "j") (codes "x") 13) ∷ []

lock_excludes_example :
    let t = apply_all others (claim empty (params (codes "k") (codes "x") 10)).0 in
    ((claim t (params (codes "k") (codes "y") 39)).0 ≡ t)
    × ((claim t (params (codes "k") (codes "y") 39)).1 ≡ conflict)
unfolding claim find Meanwhile text_eqb
lock_excludes_example =
    lock_excludes (params (codes "k") (codes "x") 10) (params (codes "k") (codes "y") 39) others
      empty empty-IsTable refl (refl, (refl, tt)) refl refl
