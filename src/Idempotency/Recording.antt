-- ===== src/Idempotency/Recording.antt =====
-- What a call leaves in the row of its key.
use hsync_server.Prelude.{
  ℕ, ◌≡◌, refl, sym, ℤ, true, false, some, [], Text, ◌==◌, text_eq, text_eqb, text_eqb_iff, nat_eq,
  pair_eq, eqb_refl, Bool-cases, Option-cases, inl, inr, arith, if◌then◌else◌,
}
use hsync_server.Idempotency.Table.{
  Row, Table, ClaimParams, ClaimStatus, succeeded, started, replayed, conflict, in_progress, find,
  claim, claim_by, verdict, mark_succeeded, succeeded_row,
}
use hsync_server.Idempotency.Rows.{IsTable, slot-update, claim-IsTable}
use hsync_server.Idempotency.Service.{
  Options, Faults, Outcome, done, fails, Encoded, encoded, not_encoded, Env, Execution, ok, err,
  execute_idempotent, claim_params, call_key, fingerprint_payload, finish, dispatch, replay,
  with_fingerprint, effective_status, replay_status, store_unavailable,
}
use hsync_server.Idempotency.Calls.{claimed-row, succeeded-KeepsKey}
use hsync_server.Idempotency.Replay.{IsKeyed}

ok-inj : {A : Type 0} {x y : A} → ok x ≡ ok y → x ≡ y
ok-inj h = cc

claim_by_started :
    (t : Table) (p : ClaimParams) (r : Row)
    → (claim_by (verdict p r) t p r).1 ≡ started
    → (claim_by (verdict p r) t p r).2.request_fingerprint ≡ p.request_fingerprint
unfolding claim_by verdict
claim_by_started t p r h = ground (arith, text_eqb_iff r.request_fingerprint p.request_fingerprint)

-- A claim that starts leaves a row with the fingerprint of its request.
pub claim_started :
    (t : Table) (p : ClaimParams)
    → (claim t p).1 ≡ started
    → (claim t p).2.request_fingerprint ≡ p.request_fingerprint
unfolding claim
claim_started t p h = elim (Option-cases (find p.key t.rows)) [
  | inl fresh ↦ rw (fresh, claim) refl
  | inr (r, found) ↦ ground (arith, claim_by_started t p r)
]

-- The row after MarkSucceeded with a body.
mark_succeeded-row :
    (jsonb : Text → Text) (t : Table) (k : Text × Text) (r : Row) (status : ℤ) (body : Text)
    → IsTable t
    → find k t.rows ≡ some r
    → (body == []) ≡ false
    → find k (mark_succeeded jsonb t r.id status body).rows
      ≡ some (succeeded_row jsonb status body r)
unfolding mark_succeeded
mark_succeeded-row jsonb t k r status body h found full =
    rw full
      (rw (slot-update t k k r _ (succeeded-KeepsKey jsonb status body) h found, eqb_refl k) refl)

module _ {T W : Type 0} (env : Env T W) where
  -- What json.Marshal prints can be read back out of a JSONB column, and is never empty.
  abbrev pub RoundTrips : Type 0
  RoundTrips =
      (x : T) (b : Text)
      → env.encode x ≡ encoded b
      → ((b == []) ≡ false) × ((env.jsonb b == []) ≡ false) × (env.decode (env.jsonb b) ≡ some x)

  -- The row of the key holds the answer of the execution e to the request with this fingerprint.
  pub record Recorded (t : Table) (k : Text × Text) (fingerprint : Text) (e : Execution T)
      : Type 0 where
    pub row : Row
    pub found : find k t.rows ≡ some row
    pub is_done : row.status ≡ succeeded
    pub same : row.request_fingerprint ≡ fingerprint
    pub replays :
        replay env row
        ≡ ok (record e {
          response_status = replay_status (some e.response_status);
          was_replayed = true;
        })

  stored-Recorded :
      (t : Table) (k : Text × Text) (fp : Text) (r : Row) (result : T) (status : ℤ) (body : Text)
      → RoundTrips
      → IsTable t
      → find k t.rows ≡ some r
      → r.request_fingerprint ≡ fp
      → env.encode result ≡ encoded body
      → Recorded
          (mark_succeeded env.jsonb t r.id status body)
          k
          fp
          (record { result = result; response_status = status; was_replayed = false })
  unfolding text_eqb
  stored-Recorded t k fp r result status body law h found same e = record {
    row = succeeded_row env.jsonb status body r;
    found = mark_succeeded-row env.jsonb t k r status body h found (law result body e).0;
    is_done = refl;
    same = same;
    replays = unfold replay in simp ((law result body e).1, (law result body e).2) refl;
  }

  finish-Recorded :
      (faults : Faults) (t : Table) (k : Text × Text) (fp : Text) (r : Row) (w : W)
      (outcome : Outcome T) (e : Execution T)
      → RoundTrips
      → IsTable t
      → find k t.rows ≡ some r
      → r.request_fingerprint ≡ fp
      → (finish env faults t r.id w outcome).0 ≡ ok e
      → Recorded (finish env faults t r.id w outcome).1 k fp e
  unfolding finish
  finish-Recorded faults t k fp r w (fails reason) e law h found same q = absurd cc
  finish-Recorded faults t k fp r w (done result status) e law h found same q =
      marshalled (env.encode result) refl q
    where
      marshalled :
          (o : Encoded)
          → env.encode result ≡ o
          → (finish env faults t r.id w (done result status)).0 ≡ ok e
          → Recorded (finish env faults t r.id w (done result status)).1 k fp e
      marshalled (not_encoded reason) p q = absurd (ground arith)
      marshalled (encoded body) p q = elim (Bool-cases faults.mark_fails) [
        | inl lost ↦ absurd (ground arith)
        | inr written ↦
            let fresh : Execution T = record {
              result = result;
              response_status = effective_status status;
              was_replayed = false;
            } in
            let eq : fresh ≡ e = ground arith in
            simp (sym eq) (
              rw (p, finish)
                (rw written (
                  stored-Recorded t k fp r result (effective_status status) body law h found same
                    p)))
      ]

  replay-was_replayed : (r : Row) (e : Execution T) → replay env r ≡ ok e → e.was_replayed ≡ true
  unfolding replay
  replay-was_replayed r e h = ground arith

  started-Recorded :
      (faults : Faults) (w : W) (t : Table) (k : Text × Text) (fp : Text) (s : ClaimStatus)
      (r : Row) (e : Execution T)
      → RoundTrips
      → IsTable t
      → find k t.rows ≡ some r
      → (s ≡ started → r.request_fingerprint ≡ fp)
      → (dispatch env faults w (t, s, r)).0 ≡ ok e
      → e.was_replayed ≡ false
      → Recorded (dispatch env faults w (t, s, r)).1 k fp e
  unfolding dispatch
  started-Recorded faults w t k fp started r e law h found same q fresh =
      finish-Recorded faults t k fp r _ _ e law h found (same refl) q
  started-Recorded faults w t k fp replayed r e law h found same q fresh =
      absurd (ground (arith, replay-was_replayed r e))
  started-Recorded faults w t k fp conflict r e law h found same q fresh = absurd cc
  started-Recorded faults w t k fp in_progress r e law h found same q fresh = absurd cc

  unclaimed :
      (faults : Faults) (opts : Options) (now : ℕ) (t : Table) (w : W) (fp : Text)
      → IsKeyed env opts
      → fingerprint_payload env opts.payload ≡ some fp
      → execute_idempotent env faults opts now t w ≡ (
          if faults.claim_fails
          then (err store_unavailable, t, w)
          else dispatch env faults w (claim t (claim_params env opts fp now)))
  unfolding execute_idempotent
  unclaimed faults opts now t w fp keyed print =
      rw (keyed.0, keyed.1, print) (unfold with_fingerprint in refl)

  -- A keyed call that succeeds and is no replay leaves its answer in the row of its key.
  pub call-Recorded :
      (faults : Faults) (opts : Options) (now : ℕ) (t : Table) (w : W) (fp : Text) (e : Execution T)
      → RoundTrips
      → IsTable t
      → IsKeyed env opts
      → fingerprint_payload env opts.payload ≡ some fp
      → (execute_idempotent env faults opts now t w).0 ≡ ok e
      → e.was_replayed ≡ false
      → Recorded (execute_idempotent env faults opts now t w).1 (call_key env opts) fp e
  call-Recorded faults opts now t w fp e law h keyed print q fresh =
      let call = unclaimed faults opts now t w fp keyed print in
      elim (Bool-cases faults.claim_fails) [
        | inl lost ↦ absurd (ground arith)
        | inr up ↦
            let p = claim_params env opts fp now in
            let call' : execute_idempotent env faults opts now t w
                ≡ dispatch env faults w (claim t p) =
              rw (call, up) refl in
            rw call' (
              started-Recorded faults w (claim t p).0 p.key fp (claim t p).1 (claim t p).2 e law
                (claim-IsTable t p h) (claimed-row t p h) (claim_started t p) (rw (sym call') q)
                fresh)
      ]
