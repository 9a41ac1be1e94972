-- ===== src/Idempotency/Replay.antt =====
-- Later calls under a key whose row has succeeded, one call after another.
use hsync_server.Prelude.{
  ℕ, ◌≡◌, refl, ◌∙◌, Bool, true, false, Option, none, some, List, [], ◌∷◌, Text, ◌==◌, text_eq,
  nat_eq, pair_eq, pair_eqb_iff, Bool-cases, inl, inr, if◌then◌else◌,
}
use hsync_server.GoStrings.{trim_space}
use hsync_server.Idempotency.Table.{Row, Table, succeeded, replayed, conflict, find}
use hsync_server.Idempotency.Rows.{IsTable}
use hsync_server.Idempotency.Service.{
  Options, Faults, Env, err, execute_idempotent, claim_params, call_key, fingerprint_payload,
  dispatch, replay, with_fingerprint, conflict_error,
}
use hsync_server.Idempotency.Calls.{call-Touches, claim_succeeded, unguarded-table}

module _ {T W : Type 0} (env : Env T W) where
  -- A run of calls, one after another, each with its time and its faults.
  unfoldable pub run_calls : List (Faults × Options × ℕ) → Table → W → Table × W
  run_calls [] t w = (t, w)
  run_calls ((faults, opts, now) ∷ calls) t w =
      let (_, t', w') = execute_idempotent env faults opts now t w in run_calls calls t' w'

  abbrev pub IsKeyed : Options → Type 0
  IsKeyed opts =
      ((trim_space opts.idempotency_key == []) ≡ false) × ((trim_space opts.scope == []) ≡ false)

  dispatch_succeeded :
      (faults : Faults) (w : W) (t : Table) (r : Row) (same : Bool)
      → dispatch env faults w (t, (if same then replayed else conflict), r)
        ≡ (if same then (replay env r, t, w) else (err conflict_error, t, w))
  unfolding dispatch
  dispatch_succeeded faults w t r true = refl
  dispatch_succeeded faults w t r false = refl

  -- What is done once the fingerprint is known, where the row of the key has succeeded.
  known_succeeded :
      (faults : Faults) (opts : Options) (now : ℕ) (t : Table) (w : W) (fp : Text) (r : Row)
      → faults.claim_fails ≡ false
      → find (call_key env opts) t.rows ≡ some r
      → r.status ≡ succeeded
      → with_fingerprint env faults opts now t w (some fp)
        ≡ (if r.request_fingerprint == fp then (replay env r, t, w) else (err conflict_error, t, w))
  unfolding with_fingerprint
  known_succeeded faults opts now t w fp r up found s =
      simp
        (
          up,
          claim_succeeded t (claim_params env opts fp now) r found s,
          dispatch_succeeded faults w t r (r.request_fingerprint == fp),
        )
        refl

  -- What a keyed call does where the row of its key has succeeded.
  pub call_succeeded :
      (faults : Faults) (opts : Options) (now : ℕ) (t : Table) (w : W) (fp : Text) (r : Row)
      → IsKeyed opts
      → fingerprint_payload env opts.payload ≡ some fp
      → faults.claim_fails ≡ false
      → find (call_key env opts) t.rows ≡ some r
      → r.status ≡ succeeded
      → execute_idempotent env faults opts now t w
        ≡ (if r.request_fingerprint == fp then (replay env r, t, w) else (err conflict_error, t, w))
  unfolding execute_idempotent
  call_succeeded faults opts now t w fp r keyed print up found s =
      rw (keyed.0, keyed.1, print) (known_succeeded faults opts now t w fp r up found s)

  -- A call with the key of a row that has succeeded leaves the table as it is.
  call_same :
      (faults : Faults) (opts : Options) (now : ℕ) (t : Table) (w : W) (r : Row)
      → find (call_key env opts) t.rows ≡ some r
      → r.status ≡ succeeded
      → (execute_idempotent env faults opts now t w).1 ≡ t
  unfolding execute_idempotent
  call_same faults opts now t w r found s =
      elim (Bool-cases (trim_space opts.idempotency_key == [])) [
        | inl unkeyed ↦ rw unkeyed (elim (Bool-cases opts.require_key) [
          | inl required ↦ simp required refl
          | inr optional ↦ simp (optional, unguarded-table env t w (env.execute w)) refl
        ])
        | inr keyed ↦ rw keyed (elim (Bool-cases (trim_space opts.scope == [])) [
          | inl unscoped ↦ rw unscoped refl
          | inr scoped ↦ rw scoped (printed (fingerprint_payload env opts.payload))
        ])
      ]
    where
      printed : (o : Option Text) → (with_fingerprint env faults opts now t w o).1 ≡ t
      printed none = unfold with_fingerprint in refl
      printed (some fp) = elim (Bool-cases faults.claim_fails) [
        | inl lost ↦ unfold with_fingerprint in simp lost refl
        | inr up ↦
            rw (known_succeeded faults opts now t w fp r up found s)
              (elim (Bool-cases (r.request_fingerprint == fp)) [
                | inl same ↦ rw same refl
                | inr other ↦ rw other refl
              ])
      ]

  -- No call changes a row that has succeeded.
  call-keeps :
      (faults : Faults) (opts : Options) (now : ℕ) (t : Table) (w : W) (k : Text × Text) (r : Row)
      → IsTable t
      → find k t.rows ≡ some r
      → r.status ≡ succeeded
      → find k (execute_idempotent env faults opts now t w).1.rows ≡ some r
  call-keeps faults opts now t w k r h found s = elim (Bool-cases (call_key env opts == k)) [
    | inl same ↦
        rw
          (call_same faults opts now t w r (rw ((pair_eqb_iff (call_key env opts) k).0 same) found)
            s)
          found
    | inr other ↦ (call-Touches env faults opts now t w h).others k other ∙ found
  ]

  -- Nor does any run of calls.
  pub run_calls-keeps :
      (calls : List (Faults × Options × ℕ)) (t : Table) (w : W) (k : Text × Text) (r : Row)
      → IsTable t
      → find k t.rows ≡ some r
      → r.status ≡ succeeded
      → find k (run_calls calls t w).0.rows ≡ some r
  unfolding run_calls
  run_calls-keeps [] t w k r h found s = found
  run_calls-keeps ((faults, opts, now) ∷ calls) t w k r h found s =
      run_calls-keeps calls _ _ k r (call-Touches env faults opts now t w h).table
        (call-keeps faults opts now t w k r h found s) s
