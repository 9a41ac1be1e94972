-- ===== src/TwoFactor/Guesses.antt =====
-- How often a code can be guessed.
use hsync_server.Prelude.{
  ℕ, suc, ◌+◌, ◌≤◌, ◌≡◌, ◌≢◌, Bool, true, false, Option, none, some, List, Text, arith, Bool-cases,
  inl, inr, refl, ap, ◌∙◌,
}
use hsync_server.TwoFactor.Rows.{
  TwoFactor, BackupCode, Account, count_failure, record_failure, update_row,
}
use hsync_server.TwoFactor.Service.{
  max_failures, lock_duration, locked, CodeFaults, Verified, active_lock, validate_totp, succeed,
  record_invalid, after_backup, consume_backup_code, verify_totp_only, verify_code, with_enabled,
  login_code, step_up,
}

abbrev pub no_faults : CodeFaults
no_faults = record {
  get_fails = false;
  list_fails = false;
  mark_fails = false;
  success_fails = false;
  failure_fails = false;
  setup_fails = false;
  last_fails = false;
}

module _ (decrypt : Text → Option Text) (hash : Text → Text)
    (totp_valid : Text → Text → ℕ → Bool) where
  -- A login or a step-up with a code.
  abbrev pub attempt : Bool → ℕ → Text → Account → Verified
  attempt true now code a = login_code decrypt hash totp_valid no_faults now code a
  attempt false now code a = step_up decrypt hash totp_valid no_faults now code a

  -- Attempts in the order of time that all failed, from an account at a time: how many of them came
  -- while no lock was active, so that their code was tested.
  pub data Guesses (begin : ℕ) (first : Account) : ℕ → ℕ → Account → Type 0 where
    none_yet : Guesses begin first 0 begin first
    tested :
        {n t : ℕ} {a : Account}
        → (login : Bool) (now : ℕ) (code : Text) (tf : TwoFactor) → t ≤ now
        → a.two_factor ≡ some tf
        → active_lock now tf ≡ none
        → (attempt login now code a).0 ≢ none
        → Guesses begin first n t a
        → Guesses begin first (suc n) now (attempt login now code a).1
    blocked :
        {n t : ℕ} {a : Account}
        → (login : Bool) (now : ℕ) (code : Text) (tf : TwoFactor) → t ≤ now
        → a.two_factor ≡ some tf
        → active_lock now tf ≢ none
        → Guesses begin first n t a
        → Guesses begin first n now (attempt login now code a).1

  abbrev counted : ℕ → TwoFactor → TwoFactor
  counted now tf = count_failure max_failures (now + lock_duration) tf

  invalid_row :
      (now : ℕ) (a : Account) (tf : TwoFactor)
      → a.two_factor ≡ some tf
      → (record_invalid decrypt hash totp_valid no_faults now a).1.two_factor
        ≡ some (counted now tf)
  unfolding record_invalid record_failure update_row
  invalid_row now a tf e = rw e refl

  succeed_fine :
      (now : ℕ) (a : Account) → (succeed decrypt hash totp_valid no_faults now a).0 ≡ none
  unfolding succeed
  succeed_fine now a = refl

  consumed :
      (now : ℕ) (code : Text) (cs : List BackupCode)
      → (consume_backup_code decrypt hash totp_valid no_faults now code cs).0 ≢ none
  unfolding consume_backup_code
  consumed now code cs e = ground arith

  backup_row :
      (now : ℕ) (a : Account) (tf : TwoFactor) (r : Option Bool × List BackupCode)
      → a.two_factor ≡ some tf
      → r.0 ≢ none
      → (after_backup decrypt hash totp_valid no_faults now a r).0 ≢ none
      → (after_backup decrypt hash totp_valid no_faults now a r).1.two_factor
        ≡ some (counted now tf)
  unfolding after_backup
  backup_row now a tf (none, cs) e k h = absurd (k refl)
  backup_row now a tf (some true, cs) e k h =
      absurd (h (succeed_fine now (record a { codes = cs })))
  backup_row now a tf (some false, cs) e k h = invalid_row now (record a { codes = cs }) tf e

  moved :
      (r r' : Verified) (tf : TwoFactor) (now : ℕ)
      → r ≡ r'
      → (r'.0 ≢ none → r'.1.two_factor ≡ some (counted now tf))
      → r.0 ≢ none
      → r.1.two_factor ≡ some (counted now tf)
  moved r r' tf now e h k = ap (λ x. x.1.two_factor) e ∙ h (λ z. k (ap (λ x. x.0) e ∙ z))

  totp_row :
      (now : ℕ) (code secret : Text) (tf : TwoFactor) (a : Account)
      → a.two_factor ≡ some tf
      → active_lock now tf ≡ none
      → decrypt tf.secret_encrypted ≡ some secret
      → (verify_totp_only decrypt hash totp_valid no_faults now code tf a).0 ≢ none
      → (verify_totp_only decrypt hash totp_valid no_faults now code tf a).1.two_factor
        ≡ some (counted now tf)
  unfolding verify_totp_only
  totp_row now code secret tf a e free d =
      elim (Bool-cases (validate_totp decrypt hash totp_valid no_faults secret code now)) [
        | inl right ↦
            moved (verify_totp_only decrypt hash totp_valid no_faults now code tf a)
              (succeed decrypt hash totp_valid no_faults now a) tf now
              (rw (free, verify_totp_only, d, right) refl) (λ h. absurd (h (succeed_fine now a)))
        | inr wrong ↦
            moved (verify_totp_only decrypt hash totp_valid no_faults now code tf a)
              (record_invalid decrypt hash totp_valid no_faults now a) tf now
              (rw (free, verify_totp_only, d, wrong) refl) (λ h. invalid_row now a tf e)
      ]

  code_row :
      (now : ℕ) (code secret : Text) (tf : TwoFactor) (a : Account)
      → a.two_factor ≡ some tf
      → active_lock now tf ≡ none
      → decrypt tf.secret_encrypted ≡ some secret
      → (verify_code decrypt hash totp_valid no_faults now code tf a).0 ≢ none
      → (verify_code decrypt hash totp_valid no_faults now code tf a).1.two_factor
        ≡ some (counted now tf)
  unfolding verify_code
  code_row now code secret tf a e free d =
      elim (Bool-cases (validate_totp decrypt hash totp_valid no_faults secret code now)) [
        | inl right ↦
            moved (verify_code decrypt hash totp_valid no_faults now code tf a)
              (succeed decrypt hash totp_valid no_faults now a) tf now
              (rw (free, verify_code, d, right) refl) (λ h. absurd (h (succeed_fine now a)))
        | inr wrong ↦
            moved (verify_code decrypt hash totp_valid no_faults now code tf a)
              (after_backup decrypt hash totp_valid no_faults now a
                (consume_backup_code decrypt hash totp_valid no_faults now code a.codes))
              tf now (rw (free, verify_code, d, wrong) refl)
              (backup_row now a tf
                (consume_backup_code decrypt hash totp_valid no_faults now code a.codes) e
                (consumed now code a.codes))
      ]

  opened :
      (use_row : TwoFactor → Account → Verified) (tf : TwoFactor) (a : Account)
      → a.two_factor ≡ some tf
      → tf.enabled ≡ true
      → with_enabled decrypt hash totp_valid no_faults use_row a ≡ use_row tf a
  unfolding with_enabled
  opened use_row tf a e on = ground arith

  pub attempt_row :
      (login : Bool) (now : ℕ) (code secret : Text) (tf : TwoFactor) (a : Account)
      → a.two_factor ≡ some tf
      → tf.enabled ≡ true
      → active_lock now tf ≡ none
      → decrypt tf.secret_encrypted ≡ some secret
      → (attempt login now code a).0 ≢ none
      → (attempt login now code a).1.two_factor ≡ some (counted now tf)
  unfolding login_code step_up
  attempt_row true now code secret tf a e on free d =
      moved
        (with_enabled decrypt hash totp_valid no_faults
          (verify_code decrypt hash totp_valid no_faults now code) a)
        (verify_code decrypt hash totp_valid no_faults now code tf a) tf now
        (opened (verify_code decrypt hash totp_valid no_faults now code) tf a e on)
        (code_row now code secret tf a e free d)
  attempt_row false now code secret tf a e on free d =
      moved
        (with_enabled decrypt hash totp_valid no_faults
          (verify_totp_only decrypt hash totp_valid no_faults now code) a)
        (verify_totp_only decrypt hash totp_valid no_faults now code tf a) tf now
        (opened (verify_totp_only decrypt hash totp_valid no_faults now code) tf a e on)
        (totp_row now code secret tf a e free d)

  -- A locked account is left as it is.
  pub locked_row :
      (login : Bool) (now : ℕ) (code : Text) (tf : TwoFactor) (a : Account)
      → a.two_factor ≡ some tf
      → tf.enabled ≡ true
      → active_lock now tf ≢ none
      → attempt login now code a ≡ (some locked, a)
  unfolding login_code step_up verify_code verify_totp_only
  locked_row true now code tf a e on shut =
      opened (verify_code decrypt hash totp_valid no_faults now code) tf a e on ∙ ground arith
  locked_row false now code tf a e on shut =
      opened (verify_totp_only decrypt hash totp_valid no_faults now code) tf a e on ∙ ground arith
