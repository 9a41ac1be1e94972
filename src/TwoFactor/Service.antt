-- ===== src/TwoFactor/Service.antt =====
-- pkg/service/two_factor.go: TwoFactorService for one user. The cipher, the HMAC and the TOTP
-- library are arguments, and so is what fails; a call reads the clock once.
use hsync_server.Prelude.{
  ℕ, ◌+◌, ◌*◌, Bool, true, false, not, Option, none, some, List, [], ◌∷◌, Text, ◌==◌, text_eq,
  if◌then◌else◌, ltb, map,
}
use hsync_server.TwoFactor.Rows.{
  TwoFactor, BackupCode, Account, record_success, record_failure, enable_row, no_account,
  list_unused, mark_used, replace_codes, upsert_setup,
}
use hsync_server.TwoFactor.Codes.{normalize_backup_code, clean_totp}

abbrev pub max_failures : ℕ
max_failures = 5

abbrev pub second : ℕ
second = 1000000000

-- twoFactorLockDuration
abbrev pub lock_duration : ℕ
lock_duration = 900 * second

pub data VerifyError : Type 0 where
  not_enabled already_enabled locked invalid_code no_secret statement_failed user_not_found :
      VerifyError

-- Which statements fail.
pub record CodeFaults : Type 0 where
  pub get_fails : Bool
  pub list_fails : Bool
  pub mark_fails : Bool
  pub success_fails : Bool
  pub failure_fails : Bool
  pub setup_fails : Bool
  pub last_fails : Bool

abbrev pub Verified : Type 0
Verified = Option VerifyError × Account

-- activeLock
unfoldable pub active_lock : ℕ → TwoFactor → Option ℕ
active_lock now tf = elim tf.locked_until [
  | none ↦ none
  | some until ↦ if ltb now until then some until else none
]

-- `decrypt` opens a secret, `hash` is the HMAC of a normalized code, `totp_valid` the library's
-- test of a secret and six digits at a time.
module _ (decrypt : Text → Option Text) (hash : Text → Text) (totp_valid : Text → Text → ℕ → Bool)
    (f : CodeFaults) where
  -- validateTOTP
  unfoldable pub validate_totp : Text → Text → ℕ → Bool
  validate_totp secret code now = elim (clean_totp code) [
    | none ↦ false
    | some clean ↦ totp_valid clean secret now
  ]

  unfoldable pub succeed : ℕ → Account → Verified
  succeed now a =
      if f.success_fails then (some statement_failed, a) else (none, record_success now a)

  -- What RecordFailure's row means.
  unfoldable pub failure_error : ℕ → Option TwoFactor → VerifyError
  unfolding active_lock
  failure_error now none = statement_failed
  failure_error now (some tf) = elim (active_lock now tf) [ none ↦ invalid_code | some t ↦ locked ]

  -- recordInvalid
  unfoldable pub record_invalid : ℕ → Account → Verified
  record_invalid now a =
      let a' = record_failure max_failures (now + lock_duration) a in
      if f.failure_fails
      then (some statement_failed, a)
      else (some (failure_error now a'.two_factor), a')

  -- hashBackupCodes, of one code.
  unfoldable pub hash_code : Text → Text
  hash_code code = elim (normalize_backup_code code) [ none ↦ hash [] | some n ↦ hash n ]

  -- The loop of consumeBackupCode: the first row with the hash is taken.
  unfoldable pub find_code : Text → List BackupCode → Option BackupCode
  find_code h [] = none
  find_code h (c ∷ cs) = let later = find_code h cs in if c.code_hash == h then some c else later

  -- consumeBackupCode: an error, or whether a code was used; and the codes after it.
  unfoldable pub consume_backup_code : ℕ → Text → List BackupCode → Option Bool × List BackupCode
  consume_backup_code now code cs = elim (normalize_backup_code code) [
    | none ↦ (some false, cs)
    | some normalized ↦
        if f.list_fails then (none, cs) else elim (find_code (hash normalized) (list_unused cs)) [
          | none ↦ (some false, cs)
          | some c ↦
              let (used, rest) = mark_used c.id now cs in
              if f.mark_fails then (none, cs) else (some used, rest)
        ]
  ]

  -- What follows consumeBackupCode.
  unfoldable pub after_backup : ℕ → Account → Option Bool × List BackupCode → Verified
  after_backup now a (none, cs) = (some statement_failed, record a { codes = cs })
  after_backup now a (some true, cs) = succeed now (record a { codes = cs })
  after_backup now a (some false, cs) = record_invalid now (record a { codes = cs })

  -- verifyTOTPOnly
  unfoldable pub verify_totp_only : ℕ → Text → TwoFactor → Account → Verified
  verify_totp_only now code tf a = elim (active_lock now tf) [
    | some until ↦ (some locked, a)
    | none ↦ elim (decrypt tf.secret_encrypted) [
      | none ↦ (some no_secret, a)
      | some secret ↦ if validate_totp secret code now then succeed now a else record_invalid now a
    ]
  ]

  -- verifyCode
  unfoldable pub verify_code : ℕ → Text → TwoFactor → Account → Verified
  verify_code now code tf a = elim (active_lock now tf) [
    | some until ↦ (some locked, a)
    | none ↦ elim (decrypt tf.secret_encrypted) [
      | none ↦ (some no_secret, a)
      | some secret ↦
          if validate_totp secret code now
          then succeed now a
          else after_backup now a (consume_backup_code now code a.codes)
    ]
  ]

  -- getEnabled, and a use of its row.
  unfoldable pub with_enabled : (TwoFactor → Account → Verified) → Account → Verified
  with_enabled use_row a = if f.get_fails then (some statement_failed, a) else elim a.two_factor [
    | none ↦ (some not_enabled, a)
    | some tf ↦ if tf.enabled then use_row tf a else (some not_enabled, a)
  ]

  -- Login and Disable up to their last statement, and VerifyStepUp.
  unfoldable pub login_code : ℕ → Text → Account → Verified
  login_code now code a = with_enabled (verify_code now code) a

  unfoldable pub step_up : ℕ → Text → Account → Verified
  step_up now code a = with_enabled (verify_totp_only now code) a

  -- What a last statement adds to a call that was verified.
  unfoldable pub and_then : (Account → Account) → Verified → Verified
  and_then g (some e, a) = (some e, a)
  and_then g (none, a) = if f.last_fails then (some statement_failed, a) else (none, g a)

  -- Enable
  unfoldable pub enable : ℕ → Text → Account → Verified
  enable now code a = if f.get_fails then (some statement_failed, a) else elim a.two_factor [
    | none ↦ (some not_enabled, a)
    | some tf ↦
        if tf.enabled
        then (some already_enabled, a)
        else and_then (enable_row now) (verify_totp_only now code tf a)
  ]

  -- Disable
  unfoldable pub disable : ℕ → Text → Account → Verified
  unfolding login_code
  disable now code a = and_then (λ b. no_account) (login_code now code a)

  -- RegenerateBackupCodes, with the codes that it draws.
  unfoldable pub regenerate : ℕ → Text → ℕ → List Text → Account → Verified
  unfolding login_code
  regenerate now code id drawn a =
      and_then (replace_codes id (map hash_code drawn)) (login_code now code a)

  -- UpsertSetup and ReplaceBackupCodes of Setup.
  unfoldable pub store_setup : Text → ℕ → List Text → Account → Verified
  store_setup encrypted id drawn a =
      if f.setup_fails
      then (some statement_failed, a)
      else and_then (replace_codes id (map hash_code drawn)) (none, upsert_setup encrypted a)

  -- Setup, with the encrypted secret and the codes that it draws; `is_active` says that the user
  -- is there and active.
  unfoldable pub setup : Bool → Text → ℕ → List Text → Account → Verified
  setup is_active encrypted id drawn a =
      if not is_active
      then (some user_not_found, a)
      else if f.get_fails
      then (some statement_failed, a)
      else elim a.two_factor [
        | none ↦ store_setup encrypted id drawn a
        | some tf ↦
            if tf.enabled then (some already_enabled, a) else store_setup encrypted id drawn a
      ]
