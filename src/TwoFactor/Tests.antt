-- ===== src/TwoFactor/Tests.antt =====
-- pkg/service/two_factor.go: guesses and backup codes at concrete inputs.
use hsync_server.Prelude.{
  ℕ, ◌+◌, ◌-◌, ◌*◌, ◌≤◌, ◌≡◌, ◌≢◌, ◌⊎◌, Bool, true, none, some, Option, [], ◌∷◌, Text, refl, arith,
  text_eqb, keep_if, any_if,
}
use hsync_server.GoStrings.{codes, trim_space, trim_left, trim_right, is_digit, is_space}
use hsync_server.TwoFactor.Rows.{
  TwoFactor, Account, list_unused, mark_used, record_success, record_failure, count_failure,
  update_row,
}
use hsync_server.TwoFactor.Codes.{
  all_bytes, is_code_byte, normalize_backup_code, format_backup_code, clean_totp, to_upper,
  upper_byte,
}
use hsync_server.TwoFactor.Service.{
  lock_duration, active_lock, validate_totp, succeed, record_invalid, failure_error, after_backup,
  consume_backup_code, find_code, verify_code, with_enabled, login_code,
}
use hsync_server.TwoFactor.Guesses.{no_faults, attempt, none_yet, tested}
use hsync_server.TwoFactor.Bound.{brute_force_bounded}
use hsync_server.TwoFactor.Backup.{OneId, Consumes, backup_used_once}
use hsync_server.TwoFactor.Printed.{normalize-format}

abbrev decrypt : Text → Option Text
decrypt s = some s

abbrev hash : Text → Text
hash s = s

abbrev totp_valid : Text → Text → ℕ → Bool
totp_valid code secret now = text_eqb code secret

abbrev row : TwoFactor
row = record {
  secret_encrypted = codes "123456";
  enabled = true;
  failed_attempts = 0;
  locked_until = none;
  last_used_at = none;
  enabled_at = none;
}

abbrev account : Account
account = record {
  two_factor = some row;
  codes = record { id = 1; code_hash = codes "ABCD2345"; used_at = none } ∷ [];
}

wrong : (attempt decrypt hash totp_valid true 7 (codes "000000") account).0 ≢ none
unfolding login_code with_enabled verify_code active_lock validate_totp clean_totp trim_space
    trim_left trim_right is_space keep_if all_bytes is_digit text_eqb consume_backup_code
    normalize_backup_code to_upper upper_byte after_backup record_invalid failure_error
    record_failure update_row count_failure
wrong h = ground arith

no_lock : active_lock 7 row ≡ none
unfolding active_lock
no_lock = refl

brute_force_bounded_example : 1 * lock_duration ≤ (7 - 5) + 5 * lock_duration
brute_force_bounded_example =
    brute_force_bounded decrypt hash totp_valid 5 account row (codes "123456") refl refl refl refl
      (tested true 7 (codes "000000") row (omega arith) refl no_lock wrong none_yet)

used : (verify_code decrypt hash totp_valid no_faults 7 (codes "abcd-2345") row account).0 ≡ none
unfolding verify_code active_lock validate_totp clean_totp trim_space trim_left trim_right is_space
    keep_if all_bytes is_digit is_code_byte text_eqb consume_backup_code normalize_backup_code
    to_upper upper_byte after_backup find_code list_unused mark_used succeed record_success
    update_row
used = refl

one_code : OneId account.codes
unfolding any_if
one_code = (refl, tt)

backup_used_once_example :
    (validate_totp decrypt hash totp_valid no_faults (codes "123456") (codes "abcd-2345") 7 ≡ true)
    ⊎ ((n : Text) × (normalize_backup_code (codes "abcd-2345") ≡ some n)
        × Consumes 7
            (hash n)
            account.codes
            (verify_code decrypt hash totp_valid no_faults 7
              (codes "abcd-2345")
              row
              account).1.codes)
backup_used_once_example =
    backup_used_once decrypt hash totp_valid no_faults 7 (codes "abcd-2345") (codes "123456") row
      account one_code refl used

all_code : all_bytes is_code_byte (codes "ABCD2345") ≡ true
unfolding all_bytes is_code_byte is_digit
all_code = refl

normalize-format_example :
    normalize_backup_code (format_backup_code (codes "ABCD2345")) ≡ some (codes "ABCD2345")
normalize-format_example = normalize-format (codes "ABCD2345") all_code refl
