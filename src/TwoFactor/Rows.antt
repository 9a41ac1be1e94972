-- ===== src/TwoFactor/Rows.antt =====
-- pkg/model/model.go and pkg/repository/two_factor.go: the row of user_two_factor and the backup
-- codes of one user, and the statements on them. Times are nanoseconds since 1970.
use hsync_server.Prelude.{
  ℕ, ◌+◌, Bool, true, false, ◌&&◌, Option, none, some, List, [], ◌∷◌, Text, ◌==◌, nat_eq,
  if◌then◌else◌, keep_if, leb, length,
}

pub record TwoFactor : Type 0 where
  pub secret_encrypted : Text
  pub enabled : Bool
  pub failed_attempts : ℕ
  pub locked_until : Option ℕ
  pub last_used_at : Option ℕ
  pub enabled_at : Option ℕ

-- TwoFactorBackupCode
pub record BackupCode : Type 0 where
  pub id : ℕ
  pub code_hash : Text
  pub used_at : Option ℕ

-- What the two tables hold of a user.
pub record Account : Type 0 where
  pub two_factor : Option TwoFactor
  pub codes : List BackupCode

-- UpsertSetup
unfoldable pub upsert_setup : Text → Account → Account
upsert_setup secret a = record a {
  two_factor = some (record {
    secret_encrypted = secret;
    enabled = false;
    failed_attempts = 0;
    locked_until = none;
    last_used_at = none;
    enabled_at = none;
  });
}

-- UPDATE user_two_factor ... WHERE user_id = $1
unfoldable pub update_row : (TwoFactor → TwoFactor) → Account → Account
update_row f a = record a { two_factor = elim a.two_factor [ none ↦ none | some tf ↦ some (f tf) ] }

-- Enable
unfoldable pub enable_row : ℕ → Account → Account
unfolding update_row
enable_row now a =
    update_row
      (λ tf. record tf {
        enabled = true;
        failed_attempts = 0;
        locked_until = none;
        last_used_at = some now;
        enabled_at = some now;
      })
      a

-- RecordSuccess
unfoldable pub record_success : ℕ → Account → Account
unfolding update_row
record_success now a =
    update_row
      (λ tf. record tf { failed_attempts = 0; locked_until = none; last_used_at = some now }) a

-- RecordFailure: the row that it returns.
unfoldable pub count_failure : ℕ → ℕ → TwoFactor → TwoFactor
count_failure threshold lock_until tf = record tf {
  failed_attempts = tf.failed_attempts + 1;
  locked_until =
      if leb threshold (tf.failed_attempts + 1) then some lock_until else tf.locked_until;
}

unfoldable pub record_failure : ℕ → ℕ → Account → Account
unfolding update_row
record_failure threshold lock_until a = update_row (count_failure threshold lock_until) a

-- DeleteByUser
abbrev pub no_account : Account
no_account = record { two_factor = none; codes = [] }

-- ReplaceBackupCodes: the ids are drawn by the database.
unfoldable pub number_codes : ℕ → List Text → List BackupCode
number_codes id [] = []
number_codes id (h ∷ hs) =
    record { id = id; code_hash = h; used_at = none } ∷ number_codes (id + 1) hs

unfoldable pub replace_codes : ℕ → List Text → Account → Account
replace_codes id hashes a = record a { codes = number_codes id hashes }

abbrev pub is_unused : BackupCode → Bool
is_unused c = elim c.used_at [ none ↦ true | some t ↦ false ]

-- ListUnusedBackupCodes
unfoldable pub list_unused : List BackupCode → List BackupCode
list_unused cs = keep_if is_unused cs

-- CountUnusedBackupCodes
unfoldable pub count_unused : List BackupCode → ℕ
unfolding list_unused
count_unused cs = length (list_unused cs)

-- MarkBackupCodeUsed: whether there was such a row, and the table after it.
unfoldable pub mark_used : ℕ → ℕ → List BackupCode → Bool × List BackupCode
mark_used id now [] = (false, [])
mark_used id now (c ∷ cs) =
    let (found, rest) = mark_used id now cs in
    if c.id == id && is_unused c
    then (true, record c { used_at = some now } ∷ rest)
    else (found, c ∷ rest)
