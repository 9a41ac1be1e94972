-- ===== src/TwoFactor/Codes.antt =====
-- pkg/service/two_factor.go: the texts of backup codes and TOTP codes.
use hsync_server.Prelude.{
  ℕ, ◌-◌, Bool, true, not, ◌&&◌, ◌||◌, Option, none, some, [], ◌∷◌, ◌++◌, Text, if◌then◌else◌,
  nat_eqb, leb, length, take, drop, keep_if,
}
use hsync_server.GoStrings.{trim_space, is_digit}

unfoldable pub upper_byte : ℕ → ℕ
upper_byte c = if leb b'a' c && leb c b'z' then c - 32 else c

-- strings.ToUpper
unfoldable pub to_upper : Text → Text
unfolding upper_byte
to_upper [] = []
to_upper (c ∷ s) = upper_byte c ∷ to_upper s

abbrev pub backup_length : ℕ
backup_length = 8

unfoldable pub is_code_byte : ℕ → Bool
unfolding is_digit
is_code_byte c = (leb b'A' c && leb c b'Z') || is_digit c

unfoldable pub all_bytes : (ℕ → Bool) → Text → Bool
all_bytes p [] = true
all_bytes p (c ∷ s) = let rest = all_bytes p s in p c && rest

abbrev pub is_kept : ℕ → Bool
is_kept c = not (nat_eqb c b'-' || nat_eqb c 32)

-- normalizeBackupCode; none for a text that is no code.
unfoldable pub normalize_backup_code : Text → Option Text
normalize_backup_code code =
    let clean = keep_if is_kept (to_upper (trim_space code)) in
    if not (nat_eqb (length clean) backup_length)
    then none
    else if all_bytes is_code_byte clean
    then some clean
    else none

-- formatBackupCode
unfoldable pub format_backup_code : Text → Text
format_backup_code code = take 4 code ++ b'-' ∷ drop 4 code

-- What validateTOTP passes to the library; none for a text that is no code.
unfoldable pub clean_totp : Text → Option Text
clean_totp code =
    let clean = keep_if (λ c. not (nat_eqb c 32)) (trim_space code) in
    if not (nat_eqb (length clean) 6)
    then none
    else if all_bytes is_digit clean
    then some clean
    else none
