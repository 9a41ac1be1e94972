-- ===== src/TwoFactor/Printed.antt =====
-- Backup codes in the form that is shown to the user.
use hsync_server.Prelude.{
  ℕ, zero, suc, ◌≡◌, true, false, ◌||◌, some, [], ◌∷◌, ◌++◌, Text, nat_eqb, length, take, drop,
  keep_if, arith, refl, ap, ◌∙◌, All,
}
use hsync_server.GoStrings.{trim_space, trim_left, trim_right, is_space, is_digit}
use hsync_server.TwoFactor.Codes.{
  to_upper, upper_byte, all_bytes, is_code_byte, is_kept, normalize_backup_code, format_backup_code,
  backup_length,
}

-- A text of what a code is printed with: capitals, digits and dashes.
abbrev IsPrinted : Text → Type 0
IsPrinted s = All (λ c. is_code_byte c || nat_eqb c b'-' ≡ true) s

byte_visible : (c : ℕ) → is_code_byte c || nat_eqb c b'-' ≡ true → is_space c ≡ false
unfolding is_space is_code_byte is_digit
byte_visible c h = ground arith

byte_upper : (c : ℕ) → is_code_byte c || nat_eqb c b'-' ≡ true → upper_byte c ≡ c
unfolding upper_byte is_code_byte is_digit
byte_upper c h = ground arith

byte_kept : (c : ℕ) → is_code_byte c ≡ true → is_kept c ≡ true
unfolding is_code_byte is_digit
byte_kept c h = ground arith

trim_left-printed : (s : Text) → IsPrinted s → trim_left is_space s ≡ s
unfolding trim_left
trim_left-printed [] h = refl
trim_left-printed (c ∷ s) h = rw (byte_visible c h.0) refl

trim_right-printed : (s : Text) → IsPrinted s → trim_right is_space s ≡ s
unfolding trim_right
trim_right-printed [] h = refl
trim_right-printed (c ∷ []) h = rw (byte_visible c h.0) refl
trim_right-printed (c ∷ d ∷ s) h = rw (trim_right-printed (d ∷ s) h.1) refl

to_upper-printed : (s : Text) → IsPrinted s → to_upper s ≡ s
unfolding to_upper
to_upper-printed [] h = refl
to_upper-printed (c ∷ s) h = rw (byte_upper c h.0, to_upper-printed s h.1) refl

kept_code :
    (s t : Text)
    → all_bytes is_code_byte s ≡ true
    → keep_if is_kept (s ++ t) ≡ s ++ keep_if is_kept t
unfolding keep_if all_bytes
kept_code [] t h = refl
kept_code (c ∷ s) t h = ground (arith, byte_kept c, kept_code s t)

kept_all : (s : Text) → all_bytes is_code_byte s ≡ true → keep_if is_kept s ≡ s
unfolding keep_if all_bytes
kept_all [] h = refl
kept_all (c ∷ s) h = ground (arith, byte_kept c, kept_all s)

code-IsPrinted : (s t : Text) → all_bytes is_code_byte s ≡ true → IsPrinted t → IsPrinted (s ++ t)
unfolding all_bytes
code-IsPrinted [] t h k = k
code-IsPrinted (c ∷ s) t h k = (ground arith, code-IsPrinted s t (ground arith) k)

all-IsPrinted : (s : Text) → all_bytes is_code_byte s ≡ true → IsPrinted s
unfolding all_bytes
all-IsPrinted [] h = tt
all-IsPrinted (c ∷ s) h = (ground arith, all-IsPrinted s (ground arith))

all-take :
    (n : ℕ) (s : Text) → all_bytes is_code_byte s ≡ true → all_bytes is_code_byte (take n s) ≡ true
unfolding all_bytes
all-take zero s h = refl
all-take (suc n) [] h = refl
all-take (suc n) (c ∷ s) h = ground (arith, all-take n s)

all-drop :
    (n : ℕ) (s : Text) → all_bytes is_code_byte s ≡ true → all_bytes is_code_byte (drop n s) ≡ true
unfolding all_bytes
all-drop zero s h = h
all-drop (suc n) [] h = refl
all-drop (suc n) (c ∷ s) h = all-drop n s (ground arith)

take-drop : (n : ℕ) (s : Text) → take n s ++ drop n s ≡ s
take-drop zero s = refl
take-drop (suc n) [] = refl
take-drop (suc n) (c ∷ s) = ap (λ t. c ∷ t) (take-drop n s)

kept_dash : (s : Text) → keep_if is_kept (b'-' ∷ s) ≡ keep_if is_kept s
unfolding keep_if
kept_dash s = refl

-- A backup code of eight capitals and digits is read back from the form with a dash in which it is
-- shown.
pub normalize-format :
    (code : Text)
    → all_bytes is_code_byte code ≡ true
    → length code ≡ backup_length
    → normalize_backup_code (format_backup_code code) ≡ some code
unfolding normalize_backup_code format_backup_code trim_space
normalize-format code fine eight =
    let front = all-take 4 code fine in
    let back = all-drop 4 code fine in
    let shown : Text = take 4 code ++ b'-' ∷ drop 4 code in
    let printed : IsPrinted shown =
      code-IsPrinted (take 4 code) (b'-' ∷ drop 4 code) front
        (byte_dash, all-IsPrinted (drop 4 code) back) in
    let clean : keep_if is_kept (to_upper (trim_right is_space (trim_left is_space shown))) ≡ code =
      ap (λ s. keep_if is_kept (to_upper (trim_right is_space s))) (trim_left-printed shown printed)
      ∙ ap (λ s. keep_if is_kept (to_upper s)) (trim_right-printed shown printed)
      ∙ ap (keep_if is_kept) (to_upper-printed shown printed)
      ∙ kept_code (take 4 code) (b'-' ∷ drop 4 code) front
      ∙ ap (λ s. take 4 code ++ s) (kept_dash (drop 4 code) ∙ kept_all (drop 4 code) back)
      ∙ take-drop 4 code in
    rw (clean, eight, fine) refl
  where
    byte_dash : is_code_byte b'-' || nat_eqb b'-' b'-' ≡ true
    byte_dash = unfold is_code_byte is_digit in refl
