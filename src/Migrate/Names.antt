-- ===== src/Migrate/Names.antt =====
-- The file names that Create writes, read by Parse.
use mathlib.Core.List.{append_assoc}
use hsync_server.Prelude.{
  ℕ, zero, suc, ◌+◌, ◌^◌, ◌<◌, ◌≡◌, ◌≢◌, ◌∙◌, refl, sym, ap, ℤ, pos, false, some, [], ◌∷◌, ◌++◌,
  Text, text_eq, text_eqb, arith, Bool-cases, inl, inr, ltb, ◌/◌, ◌%◌,
}
use hsync_server.GoStrings.{codes, parse_digits, parse_int, format_nat, is_digit, digits}
use hsync_server.GoStrings.Cuts.{
  take-append, trim_suffix-append, Without, index_of-append, last_index_of-append, drop_past,
}
use hsync_server.GoStrings.Numbers.{
  IsDigits, IsDigits-append, parse_digits-format_nat, format_nat-IsDigits, parse_unsigned,
}
use hsync_server.Migrate.Files.{
  Direction, up, down, parsed, direction_of, parse_version, parse_stem, parse_file_name, zeros,
  format_version, sanitize_name, created_name, parse_base,
}
use hsync_server.Migrate.Snake.{sanitize_name-IsName}

digits-Without : (b : ℕ) (s : Text) → is_digit b ≡ false → IsDigits s → Without b s
digits-Without b [] k h = tt
digits-Without b (c ∷ s) k h =
    let here = h.0 in (unfold is_digit in ground arith, digits-Without b s k h.1)

unfoldable ending : Direction → Text
ending up = codes "up"
ending down = codes "down"

zeros-IsDigits : (k : ℕ) → IsDigits (zeros k)
zeros-IsDigits zero = tt
zeros-IsDigits (suc k) = (unfold is_digit in ground arith, zeros-IsDigits k)

parse_digits-zeros : (k : ℕ) (s : Text) → parse_digits 0 (zeros k ++ s) ≡ parse_digits 0 s
unfolding parse_digits is_digit
parse_digits-zeros zero s = refl
parse_digits-zeros (suc k) s = parse_digits-zeros k s

append_full : (s t : Text) → t ≢ [] → (s ++ t) ≢ []
append_full [] t h e = h e
append_full (c ∷ s) t h e = absurd (ground arith)

format_version-IsDigits : (n : ℕ) → IsDigits (format_version (pos n))
unfolding format_version
format_version-IsDigits n =
    IsDigits-append (zeros _) (format_nat n) (zeros-IsDigits _) (format_nat-IsDigits n)

format_nat_full : (n : ℕ) → format_nat n ≢ []
unfolding format_nat digits
format_nat_full n e = elim (Bool-cases (ltb n 10)) [
  | inl small ↦ absurd (ground arith)
  | inr large ↦
      append_full (digits n (n / 10)) ((n % 10 + 48) ∷ []) (λ k. absurd (ground arith))
        (ground arith)
]

parse_int-format_version : (n : ℕ) → n < 2 ^ 63 → parse_int (format_version (pos n)) ≡ some (pos n)
parse_int-format_version n h =
    parse_unsigned n (format_version (pos n)) h (format_version-IsDigits n)
      (unfold format_version in parse_digits-zeros _ (format_nat n) ∙ parse_digits-format_nat n)
      (unfold format_version in append_full (zeros _) (format_nat n) (format_nat_full n))

parse_stem-append :
    (d : Direction) (v name : Text)
    → Without b'_' v
    → v ≢ []
    → parse_stem d (v ++ b'_' ∷ name) ≡ parse_version d v name
unfolding parse_stem
parse_stem-append d [] name h full = absurd (full refl)
parse_stem-append d (c ∷ v) name h full =
    rw
      (
        index_of-append b'_' (c ∷ v) name h,
        parse_stem,
        take-append v (b'_' ∷ name),
        drop_past b'_' v name,
      )
      ground arith

parse_version-name :
    (d : Direction) (v name : Text) (n : ℤ)
    → parse_int v ≡ some n
    → name ≢ []
    → parse_version d v name ≡ parsed (record { version = n; name = name; direction = d })
unfolding parse_version text_eqb
parse_version-name d v [] n e full = absurd (full refl)
parse_version-name d v (c ∷ name) n e full = rw (e, parse_version) refl

direction_of-ending : (d : Direction) → direction_of (ending d) ≡ some d
unfolding direction_of ending text_eqb
direction_of-ending up = refl
direction_of-ending down = refl

ending-Without : (d : Direction) → Without b'.' (ending d)
unfolding ending
ending-Without up = (refl, (refl, tt))
ending-Without down = (refl, (refl, (refl, (refl, tt))))

parse_base-append :
    (stem : Text) (d : Direction) → parse_base (stem ++ b'.' ∷ ending d) ≡ parse_stem d stem
unfolding parse_base
parse_base-append stem d =
    rw
      (
        last_index_of-append b'.' stem (ending d) (ending-Without d),
        parse_base,
        drop_past b'.' stem (ending d),
        direction_of-ending d,
        take-append stem (b'.' ∷ ending d),
      )
      refl

parse_file_name-append :
    (stem : Text) (d : Direction)
    → parse_file_name ((stem ++ b'.' ∷ ending d) ++ codes ".sql") ≡ parse_stem d stem
unfolding parse_file_name
parse_file_name-append stem d =
    ap parse_base (trim_suffix-append (stem ++ b'.' ∷ ending d) (codes ".sql"))
    ∙ parse_base-append stem d

created_name-shape :
    (v : ℤ) (name : Text) (d : Direction)
    → created_name v name d ≡ ((format_version v ++ b'_' ∷ name) ++ b'.' ∷ ending d) ++ codes ".sql"
unfolding created_name ending
created_name-shape v name up =
    ap (λ s. s ++ codes ".up.sql") (append_assoc (format_version v) (codes "_") name)
    ∙ sym (append_assoc (format_version v ++ b'_' ∷ name) (codes ".up") (codes ".sql"))
created_name-shape v name down =
    ap (λ s. s ++ codes ".down.sql") (append_assoc (format_version v) (codes "_") name)
    ∙ sym (append_assoc (format_version v ++ b'_' ∷ name) (codes ".down") (codes ".sql"))

format_version_full : (n : ℕ) → format_version (pos n) ≢ []
unfolding format_version
format_version_full n = append_full (zeros _) (format_nat n) (format_nat_full n)

-- The two names that Create gives to the files of a migration, for a name that SanitizeName
-- accepts and a version from 0 to the last of int64, are parsed to that version, that name and
-- their directions.
pub created_name-parsed :
    (raw name : Text) (n : ℕ) (d : Direction)
    → sanitize_name raw ≡ some name
    → n < 2 ^ 63
    → parse_file_name (created_name (pos n) name d)
      ≡ parsed (record { version = pos n; name = name; direction = d })
created_name-parsed raw name n d h small =
    ap parse_file_name (created_name-shape (pos n) name d)
    ∙ parse_file_name-append (format_version (pos n) ++ b'_' ∷ name) d
    ∙ parse_stem-append d (format_version (pos n)) name
        (digits-Without b'_' (format_version (pos n)) (unfold is_digit in refl)
          (format_version-IsDigits n))
        (format_version_full n)
    ∙ parse_version-name d (format_version (pos n)) name (pos n) (parse_int-format_version n small)
        (sanitize_name-IsName raw name h).1
