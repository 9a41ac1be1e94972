-- ===== src/TwoFactor/Backup.antt =====
-- What an accepted backup code does to the codes of its user.
use hsync_server.Prelude.{
  ℕ, ◌≡◌, ◌⊎◌, Bool, true, false, Option, none, some, List, [], ◌∷◌, ◌++◌, Text, ◌==◌, nat_eq,
  nat_eqb_iff, text_eq, text_eqb_iff, keep_if, any_if, arith, ap, Bool-cases, Option-cases, inl,
  inr, refl, ◌∙◌,
}
use mathlib.Core.Path.{subst}
use hsync_server.TwoFactor.Rows.{
  TwoFactor, BackupCode, Account, is_unused, list_unused, mark_used, update_row, record_success,
}
use hsync_server.TwoFactor.Codes.{normalize_backup_code}
use hsync_server.TwoFactor.Service.{
  CodeFaults, validate_totp, succeed, record_invalid, after_backup, consume_backup_code, find_code,
  verify_code,
}

-- The primary key: no two codes have one id.
abbrev pub OneId : List BackupCode → Type 0
OneId [] = Unit
OneId (c ∷ cs) = (any_if (λ d. d.id == c.id) cs ≡ false) × OneId cs

-- One code of `cs`, unused and with the hash `h`, is marked in `cs'`, and no other differs.
abbrev pub Consumes : ℕ → Text → List BackupCode → List BackupCode → Type 0
Consumes now h cs cs' =
    (c : BackupCode) × (front : List BackupCode) × (back : List BackupCode) × (cs
      ≡ front ++ c ∷ back)
    × (c.used_at ≡ none)
    × (c.code_hash ≡ h)
    × (cs' ≡ front ++ (record c { used_at = some now }) ∷ back)

mark_absent :
    (id now : ℕ) (cs : List BackupCode)
    → any_if (λ d. d.id == id) cs ≡ false
    → mark_used id now cs ≡ (false, cs)
unfolding mark_used any_if
mark_absent id now [] h = refl
mark_absent id now (c ∷ cs) h = ground (arith, mark_absent id now cs)

any-at :
    (id : ℕ) (front : List BackupCode) (c : BackupCode) (back : List BackupCode)
    → (c.id == id) ≡ true
    → any_if (λ d. d.id == id) (front ++ c ∷ back) ≡ true
unfolding any_if
any-at id [] c back h = ground arith
any-at id (d ∷ front) c back h = ground (arith, any-at id front c back h)

mark_at :
    (now : ℕ) (front : List BackupCode) (c : BackupCode) (back : List BackupCode)
    → OneId (front ++ c ∷ back)
    → is_unused c ≡ true
    → mark_used c.id now (front ++ c ∷ back)
      ≡ (true, front ++ (record c { used_at = some now }) ∷ back)
unfolding mark_used
mark_at now [] c back one h = ground (arith, mark_absent c.id now back one.0, nat_eqb_iff c.id c.id)
mark_at now (d ∷ front) c back one h = ground (
  arith,
  mark_at now front c back one.1 h,
  any-at d.id front c back,
  nat_eqb_iff d.id c.id,
  nat_eqb_iff c.id d.id,
)

-- Where a row that was found stands.
abbrev Stands : Text → List BackupCode → BackupCode → Type 0
Stands h cs c =
    (front : List BackupCode) × (back : List BackupCode) × (cs ≡ front ++ c ∷ back)
    × (is_unused c ≡ true)
    × (c.code_hash ≡ h)

further : (h : Text) (d c : BackupCode) (cs : List BackupCode) → Stands h cs c → Stands h (d ∷ cs) c
further h d c cs (front, back, e, unused, same) = (d ∷ front, back, ap (λ r. d ∷ r) e, unused, same)

unused_at : (c : BackupCode) → is_unused c ≡ true → c.used_at ≡ none
unused_at c h = ground arith

module _ (decrypt : Text → Option Text) (hash : Text → Text) (totp_valid : Text → Text → ℕ → Bool)
    (f : CodeFaults) where
  found-Stands :
      (h : Text) (cs : List BackupCode) (c : BackupCode)
      → find_code decrypt hash totp_valid f h (list_unused cs) ≡ some c
      → Stands h cs c
  unfolding find_code list_unused keep_if
  found-Stands h [] c e = absurd (ground arith)
  found-Stands h (d ∷ cs) c e = elim (Bool-cases (is_unused d)) [
    | inr spent ↦ further h d c cs (found-Stands h cs c (ground arith))
    | inl unused ↦ elim (Bool-cases (d.code_hash == h)) [
      | inl same ↦
          subst (λ x. Stands h (d ∷ cs) x) {x = d} {y = c} (ground arith)
            ([], cs, refl, unused, (text_eqb_iff d.code_hash h).0 same)
      | inr other ↦ further h d c cs (found-Stands h cs c (ground arith))
    ]
  ]

  consumed :
      (now : ℕ) (code : Text) (cs : List BackupCode)
      → OneId cs
      → (consume_backup_code decrypt hash totp_valid f now code cs).0 ≡ some true
      → (n : Text) × (normalize_backup_code code ≡ some n)
        × Consumes now (hash n) cs (consume_backup_code decrypt hash totp_valid f now code cs).1
  unfolding consume_backup_code
  consumed now code cs one h = elim (Option-cases (normalize_backup_code code)) [
    | inl bad ↦ absurd (ground arith)
    | inr (n, fine) ↦
        elim (Option-cases (find_code decrypt hash totp_valid f (hash n) (list_unused cs))) [
          | inl unknown ↦ absurd (ground arith)
          | inr (c, known) ↦
              let (front, back, e, unused, same) = found-Stands (hash n) cs c known in
              let marked : mark_used c.id now cs
                  ≡ (true, front ++ (record c { used_at = some now }) ∷ back) =
                ap (mark_used c.id now) e ∙ mark_at now front c back (subst OneId e one) unused in
              (n, fine, (c, front, back, e, unused_at c unused, same, ground (arith, marked)))
        ]
  ]

  -- A code that verifyCode accepts is a TOTP code of the time, or reads as a text whose HMAC is the
  -- hash of one unused backup code; that code is marked as used at that time, and no other backup
  -- code changes. The ids of the codes differ.
  pub backup_used_once :
      (now : ℕ) (code secret : Text) (tf : TwoFactor) (a : Account)
      → OneId a.codes
      → decrypt tf.secret_encrypted ≡ some secret
      → (verify_code decrypt hash totp_valid f now code tf a).0 ≡ none
      → (validate_totp decrypt hash totp_valid f secret code now ≡ true)
        ⊎ ((n : Text) × (normalize_backup_code code ≡ some n)
            × Consumes now
                (hash n)
                a.codes
                (verify_code decrypt hash totp_valid f now code tf a).1.codes)
  unfolding verify_code after_backup succeed record_invalid record_success update_row
  backup_used_once now code secret tf a one d h =
      elim (Bool-cases (validate_totp decrypt hash totp_valid f secret code now)) [
        | inl right ↦ inl right
        | inr wrong ↦
            let (n, fine, used) = consumed now code a.codes one (ground arith) in
            inr (n, fine, subst (Consumes now (hash n) a.codes) (ground arith) used)
      ]
