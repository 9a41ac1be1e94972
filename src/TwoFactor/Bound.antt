-- ===== src/TwoFactor/Bound.antt =====
-- The lock, the number of guesses and the time that they take.
use mathlib.Core.Path.{subst}
use hsync_server.Prelude.{
  ℕ, suc, ◌+◌, ◌-◌, ◌*◌, ◌≤◌, ◌≡◌, Bool, true, Option, none, some, Text, leb, arith, Bool-cases,
  inl, inr, ◌⊎◌, refl, ap, ◌∙◌,
}
use hsync_server.TwoFactor.Rows.{TwoFactor, Account, count_failure}
use hsync_server.TwoFactor.Service.{max_failures, lock_duration, active_lock}
use hsync_server.TwoFactor.Guesses.{Guesses, none_yet, tested, blocked, attempt_row, locked_row}

abbrev lock_time : Option ℕ → ℕ
lock_time none = 0
lock_time (some t) = t

-- What n tested guesses since a time leave in the row: they are counted, and from the fifth on each
-- has moved the lock on.
record IsGuessed (secret : Text) (begin n t : ℕ) (tf : TwoFactor) : Type 0 where
  on : tf.enabled ≡ true
  same_secret : tf.secret_encrypted ≡ secret
  count : tf.failed_attempts ≡ n
  lock_late : (n ≤ 4) ⊎ (begin + n * lock_duration ≤ lock_time tf.locked_until + 4 * lock_duration)
  spaced : begin + n * lock_duration ≤ t + 5 * lock_duration

past_lock : (now : ℕ) (tf : TwoFactor) → active_lock now tf ≡ none → lock_time tf.locked_until ≤ now
unfolding active_lock
past_lock now tf free = ground arith

-- A guess that no lock stops comes late enough.
late :
    (secret : Text) (begin n t now : ℕ) (tf : TwoFactor)
    → begin ≤ now
    → active_lock now tf ≡ none
    → IsGuessed secret begin n t tf
    → begin + n * lock_duration ≤ now + 4 * lock_duration
late secret begin n t now tf after free g =
    let past = past_lock now tf free in
    elim g.lock_late [ inl few ↦ omega arith | inr many ↦ omega arith ]

guessed :
    (secret : Text) (begin n t now : ℕ) (tf : TwoFactor)
    → begin ≤ now
    → active_lock now tf ≡ none
    → IsGuessed secret begin n t tf
    → IsGuessed secret begin (suc n) now (count_failure max_failures (now + lock_duration) tf)
unfolding count_failure
guessed secret begin n t now tf after free g =
    let enough = late secret begin n t now tf after free g in
    let many = g.count in
    record {
      on = g.on;
      same_secret = g.same_secret;
      count = ground arith;
      lock_late = elim (Bool-cases (leb max_failures (tf.failed_attempts + 1))) [
        | inl full ↦ inr (simp full omega arith)
        | inr few ↦ inl (ground arith)
      ];
      spaced = omega arith;
    }

module _ (decrypt : Text → Option Text) (hash : Text → Text)
    (totp_valid : Text → Text → ℕ → Bool) where
  -- The row of an account that was guessed at.
  unfoldable Guessed : (secret : Text) (begin n t : ℕ) → Account → Type 0
  Guessed secret begin n t a =
      (begin ≤ t) × ((tf : TwoFactor) × (a.two_factor ≡ some tf) × IsGuessed secret begin n t tf)

  row_after :
      (begin : ℕ) (first : Account) (tf : TwoFactor) (key : Text)
      → first.two_factor ≡ some tf
      → tf.enabled ≡ true
      → tf.failed_attempts ≡ 0
      → decrypt tf.secret_encrypted ≡ some key
      → {n t : ℕ} {a : Account} → Guesses decrypt hash totp_valid begin first n t a
      → Guessed tf.secret_encrypted begin n t a
  unfolding Guessed
  row_after begin first tf key e on fresh d none_yet = (
    omega arith,
    (
      tf,
      e,
      record {
        on = on;
        same_secret = refl;
        count = fresh;
        lock_late = inl (omega arith);
        spaced = omega arith;
      },
    ),
  )
  row_after begin first tf key e on fresh d
        (tested {n = m} {t = t} {a = a} login now code row later r free failed rest) =
      let (after, (found, is, g)) = row_after begin first tf key e on fresh d rest in
      let same : found ≡ row = ground (arith, is, r) in
      let g' = subst (IsGuessed tf.secret_encrypted begin m t) same g in
      (
        omega arith,
        (
          count_failure max_failures (now + lock_duration) row,
          attempt_row decrypt hash totp_valid login now code key row a r g'.on free
              (ap decrypt g'.same_secret ∙ d) failed,
          guessed tf.secret_encrypted begin m t now row (omega arith) free g',
        ),
      )
  row_after begin first tf key e on fresh d
        (blocked {n = m} {t = t} {a = a} login now code row later r shut rest) =
      let (after, (found, is, g)) = row_after begin first tf key e on fresh d rest in
      let same : found ≡ row = ground (arith, is, r) in
      let g' = subst (IsGuessed tf.secret_encrypted begin m t) same g in
      (
        omega arith,
        (
          row,
          ap (λ x. x.1.two_factor)
                (locked_row decrypt hash totp_valid login now code row a r g'.on shut)
              ∙ r,
          record {
            on = g'.on;
            same_secret = g'.same_secret;
            count = g'.count;
            lock_late = g'.lock_late;
            spaced = let sp = g'.spaced in omega arith;
          },
        ),
      )

  -- Of attempts that follow one another, all fail, and start at an account with two-factor enabled
  -- and no failed attempt counted, at most five have their code tested, and one more for each
  -- fifteen minutes that passed between the start and the last of them, where no statement fails.
  pub brute_force_bounded :
      {n t : ℕ} {a : Account}
      → (begin : ℕ) (first : Account) (tf : TwoFactor) (key : Text) → first.two_factor ≡ some tf
      → tf.enabled ≡ true
      → tf.failed_attempts ≡ 0
      → decrypt tf.secret_encrypted ≡ some key
      → Guesses decrypt hash totp_valid begin first n t a
      → n * lock_duration ≤ (t - begin) + 5 * lock_duration
  unfolding Guessed
  brute_force_bounded begin first tf key e on fresh d g =
      let (after, (found, is, r)) = row_after begin first tf key e on fresh d g in
      let sp = r.spaced in omega arith
