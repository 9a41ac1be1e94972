-- ===== src/Outbox/Redacts.antt =====
-- The rounds of the redaction of pkg/service/notification.go, on ASCII texts.
use hsync_server.Prelude.{
  ℕ, zero, suc, ◌+◌, ◌≤◌, ◌<◌, ◌≡◌, ltb, Bool, true, false, not, none, some, List, [], ◌∷◌, ◌++◌,
  Text, take, drop, length, arith, Option-cases, inl, inr, refl, All,
}
use hsync_server.GoStrings.{to_lower, index_of, has_prefix, trim_left}
use hsync_server.GoStrings.Ascii.{
  is_ascii, lower_text-ascii, is_ascii-append, is_ascii-drop, is_ascii-take, is_ascii-trim_left,
}
use hsync_server.GoStrings.Found.{index_of_fits, length-to_lower}
use hsync_server.Outbox.Redaction.{
  ends_value, after_value, redacted, write_redacted, redact_assignment, redact_keys,
  redact_assignments, secret_keys,
}

length-trim_left : (p : ℕ → Bool) (s : Text) → length (trim_left p s) ≤ length s
unfolding trim_left
length-trim_left p [] = omega arith
length-trim_left p (c ∷ s) = ground (arith, length-trim_left p s)

length-drop : (n : ℕ) (s : Text) → length (drop n s) ≤ length s
length-drop zero s = omega arith
length-drop (suc n) [] = omega arith
length-drop (suc n) (c ∷ s) = omega (arith, length-drop n s)

drop_less : (n : ℕ) (c : ℕ) (s : Text) → 0 < n → length (drop n (c ∷ s)) < length (c ∷ s)
drop_less zero c s h = absurd (ground arith)
drop_less (suc n) c s h = omega (arith, length-drop n s)

index_of-nil : (key : Text) → 0 < length key → index_of [] key ≡ none
unfolding index_of has_prefix
index_of-nil [] h = absurd (ground arith)
index_of-nil (c ∷ key) h = refl

pub length-after_value : (s : Text) → length (after_value s) ≤ length s
unfolding after_value
length-after_value s = length-trim_left (λ c. not (ends_value c)) s

pub is_ascii-after_value : (s : Text) → is_ascii s ≡ true → is_ascii (after_value s) ≡ true
unfolding after_value
is_ascii-after_value s h = is_ascii-trim_left (λ c. not (ends_value c)) s h

-- A round leaves less to do.
shrinks :
    (key message : Text) (idx : ℕ)
    → 0 < length key
    → index_of (to_lower message) key ≡ some idx
    → length (after_value (drop (idx + length key) message)) < length message
unfolding to_lower after_value
shrinks key [] idx k h = absurd (ground (arith, index_of-nil key k))
shrinks key (c ∷ message) idx k h = omega (
  arith,
  drop_less (idx + length key) c message (omega arith),
  length-trim_left (λ c. not (ends_value c)) (drop (idx + length key) (c ∷ message)),
)

-- What the rounds after one that found the key at `idx` are about.
abbrev rest_of : Text → Text → ℕ → Text
rest_of key message idx = after_value (drop (idx + length key) message)

pub rest-is_ascii :
    (key message : Text) (idx : ℕ)
    → is_ascii message ≡ true
    → is_ascii (rest_of key message idx) ≡ true
rest-is_ascii key message idx a =
    is_ascii-after_value (drop (idx + length key) message)
      (is_ascii-drop (idx + length key) message a)

in_text : (n m : ℕ) → n ≤ m → ltb m n ≡ false
in_text n m h = ground arith

write_redacted-is_ascii :
    (kept out : Text)
    → is_ascii kept ≡ true
    → is_ascii out ≡ true
    → is_ascii (kept ++ redacted ++ out) ≡ true
write_redacted-is_ascii kept out k o =
    let mark : is_ascii redacted ≡ true = unfold is_ascii in refl in
    ground (arith, is_ascii-append (kept ++ redacted) out, is_ascii-append kept redacted, mark)

module _ (lower : Text → Text) where
  pub last_round :
      (fuel : ℕ) (key message : Text)
      → is_ascii message ≡ true
      → index_of (to_lower message) key ≡ none
      → redact_assignment lower (suc fuel) key message ≡ some message
  unfolding redact_assignment
  last_round fuel key message a h = rw (redact_assignment, lower_text-ascii lower message a, h) refl

  -- In an ASCII text every index that is found lies inside.
  pub round :
      (fuel : ℕ) (key message : Text) (idx : ℕ)
      → is_ascii message ≡ true
      → index_of (to_lower message) key ≡ some idx
      → redact_assignment lower (suc fuel) key message
        ≡ write_redacted
            (take (idx + length key) message)
            (redact_assignment lower fuel key (after_value (drop (idx + length key) message)))
  unfolding redact_assignment
  round fuel key message idx a h =
      let inside : ltb (length message) (idx + length key) ≡ false =
        in_text (idx + length key) (length message)
          (omega (arith, index_of_fits (to_lower message) key idx h, length-to_lower message)) in
      rw (redact_assignment, lower_text-ascii lower message a, h, inside) refl

  pub redact_ends :
      (fuel : ℕ) (key message : Text)
      → 0 < length key
      → is_ascii message ≡ true
      → length message < fuel
      → (out : Text) × (redact_assignment lower fuel key message ≡ some out) × (is_ascii out ≡ true)
  unfolding write_redacted
  redact_ends zero key message k a h = absurd (ground arith)
  redact_ends (suc fuel) key message k a h = elim (Option-cases (index_of (to_lower message) key)) [
    | inl absent ↦ (message, last_round fuel key message a absent, a)
    | inr (idx, found) ↦
        let less = shrinks key message idx k found in
        let (out, e, o) =
          redact_ends fuel key (after_value (drop (idx + length key) message)) k
            (rest-is_ascii key message idx a) (omega arith) in
        (
          take (idx + length key) message ++ redacted ++ out,
          rw (round fuel key message idx a found, e) refl,
          write_redacted-is_ascii (take (idx + length key) message) out
              (is_ascii-take (idx + length key) message a) o,
        )
  ]

  pub redact_keys_end :
      (keys : List Text) (message : Text)
      → All (λ key. 0 < length key) keys
      → is_ascii message ≡ true
      → (out : Text) × (redact_keys lower keys message ≡ some out) × (is_ascii out ≡ true)
  unfolding redact_keys
  redact_keys_end [] message all a = (message, refl, a)
  redact_keys_end (key ∷ keys) message (k, all) a =
      let (m, e, ascii) = redact_ends (suc (length message)) key message k a (omega arith) in
      let (out, rest, o) = redact_keys_end keys m all ascii in (out, rw (redact_keys, e) rest, o)

  secret_keys-nonempty : All (λ key. 0 < length key) secret_keys
  secret_keys-nonempty = ground arith

  pub redact_assignments_end :
      (message : Text)
      → is_ascii message ≡ true
      → (out : Text) × (redact_assignments lower message ≡ some out) × (is_ascii out ≡ true)
  unfolding redact_assignments
  redact_assignments_end message a = redact_keys_end secret_keys message secret_keys-nonempty a
