-- ===== src/Outbox/Secrets.antt =====
-- The redaction of pkg/service/notification.go and the values of the secrets, in ASCII texts.
use hsync_server.Prelude.{
  ℕ, zero, suc, ◌+◌, ◌≤◌, ◌<◌, ◌≡◌, true, false, Option, none, some, List, [], ◌∷◌, ◌++◌, Text,
  take, drop, length, length-append, arith, Option-cases, inl, inr, refl, ap, sym, ◌∙◌, All,
}
use hsync_server.GoStrings.{to_lower, index_of, trim_left}
use hsync_server.GoStrings.Ascii.{is_ascii, is_ascii-append}
use hsync_server.GoStrings.Cuts.{take-append, drop-append}
use hsync_server.GoStrings.Found.{index_of-extended, to_lower-append}
use hsync_server.Outbox.Redaction.{
  write_redacted, ends_value, after_value, redact_assignment, redact_keys,
}
use hsync_server.Outbox.Redacts.{
  redact_ends, round, last_round, is_ascii-after_value, length-after_value, rest-is_ascii,
}

after_value-append :
    (v rest : Text) → All (λ c. ends_value c ≡ false) v → after_value (v ++ rest) ≡ after_value rest
unfolding after_value trim_left
after_value-append [] rest h = refl
after_value-append (c ∷ v) rest h = ground (arith, h.0, after_value-append v rest h.1)

write_redacted-some :
    (kept : Text) (t u : Option Text) (out : Text)
    → ((rest : Text) → t ≡ some rest → u ≡ some rest)
    → write_redacted kept t ≡ some out
    → write_redacted kept u ≡ some out
unfolding write_redacted
write_redacted-some kept none u out f h = absurd (ground arith)
write_redacted-some kept (some rest) u out f h = rw (f rest refl) h

found_after :
    (before key tail : Text) (i : ℕ)
    → index_of (to_lower before) key ≡ some i
    → index_of (to_lower (before ++ tail)) key ≡ some i
found_after before key tail i h =
    ap (λ s. index_of s key) (to_lower-append before tail)
    ∙ index_of-extended (to_lower before) (to_lower tail) key i h

tail_ascii : (before v rest : Text) → is_ascii (before ++ (v ++ rest)) ≡ true → is_ascii rest ≡ true
tail_ascii before v rest h =
    ground (arith, is_ascii-append before (v ++ rest), is_ascii-append v rest)

module _ (lower : Text → Text) where
  redact_more :
      (fuel more : ℕ) (key message out : Text)
      → is_ascii message ≡ true
      → fuel ≤ more
      → redact_assignment lower fuel key message ≡ some out
      → redact_assignment lower more key message ≡ some out
  redact_more zero more key message out a le h = absurd (unfold redact_assignment in ground arith)
  redact_more (suc fuel) zero key message out a le h = absurd (ground arith)
  redact_more (suc fuel) (suc more) key message out a le h =
      elim (Option-cases (index_of (to_lower message) key)) [
        | inl absent ↦
            last_round lower more key message a absent
            ∙ sym (last_round lower fuel key message a absent)
            ∙ h
        | inr (idx, found) ↦
            round lower more key message idx a found
            ∙ write_redacted-some (take (idx + length key) message)
                (redact_assignment lower fuel key (after_value (drop (idx + length key) message)))
                (redact_assignment lower more key (after_value (drop (idx + length key) message)))
                out
                (λ rest.
                  redact_more fuel more key (after_value (drop (idx + length key) message)) rest
                    (rest-is_ascii key message idx a) (omega arith))
                (sym (round lower fuel key message idx a found) ∙ h)
      ]

  -- Enough fuel gives one answer.
  redact_same :
      (fuel more : ℕ) (key message : Text)
      → 0 < length key
      → is_ascii message ≡ true
      → length message < fuel
      → length message < more
      → redact_assignment lower fuel key message ≡ redact_assignment lower more key message
  redact_same fuel more key message k a h g =
      let (out, e, o) = redact_ends lower (suc (length message)) key message k a (omega arith) in
      redact_more (suc (length message)) fuel key message out a (omega arith) e
      ∙ sym (redact_more (suc (length message)) more key message out a (omega arith) e)

  round_cut :
      (fuel : ℕ) (before key v rest : Text) (i : ℕ)
      → i + length key ≡ length before
      → All (λ c. ends_value c ≡ false) v
      → write_redacted (take (i + length key) (before ++ (v ++ rest))) (
          redact_assignment lower fuel key
            (after_value (drop (i + length key) (before ++ (v ++ rest)))))
        ≡ write_redacted before (redact_assignment lower fuel key (after_value rest))
  round_cut fuel before key v rest i ends plain =
      rw
        (
          ends,
          take-append before (v ++ rest),
          drop-append before (v ++ rest),
          after_value-append v rest plain,
        )
        refl

  -- The first round over a text whose first key ends `before`.
  redact_value :
      (fuel : ℕ) (before key v rest : Text) (i : ℕ)
      → 0 < length key
      → index_of (to_lower before) key ≡ some i
      → i + length key ≡ length before
      → All (λ c. ends_value c ≡ false) v
      → is_ascii (before ++ (v ++ rest)) ≡ true
      → length rest < fuel
      → redact_assignment lower (suc fuel) key (before ++ (v ++ rest))
        ≡ write_redacted before (redact_assignment lower (suc (length rest)) key (after_value rest))
  redact_value fuel before key v rest i k found ends plain a enough =
      round lower fuel key (before ++ (v ++ rest)) i a (found_after before key (v ++ rest) i found)
      ∙ round_cut fuel before key v rest i ends plain
      ∙ ap (write_redacted before) (
          redact_same fuel (suc (length rest)) key (after_value rest) k
            (is_ascii-after_value rest (tail_ascii before v rest a))
            (omega (arith, length-after_value rest)) (omega (arith, length-after_value rest)))

  longer :
      (before v rest key : Text) (i : ℕ)
      → 0 < length key
      → i + length key ≡ length before
      → length rest < length (before ++ (v ++ rest))
  longer before v rest key i k ends =
      omega (arith, length-append before (v ++ rest), length-append v rest)

  -- Redacting the keys from `key` on gives the same text for any two values v and w that follow the
  -- first `key` of an ASCII message and hold no byte that ends a value, however strings.ToLower
  -- maps other texts.
  pub secret_redacted :
      (key : Text) (keys : List Text) (before v w rest : Text) (i : ℕ)
      → 0 < length key
      → index_of (to_lower before) key ≡ some i
      → i + length key ≡ length before
      → All (λ c. ends_value c ≡ false) v
      → All (λ c. ends_value c ≡ false) w
      → is_ascii (before ++ (v ++ rest)) ≡ true
      → is_ascii (before ++ (w ++ rest)) ≡ true
      → redact_keys lower (key ∷ keys) (before ++ (v ++ rest))
        ≡ redact_keys lower (key ∷ keys) (before ++ (w ++ rest))
  unfolding redact_keys
  secret_redacted key keys before v w rest i k found ends plain plain_w a a_w =
      rw
        (
          redact_keys,
          redact_value (length (before ++ (v ++ rest))) before key v rest i k found ends plain a
              (longer before v rest key i k ends),
          redact_value (length (before ++ (w ++ rest))) before key w rest i k found ends plain_w a_w
              (longer before w rest key i k ends),
        )
        refl
