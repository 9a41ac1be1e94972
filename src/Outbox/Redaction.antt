-- ===== src/Outbox/Redaction.antt =====
-- pkg/service/notification.go: redactNotificationSecretAssignments, over bytes.
use hsync_server.Prelude.{
  ℕ, zero, suc, ◌+◌, Bool, not, ◌||◌, Option, none, some, List, [], ◌∷◌, ◌++◌, Text, nat_eqb, take,
  drop, length, ltb, if◌then◌else◌,
}
use hsync_server.GoStrings.{codes, index_of, trim_left}
use hsync_server.GoStrings.Ascii.{lower_text}

-- The bytes at which a value ends.
unfoldable pub ends_value : ℕ → Bool
ends_value c =
    nat_eqb c b'&'
    || nat_eqb c 32
    || nat_eqb c 9
    || nat_eqb c 13
    || nat_eqb c 10
    || nat_eqb c 34
    || nat_eqb c 39
    || nat_eqb c b')'
    || nat_eqb c b']'
    || nat_eqb c b'}'
    || nat_eqb c b','
    || nat_eqb c b';'

-- The rest of a text from the end of the value that it starts with.
unfoldable pub after_value : Text → Text
after_value s = trim_left (λ c. not (ends_value c)) s

abbrev pub redacted : Text
redacted = codes "<redacted>"

-- What a round writes before what the later rounds give.
unfoldable pub write_redacted : Text → Option Text → Option Text
write_redacted kept none = none
write_redacted kept (some rest) = some (kept ++ redacted ++ rest)

abbrev pub secret_keys : List Text
secret_keys =
    codes "smtp_secret="
    ∷ codes "smtp-secret="
    ∷ codes "smtp_token="
    ∷ codes "smtp-token="
    ∷ codes "smtp_password="
    ∷ codes "smtp-password="
    ∷ codes "password="
    ∷ codes "token="
    ∷ codes "secret="
    ∷ codes "smtp_secret:"
    ∷ codes "smtp-token:"
    ∷ codes "smtp_password:"
    ∷ codes "smtp-password:"
    ∷ codes "password:"
    ∷ codes "token:"
    ∷ codes "secret:"
    ∷ []

-- How strings.ToLower maps a text that is not ASCII.
module _ (unicode_lower : Text → Text) where
  -- redactNotificationAssignment: the rounds of its loop run on fuel. It gives none where the fuel
  -- is used up, and where an index that is found in the lower-case text lies outside the text
  -- itself, at which Go panics.
  unfoldable pub redact_assignment : ℕ → Text → Text → Option Text
  unfolding write_redacted lower_text
  redact_assignment zero key message = none
  redact_assignment (suc fuel) key message =
      elim (index_of (lower_text unicode_lower message) key) [
        | none ↦ some message
        | some idx ↦
            if ltb (length message) (idx + length key)
            then none
            else write_redacted (take (idx + length key) message)
                (redact_assignment fuel key (after_value (drop (idx + length key) message)))
      ]

  -- Each key's loop has the fuel that its text needs.
  unfoldable pub redact_keys : List Text → Text → Option Text
  redact_keys [] message = some message
  redact_keys (key ∷ keys) message = elim (redact_assignment (suc (length message)) key message) [
    | none ↦ none
    | some m ↦ redact_keys keys m
  ]

  -- redactNotificationSecretAssignments
  unfoldable pub redact_assignments : Text → Option Text
  unfolding redact_keys
  redact_assignments message = redact_keys secret_keys message
