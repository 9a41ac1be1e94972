-- ===== src/Outbox/Sanitize.antt =====
-- pkg/service/notification.go: sanitizeNotificationError and redactNotificationSecretWords;
-- pkg/provider/notification_webhook.go: SanitizeWebhookError. The spaces are those of ASCII; net/url
-- and strings.ToLower on texts that are not ASCII are arguments.
use hsync_server.Prelude.{
  ℕ, ltb, Bool, true, false, not, ◌||◌, Option, none, some, List, [], ◌∷◌, Text, text_eqb,
  if◌then◌else◌, nat_eqb, take, length,
}
use hsync_server.GoStrings.{codes, trim_right, trim_space, has_suffix}
use hsync_server.GoStrings.Ascii.{lower_text}
use hsync_server.GoStrings.Words.{fields, join, contains, trim, replace_first}
use hsync_server.Outbox.Redaction.{redacted, redact_keys, redact_assignments}

unfoldable pub quotes_url : ℕ → Bool
quotes_url c =
    nat_eqb c 34
    || nat_eqb c 39
    || nat_eqb c b'('
    || nat_eqb c b')'
    || nat_eqb c b','
    || nat_eqb c b';'

unfoldable pub quotes_word : ℕ → Bool
unfolding quotes_url
quotes_word c =
    quotes_url c
    || nat_eqb c b'['
    || nat_eqb c b']'
    || nat_eqb c b'{'
    || nat_eqb c b'}'
    || nat_eqb c b'<'
    || nat_eqb c b'>'

-- The fields of url.URL that the code uses.
pub record Url : Type 0 where
  pub scheme : Text
  pub host : Text
  pub user : Option Text
  pub path : Text
  pub raw_query : Text
  pub fragment : Text

-- sanitizeWebhookURL, before u.String().
unfoldable pub clean_url : Url → Url
clean_url u = record u {
  user = none;
  raw_query = [];
  fragment = [];
  path = if text_eqb u.path [] || text_eqb u.path (codes "/") then u.path else codes "/...";
}

abbrev pub sensitive_keys : List Text
sensitive_keys = codes "token=" ∷ codes "secret=" ∷ codes "signature=" ∷ codes "key=" ∷ []

-- url.Parse, none for an error, and URL.String.
module _ (parse_url : Text → Option Url) (url_text : Url → Text) where
  -- The text for a webhook's address, where the text is one.
  unfoldable pub webhook_url : Text → Option Text
  unfolding clean_url
  webhook_url s = elim (parse_url s) [
    | none ↦ none
    | some u ↦
        if text_eqb u.scheme [] || text_eqb u.host [] then none else some (url_text (clean_url u))
  ]

  unfoldable pub sanitize_field : Text → Text
  unfolding webhook_url replace_first trim
  sanitize_field field =
      let trimmed = trim quotes_url field in
      elim (webhook_url trimmed) [ none ↦ field | some clean ↦ replace_first field trimmed clean ]

  unfoldable pub sanitize_fields : List Text → List Text
  unfolding sanitize_field
  sanitize_fields [] = []
  sanitize_fields (f ∷ fs) = sanitize_field f ∷ sanitize_fields fs

  -- SanitizeWebhookError. The loop of redactSensitiveAssignment is that of
  -- redactNotificationAssignment.
  unfoldable pub sanitize_webhook_error : (Text → Text) → Text → Option Text
  unfolding webhook_url sanitize_fields fields join trim_space
  sanitize_webhook_error unicode_lower message =
      let s = trim_space message in
      if text_eqb s [] then some [] else elim (webhook_url s) [
        | some clean ↦ some clean
        | none ↦ redact_keys unicode_lower sensitive_keys (join (sanitize_fields (fields s)))
      ]

-- notificationSecretMarker
unfoldable pub secret_marker : Text → Bool
secret_marker value =
    text_eqb value (codes "secret")
    || text_eqb value (codes "token")
    || text_eqb value (codes "password")
    || text_eqb value (codes "smtp_secret")
    || text_eqb value (codes "smtp-password")
    || text_eqb value (codes "smtp_token")
    || text_eqb value (codes "smtp-token")

-- Whether a round of the loop overwrites the field after it.
unfoldable pub marks_next : (Text → Text) → Text → Bool
unfolding quotes_word secret_marker contains trim
marks_next unicode_lower field =
    let trimmed = trim quotes_word field in
    let normalized =
      lower_text unicode_lower (trim_right (λ c. nat_eqb c b':' || nat_eqb c b'=') trimmed) in
    if not (secret_marker normalized)
    then false
    else if has_suffix trimmed (codes ":") || has_suffix trimmed (codes "=")
    then true
    else not (contains field redacted)

-- The loop of redactNotificationSecretWords from a field on, and whether the round before it
-- overwrote that field.
unfoldable pub redact_fields : (Text → Text) → Bool → List Text → List Text
unfolding marks_next
redact_fields unicode_lower over [] = []
redact_fields unicode_lower over (f ∷ fs) =
    let field = if over then redacted else f in
    field ∷ redact_fields unicode_lower (marks_next unicode_lower field) fs

-- redactNotificationSecretWords
unfoldable pub redact_words : (Text → Text) → Text → Text
unfolding redact_fields
redact_words unicode_lower message = join (redact_fields unicode_lower false (fields message))

unfoldable pub shorten : Text → Text
shorten s = if ltb 240 (length s) then take 240 s else s

unfoldable pub finish_error : (Text → Text) → Option Text → Option Text
unfolding redact_words shorten
finish_error unicode_lower none = none
finish_error unicode_lower (some s) = some (shorten (trim_space (redact_words unicode_lower s)))

unfoldable pub after_webhook : (Text → Text) → Option Text → Option Text
unfolding finish_error
after_webhook unicode_lower none = none
after_webhook unicode_lower (some s) =
    finish_error unicode_lower (redact_assignments unicode_lower s)

-- sanitizeNotificationError, of no error or the text of one; none where it panics.
unfoldable pub sanitize_notification_error :
    (Text → Text) → (Text → Option Url) → (Url → Text) → Option Text → Option Text
unfolding after_webhook
sanitize_notification_error unicode_lower parse_url url_text none = some []
sanitize_notification_error unicode_lower parse_url url_text (some message) =
    after_webhook unicode_lower (sanitize_webhook_error parse_url url_text unicode_lower message)
